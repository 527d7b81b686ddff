-- ===== src/Ingestion/Networkx.antt =====
-- Directed graphs of the library networkx, as `DiGraph` and its functions are documented. Attributes of
-- nodes and edges, which the analysis only writes, are left out.
use runtime_ops.Base.{
  Text, text_eq, ℕ, zero, suc, ◌≤◌, ◌≡◌, ◌≢◌, ◌↔◌, Bool, true, false, ◌&&◌, ◌||◌, Option, some,
  List, any,
}

pub record Networkx : Type 1 where
  pub Graph : Type 0
  pub empty : Graph
  pub add_node : Text → Graph → Graph
  -- The ends of an edge become nodes.
  pub add_edge : Text → Text → Graph → Graph
  pub has_node : Graph → Text → Bool
  pub has_edge : Graph → Text → Text → Bool
  pub descendants : Graph → Text → List Text
  pub ancestors : Graph → Text → List Text
  -- None is `NetworkXNoPath`.
  pub shortest_path_length : Graph → Text → Text → Option ℕ
  pub has_node-empty : (n : Text) → has_node empty n ≡ false
  pub has_edge-empty : (m n : Text) → has_edge empty m n ≡ false
  pub has_node-add_node :
      (g : Graph) (m n : Text) → has_node (add_node m g) n ≡ (text_eq m n || has_node g n)
  pub has_edge-add_node : (g : Graph) (m a b : Text) → has_edge (add_node m g) a b ≡ has_edge g a b
  pub has_node-add_edge :
      (g : Graph) (a b n : Text)
      → has_node (add_edge a b g) n ≡ (text_eq a n || (text_eq b n || has_node g n))
  pub has_edge-add_edge :
      (g : Graph) (a b m n : Text)
      → has_edge (add_edge a b g) m n ≡ (text_eq a m && text_eq b n || has_edge g m n)

-- A walk of so many edges.
pub data Walk (edge : Text → Text → Bool) (a : Text) : ℕ → Text → Type 0 where
  here : Walk edge a zero a
  step : {n : ℕ} {b c : Text} → Walk edge a n b → edge b c ≡ true → Walk edge a (suc n) c

-- What is documented of the functions on paths, for one graph.
pub record Paths (nx : Networkx) (g : nx.Graph) : Type 0 where
  pub descendants_iff :
      (a b : Text)
      → nx.has_node g a ≡ true
      → (any (text_eq b) (nx.descendants g a) ≡ true)
        ↔ ((b ≢ a) × ((n : ℕ) × Walk (nx.has_edge g) a n b))
  pub path_exists :
      (a b : Text) (n : ℕ) → nx.shortest_path_length g a b ≡ some n → Walk (nx.has_edge g) a n b
  pub path_shortest :
      (a b : Text) (m : ℕ)
      → Walk (nx.has_edge g) a m b
      → (n : ℕ) × (nx.shortest_path_length g a b ≡ some n) × (n ≤ m)
