-- ===== src/Ingestion/Analyzer/Examples.antt =====
-- The analysis of two files, over a graph that is a list of edges. Its paths are right in the graph of
-- one edge, which is that of the example.
use runtime_ops.Base.{
  Text, codes, text_eq, text_eq_iff, text_eq_refl, ℕ, suc, ◌≤◌, ◌≡◌, ◌≢◌, ◌↔◌, ◌⊎◌, refl, sym, ◌∙◌,
  inl, inr, Bool, true, false, ◌&&◌, ◌||◌, Option, none, some, List, [], ◌∷◌, ◌++◌, map, select,
  any, if◌then◌else◌, Bool-cases, starts_with, arith,
}
use runtime_ops.Ingestion.Networkx.{Networkx, Walk, here, step, Paths}
use runtime_ops.Ingestion.Analyzer.{
  ImportStatement, ParseResult, service_of, build_dependency_graph, no_dependencies,
  compute_blast_radius,
}
use runtime_ops.Ingestion.Analyzer.FullPaths.{or_root, full_paths_unlinked}
use runtime_ops.Ingestion.Analyzer.Resolve.{is_full, Pathlib, first_in, resolve_import_to_file}
use runtime_ops.Ingestion.Analyzer.BlastRadius.{Reached, blast_radius_iff}

pub record Edges : Type 0 where
  pub nodes : List Text
  pub edges : List (Text × Text)

abbrev is_edge : Text → Text → Text × Text → Bool
is_edge s t (a, b) = text_eq a s && text_eq b t

abbrev targets : Text → List (Text × Text) → List Text
targets s edges = map (λ p. p.1) (select (λ p. text_eq p.0 s) edges)

abbrev sources : Text → List (Text × Text) → List Text
sources t edges = map (λ p. p.0) (select (λ p. text_eq p.1 t) edges)

abbrev one_step : Edges → Text → Text → Option ℕ
one_step g s t = if text_eq s t then some 0 else if any (is_edge s t) g.edges then some 1 else none

abbrev networkx : Networkx
networkx = record {
  Graph = Edges;
  empty = record { nodes = []; edges = [] };
  add_node = λ n g. record g { nodes = n ∷ g.nodes };
  add_edge = λ a b g. record { nodes = a ∷ b ∷ g.nodes; edges = (a, b) ∷ g.edges };
  has_node = λ g n. any (λ m. text_eq m n) g.nodes;
  has_edge = λ g s t. any (is_edge s t) g.edges;
  descendants = λ g s. targets s g.edges;
  ancestors = λ g t. sources t g.edges;
  shortest_path_length = one_step;
  has_node-empty = λ n. refl;
  has_edge-empty = λ m n. refl;
  has_node-add_node = λ g m n. refl;
  has_edge-add_node = λ g m a b. refl;
  has_node-add_edge = λ g a b n. refl;
  has_edge-add_edge = λ g a b m n. refl;
}

abbrev a_py : Text
a_py = codes "a.py"

abbrev b_py : Text
b_py = codes "b.py"

abbrev one_edge : Edges
one_edge = record { nodes = a_py ∷ b_py ∷ []; edges = (a_py, b_py) ∷ [] }

edge_ends : (s t : Text) → networkx.has_edge one_edge s t ≡ true → (s ≡ a_py) × (t ≡ b_py)
edge_ends s t h =
    (sym ((text_eq_iff a_py s).0 (ground arith)), sym ((text_eq_iff b_py t).0 (ground arith)))

differ : a_py ≢ b_py
unfolding text_eq
differ e = cc ((text_eq_iff a_py b_py).1 e)

Walk-ends :
    (s t : Text) (n : ℕ)
    → Walk (networkx.has_edge one_edge) s n t
    → (t ≡ s) ⊎ ((s ≡ a_py) × (t ≡ b_py) × (1 ≤ n))
Walk-ends s _ _ here = inl refl
Walk-ends s c (suc n) (step {b = b} w e) = go (edge_ends b c e) (Walk-ends s b n w)
  where
    go :
        (b ≡ a_py) × (c ≡ b_py)
        → (b ≡ s) ⊎ ((s ≡ a_py) × (b ≡ b_py) × (1 ≤ n))
        → (c ≡ s) ⊎ ((s ≡ a_py) × (c ≡ b_py) × (1 ≤ suc n))
    go (p, q) (inl same) = inr (sym same ∙ p, q, omega arith)
    go (p, q) (inr (k, l, m)) = absurd (differ (sym p ∙ l))

the_edge : Walk (networkx.has_edge one_edge) a_py 1 b_py
unfolding text_eq
the_edge = step here refl

descends :
    (s t : Text)
    → any (text_eq t) (networkx.descendants one_edge s) ≡ true
    → (s ≡ a_py) × (t ≡ b_py)
descends s t h = elim (Bool-cases (text_eq a_py s)) [
  | inl e ↦ (sym ((text_eq_iff a_py s).0 e), (text_eq_iff t b_py).0 (either (rw e at h)))
  | inr e ↦ absurd (cc (rw e at h))
]
  where
    either : (text_eq t b_py || false) ≡ true → text_eq t b_py ≡ true
    either h = ground arith

path_found :
    (s t : Text) (n : ℕ) → one_step one_edge s t ≡ some n → Walk (networkx.has_edge one_edge) s n t
path_found s t n h = elim (Bool-cases (text_eq s t)) [
  | inl e ↦ none_needed ((text_eq_iff s t).0 e) (rw e at h)
  | inr e ↦ elim (Bool-cases (any (is_edge s t) one_edge.edges)) [
    | inl f ↦ one_needed (edge_ends s t f) (rw (e, f) at h)
    | inr f ↦ absurd (cc (rw (e, f) at h))
  ]
]
  where
    none_needed : s ≡ t → some 0 ≡ some n → Walk (networkx.has_edge one_edge) s n t
    none_needed e m = rw (e, count m) here
      where
        count : some 0 ≡ some n → n ≡ 0
        count m = cc m

    one_needed : (s ≡ a_py) × (t ≡ b_py) → some 1 ≡ some n → Walk (networkx.has_edge one_edge) s n t
    one_needed (p, q) m = rw (p, q, count m) the_edge
      where
        count : some 1 ≡ some n → n ≡ 1
        count m = cc m

shortest :
    (s t : Text) (m : ℕ)
    → Walk (networkx.has_edge one_edge) s m t
    → (n : ℕ) × (one_step one_edge s t ≡ some n) × (n ≤ m)
unfolding text_eq
shortest s t m w = elim (Walk-ends s t m w) [
  | inl same ↦ (0, rw (same, text_eq_refl s) refl, omega arith)
  | inr (p, q, r) ↦ (1, rw (p, q) refl, r)
]

distances : Paths networkx one_edge
unfolding text_eq
distances = record {
  descendants_iff = λ s t h. (
    λ m.
        let (p, q) = descends s t m in (λ e. differ (sym p ∙ (sym e ∙ q)), (1, rw (p, q) the_edge)),
    λ (ne, (n, w)). elim (Walk-ends s t n w) [
      | inl same ↦ absurd (ne same)
      | inr (p, q, r) ↦ rw (p, q) refl
    ],
  );
  path_exists = path_found;
  path_shortest = shortest;
}

blast_radius_iff_example :
    (any (text_eq b_py) (compute_blast_radius networkx one_edge (a_py ∷ []) 5) ≡ true) ↔ (
      (any (text_eq b_py) (a_py ∷ []) ≡ true)
      ⊎ Reached networkx one_edge distances (a_py ∷ []) 5 b_py)
blast_radius_iff_example = blast_radius_iff networkx one_edge distances (a_py ∷ []) 5 b_py

-- The file `/r/a` imports `b`, which lies beside it.
abbrev import_b : ImportStatement
import_b = record { module_name = codes "b"; is_relative = true }

abbrev results : List ParseResult
results =
    record { file_path = codes "/r/a.py"; language = codes "python"; imports = import_b ∷ [] }
    ∷ record { file_path = codes "/r/b.py"; language = codes "python"; imports = [] }
    ∷ []

b_is_below : (relative : Text) → some b_py ≡ some relative → is_full relative ≡ false
unfolding starts_with
b_is_below relative e = rw⁻¹ (same e) refl
  where
    same : some b_py ≡ some relative → b_py ≡ relative
    same e = cc e

-- A disk with the one file `/r/b.py`.
abbrev relative_path : Text → Text → Option Text
relative_path path base = if text_eq path (codes "/r/b.py") then some b_py else none

relative_path_below :
    (path base relative : Text) → relative_path path base ≡ some relative → is_full relative ≡ false
relative_path_below path base relative e = elim (Bool-cases (text_eq path (codes "/r/b.py"))) [
  | inl f ↦ b_is_below relative (rw f at e)
  | inr f ↦ absurd (cc (rw f at e))
]

abbrev disk : Pathlib
disk = record {
  parent = λ path. codes "/r";
  join = λ path name. path ++ (codes "/" ++ name);
  exists = text_eq (codes "/r/b.py");
  relative_to = relative_path;
  relative_to_lem = relative_path_below;
}

full_paths_unlinked_example :
    let resolve = resolve_import_to_file disk (codes "/r") in
    let after =
      build_dependency_graph networkx resolve results (no_dependencies networkx resolve) in
    (networkx.has_edge after.dependency_graph (codes "/r/a.py") (codes "/r/b.py") ≡ false)
    × (true ≡ true
        → (networkx.has_edge after.dependency_graph (codes "/r/a.py") (codes "/r/b.py") ≡ false)
          × ((before : Option Text)
              → service_of
                  (record { name = codes "app"; files = b_py ∷ [] } ∷ [])
                  before
                  (codes "/r/b.py")
                ≡ or_root before))
unfolding starts_with text_eq no_dependencies resolve_import_to_file first_in
full_paths_unlinked_example =
    full_paths_unlinked networkx disk (codes "/r") results
      (record { name = codes "app"; files = b_py ∷ [] } ∷ [])
      (no_dependencies networkx (resolve_import_to_file disk (codes "/r"))) refl refl refl
      (codes "/r/a.py") (codes "/r/b.py")
