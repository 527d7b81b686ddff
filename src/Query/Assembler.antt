-- ===== src/Query/Assembler.antt =====
-- src/bob/query/assembler.py: scored results, their order, the token budget and the filters.
-- The graph queries are an argument (`Graph`, with None where one raises), and so is the arithmetic
-- of Python's `float` (`Floats`).
pub mod Budget
pub mod Scores
pub mod Unique
pub mod Examples
use runtime_ops.Base.{
  Text, codes, text_eq, ℕ, ◌+◌, ◌*◌, Bool, true, false, not, ◌||◌, ◌&&◌, Option, none, some, List,
  [], ◌∷◌, ◌++◌, map, length, select, any, ltb, ◌==◌, if◌then◌else◌, somes, ◌≡◌, ◌>>=◌,
}

-- `float`, with the literals and the operations that the assembler uses.
pub record Floats : Type 1 where
  pub Float : Type 0
  pub zero : Float
  pub one : Float
  pub half : Float
  pub thirty_five_hundredths : Float
  pub fifteen_hundredths : Float
  pub add : Float → Float → Float
  pub mul : Float → Float → Float
  -- `n / 50.0`
  pub fiftieths : ℕ → Float
  pub lt : Float → Float → Bool
  pub le : Float → Float → Bool
  pub lt_asym : (a b : Float) → lt a b ≡ true → lt b a ≡ false
  pub zero_lt_one : lt zero one ≡ true

-- `Evidence`
pub record Evidence : Type 0 where
  pub file_path : Text
  pub line_range : ℕ × ℕ
  pub commit_sha : Option Text
  pub author : Option Text
  pub last_modified : Option Text

-- One commit of a `git blame`, and the metrics of a file.
pub record Commit : Type 0 where
  pub commit_hash : Text
  pub author : Text
  pub commit_date : Text

module _ (F : Floats) where
  open F use {Float}

  pub record Metrics : Type 0 where
    pub imports_count : ℕ
    pub importers_count : ℕ
    pub fan_in : ℕ
    pub fan_out : ℕ
    pub acs_score : Option Float
    pub total_lines : ℕ

  pub record Graph : Type 0 where
    pub get_file_metrics : Text → Option Metrics
    pub get_git_blame : Text → ℕ × ℕ → Option (List Commit)

  -- A dictionary from the vector store; None for a key that is missing.
  pub record RawResult : Type 0 where
    pub file_path : Option Text
    pub symbol_name : Option Text
    pub symbol_type : Option Text
    pub start_line : Option ℕ
    pub end_line : Option ℕ
    pub content : Option Text
    pub language : Option Text
    pub certainty : Option Float
    pub rerank_score : Option Float

  -- The metadata that the assembler writes.
  pub record Metadata : Type 0 where
    pub vector_similarity : Float
    pub rerank_score : Float
    pub graph_centrality : Float
    pub dependency_count : ℕ
    pub acs_score : Option Float
    pub total_lines : ℕ

  -- `AssembledResult`
  pub record AssembledResult : Type 0 where
    pub file_path : Text
    pub symbol_name : Text
    pub symbol_type : Text
    pub start_line : ℕ
    pub end_line : ℕ
    pub content : Text
    pub language : Text
    pub confidence : Float
    pub evidence : Evidence
    pub metadata : Metadata

abbrev pub get_or {ℓ} : {A : Type ℓ} → A → Option A → A
get_or d none = d
get_or d (some a) = a

-- `k: xs[0]... if xs else None`
abbrev pub head_field {ℓ} : {A : Type ℓ} → (Commit → A) → List Commit → Option A
head_field f [] = none
head_field f (c ∷ cs) = some (f c)

module _ (F : Floats) where
  open F use {
    Float, zero, one, half, thirty_five_hundredths, fifteen_hundredths, add, mul, fiftieths, lt,
  }

  -- `min(a, b)` and `max(a, b)`: the first, unless the second is strictly better.
  abbrev pub min_float : Float → Float → Float
  min_float a b = if lt b a then b else a

  abbrev pub max_float : Float → Float → Float
  max_float a b = if lt a b then b else a

  -- `self.weights`: of the similarity, of the re-rank score and of the centrality.
  abbrev pub similarity_weight : Float
  similarity_weight = half

  abbrev pub rerank_weight : Bool → Float
  rerank_weight enabled = if enabled then thirty_five_hundredths else zero

  abbrev pub centrality_weight : Bool → Float
  centrality_weight enabled = if not enabled then fifteen_hundredths else half

  -- `_rerank_results`
  default_score : RawResult F → RawResult F
  default_score r = record r { rerank_score = some (get_or half r.certainty) }

  pub rerank_results : List (RawResult F) → List (RawResult F)
  unfolding default_score
  rerank_results = map default_score

  -- `_calculate_centrality`; None for the empty dictionary.
  pub calculate_centrality : Option (Metrics F) → Float
  calculate_centrality none = zero
  calculate_centrality (some m) = min_float (fiftieths (m.fan_in + m.fan_out)) one

  -- `_calculate_confidence`
  pub calculate_confidence : Bool → Metadata F → Float
  calculate_confidence enabled m =
      let similar = add zero (mul m.vector_similarity similarity_weight) in
      let ranked =
        if enabled then add similar (mul m.rerank_score (rerank_weight enabled)) else similar in
      let total = add ranked (mul m.graph_centrality (centrality_weight enabled)) in
      max_float zero (min_float one total)

module _ (F : Floats) (enable_reranking : Bool) (graph : Graph F) where
  open F use {Float, zero}

  -- The body of the loop over the raw results; None where it raises, and the result is skipped.
  with_blame :
      RawResult F → Option (Metrics F) → Text → ℕ → ℕ → List Commit → Option (AssembledResult F)
  with_blame r metrics path start end commits = do
    symbol_name ← r.symbol_name
    symbol_type ← r.symbol_type
    content ← r.content
    language ← r.language
    let metadata : Metadata F = record {
      vector_similarity = get_or zero r.certainty;
      rerank_score = get_or zero r.rerank_score;
      graph_centrality = calculate_centrality F metrics;
      dependency_count = elim metrics [ none ↦ 0 | some m ↦ m.imports_count + m.importers_count ];
      acs_score = elim metrics [ none ↦ none | some m ↦ m.acs_score ];
      total_lines = elim metrics [ none ↦ 0 | some m ↦ m.total_lines ];
    }
    some (record {
      file_path = path;
      symbol_name = symbol_name;
      symbol_type = symbol_type;
      start_line = start;
      end_line = end;
      content = content;
      language = language;
      confidence = calculate_confidence F enable_reranking metadata;
      evidence = record {
        file_path = path;
        line_range = (start, end);
        commit_sha = head_field (λ c. c.commit_hash) commits;
        author = head_field (λ c. c.author) commits;
        last_modified = head_field (λ c. c.commit_date) commits;
      };
      metadata = metadata;
    })

  -- The metrics are asked for only where the metadata is wanted.
  file_metadata : Bool → Text → Option (Option (Metrics F))
  file_metadata false path = some none
  file_metadata true path = graph.get_file_metrics path >>= λ m. some (some m)

  pub assemble_result : Bool → RawResult F → Option (AssembledResult F)
  unfolding with_blame file_metadata
  assemble_result include_graph_metadata r = do
    path ← r.file_path
    metrics ← file_metadata include_graph_metadata path
    start ← r.start_line
    end ← r.end_line
    commits ← graph.get_git_blame path (start, end)
    with_blame r metrics path start end commits

module _ {F : Floats} where
  open F use {Float, lt, le}

  -- `sort(key=..., reverse=True)`: stable, the greatest confidence first.
  unfoldable pub insert : AssembledResult F → List (AssembledResult F) → List (AssembledResult F)
  insert r [] = r ∷ []
  insert r (s ∷ rest) =
      let later = insert r rest in if lt r.confidence s.confidence then s ∷ later else r ∷ s ∷ rest

  unfoldable pub sort_by_confidence : List (AssembledResult F) → List (AssembledResult F)
  sort_by_confidence [] = []
  sort_by_confidence (r ∷ rest) = insert r (sort_by_confidence rest)

  abbrev pub result_chars : AssembledResult F → ℕ
  result_chars r = length r.content + length r.file_path + 200

  -- The loop of `_trim_to_token_budget`, with the characters that are taken so far.
  trim : ℕ → ℕ → List (AssembledResult F) → List (AssembledResult F)
  trim max_chars total_chars [] = []
  trim max_chars total_chars (r ∷ rest) =
      let more = trim max_chars (total_chars + result_chars r) rest in
      if ltb max_chars (total_chars + result_chars r) then [] else r ∷ more

  -- `_trim_to_token_budget`
  pub trim_to_token_budget : ℕ → List (AssembledResult F) → List (AssembledResult F)
  trim_to_token_budget max_tokens results = trim (max_tokens * 4) 0 results

  -- `filter_by_confidence`
  unfoldable pub filter_by_confidence : Float → List (AssembledResult F) → List (AssembledResult F)
  filter_by_confidence min_confidence = select (λ r. le min_confidence r.confidence)

  -- The key by which results are the same.
  abbrev pub same_result : AssembledResult F → AssembledResult F → Bool
  same_result r s =
      text_eq r.file_path s.file_path
      && (text_eq r.symbol_name s.symbol_name && r.start_line == s.start_line)

  -- The loop of `deduplicate_results`, with the results whose keys are in `seen`.
  dedup : List (AssembledResult F) → List (AssembledResult F) → List (AssembledResult F)
  dedup seen [] = []
  dedup seen (r ∷ rest) =
      let skipped = dedup seen rest in
      let kept = dedup (r ∷ seen) rest in if any (same_result r) seen then skipped else r ∷ kept

  -- `deduplicate_results`
  pub deduplicate_results : List (AssembledResult F) → List (AssembledResult F)
  deduplicate_results = dedup []

-- `assemble_search_results`
module _ (F : Floats) (enable_reranking : Bool) (max_tokens : ℕ) (graph : Graph F) where
  pub assemble_search_results : Bool → List (RawResult F) → List (AssembledResult F)
  assemble_search_results include_graph_metadata raw_results =
      let ranked = if enable_reranking then rerank_results F raw_results else raw_results in
      trim_to_token_budget max_tokens (
        sort_by_confidence
          (somes (assemble_result F enable_reranking graph include_graph_metadata) ranked))
