-- ===== src/Ingestion/Orchestrator.antt =====
-- src/bob/ingestion/orchestrator.py: the stages of an ingestion and the checkpoints between them.
-- What the fetcher, the parsers, the analyzer, the embedder and the convention extractor do during a
-- call is an argument (`Stages`), and so is the order in which the parsing threads complete. Logging
-- and the clock (start, end, elapsed time) have no effect on the rest and are left out.
pub mod Skipped
pub mod Ingest
use runtime_ops.Base.{
  Text, codes, text_eq, contains, ℕ, ◌+◌, Bool, true, false, not, ◌||◌, Option, none, some, List,
  [], ◌∷◌, ◌++◌, map, length, select, any, if◌then◌else◌, String,
}

-- `IngestionStatus`
pub data IngestionStatus : Type 0 where
  pending fetching parsing analyzing embedding extracting_conventions storing completed failed :
      IngestionStatus

-- `IngestionProgress`
pub record IngestionProgress : Type 0 where
  pub job_id : Text
  pub status : IngestionStatus
  pub total_files : ℕ
  pub processed_files : ℕ
  pub total_symbols : ℕ
  pub total_embeddings : ℕ
  pub error : Option Text

-- A call that returns, or raises an exception with the text of `str(e)`.
pub data Attempt {ℓ} (A : Type ℓ) : Type ℓ where
  returned : A → Attempt A
  raised : Text → Attempt A

-- `ParseResult`, as far as the orchestrator reads it: the file and the number of symbols.
pub record ParseResult : Type 0 where
  pub file : Text
  pub symbols : ℕ

-- `LanguageParser`; `parse_file` gives None where it raises.
pub record LanguageParser : Type 0 where
  pub file_extensions : List Text
  pub can_parse : Text → Bool
  pub parse_file : Text → Option ParseResult

-- The components that the orchestrator calls, as they behave during one call of it. `arrange` is
-- the order in which the submitted files complete.
pub record Stages (Metadata Analysis Embedding Convention : Type 0) : Type 0 where
  pub clone_repository : Attempt (Text × Metadata)
  pub rglob : Text → Text → Attempt (List Text)
  pub parsers : List LanguageParser
  pub arrange : List Text → List Text
  pub analyze : Text → List ParseResult → Attempt Analysis
  pub embed_parse_results : List ParseResult → Attempt (List Embedding)
  pub extract_conventions : List ParseResult → Attempt (List (Text × Convention))

-- `IngestionCheckpoint`
pub record IngestionCheckpoint (Analysis Embedding Convention : Type 0) : Type 0 where
  pub job_id : Text
  pub status : IngestionStatus
  pub repo_path : Option Text
  pub parse_results : List ParseResult
  pub analysis_result : Option Analysis
  pub embeddings : List Embedding
  pub conventions : List (Text × Convention)
  pub error : Option Text

-- `IngestionResult`
pub record IngestionResult (Metadata Analysis Embedding Convention : Type 0) : Type 0 where
  pub job_id : Text
  pub repo_url : Text
  pub conventions : List (Text × Convention)
  pub progress : IngestionProgress
  pub success : Bool
  pub repo_metadata : Option Metadata
  pub parse_results : List ParseResult
  pub analysis_result : Option Analysis
  pub embeddings : List Embedding
  pub error : Option Text

-- `_should_parse_file`
abbrev pub skip_patterns : List Text
skip_patterns = map codes (
    "node_modules" ∷ "venv" ∷ "env" ∷ ".venv" ∷ "vendor" ∷ "target" ∷ "build" ∷ "dist"
    ∷ "__pycache__" ∷ ".git" ∷ "test" ∷ "tests" ∷ "spec" ∷ [])

unfoldable pub should_parse_file : Text → Bool
should_parse_file path = not (any (λ pattern. contains pattern path) skip_patterns)

-- `_get_parser_for_file`: the first parser that takes the file.
unfoldable pub get_parser_for_file : List LanguageParser → Text → Option LanguageParser
get_parser_for_file [] path = none
get_parser_for_file (p ∷ ps) path = if p.can_parse path then some p else get_parser_for_file ps path

-- `parse_single_file`
unfoldable pub parse_single_file : List LanguageParser → Text → Option ParseResult
unfolding get_parser_for_file
parse_single_file parsers path = elim (get_parser_for_file parsers path) [
  | none ↦ none
  | some p ↦ p.parse_file path
]

-- The loop over the completed futures.
add_result :
    Option ParseResult → List ParseResult × IngestionProgress → List ParseResult × IngestionProgress
add_result none acc = acc
add_result (some r) (results, progress) = (
  results ++ r ∷ [],
  record progress {
    processed_files = progress.processed_files + 1;
    total_symbols = progress.total_symbols + r.symbols;
  },
)

unfoldable pub collect :
    (Text → Option ParseResult)
    → List Text
    → List ParseResult × IngestionProgress
    → List ParseResult × IngestionProgress
unfolding add_result
collect parse [] acc = acc
collect parse (f ∷ fs) acc = collect parse fs (add_result (parse f) acc)

-- `set(...)`
unfoldable pub distinct : List Text → List Text
distinct [] = []
distinct (x ∷ xs) = let rest = distinct xs in if any (text_eq x) rest then rest else x ∷ rest

embedded {ℓ} :
    {E : Type ℓ} → IngestionProgress → Attempt (List E) → Attempt (List E) × IngestionProgress
embedded progress (raised e) = (raised e, progress)
embedded progress (returned es) = (returned es, record progress { total_embeddings = length es })

module _ {Metadata Analysis Embedding Convention : Type 0} where
  -- The search for source files: every extension of every parser.
  find_by : Stages Metadata Analysis Embedding Convention → Text → List Text → Attempt (List Text)
  find_by stages repo [] = returned []
  find_by stages repo (ext ∷ exts) = elim (stages.rglob repo ext) [
    | raised e ↦ raised e
    | returned files ↦ elim (find_by stages repo exts) [
      | raised e ↦ raised e
      | returned more ↦ returned (files ++ more)
    ]
  ]

  pub find_source_files :
      Stages Metadata Analysis Embedding Convention
      → Text
      → List LanguageParser
      → Attempt (List Text)
  unfolding find_by
  find_source_files stages repo [] = returned []
  find_source_files stages repo (p ∷ ps) = elim (find_by stages repo p.file_extensions) [
    | raised e ↦ raised e
    | returned files ↦ elim (find_source_files stages repo ps) [
      | raised e ↦ raised e
      | returned more ↦ returned (files ++ more)
    ]
  ]

  -- `_parse_repository`, which also changes the progress.
  parse_found :
      Stages Metadata Analysis Embedding Convention
      → IngestionProgress
      → Attempt (List Text)
      → Attempt (List ParseResult) × IngestionProgress
  parse_found stages progress (raised e) = (raised e, progress)
  parse_found stages progress (returned found) =
      let source_files = select should_parse_file (distinct found) in
      let (results, progress') =
        collect (parse_single_file stages.parsers) (stages.arrange source_files)
          ([], record progress { total_files = length source_files }) in
      (returned results, progress')

  pub parse_repository :
      Stages Metadata Analysis Embedding Convention
      → Text
      → IngestionProgress
      → Attempt (List ParseResult) × IngestionProgress
  unfolding parse_found
  parse_repository stages repo progress =
      parse_found stages progress (find_source_files stages repo stages.parsers)

  -- `_generate_embeddings`, which also changes the progress.
  pub generate_embeddings :
      Stages Metadata Analysis Embedding Convention
      → List ParseResult
      → IngestionProgress
      → Attempt (List Embedding) × IngestionProgress
  unfolding embedded
  generate_embeddings stages results progress =
      embedded progress (stages.embed_parse_results results)
