-- ===== src/Ingestion/Orchestrator/Ingest/Examples.antt =====
-- Ingestion at concrete inputs: a repository of two files, and a run that fails in its third stage.
use runtime_ops.Base.{
  contains, starts_with, Text, codes, text_eq, ℕ, ◌≤◌, ◌≡◌, refl, true, false, none, some, [], ◌∷◌,
  length, if◌then◌else◌,
}
use runtime_ops.Ingestion.Orchestrator.{
  should_parse_file, Attempt, returned, raised, LanguageParser, Stages,
}
use runtime_ops.Ingestion.Orchestrator.Ingest.{ingest_repository, get_progress, sum_symbols}
use runtime_ops.Ingestion.Orchestrator.Ingest.Fresh.{
  failed_progress, no_checkpoints, Call, ingest_all, progress_after, retry_starts_over,
}
use runtime_ops.Ingestion.Orchestrator.Ingest.Counts.{Arranges, progress_counts}
use runtime_ops.Ingestion.Orchestrator.Ingest.Pipeline.{Answers, pipeline, ingest_runs_pipeline}

abbrev python : LanguageParser
python = record {
  file_extensions = codes ".py" ∷ [];
  can_parse = λ f. true;
  parse_file =
      λ f. if text_eq f (codes "r/bad.py") then none else some (record { file = f; symbols = 3 });
}

abbrev stages_with : Attempt ℕ → Stages ℕ ℕ ℕ ℕ
stages_with analysis = record {
  clone_repository = returned (codes "r", 7);
  rglob = λ repo ext. returned (codes "r/a.py" ∷ codes "r/bad.py" ∷ []);
  parsers = python ∷ [];
  arrange = λ files. files;
  analyze = λ repo results. analysis;
  embed_parse_results = λ results. returned (1 ∷ 2 ∷ []);
  extract_conventions = λ results. returned [];
}

abbrev working : Stages ℕ ℕ ℕ ℕ
working = stages_with (returned 5)

abbrev broken : Stages ℕ ℕ ℕ ℕ
broken = stages_with (raised (codes "out of memory"))

in_order : Arranges (λ files. files)
in_order test files = refl

abbrev job : Text
job = codes "ingest_1"

abbrev failing : Call ℕ ℕ ℕ ℕ
failing = record { job_id = job; repo_url = codes "u"; stages = broken }

abbrev again : Call ℕ ℕ ℕ ℕ
again = record { job_id = job; repo_url = codes "u"; stages = working }

retry_starts_over_example :
    (ingest_repository working job (codes "u") (ingest_all (failing ∷ []) no_checkpoints)).0
    ≡ (ingest_repository working job (codes "u") no_checkpoints).0
retry_starts_over_example = retry_starts_over (failing ∷ []) again

progress_after_example :
    let (result, left) = ingest_repository broken job (codes "u") no_checkpoints in
    get_progress left job ≡ (if result.success then none else some (failed_progress job))
progress_after_example = progress_after broken job (codes "u") no_checkpoints

other : text_eq job (codes "ingest_2") ≡ false
unfolding text_eq
other = refl

progress_counts_example :
    let result = (ingest_repository working job (codes "u") no_checkpoints).0 in
    (result.progress.processed_files ≤ result.progress.total_files)
    × (result.success ≡ true
        → (result.progress.processed_files ≡ length result.parse_results)
          × (result.progress.total_symbols ≡ sum_symbols result.parse_results)
          × (result.progress.total_embeddings ≡ length result.embeddings))
progress_counts_example = progress_counts working in_order job (codes "u") no_checkpoints refl

ingest_runs_pipeline_example :
    Answers
      (ingest_repository working job (codes "u") (ingest_all (failing ∷ []) no_checkpoints)).0
      (pipeline working)
ingest_runs_pipeline_example = ingest_runs_pipeline (failing ∷ []) again

latest_skipped : should_parse_file (codes "/tmp/latest/") ≡ false
unfolding should_parse_file contains starts_with
latest_skipped = refl
