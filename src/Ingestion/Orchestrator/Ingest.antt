-- ===== src/Ingestion/Orchestrator/Ingest.antt =====
-- `ingest_repository` of src/bob/ingestion/orchestrator.py, with its checkpoints, and `get_progress`.
mod Chains
mod Parsing
pub mod Fresh
pub mod Counts
pub mod Pipeline
pub mod Examples
use runtime_ops.Base.{
  Text, codes, text_eq, ℕ, ◌+◌, Bool, true, false, Option, none, some, List, [], ◌∷◌, length,
  if◌then◌else◌,
}
use runtime_ops.Ingestion.Orchestrator.{
  IngestionStatus, pending, fetching, parsing, analyzing, embedding, extracting_conventions,
  storing, completed, failed, IngestionProgress, Attempt, returned, raised, ParseResult, Stages,
  IngestionCheckpoint, IngestionResult, parse_repository, generate_embeddings,
}

-- What a call carries along: the checkpoints of all jobs, and the progress of its own.
abbrev pub Checkpoints : Type 0 → Type 0 → Type 0 → Type 0
Checkpoints Analysis Embedding Convention =
    Text → Option (IngestionCheckpoint Analysis Embedding Convention)

-- `if xs:` of a list or a dictionary, with the value where it is taken.
abbrev pub non_empty {ℓ} : {A : Type ℓ} → List A → Option (List A)
non_empty [] = none
non_empty (x ∷ xs) = some (x ∷ xs)

module _ {ℓ κ} {C : Type ℓ} {A : Type κ} where
  -- One stage: its value is taken from the checkpoint, or the stage runs and a checkpoint is saved.
  saved : (A → C → C) → C → Attempt A × IngestionProgress → Attempt A × (C × IngestionProgress)
  saved save cs (raised e, p) = (raised e, (cs, p))
  saved save cs (returned a, p) = (returned a, (save a cs, p))

  pub stage :
      Option A
      → IngestionStatus
      → (IngestionProgress → Attempt A × IngestionProgress)
      → (A → C → C)
      → C × IngestionProgress
      → Attempt A × (C × IngestionProgress)
  unfolding saved
  stage (some a) status work save run = (returned a, run)
  stage none status work save run = saved save run.0 (work (record run.1 { status = status }))

  -- What follows a stage that returns; an exception skips it.
  pub and_then {ι} :
      {B : Type ι}
      → Attempt A × (C × IngestionProgress)
      → (A → C × IngestionProgress → Attempt B × (C × IngestionProgress))
      → Attempt B × (C × IngestionProgress)
  and_then (raised e, run) rest = (raised e, run)
  and_then (returned a, run) rest = rest a run

module _ {Analysis Embedding Convention : Type 0} (job_id : Text) where
  -- `_save_checkpoint`
  pub save_checkpoint :
      IngestionStatus
      → Option Text
      → List ParseResult
      → Option Analysis
      → List Embedding
      → List (Text × Convention)
      → Option Text
      → Checkpoints Analysis Embedding Convention
      → Checkpoints Analysis Embedding Convention
  save_checkpoint status repo_path parse_results analysis_result embeddings conventions error
        checkpoints =
      let entry : IngestionCheckpoint Analysis Embedding Convention = record {
        job_id = job_id;
        status = status;
        repo_path = repo_path;
        parse_results = parse_results;
        analysis_result = analysis_result;
        embeddings = embeddings;
        conventions = conventions;
        error = error;
      } in
      λ k. if text_eq job_id k then some entry else checkpoints k

-- What the five stages give.
pub record Products (Metadata Analysis Embedding Convention : Type 0) : Type 0 where
  pub repo_metadata : Option Metadata
  pub parse_results : List ParseResult
  pub analysis_result : Analysis
  pub embeddings : List Embedding
  pub conventions : List (Text × Convention)

-- `progress`, at the start of a call.
abbrev pub new_progress : Text → IngestionProgress
new_progress job_id = record {
  job_id = job_id;
  status = pending;
  total_files = 0;
  processed_files = 0;
  total_symbols = 0;
  total_embeddings = 0;
  error = none;
}

fetched {ℓ κ} : {P : Type ℓ} {M : Type κ} → Attempt (P × M) → Attempt (P × Option M)
fetched (raised e) = raised e
fetched (returned (path, metadata)) = returned (path, some metadata)

-- The fields of a checkpoint that a stage may take its value from: `checkpoint and checkpoint.f`.
module _ {Metadata Analysis Embedding Convention : Type 0} where
  unfoldable pub resume_path :
      Option (IngestionCheckpoint Analysis Embedding Convention) → Option (Text × Option Metadata)
  resume_path none = none
  resume_path (some c) = elim c.repo_path [ none ↦ none | some path ↦ some (path, none) ]

module _ {Analysis Embedding Convention : Type 0} where
  unfoldable pub resume_parse_results :
      Option (IngestionCheckpoint Analysis Embedding Convention) → Option (List ParseResult)
  resume_parse_results none = none
  resume_parse_results (some c) = non_empty c.parse_results

  unfoldable pub resume_analysis :
      Option (IngestionCheckpoint Analysis Embedding Convention) → Option Analysis
  resume_analysis none = none
  resume_analysis (some c) = c.analysis_result

  unfoldable pub resume_embeddings :
      Option (IngestionCheckpoint Analysis Embedding Convention) → Option (List Embedding)
  resume_embeddings none = none
  resume_embeddings (some c) = non_empty c.embeddings

  unfoldable pub resume_conventions :
      Option (IngestionCheckpoint Analysis Embedding Convention) → Option (List (Text × Convention))
  resume_conventions none = none
  resume_conventions (some c) = non_empty c.conventions

module _ {Metadata Analysis Embedding Convention : Type 0}
    (stages : Stages Metadata Analysis Embedding Convention) (job_id : Text) where
  -- The body of the `try`, up to the end of stage 5.
  unfoldable pub run_stages :
      Option (IngestionCheckpoint Analysis Embedding Convention)
      → Checkpoints Analysis Embedding Convention × IngestionProgress
      → Attempt (Products Metadata Analysis Embedding Convention)
        × (Checkpoints Analysis Embedding Convention × IngestionProgress)
  unfolding fetched
  run_stages checkpoint run =
      and_then
        (stage (resume_path checkpoint) fetching (λ p. (fetched stages.clone_repository, p))
          (λ a. save_checkpoint job_id fetching (some a.0) [] none [] [] none) run)
        (λ a run.
          and_then
            (stage (resume_parse_results checkpoint) parsing (parse_repository stages a.0)
              (λ rs. save_checkpoint job_id parsing (some a.0) rs none [] [] none) run)
            (λ rs run.
              and_then
                (stage (resume_analysis checkpoint) analyzing (λ p. (stages.analyze a.0 rs, p))
                  (λ an. save_checkpoint job_id analyzing (some a.0) rs (some an) [] [] none) run)
                (λ an run.
                  and_then
                    (stage (resume_embeddings checkpoint) embedding (generate_embeddings stages rs)
                      (λ es. save_checkpoint job_id embedding (some a.0) rs (some an) es [] none)
                      run)
                    (λ es run.
                      and_then
                        (stage (resume_conventions checkpoint) extracting_conventions
                          (λ p. (stages.extract_conventions rs, p))
                          (λ cs.
                            save_checkpoint job_id extracting_conventions (some a.0) rs (some an) es
                              cs none)
                          run)
                        (λ cs run. (
                          returned (record {
                            repo_metadata = a.1;
                            parse_results = rs;
                            analysis_result = an;
                            embeddings = es;
                            conventions = cs;
                          }),
                          run,
                        ))))))

  -- The end of the `try` and the `except`: the result, and the checkpoints that are left.
  unfoldable pub conclude :
      Text
      → Attempt (Products Metadata Analysis Embedding Convention)
        × (Checkpoints Analysis Embedding Convention × IngestionProgress)
      → IngestionResult Metadata Analysis Embedding Convention
        × Checkpoints Analysis Embedding Convention
  conclude repo_url (returned products, (checkpoints, progress)) = (
    record {
      job_id = job_id;
      repo_url = repo_url;
      conventions = products.conventions;
      progress = record progress { status = completed };
      success = true;
      repo_metadata = products.repo_metadata;
      parse_results = products.parse_results;
      analysis_result = some products.analysis_result;
      embeddings = products.embeddings;
      error = none;
    },
    λ k. if text_eq job_id k then none else checkpoints k,
  )
  conclude repo_url (raised e, (checkpoints, progress)) = (
    record {
      job_id = job_id;
      repo_url = repo_url;
      conventions = [];
      progress = record progress { status = failed; error = some e };
      success = false;
      repo_metadata = none;
      parse_results = [];
      analysis_result = none;
      embeddings = [];
      error = some e;
    },
    save_checkpoint job_id failed none [] none [] [] (some e) checkpoints,
  )

  -- `ingest_repository`
  pub ingest_repository :
      Text
      → Checkpoints Analysis Embedding Convention
      → IngestionResult Metadata Analysis Embedding Convention
        × Checkpoints Analysis Embedding Convention
  ingest_repository repo_url checkpoints =
      conclude repo_url (run_stages (checkpoints job_id) (checkpoints, new_progress job_id))

abbrev pub sum_symbols : List ParseResult → ℕ
sum_symbols [] = 0
sum_symbols (r ∷ rs) = r.symbols + sum_symbols rs

module _ {Analysis Embedding Convention : Type 0} where
  progress_of :
      Text → Option (IngestionCheckpoint Analysis Embedding Convention) → Option IngestionProgress
  progress_of job_id none = none
  progress_of job_id (some c) = some (record {
    job_id = job_id;
    status = c.status;
    total_files = length c.parse_results;
    processed_files = length c.parse_results;
    total_symbols = sum_symbols c.parse_results;
    total_embeddings = length c.embeddings;
    error = none;
  })

  -- `get_progress`
  pub get_progress : Checkpoints Analysis Embedding Convention → Text → Option IngestionProgress
  unfolding progress_of
  get_progress checkpoints job_id = progress_of job_id (checkpoints job_id)
