-- ===== src/Ingestion/Orchestrator/Ingest/Pipeline.antt =====
-- The plain sequence of the stages, without checkpoints and progress, and that a first call of a job
-- gives what it gives.
use runtime_ops.Base.{
  ap, ◌∙◌, sym, Text, ◌≡◌, refl, true, false, Option, none, some, List, [], ◌∷◌, ◌++◌, somes,
  select,
}
use mathlib.Core.List.{append_assoc, append-nil}
use runtime_ops.Ingestion.Orchestrator.{
  IngestionStatus, failed, completed, embedded, generate_embeddings, IngestionProgress, Attempt,
  returned, raised, ParseResult, Stages, IngestionResult, add_result, collect, should_parse_file,
  parse_single_file, distinct, find_source_files, parse_found, parse_repository,
}
use runtime_ops.Ingestion.Orchestrator.Ingest.{
  Checkpoints, stage, saved, and_then, Products, new_progress, resume_path, resume_parse_results,
  resume_analysis, resume_embeddings, resume_conventions, run_stages, conclude, ingest_repository,
  fetched,
}
use runtime_ops.Ingestion.Orchestrator.Ingest.Fresh.{
  no_checkpoints, Call, ingest_all, retry_starts_over,
}

-- What follows a value; an exception stops.
abbrev pub bind {ℓ κ} : {A : Type ℓ} {B : Type κ} → Attempt A → (A → Attempt B) → Attempt B
bind (raised e) f = raised e
bind (returned a) f = f a

embedded_value {ℓ} :
    {E : Type ℓ} (p : IngestionProgress) (o : Attempt (List E)) → (embedded p o).0 ≡ o
unfolding embedded
embedded_value p (raised e) = refl
embedded_value p (returned es) = refl

module _ {Metadata Analysis Embedding Convention : Type 0}
    (stages : Stages Metadata Analysis Embedding Convention) where
  -- The results of the files that are found and not skipped, in the order of completion.
  abbrev pub parse_all : Text → Attempt (List ParseResult)
  parse_all repo = bind (find_source_files stages repo stages.parsers) λ found. returned (
      somes (parse_single_file stages.parsers)
        (stages.arrange (select should_parse_file (distinct found))))

  -- Fetch, parse, analyze, embed, extract, one after another.
  abbrev pub pipeline : Attempt (Products Metadata Analysis Embedding Convention)
  pipeline = bind stages.clone_repository λ a. bind (parse_all a.0) λ rs.
      bind (stages.analyze a.0 rs) λ an. bind (stages.embed_parse_results rs) λ es.
        bind (stages.extract_conventions rs) λ cs. returned (record {
          repo_metadata = some a.1;
          parse_results = rs;
          analysis_result = an;
          embeddings = es;
          conventions = cs;
        })

  collect_value :
      (parse : Text → Option ParseResult) (files : List Text)
      (acc : List ParseResult × IngestionProgress)
      → (collect parse files acc).0 ≡ acc.0 ++ somes parse files
  unfolding collect add_result
  collect_value parse [] acc = sym (append-nil acc.0)
  collect_value parse (f ∷ fs) (rs, p) = added (parse f) (collect_value parse fs)
    where
      added :
          (o : Option ParseResult)
          → ((acc : List ParseResult × IngestionProgress)
              → (collect parse fs acc).0 ≡ acc.0 ++ somes parse fs)
          → (collect parse fs (add_result o (rs, p))).0
            ≡ rs ++ (elim o [ none ↦ somes parse fs | some y ↦ y ∷ somes parse fs ])
      added none further = further (rs, p)
      added (some r) further =
          further (add_result (some r) (rs, p)) ∙ append_assoc rs (r ∷ []) (somes parse fs)

  found_value :
      (p : IngestionProgress) (o : Attempt (List Text))
      → (parse_found stages p o).0
        ≡ bind o λ found. returned (
            somes
              (parse_single_file stages.parsers)
              (stages.arrange (select should_parse_file (distinct found))))
  unfolding parse_found
  found_value p (raised e) = refl
  found_value p (returned found) = ap returned (collect_value _ _ _)

  parse_value :
      (repo : Text) (p : IngestionProgress) → (parse_repository stages repo p).0 ≡ parse_all repo
  unfolding parse_repository
  parse_value repo p = found_value p (find_source_files stages repo stages.parsers)

  embed_value :
      (rs : List ParseResult) (p : IngestionProgress)
      → (generate_embeddings stages rs p).0 ≡ stages.embed_parse_results rs
  unfolding generate_embeddings
  embed_value rs p = embedded_value p (stages.embed_parse_results rs)

bind-fetched :
    {P M B : Type 0} (o : Attempt (P × M)) (g : P × Option M → Attempt B)
    → bind (fetched o) g ≡ bind o (λ a. g (a.0, some a.1))
unfolding fetched
bind-fetched (raised e) g = refl
bind-fetched (returned (p, m)) g = refl

module _ {A B C : Type 0} where
  -- A stage that runs gives what its work gives, and what follows it sees that value.
  stage_value :
      (st : IngestionStatus) (work : IngestionProgress → Attempt A × IngestionProgress)
      (save : A → C → C) (run : C × IngestionProgress)
      (f : A → C × IngestionProgress → Attempt B × (C × IngestionProgress)) (o : Attempt A)
      (g : A → Attempt B)
      → ((p : IngestionProgress) → (work p).0 ≡ o)
      → ((a : A) (run : C × IngestionProgress) → (f a run).0 ≡ g a)
      → (and_then (stage none st work save run) f).0 ≡ bind o g
  unfolding stage saved and_then
  stage_value st work save run f o g value after =
      ends (work (record run.1 { status = st }))
      ∙ ap (λ x. bind x g) (value (record run.1 { status = st }))
    where
      ends : (w : Attempt A × IngestionProgress) → (and_then (saved save run.0 w) f).0 ≡ bind w.0 g
      ends (raised e, q) = refl
      ends (returned a, q) = after a (save a run.0, q)

module _ {Metadata Analysis Embedding Convention : Type 0}
    (stages : Stages Metadata Analysis Embedding Convention) (job_id : Text) where
  run_value :
      (run : Checkpoints Analysis Embedding Convention × IngestionProgress)
      → (run_stages stages job_id none run).0 ≡ pipeline stages
  unfolding run_stages resume_path resume_parse_results resume_analysis resume_embeddings
      resume_conventions
  run_value run =
      stage_value _ _ _ _ _ _ _ (λ p. refl)
        (λ a run.
          stage_value _ _ _ _ _ _ _ (λ p. parse_value stages a.0 p)
            (λ rs run.
              stage_value _ _ _ _ _ _ _ (λ p. refl)
                (λ an run.
                  stage_value _ _ _ _ _ _ _ (λ p. embed_value stages rs p)
                    (λ es run. stage_value _ _ _ _ _ _ _ (λ p. refl) (λ cs run. refl)))))
      ∙ bind-fetched stages.clone_repository _

-- What a result says of the sequence of stages: all that they gave, or the error that stopped them.
module _ {Metadata Analysis Embedding Convention : Type 0} where
  abbrev pub Answers :
      IngestionResult Metadata Analysis Embedding Convention
      → Attempt (Products Metadata Analysis Embedding Convention)
      → Type 0
  Answers result (returned products) =
      (result.success ≡ true)
      × (result.progress.status ≡ completed)
      × (result.error ≡ none)
      × (result.repo_metadata ≡ products.repo_metadata)
      × (result.parse_results ≡ products.parse_results)
      × (result.analysis_result ≡ some products.analysis_result)
      × (result.embeddings ≡ products.embeddings)
      × (result.conventions ≡ products.conventions)
  Answers result (raised e) =
      (result.success ≡ false) × (result.progress.status ≡ failed) × (result.error ≡ some e)

  concluded :
      (stages : Stages Metadata Analysis Embedding Convention) (job_id repo_url : Text)
      (o : Attempt (Products Metadata Analysis Embedding Convention))
      (run : Checkpoints Analysis Embedding Convention × IngestionProgress)
      → Answers (conclude stages job_id repo_url (o, run)).0 o
  unfolding conclude
  concluded stages job_id repo_url (returned products) run =
      (refl, refl, refl, refl, refl, refl, refl, refl)
  concluded stages job_id repo_url (raised e) run = (refl, refl, refl)

  first_call :
      (c : Call Metadata Analysis Embedding Convention)
      → Answers
          (ingest_repository c.stages c.job_id c.repo_url no_checkpoints).0
          (pipeline c.stages)
  unfolding ingest_repository
  first_call c =
      let x = run_stages c.stages c.job_id none (no_checkpoints, new_progress c.job_id) in
      rw⁻¹ (run_value c.stages c.job_id (no_checkpoints, new_progress c.job_id))
        (concluded c.stages c.job_id c.repo_url x.0 x.1)

  -- After any calls on a new orchestrator, a call succeeds exactly with what the plain sequence of
  -- its stages gives, and fails with the error that stops that sequence.
  pub ingest_runs_pipeline :
      (calls : List (Call Metadata Analysis Embedding Convention))
      (c : Call Metadata Analysis Embedding Convention)
      → Answers
          (ingest_repository c.stages c.job_id c.repo_url (ingest_all calls no_checkpoints)).0
          (pipeline c.stages)
  ingest_runs_pipeline calls c = rw (retry_starts_over calls c) (first_call c)
