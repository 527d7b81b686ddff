-- ===== src/Ingestion/Orchestrator/Ingest/Fresh.antt =====
-- What a call leaves in the checkpoints, and what a later call makes of it.
use runtime_ops.Base.{
  ◌∙◌, Text, text_eq, text_eq_iff, text_eq_refl, ◌≡◌, refl, inl, inr, false, Option, none, some,
  List, [], ◌∷◌, if◌then◌else◌, Bool-cases,
}
use runtime_ops.Ingestion.Orchestrator.{
  IngestionStatus, failed, IngestionProgress, Attempt, returned, raised, ParseResult, Stages,
  IngestionCheckpoint,
}
use runtime_ops.Ingestion.Orchestrator.Ingest.{
  Checkpoints, save_checkpoint, Products, new_progress, resume_path, resume_parse_results,
  resume_analysis, resume_embeddings, resume_conventions, run_stages, conclude, ingest_repository,
  get_progress, progress_of,
}
use runtime_ops.Ingestion.Orchestrator.Ingest.Chains.{
  Alike, stage-Alike, and_then-Alike, stage-keeps, and_then-keeps,
}

-- What `get_progress` shows of a job that has failed.
abbrev pub failed_progress : Text → IngestionProgress
failed_progress job_id = record {
  job_id = job_id;
  status = failed;
  total_files = 0;
  processed_files = 0;
  total_symbols = 0;
  total_embeddings = 0;
  error = none;
}

-- A checkpoint that no stage takes anything from.
module _ (Metadata : Type 0) {Analysis Embedding Convention : Type 0} where
  record Bare (c : Option (IngestionCheckpoint Analysis Embedding Convention)) : Type 0 where
    path : resume_path {Metadata = Metadata} c ≡ none
    results : resume_parse_results c ≡ none
    analysis : resume_analysis c ≡ none
    embeddings : resume_embeddings c ≡ none
    conventions : resume_conventions c ≡ none

  none-Bare : Bare none
  unfolding resume_path resume_parse_results resume_analysis resume_embeddings resume_conventions
  none-Bare = record {
    path = refl;
    results = refl;
    analysis = refl;
    embeddings = refl;
    conventions = refl;
  }

module _ {Metadata Analysis Embedding Convention : Type 0}
    (stages : Stages Metadata Analysis Embedding Convention) (job_id repo_url : Text) where
  left_progress :
      (x : Attempt (Products Metadata Analysis Embedding Convention)
        × (Checkpoints Analysis Embedding Convention × IngestionProgress))
      → let (result, left) = conclude stages job_id repo_url x in
        get_progress left job_id ≡ (if result.success then none else some (failed_progress job_id))
  unfolding conclude save_checkpoint get_progress progress_of
  left_progress (returned p, run) = rw (text_eq_refl job_id) refl
  left_progress (raised e, run) = rw (text_eq_refl job_id) refl

  conclude-Bare :
      (x : Attempt (Products Metadata Analysis Embedding Convention)
        × (Checkpoints Analysis Embedding Convention × IngestionProgress))
      → Bare Metadata ((conclude stages job_id repo_url x).1 job_id)
  unfolding conclude save_checkpoint resume_path resume_parse_results resume_analysis
      resume_embeddings resume_conventions
  conclude-Bare (returned p, run) = rw (text_eq_refl job_id) (none-Bare Metadata)
  conclude-Bare (raised e, run) = rw (text_eq_refl job_id) (record {
    path = refl;
    results = refl;
    analysis = refl;
    embeddings = refl;
    conventions = refl;
  })

  -- A call that fails leaves a checkpoint that shows the job as failed, with no file, no symbol and
  -- no embedding, whatever its stages did; a call that succeeds leaves none.
  pub progress_after :
      (checkpoints : Checkpoints Analysis Embedding Convention)
      → let (result, left) = ingest_repository stages job_id repo_url checkpoints in
        get_progress left job_id ≡ (if result.success then none else some (failed_progress job_id))
  unfolding ingest_repository
  progress_after checkpoints =
      left_progress
        (run_stages stages job_id (checkpoints job_id) (checkpoints, new_progress job_id))

module _ {Metadata Analysis Embedding Convention : Type 0}
    (stages : Stages Metadata Analysis Embedding Convention) (job_id : Text) where
  run-Alike :
      (c c' : Option (IngestionCheckpoint Analysis Embedding Convention))
      (cs cs' : Checkpoints Analysis Embedding Convention) (p : IngestionProgress)
      → Bare Metadata c
      → Bare Metadata c'
      → Alike (run_stages stages job_id c (cs, p)) (run_stages stages job_id c' (cs', p))
  unfolding run_stages
  run-Alike c c' cs cs' p b b' =
      rw
        (
          b.path, b.results, b.analysis, b.embeddings, b.conventions, b'.path, b'.results,
          b'.analysis, b'.embeddings, b'.conventions,
        )
        (and_then-Alike _ _ _ _ (stage-Alike none _ _ _ cs cs' p) λ a cs cs' p.
          and_then-Alike _ _ _ _ (stage-Alike none _ _ _ cs cs' p) λ rs cs cs' p.
            and_then-Alike _ _ _ _ (stage-Alike none _ _ _ cs cs' p) λ an cs cs' p.
              and_then-Alike _ _ _ _ (stage-Alike none _ _ _ cs cs' p) λ es cs cs' p.
                and_then-Alike _ _ _ _ (stage-Alike none _ _ _ cs cs' p)
                  λ cv cs cs' p. (refl, refl))

  other_job :
      (k : Text)
      → text_eq job_id k ≡ false
      → (st : IngestionStatus) (path : Option Text) (rs : List ParseResult) (an : Option Analysis)
        (es : List Embedding) (cv : List (Text × Convention)) (e : Option Text)
        (before : Option (IngestionCheckpoint Analysis Embedding Convention))
        (cs : Checkpoints Analysis Embedding Convention)
      → cs k ≡ before
      → save_checkpoint job_id st path rs an es cv e cs k ≡ before
  unfolding save_checkpoint
  other_job k ne st path rs an es cv e before cs h = rw ne h

  run-keeps :
      (k : Text)
      → text_eq job_id k ≡ false
      → (c : Option (IngestionCheckpoint Analysis Embedding Convention))
        (cs : Checkpoints Analysis Embedding Convention) (p : IngestionProgress)
      → (run_stages stages job_id c (cs, p)).1.0 k ≡ cs k
  unfolding run_stages
  run-keeps k ne c cs p =
      let P : Checkpoints Analysis Embedding Convention → Type 0 = λ left. left k ≡ cs k in
      and_then-keeps P _ _ (stage-keeps P _ _ _ _ _ (λ a. other_job k ne _ _ _ _ _ _ _ _) refl)
        λ a run h.
          and_then-keeps P _ _ (stage-keeps P _ _ _ _ _ (λ a. other_job k ne _ _ _ _ _ _ _ _) h)
            λ a run h.
              and_then-keeps P _ _ (stage-keeps P _ _ _ _ _ (λ a. other_job k ne _ _ _ _ _ _ _ _) h)
                λ a run h.
                  and_then-keeps P _ _
                    (stage-keeps P _ _ _ _ _ (λ a. other_job k ne _ _ _ _ _ _ _ _) h)
                    λ a run h.
                      and_then-keeps P _ _
                        (stage-keeps P _ _ _ _ _ (λ a. other_job k ne _ _ _ _ _ _ _ _) h)
                        λ a run h. h

  conclude-keeps :
      (repo_url k : Text)
      → text_eq job_id k ≡ false
      → (x : Attempt (Products Metadata Analysis Embedding Convention)
          × (Checkpoints Analysis Embedding Convention × IngestionProgress))
      → (conclude stages job_id repo_url x).1 k ≡ x.1.0 k
  unfolding conclude save_checkpoint
  conclude-keeps repo_url k ne (returned products, run) = rw ne refl
  conclude-keeps repo_url k ne (raised e, run) = rw ne refl

  -- A call leaves the checkpoint of every other job as it was.
  other_jobs_kept :
      (repo_url k : Text) (checkpoints : Checkpoints Analysis Embedding Convention)
      → text_eq job_id k ≡ false
      → (ingest_repository stages job_id repo_url checkpoints).1 k ≡ checkpoints k
  unfolding ingest_repository
  other_jobs_kept repo_url k cs ne =
      conclude-keeps repo_url k ne (run_stages stages job_id (cs job_id) (cs, new_progress job_id))
      ∙ run-keeps k ne (cs job_id) cs (new_progress job_id)

  ignores :
      (repo_url : Text) (o : Attempt (Products Metadata Analysis Embedding Convention))
      (cs cs' : Checkpoints Analysis Embedding Convention) (p : IngestionProgress)
      → (conclude stages job_id repo_url (o, (cs, p))).0
        ≡ (conclude stages job_id repo_url (o, (cs', p))).0
  unfolding conclude
  ignores repo_url (returned products) cs cs' p = refl
  ignores repo_url (raised e) cs cs' p = refl

  ingest-Alike :
      (repo_url : Text) (cs cs' : Checkpoints Analysis Embedding Convention)
      → Bare Metadata (cs job_id)
      → Bare Metadata (cs' job_id)
      → (ingest_repository stages job_id repo_url cs).0
        ≡ (ingest_repository stages job_id repo_url cs').0
  unfolding ingest_repository
  ingest-Alike repo_url cs cs' b b' =
      let x = run_stages stages job_id (cs job_id) (cs, new_progress job_id) in
      let x' = run_stages stages job_id (cs' job_id) (cs', new_progress job_id) in
      let (h, k) = run-Alike (cs job_id) (cs' job_id) cs cs' (new_progress job_id) b b' in
      ignores repo_url x.0 x.1.0 x'.1.0 x.1.1 ∙ rw (h, k) refl

-- `self._checkpoints`, at the start.
module _ {Analysis Embedding Convention : Type 0} where
  abbrev pub no_checkpoints : Checkpoints Analysis Embedding Convention
  no_checkpoints job_id = none

-- A sequence of calls: each with its job, its repository and what the stages do during it.
pub record Call (Metadata Analysis Embedding Convention : Type 0) : Type 0 where
  pub job_id : Text
  pub repo_url : Text
  pub stages : Stages Metadata Analysis Embedding Convention

module _ {Metadata Analysis Embedding Convention : Type 0} where
  abbrev pub ingest_all :
      List (Call Metadata Analysis Embedding Convention)
      → Checkpoints Analysis Embedding Convention
      → Checkpoints Analysis Embedding Convention
  ingest_all [] cs = cs
  ingest_all (c ∷ calls) cs = ingest_all calls (ingest_repository c.stages c.job_id c.repo_url cs).1

  ingest-Bare :
      (c : Call Metadata Analysis Embedding Convention)
      (cs : Checkpoints Analysis Embedding Convention)
      → ((job_id : Text) → Bare Metadata (cs job_id))
      → (job_id : Text)
      → Bare Metadata ((ingest_repository c.stages c.job_id c.repo_url cs).1 job_id)
  unfolding ingest_repository
  ingest-Bare c cs bare k = elim (Bool-cases (text_eq c.job_id k)) [
    | inl e ↦ rw⁻¹ ((text_eq_iff c.job_id k).0 e) (conclude-Bare c.stages c.job_id c.repo_url _)
    | inr e ↦ rw (other_jobs_kept c.stages c.job_id c.repo_url k cs e) (bare k)
  ]

  all-Bare :
      (calls : List (Call Metadata Analysis Embedding Convention))
      (cs : Checkpoints Analysis Embedding Convention)
      → ((job_id : Text) → Bare Metadata (cs job_id))
      → (job_id : Text) → Bare Metadata (ingest_all calls cs job_id)
  all-Bare [] cs bare = bare
  all-Bare (c ∷ calls) cs bare =
      all-Bare calls (ingest_repository c.stages c.job_id c.repo_url cs).1 (ingest-Bare c cs bare)

  -- After any calls on a new orchestrator, a call gives the result that it gives on a new one: no
  -- stage is ever resumed from a checkpoint, whatever had been completed before the failure.
  pub retry_starts_over :
      (calls : List (Call Metadata Analysis Embedding Convention))
      (c : Call Metadata Analysis Embedding Convention)
      → (ingest_repository c.stages c.job_id c.repo_url (ingest_all calls no_checkpoints)).0
        ≡ (ingest_repository c.stages c.job_id c.repo_url no_checkpoints).0
  retry_starts_over calls c =
      ingest-Alike c.stages c.job_id c.repo_url (ingest_all calls no_checkpoints) no_checkpoints
        (all-Bare calls no_checkpoints (λ k. none-Bare Metadata) c.job_id) (none-Bare Metadata)
