-- ===== src/Ingestion/Orchestrator/Ingest/Counts.antt =====
-- When a first call of a job succeeds, and what its progress counts.
use runtime_ops.Base.{
  ap, ◌∙◌, Text, suc, ◌≤◌, ◌≡◌, refl, Bool, true, none, List, [], ◌∷◌, length, tally, select, arith,
}
use runtime_ops.Ingestion.Orchestrator.{
  parsing, IngestionProgress, Attempt, returned, raised, ParseResult, Stages, should_parse_file,
  parse_single_file, distinct, find_source_files, parse_found, parse_repository, embedded,
  embedding, generate_embeddings,
}
use runtime_ops.Ingestion.Orchestrator.Ingest.{
  Checkpoints, Products, new_progress, resume_path, resume_parse_results, resume_analysis,
  resume_embeddings, resume_conventions, run_stages, conclude, ingest_repository, sum_symbols,
}
use runtime_ops.Ingestion.Orchestrator.Ingest.Chains.{stage-then}
use runtime_ops.Ingestion.Orchestrator.Ingest.Parsing.{collect_lem}

-- `as_completed` gives each submitted future once.
abbrev pub Arranges : (List Text → List Text) → Type 0
Arranges arrange =
    (test : Text → Bool) (files : List Text) → tally test (arrange files) ≡ tally test files

tally-true : (xs : List Text) → tally (λ x. true) xs ≡ length xs
tally-true [] = refl
tally-true (x ∷ xs) = ap suc (tally-true xs)

-- The counts of a progress, against the results of parsing.
record Counts (rs : List ParseResult) (p : IngestionProgress) : Type 0 where
  files : p.processed_files ≡ length rs
  bounded : p.processed_files ≤ p.total_files
  symbols : p.total_symbols ≡ sum_symbols rs

-- The counts at the end of the stages.
record Ends {M A E V : Type 0} (o : Attempt (Products M A E V)) (p : IngestionProgress)
    : Type 0 where
  bounded : p.processed_files ≤ p.total_files
  exact :
      (products : Products M A E V)
      → o ≡ returned products
      → Counts products.parse_results p × (p.total_embeddings ≡ length products.embeddings)

module _ {Metadata Analysis Embedding Convention : Type 0}
    (stages : Stages Metadata Analysis Embedding Convention) (once : Arranges stages.arrange) where
  abbrev Parsed : Attempt (List ParseResult) × IngestionProgress → Type 0
  Parsed (o, p') =
      (p'.processed_files ≤ p'.total_files)
      × ((rs : List ParseResult) → o ≡ returned rs → Counts rs p')

  found_counts :
      (p : IngestionProgress)
      → p.processed_files ≡ 0
      → p.total_symbols ≡ 0
      → p.total_files ≡ 0
      → (o : Attempt (List Text)) → Parsed (parse_found stages p o)
  unfolding parse_found
  found_counts p h k z (raised e) = (omega arith, λ rs e. absurd (cc e))
  found_counts p h k z (returned found) =
      let files = select should_parse_file (distinct found) in
      let c =
        collect_lem (parse_single_file stages.parsers) (stages.arrange files)
          ([], record p { total_files = length files }) in
      let n = once (λ x. true) files in
      let l = tally-true (stages.arrange files) in
      let m = tally-true files in
      (
        omega (arith, c.grown, c.counted, c.total, n, l, m),
        λ rs e. rw⁻¹ (returned-injective _ _ e) (record {
          files = omega (arith, c.counted);
          bounded = omega (arith, c.grown, c.counted, c.total, n, l, m);
          symbols = omega (arith, c.symbols);
        }),
      )
    where
      returned-injective : (xs ys : List ParseResult) → returned xs ≡ returned ys → xs ≡ ys
      returned-injective xs ys e = cc e

  parse_counts :
      (repo : Text) (p : IngestionProgress)
      → p.processed_files ≡ 0
      → p.total_symbols ≡ 0
      → p.total_files ≡ 0
      → Parsed (parse_repository stages repo p)
  unfolding parse_repository
  parse_counts repo p h k z = found_counts p h k z (find_source_files stages repo stages.parsers)

  -- The end of the embedding stage: its own count, and the others as they were.
  record Embeds (p : IngestionProgress) (x : Attempt (List Embedding) × IngestionProgress)
      : Type 0 where
    processed : x.1.processed_files ≡ p.processed_files
    total : x.1.total_files ≡ p.total_files
    symbols : x.1.total_symbols ≡ p.total_symbols
    embeddings : (es : List Embedding) → x.0 ≡ returned es → x.1.total_embeddings ≡ length es

  embed_counts :
      (rs : List ParseResult) (p : IngestionProgress) → Embeds p (generate_embeddings stages rs p)
  unfolding generate_embeddings embedded
  embed_counts rs p = ends (stages.embed_parse_results rs)
    where
      ends : (o : Attempt (List Embedding)) → Embeds p (embedded p o)
      ends (raised e) = record {
        processed = refl;
        total = refl;
        symbols = refl;
        embeddings = λ es e. absurd (cc e);
      }
      ends (returned fs) = record {
        processed = refl;
        total = refl;
        symbols = refl;
        embeddings = λ es e. ap length (same es e);
      }
        where
          same : (es : List Embedding) → returned fs ≡ returned es → fs ≡ es
          same es e = cc e

  abbrev AtEnd :
      Attempt (Products Metadata Analysis Embedding Convention)
        × (Checkpoints Analysis Embedding Convention × IngestionProgress)
      → Type 0
  AtEnd x = Ends x.0 x.1.1

  stopped :
      (e : Text) (cs : Checkpoints Analysis Embedding Convention) (p : IngestionProgress)
      → p.processed_files ≤ p.total_files
      → AtEnd (raised e, (cs, p))
  stopped e cs p h = record { bounded = h; exact = λ q e. absurd (cc e) }

  products_of :
      {p q : Products Metadata Analysis Embedding Convention} → returned p ≡ returned q → p ≡ q
  products_of e = cc e

  module _ (job_id : Text) where
    run_counts :
        (cs : Checkpoints Analysis Embedding Convention)
        → AtEnd (run_stages stages job_id none (cs, new_progress job_id))
    unfolding run_stages resume_path resume_parse_results resume_analysis resume_embeddings
        resume_conventions
    run_counts cs =
        stage-then AtEnd _ _ _ _ _ (λ e cs h. stopped e cs _ (omega arith))
          λ a cs h.
            let (bounded, counts) =
              parse_counts a.0 (record (new_progress job_id) { status = parsing }) refl refl refl in
            stage-then AtEnd _ _ _ _ _ (λ e cs h. stopped e cs _ bounded)
              λ rs cs h.
                let c = counts rs h in
                stage-then AtEnd _ _ _ _ _ (λ e cs h. stopped e cs _ bounded)
                  λ an cs h.
                    let p =
                      (parse_repository stages a.0
                        (record (new_progress job_id) { status = parsing })).1 in
                    let m = embed_counts rs (record p { status = embedding }) in
                    stage-then AtEnd _ _ _ _ _
                      (λ e cs h. stopped e cs _ (omega (arith, c.bounded, m.processed, m.total)))
                      λ es cs h.
                        let l = m.embeddings es h in
                        stage-then AtEnd _ _ _ _ _
                          (λ e cs h.
                            stopped e cs _ (omega (arith, c.bounded, m.processed, m.total)))
                          λ cv cs h. record {
                            bounded = omega (arith, c.bounded, m.processed, m.total);
                            exact = λ products e.
                                let made = products_of e in
                                rw⁻¹ made (
                                  record {
                                    files = m.processed ∙ c.files;
                                    bounded = omega (arith, c.bounded, m.processed, m.total);
                                    symbols = m.symbols ∙ c.symbols;
                                  },
                                  l,
                                );
                          }

  concluded :
      (job_id repo_url : Text)
      (x : Attempt (Products Metadata Analysis Embedding Convention)
        × (Checkpoints Analysis Embedding Convention × IngestionProgress))
      → AtEnd x
      → let result = (conclude stages job_id repo_url x).0 in
        (result.progress.processed_files ≤ result.progress.total_files)
        × (result.success ≡ true
            → (result.progress.processed_files ≡ length result.parse_results)
              × (result.progress.total_symbols ≡ sum_symbols result.parse_results)
              × (result.progress.total_embeddings ≡ length result.embeddings))
  unfolding conclude
  concluded job_id repo_url (raised e, (cs, p)) h = (h.bounded, λ s. absurd (cc s))
  concluded job_id repo_url (returned q, (cs, p)) h =
      let (c, l) = h.exact q refl in (h.bounded, λ s. (c.files, c.symbols, l))

  -- A call whose job has no checkpoint never counts more files processed than found; where it
  -- succeeds, it counts the files parsed, their symbols and the embeddings that it returns.
  pub progress_counts :
      (job_id repo_url : Text) (checkpoints : Checkpoints Analysis Embedding Convention)
      → checkpoints job_id ≡ none
      → let result = (ingest_repository stages job_id repo_url checkpoints).0 in
        (result.progress.processed_files ≤ result.progress.total_files)
        × (result.success ≡ true
            → (result.progress.processed_files ≡ length result.parse_results)
              × (result.progress.total_symbols ≡ sum_symbols result.parse_results)
              × (result.progress.total_embeddings ≡ length result.embeddings))
  unfolding ingest_repository
  progress_counts job_id repo_url checkpoints fresh = rw fresh (
      concluded job_id repo_url (run_stages stages job_id none (checkpoints, new_progress job_id))
        (run_counts job_id checkpoints))
