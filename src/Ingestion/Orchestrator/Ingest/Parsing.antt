-- ===== src/Ingestion/Orchestrator/Ingest/Parsing.antt =====
-- The loop over the parsed files: what it adds to the results and to the counts.
use runtime_ops.Base.{
  Text, ℕ, suc, ◌+◌, ◌≤◌, ◌≡◌, refl, Option, none, some, List, [], ◌∷◌, ◌++◌, length, length-append,
  arith,
}
use runtime_ops.Ingestion.Orchestrator.{IngestionProgress, ParseResult, add_result, collect}
use runtime_ops.Ingestion.Orchestrator.Ingest.{sum_symbols}

-- What the completed files add to the results, to the count of files and to that of symbols.
pub record Collected (files : ℕ) (acc : List ParseResult × IngestionProgress)
    (end : List ParseResult × IngestionProgress) : Type 0 where
  pub grown : length end.0 ≤ length acc.0 + files
  pub counted : end.1.processed_files + length acc.0 ≡ acc.1.processed_files + length end.0
  pub symbols : end.1.total_symbols + sum_symbols acc.0 ≡ acc.1.total_symbols + sum_symbols end.0
  pub total : end.1.total_files ≡ acc.1.total_files
  pub embeddings : end.1.total_embeddings ≡ acc.1.total_embeddings

sum_symbols-append :
    (xs ys : List ParseResult) → sum_symbols (xs ++ ys) ≡ sum_symbols xs + sum_symbols ys
sum_symbols-append [] ys = omega arith
sum_symbols-append (x ∷ xs) ys = omega (arith, sum_symbols-append xs ys)

pub collect_lem :
    (parse : Text → Option ParseResult) (files : List Text)
    (acc : List ParseResult × IngestionProgress)
    → Collected (length files) acc (collect parse files acc)
unfolding collect add_result
collect_lem parse [] acc = record {
  grown = omega arith;
  counted = refl;
  symbols = refl;
  total = refl;
  embeddings = refl;
}
collect_lem parse (f ∷ fs) (rs, p) = added (parse f) (collect_lem parse fs)
  where
    added :
        (o : Option ParseResult)
        → ((acc : List ParseResult × IngestionProgress)
            → Collected (length fs) acc (collect parse fs acc))
        → Collected (suc (length fs)) (rs, p) (collect parse fs (add_result o (rs, p)))
    added none further =
        let c = further (rs, p) in
        record {
          grown = omega (arith, c.grown);
          counted = c.counted;
          symbols = c.symbols;
          total = c.total;
          embeddings = c.embeddings;
        }
    added (some r) further =
        let c = further (add_result (some r) (rs, p)) in
        let l = length-append rs (r ∷ []) in
        let s = sum_symbols-append rs (r ∷ []) in
        record {
          grown = omega (arith, c.grown, l);
          counted = omega (arith, c.counted, l);
          symbols = omega (arith, c.symbols, s);
          total = c.total;
          embeddings = c.embeddings;
        }
