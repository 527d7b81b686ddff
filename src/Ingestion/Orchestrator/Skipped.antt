-- ===== src/Ingestion/Orchestrator/Skipped.antt =====
-- The files that are skipped.
use runtime_ops.Base.{
  Text, contains, contains-append, ◌≡◌, refl, true, false, List, [], ◌∷◌, ◌++◌, map, any, select,
  arith,
}
use runtime_ops.Ingestion.Orchestrator.{should_parse_file, skip_patterns}

any-longer :
    (patterns : List Text) (s t : Text)
    → any (λ p. contains p s) patterns ≡ true
    → any (λ p. contains p (s ++ t)) patterns ≡ true
any-longer [] s t h = absurd (cc h)
any-longer (p ∷ ps) s t h = ground (arith, any-longer ps s t, contains-append p s t)

skipped-append : (s t : Text) → should_parse_file s ≡ false → should_parse_file (s ++ t) ≡ false
unfolding should_parse_file
skipped-append s t h = ground (arith, any-longer skip_patterns s t)

-- Where the path of the repository itself holds one of the skip patterns, no file below it is parsed.
nothing_below_parsed :
    (repo_path : Text) (files : List Text)
    → should_parse_file repo_path ≡ false
    → select should_parse_file (map (λ file. repo_path ++ file) files) ≡ []
nothing_below_parsed repo_path [] h = refl
nothing_below_parsed repo_path (f ∷ fs) h =
    rw (skipped-append repo_path f h) (nothing_below_parsed repo_path fs h)
