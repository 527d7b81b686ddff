-- ===== src/Query/Assembler/Budget.antt =====
-- The token budget and the order of the results.
use runtime_ops.Base.{
  somes, ℕ, ◌+◌, ◌*◌, ◌≤◌, ◌<◌, ◌≡◌, refl, inl, inr, Bool, false, List, [], ◌∷◌, ◌++◌, ltb,
  if◌then◌else◌, arith, ap, sym, ◌∙◌, Bool-cases, ltb→lt, tally, tally-append,
}
use runtime_ops.Query.Assembler.{
  Floats, Graph, RawResult, AssembledResult, assemble_result, rerank_results, insert,
  sort_by_confidence, result_chars, trim, trim_to_token_budget, assemble_search_results,
}

module _ {F : Floats} where
  open F use {Float, lt, lt_asym}

  abbrev pub total_chars : List (AssembledResult F) → ℕ
  total_chars [] = 0
  total_chars (r ∷ rest) = result_chars r + total_chars rest

  -- With some characters taken before: the list is cut where the next result would exceed the
  -- budget, or not at all.
  abbrev pub CutAt : ℕ → ℕ → List (AssembledResult F) → List (AssembledResult F) → Type 0
  CutAt max_chars taken kept [] = Unit
  CutAt max_chars taken kept (next ∷ rest) =
      max_chars < taken + (total_chars kept + result_chars next)

  one_more :
      (m t : ℕ) (r : AssembledResult F) (kept rest : List (AssembledResult F))
      → CutAt m (t + result_chars r) kept rest
      → CutAt m t (r ∷ kept) rest
  one_more m t r kept [] cut = tt
  one_more m t r kept (next ∷ rest) cut = omega (arith, cut)

  trim_lem :
      (m t : ℕ) (rs : List (AssembledResult F))
      → t ≤ m
      → (rest : List (AssembledResult F)) × (rs ≡ trim m t rs ++ rest)
        × (t + total_chars (trim m t rs) ≤ m)
        × CutAt m t (trim m t rs) rest
  unfolding trim
  trim_lem m t [] h = ([], refl, omega arith, tt)
  trim_lem m t (r ∷ rs) h = elim (Bool-cases (ltb m (t + result_chars r))) [
    | inl e ↦ rw e (r ∷ rs, refl, omega arith, ground (arith, ltb→lt m (t + result_chars r) e))
    | inr e ↦
        let (rest, parts, fits, cut) = trim_lem m (t + result_chars r) rs (ground (arith, e)) in
        rw e (
          rest,
          ap (λ xs. r ∷ xs) parts,
          omega (arith, fits),
          one_more m t r (trim m (t + result_chars r) rs) rest cut,
        )
  ]

  -- The results kept are a first part of the list, within the budget of four characters a token; the
  -- first result that is left out, if any, would have exceeded it.
  trim_maximal :
      (max_tokens : ℕ) (results : List (AssembledResult F))
      → let kept = trim_to_token_budget max_tokens results in
        (rest : List (AssembledResult F)) × (results ≡ kept ++ rest)
        × (total_chars kept ≤ max_tokens * 4)
        × CutAt (max_tokens * 4) 0 kept rest
  unfolding trim_to_token_budget
  trim_maximal max_tokens results =
      let (rest, parts, fits, cut) = trim_lem (max_tokens * 4) 0 results (omega arith) in
      (rest, parts, omega (arith, fits), cut)

  -- No result is followed at once by one of greater confidence.
  abbrev pub NotBelow : AssembledResult F → List (AssembledResult F) → Type 0
  NotBelow r [] = Unit
  NotBelow r (s ∷ rest) = lt r.confidence s.confidence ≡ false

  abbrev pub Descending : List (AssembledResult F) → Type 0
  Descending [] = Unit
  Descending (r ∷ rest) = NotBelow r rest × Descending rest

  insert-NotBelow :
      (s r : AssembledResult F) (rs : List (AssembledResult F))
      → lt s.confidence r.confidence ≡ false
      → NotBelow s rs
      → NotBelow s (insert r rs)
  unfolding insert
  insert-NotBelow s r [] h d = h
  insert-NotBelow s r (u ∷ rest) h d = elim (Bool-cases (lt r.confidence u.confidence)) [
    | inl e ↦ rw e d
    | inr e ↦ rw e h
  ]

  insert-Descending :
      (r : AssembledResult F) (rs : List (AssembledResult F))
      → Descending rs
      → Descending (insert r rs)
  unfolding insert
  insert-Descending r [] d = (tt, tt)
  insert-Descending r (s ∷ rest) (d, ds) =
      let tail = insert-Descending r rest ds in
      elim (Bool-cases (lt r.confidence s.confidence)) [
        | inl e ↦ rw e (insert-NotBelow s r rest (lt_asym r.confidence s.confidence e) d, tail)
        | inr e ↦ rw e (e, (d, ds))
      ]

  sort-Descending : (rs : List (AssembledResult F)) → Descending (sort_by_confidence rs)
  unfolding sort_by_confidence
  sort-Descending [] = tt
  sort-Descending (r ∷ rs) = insert-Descending r (sort_by_confidence rs) (sort-Descending rs)

  prefix-NotBelow :
      (r : AssembledResult F) (xs ys : List (AssembledResult F))
      → NotBelow r (xs ++ ys)
      → NotBelow r xs
  prefix-NotBelow r [] ys d = tt
  prefix-NotBelow r (x ∷ xs) ys d = d

  prefix-Descending : (xs ys : List (AssembledResult F)) → Descending (xs ++ ys) → Descending xs
  prefix-Descending [] ys d = tt
  prefix-Descending (x ∷ xs) ys (d, ds) = (prefix-NotBelow x xs ys d, prefix-Descending xs ys ds)

  -- Sorting keeps each result as often as it was there.
  tally-insert :
      (test : AssembledResult F → Bool) (r : AssembledResult F) (rs : List (AssembledResult F))
      → tally test (insert r rs) ≡ tally test (r ∷ rs)
  unfolding insert
  tally-insert test r [] = refl
  tally-insert test r (s ∷ rs) = ground (arith, tally-insert test r rs)

  tally-sort :
      (test : AssembledResult F → Bool) (rs : List (AssembledResult F))
      → tally test (sort_by_confidence rs) ≡ tally test rs
  unfolding sort_by_confidence
  tally-sort test [] = refl
  tally-sort test (r ∷ rs) =
      ground (arith, tally-sort test rs, tally-insert test r (sort_by_confidence rs))

module _ (F : Floats) (enable_reranking : Bool) (max_tokens : ℕ) (graph : Graph F) where
  -- The answer is in descending order of confidence and within the budget, and together with a list
  -- of results left out it has each result that was assembled exactly as often.
  pub answer_sorted_within_budget :
      (include_graph_metadata : Bool) (raw_results : List (RawResult F))
      → let ranked = if enable_reranking then rerank_results F raw_results else raw_results in
        let answer =
          assemble_search_results F enable_reranking max_tokens graph include_graph_metadata
            raw_results in
        Descending answer
        × (total_chars answer ≤ max_tokens * 4)
        × ((left_out : List (AssembledResult F)) × ((test : AssembledResult F → Bool)
              → tally test answer + tally test left_out
                ≡ tally test (
                    somes
                      (assemble_result F enable_reranking graph include_graph_metadata)
                      ranked)))
  unfolding assemble_search_results
  answer_sorted_within_budget include_graph_metadata raw_results =
      let ranked = if enable_reranking then rerank_results F raw_results else raw_results in
      let made = somes (assemble_result F enable_reranking graph include_graph_metadata) ranked in
      let sorted = sort_by_confidence made in
      let (rest, parts, fits, cut) = trim_maximal max_tokens sorted in
      (
        prefix-Descending (trim_to_token_budget max_tokens sorted) rest
            (rw⁻¹ parts (sort-Descending made)),
        fits,
        (
          rest,
          λ test.
              sym (tally-append test (trim_to_token_budget max_tokens sorted) rest)
              ∙ (sym (ap (tally test) parts) ∙ tally-sort test made),
        ),
      )
