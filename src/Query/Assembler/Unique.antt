-- ===== src/Query/Assembler/Unique.antt =====
-- Results without repetition.
use runtime_ops.Base.{
  ◌∙◌, sym, ◌≡◌, refl, Bool, true, false, not, ◌&&◌, List, [], ◌∷◌, any, arith, Bool-cases, inl,
  inr, text_eq_iff, text_eq_sym, text_eq_refl,
}
use runtime_ops.Query.Assembler.{Floats, AssembledResult, same_result, dedup, deduplicate_results}

module _ {F : Floats} where
  -- No result has the key of a later one.
  abbrev pub Unique : List (AssembledResult F) → Type 0
  Unique [] = Unit
  Unique (r ∷ rest) = (any (same_result r) rest ≡ false) × Unique rest

  same_sym : (r s : AssembledResult F) → same_result r s ≡ same_result s r
  same_sym r s =
      ground (arith, text_eq_sym r.file_path s.file_path, text_eq_sym r.symbol_name s.symbol_name)

  same_congr :
      (s r : AssembledResult F)
      → same_result s r ≡ true
      → (xs : List (AssembledResult F)) → any (same_result r) xs ≡ any (same_result s) xs
  same_congr s r h xs = rw (path, name, line) refl
    where
      path : s.file_path ≡ r.file_path
      path = (text_eq_iff s.file_path r.file_path).0 (ground arith)

      name : s.symbol_name ≡ r.symbol_name
      name = (text_eq_iff s.symbol_name r.symbol_name).0 (ground arith)

      line : s.start_line ≡ r.start_line
      line = ground arith

  dedup-any :
      (s : AssembledResult F) (seen rs : List (AssembledResult F))
      → any (same_result s) (dedup seen rs)
        ≡ (any (same_result s) rs && not (any (same_result s) seen))
  unfolding dedup
  dedup-any s seen [] = refl
  dedup-any s seen (r ∷ rs) =
      merge (any (same_result r) seen) (same_result s r) refl refl (λ h. same_congr s r h seen)
        (dedup-any s seen rs) (dedup-any s (r ∷ seen) rs)
    where
      merge :
          (b c : Bool)
          → any (same_result r) seen ≡ b
          → same_result s r ≡ c
          → (same_result s r ≡ true → any (same_result r) seen ≡ any (same_result s) seen)
          → any (same_result s) (dedup seen rs)
            ≡ (any (same_result s) rs && not (any (same_result s) seen))
          → any (same_result s) (dedup (r ∷ seen) rs)
            ≡ (any (same_result s) rs && not (any (same_result s) (r ∷ seen)))
          → any (same_result s) (dedup seen (r ∷ rs))
            ≡ (any (same_result s) (r ∷ rs) && not (any (same_result s) seen))
      merge true true e f same skipped kept =
          rw (e, f, sym (same f) ∙ e, skipped) (ground (arith, same f, e))
      merge true false e f same skipped kept = rw (e, f) skipped
      merge false true e f same skipped kept = rw (e, f, sym (same f) ∙ e) refl
      merge false false e f same skipped kept = rw (e, f) (kept ∙ rw f refl)

  dedup-Unique : (seen rs : List (AssembledResult F)) → Unique (dedup seen rs)
  unfolding dedup
  dedup-Unique seen [] = tt
  dedup-Unique seen (r ∷ rs) = elim (Bool-cases (any (same_result r) seen)) [
    | inl e ↦ rw e (dedup-Unique seen rs)
    | inr e ↦ rw e (
      ground
          (arith, dedup-any r (r ∷ seen) rs, text_eq_refl r.file_path, text_eq_refl r.symbol_name),
      dedup-Unique (r ∷ seen) rs,
    )
  ]

  -- No two results of the answer have the same file, symbol and first line, and each key of the
  -- results is there.
  deduplicate_lem :
      (results : List (AssembledResult F))
      → Unique (deduplicate_results results)
        × ((r : AssembledResult F)
            → any (same_result r) (deduplicate_results results) ≡ any (same_result r) results)
  unfolding deduplicate_results
  deduplicate_lem results = (dedup-Unique [] results, λ r. ground (arith, dedup-any r [] results))
