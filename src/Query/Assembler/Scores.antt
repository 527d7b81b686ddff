-- ===== src/Query/Assembler/Scores.antt =====
-- The range of the confidence.
use runtime_ops.Base.{◌≡◌, Bool, false, Bool-cases, inl, inr}
use runtime_ops.Query.Assembler.{Floats, Metadata, min_float, max_float, calculate_confidence}

module _ (F : Floats) where
  open F use {Float, zero, one, lt, lt_asym, zero_lt_one}

  irreflexive : (a : Float) → lt a a ≡ false
  irreflexive a = elim (Bool-cases (lt a a)) [ inl e ↦ lt_asym a a e | inr e ↦ e ]

  clamped :
      (x : Float)
      → (lt (max_float F zero (min_float F one x)) zero ≡ false)
        × (lt one (max_float F zero (min_float F one x)) ≡ false)
  clamped x = elim (Bool-cases (lt x one)) [
    | inl e ↦ rw e (elim (Bool-cases (lt zero x)) [
      | inl e' ↦ rw e' (lt_asym zero x e', lt_asym x one e)
      | inr e' ↦ rw e' (irreflexive zero, lt_asym zero one zero_lt_one)
    ])
    | inr e ↦ rw (e, zero_lt_one) (lt_asym zero one zero_lt_one, irreflexive one)
  ]

  -- Whatever the metadata and the arithmetic, the confidence is neither below 0 nor above 1.
  confidence_in_range :
      (enable_reranking : Bool) (metadata : Metadata F)
      → let confidence = calculate_confidence F enable_reranking metadata in
        (lt confidence zero ≡ false) × (lt one confidence ≡ false)
  unfolding calculate_confidence
  confidence_in_range enable_reranking metadata = clamped _
