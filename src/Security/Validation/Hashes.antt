-- ===== src/Security/Validation/Hashes.antt =====
-- Commit hashes.
use runtime_ops.Base.{
  ap, Text, strip, lower, ℕ, ◌≤◌, ◌≡◌, refl, ◌⊎◌, inl, inr, Bool, true, ◌&&◌, ◌||◌, [], ◌∷◌, ◌++◌,
  length, all, leb, Bool-cases, arith, strip_end,
}
use runtime_ops.Security.Validation.{
  valid, hex_char, at_end, is_hex, check_sha, validate_commit_sha,
}

-- The class `[0-9a-f]`.
abbrev pub lower_hex_char : ℕ → Bool
lower_hex_char c = leb 48 c && leb c 57 || leb 97 c && leb c 102

hex_cases :
    (s : Text) → is_hex s ≡ true → (all hex_char s ≡ true) ⊎ ((u : Text) × (s ≡ u ++ 10 ∷ []))
unfolding is_hex
hex_cases [] h = absurd (cc h)
hex_cases (c ∷ []) h = inl (ground arith)
hex_cases (c ∷ d ∷ s) h = elim (Bool-cases (is_hex (d ∷ s))) [
  | inl e ↦ elim (hex_cases (d ∷ s) e) [
    | inl k ↦ inl (ground (arith, k))
    | inr (u, k) ↦ inr (c ∷ u, ap (λ t. c ∷ t) k)
  ]
  | inr e ↦ ending s (ground arith)
]
  where
    ending :
        (s : Text)
        → (at_end (d ∷ s) ≡ true)
        → (all hex_char (c ∷ d ∷ s) ≡ true) ⊎ ((u : Text) × (c ∷ d ∷ s ≡ u ++ 10 ∷ []))
    ending [] k = inr (c ∷ [], ap (λ x. c ∷ x ∷ []) (ground arith))
    ending (x ∷ s) k = absurd (cc k)

length-lower : (s : Text) → length (lower s) ≡ length s
length-lower [] = refl
length-lower (c ∷ s) = omega (arith, length-lower s)

lower_hex : (s : Text) → all hex_char s ≡ true → all lower_hex_char (lower s) ≡ true
lower_hex [] h = refl
lower_hex (c ∷ s) h = ground (arith, lower_hex s)

is_hex_of : (s r : Text) → check_sha s ≡ valid r → is_hex s ≡ true
unfolding check_sha
is_hex_of s r h = ground arith

checked :
    (s r : Text)
    → all hex_char s ≡ true
    → check_sha s ≡ valid r
    → (7 ≤ length r) × (length r ≤ 40) × (all lower_hex_char r ≡ true)
unfolding check_sha
checked s r k h = rw⁻¹ made (rw (length-lower s) (ground arith, ground arith, lower_hex s k))
  where
    made : lower s ≡ r
    made = ground arith

-- An accepted commit hash has from 7 to 40 characters, each of them a digit or a letter from a to f
-- in lower case.
commit_sha_lem :
    (sha r : Text)
    → validate_commit_sha sha ≡ valid r
    → (7 ≤ length r) × (length r ≤ 40) × (all lower_hex_char r ≡ true)
unfolding validate_commit_sha
commit_sha_lem sha r h = elim (hex_cases (strip sha) (is_hex_of (strip sha) r (ground arith))) [
  | inl k ↦ checked (strip sha) r k (ground arith)
  | inr (u, e) ↦ absurd (cc (strip_end sha u 10 e))
]
