-- ===== src/Security/Validation/Numbers.antt =====
-- The bounds of numbers.
use runtime_ops.Base.{ℕ, ◌≤◌, ◌≡◌, refl, ◌↔◌, ℤ, pos, negsuc, ltz, false, if◌then◌else◌, arith}
use runtime_ops.Security.Validation.{
  valid, invalid, validate_pagination, validate_batch_size, validate_hops, validate_k,
}

-- An integer from 1 to a bound.
abbrev pub Between : ℕ → ℤ → Type 0
Between bound z = (n : ℕ) × (z ≡ pos n) × (1 ≤ n) × (n ≤ bound)

in_bounds :
    (bound : ℕ) (z : ℤ) → (ltz z (pos 1) ≡ false) × (ltz (pos bound) z ≡ false) → Between bound z
in_bounds bound (pos n) (h, k) = (n, refl, ground arith, ground arith)
in_bounds bound (negsuc n) (h, k) = absurd (cc h)

-- Pagination is accepted, as it is, exactly where the page is from 1 to 10000 and its size from 1 to
-- 100.
pagination_iff :
    (page page_size : ℤ)
    → (validate_pagination page page_size ≡ valid (page, page_size))
      ↔ (Between 10000 page × Between 100 page_size)
unfolding validate_pagination
pagination_iff page page_size = (sound, λ ((n, e, a, b), (m, f, c, d)). rw (e, f) (ground arith))
  where
    sound :
        validate_pagination page page_size ≡ valid (page, page_size)
        → Between 10000 page × Between 100 page_size
    sound h = (in_bounds 10000 page (ground arith), in_bounds 100 page_size (ground arith))

-- A batch size, a number of hops and a number of results are accepted, as they are, exactly where
-- they are from 1 to the maximum.
sizes_iff :
    (maximum : ℕ) (z : ℤ)
    → ((validate_batch_size z (pos maximum) ≡ valid z) ↔ Between maximum z)
      × ((validate_hops z (pos maximum) ≡ valid z) ↔ Between maximum z)
      × ((validate_k z (pos maximum) ≡ valid z) ↔ Between maximum z)
unfolding validate_batch_size validate_hops validate_k
sizes_iff maximum z = (one_test, one_test, one_test)
  where
    one_test :
        ((if ltz z (pos 1) then invalid else if ltz (pos maximum) z then invalid else valid z)
          ≡ valid z)
        ↔ Between maximum z
    one_test = (λ h. in_bounds maximum z (ground arith), λ (n, e, a, b). rw e (ground arith))
