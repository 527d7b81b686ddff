-- ===== src/Security/Middleware/Runs.antt =====
-- How often a dispatch runs the rest of the application.
use runtime_ops.Base.{ℕ, ◌+◌, ◌≡◌, ◌⊎◌, Option}
use runtime_ops.Redis.SortedSets.{SortedSets}
use runtime_ops.Redis.Counters.{Counters}
use runtime_ops.Security.RateLimiter.{Quota}
use runtime_ops.Security.Middleware.{
  Handled, response, limit_error, failure, Reply, passed_on, with_quota, too_many_requests, detail,
}

-- The application, with the number of its runs.
abbrev pub counting : {R W : Type 0} → (W → Handled R × W) → W × ℕ → Handled R × (W × ℕ)
counting call_next (w, n) = let (h, w') = call_next w in (h, (w', n + 1))

-- A single run, which did not fail, and what is replied to it.
abbrev pub Once : {R W : Type 0} → (W → Handled R × W) → W × ℕ → Reply R → W × ℕ → Type 0
Once {R} call_next (w, n) reply after =
    (after ≡ ((call_next w).1, n + 1))
    × (((r : R) × (q : Quota) × ((call_next w).0 ≡ response r) × (reply ≡ with_quota r q))
        ⊎ ((a b c : Option ℕ) × ((call_next w).0 ≡ limit_error a b c)
            × (reply ≡ too_many_requests (detail 60 a) (detail 0 b) (detail 0 c))))

-- A run that failed, and another, whose end is the reply.
abbrev pub Twice : {R W : Type 0} → (W → Handled R × W) → W × ℕ → Reply R → W × ℕ → Type 0
Twice call_next (w, n) reply after =
    let again = call_next (call_next w).1 in
    ((call_next w).0 ≡ failure) × (reply ≡ passed_on again.0) × (after ≡ (again.1, n + 2))
