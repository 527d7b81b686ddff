-- ===== src/CircuitBreaker/Safety.antt =====
-- The states that calls can reach from a new breaker, when they trip it, and how it recovers.
use runtime_ops.Base.{
  ℕ, ◌+◌, ◌≤◌, ◌<◌, ◌≡◌, refl, ◌≢◌, Bool, true, false, List, [], ◌∷◌, map, All, tally, arith,
}
use runtime_ops.CircuitBreaker.{
  closed, opened, half_open, Breaker, init, Outcome, returns, raises, result, reraised,
  circuit_open_error, call, Attempt, run, replies,
}

pub record IsValid (b : Breaker) : Type 0 where
  pub below : b.state ≡ closed → b.failures < b.max_failures
  pub tripped : b.state ≡ opened → b.max_failures ≤ b.failures
  pub settled : b.state ≢ half_open
  pub positive : 0 < b.max_failures

abbrev pub is_raise {ℓ} : {A : Type ℓ} → Attempt A → Bool
is_raise a = elim a.outcome [ raises ↦ true | _ ↦ false ]

pub call-IsValid {ℓ} :
    {A : Type ℓ} (b : Breaker) (now failed_at : ℕ) (o : Outcome A)
    → IsValid b
    → IsValid (call b now failed_at o).0
unfolding call
call-IsValid b now failed_at o v = ground arith

run-keeps-IsValid {ℓ} :
    {A : Type ℓ} (b : Breaker) (calls : List (Attempt A)) → IsValid b → IsValid (run b calls)
unfolding run
run-keeps-IsValid b [] v = v
run-keeps-IsValid b (a ∷ rest) v =
    run-keeps-IsValid (call b a.now a.failed_at a.outcome).0 rest
      (call-IsValid b a.now a.failed_at a.outcome v)

-- Whatever calls a new breaker with a positive threshold has served, it is closed with fewer
-- failures than the threshold or open with at least as many, and never left half open.
pub run-IsValid {ℓ} :
    {A : Type ℓ} (max_failures reset_timeout : ℕ) (calls : List (Attempt A))
    → 0 < max_failures
    → IsValid (run (init max_failures reset_timeout) calls)
unfolding init
run-IsValid max_failures reset_timeout calls h = run-keeps-IsValid _ calls (ground arith)

-- While the timeout since the last failure has not passed, an open breaker refuses every call: no
-- wrapped function runs, every caller gets `CircuitBreakerOpenError`, and the breaker is unchanged.
pub open_refuses_all {ℓ} :
    {A : Type ℓ} (b : Breaker) (calls : List (Attempt A))
    → b.state ≡ opened
    → All (λ a. a.now ≤ b.last_failure_time + b.reset_timeout) calls
    → (run b calls ≡ b) × (replies b calls ≡ map (λ _. circuit_open_error) calls)
unfolding run replies call
open_refuses_all b [] o h = (refl, refl)
open_refuses_all b (a ∷ rest) o h = ground (arith, open_refuses_all b rest o h.1)

pub counts {ℓ} :
    {A : Type ℓ} (b : Breaker) (calls : List (Attempt A))
    → b.state ≡ closed
    → b.failures + tally is_raise calls < b.max_failures
    → ((run b calls).state ≡ closed)
      × ((run b calls).failures ≡ b.failures + tally is_raise calls)
      × ((run b calls).max_failures ≡ b.max_failures)
unfolding run call
counts b [] o h = ground arith
counts b (a ∷ rest) o h = ground (arith, counts (call b a.now a.failed_at a.outcome).0 rest)

-- A closed breaker stays closed through any calls whose failures, added to those it has counted,
-- are fewer than the threshold; successes in between take nothing off the count. The call whose
-- failure reaches the threshold opens it at the instant of that failure.
pub trips_at_threshold {ℓ} :
    {A : Type ℓ} (b : Breaker) (calls : List (Attempt A))
    → b.state ≡ closed
    → b.failures + tally is_raise calls < b.max_failures
    → let c = run b calls in
      (c.state ≡ closed)
      × (c.failures ≡ b.failures + tally is_raise calls)
      × ((now failed_at : ℕ)
          → b.failures + tally is_raise calls + 1 ≡ b.max_failures
          → ((call {A = A} c now failed_at raises).0.state ≡ opened)
            × ((call {A = A} c now failed_at raises).0.last_failure_time ≡ failed_at))
unfolding call
trips_at_threshold b calls o h =
    let (c, n, m) = counts b calls o h in (c, n, λ now failed_at e. (ground arith, ground arith))

-- The first call after the timeout of an open breaker runs the function. If it returns, the breaker
-- is closed with no failures counted; if it raises, the breaker is open again from that instant.
probe_decides {ℓ} :
    {A : Type ℓ} (b : Breaker) (now failed_at : ℕ) (o : Outcome A)
    → IsValid b
    → b.state ≡ opened
    → b.last_failure_time + b.reset_timeout < now
    → let (c, reply) = call b now failed_at o in
      ((a : A) → o ≡ returns a → (reply ≡ result a) × (c.state ≡ closed) × (c.failures ≡ 0))
      × (o ≡ raises → (reply ≡ reraised) × (c.state ≡ opened) × (c.last_failure_time ≡ failed_at))
unfolding call
probe_decides b now failed_at o v s h = (λ a e. ground arith, λ e. ground arith)
