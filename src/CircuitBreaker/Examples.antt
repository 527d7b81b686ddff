-- ===== src/CircuitBreaker/Examples.antt =====
-- The circuit breaker at concrete inputs.
use runtime_ops.Base.{ℕ, ◌≡◌, refl, List, [], ◌∷◌, arith}
use runtime_ops.CircuitBreaker.{
  Breaker, opened, closed, init, Outcome, returns, raises, result, reraised, call, Attempt, run,
  replies, circuit_open_error,
}
use runtime_ops.CircuitBreaker.Safety.{IsValid, run-IsValid, trips_at_threshold}
use runtime_ops.CircuitBreaker.Recovery.{recovers}

abbrev attempt : ℕ → Outcome ℕ → Attempt ℕ
attempt t o = record { now = t; failed_at = t; outcome = o }

-- A failure, a success and a failure: the second failure is not consecutive, and it opens a breaker
-- that tolerates one.
abbrev flaky : List (Attempt ℕ)
flaky = attempt 10 raises ∷ attempt 11 (returns 7) ∷ attempt 12 raises ∷ []

abbrev tripped : Breaker
tripped = record {
  max_failures = 2;
  reset_timeout = 60;
  failures = 2;
  last_failure_time = 12;
  state = opened;
}

flaky_trips : run (init 2 60) flaky ≡ tripped
unfolding run call init
flaky_trips = refl

tripped-IsValid : IsValid tripped
tripped-IsValid = ground arith

run-IsValid_example : IsValid (run (init 2 60) flaky)
run-IsValid_example = run-IsValid 2 60 flaky (omega arith)

abbrev fresh : Breaker
fresh = record tripped { failures = 0; last_failure_time = 0; state = closed }

trips_at_threshold_example :
    let c = run fresh (attempt 10 raises ∷ attempt 11 (returns 7) ∷ []) in
    (c.state ≡ closed)
    × (c.failures ≡ 1)
    × ((now failed_at : ℕ)
        → ◌≡◌ {A = ℕ} 2 2
        → ((call {A = ℕ} c now failed_at raises).0.state ≡ opened)
          × ((call {A = ℕ} c now failed_at raises).0.last_failure_time ≡ failed_at))
trips_at_threshold_example =
    trips_at_threshold fresh (attempt 10 raises ∷ attempt 11 (returns 7) ∷ []) refl (omega arith)

abbrev success : Outcome ℕ
success = returns 5

-- Refused while open, let through after the timeout, and one failure that does not trip it again.
recovers_example :
    let calls = attempt 20 success ∷ attempt 73 success ∷ attempt 74 raises ∷ [] in
    (replies tripped calls ≡ circuit_open_error ∷ result 5 ∷ reraised ∷ [])
    × ((run tripped calls).state ≡ closed)
    × ((run tripped calls).failures ≡ 1)
recovers_example =
    recovers tripped (attempt 20 success ∷ []) (attempt 74 raises ∷ []) 73 73 5 refl (ground arith)
      (omega arith) (omega arith)
