-- ===== src/CircuitBreaker/Recovery.antt =====
-- How an open breaker gets back to serving its callers.
use runtime_ops.Base.{
  ℕ, ◌+◌, ◌≤◌, ◌<◌, ◌≡◌, refl, ap, ◌∙◌, List, [], ◌∷◌, ◌++◌, map, All, tally, arith,
}
use runtime_ops.CircuitBreaker.{
  closed, opened, Breaker, returns, raises, Reply, result, reraised, circuit_open_error, call,
  Attempt, run, replies,
}
use runtime_ops.CircuitBreaker.Safety.{is_raise, open_refuses_all, counts}

-- What the caller of an admitted call sees.
abbrev pub answer {ℓ} : {A : Type ℓ} → Attempt A → Reply A
answer a = elim a.outcome [ returns x ↦ result x | raises ↦ reraised ]

closed_serves {ℓ} :
    {A : Type ℓ} (b : Breaker) (calls : List (Attempt A))
    → b.state ≡ closed
    → b.failures + tally is_raise calls < b.max_failures
    → replies b calls ≡ map answer calls
unfolding replies call
closed_serves b [] o h = refl
closed_serves b (a ∷ rest) o h =
    ground (arith, closed_serves (call b a.now a.failed_at a.outcome).0 rest)

run-append {ℓ} :
    {A : Type ℓ} (b : Breaker) (early later : List (Attempt A))
    → run b (early ++ later) ≡ run (run b early) later
unfolding run
run-append b [] later = refl
run-append b (a ∷ early) later = run-append (call b a.now a.failed_at a.outcome).0 early later

replies-append {ℓ} :
    {A : Type ℓ} (b : Breaker) (early later : List (Attempt A))
    → replies b (early ++ later) ≡ replies b early ++ replies (run b early) later
unfolding run replies
replies-append b [] later = refl
replies-append b (a ∷ early) later =
    ap (λ xs. (call b a.now a.failed_at a.outcome).1 ∷ xs)
      (replies-append (call b a.now a.failed_at a.outcome).0 early later)

-- An open breaker recovers. The calls made before its timeout has passed are refused; the first call
-- after it runs, and if the function returns, that call and all later ones get what the function
-- gives them, as long as fewer of the later ones raise than the threshold; the breaker is then closed
-- with these failures counted.
pub recovers {ℓ} :
    {A : Type ℓ} (b : Breaker) (early later : List (Attempt A)) (now failed_at : ℕ) (x : A)
    → b.state ≡ opened
    → All (λ a. a.now ≤ b.last_failure_time + b.reset_timeout) early
    → b.last_failure_time + b.reset_timeout < now
    → tally is_raise later < b.max_failures
    → let calls =
        early ++ record { now = now; failed_at = failed_at; outcome = returns x } ∷ later in
      (replies b calls ≡ map (λ _. circuit_open_error) early ++ result x ∷ map answer later)
      × ((run b calls).state ≡ closed)
      × ((run b calls).failures ≡ tally is_raise later)
unfolding run replies call
recovers b early later now failed_at x o h t f =
    let (same, refused) = open_refuses_all b early o h in
    let calls : List (Attempt _) =
      record { now = now; failed_at = failed_at; outcome = returns x } ∷ later in
    let c = (call b now failed_at (returns x)).0 in
    let shut : c.state ≡ closed = ground arith in
    let none_yet : c.failures ≡ 0 = ground arith in
    let same_max : c.max_failures ≡ b.max_failures = ground arith in
    let gives : (call b now failed_at (returns x)).1 ≡ result x = ground arith in
    let fewer : c.failures + tally is_raise later < c.max_failures = omega arith in
    let (s, n, m) = counts c later shut fewer in
    let served = closed_serves c later shut fewer in
    (
      replies-append b early calls ∙ rw (refused, same, gives, served) refl,
      rw (run-append b early calls, same) s,
      rw (run-append b early calls, same) (omega arith),
    )
