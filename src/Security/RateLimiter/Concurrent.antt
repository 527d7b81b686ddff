-- ===== src/Security/RateLimiter/Concurrent.antt =====
-- The counter of concurrent requests.
use runtime_ops.Base.{
  Text, ℕ, zero, suc, Bool, refl, List, [], ◌∷◌, tally, ◌+◌, ◌-◌, ◌≤◌, ◌<◌, ◌≡◌, true, arith,
}
use runtime_ops.Redis.Counters.{Counters}
use runtime_ops.Security.RateLimiter.{
  RateLimitTier, rate_limits, concurrent_key, current_count, check_concurrent_requests,
  increment_concurrent, decrement_concurrent,
}

module _ (redis : Counters) (user : Text) where
  open redis use {
    Store, stored, deadline, get, incr, decr, expire, get_lem, incr_reply, stored-incr,
    deadline-incr, expire_lem, decr_lem,
  }

  -- What a request at `t` sees of its user's counter.
  abbrev pub in_flight : ℕ → Store → ℕ
  in_flight t s = current_count (get t (concurrent_key user) s)

  -- An increment is seen for the next 300 seconds, whatever the counter's deadline was.
  pub in_flight-increment :
      (t u : ℕ) (s : Store)
      → u < t + 300
      → in_flight u (increment_concurrent redis user t s) ≡ in_flight t s + 1
  unfolding increment_concurrent
  in_flight-increment t u s h = ground (
    arith,
    get_lem u (concurrent_key user)
        (expire t (concurrent_key user) 300 (incr t (concurrent_key user) s).1),
    get_lem t (concurrent_key user) (incr t (concurrent_key user) s).1,
    get_lem t (concurrent_key user) s,
    stored-incr t (concurrent_key user) s,
    deadline-incr t (concurrent_key user) s,
    expire_lem t (concurrent_key user) 300 (incr t (concurrent_key user) s).1 (in_flight t s + 1),
  )

  -- A decrement takes one off, and nothing off 0.
  pub in_flight-decrement :
      (t : ℕ) (s : Store) → in_flight t (decrement_concurrent redis user t s) ≡ in_flight t s - 1
  unfolding decrement_concurrent
  in_flight-decrement t s = ground (
    arith,
    get_lem t (concurrent_key user) (decr t (concurrent_key user) s),
    get_lem t (concurrent_key user) s,
    decr_lem t (concurrent_key user) s (in_flight t s),
  )

  -- An admitted request raises the counter to the tier's limit at most, and its end, within 300
  -- seconds and with no other request between, gives back the count that was there before.
  pub concurrent_cycle :
      (tier : RateLimitTier) (t u : ℕ) (s : Store)
      → check_concurrent_requests redis user tier t s ≡ true
      → u < t + 300
      → let s' = increment_concurrent redis user t s in
        (in_flight t s' ≤ (rate_limits tier).concurrent_requests)
        × (in_flight u (decrement_concurrent redis user u s') ≡ in_flight t s)
  unfolding check_concurrent_requests
  concurrent_cycle tier t u s ok h = (
    ground (arith, in_flight-increment t t s),
    omega (
      arith,
      in_flight-decrement u (increment_concurrent redis user t s),
      in_flight-increment t u s h,
    ),
  )

  -- `k` requests at one instant whose checks all come before the first increment, each of which is
  -- counted if its own check let it in.
  abbrev pub enter : ℕ → ℕ → Store → Store
  enter zero t s = s
  enter (suc k) t s = increment_concurrent redis user t (enter k t s)

  abbrev pub check_all : RateLimitTier → ℕ → ℕ → Store → List Bool
  check_all tier zero t s = []
  check_all tier (suc k) t s = check_concurrent_requests redis user tier t s ∷ check_all tier k t s

  abbrev pub checked_together : RateLimitTier → ℕ → ℕ → Store → Store
  checked_together tier k t s = enter (tally (λ b. b) (check_all tier k t s)) t s

  all_pass :
      (tier : RateLimitTier) (k t : ℕ) (s : Store)
      → in_flight t s < (rate_limits tier).concurrent_requests
      → tally (λ b. b) (check_all tier k t s) ≡ k
  unfolding check_concurrent_requests
  all_pass tier zero t s h = refl
  all_pass tier (suc k) t s h = ground (arith, all_pass tier k t s h)

  none_pass :
      (tier : RateLimitTier) (k t : ℕ) (s : Store)
      → (rate_limits tier).concurrent_requests ≤ in_flight t s
      → tally (λ b. b) (check_all tier k t s) ≡ 0
  unfolding check_concurrent_requests
  none_pass tier zero t s h = refl
  none_pass tier (suc k) t s h = ground (arith, none_pass tier k t s h)

  in_flight-enter : (k t : ℕ) (s : Store) → in_flight t (enter k t s) ≡ in_flight t s + k
  in_flight-enter zero t s = omega arith
  in_flight-enter (suc k) t s =
      omega (arith, in_flight-increment t t (enter k t s), in_flight-enter k t s)

  -- 300 seconds after an increment nothing is seen of the counter.
  forgotten :
      (t u : ℕ) (s : Store) → t + 300 ≤ u → in_flight u (increment_concurrent redis user t s) ≡ 0
  unfolding increment_concurrent
  forgotten t u s h = ground (
    arith,
    get_lem u (concurrent_key user)
        (expire t (concurrent_key user) 300 (incr t (concurrent_key user) s).1),
    get_lem t (concurrent_key user) (incr t (concurrent_key user) s).1,
    get_lem t (concurrent_key user) s,
    stored-incr t (concurrent_key user) s,
    deadline-incr t (concurrent_key user) s,
    expire_lem t (concurrent_key user) 300 (incr t (concurrent_key user) s).1 (in_flight t s + 1),
  )

  -- The check and the increment are two commands. Of requests at one instant that are all checked
  -- before the first is counted, all are let in where the count is below the tier's limit, whatever
  -- their number, and none where it is not. Those let in are counted for the next 300 seconds, beyond
  -- the limit if they are more than the places left, and with no further request forgotten after.
  pub concurrent_race :
      (tier : RateLimitTier) (k t : ℕ) (s : Store)
      → let s' = checked_together tier (suc k) t s in
        (in_flight t s < (rate_limits tier).concurrent_requests
          → ((u : ℕ) → u < t + 300 → in_flight u s' ≡ in_flight t s + (k + 1))
            × ((u : ℕ) → t + 300 ≤ u → in_flight u s' ≡ 0))
        × ((rate_limits tier).concurrent_requests ≤ in_flight t s → s' ≡ s)
  concurrent_race tier k t s = (
    λ h. (
      λ u v.
          rw (all_pass tier (suc k) t s h)
            (omega (arith, in_flight-increment t u (enter k t s) v, in_flight-enter k t s)),
      λ u v. rw (all_pass tier (suc k) t s h) (forgotten t u (enter k t s) v),
    ),
    λ h. rw (none_pass tier (suc k) t s h) refl,
  )
