-- ===== src/Query/Gateway/Counting.antt =====
-- What one `count_up` does to the counts that are read of any key.
use runtime_ops.Base.{
  Text, codes, ℕ, suc, ◌+◌, ◌≤◌, ◌<◌, ◌≡◌, ap, ◌≢◌, false, some, [], ◌∷◌, ◌++◌, arith,
}
use runtime_ops.Redis.Deadline.{expired}
use runtime_ops.Redis.Counters.{Counters}
use runtime_ops.Query.Gateway.{minute_key, burst_key, shown, count_up}

peel : (p : Text) {s t : Text} → p ++ s ≡ p ++ t → s ≡ t
peel [] e = e
peel (c ∷ p) e = peel p (cc)

second : Text → ℕ
second (c ∷ d ∷ s) = d
second _ = 0

-- The two windows never share a key.
pub keys_differ : (agent : Text) (t u : ℕ) → minute_key agent t ≢ burst_key agent u
unfolding minute_key burst_key second
keys_differ agent t u e = omega (arith, ap second (peel agent (peel (codes "bob:ratelimit:") e)))

module _ (redis : Counters) where
  open redis use {
    Store, stored, deadline, get, incr, expire, get_lem, incr_reply, stored-incr, deadline-incr,
    incr_ne, expire_lem, expire_ne,
  }

  pub count_up_reply :
      (t : ℕ) (k : Text) (w : ℕ) (s : Store) → (count_up redis t k w s).0 ≡ shown (get t k s) + 1
  unfolding count_up
  count_up_reply t k w s = ground (arith, incr_reply t k s)

  pub get_ne :
      (t : ℕ) (k : Text) (w : ℕ) (s : Store) (u : ℕ) (j : Text)
      → k ≢ j
      → get u j (count_up redis t k w s).1 ≡ get u j s
  unfolding count_up
  get_ne t k w s u j h = ground (
    arith,
    get_lem u j (expire t k w (incr t k s).1),
    get_lem u j (incr t k s).1,
    get_lem u j s,
    incr_ne t k s j h,
    expire_ne t k w (incr t k s).1 j h,
  )

  -- Right after a count the key shows the number replied, until the deadline that it had before or,
  -- if it was new, for `w` seconds.
  pub get_self :
      (t : ℕ) (k : Text) (w : ℕ) (s : Store) (u : ℕ)
      → shown (get t k s) ≡ 0
      → u < t + w
      → get u k (count_up redis t k w s).1 ≡ some 1
  unfolding count_up
  get_self t k w s u e h = ground (
    arith,
    get_lem u k (expire t k w (incr t k s).1),
    incr_reply t k s,
    get_lem t k (incr t k s).1,
    get_lem t k s,
    stored-incr t k s,
    deadline-incr t k s,
    expire_lem t k w (incr t k s).1 1,
  )

  pub get_old :
      (t : ℕ) (k : Text) (w : ℕ) (s : Store) (u n : ℕ)
      → get t k s ≡ some (suc n)
      → expired (deadline s k) u ≡ false
      → get u k (count_up redis t k w s).1 ≡ some (suc (suc n))
  unfolding count_up
  get_old t k w s u n e h =
      ground (
        arith,
        get_lem u k (incr t k s).1,
        incr_reply t k s,
        stored-incr t k s,
        deadline-incr t k s,
      )

  pub get-count_up-le :
      (t : ℕ) (k : Text) (w : ℕ) (s : Store) (u : ℕ)
      → shown (get u k (count_up redis t k w s).1) ≤ shown (get t k s) + 1
  unfolding count_up
  get-count_up-le t k w s u = ground (
    arith,
    get_lem u k (expire t k w (incr t k s).1),
    get_lem u k (incr t k s).1,
    get_lem t k (incr t k s).1,
    get_lem t k s,
    incr_reply t k s,
    stored-incr t k s,
    deadline-incr t k s,
    expire_lem t k w (incr t k s).1 (shown (get t k s) + 1),
  )
