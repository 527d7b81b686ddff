-- ===== src/Redis/Counters.antt =====
-- Counters: INCR, DECR, GET and EXPIRE on keys that hold numbers.
use runtime_ops.Base.{Text, ℕ, ◌+◌, ◌-◌, ◌≡◌, ◌≢◌, ◌<◌, Option, none, some, if◌then◌else◌}
use runtime_ops.Redis.Deadline.{expired}

pub record Counters : Type 1 where
  pub Store : Type 0
  -- What a store holds: the number of a key, if it has one, and when the key is due to go.
  pub stored : Store → Text → Option ℕ
  pub deadline : Store → Text → Option ℕ
  pub get : ℕ → Text → Store → Option ℕ
  pub incr : ℕ → Text → Store → ℕ × Store
  pub decr : ℕ → Text → Store → Store
  pub expire : ℕ → Text → ℕ → Store → Store
  -- GET shows nothing of a key past its deadline.
  pub get_lem :
      (t : ℕ) (k : Text) (s : Store)
      → get t k s ≡ (if expired (deadline s k) t then none else stored s k)
  -- INCR and DECR take a missing key for 0, keep the deadline of one that is there, and touch no
  -- other key. (DECR below 0 is not sent.)
  pub incr_reply :
      (t : ℕ) (k : Text) (s : Store)
      → (incr t k s).0 ≡ elim (get t k s) [ none ↦ 1 | some n ↦ n + 1 ]
  pub stored-incr :
      (t : ℕ) (k : Text) (s : Store)
      → stored (incr t k s).1 k ≡ some (elim (get t k s) [ none ↦ 1 | some n ↦ n + 1 ])
  pub deadline-incr :
      (t : ℕ) (k : Text) (s : Store)
      → deadline (incr t k s).1 k ≡ elim (get t k s) [ none ↦ none | some n ↦ deadline s k ]
  pub incr_ne :
      (t : ℕ) (k : Text) (s : Store) (j : Text)
      → k ≢ j
      → (stored (incr t k s).1 j ≡ stored s j) × (deadline (incr t k s).1 j ≡ deadline s j)
  pub decr_lem :
      (t : ℕ) (k : Text) (s : Store) (n : ℕ)
      → get t k s ≡ some n
      → 0 < n
      → (stored (decr t k s) k ≡ some (n - 1)) × (deadline (decr t k s) k ≡ deadline s k)
  pub expire_lem :
      (t : ℕ) (k : Text) (n : ℕ) (s : Store) (v : ℕ)
      → get t k s ≡ some v
      → (stored (expire t k n s) k ≡ some v) × (deadline (expire t k n s) k ≡ some (t + n))
  pub expire_ne :
      (t : ℕ) (k : Text) (n : ℕ) (s : Store) (j : Text)
      → k ≢ j
      → (stored (expire t k n s) j ≡ stored s j) × (deadline (expire t k n s) j ≡ deadline s j)
