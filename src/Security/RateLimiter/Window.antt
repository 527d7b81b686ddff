-- ===== src/Security/RateLimiter/Window.antt =====
-- One sliding window: its sorted set holds every request that it still counts, and the operations
-- of the limiter keep it so.
use runtime_ops.Base.{
  Text, ℕ, ◌+◌, ◌-◌, ◌≤◌, ◌≡◌, refl, sym, Bool, true, false, Option, none, some, List, [], ◌∷◌,
  select, tally, all, arith, leb, leb→le, ltb, if◌then◌else◌, Bool-cases, inl, inr,
}
use runtime_ops.Redis.Deadline.{expired}
use runtime_ops.Redis.SortedSets.{Entry, outside, is_empty, SortedSets}
use runtime_ops.Security.RateLimiter.{get_request_count}
use runtime_ops.Security.RateLimiter.Entries.{
  recent, within, before, unlike, all-select, tally-select-le, tally-trim, length-trim, tally_early,
  all-before,
}

tally-within-le :
    (w now T : ℕ) (log : List ℕ)
    → all (λ a. leb a now) log ≡ true
    → now ≤ T
    → tally (within w T) log ≡ tally (λ a. ltb T (a + w)) log
tally-within-le w now T [] h g = refl
tally-within-le w now T (a ∷ log) h g = ground (arith, tally-within-le w now T log)

-- No entry has this member.
abbrev pub Fresh : (redis : SortedSets) → Text → Text → redis.Store → Type 0
Fresh redis k m s = all (unlike m) (redis.entries s k) ≡ true

module _ (redis : SortedSets) (k : Text) (w : ℕ) where
  open redis use {
    Store, entries, deadline, visible, visible_lem, zcard_lem, entries-zrem, deadline-zrem,
    entries-zadd, deadline-zadd, entries-expire, deadline-expire, zremrangebyscore, zadd,
  }

  -- At `now`, after the requests at the instants of `log`: what a deadline hides is out of the
  -- window, every request of the log that a window counts has its entry, and no window counts more
  -- than `limit`, among the entries or in the log.
  pub record Window (limit now : ℕ) (log : List ℕ) (s : Store) : Type 0 where
    pub safe : (T : ℕ) → expired (deadline s k) T ≡ true → tally (recent w T) (entries s k) ≡ 0
    pub logged : (T : ℕ) → now ≤ T → tally (within w T) log ≤ tally (recent w T) (entries s k)
    pub capped : (T : ℕ) → now ≤ T → tally (recent w T) (entries s k) ≤ limit
    pub past : all (before now) (entries s k) ≡ true
    pub log_past : all (λ a. leb a now) log ≡ true
    pub bound : (T : ℕ) → tally (within w T) log ≤ limit

  log-later :
      (now now' : ℕ) (log : List ℕ)
      → now ≤ now'
      → all (λ a. leb a now) log ≡ true
      → all (λ a. leb a now') log ≡ true
  log-later now now' [] g h = refl
  log-later now now' (a ∷ log) g h = ground (arith, log-later now now' log g)

  pub Window-later :
      (limit now now' : ℕ) (log : List ℕ) (s : Store)
      → now ≤ now'
      → Window limit now log s
      → Window limit now' log s
  Window-later limit now now' log s g h = record {
    safe = h.safe;
    logged = λ T e. h.logged T (omega arith);
    capped = λ T e. h.capped T (omega arith);
    past = all-before now now' (entries s k) g h.past;
    log_past = log-later now now' log g h.log_past;
    bound = h.bound;
  }

  -- A change of other keys.
  pub Window-frame :
      (limit now : ℕ) (log : List ℕ) (s s' : Store)
      → (entries s' k ≡ entries s k) × (deadline s' k ≡ deadline s k)
      → Window limit now log s
      → Window limit now log s'
  Window-frame limit now log s s' e h = record {
    safe = λ T x. rw e.0 (h.safe T (rw e.1 at x));
    logged = λ T x. rw e.0 (h.logged T x);
    capped = λ T x. rw e.0 (h.capped T x);
    past = rw e.0 h.past;
    log_past = h.log_past;
    bound = h.bound;
  }

  module _ (limit now : ℕ) (log : List ℕ) (s : Store) (h : Window limit now log s) where
    pub visible-tally :
        (t T : ℕ) → t ≤ T → tally (recent w T) (visible s t k) ≡ tally (recent w T) (entries s k)
    visible-tally t T g = elim (Bool-cases (expired (deadline s k) t)) [
      | inl gone ↦ rw (visible_lem s t k, gone) (sym (h.safe T (still_gone (deadline s k) gone)))
      | inr there ↦ rw (visible_lem s t k, there)
    ]
      where
        still_gone : (d : Option ℕ) → expired d t ≡ true → expired d T ≡ true
        still_gone none e = cc
        still_gone (some d) e = ground arith

    pub visible-past : (t : ℕ) → all (before now) (visible s t k) ≡ true
    visible-past t = rw visible_lem (ground (arith, h.past))

    abbrev trimmed : Store
    trimmed = zremrangebyscore now k 0 (now - w) s

    abbrev rest : List Entry
    rest = select (outside 0 (now - w)) (visible s now k)

    trimmed-deadline : expired (deadline s k) now ≡ false → expired (deadline trimmed k) now ≡ false
    trimmed-deadline there = rw (deadline-zrem now k 0 (now - w) s) (pick (is_empty rest))
      where
        pick : (b : Bool) → expired (if b then none else deadline s k) now ≡ false
        pick true = refl
        pick false = there

    trimmed-visible : visible trimmed now k ≡ rest
    trimmed-visible = elim (Bool-cases (expired (deadline s k) now)) [
      | inl gone ↦
          rw (visible_lem trimmed now k, entries-zrem, visible_lem s now k, gone)
            (both (expired (deadline trimmed k) now))
      | inr there ↦ rw (visible_lem trimmed now k, trimmed-deadline there, entries-zrem)
    ]
      where
        both : (b : Bool) → (if b then [] else select (outside 0 (now - w)) []) ≡ []
        both true = refl
        both false = refl

    -- The count is that of the window.
    pub count_lem : (get_request_count redis k w now s).0 ≡ tally (recent w now) (entries s k)
    unfolding get_request_count
    count_lem = elim (Bool-cases (leb w now)) [
      | inl e ↦
          rw (e, zcard_lem, trimmed-visible, length-trim w now (visible s now k) (leb→le w now e))
            (visible-tally now now (omega arith))
      | inr e ↦
          rw (e, zcard_lem, tally_early w now (visible s now k) (ground arith))
            (visible-tally now now (omega arith))
    ]

    trimmed-tally :
        (T : ℕ)
        → w ≤ now
        → now ≤ T
        → tally (recent w T) (entries trimmed k) ≡ tally (recent w T) (entries s k)
    trimmed-tally T e g =
        rw (entries-zrem, tally-trim w now T (visible s now k) e g) (visible-tally now T g)

    visible-tally-le :
        (t T : ℕ) → tally (recent w T) (visible s t k) ≤ tally (recent w T) (entries s k)
    visible-tally-le t T = rw (visible_lem s t k) (pick (expired (deadline s k) t))
      where
        pick :
            (b : Bool)
            → tally (recent w T) (if b then [] else entries s k) ≤ tally (recent w T) (entries s k)
        pick true = omega arith
        pick false = omega arith

    trimmed-safe :
        (T : ℕ) → expired (deadline trimmed k) T ≡ true → tally (recent w T) (entries trimmed k) ≡ 0
    trimmed-safe T x =
        let less = tally-select-le (recent w T) (outside 0 (now - w)) (visible s now k) in
        rw entries-zrem (
          omega (
            arith,
            less,
            visible-tally-le now T,
            h.safe T (gone (is_empty rest) (rw (deadline-zrem now k 0 (now - w) s) at x)),
          ))
      where
        gone :
            (b : Bool)
            → expired (if b then none else deadline s k) T ≡ true
            → expired (deadline s k) T ≡ true
        gone true y = absurd (cc y)
        gone false y = y

    trimmed-Window : w ≤ now → Window limit now log trimmed
    trimmed-Window e = record {
      safe = λ T x. trimmed-safe T x;
      logged = λ T g. rw (trimmed-tally T e g) (h.logged T g);
      capped = λ T g. rw (trimmed-tally T e g) (h.capped T g);
      past =
          rw entries-zrem
            (all-select (before now) (outside 0 (now - w)) (visible s now k) (visible-past now));
      log_past = h.log_past;
      bound = h.bound;
    }

    -- Trimming keeps the window.
    pub count-Window : Window limit now log (get_request_count redis k w now s).1
    unfolding get_request_count
    count-Window = elim (Bool-cases (leb w now)) [
      | inl e ↦ rw e (trimmed-Window (leb→le w now e))
      | inr e ↦ rw e h
    ]

    -- ... and changes no count from now on.
    pub count-tally :
        (T : ℕ)
        → now ≤ T
        → tally (recent w T) (entries (get_request_count redis k w now s).1 k)
          ≡ tally (recent w T) (entries s k)
    unfolding get_request_count
    count-tally T g = elim (Bool-cases (leb w now)) [
      | inl e ↦ rw e (trimmed-tally T (leb→le w now e) g)
      | inr e ↦ rw e
    ]

    trimmed-Fresh : (m : Text) → Fresh redis k m s → Fresh redis k m trimmed
    trimmed-Fresh m f = rw (entries-zrem, visible_lem s now k) (pick (expired (deadline s k) now))
      where
        pick :
            (b : Bool)
            → all (unlike m) (select (outside 0 (now - w)) (if b then [] else entries s k)) ≡ true
        pick true = refl
        pick false = all-select (unlike m) (outside 0 (now - w)) (entries s k) f

    pub count-Fresh :
        (m : Text) → Fresh redis k m s → Fresh redis k m (get_request_count redis k w now s).1
    unfolding get_request_count
    count-Fresh m f = elim (Bool-cases (leb w now)) [
      | inl e ↦ rw e (trimmed-Fresh m f)
      | inr e ↦ rw e f
    ]
