-- ===== src/Security/RateLimiter/Bound.antt =====
-- The bound on what a sequence of requests of one user to one endpoint can get.
use runtime_ops.Base.{
  Text, ℕ, ◌≤◌, ◌≡◌, refl, List, [], ◌∷◌, tally, All, arith, leb, Bool-cases, inl, inr,
}
use runtime_ops.Redis.SortedSets.{SortedSets}
use runtime_ops.Security.RateLimiter.{
  Request, record_allowed, check_and_record, RateLimitTier, rate_limits, hourly_limit, minute_limit,
  hourly_key, minute_key, burst_key, Outcome, allowed, refused, get_request_count, check_rate_limit,
}
use runtime_ops.Security.RateLimiter.Entries.{within}
use runtime_ops.Security.RateLimiter.Window.{Fresh}
use runtime_ops.Security.RateLimiter.Kept.{Kept, Kept-later}
use runtime_ops.Security.RateLimiter.Sequence.{
  Limited, after_hour, after_minute, after_burst, Apart, allowed_recorded,
}

-- Clock readings that never go back, from `now` on.
abbrev pub Ordered : ℕ → List Request → Type 0
Ordered now [] = Unit
Ordered now (r ∷ rs) =
    (now ≤ r.checked_at) × (r.checked_at ≤ r.recorded_at) × Ordered r.recorded_at rs

-- The log of the instants at which allowed requests were recorded, the latest first.
abbrev pub note : Outcome → ℕ → List ℕ → List ℕ
note (allowed q) now log = now ∷ log
note (refused e) now log = log

module _ (redis : SortedSets) (user endpoint : Text) (tier : RateLimitTier) where
  open redis use {Store, entries, deadline}

  -- No two requests are recorded under one member.
  abbrev pub Distinct : List Request → Type 0
  Distinct [] = Unit
  Distinct (r ∷ rs) = Apart redis user endpoint tier r rs × Distinct rs

  start-Kept :
      (k : Text) (w limit : ℕ) (ms : List Text) (s : Store)
      → entries s k ≡ []
      → Kept redis k w limit 0 [] ms s
  start-Kept k w limit ms s e = record {
    window = record {
      safe = λ T x. rw e;
      logged = λ T x. omega arith;
      capped = λ T x. rw e (omega arith);
      past = rw e;
      log_past = refl;
      bound = λ T. omega arith;
    };
    fresh = all_fresh ms;
  }
    where
      all_fresh : (qs : List Text) → All (λ m. Fresh redis k m s) qs
      all_fresh [] = tt
      all_fresh (m ∷ qs) = (rw e, all_fresh qs)

  Limited-later :
      (now now' : ℕ) (log : List ℕ) (rs : List Request) (s : Store)
      → now ≤ now'
      → Limited redis user endpoint tier now log rs s
      → Limited redis user endpoint tier now' log rs s
  Limited-later now now' log rs s g h = record {
    hour = Kept-later redis _ _ _ _ _ _ s now' g h.hour;
    minute = Kept-later redis _ _ _ _ _ _ s now' g h.minute;
    burst = Kept-later redis _ _ _ _ _ _ s now' g h.burst;
  }

  Limited-drop :
      (now : ℕ) (log : List ℕ) (r : Request) (rs : List Request) (s : Store)
      → Limited redis user endpoint tier now log (r ∷ rs) s
      → Limited redis user endpoint tier now log rs s
  Limited-drop now log r rs s h = record {
    hour = record { window = h.hour.window; fresh = h.hour.fresh.1 };
    minute = record { window = h.minute.window; fresh = h.minute.fresh.1 };
    burst = record { window = h.burst.window; fresh = h.burst.fresh.1 };
  }

  -- Whatever the limiter answers, the windows are kept.
  step-Limited :
      (r : Request) (rs : List Request) (log : List ℕ) (s : Store)
      → Limited redis user endpoint tier r.checked_at log (r ∷ rs) s
      → r.checked_at ≤ r.recorded_at
      → Apart redis user endpoint tier r rs
      → let (o, s') = check_and_record redis user endpoint tier r s in
        Limited redis user endpoint tier r.recorded_at (note o r.recorded_at log) rs s'
  unfolding check_and_record check_rate_limit record_allowed
  step-Limited r rs log s h g apart =
      let hc = get_request_count redis (hourly_key user endpoint) 3600 r.checked_at s in
      let mc = get_request_count redis (minute_key user endpoint) 60 r.checked_at hc.1 in
      let bc = get_request_count redis (burst_key user) 10 r.checked_at mc.1 in
      let stay : (s' : Store)
          → Limited redis user endpoint tier r.checked_at log (r ∷ rs) s'
          → Limited redis user endpoint tier r.recorded_at log rs s' =
        λ s' k.
          Limited-drop r.recorded_at log r rs s'
            (Limited-later r.checked_at r.recorded_at log (r ∷ rs) s' g k) in
      elim (Bool-cases (leb (hourly_limit tier endpoint) hc.0)) [
        | inl e ↦ rw e (stay _ (after_hour redis user endpoint tier _ _ _ s h))
        | inr e ↦ elim (Bool-cases (leb (minute_limit tier endpoint) mc.0)) [
          | inl f ↦ rw (e, f) (stay _ (after_minute redis user endpoint tier _ _ _ s h))
          | inr f ↦ elim (Bool-cases (leb (rate_limits tier).burst_allowance bc.0)) [
            | inl b ↦ rw (e, f, b) (stay _ (after_burst redis user endpoint tier _ _ _ s h))
            | inr b ↦
                rw (e, f, b)
                  (allowed_recorded redis user endpoint tier r rs log s h g apart (ground arith)
                    (ground arith) (ground arith))
          ]
        ]
      ]

  -- The instants at which allowed requests were recorded, the latest first, in front of `log`.
  unfoldable pub admitted : List Request → List ℕ → Store → List ℕ
  admitted [] log s = log
  admitted (r ∷ rs) log s =
      let (o, s') = check_and_record redis user endpoint tier r s in
      admitted rs (note o r.recorded_at log) s'

  -- The instant of the last recording.
  last : ℕ → List Request → ℕ
  last now [] = now
  last now (r ∷ rs) = last r.recorded_at rs

  serve-Limited :
      (now : ℕ) (rs : List Request) (log : List ℕ) (s : Store)
      → Limited redis user endpoint tier now log rs s
      → Ordered now rs
      → Distinct rs
      → (s' : Store) × (now' : ℕ) × Limited redis user endpoint tier now' (admitted rs log s) [] s'
  unfolding admitted
  serve-Limited now [] log s h g d = (s, now, h)
  serve-Limited now (r ∷ rs) log s h g d =
      serve-Limited r.recorded_at rs _ _
        (step-Limited r rs log s (Limited-later now r.checked_at log (r ∷ rs) s g.0 h) g.1 d.0) g.2
        d.1

  -- When each request is recorded as it is allowed, with clocks that do not go back and members
  -- that do not repeat, starting from nothing recorded: at every instant, the requests allowed in
  -- the last hour, minute and ten seconds are at most the tier's limits for the endpoint.
  pub admitted_bound :
      (rs : List Request) (s : Store)
      → entries s (hourly_key user endpoint) ≡ []
      → entries s (minute_key user endpoint) ≡ []
      → entries s (burst_key user) ≡ []
      → Ordered 0 rs
      → Distinct rs
      → (T : ℕ)
      → (tally (within 3600 T) (admitted rs [] s) ≤ hourly_limit tier endpoint)
        × (tally (within 60 T) (admitted rs [] s) ≤ minute_limit tier endpoint)
        × (tally (within 10 T) (admitted rs [] s) ≤ (rate_limits tier).burst_allowance)
  admitted_bound rs s eh em eb g d T =
      let (s', now', h) =
        serve-Limited 0 rs [] s
          (record {
            hour = start-Kept _ 3600 _ _ s eh;
            minute = start-Kept _ 60 _ _ s em;
            burst = start-Kept _ 10 _ _ s eb;
          })
          g d in
      (h.hour.window.bound T, h.minute.window.bound T, h.burst.window.bound T)
