-- ===== src/Security/RateLimiter/Sequence.antt =====
-- What a sequence of requests can get from the limiter, when each is recorded as it is allowed.
use runtime_ops.Base.{
  Text, text_eq, ℕ, ◌≤◌, ◌<◌, ◌≡◌, sym, ap, ◌≢◌, false, List, ◌∷◌, map, tally, All, arith,
}
use runtime_ops.Redis.SortedSets.{SortedSets}
use runtime_ops.Security.RateLimiter.{
  Request, RateLimitTier, rate_limits, hourly_limit, minute_limit, hourly_key, minute_key,
  burst_key, get_request_count, record_in_window, record_request,
}
use runtime_ops.Security.RateLimiter.Entries.{recent, tally_mono}
use runtime_ops.Security.RateLimiter.Window.{Window, count_lem, count-tally}
use runtime_ops.Security.RateLimiter.Kept.{
  Kept, Kept-frame, Kept-later, Kept-count, Ready, Ready-frame, Ready-record, count_ne, record_ne,
}
use runtime_ops.Security.RateLimiter.Recording.{member_of}

tenth : Text → ℕ
tenth (a ∷ b ∷ c ∷ d ∷ e ∷ f ∷ g ∷ h ∷ i ∷ j ∷ k ∷ s) = k
tenth _ = 0

module _ (redis : SortedSets) (user endpoint : Text) (tier : RateLimitTier) where
  open redis use {Store, entries, deadline, zrem_ne, zadd_ne, expire_ne}

  hour_ne_minute : hourly_key user endpoint ≢ minute_key user endpoint
  unfolding hourly_key minute_key tenth
  hour_ne_minute e = omega (arith, ap tenth e)

  hour_ne_burst : hourly_key user endpoint ≢ burst_key user
  unfolding hourly_key burst_key tenth
  hour_ne_burst e = omega (arith, ap tenth e)

  minute_ne_burst : minute_key user endpoint ≢ burst_key user
  unfolding minute_key burst_key tenth
  minute_ne_burst e = omega (arith, ap tenth e)

  abbrev pub hour_member : Request → Text
  hour_member r = member_of r.recorded_at r.ns.0

  abbrev pub minute_member : Request → Text
  minute_member r = member_of r.recorded_at r.ns.1

  abbrev pub burst_member : Request → Text
  burst_member r = member_of r.recorded_at r.ns.2

  -- The three windows of the user and the endpoint, at `now`, before the requests `rs`.
  pub record Limited (now : ℕ) (log : List ℕ) (rs : List Request) (s : Store) : Type 0 where
    pub hour :
        Kept redis
          (hourly_key user endpoint)
          3600
          (hourly_limit tier endpoint)
          now
          log
          (map hour_member rs)
          s
    pub minute :
        Kept redis
          (minute_key user endpoint)
          60
          (minute_limit tier endpoint)
          now
          log
          (map minute_member rs)
          s
    pub burst :
        Kept redis
          (burst_key user)
          10
          (rate_limits tier).burst_allowance
          now
          log
          (map burst_member rs)
          s

  -- A change of one window's key by a count keeps all three.
  module _ (now : ℕ) (log : List ℕ) (rs : List Request) (s : Store) (h : Limited now log rs s) where
    abbrev s₁ : Store
    s₁ = (get_request_count redis (hourly_key user endpoint) 3600 now s).1

    abbrev s₂ : Store
    s₂ = (get_request_count redis (minute_key user endpoint) 60 now s₁).1

    abbrev s₃ : Store
    s₃ = (get_request_count redis (burst_key user) 10 now s₂).1

    pub after_hour : Limited now log rs s₁
    after_hour = record {
      hour = Kept-count redis _ _ _ now log _ s h.hour;
      minute =
          Kept-frame redis _ _ _ now log _ s s₁ (count_ne redis _ _ now s _ hour_ne_minute)
            h.minute;
      burst =
          Kept-frame redis _ _ _ now log _ s s₁ (count_ne redis _ _ now s _ hour_ne_burst) h.burst;
    }

    pub after_minute : Limited now log rs s₂
    after_minute = record {
      hour =
          Kept-frame redis _ _ _ now log _ s₁ s₂
            (count_ne redis _ _ now s₁ _ (λ e. hour_ne_minute (sym e))) after_hour.hour;
      minute = Kept-count redis _ _ _ now log _ s₁ after_hour.minute;
      burst =
          Kept-frame redis _ _ _ now log _ s₁ s₂ (count_ne redis _ _ now s₁ _ minute_ne_burst)
            after_hour.burst;
    }

    pub after_burst : Limited now log rs s₃
    after_burst = record {
      hour =
          Kept-frame redis _ _ _ now log _ s₂ s₃
            (count_ne redis _ _ now s₂ _ (λ e. hour_ne_burst (sym e))) after_minute.hour;
      minute =
          Kept-frame redis _ _ _ now log _ s₂ s₃
            (count_ne redis _ _ now s₂ _ (λ e. minute_ne_burst (sym e))) after_minute.minute;
      burst = Kept-count redis _ _ _ now log _ s₂ after_minute.burst;
    }

  -- The members of a request differ from those of the requests behind it, in every window.
  abbrev pub Apart : Request → List Request → Type 0
  Apart r rs =
      All (λ m. text_eq (hour_member r) m ≡ false) (map hour_member rs)
      × All (λ m. text_eq (minute_member r) m ≡ false) (map minute_member rs)
      × All (λ m. text_eq (burst_member r) m ≡ false) (map burst_member rs)

  -- Recording, where every window has room.
  module _ (r : Request) (rs : List Request) (log : List ℕ) (s : Store)
      (hour : Ready redis
        (hourly_key user endpoint)
        3600
        (hourly_limit tier endpoint)
        r.recorded_at
        r.ns.0
        log
        (map hour_member rs)
        s)
      (minute : Ready redis
        (minute_key user endpoint)
        60
        (minute_limit tier endpoint)
        r.recorded_at
        r.ns.1
        log
        (map minute_member rs)
        s)
      (burst : Ready redis
        (burst_key user)
        10
        (rate_limits tier).burst_allowance
        r.recorded_at
        r.ns.2
        log
        (map burst_member rs)
        s) where
    abbrev r₁ : Store
    r₁ = record_in_window redis (hourly_key user endpoint) 3600 r.recorded_at r.ns.0 s

    abbrev r₂ : Store
    r₂ = record_in_window redis (minute_key user endpoint) 60 r.recorded_at r.ns.1 r₁

    abbrev r₃ : Store
    r₃ = record_in_window redis (burst_key user) 10 r.recorded_at r.ns.2 r₂

    recorded :
        Limited r.recorded_at
          (r.recorded_at ∷ log)
          rs
          (record_request redis user endpoint r.recorded_at r.ns s)
    unfolding record_request
    recorded =
        let hour₁ = Ready-record redis _ _ _ _ _ _ _ s hour in
        let hour₂ =
          Kept-frame redis _ _ _ _ _ _ r₁ r₂
            (record_ne redis _ _ _ _ r₁ _ (λ e. hour_ne_minute (sym e))) hour₁ in
        let minute₁ =
          Ready-frame redis _ _ _ _ _ _ _ s minute r₁
            (record_ne redis _ _ _ _ s _ hour_ne_minute) in
        let minute₂ = Ready-record redis _ _ _ _ _ _ _ r₁ minute₁ in
        let burst₁ =
          Ready-frame redis _ _ _ _ _ _ _ s burst r₁ (record_ne redis _ _ _ _ s _ hour_ne_burst) in
        let burst₂ =
          Ready-frame redis _ _ _ _ _ _ _ r₁ burst₁ r₂
            (record_ne redis _ _ _ _ r₁ _ minute_ne_burst) in
        record {
          hour =
              Kept-frame redis _ _ _ _ _ _ r₂ r₃
                (record_ne redis _ _ _ _ r₂ _ (λ e. hour_ne_burst (sym e))) hour₂;
          minute =
              Kept-frame redis _ _ _ _ _ _ r₂ r₃
                (record_ne redis _ _ _ _ r₂ _ (λ e. minute_ne_burst (sym e))) minute₂;
          burst = Ready-record redis _ _ _ _ _ _ _ r₂ burst₂;
        }

  -- A request whose three counts are below their limits.
  module _ (r : Request) (rs : List Request) (log : List ℕ) (s : Store)
      (h : Limited r.checked_at log (r ∷ rs) s) (g : r.checked_at ≤ r.recorded_at)
      (apart : Apart r rs) where
    abbrev c₁ : Store
    c₁ = s₁ r.checked_at log (r ∷ rs) s h

    abbrev c₂ : Store
    c₂ = s₂ r.checked_at log (r ∷ rs) s h

    abbrev c₃ : Store
    c₃ = s₃ r.checked_at log (r ∷ rs) s h

    h₁ : Limited r.checked_at log (r ∷ rs) c₁
    h₁ = after_hour r.checked_at log (r ∷ rs) s h

    h₂ : Limited r.checked_at log (r ∷ rs) c₂
    h₂ = after_minute r.checked_at log (r ∷ rs) s h

    h₃ : Limited r.checked_at log (r ∷ rs) c₃
    h₃ = after_burst r.checked_at log (r ∷ rs) s h

    -- Room that a count shows is still there when the request is recorded.
    room :
        (k : Text) (w limit : ℕ) (s' : Store)
        → Window redis k w limit r.checked_at log s'
        → (get_request_count redis k w r.checked_at s').0 < limit
        → tally (recent w r.recorded_at) (entries (get_request_count redis k w r.checked_at s').1 k)
          < limit
    room k w limit s' x less = omega (
      arith,
      count_lem redis k w limit r.checked_at log s' x,
      count-tally redis k w limit r.checked_at log s' x r.recorded_at g,
      tally_mono w r.checked_at r.recorded_at (entries s' k) g,
    )

    pub allowed_recorded :
        (get_request_count redis (hourly_key user endpoint) 3600 r.checked_at s).0
          < hourly_limit tier endpoint
        → (get_request_count redis (minute_key user endpoint) 60 r.checked_at c₁).0
          < minute_limit tier endpoint
        → (get_request_count redis (burst_key user) 10 r.checked_at c₂).0
          < (rate_limits tier).burst_allowance
        → Limited r.recorded_at
            (r.recorded_at ∷ log)
            rs
            (record_request redis user endpoint r.recorded_at r.ns c₃)
    allowed_recorded hc mc bc =
        let hour_room = room _ 3600 _ s h.hour.window hc in
        let minute_room = room _ 60 _ c₁ h₁.minute.window mc in
        let burst_room = room _ 10 _ c₂ h₂.burst.window bc in
        let hour_2 = count_ne redis _ 60 r.checked_at c₁ _ (λ e. hour_ne_minute (sym e)) in
        let hour_3 = count_ne redis _ 10 r.checked_at c₂ _ (λ e. hour_ne_burst (sym e)) in
        let minute_3 = count_ne redis _ 10 r.checked_at c₂ _ (λ e. minute_ne_burst (sym e)) in
        recorded r rs log c₃
          (record {
            kept = Kept-later redis _ _ _ _ _ _ c₃ r.recorded_at g h₃.hour;
            room = rw (hour_3.0, hour_2.0) hour_room;
            apart = apart.0;
          })
          (record {
            kept = Kept-later redis _ _ _ _ _ _ c₃ r.recorded_at g h₃.minute;
            room = rw minute_3.0 minute_room;
            apart = apart.1;
          })
          (record {
            kept = Kept-later redis _ _ _ _ _ _ c₃ r.recorded_at g h₃.burst;
            room = burst_room;
            apart = apart.2;
          })
