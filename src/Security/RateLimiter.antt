-- ===== src/Security/RateLimiter.antt =====
-- src/bob/security/rate_limiter.py: limits per tier and endpoint over sliding windows, kept as
-- sorted sets of request instants in Redis, and a counter of concurrent requests.
-- Redis is an argument, by the interfaces of `Redis`. Instants are whole seconds, as in the source.
pub mod Entries
pub mod Window
pub mod Recording
pub mod Kept
pub mod Sequence
pub mod Bound
pub mod Concurrent
pub mod Examples
use runtime_ops.Base.{
  Text, codes, str, text_eq, ℕ, ◌+◌, ◌-◌, ◌*◌, ◌/◌, min, Bool, Option, none, some, List, [], ◌∷◌,
  ◌++◌, leb, ltb, if◌then◌else◌,
}
use runtime_ops.Redis.SortedSets.{Entry, SortedSets}
use runtime_ops.Redis.Counters.{Counters}

-- `RateLimitTier`
pub data RateLimitTier : Type 0 where
  free developer team enterprise : RateLimitTier

pub record TierLimits : Type 0 where
  pub requests_per_hour : ℕ
  pub requests_per_minute : ℕ
  pub concurrent_requests : ℕ
  pub burst_allowance : ℕ

-- `RATE_LIMITS`
pub rate_limits : RateLimitTier → TierLimits
rate_limits free = record {
  requests_per_hour = 100;
  requests_per_minute = 10;
  concurrent_requests = 2;
  burst_allowance = 5;
}
rate_limits developer = record {
  requests_per_hour = 1000;
  requests_per_minute = 50;
  concurrent_requests = 5;
  burst_allowance = 20;
}
rate_limits team = record {
  requests_per_hour = 10000;
  requests_per_minute = 200;
  concurrent_requests = 20;
  burst_allowance = 100;
}
rate_limits enterprise = record {
  requests_per_hour = 100000;
  requests_per_minute = 2000;
  concurrent_requests = 100;
  burst_allowance = 500;
}

-- `ENDPOINT_MULTIPLIERS.get(endpoint, 1.0)`, in tenths. At the limits above the source's product of
-- a float and an integer is exact, so `int` of it is this division.
pub endpoint_tenths : Text → ℕ
endpoint_tenths endpoint =
    if text_eq endpoint (codes "/api/v1/bob/search")
    then 5
    else if text_eq endpoint (codes "/api/v1/bob/resolve-stack-trace")
    then 7
    else if text_eq endpoint (codes "/api/v1/bob/dependency-graph")
    then 8
    else if text_eq endpoint (codes "/api/v1/bob/blast-radius")
    then 5
    else if text_eq endpoint (codes "/api/v1/bob/file")
    then 10
    else if text_eq endpoint (codes "/api/v1/bob/commit-diff")
    then 8
    else if text_eq endpoint (codes "/api/v1/bob/batch")
    then 3
    else if text_eq endpoint (codes "/api/v1/bob/health")
    then 100
    else 10

pub hourly_limit : RateLimitTier → Text → ℕ
hourly_limit tier endpoint = (rate_limits tier).requests_per_hour * endpoint_tenths endpoint / 10

pub minute_limit : RateLimitTier → Text → ℕ
minute_limit tier endpoint = (rate_limits tier).requests_per_minute * endpoint_tenths endpoint / 10

-- The three keys of a request.
pub hourly_key : Text → Text → Text
hourly_key user endpoint = codes "ratelimit:hour:" ++ (user ++ (codes ":" ++ endpoint))

pub minute_key : Text → Text → Text
minute_key user endpoint = codes "ratelimit:minute:" ++ (user ++ (codes ":" ++ endpoint))

pub burst_key : Text → Text
burst_key user = codes "ratelimit:burst:" ++ user

-- The details of `RateLimitExceededError`, and of the pair that is returned.
pub record Refusal : Type 0 where
  pub limit : ℕ
  pub reset_at : ℕ
  pub retry_after : ℕ

pub record Quota : Type 0 where
  pub remaining : ℕ
  pub reset_at : ℕ

pub data Outcome : Type 0 where
  allowed : Quota → Outcome
  refused : Refusal → Outcome

module _ (redis : SortedSets) where
  open redis use {Store, zremrangebyscore, zcard, zadd, zrange_first, expire}

  -- `_get_request_count`. Where `now - window_seconds` is negative the source's removal is of an
  -- empty range.
  pub get_request_count : Text → ℕ → ℕ → Store → ℕ × Store
  get_request_count key window now s =
      let s' = if leb window now then zremrangebyscore now key 0 (now - window) s else s in
      (zcard now key s', s')

  -- `_record_in_window`; `ns` is the reading of `time.time_ns()`.
  pub record_in_window : Text → ℕ → ℕ → ℕ → Store → Store
  record_in_window key window now ns s =
      let e : Entry = record { member = str now ++ (codes ":" ++ str ns); score = now } in
      expire now key (window + 60) (zadd now key e s)

  -- `_get_window_reset`
  pub get_window_reset : Text → ℕ → ℕ → Store → ℕ
  get_window_reset key window now s = elim (zrange_first now key s) [
    | some oldest ↦ oldest.score + window
    | none ↦ now + window
  ]

  pub refusal : ℕ → Text → ℕ → ℕ → Store → Refusal
  refusal limit key window now s = record {
    limit = limit;
    reset_at = get_window_reset key window now s;
    retry_after = get_window_reset key window now s - now;
  }

  -- `check_rate_limit`
  pub check_rate_limit : Text → Text → RateLimitTier → ℕ → Store → Outcome × Store
  check_rate_limit user endpoint tier now s =
      let (hourly_count, s₁) = get_request_count (hourly_key user endpoint) 3600 now s in
      let (minute_count, s₂) = get_request_count (minute_key user endpoint) 60 now s₁ in
      let (burst_count, s₃) = get_request_count (burst_key user) 10 now s₂ in
      if leb (hourly_limit tier endpoint) hourly_count
      then (
        refused (refusal (hourly_limit tier endpoint) (hourly_key user endpoint) 3600 now s₁),
        s₁,
      )
      else if leb (minute_limit tier endpoint) minute_count
      then (refused (refusal (minute_limit tier endpoint) (minute_key user endpoint) 60 now s₂), s₂)
      else if leb (rate_limits tier).burst_allowance burst_count
      then (refused (refusal (rate_limits tier).burst_allowance (burst_key user) 10 now s₃), s₃)
      else (
        allowed (record {
          remaining =
              min (hourly_limit tier endpoint - hourly_count)
                (minute_limit tier endpoint - minute_count);
          reset_at =
              min (get_window_reset (hourly_key user endpoint) 3600 now s₃)
                (get_window_reset (minute_key user endpoint) 60 now s₃);
        }),
        s₃,
      )

  -- `record_request`; the three readings of the nanosecond clock are arguments.
  pub record_request : Text → Text → ℕ → ℕ × ℕ × ℕ → Store → Store
  record_request user endpoint now (ns₁, ns₂, ns₃) s =
      let s₁ = record_in_window (hourly_key user endpoint) 3600 now ns₁ s in
      let s₂ = record_in_window (minute_key user endpoint) 60 now ns₂ s₁ in
      record_in_window (burst_key user) 10 now ns₃ s₂

-- A request: the instants of its check and of its recording, and the nanosecond clock as it is
-- recorded in the three windows.
pub record Request : Type 0 where
  pub checked_at : ℕ
  pub recorded_at : ℕ
  pub ns : ℕ × ℕ × ℕ

module _ (redis : SortedSets) (user endpoint : Text) (tier : RateLimitTier) where
  open redis use {Store}

  -- `RateLimitMiddleware.dispatch` records a request right after its check has allowed it.
  record_allowed : Request → Outcome × Store → Outcome × Store
  record_allowed r (allowed q, s) =
      (allowed q, record_request redis user endpoint r.recorded_at r.ns s)
  record_allowed r (refused e, s) = (refused e, s)

  pub check_and_record : Request → Store → Outcome × Store
  check_and_record r s = record_allowed r (check_rate_limit redis user endpoint tier r.checked_at s)

-- `concurrent:{user_id}`
pub concurrent_key : Text → Text
concurrent_key user = codes "concurrent:" ++ user

-- `int(current) if current else 0`
abbrev pub current_count : Option ℕ → ℕ
current_count none = 0
current_count (some n) = n

module _ (redis : Counters) where
  open redis use {Store, get, incr, decr, expire}

  -- `check_concurrent_requests`: whether it returns (and does not raise).
  pub check_concurrent_requests : Text → RateLimitTier → ℕ → Store → Bool
  check_concurrent_requests user tier t s =
      ltb (current_count (get t (concurrent_key user) s)) (rate_limits tier).concurrent_requests

  pub increment_concurrent : Text → ℕ → Store → Store
  increment_concurrent user t s =
      expire t (concurrent_key user) 300 (incr t (concurrent_key user) s).1

  pub decrement_concurrent : Text → ℕ → Store → Store
  decrement_concurrent user t s =
      if ltb 0 (current_count (get t (concurrent_key user) s))
      then decr t (concurrent_key user) s
      else s
