-- ===== src/Security/Middleware.antt =====
-- src/bob/security/middleware.py: `RateLimitMiddleware.dispatch`. The rest of the application,
-- `call_next`, is an argument that changes a state of its own, and so are the two parts of Redis. The
-- Redis commands are taken to get through.
pub mod Release
pub mod Runs
pub mod Examples
use runtime_ops.Base.{Text, ℕ, Bool, true, false, not, Option, none, some, if◌then◌else◌}
use runtime_ops.Redis.SortedSets.{SortedSets}
use runtime_ops.Redis.Counters.{Counters}
use runtime_ops.Security.RateLimiter.{
  RateLimitTier, free, rate_limits, Refusal, Quota, Outcome, allowed, refused, check_rate_limit,
  record_request, check_concurrent_requests, increment_concurrent, decrement_concurrent,
}

-- How `call_next` ends: with a response, with a `RateLimitExceededError` whose details may hold the
-- three numbers, or with another exception.
pub data Handled {ℓ} (R : Type ℓ) : Type ℓ where
  response : R → Handled R
  limit_error : Option ℕ → Option ℕ → Option ℕ → Handled R
  failure : Handled R

-- How `dispatch` ends: what `call_next` gave, a response with the quota in its headers, or a 429 with
-- the retry-after, the limit and the instant of the reset.
pub data Reply {ℓ} (R : Type ℓ) : Type ℓ where
  passed_on : Handled R → Reply R
  with_quota : R → Quota → Reply R
  too_many_requests : ℕ → ℕ → ℕ → Reply R

-- `e.details.get(key, default)`
abbrev pub detail : ℕ → Option ℕ → ℕ
detail default none = default
detail default (some n) = n

-- `get_tier_for_user`
abbrev pub get_tier_for_user : Text → RateLimitTier
get_tier_for_user user = free

-- The instants of one dispatch: of its first commands, of its last one, of the recording, and the
-- nanosecond clock as the three windows are written.
pub record Clock : Type 0 where
  pub start : ℕ
  pub end : ℕ
  pub recorded_at : ℕ
  pub ns : ℕ × ℕ × ℕ

module _ (redis : Counters) (sets : SortedSets) {R W : Type 0} (call_next : W → Handled R × W) where
  -- What the requests share: the counters, the sorted sets and the application.
  pub record Shared : Type 0 where
    pub counters : redis.Store
    pub windows : sets.Store
    pub application : W

  -- The `except Exception` branch: the request is processed without limits.
  unlimited : Shared → Reply R × Shared
  unlimited s = let (h, w) = call_next s.application in (passed_on h, record s { application = w })

  -- What follows the first end of `call_next`, the counter being down again.
  after_handler : Quota → Shared → Handled R → Reply R × Shared
  unfolding unlimited
  after_handler q s (response r) = (with_quota r q, s)
  after_handler q s (limit_error retry_after limit reset_at) =
      (too_many_requests (detail 60 retry_after) (detail 0 limit) (detail 0 reset_at), s)
  after_handler q s failure = unlimited s

  -- The inner `try`, from the recording on, with its `finally`.
  after_check : Text → Text → Clock → Shared → Outcome → Reply R × Shared
  unfolding after_handler
  after_check user endpoint clock s (refused e) = (
    too_many_requests e.retry_after e.limit e.reset_at,
    record s { counters = decrement_concurrent redis user clock.end s.counters },
  )
  after_check user endpoint clock s (allowed q) =
      let (h, w) = call_next s.application in
      after_handler q
        (record {
          counters = decrement_concurrent redis user clock.end s.counters;
          windows = record_request sets user endpoint clock.recorded_at clock.ns s.windows;
          application = w;
        })
        h

  -- `dispatch`; None for a request without a user.
  pub dispatch : Option Text → Text → Clock → Shared → Reply R × Shared
  unfolding unlimited after_check
  dispatch none endpoint clock s = unlimited s
  dispatch (some user) endpoint clock s =
      let tier = get_tier_for_user user in
      let (outcome, windows) = check_rate_limit sets user endpoint tier clock.start s.windows in
      let entered = record s {
        counters = increment_concurrent redis user clock.start s.counters;
        windows = windows;
      } in
      if not (check_concurrent_requests redis user tier clock.start s.counters)
      then (too_many_requests 60 (rate_limits tier).concurrent_requests 0, s)
      else after_check user endpoint clock entered outcome
