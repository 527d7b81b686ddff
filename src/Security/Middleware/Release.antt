-- ===== src/Security/Middleware/Release.antt =====
-- What a dispatch leaves of the counter of concurrent requests.
use runtime_ops.Base.{Text, ◌+◌, ◌<◌, ◌≡◌, refl, true, some, arith}
use runtime_ops.Redis.SortedSets.{SortedSets}
use runtime_ops.Redis.Counters.{Counters}
use runtime_ops.Security.RateLimiter.{
  Quota, Outcome, allowed, refused, check_concurrent_requests, increment_concurrent,
  decrement_concurrent,
}
use runtime_ops.Security.RateLimiter.Concurrent.{
  in_flight, in_flight-increment, in_flight-decrement,
}
use runtime_ops.Security.Middleware.{
  Handled, response, limit_error, failure, get_tier_for_user, Clock, Shared, unlimited,
  after_handler, after_check, dispatch,
}

module _ (redis : Counters) (sets : SortedSets) {R W : Type 0} (call_next : W → Handled R × W)
    (user endpoint : Text) (clock : Clock) where
  handler_keeps :
      (q : Quota) (s : Shared redis sets call_next) (h : Handled R)
      → (after_handler redis sets call_next q s h).1.counters ≡ s.counters
  unfolding after_handler unlimited
  handler_keeps q s (response r) = refl
  handler_keeps q s (limit_error a b c) = refl
  handler_keeps q s failure = refl

  check_releases :
      (s : Shared redis sets call_next) (o : Outcome)
      → (after_check redis sets call_next user endpoint clock s o).1.counters
        ≡ decrement_concurrent redis user clock.end s.counters
  unfolding after_check
  check_releases s (refused e) = refl
  check_releases s (allowed q) = handler_keeps q _ (call_next s.application).0

  -- A request that is let in gives its place back, whatever the limits and the handler do: at the
  -- end, within 300 seconds and with no other request between, the user's count is what it was.
  pub place_given_back :
      (s : Shared redis sets call_next)
      → check_concurrent_requests redis user (get_tier_for_user user) clock.start s.counters ≡ true
      → clock.end < clock.start + 300
      → in_flight redis user clock.end
          (dispatch redis sets call_next (some user) endpoint clock s).1.counters
        ≡ in_flight redis user clock.start s.counters
  unfolding dispatch
  place_given_back s ok h =
      rw (ok, check_releases _ _)
        (omega (
          arith,
          in_flight-decrement redis user clock.end
              (increment_concurrent redis user clock.start s.counters),
          in_flight-increment redis user clock.start clock.end s.counters h,
        ))
