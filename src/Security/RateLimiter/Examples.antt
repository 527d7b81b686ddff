-- ===== src/Security/RateLimiter/Examples.antt =====
-- The limiter at concrete inputs, over the reference stores.
use runtime_ops.Base.{
  Text, codes, str, text_eq, ℕ, ◌+◌, ◌≤◌, ◌<◌, ◌≡◌, refl, true, none, List, [], ◌∷◌, tally, arith,
}
use runtime_ops.Redis.SortedSets.{insert, add_entry}
use runtime_ops.Redis.Reference.{counters, sorted_sets, Numbers, Zsets}
use runtime_ops.Security.RateLimiter.{
  free, allowed, rate_limits, hourly_limit, minute_limit, hourly_key, minute_key, burst_key,
  endpoint_tenths, Request, get_request_count, record_in_window, get_window_reset, refusal,
  check_rate_limit, record_request, record_allowed, check_and_record, concurrent_key,
  check_concurrent_requests, increment_concurrent, decrement_concurrent,
}
use runtime_ops.Security.RateLimiter.Entries.{within}
use runtime_ops.Security.RateLimiter.Bound.{Distinct, admitted, admitted_bound}
use runtime_ops.Security.RateLimiter.Concurrent.{
  in_flight, checked_together, concurrent_cycle, concurrent_race,
}

limiter : Unit {0}
unfolding str text_eq insert add_entry rate_limits hourly_limit minute_limit endpoint_tenths
    hourly_key minute_key burst_key get_request_count record_in_window get_window_reset refusal
    check_rate_limit record_request record_allowed check_and_record concurrent_key
    check_concurrent_requests increment_concurrent decrement_concurrent admitted
limiter = tt

abbrev pub no_sets : Zsets
no_sets = record { set_of = λ k. []; gone_at = λ k. none }

abbrev pub no_counts : Numbers
no_counts = record { number = λ k. none; due = λ k. none }

abbrev pub user : Text
user = codes "u"

abbrev pub batch : Text
batch = codes "/api/v1/bob/batch"

abbrev request : ℕ → ℕ → Request
request t n = record { checked_at = t; recorded_at = t; ns = (n, n + 1, n + 2) }

-- Three a minute: the fourth within the minute is refused, the one after it is not.
abbrev five : List Request
five = request 5000 1 ∷ request 5010 11 ∷ request 5011 21 ∷ request 5059 31 ∷ request 5060 41 ∷ []

five-admitted :
    admitted sorted_sets user batch free five [] no_sets ≡ 5060 ∷ 5011 ∷ 5010 ∷ 5000 ∷ []
unfolding limiter
five-admitted = refl

five_apart : Distinct sorted_sets user batch free five
unfolding limiter
five_apart = ground arith

admitted_bound_example :
    (tally (within 3600 5059) (admitted sorted_sets user batch free five [] no_sets)
      ≤ hourly_limit free batch)
    × (tally (within 60 5059) (admitted sorted_sets user batch free five [] no_sets)
        ≤ minute_limit free batch)
    × (tally (within 10 5059) (admitted sorted_sets user batch free five [] no_sets)
        ≤ (rate_limits free).burst_allowance)
admitted_bound_example =
    admitted_bound sorted_sets user batch free five no_sets refl refl refl (omega arith) five_apart
      5059

concurrent_cycle_example :
    let s' = increment_concurrent counters user 100 no_counts in
    (in_flight counters user 100 s' ≤ (rate_limits free).concurrent_requests)
    × (in_flight counters user 250 (decrement_concurrent counters user 250 s')
        ≡ in_flight counters user 100 no_counts)
unfolding limiter
concurrent_cycle_example = concurrent_cycle counters user free 100 250 no_counts refl (omega arith)

abbrev one_running : Numbers
one_running = increment_concurrent counters user 100 no_counts

-- Three requests for the place that is left.
concurrent_race_example :
    let s' = checked_together counters user free 3 100 one_running in
    (in_flight counters user 100 one_running < (rate_limits free).concurrent_requests
      → ((u : ℕ)
          → u < 400
          → in_flight counters user u s' ≡ in_flight counters user 100 one_running + 3)
        × ((u : ℕ) → 400 ≤ u → in_flight counters user u s' ≡ 0))
    × ((rate_limits free).concurrent_requests ≤ in_flight counters user 100 one_running
        → s' ≡ one_running)
concurrent_race_example = concurrent_race counters user free 2 100 one_running

-- With nothing recorded and none running, a request is let in and has three left this minute.
pub let_in : check_concurrent_requests counters user free 5000 no_counts ≡ true
unfolding limiter
let_in = refl

pub within_limits :
    (check_rate_limit sorted_sets user batch free 5000 no_sets).0
    ≡ allowed (record { remaining = 3; reset_at = 5060 })
unfolding limiter
within_limits = refl
