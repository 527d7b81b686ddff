-- ===== src/Security/Middleware/Examples.antt =====
-- A dispatch at concrete inputs, over the reference stores, with a handler that fails at first.
use runtime_ops.Base.{ℕ, ◌+◌, ◌≡◌, refl, some, ◌==◌, if◌then◌else◌, arith}
use runtime_ops.Redis.Reference.{counters, sorted_sets}
use runtime_ops.Security.RateLimiter.Concurrent.{in_flight}
use runtime_ops.Security.RateLimiter.Examples.{
  no_sets, no_counts, user, batch, let_in, within_limits,
}
use runtime_ops.Security.Middleware.{
  Handled, response, failure, Clock, Shared, unlimited, after_handler, after_check, dispatch,
}
use runtime_ops.Security.Middleware.Release.{place_given_back}
use runtime_ops.Security.Middleware.Runs.{counting}

abbrev handler : ℕ → Handled ℕ × ℕ
handler runs = (if runs == 0 then failure else response 200, runs + 1)

abbrev clock : Clock
clock = record { start = 5000; end = 5007; recorded_at = 5000; ns = (1, 2, 3) }

abbrev shared : Shared counters sorted_sets handler
shared = record { counters = no_counts; windows = no_sets; application = 0 }

place_given_back_example :
    in_flight counters user 5007
      (dispatch counters sorted_sets handler (some user) batch clock shared).1.counters
    ≡ in_flight counters user 5000 no_counts
place_given_back_example =
    place_given_back counters sorted_sets handler user batch clock shared let_in (omega arith)

abbrev counted : Shared counters sorted_sets (counting handler)
counted = record { counters = no_counts; windows = no_sets; application = (0, 0) }

-- The handler runs twice, and the user gets the second response.
runs_twice :
    (dispatch counters sorted_sets (counting handler) (some user) batch clock counted).1.application
    ≡ (2, 2)
unfolding dispatch after_check after_handler unlimited
runs_twice = rw (let_in, within_limits) refl
