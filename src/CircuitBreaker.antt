-- ===== src/CircuitBreaker.antt =====
-- src/bob/utils/circuit_breaker.py: a circuit breaker around a call that may raise.
-- Instants are clock readings in one fixed unit, and `reset_timeout` is in the same unit. The
-- wrapped function is the outcome that it has, an argument of `call`.
mod Safety
mod Recovery
pub mod Examples
use runtime_ops.Base.{ℕ, ◌+◌, Bool, List, [], ◌∷◌, Option, none, some, ltb, leb, if◌then◌else◌}

-- `self.state`: "CLOSED", "OPEN" and "HALF_OPEN".
pub data State : Type 0 where
  closed opened half_open : State

pub record Breaker : Type 0 where
  pub max_failures : ℕ
  pub reset_timeout : ℕ
  pub failures : ℕ
  pub last_failure_time : ℕ
  pub state : State

-- `CircuitBreaker.__init__`.
pub init : ℕ → ℕ → Breaker
init max_failures reset_timeout = record {
  max_failures = max_failures;
  reset_timeout = reset_timeout;
  failures = 0;
  last_failure_time = 0;
  state = closed;
}

-- What the wrapped function does, and what the caller of `call` sees.
pub data Outcome {ℓ} (A : Type ℓ) : Type ℓ where
  returns : A → Outcome A
  raises : Outcome A

pub data Reply {ℓ} (A : Type ℓ) : Type ℓ where
  result : A → Reply A
  reraised : Reply A
  circuit_open_error : Reply A

-- One call of a decorated function: the clock at its start, the clock if it fails, its outcome.
pub record Attempt {ℓ} (A : Type ℓ) : Type ℓ where
  pub now : ℕ
  pub failed_at : ℕ
  pub outcome : Outcome A

-- The guard of `call`: `none` where `CircuitBreakerOpenError` is raised.
pub admit : Breaker → ℕ → Option Breaker
admit b now = elim b.state [
  | opened ↦
      if ltb (b.last_failure_time + b.reset_timeout) now
      then some (record b { state = half_open })
      else none
  | _ ↦ some b
]

module _ {ℓ} {A : Type ℓ} where
  -- The `try` block of `call`; `failed_at` is the clock in the `except` branch.
  pub settle : Breaker → ℕ → Outcome A → Breaker × Reply A
  settle b failed_at (returns a) =
      (elim b.state [ half_open ↦ record b { state = closed; failures = 0 } | _ ↦ b ], result a)
  settle b failed_at raises = (
    record b {
      failures = b.failures + 1;
      last_failure_time = failed_at;
      state = if leb b.max_failures (b.failures + 1) then opened else b.state;
    },
    reraised,
  )

  -- `CircuitBreaker.call`.
  pub call : Breaker → ℕ → ℕ → Outcome A → Breaker × Reply A
  unfolding admit settle
  call b now failed_at outcome = elim (admit b now) [
    | none ↦ (b, circuit_open_error)
    | some b' ↦ settle b' failed_at outcome
  ]

-- The state after a sequence of calls, one after another.
pub run {ℓ} : {A : Type ℓ} → Breaker → List (Attempt A) → Breaker
run b [] = b
run b (a ∷ rest) = run (call b a.now a.failed_at a.outcome).0 rest

-- What the callers see, in order.
pub replies {ℓ} : {A : Type ℓ} → Breaker → List (Attempt A) → List (Reply A)
replies b [] = []
replies b (a ∷ rest) = let step = call b a.now a.failed_at a.outcome in step.1 ∷ replies step.0 rest
