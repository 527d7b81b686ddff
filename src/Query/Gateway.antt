-- ===== src/Query/Gateway.antt =====
-- src/bob/query/gateway.py: token verification and the fixed-window rate limit of every query.
-- Redis is an argument (`Counters`); so are the JWT library (`decode`) and the UUID parser of
-- Python (`is_uuid`). Request logging has no effect on what is returned and is left out.
pub mod Counting
pub mod RateLimit
pub mod Tokens
pub mod Refused
pub mod Examples
use runtime_ops.Base.{
  Text, codes, text_eq, str, lower, split, ℕ, ◌+◌, ◌/◌, ◌-◌, Bool, true, false, not, ◌||◌, Option,
  none, some, List, [], ◌∷◌, ◌++◌, ◌&&◌, ltb, ◌==◌, if◌then◌else◌,
}
use runtime_ops.Redis.Counters.{Counters}

-- The settings that the gateway reads: `rate_limit_per_minute` and `rate_limit_burst`.
pub record Limits : Type 0 where
  pub per_minute : ℕ
  pub burst : ℕ

abbrev pub default_limits : Limits
default_limits = record { per_minute = 500; burst = 1000 }

abbrev pub burst_window : ℕ
burst_window = 10

-- The keys of the two windows that an instant lies in.
pub minute_key : Text → ℕ → Text
minute_key agent t = codes "bob:ratelimit:" ++ (agent ++ (codes ":minute:" ++ str (t / 60)))

pub burst_key : Text → ℕ → Text
burst_key agent t = codes "bob:ratelimit:" ++ (agent ++ (codes ":burst:" ++ str (t / burst_window)))

-- Which of the INCR and EXPIRE commands of the two windows get through; one that does not raises
-- `RedisError`. Without a client nothing is sent, as where the first does not get through.
pub record Link : Type 0 where
  pub burst_up : Bool
  pub burst_expires : Bool
  pub minute_up : Bool
  pub minute_expires : Bool

abbrev pub both_up : Link
both_up = record { burst_up = true; burst_expires = true; minute_up = true; minute_expires = true }

-- How `check_rate_limit` ends: it returns, or raises `RateLimitExceededError` with the limit, the
-- window and the count of its details.
pub data Verdict : Type 0 where
  pass : Verdict
  exceeded : ℕ → ℕ → ℕ → Verdict

-- `int(self._redis_client.get(key) or 0)`.
abbrev pub shown : Option ℕ → ℕ
shown none = 0
shown (some n) = n

module _ (redis : Counters) where
  open redis use {Store, get, incr, expire}

  -- INCR, and EXPIRE where the key is new.
  unfoldable pub count_up : ℕ → Text → ℕ → Store → ℕ × Store
  count_up t key window s =
      let (n, s') = incr t key s in (n, if n == 1 then expire t key window s' else s')

  -- Whether a key is new, so that EXPIRE is sent for it, and this does not get through.
  abbrev pub expire_lost : Bool → ℕ → Text → Store → Bool
  expire_lost expires t key s = not expires && (incr t key s).0 == 1

  -- `check_rate_limit`, at the instant `t` in whole seconds.
  pub check_rate_limit : Limits → Text → ℕ → Link → Store → Verdict × Store
  check_rate_limit limits agent t link s =
      if not link.burst_up
      then (pass, s)
      else if expire_lost link.burst_expires t (burst_key agent t) s
      then (pass, (incr t (burst_key agent t) s).1)
      else let (burst_count, s₁) = count_up t (burst_key agent t) burst_window s in
        if ltb limits.burst burst_count
        then (exceeded limits.burst burst_window burst_count, s₁)
        else if not link.minute_up
        then (pass, s₁)
        else if expire_lost link.minute_expires t (minute_key agent t) s₁
        then (pass, (incr t (minute_key agent t) s₁).1)
        else let (minute_count, s₂) = count_up t (minute_key agent t) 60 s₁ in
          if ltb limits.per_minute minute_count
          then (exceeded limits.per_minute 60 minute_count, s₂)
          else (pass, s₂)

  -- The verdicts on requests of one agent at the given instants, in order, and the store after.
  pub serve : Limits → Text → List ℕ → Store → List Verdict × Store
  serve limits agent [] s = ([], s)
  serve limits agent (t ∷ ts) s =
      let (v, s') = check_rate_limit limits agent t both_up s in
      let (vs, s'') = serve limits agent ts s' in (v ∷ vs, s'')

  -- The numbers of `get_rate_limit_stats`: a count and what is left, for the minute and the burst.
  pub get_rate_limit_stats : Limits → Text → ℕ → Store → (ℕ × ℕ) × (ℕ × ℕ)
  get_rate_limit_stats limits agent t s =
      let minute_count = shown (get t (minute_key agent t) s) in
      let burst_count = shown (get t (burst_key agent t) s) in
      ((minute_count, limits.per_minute - minute_count), (burst_count, limits.burst - burst_count))

-- The value of a claim: a text, null, or another JSON value with the text that `str` makes of it.
pub data Claim : Type 0 where
  text : Text → Claim
  null : Claim
  other : Text → Claim

-- The claims of a token that the gateway looks at.
pub record Claims : Type 0 where
  pub repo_id : Option Claim
  pub org_id : Option Claim
  pub has_exp : Bool

-- What `jwt.decode` does: it returns a payload or raises one of two kinds of error.
pub data Decoded : Type 0 where
  payload : Claims → Decoded
  expired_signature : Decoded
  invalid_jwt : Decoded

-- What `verify_token` does. `UUID` raises an `AttributeError` on a value that is neither a text nor
-- None, and no handler of the gateway catches that.
pub data Verified : Type 0 where
  valid : Claims → Verified
  authentication_error : Verified
  invalid_token_error : Verified
  attribute_error : Verified

abbrev present : Option Claim → Bool
present none = false
present (some c) = true

module _ (decode : Text → Decoded) (is_uuid : Text → Bool) where
  -- `UUID(payload["repo_id"])`
  check_repo_id : Claims → Option Claim → Verified
  check_repo_id claims (some (text r)) = if is_uuid r then valid claims else invalid_token_error
  check_repo_id claims (some (other s)) = attribute_error
  check_repo_id claims _ = invalid_token_error

  -- The `try` block of `verify_token`.
  check_payload : Decoded → Verified
  check_payload (payload claims) =
      if present claims.repo_id && present claims.org_id && claims.has_exp
      then check_repo_id claims claims.repo_id
      else invalid_token_error
  check_payload expired_signature = invalid_token_error
  check_payload invalid_jwt = invalid_token_error

  check_parts : List Text → Verified
  check_parts (scheme ∷ token ∷ []) =
      if text_eq (lower scheme) (codes "bearer")
      then check_payload (decode token)
      else authentication_error
  check_parts _ = authentication_error

  -- `verify_token`, on the value of the Authorization header.
  pub verify_token : Option Text → Verified
  verify_token none = authentication_error
  verify_token (some authorization) =
      if text_eq authorization [] then authentication_error else check_parts (split authorization)

-- What `authenticate_request` returns or raises: the claims, an `HTTPException` with its status, or
-- an error that it does not handle.
pub data Response : Type 0 where
  claims_of : Claims → Response
  http_error : ℕ → Response
  unhandled : Response

-- `claims.get("org_id", "unknown")`, as the key of the rate limit writes it.
pub agent_id : Option Claim → Text
agent_id none = codes "unknown"
agent_id (some (text t)) = t
agent_id (some null) = codes "None"
agent_id (some (other s)) = s

module _ (redis : Counters) (decode : Text → Decoded) (is_uuid : Text → Bool) where
  open redis use {Store}

  limited : Claims → Verdict × Store → Response × Store
  limited claims (pass, s) = (claims_of claims, s)
  limited claims (exceeded limit window count, s) = (http_error 429, s)

  admitted : Limits → ℕ → Link → Store → Verified → Response × Store
  admitted limits t link s (valid claims) =
      limited claims (check_rate_limit redis limits (agent_id claims.org_id) t link s)
  admitted limits t link s authentication_error = (http_error 401, s)
  admitted limits t link s invalid_token_error = (http_error 401, s)
  admitted limits t link s attribute_error = (unhandled, s)

  -- `authenticate_request`
  pub authenticate_request : Limits → ℕ → Link → Option Text → Store → Response × Store
  authenticate_request limits t link authorization s =
      admitted limits t link s (verify_token decode is_uuid authorization)
