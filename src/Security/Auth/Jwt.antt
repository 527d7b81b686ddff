-- ===== src/Security/Auth/Jwt.antt =====
-- `JWTManager` of src/bob/security/auth.py: access and refresh tokens, and their revocation.
-- The JWT library is an argument (`Library`), and so is Redis. The random identifier of a token
-- (`uuid4`) is an argument of the call that makes it. Instants are whole seconds, as in the claims of
-- a token; the library compares the expiry with the clock, and a whole number is at most the clock's
-- reading exactly where it is at most its whole part.
pub mod Revocation
pub mod Refresh
pub mod Reference
pub mod Examples
use runtime_ops.Base.{
  Text, codes, text_eq, ℕ, ◌+◌, ◌-◌, ◌*◌, ◌≤◌, ◌≡◌, Bool, true, false, not, Option, none, some,
  List, [], ◌∷◌, ◌++◌, ltb, leb, if◌then◌else◌,
}
use runtime_ops.Redis.Strings.{Strings, is_some}

-- The claims of a token; None for one that is missing.
pub record Payload : Type 0 where
  pub sub : Option Text
  pub scopes : Option (List Text)
  pub exp : ℕ
  pub iat : ℕ
  pub jti : Option Text
  pub token_type : Option Text

-- What `jwt.decode` does: it returns a payload, or raises `ExpiredSignatureError` or another of its
-- errors.
pub data Decoded : Type 0 where
  payload : Payload → Decoded
  expired_signature : Decoded
  invalid_jwt : Decoded

-- PyJWT with one key and one algorithm. A token that it made is decoded to its claims, and refused
-- from the instant of its expiry on, unless the expiry is not to be verified; a token that comes from
-- the future (`iat`) is refused.
pub record Library : Type 0 where
  pub encode : Payload → Text
  pub decode : ℕ → Bool → Text → Decoded
  pub decode-encode :
      (now : ℕ) (verify_exp : Bool) (p : Payload)
      → p.iat ≤ now
      → decode now verify_exp (encode p) ≡ (
          if verify_exp
          then (if leb p.exp now then expired_signature else payload p)
          else payload p)
  -- A token that is decoded without regard to its expiry has not changed: with regard to it, it gives
  -- the same claims before its expiry, and the error after.
  pub decode_exp :
      (t now : ℕ) (token : Text) (p : Payload)
      → decode t false token ≡ payload p
      → t ≤ now
      → decode now true token ≡ (if leb p.exp now then expired_signature else payload p)

-- How a method ends: with a value, or with `InvalidTokenError`, `KeyError` or `RuntimeError`.
pub data Outcome {ℓ} (A : Type ℓ) : Type ℓ where
  ok : A → Outcome A
  invalid_token : Outcome A
  key_error : Outcome A
  runtime_error : Outcome A

-- The settings: `jwt_expiration_minutes` and the days of a refresh token, in seconds.
abbrev pub refresh_seconds : ℕ
refresh_seconds = 7 * 24 * 60 * 60

abbrev pub default_scopes : List Text
default_scopes = codes "repo:read" ∷ codes "code:read" ∷ codes "deps:read" ∷ []

-- `payload.get("type") == t`
abbrev pub claim_is : Option Text → Text → Bool
claim_is none t = false
claim_is (some s) t = text_eq s t

abbrev pub blacklist_key : Text → Text
blacklist_key jti = codes "blacklist:" ++ jti

module _ (jwt : Library) (redis : Strings) (access_seconds : ℕ) where
  open jwt use {encode, decode}
  open redis use {Store, get, setex}

  abbrev pub access_payload : ℕ → Text → Text → List Text → ℕ → Payload
  access_payload now jti user_id scopes delta = record {
    sub = some user_id;
    scopes = some scopes;
    exp = now + delta;
    iat = now;
    jti = some jti;
    token_type = some (codes "access");
  }

  -- `create_access_token`; None for the default time to live.
  pub create_access_token : ℕ → Text → Text → List Text → Option ℕ → Text
  create_access_token now jti user_id scopes none =
      encode (access_payload now jti user_id scopes access_seconds)
  create_access_token now jti user_id scopes (some delta) =
      encode (access_payload now jti user_id scopes delta)

  abbrev pub refresh_payload : ℕ → Text → Text → Payload
  refresh_payload now jti user_id = record {
    sub = some user_id;
    scopes = none;
    exp = now + refresh_seconds;
    iat = now;
    jti = some jti;
    token_type = some (codes "refresh");
  }

  -- `create_refresh_token`
  unfoldable pub create_refresh_token : ℕ → Text → Text → Text
  create_refresh_token now jti user_id = encode (refresh_payload now jti user_id)

  -- `_is_blacklisted`
  abbrev pub is_blacklisted : ℕ → Store → Text → Bool
  is_blacklisted now s jti = is_some (get now (blacklist_key jti) s)

  -- The check of the blacklist in `verify_token`; without a client there is none.
  check_blacklist : ℕ → Option Store → Payload → Option Text → Outcome Payload
  check_blacklist now none p jti = ok p
  check_blacklist now (some s) p none = key_error
  check_blacklist now (some s) p (some jti) =
      if is_blacklisted now s jti then invalid_token else ok p

  check_decoded : ℕ → Option Store → Decoded → Outcome Payload
  unfolding check_blacklist
  check_decoded now client (payload p) = check_blacklist now client p p.jti
  check_decoded now client expired_signature = invalid_token
  check_decoded now client invalid_jwt = invalid_token

  -- `verify_token`; None stands for a manager without a Redis client.
  pub verify_token : ℕ → Option Store → Text → Outcome Payload
  verify_token now client token = check_decoded now client (decode now true token)

  -- The body of `refresh_access_token`, after the verification. Every error of the body becomes an
  -- `InvalidTokenError`.
  new_access : ℕ → Text → Option Text → Outcome Text
  new_access now jti none = invalid_token
  new_access now jti (some user_id) = ok (create_access_token now jti user_id default_scopes none)

  refresh_verified : ℕ → Text → Outcome Payload → Outcome Text
  unfolding new_access
  refresh_verified now jti (ok p) =
      if claim_is p.token_type (codes "refresh") then new_access now jti p.sub else invalid_token
  refresh_verified now jti invalid_token = invalid_token
  refresh_verified now jti key_error = invalid_token
  refresh_verified now jti runtime_error = invalid_token

  -- `refresh_access_token`
  pub refresh_access_token : ℕ → Text → Option Store → Text → Outcome Text
  unfolding refresh_verified
  refresh_access_token now jti client refresh_token =
      refresh_verified now jti (verify_token now client refresh_token)

  -- The write of `revoke_token`: the identifier of the token, until its expiry.
  blacklist : ℕ → Store → Payload → Option Text → Outcome (Unit {0}) × Store
  blacklist now s p none = (invalid_token, s)
  blacklist now s p (some jti) = elim (setex now (blacklist_key jti) (p.exp - now) (codes "1") s) [
    | none ↦ (invalid_token, s)
    | some s' ↦ (ok tt, s')
  ]

  revoke_decoded : ℕ → Store → Decoded → Outcome (Unit {0}) × Store
  unfolding blacklist
  revoke_decoded now s (payload p) = blacklist now s p p.jti
  revoke_decoded now s expired_signature = (invalid_token, s)
  revoke_decoded now s invalid_jwt = (invalid_token, s)

  -- `revoke_token`, with a Redis client; without one it raises `RuntimeError`.
  pub revoke_token : ℕ → Option Store → Text → Outcome (Unit {0}) × Option Store
  unfolding revoke_decoded
  revoke_token now none token = (runtime_error, none)
  revoke_token now (some s) token =
      let (o, s') = revoke_decoded now s (decode now false token) in (o, some s')
