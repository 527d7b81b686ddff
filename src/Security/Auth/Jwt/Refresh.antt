-- ===== src/Security/Auth/Jwt/Refresh.antt =====
-- Tokens that the manager made: how they are verified, and what may be refreshed.
use runtime_ops.Base.{
  Text, codes, text_eq, ◌∙◌, ℕ, ◌+◌, ◌≤◌, ◌<◌, ◌≡◌, refl, Bool, true, false, ◌||◌, ◌++◌, Option,
  none, some, List, leb, Bool-cases, inl, inr, if◌then◌else◌, arith,
}
use runtime_ops.Redis.Strings.{Strings, is_some}
use runtime_ops.Security.Auth.Jwt.{
  Payload, Library, ok, invalid_token, default_scopes, refresh_seconds, access_payload,
  refresh_payload, is_blacklisted, check_blacklist, check_decoded, verify_token,
  create_access_token, create_refresh_token, new_access, refresh_verified, refresh_access_token,
}

module _ (jwt : Library) (redis : Strings) (access_seconds : ℕ) where
  open jwt use {encode, decode, decode-encode}
  open redis use {Store}

  verify_made :
      (u : ℕ) (s : Store) (p : Payload) (jti : Text)
      → p.iat ≤ u
      → p.jti ≡ some jti
      → verify_token jwt redis access_seconds u (some s) (encode p) ≡ (
          if leb p.exp u || is_blacklisted jwt redis access_seconds u s jti
          then invalid_token
          else ok p)
  unfolding verify_token check_decoded check_blacklist
  verify_made u s p jti h i = elim (Bool-cases (leb p.exp u)) [
    | inl e ↦ rw (decode-encode u true p h, e) refl
    | inr e ↦ rw (decode-encode u true p h, e, i) refl
  ]

  -- An access token is verified to the user, the scopes, the identifier and the times that it was made
  -- with, as an access token, from then until its expiry, unless its identifier is on the blacklist. It
  -- expires after the time to live that is asked for, or the default one.
  pub verify-create :
      (t u : ℕ) (s : Store) (jti user_id : Text) (scopes : List Text) (expires_delta : Option ℕ)
      → t ≤ u
      → let exp = t + elim expires_delta [ none ↦ access_seconds | some delta ↦ delta ] in
        verify_token jwt redis access_seconds u
          (some s)
          (create_access_token jwt redis access_seconds t jti user_id scopes expires_delta)
        ≡ (if leb exp u || is_some (redis.get u (codes "blacklist:" ++ jti) s)
            then invalid_token
            else ok (record {
              sub = some user_id;
              scopes = some scopes;
              exp = exp;
              iat = t;
              jti = some jti;
              token_type = some (codes "access");
            }))
  unfolding create_access_token
  verify-create t u s jti user_id scopes none h =
      verify_made u s (access_payload jwt redis access_seconds t jti user_id scopes access_seconds)
        jti h refl
  verify-create t u s jti user_id scopes (some delta) h =
      verify_made u s (access_payload jwt redis access_seconds t jti user_id scopes delta) jti h
        refl

  not_refreshed :
      (u : ℕ) (jti : Text) (p : Payload) (b : Bool)
      → p.token_type ≡ some (codes "access")
      → refresh_verified jwt redis access_seconds u jti (if b then invalid_token else ok p)
        ≡ invalid_token
  unfolding refresh_verified text_eq
  not_refreshed u jti p true h = refl
  not_refreshed u jti p false h = rw h refl

  -- A refresh token gives a new access token of its user with the default scopes, for seven days; an
  -- access token gives none. But `verify_token` accepts a refresh token like an access token.
  pub refresh_lem :
      (t u : ℕ) (s : Store) (jti jti' user_id : Text) (scopes : List Text) (delta : ℕ)
      → t ≤ u
      → u < t + refresh_seconds
      → is_blacklisted jwt redis access_seconds u s jti ≡ false
      → let refresh_token = create_refresh_token jwt redis access_seconds t jti user_id in
        let access_token =
          create_access_token jwt redis access_seconds t jti user_id scopes (some delta) in
        (refresh_access_token jwt redis access_seconds u jti' (some s) refresh_token
          ≡ ok (create_access_token jwt redis access_seconds u jti' user_id default_scopes none))
        × (refresh_access_token jwt redis access_seconds u jti' (some s) access_token
            ≡ invalid_token)
        × (verify_token jwt redis access_seconds u (some s) refresh_token
            ≡ ok (record {
              sub = some user_id;
              scopes = none;
              exp = t + refresh_seconds;
              iat = t;
              jti = some jti;
              token_type = some (codes "refresh");
            }))
  unfolding refresh_access_token refresh_verified new_access create_refresh_token text_eq
  refresh_lem t u s jti jti' user_id scopes delta h k clear = (
    rw verified refl,
    rw (verify-create t u s jti user_id scopes (some delta) h) (
        not_refreshed u jti' (access_payload jwt redis access_seconds t jti user_id scopes delta) _
          refl),
    verified,
  )
    where
      verified :
          verify_token jwt redis access_seconds u
            (some s)
            (encode (refresh_payload jwt redis access_seconds t jti user_id))
          ≡ ok (refresh_payload jwt redis access_seconds t jti user_id)
      verified =
          verify_made u s (refresh_payload jwt redis access_seconds t jti user_id) jti h refl
          ∙ ground (arith, clear)
