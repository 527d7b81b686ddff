-- ===== src/Security/Auth/ApiKeys/Lifecycle.antt =====
-- What the key that `generate_api_key` hands out is worth.
use runtime_ops.Base.{
  Text, codes, text_eq, text_eq_iff, text_eq_refl, starts_with, ℕ, ◌≡◌, refl, inl, inr, Bool, true,
  false, not, ◌&&◌, ◌||◌, Option, none, some, List, [], ◌∷◌, ◌++◌, if◌then◌else◌, Bool-cases, arith,
  leb, length, any,
}
use runtime_ops.Security.Auth.ApiKeys.{
  live_prefix, test_prefix, Hashing, Row, Table, Fresh, is_match, lookup_api_key, is_past,
  check_row, verify_api_key, generate_api_key,
}

module _ (bcrypt : Hashing) where
  lookup-append :
      (secret environment : Text) (table : Table) (r : Row)
      → lookup_api_key bcrypt secret environment table ≡ none
      → lookup_api_key bcrypt secret environment (table ++ r ∷ [])
        ≡ (if is_match bcrypt secret environment r then some r else none)
  unfolding lookup_api_key
  lookup-append secret environment [] r h = refl
  lookup-append secret environment (s ∷ table) r h =
      elim (Bool-cases (is_match bcrypt secret environment s)) [
        | inl e ↦ absurd (cc (rw e at h))
        | inr e ↦ rw e (lookup-append secret environment table r (rw e at h))
      ]

  -- The claims of a row, where it has not expired.
  check-some :
      (now : ℕ) (environment : Text) (table : Table) (r : Row)
      → r.revoked ≡ false
      → (check_row bcrypt now environment table (some r)).0 ≡ (
          if is_past bcrypt now r.expires_at
          then none
          else some (record {
            user_id = r.user_id;
            scopes = r.scopes;
            key_id = r.key_id;
            environment = environment;
          }))
  unfolding check_row
  check-some now environment table r h = ground arith

  is_match-new :
      (secret environment : Text) (r : Row)
      → r.revoked ≡ false
      → bcrypt.checkpw secret r.hashed_secret ≡ true
      → is_match bcrypt secret environment r ≡ text_eq r.environment environment
  is_match-new secret environment r k c = rw (k, c) (both (text_eq r.environment environment))
    where
      both : (b : Bool) → ((b && true) && true) ≡ b
      both true = refl
      both false = refl

  -- A row that has just been added for an environment is what its secret is looked up to there.
  accepted :
      (now : ℕ) (secret : Text) (table : Table) (r : Row)
      → lookup_api_key bcrypt secret r.environment table ≡ none
      → r.revoked ≡ false
      → bcrypt.checkpw secret r.hashed_secret ≡ true
      → (check_row bcrypt now r.environment
          (table ++ r ∷ [])
          (lookup_api_key bcrypt secret r.environment (table ++ r ∷ []))).0
        ≡ (if is_past bcrypt now r.expires_at
            then none
            else some (record {
              user_id = r.user_id;
              scopes = r.scopes;
              key_id = r.key_id;
              environment = r.environment;
            }))
  accepted now secret table r h k c =
      rw
        (
          lookup-append secret r.environment table r h,
          is_match-new secret r.environment r k c,
          text_eq_refl r.environment,
        )
        (check-some now r.environment (table ++ r ∷ []) r k)

  -- The database takes a new key where its environment is "live" or "test", its name has at most 255
  -- characters and its identifier is new; else nothing is stored and no key is returned. A key that is
  -- returned is accepted until it expires, as its user's, with its scopes and environment: given that no
  -- key was there yet with the same secret.
  pub verify-generate :
      (now u : ℕ) (fresh : Fresh) (user_id name : Text) (scopes : List Text) (environment : Text)
      (expires_at : Option ℕ) (table : Table)
      → lookup_api_key bcrypt fresh.secret (codes "live") table ≡ none
      → lookup_api_key bcrypt fresh.secret (codes "test") table ≡ none
      → let (made, table') =
          generate_api_key bcrypt now fresh user_id name scopes environment expires_at table in
        let taken =
          (text_eq environment (codes "live") || text_eq environment (codes "test"))
          && leb (length name) 255
          && not (any (λ r. text_eq r.key_id fresh.key_id) table) in
        (taken ≡ true
          → (api_key : Text) × (made ≡ some (fresh.key_id, api_key))
            × ((verify_api_key bcrypt u api_key table').0 ≡ (
                if is_past bcrypt u expires_at
                then none
                else some (record {
                  user_id = user_id;
                  scopes = scopes;
                  key_id = fresh.key_id;
                  environment = environment;
                }))))
        × (taken ≡ false → (made ≡ none) × (table' ≡ table))
  unfolding verify_api_key generate_api_key starts_with text_eq
  verify-generate now u fresh user_id name scopes environment expires_at table h k = (
    λ t. elim (Bool-cases (text_eq environment (codes "live"))) [
      | inl e ↦ (
        live_prefix ++ fresh.secret,
        rw (t, e) refl,
        rw (t, (text_eq_iff environment (codes "live")).0 e)
            (accepted u fresh.secret table (row (codes "live")) h refl (bcrypt.checkpw-hashpw _ _)),
      )
      | inr e ↦ (
        test_prefix ++ fresh.secret,
        rw (t, e) refl,
        rw (t, (text_eq_iff environment (codes "test")).0 (ground arith))
            (accepted u fresh.secret table (row (codes "test")) k refl (bcrypt.checkpw-hashpw _ _)),
      )
    ],
    λ f. rw f (refl, refl),
  )
    where
      row : Text → Row
      row environment = record {
        key_id = fresh.key_id;
        user_id = user_id;
        name = name;
        hashed_secret = bcrypt.hashpw fresh.secret fresh.salt;
        scopes = scopes;
        environment = environment;
        created_at = now;
        expires_at = expires_at;
        usage_count = 0;
        last_used_at = none;
        revoked = false;
        revoked_at = none;
      }
