-- ===== src/Security/Auth/ApiKeys/Revoked.antt =====
-- A revoked key stays revoked, whatever is done later.
use runtime_ops.Base.{
  Text, codes, text_eq, text_ne, starts_with, ℕ, ◌≡◌, ◌≢◌, refl, inl, inr, Bool, true, false, not,
  ◌||◌, Option, none, some, List, [], ◌∷◌, ◌++◌, map, all, Bool-cases, arith,
}
use runtime_ops.Security.Auth.ApiKeys.{
  Hashing, Row, Table, Claims, Fresh, is_match, lookup_api_key, touch, update_last_used, is_past,
  check_row, verify_api_key, revoke_row, revoke_api_key, is_storable, generate_api_key, rotate_row,
  rotate_api_key, live_prefix, test_prefix,
}

-- What can be done to the table, with what the environment chooses.
pub data Operation : Type 0 where
  generate : ℕ → Fresh → Text → Text → List Text → Text → Option ℕ → Operation
  verify : ℕ → Text → Operation
  revoke : ℕ → Text → Operation
  rotate : ℕ → Fresh → Text → Operation

module _ (bcrypt : Hashing) where
  abbrev pub perform : Operation → Table → Table
  perform (generate now fresh user_id name scopes environment expires_at) table =
      (generate_api_key bcrypt now fresh user_id name scopes environment expires_at table).1
  perform (verify now api_key) table = (verify_api_key bcrypt now api_key table).1
  perform (revoke now key_id) table = (revoke_api_key bcrypt now key_id table).1
  perform (rotate now fresh key_id) table = (rotate_api_key bcrypt now fresh key_id table).1

  abbrev pub perform_all : List Operation → Table → Table
  perform_all [] table = table
  perform_all (o ∷ os) table = perform_all os (perform o table)

  -- No new key is given the identifier (they are UUIDs).
  abbrev pub avoids : Text → Operation → Bool
  avoids id (generate now fresh user_id name scopes environment expires_at) =
      not (text_eq fresh.key_id id)
  avoids id (rotate now fresh key_id) = not (text_eq fresh.key_id id)
  avoids id _ = true

  -- Every row of the identifier is revoked.
  abbrev all_revoked : Text → Table → Bool
  all_revoked id table = all (λ r. not (text_eq r.key_id id) || r.revoked) table

  module _ (id : Text) where
    revoked-revoke :
        (now : ℕ) (table : Table) → all_revoked id (map (revoke_row bcrypt now id) table) ≡ true
    unfolding revoke_row
    revoked-revoke now [] = refl
    revoked-revoke now (r ∷ table) = ground (arith, revoked-revoke now table)

    kept-revoke :
        (now : ℕ) (key_id : Text) (table : Table)
        → all_revoked id table ≡ true
        → all_revoked id (map (revoke_row bcrypt now key_id) table) ≡ true
    unfolding revoke_row
    kept-revoke now key_id [] h = refl
    kept-revoke now key_id (r ∷ table) h = ground (arith, kept-revoke now key_id table)

    kept-touch :
        (now : ℕ) (key_id : Text) (table : Table)
        → all_revoked id table ≡ true
        → all_revoked id (map (touch bcrypt now key_id) table) ≡ true
    unfolding touch
    kept-touch now key_id [] h = refl
    kept-touch now key_id (r ∷ table) h = ground (arith, kept-touch now key_id table)

    kept-append :
        (table : Table) (r : Row)
        → all_revoked id table ≡ true
        → text_eq r.key_id id ≡ false
        → all_revoked id (table ++ r ∷ []) ≡ true
    kept-append [] r h k = ground arith
    kept-append (s ∷ table) r h k = ground (arith, kept-append table r)

    kept-check :
        (now : ℕ) (environment : Text) (table : Table) (o : Option Row)
        → all_revoked id table ≡ true
        → all_revoked id (check_row bcrypt now environment table o).1 ≡ true
    unfolding check_row update_last_used
    kept-check now environment table none h = h
    kept-check now environment table (some r) h = ground (arith, kept-touch now r.key_id table)

    kept-generate :
        (now : ℕ) (fresh : Fresh) (user_id name : Text) (scopes : List Text) (environment : Text)
        (expires_at : Option ℕ) (table : Table)
        → all_revoked id table ≡ true
        → not (text_eq fresh.key_id id) ≡ true
        → all_revoked id
            (generate_api_key bcrypt now fresh user_id name scopes environment expires_at table).1
          ≡ true
    unfolding generate_api_key
    kept-generate now fresh user_id name scopes environment expires_at table h k =
        elim (Bool-cases (is_storable bcrypt fresh.key_id name environment table)) [
          | inl e ↦ rw e (kept-append table _ h (ground arith))
          | inr e ↦ rw e h
        ]

    kept-rotate :
        (now : ℕ) (fresh : Fresh) (key_id : Text) (table : Table) (o : Option Row)
        → all_revoked id table ≡ true
        → not (text_eq fresh.key_id id) ≡ true
        → all_revoked id (rotate_row bcrypt now fresh key_id table o).1 ≡ true
    unfolding rotate_row revoke_api_key
    kept-rotate now fresh key_id table none h k = h
    kept-rotate now fresh key_id table (some r) h k =
        kept-generate now fresh _ _ _ _ _ _ (kept-revoke now key_id table h) k

    kept-perform :
        (o : Operation) (table : Table)
        → all_revoked id table ≡ true
        → avoids id o ≡ true
        → all_revoked id (perform o table) ≡ true
    unfolding verify_api_key revoke_api_key rotate_api_key starts_with
    kept-perform (generate now fresh user_id name scopes environment expires_at) table h k =
        kept-generate now fresh user_id name scopes environment expires_at table h k
    kept-perform (verify now api_key) table h k =
        elim (Bool-cases (starts_with live_prefix api_key)) [
          | inl e ↦ rw e (kept-check now _ table _ h)
          | inr e ↦ elim (Bool-cases (starts_with test_prefix api_key)) [
            | inl f ↦ rw (e, f) (kept-check now _ table _ h)
            | inr f ↦ rw (e, f) h
          ]
        ]
    kept-perform (revoke now key_id) table h k = kept-revoke now key_id table h
    kept-perform (rotate now fresh key_id) table h k = kept-rotate now fresh key_id table _ h k

    kept-perform_all :
        (os : List Operation) (table : Table)
        → all_revoked id table ≡ true
        → all (avoids id) os ≡ true
        → all_revoked id (perform_all os table) ≡ true
    kept-perform_all [] table h k = h
    kept-perform_all (o ∷ os) table h k =
        kept-perform_all os (perform o table) (kept-perform o table h (ground arith)) (ground arith)

    found_not_id :
        (secret environment : Text) (table : Table) (r : Row)
        → all_revoked id table ≡ true
        → lookup_api_key bcrypt secret environment table ≡ some r
        → text_eq r.key_id id ≡ false
    unfolding lookup_api_key
    found_not_id secret environment [] r h k = absurd (cc k)
    found_not_id secret environment (s ∷ table) r h k =
        elim (Bool-cases (is_match bcrypt secret environment s)) [
          | inl e ↦ same e (rw e at k)
          | inr e ↦ found_not_id secret environment table r (ground arith) (rw e at k)
        ]
      where
        same :
            is_match bcrypt secret environment s ≡ true
            → some s ≡ some r
            → text_eq r.key_id id ≡ false
        same e m = rw⁻¹ (row m) (ground arith)
          where
            row : some s ≡ some r → s ≡ r
            row m = cc m

    -- What is found is not the revoked key, and its claims name it.
    claims_not_id :
        (now : ℕ) (environment : Text) (table table' : Table) (o : Option Row) (claims : Claims)
        → ((r : Row) → o ≡ some r → text_eq r.key_id id ≡ false)
        → (check_row bcrypt now environment table o).0 ≡ some claims
        → text_eq claims.key_id id ≡ false
    unfolding check_row
    claims_not_id now environment table table' none claims h k = absurd (cc k)
    claims_not_id now environment table table' (some r) claims h k =
        elim (Bool-cases (is_past bcrypt now r.expires_at)) [
          | inl e ↦ absurd (cc (rw e at k))
          | inr e ↦ elim (Bool-cases r.revoked) [
            | inl f ↦ absurd (cc (rw (e, f) at k))
            | inr f ↦ named (rw (e, f) at k)
          ]
        ]
      where
        named :
            some (record {
              user_id = r.user_id;
              scopes = r.scopes;
              key_id = r.key_id;
              environment = environment;
            })
              ≡ some claims
            → text_eq claims.key_id id ≡ false
        named m = rw⁻¹ (same m) (h r refl)
          where
            same :
                some (record {
                  user_id = r.user_id;
                  scopes = r.scopes;
                  key_id = r.key_id;
                  environment = environment;
                })
                  ≡ some claims
                → r.key_id ≡ claims.key_id
            same m = cc m

    verified_not_id :
        (now : ℕ) (api_key : Text) (table : Table) (claims : Claims)
        → all_revoked id table ≡ true
        → (verify_api_key bcrypt now api_key table).0 ≡ some claims
        → text_eq claims.key_id id ≡ false
    unfolding verify_api_key starts_with
    verified_not_id now api_key table claims h k =
        elim (Bool-cases (starts_with live_prefix api_key)) [
          | inl e ↦
              claims_not_id now (codes "live") table table _ claims
                (λ r. found_not_id _ _ table r h) (rw e at k)
          | inr e ↦ elim (Bool-cases (starts_with test_prefix api_key)) [
            | inl f ↦
                claims_not_id now (codes "test") table table _ claims
                  (λ r. found_not_id _ _ table r h) (rw (e, f) at k)
            | inr f ↦ absurd (cc (rw (e, f) at k))
          ]
        ]

  -- After `revoke_api_key` of an identifier, and whatever keys are generated (under other identifiers),
  -- verified, revoked and rotated later, no key that `verify_api_key` accepts is of that identifier.
  pub revoked_for_good :
      (now : ℕ) (id : Text) (table : Table) (os : List Operation)
      → all (avoids id) os ≡ true
      → (u : ℕ) (api_key : Text) (claims : Claims)
      → (verify_api_key bcrypt u api_key (perform_all os (revoke_api_key bcrypt now id table).1)).0
        ≡ some claims
      → claims.key_id ≢ id
  unfolding revoke_api_key
  revoked_for_good now id table os h u api_key claims k = text_ne claims.key_id id (
      verified_not_id id u api_key (perform_all os (map (revoke_row bcrypt now id) table)) claims
        (kept-perform_all id os _ (revoked-revoke id now table) h) k)
