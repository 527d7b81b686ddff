-- ===== src/Security/Auth/ApiKeys.antt =====
-- `APIKeyManager` of src/bob/security/auth.py. The table `api_keys` is a list of rows, the latest
-- last, and a statement is what its SQL says of them. The hash function (bcrypt) is an argument, and
-- so are the random identifier, secret and salt of a new key, and the clock. Where a query leaves the
-- order of its rows open, it is that of the list. What the table refuses is in docker/security-schema.sql:
-- a second row of an identifier, a name over 255 characters, an environment other than "live" and "test";
-- the user is taken to be there. `list_api_keys` only reads, and is left out.
pub mod Lifecycle
pub mod Revoked
pub mod Examples
use runtime_ops.Base.{
  Text, codes, text_eq, starts_with, drop, length, any, ℕ, ◌+◌, ◌≡◌, Bool, true, false, not, ◌&&◌,
  ◌||◌, leb, Option, none, some, List, [], ◌∷◌, ◌++◌, map, select, ltb, if◌then◌else◌,
}

-- bcrypt: a salted hash, which accepts the secret that it was made of.
pub record Hashing : Type 0 where
  pub hashpw : Text → Text → Text
  pub checkpw : Text → Text → Bool
  pub checkpw-hashpw : (secret salt : Text) → checkpw secret (hashpw secret salt) ≡ true

-- A row of `api_keys`.
pub record Row : Type 0 where
  pub key_id : Text
  pub user_id : Text
  pub name : Text
  pub hashed_secret : Text
  pub scopes : List Text
  pub environment : Text
  pub created_at : ℕ
  pub expires_at : Option ℕ
  pub usage_count : ℕ
  pub last_used_at : Option ℕ
  pub revoked : Bool
  pub revoked_at : Option ℕ

abbrev pub Table : Type 0
Table = List Row

-- The claims that `verify_api_key` returns.
pub record Claims : Type 0 where
  pub user_id : Text
  pub scopes : List Text
  pub key_id : Text
  pub environment : Text

-- The beginnings of the keys of the two environments.
abbrev pub live_prefix : Text
live_prefix = codes "bob_live_"

abbrev pub test_prefix : Text
test_prefix = codes "bob_test_"

-- What is random about a new key.
pub record Fresh : Type 0 where
  pub key_id : Text
  pub secret : Text
  pub salt : Text

module _ (bcrypt : Hashing) where
  open bcrypt use {hashpw, checkpw}

  -- Whether the constraints of the table let the INSERT of `_store_api_key` through.
  abbrev pub is_storable : Text → Text → Text → Table → Bool
  is_storable key_id name environment table =
      (text_eq environment (codes "live") || text_eq environment (codes "test"))
      && leb (length name) 255
      && not (any (λ r. text_eq r.key_id key_id) table)

  -- `generate_api_key`, with `_store_api_key`: the key's identifier, the key, and the table; none where
  -- the database raises an error.
  pub generate_api_key :
      ℕ → Fresh → Text → Text → List Text → Text → Option ℕ → Table → Option (Text × Text) × Table
  generate_api_key now fresh user_id name scopes environment expires_at table =
      let prefix = if text_eq environment (codes "live") then live_prefix else test_prefix in
      let row : Row = record {
        key_id = fresh.key_id;
        user_id = user_id;
        name = name;
        hashed_secret = hashpw fresh.secret fresh.salt;
        scopes = scopes;
        environment = environment;
        created_at = now;
        expires_at = expires_at;
        usage_count = 0;
        last_used_at = none;
        revoked = false;
        revoked_at = none;
      } in
      if is_storable fresh.key_id name environment table
      then (some (fresh.key_id, prefix ++ fresh.secret), table ++ row ∷ [])
      else (none, table)

  -- `_lookup_api_key`: the first row of the environment that is not revoked and whose hash accepts the
  -- secret.
  abbrev pub is_match : Text → Text → Row → Bool
  is_match secret environment r =
      (text_eq r.environment environment && not r.revoked) && checkpw secret r.hashed_secret

  unfoldable pub lookup_api_key : Text → Text → Table → Option Row
  lookup_api_key secret environment [] = none
  lookup_api_key secret environment (r ∷ rows) =
      let rest = lookup_api_key secret environment rows in
      if is_match secret environment r then some r else rest

  -- `_update_last_used`
  touch : ℕ → Text → Row → Row
  touch now key_id r =
      if text_eq r.key_id key_id
      then record r { last_used_at = some now; usage_count = r.usage_count + 1 }
      else r

  pub update_last_used : ℕ → Text → Table → Table
  unfolding touch
  update_last_used now key_id = map (touch now key_id)

  abbrev pub is_past : ℕ → Option ℕ → Bool
  is_past now none = false
  is_past now (some e) = ltb e now

  -- `verify_api_key`, after the row is found.
  check_row : ℕ → Text → Table → Option Row → Option Claims × Table
  check_row now environment table none = (none, table)
  check_row now environment table (some r) =
      if is_past now r.expires_at then (none, table) else if r.revoked then (none, table) else (
        some (record {
          user_id = r.user_id;
          scopes = r.scopes;
          key_id = r.key_id;
          environment = environment;
        }),
        update_last_used now r.key_id table,
      )

  -- `verify_api_key`
  pub verify_api_key : ℕ → Text → Table → Option Claims × Table
  unfolding check_row
  verify_api_key now api_key table =
      if starts_with live_prefix api_key
      then check_row now (codes "live") table
          (lookup_api_key (drop (length live_prefix) api_key) (codes "live") table)
      else if starts_with test_prefix api_key
      then check_row now (codes "test") table
          (lookup_api_key (drop (length test_prefix) api_key) (codes "test") table)
      else (none, table)

  revoke_row : ℕ → Text → Row → Row
  revoke_row now key_id r =
      if text_eq r.key_id key_id then record r { revoked = true; revoked_at = some now } else r

  -- `revoke_api_key`, with its result: whether a row was updated.
  pub revoke_api_key : ℕ → Text → Table → Bool × Table
  unfolding revoke_row
  revoke_api_key now key_id table =
      (any (λ r. text_eq r.key_id key_id) table, map (revoke_row now key_id) table)

  find_key : Text → Table → Option Row
  find_key key_id [] = none
  find_key key_id (r ∷ rows) = if text_eq r.key_id key_id then some r else find_key key_id rows

  -- `rotate_api_key`; none where the key is not found, or the new one is not stored.
  rotate_row : ℕ → Fresh → Text → Table → Option Row → Option (Text × Text) × Table
  rotate_row now fresh key_id table none = (none, table)
  rotate_row now fresh key_id table (some r) =
      generate_api_key now fresh r.user_id (r.name ++ codes " (rotated)") r.scopes r.environment
        r.expires_at (revoke_api_key now key_id table).1

  pub rotate_api_key : ℕ → Fresh → Text → Table → Option (Text × Text) × Table
  unfolding rotate_row find_key
  rotate_api_key now fresh key_id table = rotate_row now fresh key_id table (find_key key_id table)
