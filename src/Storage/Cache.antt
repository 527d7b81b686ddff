-- ===== src/Storage/Cache.antt =====
-- `FileCache` of src/bob/storage/cache.py: the client is absent before `connect`, and the cipher where
-- its key was refused. Fernet, `json` and Redis are arguments; what is random in a token is an argument
-- of `encrypt`. Redis answers: a lost connection, which every method takes for a miss, is left out, and
-- so are `get_stats`, which only reads the server's counters, and the log.
pub mod Keys
pub mod Values
pub mod Deleted
pub mod Prewarmed
pub mod Examples
use runtime_ops.Base.{
  Text, codes, text_eq, ℕ, suc, ltb, Bool, true, false, Option, none, some, List, [], ◌∷◌, ◌++◌,
  if◌then◌else◌, ◌>>=◌, ◌≡◌,
}
use runtime_ops.Redis.Strings.{Strings}

-- `Fernet`, after the text is encoded: what was encrypted is decrypted to itself. None is an error.
pub record Cipher : Type 0 where
  pub encrypt : ℕ → Text → Option Text
  pub decrypt : Text → Option Text
  pub decrypt-encrypt : (n : ℕ) (s e : Text) → encrypt n s ≡ some e → decrypt e ≡ some s

-- `json.dumps` and `json.loads`; none is an error.
pub record Json : Type 1 where
  pub Value : Type 0
  pub dumps : Value → Option Text
  pub loads : Text → Option Value
  pub loads-dumps : (v : Value) (s : Text) → dumps v ≡ some s → loads s ≡ some v

-- `_make_key`
abbrev pub make_key : Text → Text → Text
make_key namespace key = codes "bob:" ++ namespace ++ 58 ∷ key

module _ (redis : Strings) where
  open redis use {Store, setex, del, keys, flushdb, get as redis_get}

  pub record State : Type 0 where
    pub client : Option Store
    pub cipher : Option Cipher

  module _ (file_ttl convention_ttl : ℕ) where
    -- `_encrypt` and `_decrypt`; none is `EncryptionError`.
    abbrev pub encrypted : ℕ → Text → State → Option Text
    encrypted nonce content s = s.cipher >>= λ cipher. cipher.encrypt nonce content

    abbrev pub decrypted : Text → State → Option Text
    decrypted content s = s.cipher >>= λ cipher. cipher.decrypt content

    -- `get`
    unfoldable pub get : ℕ → Text → Text → State → Option Text
    get now namespace key s = s.client >>= λ store.
        redis_get now (make_key namespace key) store >>= λ content. decrypted content s

    -- The time to live that `set` takes where none is given.
    abbrev pub ttl_of : Text → Option ℕ → ℕ
    ttl_of namespace (some ttl) = ttl
    ttl_of namespace none =
        if text_eq namespace (codes "file")
        then file_ttl
        else if text_eq namespace (codes "convention")
        then convention_ttl
        else file_ttl

    stored : State → Option Store → Bool × State
    stored s none = (false, s)
    stored s (some store) = (true, record s { client = some store })

    -- `set`
    unfoldable pub set : ℕ → ℕ → Text → Text → Text → Option ℕ → State → Bool × State
    unfolding stored
    set now nonce namespace key value ttl s = elim s.client [
      | none ↦ (false, s)
      | some store ↦ stored s (
          encrypted nonce value s >>= λ token.
          setex now (make_key namespace key) (ttl_of namespace ttl) token store)
    ]

    -- `invalidate`
    unfoldable pub invalidate : ℕ → Text → Text → State → Bool × State
    invalidate now namespace key s = elim s.client [
      | none ↦ (false, s)
      | some store ↦
          let (deleted, store') = del now (make_key namespace key ∷ []) store in
          (ltb 0 deleted, record s { client = some store' })
    ]

    -- `invalidate_pattern`
    delete_found : ℕ → Store → List Text → State → ℕ × State
    delete_found now store [] s = (0, s)
    delete_found now store (k ∷ ks) s =
        let (deleted, store') = del now (k ∷ ks) store in
        (deleted, record s { client = some store' })

    unfoldable pub invalidate_pattern : ℕ → Text → Text → State → ℕ × State
    unfolding delete_found
    invalidate_pattern now namespace pattern s = elim s.client [
      | none ↦ (0, s)
      | some store ↦ delete_found now store (keys now (make_key namespace pattern) store) s
    ]

    -- `flush_namespace`
    unfoldable pub flush_namespace : ℕ → Text → State → ℕ × State
    unfolding invalidate_pattern
    flush_namespace now namespace = invalidate_pattern now namespace (codes "*")

    -- `flush_all`
    unfoldable pub flush_all : State → Bool × State
    flush_all s = elim s.client [
      | none ↦ (false, s)
      | some store ↦ (true, record s { client = some (flushdb store) })
    ]

    -- `prewarm`: the files as the dictionary lists them, with what is random in each token.
    unfoldable pub prewarm : ℕ → Text → List (ℕ × Text × Text) → State → ℕ × State
    unfolding set
    prewarm now repo_id [] s = (0, s)
    prewarm now repo_id ((nonce, file_path, content) ∷ files) s =
        let (is_set, s') =
          set now nonce (codes "file") (repo_id ++ 58 ∷ file_path) content none s in
        let (cached_count, s'') = prewarm now repo_id files s' in
        (if is_set then suc cached_count else cached_count, s'')

    module _ (json : Json) where
      open json use {Value, dumps, loads}

      -- `get_json` and `set_json`
      unfoldable pub get_json : ℕ → Text → Text → State → Option Value
      unfolding get
      get_json now namespace key s = get now namespace key s >>= loads

      unfoldable pub set_json : ℕ → ℕ → Text → Text → Value → Option ℕ → State → Bool × State
      unfolding set
      set_json now nonce namespace key value ttl s = elim (dumps value) [
        | none ↦ (false, s)
        | some text ↦ set now nonce namespace key text ttl s
      ]
