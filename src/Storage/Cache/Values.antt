-- ===== src/Storage/Cache/Values.antt =====
-- What the cache returns after its operations.
use runtime_ops.Base.{
  Text, text_eq, text_eq_iff, text_ne, ℕ, ◌+◌, ◌≤◌, ◌<◌, ltb, ◌≡◌, refl, inl, inr, Bool, true,
  false, ◌&&◌, Option, none, some, if◌then◌else◌, ◌>>=◌, Bool-cases,
}
use runtime_ops.Redis.Strings.{Strings}
use runtime_ops.Storage.Cache.{Cipher, make_key, State, ttl_of, stored, get, set}
use runtime_ops.Storage.Cache.Keys.{has_no_colon, keys_eq}

-- The cache after `connect`.
abbrev pub connected : (redis : Strings) → Cipher → redis.Store → State redis
connected redis cipher store = record { client = some store; cipher = some cipher }

-- What is read through a decryption that may find the new token.
through :
    (f : Text → Option Text) (token value : Text)
    → f token ≡ some value
    → (b l : Bool) (o : Option Text)
    → ((if b then (if l then some token else none) else o) >>= f)
      ≡ (if b then (if l then some value else none) else (o >>= f))
through f token value h true true o = h
through f token value h true false o = refl
through f token value h false l o = refl

module _ (redis : Strings) (file_ttl convention_ttl : ℕ) (cipher : Cipher) where
  setex_lem :
      (t : ℕ) (k : Text) (ttl : ℕ) (v : Text) (s s' : redis.Store) (u : ℕ) (j : Text)
      → redis.setex t k ttl v s ≡ some s'
      → t ≤ u
      → redis.get u j s'
        ≡ (if text_eq k j then (if ltb u (t + ttl) then some v else none) else redis.get u j s)
  setex_lem t k ttl v s s' u j h le = elim (Bool-cases (text_eq k j)) [
    | inl e ↦ rw e (rw⁻¹ ((text_eq_iff k j).0 e) (redis.get-setex t k ttl v s s' u h le))
    | inr e ↦ rw e (redis.setex_ne t k ttl v s s' u j h (text_ne k j e))
  ]

  -- The cache after a SETEX, and what it returns.
  pub set_stores :
      (t nonce : ℕ) (namespace key value : Text) (ttl : Option ℕ) (store : redis.Store)
      (token : Text)
      → cipher.encrypt nonce value ≡ some token
      → 0 < ttl_of redis file_ttl convention_ttl namespace ttl
      → (store' : redis.Store) × (redis.setex t
            (make_key namespace key)
            (ttl_of redis file_ttl convention_ttl namespace ttl)
            token
            store
          ≡ some store')
        × (set redis file_ttl convention_ttl t nonce namespace key value ttl
              (connected redis cipher store)
            ≡ (true, connected redis cipher store'))
  unfolding set stored
  set_stores t nonce namespace key value ttl store token h pos =
      let (store', k) =
        redis.setex_stores t (make_key namespace key)
          (ttl_of redis file_ttl convention_ttl namespace ttl) token store pos in
      (store', k, rw (h, k) refl)

  pub get_stored :
      (t u nonce ttl : ℕ) (namespace key value : Text) (store store' : redis.Store) (token : Text)
      → redis.setex t (make_key namespace key) ttl token store ≡ some store'
      → cipher.decrypt token ≡ some value
      → has_no_colon namespace ≡ true
      → t ≤ u
      → (other k : Text) → has_no_colon other ≡ true
      → get redis file_ttl convention_ttl u other k (connected redis cipher store') ≡ (
          if text_eq namespace other && text_eq key k
          then (if ltb u (t + ttl) then some value else none)
          else get redis file_ttl convention_ttl u other k (connected redis cipher store))
  unfolding get
  get_stored t u nonce ttl namespace key value store store' token h d colon le other j no_colon =
      rw
        (
          setex_lem t (make_key namespace key) ttl token store store' u (make_key other j) h le,
          keys_eq namespace other key j colon no_colon,
        )
        (through (λ content. cipher.decrypt content) token value d
          (text_eq namespace other && text_eq key j) (ltb u (t + ttl))
          (redis.get u (make_key other j) store))

  -- `set` of a value that can be encrypted, with a time to live that is not 0, succeeds. Until that time
  -- is over `get` returns the value for the same namespace and key, and then nothing; it returns for
  -- every other namespace or key what it did before. No namespace has a colon in it.
  pub get-set :
      (t nonce u : ℕ) (namespace key value : Text) (ttl : Option ℕ) (store : redis.Store)
      (token other k : Text)
      → cipher.encrypt nonce value ≡ some token
      → 0 < ttl_of redis file_ttl convention_ttl namespace ttl
      → has_no_colon namespace ≡ true
      → has_no_colon other ≡ true
      → t ≤ u
      → let s = connected redis cipher store in
        let (is_set, s') = set redis file_ttl convention_ttl t nonce namespace key value ttl s in
        (is_set ≡ true)
        × (get redis file_ttl convention_ttl u other k s' ≡ (
            if text_eq namespace other && text_eq key k
            then (if ltb u (t + ttl_of redis file_ttl convention_ttl namespace ttl)
                then some value
                else none)
            else get redis file_ttl convention_ttl u other k s))
  get-set t nonce u namespace key value ttl store token other k h pos colon no_colon le =
      let (store', stored_as, e) = set_stores t nonce namespace key value ttl store token h pos in
      rw e (
        refl,
        get_stored t u nonce _ namespace key value store store' token stored_as
            (cipher.decrypt-encrypt nonce value token h) colon le other k no_colon,
      )
