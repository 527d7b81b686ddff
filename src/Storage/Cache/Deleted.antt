-- ===== src/Storage/Cache/Deleted.antt =====
-- What the cache returns after it deletes keys.
use runtime_ops.Base.{
  Text, codes, text_eq, text_eq_sym, ℕ, ◌≤◌, ltb, ◌≡◌, refl, ap, ◌∙◌, Bool, true, false, ◌&&◌, ◌||◌,
  Option, none, some, List, [], ◌∷◌, length, if◌then◌else◌, ◌>>=◌,
}
use runtime_ops.Redis.Strings.{Strings, is_some, is_plain, anything_after}
use runtime_ops.Storage.Cache.{
  Cipher, make_key, delete_found, get, invalidate, invalidate_pattern, flush_namespace,
}
use runtime_ops.Storage.Cache.Keys.{
  has_no_colon, keys_eq, beginning_of, key_begins, pattern_lem, beginning-plain,
}
use runtime_ops.Storage.Cache.Values.{connected}

live :
    (b : Bool) (o p : Option Text)
    → (o ≡ none → p ≡ none)
    → (if b && is_some o then none else p) ≡ (if b then none else p)
live false o p h = refl
live true none p h = h refl
live true (some a) p h = refl

lost :
    (b : Bool) (o : Option Text) (f : Text → Option Text)
    → ((if b then none else o) >>= f) ≡ (if b then none else (o >>= f))
lost true o f = refl
lost false o f = refl

module _ (redis : Strings) (file_ttl convention_ttl : ℕ) (cipher : Cipher) where
  flushed :
      (t u : ℕ) (namespace : Text) (store : redis.Store)
      → has_no_colon namespace ≡ true
      → is_plain namespace ≡ true
      → t ≤ u
      → (other key : Text) → has_no_colon other ≡ true
      → redis.get u
          (make_key other key)
          (redis.del t (redis.keys t (make_key namespace (codes "*")) store) store).1
        ≡ (if text_eq namespace other then none else redis.get u (make_key other key) store)
  flushed t u namespace store colon plain le other key no_colon = rw (pattern_lem namespace) (
      redis.get-del t (redis.keys t (anything_after (beginning_of namespace)) store) store u
        (make_key other key) le
      ∙ rw
          (
            redis.keys_lem t (beginning_of namespace) store (make_key other key)
                (beginning-plain namespace plain),
            key_begins namespace other key colon no_colon,
          )
          (live (text_eq namespace other) (redis.get t (make_key other key) store)
            (redis.get u (make_key other key) store)
            (λ e. redis.get_gone t u (make_key other key) store e le)))

  count :
      (t : ℕ) (store : redis.Store) (ks : List Text)
      → (redis.del t ks store).0 ≡ length ks
      → (delete_found redis file_ttl convention_ttl t store ks (connected redis cipher store)).0
        ≡ length ks
  unfolding delete_found
  count t store [] h = refl
  count t store (k ∷ ks) h = h

  -- What is read after the deletion, where nothing is found to delete as well.
  read :
      (t u : ℕ) (store : redis.Store) (ks : List Text) (j : Text)
      → t ≤ u
      → ((delete_found redis file_ttl convention_ttl t store ks
            (connected redis cipher store)).1.client
          >>= λ after. redis.get u j after >>= λ content.
              (delete_found redis file_ttl convention_ttl t store ks
                (connected redis cipher store)).1.cipher
              >>= λ c. c.decrypt content)
        ≡ (redis.get u j (redis.del t ks store).1 >>= λ content. cipher.decrypt content)
  unfolding delete_found
  read t u store [] j le = rw (redis.get-del t [] store u j le) refl
  read t u store (k ∷ ks) j le = refl

  -- `flush_namespace` deletes what is live in the namespace and says how many keys that were. `get` then
  -- finds nothing in the namespace, and in every other what it did before. No namespace has a colon in
  -- it, and the one that is flushed has no character that a pattern gives a meaning to.
  pub flush_namespace-get :
      (t u : ℕ) (namespace other key : Text) (store : redis.Store)
      → has_no_colon namespace ≡ true
      → has_no_colon other ≡ true
      → is_plain namespace ≡ true
      → t ≤ u
      → let s = connected redis cipher store in
        let (deleted, s') = flush_namespace redis file_ttl convention_ttl t namespace s in
        (deleted ≡ length (redis.keys t (make_key namespace (codes "*")) store))
        × (get redis file_ttl convention_ttl u other key s' ≡ (
            if text_eq namespace other
            then none
            else get redis file_ttl convention_ttl u other key s))
  unfolding get flush_namespace invalidate_pattern
  flush_namespace-get t u namespace other key store colon no_colon plain le =
      let found = redis.keys t (make_key namespace (codes "*")) store in
      (
        count t store found (redis.del_keys t (make_key namespace (codes "*")) store),
        read t u store found (make_key other key) le
            ∙ (ap (λ o. o >>= λ content. cipher.decrypt content)
                  (flushed t u namespace store colon plain le other key no_colon)
                ∙ lost (text_eq namespace other) (redis.get u (make_key other key) store)
                    (λ content. cipher.decrypt content)),
      )

  -- `invalidate` says whether the key was there. `get` then finds nothing for it, and for every other
  -- namespace or key what it did before. No namespace has a colon in it.
  invalidate-get :
      (t u : ℕ) (namespace key other k : Text) (store : redis.Store)
      → has_no_colon namespace ≡ true
      → has_no_colon other ≡ true
      → t ≤ u
      → let s = connected redis cipher store in
        let (deleted, s') = invalidate redis file_ttl convention_ttl t namespace key s in
        (deleted ≡ is_some (redis.get t (make_key namespace key) store))
        × (get redis file_ttl convention_ttl u other k s' ≡ (
            if text_eq namespace other && text_eq key k
            then none
            else get redis file_ttl convention_ttl u other k s))
  unfolding get invalidate
  invalidate-get t u namespace key other k store colon no_colon le = (
    there (redis.get t (make_key namespace key) store)
        (redis.del_one t (make_key namespace key) store),
    ap (λ o. o >>= λ content. cipher.decrypt content)
          (redis.get-del t (make_key namespace key ∷ []) store u (make_key other k) le
            ∙ rw
                (
                  text_eq_sym (make_key other k) (make_key namespace key),
                  keys_eq namespace other key k colon no_colon,
                )
                (or_false (text_eq namespace other && text_eq key k) _))
        ∙ lost (text_eq namespace other && text_eq key k) (redis.get u (make_key other k) store)
            (λ content. cipher.decrypt content),
  )
    where
      there :
          (o : Option Text)
          → (redis.del t (make_key namespace key ∷ []) store).0 ≡ (if is_some o then 1 else 0)
          → ltb 0 (redis.del t (make_key namespace key ∷ []) store).0 ≡ is_some o
      there none h = rw h refl
      there (some a) h = rw h refl

      or_false :
          (b : Bool) (o : Option Text) → (if b || false then none else o) ≡ (if b then none else o)
      or_false true o = refl
      or_false false o = refl
