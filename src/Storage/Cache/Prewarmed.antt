-- ===== src/Storage/Cache/Prewarmed.antt =====
-- What the cache returns for the files of a repository after `prewarm`.
use runtime_ops.Base.{
  Text, codes, text_eq, ℕ, suc, ◌+◌, ◌≤◌, ◌<◌, ltb, ◌≡◌, refl, ap, ◌∙◌, inl, inr, Bool, true, false,
  Option, none, some, List, [], ◌∷◌, ◌++◌, all, length, if◌then◌else◌, Option-cases, arith,
}
use runtime_ops.Redis.Strings.{Strings, is_some}
use runtime_ops.Storage.Cache.{Cipher, get, prewarm}
use runtime_ops.Storage.Cache.Values.{connected, set_stores, get_stored}

-- What is there, or else something else.
infix 5 ◌or_else◌
abbrev pub ◌or_else◌ : Option Text → Option Text → Option Text
some x or_else y = some x
none or_else y = y

-- The content that the files give a path: the last one, where a path comes twice.
abbrev pub content_of : Text → List (ℕ × Text × Text) → Option Text
content_of path [] = none
content_of path ((nonce, file_path, content) ∷ files) =
    content_of path files or_else (if text_eq file_path path then some content else none)

-- The content that was put in the cache while it lives; where none was put, what was there before.
abbrev pub while_alive : Bool → Option Text → Option Text → Option Text
while_alive l (some content) before = if l then some content else none
while_alive l none before = before

prefixed : (r p q : Text) → text_eq (r ++ 58 ∷ p) (r ++ 58 ∷ q) ≡ text_eq p q
unfolding text_eq
prefixed [] p q = refl
prefixed (c ∷ r) p q = ground (arith, prefixed r p q)

-- What a later file of the same path, this file, or the cache before gives.
later :
    (o : Option Text) (b l : Bool) (content : Text) (before after : Option Text)
    → after ≡ (if b then (if l then some content else none) else before)
    → while_alive l o after ≡ while_alive l (o or_else (if b then some content else none)) before
later (some c) b l content before after h = refl
later none true l content before after h = h
later none false l content before after h = h

module _ (redis : Strings) (file_ttl convention_ttl : ℕ) (cipher : Cipher) where
  abbrev pub can_encrypt : ℕ × Text × Text → Bool
  can_encrypt (nonce, file_path, content) = is_some (cipher.encrypt nonce content)

  -- Where the time to live of files is positive, `prewarm` with files that can be encrypted counts all of
  -- them, and until the time to live of files
  -- is over `get` returns the content of each. For a path that is not among them it returns what it did
  -- before.
  pub prewarm-get :
      (t u : ℕ) (repo_id : Text) (files : List (ℕ × Text × Text)) (store : redis.Store)
      → all can_encrypt files ≡ true
      → 0 < file_ttl
      → t ≤ u
      → let s = connected redis cipher store in
        let (cached_count, s') = prewarm redis file_ttl convention_ttl t repo_id files s in
        (cached_count ≡ length files)
        × ((path : Text)
            → get redis file_ttl convention_ttl u (codes "file") (repo_id ++ 58 ∷ path) s'
              ≡ while_alive
                  (ltb u (t + file_ttl))
                  (content_of path files)
                  (get redis file_ttl convention_ttl u (codes "file") (repo_id ++ 58 ∷ path) s))
  unfolding prewarm text_eq
  prewarm-get t u repo_id [] store h pos le = (refl, λ path. refl)
  prewarm-get t u repo_id ((nonce, file_path, content) ∷ files) store h pos le =
      elim (Option-cases (cipher.encrypt nonce content)) [
        | inl e ↦ absurd (cc (rw e at h))
        | inr (token, e) ↦
            let (store', k, is_set) =
              set_stores redis file_ttl convention_ttl cipher t nonce (codes "file")
                (repo_id ++ 58 ∷ file_path) content none store token e pos in
            let (count, read) = prewarm-get t u repo_id files store' (ground arith) pos le in
            rw is_set (
              ap suc count,
              λ path.
                  read path
                  ∙ later (content_of path files) (text_eq file_path path) (ltb u (t + file_ttl))
                      content
                      (get redis file_ttl convention_ttl u (codes "file") (repo_id ++ 58 ∷ path)
                        (connected redis cipher store))
                      _
                      (get_stored redis file_ttl convention_ttl cipher t u nonce file_ttl
                          (codes "file") (repo_id ++ 58 ∷ file_path) content store store' token k
                          (cipher.decrypt-encrypt nonce content token e) refl le (codes "file")
                          (repo_id ++ 58 ∷ path) refl
                        ∙ rw (prefixed repo_id file_path path) refl),
            )
      ]
