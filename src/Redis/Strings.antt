-- ===== src/Redis/Strings.antt =====
-- String values with a time to live: SETEX, GET (and EXISTS), DEL and KEYS.
use runtime_ops.Base.{
  Text, text_eq, starts_with, any, ℕ, ◌+◌, ◌≤◌, ◌<◌, ◌≡◌, ◌≢◌, Bool, true, false, ◌&&◌, Option,
  none, some, List, [], ◌∷◌, ◌++◌, length, ltb, ◌==◌, not, all, if◌then◌else◌,
}

abbrev pub is_some {ℓ} : {A : Type ℓ} → Option A → Bool
is_some none = false
is_some (some a) = true

-- A text that stands for itself in a pattern: none of `*`, `?`, `[`, `]` and `\`.
abbrev pub is_plain : Text → Bool
is_plain s = all (λ c. not (any (λ d. c == d) (42 ∷ 63 ∷ 91 ∷ 93 ∷ 92 ∷ []))) s

-- The pattern `s*`.
abbrev pub anything_after : Text → Text
anything_after s = s ++ 42 ∷ []

pub record Strings : Type 1 where
  pub Store : Type 0
  -- GET shows what is live at an instant; EXISTS counts it.
  pub get : ℕ → Text → Store → Option Text
  -- SETEX: none is the error reply.
  pub setex : ℕ → Text → ℕ → Text → Store → Option Store
  -- DEL of several keys, with the number of those that were there.
  pub del : ℕ → List Text → Store → ℕ × Store
  pub keys : ℕ → Text → Store → List Text
  -- What has expired does not come back.
  pub get_gone : (t u : ℕ) (k : Text) (s : Store) → get t k s ≡ none → t ≤ u → get u k s ≡ none
  -- FLUSHDB deletes every key.
  pub flushdb : Store → Store
  pub get-flushdb : (s : Store) (u : ℕ) (j : Text) → get u j (flushdb s) ≡ none
  -- A time to live of 0 is an error ("invalid expire time in 'setex' command").
  pub setex_zero : (t : ℕ) (k v : Text) (s : Store) → setex t k 0 v s ≡ none
  pub setex_stores :
      (t : ℕ) (k : Text) (ttl : ℕ) (v : Text) (s : Store)
      → 0 < ttl
      → (s' : Store) × (setex t k ttl v s ≡ some s')
  pub get-setex :
      (t : ℕ) (k : Text) (ttl : ℕ) (v : Text) (s s' : Store) (u : ℕ)
      → setex t k ttl v s ≡ some s'
      → t ≤ u
      → get u k s' ≡ (if ltb u (t + ttl) then some v else none)
  pub setex_ne :
      (t : ℕ) (k : Text) (ttl : ℕ) (v : Text) (s s' : Store) (u : ℕ) (j : Text)
      → setex t k ttl v s ≡ some s'
      → k ≢ j
      → get u j s' ≡ get u j s
  pub get-del :
      (t : ℕ) (ks : List Text) (s : Store) (u : ℕ) (j : Text)
      → t ≤ u
      → get u j (del t ks s).1 ≡ (if any (text_eq j) ks then none else get u j s)
  pub del_one :
      (t : ℕ) (k : Text) (s : Store) → (del t (k ∷ []) s).0 ≡ (if is_some (get t k s) then 1 else 0)
  pub del_keys :
      (t : ℕ) (pattern : Text) (s : Store)
      → (del t (keys t pattern s) s).0 ≡ length (keys t pattern s)
  -- KEYS with a plain beginning and a star: the live keys that begin so.
  pub keys_lem :
      (t : ℕ) (beginning : Text) (s : Store) (j : Text)
      → is_plain beginning ≡ true
      → any (text_eq j) (keys t (anything_after beginning) s)
        ≡ (starts_with beginning j && is_some (get t j s))
