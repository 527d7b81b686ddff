-- ===== src/Redis/StringReference.antt =====
-- A value of `Strings`, which shows that its laws can hold together. Only tests use it.
use runtime_ops.Base.{
  Text, text_eq, text_eq_iff, text_eq_refl, text_eq_sym, starts_with, any, ℕ, suc, ◌+◌, ◌≤◌, ◌<◌,
  ◌≡◌, ◌≢◌, refl, Bool, true, false, ◌&&◌, Option, none, some, List, [], ◌∷◌, length, ltb, ◌==◌,
  not, all, select, if◌then◌else◌, arith,
}
use runtime_ops.Redis.Strings.{Strings, is_some, anything_after}

pub record Item : Type 0 where
  pub name : Text
  pub content : Text
  pub gone_at : ℕ

abbrev get : ℕ → Text → List Item → Option Text
get t k [] = none
get t k (i ∷ s) =
    let rest = get t k s in if text_eq i.name k && ltb t i.gone_at then some i.content else rest

-- The items of other names.
abbrev without : List Text → List Item → List Item
without ks = select (λ i. not (any (text_eq i.name) ks))

abbrev setex : ℕ → Text → ℕ → Text → List Item → Option (List Item)
setex t k ttl v s =
    if ttl == 0
    then none
    else some (record { name = k; content = v; gone_at = t + ttl } ∷ without (k ∷ []) s)

-- The names that are live, each once.
abbrev names : ℕ → List Item → List Text
names t [] = []
names t (i ∷ s) =
    let rest = names t s in
    if ltb t i.gone_at && not (any (text_eq i.name) rest) then i.name ∷ rest else rest

-- Patterns that end in their only star; others find nothing here.
abbrev matches : Text → Text → Bool
matches [] [] = true
matches [] (d ∷ j) = false
matches (c ∷ []) j = c == 42
matches (c ∷ p ∷ ps) [] = false
matches (c ∷ p ∷ ps) (d ∷ j) = let rest = matches (p ∷ ps) j in c == d && rest

abbrev keys : ℕ → Text → List Item → List Text
keys t pattern s = select (matches pattern) (names t s)

-- How many of the names are live.
abbrev live : ℕ → List Text → List Item → ℕ
live t [] s = 0
live t (k ∷ ks) s = let rest = live t ks s in if is_some (get t k s) then suc rest else rest

pub get-without :
    (u : ℕ) (ks : List Text) (s : List Item) (j : Text)
    → get u j (without ks s) ≡ (if any (text_eq j) ks then none else get u j s)
get-without u ks [] j = ground arith
get-without u ks (i ∷ s) j = ground (arith, get-without u ks s j, text_eq_iff i.name j)

names_lem : (t : ℕ) (s : List Item) (j : Text) → any (text_eq j) (names t s) ≡ is_some (get t j s)
names_lem t [] j = refl
names_lem t (i ∷ s) j =
    ground
      (arith, names_lem t s j, names_lem t s i.name, text_eq_iff i.name j, text_eq_sym i.name j)

any-select :
    (j : Text) (p : Text → Bool) (xs : List Text)
    → any (text_eq j) (select p xs) ≡ (p j && any (text_eq j) xs)
any-select j p [] = ground arith
any-select j p (x ∷ xs) = ground (arith, any-select j p xs, text_eq_iff j x)

live-names :
    (t : ℕ) (ks : List Text) (s : List Item)
    → all (λ k. is_some (get t k s)) ks ≡ true
    → live t ks s ≡ length ks
live-names t [] s h = refl
live-names t (k ∷ ks) s h = ground (arith, live-names t ks s)

matches_lem : (b j : Text) → matches (anything_after b) j ≡ starts_with b j
unfolding starts_with
matches_lem [] j = refl
matches_lem (c ∷ []) [] = refl
matches_lem (c ∷ []) (d ∷ j) = rw (matches_lem [] j) (ground arith)
matches_lem (c ∷ c' ∷ b) [] = refl
matches_lem (c ∷ c' ∷ b) (d ∷ j) = rw (matches_lem (c' ∷ b) j) refl

pub keys_found :
    (t : ℕ) (b : Text) (s : List Item) (j : Text)
    → any (text_eq j) (keys t (anything_after b) s) ≡ (starts_with b j && is_some (get t j s))
keys_found t b s j =
    rw (any-select j (matches (anything_after b)) (names t s), matches_lem b j, names_lem t s j)
      refl

all-live :
    (t : ℕ) (p : Text → Bool) (ks : List Text) (s : List Item)
    → ((k : Text) → any (text_eq k) ks ≡ true → is_some (get t k s) ≡ true)
    → all (λ k. is_some (get t k s)) (select p ks) ≡ true
all-live t p [] s h = refl
all-live t p (k ∷ ks) s h =
    ground (arith, h k, text_eq_refl k, all-live t p ks s (λ j m. h j (ground arith)))

pub keys_counted :
    (t : ℕ) (pattern : Text) (s : List Item)
    → live t (keys t pattern s) s ≡ length (keys t pattern s)
keys_counted t pattern s =
    live-names t (keys t pattern s) s
      (all-live t (matches pattern) (names t s) s (λ k h. rw⁻¹ (names_lem t s k) h))

pub setex_stored :
    (t : ℕ) (k : Text) (ttl : ℕ) (v : Text) (s : List Item)
    → 0 < ttl
    → (s' : List Item) × (setex t k ttl v s ≡ some s')
setex_stored t k ttl v s h =
    (record { name = k; content = v; gone_at = t + ttl } ∷ without (k ∷ []) s, ground arith)

setex_inv :
    (t : ℕ) (k : Text) (ttl : ℕ) (v : Text) (s s' : List Item)
    → setex t k ttl v s ≡ some s'
    → s' ≡ record { name = k; content = v; gone_at = t + ttl } ∷ without (k ∷ []) s
setex_inv t k ttl v s s' h = ground arith

pub get-stored :
    (t : ℕ) (k : Text) (ttl : ℕ) (v : Text) (s s' : List Item) (u : ℕ)
    → setex t k ttl v s ≡ some s'
    → t ≤ u
    → get u k s' ≡ (if ltb u (t + ttl) then some v else none)
get-stored t k ttl v s s' u h le =
    rw (setex_inv t k ttl v s s' h) (ground (arith, get-without u (k ∷ []) s k, text_eq_refl k))

pub get-others :
    (t : ℕ) (k : Text) (ttl : ℕ) (v : Text) (s s' : List Item) (u : ℕ) (j : Text)
    → setex t k ttl v s ≡ some s'
    → k ≢ j
    → get u j s' ≡ get u j s
get-others t k ttl v s s' u j h ne =
    rw (setex_inv t k ttl v s s' h)
      (ground (arith, get-without u (k ∷ []) s j, text_eq_iff k j, text_eq_iff j k))

pub live_one :
    (t : ℕ) (k : Text) (s : List Item) → live t (k ∷ []) s ≡ (if is_some (get t k s) then 1 else 0)
live_one t k s = refl

pub gone : (t u : ℕ) (k : Text) (s : List Item) → get t k s ≡ none → t ≤ u → get u k s ≡ none
gone t u k [] h le = refl
gone t u k (i ∷ s) h le = ground (arith, gone t u k s)

abbrev pub strings : Strings
strings = record {
  Store = List Item;
  get = get;
  setex = setex;
  del = λ t ks s. (live t ks s, without ks s);
  keys = keys;
  get_gone = gone;
  flushdb = λ s. [];
  get-flushdb = λ s u j. refl;
  setex_zero = λ t k v s. refl;
  setex_stores = setex_stored;
  get-setex = get-stored;
  setex_ne = get-others;
  get-del = λ t ks s u j h. get-without u ks s j;
  del_one = live_one;
  del_keys = keys_counted;
  keys_lem = λ t b s j h. keys_found t b s j;
}
