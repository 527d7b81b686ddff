-- ===== src/Security/RateLimiter/Entries.antt =====
-- The entries of a sorted set that a sliding window counts.
use runtime_ops.Base.{
  Text, text_eq, ℕ, ◌+◌, ◌-◌, ◌≤◌, ◌<◌, ◌≡◌, refl, ap, Bool, true, false, not, ◌&&◌, List, [], ◌∷◌,
  length, select, tally, all, arith, leb, ltb,
}
use runtime_ops.Redis.SortedSets.{Entry, insert, add_entry, outside, is_empty}

pub length-select {ℓ} :
    {A : Type ℓ} (test : A → Bool) (xs : List A) → length (select test xs) ≡ tally test xs
length-select test [] = refl
length-select test (x ∷ xs) = ground (arith, length-select test xs)

-- Still in a window of `w` seconds at the instant `T`, as an entry and as an instant of the past.
abbrev pub recent : ℕ → ℕ → Entry → Bool
recent w T e = ltb T (e.score + w)

abbrev pub within : ℕ → ℕ → ℕ → Bool
within w T a = leb a T && ltb T (a + w)

abbrev pub before : ℕ → Entry → Bool
before now e = leb e.score now

abbrev pub unlike : Text → Entry → Bool
unlike m e = not (text_eq e.member m)

pub tally-insert :
    (test : Entry → Bool) (e : Entry) (xs : List Entry)
    → tally test (insert e xs) ≡ tally test (e ∷ xs)
unfolding insert
tally-insert test e [] = refl
tally-insert test e (x ∷ xs) = ground (arith, tally-insert test e xs)

pub all-insert :
    (test : Entry → Bool) (e : Entry) (xs : List Entry) → all test (insert e xs) ≡ all test (e ∷ xs)
unfolding insert
all-insert test e [] = refl
all-insert test e (x ∷ xs) = ground (arith, all-insert test e xs)

pub select_kept {ℓ} :
    {A : Type ℓ} (test : A → Bool) (xs : List A) → all test xs ≡ true → select test xs ≡ xs
select_kept test [] h = refl
select_kept test (x ∷ xs) h = ground (arith, select_kept test xs)

pub all-select {ℓ} :
    {A : Type ℓ} (p q : A → Bool) (xs : List A) → all p xs ≡ true → all p (select q xs) ≡ true
all-select p q [] h = refl
all-select p q (x ∷ xs) h = ground (arith, all-select p q xs)

pub tally-select-le {ℓ} :
    {A : Type ℓ} (p q : A → Bool) (xs : List A) → tally p (select q xs) ≤ tally p xs
tally-select-le p q [] = omega arith
tally-select-le p q (x ∷ xs) = ground (arith, tally-select-le p q xs)

-- Trimming at `now` takes away nothing that a window counts from then on.
pub tally-trim :
    (w now T : ℕ) (xs : List Entry)
    → w ≤ now
    → now ≤ T
    → tally (recent w T) (select (outside 0 (now - w)) xs) ≡ tally (recent w T) xs
tally-trim w now T [] h g = refl
tally-trim w now T (x ∷ xs) h g = ground (arith, tally-trim w now T xs h g)

-- ... and what is left is what the window counts.
pub length-trim :
    (w now : ℕ) (xs : List Entry)
    → w ≤ now
    → length (select (outside 0 (now - w)) xs) ≡ tally (recent w now) xs
length-trim w now [] h = refl
length-trim w now (x ∷ xs) h = ground (arith, length-trim w now xs h)

pub tally_early : (w now : ℕ) (xs : List Entry) → now < w → length xs ≡ tally (recent w now) xs
tally_early w now [] h = refl
tally_early w now (x ∷ xs) h = ground (arith, tally_early w now xs h)

pub tally_past :
    (w now T : ℕ) (xs : List Entry)
    → all (before now) xs ≡ true
    → now + w ≤ T
    → tally (recent w T) xs ≡ 0
tally_past w now T [] h g = refl
tally_past w now T (x ∷ xs) h g = ground (arith, tally_past w now T xs)

pub all-before :
    (now now' : ℕ) (xs : List Entry)
    → now ≤ now'
    → all (before now) xs ≡ true
    → all (before now') xs ≡ true
all-before now now' [] g h = refl
all-before now now' (x ∷ xs) g h = ground (arith, all-before now now' xs g)

-- A window counts fewer of the same entries as time goes on.
pub tally_mono :
    (w now T : ℕ) (xs : List Entry) → now ≤ T → tally (recent w T) xs ≤ tally (recent w now) xs
tally_mono w now T [] g = omega arith
tally_mono w now T (x ∷ xs) g = ground (arith, tally_mono w now T xs g)

pub is_empty-insert : (e : Entry) (xs : List Entry) → is_empty (insert e xs) ≡ false
unfolding insert
is_empty-insert e [] = refl
is_empty-insert e (x ∷ xs) = ground arith

pub add_entry_fresh :
    (e : Entry) (xs : List Entry) → all (unlike e.member) xs ≡ true → add_entry e xs ≡ insert e xs
unfolding add_entry
add_entry_fresh e xs h = ap (insert e) (select_kept (unlike e.member) xs h)
