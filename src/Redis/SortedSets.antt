-- ===== src/Redis/SortedSets.antt =====
-- Sorted sets: ZADD, ZCARD, ZREMRANGEBYSCORE, ZRANGE key 0 0 WITHSCORES and EXPIRE.
use runtime_ops.Base.{
  Text, text_eq, ℕ, ◌+◌, ◌≡◌, ◌≢◌, Bool, Option, none, some, List, [], ◌∷◌, not, ◌||◌, ltb,
  if◌then◌else◌, select, length,
}
use runtime_ops.Redis.Deadline.{expired}

pub record Entry : Type 0 where
  pub member : Text
  pub score : ℕ

-- Where a new entry goes among entries in order of their scores. (Redis orders equal scores by
-- member, which no command above shows.)
unfoldable pub insert : Entry → List Entry → List Entry
insert e [] = e ∷ []
insert e (x ∷ xs) = if ltb e.score x.score then e ∷ x ∷ xs else x ∷ insert e xs

-- A member that is there already is moved to its new score.
unfoldable pub add_entry : Entry → List Entry → List Entry
add_entry e xs = insert e (select (λ x. not (text_eq x.member e.member)) xs)

abbrev pub outside : ℕ → ℕ → Entry → Bool
outside lo hi e = ltb e.score lo || ltb hi e.score

abbrev pub lowest : List Entry → Option Entry
lowest [] = none
lowest (x ∷ xs) = some x

abbrev pub is_empty : List Entry → Bool
is_empty [] = Bool.true
is_empty (x ∷ xs) = Bool.false

pub record SortedSets : Type 1 where
  pub Store : Type 0
  -- What a store holds: the entries of a key in order of score, and when it is due to go.
  pub entries : Store → Text → List Entry
  pub deadline : Store → Text → Option ℕ
  pub zremrangebyscore : ℕ → Text → ℕ → ℕ → Store → Store
  pub zcard : ℕ → Text → Store → ℕ
  pub zadd : ℕ → Text → Entry → Store → Store
  pub zrange_first : ℕ → Text → Store → Option Entry
  pub expire : ℕ → Text → ℕ → Store → Store
  -- A key past its deadline is treated as missing.
  pub visible : Store → ℕ → Text → List Entry
  pub visible_lem :
      (s : Store) (t : ℕ) (k : Text)
      → visible s t k ≡ (if expired (deadline s k) t then [] else entries s k)
  pub zcard_lem : (t : ℕ) (k : Text) (s : Store) → zcard t k s ≡ length (visible s t k)
  pub zrange_lem : (t : ℕ) (k : Text) (s : Store) → zrange_first t k s ≡ lowest (visible s t k)
  pub entries-zrem :
      (t : ℕ) (k : Text) (lo hi : ℕ) (s : Store)
      → entries (zremrangebyscore t k lo hi s) k ≡ select (outside lo hi) (visible s t k)
  pub deadline-zrem :
      (t : ℕ) (k : Text) (lo hi : ℕ) (s : Store)
      → deadline (zremrangebyscore t k lo hi s) k
        ≡ (if is_empty (select (outside lo hi) (visible s t k)) then none else deadline s k)
  pub zrem_ne :
      (t : ℕ) (k : Text) (lo hi : ℕ) (s : Store) (j : Text)
      → k ≢ j
      → (entries (zremrangebyscore t k lo hi s) j ≡ entries s j)
        × (deadline (zremrangebyscore t k lo hi s) j ≡ deadline s j)
  pub entries-zadd :
      (t : ℕ) (k : Text) (e : Entry) (s : Store)
      → entries (zadd t k e s) k ≡ add_entry e (visible s t k)
  pub deadline-zadd :
      (t : ℕ) (k : Text) (e : Entry) (s : Store)
      → deadline (zadd t k e s) k ≡ (if is_empty (visible s t k) then none else deadline s k)
  pub zadd_ne :
      (t : ℕ) (k : Text) (e : Entry) (s : Store) (j : Text)
      → k ≢ j
      → (entries (zadd t k e s) j ≡ entries s j) × (deadline (zadd t k e s) j ≡ deadline s j)
  pub entries-expire :
      (t : ℕ) (k : Text) (n : ℕ) (s : Store) → entries (expire t k n s) k ≡ visible s t k
  pub deadline-expire :
      (t : ℕ) (k : Text) (n : ℕ) (s : Store)
      → deadline (expire t k n s) k ≡ (if is_empty (visible s t k) then none else some (t + n))
  pub expire_ne :
      (t : ℕ) (k : Text) (n : ℕ) (s : Store) (j : Text)
      → k ≢ j
      → (entries (expire t k n s) j ≡ entries s j) × (deadline (expire t k n s) j ≡ deadline s j)
