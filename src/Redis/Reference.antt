-- ===== src/Redis/Reference.antt =====
-- A value of each interface, which shows that its laws can hold together. Only tests use it.
use runtime_ops.Base.{
  Text, text_eq, text_eq_iff, ℕ, ◌+◌, ◌-◌, ◌≡◌, ◌≢◌, refl, Option, none, some, List, [],
  if◌then◌else◌, select, arith, text_eq_refl, length, Bool-cases, inl, inr, ap, ◌∙◌,
}
use runtime_ops.Redis.Deadline.{expired}
use runtime_ops.Redis.Counters.{Counters}
use runtime_ops.Redis.SortedSets.{Entry, add_entry, outside, lowest, is_empty, SortedSets}

abbrev update {ℓ} : {V : Type ℓ} → Text → V → (Text → V) → Text → V
update k v f j = if text_eq k j then v else f j

pub update_self {ℓ} : {V : Type ℓ} (k : Text) (v : V) (f : Text → V) → update k v f k ≡ v
update_self k v f = rw (text_eq_refl k)

pub update_ne {ℓ} :
    {V : Type ℓ} (k : Text) (v : V) (f : Text → V) (j : Text) → k ≢ j → update k v f j ≡ f j
update_ne k v f j h = elim (Bool-cases (text_eq k j)) [
  | inl e ↦ absurd (h ((text_eq_iff k j).0 e))
  | inr e ↦ rw e
]

pub record Numbers : Type 0 where
  pub number : Text → Option ℕ
  pub due : Text → Option ℕ

abbrev now_number : ℕ → Text → Numbers → Option ℕ
now_number t k s = if expired (s.due k) t then none else s.number k

abbrev bump : Option ℕ → ℕ
bump none = 1
bump (some n) = n + 1

pub bump_lem : (o : Option ℕ) → bump o ≡ elim o [ none ↦ 1 | some n ↦ n + 1 ]
bump_lem none = refl
bump_lem (some n) = refl

abbrev keep : Option ℕ → Option ℕ → Option ℕ
keep none d = none
keep (some n) d = d

abbrev lowered : Option ℕ → Option ℕ
lowered none = none
lowered (some n) = some (n - 1)

abbrev due_if : Option ℕ → ℕ → Option ℕ
due_if none d = none
due_if (some n) d = some d

module _ (t : ℕ) (k : Text) (s : Numbers) where
  pub number-incr :
      update k (some (bump (now_number t k s))) s.number k
      ≡ some (elim (now_number t k s) [ none ↦ 1 | some n ↦ n + 1 ])
  number-incr = update_self k _ s.number ∙ ground arith

  pub due-incr :
      update k (keep (now_number t k s) (s.due k)) s.due k
      ≡ elim (now_number t k s) [ none ↦ none | some n ↦ s.due k ]
  due-incr = update_self k _ s.due ∙ ground arith

  pub number-decr :
      (n : ℕ)
      → now_number t k s ≡ some n
      → update k (lowered (now_number t k s)) s.number k ≡ some (n - 1)
  number-decr n e = update_self k _ s.number ∙ ap lowered e

  pub due-expire :
      (n v : ℕ)
      → now_number t k s ≡ some v
      → update k (due_if (now_number t k s) (t + n)) s.due k ≡ some (t + n)
  due-expire n v e = update_self k _ s.due ∙ ap (λ o. due_if o (t + n)) e

abbrev pub counters : Counters
counters = record {
  Store = Numbers;
  stored = λ s. s.number;
  deadline = λ s. s.due;
  get = now_number;
  incr = λ t k s. (
    bump (now_number t k s),
    record {
      number = update k (some (bump (now_number t k s))) s.number;
      due = update k (keep (now_number t k s) (s.due k)) s.due;
    },
  );
  decr = λ t k s. record { number = update k (lowered (now_number t k s)) s.number; due = s.due };
  expire = λ t k n s. record {
    number = update k (now_number t k s) s.number;
    due = update k (due_if (now_number t k s) (t + n)) s.due;
  };
  get_lem = λ t k s. refl;
  incr_reply = λ t k s. bump_lem (now_number t k s);
  stored-incr = number-incr;
  deadline-incr = due-incr;
  incr_ne = λ t k s j h. (update_ne k _ s.number j h, update_ne k _ s.due j h);
  decr_lem = λ t k s n e h. (number-decr t k s n e, refl);
  expire_lem = λ t k n s v e. (update_self k _ s.number ∙ e, due-expire t k s n v e);
  expire_ne = λ t k n s j h. (update_ne k _ s.number j h, update_ne k _ s.due j h);
}

pub record Zsets : Type 0 where
  pub set_of : Text → List Entry
  pub gone_at : Text → Option ℕ

abbrev shown : Zsets → ℕ → Text → List Entry
shown s t k = if expired (s.gone_at k) t then [] else s.set_of k

abbrev unless_empty : List Entry → Option ℕ → Option ℕ
unless_empty xs d = if is_empty xs then none else d

abbrev write : Text → List Entry → Option ℕ → Zsets → Zsets
write k xs d s = record { set_of = update k xs s.set_of; gone_at = update k d s.gone_at }

pub write_ne :
    (k : Text) (xs : List Entry) (d : Option ℕ) (s : Zsets) (j : Text)
    → k ≢ j
    → ((write k xs d s).set_of j ≡ s.set_of j) × ((write k xs d s).gone_at j ≡ s.gone_at j)
write_ne k xs d s j h = (update_ne k xs s.set_of j h, update_ne k d s.gone_at j h)

abbrev pub sorted_sets : SortedSets
sorted_sets = record {
  Store = Zsets;
  entries = λ s. s.set_of;
  deadline = λ s. s.gone_at;
  zremrangebyscore = λ t k lo hi s.
      let rest = select (outside lo hi) (shown s t k) in
      write k rest (unless_empty rest (s.gone_at k)) s;
  zcard = λ t k s. length (shown s t k);
  zadd =
      λ t k e s. write k (add_entry e (shown s t k)) (unless_empty (shown s t k) (s.gone_at k)) s;
  zrange_first = λ t k s. lowest (shown s t k);
  expire = λ t k n s. write k (shown s t k) (unless_empty (shown s t k) (some (t + n))) s;
  visible = shown;
  visible_lem = λ s t k. refl;
  zcard_lem = λ t k s. refl;
  zrange_lem = λ t k s. refl;
  entries-zrem = λ t k lo hi s. update_self k _ s.set_of;
  deadline-zrem = λ t k lo hi s. update_self k _ s.gone_at;
  zrem_ne = λ t k lo hi s j. write_ne k _ _ s j;
  entries-zadd = λ t k e s. update_self k _ s.set_of;
  deadline-zadd = λ t k e s. update_self k _ s.gone_at;
  zadd_ne = λ t k e s j. write_ne k _ _ s j;
  entries-expire = λ t k n s. update_self k _ s.set_of;
  deadline-expire = λ t k n s. update_self k _ s.gone_at;
  expire_ne = λ t k n s j. write_ne k _ _ s j;
}
