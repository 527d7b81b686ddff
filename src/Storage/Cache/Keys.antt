-- ===== src/Storage/Cache/Keys.antt =====
-- Keys of different namespaces are different, where no namespace has a colon in it.
use runtime_ops.Base.{
  Text, codes, text_eq, starts_with, ◌==◌, ◌≡◌, refl, Bool, true, not, ◌&&◌, [], ◌∷◌, ◌++◌, all,
  arith,
}
use runtime_ops.Redis.Strings.{is_plain, anything_after}
use runtime_ops.Storage.Cache.{make_key}

abbrev pub has_no_colon : Text → Bool
has_no_colon s = all (λ c. not (c == 58)) s

parts_eq :
    (m n k j : Text)
    → has_no_colon m ≡ true
    → has_no_colon n ≡ true
    → text_eq (m ++ 58 ∷ k) (n ++ 58 ∷ j) ≡ (text_eq m n && text_eq k j)
unfolding text_eq
parts_eq [] [] k j h i = refl
parts_eq [] (d ∷ n) k j h i = ground arith
parts_eq (c ∷ m) [] k j h i = ground arith
parts_eq (c ∷ m) (d ∷ n) k j h i = ground (arith, parts_eq m n k j)

pub keys_eq :
    (m n k j : Text)
    → has_no_colon m ≡ true
    → has_no_colon n ≡ true
    → text_eq (make_key m k) (make_key n j) ≡ (text_eq m n && text_eq k j)
unfolding text_eq
keys_eq m n k j h i = parts_eq m n k j h i

-- What the keys of a namespace begin with.
abbrev pub beginning_of : Text → Text
beginning_of namespace = codes "bob:" ++ namespace ++ 58 ∷ []

begins :
    (m n j : Text)
    → has_no_colon m ≡ true
    → has_no_colon n ≡ true
    → starts_with (m ++ 58 ∷ []) (n ++ 58 ∷ j) ≡ text_eq m n
unfolding text_eq starts_with
begins [] [] j h i = refl
begins [] (d ∷ n) j h i = ground arith
begins (c ∷ m) [] j h i = ground arith
begins (c ∷ m) (d ∷ n) j h i = ground (arith, begins m n j)

pub key_begins :
    (m n j : Text)
    → has_no_colon m ≡ true
    → has_no_colon n ≡ true
    → starts_with (beginning_of m) (make_key n j) ≡ text_eq m n
unfolding starts_with
key_begins m n j h i = begins m n j h i

tail : (m : Text) → m ++ 58 ∷ 42 ∷ [] ≡ (m ++ 58 ∷ []) ++ 42 ∷ []
tail [] = refl
tail (c ∷ m) = rw (tail m) refl

pub pattern_lem :
    (namespace : Text) → make_key namespace (codes "*") ≡ anything_after (beginning_of namespace)
pattern_lem namespace = rw (tail namespace) refl

plain_end : (m : Text) → is_plain m ≡ true → is_plain (m ++ 58 ∷ []) ≡ true
plain_end [] h = refl
plain_end (c ∷ m) h = ground (arith, plain_end m)

pub beginning-plain :
    (namespace : Text) → is_plain namespace ≡ true → is_plain (beginning_of namespace) ≡ true
beginning-plain namespace h = plain_end namespace h
