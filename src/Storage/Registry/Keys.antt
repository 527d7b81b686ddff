-- ===== src/Storage/Registry/Keys.antt =====
-- Lists whose elements have different keys.
use runtime_ops.Base.{
  Text, text_eq, text_eq_sym, ◌≡◌, refl, Bool, true, false, not, ◌&&◌, ◌||◌, List, [], ◌∷◌, ◌++◌,
  map, select, any, all, arith,
}

module _ {A : Type 0} where
  pub all_implied :
      (p q : A → Bool) (xs : List A)
      → ((x : A) → p x ≡ true → q x ≡ true)
      → all p xs ≡ true
      → all q xs ≡ true
  all_implied p q [] h k = refl
  all_implied p q (x ∷ xs) h k = ground (arith, h x, all_implied p q xs h)

  pub all_selected :
      (p q r : A → Bool) (xs : List A)
      → ((x : A) → p x ≡ true → q x ≡ true → r x ≡ true)
      → all q xs ≡ true
      → all r (select p xs) ≡ true
  all_selected p q r [] h k = refl
  all_selected p q r (x ∷ xs) h k = ground (arith, h x, all_selected p q r xs h)

  pub all-append_one :
      (p : A → Bool) (xs : List A) (x : A)
      → all p xs ≡ true
      → p x ≡ true
      → all p (xs ++ x ∷ []) ≡ true
  all-append_one p [] x h k = ground arith
  all-append_one p (y ∷ xs) x h k = ground (arith, all-append_one p xs x)

  pub any-or : (p q : A → Bool) (xs : List A) → any (λ x. p x || q x) xs ≡ (any p xs || any q xs)
  any-or p q [] = refl
  any-or p q (x ∷ xs) = ground (arith, any-or p q xs)

module _ {A : Type 0} (key : A → Text) where
  abbrev pub distinct : List A → Bool
  distinct [] = true
  distinct (x ∷ xs) = not (any (λ y. text_eq (key y) (key x)) xs) && distinct xs

  any-append_one :
      (k : Text) (xs : List A) (x : A)
      → any (λ y. text_eq (key y) k) (xs ++ x ∷ [])
        ≡ (any (λ y. text_eq (key y) k) xs || text_eq (key x) k)
  any-append_one k [] x = ground arith
  any-append_one k (y ∷ xs) x = ground (arith, any-append_one k xs x)

  pub distinct-append :
      (xs : List A) (x : A)
      → distinct xs ≡ true
      → any (λ y. text_eq (key y) (key x)) xs ≡ false
      → distinct (xs ++ x ∷ []) ≡ true
  distinct-append [] x h k = refl
  distinct-append (y ∷ xs) x h k =
      ground (arith, any-append_one (key y) xs x, text_eq_sym (key x) (key y), distinct-append xs x)

  pub any-key_map :
      (f : A → A)
      → ((x : A) → key (f x) ≡ key x)
      → (k : Text) (xs : List A)
      → any (λ y. text_eq (key y) k) (map f xs) ≡ any (λ y. text_eq (key y) k) xs
  any-key_map f same k [] = refl
  any-key_map f same k (x ∷ xs) = rw (same x, any-key_map f same k xs) refl

  -- A change that keeps the keys keeps them different.
  pub distinct-map :
      (f : A → A)
      → ((x : A) → key (f x) ≡ key x)
      → (xs : List A) → distinct (map f xs) ≡ distinct xs
  distinct-map f same [] = refl
  distinct-map f same (x ∷ xs) =
      rw (same x, any-key_map f same (key x) xs, distinct-map f same xs) refl

  any-key_select :
      (p : A → Bool) (k : Text) (xs : List A)
      → any (λ y. text_eq (key y) k) xs ≡ false
      → any (λ y. text_eq (key y) k) (select p xs) ≡ false
  any-key_select p k [] h = refl
  any-key_select p k (x ∷ xs) h = ground (arith, any-key_select p k xs)

  pub distinct-select :
      (p : A → Bool) (xs : List A) → distinct xs ≡ true → distinct (select p xs) ≡ true
  distinct-select p [] h = refl
  distinct-select p (x ∷ xs) h = ground (arith, distinct-select p xs, any-key_select p (key x) xs)

  pub all-key_map :
      (f : A → A)
      → ((x : A) → key (f x) ≡ key x)
      → (p : Text → Bool) (xs : List A) → all (λ x. p (key x)) (map f xs) ≡ all (λ x. p (key x)) xs
  all-key_map f same p [] = refl
  all-key_map f same p (x ∷ xs) = rw (same x, all-key_map f same p xs) refl
