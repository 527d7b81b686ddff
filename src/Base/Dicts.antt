-- ===== src/Base/Dicts.antt =====
-- Python's dictionaries with text keys: pairs in the order in which the keys were first set.

use mathlib.Core.Path.{◌≡◌, refl}
use mathlib.Core.Logic.{inl, inr}
use mathlib.Core.Bool.{Bool, true, false, ◌&&◌}
use mathlib.Core.Option.{Option, none, some}
use mathlib.Core.List.{List, [], ◌∷◌}
use native.Mathlib.Omega.{arith}
use runtime_ops.Base.Tests.{Bool-cases, if◌then◌else◌}
use runtime_ops.Base.Strings.{Text, text_eq, text_eq_iff}

module _ {ℓ} {A : Type ℓ} where
  -- `d.get(key)`
  unfoldable pub get_key : Text → List (Text × A) → Option A
  get_key key [] = none
  get_key key ((k, v) ∷ rest) =
      let found = get_key key rest in if text_eq k key then some v else found

  -- `d[key] = value`
  unfoldable pub set_key : Text → A → List (Text × A) → List (Text × A)
  set_key key value [] = (key, value) ∷ []
  set_key key value ((k, v) ∷ rest) =
      let after = set_key key value rest in
      if text_eq k key then (k, value) ∷ rest else (k, v) ∷ after

  -- `del d[key]`, where the key is there.
  unfoldable pub del_key : Text → List (Text × A) → List (Text × A)
  del_key key [] = []
  del_key key ((k, v) ∷ rest) =
      let after = del_key key rest in if text_eq k key then after else (k, v) ∷ after

  pub get_key-set_key :
      (key other : Text) (value : A) (d : List (Text × A))
      → get_key other (set_key key value d)
        ≡ (if text_eq key other then some value else get_key other d)
  unfolding get_key set_key
  get_key-set_key key other value [] = refl
  get_key-set_key key other value ((k, v) ∷ rest) = elim (Bool-cases (text_eq k key)) [
    | inl e ↦ rw (e, (text_eq_iff k key).0 e) (hidden (text_eq key other))
    | inr e ↦
        rw (e, get_key-set_key key other value rest)
          (below (text_eq k other) (text_eq key other) (apart e))
  ]
    where
      hidden :
          (b : Bool)
          → (if b then some value else get_key other rest)
            ≡ (if b then some value else (if b then some v else get_key other rest))
      hidden true = refl
      hidden false = refl

      apart : text_eq k key ≡ false → (text_eq k other && text_eq key other) ≡ false
      apart e = ground (arith, text_eq_iff k other, text_eq_iff key other, text_eq_iff k key)

      below :
          (a b : Bool)
          → (a && b) ≡ false
          → (if a then some v else (if b then some value else get_key other rest))
            ≡ (if b then some value else (if a then some v else get_key other rest))
      below true true h = absurd (cc h)
      below true false h = refl
      below false b h = refl
