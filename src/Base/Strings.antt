-- ===== src/Base/Strings.antt =====
-- Python's `str` as a list of code points, with the string methods that the program uses.
use Prim.Native.Char.{code}
use Prim.Native.Nat.{ℕ, zero, suc, ◌+◌, ◌/◌, ◌%◌}
use Prim.Native.String.{String}
use mathlib.Core.Path.{◌≡◌, refl, ap, sym, ◌∙◌}
use mathlib.Core.Logic.{◌≢◌, ◌↔◌, inl, inr}
use mathlib.Core.Bool.{Bool, true, false, ◌&&◌, ◌||◌}
use mathlib.Core.List.{List, [], ◌∷◌, ◌++◌, map, reverse, reverse_aux}
use native.Mathlib.Omega.{arith}
use runtime_ops.Base.Tests.{Bool-cases, ltb, leb, ◌==◌, if◌then◌else◌}

abbrev pub Text : Type 0
Text = List ℕ

-- The code points of a literal.
abbrev pub codes : String → Text
codes String.[] = []
codes (String.◌∷◌ c s) = code c ∷ codes s

unfoldable pub text_eq : Text → Text → Bool
text_eq [] [] = true
text_eq (x ∷ xs) (y ∷ ys) = x == y && text_eq xs ys
text_eq _ _ = false

text_eq_sound : (s t : Text) → text_eq s t ≡ true → s ≡ t
unfolding text_eq
text_eq_sound [] [] h = refl
text_eq_sound [] (y ∷ ys) h = ground arith
text_eq_sound (x ∷ xs) [] h = ground arith
text_eq_sound (x ∷ xs) (y ∷ ys) h = ground (arith, text_eq_sound xs ys)

pub text_eq_refl : (s : Text) → text_eq s s ≡ true
unfolding text_eq
text_eq_refl [] = refl
text_eq_refl (x ∷ xs) = ground (arith, text_eq_refl xs)

complete : (s t : Text) → s ≡ t → text_eq s t ≡ true
complete s t e = rw e (text_eq_refl t)

pub text_eq_iff : (s t : Text) → (text_eq s t ≡ true) ↔ (s ≡ t)
text_eq_iff s t = (text_eq_sound s t, complete s t)

pub text_ne : (s t : Text) → text_eq s t ≡ false → s ≢ t
unfolding text_eq
text_ne s t h e = cc (complete s t e)

-- `str(n)`: the digits of a number, `f` rounds at most; `n + 1` rounds are enough.
digits : ℕ → ℕ → Text → Text
digits zero n acc = acc
digits (suc f) n acc =
    let more = digits f (n / 10) ((48 + n % 10) ∷ acc) in if ltb n 10 then (48 + n) ∷ acc else more

unfoldable pub str : ℕ → Text
unfolding digits
str n = digits (suc n) n []

-- `str.isspace` of one character.
abbrev pub is_space : ℕ → Bool
is_space c =
    leb 9 c && leb c 13
    || leb 28 c && leb c 32
    || c == 133
    || c == 160
    || c == 5760
    || leb 8192 c && leb c 8202
    || c == 8232
    || c == 8233
    || c == 8239
    || c == 8287
    || c == 12288

-- `s.lower()` on ASCII letters; other characters stay.
abbrev pub lower : Text → Text
lower = map (λ c. if leb 65 c && leb c 90 then c + 32 else c)

-- `s.split()`: the words between runs of white space. `word` is the word so far.
words_from : Text → Text → List Text
words_from word [] = if text_eq word [] then [] else word ∷ []
words_from word (c ∷ s) =
    let rest = words_from [] s in
    let longer = words_from (word ++ c ∷ []) s in
    if is_space c then (if text_eq word [] then rest else word ∷ rest) else longer

unfoldable pub split : Text → List Text
unfolding words_from text_eq
split = words_from []

-- `s.split(sep)` on one character: always at least one part.
unfoldable pub split_on : ℕ → Text → List Text
split_on sep [] = [] ∷ []
split_on sep (c ∷ s) =
    let parts = split_on sep s in
    if c == sep then [] ∷ parts else elim parts [ [] ↦ (c ∷ []) ∷ [] | p ∷ ps ↦ (c ∷ p) ∷ ps ]

unfoldable pub starts_with : Text → Text → Bool
starts_with [] s = true
starts_with (c ∷ p) [] = false
starts_with (c ∷ p) (d ∷ s) = c == d && starts_with p s

-- `p in s`.
unfoldable pub contains : Text → Text → Bool
unfolding starts_with
contains p [] = starts_with p []
contains p (c ∷ s) = starts_with p (c ∷ s) || contains p s

-- `s.lstrip()` and `s.strip()`.
abbrev pub lstrip : Text → Text
lstrip [] = []
lstrip (c ∷ s) = let rest = lstrip s in if is_space c then rest else c ∷ s

unfoldable pub strip : Text → Text
strip s = reverse (lstrip (reverse (lstrip s)))

pub text_eq_sym : (s t : Text) → text_eq s t ≡ text_eq t s
unfolding text_eq
text_eq_sym [] [] = refl
text_eq_sym [] (y ∷ t) = refl
text_eq_sym (x ∷ s) [] = refl
text_eq_sym (x ∷ s) (y ∷ t) = ground (arith, text_eq_sym s t)

starts_with-append : (p s t : Text) → starts_with p s ≡ true → starts_with p (s ++ t) ≡ true
unfolding starts_with
starts_with-append [] s t h = refl
starts_with-append (c ∷ p) [] t h = absurd (cc h)
starts_with-append (c ∷ p) (d ∷ s) t h = ground (arith, starts_with-append p s t)

starts_with-contains : (p s : Text) → starts_with p s ≡ true → contains p s ≡ true
unfolding contains
starts_with-contains p [] h = h
starts_with-contains p (c ∷ s) h = ground arith

-- What a text contains, a longer text contains.
pub contains-append : (p s t : Text) → contains p s ≡ true → contains p (s ++ t) ≡ true
unfolding contains
contains-append p [] t h = starts_with-contains p t (starts_with-append p [] t h)
contains-append p (c ∷ s) t h =
    ground (arith, contains-append p s t, starts_with-append p (c ∷ s) t)

lstrip_head : (s u : Text) (c : ℕ) → lstrip s ≡ c ∷ u → is_space c ≡ false
lstrip_head [] u c h = absurd (cc h)
lstrip_head (d ∷ s) u c h = elim (Bool-cases (is_space d)) [
  | inl e ↦ lstrip_head s u c (rw e at h)
  | inr e ↦ same e (rw e at h)
]
  where
    same : is_space d ≡ false → d ∷ s ≡ c ∷ u → is_space c ≡ false
    same e k = rw⁻¹ (first k) e
      where
        first : d ∷ s ≡ c ∷ u → d ≡ c
        first k = cc k

last_of : ℕ → Text → ℕ
last_of z [] = z
last_of z (c ∷ s) = last_of c s

last-append : (z : ℕ) (u : Text) (c : ℕ) → last_of z (u ++ c ∷ []) ≡ c
unfolding last_of
last-append z [] c = refl
last-append z (d ∷ u) c = last-append d u c

last-reverse : (z : ℕ) (s a : Text) (c : ℕ) → last_of z (reverse_aux s (a ++ c ∷ [])) ≡ c
last-reverse z [] a c = last-append z a c
last-reverse z (d ∷ s) a c = last-reverse z s (d ∷ a) c

not_nil : (u : Text) (c : ℕ) → [] ≢ u ++ c ∷ []
not_nil [] c h = cc h
not_nil (d ∷ u) c h = cc h

reversed_end :
    (m u : Text) (c : ℕ)
    → ((d : ℕ) (v : Text) → m ≡ d ∷ v → is_space d ≡ false)
    → reverse m ≡ u ++ c ∷ []
    → is_space c ≡ false
reversed_end [] u c head h = absurd (not_nil u c h)
reversed_end (d ∷ m) u c head h = rw⁻¹ same (head d m refl)
  where
    same : d ≡ c
    same = sym (last-reverse 0 m [] d) ∙ (ap (last_of 0) h ∙ last-append 0 u c)

-- A stripped text does not end in white space.
pub strip_end : (s u : Text) (c : ℕ) → strip s ≡ u ++ c ∷ [] → is_space c ≡ false
unfolding strip
strip_end s u c h =
    reversed_end (lstrip (reverse (lstrip s))) u c (λ d v e. lstrip_head (reverse (lstrip s)) v d e)
      h
