-- ===== src/Security/Validation/Identifiers.antt =====
-- Repository identifiers.
use runtime_ops.Base.{
  ap, ◌∙◌, sym, Text, ℕ, ◌≤◌, ◌≡◌, refl, ◌↔◌, ◌⊎◌, inl, inr, Bool, true, false, List, [], ◌∷◌, ◌++◌,
  length, any, all, ◌==◌, split_on, Bool-cases, ==_iff, any-append, arith,
}
use runtime_ops.Security.Validation.{
  valid, is_blank, identifier_char, at_end, is_valid_identifier, check_names, validate_repo_id,
}

-- A name: at least one of the allowed characters, and no other but a line feed at the end.
abbrev pub IsName : Text → Type 0
IsName s =
    (c : ℕ) × (name : Text) × (tail : Text) × (s ≡ (c ∷ name) ++ tail)
    × (all identifier_char (c ∷ name) ≡ true)
    × ((tail ≡ []) ⊎ (tail ≡ 10 ∷ []))

at_end_cases : (s : Text) → at_end s ≡ true → (s ≡ []) ⊎ (s ≡ 10 ∷ [])
at_end_cases [] h = inl refl
at_end_cases (c ∷ []) h = inr (ap (λ d. d ∷ []) (ground arith))
at_end_cases (c ∷ d ∷ s) h = absurd (cc h)

IsName-sound : (s : Text) → is_valid_identifier s ≡ true → IsName s
unfolding is_valid_identifier
IsName-sound [] h = absurd (cc h)
IsName-sound (c ∷ s) h = elim (Bool-cases (at_end s)) [
  | inl e ↦ (c, [], s, refl, ground arith, at_end_cases s e)
  | inr e ↦
      let (d, name, tail, parts, allowed, ends) = IsName-sound s (ground arith) in
      (c, d ∷ name, tail, ap (λ t. c ∷ t) parts, ground (arith, allowed), ends)
]

accepted :
    (c : ℕ) (name tail : Text)
    → all identifier_char (c ∷ name) ≡ true
    → at_end tail ≡ true
    → is_valid_identifier ((c ∷ name) ++ tail) ≡ true
unfolding is_valid_identifier
accepted c [] tail h e = rw e (ground arith)
accepted c (d ∷ name) tail h e = ground (arith, accepted d name tail)

ended : (tail : Text) → ((tail ≡ []) ⊎ (tail ≡ 10 ∷ [])) → at_end tail ≡ true
ended tail (inl e) = rw e refl
ended tail (inr e) = rw e refl

IsName-complete : (s : Text) → IsName s → is_valid_identifier s ≡ true
IsName-complete s (c, name, tail, parts, allowed, ends) =
    rw parts (accepted c name tail allowed (ended tail ends))

no_slash : (s : Text) → is_valid_identifier s ≡ true → any (λ c. c == 47) s ≡ false
unfolding is_valid_identifier
no_slash [] h = refl
no_slash (c ∷ []) h = ground arith
no_slash (c ∷ d ∷ s) h = ground (arith, no_slash (d ∷ s))

split_one : (s : Text) → any (λ c. c == 47) s ≡ false → split_on 47 s ≡ s ∷ []
unfolding split_on
split_one [] h = refl
split_one (c ∷ s) h =
    let e : (c == 47) ≡ false = ground arith in rw (e, split_one s (ground arith)) refl

split_two :
    (owner repo : Text)
    → any (λ c. c == 47) owner ≡ false
    → any (λ c. c == 47) repo ≡ false
    → split_on 47 (owner ++ 47 ∷ repo) ≡ owner ∷ repo ∷ []
unfolding split_on
split_two [] repo h k = rw (split_one repo k) refl
split_two (c ∷ owner) repo h k =
    let e : (c == 47) ≡ false = ground arith in rw (e, split_two owner repo (ground arith) k) refl

-- The parts, with slashes between them.
abbrev joined : List Text → Text
joined [] = []
joined (p ∷ []) = p
joined (p ∷ q ∷ ps) = p ++ 47 ∷ joined (q ∷ ps)

joined-cons : (c : ℕ) (p : Text) (ps : List Text) → joined ((c ∷ p) ∷ ps) ≡ c ∷ joined (p ∷ ps)
joined-cons c p [] = refl
joined-cons c p (q ∷ ps) = refl

joined-split :
    (s : Text) → (p : Text) × (ps : List Text) × (split_on 47 s ≡ p ∷ ps) × (joined (p ∷ ps) ≡ s)
unfolding split_on
joined-split [] = ([], [], refl, refl)
joined-split (c ∷ s) =
    let (p, ps, parts, whole) = joined-split s in
    elim (Bool-cases (c == 47)) [
      | inl e ↦ rw e ([], split_on 47 s, refl, rw parts (cc (whole, (==_iff c 47).0 e)))
      | inr e ↦ rw (e, parts) (c ∷ p, ps, refl, joined-cons c p ps ∙ ap (λ t. c ∷ t) whole)
    ]

check_names_sound :
    (s : Text) (parts : List Text)
    → check_names s parts ≡ valid s
    → (owner : Text) × (repo : Text) × (parts ≡ owner ∷ repo ∷ [])
      × (is_valid_identifier owner ≡ true)
      × (is_valid_identifier repo ≡ true)
unfolding check_names
check_names_sound s [] h = absurd (cc h)
check_names_sound s (a ∷ []) h = absurd (cc h)
check_names_sound s (a ∷ b ∷ []) h = (a, b, refl, ground arith, ground arith)
check_names_sound s (a ∷ b ∷ c ∷ parts) h = absurd (cc h)

-- Two names with a slash between them.
abbrev pub IsPair : Text → Type 0
IsPair s = (owner : Text) × (repo : Text) × (s ≡ owner ++ 47 ∷ repo) × IsName owner × IsName repo

split_pair : (s owner repo : Text) → split_on 47 s ≡ owner ∷ repo ∷ [] → s ≡ owner ++ 47 ∷ repo
split_pair s owner repo e =
    let (p, ps, parts, whole) = joined-split s in sym whole ∙ ap joined (sym parts ∙ e)

IsPair-sound : (s : Text) → check_names s (split_on 47 s) ≡ valid s → IsPair s
IsPair-sound s h =
    let (owner, repo, parts, o, r) = check_names_sound s (split_on 47 s) h in
    (owner, repo, split_pair s owner repo parts, IsName-sound owner o, IsName-sound repo r)

IsPair-complete :
    (s : Text)
    → IsPair s
    → (any (λ c. c == 47) s ≡ true) × (check_names s (split_on 47 s) ≡ valid s)
unfolding check_names
IsPair-complete s (owner, repo, e, o, r) =
    let oo = IsName-complete owner o in
    let rr = IsName-complete repo r in
    let two = split_two owner repo (no_slash owner oo) (no_slash repo rr) in
    (rw e (ground (arith, any-append (λ c. c == 47) owner (47 ∷ repo))), rw (e, two, oo, rr) refl)

-- A repository identifier is accepted, as it is, exactly where it is not blank, has at most 100
-- characters, and is a UUID or two names with a slash between them. A name may end in a line feed.
pub repo_id_iff :
    (is_uuid : Text → Bool) (s : Text)
    → (validate_repo_id is_uuid s ≡ valid s)
      ↔ ((is_blank s ≡ false) × (length s ≤ 100) × ((is_uuid s ≡ true) ⊎ IsPair s))
unfolding validate_repo_id
repo_id_iff is_uuid s = (sound, complete)
  where
    sound :
        validate_repo_id is_uuid s ≡ valid s
        → (is_blank s ≡ false) × (length s ≤ 100) × ((is_uuid s ≡ true) ⊎ IsPair s)
    sound h = elim (Bool-cases (is_uuid s)) [
      | inl u ↦ (ground arith, ground arith, inl u)
      | inr u ↦ (ground arith, ground arith, inr (IsPair-sound s (ground arith)))
    ]

    complete :
        (is_blank s ≡ false) × (length s ≤ 100) × ((is_uuid s ≡ true) ⊎ IsPair s)
        → validate_repo_id is_uuid s ≡ valid s
    complete (b, l, inl u) = rw (b, u) (ground arith)
    complete (b, l, inr p) =
        let (slash, names) = IsPair-complete s p in ground (arith, slash, names)
