-- ===== src/Ingestion/Analyzer/BlastRadius.antt =====
-- Which files `compute_blast_radius` returns.
use runtime_ops.Base.{
  Text, text_eq, text_eq_iff, text_ne, text_eq_refl, ℕ, ◌≤◌, ◌≡◌, ◌↔◌, ◌⊎◌, refl, ◌∙◌, inl, inr,
  Bool, true, false, ◌&&◌, ◌||◌, List, [], ◌∷◌, ◌++◌, select, any, any-append, leb→le, le→leb,
  if◌then◌else◌, Bool-cases, Option-cases, arith,
}
use runtime_ops.Ingestion.Networkx.{Networkx, Walk, Paths}
use runtime_ops.Ingestion.Analyzer.{is_near, near_descendants, reached_from, compute_blast_radius}

any-selected :
    (x : Text) (p : Text → Bool) (xs : List Text)
    → any (text_eq x) (select p xs) ≡ (any (text_eq x) xs && p x)
any-selected x p [] = refl
any-selected x p (y ∷ xs) = elim (Bool-cases (text_eq x y)) [
  | inl e ↦ rw⁻¹ ((text_eq_iff x y).0 e) (ground (arith, any-selected x p xs, text_eq_refl x))
  | inr e ↦ ground (arith, any-selected x p xs)
]

module _ (nx : Networkx) (g : nx.Graph) (paths : Paths nx g) where
  -- A file that a changed file of the graph leads to by at most so many imports.
  abbrev pub Reached : List Text → ℕ → Text → Type 0
  Reached changed_files max_hops x =
      (f : Text) × (any (text_eq f) changed_files ≡ true)
      × (nx.has_node g f ≡ true)
      × ((n : ℕ) × (n ≤ max_hops) × Walk (nx.has_edge g) f n x)

  near-Walk :
      (f x : Text) (max_hops : ℕ)
      → nx.has_node g f ≡ true
      → any (text_eq x) (near_descendants nx g max_hops f) ≡ true
      → (n : ℕ) × (n ≤ max_hops) × Walk (nx.has_edge g) f n x
  unfolding near_descendants is_near
  near-Walk f x max_hops k h = elim (Option-cases (nx.shortest_path_length g f x)) [
    | inl e ↦ absurd (cc (rw e at near))
    | inr (n, e) ↦ (n, leb→le n max_hops (rw e at near), paths.path_exists f x n e)
  ]
    where
      near : is_near nx max_hops (nx.shortest_path_length g f x) ≡ true
      near = ground (
        arith,
        any-selected x (λ d. is_near nx max_hops (nx.shortest_path_length g f d))
            (nx.descendants g f),
      )

  Walk-near :
      (f x : Text) (max_hops n : ℕ)
      → nx.has_node g f ≡ true
      → text_eq x f ≡ false
      → n ≤ max_hops
      → Walk (nx.has_edge g) f n x
      → any (text_eq x) (near_descendants nx g max_hops f) ≡ true
  unfolding near_descendants is_near
  Walk-near f x max_hops n k ne le w =
      let (m, e, short) = paths.path_shortest f x n w in
      any-selected x (λ d. is_near nx max_hops (nx.shortest_path_length g f d)) (nx.descendants g f)
      ∙ rw ((paths.descendants_iff f x k).1 (text_ne x f ne, (n, w)), e)
          (le→leb m max_hops (omega arith))

  -- One more changed file.
  more :
      (c : Text) (changed_files : List Text) (max_hops : ℕ) (x : Text)
      → Reached changed_files max_hops x
      → Reached (c ∷ changed_files) max_hops x
  more c changed_files max_hops x (f, m, k, w) = (f, ground arith, k, w)

  Reached-sound :
      (changed_files : List Text) (max_hops : ℕ) (x : Text)
      → any (text_eq x) (reached_from nx g changed_files max_hops) ≡ true
      → Reached changed_files max_hops x
  unfolding reached_from
  Reached-sound [] max_hops x h = absurd (cc h)
  Reached-sound (c ∷ changed_files) max_hops x h = elim (Bool-cases (nx.has_node g c)) [
    | inr e ↦ more c changed_files max_hops x (Reached-sound changed_files max_hops x (rw e at h))
    | inl e ↦ elim (Bool-cases (any (text_eq x) (near_descendants nx g max_hops c))) [
      | inl near ↦ (c, ground (arith, text_eq_refl c), e, near-Walk c x max_hops e near)
      | inr far ↦ more c changed_files max_hops x (
          Reached-sound changed_files max_hops x (
            rw far at (
              rw
                (any-append (text_eq x) (near_descendants nx g max_hops c)
                  (reached_from nx g changed_files max_hops))
                at (rw e at h))))
    ]
  ]

  Reached-complete :
      (changed_files : List Text) (max_hops : ℕ) (x : Text)
      → any (text_eq x) changed_files ≡ false
      → Reached changed_files max_hops x
      → any (text_eq x) (reached_from nx g changed_files max_hops) ≡ true
  unfolding reached_from
  Reached-complete [] max_hops x h (f, m, k, (n, le, w)) = absurd (cc m)
  Reached-complete (c ∷ changed_files) max_hops x h (f, m, k, (n, le, w)) =
      elim (Bool-cases (text_eq f c)) [
        | inl e ↦ near_first ((text_eq_iff f c).0 e)
        | inr e ↦ elim (Bool-cases (nx.has_node g c)) [
          | inl i ↦
              rw
                (
                  i,
                  any-append (text_eq x) (near_descendants nx g max_hops c)
                      (reached_from nx g changed_files max_hops),
                  Reached-complete changed_files max_hops x (ground arith)
                      (f, ground arith, k, (n, le, w)),
                )
                (or_true _)
          | inr i ↦ rw i (
              Reached-complete changed_files max_hops x (ground arith)
                (f, ground arith, k, (n, le, w)))
        ]
      ]
    where
      or_true : (b : Bool) → (b || true) ≡ true
      or_true true = refl
      or_true false = refl

      near_first :
          f ≡ c
          → any (text_eq x) (
              if nx.has_node g c
              then near_descendants nx g max_hops c ++ reached_from nx g changed_files max_hops
              else reached_from nx g changed_files max_hops)
            ≡ true
      near_first same = rw⁻¹ same (
          rw
            (
              k,
              any-append (text_eq x) (near_descendants nx g max_hops f)
                  (reached_from nx g changed_files max_hops),
              Walk-near f x max_hops n k (rw same unlike) le w,
            )
            refl)
        where
          unlike : text_eq x c ≡ false
          unlike = ground arith

  -- The files that `compute_blast_radius` returns are the changed ones and those that a changed file of
  -- the graph leads to by at most so many edges.
  pub blast_radius_iff :
      (changed_files : List Text) (max_hops : ℕ) (x : Text)
      → (any (text_eq x) (compute_blast_radius nx g changed_files max_hops) ≡ true)
        ↔ ((any (text_eq x) changed_files ≡ true) ⊎ Reached changed_files max_hops x)
  unfolding compute_blast_radius
  blast_radius_iff changed_files max_hops x = (sound, complete)
    where
      sound :
          any (text_eq x) (changed_files ++ reached_from nx g changed_files max_hops) ≡ true
          → (any (text_eq x) changed_files ≡ true) ⊎ Reached changed_files max_hops x
      sound h = elim (Bool-cases (any (text_eq x) changed_files)) [
        | inl e ↦ inl e
        | inr e ↦ inr (
            Reached-sound changed_files max_hops x (
              rw e at (
                rw (any-append (text_eq x) changed_files (reached_from nx g changed_files max_hops))
                  at h)))
      ]

      complete :
          (any (text_eq x) changed_files ≡ true) ⊎ Reached changed_files max_hops x
          → any (text_eq x) (changed_files ++ reached_from nx g changed_files max_hops) ≡ true
      complete (inl e) =
          rw (any-append (text_eq x) changed_files (reached_from nx g changed_files max_hops), e)
            refl
      complete (inr r) = elim (Bool-cases (any (text_eq x) changed_files)) [
        | inl e ↦
            rw (any-append (text_eq x) changed_files (reached_from nx g changed_files max_hops), e)
              refl
        | inr e ↦
            rw (any-append (text_eq x) changed_files (reached_from nx g changed_files max_hops), e)
              (Reached-complete changed_files max_hops x e r)
      ]
