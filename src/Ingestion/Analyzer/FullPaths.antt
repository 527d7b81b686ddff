-- ===== src/Ingestion/Analyzer/FullPaths.antt =====
-- What the analysis makes of files whose paths are full.
use runtime_ops.Base.{
  Text, codes, text_eq, text_eq_iff, ◌≡◌, refl, ◌∙◌, ap, Bool, true, false, not, ◌&&◌, ◌||◌, Option,
  none, some, List, [], ◌∷◌, map, any, all, arith, Bool-cases, inl, inr,
}
use runtime_ops.Ingestion.Networkx.{Networkx}
use runtime_ops.Ingestion.Analyzer.{
  ImportStatement, ParseResult, ServiceBoundary, service_of, Dependencies, build_dependency_graph,
}
use runtime_ops.Ingestion.Analyzer.Resolve.{is_full, Pathlib, first_in, resolve_import_to_file}
use runtime_ops.Ingestion.Analyzer.Edges.{leads_to, build-edges}

abbrev pub not_full : Option Text → Bool
not_full none = true
not_full (some target_file) = not (is_full target_file)

unlike_paths :
    (target_file : Text) (results : List ParseResult)
    → is_full target_file ≡ false
    → all (λ r. is_full r.file_path) results ≡ true
    → any (text_eq target_file) (map (λ q. q.file_path) results) ≡ false
unlike_paths target_file [] h k = refl
unlike_paths target_file (r ∷ results) h k =
    ground (arith, text_eq_iff target_file r.file_path, unlike_paths target_file results)

unlisted :
    (file_path : Text) (files : List Text)
    → is_full file_path ≡ true
    → all (λ f. not (is_full f)) files ≡ true
    → any (text_eq file_path) files ≡ false
unlisted file_path [] h k = refl
unlisted file_path (f ∷ files) h k =
    ground (arith, text_eq_iff file_path f, unlisted file_path files)

-- No service is noted anew but "root".
abbrev pub or_root : Option Text → Text
or_root none = codes "root"
or_root (some earlier) = earlier

at_root :
    (boundaries : List ServiceBoundary) (before : Option Text) (file_path : Text)
    → is_full file_path ≡ true
    → all (λ b. all (λ f. not (is_full f)) b.files) boundaries ≡ true
    → service_of boundaries before file_path ≡ or_root before
unfolding service_of
at_root [] none file_path h k = refl
at_root [] (some earlier) file_path h k = refl
at_root (b ∷ boundaries) before file_path h k =
    rw (unlisted file_path b.files h (ground arith))
      (at_root boundaries before file_path h (ground arith))

-- Whether there is a target: neither None nor empty.
abbrev pub is_resolved : Option Text → Bool
is_resolved none = false
is_resolved (some target_file) = not (text_eq target_file [])

leads-full :
    (results : List ParseResult) (module_name : Text) (o : Option Text) (t : Text)
    → not_full o ≡ true
    → all (λ r. is_full r.file_path) results ≡ true
    → leads_to (map (λ q. q.file_path) results) module_name o t
      ≡ (is_resolved o && text_eq module_name t)
leads-full results module_name none t h k = refl
leads-full results module_name (some target_file) t h k =
    rw (unlike_paths target_file results (ground arith) k) refl

any-same : {A : Type 0} (p q : A → Bool) (xs : List A) → ((x : A) → p x ≡ q x) → any p xs ≡ any q xs
any-same p q [] h = refl
any-same p q (x ∷ xs) h = rw (h x, any-same p q xs h) refl

-- No text that is a full path is the name of a module, where none of these is one.
no_full_name :
    (p : ImportStatement → Bool) (imports : List ImportStatement) (t : Text)
    → all (λ i. not (is_full i.module_name)) imports ≡ true
    → is_full t ≡ true
    → any (λ i. p i && text_eq i.module_name t) imports ≡ false
no_full_name p [] t h k = refl
no_full_name p (i ∷ imports) t h k =
    ground (arith, text_eq_iff i.module_name t, no_full_name p imports t)

none_named :
    (p : ImportStatement → ParseResult → Bool) (results : List ParseResult) (s t : Text)
    → all (λ r. all (λ i. not (is_full i.module_name)) r.imports) results ≡ true
    → is_full t ≡ true
    → any
        (λ r. text_eq r.file_path s && any (λ i. p i r && text_eq i.module_name t) r.imports)
        results
      ≡ false
none_named p [] s t h k = refl
none_named p (r ∷ results) s t h k =
    rw
      (
        no_full_name (λ i. p i r) r.imports t (ground arith) k,
        none_named p results s t (ground arith) k,
      )
      (neither (text_eq r.file_path s))
  where
    neither : (b : Bool) → ((b && false) || false) ≡ false
    neither true = refl
    neither false = refl

module _ (pathlib : Pathlib) (repo_path : Text) where
  first-below : (files : List Text) → not_full (first_in pathlib repo_path files) ≡ true
  unfolding first_in
  first-below [] = refl
  first-below (file ∷ files) = elim (Bool-cases (pathlib.exists file)) [
    | inl e ↦ rw e (chosen (first-below files) (pathlib.relative_to file repo_path) refl)
    | inr e ↦ rw e (first-below files)
  ]
    where
      chosen :
          not_full (first_in pathlib repo_path files) ≡ true
          → (o : Option Text) → pathlib.relative_to file repo_path ≡ o
          → not_full
              (elim o [ none ↦ first_in pathlib repo_path files | some relative ↦ some relative ])
            ≡ true
      chosen k none e = k
      chosen k (some relative) e = rw (pathlib.relative_to_lem file repo_path relative e) refl

  resolved-below :
      (i : ImportStatement) (r : ParseResult)
      → not_full (resolve_import_to_file pathlib repo_path i r) ≡ true
  unfolding resolve_import_to_file
  resolved-below i r = elim (Bool-cases i.is_relative) [
    | inl e ↦ rw e (first-below _)
    | inr e ↦ rw e refl
  ]

module _ (nx : Networkx) (pathlib : Pathlib) (repo_path : Text) where
  -- Where the parsed files have full paths, no imported name is one, and the services list none: an edge
  -- that the analysis adds leads from a file to the name of a module that it imports and that resolves
  -- to a file, so none is added to a full path, and no two files are joined; and no full path gets a
  -- service: it keeps the one that it had, or is in "root".
  pub full_paths_unlinked :
      (parse_results : List ParseResult) (boundaries : List ServiceBoundary)
      (d : Dependencies nx (resolve_import_to_file pathlib repo_path))
      → all (λ r. is_full r.file_path) parse_results ≡ true
      → all (λ r. all (λ i. not (is_full i.module_name)) r.imports) parse_results ≡ true
      → all (λ b. all (λ f. not (is_full f)) b.files) boundaries ≡ true
      → (s t : Text)
      → let resolve = resolve_import_to_file pathlib repo_path in
        let after = build_dependency_graph nx resolve parse_results d in
        (nx.has_edge after.dependency_graph s t ≡ (
          any
            (λ r.
              text_eq r.file_path s
              && any (λ i. is_resolved (resolve i r) && text_eq i.module_name t) r.imports)
            parse_results
          || nx.has_edge d.dependency_graph s t))
        × (is_full t ≡ true
            → (nx.has_edge after.dependency_graph s t ≡ nx.has_edge d.dependency_graph s t)
              × ((before : Option Text) → service_of boundaries before t ≡ or_root before))
  full_paths_unlinked parse_results boundaries d full names services s t = (
    edges,
    λ h. (
      edges
          ∙ rw
              (none_named (λ i r. is_resolved (resolve_import_to_file pathlib repo_path i r))
                parse_results s t names h)
              refl,
      λ before. at_root boundaries before t h services,
    ),
  )
    where
      edges :
          nx.has_edge
            (build_dependency_graph nx
              (resolve_import_to_file pathlib repo_path)
              parse_results
              d).dependency_graph
            s
            t
          ≡ (any
                (λ r.
                  text_eq r.file_path s
                  && any
                      (λ i.
                        is_resolved (resolve_import_to_file pathlib repo_path i r)
                        && text_eq i.module_name t)
                      r.imports)
                parse_results
              || nx.has_edge d.dependency_graph s t)
      edges =
          build-edges nx (resolve_import_to_file pathlib repo_path) parse_results d s t
          ∙ ap (λ b. b || nx.has_edge d.dependency_graph s t)
              (any-same _ _ parse_results (λ r.
                ap (λ b. text_eq r.file_path s && b)
                  (any-same _ _ r.imports (λ i.
                    leads-full parse_results i.module_name
                      (resolve_import_to_file pathlib repo_path i r) t
                      (resolved-below pathlib repo_path i r) full))))
