-- ===== src/Ingestion/Analyzer/Edges.antt =====
-- The edges of the graph that `_build_dependency_graph` builds.
use runtime_ops.Base.{
  Text, text_eq, ◌≡◌, refl, ◌∙◌, inl, inr, Bool, false, not, ◌&&◌, ◌||◌, Option, none, some, List,
  [], ◌∷◌, map, any, if◌then◌else◌, Bool-cases, arith,
}
use runtime_ops.Ingestion.Networkx.{Networkx}
use runtime_ops.Ingestion.Analyzer.{
  ImportStatement, ParseResult, Dependencies, add_target, add_resolved, add_imports, add_results,
  add_files, build_dependency_graph,
}

-- Whether an import with this target leads to this node: to the target, where it is a path of the
-- results, and to the name of the module elsewhere.
abbrev pub leads_to : List Text → Text → Option Text → Text → Bool
leads_to paths module_name none t = false
leads_to paths module_name (some target_file) t =
    not (text_eq target_file [])
    && (if any (text_eq target_file) paths then text_eq target_file t else text_eq module_name t)

module _ (nx : Networkx)
    (resolve_import_to_file : ImportStatement → ParseResult → Option Text) where
  -- The node is added where it is not there, which makes no edge.
  edge-noded :
      (g : nx.Graph) (m s t : Text)
      → nx.has_edge (if nx.has_node g m then g else nx.add_node m g) s t ≡ nx.has_edge g s t
  edge-noded g m s t = elim (Bool-cases (nx.has_node g m)) [
    | inl e ↦ rw e refl
    | inr e ↦ rw e (nx.has_edge-add_node g m s t)
  ]

  edge-target :
      (paths : List Text) (source_file module_name target_file : Text)
      (d : Dependencies nx resolve_import_to_file) (s t : Text)
      → nx.has_edge
          (add_target nx resolve_import_to_file paths source_file module_name target_file
            d).dependency_graph
          s
          t
        ≡ (text_eq source_file s
              && (if any (text_eq target_file) paths
                  then text_eq target_file t
                  else text_eq module_name t)
            || nx.has_edge d.dependency_graph s t)
  unfolding add_target
  edge-target paths source_file module_name target_file d s t =
      elim (Bool-cases (any (text_eq target_file) paths)) [
        | inl e ↦ rw e (nx.has_edge-add_edge d.dependency_graph source_file target_file s t)
        | inr e ↦
            rw
              (
                e,
                nx.has_edge-add_edge
                    (if nx.has_node d.dependency_graph module_name
                      then d.dependency_graph
                      else nx.add_node module_name d.dependency_graph)
                    source_file module_name s t,
                edge-noded d.dependency_graph module_name s t,
              )
              refl
      ]

  edge-resolved :
      (paths : List Text) (r : ParseResult) (module_name : Text) (o : Option Text)
      (d : Dependencies nx resolve_import_to_file) (s t : Text)
      → nx.has_edge
          (add_resolved nx resolve_import_to_file paths r.file_path module_name o
            d).dependency_graph
          s
          t
        ≡ (text_eq r.file_path s && leads_to paths module_name o t
            || nx.has_edge d.dependency_graph s t)
  unfolding add_resolved
  edge-resolved paths r module_name none d s t = ground arith
  edge-resolved paths r module_name (some target_file) d s t =
      elim (Bool-cases (text_eq target_file [])) [
        | inl e ↦ rw e (ground arith)
        | inr e ↦ rw e (edge-target paths r.file_path module_name target_file d s t)
      ]

  edge-imports :
      (paths : List Text) (r : ParseResult) (imports : List ImportStatement)
      (d : Dependencies nx resolve_import_to_file) (s t : Text)
      → nx.has_edge (add_imports nx resolve_import_to_file paths r imports d).dependency_graph s t
        ≡ (text_eq r.file_path s
              && any (λ i. leads_to paths i.module_name (resolve_import_to_file i r) t) imports
            || nx.has_edge d.dependency_graph s t)
  unfolding add_imports
  edge-imports paths r [] d s t = ground arith
  edge-imports paths r (i ∷ imports) d s t = ground (
    arith,
    edge-imports paths r imports
        (add_resolved nx resolve_import_to_file paths r.file_path i.module_name
          (resolve_import_to_file i r) d)
        s t,
    edge-resolved paths r i.module_name (resolve_import_to_file i r) d s t,
  )

  edge-results :
      (paths : List Text) (results : List ParseResult) (d : Dependencies nx resolve_import_to_file)
      (s t : Text)
      → nx.has_edge (add_results nx resolve_import_to_file paths results d).dependency_graph s t ≡ (
          any
            (λ r.
              text_eq r.file_path s
              && any (λ i. leads_to paths i.module_name (resolve_import_to_file i r) t) r.imports)
            results
          || nx.has_edge d.dependency_graph s t)
  unfolding add_results
  edge-results paths [] d s t = refl
  edge-results paths (r ∷ results) d s t = ground (
    arith,
    edge-results paths results (add_imports nx resolve_import_to_file paths r r.imports d) s t,
    edge-imports paths r r.imports d s t,
  )

  edge-files :
      (results : List ParseResult) (g : nx.Graph) (s t : Text)
      → nx.has_edge (add_files nx resolve_import_to_file results g) s t ≡ nx.has_edge g s t
  unfolding add_files
  edge-files [] g s t = refl
  edge-files (r ∷ results) g s t =
      edge-files results (nx.add_node r.file_path g) s t ∙ nx.has_edge-add_node g r.file_path s t

  -- An edge that the analysis adds leads from a file to what it imports: to the file that an import of
  -- it resolves to, where that is the path of a parsed file, and to a node with the name of the module
  -- otherwise. No other edge is added, and the edges of earlier analyses stay.
  pub build-edges :
      (parse_results : List ParseResult) (d : Dependencies nx resolve_import_to_file) (s t : Text)
      → nx.has_edge
          (build_dependency_graph nx resolve_import_to_file parse_results d).dependency_graph
          s
          t
        ≡ (any
              (λ r.
                text_eq r.file_path s
                && any
                    (λ i.
                      leads_to
                        (map (λ q. q.file_path) parse_results)
                        i.module_name
                        (resolve_import_to_file i r)
                        t)
                    r.imports)
              parse_results
            || nx.has_edge d.dependency_graph s t)
  unfolding build_dependency_graph
  build-edges parse_results d s t =
      edge-results (map (λ q. q.file_path) parse_results) parse_results
        (record d {
          dependency_graph = add_files nx resolve_import_to_file parse_results d.dependency_graph;
        })
        s t
      ∙ rw (edge-files parse_results d.dependency_graph s t) refl
