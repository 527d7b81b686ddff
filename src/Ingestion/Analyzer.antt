-- ===== src/Ingestion/Analyzer.antt =====
-- `StructuralAnalyzer` of src/bob/ingestion/analyzer.py: the graph of files and imports, the service of
-- a file, and the files that a change reaches. The graph library is an argument. The graph is built with
-- any way to resolve an import; `_resolve_import_to_file` is in Resolve. A Python set is a list of which
-- only the members count.
pub mod Resolve
pub mod Edges
pub mod FullPaths
pub mod BlastRadius
pub mod Examples
use runtime_ops.Base.{
  Text, codes, text_eq, ℕ, Bool, true, false, not, ◌&&◌, ◌||◌, Option, none, some, List, [], ◌∷◌,
  ◌++◌, map, select, any, leb, if◌then◌else◌,
}
use runtime_ops.Ingestion.Networkx.{Networkx}

-- What the analysis reads of an import and of a parsed file.
pub record ImportStatement : Type 0 where
  pub module_name : Text
  pub is_relative : Bool

pub record ParseResult : Type 0 where
  pub file_path : Text
  pub language : Text
  pub imports : List ImportStatement

-- What `_map_files_to_services` reads of a service.
pub record ServiceBoundary : Type 0 where
  pub name : Text
  pub files : List Text

-- `_should_skip_directory`, on the parts of a path.
abbrev pub skip_dirs : List Text
skip_dirs =
    codes "node_modules"
    ∷ codes "venv"
    ∷ codes "env"
    ∷ codes ".venv"
    ∷ codes "vendor"
    ∷ codes "target"
    ∷ codes "build"
    ∷ codes "dist"
    ∷ codes ".git"
    ∷ []

abbrev pub should_skip_directory : List Text → Bool
should_skip_directory parts = any (λ part. any (text_eq part) skip_dirs) parts

-- The service that `_map_files_to_services` leaves for a file, of the one that it had before: the first
-- that lists it, or the one from before, or "root".
unfoldable pub service_of : List ServiceBoundary → Option Text → Text → Text
service_of [] none file_path = codes "root"
service_of [] (some earlier) file_path = earlier
service_of (b ∷ boundaries) before file_path =
    let rest = service_of boundaries before file_path in
    if any (text_eq file_path) b.files then b.name else rest

module _ (nx : Networkx)
    (resolve_import_to_file : ImportStatement → ParseResult → Option Text) where
  open nx use {
    Graph, empty, add_node, add_edge, has_node, has_edge, descendants, ancestors,
    shortest_path_length,
  }

  pub record Dependencies : Type 0 where
    pub dependency_graph : Graph
    pub external_dependencies : List Text

  -- What `_build_dependency_graph` does with an import whose target is known.
  add_target : List Text → Text → Text → Text → Dependencies → Dependencies
  add_target paths source_file module_name target_file d =
      if any (text_eq target_file) paths
      then record d { dependency_graph = add_edge source_file target_file d.dependency_graph }
      else record {
        dependency_graph = add_edge source_file module_name (
            if has_node d.dependency_graph module_name
            then d.dependency_graph
            else add_node module_name d.dependency_graph);
        external_dependencies = d.external_dependencies ++ module_name ∷ [];
      }

  -- `if target_file`: neither None nor empty.
  add_resolved : List Text → Text → Text → Option Text → Dependencies → Dependencies
  unfolding add_target
  add_resolved paths source_file module_name none d = d
  add_resolved paths source_file module_name (some target_file) d =
      if text_eq target_file [] then d else add_target paths source_file module_name target_file d

  add_imports : List Text → ParseResult → List ImportStatement → Dependencies → Dependencies
  unfolding add_resolved
  add_imports paths r [] d = d
  add_imports paths r (i ∷ imports) d =
      add_imports paths r imports
        (add_resolved paths r.file_path i.module_name (resolve_import_to_file i r) d)

  add_results : List Text → List ParseResult → Dependencies → Dependencies
  unfolding add_imports
  add_results paths [] d = d
  add_results paths (r ∷ results) d = add_results paths results (add_imports paths r r.imports d)

  add_files : List ParseResult → Graph → Graph
  add_files [] g = g
  add_files (r ∷ results) g = add_files results (add_node r.file_path g)

  -- `_build_dependency_graph`: it adds to what the analyzer has from before.
  pub build_dependency_graph : List ParseResult → Dependencies → Dependencies
  unfolding add_results add_files
  build_dependency_graph parse_results d =
      add_results (map (λ r. r.file_path) parse_results) parse_results
        (record d { dependency_graph = add_files parse_results d.dependency_graph })

  -- The analyzer as it is made.
  pub no_dependencies : Dependencies
  no_dependencies = record { dependency_graph = empty; external_dependencies = [] }

module _ (nx : Networkx) where
  open nx use {Graph, has_node, descendants, ancestors, shortest_path_length}

  is_near : ℕ → Option ℕ → Bool
  is_near max_hops none = false
  is_near max_hops (some path_length) = leb path_length max_hops

  near_descendants : Graph → ℕ → Text → List Text
  unfolding is_near
  near_descendants g max_hops file_path =
      select (λ d. is_near max_hops (shortest_path_length g file_path d)) (descendants g file_path)

  near_ancestors : Graph → ℕ → Text → List Text
  unfolding is_near
  near_ancestors g max_hops file_path =
      select (λ a. is_near max_hops (shortest_path_length g a file_path)) (ancestors g file_path)

  -- The loop of `compute_blast_radius`.
  reached_from : Graph → List Text → ℕ → List Text
  unfolding near_descendants
  reached_from g [] max_hops = []
  reached_from g (file_path ∷ changed_files) max_hops =
      let rest = reached_from g changed_files max_hops in
      if has_node g file_path then near_descendants g max_hops file_path ++ rest else rest

  -- `compute_blast_radius`
  pub compute_blast_radius : Graph → List Text → ℕ → List Text
  unfolding reached_from
  compute_blast_radius g changed_files max_hops =
      changed_files ++ reached_from g changed_files max_hops

  -- `get_file_dependencies`: upstream and downstream.
  pub get_file_dependencies : Graph → Text → Text → ℕ → List Text × List Text
  unfolding near_ancestors near_descendants
  get_file_dependencies g file_path direction max_hops =
      if has_node g file_path
      then (
        (if text_eq direction (codes "upstream") || text_eq direction (codes "both")
            then near_ancestors g max_hops file_path
            else []),
        (if text_eq direction (codes "downstream") || text_eq direction (codes "both")
            then near_descendants g max_hops file_path
            else []),
      )
      else ([], [])
