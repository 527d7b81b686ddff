-- ===== src/Ingestion/Analyzer/Resolve.antt =====
-- `StructuralAnalyzer._resolve_import_to_file` of src/bob/ingestion/analyzer.py. Python's paths and the
-- disk are an argument.
use runtime_ops.Base.{
  Text, codes, text_eq, starts_with, ◌≡◌, Bool, false, ◌||◌, Option, none, some, List, [], ◌∷◌,
  ◌++◌, map, ◌==◌, if◌then◌else◌,
}
use runtime_ops.Ingestion.Analyzer.{ImportStatement, ParseResult}

-- A path from the root of the file system, as the parsers note it.
abbrev pub is_full : Text → Bool
is_full path = starts_with (codes "/") path

-- `pathlib`: `path.parent`, `path / name`, `path.exists()`, and the text of `path.relative_to(base)`, none
-- where that raises `ValueError`.
pub record Pathlib : Type 0 where
  pub parent : Text → Text
  pub join : Text → Text → Text
  pub exists : Text → Bool
  pub relative_to : Text → Text → Option Text
  -- A relative path is never one from the root.
  pub relative_to_lem :
      (path base relative : Text) → relative_to path base ≡ some relative → is_full relative ≡ false

-- `module.replace(".", "/")`
abbrev pub dots_to_slashes : Text → Text
dots_to_slashes = map (λ c. if c == 46 then 47 else c)

module _ (pathlib : Pathlib) where
  open pathlib use {parent, join, exists, relative_to}

  -- `potential_files`, of the language.
  pub potential_files : Text → Text → Text → List Text
  potential_files language source_dir name =
      if text_eq language (codes "python")
      then join source_dir (dots_to_slashes name ++ codes ".py")
        ∷ join (join source_dir (dots_to_slashes name)) (codes "__init__.py")
        ∷ []
      else if text_eq language (codes "typescript") || text_eq language (codes "javascript")
      then join source_dir (name ++ codes ".ts")
        ∷ join source_dir (name ++ codes ".tsx")
        ∷ join source_dir (name ++ codes ".js")
        ∷ join source_dir (name ++ codes ".jsx")
        ∷ join (join source_dir name) (codes "index.ts")
        ∷ join (join source_dir name) (codes "index.js")
        ∷ []
      else []

  -- The loop: the first file that exists and lies in the repository.
  unfoldable pub first_in : Text → List Text → Option Text
  first_in repo_path [] = none
  first_in repo_path (file ∷ files) =
      let rest = first_in repo_path files in
      if exists file
      then elim (relative_to file repo_path) [ none ↦ rest | some relative ↦ some relative ]
      else rest

  -- `_resolve_import_to_file`, of a parsed file with its path and language.
  unfoldable pub resolve_import_to_file : Text → ImportStatement → ParseResult → Option Text
  unfolding potential_files first_in
  resolve_import_to_file repo_path i r =
      if i.is_relative
      then first_in repo_path (potential_files r.language (parent r.file_path) i.module_name)
      else none
