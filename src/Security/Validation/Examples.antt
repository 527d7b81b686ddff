-- ===== src/Security/Validation/Examples.antt =====
-- Validation at concrete inputs.
use runtime_ops.Base.{
  refl, strip, Text, codes, ◌≤◌, ◌≡◌, ◌↔◌, ◌⊎◌, true, false, ◌++◌, ◌∷◌, [], length,
}
use runtime_ops.Security.Validation.{
  validate_commit_sha, check_sha, is_hex, valid, is_blank, validate_repo_id,
}
use runtime_ops.Security.Validation.Identifiers.{IsPair, repo_id_iff}

-- The identifier `owner/repo` with a line feed at its end.
abbrev two_lines : Text
two_lines = codes "owner/repo" ++ 10 ∷ []

repo_id_iff_example : (validate_repo_id (λ s. false) two_lines ≡ valid two_lines) ↔ (
    (is_blank two_lines ≡ false) × (length two_lines ≤ 100) × ((false ≡ true) ⊎ IsPair two_lines))
repo_id_iff_example = repo_id_iff (λ s. false) two_lines

accepted_sha : validate_commit_sha (codes " ABCDEF1 ") ≡ valid (codes "abcdef1")
unfolding validate_commit_sha check_sha is_hex strip
accepted_sha = refl
