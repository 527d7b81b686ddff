-- ===== src/Security/Validation.antt =====
-- src/bob/security/validation.py: repository identifiers, commit hashes and the bounds of numbers.
-- The text of an `InvalidQueryError` is left out, and the UUID parser of Python is an argument.
pub mod Numbers
pub mod Identifiers
pub mod Hashes
pub mod Examples
use runtime_ops.Base.{
  Text, codes, text_eq, lower, strip, split_on, is_space, ℕ, ℤ, pos, negsuc, ltz, Bool, true, false,
  not, ◌&&◌, ◌||◌, List, [], ◌∷◌, length, any, all, ltb, leb, ◌==◌, if◌then◌else◌,
}

-- What a validator returns, or that it raises `InvalidQueryError`.
pub data Validated {ℓ} (A : Type ℓ) : Type ℓ where
  valid : A → Validated A
  invalid : Validated A

-- `validate_pagination`
pub validate_pagination : ℤ → ℤ → Validated (ℤ × ℤ)
validate_pagination page page_size =
    if ltz page (pos 1)
    then invalid
    else if ltz (pos 10000) page
    then invalid
    else if ltz page_size (pos 1)
    then invalid
    else if ltz (pos 100) page_size
    then invalid
    else valid (page, page_size)

-- `validate_batch_size`, `validate_hops` and `validate_k`
pub validate_batch_size : ℤ → ℤ → Validated ℤ
validate_batch_size size max_size =
    if ltz size (pos 1) then invalid else if ltz max_size size then invalid else valid size

pub validate_hops : ℤ → ℤ → Validated ℤ
validate_hops hops max_hops =
    if ltz hops (pos 1) then invalid else if ltz max_hops hops then invalid else valid hops

pub validate_k : ℤ → ℤ → Validated ℤ
validate_k k max_k = if ltz k (pos 1) then invalid else if ltz max_k k then invalid else valid k

-- `not s or not s.strip()`
abbrev pub is_blank : Text → Bool
is_blank s = all is_space s

-- The class `[a-zA-Z0-9._-]`.
abbrev pub identifier_char : ℕ → Bool
identifier_char c =
    leb 97 c && leb c 122
    || leb 65 c && leb c 90
    || leb 48 c && leb c 57
    || c == 46
    || c == 95
    || c == 45

-- `$` of a pattern: the end, or a line feed that is the last character.
abbrev pub at_end : Text → Bool
at_end [] = true
at_end (c ∷ []) = c == 10
at_end (c ∷ d ∷ s) = false

-- `_is_valid_identifier`: the pattern `^[a-zA-Z0-9._-]+$`.
pub is_valid_identifier : Text → Bool
is_valid_identifier [] = false
is_valid_identifier (c ∷ s) =
    let more = is_valid_identifier s in identifier_char c && (at_end s || more)

check_names : Text → List Text → Validated Text
check_names repo_id (owner ∷ repo ∷ []) =
    if not (is_valid_identifier owner)
    then invalid
    else if not (is_valid_identifier repo)
    then invalid
    else valid repo_id
check_names repo_id _ = invalid

-- `validate_repo_id`
pub validate_repo_id : (Text → Bool) → Text → Validated Text
unfolding check_names
validate_repo_id is_uuid repo_id =
    if is_blank repo_id
    then invalid
    else if ltb 100 (length repo_id)
    then invalid
    else if is_uuid repo_id
    then valid repo_id
    else if any (λ c. c == 47) repo_id
    then check_names repo_id (split_on 47 repo_id)
    else invalid

-- `validate_direction`
unfoldable pub validate_direction : Text → Validated Text
validate_direction direction =
    if text_eq direction (codes "upstream")
      || text_eq direction (codes "downstream")
      || text_eq direction (codes "both")
    then valid direction
    else invalid

-- The class `[0-9a-f]`, in any case, and the pattern `^[0-9a-f]+$`.
abbrev pub hex_char : ℕ → Bool
hex_char c = leb 48 c && leb c 57 || leb 97 c && leb c 102 || leb 65 c && leb c 70

pub is_hex : Text → Bool
is_hex [] = false
is_hex (c ∷ s) = let more = is_hex s in hex_char c && (at_end s || more)

-- `validate_commit_sha`, after the removal of white space.
check_sha : Text → Validated Text
check_sha sha =
    if not (is_hex sha)
    then invalid
    else if ltb (length sha) 7 || ltb 40 (length sha)
    then invalid
    else valid (lower sha)

-- `validate_commit_sha`
pub validate_commit_sha : Text → Validated Text
unfolding check_sha
validate_commit_sha sha = if is_blank sha then invalid else check_sha (strip sha)
