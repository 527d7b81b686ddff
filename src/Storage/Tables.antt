-- ===== src/Storage/Tables.antt =====
-- The tables of src/bob/storage/registry.py and what its methods do to a row of `index_jobs`.
use runtime_ops.Base.{
  Text, codes, text_eq, ℕ, ◌+◌, Bool, false, not, ◌&&◌, ◌||◌, Option, none, some, List, [], ◌∷◌,
  map, length, ltb, leb, if◌then◌else◌,
}

-- A row of `index_registry`. A coverage is a float, of which nothing is used.
pub record Repository (Float : Type 0) : Type 0 where
  pub repo_id : Text
  pub github_url : Text
  pub status : Text
  pub last_full_index : Option ℕ
  pub last_incremental : Option ℕ
  pub file_count : ℕ
  pub error_count : ℕ
  pub coverage_pct : Float
  pub created_at : ℕ

-- A row of `repo_access`.
pub record Access : Type 0 where
  pub id : ℕ
  pub repo_id : Text
  pub org_id : Text
  pub granted_at : ℕ

-- A row of `index_jobs`.
pub record Job : Type 0 where
  pub job_id : Text
  pub repo_id : Text
  pub job_type : Text
  pub status : Text
  pub started_at : Option ℕ
  pub completed_at : Option ℕ
  pub error_message : Option Text
  pub files_processed : ℕ
  pub created_at : ℕ

pub record Database (Float : Type 0) : Type 0 where
  pub repositories : List (Repository Float)
  pub grants : List Access
  pub jobs : List Job

-- What a method comes to: its result, `ResourceNotFoundError`, or an error of the database.
pub data Outcome (A : Type 0) : Type 0 where
  done : A → Outcome A
  not_found database_error : Outcome A

-- A value of a column `String(20)`, and one of a column `Integer`.
abbrev pub is_short : Text → Bool
is_short s = leb (length s) 20

abbrev pub fits : ℕ → Bool
fits n = leb n 2147483647

-- `repo.error_count += 1`, and where: `status == "error" and error_message`.
abbrev pub counts_error : Text → Option Text → Bool
counts_error status none = false
counts_error status (some message) = text_eq status (codes "error") && not (text_eq message [])

unfoldable pub find_job : Text → List Job → Option Job
find_job job_id [] = none
find_job job_id (j ∷ rows) =
    let rest = find_job job_id rows in if text_eq j.job_id job_id then some j else rest

unfoldable pub update_job_where : Text → (Job → Job) → List Job → List Job
update_job_where job_id change = map (λ j. if text_eq j.job_id job_id then change j else j)

abbrev pub started : ℕ → Text → Option ℕ → Option ℕ
started now status (some t) = some t
started now status none = if text_eq status (codes "running") then some now else none

abbrev pub completed : ℕ → Text → Option ℕ → Option ℕ
completed now status t =
    if text_eq status (codes "completed") || text_eq status (codes "failed") then some now else t

abbrev pub noted : Option Text → Option Text → Option Text
noted none old = old
noted (some message) old = if text_eq message [] then old else some message

abbrev pub counted : Option ℕ → ℕ → ℕ
counted none old = old
counted (some n) old = n

abbrev pub with_job_status : ℕ → Text → Option Text → Option ℕ → Job → Job
with_job_status now status error_message files_processed j = record j {
  status = status;
  started_at = started now status j.started_at;
  completed_at = completed now status j.completed_at;
  error_message = noted error_message j.error_message;
  files_processed = counted files_processed j.files_processed;
}

-- `detect_stale_repositories`: a null time is never before the threshold.
abbrev pub is_before : Option ℕ → ℕ → ℕ → Bool
is_before none threshold now = false
is_before (some t) threshold now = ltb (t + threshold) now

-- `order_by(IndexJob.created_at.desc())`
abbrev pub insert_job : Job → List Job → List Job
insert_job j [] = j ∷ []
insert_job j (k ∷ rest) =
    let after = insert_job j rest in
    if ltb k.created_at j.created_at then j ∷ k ∷ rest else k ∷ after

abbrev pub latest_first : List Job → List Job
latest_first [] = []
latest_first (j ∷ rest) = insert_job j (latest_first rest)
