-- ===== src/Storage/Registry.antt =====
-- `IndexRegistryManager` of src/bob/storage/registry.py: the tables `index_registry`, `repo_access`
-- and `index_jobs`, each a list of rows in the order they were inserted, and one function per method.
-- A method runs in a transaction of its own, and what it raises leaves the tables as they were.
-- `updated_at`, which the database keeps, is left out. Times are seconds; a method that reads the
-- clock takes the time first, and one that makes an identifier takes the identifier.
pub mod Keys
pub mod Operations
pub mod Repositories
pub mod Consistent
pub mod Times
pub mod Jobs
pub mod Listing
pub mod Examples
use runtime_ops.Base.{
  Text, codes, text_eq, ℕ, ◌+◌, ◌*◌, Bool, true, false, not, ◌&&◌, ◌||◌, Option, none, some, List,
  [], ◌∷◌, ◌++◌, map, select, any, tally, take, drop, length, ltb, leb, if◌then◌else◌,
}
use runtime_ops.Storage.Tables.{
  Repository, Access, Job, Database, Outcome, is_short, fits, counts_error, find_job,
  update_job_where, started, completed, noted, counted, with_job_status, is_before, insert_job,
  latest_first, done, not_found, database_error,
}

module _ {Float : Type 0} where
  abbrev pub has_id : Text → Repository Float → Bool
  has_id repo_id r = text_eq r.repo_id repo_id

  -- `query(IndexRegistry).filter_by(repo_id=repo_id).first()`
  unfoldable pub find_repository : Text → List (Repository Float) → Option (Repository Float)
  find_repository repo_id [] = none
  find_repository repo_id (r ∷ rows) =
      let rest = find_repository repo_id rows in if has_id repo_id r then some r else rest

  -- The UPDATE of the one row that a primary key names.
  unfoldable pub update_where :
      Text
      → (Repository Float → Repository Float)
      → List (Repository Float)
      → List (Repository Float)
  update_where repo_id change = map (λ r. if has_id repo_id r then change r else r)

  -- `create_repository`; 0.0 is the default coverage.
  unfoldable pub create_repository :
      Float → ℕ → Text → Text → Text → Database Float → Outcome (Database Float)
  create_repository zero_coverage now repo_id github_url status db =
      if not (is_short status)
        || any (λ r. has_id repo_id r || text_eq r.github_url github_url) db.repositories
      then database_error
      else done (record db {
        repositories =
            db.repositories
            ++ record {
              repo_id = repo_id;
              github_url = github_url;
              status = status;
              last_full_index = none;
              last_incremental = none;
              file_count = 0;
              error_count = 0;
              coverage_pct = zero_coverage;
              created_at = now;
            }
              ∷ [];
      })

  -- `get_repository` and `get_repository_by_url`
  unfoldable pub get_repository : Text → Database Float → Outcome (Repository Float)
  unfolding find_repository
  get_repository repo_id db = elim (find_repository repo_id db.repositories) [
    | none ↦ not_found
    | some r ↦ done r
  ]

  unfoldable pub find_url : Text → List (Repository Float) → Option (Repository Float)
  find_url github_url [] = none
  find_url github_url (r ∷ rows) =
      let rest = find_url github_url rows in
      if text_eq r.github_url github_url then some r else rest

  unfoldable pub get_repository_by_url : Text → Database Float → Option (Repository Float)
  unfolding find_url
  get_repository_by_url github_url db = find_url github_url db.repositories

  -- A change of the row of a repository, as the methods `update_...` and `mark_...` make it: the row is
  -- read, the new values are checked against their columns, and the row is written.
  unfoldable pub change_repository :
      Text
      → (Repository Float → Bool)
      → (Repository Float → Repository Float)
      → Database Float
      → Outcome (Database Float)
  unfolding find_repository update_where
  change_repository repo_id is_valid change db = elim (find_repository repo_id db.repositories) [
    | none ↦ not_found
    | some r ↦
        if is_valid r
        then done (record db { repositories = update_where repo_id change db.repositories })
        else database_error
  ]

  abbrev pub with_status : Text → Option Text → Repository Float → Repository Float
  with_status status error_message r = record r {
    status = status;
    error_count = if counts_error status error_message then r.error_count + 1 else r.error_count;
  }

  -- `update_repository_status`
  unfoldable pub update_repository_status :
      Text → Text → Option Text → Database Float → Outcome (Database Float)
  unfolding change_repository
  update_repository_status repo_id status error_message =
      change_repository repo_id
        (λ r. is_short status && fits (with_status status error_message r).error_count)
        (with_status status error_message)

  abbrev pub with_metrics : ℕ → ℕ → Float → Repository Float → Repository Float
  with_metrics file_count error_count coverage_pct r = record r {
    file_count = file_count;
    error_count = error_count;
    coverage_pct = coverage_pct;
  }

  -- `update_repository_metrics`
  unfoldable pub update_repository_metrics :
      Text → ℕ → ℕ → Float → Database Float → Outcome (Database Float)
  unfolding change_repository
  update_repository_metrics repo_id file_count error_count coverage_pct =
      change_repository repo_id (λ r. fits file_count && fits error_count)
        (with_metrics file_count error_count coverage_pct)

  abbrev pub fully_indexed : ℕ → Repository Float → Repository Float
  fully_indexed now r = record r { last_full_index = some now; status = codes "idle" }

  -- `mark_full_index_complete`
  unfoldable pub mark_full_index_complete : ℕ → Text → Database Float → Outcome (Database Float)
  unfolding change_repository
  mark_full_index_complete now repo_id = change_repository repo_id (λ r. true) (fully_indexed now)

  abbrev pub incrementally_indexed : ℕ → Repository Float → Repository Float
  incrementally_indexed now r = record r { last_incremental = some now; status = codes "idle" }

  -- `mark_incremental_update_complete`
  unfoldable pub mark_incremental_update_complete :
      ℕ → Text → Database Float → Outcome (Database Float)
  unfolding change_repository
  mark_incremental_update_complete now repo_id =
      change_repository repo_id (λ r. true) (incrementally_indexed now)

  -- `delete_repository`: with the row go its grants and its jobs.
  unfoldable pub delete_repository : Text → Database Float → Outcome (Database Float)
  unfolding find_repository
  delete_repository repo_id db = elim (find_repository repo_id db.repositories) [
    | none ↦ not_found
    | some r ↦ done (record {
      repositories = select (λ s. not (has_id repo_id s)) db.repositories;
      grants = select (λ g. not (text_eq g.repo_id repo_id)) db.grants;
      jobs = select (λ j. not (text_eq j.repo_id repo_id)) db.jobs;
    })
  ]

  -- `create_index_job`: the repository has to be there, by the foreign key.
  unfoldable pub create_index_job :
      ℕ → Text → Text → Text → Database Float → Outcome (Database Float)
  create_index_job now job_id repo_id job_type db =
      if not (is_short job_type)
        || any (λ j. text_eq j.job_id job_id) db.jobs
        || not (any (has_id repo_id) db.repositories)
      then database_error
      else done (record db {
        jobs =
            db.jobs
            ++ record {
              job_id = job_id;
              repo_id = repo_id;
              job_type = job_type;
              status = codes "pending";
              started_at = none;
              completed_at = none;
              error_message = none;
              files_processed = 0;
              created_at = now;
            }
              ∷ [];
      })

  -- `update_job_status`
  unfoldable pub update_job_status :
      ℕ → Text → Text → Option Text → Option ℕ → Database Float → Outcome (Database Float)
  unfolding find_job update_job_where
  update_job_status now job_id status error_message files_processed db =
      elim (find_job job_id db.jobs) [
        | none ↦ not_found
        | some j ↦
            if is_short status && fits (counted files_processed 0)
            then done (record db {
              jobs =
                  update_job_where job_id (with_job_status now status error_message files_processed)
                    db.jobs;
            })
            else database_error
      ]

  -- `detect_stale_repositories`
  abbrev pub is_stale : ℕ → ℕ → Repository Float → Bool
  is_stale now threshold_minutes r =
      is_before r.last_incremental (60 * threshold_minutes) now
      && not (text_eq r.status (codes "indexing"))

  unfoldable pub detect_stale_repositories : ℕ → ℕ → Database Float → List (Repository Float)
  detect_stale_repositories now threshold_minutes db =
      select (is_stale now threshold_minutes) db.repositories

  -- `list_repositories`: all where no status, or an empty one, is given. The query does not say the
  -- order; it is taken to be the table's.
  abbrev pub passes : Option Text → Repository Float → Bool
  passes none r = true
  passes (some status) r = text_eq status [] || text_eq r.status status

  unfoldable pub list_repositories : Option Text → ℕ → ℕ → Database Float → List (Repository Float)
  list_repositories status limit offset db =
      take limit (drop offset (select (passes status) db.repositories))

  abbrev pub sum_of : (Repository Float → ℕ) → List (Repository Float) → ℕ
  sum_of count [] = 0
  sum_of count (r ∷ rest) = count r + sum_of count rest

  unfoldable pub status_count : Text → Database Float → ℕ
  status_count status db = tally (λ r. text_eq r.status status) db.repositories

-- `get_health_metrics`
pub record Metrics (Float : Type 0) : Type 0 where
  pub total_repositories : ℕ
  pub idle : ℕ
  pub indexing : ℕ
  pub error : ℕ
  pub stale : ℕ
  pub average_coverage : Float
  pub total_files_indexed : ℕ
  pub total_errors : ℕ
  pub recent_jobs : List Job

module _ {Float : Type 0} (average : List Float → Float) where
  unfoldable pub get_health_metrics : Database Float → Metrics Float
  unfolding status_count
  get_health_metrics db = record {
    total_repositories = length db.repositories;
    idle = status_count (codes "idle") db;
    indexing = status_count (codes "indexing") db;
    error = status_count (codes "error") db;
    stale = status_count (codes "stale") db;
    average_coverage = average (map (λ r. r.coverage_pct) db.repositories);
    total_files_indexed = sum_of (λ r. r.file_count) db.repositories;
    total_errors = sum_of (λ r. r.error_count) db.repositories;
    recent_jobs = take 10 (latest_first db.jobs);
  }
