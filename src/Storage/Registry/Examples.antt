-- ===== src/Storage/Registry/Examples.antt =====
-- The registry at concrete inputs; a coverage is a number here.
use runtime_ops.Base.{
  Text, codes, text_eq, ℕ, ◌≡◌, refl, false, Option, none, some, List, [], ◌∷◌, any,
}
use runtime_ops.Storage.Tables.{Repository, Job, Database}
use runtime_ops.Storage.Registry.{
  has_id, find_repository, update_where, create_repository, change_repository,
  mark_full_index_complete, delete_repository, create_index_job, detect_stale_repositories,
}
use runtime_ops.Storage.Registry.Operations.{
  Operation, create, complete_full, delete, create_job, perform_all, Consistent,
}
use runtime_ops.Storage.Registry.Consistent.{perform_all-Consistent}
use runtime_ops.Storage.Registry.Times.{never_stale}
use runtime_ops.Storage.Registry.Jobs.{Update}

abbrev no_rows : Database ℕ
no_rows = record { repositories = []; grants = []; jobs = [] }

abbrev calls : List (Operation ℕ)
calls =
    create 0 10 (codes "r1") (codes "git/one") (codes "idle")
    ∷ create 0 11 (codes "r2") (codes "git/two") (codes "indexing")
    ∷ create 0 12 (codes "r3") (codes "git/one") (codes "idle")
    ∷ create_job 13 (codes "j1") (codes "r1") (codes "full")
    ∷ create_job 13 (codes "j2") (codes "r2") (codes "full")
    ∷ create_job 14 (codes "j3") (codes "r4") (codes "full")
    ∷ complete_full 20 (codes "r1")
    ∷ delete (codes "r1")
    ∷ []

abbrev filled : Database ℕ
filled = perform_all calls no_rows

-- The second URL and the fourth repository are refused, and the job of the deleted one is gone.
abbrev kept_job : Job
kept_job = record {
  job_id = codes "j2";
  repo_id = codes "r2";
  job_type = codes "full";
  status = codes "pending";
  started_at = none;
  completed_at = none;
  error_message = none;
  files_processed = 0;
  created_at = 13;
}

abbrev kept_row : Repository ℕ
kept_row = record {
  repo_id = codes "r2";
  github_url = codes "git/two";
  status = codes "indexing";
  last_full_index = none;
  last_incremental = none;
  file_count = 0;
  error_count = 0;
  coverage_pct = 0;
  created_at = 11;
}

filled_lem : filled ≡ record { repositories = kept_row ∷ []; grants = []; jobs = kept_job ∷ [] }
unfolding create_repository create_index_job mark_full_index_complete change_repository
    find_repository update_where delete_repository text_eq
filled_lem = refl

perform_all-Consistent_example : Consistent (perform_all calls no_rows)
perform_all-Consistent_example = perform_all-Consistent calls no_rows (refl, refl, refl, refl, refl)

abbrev one : Database ℕ
one = record { repositories = kept_row ∷ []; grants = []; jobs = kept_job ∷ [] }

abbrev indexed : Database ℕ
indexed = record {
  repositories = record kept_row { last_incremental = some 100; status = codes "idle" } ∷ [];
  grants = [];
  jobs = kept_job ∷ [];
}

never_stale_example :
    any (has_id (codes "r2")) (
      detect_stale_repositories 100000 10
        (perform_all (complete_full 20 (codes "r2") ∷ calls) no_rows))
    ≡ false
never_stale_example =
    never_stale (codes "r2") (complete_full 20 (codes "r2") ∷ calls) no_rows refl refl 100000 10

abbrev report : ℕ → Text → Option Text → Update
report now status error_message = record {
  now = now;
  status = status;
  error_message = error_message;
  files_processed = none;
}

-- A failed job that runs again keeps the time and the message of its first run.
abbrev reports : List Update
reports =
    report 20 (codes "running") none
    ∷ report 30 (codes "failed") (some (codes "disk"))
    ∷ report 40 (codes "running") (some [])
    ∷ report 50 (codes "completed") none
    ∷ []

abbrev no_average : List ℕ → ℕ
no_average xs = 0
