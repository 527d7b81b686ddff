-- ===== src/Storage/Registry/Operations.antt =====
-- The calls that write, one after the other, and what they have to keep.
use runtime_ops.Base.{Text, ℕ, ◌≡◌, Bool, true, Option, List, [], ◌∷◌, any, all}
use runtime_ops.Storage.Tables.{Repository, Database, Outcome, done}
use runtime_ops.Storage.Registry.{
  has_id, create_repository, update_repository_status, update_repository_metrics,
  mark_full_index_complete, mark_incremental_update_complete, delete_repository, create_index_job,
  update_job_status,
}
use runtime_ops.Storage.Registry.Keys.{distinct}

-- The calls of the methods that write.
pub data Operation (Float : Type 0) : Type 0 where
  create : Float → ℕ → Text → Text → Text → Operation Float
  set_status : Text → Text → Option Text → Operation Float
  set_metrics : Text → ℕ → ℕ → Float → Operation Float
  complete_full : ℕ → Text → Operation Float
  complete_incremental : ℕ → Text → Operation Float
  delete : Text → Operation Float
  create_job : ℕ → Text → Text → Text → Operation Float
  set_job : ℕ → Text → Text → Option Text → Option ℕ → Operation Float

module _ {Float : Type 0} where
  abbrev pub perform : Operation Float → Database Float → Outcome (Database Float)
  perform (create zero_coverage now repo_id github_url status) =
      create_repository zero_coverage now repo_id github_url status
  perform (set_status repo_id status error_message) =
      update_repository_status repo_id status error_message
  perform (set_metrics repo_id file_count error_count coverage_pct) =
      update_repository_metrics repo_id file_count error_count coverage_pct
  perform (complete_full now repo_id) = mark_full_index_complete now repo_id
  perform (complete_incremental now repo_id) = mark_incremental_update_complete now repo_id
  perform (delete repo_id) = delete_repository repo_id
  perform (create_job now job_id repo_id job_type) = create_index_job now job_id repo_id job_type
  perform (set_job now job_id status error_message files_processed) =
      update_job_status now job_id status error_message files_processed

  -- What a call leaves in the database: what it wrote, or what was there.
  abbrev pub settle : Database Float → Outcome (Database Float) → Database Float
  settle db (done db') = db'
  settle db _ = db

  abbrev pub perform_all : List (Operation Float) → Database Float → Database Float
  perform_all [] db = db
  perform_all (o ∷ os) db = perform_all os (settle db (perform o db))

  abbrev pub refers : List (Repository Float) → Text → Bool
  refers rows repo_id = any (has_id repo_id) rows

  -- No two repositories share an identifier or a URL, no two jobs share an identifier, and each grant
  -- and each job is of a repository that is there.
  abbrev pub Consistent : Database Float → Type 0
  Consistent db =
      (distinct (λ r. r.repo_id) db.repositories ≡ true)
      × (distinct (λ r. r.github_url) db.repositories ≡ true)
      × (distinct (λ j. j.job_id) db.jobs ≡ true)
      × (all (λ g. refers db.repositories g.repo_id) db.grants ≡ true)
      × (all (λ j. refers db.repositories j.repo_id) db.jobs ≡ true)
