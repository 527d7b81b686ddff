-- ===== src/Storage/Registry/Consistent.antt =====
-- Keys stay unique and references stay good, whatever the methods are called with.
use runtime_ops.Base.{
  Text, text_eq, ℕ, ◌≡◌, refl, inl, inr, true, not, ◌&&◌, ◌||◌, Option, List, [], ◌∷◌, any, ◌∙◌,
  Bool-cases, Option-cases, arith, if◌then◌else◌,
}
use runtime_ops.Storage.Tables.{
  Job, Database, update_job_where, find_job, is_short, fits, counted, with_job_status,
}
use runtime_ops.Storage.Registry.{
  has_id, with_status, with_metrics, fully_indexed, incrementally_indexed, update_repository_status,
  update_repository_metrics, mark_full_index_complete, mark_incremental_update_complete,
  create_index_job, update_job_status,
}
use runtime_ops.Storage.Registry.Keys.{distinct-append, distinct-map, all-key_map, all-append_one}
use runtime_ops.Storage.Registry.Operations.{
  Operation, create, set_status, set_metrics, complete_full, complete_incremental, delete,
  create_job, set_job, perform, settle, perform_all, refers, Consistent,
}
use runtime_ops.Storage.Registry.Repositories.{
  changed-Consistent, created-Consistent, deleted-Consistent,
}

module _ {Float : Type 0} where
  job_created-Consistent :
      (now : ℕ) (job_id repo_id job_type : Text) (db : Database Float)
      → Consistent db
      → Consistent (settle db (create_index_job now job_id repo_id job_type db))
  unfolding create_index_job
  job_created-Consistent now job_id repo_id job_type db (ids, urls, job_ids, grants, jobs) =
      let c : Consistent db = (ids, urls, job_ids, grants, jobs) in
      elim (Bool-cases (
        not (is_short job_type)
        || any (λ j. text_eq j.job_id job_id) db.jobs
        || not (any (has_id repo_id) db.repositories))) [
          | inl e ↦ rw e c
          | inr e ↦ rw e (
            ids,
            urls,
            distinct-append (λ j. j.job_id) db.jobs _ job_ids (ground arith),
            grants,
            all-append_one _ db.jobs _ jobs (ground arith),
          )
        ]

  job_updated-Consistent :
      (now : ℕ) (job_id status : Text) (error_message : Option Text) (files_processed : Option ℕ)
      (db : Database Float)
      → Consistent db
      → Consistent
          (settle db (update_job_status now job_id status error_message files_processed db))
  unfolding update_job_status update_job_where
  job_updated-Consistent now job_id status error_message files_processed db
        (ids, urls, job_ids, grants, jobs) =
      let c : Consistent db = (ids, urls, job_ids, grants, jobs) in
      elim (Option-cases (find_job job_id db.jobs)) [
        | inl e ↦ rw (settle, e) c
        | inr (j, e) ↦ elim (Bool-cases (is_short status && fits (counted files_processed 0))) [
          | inl f ↦
              rw (settle, e, f)
                (
                  ids,
                  urls,
                  distinct-map (λ k. k.job_id) _ kept_id db.jobs ∙ job_ids,
                  grants,
                  all-key_map (λ k. k.repo_id) _ kept_repo (refers db.repositories) db.jobs ∙ jobs,
                )
          | inr f ↦ rw (settle, e, f) c
        ]
      ]
    where
      kept_id :
          (k : Job)
          → (if text_eq k.job_id job_id
              then with_job_status now status error_message files_processed k
              else k).job_id
            ≡ k.job_id
      kept_id k = ground arith

      kept_repo :
          (k : Job)
          → (if text_eq k.job_id job_id
              then with_job_status now status error_message files_processed k
              else k).repo_id
            ≡ k.repo_id
      kept_repo k = ground arith

  perform-Consistent :
      (o : Operation Float) (db : Database Float)
      → Consistent db
      → Consistent (settle db (perform o db))
  unfolding update_repository_status update_repository_metrics mark_full_index_complete
      mark_incremental_update_complete
  perform-Consistent (create zero_coverage now repo_id github_url status) db =
      created-Consistent zero_coverage now repo_id github_url status db
  perform-Consistent (set_status repo_id status error_message) db =
      changed-Consistent repo_id
        (λ r. is_short status && fits (with_status status error_message r).error_count)
        (with_status status error_message) (λ r. refl) (λ r. refl) db
  perform-Consistent (set_metrics repo_id file_count error_count coverage_pct) db =
      changed-Consistent repo_id (λ r. fits file_count && fits error_count)
        (with_metrics file_count error_count coverage_pct) (λ r. refl) (λ r. refl) db
  perform-Consistent (complete_full now repo_id) db =
      changed-Consistent repo_id (λ r. true) (fully_indexed now) (λ r. refl) (λ r. refl) db
  perform-Consistent (complete_incremental now repo_id) db =
      changed-Consistent repo_id (λ r. true) (incrementally_indexed now) (λ r. refl) (λ r. refl) db
  perform-Consistent (delete repo_id) db = deleted-Consistent repo_id db
  perform-Consistent (create_job now job_id repo_id job_type) db =
      job_created-Consistent now job_id repo_id job_type db
  perform-Consistent (set_job now job_id status error_message files_processed) db =
      job_updated-Consistent now job_id status error_message files_processed db

  -- Where identifiers and URLs are unique and each grant and job is of a repository that is there, they
  -- stay so under any calls of the methods that write, the ones that fail and deletions included.
  pub perform_all-Consistent :
      (os : List (Operation Float)) (db : Database Float)
      → Consistent db
      → Consistent (perform_all os db)
  perform_all-Consistent [] db c = c
  perform_all-Consistent (o ∷ os) db c =
      perform_all-Consistent os (settle db (perform o db)) (perform-Consistent o db c)
