-- ===== src/Storage/Registry/Times.antt =====
-- Which repositories `detect_stale_repositories` finds.
use runtime_ops.Base.{
  Text, text_eq, text_eq_iff, ℕ, ◌+◌, ◌*◌, ◌≡◌, refl, inl, inr, ◌∙◌, Bool, true, false, not, ◌&&◌,
  ◌||◌, Option, none, some, List, [], ◌∷◌, map, select, any, all, ltb, Bool-cases, Option-cases,
  arith,
}
use runtime_ops.Storage.Tables.{Repository, Database, is_short, fits, done}
use runtime_ops.Storage.Registry.{
  has_id, with_status, with_metrics, fully_indexed, incrementally_indexed, find_repository,
  update_where, create_repository, change_repository, update_repository_status,
  update_repository_metrics, mark_full_index_complete, mark_incremental_update_complete,
  delete_repository, create_index_job, update_job_status, is_stale, detect_stale_repositories,
}
use runtime_ops.Storage.Registry.Operations.{
  Operation, create, set_status, set_metrics, complete_full, complete_incremental, delete,
  create_job, set_job, perform, settle, perform_all,
}
use runtime_ops.Storage.Registry.Keys.{all_implied, all_selected, all-append_one}

module _ {Float : Type 0} where
  found_listed :
      (repo_id : Text) (rows : List (Repository Float)) (r : Repository Float)
      → find_repository repo_id rows ≡ some r
      → any (has_id repo_id) rows ≡ true
  unfolding find_repository
  found_listed repo_id [] r h = absurd (cc h)
  found_listed repo_id (s ∷ rows) r h = ground (arith, found_listed repo_id rows r)

  stale-updated :
      (t u m : ℕ) (repo_id : Text) (rows : List (Repository Float))
      → any
          (has_id repo_id)
          (select (is_stale u m) (update_where repo_id (incrementally_indexed t) rows))
        ≡ (any (has_id repo_id) rows && ltb (t + 60 * m) u)
  unfolding update_where text_eq
  stale-updated t u m repo_id [] = refl
  stale-updated t u m repo_id (r ∷ rows) = ground (arith, stale-updated t u m repo_id rows)

  -- After `mark_incremental_update_complete` at an instant, the repository is stale exactly when more
  -- than the threshold has passed since.
  stale_after :
      (t u m : ℕ) (repo_id : Text) (db db' : Database Float)
      → mark_incremental_update_complete t repo_id db ≡ done db'
      → any (has_id repo_id) (detect_stale_repositories u m db') ≡ ltb (t + 60 * m) u
  unfolding mark_incremental_update_complete change_repository detect_stale_repositories
  stale_after t u m repo_id db db' h =
      elim (Option-cases (find_repository repo_id db.repositories)) [
        | inl e ↦ absurd (cc (rw (change_repository, e) at h))
        | inr (r, e) ↦ written e (rw (change_repository, e) at h)
      ]
    where
      written :
          {r : Repository Float}
          → find_repository repo_id db.repositories ≡ some r
          → done (record db {
            repositories = update_where repo_id (incrementally_indexed t) db.repositories;
          })
            ≡ done db'
          → any (has_id repo_id) (select (is_stale u m) db'.repositories) ≡ ltb (t + 60 * m) u
      written {r} e k = rw⁻¹ (same k) (
          stale-updated t u m repo_id db.repositories
          ∙ rw (found_listed repo_id db.repositories r e) refl)
        where
          same :
              done (record db {
                repositories = update_where repo_id (incrementally_indexed t) db.repositories;
              })
                ≡ done db'
              → record db {
                repositories = update_where repo_id (incrementally_indexed t) db.repositories;
              }
                ≡ db'
          same k = cc k

  -- The calls but `mark_incremental_update_complete` of the repository.
  abbrev pub leaves : Text → Operation Float → Bool
  leaves repo_id (complete_incremental now other) = not (text_eq other repo_id)
  leaves repo_id _ = true

  abbrev has_no_time : Repository Float → Bool
  has_no_time r = elim r.last_incremental [ none ↦ true | some t ↦ false ]

  abbrev pub never_updated : Text → List (Repository Float) → Bool
  never_updated repo_id rows = all (λ r. not (has_id repo_id r) || has_no_time r) rows

  unlisted :
      (u m : ℕ) (repo_id : Text) (rows : List (Repository Float))
      → never_updated repo_id rows ≡ true
      → any (has_id repo_id) (select (is_stale u m) rows) ≡ false
  unlisted u m repo_id [] h = refl
  unlisted u m repo_id (r ∷ rows) h = ground (arith, unlisted u m repo_id rows)

  all-map_kept :
      (p : Repository Float → Bool) (f : Repository Float → Repository Float)
      → ((r : Repository Float) → p r ≡ true → p (f r) ≡ true)
      → (rows : List (Repository Float)) → all p rows ≡ true
      → all p (map f rows) ≡ true
  all-map_kept p f kept [] h = refl
  all-map_kept p f kept (r ∷ rows) h = ground (arith, kept r, all-map_kept p f kept rows)

  module _ (repo_id : Text) where
    changed-untimed :
        (other : Text) (is_valid : Repository Float → Bool)
        (change : Repository Float → Repository Float)
        → ((r : Repository Float)
            → has_id other r ≡ true
            → (not (has_id repo_id r) || has_no_time r) ≡ true
            → (not (has_id repo_id (change r)) || has_no_time (change r)) ≡ true)
        → (db : Database Float) → never_updated repo_id db.repositories ≡ true
        → never_updated repo_id
            (settle db (change_repository other is_valid change db)).repositories
          ≡ true
    unfolding change_repository update_where
    changed-untimed other is_valid change kept db h =
        elim (Option-cases (find_repository other db.repositories)) [
          | inl e ↦ rw (settle, e) h
          | inr (r, e) ↦ elim (Bool-cases (is_valid r)) [
            | inl f ↦
                rw (settle, e, f)
                  (all-map_kept _ _ (λ s k. ground (arith, kept s)) db.repositories h)
            | inr f ↦ rw (settle, e, f) h
          ]
        ]

    created-untimed :
        (zero_coverage : Float) (now : ℕ) (other github_url status : Text) (db : Database Float)
        → never_updated repo_id db.repositories ≡ true
        → never_updated repo_id
            (settle db
              (create_repository zero_coverage now other github_url status db)).repositories
          ≡ true
    unfolding create_repository
    created-untimed zero_coverage now other github_url status db h =
        elim (Bool-cases (
          not (is_short status)
          || any (λ r. has_id other r || text_eq r.github_url github_url) db.repositories)) [
            | inl e ↦ rw e h
            | inr e ↦ rw e (all-append_one _ db.repositories _ h (ground arith))
          ]

    deleted-untimed :
        (other : Text) (db : Database Float)
        → never_updated repo_id db.repositories ≡ true
        → never_updated repo_id (settle db (delete_repository other db)).repositories ≡ true
    unfolding delete_repository
    deleted-untimed other db h = elim (Option-cases (find_repository other db.repositories)) [
      | inl e ↦ rw (settle, e) h
      | inr (r, e) ↦ rw (settle, e) (all_selected _ _ _ db.repositories (λ s k l. l) h)
    ]

    job_created-same :
        (now : ℕ) (job_id other job_type : Text) (db : Database Float)
        → (settle db (create_index_job now job_id other job_type db)).repositories ≡ db.repositories
    unfolding create_index_job
    job_created-same now job_id other job_type db = ground arith

    job_updated-same :
        (now : ℕ) (job_id status : Text) (error_message : Option Text) (files_processed : Option ℕ)
        (db : Database Float)
        → (settle db
            (update_job_status now job_id status error_message files_processed db)).repositories
          ≡ db.repositories
    unfolding update_job_status
    job_updated-same now job_id status error_message files_processed db = ground arith

    perform-untimed :
        (o : Operation Float) (db : Database Float)
        → leaves repo_id o ≡ true
        → never_updated repo_id db.repositories ≡ true
        → never_updated repo_id (settle db (perform o db)).repositories ≡ true
    unfolding update_repository_status update_repository_metrics mark_full_index_complete
        mark_incremental_update_complete
    perform-untimed (create zero_coverage now other github_url status) db l h =
        created-untimed zero_coverage now other github_url status db h
    perform-untimed (set_status other status error_message) db l h =
        changed-untimed other
          (λ r. is_short status && fits (with_status status error_message r).error_count)
          (with_status status error_message) (λ r e k. k) db h
    perform-untimed (set_metrics other file_count error_count coverage_pct) db l h =
        changed-untimed other (λ r. fits file_count && fits error_count)
          (with_metrics file_count error_count coverage_pct) (λ r e k. k) db h
    perform-untimed (complete_full now other) db l h =
        changed-untimed other (λ r. true) (fully_indexed now) (λ r e k. k) db h
    perform-untimed (complete_incremental now other) db l h =
        changed-untimed other (λ r. true) (incrementally_indexed now)
          (λ r e k. ground (arith, text_eq_iff r.repo_id other)) db h
    perform-untimed (delete other) db l h = deleted-untimed other db h
    perform-untimed (create_job now job_id other job_type) db l h =
        rw (job_created-same now job_id other job_type db) h
    perform-untimed (set_job now job_id status error_message files_processed) db l h =
        rw (job_updated-same now job_id status error_message files_processed db) h

    perform_all-untimed :
        (os : List (Operation Float)) (db : Database Float)
        → all (leaves repo_id) os ≡ true
        → never_updated repo_id db.repositories ≡ true
        → never_updated repo_id (perform_all os db).repositories ≡ true
    perform_all-untimed [] db l h = h
    perform_all-untimed (o ∷ os) db l h =
        perform_all-untimed os (settle db (perform o db)) (ground arith)
          (perform-untimed o db (ground arith) h)

  -- A repository that `mark_incremental_update_complete` has never been called for is never stale,
  -- whatever is created, indexed in full, changed or deleted, and however long ago.
  pub never_stale :
      (repo_id : Text) (os : List (Operation Float)) (db : Database Float)
      → all (λ r. not (has_id repo_id r)) db.repositories ≡ true
      → all (leaves repo_id) os ≡ true
      → (u m : ℕ) → any (has_id repo_id) (detect_stale_repositories u m (perform_all os db)) ≡ false
  unfolding detect_stale_repositories
  never_stale repo_id os db h l u m = unlisted u m repo_id (perform_all os db).repositories (
      perform_all-untimed repo_id os db l (all_implied _ _ db.repositories (λ r k. ground arith) h))
