-- ===== src/Storage/Registry/Repositories.antt =====
-- The calls on repositories keep the keys unique and the references good.
use runtime_ops.Base.{
  Text, text_eq, ℕ, ◌≡◌, refl, inl, inr, Bool, true, not, ◌||◌, List, [], ◌∷◌, ◌++◌, map, select,
  any, any-append, ◌∙◌, text_eq_iff, Bool-cases, Option-cases, arith, if◌then◌else◌,
}
use runtime_ops.Storage.Tables.{Repository, Database, is_short}
use runtime_ops.Storage.Registry.{
  has_id, find_repository, update_where, create_repository, change_repository, delete_repository,
}
use runtime_ops.Storage.Registry.Keys.{
  distinct-append, distinct-map, distinct-select, any-key_map, all_implied, all_selected, any-or,
}
use runtime_ops.Storage.Registry.Operations.{settle, refers, Consistent}

module _ {Float : Type 0} where
  pub refers-map :
      (f : Repository Float → Repository Float)
      → ((r : Repository Float) → (f r).repo_id ≡ r.repo_id)
      → (rows : List (Repository Float)) (i : Text) → refers rows i ≡ true
      → refers (map f rows) i ≡ true
  refers-map f same rows i h = any-key_map (λ r. r.repo_id) f same i rows ∙ h

  pub refers-append :
      (rows : List (Repository Float)) (r : Repository Float) (i : Text)
      → refers rows i ≡ true
      → refers (rows ++ r ∷ []) i ≡ true
  refers-append rows r i h = rw (any-append (has_id i) rows (r ∷ []), h) refl

  -- A reference to another repository survives the deletion of a row.
  pub refers-select :
      (id : Text) (rows : List (Repository Float)) (i : Text)
      → not (text_eq i id) ≡ true
      → refers rows i ≡ true
      → refers (select (λ r. not (has_id id r)) rows) i ≡ true
  refers-select id [] i h k = k
  refers-select id (r ∷ rows) i h k =
      ground (arith, text_eq_iff r.repo_id i, refers-select id rows i)

  -- An update of rows that leaves the keys.
  pub changed-Consistent :
      (repo_id : Text) (is_valid : Repository Float → Bool)
      (change : Repository Float → Repository Float)
      → ((r : Repository Float) → (change r).repo_id ≡ r.repo_id)
      → ((r : Repository Float) → (change r).github_url ≡ r.github_url)
      → (db : Database Float) → Consistent db
      → Consistent (settle db (change_repository repo_id is_valid change db))
  unfolding change_repository update_where
  changed-Consistent repo_id is_valid change same_id same_url db
        (ids, urls, job_ids, grants, jobs) =
      let c : Consistent db = (ids, urls, job_ids, grants, jobs) in
      elim (Option-cases (find_repository repo_id db.repositories)) [
        | inl e ↦ rw (settle, e) c
        | inr (r, e) ↦ elim (Bool-cases (is_valid r)) [
          | inl f ↦
              rw (settle, e, f)
                (
                  distinct-map (λ s. s.repo_id) _ changed_id db.repositories ∙ ids,
                  distinct-map (λ s. s.github_url) _ changed_url db.repositories ∙ urls,
                  job_ids,
                  all_implied _ _ db.grants (λ g. refers-map _ changed_id db.repositories g.repo_id)
                      grants,
                  all_implied _ _ db.jobs (λ j. refers-map _ changed_id db.repositories j.repo_id)
                      jobs,
                )
          | inr f ↦ rw (settle, e, f) c
        ]
      ]
    where
      changed_id :
          (s : Repository Float) → (if has_id repo_id s then change s else s).repo_id ≡ s.repo_id
      changed_id s = ground (arith, same_id s)

      changed_url :
          (s : Repository Float)
          → (if has_id repo_id s then change s else s).github_url ≡ s.github_url
      changed_url s = ground (arith, same_url s)

  pub created-Consistent :
      (zero_coverage : Float) (now : ℕ) (repo_id github_url status : Text) (db : Database Float)
      → Consistent db
      → Consistent (settle db (create_repository zero_coverage now repo_id github_url status db))
  unfolding create_repository
  created-Consistent zero_coverage now repo_id github_url status db
        (ids, urls, job_ids, grants, jobs) =
      let c : Consistent db = (ids, urls, job_ids, grants, jobs) in
      elim (Bool-cases (
        not (is_short status)
        || any (λ r. has_id repo_id r || text_eq r.github_url github_url) db.repositories)) [
          | inl e ↦ rw e c
          | inr e ↦ rw e (
            distinct-append (λ s. s.repo_id) db.repositories _ ids
                (ground (
                  arith,
                  any-or (has_id repo_id) (λ r. text_eq r.github_url github_url) db.repositories,
                )),
            distinct-append (λ s. s.github_url) db.repositories _ urls
                (ground (
                  arith,
                  any-or (has_id repo_id) (λ r. text_eq r.github_url github_url) db.repositories,
                )),
            job_ids,
            all_implied _ _ db.grants (λ g. refers-append db.repositories _ g.repo_id) grants,
            all_implied _ _ db.jobs (λ j. refers-append db.repositories _ j.repo_id) jobs,
          )
        ]

  pub deleted-Consistent :
      (repo_id : Text) (db : Database Float)
      → Consistent db
      → Consistent (settle db (delete_repository repo_id db))
  unfolding delete_repository
  deleted-Consistent repo_id db (ids, urls, job_ids, grants, jobs) =
      let c : Consistent db = (ids, urls, job_ids, grants, jobs) in
      elim (Option-cases (find_repository repo_id db.repositories)) [
        | inl e ↦ rw (settle, e) c
        | inr (r, e) ↦
            rw (settle, e)
              (
                distinct-select (λ s. s.repo_id) _ db.repositories ids,
                distinct-select (λ s. s.github_url) _ db.repositories urls,
                distinct-select (λ j. j.job_id) _ db.jobs job_ids,
                all_selected _ _ _ db.grants (λ g. refers-select repo_id db.repositories g.repo_id)
                    grants,
                all_selected _ _ _ db.jobs (λ j. refers-select repo_id db.repositories j.repo_id)
                    jobs,
              )
      ]
