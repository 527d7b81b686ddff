-- ===== src/Security/Rbac/Listing.antt =====
-- The list of accessible repositories, against the check of one repository.
use runtime_ops.Base.{
  Text, text_eq, text_eq_iff, text_eq_refl, text_eq_sym, ◌≡◌, refl, Bool, true, false, ◌||◌, ◌&&◌,
  List, [], ◌∷◌, map, any, any-append, select, arith, Bool-cases, inl, inr,
}
use runtime_ops.Security.Rbac.{
  Db, Repository, Grant, Action, read, write, same_action, is_in, is_grant, has_acl_access,
  is_public_in, is_public_repository, is_org_member, check_repository_access, dedup,
  get_accessible_repositories, grant_repository_access,
}
use runtime_ops.Security.Rbac.Access.{same_grant, access-grant}

is_in-dedup : (x : Text) (xs : List Text) → is_in x (dedup xs) ≡ is_in x xs
unfolding dedup
is_in-dedup x [] = refl
is_in-dedup x (y ∷ xs) = ground (arith, is_in-dedup x xs, is_in-dedup y xs, text_eq_iff x y)

is_in-map-select {ℓ} :
    {A : Type ℓ} (x : Text) (f : A → Text) (p : A → Bool) (xs : List A)
    → is_in x (map f (select p xs)) ≡ any (λ a. text_eq (f a) x && p a) xs
is_in-map-select x f p [] = refl
is_in-map-select x f p (a ∷ xs) = ground (arith, is_in-map-select x f p xs, text_eq_sym x (f a))

module _ (db : Db) (user repo : Text) where
  acl_rows :
      (rows : List Grant)
      → any
          (λ g.
            text_eq g.repo_id repo
            && (text_eq g.user_id user
                && (same_action g.action read || same_action g.action write)))
          rows
        ≡ (any (is_grant user repo read) rows || any (is_grant user repo write) rows)
  acl_rows [] = refl
  acl_rows (g ∷ rows) = ground (arith, acl_rows rows)

  -- The list holds a repository exactly where a row makes it public, or the user is a member of its
  -- organisation, or has a grant to read or to write it.
  pub listed_lem : is_in repo (get_accessible_repositories db user) ≡ (
      any (λ r. text_eq r.repo_id repo && r.is_public) db.repositories
      || (is_org_member db user repo
          || (has_acl_access db user repo read || has_acl_access db user repo write)))
  unfolding get_accessible_repositories is_org_member has_acl_access
  listed_lem = simp (is_in-dedup, any-append, is_in-map-select) (rw (acl_rows db.acl) refl)

  public_row :
      (rows : List Repository)
      → is_public_in repo rows ≡ true
      → any (λ r. text_eq r.repo_id repo && r.is_public) rows ≡ true
  unfolding is_public_in
  public_row [] h = h
  public_row (r ∷ rows) h = ground (arith, public_row rows)

  -- A repository that the user may access, to read or to write, is in the user's list.
  pub accessible_listed :
      (action : Action)
      → check_repository_access db user repo action ≡ true
      → is_in repo (get_accessible_repositories db user) ≡ true
  unfolding check_repository_access is_public_repository
  accessible_listed read h = rw listed_lem (ground (arith, public_row db.repositories))
  accessible_listed write h = rw listed_lem (ground (arith, public_row db.repositories))

  others_kept :
      (is_public_repository (grant_repository_access db user repo write) repo
        ≡ is_public_repository db repo)
      × (is_org_member (grant_repository_access db user repo write) user repo
          ≡ is_org_member db user repo)
  unfolding grant_repository_access is_public_repository is_org_member
  others_kept = elim (Bool-cases (any (is_grant user repo write) db.acl)) [
    | inl e ↦ rw e (refl, refl)
    | inr e ↦ rw e (refl, refl)
  ]

  access_granted :
      (action : Action)
      → check_repository_access (grant_repository_access db user repo write) user repo action ≡ (
          same_grant user repo write user repo action
          || check_repository_access db user repo action)
  unfolding check_repository_access
  access_granted action =
      rw (others_kept.0, others_kept.1, access-grant db user repo write user repo action)
        (ground arith)

module _ (db : Db) (user repo : Text) where
  -- The converse fails: where the user had no access, a grant to write puts the repository in the
  -- list, and the check for reading it still refuses.
  write_grant_not_readable :
      check_repository_access db user repo read ≡ false
      → let db' = grant_repository_access db user repo write in
        (is_in repo (get_accessible_repositories db' user) ≡ true)
        × (check_repository_access db' user repo read ≡ false)
  write_grant_not_readable h = (
    accessible_listed (grant_repository_access db user repo write) user repo write (
        rw (access_granted db user repo write)
          (ground (arith, text_eq_refl user, text_eq_refl repo))),
    rw (access_granted db user repo read) (ground (arith, h)),
  )
