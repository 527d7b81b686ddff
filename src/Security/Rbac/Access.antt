-- ===== src/Security/Rbac/Access.antt =====
-- Access to one repository, under grants, revocations and role assignments.
use runtime_ops.Base.{
  Text, text_eq, text_eq_iff, ◌≡◌, refl, Bool, true, false, not, ◌||◌, ◌&&◌, Option, none, some,
  List, [], ◌∷◌, map, any, select, arith, if◌then◌else◌, Bool-cases, inl, inr,
}
use runtime_ops.Security.Rbac.{
  Db, Grant, User, Role, Action, same_action, is_grant, names, has_acl_access,
  grant_repository_access, revoke_repository_access, role_in, get_user_role, get_scopes_for_role,
  get_user_scopes, set_role, assign_role,
}

-- Whether one triple is another.
abbrev pub same_grant : Text → Text → Action → Text → Text → Action → Bool
same_grant user repo action user' repo' action' =
    text_eq user user' && text_eq repo repo' && same_action action action'

-- The rows that a revocation names, seen from a triple.
abbrev pub revoked : Text → Text → Option Action → Text → Text → Action → Bool
revoked user repo none user' repo' action' = text_eq user' user && text_eq repo' repo
revoked user repo (some action) user' repo' action' =
    text_eq user' user && text_eq repo' repo && same_action action' action

same_action-sym : (a b : Action) → same_action a b ≡ same_action b a
same_action-sym a b = ground arith

module _ (db : Db) (user repo : Text) (action : Action) (user' repo' : Text)
    (action' : Action) where
  any-same :
      (rows : List Grant)
      → same_grant user repo action user' repo' action' ≡ true
      → any (is_grant user repo action) rows ≡ true
      → any (is_grant user' repo' action') rows ≡ true
  any-same [] e h = h
  any-same (g ∷ rows) e h =
      ground (arith, any-same rows e, text_eq_iff user user', text_eq_iff repo repo')

  -- A grant adds one triple to those that have access, and changes no other.
  pub access-grant :
      has_acl_access (grant_repository_access db user repo action) user' repo' action'
      ≡ (same_grant user repo action user' repo' action' || has_acl_access db user' repo' action')
  unfolding has_acl_access grant_repository_access
  access-grant = elim (Bool-cases (any (is_grant user repo action) db.acl)) [
    | inl e ↦ rw e ground (arith, any-same db.acl)
    | inr e ↦ rw e ground arith
  ]

module _ (db : Db) (user repo : Text) (action : Option Action) (user' repo' : Text)
    (action' : Action) where
  row :
      (g : Grant)
      → is_grant user' repo' action' g ≡ true
      → names user repo action g ≡ revoked user repo action user' repo' action'
  row g h = named action
    where
      same_user : g.user_id ≡ user'
      same_user = (text_eq_iff g.user_id user').0 (ground arith)

      same_repo : g.repo_id ≡ repo'
      same_repo = (text_eq_iff g.repo_id repo').0 (ground arith)

      same_act : (a b : Action) → same_action a b ≡ true → a ≡ b
      same_act a b e = ground arith

      named : (o : Option Action) → names user repo o g ≡ revoked user repo o user' repo' action'
      named none = cc (same_user, same_repo)
      named (some a) = cc (same_user, same_repo, same_act g.action action' (ground arith))

  any-revoke :
      (rows : List Grant)
      → any (is_grant user' repo' action') (select (λ g. not (names user repo action g)) rows) ≡ (
          not (revoked user repo action user' repo' action')
          && any (is_grant user' repo' action') rows)
  any-revoke [] = ground arith
  any-revoke (g ∷ rows) = ground (arith, any-revoke rows, row g)

  -- A revocation takes away the triples that it names, and no other.
  access-revoke :
      has_acl_access (revoke_repository_access db user repo action).0 user' repo' action' ≡ (
        not (revoked user repo action user' repo' action') && has_acl_access db user' repo' action')
  unfolding has_acl_access revoke_repository_access
  access-revoke = any-revoke db.acl

module _ (db : Db) (user : Text) (role : Role) where
  roles_after :
      (us : List User) (user' : Text)
      → role_in user' (map (set_role user role) us) ≡ (
          if text_eq user user' && any (λ u. text_eq u.user_id user) us
          then role
          else role_in user' us)
  unfolding role_in set_role
  roles_after [] user' = ground arith
  roles_after (u ∷ us) user' = ground (
    arith,
    roles_after us user',
    text_eq_iff u.user_id user,
    text_eq_iff u.user_id user',
    text_eq_iff user user',
  )

  -- Assigning a role changes the scopes of that user, if there is one, to those of the role, and of
  -- no other; the result says whether there is one.
  scopes-assign :
      (user' : Text)
      → let (db', found) = assign_role db user role in
        get_user_scopes db' user' ≡ (
          if text_eq user user' && found
          then get_scopes_for_role role
          else get_user_scopes db user')
  unfolding get_user_scopes get_user_role assign_role
  scopes-assign user' =
      rw (roles_after db.users user')
        (pick (text_eq user user' && any (λ u. text_eq u.user_id user) db.users))
    where
      pick :
          (b : Bool)
          → get_scopes_for_role (if b then role else role_in user' db.users)
            ≡ (if b then get_scopes_for_role role else get_scopes_for_role (role_in user' db.users))
      pick true = refl
      pick false = refl
