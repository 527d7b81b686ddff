-- ===== src/Security/Rbac/Scopes.antt =====
-- Endpoint permissions and the scopes of roles.
use runtime_ops.Base.{
  if◌then◌else◌, Text, codes, text_eq, text_eq_iff, Bool-cases, ◌≡◌, refl, ◌↔◌, Bool, true, false,
  ◌||◌, Option, none, some, List, [], ◌∷◌, arith, inl, inr, ◌⊎◌,
}
use runtime_ops.Security.Rbac.{
  Scope, read_repository, read_code, read_dependencies, write_repository, trigger_reindex,
  admin_users, admin_keys, admin_system, scope_value, Role, viewer, developer, admin,
  service_account, role_permissions, get_scopes_for_role, endpoint_scope, is_in, check_required,
  check_permission, check_endpoint_permission,
}

-- The endpoints for code and the ones for dependencies.
abbrev pub code_endpoints : List Text
code_endpoints =
    codes "/api/v1/bob/search"
    ∷ codes "/api/v1/bob/resolve-stack-trace"
    ∷ codes "/api/v1/bob/file"
    ∷ codes "/api/v1/bob/commit-diff"
    ∷ codes "/api/v1/bob/batch"
    ∷ []

abbrev pub dependency_endpoints : List Text
dependency_endpoints = codes "/api/v1/bob/dependency-graph" ∷ codes "/api/v1/bob/blast-radius" ∷ []

lists_apart :
    (endpoint : Text)
    → is_in endpoint dependency_endpoints ≡ true
    → is_in endpoint code_endpoints ≡ false
unfolding text_eq
lists_apart endpoint h =
    elim (Bool-cases (text_eq endpoint (codes "/api/v1/bob/dependency-graph"))) [
      | inl e ↦ rw ((text_eq_iff endpoint (codes "/api/v1/bob/dependency-graph")).0 e) refl
      | inr e ↦
          rw ((text_eq_iff endpoint (codes "/api/v1/bob/blast-radius")).0 (last _ (rw e at h))) refl
    ]
  where
    last : (b : Bool) → (b || false) ≡ true → b ≡ true
    last true h = refl
    last false h = h

-- The table gives each endpoint of the two lists its scope, and no scope to another.
endpoint_scope_lem :
    (endpoint : Text)
    → endpoint_scope endpoint ≡ (
        if is_in endpoint code_endpoints
        then some read_code
        else if is_in endpoint dependency_endpoints
        then some read_dependencies
        else none)
unfolding endpoint_scope text_eq
endpoint_scope_lem endpoint =
    elim (Bool-cases (text_eq endpoint (codes "/api/v1/bob/dependency-graph"))) [
      | inl e ↦ rw ((text_eq_iff endpoint (codes "/api/v1/bob/dependency-graph")).0 e) refl
      | inr e ↦ elim (Bool-cases (text_eq endpoint (codes "/api/v1/bob/blast-radius"))) [
        | inl f ↦ rw ((text_eq_iff endpoint (codes "/api/v1/bob/blast-radius")).0 f) refl
        | inr f ↦
            rw (e, f)
              (same (text_eq endpoint (codes "/api/v1/bob/search"))
                (text_eq endpoint (codes "/api/v1/bob/resolve-stack-trace"))
                (text_eq endpoint (codes "/api/v1/bob/file"))
                (text_eq endpoint (codes "/api/v1/bob/commit-diff"))
                (text_eq endpoint (codes "/api/v1/bob/batch")))
      ]
    ]
  where
    same :
        (a b c d e : Bool)
        → ◌≡◌ {A = Option Scope}
            (if a
              then some read_code
              else if b
              then some read_code
              else if c
              then some read_code
              else if d
              then some read_code
              else if e
              then some read_code
              else none)
            (if a || (b || (c || (d || (e || false)))) then some read_code else none)
    same a b c d e = ground arith

refused_by :
    (scopes : List Text) (code deps : Bool)
    → (deps ≡ true → code ≡ false)
    → (check_required scopes
          (if code then some read_code else if deps then some read_dependencies else none)
        ≡ false)
      ↔ ((is_in (codes "admin:system") scopes ≡ false)
          × (((code ≡ true) × (is_in (codes "code:read") scopes ≡ false))
              ⊎ ((deps ≡ true) × (is_in (codes "deps:read") scopes ≡ false))))
unfolding check_required check_permission scope_value
refused_by scopes true true h = absurd (cc (h refl))
refused_by scopes true false h = (λ k. (ground arith, inl (refl, ground arith)), λ k. ground arith)
refused_by scopes false true h = (λ k. (ground arith, inr (refl, ground arith)), λ k. ground arith)
refused_by scopes false false h = (λ k. absurd (cc k), λ k. ground arith)

-- A list of scopes is refused exactly at the five endpoints for code where "code:read" is not in it,
-- and at the two for dependencies where "deps:read" is not in it, unless "admin:system" is. Every other
-- endpoint is open to every list, the empty one included.
pub endpoint_refused_iff :
    (scopes : List Text) (endpoint : Text)
    → (check_endpoint_permission scopes endpoint ≡ false) ↔ (
        (is_in (codes "admin:system") scopes ≡ false)
        × (((is_in endpoint code_endpoints ≡ true) × (is_in (codes "code:read") scopes ≡ false))
            ⊎ ((is_in endpoint dependency_endpoints ≡ true)
                × (is_in (codes "deps:read") scopes ≡ false))))
unfolding check_endpoint_permission
endpoint_refused_iff scopes endpoint = rw (endpoint_scope_lem endpoint) (
    refused_by scopes (is_in endpoint code_endpoints) (is_in endpoint dependency_endpoints)
      (lists_apart endpoint))

endpoint_scope-cases :
    (endpoint : Text)
    → (endpoint_scope endpoint ≡ none)
      ⊎ ((endpoint_scope endpoint ≡ some read_code)
          ⊎ (endpoint_scope endpoint ≡ some read_dependencies))
unfolding endpoint_scope
endpoint_scope-cases endpoint = ground arith

reads :
    (role : Role)
    → (is_in (scope_value read_code) (get_scopes_for_role role) ≡ true)
      × (is_in (scope_value read_dependencies) (get_scopes_for_role role) ≡ true)
unfolding get_scopes_for_role text_eq
reads viewer = (refl, refl)
reads developer = (refl, refl)
reads admin = (refl, refl)
reads service_account = (refl, refl)

permitted :
    (scopes : List Text) (v : Text) → is_in v scopes ≡ true → check_permission scopes v ≡ true
unfolding check_permission
permitted scopes v h = ground arith

-- The scopes that endpoints ask for are in every role, so each role may use each endpoint.
every_role_allowed :
    (role : Role) (endpoint : Text)
    → check_endpoint_permission (get_scopes_for_role role) endpoint ≡ true
unfolding check_endpoint_permission check_required
every_role_allowed role endpoint = elim (endpoint_scope-cases endpoint) [
  | inl e ↦ rw e
  | inr (inl e) ↦ rw e (permitted (get_scopes_for_role role) (scope_value read_code) (reads role).0)
  | inr (inr e) ↦
      rw e (permitted (get_scopes_for_role role) (scope_value read_dependencies) (reads role).1)
]

abbrev pub same_scope : Scope → Scope → Bool
same_scope read_repository read_repository = true
same_scope read_code read_code = true
same_scope read_dependencies read_dependencies = true
same_scope write_repository write_repository = true
same_scope trigger_reindex trigger_reindex = true
same_scope admin_users admin_users = true
same_scope admin_keys admin_keys = true
same_scope admin_system admin_system = true
same_scope _ _ = false

abbrev pub has_scope : List Scope → Scope → Bool
has_scope [] sc = false
has_scope (x ∷ xs) sc = same_scope sc x || has_scope xs sc

-- The scope strings of a role grant exactly the scopes of its list in `ROLE_PERMISSIONS`: no two
-- scopes share a string, and only the administrator's role holds the scope that grants all.
role_grants :
    (role : Role) (sc : Scope)
    → check_permission (get_scopes_for_role role) (scope_value sc)
      ≡ has_scope (role_permissions role) sc
unfolding check_permission get_scopes_for_role text_eq
role_grants role sc = ground arith
