-- ===== src/Security/Rbac/Examples.antt =====
-- Access control at concrete inputs: two users, an organisation and three repositories.
use runtime_ops.Base.{Text, codes, text_eq, ◌≡◌, refl, ◌↔◌, ◌⊎◌, true, false, none, some, [], ◌∷◌}
use runtime_ops.Security.Rbac.{
  developer, is_in, check_endpoint_permission, Db, read, has_acl_access, is_public_in,
  is_public_repository, is_org_member, check_repository_access, get_accessible_repositories,
}
use runtime_ops.Security.Rbac.Scopes.{code_endpoints, dependency_endpoints, endpoint_refused_iff}
use runtime_ops.Security.Rbac.Listing.{accessible_listed}

abbrev ada : Text
ada = codes "ada"

abbrev bob : Text
bob = codes "bob"

abbrev site : Text
site = codes "site"

abbrev core : Text
core = codes "core"

abbrev db : Db
db = record {
  repositories =
      record { repo_id = site; organization_id = none; is_public = true }
      ∷ record { repo_id = core; organization_id = some (codes "acme"); is_public = false }
      ∷ [];
  members = record { org_id = codes "acme"; user_id = ada } ∷ [];
  acl = record { user_id = bob; repo_id = site; action = read } ∷ [];
  users = record { user_id = ada; role = developer } ∷ [];
}

abbrev search : Text
search = codes "/api/v1/bob/search"

endpoint_refused_iff_example :
    (check_endpoint_permission (codes "deps:read" ∷ []) search ≡ false) ↔ (
      (is_in (codes "admin:system") (codes "deps:read" ∷ []) ≡ false)
      × (((is_in search code_endpoints ≡ true)
            × (is_in (codes "code:read") (codes "deps:read" ∷ []) ≡ false))
          ⊎ ((is_in search dependency_endpoints ≡ true)
              × (is_in (codes "deps:read") (codes "deps:read" ∷ []) ≡ false))))
endpoint_refused_iff_example = endpoint_refused_iff (codes "deps:read" ∷ []) search

ada_reads_core : check_repository_access db ada core read ≡ true
unfolding check_repository_access is_public_repository is_public_in is_org_member text_eq
ada_reads_core = refl

accessible_listed_example : is_in core (get_accessible_repositories db ada) ≡ true
accessible_listed_example = accessible_listed db ada core read ada_reads_core

bob_reads_not : check_repository_access db bob core read ≡ false
unfolding check_repository_access is_public_repository is_public_in is_org_member has_acl_access
    text_eq
bob_reads_not = refl
