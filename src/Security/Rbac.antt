-- ===== src/Security/Rbac.antt =====
-- src/bob/security/rbac.py: scopes, roles, endpoint permissions and repository access.
-- The tables that the SQL statements read and write are lists of rows; a statement is written as
-- what its text says of them. The database connection itself, and its errors, are not modelled.
pub mod Scopes
pub mod Access
pub mod Listing
pub mod Examples
use runtime_ops.Base.{
  Text, codes, text_eq, ℕ, Bool, true, false, not, ◌&&◌, ◌||◌, Option, none, some, List, [], ◌∷◌,
  ◌++◌, map, select, any, all, String, if◌then◌else◌,
}

-- `Scope`, with the value of each.
pub data Scope : Type 0 where
  read_repository read_code read_dependencies write_repository trigger_reindex admin_users
        admin_keys admin_system :
      Scope

pub scope_value : Scope → Text
scope_value read_repository = codes "repo:read"
scope_value read_code = codes "code:read"
scope_value read_dependencies = codes "deps:read"
scope_value write_repository = codes "repo:write"
scope_value trigger_reindex = codes "index:trigger"
scope_value admin_users = codes "admin:users"
scope_value admin_keys = codes "admin:keys"
scope_value admin_system = codes "admin:system"

abbrev pub all_scopes : List Scope
all_scopes =
    read_repository ∷ read_code ∷ read_dependencies ∷ write_repository ∷ trigger_reindex
    ∷ admin_users ∷ admin_keys ∷ admin_system ∷ []

-- `Role`
pub data Role : Type 0 where
  viewer developer admin service_account : Role

-- `ROLE_PERMISSIONS`
pub role_permissions : Role → List Scope
role_permissions viewer = read_repository ∷ read_code ∷ read_dependencies ∷ []
role_permissions developer = read_repository ∷ read_code ∷ read_dependencies ∷ trigger_reindex ∷ []
role_permissions admin = all_scopes
role_permissions service_account = read_repository ∷ read_code ∷ read_dependencies ∷ []

-- `get_scopes_for_role`
pub get_scopes_for_role : Role → List Text
unfolding scope_value role_permissions
get_scopes_for_role role = map scope_value (role_permissions role)

-- `ENDPOINT_SCOPES.get(endpoint)`: None for the public endpoint, and for one that is not listed.
pub endpoint_scope : Text → Option Scope
endpoint_scope endpoint =
    if text_eq endpoint (codes "/api/v1/bob/search")
    then some read_code
    else if text_eq endpoint (codes "/api/v1/bob/resolve-stack-trace")
    then some read_code
    else if text_eq endpoint (codes "/api/v1/bob/dependency-graph")
    then some read_dependencies
    else if text_eq endpoint (codes "/api/v1/bob/blast-radius")
    then some read_dependencies
    else if text_eq endpoint (codes "/api/v1/bob/file")
    then some read_code
    else if text_eq endpoint (codes "/api/v1/bob/commit-diff")
    then some read_code
    else if text_eq endpoint (codes "/api/v1/bob/batch")
    then some read_code
    else none

-- `x in xs`
abbrev pub is_in : Text → List Text → Bool
is_in x xs = any (text_eq x) xs

-- `check_permission`
pub check_permission : List Text → Text → Bool
check_permission user_scopes required_scope =
    if is_in (codes "admin:system") user_scopes then true else is_in required_scope user_scopes

-- `check_endpoint_permission`: whether it returns (and raises no `AuthorizationError`).
check_required : List Text → Option Scope → Bool
check_required user_scopes none = true
check_required user_scopes (some required) = check_permission user_scopes (scope_value required)

pub check_endpoint_permission : List Text → Text → Bool
check_endpoint_permission user_scopes endpoint =
    check_required user_scopes (endpoint_scope endpoint)

-- `validate_scopes`
pub validate_scopes : List Text → Bool
unfolding scope_value
validate_scopes scopes = all (λ s. is_in s (map scope_value all_scopes)) scopes

-- The rows of `repositories`, `organization_members`, `repository_acl` and `users`.
pub record Repository : Type 0 where
  pub repo_id : Text
  pub organization_id : Option Text
  pub is_public : Bool

pub record Member : Type 0 where
  pub org_id : Text
  pub user_id : Text

pub data Action : Type 0 where
  read write : Action

pub record Grant : Type 0 where
  pub user_id : Text
  pub repo_id : Text
  pub action : Action

pub record User : Type 0 where
  pub user_id : Text
  pub role : Role

pub record Db : Type 0 where
  pub repositories : List Repository
  pub members : List Member
  pub acl : List Grant
  pub users : List User

abbrev pub same_action : Action → Action → Bool
same_action read read = true
same_action write write = true
same_action _ _ = false

-- `_is_public_repository`: the first row found.
is_public_in : Text → List Repository → Bool
is_public_in repo [] = false
is_public_in repo (r ∷ rs) = if text_eq r.repo_id repo then r.is_public else is_public_in repo rs

pub is_public_repository : Db → Text → Bool
is_public_repository db repo = is_public_in repo db.repositories

-- `om.org_id = r.organization_id`, which NULL never meets.
abbrev pub joined : Option Text → Text → Bool
joined none org = false
joined (some o) org = text_eq o org

abbrev pub in_org : Db → Text → Repository → Bool
in_org db user r = any (λ m. text_eq m.user_id user && joined r.organization_id m.org_id) db.members

-- `_is_org_member`
pub is_org_member : Db → Text → Text → Bool
is_org_member db user repo = any (λ r. text_eq r.repo_id repo && in_org db user r) db.repositories

abbrev pub is_grant : Text → Text → Action → Grant → Bool
is_grant user repo action g =
    text_eq g.user_id user && text_eq g.repo_id repo && same_action g.action action

-- `_has_acl_access`
pub has_acl_access : Db → Text → Text → Action → Bool
has_acl_access db user repo action = any (is_grant user repo action) db.acl

-- `check_repository_access`: whether it returns (and raises no `AuthorizationError`).
pub check_repository_access : Db → Text → Text → Action → Bool
check_repository_access db user repo action =
    if is_public_repository db repo
    then true
    else if is_org_member db user repo
    then true
    else has_acl_access db user repo action

-- `set(...)`
pub dedup : List Text → List Text
dedup [] = []
dedup (x ∷ xs) = let rest = dedup xs in if is_in x rest then rest else x ∷ rest

-- `get_accessible_repositories`. The source's order is that of a set; only membership is stated. Its
-- join with `organizations` is left out: it would only drop rows of an organisation that is not there,
-- which the foreign keys of docker/security-schema.sql exclude.
pub get_accessible_repositories : Db → Text → List Text
get_accessible_repositories db user =
    let public_repos = map (λ r. r.repo_id) (select (λ r. r.is_public) db.repositories) in
    let org_repos = dedup (map (λ r. r.repo_id) (select (in_org db user) db.repositories)) in
    let acl_repos =
      map (λ g. g.repo_id)
        (select
          (λ g. text_eq g.user_id user && (same_action g.action read || same_action g.action write))
          db.acl) in
    dedup (public_repos ++ (org_repos ++ acl_repos))

-- `grant_repository_access`: the insert, with ON CONFLICT DO NOTHING.
pub grant_repository_access : Db → Text → Text → Action → Db
grant_repository_access db user repo action =
    let row : Grant = record { user_id = user; repo_id = repo; action = action } in
    if any (is_grant user repo action) db.acl then db else record db { acl = row ∷ db.acl }

abbrev pub names : Text → Text → Option Action → Grant → Bool
names user repo none g = text_eq g.user_id user && text_eq g.repo_id repo
names user repo (some action) g = is_grant user repo action g

-- `revoke_repository_access`, with its result: whether a row was deleted.
pub revoke_repository_access : Db → Text → Text → Option Action → Db × Bool
revoke_repository_access db user repo action = (
  record db { acl = select (λ g. not (names user repo action g)) db.acl },
  any (names user repo action) db.acl,
)

role_in : Text → List User → Role
role_in user [] = viewer
role_in user (u ∷ us) = if text_eq u.user_id user then u.role else role_in user us

-- `get_user_role`
pub get_user_role : Db → Text → Role
unfolding role_in
get_user_role db user = role_in user db.users

-- `get_user_scopes`
pub get_user_scopes : Db → Text → List Text
get_user_scopes db user = get_scopes_for_role (get_user_role db user)

set_role : Text → Role → User → User
set_role user role u = if text_eq u.user_id user then record u { role = role } else u

-- `assign_role`, with its result: whether a row was updated.
pub assign_role : Db → Text → Role → Db × Bool
unfolding set_role
assign_role db user role = (
  record db { users = map (set_role user role) db.users },
  any (λ u. text_eq u.user_id user) db.users,
)
