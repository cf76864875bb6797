-- ===== src/Rbac/Bootstrap.antt =====
-- The first administrator and the built-in permissions and roles
-- (internal/server/auth/bootstrap.go). The ids that are made, the environment, the file of the
-- credentials and the random password are arguments; writing that file is left out.
pub mod Laws
use lightai_go.Common.{
  ℕ, Bool, true, false, not, ◌&&◌, ◌||◌, Option, none, some, List, [], ◌∷◌, ◌++◌, any, find,
  or_else, ◌==◌, nat_eq, if◌then◌else◌,
}
use lightai_go.Text.{Text, text, text_eq, trim_space, has_prefix, fields, split}
use lightai_go.Text.Maps.{Map, lookup, insert}
use lightai_go.Auth.{
  ◌>>=◌, User, Tenant, Membership, Role, Permission, RolePermission, MembershipRole, AuthDb, Server,
}
use lightai_go.Auth.Passwords.{hash_password}
use lightai_go.Rbac.{
  Inserted, inserted, not_unique, refused, insert_user, insert_tenant, insert_membership,
  insert_membership_role, insert_role, insert_role_permission,
}
use lightai_go.Rbac.Memberships.{is_membership_of}
use lightai_go.Rbac.Catalog.{PermissionDef, BuiltinRoleDef, permission_catalog, builtin_roles}

pub record BootstrapConfig : Type 0 where
  pub username : Text
  pub password : Text
  pub password_env : Text
  pub initial_password_env : Text
  pub force_change_password : Bool

unfoldable pub insert_permission : Permission → AuthDb → Inserted
insert_permission p db =
    if any (λ (x : Permission). x.id == p.id || x.code == p.code) db.permissions
    then not_unique
    else inserted (record db { permissions = db.permissions ++ p ∷ [] })

-- `INSERT OR IGNORE`, which passes over a row that is not unique
abbrev pub or_ignore : AuthDb → Inserted → Option AuthDb
or_ignore db (inserted after) = some after
or_ignore db not_unique = some db
or_ignore db refused = none

-- "Initialize permission catalog", with the map from codes to ids
unfoldable pub seed_permissions :
    (Text → Text) → List PermissionDef → Map → AuthDb → Option (AuthDb × Map)
unfolding insert_permission insert
seed_permissions new [] ids db = some (db, ids)
seed_permissions new (p ∷ rest) ids db = do
  after ←
      or_ignore db
        (insert_permission (record { id = new p.code; code = p.code; scope = p.scope }) db)
  row ← find (λ (x : Permission). x.code == p.code) after.permissions
  seed_permissions new rest (insert p.code row.id ids) after

unfoldable pub seed_grants : Text → List Text → Map → AuthDb → Option AuthDb
unfolding insert_role_permission lookup
seed_grants role [] ids db = some db
seed_grants role (code ∷ rest) ids db = do
  id ← lookup code ids
  after ← or_ignore db (insert_role_permission (record { role_id = role; permission_id = id }) db)
  seed_grants role rest ids after

abbrev pub is_builtin_named : Text → Role → Bool
is_builtin_named name role = elim role.tenant_id [ none ↦ role.name == name | some t ↦ false ]

abbrev pub builtin_role : Text → BuiltinRoleDef → Role
builtin_role id role = record {
  id = id;
  tenant_id = none;
  name = role.name;
  display_name = role.display_name;
  description = role.description;
  status = text "active";
  built_in = 1;
}

-- "Initialize built-in roles and their permissions"
unfoldable pub seed_roles : (Text → Text) → List BuiltinRoleDef → Map → AuthDb → Option AuthDb
unfolding insert_role seed_grants
seed_roles new [] ids db = some db
seed_roles new (role ∷ rest) ids db = do
  after ← or_ignore db (insert_role (builtin_role (new role.name) role) db)
  row ← find (is_builtin_named role.name) after.roles
  seeded ← seed_grants row.id role.permissions ids after
  seed_roles new rest ids seeded

-- "Initialize default tenant"
unfoldable pub seed_tenant : AuthDb → Option (AuthDb × Text)
unfolding insert_tenant
seed_tenant db = elim (find (λ (t : Tenant). t.slug == text "default") db.tenants) [
  | some t ↦ some (db, t.id)
  | none ↦
      elim (insert_tenant (text "a0000000-0000-0000-0000-000000000001") (some (text "default"))
        (text "Default Tenant") db) [
          | inserted after ↦ some (after, text "a0000000-0000-0000-0000-000000000001")
          | not_unique ↦ none
          | refused ↦ none
        ]
]

unfoldable pub password_of_lines : List Text → Text
unfolding trim_space has_prefix fields
password_of_lines [] = []
password_of_lines (line ∷ rest) =
    let later = password_of_lines rest in
    if has_prefix (trim_space line) (text "Password:")
    then elim (fields (trim_space line)) [
      | [] ↦ later
      | one ∷ [] ↦ later
      | one ∷ password ∷ others ↦ password
    ]
    else later

-- `readPasswordFromCredentialsFile`, on the file if it can be read
unfoldable pub read_password_from_credentials_file : Option Text → Text
unfolding password_of_lines split
read_password_from_credentials_file file = elim file [
  | none ↦ []
  | some content ↦ password_of_lines (split 10 content)
]

abbrev pub env_or : (Text → Text) → Text → Text → Text
env_or getenv name password =
    if not (name == []) && not (getenv name == []) then getenv name else password

-- "Determine bootstrap admin password"; the last argument is the password made at random.
unfoldable pub bootstrap_password :
    BootstrapConfig → (Text → Text) → Option Text → Option Text → Option Text
unfolding read_password_from_credentials_file
bootstrap_password cfg getenv file generated =
    let preferred = env_or getenv cfg.initial_password_env cfg.password in
    let legacy = if preferred == [] then env_or getenv cfg.password_env preferred else preferred in
    let kept = if legacy == [] then read_password_from_credentials_file file else legacy in
    if kept == [] then generated else some kept

-- "Create membership for bootstrap user in default tenant" and "Bind built-in admin role"
unfoldable pub seat_bootstrap_user : (Text → Text) → Text → Text → AuthDb → Option AuthDb
unfolding insert_membership insert_membership_role
seat_bootstrap_user new tenant user db = do
  joined ← or_ignore db (
      insert_membership
        (record {
          id = new (text "membership");
          user_id = user;
          tenant_id = tenant;
          status = text "active";
        })
        db)
  m ← find (is_membership_of user tenant) joined.memberships
  role ← find (is_builtin_named (text "admin")) joined.roles
  or_ignore joined
      (insert_membership_role (record { membership_id = m.id; role_id = role.id }) joined)

abbrev pub bootstrap_user : (Text → Text) → BootstrapConfig → Text → User
bootstrap_user new cfg hash = record {
  id = new (text "user");
  username = cfg.username;
  password_hash = hash;
  display_name = text "Administrator";
  status = text "active";
  is_platform_admin = 1;
  must_change_password = if cfg.force_change_password then 1 else 0;
}

-- "Create bootstrap admin user" and what follows
unfoldable pub seed_user : (Text → Text) → BootstrapConfig → Text → Text → AuthDb → Option AuthDb
unfolding insert_user seat_bootstrap_user
seed_user new cfg tenant hash db = do
  after ← or_ignore db (insert_user (bootstrap_user new cfg hash) db)
  u ← find (λ (u : User). u.username == cfg.username) after.users
  seat_bootstrap_user new tenant u.id after

-- The statements of the transaction
unfoldable pub bootstrap :
    Server
    → Option (List ℕ)
    → (Text → Text)
    → BootstrapConfig
    → Option Text
    → AuthDb
    → Option AuthDb
unfolding permission_catalog builtin_roles seed_permissions seed_roles seed_tenant seed_user
    hash_password
bootstrap srv salt new cfg password db = do
  permitted ← seed_permissions new permission_catalog [] db
  with_roles ← seed_roles new builtin_roles permitted.1 permitted.0
  housed ← seed_tenant with_roles
  chosen ← password
  hash ← hash_password srv salt chosen
  seed_user new cfg housed.1 hash housed.0

-- `InitBootstrap`; an error rolls the transaction back.
unfoldable pub init_bootstrap :
    Server
    → Option (List ℕ)
    → (Text → Text)
    → BootstrapConfig
    → (Text → Text)
    → Option Text
    → Option Text
    → AuthDb
    → AuthDb × Bool
unfolding bootstrap bootstrap_password
init_bootstrap srv salt new cfg getenv file generated db =
    elim (bootstrap srv salt new cfg (bootstrap_password cfg getenv file generated) db) [
      | none ↦ (db, false)
      | some after ↦ (after, true)
    ]
