-- ===== src/Rbac/Tests.antt =====
-- Tests of the handlers of users, tenants, memberships and roles
-- (internal/server/rbac/handlers.go) on two users, two tenants and two roles, and what the theorems
-- state of them.
use lightai_go.Common.{
  ◌≤◌, ◌≡◌, refl, true, false, ◌&&◌, none, some, [], ◌∷◌, count_by, All, ◌==◌, inl, inr, arith,
  Bool-cases,
}
use lightai_go.Text.{Text, text, text_eq, text_beq, split}
use lightai_go.Auth.{User, Membership, Role, AuthDb, find_session, hash_string}
use lightai_go.Auth.Sessions.{
  is_live, validate_session, create_session, insert_session, new_session, is_present,
}
use lightai_go.Auth.Histories.{here as stay}
use lightai_go.Auth.Permissions.{resolve_permissions, has_permission, platform_permissions}
use lightai_go.Auth.Passwords.{verify_password, verify_parts}
use lightai_go.Auth.Middleware.{answered, denied}
use lightai_go.Auth.Login.{
  LoginRequest, LoginResponse, logged_in, login_user, login_to_tenant, user_of, choose_tenant,
  active_tenants, is_active_tenant, open_session, response_of,
}
use lightai_go.Auth.Samples.{
  server, ada, tenant, with_two, signed_in, first_info, credentials, input, second_row,
}
use lightai_go.Common.{delete_where, update_where}
use lightai_go.Rbac.{insert_membership_role, insert_role_permission}
use lightai_go.Common.{or_else}
use lightai_go.Text.Maps.{lookup, insert}
use lightai_go.Auth.{◌>>=◌}
use lightai_go.Auth.Passwords.{hash_password}
use lightai_go.Rbac.{insert_user, insert_tenant, insert_membership, insert_role}
use lightai_go.Rbac.Bootstrap.{
  BootstrapConfig, init_bootstrap, bootstrap_password, bootstrap, bootstrap_user, seed_permissions,
  insert_permission, seed_roles, seed_grants, seed_tenant, seed_user, seat_bootstrap_user,
  is_builtin_named, read_password_from_credentials_file,
}
use lightai_go.Rbac.Catalog.{BuiltinRoleDef, permission_catalog, builtin_roles}
use lightai_go.Rbac.Bootstrap.Laws.{bootstrap-IsGoverned}
use lightai_go.Rbac.Users.{
  UpdateUserRequest, has_user_id, handle_update_user, set_admin, rename_user, handle_disable_user,
  is_admin_id,
}
use lightai_go.Rbac.Tenants.{CreateTenantRequest, handle_create_tenant}
use lightai_go.Rbac.Memberships.{
  find_membership, is_membership_of, handle_add_membership_role, assign_role,
  handle_disable_membership, handle_remove_membership_role,
}
use lightai_go.Rbac.Roles.{
  find_role, handle_update_role_permissions, replace_permissions, add_permissions,
}
use lightai_go.Rbac.Steps.{
  here, next, update_user, disable_user, update_role_permissions, add_membership_role,
  remove_membership_role,
}
use lightai_go.Rbac.Admins.{IsGoverned, Steps-IsGoverned}
use lightai_go.Rbac.Scopes.{IsScoped, Steps-IsScoped}
use lightai_go.Rbac.Seats.{IsSeated, Steps-IsSeated}
use lightai_go.Rbac.Elsewhere.{IsSameElsewhere}
use lightai_go.Rbac.Isolation.{TenantStep-IsSameElsewhere}
use lightai_go.Rbac.Elsewhere.{update_role_permissions as update_grants}
use lightai_go.Rbac.Disabling.{
  handle_disable_user-validate_session, handle_disable_user-login_user,
  handle_disable_membership-has_permission, handle_create_tenant_lem, is_answered,
}

abbrev bob : User
bob = record ada { id = text "u2"; username = text "bob"; is_platform_admin = 1 }

abbrev house : AuthDb
house = record with_two {
  users = record ada { is_platform_admin = 1 } ∷ bob ∷ [];
  tenants =
      tenant
      ∷ record { id = text "t2"; slug = text "two"; name = text "Two"; status = text "active" }
      ∷ [];
  memberships =
      record { id = text "m1"; user_id = text "u1"; tenant_id = text "t1"; status = text "active" }
      ∷ record {
        id = text "m2";
        user_id = text "u2";
        tenant_id = text "t2";
        status = text "active";
      }
      ∷ [];
  roles =
      record {
        id = text "r1";
        tenant_id = none;
        name = text "viewer";
        display_name = [];
        description = [];
        status = text "active";
        built_in = 1;
      }
      ∷ record {
        id = text "r2";
        tenant_id = some (text "t1");
        name = text "operator";
        display_name = [];
        description = [];
        status = text "active";
        built_in = 0;
      }
      ∷ [];
  permissions =
      record { id = text "p1"; code = text "node:write"; scope = text "tenant" }
      ∷ record { id = text "p2"; code = text "user:write"; scope = text "platform" }
      ∷ [];
  membership_roles =
      record { membership_id = text "m1"; role_id = text "r1" }
      ∷ record { membership_id = text "m2"; role_id = text "r1" }
      ∷ [];
}

abbrev demotion : UpdateUserRequest
demotion = record { display_name = none; is_platform_admin = some false }

abbrev demoted : AuthDb
demoted = (handle_update_user (text "u2") (some demotion) house).0

-- The other administrator may be disabled no more.
still_there :
    (handle_disable_user 9 (text "u1") demoted).1
    ≡ denied 400 (text "cannot disable last active platform admin")
unfolding handle_update_user set_admin rename_user handle_disable_user is_admin_id text_beq
    update_where
still_there = refl

distinct_ids :
    (u v : User) (id : Text) → (u.id == v.id) ≡ false → count_by (has_user_id id) (u ∷ v ∷ []) ≤ 1
distinct_ids u v id apart =
    ground
      (arith, text_eq.equal_iff u.id id, text_eq.equal_iff v.id id, text_eq.equal_iff u.id v.id)

apart_lem : (text "u1" == text "u2") ≡ false
unfolding text_beq
apart_lem = refl

admins_lem : IsGoverned house
unfolding text_beq
admins_lem =
    (omega arith, λ id. distinct_ids (record ada { is_platform_admin = 1 }) bob id apart_lem)

Steps-IsGoverned_example : IsGoverned (handle_disable_user 9 (text "u1") demoted).0
Steps-IsGoverned_example =
    Steps-IsGoverned server house (handle_disable_user 9 (text "u1") demoted).0
      (next (next here (update_user (text "u2") (some demotion) house))
        (disable_user 9 (text "u1") demoted))
      admins_lem

scoped_lem : IsScoped house
unfolding text_beq
scoped_lem = refl

-- The permissions of a role of the tenant are replaced; one of the platform is refused.
granted :
    (handle_update_role_permissions (text "r2") (some (text "p1" ∷ [])) signed_in house).1
    ≡ answered tt
unfolding handle_update_role_permissions replace_permissions add_permissions insert_role_permission
    delete_where text_beq
granted = refl

not_granted :
    handle_update_role_permissions (text "r2") (some (text "p1" ∷ text "p2" ∷ [])) signed_in house
    ≡ (house, denied 400 (text "cannot assign platform permission to tenant role"))
unfolding handle_update_role_permissions replace_permissions add_permissions insert_role_permission
    delete_where text_beq
not_granted = refl

Steps-IsScoped_example :
    IsScoped (handle_update_role_permissions (text "r2") (some (text "p1" ∷ [])) signed_in house).0
Steps-IsScoped_example =
    Steps-IsScoped server house
      (handle_update_role_permissions (text "r2") (some (text "p1" ∷ [])) signed_in house).0
      (next here (update_role_permissions (text "r2") (some (text "p1" ∷ [])) signed_in house))
      scoped_lem

abbrev assigned : AuthDb
assigned = (handle_add_membership_role (text "m1") (some (text "r2")) signed_in house).0

-- One of two roles may be removed, the other not.
unassigned :
    (handle_remove_membership_role (text "m1") (text "r1") signed_in assigned).1 ≡ answered tt
unfolding handle_add_membership_role assign_role insert_membership_role
    handle_remove_membership_role text_beq
unassigned = refl

last_role :
    handle_remove_membership_role (text "m1") (text "r1") signed_in house
    ≡ (house, denied 400 (text "cannot remove last role from active membership"))
unfolding handle_remove_membership_role text_beq
last_role = refl

members_apart : (text "m1" == text "m2") ≡ false
unfolding text_beq
members_apart = refl

seats_lem : IsSeated house
unfolding text_beq
seats_lem = (
  λ id. elim (Bool-cases (text "m1" == id)) [
    | inl e ↦ rw e refl
    | inr e ↦ rw e (elim (Bool-cases (text "m2" == id)) [ inl f ↦ rw f refl | inr f ↦ rw f refl ])
  ],
  λ id role. ground (
    arith,
    members_apart,
    text_eq.equal_iff (text "m1") id,
    text_eq.equal_iff (text "m2") id,
    text_eq.equal_iff (text "m1") (text "m2"),
  ),
)

Steps-IsSeated_example :
    IsSeated (handle_remove_membership_role (text "m1") (text "r1") signed_in assigned).0
Steps-IsSeated_example =
    Steps-IsSeated server house
      (handle_remove_membership_role (text "m1") (text "r1") signed_in assigned).0
      (next (next here (add_membership_role (text "m1") (some (text "r2")) signed_in house))
        (remove_membership_role (text "m1") (text "r1") signed_in assigned))
      seats_lem

keyed_members : All (λ (m : Membership). find_membership m.id house ≡ some m) house.memberships
unfolding text_beq
keyed_members = (refl, (refl, tt))

keyed_roles : All (λ (x : Role). find_role x.id house ≡ some x) house.roles
unfolding text_beq
keyed_roles = (refl, (refl, tt))

TenantStep-IsSameElsewhere_example :
    IsSameElsewhere
      (text "t1")
      house
      (handle_update_role_permissions (text "r2") (some (text "p1" ∷ [])) signed_in house).0
TenantStep-IsSameElsewhere_example =
    TenantStep-IsSameElsewhere signed_in first_info house
      (handle_update_role_permissions (text "r2") (some (text "p1" ∷ [])) signed_in house).0 refl
      keyed_members keyed_roles (update_grants (text "r2") (some (text "p1" ∷ [])) house)

abbrev without_ada : AuthDb
without_ada = (handle_disable_user 200 (text "u1") house).0

disables : handle_disable_user 200 (text "u1") house ≡ (without_ada, answered tt)
unfolding handle_disable_user is_admin_id text_beq
disables = refl

second_there : find_session (hash_string server (text "s2")) house ≡ some second_row
unfolding hash_string text_beq
second_there = refl

handle_disable_user-validate_session_example :
    (validate_session server 300 (text "s2") without_ada).1 ≡ none
handle_disable_user-validate_session_example =
    handle_disable_user-validate_session server 200 300 none none (text "u1") (text "s2") house
      without_ada without_ada second_row (inl disables) second_there refl stay

abbrev as_bob : LoginRequest
as_bob = record credentials { username = text "bob" }

abbrev bob_in : LoginResponse
bob_in = record {
  user_id = text "u2";
  username = text "bob";
  display_name = text "Ada";
  is_platform_admin = true;
  must_change_password = false;
  tenant_id = text "t2";
  tenant_name = text "Two";
  csrf_token = text "c3";
  session_cookie = text "s3";
}

bob_enters :
    login_user server input as_bob without_ada
    ≡ ((login_user server input as_bob without_ada).0, answered (logged_in bob_in))
unfolding login_user user_of login_to_tenant choose_tenant active_tenants is_active_tenant
    open_session response_of create_session insert_session new_session hash_string text_beq
    is_present verify_password verify_parts split handle_disable_user is_admin_id update_where
    is_live
bob_enters = refl

handle_disable_user-login_user_example : (text "u2" == text "u1") ≡ false
handle_disable_user-login_user_example =
    handle_disable_user-login_user server 200 (text "u1") input as_bob house without_ada
      (login_user server input as_bob without_ada).0 bob_in disables bob_enters

abbrev first_member : Membership
first_member = record {
  id = text "m1";
  user_id = text "u1";
  tenant_id = text "t1";
  status = text "active";
}

abbrev without_member : AuthDb
without_member = (handle_disable_membership (text "m1") signed_in house).0

member_found : find_membership (text "m1") house ≡ some first_member
unfolding text_beq
member_found = refl

leaves : handle_disable_membership (text "m1") signed_in house ≡ (without_member, answered tt)
unfolding handle_disable_membership text_beq
leaves = refl

only_member :
    All
      (λ (x : Membership).
        is_membership_of (text "u1") (text "t1") x ≡ true → (x.id == text "m1") ≡ true)
      house.memberships
unfolding text_beq
only_member = ((λ own. refl), ((λ own. absurd (cc)), tt))

handle_disable_membership-has_permission_example :
    has_permission
      (resolve_permissions without_member (text "u1") (text "t1") false).1
      (text "node:write")
    ≡ (false && has_permission platform_permissions (text "node:write"))
handle_disable_membership-has_permission_example =
    handle_disable_membership-has_permission (text "m1") (text "node:write") false signed_in house
      without_member first_member member_found only_member leaves

abbrev second_tenant : CreateTenantRequest
second_tenant = record { name = text "Three"; admin_username = text "bob" }

handle_create_tenant_lem_example :
    ((handle_create_tenant (text "t3") (text "m3") (some second_tenant) house).0 ≡ house)
    × (is_answered (handle_create_tenant (text "t3") (text "m3") (some second_tenant) house).1
        ≡ false)
handle_create_tenant_lem_example =
    handle_create_tenant_lem (text "t3") (text "m3") (some second_tenant) house

abbrev nothing : AuthDb
nothing = record {
  users = [];
  tenants = tenant ∷ [];
  memberships = [];
  roles = [];
  permissions = [];
  role_permissions = [];
  membership_roles = [];
  sessions = [];
}

abbrev config : BootstrapConfig
config = record {
  username = text "root";
  password = text "engine";
  password_env = [];
  initial_password_env = [];
  force_change_password = true;
}

abbrev same_id : Text → Text
same_id s = s

abbrev first_state : AuthDb
first_state = (init_bootstrap server (some (1 ∷ [])) same_id config same_id none none nothing).0

bootstraps :
    bootstrap server (some (1 ∷ [])) same_id config (some (text "engine")) nothing
    ≡ some first_state
unfolding init_bootstrap bootstrap_password bootstrap permission_catalog builtin_roles
    seed_permissions insert_permission seed_roles seed_grants seed_tenant insert_tenant seed_user
    seat_bootstrap_user insert_user insert_role insert_role_permission insert_membership
    insert_membership_role hash_password lookup insert text_beq read_password_from_credentials_file
bootstraps = refl

bootstrap-IsGoverned_example :
    ((hash : Text) × (first_state.users ≡ bootstrap_user same_id config hash ∷ []))
    × IsGoverned first_state
bootstrap-IsGoverned_example =
    bootstrap-IsGoverned server (some (1 ∷ [])) same_id config (some (text "engine")) nothing
      first_state bootstraps refl (λ id. omega arith)

abbrev small_role : BuiltinRoleDef
small_role = record { name = text "viewer"; display_name = []; description = []; permissions = [] }

-- A second bootstrap, with ids of its own, makes the built-in roles again.
made_again :
    or_else
      (do
        first ← seed_roles (λ name. text "1") (small_role ∷ []) [] nothing
        second ← seed_roles (λ name. text "2") (small_role ∷ []) [] first
        some (count_by (is_builtin_named (text "viewer")) second.roles))
      0
    ≡ 2
unfolding seed_roles seed_grants insert_role text_beq
made_again = refl
