-- ===== src/Rbac/Tenancy.antt =====
-- Histories, for what depends on memberships, roles and permissions only
-- (internal/server/rbac/handlers.go).
use lightai_go.Common.{
  ◌≡◌, subst, false, ◌&&◌, Option, none, some, List, leb, count_by, update_where, delete_where,
  is_empty, ◌==◌,
}
use lightai_go.Text.{Text, text, text_eq}
use lightai_go.Auth.{User, Tenant, Session, Membership, Role, AuthDb, Server}
use lightai_go.Auth.Account.{set_password}
use lightai_go.Rbac.{inserted, insert_membership, insert_membership_role, insert_role}
use lightai_go.Rbac.Users.{rename_user}
use lightai_go.Rbac.Tenants.{handle_disable_tenant}
use lightai_go.Rbac.Memberships.{
  assign_roles, find_membership, has_membership_id, disabled_membership, is_role_of, is_assignment,
}
use lightai_go.Rbac.Roles.{new_role, replace_permissions}
use lightai_go.Rbac.Roles.{delete_role as delete_row}
use lightai_go.Rbac.Steps.{
  Step, create_user, update_user, disable_user, reset_password, own_password, create_tenant,
  update_tenant, disable_tenant, create_membership, disable_membership, add_membership_role,
  remove_membership_role, create_role, delete_role, update_role_permissions, sessions, Steps, here,
  next,
}
use lightai_go.Rbac.Inserting.{user_inserted}
use lightai_go.Rbac.Cases.{
  set_admin_holds, handle_create_user_holds, handle_update_user_holds, handle_disable_user_holds,
  handle_reset_password_holds, handle_create_tenant_holds, handle_update_tenant_holds,
  handle_create_membership_holds, handle_disable_membership_holds, handle_add_membership_role_holds,
  handle_remove_membership_role_holds, handle_create_role_holds, handle_delete_role_holds,
  handle_update_role_permissions_holds,
}

module _ {ℓ} (P : AuthDb → Type ℓ)
    (for_users : (rows : List User) (db : AuthDb) → P db → P (record db { users = rows }))
    (for_tenants : (rows : List Tenant) (db : AuthDb) → P db → P (record db { tenants = rows }))
    (for_sessions : (rows : List Session) (db : AuthDb) → P db → P (record db { sessions = rows }))
    (for_join : (id user tenant : Text) (ids : List Text) (db mid after : AuthDb)
      → is_empty ids ≡ false
      → insert_membership
          (record { id = id; user_id = user; tenant_id = tenant; status = text "active" })
          db
        ≡ inserted mid
      → assign_roles id ids mid ≡ some after
      → P db
      → P after)
    (for_disable : (id : Text) (db : AuthDb)
      → P db
      → P (record db {
        memberships = update_where (has_membership_id id) disabled_membership db.memberships;
      }))
    (for_assign : (id role : Text) (db after : AuthDb)
      → insert_membership_role (record { membership_id = id; role_id = role }) db ≡ inserted after
      → P db
      → P after)
    (for_remove : (id role : Text) (m : Membership) (db : AuthDb)
      → find_membership id db ≡ some m
      → (m.status == text "active" && leb (count_by (is_role_of id) db.membership_roles) 1) ≡ false
      → P db
      → P (record db {
        membership_roles = delete_where (is_assignment id role) db.membership_roles;
      }))
    (for_role : (role : Role) (db after : AuthDb)
      → insert_role role db ≡ inserted after
      → P db
      → P after)
    (for_delete : (id : Text) (db after : AuthDb) → delete_row id db ≡ some after → P db → P after)
    (for_grants : (id : Text) (ids : List Text) (db : AuthDb)
      → P db
      → P (replace_permissions id ids db).0) where
  rename_user_keeps :
      (id : Text) (name : Option Text) (db : AuthDb) → P db → P (rename_user id name db)
  unfolding rename_user
  rename_user_keeps id none db h = h
  rename_user_keeps id (some name) db h = for_users _ db h

  step_keeps : {srv : Server} {db after : AuthDb} → Step srv db after → P db → P after
  unfolding handle_disable_tenant set_password
  step_keeps {srv} (create_user salt id body db) h =
      handle_create_user_holds P srv salt id body db h
        (λ u after e. subst P (user_inserted u db after e) (for_users _ db h))
  step_keeps (update_user id body db) h = handle_update_user_holds P id body db h (λ req.
      let named = rename_user_keeps id req.display_name db h in
      set_admin_holds P id req.is_platform_admin _ named (λ b _. for_users _ _ named))
  step_keeps (disable_user now id db) h =
      handle_disable_user_holds P now id db h (λ _. for_sessions _ _ (for_users _ db h))
  step_keeps {srv} (reset_password now salt id body db) h =
      handle_reset_password_holds P srv now salt id body db h
        (λ hash. for_sessions _ _ (for_users _ db h))
  step_keeps (own_password user_id hash db) h = for_users _ db h
  step_keeps (create_tenant id membership_id body db) h =
      handle_create_tenant_holds P id membership_id body db h
  step_keeps (update_tenant id body db) h =
      handle_update_tenant_holds P id body db h (λ name. for_tenants _ db h)
  step_keeps (disable_tenant now id db) h = for_sessions _ _ (for_tenants _ db h)
  step_keeps (create_membership id body r db) h =
      handle_create_membership_holds P id body r db h (λ i req u mid after _ given _ made assigned.
        for_join id u.id i.tenant_id req.role_ids db mid after given made assigned h)
  step_keeps (disable_membership id r db) h =
      handle_disable_membership_holds P id r db h (λ i m _ _ _. for_disable id db h)
  step_keeps (add_membership_role id body r db) h =
      handle_add_membership_role_holds P id body r db h
        (λ i role_id m role after _ _ _ _ made. for_assign id role_id db after made h)
  step_keeps (remove_membership_role id role_id r db) h =
      handle_remove_membership_role_holds P id role_id r db h
        (λ i m _ found _ more. for_remove id role_id m db found more h)
  step_keeps (create_role id body r db) h =
      handle_create_role_holds P id body r db h
        (λ i req after _ made. for_role (new_role id i.tenant_id req) db after made h)
  step_keeps (delete_role id r db) h =
      handle_delete_role_holds P id r db h
        (λ i role after _ _ _ gone. for_delete id db after gone h)
  step_keeps (update_role_permissions id body r db) h =
      handle_update_role_permissions_holds P id body r db h
        (λ i role tenant ids _ _ _ _. for_grants id ids db h)
  step_keeps (sessions rows db) h = for_sessions rows db h

  pub steps_keep : {srv : Server} {db after : AuthDb} → Steps srv db after → P db → P after
  steps_keep here h = h
  steps_keep (next run step) h = step_keeps step (steps_keep run h)
