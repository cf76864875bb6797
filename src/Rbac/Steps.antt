-- ===== src/Rbac/Steps.antt =====
-- The histories of the tables under the handlers of internal/server/rbac, with any change of the
-- sessions and the change of one's own password (internal/server/auth) among them.
use lightai_go.Common.{ℕ, Option, List}
use lightai_go.Text.{Text}
use lightai_go.Auth.{Session, AuthDb, Server}
use lightai_go.Auth.Sessions.{with_sessions}
use lightai_go.Auth.Requests.{Request}
use lightai_go.Auth.Account.{set_password}
use lightai_go.Rbac.Users.{
  CreateUserRequest, UpdateUserRequest, handle_create_user, handle_update_user, handle_disable_user,
  handle_reset_password,
}
use lightai_go.Rbac.Tenants.{
  CreateTenantRequest, handle_create_tenant, handle_update_tenant, handle_disable_tenant,
}
use lightai_go.Rbac.Memberships.{
  CreateMembershipRequest, handle_create_membership, handle_disable_membership,
  handle_add_membership_role, handle_remove_membership_role,
}
use lightai_go.Rbac.Roles.{
  CreateRoleRequest, handle_create_role, handle_delete_role, handle_update_role_permissions,
}

pub data Step (srv : Server) : AuthDb → AuthDb → Type 0 where
  create_user :
      (salt : Option (List ℕ)) (id : Text) (body : Option CreateUserRequest) (db : AuthDb)
      → Step srv db (handle_create_user srv salt id body db).0
  update_user :
      (id : Text) (body : Option UpdateUserRequest) (db : AuthDb)
      → Step srv db (handle_update_user id body db).0
  disable_user : (now : ℕ) (id : Text) (db : AuthDb) → Step srv db (handle_disable_user now id db).0
  reset_password :
      (now : ℕ) (salt : Option (List ℕ)) (id : Text) (body : Option Text) (db : AuthDb)
      → Step srv db (handle_reset_password srv now salt id body db).0
  own_password : (user_id hash : Text) (db : AuthDb) → Step srv db (set_password user_id hash db)
  create_tenant :
      (id membership_id : Text) (body : Option CreateTenantRequest) (db : AuthDb)
      → Step srv db (handle_create_tenant id membership_id body db).0
  update_tenant :
      (id : Text) (body : Option (Option Text)) (db : AuthDb)
      → Step srv db (handle_update_tenant id body db).0
  disable_tenant :
      (now : ℕ) (id : Text) (db : AuthDb) → Step srv db (handle_disable_tenant now id db).0
  create_membership :
      (id : Text) (body : Option CreateMembershipRequest) (r : Request) (db : AuthDb)
      → Step srv db (handle_create_membership id body r db).0
  disable_membership :
      (id : Text) (r : Request) (db : AuthDb) → Step srv db (handle_disable_membership id r db).0
  add_membership_role :
      (id : Text) (body : Option Text) (r : Request) (db : AuthDb)
      → Step srv db (handle_add_membership_role id body r db).0
  remove_membership_role :
      (id role_id : Text) (r : Request) (db : AuthDb)
      → Step srv db (handle_remove_membership_role id role_id r db).0
  create_role :
      (id : Text) (body : Option CreateRoleRequest) (r : Request) (db : AuthDb)
      → Step srv db (handle_create_role id body r db).0
  delete_role : (id : Text) (r : Request) (db : AuthDb) → Step srv db (handle_delete_role id r db).0
  update_role_permissions :
      (id : Text) (body : Option (List Text)) (r : Request) (db : AuthDb)
      → Step srv db (handle_update_role_permissions id body r db).0
  sessions : (rows : List Session) (db : AuthDb) → Step srv db (with_sessions rows db)

pub data Steps (srv : Server) (db : AuthDb) : AuthDb → Type 0 where
  here : Steps srv db db
  next : {mid after : AuthDb} → Steps srv db mid → Step srv mid after → Steps srv db after
