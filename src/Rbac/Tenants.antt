-- ===== src/Rbac/Tenants.antt =====
-- The handlers of tenants (internal/server/rbac/handlers.go), for platform administrators.
use lightai_go.Common.{
  ℕ, Bool, false, ◌&&◌, ◌||◌, Option, none, some, [], find, ◌==◌, nat_eq, if◌then◌else◌,
}
use lightai_go.Text.{Text, text, text_eq}
use lightai_go.Auth.{User, Tenant, Role, Session, AuthDb, find_tenant}
use lightai_go.Auth.Sessions.{revoke_live}
use lightai_go.Auth.Middleware.{Reply, denied, answered}
use lightai_go.Rbac.{
  inserted, not_unique, refused, insert_tenant, insert_membership, insert_membership_role,
  update_tenants,
}

pub record CreateTenantRequest : Type 0 where
  pub name : Text
  pub admin_username : Text

abbrev pub find_active_user : Text → AuthDb → Option User
find_active_user username db =
    find (λ (u : User). u.username == username && u.status == text "active") db.users

abbrev pub is_admin_role : Role → Bool
is_admin_role role = elim role.tenant_id [ none ↦ role.name == text "admin" | some t ↦ false ]

abbrev pub internal_error : {A : Type 0} → AuthDb → AuthDb × Reply A
internal_error db = (db, denied 500 (text "internal error"))

-- The statements of the transaction after the tenant's; `old` is the state that a rollback restores.
unfoldable pub seat_admin : Text → Text → User → AuthDb → AuthDb → AuthDb × Reply Text
unfolding insert_membership insert_membership_role
seat_admin id membership_id admin old db =
    elim (insert_membership
      (record { id = membership_id; user_id = admin.id; tenant_id = id; status = text "active" })
      db) [
        | not_unique ↦ internal_error old
        | refused ↦ internal_error old
        | inserted db1 ↦ elim (find is_admin_role db1.roles) [
          | none ↦ internal_error old
          | some role ↦
              elim (insert_membership_role
                (record { membership_id = membership_id; role_id = role.id }) db1) [
                  | not_unique ↦ internal_error old
                  | refused ↦ internal_error old
                  | inserted db2 ↦ (db2, answered id)
                ]
        ]
      ]

-- `HandleCreateTenant`; its statement names no slug.
unfoldable pub handle_create_tenant :
    Text → Text → Option CreateTenantRequest → AuthDb → AuthDb × Reply Text
unfolding insert_tenant seat_admin
handle_create_tenant id membership_id body db = elim body [
  | none ↦ (db, denied 400 (text "invalid request"))
  | some req ↦
      if req.name == [] || req.admin_username == []
      then (db, denied 400 (text "name and admin_username required"))
      else elim (find_active_user req.admin_username db) [
        | none ↦ (db, denied 400 (text "admin user not found or not active"))
        | some admin ↦ elim (insert_tenant id none req.name db) [
          | not_unique ↦ (db, denied 409 (text "tenant name already exists"))
          | refused ↦ internal_error db
          | inserted after ↦ seat_admin id membership_id admin db after
        ]
      ]
]

-- `HandleGetTenant`
unfoldable pub handle_get_tenant : Text → AuthDb → AuthDb × Reply Tenant
handle_get_tenant id db = elim (find_tenant id db) [
  | none ↦ (db, denied 404 (text "tenant not found"))
  | some t ↦ (db, answered t)
]

-- `HandleUpdateTenant`, with the name of the body, if it has one
unfoldable pub handle_update_tenant : Text → Option (Option Text) → AuthDb → AuthDb × Reply Unit
handle_update_tenant id none db = (db, denied 400 (text "invalid request"))
handle_update_tenant id (some none) db = (db, answered tt)
handle_update_tenant id (some (some name)) db =
    (update_tenants id (λ t. record t { name = name }) db, answered tt)

abbrev pub in_tenant : Text → Session → Bool
in_tenant id s = s.current_tenant_id == id

-- `HandleDisableTenant`
unfoldable pub handle_disable_tenant : ℕ → Text → AuthDb → AuthDb × Reply Unit
handle_disable_tenant now id db = (
  revoke_live now (in_tenant id)
      (update_tenants id (λ t. record t { status = text "disabled" }) db),
  answered tt,
)
