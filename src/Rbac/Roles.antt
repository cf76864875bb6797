-- ===== src/Rbac/Roles.antt =====
-- The handlers of roles (internal/server/rbac/handlers.go), for administrators of the tenant of the
-- session in the request's context.
use lightai_go.Common.{
  Bool, not, ◌||◌, Option, none, some, List, [], ◌∷◌, ◌++◌, any, find, delete_where, ◌==◌, nat_eq,
  if◌then◌else◌,
}
use lightai_go.Text.{Text, text, text_eq}
use lightai_go.Auth.{Role, Permission, RolePermission, MembershipRole, AuthDb}
use lightai_go.Auth.Middleware.{Reply, denied, answered, aborted, Handler}
use lightai_go.Rbac.{
  inserted, not_unique, refused, same_tenant, insert_role, insert_role_permission,
}
use lightai_go.Rbac.Tenants.{internal_error}

pub record CreateRoleRequest : Type 0 where
  pub name : Text
  pub display_name : Text
  pub description : Text

abbrev pub new_role : Text → Text → CreateRoleRequest → Role
new_role id tenant req = record {
  id = id;
  tenant_id = some tenant;
  name = req.name;
  display_name = req.display_name;
  description = req.description;
  status = text "active";
  built_in = 0;
}

unfoldable pub add_role : Role → AuthDb → AuthDb × Reply Role
unfolding insert_role
add_role role db = elim (insert_role role db) [
  | not_unique ↦ (db, denied 409 (text "role name already exists in this tenant"))
  | refused ↦ internal_error db
  | inserted after ↦ (after, answered role)
]

-- `HandleCreateRole`
unfoldable pub handle_create_role : Text → Option CreateRoleRequest → Handler Role
unfolding add_role
handle_create_role id body r db = elim r.info [
  | none ↦ (db, denied 401 (text "unauthorized"))
  | some i ↦ elim body [
    | none ↦ (db, denied 400 (text "invalid request"))
    | some req ↦
        if req.name == []
        then (db, denied 400 (text "name required"))
        else add_role (new_role id i.tenant_id req) db
  ]
]

abbrev pub find_role : Text → AuthDb → Option Role
find_role id db = find (λ (x : Role). x.id == id) db.roles

abbrev pub has_role_id : Text → Role → Bool
has_role_id id x = x.id == id

abbrev pub grants_of : Text → RolePermission → Bool
grants_of role rp = rp.role_id == role

abbrev pub is_assigned : Text → AuthDb → Bool
is_assigned id db = any (λ (mr : MembershipRole). mr.role_id == id) db.membership_roles

-- `DELETE FROM roles`; the rows that refer to the role bar it.
unfoldable pub delete_role : Text → AuthDb → Option AuthDb
delete_role id db =
    if any (grants_of id) db.role_permissions || is_assigned id db
    then none
    else some (record db { roles = delete_where (has_role_id id) db.roles })

abbrev pub deleted : AuthDb → Option AuthDb → AuthDb × Reply Unit
deleted old none = internal_error old
deleted old (some db) = (db, answered tt)

-- `HandleDeleteRole`
unfoldable pub handle_delete_role : Text → Handler Unit
unfolding delete_role
handle_delete_role id r db = elim r.info [
  | none ↦ (db, denied 401 (text "unauthorized"))
  | some i ↦ elim (find_role id db) [
    | none ↦ (db, denied 404 (text "role not found"))
    | some role ↦
        if role.built_in == 1
        then (db, denied 403 (text "cannot delete built-in role"))
        else if not (same_tenant role.tenant_id (some i.tenant_id))
        then (db, denied 403 (text "forbidden"))
        else if is_assigned id db
        then (db, denied 409 (text "role is assigned to memberships, unassign first"))
        else deleted db (delete_role id db)
  ]
]

-- The loop that adds permissions; `old` is the state that a rollback restores.
unfoldable pub add_permissions : Text → List Text → AuthDb → AuthDb → AuthDb × Reply Unit
unfolding insert_role_permission
add_permissions role [] old db = (db, answered tt)
add_permissions role (id ∷ rest) old db =
    elim (find (λ (p : Permission). p.id == id) db.permissions) [
      | none ↦ (old, denied 400 (text "permission not found: " ++ id))
      | some p ↦
          if p.scope == text "platform"
          then (old, denied 400 (text "cannot assign platform permission to tenant role"))
          else elim (insert_role_permission (record { role_id = role; permission_id = id }) db) [
            | not_unique ↦ internal_error old
            | refused ↦ internal_error old
            | inserted after ↦ add_permissions role rest old after
          ]
    ]

unfoldable pub replace_permissions : Text → List Text → AuthDb → AuthDb × Reply Unit
unfolding add_permissions
replace_permissions role ids db =
    add_permissions role ids db
      (record db { role_permissions = delete_where (grants_of role) db.role_permissions })

-- `HandleUpdateRolePermissions`, with the permissions of the body; it reads the session without a
-- test for one.
unfoldable pub handle_update_role_permissions : Text → Option (List Text) → Handler Unit
unfolding replace_permissions
handle_update_role_permissions id body r db = elim (find_role id db) [
  | none ↦ (db, denied 404 (text "role not found"))
  | some role ↦
      if role.built_in == 1
      then (db, denied 403 (text "cannot modify built-in role permissions"))
      else elim role.tenant_id [
        | none ↦ (db, denied 403 (text "forbidden"))
        | some tenant ↦ elim r.info [
          | none ↦ (db, aborted)
          | some i ↦
              if not (tenant == i.tenant_id)
              then (db, denied 403 (text "forbidden"))
              else elim body [
                | none ↦ (db, denied 400 (text "invalid request"))
                | some ids ↦ replace_permissions id ids db
              ]
        ]
      ]
]
