-- ===== src/Rbac.antt =====
-- Management of users, tenants, memberships and roles (internal/server/rbac/handlers.go) over the
-- tables of Auth: its `INSERT` statements under the constraints of internal/server/db/db.go. The ids
-- of new rows are arguments; those of assigned roles and permissions, which nothing reads, are left out.
pub mod Users
pub mod Tenants
pub mod Memberships
pub mod Roles
pub mod Lists
pub mod Catalog
pub mod Bootstrap
pub mod Branches
pub mod Inserting
pub mod Cases
pub mod Steps
pub mod Tenancy
pub mod Scopes
pub mod Seats
pub mod Rows
pub mod Elsewhere
pub mod Isolation
pub mod Disabling
pub mod Admins
mod Tests
use lightai_go.Common.{
  ℕ, Bool, true, false, not, ◌&&◌, ◌||◌, Option, none, some, List, [], ◌∷◌, ◌++◌, any, count_by,
  update_where, ◌==◌, nat_eq, if◌then◌else◌,
}
use lightai_go.Text.{Text, text, text_eq}
use lightai_go.Auth.{
  User, Tenant, Membership, Role, Permission, RolePermission, MembershipRole, AuthDb,
}

-- The end of an `INSERT`: a row more, a failed UNIQUE or PRIMARY KEY, or another failed constraint
pub data Inserted : Type 0 where
  inserted : AuthDb → Inserted
  not_unique refused : Inserted

unfoldable pub insert_user : User → AuthDb → Inserted
insert_user u db =
    if any (λ (x : User). x.id == u.id || x.username == u.username) db.users
    then not_unique
    else inserted (record db { users = db.users ++ u ∷ [] })

-- A row of a tenant whose column `slug` is none where the statement does not name it; the column is
-- NOT NULL and has no default.
unfoldable pub insert_tenant : Text → Option Text → Text → AuthDb → Inserted
insert_tenant id slug name db = elim slug [
  | none ↦ refused
  | some s ↦
      if any (λ (x : Tenant). x.id == id || x.slug == s) db.tenants
      then not_unique
      else inserted (record db {
        tenants =
            db.tenants ++ record { id = id; slug = s; name = name; status = text "active" } ∷ [];
      })
]

unfoldable pub insert_membership : Membership → AuthDb → Inserted
insert_membership m db =
    if any
      (λ (x : Membership). x.id == m.id || (x.user_id == m.user_id && x.tenant_id == m.tenant_id))
      db.memberships
    then not_unique
    else if any (λ (u : User). u.id == m.user_id) db.users
        && any (λ (t : Tenant). t.id == m.tenant_id) db.tenants
    then inserted (record db { memberships = db.memberships ++ m ∷ [] })
    else refused

unfoldable pub insert_membership_role : MembershipRole → AuthDb → Inserted
insert_membership_role mr db =
    if any (λ (x : MembershipRole). x.membership_id == mr.membership_id && x.role_id == mr.role_id)
      db.membership_roles
    then not_unique
    else if any (λ (m : Membership). m.id == mr.membership_id) db.memberships
        && any (λ (x : Role). x.id == mr.role_id) db.roles
    then inserted (record db { membership_roles = db.membership_roles ++ mr ∷ [] })
    else refused

-- NULL is equal to nothing, so the roles of every tenant may share a name.
abbrev pub same_tenant : Option Text → Option Text → Bool
same_tenant none o = false
same_tenant (some t) none = false
same_tenant (some t) (some u) = t == u

unfoldable pub insert_role : Role → AuthDb → Inserted
insert_role role db =
    if any
      (λ (x : Role).
        x.id == role.id || (same_tenant x.tenant_id role.tenant_id && x.name == role.name))
      db.roles
    then not_unique
    else inserted (record db { roles = db.roles ++ role ∷ [] })

unfoldable pub insert_role_permission : RolePermission → AuthDb → Inserted
insert_role_permission rp db =
    if any (λ (x : RolePermission). x.role_id == rp.role_id && x.permission_id == rp.permission_id)
      db.role_permissions
    then not_unique
    else if any (λ (x : Role). x.id == rp.role_id) db.roles
        && any (λ (p : Permission). p.id == rp.permission_id) db.permissions
    then inserted (record db { role_permissions = db.role_permissions ++ rp ∷ [] })
    else refused

abbrev pub update_users : (User → Bool) → (User → User) → AuthDb → AuthDb
update_users p f db = record db { users = update_where p f db.users }

abbrev pub update_tenants : Text → (Tenant → Tenant) → AuthDb → AuthDb
update_tenants id f db = record db {
  tenants = update_where (λ (t : Tenant). t.id == id) f db.tenants;
}
