-- ===== src/Auth/Permissions.antt =====
-- The roles and permissions of a user in a tenant (internal/server/auth/middleware.go). Go ranges
-- over its sets in any order; here a set is a list in the order of first insertion.
use lightai_go.Common.{
  concat_map, Bool, true, false, ◌&&◌, none, some, List, [], ◌∷◌, map, find, filter_by, nat_eq,
  ◌==◌, if◌then◌else◌,
}
use lightai_go.Text.{Text, text, text_eq}
use lightai_go.Auth.{Membership, Role, RolePermission, MembershipRole, Permission, AuthDb}

abbrev pub is_member : Text → Text → Membership → Bool
is_member user_id tenant_id m =
    m.user_id == user_id && m.tenant_id == tenant_id && m.status == text "active"

-- The permissions' codes of a role
unfoldable pub codes_of : AuthDb → Text → List Text
codes_of db role_id =
    concat_map
      (λ (rp : RolePermission).
        if rp.role_id == role_id
        then map (λ (p : Permission). p.code)
            (filter_by (λ (p : Permission). p.id == rp.permission_id) db.permissions)
        else [])
      db.role_permissions

-- The rows of the query: an active role of the membership, with a permission's code
unfoldable pub granted_rows : AuthDb → Text → List (Text × Text)
unfolding codes_of
granted_rows db membership_id =
    concat_map
      (λ (mr : MembershipRole).
        if mr.membership_id == membership_id
        then concat_map
            (λ (r : Role).
              if r.id == mr.role_id && r.status == text "active"
              then map (λ (c : Text). (r.id, c)) (codes_of db r.id)
              else [])
            db.roles
        else [])
      db.membership_roles

-- `set[k] = true`
unfoldable pub add_to : List Text → Text → List Text
add_to [] k = k ∷ []
add_to (j ∷ rest) k = if j == k then j ∷ rest else j ∷ add_to rest k

unfoldable pub add_all : List Text → List Text → List Text
unfolding add_to
add_all known [] = known
add_all known (k ∷ rest) = add_all (add_to known k) rest

abbrev pub platform_permissions : List Text
platform_permissions =
    text "platform:user:manage"
    ∷ text "platform:tenant:manage"
    ∷ text "platform:settings:write"
    ∷ []

-- The rows of the user's membership, if it has one whose id is not empty
unfoldable pub member_rows : AuthDb → Text → Text → List (Text × Text)
unfolding granted_rows
member_rows db user_id tenant_id = elim (find (is_member user_id tenant_id) db.memberships) [
  | none ↦ []
  | some m ↦ if m.id == [] then [] else granted_rows db m.id
]

-- `resolvePermissions`: the ids of the roles and the codes of the permissions
unfoldable pub resolve_permissions : AuthDb → Text → Text → Bool → List Text × List Text
unfolding member_rows add_all
resolve_permissions db user_id tenant_id admin =
    let rows = member_rows db user_id tenant_id in
    let codes = add_all [] (map (λ (row : Text × Text). row.1) rows) in
    (
      add_all [] (map (λ (row : Text × Text). row.0) rows),
      if admin then add_all codes platform_permissions else codes,
    )

-- `hasPermission`
unfoldable pub has_permission : List Text → Text → Bool
has_permission [] required = false
has_permission (p ∷ rest) required = if p == required then true else has_permission rest required
