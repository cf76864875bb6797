-- ===== src/Rbac/Lists.antt =====
-- The handlers that list users, tenants, memberships, roles and permissions
-- (internal/server/rbac/handlers.go). The rows stand for the JSON objects made of them.
use lightai_go.Common.{
  ◌≡◌, refl, Bool, true, false, ◌&&◌, ◌||◌, none, some, List, [], ◌∷◌, any, filter_by, count_by,
  ltb, ◌==◌, nat_eq, if◌then◌else◌, arith,
}
use lightai_go.Text.{Text, text, text_eq}
use lightai_go.Auth.{User, Tenant, Membership, Role, Permission, RolePermission, AuthDb, find_user}
use lightai_go.Auth.Middleware.{Reply, denied, answered, Handler}
use lightai_go.Rbac.Roles.{find_role}
use lightai_go.Rbac.Memberships.{is_usable}

-- SQLite's order of texts, which is that of their bytes, for code points
unfoldable pub text_before : Text → Text → Bool
text_before [] [] = false
text_before [] (c ∷ t) = true
text_before (c ∷ s) [] = false
text_before (c ∷ s) (d ∷ t) =
    let rest = text_before s t in if ltb c d then true else if c == d then rest else false

module _ {ℓ} {A : Type ℓ} (before : A → A → Bool) where
  -- `ORDER BY`; rows of one key keep their order in the table.
  unfoldable pub insert_by : A → List A → List A
  insert_by a [] = a ∷ []
  insert_by a (b ∷ rest) = if before b a then b ∷ insert_by a rest else a ∷ b ∷ rest

  unfoldable pub order_by : List A → List A
  unfolding insert_by
  order_by [] = []
  order_by (a ∷ rest) = insert_by a (order_by rest)

-- `HandleListUsers`
unfoldable pub handle_list_users : AuthDb → AuthDb × Reply (List User)
unfolding order_by
handle_list_users db =
    (db, answered (order_by (λ (u v : User). text_before u.username v.username) db.users))

-- `HandleListTenants`
unfoldable pub handle_list_tenants : AuthDb → AuthDb × Reply (List Tenant)
unfolding order_by
handle_list_tenants db =
    (db, answered (order_by (λ (t u : Tenant). text_before t.name u.name) db.tenants))

-- A membership with the name of its user
abbrev pub MemberRow : Type 0
MemberRow = Membership × Text

unfoldable pub join_users : AuthDb → List Membership → List MemberRow
join_users db [] = []
join_users db (m ∷ rest) =
    let others = join_users db rest in
    elim (find_user m.user_id db) [ none ↦ others | some u ↦ (m, u.username) ∷ others ]

-- `HandleListMemberships`
unfoldable pub handle_list_memberships : Handler (List MemberRow)
unfolding order_by join_users
handle_list_memberships r db = elim r.info [
  | none ↦ (db, denied 401 (text "unauthorized"))
  | some i ↦ (
    db,
    answered (
        order_by (λ (x y : MemberRow). text_before x.1 y.1)
          (join_users db
            (filter_by (λ (m : Membership). m.tenant_id == i.tenant_id) db.memberships))),
  )
]

abbrev pub role_before : Role → Role → Bool
role_before x y =
    ltb y.built_in x.built_in || (x.built_in == y.built_in && text_before x.name y.name)

-- `HandleListRoles`
unfoldable pub handle_list_roles : Handler (List Role)
unfolding order_by
handle_list_roles r db = elim r.info [
  | none ↦ (db, denied 401 (text "unauthorized"))
  | some i ↦ (db, answered (order_by role_before (filter_by (is_usable i.tenant_id) db.roles)))
]

-- The permissions of a role, joined with its grants
unfoldable pub permissions_of : Text → AuthDb → List Permission
permissions_of role_id db =
    filter_by
      (λ (p : Permission).
        any (λ (rp : RolePermission). rp.role_id == role_id && rp.permission_id == p.id)
          db.role_permissions)
      db.permissions

-- `HandleGetRolePermissions`
unfoldable pub handle_get_role_permissions : Text → Handler (List Permission)
unfolding order_by permissions_of
handle_get_role_permissions role_id r db = elim r.info [
  | none ↦ (db, denied 401 (text "unauthorized"))
  | some i ↦ elim (find_role role_id db) [
    | none ↦ (db, denied 404 (text "role not found"))
    | some role ↦
        if is_usable i.tenant_id role
        then (
          db,
          answered (
              order_by (λ (p q : Permission). text_before p.code q.code)
                (permissions_of role_id db)),
        )
        else (db, denied 403 (text "forbidden"))
  ]
]

-- `HandleListPermissions`
unfoldable pub handle_list_permissions : AuthDb → AuthDb × Reply (List Permission)
unfolding order_by
handle_list_permissions db =
    (db, answered (order_by (λ (p q : Permission). text_before p.code q.code) db.permissions))

pub count_by-insert_by {ℓ} :
    {A : Type ℓ} (before : A → A → Bool) (p : A → Bool) (a : A) (xs : List A)
    → count_by p (insert_by before a xs) ≡ count_by p (a ∷ xs)
unfolding insert_by
count_by-insert_by before p a [] = refl
count_by-insert_by before p a (b ∷ xs) = ground (arith, count_by-insert_by before p a xs)

-- A listing has the rows of the table, each as often.
pub count_by-order_by {ℓ} :
    {A : Type ℓ} (before : A → A → Bool) (p : A → Bool) (xs : List A)
    → count_by p (order_by before xs) ≡ count_by p xs
unfolding order_by
count_by-order_by before p [] = refl
count_by-order_by before p (a ∷ xs) =
    ground
      (arith, count_by-insert_by before p a (order_by before xs), count_by-order_by before p xs)
