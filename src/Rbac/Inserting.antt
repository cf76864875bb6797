-- ===== src/Rbac/Inserting.antt =====
-- What an `INSERT` or `DELETE` that succeeds has found and done (internal/server/db/db.go).
use lightai_go.Common.{
  ◌≡◌, refl, subst, Bool, true, false, ◌&&◌, ◌||◌, Option, none, some, List, [], ◌∷◌, ◌++◌, any,
  find, delete_where, ◌==◌, nat_eq, if◌then◌else◌, inl, inr, Bool-cases,
}
use lightai_go.Text.{Text, text, text_eq}
use lightai_go.Auth.{User, Membership, Role, Permission, RolePermission, MembershipRole, AuthDb}
use lightai_go.Rbac.{
  Inserted, inserted, not_unique, refused, insert_user, insert_membership, insert_membership_role,
  insert_role, insert_role_permission, same_tenant,
}
use lightai_go.Rbac.Branches.{option_holds, unless_holds, inserted_holds}
use lightai_go.Rbac.Memberships.{assign_roles}
use lightai_go.Rbac.Roles.{grants_of, has_role_id, delete_role, is_assigned, add_permissions}

pub if_inserted :
    (b : Bool) (x y after : AuthDb)
    → (if b then not_unique else inserted x) ≡ inserted after
    → (b ≡ false) × (x ≡ after)
if_inserted true x y after e = absurd (cc)
if_inserted false x y after e = (refl, cc)

if_both_inserted :
    (b c : Bool) (x after : AuthDb)
    → (if b then not_unique else if c then inserted x else refused) ≡ inserted after
    → (b ≡ false) × (c ≡ true) × (x ≡ after)
if_both_inserted true c x after e = absurd (cc)
if_both_inserted false true x after e = (refl, refl, cc)
if_both_inserted false false x after e = absurd (cc)

pub user_inserted :
    (u : User) (db after : AuthDb)
    → insert_user u db ≡ inserted after
    → record db { users = db.users ++ u ∷ [] } ≡ after
unfolding insert_user
user_inserted u db after e = (if_inserted _ _ db after e).1

pub membership_inserted :
    (m : Membership) (db after : AuthDb)
    → insert_membership m db ≡ inserted after
    → (any
          (λ (x : Membership).
            x.id == m.id || (x.user_id == m.user_id && x.tenant_id == m.tenant_id))
          db.memberships
        ≡ false)
      × (record db { memberships = db.memberships ++ m ∷ [] } ≡ after)
unfolding insert_membership
membership_inserted m db after e =
    let (free, refs, same) = if_both_inserted _ _ _ after e in (free, same)

pub role_assigned :
    (mr : MembershipRole) (db after : AuthDb)
    → insert_membership_role mr db ≡ inserted after
    → (any
          (λ (x : MembershipRole). x.membership_id == mr.membership_id && x.role_id == mr.role_id)
          db.membership_roles
        ≡ false)
      × (record db { membership_roles = db.membership_roles ++ mr ∷ [] } ≡ after)
unfolding insert_membership_role
role_assigned mr db after e =
    let (free, refs, same) = if_both_inserted _ _ _ after e in (free, same)

pub role_inserted :
    (role : Role) (db after : AuthDb)
    → insert_role role db ≡ inserted after
    → (any
          (λ (x : Role).
            x.id == role.id || (same_tenant x.tenant_id role.tenant_id && x.name == role.name))
          db.roles
        ≡ false)
      × (record db { roles = db.roles ++ role ∷ [] } ≡ after)
unfolding insert_role
role_inserted role db after e = if_inserted _ _ db after e

pub permission_granted :
    (rp : RolePermission) (db after : AuthDb)
    → insert_role_permission rp db ≡ inserted after
    → ((any (λ (x : Role). x.id == rp.role_id) db.roles
          && any (λ (p : Permission). p.id == rp.permission_id) db.permissions)
        ≡ true)
      × (record db { role_permissions = db.role_permissions ++ rp ∷ [] } ≡ after)
unfolding insert_role_permission
permission_granted rp db after e =
    let (free, refs, same) = if_both_inserted _ _ _ after e in (refs, same)

pub role_deleted :
    (id : Text) (db after : AuthDb)
    → delete_role id db ≡ some after
    → ((any (grants_of id) db.role_permissions || is_assigned id db) ≡ false)
      × (record db { roles = delete_where (has_role_id id) db.roles } ≡ after)
unfolding delete_role
role_deleted id db after e =
    elim (Bool-cases (any (grants_of id) db.role_permissions || is_assigned id db)) [
      | inl b ↦ absurd (let k = rw b at e in cc)
      | inr b ↦
          let made : some (record db { roles = delete_where (has_role_id id) db.roles })
              ≡ some after =
            rw b at e in
          (b, cc)
    ]

pub assigned_first :
    (membership id : Text) (ids : List Text) (db after : AuthDb)
    → assign_roles membership (id ∷ ids) db ≡ some after
    → (mid : AuthDb) × (insert_membership_role
          (record { membership_id = membership; role_id = id })
          db
        ≡ inserted mid)
      × (assign_roles membership ids mid ≡ some after)
unfolding assign_roles
assigned_first membership id ids db after e =
    by_insert (insert_membership_role (record { membership_id = membership; role_id = id }) db) refl
      e
  where
    by_insert :
        (o : Inserted)
        → insert_membership_role (record { membership_id = membership; role_id = id }) db ≡ o
        → ◌≡◌ {A = Option AuthDb}
            (elim o [
              | not_unique ↦ none
              | refused ↦ none
              | inserted mid ↦ assign_roles membership ids mid
            ])
            (some after)
        → (mid : AuthDb) × (insert_membership_role
              (record { membership_id = membership; role_id = id })
              db
            ≡ inserted mid)
          × (assign_roles membership ids mid ≡ some after)
    by_insert not_unique o e = absurd (cc)
    by_insert refused o e = absurd (cc)
    by_insert (inserted mid) o e = (mid, o, e)

-- What each assignment keeps, the loop keeps.
pub assign_roles_keeps {ℓ} :
    (P : AuthDb → Type ℓ) (membership : Text)
    → ((role : Text) (db after : AuthDb)
        → insert_membership_role (record { membership_id = membership; role_id = role }) db
          ≡ inserted after
        → P db
        → P after)
    → (ids : List Text) (db after : AuthDb) → assign_roles membership ids db ≡ some after
    → P db
    → P after
unfolding assign_roles
assign_roles_keeps P membership keeps [] db after e h = let same : db ≡ after = cc in subst P same h
assign_roles_keeps P membership keeps (id ∷ ids) db after e h =
    let (mid, first, others) = assigned_first membership id ids db after e in
    assign_roles_keeps P membership keeps ids mid after others (keeps id db mid first h)

-- What the old state has, and each permission keeps that is not of the platform, the loop has.
pub add_permissions_keeps {ℓ} :
    (P : AuthDb → Type ℓ) (role : Text) (old : AuthDb)
    → P old
    → ((id : Text) (p : Permission) (db after : AuthDb)
        → find (λ (x : Permission). x.id == id) db.permissions ≡ some p
        → (p.scope == text "platform") ≡ false
        → insert_role_permission (record { role_id = role; permission_id = id }) db ≡ inserted after
        → P db
        → P after)
    → (ids : List Text) (db : AuthDb) → P db
    → P (add_permissions role ids old db).0
unfolding add_permissions
add_permissions_keeps P role old before keeps [] db h = h
add_permissions_keeps P role old before keeps (id ∷ ids) db h =
    option_holds P (find (λ (x : Permission). x.id == id) db.permissions) _ _ before (λ p found.
      unless_holds P (p.scope == text "platform") _ _ before (λ allowed.
        inserted_holds P (insert_role_permission (record { role_id = role; permission_id = id }) db)
          _ _ _ before before
          (λ after made.
            add_permissions_keeps P role old before keeps ids after
              (keeps id p db after found allowed made h))))
