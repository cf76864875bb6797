-- ===== src/Rbac/Scopes.antt =====
-- The permissions of the platform and the roles of tenants (internal/server/rbac/handlers.go).
use lightai_go.Common.{
  ◌≡◌, refl, subst, Bool, true, false, not, ◌||◌, Option, none, some, List, [], ◌∷◌, ◌++◌, any, all,
  find, delete_where, filter_by, ◌==◌, inl, inr, arith, Option-cases, Bool-cases,
}
use lightai_go.Text.{Text, text, text_eq}
use lightai_go.Auth.{Role, Permission, RolePermission, AuthDb, Server}
use lightai_go.Rbac.Roles.{grants_of, has_role_id, replace_permissions}
use lightai_go.Rbac.Inserting.{
  membership_inserted, role_assigned, role_inserted, role_deleted, permission_granted,
  assign_roles_keeps, add_permissions_keeps,
}
use lightai_go.Rbac.Steps.{Steps}
use lightai_go.Rbac.Tenancy.{steps_keep}

abbrev pub has_permission_id : Text → Permission → Bool
has_permission_id id p = p.id == id

-- A granted permission is of a role of every tenant, or is not one of the platform.
abbrev pub is_plain : Option Permission → Bool
is_plain none = false
is_plain (some p) = not (p.scope == text "platform")

abbrev pub is_global : Role → Bool
is_global role = elim role.tenant_id [ none ↦ true | some tenant ↦ false ]

abbrev pub may_have : Option Role → Bool → Bool
may_have none plain = false
may_have (some role) plain = is_global role || plain

abbrev pub in_scope : List Role → List Permission → RolePermission → Bool
in_scope roles permissions rp =
    may_have (find (has_role_id rp.role_id) roles)
      (is_plain (find (has_permission_id rp.permission_id) permissions))

abbrev pub IsScoped : AuthDb → Type 0
IsScoped db = all (in_scope db.roles db.permissions) db.role_permissions ≡ true

all-append {ℓ} :
    {A : Type ℓ} (p : A → Bool) (xs ys : List A)
    → all p xs ≡ true
    → all p ys ≡ true
    → all p (xs ++ ys) ≡ true
all-append p [] ys h k = k
all-append p (x ∷ xs) ys h k = ground (arith, all-append p xs ys)

all-imply {ℓ} :
    {A : Type ℓ} (p q : A → Bool) (xs : List A)
    → ((x : A) → p x ≡ true → q x ≡ true)
    → all p xs ≡ true
    → all q xs ≡ true
all-imply p q [] h k = refl
all-imply p q (x ∷ xs) h k = ground (arith, h x, all-imply p q xs h)

all-filter_by {ℓ} :
    {A : Type ℓ} (p q : A → Bool) (xs : List A) → all p xs ≡ true → all p (filter_by q xs) ≡ true
all-filter_by p q [] h = refl
all-filter_by p q (x ∷ xs) h = ground (arith, all-filter_by p q xs)

find-append {ℓ} :
    {A : Type ℓ} (p : A → Bool) (xs ys : List A) (a : A)
    → find p xs ≡ some a
    → find p (xs ++ ys) ≡ some a
find-append p [] ys a h = absurd (cc)
find-append p (x ∷ xs) ys a h = ground (arith, find-append p xs ys a)

pub find-any {ℓ} :
    {A : Type ℓ} (p : A → Bool) (xs : List A) → any p xs ≡ true → (a : A) × (find p xs ≡ some a)
find-any p [] h = absurd (cc)
find-any p (x ∷ xs) h = elim (Bool-cases (p x)) [
  | inl e ↦ (x, rw e refl)
  | inr e ↦ let (a, f) = find-any p xs (rw e at h) in (a, rw e f)
]

find-delete :
    (k id : Text) (roles : List Role)
    → (k == id) ≡ false
    → find (has_role_id k) (delete_where (has_role_id id) roles) ≡ find (has_role_id k) roles
unfolding delete_where
find-delete k id [] h = refl
find-delete k id (x ∷ roles) h = ground (
  arith,
  find-delete k id roles h,
  text_eq.equal_iff x.id k,
  text_eq.equal_iff x.id id,
  text_eq.equal_iff k id,
)

in_scope-append :
    (roles : List Role) (role : Role) (ps : List Permission) (rp : RolePermission)
    → in_scope roles ps rp ≡ true
    → in_scope (roles ++ role ∷ []) ps rp ≡ true
in_scope-append roles role ps rp h = elim (Option-cases (find (has_role_id rp.role_id) roles)) [
  | inl e ↦ absurd (let k : false ≡ true = rw e at h in cc)
  | inr (x, e) ↦ rw (find-append (has_role_id rp.role_id) roles (role ∷ []) x e) (rw e at h)
]

in_scope_kept :
    (id : Text) (roles : List Role) (ps : List Permission) (rp : RolePermission)
    → (rp.role_id == id) ≡ false
    → in_scope (delete_where (has_role_id id) roles) ps rp ≡ in_scope roles ps rp
in_scope_kept id roles ps rp e = rw (find-delete rp.role_id id roles e) refl

in_scope-delete :
    (id : Text) (roles : List Role) (ps : List Permission) (rps : List RolePermission)
    → any (grants_of id) rps ≡ false
    → all (in_scope roles ps) rps ≡ true
    → all (in_scope (delete_where (has_role_id id) roles) ps) rps ≡ true
in_scope-delete id roles ps [] free h = refl
in_scope-delete id roles ps (rp ∷ rps) free h =
    ground (arith, in_scope_kept id roles ps rp, in_scope-delete id roles ps rps)

-- A grant that the loop of `HandleUpdateRolePermissions` makes is in scope.
granted-in_scope :
    (role_id id : Text) (p : Permission) (db : AuthDb)
    → any (has_role_id role_id) db.roles ≡ true
    → find (has_permission_id id) db.permissions ≡ some p
    → (p.scope == text "platform") ≡ false
    → in_scope db.roles db.permissions (record { role_id = role_id; permission_id = id }) ≡ true
granted-in_scope role_id id p db known found plain =
    let (role, f) = find-any (has_role_id role_id) db.roles known in
    rw f (rw found (rw plain (ground arith)))

grants-IsScoped :
    (id : Text) (ids : List Text) (db : AuthDb)
    → IsScoped db
    → IsScoped (replace_permissions id ids db).0
unfolding replace_permissions delete_where
grants-IsScoped id ids db h =
    add_permissions_keeps IsScoped id db h
      (λ p_id p mid after found plain made k.
        let (refs, same) =
          permission_granted (record { role_id = id; permission_id = p_id }) mid after made in
        let known : any (has_role_id id) mid.roles ≡ true = ground (arith, refs) in
        let one = granted-in_scope id p_id p mid known found plain in
        subst IsScoped same
          (all-append (in_scope mid.roles mid.permissions) mid.role_permissions _ k (rw one refl)))
      ids _ (all-filter_by (in_scope db.roles db.permissions) _ db.role_permissions h)

-- If each permission that a role of a tenant has is known and not one of the platform, it is so after
-- every history of the handlers of users, tenants, memberships and roles, of changes of one's own
-- password, and of changes of the sessions.
pub Steps-IsScoped :
    (srv : Server) (db after : AuthDb) → Steps srv db after → IsScoped db → IsScoped after
Steps-IsScoped srv db after run =
    steps_keep IsScoped (λ rows db h. h) (λ rows db h. h) (λ rows db h. h)
      (λ id user tenant ids db mid after _ made assigned h.
        assign_roles_keeps IsScoped id
          (λ role before later one k. subst IsScoped (role_assigned _ before later one).1 k) ids mid
          after assigned (subst IsScoped (membership_inserted _ db mid made).1 h))
      (λ id db h. h) (λ id role db after made h. subst IsScoped (role_assigned _ db after made).1 h)
      (λ id role m db _ _ h. h)
      (λ role db after made h. subst IsScoped (role_inserted role db after made).1 (
        all-imply (in_scope db.roles db.permissions) _ db.role_permissions
          (λ rp. in_scope-append db.roles role db.permissions rp) h))
      (λ id db after gone h.
        let (free, same) = role_deleted id db after gone in
        subst IsScoped same
          (in_scope-delete id db.roles db.permissions db.role_permissions (ground (arith, free)) h))
      grants-IsScoped run
