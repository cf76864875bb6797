-- ===== src/Auth/Granted.antt =====
-- The permissions that a user has (internal/server/auth/middleware.go).
use lightai_go.Common.{
  ◌≡◌, refl, ap, sym, ◌∙◌, Bool, true, false, not, ◌&&◌, ◌||◌, Option, none, some, List, [], ◌∷◌,
  any, any-concat_map, map, find, filter_by, nat_eq, ◌==◌, if◌then◌else◌, inl, inr, arith,
  Bool-cases,
}
use lightai_go.Text.{Text, text, text_eq}
use lightai_go.Auth.{Membership, Role, RolePermission, MembershipRole, Permission, AuthDb}
use lightai_go.Auth.Permissions.{
  is_member, codes_of, granted_rows, add_to, add_all, platform_permissions, member_rows,
  resolve_permissions, has_permission,
}

-- What the tables grant: an active role of the membership has a permission of the code.
unfoldable pub grants : AuthDb → Text → Text → Bool
grants db membership_id code =
    any
      (λ (mr : MembershipRole).
        mr.membership_id == membership_id
        && any
            (λ (r : Role).
              r.id == mr.role_id
              && r.status == text "active"
              && any
                  (λ (rp : RolePermission).
                    rp.role_id == r.id
                    && any (λ (p : Permission). p.id == rp.permission_id && p.code == code)
                        db.permissions)
                  db.role_permissions)
            db.roles)
      db.membership_roles

has_permission-any :
    (codes : List Text) (code : Text) → has_permission codes code ≡ any (λ c. c == code) codes
unfolding has_permission
has_permission-any [] code = refl
has_permission-any (c ∷ codes) code = ground (arith, has_permission-any codes code)

pub any-map {ℓ κ} :
    {A : Type ℓ} {B : Type κ} (q : B → Bool) (f : A → B) (xs : List A)
    → any q (map f xs) ≡ any (λ x. q (f x)) xs
any-map q f [] = refl
any-map q f (x ∷ xs) = ap (λ (b : Bool). q (f x) || b) (any-map q f xs)

pub any-filter_by {ℓ} :
    {A : Type ℓ} (q p : A → Bool) (xs : List A) → any q (filter_by p xs) ≡ any (λ x. p x && q x) xs
any-filter_by q p [] = refl
any-filter_by q p (x ∷ xs) = elim (Bool-cases (p x)) [
  | inl e ↦ rw e (ap (λ (b : Bool). q x || b) (any-filter_by q p xs))
  | inr e ↦ rw e (any-filter_by q p xs)
]

pub any-equal {ℓ} :
    {A : Type ℓ} (p q : A → Bool) (xs : List A) → ((x : A) → p x ≡ q x) → any p xs ≡ any q xs
any-equal p q [] h = refl
any-equal p q (x ∷ xs) h = rw (h x) (ap (λ (b : Bool). q x || b) (any-equal p q xs h))

any-if {ℓ} :
    {A : Type ℓ} (q : A → Bool) (b : Bool) (xs : List A)
    → any q (if b then xs else []) ≡ (b && any q xs)
any-if q true xs = refl
any-if q false xs = refl

any-add_to :
    (known : List Text) (k code : Text)
    → any (λ c. c == code) (add_to known k) ≡ (any (λ c. c == code) known || k == code)
unfolding add_to
any-add_to [] k code = ground arith
any-add_to (j ∷ rest) k code = elim (Bool-cases (j == k)) [
  | inl e ↦ rw e (rw ((text_eq.equal_iff j k).0 e) (ground arith))
  | inr e ↦ rw e (ground (arith, any-add_to rest k code))
]

any-add_all :
    (known new : List Text) (code : Text)
    → any (λ c. c == code) (add_all known new)
      ≡ (any (λ c. c == code) known || any (λ c. c == code) new)
unfolding add_all
any-add_all known [] code = ground arith
any-add_all known (k ∷ new) code =
    rw (any-add_all (add_to known k) new code) (rw (any-add_to known k code) (ground arith))

any-codes_of :
    (db : AuthDb) (role_id code : Text)
    → any (λ c. c == code) (codes_of db role_id)
      ≡ any
          (λ (rp : RolePermission).
            rp.role_id == role_id
            && any (λ (p : Permission). p.id == rp.permission_id && p.code == code) db.permissions)
          db.role_permissions
unfolding codes_of
any-codes_of db role_id code =
    any-concat_map (λ c. c == code) _ db.role_permissions
    ∙ any-equal _ _ db.role_permissions (λ rp.
      any-if (λ c. c == code) (rp.role_id == role_id) _
      ∙ ap (λ (b : Bool). rp.role_id == role_id && b)
          (any-map (λ c. c == code) _ _ ∙ any-filter_by _ _ db.permissions))

any-granted_rows :
    (db : AuthDb) (membership_id code : Text)
    → any (λ (row : Text × Text). row.1 == code) (granted_rows db membership_id)
      ≡ grants db membership_id code
unfolding granted_rows grants
any-granted_rows db membership_id code =
    any-concat_map _ _ db.membership_roles
    ∙ any-equal _ _ db.membership_roles (λ mr.
      any-if _ (mr.membership_id == membership_id) _
      ∙ ap (λ (b : Bool). mr.membership_id == membership_id && b)
          (any-concat_map _ _ db.roles
            ∙ any-equal _ _ db.roles (λ r.
              any-if _ (r.id == mr.role_id && r.status == text "active") _
              ∙ ap (λ (b : Bool). r.id == mr.role_id && r.status == text "active" && b)
                  (any-map _ _ (codes_of db r.id) ∙ any-codes_of db r.id code))))

-- The tables grant the code to the user's membership in the tenant.
unfoldable pub is_granted : AuthDb → Text → Text → Text → Bool
unfolding grants
is_granted db user_id tenant_id code = elim (find (is_member user_id tenant_id) db.memberships) [
  | none ↦ false
  | some m ↦ not (m.id == []) && grants db m.id code
]

member_granted :
    (db : AuthDb) (user_id tenant_id code : Text)
    → any (λ (row : Text × Text). row.1 == code) (member_rows db user_id tenant_id)
      ≡ is_granted db user_id tenant_id code
unfolding member_rows is_granted
member_granted db user_id tenant_id code = at (find (is_member user_id tenant_id) db.memberships)
  where
    at :
        (o : Option Membership)
        → any
            (λ (row : Text × Text). row.1 == code)
            (elim o [ none ↦ [] | some m ↦ if m.id == [] then [] else granted_rows db m.id ])
          ≡ (elim o [ none ↦ false | some m ↦ not (m.id == []) && grants db m.id code ])
    at none = refl
    at (some m) = elim (Bool-cases (m.id == [])) [
      | inl e ↦ rw e refl
      | inr e ↦ rw e (any-granted_rows db m.id code)
    ]

-- A user is found to have a permission in a tenant where an active role of its active membership
-- there has it, and where the user is a platform administrator and it is one of the platform's three;
-- otherwise not.
pub has_permission-resolve_permissions :
    (db : AuthDb) (user_id tenant_id code : Text) (admin : Bool)
    → has_permission (resolve_permissions db user_id tenant_id admin).1 code
      ≡ (is_granted db user_id tenant_id code || admin && has_permission platform_permissions code)
unfolding resolve_permissions
has_permission-resolve_permissions db user_id tenant_id code admin =
    let rows = member_rows db user_id tenant_id in
    let codes = map (λ (row : Text × Text). row.1) rows in
    let of_rows : any (λ c. c == code) codes ≡ is_granted db user_id tenant_id code =
      any-map (λ (c : Text). c == code) (λ (row : Text × Text). row.1) rows
      ∙ member_granted db user_id tenant_id code in
    let known = any-add_all [] codes code in
    has_permission-any _ code ∙ platform admin known of_rows
  where
    platform :
        (admin : Bool)
        → any
            (λ c. c == code)
            (add_all [] (map (λ (row : Text × Text). row.1) (member_rows db user_id tenant_id)))
          ≡ any
              (λ c. c == code)
              (map (λ (row : Text × Text). row.1) (member_rows db user_id tenant_id))
        → any
            (λ c. c == code)
            (map (λ (row : Text × Text). row.1) (member_rows db user_id tenant_id))
          ≡ is_granted db user_id tenant_id code
        → any
            (λ c. c == code)
            (if admin
              then add_all
                  (add_all []
                    (map (λ (row : Text × Text). row.1) (member_rows db user_id tenant_id)))
                  platform_permissions
              else add_all []
                  (map (λ (row : Text × Text). row.1) (member_rows db user_id tenant_id)))
          ≡ (is_granted db user_id tenant_id code
              || admin && has_permission platform_permissions code)
    platform true known of_rows =
        any-add_all _ platform_permissions code
        ∙ rw (known ∙ of_rows) (
            ap (λ (b : Bool). is_granted db user_id tenant_id code || b)
              (sym (has_permission-any platform_permissions code)))
    platform false known of_rows = (known ∙ of_rows) ∙ ground arith
