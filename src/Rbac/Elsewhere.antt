-- ===== src/Rbac/Elsewhere.antt =====
-- What is not of a tenant, and what each change of a tenant's rows leaves of it (internal/server/rbac/handlers.go).
use lightai_go.Common.{
  ◌≡◌, refl, subst, ◌∙◌, Bool, true, false, not, Option, none, some, List, filter_by, All, ◌==◌,
}
use lightai_go.Text.{Text, text, text_eq}
use lightai_go.Auth.{Membership, Role, RolePermission, MembershipRole, AuthDb}
use lightai_go.Auth.Requests.{Request}
use lightai_go.Rbac.{same_tenant}
use lightai_go.Rbac.Rows.{filter-append, filter-delete, All-imply, All-each, find_free}
use lightai_go.Rbac.Inserting.{
  membership_inserted, role_assigned, permission_granted, assign_roles_keeps, add_permissions_keeps,
}
use lightai_go.Rbac.{inserted, insert_membership, insert_membership_role}
use lightai_go.Rbac.Memberships.{assign_roles}
use lightai_go.Rbac.Roles.{grants_of, replace_permissions}
use lightai_go.Rbac.Memberships.{
  CreateMembershipRequest, find_membership, has_membership_id, handle_create_membership,
  handle_disable_membership, handle_add_membership_role, handle_remove_membership_role,
}
use lightai_go.Rbac.Roles.{
  CreateRoleRequest, find_role, has_role_id, handle_create_role, handle_delete_role,
  handle_update_role_permissions,
}

-- One request to a handler behind `tenantChain`
pub data TenantStep (r : Request) : AuthDb → AuthDb → Type 0 where
  create_membership :
      (id : Text) (body : Option CreateMembershipRequest) (db : AuthDb)
      → TenantStep r db (handle_create_membership id body r db).0
  disable_membership :
      (id : Text) (db : AuthDb) → TenantStep r db (handle_disable_membership id r db).0
  add_membership_role :
      (id : Text) (body : Option Text) (db : AuthDb)
      → TenantStep r db (handle_add_membership_role id body r db).0
  remove_membership_role :
      (id role : Text) (db : AuthDb)
      → TenantStep r db (handle_remove_membership_role id role r db).0
  create_role :
      (id : Text) (body : Option CreateRoleRequest) (db : AuthDb)
      → TenantStep r db (handle_create_role id body r db).0
  delete_role : (id : Text) (db : AuthDb) → TenantStep r db (handle_delete_role id r db).0
  update_role_permissions :
      (id : Text) (body : Option (List Text)) (db : AuthDb)
      → TenantStep r db (handle_update_role_permissions id body r db).0

-- Rows that are not of this tenant
abbrev pub foreign_membership : Text → Membership → Bool
foreign_membership tenant m = not (m.tenant_id == tenant)

abbrev pub foreign_role : Text → Role → Bool
foreign_role tenant x = not (same_tenant x.tenant_id (some tenant))

abbrev pub is_foreign {ℓ} : {A : Type ℓ} → (A → Bool) → Option A → Bool
is_foreign p none = false
is_foreign p (some a) = p a

-- Assignments to the memberships, and grants to the roles, that are known and not of this tenant
abbrev pub foreign_assignment : Text → AuthDb → MembershipRole → Bool
foreign_assignment tenant db mr =
    is_foreign (foreign_membership tenant) (find_membership mr.membership_id db)

abbrev pub foreign_grant : Text → AuthDb → RolePermission → Bool
foreign_grant tenant db rp = is_foreign (foreign_role tenant) (find_role rp.role_id db)

-- Nothing has changed but the rows of this tenant.
abbrev pub IsSameElsewhere : Text → AuthDb → AuthDb → Type 0
IsSameElsewhere tenant db after =
    (after.users ≡ db.users)
    × (after.tenants ≡ db.tenants)
    × (after.permissions ≡ db.permissions)
    × (after.sessions ≡ db.sessions)
    × (filter_by (foreign_membership tenant) after.memberships
        ≡ filter_by (foreign_membership tenant) db.memberships)
    × (filter_by (foreign_role tenant) after.roles ≡ filter_by (foreign_role tenant) db.roles)
    × (filter_by (foreign_assignment tenant db) after.membership_roles
        ≡ filter_by (foreign_assignment tenant db) db.membership_roles)
    × (filter_by (foreign_grant tenant db) after.role_permissions
        ≡ filter_by (foreign_grant tenant db) db.role_permissions)

pub same_elsewhere : (tenant : Text) (db : AuthDb) → IsSameElsewhere tenant db db
same_elsewhere tenant db = (refl, refl, refl, refl, refl, refl, refl, refl)

pub beq_refl : (a : Text) → (a == a) ≡ true
beq_refl a = (text_eq.equal_iff a a).1 refl

-- The rows that bear the id of an own row are its own.
pub own_rows :
    (tenant id : Text) (db : AuthDb) (m : Membership)
    → find_membership id db ≡ some m
    → (m.tenant_id == tenant) ≡ true
    → All (λ (x : Membership). find_membership x.id db ≡ some x) db.memberships
    → All
        (λ (x : Membership). has_membership_id id x ≡ true → foreign_membership tenant x ≡ false)
        db.memberships
own_rows tenant id db m found own keyed =
    All-imply _ _ db.memberships
      (λ x this named.
        let there : find_membership id db ≡ some x =
          subst (λ k. find_membership k db ≡ some x) ((text_eq.equal_iff x.id id).0 named) this in
        let same : some m ≡ some x = rw found at there in
        let same_row : m ≡ x = cc in rw (← same_row, own) refl)
      keyed

pub own_role_rows :
    (tenant id : Text) (db : AuthDb) (role : Role)
    → find_role id db ≡ some role
    → same_tenant role.tenant_id (some tenant) ≡ true
    → All (λ (x : Role). find_role x.id db ≡ some x) db.roles
    → All (λ (x : Role). has_role_id id x ≡ true → foreign_role tenant x ≡ false) db.roles
own_role_rows tenant id db role found own keyed =
    All-imply _ _ db.roles
      (λ x this named.
        let there : find_role id db ≡ some x =
          subst (λ k. find_role k db ≡ some x) ((text_eq.equal_iff x.id id).0 named) this in
        let same : some role ≡ some x = rw found at there in
        let same_row : role ≡ x = cc in rw (← same_row, own) refl)
      keyed

pub own_assignment :
    (tenant id : Text) (db : AuthDb) (m : Membership)
    → find_membership id db ≡ some m
    → (m.tenant_id == tenant) ≡ true
    → (mr : MembershipRole) → mr.membership_id ≡ id
    → foreign_assignment tenant db mr ≡ false
own_assignment tenant id db m found own mr same = rw same (rw found (rw own refl))

pub own_grant :
    (tenant id : Text) (db : AuthDb) (role : Role)
    → find_role id db ≡ some role
    → same_tenant role.tenant_id (some tenant) ≡ true
    → (rp : RolePermission) → rp.role_id ≡ id
    → foreign_grant tenant db rp ≡ false
own_grant tenant id db role found own rp same = rw same (rw found (rw own refl))

-- Assigning roles to a membership whose assignments do not count
pub assign_elsewhere :
    (tenant id : Text) (start : AuthDb)
    → ((mr : MembershipRole) → mr.membership_id ≡ id → foreign_assignment tenant start mr ≡ false)
    → (role : Text) (db after : AuthDb)
    → insert_membership_role (record { membership_id = id; role_id = role }) db ≡ inserted after
    → IsSameElsewhere tenant start db
    → IsSameElsewhere tenant start after
assign_elsewhere tenant id start own role db after made (us, ts, ps, ss, ms, rs, mrs, rps) =
    subst (IsSameElsewhere tenant start) (role_assigned _ db after made).1 (
      us,
      ts,
      ps,
      ss,
      ms,
      rs,
      filter-append (foreign_assignment tenant start) db.membership_roles _
            (own (record { membership_id = id; role_id = role }) refl)
          ∙ mrs,
      rps,
    )

pub replace_elsewhere :
    (tenant id : Text) (ids : List Text) (start : AuthDb)
    → ((rp : RolePermission) → rp.role_id ≡ id → foreign_grant tenant start rp ≡ false)
    → IsSameElsewhere tenant start (replace_permissions id ids start).0
unfolding replace_permissions
replace_elsewhere tenant id ids start own =
    add_permissions_keeps (IsSameElsewhere tenant start) id start (same_elsewhere tenant start)
      (λ p_id p mid after found plain made k.
        let (us, ts, ps, ss, ms, rs, mrs, rps) = k in
        subst (IsSameElsewhere tenant start) (permission_granted _ mid after made).1 (
          us,
          ts,
          ps,
          ss,
          ms,
          rs,
          mrs,
          filter-append (foreign_grant tenant start) mid.role_permissions _
                (own (record { role_id = id; permission_id = p_id }) refl)
              ∙ rps,
        ))
      ids _
      (
        refl,
        refl,
        refl,
        refl,
        refl,
        refl,
        refl,
        filter-delete (foreign_grant tenant start) (grants_of id) start.role_permissions (
            All-each _ start.role_permissions
              (λ rp named. own rp ((text_eq.equal_iff rp.role_id id).0 named))),
      )

pub joined_elsewhere :
    (tenant id user : Text) (ids : List Text) (db mid after : AuthDb)
    → insert_membership
        (record { id = id; user_id = user; tenant_id = tenant; status = text "active" })
        db
      ≡ inserted mid
    → assign_roles id ids mid ≡ some after
    → IsSameElsewhere tenant db after
joined_elsewhere tenant id user ids db mid after made assigned =
    let m : Membership = record {
      id = id;
      user_id = user;
      tenant_id = tenant;
      status = text "active";
    } in
    let (free, same) = membership_inserted m db mid made in
    let unknown : find_membership id db ≡ none =
      find_free (has_membership_id id) _ db.memberships free in
    let apart =
      filter-append (foreign_membership tenant) db.memberships m (rw (beq_refl tenant) refl) in
    assign_roles_keeps (IsSameElsewhere tenant db) id
      (assign_elsewhere tenant id db (λ mr here. rw here (rw unknown refl))) ids mid after assigned
      (subst (IsSameElsewhere tenant db) same (refl, refl, refl, refl, apart, refl, refl, refl))
