-- ===== src/Rbac/Isolation.antt =====
-- What the administrators of a tenant can change (internal/server/rbac/handlers.go).
use lightai_go.Common.{◌≡◌, refl, subst, true, some, All, ◌==◌, arith}
use lightai_go.Text.{Text, text_eq}
use lightai_go.Auth.{Membership, Role, AuthDb}
use lightai_go.Auth.Sessions.{SessionInfo}
use lightai_go.Auth.Requests.{Request}
use lightai_go.Rbac.{same_tenant}
use lightai_go.Rbac.Rows.{
  filter-append, filter-delete, filter-update, All-imply, All-each, find_holds,
}
use lightai_go.Rbac.Inserting.{role_inserted, role_deleted}
use lightai_go.Rbac.Cases.{
  handle_create_membership_holds, handle_disable_membership_holds, handle_add_membership_role_holds,
  handle_remove_membership_role_holds, handle_create_role_holds, handle_delete_role_holds,
  handle_update_role_permissions_holds,
}
use lightai_go.Rbac.Memberships.{is_assignment}
use lightai_go.Rbac.Roles.{new_role}
use lightai_go.Rbac.Memberships.{find_membership, has_membership_id, disabled_membership}
use lightai_go.Rbac.Roles.{find_role, has_role_id}
use lightai_go.Rbac.Elsewhere.{
  foreign_membership, foreign_role, foreign_assignment, IsSameElsewhere, same_elsewhere, beq_refl,
  own_rows, own_role_rows, own_assignment, own_grant, assign_elsewhere, replace_elsewhere,
  joined_elsewhere, TenantStep, create_membership, disable_membership, add_membership_role,
  remove_membership_role, create_role, delete_role, update_role_permissions,
}

one_session :
    (r : Request) (i j : SessionInfo)
    → r.info ≡ some i
    → r.info ≡ some j
    → j.tenant_id ≡ i.tenant_id
one_session r i j f g =
    let same : some i ≡ some j = rw f at g in let who : i ≡ j = cc in rw (← who) refl

abbrev within {ℓ} : {a b : Text} → a ≡ b → (P : Text → Type ℓ) → P a → P b
within e P h = subst P e h

own_here :
    (t : Text) {tenant here : Text} → tenant ≡ here → (t == tenant) ≡ true → (t == here) ≡ true
own_here t e h = subst (λ (k : Text). (t == k) ≡ true) e h

-- A request to a handler behind `tenantChain`, made within a tenant, changes no user, tenant,
-- permission and session, no membership and no role of another tenant or of none, no role that such a
-- membership has and no permission that such a role has, if the ids of memberships and of roles are
-- unique.
pub TenantStep-IsSameElsewhere :
    (r : Request) (i : SessionInfo) (db after : AuthDb)
    → r.info ≡ some i
    → All (λ (m : Membership). find_membership m.id db ≡ some m) db.memberships
    → All (λ (x : Role). find_role x.id db ≡ some x) db.roles
    → TenantStep r db after
    → IsSameElsewhere i.tenant_id db after
TenantStep-IsSameElsewhere r i db after f members roles (create_membership id body _) =
    handle_create_membership_holds (IsSameElsewhere i.tenant_id db) id body r db
      (same_elsewhere i.tenant_id db)
      (λ j req u mid end g _ _ made assigned.
        within (one_session r i j f g) (λ tenant. IsSameElsewhere tenant db end)
          (joined_elsewhere j.tenant_id id u.id req.role_ids db mid end made assigned))
TenantStep-IsSameElsewhere r i db after f members roles (disable_membership id _) =
    handle_disable_membership_holds (IsSameElsewhere i.tenant_id db) id r db
      (same_elsewhere i.tenant_id db)
      (λ j m g found same.
        let own =
          own_here m.tenant_id (one_session r i j f g)
            ((text_eq.equal_iff m.tenant_id j.tenant_id).1 same) in
        let others = own_rows i.tenant_id id db m found own members in
        (
          refl,
          refl,
          refl,
          refl,
          filter-update (foreign_membership i.tenant_id) (has_membership_id id) disabled_membership
              db.memberships
              (All-imply _ _ db.memberships (λ x out named. (out named, out named)) others),
          refl,
          refl,
          refl,
        ))
TenantStep-IsSameElsewhere r i db after f members roles (add_membership_role id body _) =
    handle_add_membership_role_holds (IsSameElsewhere i.tenant_id db) id body r db
      (same_elsewhere i.tenant_id db)
      (λ j role_id m role end g found same _ made.
        let own = own_here m.tenant_id (one_session r i j f g) same in
        let (named, here) =
          find_holds (λ (x : Membership). find_membership x.id db ≡ some x) _ db.memberships m found
            members in
        let known : find_membership id db ≡ some m =
          subst (λ k. find_membership k db ≡ some m)
            ((text_eq.equal_iff m.id id).0 (ground (arith, named))) here in
        assign_elsewhere i.tenant_id id db (own_assignment i.tenant_id id db m known own) role_id db
          end made (same_elsewhere i.tenant_id db))
TenantStep-IsSameElsewhere r i db after f members roles (remove_membership_role id role_id _) =
    handle_remove_membership_role_holds (IsSameElsewhere i.tenant_id db) id role_id r db
      (same_elsewhere i.tenant_id db)
      (λ j m g found same _.
        let own = own_here m.tenant_id (one_session r i j f g) same in
        (
          refl,
          refl,
          refl,
          refl,
          refl,
          refl,
          filter-delete (foreign_assignment i.tenant_id db) (is_assignment id role_id)
              db.membership_roles
              (All-each _ db.membership_roles (λ mr named.
                own_assignment i.tenant_id id db m found own mr
                  ((text_eq.equal_iff mr.membership_id id).0 (ground (arith, named))))),
          refl,
        ))
TenantStep-IsSameElsewhere r i db after f members roles (create_role id body _) =
    handle_create_role_holds (IsSameElsewhere i.tenant_id db) id body r db
      (same_elsewhere i.tenant_id db)
      (λ j req end g made.
        let (free, same) = role_inserted (new_role id j.tenant_id req) db end made in
        subst (IsSameElsewhere i.tenant_id db) same (
          refl,
          refl,
          refl,
          refl,
          refl,
          filter-append (foreign_role i.tenant_id) db.roles (new_role id j.tenant_id req)
              (rw (own_here j.tenant_id (one_session r i j f g) (beq_refl j.tenant_id)) refl),
          refl,
          refl,
        ))
TenantStep-IsSameElsewhere r i db after f members roles (delete_role id _) =
    handle_delete_role_holds (IsSameElsewhere i.tenant_id db) id r db
      (same_elsewhere i.tenant_id db)
      (λ j role end g found own gone.
        let (free, same) = role_deleted id db end gone in
        let here =
          within (one_session r i j f g) (λ tenant. same_tenant role.tenant_id (some tenant) ≡ true)
            own in
        subst (IsSameElsewhere i.tenant_id db) same (
          refl,
          refl,
          refl,
          refl,
          refl,
          filter-delete (foreign_role i.tenant_id) (has_role_id id) db.roles
              (own_role_rows i.tenant_id id db role found here roles),
          refl,
          refl,
        ))
TenantStep-IsSameElsewhere r i db after f members roles (update_role_permissions id body _) =
    handle_update_role_permissions_holds (IsSameElsewhere i.tenant_id db) id body r db
      (same_elsewhere i.tenant_id db)
      (λ j role tenant ids g found own same.
        let here = own_here tenant (one_session r i j f g) same in
        replace_elsewhere i.tenant_id id ids db
          (own_grant i.tenant_id id db role found (rw own (rw here refl))))
