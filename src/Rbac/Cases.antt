-- ===== src/Rbac/Cases.antt =====
-- What each handler can have done to the tables, branch by branch (internal/server/rbac/handlers.go).
use lightai_go.Common.{
  ℕ, ◌≡◌, Bool, true, false, not, ◌&&◌, ◌||◌, Option, none, some, List, [], find, ltb, leb,
  count_by, length, update_where, delete_where, is_empty, ◌==◌, nat_eq, arith,
}
use lightai_go.Text.{Text, text, text_eq}
use lightai_go.Auth.{User, Membership, Role, AuthDb, Server}
use lightai_go.Auth.Sessions.{SessionInfo, revoke_live}
use lightai_go.Auth.Passwords.{hash_password}
use lightai_go.Auth.Requests.{Request}
use lightai_go.Rbac.{
  inserted, insert_user, insert_tenant, update_users, update_tenants, same_tenant,
}
use lightai_go.Rbac.Branches.{
  unless_holds, option_holds, none_holds, when_holds, not_holds, rollback_holds, deleted_holds,
  inserted_holds,
}
use lightai_go.Rbac.Users.{
  CreateUserRequest, UpdateUserRequest, new_user, handle_create_user, has_user_id, other_admins,
  rename_user, flag, set_admin, handle_update_user, is_admin_id, handle_disable_user, disabled,
  of_user, handle_reset_password,
}
use lightai_go.Rbac.{insert_membership, insert_membership_role, insert_role}
use lightai_go.Rbac.Memberships.{
  CreateMembershipRequest, refusal_of_roles, assign_roles, join_user, join_tenant, is_membership_of,
  handle_create_membership, find_membership, has_membership_id, disabled_membership,
  handle_disable_membership, find_active_membership, find_active_role, is_usable, assign_role,
  handle_add_membership_role, is_role_of, is_assignment, handle_remove_membership_role,
}
use lightai_go.Rbac.Roles.{
  CreateRoleRequest, new_role, add_role, handle_create_role, find_role, is_assigned, delete_role,
  handle_delete_role, replace_permissions, handle_update_role_permissions,
}
use lightai_go.Rbac.Tenants.{
  CreateTenantRequest, find_active_user, handle_create_tenant, handle_update_tenant,
}

pub handle_create_user_holds {ℓ} :
    (P : AuthDb → Type ℓ) (srv : Server) (salt : Option (List ℕ)) (id : Text)
    (body : Option CreateUserRequest) (db : AuthDb)
    → P db
    → ((u : User) (after : AuthDb) → insert_user u db ≡ inserted after → P after)
    → P (handle_create_user srv salt id body db).0
unfolding handle_create_user
handle_create_user_holds P srv salt id body db h k = option_holds P body _ _ h (λ req _.
    unless_holds P (req.username == [] || req.password == []) _ _ h (λ _.
      unless_holds P (ltb (length req.password) 8) _ _ h (λ _.
        option_holds P (hash_password srv salt req.password) _ _ h (λ hash _.
          inserted_holds P (insert_user (new_user id hash req) db) _ _ _ h h
            (k (new_user id hash req))))))

pub set_admin_holds {ℓ} :
    (P : AuthDb → Type ℓ) (id : Text) (admin : Option Bool) (db : AuthDb)
    → P db
    → ((b : Bool)
        → (not b && other_admins id db == 0) ≡ false
        → P (update_users (has_user_id id) (λ u. record u { is_platform_admin = flag b }) db))
    → P (set_admin id admin db).0
unfolding set_admin
set_admin_holds P id none db h k = h
set_admin_holds P id (some b) db h k = unless_holds P (not b && other_admins id db == 0) _ _ h (k b)

pub handle_update_user_holds {ℓ} :
    (P : AuthDb → Type ℓ) (id : Text) (body : Option UpdateUserRequest) (db : AuthDb)
    → P db
    → ((req : UpdateUserRequest)
        → P (set_admin id req.is_platform_admin (rename_user id req.display_name db)).0)
    → P (handle_update_user id body db).0
unfolding handle_update_user
handle_update_user_holds P id body db h k =
    unless_holds P (id == []) _ _ h (λ _. option_holds P body _ _ h (λ req _. k req))

pub handle_reset_password_holds {ℓ} :
    (P : AuthDb → Type ℓ) (srv : Server) (now : ℕ) (salt : Option (List ℕ)) (id : Text)
    (body : Option Text) (db : AuthDb)
    → P db
    → ((hash : Text)
        → P (
            revoke_live now (of_user id) (
              update_users
                (has_user_id id)
                (λ u. record u { password_hash = hash; must_change_password = 1 })
                db)))
    → P (handle_reset_password srv now salt id body db).0
unfolding handle_reset_password
handle_reset_password_holds P srv now salt id body db h k = option_holds P body _ _ h (λ password _.
    unless_holds P (ltb (length password) 8) _ _ h
      (λ _. option_holds P (hash_password srv salt password) _ _ h (λ hash _. k hash)))

pub handle_disable_user_holds {ℓ} :
    (P : AuthDb → Type ℓ) (now : ℕ) (id : Text) (db : AuthDb)
    → P db
    → ((is_admin_id id db && other_admins id db == 0) ≡ false
        → P (revoke_live now (of_user id) (update_users (has_user_id id) disabled db)))
    → P (handle_disable_user now id db).0
unfolding handle_disable_user
handle_disable_user_holds P now id db h k =
    unless_holds P (id == []) _ _ h
      (λ named. unless_holds P (is_admin_id id db && other_admins id db == 0) _ _ h k)

-- The statement of `HandleCreateTenant` leaves out a column that must not be NULL.
pub handle_create_tenant_holds {ℓ} :
    (P : AuthDb → Type ℓ) (id membership_id : Text) (body : Option CreateTenantRequest)
    (db : AuthDb)
    → P db
    → P (handle_create_tenant id membership_id body db).0
unfolding handle_create_tenant insert_tenant
handle_create_tenant_holds P id membership_id body db h = option_holds P body _ _ h (λ req _.
    unless_holds P (req.name == [] || req.admin_username == []) _ _ h
      (λ _. option_holds P (find_active_user req.admin_username db) _ _ h (λ admin _. h)))

pub handle_update_tenant_holds {ℓ} :
    (P : AuthDb → Type ℓ) (id : Text) (body : Option (Option Text)) (db : AuthDb)
    → P db
    → ((name : Text) → P (update_tenants id (λ t. record t { name = name }) db))
    → P (handle_update_tenant id body db).0
unfolding handle_update_tenant
handle_update_tenant_holds P id none db h k = h
handle_update_tenant_holds P id (some none) db h k = h
handle_update_tenant_holds P id (some (some name)) db h k = k name

pub handle_create_membership_holds {ℓ} :
    (P : AuthDb → Type ℓ) (id : Text) (body : Option CreateMembershipRequest) (r : Request)
    (db : AuthDb)
    → P db
    → ((i : SessionInfo) (req : CreateMembershipRequest) (u : User) (mid after : AuthDb)
        → r.info ≡ some i
        → is_empty req.role_ids ≡ false
        → refusal_of_roles i.tenant_id req.role_ids db ≡ none
        → insert_membership
            (record { id = id; user_id = u.id; tenant_id = i.tenant_id; status = text "active" })
            db
          ≡ inserted mid
        → assign_roles id req.role_ids mid ≡ some after
        → P after)
    → P (handle_create_membership id body r db).0
unfolding handle_create_membership join_user join_tenant
handle_create_membership_holds P id body r db h k = option_holds P r.info _ _ h (λ i f.
    option_holds P body _ _ h (λ req _.
      unless_holds P (req.username == [] || is_empty req.role_ids) _ _ h (λ given.
        option_holds P (find_active_user req.username db) _ _ h (λ u _.
          none_holds P (find (is_membership_of u.id i.tenant_id) db.memberships) _ _ (λ _. h)
            (λ _.
              none_holds P (refusal_of_roles i.tenant_id req.role_ids db) _ _ (λ _. h)
                (λ usable.
                  inserted_holds P
                    (insert_membership
                      (record {
                        id = id;
                        user_id = u.id;
                        tenant_id = i.tenant_id;
                        status = text "active";
                      })
                      db)
                    _ _ _ h h
                    (λ mid made.
                      rollback_holds P db id (assign_roles id req.role_ids mid) h (λ after assigned.
                        k i req u mid after f (ground (arith, given)) usable made assigned))))))))

pub handle_disable_membership_holds {ℓ} :
    (P : AuthDb → Type ℓ) (id : Text) (r : Request) (db : AuthDb)
    → P db
    → ((i : SessionInfo) (m : Membership)
        → r.info ≡ some i
        → find_membership id db ≡ some m
        → m.tenant_id ≡ i.tenant_id
        → P (record db {
          memberships = update_where (has_membership_id id) disabled_membership db.memberships;
        }))
    → P (handle_disable_membership id r db).0
unfolding handle_disable_membership
handle_disable_membership_holds P id r db h k =
    option_holds P (find_membership id db) _ _ h (λ m found. option_holds P r.info _ _ h (λ i f.
      when_holds P (m.tenant_id == i.tenant_id) _ _ h
        (λ same. k i m f found ((text_eq.equal_iff m.tenant_id i.tenant_id).0 same))))

pub handle_add_membership_role_holds {ℓ} :
    (P : AuthDb → Type ℓ) (id : Text) (body : Option Text) (r : Request) (db : AuthDb)
    → P db
    → ((i : SessionInfo) (role_id : Text) (m : Membership) (role : Role) (after : AuthDb)
        → r.info ≡ some i
        → find_active_membership id db ≡ some m
        → (m.tenant_id == i.tenant_id) ≡ true
        → is_usable i.tenant_id role ≡ true
        → insert_membership_role (record { membership_id = id; role_id = role_id }) db
          ≡ inserted after
        → P after)
    → P (handle_add_membership_role id body r db).0
unfolding handle_add_membership_role assign_role
handle_add_membership_role_holds P id body r db h k = option_holds P r.info _ _ h (λ i f.
    option_holds P body _ _ h (λ role_id _.
      option_holds P (find_active_membership id db) _ _ h (λ m found.
        not_holds P (m.tenant_id == i.tenant_id) _ _ h (λ same.
          option_holds P (find_active_role role_id db) _ _ h (λ role _.
            when_holds P (is_usable i.tenant_id role) _ _ h (λ usable.
              inserted_holds P
                (insert_membership_role (record { membership_id = id; role_id = role_id }) db) _ _ _
                h h (λ after made. k i role_id m role after f found same usable made)))))))

pub handle_remove_membership_role_holds {ℓ} :
    (P : AuthDb → Type ℓ) (id role_id : Text) (r : Request) (db : AuthDb)
    → P db
    → ((i : SessionInfo) (m : Membership)
        → r.info ≡ some i
        → find_membership id db ≡ some m
        → (m.tenant_id == i.tenant_id) ≡ true
        → (m.status == text "active" && leb (count_by (is_role_of id) db.membership_roles) 1)
          ≡ false
        → P (record db {
          membership_roles = delete_where (is_assignment id role_id) db.membership_roles;
        }))
    → P (handle_remove_membership_role id role_id r db).0
unfolding handle_remove_membership_role
handle_remove_membership_role_holds P id role_id r db h k = option_holds P r.info _ _ h (λ i f.
    option_holds P (find_membership id db) _ _ h (λ m found.
      not_holds P (m.tenant_id == i.tenant_id) _ _ h (λ same.
        unless_holds P
          (m.status == text "active" && leb (count_by (is_role_of id) db.membership_roles) 1) _ _ h
          (λ more. k i m f found same more))))

pub handle_create_role_holds {ℓ} :
    (P : AuthDb → Type ℓ) (id : Text) (body : Option CreateRoleRequest) (r : Request) (db : AuthDb)
    → P db
    → ((i : SessionInfo) (req : CreateRoleRequest) (after : AuthDb)
        → r.info ≡ some i
        → insert_role (new_role id i.tenant_id req) db ≡ inserted after
        → P after)
    → P (handle_create_role id body r db).0
unfolding handle_create_role add_role
handle_create_role_holds P id body r db h k = option_holds P r.info _ _ h (λ i f.
    option_holds P body _ _ h (λ req _. unless_holds P (req.name == []) _ _ h (λ _.
      inserted_holds P (insert_role (new_role id i.tenant_id req) db) _ _ _ h h
        (λ after made. k i req after f made))))

pub handle_delete_role_holds {ℓ} :
    (P : AuthDb → Type ℓ) (id : Text) (r : Request) (db : AuthDb)
    → P db
    → ((i : SessionInfo) (role : Role) (after : AuthDb)
        → r.info ≡ some i
        → find_role id db ≡ some role
        → same_tenant role.tenant_id (some i.tenant_id) ≡ true
        → delete_role id db ≡ some after
        → P after)
    → P (handle_delete_role id r db).0
unfolding handle_delete_role
handle_delete_role_holds P id r db h k = option_holds P r.info _ _ h (λ i f.
    option_holds P (find_role id db) _ _ h (λ role found.
      unless_holds P (role.built_in == 1) _ _ h (λ _.
        not_holds P (same_tenant role.tenant_id (some i.tenant_id)) _ _ h (λ same.
          unless_holds P (is_assigned id db) _ _ h (λ _.
            deleted_holds P db (delete_role id db) h
              (λ after gone. k i role after f found same gone))))))

pub handle_update_role_permissions_holds {ℓ} :
    (P : AuthDb → Type ℓ) (id : Text) (body : Option (List Text)) (r : Request) (db : AuthDb)
    → P db
    → ((i : SessionInfo) (role : Role) (tenant : Text) (ids : List Text)
        → r.info ≡ some i
        → find_role id db ≡ some role
        → role.tenant_id ≡ some tenant
        → (tenant == i.tenant_id) ≡ true
        → P (replace_permissions id ids db).0)
    → P (handle_update_role_permissions id body r db).0
unfolding handle_update_role_permissions
handle_update_role_permissions_holds P id body r db h k =
    option_holds P (find_role id db) _ _ h (λ role found.
      unless_holds P (role.built_in == 1) _ _ h (λ _.
        option_holds P role.tenant_id _ _ h (λ tenant own. option_holds P r.info _ _ h (λ i f.
          not_holds P (tenant == i.tenant_id) _ _ h
            (λ same. option_holds P body _ _ h (λ ids _. k i role tenant ids f found own same))))))
