-- ===== src/Rbac/Admins.antt =====
-- The last active platform administrator (internal/server/rbac/handlers.go).
use lightai_go.Common.{
  ℕ, ◌≤◌, ◌≡◌, refl, subst, Bool, true, false, not, ◌&&◌, ◌||◌, Option, none, some, List, [], ◌∷◌,
  ◌++◌, any, find, count_by, count_by-append, update_where, ◌==◌, nat_eq, if◌then◌else◌, Bool-cases,
  inl, inr, arith,
}
use lightai_go.Text.{Text, text_eq}
use lightai_go.Auth.{User, AuthDb, Server, find_user}
use lightai_go.Rbac.{inserted, insert_user, update_users}
use lightai_go.Auth.Account.{set_password}
use lightai_go.Rbac.Tenants.{handle_disable_tenant}
use lightai_go.Rbac.Steps.{
  Step, create_user, update_user, disable_user, reset_password, own_password, create_tenant,
  update_tenant, disable_tenant, create_membership, disable_membership, add_membership_role,
  remove_membership_role, create_role, delete_role, update_role_permissions, sessions, Steps, here,
  next,
}
use lightai_go.Rbac.Roles.{replace_permissions}
use lightai_go.Rbac.Inserting.{
  role_assigned, role_inserted, role_deleted, permission_granted, membership_inserted,
  assign_roles_keeps, add_permissions_keeps,
}
use lightai_go.Rbac.Cases.{
  set_admin_holds, handle_create_user_holds, handle_update_user_holds, handle_disable_user_holds,
  handle_reset_password_holds, handle_create_tenant_holds, handle_update_tenant_holds,
  handle_create_membership_holds, handle_disable_membership_holds, handle_add_membership_role_holds,
  handle_remove_membership_role_holds, handle_create_role_holds, handle_delete_role_holds,
  handle_update_role_permissions_holds,
}
use lightai_go.Rbac.Users.{
  is_active_admin, set_admin, has_user_id, other_admins, is_admin_id, disabled, flag, rename_user,
}

-- How many active platform administrators there are
abbrev pub admins : AuthDb → ℕ
admins db = count_by is_active_admin db.users

-- An update of one user leaves the other administrators.
update_others :
    (id : Text) (f : User → User) (users : List User)
    → count_by (λ u. is_active_admin u && not (has_user_id id u)) users
      ≤ count_by is_active_admin (update_where (has_user_id id) f users)
unfolding update_where
update_others id f [] = omega arith
update_others id f (u ∷ users) = ground (arith, update_others id f users)

-- An update that keeps the status and the flag keeps the number of administrators.
update_same :
    (p : User → Bool) (f : User → User) (users : List User)
    → ((u : User) → is_active_admin (f u) ≡ is_active_admin u)
    → count_by is_active_admin (update_where p f users) ≡ count_by is_active_admin users
unfolding update_where
update_same p f [] h = refl
update_same p f (u ∷ users) h = ground (arith, h u, update_same p f users h)

-- So does one of a user who is no administrator before or after.
update_plain :
    (id : Text) (f : User → User) (users : List User)
    → ((u : User) → is_active_admin u ≡ true → is_active_admin (f u) ≡ true)
    → count_by is_active_admin users
      ≤ count_by is_active_admin (update_where (has_user_id id) f users)
unfolding update_where
update_plain id f [] h = omega arith
update_plain id f (u ∷ users) h = ground (arith, h u, update_plain id f users h)

update_none :
    (id : Text) (f : User → User) (users : List User)
    → count_by (has_user_id id) users ≡ 0
    → count_by is_active_admin (update_where (has_user_id id) f users)
      ≡ count_by is_active_admin users
unfolding update_where
update_none id f [] h = refl
update_none id f (u ∷ users) h = ground (arith, update_none id f users)

-- The user whose id is found is the only one of it.
update_found :
    (id : Text) (f : User → User) (users : List User)
    → count_by (has_user_id id) users ≤ 1
    → ((u : User) → find (has_user_id id) users ≡ some u → is_active_admin u ≡ false)
    → count_by is_active_admin users
      ≤ count_by is_active_admin (update_where (has_user_id id) f users)
unfolding update_where
update_found id f [] h plain = omega arith
update_found id f (u ∷ users) h plain = elim (Bool-cases (has_user_id id u)) [
  | inl e ↦ let low = plain u (rw e refl) in ground (arith, update_none id f users)
  | inr e ↦ ground (arith, update_found id f users, λ (v : User). plain v)
]

updated_id : (b : Bool) (x u : User) → x.id ≡ u.id → (if b then x else u).id ≡ u.id
updated_id true x u h = h
updated_id false x u h = refl

keys_updated :
    (k : Text) (p : User → Bool) (f : User → User) (users : List User)
    → ((u : User) → (f u).id ≡ u.id)
    → count_by (has_user_id k) (update_where p f users) ≡ count_by (has_user_id k) users
unfolding update_where
keys_updated k p f [] h = refl
keys_updated k p f (u ∷ users) h =
    rw (updated_id (p u) (f u) u (h u)) (rw (keys_updated k p f users h) refl)

-- There is an active platform administrator, and no id is that of two users.
abbrev pub IsGoverned : AuthDb → Type 0
IsGoverned db = (1 ≤ admins db) × ((id : Text) → count_by (has_user_id id) db.users ≤ 1)

no_key :
    (id username : Text) (users : List User)
    → any (λ (x : User). x.id == id || x.username == username) users ≡ false
    → count_by (has_user_id id) users ≡ 0
no_key id username [] free = refl
no_key id username (x ∷ users) free = ground (arith, no_key id username users)

pub key_added :
    (u : User) (users : List User) (id : Text)
    → any (λ (x : User). x.id == u.id || x.username == u.username) users ≡ false
    → count_by (has_user_id id) users ≤ 1
    → count_by (has_user_id id) (users ++ u ∷ []) ≤ 1
key_added u users id free h = elim (Bool-cases (u.id == id)) [
  | inl e ↦
      let same : u.id ≡ id = (text_eq.equal_iff u.id id).0 e in
      let none_yet : count_by (has_user_id id) users ≡ 0 =
        rw (← same) (no_key u.id u.username users free) in
      ground (arith, count_by-append (has_user_id id) users (u ∷ []))
  | inr e ↦ ground (arith, count_by-append (has_user_id id) users (u ∷ []))
]

inserted-IsGoverned :
    (u : User) (db after : AuthDb)
    → insert_user u db ≡ inserted after
    → IsGoverned db
    → IsGoverned after
unfolding insert_user
inserted-IsGoverned u db after e h =
    elim (Bool-cases (any (λ (x : User). x.id == u.id || x.username == u.username) db.users)) [
      | inl taken ↦ absurd (let k = rw taken at e in cc)
      | inr free ↦
          let made : inserted (record db { users = db.users ++ u ∷ [] }) ≡ inserted after =
            rw free at e in
          let same : record db { users = db.users ++ u ∷ [] } ≡ after = cc in
          rw (← same) (
            omega (arith, h.0, count_by-append is_active_admin db.users (u ∷ [])),
            λ id. key_added u db.users id free (h.1 id),
          )
    ]

-- An update of users by their ids, which keeps the ids
updated-IsGoverned :
    (p : User → Bool) (f : User → User) (db : AuthDb)
    → ((u : User) → (f u).id ≡ u.id)
    → 1 ≤ count_by is_active_admin (update_where p f db.users)
    → IsGoverned db
    → IsGoverned (update_users p f db)
updated-IsGoverned p f db same some_admin h =
    (some_admin, λ id. rw (keys_updated id p f db.users same) (h.1 id))

set_admin-IsGoverned :
    (id : Text) (admin : Option Bool) (db : AuthDb)
    → IsGoverned db
    → IsGoverned (set_admin id admin db).0
set_admin-IsGoverned id admin db h =
    set_admin_holds IsGoverned id admin db h (λ b allowed. set_to b allowed)
  where
    set_to :
        (b : Bool)
        → (not b && other_admins id db == 0) ≡ false
        → IsGoverned
            (update_users (has_user_id id) (λ u. record u { is_platform_admin = flag b }) db)
    set_to true allowed =
        updated-IsGoverned (has_user_id id) _ db (λ u. refl)
          (omega (
            arith,
            h.0,
            update_plain id (λ (u : User). record u { is_platform_admin = 1 }) db.users
                (λ u active. ground arith),
          ))
          h
    set_to false allowed =
        updated-IsGoverned (has_user_id id) _ db (λ u. refl)
          (ground
            (arith, update_others id (λ (u : User). record u { is_platform_admin = 0 }) db.users))
          h

rename_user-IsGoverned :
    (id : Text) (name : Option Text) (db : AuthDb)
    → IsGoverned db
    → IsGoverned (rename_user id name db)
unfolding rename_user
rename_user-IsGoverned id none db h = h
rename_user-IsGoverned id (some name) db h =
    updated-IsGoverned (has_user_id id) _ db (λ u. refl)
      (rw
        (update_same (has_user_id id) (λ (u : User). record u { display_name = name }) db.users
          (λ u. refl))
        h.0)
      h

not_admin :
    (id : Text) (db : AuthDb) (u : User)
    → is_admin_id id db ≡ false
    → find_user id db ≡ some u
    → is_active_admin u ≡ false
unfolding is_admin_id
not_admin id db u e found =
    let plain : (u.is_platform_admin == 1) ≡ false = rw (found, is_admin_id) at e in rw plain refl

disable-IsGoverned :
    (id : Text) (db : AuthDb)
    → (is_admin_id id db && other_admins id db == 0) ≡ false
    → IsGoverned db
    → IsGoverned (update_users (has_user_id id) disabled db)
disable-IsGoverned id db allowed h =
    updated-IsGoverned (has_user_id id) disabled db (λ u. refl)
      (elim (Bool-cases (is_admin_id id db)) [
        | inl admin ↦
            let others : (other_admins id db == 0) ≡ false = rw admin at allowed in
            ground (arith, update_others id disabled db.users)
        | inr plain ↦ omega (
          arith,
          h.0,
          update_found id disabled db.users (h.1 id) (λ u found. not_admin id db u plain found),
        )
      ])
      h

password-IsGoverned :
    (id : Text) (f : User → User) (db : AuthDb)
    → ((u : User) → (f u).id ≡ u.id)
    → ((u : User) → is_active_admin (f u) ≡ is_active_admin u)
    → IsGoverned db
    → IsGoverned (update_users (has_user_id id) f db)
password-IsGoverned id f db same_id same_admin h =
    updated-IsGoverned (has_user_id id) f db same_id
      (rw (update_same (has_user_id id) f db.users same_admin) h.0) h

Step-IsGoverned :
    {srv : Server} {db after : AuthDb} → Step srv db after → IsGoverned db → IsGoverned after
unfolding handle_disable_tenant set_password replace_permissions
Step-IsGoverned {srv} (create_user salt id body db) h =
    handle_create_user_holds IsGoverned srv salt id body db h
      (λ u after e. inserted-IsGoverned u db after e h)
Step-IsGoverned (update_user id body db) h =
    handle_update_user_holds IsGoverned id body db h (λ req.
      set_admin-IsGoverned id req.is_platform_admin _
        (rename_user-IsGoverned id req.display_name db h))
Step-IsGoverned (disable_user now id db) h =
    handle_disable_user_holds IsGoverned now id db h (λ allowed. disable-IsGoverned id db allowed h)
Step-IsGoverned {srv} (reset_password now salt id body db) h =
    handle_reset_password_holds IsGoverned srv now salt id body db h
      (λ hash. password-IsGoverned id _ db (λ u. refl) (λ u. refl) h)
Step-IsGoverned (own_password user_id hash db) h =
    password-IsGoverned user_id _ db (λ u. refl) (λ u. refl) h
Step-IsGoverned (create_tenant id membership_id body db) h =
    handle_create_tenant_holds IsGoverned id membership_id body db h
Step-IsGoverned (update_tenant id body db) h =
    handle_update_tenant_holds IsGoverned id body db h (λ name. h)
Step-IsGoverned (disable_tenant now id db) h = h
Step-IsGoverned (create_membership id body r db) h =
    handle_create_membership_holds IsGoverned id body r db h
      (λ i req u mid after _ _ _ made assigned.
        assign_roles_keeps IsGoverned id
          (λ role before later one k. subst IsGoverned (role_assigned _ before later one).1 k)
          req.role_ids mid after assigned
          (subst IsGoverned (membership_inserted _ db mid made).1 h))
Step-IsGoverned (disable_membership id r db) h =
    handle_disable_membership_holds IsGoverned id r db h (λ i m _ _ _. h)
Step-IsGoverned (add_membership_role id body r db) h =
    handle_add_membership_role_holds IsGoverned id body r db h
      (λ i role_id m role after _ _ _ _ made. subst IsGoverned (role_assigned _ db after made).1 h)
Step-IsGoverned (remove_membership_role id role_id r db) h =
    handle_remove_membership_role_holds IsGoverned id role_id r db h (λ i m _ _ _ _. h)
Step-IsGoverned (create_role id body r db) h =
    handle_create_role_holds IsGoverned id body r db h
      (λ i req after _ made. subst IsGoverned (role_inserted _ db after made).1 h)
Step-IsGoverned (delete_role id r db) h =
    handle_delete_role_holds IsGoverned id r db h
      (λ i role after _ _ _ gone. subst IsGoverned (role_deleted id db after gone).1 h)
Step-IsGoverned (update_role_permissions id body r db) h =
    handle_update_role_permissions_holds IsGoverned id body r db h (λ i role tenant ids _ _ _ _.
      add_permissions_keeps IsGoverned id db h
        (λ p_id p mid after _ _ made k. subst IsGoverned (permission_granted _ mid after made).1 k)
        ids _ h)
Step-IsGoverned (sessions rows db) h = h

-- While there is an active platform administrator, and no id is that of two users, there still is one
-- after every history of the handlers of users, tenants, memberships and roles, of changes of one's
-- own password, and of changes of the sessions, and ids stay distinct.
pub Steps-IsGoverned :
    (srv : Server) (db after : AuthDb) → Steps srv db after → IsGoverned db → IsGoverned after
Steps-IsGoverned srv db after here h = h
Steps-IsGoverned srv db after (next {mid} run step) h =
    Step-IsGoverned step (Steps-IsGoverned srv db mid run h)
