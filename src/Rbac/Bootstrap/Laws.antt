-- ===== src/Rbac/Bootstrap/Laws.antt =====
-- What the bootstrap leaves (internal/server/auth/bootstrap.go).
use lightai_go.Common.{
  ℕ, ◌≤◌, ◌≡◌, refl, ◌∙◌, subst, false, ◌||◌, Option, none, some, List, [], ◌∷◌, ◌++◌, any, find,
  count_by, count_by-append, ◌==◌, nat_eq, arith, inl, inr,
}
use lightai_go.Text.{Text, text, text_eq, text_beq}
use lightai_go.Text.Maps.{Map, lookup, insert}
use lightai_go.Auth.{
  ◌>>=◌, User, Tenant, Membership, Permission, RolePermission, MembershipRole, AuthDb, Server,
}
use lightai_go.Auth.Passwords.{hash_password}
use lightai_go.Auth.Guards.{option_split}
use lightai_go.Rbac.{
  Inserted, inserted, not_unique, refused, insert_user, insert_tenant, insert_membership,
  insert_membership_role, insert_role, insert_role_permission,
}
use lightai_go.Rbac.Users.{has_user_id, is_active_admin}
use lightai_go.Rbac.Memberships.{is_membership_of}
use lightai_go.Rbac.Inserting.{
  if_inserted, membership_inserted, role_assigned, role_inserted, permission_granted,
}
use lightai_go.Rbac.Admins.{IsGoverned, key_added}
use lightai_go.Rbac.Bootstrap.{
  BootstrapConfig, insert_permission, or_ignore, seed_permissions, seed_grants, is_builtin_named,
  builtin_role, seed_roles, seed_tenant, seat_bootstrap_user, bootstrap_user, seed_user, bootstrap,
}
use lightai_go.Rbac.Catalog.{PermissionDef, BuiltinRoleDef, permission_catalog, builtin_roles}

-- Where a chain of steps has an end, its first step has one and the rest has it.
bind_some {ℓ κ} :
    {A : Type ℓ} {B : Type κ} (o : Option A) (f : A → Option B) (b : B)
    → (o >>= f) ≡ some b
    → (a : A) × (o ≡ some a) × (f a ≡ some b)
bind_some none f b e = absurd (cc)
bind_some (some a) f b e = (a, refl, e)

-- An ignored insertion keeps what the insertion keeps.
or_ignore-keeps {ℓ} :
    (P : AuthDb → Type ℓ) (db after : AuthDb) (o : Inserted)
    → or_ignore db o ≡ some after
    → ((made : AuthDb) → o ≡ inserted made → P made)
    → P db
    → P after
or_ignore-keeps P db after (inserted made) e k h =
    let same : made ≡ after = cc in subst P same (k made refl)
or_ignore-keeps P db after not_unique e k h = let same : db ≡ after = cc in subst P same h
or_ignore-keeps P db after refused e k h = absurd (cc)

abbrev HasUsers : List User → AuthDb → Type 0
HasUsers users db = db.users ≡ users

permission_inserted :
    (p : Permission) (db after : AuthDb)
    → insert_permission p db ≡ inserted after
    → record db { permissions = db.permissions ++ p ∷ [] } ≡ after
unfolding insert_permission
permission_inserted p db after e = (if_inserted _ _ db after e).1

seed_permissions-users :
    (new : Text → Text) (ps : List PermissionDef) (ids : Map) (db : AuthDb) (end : AuthDb × Map)
    → seed_permissions new ps ids db ≡ some end
    → end.0.users ≡ db.users
unfolding seed_permissions
seed_permissions-users new [] ids db end e = let same : (db, ids) ≡ end = cc in rw (← same) refl
seed_permissions-users new (p ∷ ps) ids db end e =
    let row : Permission = record { id = new p.code; code = p.code; scope = p.scope } in
    let (after, made, e1) = bind_some (or_ignore db (insert_permission row db)) _ end e in
    let (found, f, e2) =
      bind_some (find (λ (x : Permission). x.code == p.code) after.permissions) _ end e1 in
    let kept : after.users ≡ db.users =
      or_ignore-keeps (HasUsers db.users) db after (insert_permission row db) made
        (λ mid i. subst (HasUsers db.users) (permission_inserted row db mid i) refl) refl in
    seed_permissions-users new ps (insert p.code found.id ids) after end e2 ∙ kept

seed_grants-users :
    (role : Text) (codes : List Text) (ids : Map) (db end : AuthDb)
    → seed_grants role codes ids db ≡ some end
    → end.users ≡ db.users
unfolding seed_grants
seed_grants-users role [] ids db end e = let same : db ≡ end = cc in rw (← same) refl
seed_grants-users role (code ∷ codes) ids db end e =
    let (id, f, e1) = bind_some (lookup code ids) _ end e in
    let row : RolePermission = record { role_id = role; permission_id = id } in
    let (after, made, e2) = bind_some (or_ignore db (insert_role_permission row db)) _ end e1 in
    let kept : after.users ≡ db.users =
      or_ignore-keeps (HasUsers db.users) db after (insert_role_permission row db) made
        (λ mid i. subst (HasUsers db.users) (permission_granted row db mid i).1 refl) refl in
    seed_grants-users role codes ids after end e2 ∙ kept

seed_roles-users :
    (new : Text → Text) (roles : List BuiltinRoleDef) (ids : Map) (db end : AuthDb)
    → seed_roles new roles ids db ≡ some end
    → end.users ≡ db.users
unfolding seed_roles
seed_roles-users new [] ids db end e = let same : db ≡ end = cc in rw (← same) refl
seed_roles-users new (role ∷ roles) ids db end e =
    let row = builtin_role (new role.name) role in
    let (after, made, e1) = bind_some (or_ignore db (insert_role row db)) _ end e in
    let (found, f, e2) = bind_some (find (is_builtin_named role.name) after.roles) _ end e1 in
    let (seeded, g, e3) = bind_some (seed_grants found.id role.permissions ids after) _ end e2 in
    let kept : after.users ≡ db.users =
      or_ignore-keeps (HasUsers db.users) db after (insert_role row db) made
        (λ mid i. subst (HasUsers db.users) (role_inserted row db mid i).1 refl) refl in
    seed_roles-users new roles ids seeded end e3
    ∙ seed_grants-users found.id role.permissions ids after seeded g
    ∙ kept

seat_bootstrap_user-users :
    (new : Text → Text) (tenant user : Text) (db end : AuthDb)
    → seat_bootstrap_user new tenant user db ≡ some end
    → end.users ≡ db.users
unfolding seat_bootstrap_user
seat_bootstrap_user-users new tenant user db end e =
    let row : Membership = record {
      id = new (text "membership");
      user_id = user;
      tenant_id = tenant;
      status = text "active";
    } in
    let (joined, made, e1) = bind_some (or_ignore db (insert_membership row db)) _ end e in
    let (m, f, e2) = bind_some (find (is_membership_of user tenant) joined.memberships) _ end e1 in
    let (role, g, e3) = bind_some (find (is_builtin_named (text "admin")) joined.roles) _ end e2 in
    let given : MembershipRole = record { membership_id = m.id; role_id = role.id } in
    let kept : joined.users ≡ db.users =
      or_ignore-keeps (HasUsers db.users) db joined (insert_membership row db) made
        (λ mid i. subst (HasUsers db.users) (membership_inserted row db mid i).1 refl) refl in
    or_ignore-keeps (HasUsers db.users) joined end (insert_membership_role given joined) e3
      (λ mid i. subst (HasUsers db.users) (role_assigned given joined mid i).1 kept) kept

tenant_users :
    (o : Inserted) (db : AuthDb) (id : Text) (end : AuthDb × Text)
    → ((made : AuthDb) → o ≡ inserted made → made.users ≡ db.users)
    → ◌≡◌ {A = Option (AuthDb × Text)}
        (elim o [ inserted after ↦ some (after, id) | not_unique ↦ none | refused ↦ none ])
        (some end)
    → end.0.users ≡ db.users
tenant_users (inserted after) db id end k e =
    let same : (after, id) ≡ end = cc in rw (← same) (k after refl)
tenant_users not_unique db id end k e = absurd (cc)
tenant_users refused db id end k e = absurd (cc)

tenant_inserted :
    (id slug name : Text) (db after : AuthDb)
    → insert_tenant id (some slug) name db ≡ inserted after
    → after.users ≡ db.users
unfolding insert_tenant
tenant_inserted id slug name db after e =
    subst (HasUsers db.users) (if_inserted _ _ db after e).1 refl

seed_tenant-users :
    (db : AuthDb) (end : AuthDb × Text) → seed_tenant db ≡ some end → end.0.users ≡ db.users
unfolding seed_tenant
seed_tenant-users db end e =
    elim (option_split (find (λ (t : Tenant). t.slug == text "default") db.tenants) _ _ _ e) [
      | inl (n, k) ↦
          tenant_users _ db _ end
            (λ made i.
              tenant_inserted (text "a0000000-0000-0000-0000-000000000001") (text "default")
                (text "Default Tenant") db made i)
            k
      | inr (t, f, k) ↦ let same : (db, t.id) ≡ end = cc in rw (← same) refl
    ]

-- Where the name and the id of the first administrator are not taken, the user is added.
seed_user-users :
    (new : Text → Text) (cfg : BootstrapConfig) (tenant hash : Text) (db end : AuthDb)
    → any (λ (x : User). x.id == new (text "user") || x.username == cfg.username) db.users ≡ false
    → seed_user new cfg tenant hash db ≡ some end
    → end.users ≡ db.users ++ bootstrap_user new cfg hash ∷ []
unfolding seed_user insert_user
seed_user-users new cfg tenant hash db end free e =
    let (after, made, e1) =
      bind_some (or_ignore db (insert_user (bootstrap_user new cfg hash) db)) _ end e in
    let (u, f, e2) =
      bind_some (find (λ (u : User). u.username == cfg.username) after.users) _ end e1 in
    let added : some (record db { users = db.users ++ bootstrap_user new cfg hash ∷ [] })
        ≡ some after =
      rw free at made in
    let same : record db { users = db.users ++ bootstrap_user new cfg hash ∷ [] } ≡ after = cc in
    seat_bootstrap_user-users new tenant u.id after end e2 ∙ rw (← same) refl

with_admin :
    (new : Text → Text) (cfg : BootstrapConfig) (hash : Text) (users : List User)
    → 1 ≤ count_by is_active_admin (users ++ bootstrap_user new cfg hash ∷ [])
unfolding text_beq
with_admin new cfg hash users =
    omega (arith, count_by-append is_active_admin users (bootstrap_user new cfg hash ∷ []))

first_admin :
    (new : Text → Text) (cfg : BootstrapConfig) (hash : Text) (db after : AuthDb)
    → any (λ (x : User). x.id == new (text "user") || x.username == cfg.username) db.users ≡ false
    → ((id : Text) → count_by (has_user_id id) db.users ≤ 1)
    → after.users ≡ db.users ++ bootstrap_user new cfg hash ∷ []
    → IsGoverned after
first_admin new cfg hash db after free distinct users = rw users (
  with_admin new cfg hash db.users,
  λ id. key_added (bootstrap_user new cfg hash) db.users id free (distinct id),
)

seeded_users :
    (new : Text → Text) (cfg : BootstrapConfig) (tenant hash : Text) (db mid after : AuthDb)
    → mid.users ≡ db.users
    → any (λ (x : User). x.id == new (text "user") || x.username == cfg.username) db.users ≡ false
    → seed_user new cfg tenant hash mid ≡ some after
    → after.users ≡ db.users ++ bootstrap_user new cfg hash ∷ []
seeded_users new cfg tenant hash db mid after same free e =
    seed_user-users new cfg tenant hash mid after (rw same free) e ∙ rw same refl

-- Where the bootstrap succeeds, the name of the first administrator and its new id are not taken, and
-- no id is that of two users, the users are as before with this administrator added, and there is an
-- active platform administrator from then on.
pub bootstrap-IsGoverned :
    (srv : Server) (salt : Option (List ℕ)) (new : Text → Text) (cfg : BootstrapConfig)
    (password : Option Text) (db after : AuthDb)
    → bootstrap srv salt new cfg password db ≡ some after
    → any (λ (x : User). x.id == new (text "user") || x.username == cfg.username) db.users ≡ false
    → ((id : Text) → count_by (has_user_id id) db.users ≤ 1)
    → ((hash : Text) × (after.users ≡ db.users ++ bootstrap_user new cfg hash ∷ []))
      × IsGoverned after
unfolding bootstrap
bootstrap-IsGoverned srv salt new cfg password db after e free distinct =
    let (permitted, f1, e1) = bind_some (seed_permissions new permission_catalog [] db) _ after e in
    let (with_roles, f2, e2) =
      bind_some (seed_roles new builtin_roles permitted.1 permitted.0) _ after e1 in
    let (housed, f3, e3) = bind_some (seed_tenant with_roles) _ after e2 in
    let (chosen, f4, e4) = bind_some password _ after e3 in
    let (hash, f5, e5) = bind_some (hash_password srv salt chosen) _ after e4 in
    let same : housed.0.users ≡ db.users =
      seed_tenant-users with_roles housed f3
      ∙ seed_roles-users new builtin_roles permitted.1 permitted.0 with_roles f2
      ∙ seed_permissions-users new permission_catalog [] db permitted f1 in
    let users = seeded_users new cfg housed.1 hash db housed.0 after same free e5 in
    ((hash, users), first_admin new cfg hash db after free distinct users)
