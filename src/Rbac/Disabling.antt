-- ===== src/Rbac/Disabling.antt =====
-- What a user has left once disabled or given another password, and what a membership grants once
-- disabled (internal/server/rbac/handlers.go, internal/server/auth).
use lightai_go.Common.{
  ℕ, ◌⊎◌, ◌≡◌, refl, ap, ◌∙◌, Bool, true, false, ◌&&◌, ◌||◌, Option, none, some, List, [], ◌∷◌,
  find, ltb, length, update_where, All, ◌==◌, nat_eq, inl, inr, arith, Bool-cases, Option-cases,
}
use lightai_go.Text.{Text, text, text_eq}
use lightai_go.Auth.{User, Membership, Session, AuthDb, Server, find_session, hash_string}
use lightai_go.Auth.Sessions.{revoke_live, validate_session}
use lightai_go.Auth.Histories.{Steps}
use lightai_go.Auth.Revocation.{is_revoked, Steps-revoked_lem, validate-revoked}
use lightai_go.Auth.Passwords.{hash_password}
use lightai_go.Auth.Permissions.{
  is_member, resolve_permissions, has_permission, platform_permissions,
}
use lightai_go.Auth.Granted.{is_granted, has_permission-resolve_permissions}
use lightai_go.Auth.Guards.{option_split, unless_not_answered}
use lightai_go.Auth.Requests.{Request}
use lightai_go.Auth.Middleware.{Reply, denied, answered, aborted}
use lightai_go.Auth.Login.{
  LoginRequest, LoginResponse, LoginInput, logged_in, response_of, user_of, login_user,
}
use lightai_go.Auth.LoggedIn.{user_of_right, chosen_opened, opened}
use lightai_go.Auth.Changed.{revoke_live_makes}
use lightai_go.Text.{text_beq}
use lightai_go.Rbac.{insert_tenant, update_users}
use lightai_go.Rbac.Rows.{find_holds}
use lightai_go.Rbac.Tenants.{CreateTenantRequest, find_active_user, handle_create_tenant}
use lightai_go.Rbac.Users.{
  has_user_id, disabled, of_user, is_admin_id, other_admins, handle_disable_user,
  handle_reset_password,
}
use lightai_go.Rbac.Memberships.{
  is_membership_of, find_membership, has_membership_id, disabled_membership,
  handle_disable_membership,
}

-- The state once `HandleDisableUser` has answered
user_disabled :
    (now : ℕ) (id : Text) (db after : AuthDb)
    → handle_disable_user now id db ≡ (after, answered tt)
    → revoke_live now (of_user id) (update_users (has_user_id id) disabled db) ≡ after
unfolding handle_disable_user
user_disabled now id db after e =
    let (_, e1) = unless_not_answered (id == []) _ _ _ db after tt e in
    let (_, e2) =
      unless_not_answered (is_admin_id id db && other_admins id db == 0) _ _ _ db after tt e1 in
    ap (λ (x : AuthDb × Reply Unit). x.0) e2

-- The sessions once `HandleResetPassword` has answered
password_reset :
    (srv : Server) (now : ℕ) (salt : Option (List ℕ)) (id : Text) (body : Option Text)
    (db after : AuthDb)
    → handle_reset_password srv now salt id body db ≡ (after, answered tt)
    → (revoke_live now (of_user id) db).sessions ≡ after.sessions
unfolding handle_reset_password
password_reset srv now salt id body db after e = elim (option_split body _ _ _ e) [
  | inl (n, k) ↦ absurd (cc)
  | inr (password, b, k) ↦
      let (_, k1) = unless_not_answered (ltb (length password) 8) _ _ _ db after tt k in
      elim (option_split (hash_password srv salt password) _ _ _ k1) [
        | inl (n, k2) ↦ absurd (cc)
        | inr (hash, h, k2) ↦ ap (λ (x : AuthDb × Reply Unit). x.0.sessions) k2
      ]
]

-- Once a user is disabled or its password is reset by an administrator, each session that the user
-- had is valid at no time and after no history of operations on the sessions.
pub handle_disable_user-validate_session :
    (srv : Server) (now later : ℕ) (salt : Option (List ℕ)) (body : Option Text)
    (id session_id : Text) (db after last : AuthDb) (s : Session)
    → (handle_disable_user now id db ≡ (after, answered tt))
      ⊎ (handle_reset_password srv now salt id body db ≡ (after, answered tt))
    → find_session (hash_string srv session_id) db ≡ some s
    → s.user_id ≡ id
    → Steps srv after last
    → (validate_session srv later session_id last).1 ≡ none
handle_disable_user-validate_session srv now later salt body id session_id db after last s done
      found own run =
    let key = hash_string srv session_id in
    let gone =
      revoke_live_makes key now (of_user id) db.sessions s found
        ((text_eq.equal_iff s.user_id id).1 own) in
    let dead : is_revoked key after.sessions ≡ true = elim done [
      | inl e ↦ rw (← user_disabled now id db after e) gone
      | inr e ↦ rw (← password_reset srv now salt id body db after e) gone
    ] in
    validate-revoked srv later session_id last (Steps-revoked_lem key run dead)

inactive_lem : (text "disabled" == text "active") ≡ false
unfolding text_beq
inactive_lem = refl

-- No row of a disabled user is active.
all_off :
    (id : Text) (users : List User)
    → All
        (λ (u : User). (u.id == id && u.status == text "active") ≡ false)
        (update_where (has_user_id id) disabled users)
unfolding update_where
all_off id [] = tt
all_off id (u ∷ users) = elim (Bool-cases (u.id == id)) [
  | inl e ↦ rw e (rw inactive_lem (ground arith, all_off id users))
  | inr e ↦ rw e (ground arith, all_off id users)
]

-- Once a user is disabled, no login answers with a session of it, whatever the name and the password.
pub handle_disable_user-login_user :
    (srv : Server) (now : ℕ) (id : Text) (input : LoginInput) (req : LoginRequest)
    (db after last : AuthDb) (resp : LoginResponse)
    → handle_disable_user now id db ≡ (after, answered tt)
    → login_user srv input req after ≡ (last, answered (logged_in resp))
    → (resp.user_id == id) ≡ false
unfolding login_user response_of
handle_disable_user-login_user srv now id input req db after last resp done e =
    elim (option_split (user_of srv req.username req.password after) _ _ _ e) [
      | inl (n, k) ↦ absurd (cc)
      | inr (u, f, k) ↦
          let (found, active, right) = user_of_right srv req.username req.password after u f in
          let (tenant, member, o) = chosen_opened srv input u req.tenant_id after last resp k in
          let (t, created, ft, st, c, shown) = opened srv input u tenant after last resp o in
          let users : update_where (has_user_id id) disabled db.users ≡ after.users =
            rw (← user_disabled now id db after done) refl in
          let (named, off) =
            find_holds (λ (x : User). (x.id == id && x.status == text "active") ≡ false) _
              after.users u found (rw (← users) (all_off id db.users)) in
          let on = (text_eq.equal_iff u.status (text "active")).1 active in
          rw shown (ground (arith, off, on))
    ]

membership_disabled :
    (id : Text) (r : Request) (db after : AuthDb) (m : Membership)
    → find_membership id db ≡ some m
    → handle_disable_membership id r db ≡ (after, answered tt)
    → record db {
      memberships = update_where (has_membership_id id) disabled_membership db.memberships;
    }
      ≡ after
unfolding handle_disable_membership
membership_disabled id r db after m f e = elim (option_split (find_membership id db) _ _ _ e) [
  | inl (n, k) ↦ absurd (cc)
  | inr (m1, g, k) ↦ elim (option_split r.info _ _ _ k) [
    | inl (n, k1) ↦ absurd (cc)
    | inr (i, h, k1) ↦ elim (Bool-cases (m1.tenant_id == i.tenant_id)) [
      | inl same ↦ let k2 = rw same at k1 in ap (λ (x : AuthDb × Reply Unit). x.0) k2
      | inr other ↦ absurd (let k2 = rw other at k1 in cc)
    ]
  ]
]

none_active :
    (id user tenant : Text) (rows : List Membership)
    → All (λ (x : Membership). is_membership_of user tenant x ≡ true → (x.id == id) ≡ true) rows
    → find (is_member user tenant) (update_where (has_membership_id id) disabled_membership rows)
      ≡ none
unfolding update_where
none_active id user tenant [] h = refl
none_active id user tenant (m ∷ rows) h = elim (Bool-cases (m.id == id)) [
  | inl e ↦ rw e (rw inactive_lem (ground (arith, none_active id user tenant rows h.1)))
  | inr e ↦ rw e (ground (arith, none_active id user tenant rows h.1, h.0))
]

-- Once a membership is disabled, its user has no permission in its tenant but those of a platform
-- administrator, if no other membership is of this user and tenant.
pub handle_disable_membership-has_permission :
    (id code : Text) (admin : Bool) (r : Request) (db after : AuthDb) (m : Membership)
    → find_membership id db ≡ some m
    → All
        (λ (x : Membership). is_membership_of m.user_id m.tenant_id x ≡ true → (x.id == id) ≡ true)
        db.memberships
    → handle_disable_membership id r db ≡ (after, answered tt)
    → has_permission (resolve_permissions after m.user_id m.tenant_id admin).1 code
      ≡ (admin && has_permission platform_permissions code)
unfolding is_granted
handle_disable_membership-has_permission id code admin r db after m f only e =
    has_permission-resolve_permissions after m.user_id m.tenant_id code admin
    ∙ rw (← membership_disabled id r db after m f e)
        (rw (none_active id m.user_id m.tenant_id db.memberships only, is_granted) refl)

-- The answer is that of a request that is served.
abbrev pub is_answered : Reply Text → Bool
is_answered reply = elim reply [ answered a ↦ true | denied status error ↦ false | aborted ↦ false ]

-- No request makes a tenant: each is refused and leaves the tables as they are.
pub handle_create_tenant_lem :
    (id membership_id : Text) (body : Option CreateTenantRequest) (db : AuthDb)
    → ((handle_create_tenant id membership_id body db).0 ≡ db)
      × (is_answered (handle_create_tenant id membership_id body db).1 ≡ false)
unfolding handle_create_tenant insert_tenant
handle_create_tenant_lem id membership_id none db = (refl, refl)
handle_create_tenant_lem id membership_id (some req) db =
    elim (Bool-cases (req.name == [] || req.admin_username == [])) [
      | inl e ↦ rw e (refl, refl)
      | inr e ↦ rw e (elim (Option-cases (find_active_user req.admin_username db)) [
        | inl f ↦ rw f (refl, refl)
        | inr (u, f) ↦ rw f (refl, refl)
      ])
    ]
