-- ===== src/Auth/LoggedIn.antt =====
-- What a login gives (internal/server/auth/handlers.go).
use lightai_go.Common.{
  ℕ, ◌+◌, ◌*◌, ◌≤◌, ◌≡◌, refl, true, false, some, [], find, find_holds, All, All-find, nat_eq, ◌==◌,
  inl, inr, Bool-cases, Option-cases,
}
use lightai_go.Text.{Text, text, text_eq}
use lightai_go.Auth.{User, Tenant, AuthDb, Server, find_user, find_tenant, hour, second}
use lightai_go.Auth.Sessions.{SessionInfo, create_session, validate_session}
use lightai_go.Auth.Histories.{created_row}
use lightai_go.Auth.Guards.{option_split}
use lightai_go.Auth.Middleware.{Reply, denied, answered}
use lightai_go.Auth.Passwords.{verify_password}
use lightai_go.Auth.Login.{
  LoginRequest, LoginResponse, LoginAnswer, tenant_selection_required, logged_in, LoginInput,
  is_tenant_of, TenantChoice, chosen, several, refused, choose_tenant, response_of, open_session,
  login_to_tenant, user_of, login_user,
}
use lightai_go.Auth.Tenancy.{choose-is_tenant_of}
use lightai_go.Auth.Opening.{new_session_validates, created_from}

pub user_of_right :
    (srv : Server) (username password : Text) (db : AuthDb) (u : User)
    → user_of srv username password db ≡ some u
    → (find (λ (x : User). x.username == username) db.users ≡ some u)
      × (u.status ≡ text "active")
      × (verify_password srv password u.password_hash ≡ some true)
unfolding user_of
user_of_right srv username password db u e =
    elim (option_split (find (λ (x : User). x.username == username) db.users) _ _ _ e) [
      | inl (n, k) ↦ absurd (cc)
      | inr (v, f, k) ↦ elim (Bool-cases (v.status == text "active")) [
        | inr s ↦ absurd (let k1 = rw s at k in cc)
        | inl s ↦ elim (Option-cases (verify_password srv password v.password_hash)) [
          | inl n ↦ absurd (let k1 = rw (s, n) at k in cc)
          | inr (true, p) ↦
              let k1 : some v ≡ some u = rw (s, p) at k in
              let same : v ≡ u = cc in
              rw (← same) (f, (text_eq.equal_iff v.status (text "active")).0 s, p)
          | inr (false, p) ↦ absurd (let k1 = rw (s, p) at k in cc)
        ]
      ]
    ]

-- What `open_session` has done where it answers with a login
pub opened :
    (srv : Server) (input : LoginInput) (u : User) (id : Text) (db after : AuthDb)
    (resp : LoginResponse)
    → open_session srv input u id db ≡ (after, answered (logged_in resp))
    → (t : Tenant) × (created : Text × Text) × (find_tenant id db ≡ some t)
      × (t.status ≡ text "active")
      × (create_session srv input.created_at input.session_id input.csrf_secret u.id id db
          ≡ some (after, created))
      × (resp ≡ response_of u t created)
unfolding open_session
opened srv input u id db after resp e = elim (option_split (find_tenant id db) _ _ _ e) [
  | inl (n, k) ↦ absurd (cc)
  | inr (t, f, k) ↦ elim (Bool-cases (t.status == text "active")) [
    | inr s ↦ absurd (let k1 = rw s at k in cc)
    | inl s ↦
        let k1 = rw s at k in
        elim (option_split
          (create_session srv input.created_at input.session_id input.csrf_secret u.id id db) _ _ _
          k1) [
            | inl (n, k2) ↦ absurd (cc)
            | inr ((made, created), c, k2) ↦
                let same : made ≡ after = cc in
                let shown : resp ≡ response_of u t created = cc in
                (
                  t,
                  created,
                  f,
                  (text_eq.equal_iff t.status (text "active")).0 s,
                  rw same at c,
                  shown,
                )
          ]
  ]
]

pub chosen_opened :
    (srv : Server) (input : LoginInput) (u : User) (wanted : Text) (db after : AuthDb)
    (resp : LoginResponse)
    → login_to_tenant srv input u wanted db ≡ (after, answered (logged_in resp))
    → (id : Text) × (is_tenant_of db u.id id ≡ true)
      × (open_session srv input u id db ≡ (after, answered (logged_in resp)))
unfolding login_to_tenant
chosen_opened srv input u wanted db after resp e = by_choice (choose_tenant db u.id wanted) refl e
  where
    by_choice :
        (choice : TenantChoice)
        → choose_tenant db u.id wanted ≡ choice
        → ◌≡◌ {A = AuthDb × Reply LoginAnswer}
            (elim choice [
              | refused error ↦ (db, denied 403 error)
              | several ids ↦ (db, answered (tenant_selection_required ids))
              | chosen id ↦ open_session srv input u id db
            ])
            (after, answered (logged_in resp))
        → (id : Text) × (is_tenant_of db u.id id ≡ true)
          × (open_session srv input u id db ≡ (after, answered (logged_in resp)))
    by_choice (refused error) c k = absurd (cc)
    by_choice (several ids) c k = absurd (cc)
    by_choice (chosen id) c k = (id, choose-is_tenant_of db u.id wanted id c, k)

-- Where a login answers with a session, an active user of the name has the password, and is an active
-- member of the active tenant of the answer; and the session of the answer's cookie validates, for
-- this user and tenant, at every time before the idle time, less one second, has gone by since its
-- creation; if each user of the table is the one that its id finds, and the random text is not empty.
pub login_user-validate_session :
    (srv : Server) (input : LoginInput) (req : LoginRequest) (later : ℕ) (sid : Text)
    (db after : AuthDb) (resp : LoginResponse)
    → All (λ (x : User). find_user x.id db ≡ some x) db.users
    → input.session_id ≡ some sid
    → (sid == []) ≡ false
    → login_user srv input req db ≡ (after, answered (logged_in resp))
    → later + second ≤ input.created_at + srv.idle_timeout_hours * hour
    → (u : User) × (u.username ≡ req.username)
      × (u.status ≡ text "active")
      × (verify_password srv req.password u.password_hash ≡ some true)
      × (is_tenant_of db u.id resp.tenant_id ≡ true)
      × ((i : SessionInfo) × ((validate_session srv later resp.session_cookie after).1 ≡ some i)
          × (i.user_id ≡ u.id)
          × (i.tenant_id ≡ resp.tenant_id))
unfolding login_user response_of
login_user-validate_session srv input req later sid db after resp keyed random some_sid e soon =
    elim (option_split (user_of srv req.username req.password db) _ _ _ e) [
      | inl (n, k) ↦ absurd (cc)
      | inr (u, f, k) ↦
          let (named, active, right) = user_of_right srv req.username req.password db u f in
          let (id, member, o) = chosen_opened srv input u req.tenant_id db after resp k in
          let (t, created, ft, st, c, shown) = opened srv input u id db after resp o in
          let fu = All-find (λ (x : User). find_user x.id db ≡ some x) _ db.users u keyed named in
          let same_t : t.id ≡ id = (text_eq.equal_iff t.id id).0 (find_holds _ db.tenants t ft) in
          let same_sid : created.0 ≡ sid =
            created_from srv input.created_at sid input.csrf_secret u.id id db after created
              (rw random at c) in
          let row =
            created_row srv input.created_at input.session_id input.csrf_secret u.id id db after
              created c in
          let validated_now =
            new_session_validates srv input.created_at later created.0 created.1 u t db after fu
              (rw same_t ft) active st (rw same_sid some_sid) (rw same_t row) soon in
          (
            u,
            (text_eq.equal_iff u.username req.username).0 (find_holds _ db.users u named),
            active,
            right,
            rw shown (rw same_t member),
            rw shown validated_now,
          )
    ]
