-- ===== src/Auth/Opening.antt =====
-- A session that a login has just created (internal/server/auth/session.go).
use lightai_go.Common.{
  ℕ, ◌+◌, ◌*◌, ◌≤◌, ◌≡◌, refl, ap, true, false, Option, none, some, List, [], ◌∷◌, ◌++◌, find,
  nat_eq, ◌==◌, inl, inr, arith, Bool-cases, Option-cases,
}
use lightai_go.Text.{Text, text, text_eq}
use lightai_go.Auth.{
  User, Tenant, Session, AuthDb, Server, find_user, find_tenant, find_session, hash_string, hour,
  second,
}
use lightai_go.Auth.Sessions.{
  SessionInfo, create_session, insert_session, new_session, with_sessions, validate_session,
  is_present, join_session, is_valid, info_of,
}
use lightai_go.Auth.Histories.{inserted_row, validates}

find-append :
    (key : Text) (rows : List Session) (row : Session)
    → is_present (find (λ (s : Session). s.id == key) rows) ≡ false
    → row.id ≡ key
    → find (λ (s : Session). s.id == key) (rows ++ row ∷ []) ≡ some row
unfolding is_present
find-append key [] row h e = rw ((text_eq.equal_iff row.id key).1 e) refl
find-append key (s ∷ rows) row h e = elim (Bool-cases (s.id == key)) [
  | inl b ↦ absurd (let k = rw b at h in cc)
  | inr b ↦ rw b (find-append key rows row (rw b at h) e)
]

join_of :
    (key : Text) (s : Session) (u : User) (t : Tenant) (db : AuthDb)
    → find_session key db ≡ some s
    → find_user s.user_id db ≡ some u
    → find_tenant s.current_tenant_id db ≡ some t
    → join_session key db ≡ some (record { session = s; user = u; tenant = t })
unfolding join_session
join_of key s u t db fs fu ft = rw fs (rw fu (rw ft refl))

valid_row :
    (later : ℕ) (s : Session) (u : User) (t : Tenant)
    → s.revoked_at ≡ none
    → later ≤ s.expires_at * second
    → u.status ≡ text "active"
    → t.status ≡ text "active"
    → is_valid later (record { session = s; user = u; tenant = t }) ≡ true
unfolding is_valid is_present
valid_row later s u t live soon su st =
    let user_active = (text_eq.equal_iff u.status (text "active")).1 su in
    let tenant_active = (text_eq.equal_iff t.status (text "active")).1 st in
    rw live (rw user_active (rw tenant_active (ground arith)))

-- A new session validates until the idle time, less one second, has gone by.
pub new_session_validates :
    (srv : Server) (now later : ℕ) (sid secret : Text) (u : User) (t : Tenant) (db after : AuthDb)
    → find_user u.id db ≡ some u
    → find_tenant t.id db ≡ some t
    → u.status ≡ text "active"
    → t.status ≡ text "active"
    → (sid == []) ≡ false
    → insert_session (new_session srv now sid secret u.id t.id) db ≡ some after
    → later + second ≤ now + srv.idle_timeout_hours * hour
    → (i : SessionInfo) × ((validate_session srv later sid after).1 ≡ some i)
      × (i.user_id ≡ u.id)
      × (i.tenant_id ≡ t.id)
unfolding new_session info_of
new_session_validates srv now later sid secret u t db after fu ft su st b made soon =
    let row = new_session srv now sid secret u.id t.id in
    let put = inserted_row row db after made in
    let found : find_session (hash_string srv sid) (with_sessions (db.sessions ++ row ∷ []) db)
        ≡ some row =
      find-append (hash_string srv sid) db.sessions row put.0 refl in
    let joined =
      join_of (hash_string srv sid) row u t (with_sessions (db.sessions ++ row ∷ []) db) found fu
        ft in
    let valid = valid_row later row u t refl (omega (arith, soon)) su st in
    rw (put.1) (
      info_of sid (record { session = row; user = u; tenant = t }),
      ap (λ (answer : AuthDb × Option SessionInfo). answer.1)
          (validates srv later sid _ _ b joined valid),
      refl,
      refl,
    )

-- The session's text is the random one.
pub created_from :
    (srv : Server) (now : ℕ) (sid : Text) (csrf_secret : Option Text) (user_id tenant_id : Text)
    (db after : AuthDb) (answer : Text × Text)
    → create_session srv now (some sid) csrf_secret user_id tenant_id db ≡ some (after, answer)
    → answer.0 ≡ sid
unfolding create_session
created_from srv now sid none user_id tenant_id db after answer e = absurd (cc)
created_from srv now sid (some secret) user_id tenant_id db after answer e =
    elim (Option-cases (insert_session (new_session srv now sid secret user_id tenant_id) db)) [
      | inl n ↦ absurd (let k = rw n at e in cc)
      | inr (made, f) ↦
          let k : some (made, (sid, secret)) ≡ some (after, answer) = rw f at e in
          let same : answer ≡ (sid, secret) = cc in rw same refl
    ]
