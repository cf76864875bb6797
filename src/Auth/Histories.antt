-- ===== src/Auth/Histories.antt =====
-- The histories of the table of sessions: every operation on it, and any change of the other tables
-- (internal/server/auth, internal/server/rbac).
use lightai_go.Common.{
  ℕ, ◌≡◌, refl, subst, Bool, true, false, ◌&&◌, Option, none, some, [], ◌∷◌, ◌++◌, arith,
  if◌then◌else◌, ◌==◌, Bool-cases, Option-cases, inl, inr, if_holds,
}
use lightai_go.Text.{Text, text_eq}
use lightai_go.Auth.{Session, AuthDb, Server, find_session, find_user, find_tenant, hash_string}
use lightai_go.Auth.Sessions.{
  is_present, insert_session, create_session, validate_session, new_session, revoke_session,
  rotate_csrf_secret, revoke_live, refreshed, has_id, update_sessions, switch_session,
  with_sessions, is_valid, is_due, join_session, Joined, is_live, SessionInfo, info_of,
}

pub data Step (srv : Server) : AuthDb → AuthDb → Type 0 where
  create :
      (now : ℕ) (session_id csrf_secret : Option Text) (user_id tenant_id : Text)
      (db after : AuthDb) (answer : Text × Text)
      → create_session srv now session_id csrf_secret user_id tenant_id db ≡ some (after, answer)
      → Step srv db after
  validate :
      (now : ℕ) (session_id : Text) (db : AuthDb)
      → Step srv db (validate_session srv now session_id db).0
  revoke :
      (now : ℕ) (session_id : Text) (db : AuthDb)
      → Step srv db (revoke_session srv now session_id db)
  rotate :
      (csrf_secret : Option Text) (session_id : Text) (db after : AuthDb) (answer : Text)
      → rotate_csrf_secret srv csrf_secret session_id db ≡ some (after, answer)
      → Step srv db after
  revoke_some : (now : ℕ) (p : Session → Bool) (db : AuthDb) → Step srv db (revoke_live now p db)
  switch :
      (tenant_id session_id : Text) (db : AuthDb)
      → Step srv db (switch_session srv tenant_id session_id db)
  others : (db other : AuthDb) → Step srv db (with_sessions db.sessions other)

pub data Steps (srv : Server) (db : AuthDb) : AuthDb → Type 0 where
  here : Steps srv db db
  next : {mid after : AuthDb} → Steps srv db mid → Step srv mid after → Steps srv db after

-- What holds of a state and of its refreshed sessions holds after a validation.
pub validate_holds {ℓ} :
    (P : AuthDb → Type ℓ) (srv : Server) (now : ℕ) (session_id : Text) (db : AuthDb)
    → P db
    → P (update_sessions (has_id (hash_string srv session_id)) (refreshed srv now) db)
    → P (validate_session srv now session_id db).0
unfolding validate_session
validate_holds P srv now session_id db h k = elim (Bool-cases (session_id == [])) [
  | inl e ↦ rw e h
  | inr e ↦ rw e (elim (Option-cases (join_session (hash_string srv session_id) db)) [
    | inl none_e ↦ rw none_e h
    | inr (j, some_e) ↦ rw some_e (elim (Bool-cases (is_valid now j)) [
      | inl v ↦ rw v (if_holds P (is_due srv now j.session.last_seen_at) _ _ k h)
      | inr v ↦ rw v h
    ])
  ])
]

pub inserted_row :
    (row : Session) (db after : AuthDb)
    → insert_session row db ≡ some after
    → (is_present (find_session row.id db) ≡ false)
      × (after ≡ with_sessions (db.sessions ++ row ∷ []) db)
unfolding insert_session
inserted_row row db after e = ground arith

-- A created session is a row at the end of the table, of an id that no row had.
pub created_row :
    (srv : Server) (now : ℕ) (session_id csrf_secret : Option Text) (user_id tenant_id : Text)
    (db after : AuthDb) (answer : Text × Text)
    → create_session srv now session_id csrf_secret user_id tenant_id db ≡ some (after, answer)
    → insert_session (new_session srv now answer.0 answer.1 user_id tenant_id) db ≡ some after
unfolding create_session
created_row srv now none csrf_secret user_id tenant_id db after answer e = absurd (cc)
created_row srv now (some sid) none user_id tenant_id db after answer e = absurd (cc)
created_row srv now (some sid) (some secret) user_id tenant_id db after answer e =
    elim (Option-cases (insert_session (new_session srv now sid secret user_id tenant_id) db)) [
      | inl none_e ↦ absurd (let k = rw none_e at e in cc)
      | inr (db', some_e) ↦
          let same : some (db', (sid, secret)) ≡ some (after, answer) = rw some_e at e in
          let a : db' ≡ after = cc in
          let b : sid ≡ answer.0 = cc in let c : secret ≡ answer.1 = cc in rw (← a, ← b, ← c) some_e
    ]

pub joined_rows :
    (key : Text) (db : AuthDb) (j : Joined)
    → join_session key db ≡ some j
    → (find_session key db ≡ some j.session)
      × (find_user j.session.user_id db ≡ some j.user)
      × (find_tenant j.session.current_tenant_id db ≡ some j.tenant)
unfolding join_session
joined_rows key db j e = elim (Option-cases (find_session key db)) [
  | inl n ↦ absurd (let k = rw n at e in cc)
  | inr (s, fs) ↦
      let e1 = rw fs at e in
      elim (Option-cases (find_user s.user_id db)) [
        | inl n ↦ absurd (let k = rw n at e1 in cc)
        | inr (u, fu) ↦
            let e2 = rw fu at e1 in
            elim (Option-cases (find_tenant s.current_tenant_id db)) [
              | inl n ↦ absurd (let k = rw n at e2 in cc)
              | inr (t, ft) ↦
                  let e3 : some (record { session = s; user = u; tenant = t }) ≡ some j =
                    rw ft at e2 in
                  let same : record { session = s; user = u; tenant = t } ≡ j = cc in
                  subst
                    (λ (i : Joined).
                      (find_session key db ≡ some i.session)
                      × (find_user i.session.user_id db ≡ some i.user)
                      × (find_tenant i.session.current_tenant_id db ≡ some i.tenant))
                    same (fs, fu, ft)
            ]
      ]
]

-- A rotation writes a hash into the session, if it is live.
pub rotated_secret :
    (srv : Server) (csrf_secret : Option Text) (session_id : Text) (db after : AuthDb)
    (answer : Text)
    → rotate_csrf_secret srv csrf_secret session_id db ≡ some (after, answer)
    → after
      ≡ update_sessions
          (λ s. has_id (hash_string srv session_id) s && is_live s)
          (λ s. record s { csrf_secret_hash = hash_string srv answer })
          db
unfolding rotate_csrf_secret
rotated_secret srv none session_id db after answer e = absurd (cc)
rotated_secret srv (some secret) session_id db after answer e =
    let a : answer ≡ secret = cc in rw a (cc)

-- A session that validates has rows that join and pass the checks.
pub validated :
    (srv : Server) (now : ℕ) (session_id : Text) (db : AuthDb) (info : SessionInfo)
    → (validate_session srv now session_id db).1 ≡ some info
    → (j : Joined) × ((session_id == []) ≡ false)
      × (join_session (hash_string srv session_id) db ≡ some j)
      × (is_valid now j ≡ true)
      × (info ≡ info_of session_id j)
unfolding validate_session
validated srv now session_id db info e = elim (Bool-cases (session_id == [])) [
  | inl b ↦ absurd (let k = rw b at e in cc)
  | inr b ↦
      let e1 = rw b at e in
      elim (Option-cases (join_session (hash_string srv session_id) db)) [
        | inl n ↦ absurd (let k = rw n at e1 in cc)
        | inr (j, f) ↦
            let e2 = rw f at e1 in
            elim (Bool-cases (is_valid now j)) [
              | inl v ↦
                  (j, b, f, v, (let k : some (info_of session_id j) ≡ some info = rw v at e2 in cc))
              | inr v ↦ absurd (let k = rw v at e2 in cc)
            ]
      ]
]

pub validates :
    (srv : Server) (now : ℕ) (session_id : Text) (db : AuthDb) (j : Joined)
    → (session_id == []) ≡ false
    → join_session (hash_string srv session_id) db ≡ some j
    → is_valid now j ≡ true
    → validate_session srv now session_id db ≡ (
      if is_due srv now j.session.last_seen_at
          then update_sessions (has_id (hash_string srv session_id)) (refreshed srv now) db
          else db,
      some (info_of session_id j),
    )
unfolding validate_session
validates srv now session_id db j b f v = rw b (rw f (rw v refl))
