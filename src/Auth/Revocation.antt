-- ===== src/Auth/Revocation.antt =====
-- What becomes of a revoked session (internal/server/auth/session.go).
use lightai_go.Common.{
  ℕ, ◌≡◌, refl, Bool, true, false, none, some, List, [], ◌∷◌, ◌++◌, find, arith, if◌then◌else◌,
  ◌==◌, Bool-cases, Option-cases, inl, inr, update_where,
}
use lightai_go.Text.{Text, text_eq}
use lightai_go.Auth.{Session, AuthDb, Server, find_session, hash_string}
use lightai_go.Auth.Sessions.{
  is_present, has_id, revoked, refreshed, validate_session, revoke_session, switch_session,
  is_valid, join_session, Joined,
}
use lightai_go.Auth.Histories.{
  Step, create, validate, revoke, rotate, revoke_some, switch, others, Steps, here, next,
  validate_holds, created_row, inserted_row, rotated_secret, joined_rows,
}

-- The table has the session of this id, revoked.
unfoldable pub is_revoked : Text → List Session → Bool
unfolding is_present
is_revoked key [] = false
is_revoked key (s ∷ rows) = if s.id == key then is_present s.revoked_at else is_revoked key rows

revoked-update :
    (key : Text) (p : Session → Bool) (f : Session → Session) (rows : List Session)
    → ((s : Session) → (f s).id ≡ s.id)
    → ((s : Session) → is_present s.revoked_at ≡ true → is_present (f s).revoked_at ≡ true)
    → is_revoked key rows ≡ true
    → is_revoked key (update_where p f rows) ≡ true
unfolding is_revoked update_where
revoked-update key p f [] same keeps h = h
revoked-update key p f (s ∷ rows) same keeps h = elim (Bool-cases (p s)) [
  | inl e ↦ rw e (rw (same s) (ground (arith, keeps s, revoked-update key p f rows same keeps)))
  | inr e ↦ rw e (ground (arith, revoked-update key p f rows same keeps))
]

revoked-append :
    (key : Text) (rows : List Session) (row : Session)
    → is_revoked key rows ≡ true
    → is_revoked key (rows ++ row ∷ []) ≡ true
unfolding is_revoked
revoked-append key [] row h = absurd (cc)
revoked-append key (s ∷ rows) row h = ground (arith, revoked-append key rows row)

find-revoked :
    (key : Text) (rows : List Session) (s : Session)
    → is_revoked key rows ≡ true
    → find (λ (x : Session). x.id == key) rows ≡ some s
    → is_present s.revoked_at ≡ true
unfolding is_revoked
find-revoked key [] s h e = absurd (cc)
find-revoked key (r ∷ rows) s h e = ground (arith, find-revoked key rows s)

Step-revoked_lem :
    {srv : Server} (key : Text) {db after : AuthDb}
    → Step srv db after
    → is_revoked key db.sessions ≡ true
    → is_revoked key after.sessions ≡ true
unfolding revoke_session switch_session is_present
Step-revoked_lem {srv} key (create now sid secret user_id tenant_id db after answer e) h =
    let put =
      inserted_row _ db after
        (created_row srv now sid secret user_id tenant_id db after answer e) in
    rw (put.1) (revoked-append key db.sessions _ h)
Step-revoked_lem {srv} key (validate now session_id db) h =
    validate_holds (λ (x : AuthDb). is_revoked key x.sessions ≡ true) srv now session_id db h
      (revoked-update key _ (refreshed srv now) db.sessions (λ s. refl) (λ s live. live) h)
Step-revoked_lem key (revoke now session_id db) h =
    revoked-update key _ (revoked now) db.sessions (λ s. refl) (λ s live. refl) h
Step-revoked_lem {srv} key (rotate secret session_id db after answer e) h =
    rw (rotated_secret srv secret session_id db after answer e)
      (revoked-update key _ _ db.sessions (λ s. refl) (λ s live. live) h)
Step-revoked_lem key (revoke_some now p db) h =
    revoked-update key _ (revoked now) db.sessions (λ s. refl) (λ s live. refl) h
Step-revoked_lem key (switch tenant_id session_id db) h =
    revoked-update key _ _ db.sessions (λ s. refl) (λ s dead. dead) h
Step-revoked_lem key (others db other) h = h

pub Steps-revoked_lem :
    {srv : Server} (key : Text) {db after : AuthDb}
    → Steps srv db after
    → is_revoked key db.sessions ≡ true
    → is_revoked key after.sessions ≡ true
Steps-revoked_lem key here h = h
Steps-revoked_lem key (next run step) h = Step-revoked_lem key step (Steps-revoked_lem key run h)

revoked-invalid :
    (now : ℕ) (j : Joined) → is_present j.session.revoked_at ≡ true → is_valid now j ≡ false
unfolding is_valid
revoked-invalid now j h = rw h refl

pub validate-revoked :
    (srv : Server) (now : ℕ) (session_id : Text) (db : AuthDb)
    → is_revoked (hash_string srv session_id) db.sessions ≡ true
    → (validate_session srv now session_id db).1 ≡ none
unfolding validate_session
validate-revoked srv now session_id db h = elim (Bool-cases (session_id == [])) [
  | inl e ↦ rw e refl
  | inr e ↦ rw e (elim (Option-cases (join_session (hash_string srv session_id) db)) [
    | inl none_e ↦ rw none_e refl
    | inr (j, some_e) ↦ rw some_e (
        let row = joined_rows (hash_string srv session_id) db j some_e in
        let dead = find-revoked (hash_string srv session_id) db.sessions j.session h row.0 in
        rw (revoked-invalid now j dead) refl)
  ])
]

revoke_makes :
    (key : Text) (f : Session → Session) (rows : List Session)
    → ((s : Session) → (f s).id ≡ s.id)
    → ((s : Session) → is_present (f s).revoked_at ≡ true)
    → is_present (find (λ (s : Session). s.id == key) rows) ≡ true
    → is_revoked key (update_where (has_id key) f rows) ≡ true
unfolding is_revoked update_where is_present
revoke_makes key f [] same dead h = absurd (cc)
revoke_makes key f (s ∷ rows) same dead h = elim (Bool-cases (s.id == key)) [
  | inl e ↦ rw e (rw (same s) (rw e (dead s)))
  | inr e ↦ rw e (rw e (revoke_makes key f rows same dead (rw e at h)))
]

-- A session of the table that is revoked, as by a logout, is valid at no time and after no history of
-- logins, validations, rotations, switches and revocations, whatever becomes of the other tables.
pub revoke-validate :
    (srv : Server) (now later : ℕ) (session_id : Text) (db after : AuthDb)
    → is_present (find_session (hash_string srv session_id) db) ≡ true
    → Steps srv (revoke_session srv now session_id db) after
    → (validate_session srv later session_id after).1 ≡ none
unfolding revoke_session is_present
revoke-validate srv now later session_id db after h run =
    validate-revoked srv later session_id after (
      Steps-revoked_lem (hash_string srv session_id) run (
        revoke_makes (hash_string srv session_id) (revoked now) db.sessions (λ s. refl) (λ s. refl)
          h))
