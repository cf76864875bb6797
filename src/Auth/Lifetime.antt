-- ===== src/Auth/Lifetime.antt =====
-- How long a session lives (internal/server/auth/session.go).
use lightai_go.Common.{
  ℕ, ◌+◌, ◌-◌, ◌*◌, ◌^◌, ◌<◌, ◌≤◌, ◌≡◌, refl, ap, Bool, true, false, none, some, List, [], ◌∷◌,
  find, arith, ◌==◌, ltb, Bool-cases, Option-cases, inl, inr, update_where, All, All-append,
  All-update_where, nat_eq, All-find,
}
use lightai_go.Text.{Text, text_eq}
use lightai_go.Auth.{
  Session, AuthDb, Server, find_user, find_tenant, hash_string, second, hour, to_seconds,
}
use lightai_go.Auth.Sessions.{
  is_present, has_id, update_sessions, revoked, refreshed, validate_session, revoke_session,
  switch_session, is_valid, is_due, join_session, Joined, new_session, SessionInfo,
}
use lightai_go.Auth.Histories.{
  Step, create, validate, revoke, rotate, revoke_some, switch, others, Steps, here, next,
  validate_holds, created_row, inserted_row, rotated_secret, joined_rows, validates, validated,
}

-- A session expires a whole idle time after it was last seen, or later; nothing is said of a session
-- whose `last_seen_at` does not parse, as after a switch of the tenant.
unfoldable pub IsPaced : Server → Session → Type 0
IsPaced srv s = elim s.last_seen_at [
  | none ↦ Unit
  | some seen ↦ seen + srv.idle_timeout_hours * 3600 ≤ s.expires_at
]

paced_now : (idle now : ℕ) → to_seconds now + idle * 3600 ≤ to_seconds (now + idle * hour)
paced_now idle now = omega arith

refreshed-IsPaced : (srv : Server) (now : ℕ) (s : Session) → IsPaced srv (refreshed srv now s)
unfolding IsPaced
refreshed-IsPaced srv now s = paced_now srv.idle_timeout_hours now

new_session-IsPaced :
    (srv : Server) (now : ℕ) (sid secret user_id tenant_id : Text)
    → IsPaced srv (new_session srv now sid secret user_id tenant_id)
unfolding IsPaced new_session
new_session-IsPaced srv now sid secret user_id tenant_id = paced_now srv.idle_timeout_hours now

update_keeps :
    (srv : Server) (p : Session → Bool) (f : Session → Session) (rows : List Session)
    → ((s : Session) → IsPaced srv s → IsPaced srv (f s))
    → All (IsPaced srv) rows
    → All (IsPaced srv) (update_where p f rows)
update_keeps srv p f rows keeps h =
    All-update_where (IsPaced srv) (IsPaced srv) p f rows (λ s k _. keeps s k) (λ s k _. k) h

Step-IsPaced :
    {srv : Server} {db after : AuthDb}
    → Step srv db after
    → All (IsPaced srv) db.sessions
    → All (IsPaced srv) after.sessions
unfolding revoke_session switch_session IsPaced
Step-IsPaced {srv} (create now sid secret user_id tenant_id db after answer e) h =
    let put =
      inserted_row _ db after
        (created_row srv now sid secret user_id tenant_id db after answer e) in
    rw (put.1) (
      All-append (IsPaced srv) db.sessions _ h
        (new_session-IsPaced srv now answer.0 answer.1 user_id tenant_id, tt))
Step-IsPaced {srv} (validate now session_id db) h =
    validate_holds (λ (x : AuthDb). All (IsPaced srv) x.sessions) srv now session_id db h
      (update_keeps srv _ (refreshed srv now) db.sessions (λ s _. refreshed-IsPaced srv now s) h)
Step-IsPaced {srv} (revoke now session_id db) h =
    update_keeps srv _ (revoked now) db.sessions (λ s k. k) h
Step-IsPaced {srv} (rotate secret session_id db after answer e) h =
    rw (rotated_secret srv secret session_id db after answer e)
      (update_keeps srv _ _ db.sessions (λ s k. k) h)
Step-IsPaced {srv} (revoke_some now p db) h =
    update_keeps srv _ (revoked now) db.sessions (λ s k. k) h
Step-IsPaced {srv} (switch tenant_id session_id db) h =
    update_keeps srv _ _ db.sessions (λ s k. tt) h
Step-IsPaced (others db other) h = h

-- After every history of operations on the sessions, each session whose `last_seen_at` parses expires
-- a whole idle time after that, or later, if that held of each before.
Steps-IsPaced :
    (srv : Server) (db after : AuthDb)
    → Steps srv db after
    → All (IsPaced srv) db.sessions
    → All (IsPaced srv) after.sessions
Steps-IsPaced srv db after here h = h
Steps-IsPaced srv db after (next {mid} run step) h =
    Step-IsPaced step (Steps-IsPaced srv db mid run h)

pub find-update :
    (key : Text) (f : Session → Session) (rows : List Session) (s : Session)
    → ((x : Session) → (f x).id ≡ x.id)
    → find (λ (x : Session). x.id == key) rows ≡ some s
    → find (λ (x : Session). x.id == key) (update_where (has_id key) f rows) ≡ some (f s)
unfolding update_where
find-update key f [] s same h = absurd (cc)
find-update key f (r ∷ rows) s same h = elim (Bool-cases (r.id == key)) [
  | inl e ↦
      let found : some r ≡ some s = rw e at h in
      let first : r ≡ s = cc in
      let still : ((f r).id == key) ≡ true = rw (same r) e in
      rw e (rw still (ap (λ (x : Session). some (f x)) first))
  | inr e ↦ rw e (rw e (find-update key f rows s same (rw e at h)))
]

join-update :
    (key : Text) (f : Session → Session) (db : AuthDb) (j : Joined)
    → ((s : Session) → (f s).id ≡ s.id)
    → ((s : Session) → (f s).user_id ≡ s.user_id)
    → ((s : Session) → (f s).current_tenant_id ≡ s.current_tenant_id)
    → join_session key db ≡ some j
    → join_session key (update_sessions (has_id key) f db)
      ≡ some (record j { session = f j.session })
unfolding join_session
join-update key f db j same_id same_user same_tenant e =
    let rows = joined_rows key db j e in
    let u : find_user (f j.session).user_id db ≡ some j.user = rw (same_user j.session) rows.1 in
    let t : find_tenant (f j.session).current_tenant_id db ≡ some j.tenant =
      rw (same_tenant j.session) rows.2 in
    rw (find-update key f db.sessions j.session same_id rows.0) (rw u (rw t refl))

valid_later :
    (now later : ℕ) (j : Joined) (s : Session)
    → is_valid now j ≡ true
    → s.revoked_at ≡ j.session.revoked_at
    → later ≤ s.expires_at * second
    → is_valid later (record j { session = s }) ≡ true
unfolding is_valid is_present
valid_later now later j s v same le = rw same (ground arith)

shown_by :
    (srv : Server) (later : ℕ) (session_id : Text) (db : AuthDb) (j : Joined)
    → (session_id == []) ≡ false
    → join_session (hash_string srv session_id) db ≡ some j
    → is_valid later j ≡ true
    → is_present (validate_session srv later session_id db).1 ≡ true
unfolding is_present
shown_by srv later session_id db j b f v = rw (validates srv later session_id db j b f v) refl

-- A session that is not due for a refresh, and one that is refreshed, still has the idle time less
-- the refresh window before it.
kept_open :
    (srv : Server) (now later : ℕ) (s : Session)
    → srv.refresh_window_hours * hour < 2 ^ 63 - 1
    → later + srv.refresh_window_hours * hour + second ≤ now + srv.idle_timeout_hours * hour
    → IsPaced srv s
    → is_due srv now s.last_seen_at ≡ false
    → later ≤ s.expires_at * second
unfolding IsPaced is_due
kept_open srv now later s small soon paced fresh = elim (Option-cases s.last_seen_at) [
  | inl e ↦ absurd (let k = rw e at fresh in ground arith)
  | inr (seen, e) ↦
      let k : ltb (srv.refresh_window_hours * hour) (now - seen * second) ≡ false = rw e at fresh in
      let p : seen + srv.idle_timeout_hours * 3600 ≤ s.expires_at = rw e at paced in ground arith
]

-- A session that validates also validates at every time before the idle time less the refresh window,
-- and one second, have gone by, whether the first validation refreshed it or not, if each session
-- expires a whole idle time after it was last seen, or later, and the refresh window is less than
-- Go's greatest duration.
pub validate-validate :
    (srv : Server) (now later : ℕ) (session_id : Text) (db : AuthDb) (info : SessionInfo)
    → srv.refresh_window_hours * hour < 2 ^ 63 - 1
    → All (IsPaced srv) db.sessions
    → (validate_session srv now session_id db).1 ≡ some info
    → later + srv.refresh_window_hours * hour + second ≤ now + srv.idle_timeout_hours * hour
    → is_present
        (validate_session srv later session_id (validate_session srv now session_id db).0).1
      ≡ true
validate-validate srv now later session_id db info small paced e soon =
    let (j, b, f, v, shown) = validated srv now session_id db info e in
    let key = hash_string srv session_id in
    let rows = joined_rows key db j f in
    rw (validates srv now session_id db j b f v)
      (elim (Bool-cases (is_due srv now j.session.last_seen_at)) [
        | inl due ↦ rw due (
            shown_by srv later session_id _ (record j { session = refreshed srv now j.session }) b
              (join-update key (refreshed srv now) db j (λ s. refl) (λ s. refl) (λ s. refl) f)
              (valid_later now later j (refreshed srv now j.session) v refl (omega (arith, soon))))
        | inr fresh ↦ rw fresh (
            shown_by srv later session_id db j b f (
              valid_later now later j j.session v refl (
                kept_open srv now later j.session small soon
                  (All-find (IsPaced srv) (has_id key) db.sessions j.session paced rows.0) fresh)))
      ])
