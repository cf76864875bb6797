-- ===== src/Auth/Sessions.antt =====
-- The store of sessions (internal/server/auth/session.go). Each operation reads the clock once, and
-- the random bytes of a new session are its arguments, none where the system has none.
use lightai_go.Common.{
  ℕ, ◌+◌, ◌-◌, ◌*◌, ◌^◌, Bool, true, false, not, ◌&&◌, ◌||◌, Option, none, some, List, [], ◌∷◌,
  ◌++◌, ltb, nat_eq, ◌==◌, if◌then◌else◌, update_where,
}
use lightai_go.Text.{Text, text, text_eq}
use lightai_go.Auth.{
  ◌>>=◌, User, Tenant, Session, AuthDb, Server, second, hour, to_seconds, hash_string, find_user,
  find_tenant, find_session,
}

pub record SessionInfo : Type 0 where
  pub session_id : Text
  pub user_id : Text
  pub tenant_id : Text
  pub is_platform_admin : Bool
  pub user_status : Text
  pub tenant_status : Text
  pub csrf_secret_hash : Text
  pub created_at : ℕ
  pub last_seen_at : Option ℕ
  pub expires_at : ℕ

unfoldable pub is_present {ℓ} : {A : Type ℓ} → Option A → Bool
is_present none = false
is_present (some a) = true

abbrev pub with_sessions : List Session → AuthDb → AuthDb
with_sessions rows db = record db { sessions = rows }

-- The row of a new session: its id and its user and tenant must be as the table wants them.
unfoldable pub insert_session : Session → AuthDb → Option AuthDb
unfolding is_present
insert_session row db =
    if is_present (find_session row.id db)
      || not (is_present (find_user row.user_id db))
      || not (is_present (find_tenant row.current_tenant_id db))
    then none
    else some (with_sessions (db.sessions ++ row ∷ []) db)

unfoldable pub new_session : Server → ℕ → Text → Text → Text → Text → Session
unfolding hash_string
new_session srv now sid secret user_id tenant_id = record {
  id = hash_string srv sid;
  user_id = user_id;
  current_tenant_id = tenant_id;
  csrf_secret_hash = hash_string srv secret;
  created_at = to_seconds now;
  last_seen_at = some (to_seconds now);
  expires_at = to_seconds (now + srv.idle_timeout_hours * hour);
  revoked_at = none;
}

-- `CreateSession`, with the two random texts
unfoldable pub create_session :
    Server → ℕ → Option Text → Option Text → Text → Text → AuthDb → Option (AuthDb × (Text × Text))
unfolding insert_session new_session
create_session srv now session_id csrf_secret user_id tenant_id db = do
  sid ← session_id
  secret ← csrf_secret
  after ← insert_session (new_session srv now sid secret user_id tenant_id) db
  some (after, (sid, secret))

-- The columns of a session joined with its user and tenant
pub record Joined : Type 0 where
  pub session : Session
  pub user : User
  pub tenant : Tenant

unfoldable pub join_session : Text → AuthDb → Option Joined
join_session key db = do
  s ← find_session key db
  u ← find_user s.user_id db
  t ← find_tenant s.current_tenant_id db
  some (record { session = s; user = u; tenant = t })

unfoldable pub info_of : Text → Joined → SessionInfo
info_of session_id j = record {
  session_id = session_id;
  user_id = j.session.user_id;
  tenant_id = j.session.current_tenant_id;
  is_platform_admin = j.user.is_platform_admin == 1;
  user_status = j.user.status;
  tenant_status = j.tenant.status;
  csrf_secret_hash = j.session.csrf_secret_hash;
  created_at = j.session.created_at;
  last_seen_at = j.session.last_seen_at;
  expires_at = j.session.expires_at;
}

-- The checks of a session: not revoked, not expired, user and tenant active
unfoldable pub is_valid : ℕ → Joined → Bool
unfolding is_present
is_valid now j =
    not (is_present j.session.revoked_at)
    && not (ltb (j.session.expires_at * second) now)
    && j.user.status == text "active"
    && j.tenant.status == text "active"

-- `time.Since(info.LastSeenAt) > window`; the time since Go's zero time is the greatest duration.
unfoldable pub is_due : Server → ℕ → Option ℕ → Bool
is_due srv now none = ltb (srv.refresh_window_hours * hour) (2 ^ 63 - 1)
is_due srv now (some seen) = ltb (srv.refresh_window_hours * hour) (now - seen * second)

abbrev pub refreshed : Server → ℕ → Session → Session
refreshed srv now s = record s {
  last_seen_at = some (to_seconds now);
  expires_at = to_seconds (now + srv.idle_timeout_hours * hour);
}

abbrev pub update_sessions : (Session → Bool) → (Session → Session) → AuthDb → AuthDb
update_sessions p f db = with_sessions (update_where p f db.sessions) db

abbrev pub has_id : Text → Session → Bool
has_id key s = s.id == key

-- `ValidateSession`
unfoldable pub validate_session : Server → ℕ → Text → AuthDb → AuthDb × Option SessionInfo
unfolding hash_string join_session info_of is_valid is_due
validate_session srv now session_id db =
    if session_id == []
    then (db, none)
    else let key = hash_string srv session_id in
      elim (join_session key db) [
        | none ↦ (db, none)
        | some j ↦
            if is_valid now j
            then (
              if is_due srv now j.session.last_seen_at
                  then update_sessions (has_id key) (refreshed srv now) db
                  else db,
              some (info_of session_id j),
            )
            else (db, none)
      ]

abbrev pub revoked : ℕ → Session → Session
revoked now s = record s { revoked_at = some (to_seconds now) }

-- `RevokeSession`
unfoldable pub revoke_session : Server → ℕ → Text → AuthDb → AuthDb
unfolding hash_string
revoke_session srv now session_id db =
    update_sessions (has_id (hash_string srv session_id)) (revoked now) db

unfoldable pub is_live : Session → Bool
unfolding is_present
is_live s = not (is_present s.revoked_at)

-- `RotateCSRFSecret`, with the new random text
unfoldable pub rotate_csrf_secret : Server → Option Text → Text → AuthDb → Option (AuthDb × Text)
unfolding hash_string is_live
rotate_csrf_secret srv csrf_secret session_id db = do
  secret ← csrf_secret
  some (
    update_sessions (λ s. has_id (hash_string srv session_id) s && is_live s)
        (λ s. record s { csrf_secret_hash = hash_string srv secret }) db,
    secret,
  )

-- The statements that revoke the live sessions under a test, here and in the handlers that disable a
-- user, reset a password or disable a tenant
abbrev pub revoke_live : ℕ → (Session → Bool) → AuthDb → AuthDb
revoke_live now p db = update_sessions (λ s. p s && is_live s) (revoked now) db

-- `RevokeUserSessions`
unfoldable pub revoke_user_sessions : Server → ℕ → Text → Text → AuthDb → AuthDb
unfolding hash_string
revoke_user_sessions srv now user_id except_session_id db =
    revoke_live now
      (λ s. s.user_id == user_id && not (has_id (hash_string srv except_session_id) s)) db

-- The statement of `HandleSwitchTenant`; SQLite's `datetime('now')` is not of the format RFC 3339.
unfoldable pub switch_session : Server → Text → Text → AuthDb → AuthDb
unfolding hash_string
switch_session srv tenant_id session_id db =
    update_sessions (has_id (hash_string srv session_id))
      (λ s. record s { current_tenant_id = tenant_id; last_seen_at = none }) db
