-- ===== src/Auth/Switching.antt =====
-- What a switch of the tenant does to a session's expiry (internal/server/auth/handlers.go, session.go).
use lightai_go.Common.{
  ℕ, ◌+◌, ◌-◌, ◌*◌, ◌^◌, ◌<◌, ◌≡◌, refl, true, Option, none, some, List, [], ◌∷◌, find, nat_eq,
  ◌==◌, inl, inr, arith, Bool-cases, update_where,
}
use lightai_go.Text.{Text, text_eq}
use lightai_go.Auth.{Session, AuthDb, Server, find_session, hash_string, hour, to_seconds}
use lightai_go.Auth.Sessions.{
  SessionInfo, has_id, refreshed, is_due, validate_session, switch_session,
}
use lightai_go.Auth.Histories.{validated, validates, joined_rows}
use lightai_go.Auth.Lifetime.{find-update}

found_switched :
    (key tenant_id : Text) (rows : List Session) (s : Session)
    → find (has_id key) (
        update_where
          (has_id key)
          (λ x. record x { current_tenant_id = tenant_id; last_seen_at = none })
          rows)
      ≡ some s
    → s.last_seen_at ≡ none
unfolding update_where
found_switched key tenant_id [] s h = absurd (cc)
found_switched key tenant_id (r ∷ rows) s h = elim (Bool-cases (r.id == key)) [
  | inl e ↦
      let found : some (record r { current_tenant_id = tenant_id; last_seen_at = none }) ≡ some s =
        rw (e, e) at h in
      ap_seen found
  | inr e ↦ found_switched key tenant_id rows s (rw (e, e) at h)
]
  where
    ap_seen :
        some (record r { current_tenant_id = tenant_id; last_seen_at = none }) ≡ some s
        → s.last_seen_at ≡ none
    ap_seen found = ground arith

due_unseen :
    (srv : Server) (now : ℕ) (seen : Option ℕ)
    → srv.refresh_window_hours * hour < 2 ^ 63 - 1
    → seen ≡ none
    → is_due srv now seen ≡ true
unfolding is_due
due_unseen srv now seen small e = rw e (ground arith)

-- If a session validates right after a switch of its tenant, that validation puts its expiry a whole
-- idle time after it, however recently the session was refreshed, if the refresh window is less than
-- Go's greatest duration.
pub switch_session-validate_session :
    (srv : Server) (now : ℕ) (tenant_id session_id : Text) (db : AuthDb) (info : SessionInfo)
    → srv.refresh_window_hours * hour < 2 ^ 63 - 1
    → (validate_session srv now session_id (switch_session srv tenant_id session_id db)).1
      ≡ some info
    → (s : Session) × (find_session
          (hash_string srv session_id)
          (validate_session srv now session_id (switch_session srv tenant_id session_id db)).0
        ≡ some s)
      × (s.last_seen_at ≡ some (to_seconds now))
      × (s.expires_at ≡ to_seconds (now + srv.idle_timeout_hours * hour))
unfolding switch_session
switch_session-validate_session srv now tenant_id session_id db info small e =
    let key = hash_string srv session_id in
    let (j, b, f, v, shown) =
      validated srv now session_id (switch_session srv tenant_id session_id db) info e in
    let rows = joined_rows key (switch_session srv tenant_id session_id db) j f in
    let due =
      due_unseen srv now j.session.last_seen_at small
        (found_switched key tenant_id db.sessions j.session rows.0) in
    (
      refreshed srv now j.session,
      rw (validates srv now session_id (switch_session srv tenant_id session_id db) j b f v) (
          rw due (
            find-update key (refreshed srv now)
              (switch_session srv tenant_id session_id db).sessions j.session (λ s. refl) rows.0)),
      refl,
      refl,
    )
