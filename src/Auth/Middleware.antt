-- ===== src/Auth/Middleware.antt =====
-- The middleware of the routes (internal/server/auth/middleware.go) and its chains
-- (internal/server/api/router.go).
use lightai_go.Common.{ℕ, Bool, false, not, ◌||◌, none, some, List, [], nat_eq, ◌==◌, if◌then◌else◌}
use lightai_go.Text.{Text, text, text_eq, has_prefix, trim_prefix}
use lightai_go.Auth.{AuthDb, Server, find_user}
use lightai_go.Auth.Sessions.{SessionInfo, validate_session}
use lightai_go.Auth.Requests.{
  Request, header, cookie, validate_csrf, validate_origin, is_safe_method, is_platform_admin,
}
use lightai_go.Auth.Permissions.{resolve_permissions, has_permission}

-- A handler's work on the tables, with its answer; `denied` is that of `http.Error`, and
-- `aborted` the end of a handler by a panic.
pub data Reply (A : Type 0) : Type 0 where
  denied : ℕ → Text → Reply A
  answered : A → Reply A
  aborted : Reply A

abbrev pub Handler : Type 0 → Type 0
Handler A = Request → AuthDb → AuthDb × Reply A

abbrev pub with_context : SessionInfo → List Text × List Text → Request → Request
with_context i resolved r = record r {
  info = some i;
  role_ids = resolved.0;
  permissions = resolved.1;
}

unfoldable pub must_change : Text → AuthDb → Bool
must_change user_id db = elim (find_user user_id db) [
  | none ↦ false
  | some u ↦ u.must_change_password == 1
]

module _ {A : Type 0} where
  abbrev pub deny : ℕ → Text → AuthDb → AuthDb × Reply A
  deny status error db = (db, denied status error)

  -- `SessionMiddleware`, at the time the session is validated
  unfoldable pub session_middleware : Server → ℕ → Handler A → Handler A
  unfolding cookie validate_session resolve_permissions
  session_middleware srv now after r db = elim (cookie srv.cookie_name r) [
    | none ↦ after r db
    | some value ↦
        let checked = validate_session srv now value db in
        elim checked.1 [
          | none ↦ after r checked.0
          | some i ↦
              after
                (with_context i
                  (resolve_permissions checked.0 i.user_id i.tenant_id i.is_platform_admin) r)
                checked.0
        ]
  ]

  -- `RequirePermission`
  unfoldable pub require_permission : Text → Handler A → Handler A
  unfolding has_permission
  require_permission permission after r db = elim r.info [
    | none ↦ deny 401 (text "unauthorized") db
    | some i ↦
        if has_permission r.permissions permission
        then after r db
        else deny 403 (text "forbidden") db
  ]

  -- `RequirePlatformAdmin`
  unfoldable pub require_platform_admin : Handler A → Handler A
  unfolding is_platform_admin
  require_platform_admin after r db =
      if is_platform_admin r then after r db else deny 403 (text "forbidden") db

  -- `RequirePasswordNotExpired`
  unfoldable pub require_password_not_expired : Handler A → Handler A
  unfolding is_safe_method must_change
  require_password_not_expired after r db =
      if is_safe_method r.method
        || r.path == text "/api/v1/auth/change-password"
        || r.path == text "/api/v1/auth/logout"
      then after r db
      else elim r.info [
        | none ↦ after r db
        | some i ↦
            if must_change i.user_id db
            then deny 403 (text "password change required") db
            else after r db
      ]

  -- `AgentAuthMiddleware`
  unfoldable pub agent_auth_middleware : Server → Handler A → Handler A
  unfolding header has_prefix trim_prefix
  agent_auth_middleware srv after r db =
      let authorization = header (text "Authorization") r in
      if authorization == [] || not (has_prefix authorization (text "Bearer "))
      then deny 401 (text "unauthorized") db
      else if trim_prefix authorization (text "Bearer ") == srv.agent_token
      then after r db
      else deny 401 (text "unauthorized") db

  -- `CSRFMiddleware`
  unfoldable pub csrf_middleware : Server → Handler A → Handler A
  unfolding is_safe_method validate_csrf validate_origin
  csrf_middleware srv after r db = if is_safe_method r.method then after r db else elim r.info [
    | none ↦ after r db
    | some i ↦
        if not (validate_csrf srv r i.csrf_secret_hash)
        then deny 403 (text "invalid csrf token") db
        else if not (validate_origin srv r)
        then deny 403 (text "invalid origin") db
        else after r db
  ]

  -- `sessionChain`
  abbrev pub session_chain : Server → ℕ → Handler A → Handler A
  session_chain srv now h = session_middleware srv now (csrf_middleware srv h)

  -- `platformChain`
  abbrev pub platform_chain : Server → ℕ → Handler A → Handler A
  platform_chain srv now h =
      session_middleware srv now
        (csrf_middleware srv (require_password_not_expired (require_platform_admin h)))

  -- `tenantChain`
  abbrev pub tenant_chain : Server → ℕ → Handler A → Text → Handler A
  tenant_chain srv now h permission =
      session_middleware srv now
        (csrf_middleware srv (require_password_not_expired (require_permission permission h)))
