-- ===== src/Auth/Login.antt =====
-- The login (internal/server/auth/handlers.go), with the decoded body as an argument, none where it
-- does not decode.
use lightai_go.Common.{
  ℕ, Bool, false, not, ◌&&◌, ◌||◌, Option, none, some, List, [], ◌∷◌, any, map, find, filter_by,
  nat_eq, ◌==◌, if◌then◌else◌, or_else,
}
use lightai_go.Text.{Text, text, text_eq}
use lightai_go.Auth.{User, Tenant, Membership, AuthDb, Server, find_tenant}
use lightai_go.Auth.Sessions.{create_session}
use lightai_go.Auth.Requests.{Request, validate_origin}
use lightai_go.Auth.Permissions.{is_member}
use lightai_go.Auth.Middleware.{Reply, denied, answered}
use lightai_go.Auth.Passwords.{verify_password}
use lightai_go.Auth.Limiter.{Rate, Limiter, allow}

pub record LoginRequest : Type 0 where
  pub username : Text
  pub password : Text
  pub tenant_id : Text

-- `LoginResponse`, with the value of the cookie that is set
pub record LoginResponse : Type 0 where
  pub user_id : Text
  pub username : Text
  pub display_name : Text
  pub is_platform_admin : Bool
  pub must_change_password : Bool
  pub tenant_id : Text
  pub tenant_name : Text
  pub csrf_token : Text
  pub session_cookie : Text

pub data LoginAnswer : Type 0 where
  tenant_selection_required : List Text → LoginAnswer
  logged_in : LoginResponse → LoginAnswer

-- The random bytes of a login, and the time of each reading of the clock
pub record LoginInput : Type 0 where
  pub allowed_at : ℕ
  pub allowed_user_at : ℕ
  pub created_at : ℕ
  pub session_id : Option Text
  pub csrf_secret : Option Text

unfoldable pub is_active_tenant : AuthDb → Text → Bool
is_active_tenant db id = any (λ (t : Tenant). t.id == id && t.status == text "active") db.tenants

-- The tenants in which the user is an active member
unfoldable pub active_tenants : AuthDb → Text → List Text
unfolding is_active_tenant
active_tenants db user_id =
    map (λ (m : Membership). m.tenant_id)
      (filter_by
        (λ (m : Membership).
          m.user_id == user_id && m.status == text "active" && is_active_tenant db m.tenant_id)
        db.memberships)

unfoldable pub is_tenant_of : AuthDb → Text → Text → Bool
unfolding is_active_tenant
is_tenant_of db user_id tenant_id =
    any (is_member user_id tenant_id) db.memberships && is_active_tenant db tenant_id

pub data TenantChoice : Type 0 where
  chosen : Text → TenantChoice
  several : List Text → TenantChoice
  refused : Text → TenantChoice

-- "Determine tenant."
unfoldable pub choose_tenant : AuthDb → Text → Text → TenantChoice
unfolding active_tenants is_tenant_of
choose_tenant db user_id wanted =
    if wanted == []
    then elim (active_tenants db user_id) [
      | [] ↦ refused (text "no active membership")
      | only ∷ [] ↦ chosen only
      | first ∷ second ∷ rest ↦ several (first ∷ second ∷ rest)
    ]
    else if is_tenant_of db user_id wanted
    then chosen wanted
    else refused (text "invalid tenant")

unfoldable pub response_of : User → Tenant → Text × Text → LoginResponse
response_of u t created = record {
  user_id = u.id;
  username = u.username;
  display_name = u.display_name;
  is_platform_admin = u.is_platform_admin == 1;
  must_change_password = u.must_change_password == 1;
  tenant_id = t.id;
  tenant_name = t.name;
  csrf_token = created.1;
  session_cookie = created.0;
}

-- "Check tenant status." and "Create session."
unfoldable pub open_session :
    Server → LoginInput → User → Text → AuthDb → AuthDb × Reply LoginAnswer
unfolding create_session response_of
open_session srv input u tenant_id db = elim (find_tenant tenant_id db) [
  | none ↦ (db, denied 403 (text "tenant disabled"))
  | some t ↦
      if t.status == text "active"
      then elim (create_session srv input.created_at input.session_id input.csrf_secret u.id
          tenant_id db) [
            | none ↦ (db, denied 500 (text "internal error"))
            | some (after, created) ↦ (after, answered (logged_in (response_of u t created)))
          ]
      else (db, denied 403 (text "tenant disabled"))
]

-- The login of a user whose password is right
unfoldable pub login_to_tenant :
    Server → LoginInput → User → Text → AuthDb → AuthDb × Reply LoginAnswer
unfolding choose_tenant open_session
login_to_tenant srv input u wanted db = elim (choose_tenant db u.id wanted) [
  | refused error ↦ (db, denied 403 error)
  | several ids ↦ (db, answered (tenant_selection_required ids))
  | chosen id ↦ open_session srv input u id db
]

-- The user of the name, if it is active and the password is right
unfoldable pub user_of : Server → Text → Text → AuthDb → Option User
unfolding verify_password
user_of srv username password db = elim (find (λ (u : User). u.username == username) db.users) [
  | none ↦ none
  | some u ↦
      if u.status == text "active" && or_else (verify_password srv password u.password_hash) false
      then some u
      else none
]

-- The login after the checks of the request
unfoldable pub login_user : Server → LoginInput → LoginRequest → AuthDb → AuthDb × Reply LoginAnswer
unfolding user_of login_to_tenant
login_user srv input req db = elim (user_of srv req.username req.password db) [
  | none ↦ (db, denied 401 (text "invalid credentials"))
  | some u ↦ login_to_tenant srv input u req.tenant_id db
]

module _ (rate : Rate) where
  -- `HandleLogin`; its metrics are left out.
  unfoldable pub handle_login :
      Server
      → LoginInput
      → Request
      → Option LoginRequest
      → AuthDb × Limiter rate
      → (AuthDb × Limiter rate) × Reply LoginAnswer
  unfolding allow validate_origin login_user
  handle_login srv input r body (db, limiter) =
      if not (r.method == text "POST")
      then ((db, limiter), denied 405 (text "method not allowed"))
      else let by_ip = allow rate srv input.allowed_at r [] limiter in
        if not by_ip.1
        then ((db, by_ip.0), denied 429 (text "too many requests"))
        else if not (validate_origin srv r)
        then ((db, by_ip.0), denied 403 (text "invalid origin"))
        else elim body [
          | none ↦ ((db, by_ip.0), denied 400 (text "invalid request"))
          | some req ↦
              if req.username == [] || req.password == []
              then ((db, by_ip.0), denied 401 (text "invalid credentials"))
              else let by_user = allow rate srv input.allowed_user_at r req.username by_ip.0 in
                if not by_user.1
                then ((db, by_user.0), denied 429 (text "too many requests"))
                else let (after, reply) = login_user srv input req db in ((after, by_user.0), reply)
        ]
