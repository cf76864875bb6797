-- ===== src/Auth/Requests.antt =====
-- A request and its checks: CSRF token and origin (internal/server/auth/csrf.go), the answers of the
-- handlers, and the tenant checks of internal/server/authz/checks.go.
use lightai_go.Common.{
  Bool, true, false, not, ◌&&◌, ◌||◌, Option, none, some, List, [], nat_eq, ◌==◌, if◌then◌else◌,
  or_else,
}
use lightai_go.Text.{Text, text, text_eq}
use lightai_go.Text.Maps.{lookup}
use lightai_go.Auth.{Server, hash_string}
use lightai_go.Auth.Sessions.{SessionInfo}

-- `headers` has the canonical names; a header that is absent reads as empty. The last three fields
-- are the values of the request's context.
pub record Request : Type 0 where
  pub method : Text
  pub path : Text
  pub host : Text
  pub remote_addr : Text
  pub headers : List (Text × Text)
  pub cookies : List (Text × Text)
  pub info : Option SessionInfo
  pub permissions : List Text
  pub role_ids : List Text

unfoldable pub header : Text → Request → Text
unfolding lookup
header name r = or_else (lookup name r.headers) []

unfoldable pub cookie : Text → Request → Option Text
unfolding lookup
cookie name r = lookup name r.cookies

-- `ValidateCSRF`
unfoldable pub validate_csrf : Server → Request → Text → Bool
unfolding header hash_string
validate_csrf srv r csrf_secret_hash =
    let token = header (text "X-CSRF-Token") r in
    not (token == []) && hash_string srv token == csrf_secret_hash

unfoldable pub origin_of : Request → Text
unfolding header
origin_of r =
    if header (text "Origin") r == [] then header (text "Referer") r else header (text "Origin") r

-- `ValidateOrigin`
unfoldable pub validate_origin : Server → Request → Bool
unfolding origin_of
validate_origin srv r =
    if origin_of r == [] || r.host == [] then false else elim (srv.library.url_host (origin_of r)) [
      | none ↦ false
      | some host ↦ not (host == []) && host == r.host
    ]

-- The methods that change no state
unfoldable pub is_safe_method : Text → Bool
is_safe_method m = m == text "GET" || m == text "HEAD" || m == text "OPTIONS"

-- `isPlatformAdmin` and `tenantID` of the tenant checks
unfoldable pub is_platform_admin : Request → Bool
is_platform_admin r = elim r.info [ none ↦ false | some i ↦ i.is_platform_admin ]

unfoldable pub tenant_id : Request → Text
tenant_id r = elim r.info [ none ↦ [] | some i ↦ i.tenant_id ]

-- `CheckNodeTenant`, `CheckNBRTenant`, `CheckModelRootTenant` and `CheckModelLocationTenant`: the
-- table is the ids and tenants of its rows.
unfoldable pub check_tenant : List (Text × Text) → Request → Text → Bool
unfolding lookup is_platform_admin tenant_id
check_tenant table r id =
    if is_platform_admin r
    then true
    else elim (lookup id table) [ none ↦ false | some tid ↦ tid == tenant_id r ]
