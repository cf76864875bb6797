-- ===== src/Auth.antt =====
-- The tables of users, tenants, roles and sessions (internal/server/db/db.go) as one state, with what
-- the handlers of internal/server/auth take from Go's libraries and from the configuration. Stored
-- times are seconds; the clock gives nanoseconds.
pub mod Sessions
pub mod Histories
pub mod Revocation
pub mod Lifetime
pub mod Requests
pub mod Permissions
pub mod Middleware
pub mod Passwords
pub mod Limiter
pub mod Login
pub mod Account
pub mod Guards
pub mod Granted
mod Tenancy
mod Opening
pub mod LoggedIn
pub mod Switching
pub mod Changed
pub mod Samples
mod Tests
use lightai_go.Common.{
  ℕ, ◌+◌, ◌*◌, ◌/◌, Bool, Option, none, some, List, [], find, nat_eq, ◌==◌, if◌then◌else◌,
}
use lightai_go.Text.{Text, text_eq}

infixl 10 ◌>>=◌
abbrev pub ◌>>=◌ {ℓ κ} : {A : Type ℓ} {B : Type κ} → Option A → (A → Option B) → Option B
none >>= f = none
some a >>= f = f a

pub record User : Type 0 where
  pub id : Text
  pub username : Text
  pub password_hash : Text
  pub display_name : Text
  pub status : Text
  pub is_platform_admin : ℕ
  pub must_change_password : ℕ

pub record Tenant : Type 0 where
  pub id : Text
  pub slug : Text
  pub name : Text
  pub status : Text

pub record Membership : Type 0 where
  pub id : Text
  pub user_id : Text
  pub tenant_id : Text
  pub status : Text

-- `tenant_id` is none for a role of every tenant.
pub record Role : Type 0 where
  pub id : Text
  pub tenant_id : Option Text
  pub name : Text
  pub display_name : Text
  pub description : Text
  pub status : Text
  pub built_in : ℕ

pub record Permission : Type 0 where
  pub id : Text
  pub code : Text
  pub scope : Text

pub record RolePermission : Type 0 where
  pub role_id : Text
  pub permission_id : Text

pub record MembershipRole : Type 0 where
  pub membership_id : Text
  pub role_id : Text

-- `last_seen_at` is none where its text is not of the format RFC 3339.
pub record Session : Type 0 where
  pub id : Text
  pub user_id : Text
  pub current_tenant_id : Text
  pub csrf_secret_hash : Text
  pub created_at : ℕ
  pub last_seen_at : Option ℕ
  pub expires_at : ℕ
  pub revoked_at : Option ℕ

pub record AuthDb : Type 0 where
  pub users : List User
  pub tenants : List Tenant
  pub memberships : List Membership
  pub roles : List Role
  pub permissions : List Permission
  pub role_permissions : List RolePermission
  pub membership_roles : List MembershipRole
  pub sessions : List Session

-- Functions of Go's libraries and of golang.org/x/crypto, with the error of each as none.
pub record Library : Type 0 where
  pub hmac_hex : Text → Text → Text
  pub sha256_hex : Text → Text
  pub base64_encode : List ℕ → Text
  pub base64_decode : Text → Option (List ℕ)
  pub scan_params : Text → Option (ℕ × (ℕ × ℕ))
  pub argon2_key : Text → List ℕ → ℕ → ℕ → ℕ → ℕ → List ℕ
  pub url_host : Text → Option Text
  pub split_host_port : Text → Option Text

pub record Server : Type 0 where
  pub library : Library
  pub hash_key : Text
  pub cookie_name : Text
  pub idle_timeout_hours : ℕ
  pub refresh_window_hours : ℕ
  pub agent_token : Text

abbrev pub second : ℕ
second = 1000000000

abbrev pub hour : ℕ
hour = 3600 * second

-- A time in the format RFC 3339
abbrev pub to_seconds : ℕ → ℕ
to_seconds t = t / second

-- `hashString`
unfoldable pub hash_string : Server → Text → Text
hash_string srv s =
    if srv.hash_key == [] then srv.library.sha256_hex s else srv.library.hmac_hex srv.hash_key s

abbrev pub find_user : Text → AuthDb → Option User
find_user key db = find (λ (u : User). u.id == key) db.users

abbrev pub find_tenant : Text → AuthDb → Option Tenant
find_tenant key db = find (λ (t : Tenant). t.id == key) db.tenants

abbrev pub find_session : Text → AuthDb → Option Session
find_session key db = find (λ (s : Session). s.id == key) db.sessions
