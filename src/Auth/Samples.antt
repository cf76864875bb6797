-- ===== src/Auth/Samples.antt =====
-- A table of one user, one tenant and one role, a request and a server to test with.
use lightai_go.Auth.Limiter.{Rate, Limiter}
use lightai_go.Common.{
  ltb, ℕ, zero, suc, ◌+◌, ◌-◌, ◌≡◌, refl, ap, false, Option, none, some, List, [], ◌∷◌, ◌++◌, map,
  length, arith, nat_eq, ◌==◌, if◌then◌else◌,
}
use lightai_go.Text.{Text, text, text_eq, trim_prefix}
use lightai_go.Auth.{User, Tenant, Session, AuthDb, Library, Server}
use lightai_go.Auth.Sessions.{SessionInfo, validate_session}
use lightai_go.Auth.Requests.{Request}
use lightai_go.Auth.Middleware.{answered, Handler}
use lightai_go.Auth.Login.{LoginRequest, LoginInput, LoginResponse}
use lightai_go.Auth.Account.{ChangePasswordRequest, handle_change_password}
use lightai_go.Auth.Changed.{HasNo}

abbrev pub resize : ℕ → Text → Text
resize zero s = []
resize (suc n) [] = 0 ∷ resize n []
resize (suc n) (c ∷ s) = c ∷ resize n s

pub length-resize : (n : ℕ) (s : Text) → length (resize n s) ≡ n
length-resize zero s = refl
length-resize (suc n) [] = ap suc (length-resize n [])
length-resize (suc n) (c ∷ s) = ap suc (length-resize n s)

abbrev pub shift : List ℕ → Text
shift = map λ b. b + 37

abbrev pub unshift : Text → Option (List ℕ)
unshift s = some (map (λ c. c - 37) s)

pub unshift-shift : (s : List ℕ) → map (λ c. c - 37) (shift s) ≡ s
unshift-shift [] = refl
unshift-shift (b ∷ s) = rw (unshift-shift s) (ap (λ (c : ℕ). c ∷ s) (omega arith))

pub no_dollar : (s : List ℕ) → HasNo b'$' (shift s)
no_dollar [] = refl
no_dollar (b ∷ s) = ground (arith, no_dollar s)

abbrev pub library : Library
library = record {
  hmac_hex = λ key s. s;
  sha256_hex = λ s. s;
  base64_encode = shift;
  base64_decode = unshift;
  scan_params = λ s. if s == text "m=65536,t=3,p=4" then some (65536, (3, 4)) else none;
  argon2_key = λ p s time memory threads n. resize n (p ++ s);
  url_host = λ s. some (trim_prefix s (text "https://"));
  split_host_port = λ s. some s;
}

abbrev pub server : Server
server = record {
  library = library;
  hash_key = text "key";
  cookie_name = text "lightai_session";
  idle_timeout_hours = 12;
  refresh_window_hours = 6;
  agent_token = text "agent";
}

abbrev pub ada : User
ada = record {
  id = text "u1";
  username = text "ada";
  password_hash =
      text "$argon2id$v=19$m=65536,t=3,p=4$"
      ++ (shift (1 ∷ []) ++ (text "$" ++ shift (resize 32 (text "engine" ++ (1 ∷ [])))));
  display_name = text "Ada";
  status = text "active";
  is_platform_admin = 0;
  must_change_password = 0;
}

abbrev pub tenant : Tenant
tenant = record { id = text "t1"; slug = text "one"; name = text "One"; status = text "active" }

abbrev pub empty : AuthDb
empty = record {
  users = ada ∷ [];
  tenants = tenant ∷ [];
  memberships =
      record { id = text "m1"; user_id = text "u1"; tenant_id = text "t1"; status = text "active" }
      ∷ [];
  roles =
      record {
        id = text "r1";
        tenant_id = none;
        name = text "viewer";
        display_name = [];
        description = [];
        status = text "active";
        built_in = 1;
      }
      ∷ [];
  permissions = record { id = text "p1"; code = text "node:write"; scope = text "tenant" } ∷ [];
  role_permissions = record { role_id = text "r1"; permission_id = text "p1" } ∷ [];
  membership_roles = record { membership_id = text "m1"; role_id = text "r1" } ∷ [];
  sessions = [];
}

abbrev pub second_row : Session
second_row = record {
  id = text "s2";
  user_id = text "u1";
  current_tenant_id = text "t1";
  csrf_secret_hash = text "c2";
  created_at = 0;
  last_seen_at = some 0;
  expires_at = 43200;
  revoked_at = none;
}

abbrev pub with_two : AuthDb
with_two = record empty {
  sessions =
      record {
        id = text "s1";
        user_id = text "u1";
        current_tenant_id = text "t1";
        csrf_secret_hash = text "c1";
        created_at = 0;
        last_seen_at = some 0;
        expires_at = 43200;
        revoked_at = none;
      }
      ∷ second_row
      ∷ [];
}

abbrev pub first_info : SessionInfo
first_info = record {
  session_id = text "s1";
  user_id = text "u1";
  tenant_id = text "t1";
  is_platform_admin = false;
  user_status = text "active";
  tenant_status = text "active";
  csrf_secret_hash = text "c1";
  created_at = 0;
  last_seen_at = some 0;
  expires_at = 43200;
}

abbrev pub request : Request
request = record {
  method = text "POST";
  path = text "/api/v1/nodes";
  host = text "gpu.example";
  remote_addr = text "10.0.0.1:4000";
  headers = (text "X-CSRF-Token", text "c1") ∷ (text "Origin", text "https://gpu.example") ∷ [];
  cookies = (text "lightai_session", text "s1") ∷ [];
  info = none;
  permissions = [];
  role_ids = [];
}

abbrev pub greet : Handler Text
greet r db = (db, answered (text "ok"))

abbrev pub seen : AuthDb
seen = (validate_session server 100 (text "s1") with_two).0

abbrev pub input : LoginInput
input = record {
  allowed_at = 0;
  allowed_user_at = 0;
  created_at = 0;
  session_id = some (text "s3");
  csrf_secret = some (text "c3");
}

abbrev pub credentials : LoginRequest
credentials = record { username = text "ada"; password = text "engine"; tenant_id = [] }

abbrev pub welcome : LoginResponse
welcome = record {
  user_id = text "u1";
  username = text "ada";
  display_name = text "Ada";
  is_platform_admin = false;
  must_change_password = false;
  tenant_id = text "t1";
  tenant_name = text "One";
  csrf_token = text "c3";
  session_cookie = text "s3";
}

abbrev pub entered : AuthDb
entered = record with_two {
  sessions =
      with_two.sessions
      ++ record {
        id = text "s3";
        user_id = text "u1";
        current_tenant_id = text "t1";
        csrf_secret_hash = text "c3";
        created_at = 0;
        last_seen_at = some 0;
        expires_at = 43200;
        revoked_at = none;
      }
        ∷ [];
}

abbrev pub signed_in : Request
signed_in = record request { info = some first_info }

abbrev pub change : ChangePasswordRequest
change = record { current_password = text "engine"; new_password = text "analytical" }

abbrev pub changed_db : AuthDb
changed_db = (handle_change_password server 200 (some (2 ∷ [])) (some change) signed_in with_two).0

abbrev pub engine_hash : Text
engine_hash =
    text "$argon2id$v=19$m=65536,t=3,p=4$"
    ++ (shift (1 ∷ []) ++ (text "$" ++ shift (resize 32 (text "engine" ++ (1 ∷ [])))))

abbrev pub empty_bucket : Rate
empty_bucket = record {
  Bucket = ℕ;
  new_bucket = 0;
  allow_at = λ now tokens. (tokens - 1, ltb 0 tokens);
}

abbrev pub no_limiters : Limiter empty_bucket
no_limiters = record { limiters = []; last_cleanup = 0 }

abbrev pub switched_info : SessionInfo
switched_info = record first_info { last_seen_at = none }
