-- ===== src/Auth/Tests.antt =====
-- The theorems on sessions at a table of one user, one tenant and one role.
use lightai_go.Text.Maps.{lookup}
use lightai_go.Auth.Switching.{switch_session-validate_session}
use lightai_go.Auth.{Session, find_session}
use lightai_go.Auth.Samples.{switched_info}
use lightai_go.Common.{
  update_where, ◌≡◌, refl, ◌*◌, ◌||◌, ◌⊎◌, All, true, false, none, some, [], ◌∷◌, arith, nat_eq,
  ◌==◌,
}
use lightai_go.Text.{Text, text, text_beq, text_eq, trim_prefix, has_prefix, split}
use lightai_go.Text.Print.{print_nat, print_from}
use lightai_go.Text.Maps.{lookup}
use lightai_go.Auth.{User, hash_string, hour, find_session, find_user}
use lightai_go.Auth.Sessions.{
  SessionInfo, create_session, validate_session, revoke_session, switch_session, insert_session,
  new_session, is_present, join_session, info_of, is_valid, is_due, revoke_user_sessions,
}
use lightai_go.Auth.Histories.{here, next, switch}
use lightai_go.Auth.Revocation.{revoke-validate}
use lightai_go.Auth.Lifetime.{IsPaced, validate-validate}
use lightai_go.Auth.Requests.{
  header, cookie, validate_csrf, validate_origin, is_safe_method, origin_of,
}
use lightai_go.Auth.Permissions.{
  resolve_permissions, has_permission, platform_permissions, member_rows, granted_rows, codes_of,
  add_all, add_to,
}
use lightai_go.Auth.Granted.{has_permission-resolve_permissions, is_granted}
use lightai_go.Auth.Middleware.{
  answered, tenant_chain, session_middleware, csrf_middleware, require_permission,
  require_password_not_expired, must_change, with_context,
}
use lightai_go.Auth.Guards.{tenant_chain_guards}
use lightai_go.Auth.Passwords.{hash_password, hash_params, verify_password, verify_parts}
use lightai_go.Auth.Login.{
  logged_in, login_user, login_to_tenant, user_of, choose_tenant, active_tenants, is_active_tenant,
  is_tenant_of, open_session, response_of,
}
use lightai_go.Auth.LoggedIn.{login_user-validate_session}
use lightai_go.Auth.Account.{handle_change_password, change_password, is_password_of, set_password}
use lightai_go.Auth.Changed.{handle_change_password-validate_session}
use lightai_go.Auth.Samples.{
  library, server, second_row, with_two, first_info, request, greet, input, credentials, welcome,
  entered, signed_in, change, changed_db, engine_hash,
}

text_s3 : (text "s3" == []) ≡ false
unfolding text_beq
text_s3 = refl

has_first : is_present (find_session (hash_string server (text "s1")) with_two) ≡ true
unfolding is_present hash_string text_beq
has_first = refl

revoke-validate_example :
    (validate_session server 9 (text "s1") (
      switch_session server
        (text "t1")
        (text "s1")
        (revoke_session server 5 (text "s1") with_two))).1
    ≡ none
revoke-validate_example =
    revoke-validate server 5 9 (text "s1") with_two
      (switch_session server (text "t1") (text "s1") (revoke_session server 5 (text "s1") with_two))
      has_first
      (next here (switch (text "t1") (text "s1") (revoke_session server 5 (text "s1") with_two)))

with_two-IsPaced : All (IsPaced server) with_two.sessions
unfolding IsPaced
with_two-IsPaced = (omega arith, (omega arith, tt))

first_validates : (validate_session server 100 (text "s1") with_two).1 ≡ some first_info
unfolding validate_session hash_string text_beq join_session is_valid is_present info_of
first_validates = refl

validate-validate_example :
    is_present
      (validate_session server
        (5 * hour)
        (text "s1")
        (validate_session server 100 (text "s1") with_two).0).1
    ≡ true
validate-validate_example =
    validate-validate server 100 (5 * hour) (text "s1") with_two first_info (omega arith)
      with_two-IsPaced first_validates (omega arith)

greeted :
    tenant_chain server 100 greet (text "node:write") request with_two
    ≡ (with_two, answered (text "ok"))
unfolding session_middleware csrf_middleware require_password_not_expired require_permission
    must_change validate_session hash_string text_beq join_session is_valid is_present info_of
    is_due cookie lookup header validate_csrf validate_origin origin_of is_safe_method has_prefix
    trim_prefix resolve_permissions has_permission member_rows granted_rows codes_of add_all add_to
greeted = refl

tenant_chain_guards_example :
    (value : Text) × (i : SessionInfo) × (cookie (text "lightai_session") request ≡ some value)
    × ((validate_session server 100 value with_two).1 ≡ some i)
    × ((is_safe_method (text "POST") ≡ true)
        ⊎ ((validate_csrf server request i.csrf_secret_hash ≡ true)
            × (validate_origin server request ≡ true)))
    × (has_permission
          (resolve_permissions
            (validate_session server 100 value with_two).0
            i.user_id
            i.tenant_id
            i.is_platform_admin).1
          (text "node:write")
        ≡ true)
    × (greet
          (with_context i
            (resolve_permissions
              (validate_session server 100 value with_two).0
              i.user_id
              i.tenant_id
              i.is_platform_admin)
            request)
          (validate_session server 100 value with_two).0
        ≡ (with_two, answered (text "ok")))
tenant_chain_guards_example =
    tenant_chain_guards server 100 greet (text "node:write") request with_two with_two (text "ok")
      refl greeted

has_permission-resolve_permissions_example :
    has_permission (resolve_permissions with_two (text "u1") (text "t1") true).1 (text "node:write")
    ≡ (is_granted with_two (text "u1") (text "t1") (text "node:write")
        || has_permission platform_permissions (text "node:write"))
has_permission-resolve_permissions_example =
    has_permission-resolve_permissions with_two (text "u1") (text "t1") (text "node:write") true

logs_in : login_user server input credentials with_two ≡ (entered, answered (logged_in welcome))
unfolding login_user user_of login_to_tenant choose_tenant active_tenants is_active_tenant
    open_session response_of create_session insert_session new_session hash_string text_beq
    is_present verify_password verify_parts split
logs_in = refl

keyed : All (λ (x : User). find_user x.id with_two ≡ some x) with_two.users
unfolding text_beq
keyed = (refl, tt)

login_user-validate_session_example :
    (u : User) × (u.username ≡ text "ada")
    × (u.status ≡ text "active")
    × (verify_password server (text "engine") u.password_hash ≡ some true)
    × (is_tenant_of with_two u.id (text "t1") ≡ true)
    × ((i : SessionInfo) × ((validate_session server hour (text "s3") entered).1 ≡ some i)
        × (i.user_id ≡ u.id)
        × (i.tenant_id ≡ text "t1"))
login_user-validate_session_example =
    login_user-validate_session server input credentials hour (text "s3") with_two entered welcome
      keyed refl text_s3 logs_in (omega arith)

changes :
    handle_change_password server 200 (some (2 ∷ [])) (some change) signed_in with_two
    ≡ (changed_db, answered tt)
unfolding handle_change_password change_password is_password_of hash_password hash_params print_nat
    print_from set_password revoke_user_sessions hash_string text_beq verify_password verify_parts
    split
changes = refl

other_session : (text "s2" == hash_string server (text "s1")) ≡ false
unfolding hash_string text_beq
other_session = refl

second_found : find_session (hash_string server (text "s2")) with_two ≡ some second_row
unfolding hash_string text_beq
second_found = refl

handle_change_password-validate_session_example :
    (validate_session server 300 (text "s2") changed_db).1 ≡ none
handle_change_password-validate_session_example =
    handle_change_password-validate_session server 200 300 (some (2 ∷ [])) (some change) signed_in
      with_two changed_db changed_db first_info (text "s2") second_row refl changes second_found
      refl other_session here

engine_hashed : hash_password server (some (1 ∷ [])) (text "engine") ≡ some engine_hash
unfolding hash_password hash_params print_nat print_from
engine_hashed = refl

scans : library.scan_params (text "m=65536,t=3,p=4") ≡ some (65536, (3, 4))
unfolding text_beq
scans = refl

after_switch :
    (validate_session server hour
      (text "s1")
      (switch_session server (text "t1") (text "s1") with_two)).1
    ≡ some switched_info
unfolding validate_session switch_session hash_string text_beq join_session is_valid is_present
    info_of update_where
after_switch = refl

switch_session-validate_session_example :
    (s : Session) × (find_session
        (hash_string server (text "s1"))
        (validate_session server hour
          (text "s1")
          (switch_session server (text "t1") (text "s1") with_two)).0
      ≡ some s)
    × (s.last_seen_at ≡ some 3600)
    × (s.expires_at ≡ 46800)
switch_session-validate_session_example =
    switch_session-validate_session server hour (text "t1") (text "s1") with_two switched_info
      (omega arith) after_switch

is_post : (request.method == text "POST") ≡ true
unfolding text_beq
is_post = refl
