-- ===== src/Auth/Account.antt =====
-- The handlers of a session's own account (internal/server/auth/handlers.go): logout, change of the
-- password, switch of the tenant, the CSRF token. A body that does not decode is none.
use lightai_go.Common.{
  ℕ, Bool, true, false, not, ◌&&◌, ◌||◌, Option, none, some, List, [], any, map, filter_by,
  contains, ltb, length, update_where, nat_eq, ◌==◌, if◌then◌else◌, or_else,
}
use lightai_go.Text.{Text, text, text_eq}
use lightai_go.Auth.{
  User, Tenant, Session, Role, AuthDb, Server, find_user, find_tenant, hash_string,
}
use lightai_go.Auth.Sessions.{
  SessionInfo, revoke_session, revoke_user_sessions, switch_session, is_live, has_id, is_present,
  rotate_csrf_secret,
}
use lightai_go.Auth.Requests.{Request, cookie}
use lightai_go.Auth.Permissions.{is_member}
use lightai_go.Auth.Middleware.{Reply, denied, answered, Handler}
use lightai_go.Auth.Passwords.{verify_password, hash_password}

-- `HandleLogout`
unfoldable pub handle_logout : Server → ℕ → Handler Unit
unfolding revoke_session
handle_logout srv now r db = elim r.info [
  | none ↦ (db, denied 401 (text "not logged in"))
  | some i ↦ (revoke_session srv now i.session_id db, answered tt)
]

pub record ChangePasswordRequest : Type 0 where
  pub current_password : Text
  pub new_password : Text

unfoldable pub is_password_of : Server → Text → Text → AuthDb → Option Bool
unfolding verify_password
is_password_of srv user_id password db = elim (find_user user_id db) [
  | none ↦ none
  | some u ↦ some (or_else (verify_password srv password u.password_hash) false)
]

-- The statement that writes the new hash
unfoldable pub set_password : Text → Text → AuthDb → AuthDb
set_password user_id new_hash db = record db {
  users =
      update_where (λ (u : User). u.id == user_id)
        (λ u. record u { password_hash = new_hash; must_change_password = 0 }) db.users;
}

-- The end of `HandleChangePassword`, once the request is checked
unfoldable pub change_password :
    Server → ℕ → Option (List ℕ) → SessionInfo → Text → AuthDb → AuthDb × Reply Unit
unfolding hash_password set_password revoke_user_sessions
change_password srv now salt i new_password db = elim (hash_password srv salt new_password) [
  | none ↦ (db, denied 500 (text "internal error"))
  | some new_hash ↦ (
    revoke_user_sessions srv now i.user_id i.session_id (set_password i.user_id new_hash db),
    answered tt,
  )
]

-- `HandleChangePassword`; the length is in bytes, one for each code point here.
unfoldable pub handle_change_password :
    Server → ℕ → Option (List ℕ) → Option ChangePasswordRequest → Handler Unit
unfolding is_password_of change_password
handle_change_password srv now salt body r db = elim r.info [
  | none ↦ (db, denied 401 (text "unauthorized"))
  | some i ↦ elim body [
    | none ↦ (db, denied 400 (text "invalid request"))
    | some req ↦
        if req.current_password == [] || req.new_password == []
        then (db, denied 400 (text "current and new password required"))
        else if ltb (length req.new_password) 8
        then (db, denied 400 (text "new password must be at least 8 characters"))
        else elim (is_password_of srv i.user_id req.current_password db) [
          | none ↦ (db, denied 500 (text "internal error"))
          | some false ↦ (db, denied 400 (text "current password is incorrect"))
          | some true ↦ change_password srv now salt i req.new_password db
        ]
  ]
]

-- `HandleSwitchTenant`, with the tenant of the body
unfoldable pub handle_switch_tenant : Server → Option Text → Handler Text
unfolding cookie switch_session is_present
handle_switch_tenant srv body r db = elim r.info [
  | none ↦ (db, denied 401 (text "unauthorized"))
  | some i ↦
      let wanted = or_else body [] in
      if wanted == []
      then (db, denied 400 (text "tenant_id is required"))
      else if not i.is_platform_admin && not (any (is_member i.user_id wanted) db.memberships)
      then (db, denied 403 (text "not a member of this tenant"))
      else if not (any (λ (t : Tenant). t.id == wanted && t.status == text "active") db.tenants)
      then (db, denied 400 (text "tenant not found or inactive"))
      else elim (cookie srv.cookie_name r) [
        | none ↦ (db, denied 400 (text "no session cookie"))
        | some value ↦ (switch_session srv wanted value db, answered wanted)
      ]
]

-- `HandleCSRFToken`
unfoldable pub handle_csrf_token : Server → Handler Unit
unfolding cookie hash_string is_live
handle_csrf_token srv r db = elim (cookie srv.cookie_name r) [
  | none ↦ (db, denied 401 (text "no session"))
  | some value ↦
      if any (λ (s : Session). has_id (hash_string srv value) s && is_live s) db.sessions
      then (db, answered tt)
      else (db, denied 401 (text "no session"))
]

pub record RoleInfo : Type 0 where
  pub id : Text
  pub name : Text
  pub built_in : Bool

-- `MeResponse`; an empty token is left out of the answer.
pub record MeResponse : Type 0 where
  pub user_id : Text
  pub username : Text
  pub display_name : Text
  pub is_platform_admin : Bool
  pub must_change_password : Bool
  pub tenant_id : Text
  pub tenant_name : Text
  pub roles : List RoleInfo
  pub permissions : List Text
  pub csrf_token : Text

-- The details of the roles of the request's context, in the order of the table
unfoldable pub roles_of : List Text → List Role → List RoleInfo
roles_of ids rows =
    map (λ (x : Role). record { id = x.id; name = x.name; built_in = x.built_in == 1 })
      (filter_by (λ (x : Role). contains ids x.id) rows)

unfoldable pub me_response : Request → SessionInfo → User → Text → AuthDb → MeResponse
unfolding roles_of
me_response r i u token db = record {
  user_id = i.user_id;
  username = u.username;
  display_name = u.display_name;
  is_platform_admin = u.is_platform_admin == 1;
  must_change_password = u.must_change_password == 1;
  tenant_id = i.tenant_id;
  tenant_name = elim (find_tenant i.tenant_id db) [ none ↦ text "Unknown" | some t ↦ t.name ];
  roles = roles_of r.role_ids db.roles;
  permissions = r.permissions;
  csrf_token = token;
}

-- `HandleMe`, with the new random text
unfoldable pub handle_me : Server → Option Text → Handler MeResponse
unfolding me_response rotate_csrf_secret
handle_me srv csrf_secret r db = elim r.info [
  | none ↦ (db, denied 401 (text "unauthorized"))
  | some i ↦ elim (find_user i.user_id db) [
    | none ↦ (db, denied 500 (text "internal error"))
    | some u ↦ elim (rotate_csrf_secret srv csrf_secret i.session_id db) [
      | none ↦ (db, answered (me_response r i u [] db))
      | some (after, token) ↦ (after, answered (me_response r i u token db))
    ]
  ]
]
