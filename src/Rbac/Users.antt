-- ===== src/Rbac/Users.antt =====
-- The handlers of users (internal/server/rbac/handlers.go), for platform administrators.
use lightai_go.Common.{
  ℕ, Bool, true, false, not, ◌&&◌, ◌||◌, Option, none, some, List, [], length, ltb, count_by,
  or_else, ◌==◌, nat_eq, if◌then◌else◌,
}
use lightai_go.Text.{Text, text, text_eq}
use lightai_go.Auth.{User, Session, AuthDb, Server, find_user}
use lightai_go.Auth.Sessions.{revoke_live}
use lightai_go.Auth.Passwords.{hash_password}
use lightai_go.Auth.Middleware.{Reply, denied, answered}
use lightai_go.Rbac.{inserted, not_unique, refused, insert_user, update_users}

pub record CreateUserRequest : Type 0 where
  pub username : Text
  pub password : Text
  pub display_name : Text
  pub is_platform_admin : Option Bool

abbrev pub flag : Bool → ℕ
flag true = 1
flag false = 0

abbrev pub new_user : Text → Text → CreateUserRequest → User
new_user id password_hash req = record {
  id = id;
  username = req.username;
  password_hash = password_hash;
  display_name = if req.display_name == [] then req.username else req.display_name;
  status = text "active";
  is_platform_admin = flag (or_else req.is_platform_admin false);
  must_change_password = 0;
}

abbrev pub add_user : User → AuthDb → AuthDb × Reply User
add_user u db = elim (insert_user u db) [
  | not_unique ↦ (db, denied 409 (text "username already exists"))
  | refused ↦ (db, denied 500 (text "internal error"))
  | inserted after ↦ (after, answered u)
]

-- `HandleCreateUser`; the answer shows the row without its password. The length is in bytes, one for
-- each code point here.
unfoldable pub handle_create_user :
    Server → Option (List ℕ) → Text → Option CreateUserRequest → AuthDb → AuthDb × Reply User
unfolding hash_password insert_user
handle_create_user srv salt id body db = elim body [
  | none ↦ (db, denied 400 (text "invalid request"))
  | some req ↦
      if req.username == [] || req.password == []
      then (db, denied 400 (text "username and password required"))
      else if ltb (length req.password) 8
      then (db, denied 400 (text "password must be at least 8 characters"))
      else elim (hash_password srv salt req.password) [
        | none ↦ (db, denied 500 (text "internal error"))
        | some hash ↦ add_user (new_user id hash req) db
      ]
]

-- `HandleGetUser`
unfoldable pub handle_get_user : Text → AuthDb → AuthDb × Reply User
handle_get_user id db =
    if id == [] then (db, denied 400 (text "user id required")) else elim (find_user id db) [
      | none ↦ (db, denied 404 (text "user not found"))
      | some u ↦ (db, answered u)
    ]

abbrev pub has_user_id : Text → User → Bool
has_user_id id u = u.id == id

abbrev pub is_active_admin : User → Bool
is_active_admin u = u.is_platform_admin == 1 && u.status == text "active"

-- The active platform administrators other than this user
abbrev pub other_admins : Text → AuthDb → ℕ
other_admins id db = count_by (λ u. is_active_admin u && not (has_user_id id u)) db.users

pub record UpdateUserRequest : Type 0 where
  pub display_name : Option Text
  pub is_platform_admin : Option Bool

unfoldable pub rename_user : Text → Option Text → AuthDb → AuthDb
rename_user id none db = db
rename_user id (some name) db =
    update_users (has_user_id id) (λ u. record u { display_name = name }) db

unfoldable pub set_admin : Text → Option Bool → AuthDb → AuthDb × Reply Unit
set_admin id none db = (db, answered tt)
set_admin id (some admin) db =
    if not admin && other_admins id db == 0
    then (db, denied 400 (text "cannot remove last active platform admin"))
    else (
      update_users (has_user_id id) (λ u. record u { is_platform_admin = flag admin }) db,
      answered tt,
    )

-- `HandleUpdateUser`
unfoldable pub handle_update_user : Text → Option UpdateUserRequest → AuthDb → AuthDb × Reply Unit
unfolding rename_user set_admin
handle_update_user id body db =
    if id == [] then (db, denied 400 (text "user id required")) else elim body [
      | none ↦ (db, denied 400 (text "invalid request"))
      | some req ↦ set_admin id req.is_platform_admin (rename_user id req.display_name db)
    ]

unfoldable pub is_admin_id : Text → AuthDb → Bool
is_admin_id id db = elim (find_user id db) [ none ↦ false | some u ↦ u.is_platform_admin == 1 ]

abbrev pub of_user : Text → Session → Bool
of_user id s = s.user_id == id

abbrev pub disabled : User → User
disabled u = record u { status = text "disabled" }

-- `HandleDisableUser`
unfoldable pub handle_disable_user : ℕ → Text → AuthDb → AuthDb × Reply Unit
unfolding is_admin_id
handle_disable_user now id db =
    if id == []
    then (db, denied 400 (text "user id required"))
    else if is_admin_id id db && other_admins id db == 0
    then (db, denied 400 (text "cannot disable last active platform admin"))
    else (revoke_live now (of_user id) (update_users (has_user_id id) disabled db), answered tt)

-- `HandleResetPassword`, with the new password of the body
unfoldable pub handle_reset_password :
    Server → ℕ → Option (List ℕ) → Text → Option Text → AuthDb → AuthDb × Reply Unit
unfolding hash_password
handle_reset_password srv now salt id body db = elim body [
  | none ↦ (db, denied 400 (text "invalid request"))
  | some password ↦
      if ltb (length password) 8
      then (db, denied 400 (text "password must be at least 8 characters"))
      else elim (hash_password srv salt password) [
        | none ↦ (db, denied 500 (text "internal error"))
        | some hash ↦ (
          revoke_live now (of_user id) (
              update_users (has_user_id id)
                (λ u. record u { password_hash = hash; must_change_password = 1 }) db),
          answered tt,
        )
      ]
]
