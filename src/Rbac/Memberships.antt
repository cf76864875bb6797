-- ===== src/Rbac/Memberships.antt =====
-- The handlers of memberships (internal/server/rbac/handlers.go), for administrators of the tenant of
-- the session in the request's context.
use lightai_go.Common.{
  Bool, true, not, ◌&&◌, ◌||◌, Option, none, some, List, [], ◌∷◌, ◌++◌, find, count_by, leb,
  update_where, delete_where, is_empty, ◌==◌, nat_eq, if◌then◌else◌,
}
use lightai_go.Text.{Text, text, text_eq}
use lightai_go.Auth.{User, Membership, Role, MembershipRole, AuthDb}
use lightai_go.Auth.Sessions.{SessionInfo}
use lightai_go.Auth.Middleware.{Reply, denied, answered, aborted, Handler}
use lightai_go.Rbac.{inserted, not_unique, refused, insert_membership, insert_membership_role}
use lightai_go.Rbac.Tenants.{find_active_user, internal_error}

pub record CreateMembershipRequest : Type 0 where
  pub username : Text
  pub role_ids : List Text

abbrev pub find_membership : Text → AuthDb → Option Membership
find_membership id db = find (λ (m : Membership). m.id == id) db.memberships

abbrev pub find_active_role : Text → AuthDb → Option Role
find_active_role id db = find (λ (x : Role). x.id == id && x.status == text "active") db.roles

-- A role of this tenant, or of every tenant
abbrev pub is_usable : Text → Role → Bool
is_usable tenant role = elim role.tenant_id [ none ↦ true | some t ↦ t == tenant ]

-- The loop that validates the roles: the status and message of its refusal
unfoldable pub refusal_of_roles : Text → List Text → AuthDb → Option Text
refusal_of_roles tenant [] db = none
refusal_of_roles tenant (id ∷ rest) db =
    let later = refusal_of_roles tenant rest db in
    elim (find_active_role id db) [
      | none ↦ some (text "role not found: " ++ id)
      | some role ↦
          if is_usable tenant role then later else some (text "role does not belong to this tenant")
    ]

-- The loop that assigns the roles
unfoldable pub assign_roles : Text → List Text → AuthDb → Option AuthDb
unfolding insert_membership_role
assign_roles membership [] db = some db
assign_roles membership (id ∷ rest) db =
    elim (insert_membership_role (record { membership_id = membership; role_id = id }) db) [
      | not_unique ↦ none
      | refused ↦ none
      | inserted after ↦ assign_roles membership rest after
    ]

abbrev pub or_rollback : {A : Type 0} → AuthDb → A → Option AuthDb → AuthDb × Reply A
or_rollback old answer none = internal_error old
or_rollback old answer (some db) = (db, answered answer)

-- The transaction of `HandleCreateMembership`
unfoldable pub join_tenant : Membership → List Text → AuthDb → AuthDb × Reply Text
unfolding insert_membership assign_roles
join_tenant m role_ids db = elim (insert_membership m db) [
  | not_unique ↦ internal_error db
  | refused ↦ internal_error db
  | inserted after ↦ or_rollback db m.id (assign_roles m.id role_ids after)
]

abbrev pub is_membership_of : Text → Text → Membership → Bool
is_membership_of user tenant m = m.tenant_id == tenant && m.user_id == user

unfoldable pub join_user :
    Text → SessionInfo → CreateMembershipRequest → User → AuthDb → AuthDb × Reply Text
unfolding refusal_of_roles join_tenant
join_user id i req u db = elim (find (is_membership_of u.id i.tenant_id) db.memberships) [
  | some m ↦ (db, denied 409 (text "user already has a membership in this tenant"))
  | none ↦ elim (refusal_of_roles i.tenant_id req.role_ids db) [
    | some error ↦ (db, denied 400 error)
    | none ↦
        join_tenant
          (record { id = id; user_id = u.id; tenant_id = i.tenant_id; status = text "active" })
          req.role_ids db
  ]
]

-- `HandleCreateMembership`
unfoldable pub handle_create_membership : Text → Option CreateMembershipRequest → Handler Text
unfolding join_user
handle_create_membership id body r db = elim r.info [
  | none ↦ (db, denied 401 (text "unauthorized"))
  | some i ↦ elim body [
    | none ↦ (db, denied 400 (text "invalid request"))
    | some req ↦
        if req.username == [] || is_empty req.role_ids
        then (db, denied 400 (text "username and at least one role_id required"))
        else elim (find_active_user req.username db) [
          | none ↦ (db, denied 400 (text "user not found or not active"))
          | some u ↦ join_user id i req u db
        ]
  ]
]

abbrev pub has_membership_id : Text → Membership → Bool
has_membership_id id m = m.id == id

abbrev pub disabled_membership : Membership → Membership
disabled_membership m = record m { status = text "disabled" }

-- `HandleDisableMembership`, which reads the session without a test for one
unfoldable pub handle_disable_membership : Text → Handler Unit
handle_disable_membership id r db = elim (find_membership id db) [
  | none ↦ (db, denied 404 (text "membership not found"))
  | some m ↦ elim r.info [
    | none ↦ (db, aborted)
    | some i ↦
        if m.tenant_id == i.tenant_id
        then (
          record db {
            memberships = update_where (has_membership_id id) disabled_membership db.memberships;
          },
          answered tt,
        )
        else (db, denied 403 (text "forbidden"))
  ]
]

abbrev pub find_active_membership : Text → AuthDb → Option Membership
find_active_membership id db =
    find (λ (m : Membership). m.id == id && m.status == text "active") db.memberships

unfoldable pub assign_role : Text → Text → AuthDb → AuthDb × Reply Unit
unfolding insert_membership_role
assign_role id role_id db =
    elim (insert_membership_role (record { membership_id = id; role_id = role_id }) db) [
      | not_unique ↦ (db, denied 409 (text "role already assigned"))
      | refused ↦ internal_error db
      | inserted after ↦ (after, answered tt)
    ]

-- `HandleAddMembershipRole`, with the role of the body
unfoldable pub handle_add_membership_role : Text → Option Text → Handler Unit
unfolding assign_role
handle_add_membership_role id body r db = elim r.info [
  | none ↦ (db, denied 401 (text "unauthorized"))
  | some i ↦ elim body [
    | none ↦ (db, denied 400 (text "invalid request"))
    | some role_id ↦ elim (find_active_membership id db) [
      | none ↦ (db, denied 404 (text "membership not found"))
      | some m ↦
          if not (m.tenant_id == i.tenant_id)
          then (db, denied 403 (text "forbidden"))
          else elim (find_active_role role_id db) [
            | none ↦ (db, denied 400 (text "role not found"))
            | some role ↦
                if is_usable i.tenant_id role
                then assign_role id role_id db
                else (db, denied 403 (text "role does not belong to this tenant"))
          ]
    ]
  ]
]

abbrev pub is_role_of : Text → MembershipRole → Bool
is_role_of membership mr = mr.membership_id == membership

abbrev pub is_assignment : Text → Text → MembershipRole → Bool
is_assignment membership role mr = mr.membership_id == membership && mr.role_id == role

-- `HandleRemoveMembershipRole`
unfoldable pub handle_remove_membership_role : Text → Text → Handler Unit
handle_remove_membership_role id role_id r db = elim r.info [
  | none ↦ (db, denied 401 (text "unauthorized"))
  | some i ↦ elim (find_membership id db) [
    | none ↦ (db, denied 404 (text "membership not found"))
    | some m ↦
        if not (m.tenant_id == i.tenant_id)
        then (db, denied 403 (text "forbidden"))
        else if m.status == text "active" && leb (count_by (is_role_of id) db.membership_roles) 1
        then (db, denied 400 (text "cannot remove last role from active membership"))
        else (
          record db {
            membership_roles = delete_where (is_assignment id role_id) db.membership_roles;
          },
          answered tt,
        )
  ]
]
