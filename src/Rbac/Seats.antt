-- ===== src/Rbac/Seats.antt =====
-- The roles of active memberships (internal/server/rbac/handlers.go).
use lightai_go.Common.{
  ◌+◌, ◌≤◌, ◌≡◌, refl, subst, Bool, true, false, not, ◌&&◌, ◌||◌, Option, none, some, List, [], ◌∷◌,
  ◌++◌, any, any-append, find, count_by, count_by-append, count_by_zero, count_by-filter_by, leb,
  update_where, delete_where, is_empty, ◌==◌, nat_eq, inl, inr, arith, Bool-cases,
}
use lightai_go.Text.{Text, text, text_beq, text_eq}
use lightai_go.Auth.{Membership, MembershipRole, AuthDb, Server}
use lightai_go.Rbac.{inserted, insert_membership, insert_membership_role}
use lightai_go.Rbac.Roles.{replace_permissions}
use lightai_go.Rbac.Memberships.{
  has_membership_id, disabled_membership, find_membership, is_role_of, is_assignment, assign_roles,
}
use lightai_go.Rbac.Inserting.{
  membership_inserted, role_assigned, role_inserted, role_deleted, permission_granted,
  assigned_first, assign_roles_keeps, add_permissions_keeps,
}
use lightai_go.Rbac.Steps.{Steps}
use lightai_go.Rbac.Tenancy.{steps_keep}

abbrev pub may_stay : Option Membership → Bool → Bool
may_stay none seated = true
may_stay (some m) seated = not (m.status == text "active") || seated

abbrev pub is_seated : Text → List Membership → List MembershipRole → Bool
is_seated id ms mrs = may_stay (find (has_membership_id id) ms) (any (is_role_of id) mrs)

abbrev pub IsDistinct : List MembershipRole → Type 0
IsDistinct mrs = (id role : Text) → count_by (is_assignment id role) mrs ≤ 1

-- Each membership but this one has a role or is not active, and no role is assigned to one twice.
abbrev pub IsSeatedBut : (Text → Bool) → AuthDb → Type 0
IsSeatedBut skip db =
    ((id : Text) → skip id ≡ false → is_seated id db.memberships db.membership_roles ≡ true)
    × IsDistinct db.membership_roles

-- Each active membership has a role, and no role is assigned to a membership twice.
abbrev pub IsSeated : AuthDb → Type 0
IsSeated db =
    ((id : Text) → is_seated id db.memberships db.membership_roles ≡ true)
    × IsDistinct db.membership_roles

may_stay-or :
    (o : Option Membership) (a b : Bool) → may_stay o a ≡ true → may_stay o (a || b) ≡ true
may_stay-or none a b h = refl
may_stay-or (some m) a b h = ground (arith, h)

no_assignment :
    (m r : Text) (mrs : List MembershipRole)
    → any (λ (x : MembershipRole). x.membership_id == m && x.role_id == r) mrs ≡ false
    → count_by (is_assignment m r) mrs ≡ 0
no_assignment m r mrs h = count_by_zero (is_assignment m r) mrs h

IsDistinct-append :
    (mr : MembershipRole) (mrs : List MembershipRole)
    → any
        (λ (x : MembershipRole). x.membership_id == mr.membership_id && x.role_id == mr.role_id)
        mrs
      ≡ false
    → IsDistinct mrs
    → IsDistinct (mrs ++ mr ∷ [])
IsDistinct-append mr mrs free h id role = elim (Bool-cases (is_assignment id role mr)) [
  | inl e ↦
      let same_id : mr.membership_id ≡ id =
        (text_eq.equal_iff mr.membership_id id).0 (ground (arith, e)) in
      let same_role : mr.role_id ≡ role =
        (text_eq.equal_iff mr.role_id role).0 (ground (arith, e)) in
      let none_yet : count_by (is_assignment id role) mrs ≡ 0 =
        rw (← same_id, ← same_role) (no_assignment mr.membership_id mr.role_id mrs free) in
      ground (arith, count_by-append (is_assignment id role) mrs (mr ∷ []))
  | inr e ↦ ground (arith, h id role, count_by-append (is_assignment id role) mrs (mr ∷ []))
]

seated-append :
    (id : Text) (ms : List Membership) (mrs : List MembershipRole) (mr : MembershipRole)
    → is_seated id ms mrs ≡ true
    → is_seated id ms (mrs ++ mr ∷ []) ≡ true
seated-append id ms mrs mr h =
    rw (any-append (is_role_of id) mrs (mr ∷ []))
      (may_stay-or (find (has_membership_id id) ms) _ _ h)

assigned-IsSeatedBut :
    (skip : Text → Bool) (id role : Text) (db after : AuthDb)
    → insert_membership_role (record { membership_id = id; role_id = role }) db ≡ inserted after
    → IsSeatedBut skip db
    → IsSeatedBut skip after
assigned-IsSeatedBut skip id role db after made h =
    let (free, same) =
      role_assigned (record { membership_id = id; role_id = role }) db after made in
    subst (IsSeatedBut skip) same (
      (λ k other. seated-append k db.memberships db.membership_roles _ (h.0 k other)),
      IsDistinct-append _ db.membership_roles free h.1,
    )

has_role_after :
    (id role : Text) (db after : AuthDb)
    → insert_membership_role (record { membership_id = id; role_id = role }) db ≡ inserted after
    → any (is_role_of id) after.membership_roles ≡ true
has_role_after id role db after made =
    let (free, same) =
      role_assigned (record { membership_id = id; role_id = role }) db after made in
    subst (λ (x : AuthDb). any (is_role_of id) x.membership_roles ≡ true) same
      (rw
        (any-append (is_role_of id) db.membership_roles
          (record { membership_id = id; role_id = role } ∷ []))
        (rw ((text_eq.equal_iff id id).1 refl) (ground arith)))

keeps_role :
    (id role : Text) (db after : AuthDb)
    → insert_membership_role (record { membership_id = id; role_id = role }) db ≡ inserted after
    → any (is_role_of id) db.membership_roles ≡ true
    → any (is_role_of id) after.membership_roles ≡ true
keeps_role id role db after made h = has_role_after id role db after made

assigned_some :
    (id : Text) (ids : List Text) (db after : AuthDb)
    → is_empty ids ≡ false
    → assign_roles id ids db ≡ some after
    → any (is_role_of id) after.membership_roles ≡ true
assigned_some id [] db after given e = absurd (cc)
assigned_some id (role ∷ ids) db after given e =
    let (mid, first, others) = assigned_first id role ids db after e in
    assign_roles_keeps (λ (x : AuthDb). any (is_role_of id) x.membership_roles ≡ true) id
      (keeps_role id) ids mid after others (has_role_after id role db mid first)

-- Another membership is found as before behind a new one.
find-other :
    (k : Text) (ms : List Membership) (m : Membership)
    → (k == m.id) ≡ false
    → find (has_membership_id k) (ms ++ m ∷ []) ≡ find (has_membership_id k) ms
find-other k [] m other = ground (arith, text_eq.equal_iff m.id k, text_eq.equal_iff k m.id)
find-other k (x ∷ ms) m other = ground (arith, find-other k ms m other)

joined-IsSeatedBut :
    (m : Membership) (db mid : AuthDb)
    → insert_membership m db ≡ inserted mid
    → IsSeated db
    → IsSeatedBut (λ k. k == m.id) mid
joined-IsSeatedBut m db mid made h =
    let (free, same) = membership_inserted m db mid made in
    subst (IsSeatedBut (λ k. k == m.id)) same
      ((λ k other. rw (find-other k db.memberships m other) (h.0 k)), h.1)

all-IsSeated :
    (id : Text) (db : AuthDb)
    → IsSeatedBut (λ k. k == id) db
    → any (is_role_of id) db.membership_roles ≡ true
    → IsSeated db
all-IsSeated id db h own = (
  (λ k. elim (Bool-cases (k == id)) [
    | inl e ↦
        let same : k ≡ id = (text_eq.equal_iff k id).0 e in
        rw same (rw own (stays (find (has_membership_id id) db.memberships)))
    | inr e ↦ h.0 k e
  ]),
  h.1,
)
  where
    stays : (o : Option Membership) → may_stay o true ≡ true
    stays none = refl
    stays (some m) = ground arith

join-IsSeated :
    (id user tenant : Text) (ids : List Text) (db mid after : AuthDb)
    → is_empty ids ≡ false
    → insert_membership
        (record { id = id; user_id = user; tenant_id = tenant; status = text "active" })
        db
      ≡ inserted mid
    → assign_roles id ids mid ≡ some after
    → IsSeated db
    → IsSeated after
join-IsSeated id user tenant ids db mid after given made assigned h =
    all-IsSeated id after
      (assign_roles_keeps (IsSeatedBut (λ k. k == id)) id (assigned-IsSeatedBut (λ k. k == id) id)
        ids mid after assigned
        (joined-IsSeatedBut
          (record { id = id; user_id = user; tenant_id = tenant; status = text "active" }) db mid
          made h))
      (assigned_some id ids mid after given assigned)

-- A disabled membership needs no role.
disabled_stays :
    (k id : Text) (ms : List Membership) (seated : Bool)
    → may_stay (find (has_membership_id k) ms) seated ≡ true
    → may_stay
        (find (has_membership_id k) (update_where (has_membership_id id) disabled_membership ms))
        seated
      ≡ true
unfolding update_where text_beq
disabled_stays k id [] seated h = refl
disabled_stays k id (m ∷ ms) seated h = elim (Bool-cases (m.id == id)) [
  | inl e ↦ rw e (elim (Bool-cases (m.id == k)) [
    | inl f ↦ rw f refl
    | inr f ↦ rw f (disabled_stays k id ms seated (rw f at h))
  ])
  | inr e ↦ rw e (elim (Bool-cases (m.id == k)) [
    | inl f ↦ rw f (rw f at h)
    | inr f ↦ rw f (disabled_stays k id ms seated (rw f at h))
  ])
]

-- One assignment less is one role less.
count-delete :
    (id role : Text) (mrs : List MembershipRole)
    → count_by (is_role_of id) (delete_where (is_assignment id role) mrs)
        + count_by (is_assignment id role) mrs
      ≡ count_by (is_role_of id) mrs
unfolding delete_where
count-delete id role [] = refl
count-delete id role (x ∷ mrs) = ground (arith, count-delete id role mrs)

any_of_count :
    (p : MembershipRole → Bool) (mrs : List MembershipRole) → 1 ≤ count_by p mrs → any p mrs ≡ true
any_of_count p mrs h = elim (Bool-cases (any p mrs)) [
  | inl e ↦ e
  | inr e ↦ absurd (omega (arith, h, count_by_zero p mrs e))
]

any-delete_other :
    (k id role : Text) (mrs : List MembershipRole)
    → (k == id) ≡ false
    → any (is_role_of k) (delete_where (is_assignment id role) mrs) ≡ any (is_role_of k) mrs
unfolding delete_where
any-delete_other k id role [] other = refl
any-delete_other k id role (x ∷ mrs) other = ground (
  arith,
  any-delete_other k id role mrs other,
  text_eq.equal_iff x.membership_id k,
  text_eq.equal_iff x.membership_id id,
  text_eq.equal_iff k id,
)

own_seat :
    (id role : Text) (m : Membership) (mrs : List MembershipRole)
    → (m.status == text "active" && leb (count_by (is_role_of id) mrs) 1) ≡ false
    → IsDistinct mrs
    → (not (m.status == text "active")
        || any (is_role_of id) (delete_where (is_assignment id role) mrs))
      ≡ true
own_seat id role m mrs more h = elim (Bool-cases (m.status == text "active")) [
  | inl active ↦
      let two : leb (count_by (is_role_of id) mrs) 1 ≡ false = rw active at more in
      let left : 1 ≤ count_by (is_role_of id) (delete_where (is_assignment id role) mrs) =
        ground (arith, count-delete id role mrs, h id role) in
      rw (any_of_count (is_role_of id) _ left) (ground arith)
  | inr idle ↦ rw idle refl
]

IsDistinct-delete :
    (id role : Text) (mrs : List MembershipRole)
    → IsDistinct mrs
    → IsDistinct (delete_where (is_assignment id role) mrs)
unfolding delete_where
IsDistinct-delete id role mrs h k r =
    omega (
      arith,
      h k r,
      count_by-filter_by (is_assignment k r) (λ x. not (is_assignment id role x)) mrs,
    )

remove-IsSeated :
    (id role : Text) (m : Membership) (db : AuthDb)
    → find_membership id db ≡ some m
    → (m.status == text "active" && leb (count_by (is_role_of id) db.membership_roles) 1) ≡ false
    → IsSeated db
    → IsSeated
        (record db { membership_roles = delete_where (is_assignment id role) db.membership_roles })
remove-IsSeated id role m db found more h = (
  (λ k. elim (Bool-cases (k == id)) [
    | inl e ↦
        let same : k ≡ id = (text_eq.equal_iff k id).0 e in
        rw same (rw found (own_seat id role m db.membership_roles more h.1))
    | inr e ↦ rw (any-delete_other k id role db.membership_roles e) (h.0 k)
  ]),
  IsDistinct-delete id role db.membership_roles h.1,
)

-- If each active membership has a role, and no role is assigned to a membership twice, it is so after
-- every history of the handlers of users, tenants, memberships and roles, of changes of one's own
-- password, and of changes of the sessions.
pub Steps-IsSeated :
    (srv : Server) (db after : AuthDb) → Steps srv db after → IsSeated db → IsSeated after
unfolding replace_permissions
Steps-IsSeated srv db after run =
    steps_keep IsSeated (λ rows db h. h) (λ rows db h. h) (λ rows db h. h) join-IsSeated
      (λ id db h. ((λ k. disabled_stays k id db.memberships _ (h.0 k)), h.1))
      (λ id role db after made h.
        let but = assigned-IsSeatedBut (λ k. false) id role db after made ((λ k _. h.0 k), h.1) in
        ((λ k. but.0 k refl), but.1))
      remove-IsSeated
      (λ role db after made h. subst IsSeated (role_inserted role db after made).1 h)
      (λ id db after gone h. subst IsSeated (role_deleted id db after gone).1 h)
      (λ id ids db h.
        add_permissions_keeps IsSeated id db h
          (λ p_id p mid after _ _ made k. subst IsSeated (permission_granted _ mid after made).1 k)
          ids _ h)
      run
