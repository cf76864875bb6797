-- ===== src/Auth/Tenancy.antt =====
-- The tenants that a login may choose (internal/server/auth/handlers.go).
use lightai_go.Common.{
  ◌≡◌, refl, sym, ◌∙◌, Bool, true, ◌&&◌, List, [], ◌∷◌, any, nat_eq, ◌==◌, inl, inr, arith,
  Bool-cases,
}
use lightai_go.Text.{Text, text, text_eq}
use lightai_go.Auth.{Membership, AuthDb}
use lightai_go.Auth.Permissions.{is_member}
use lightai_go.Auth.Granted.{any-map, any-filter_by, any-equal}
use lightai_go.Auth.Login.{
  is_active_tenant, active_tenants, is_tenant_of, TenantChoice, chosen, several, refused,
  choose_tenant,
}

any-and {ℓ} :
    {A : Type ℓ} (p : A → Bool) (b : Bool) (xs : List A) → any (λ x. p x && b) xs ≡ (any p xs && b)
any-and p b [] = ground arith
any-and p b (x ∷ xs) = ground (arith, any-and p b xs)

member_of_active :
    (db : AuthDb) (user_id wanted : Text) (m : Membership)
    → ((m.user_id == user_id && m.status == text "active" && is_active_tenant db m.tenant_id)
        && m.tenant_id == wanted)
      ≡ (is_member user_id wanted m && is_active_tenant db wanted)
member_of_active db user_id wanted m = elim (Bool-cases (m.tenant_id == wanted)) [
  | inl e ↦ rw ((text_eq.equal_iff m.tenant_id wanted).0 e) (rw (text_same wanted) (ground arith))
  | inr e ↦ rw e (ground arith)
]
  where
    text_same : (t : Text) → (t == t) ≡ true
    text_same t = (text_eq.equal_iff t t).1 refl

-- The tenants that a user may choose are those in which it is an active member.
any-active_tenants :
    (db : AuthDb) (user_id wanted : Text)
    → any (λ (t : Text). t == wanted) (active_tenants db user_id) ≡ is_tenant_of db user_id wanted
unfolding active_tenants is_tenant_of
any-active_tenants db user_id wanted =
    any-map (λ (t : Text). t == wanted) (λ (m : Membership). m.tenant_id) _
    ∙ (any-filter_by (λ (m : Membership). m.tenant_id == wanted)
          (λ (m : Membership).
            m.user_id == user_id && m.status == text "active" && is_active_tenant db m.tenant_id)
          db.memberships
        ∙ (any-equal _ _ db.memberships (member_of_active db user_id wanted)
            ∙ any-and (is_member user_id wanted) (is_active_tenant db wanted) db.memberships))

pub choose-is_tenant_of :
    (db : AuthDb) (user_id wanted id : Text)
    → choose_tenant db user_id wanted ≡ chosen id
    → is_tenant_of db user_id id ≡ true
unfolding choose_tenant
choose-is_tenant_of db user_id wanted id e = elim (Bool-cases (wanted == [])) [
  | inl w ↦ only (active_tenants db user_id) (any-active_tenants db user_id id) (rw w at e)
  | inr w ↦ elim (Bool-cases (is_tenant_of db user_id wanted)) [
    | inl t ↦
        let same : chosen wanted ≡ chosen id = rw (w, t) at e in
        let equal : wanted ≡ id = cc in rw (← equal) t
    | inr t ↦ absurd (let same : refused (text "invalid tenant") ≡ chosen id = rw (w, t) at e in cc)
  ]
]
  where
    only :
        (ids : List Text)
        → any (λ (t : Text). t == id) ids ≡ is_tenant_of db user_id id
        → ◌≡◌ {A = TenantChoice}
            (elim ids [
              | [] ↦ refused (text "no active membership")
              | one ∷ [] ↦ chosen one
              | first ∷ other ∷ rest ↦ several (first ∷ other ∷ rest)
            ])
            (chosen id)
        → is_tenant_of db user_id id ≡ true
    only [] h k = absurd (cc)
    only (one ∷ []) h k =
        let same : one ≡ id = cc in sym h ∙ rw same (rw ((text_eq.equal_iff id id).1 refl) refl)
    only (first ∷ other ∷ rest) h k = absurd (cc)
