-- ===== src/Auth/Guards.antt =====
-- What the chains of middleware let through (internal/server/api/router.go).
use lightai_go.Common.{
  ℕ, ◌≡◌, refl, Bool, true, false, not, ◌||◌, Option, none, some, nat_eq, ◌==◌, if◌then◌else◌, ◌⊎◌,
  inl, inr, arith, Bool-cases, Option-cases,
}
use lightai_go.Text.{Text, text, text_eq}
use lightai_go.Auth.{AuthDb, Server}
use lightai_go.Auth.Sessions.{SessionInfo, validate_session}
use lightai_go.Auth.Requests.{Request, cookie, validate_csrf, validate_origin, is_safe_method}
use lightai_go.Auth.Permissions.{resolve_permissions, has_permission}
use lightai_go.Auth.Middleware.{
  Reply, denied, answered, Handler, with_context, session_middleware, require_permission,
  must_change, require_password_not_expired, csrf_middleware, tenant_chain,
}

-- An answer that is not a denial came past each test.
some_answered {ℓ} :
    {I : Type ℓ} {A : Type 0} (o : Option I) (k : I → AuthDb × Reply A) (status : ℕ) (error : Text)
    (db after : AuthDb) (a : A)
    → ◌≡◌ {A = AuthDb × Reply A}
        (elim o [ none ↦ (db, denied status error) | some i ↦ k i ])
        (after, answered a)
    → (i : I) × (o ≡ some i) × (k i ≡ (after, answered a))
some_answered none k status error db after a e = absurd (cc)
some_answered (some i) k status error db after a e = (i, refl, e)

pub option_split {ℓ κ} :
    {I : Type ℓ} {X : Type κ} (o : Option I) (x y : X) (k : I → X)
    → ◌≡◌ {A = X} (elim o [ none ↦ x | some j ↦ k j ]) y
    → ((o ≡ none) × (x ≡ y)) ⊎ ((j : I) × (o ≡ some j) × (k j ≡ y))
option_split none x y k e = inl (refl, e)
option_split (some j) x y k e = inr (j, refl, e)

at_some {ℓ} :
    {I X : Type ℓ} (o : Option I) (x y : X) (k : I → X) (i : I)
    → o ≡ some i
    → ◌≡◌ {A = X} (elim o [ none ↦ x | some j ↦ k j ]) y
    → k i ≡ y
at_some none x y k i f e = absurd (cc)
at_some (some j) x y k i f e = let same : i ≡ j = cc in rw same e

if_answered :
    {A : Type 0} (b : Bool) (x : AuthDb × Reply A) (status : ℕ) (error : Text) (db after : AuthDb)
    (a : A)
    → (if b then x else (db, denied status error)) ≡ (after, answered a)
    → (b ≡ true) × (x ≡ (after, answered a))
if_answered true x status error db after a e = (refl, e)
if_answered false x status error db after a e = absurd (cc)

pub unless_not_answered :
    {A : Type 0} (b : Bool) (x : AuthDb × Reply A) (status : ℕ) (error : Text) (db after : AuthDb)
    (a : A)
    → (if b then (db, denied status error) else x) ≡ (after, answered a)
    → (b ≡ false) × (x ≡ (after, answered a))
unless_not_answered true x status error db after a e = absurd (cc)
unless_not_answered false x status error db after a e = (refl, e)

unless_answered :
    {A : Type 0} (b : Bool) (x : AuthDb × Reply A) (status : ℕ) (error : Text) (db after : AuthDb)
    (a : A)
    → (if not b then (db, denied status error) else x) ≡ (after, answered a)
    → (b ≡ true) × (x ≡ (after, answered a))
unless_answered true x status error db after a e = (refl, e)
unless_answered false x status error db after a e = absurd (cc)

module _ {A : Type 0} (h : Handler A) (r : Request) (db after : AuthDb) (a : A) where
  permission_answered :
      (permission : Text)
      → require_permission permission h r db ≡ (after, answered a)
      → (has_permission r.permissions permission ≡ true) × (h r db ≡ (after, answered a))
  unfolding require_permission
  permission_answered permission e =
      let (i, f, k) = some_answered r.info _ 401 (text "unauthorized") db after a e in
      if_answered (has_permission r.permissions permission) _ 403 (text "forbidden") db after a k

  password_answered :
      (i : SessionInfo)
      → r.info ≡ some i
      → require_password_not_expired h r db ≡ (after, answered a)
      → h r db ≡ (after, answered a)
  unfolding require_password_not_expired
  password_answered i f e =
      elim (Bool-cases (
        is_safe_method r.method
        || r.path == text "/api/v1/auth/change-password"
        || r.path == text "/api/v1/auth/logout")) [
          | inl b ↦ rw b at e
          | inr b ↦
              let e1 = rw b at e in
              let (_, passed) =
                unless_not_answered (must_change i.user_id db) (h r db) 403
                  (text "password change required") db after a
                  (at_some r.info (h r db) _ _ i f e1) in
              passed
        ]

  csrf_answered :
      (srv : Server) (i : SessionInfo)
      → r.info ≡ some i
      → csrf_middleware srv h r db ≡ (after, answered a)
      → ((is_safe_method r.method ≡ true)
          ⊎ ((validate_csrf srv r i.csrf_secret_hash ≡ true) × (validate_origin srv r ≡ true)))
        × (h r db ≡ (after, answered a))
  unfolding csrf_middleware
  csrf_answered srv i f e = elim (Bool-cases (is_safe_method r.method)) [
    | inl b ↦ (inl b, rw b at e)
    | inr b ↦
        let e1 = rw b at e in
        let token =
          unless_answered (validate_csrf srv r i.csrf_secret_hash) _ 403 (text "invalid csrf token")
            db after a (at_some r.info (h r db) _ _ i f e1) in
        let origin =
          unless_answered (validate_origin srv r) _ 403 (text "invalid origin") db after a
            token.1 in
        (inr (token.0, origin.0), origin.1)
  ]

  -- Past `SessionMiddleware` a handler answers with no session, or with a valid one.
  session_answered :
      (srv : Server) (now : ℕ)
      → session_middleware srv now h r db ≡ (after, answered a)
      → ((mid : AuthDb) × (h r mid ≡ (after, answered a)))
        ⊎ ((value : Text) × (i : SessionInfo) × (cookie srv.cookie_name r ≡ some value)
            × ((validate_session srv now value db).1 ≡ some i)
            × (h
                  (with_context i
                    (resolve_permissions
                      (validate_session srv now value db).0
                      i.user_id
                      i.tenant_id
                      i.is_platform_admin)
                    r)
                  (validate_session srv now value db).0
                ≡ (after, answered a)))
  unfolding session_middleware
  session_answered srv now e = elim (option_split (cookie srv.cookie_name r) _ _ _ e) [
    | inl (n, k) ↦ inl (db, k)
    | inr (value, c, k) ↦ elim (option_split (validate_session srv now value db).1 _ _ _ k) [
      | inl (n, k1) ↦ inl ((validate_session srv now value db).0, k1)
      | inr (i, v, k1) ↦ inr (value, i, c, v, k1)
    ]
  ]

  session_needed :
      (srv : Server) (permission : Text)
      → csrf_middleware srv (require_password_not_expired (require_permission permission h)) r db
        ≡ (after, answered a)
      → (i : SessionInfo) × (r.info ≡ some i)
  unfolding csrf_middleware require_password_not_expired require_permission
  session_needed srv permission e = elim (Option-cases r.info) [
    | inr (i, f) ↦ (i, f)
    | inl n ↦ absurd (let k = rw n at e in ground arith)
  ]

-- Where a request with no session in its context is answered through `tenantChain`, and not denied,
-- its cookie is a session that validates at that time; its method changes no state, or it carries a
-- token whose hash is the session's and an origin of the request's host; the permissions of the
-- session's user in its tenant have the one of the route; and the answer is the handler's for that
-- session and those permissions.
pub tenant_chain_guards :
    {A : Type 0} (srv : Server) (now : ℕ) (h : Handler A) (permission : Text) (r : Request)
    (db after : AuthDb) (a : A)
    → r.info ≡ none
    → tenant_chain srv now h permission r db ≡ (after, answered a)
    → (value : Text) × (i : SessionInfo) × (cookie srv.cookie_name r ≡ some value)
      × ((validate_session srv now value db).1 ≡ some i)
      × ((is_safe_method r.method ≡ true)
          ⊎ ((validate_csrf srv r i.csrf_secret_hash ≡ true) × (validate_origin srv r ≡ true)))
      × (has_permission
            (resolve_permissions
              (validate_session srv now value db).0
              i.user_id
              i.tenant_id
              i.is_platform_admin).1
            permission
          ≡ true)
      × (h
            (with_context i
              (resolve_permissions
                (validate_session srv now value db).0
                i.user_id
                i.tenant_id
                i.is_platform_admin)
              r)
            (validate_session srv now value db).0
          ≡ (after, answered a))
unfolding validate_csrf validate_origin
tenant_chain_guards srv now h permission r db after a fresh e =
    let guarded =
      csrf_middleware srv (require_password_not_expired (require_permission permission h)) in
    elim (session_answered guarded r db after a srv now e) [
      | inl (mid, k) ↦ absurd (let (i, f) = session_needed h r mid after a srv permission k in cc)
      | inr (value, i, c, v, k) ↦
          let mid = (validate_session srv now value db).0 in
          let resolved = resolve_permissions mid i.user_id i.tenant_id i.is_platform_admin in
          let (shape, k1) = csrf_answered _ (with_context i resolved r) mid after a srv i refl k in
          let k2 = password_answered _ (with_context i resolved r) mid after a i refl k1 in
          let (granted, k3) =
            permission_answered h (with_context i resolved r) mid after a permission k2 in
          (value, i, c, v, shape, granted, k3)
    ]
