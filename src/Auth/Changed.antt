-- ===== src/Auth/Changed.antt =====
-- What a change of the password does (internal/server/auth/handlers.go, argon2.go).
use lightai_go.Common.{
  ℕ, ◌≡◌, refl, ap, sym, ◌∙◌, Bool, true, false, not, ◌&&◌, ◌||◌, Option, none, some, List, [], ◌∷◌,
  ◌++◌, all, find, length, ltb, nat_eq, ◌==◌, if◌then◌else◌, inl, inr, Bool-cases, Option-cases,
  update_where,
}
use lightai_go.Text.{Text, text, text_eq, split}
use lightai_go.Auth.{Session, AuthDb, Server, find_session, hash_string}
use lightai_go.Auth.Sessions.{
  SessionInfo, is_present, is_live, has_id, revoked, revoke_user_sessions, validate_session,
}
use lightai_go.Auth.Histories.{Steps}
use lightai_go.Auth.Revocation.{is_revoked, Steps-revoked_lem, validate-revoked}
use lightai_go.Auth.Requests.{Request}
use lightai_go.Auth.Guards.{option_split, unless_not_answered}
use lightai_go.Auth.Middleware.{Reply, answered}
use lightai_go.Auth.Passwords.{
  hash_params, hash_password, verify_parts, verify_password, argon2_time, argon2_memory,
  argon2_threads, argon2_key_len,
}
use lightai_go.Auth.Account.{
  ChangePasswordRequest, is_password_of, set_password, change_password, handle_change_password,
}

revoke_one-id : (now : ℕ) (b : Bool) (r : Session) → (if b then revoked now r else r).id ≡ r.id
revoke_one-id now true r = refl
revoke_one-id now false r = refl

revoke_one :
    (now : ℕ) (b : Bool) (r : Session)
    → b ≡ true
    → is_present (if b && is_live r then revoked now r else r).revoked_at ≡ true
unfolding is_live is_present
revoke_one now false r h = absurd (cc)
revoke_one now true r h = elim (Option-cases r.revoked_at) [
  | inl e ↦ rw e refl
  | inr (t, e) ↦ rw e refl
]

pub revoke_live_makes :
    (key : Text) (now : ℕ) (p : Session → Bool) (rows : List Session) (s : Session)
    → find (has_id key) rows ≡ some s
    → p s ≡ true
    → is_revoked key (update_where (λ x. p x && is_live x) (revoked now) rows) ≡ true
unfolding is_revoked update_where
revoke_live_makes key now p [] s f h = absurd (cc)
revoke_live_makes key now p (r ∷ rows) s f h = elim (Bool-cases (r.id == key)) [
  | inl e ↦
      let found : some r ≡ some s = rw e at f in
      let same : r ≡ s = cc in
      let chosen : p r ≡ true = rw same h in
      let still : ((if p r && is_live r then revoked now r else r).id == key) ≡ true =
        rw (revoke_one-id now (p r && is_live r) r) e in
      rw still (revoke_one now (p r) r chosen)
  | inr e ↦
      let still : ((if p r && is_live r then revoked now r else r).id == key) ≡ false =
        rw (revoke_one-id now (p r && is_live r) r) e in
      rw still (revoke_live_makes key now p rows s (rw e at f) h)
]

changed_end :
    (srv : Server) (now : ℕ) (salt : Option (List ℕ)) (i : SessionInfo) (new_password : Text)
    (db after : AuthDb)
    → change_password srv now salt i new_password db ≡ (after, answered tt)
    → (mid : AuthDb) × (mid.sessions ≡ db.sessions)
      × (after ≡ revoke_user_sessions srv now i.user_id i.session_id mid)
unfolding change_password set_password
changed_end srv now salt i new_password db after e =
    elim (option_split (hash_password srv salt new_password) _ _ _ e) [
      | inl (n, k) ↦ absurd (cc)
      | inr (new_hash, f, k) ↦ (
        set_password i.user_id new_hash db,
        refl,
        sym (ap (λ (answer : AuthDb × Reply Unit). answer.0) k),
      )
    ]

-- Where a change of the password is answered, it has revoked the user's other sessions.
changed :
    (srv : Server) (now : ℕ) (salt : Option (List ℕ)) (body : Option ChangePasswordRequest)
    (r : Request) (db after : AuthDb) (i : SessionInfo)
    → r.info ≡ some i
    → handle_change_password srv now salt body r db ≡ (after, answered tt)
    → (mid : AuthDb) × (mid.sessions ≡ db.sessions)
      × (after ≡ revoke_user_sessions srv now i.user_id i.session_id mid)
unfolding handle_change_password
changed srv now salt body r db after i f e = elim (option_split r.info _ _ _ e) [
  | inl (n, k) ↦ absurd (cc)
  | inr (j, g, k) ↦
      let same : j ≡ i = cc in
      elim (option_split body _ _ _ k) [
        | inl (n, k1) ↦ absurd (cc)
        | inr (req, b, k1) ↦
            let (_, k2) =
              unless_not_answered (req.current_password == [] || req.new_password == []) _ _ _ db
                after tt k1 in
            let (_, k3) =
              unless_not_answered (ltb (length req.new_password) 8) _ _ _ db after tt k2 in
            elim (option_split (is_password_of srv j.user_id req.current_password db) _ _ _ k3) [
              | inl (n, k4) ↦ absurd (cc)
              | inr (true, p, k4) ↦
                  rw (← same) (changed_end srv now salt j req.new_password db after k4)
              | inr (false, p, k4) ↦ absurd (cc)
            ]
      ]
]

-- Once a change of the password is answered for a session, every other session of its user is valid
-- at no time and after no history of operations on the sessions.
pub handle_change_password-validate_session :
    (srv : Server) (now later : ℕ) (salt : Option (List ℕ)) (body : Option ChangePasswordRequest)
    (r : Request) (db after last : AuthDb) (i : SessionInfo) (session_id : Text) (s : Session)
    → r.info ≡ some i
    → handle_change_password srv now salt body r db ≡ (after, answered tt)
    → find_session (hash_string srv session_id) db ≡ some s
    → s.user_id ≡ i.user_id
    → (s.id == hash_string srv i.session_id) ≡ false
    → Steps srv after last
    → (validate_session srv later session_id last).1 ≡ none
unfolding revoke_user_sessions
handle_change_password-validate_session srv now later salt body r db after last i session_id s f e
      found own other run =
    let (mid, same, done) = changed srv now salt body r db after i f e in
    let key = hash_string srv session_id in
    let under : ((s.user_id == i.user_id) && not (has_id (hash_string srv i.session_id) s)) ≡ true =
      rw ((text_eq.equal_iff s.user_id i.user_id).1 own) (rw other refl) in
    let dead : is_revoked key after.sessions ≡ true = rw done (
      rw same (
        revoke_live_makes key now
          (λ x. x.user_id == i.user_id && not (has_id (hash_string srv i.session_id) x)) db.sessions
          s found under)) in
    validate-revoked srv later session_id last (Steps-revoked_lem key run dead)

-- Text without the separator
abbrev pub HasNo : ℕ → Text → Type 0
HasNo sep s = all (λ c. not (c == sep)) s ≡ true

split-none : (sep : ℕ) (s : Text) → HasNo sep s → split sep s ≡ s ∷ []
unfolding split
split-none sep [] h = refl
split-none sep (c ∷ s) h = elim (Bool-cases (c == sep)) [
  | inl e ↦ absurd (let k = rw e at h in cc)
  | inr e ↦ let rest : HasNo sep s = rw e at h in rw e (rw (split-none sep s rest) refl)
]

split-append : (sep : ℕ) (s t : Text) → HasNo sep s → split sep (s ++ sep ∷ t) ≡ s ∷ split sep t
unfolding split
split-append sep [] t h = rw ((nat_eq.equal_iff sep sep).1 refl) refl
split-append sep (c ∷ s) t h = elim (Bool-cases (c == sep)) [
  | inl e ↦ absurd (let k = rw e at h in cc)
  | inr e ↦ let rest : HasNo sep s = rw e at h in rw e (rw (split-append sep s t rest) refl)
]

params_lem : hash_params ≡ text "m=65536,t=3,p=4"
unfolding hash_params
params_lem = refl

split_hash :
    (salt hash : Text)
    → HasNo b'$' salt
    → HasNo b'$' hash
    → split b'$' (text "$argon2id$v=19$" ++ (hash_params ++ (b'$' ∷ (salt ++ (b'$' ∷ hash)))))
      ≡ [] ∷ text "argon2id" ∷ text "v=19" ∷ hash_params ∷ salt ∷ hash ∷ []
split_hash salt hash hs hh =
    let d : ℕ = b'$' in
    let params : HasNo d hash_params = rw params_lem refl in
    let tail = hash_params ++ (d ∷ (salt ++ (d ∷ hash))) in
    split-append d [] (text "argon2id" ++ (d ∷ (text "v=19" ++ (d ∷ tail)))) refl
    ∙ ap (λ (parts : List Text). [] ∷ parts)
        (split-append d (text "argon2id") (text "v=19" ++ (d ∷ tail)) refl
          ∙ ap (λ (parts : List Text). text "argon2id" ∷ parts)
              (split-append d (text "v=19") tail refl
                ∙ ap (λ (parts : List Text). text "v=19" ∷ parts)
                    (split-append d hash_params (salt ++ (d ∷ hash)) params
                      ∙ ap (λ (parts : List Text). hash_params ∷ parts)
                          (split-append d salt hash hs
                            ∙ ap (λ (parts : List Text). salt ∷ parts) (split-none d hash hh)))))

verify_at :
    (srv : Server) (password encoded a b c params salt hash : Text)
    → split b'$' encoded ≡ a ∷ b ∷ c ∷ params ∷ salt ∷ hash ∷ []
    → verify_password srv password encoded ≡ verify_parts srv password params salt hash
unfolding verify_password
verify_at srv password encoded a b c params salt hash e = rw (e, verify_password) refl

-- A password verifies against each hash that is made of it, if base64 decodes what it encodes and
-- encodes without a dollar sign, if the scan of the parameters reads the numbers, and if a key of
-- Argon2 has the length asked for.
pub verify_password-hash_password :
    (srv : Server) (salt : List ℕ) (password encoded : Text)
    → ((bytes : List ℕ) → srv.library.base64_decode (srv.library.base64_encode bytes) ≡ some bytes)
    → ((bytes : List ℕ) → HasNo b'$' (srv.library.base64_encode bytes))
    → srv.library.scan_params (text "m=65536,t=3,p=4") ≡ some (65536, (3, 4))
    → ((p : Text) (s : List ℕ) (time memory threads n : ℕ)
        → length (srv.library.argon2_key p s time memory threads n) ≡ n)
    → hash_password srv (some salt) password ≡ some encoded
    → verify_password srv password encoded ≡ some true
unfolding hash_password verify_parts
verify_password-hash_password srv salt password encoded decodes plain scans sized e =
    let key =
      srv.library.argon2_key password salt argon2_time argon2_memory argon2_threads
        argon2_key_len in
    let made : text "$argon2id$v=19$"
          ++ (hash_params
              ++ (b'$'
                  ∷ (srv.library.base64_encode salt ++ (b'$' ∷ srv.library.base64_encode key))))
        ≡ encoded =
      cc in
    rw (← made) (
      verify_at srv password _ _ _ _ hash_params (srv.library.base64_encode salt)
        (srv.library.base64_encode key)
        (split_hash (srv.library.base64_encode salt) (srv.library.base64_encode key) (plain salt)
          (plain key))
      ∙ rw params_lem (
          rw scans (
            rw (decodes salt) (
              rw (decodes key) (
                rw (sized password salt argon2_time argon2_memory argon2_threads argon2_key_len)
                  (ap (λ (b : Bool). some b) ((text_eq.equal_iff key key).1 refl)))))))
