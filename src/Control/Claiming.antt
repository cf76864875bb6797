-- ===== src/Control/Claiming.antt =====
-- Which tasks a heartbeat hands out.
use mathlib.Core.List.{Perm}
use mathlib.Core.List.Perm
use lightai_go.Common.{
  ◌⊎◌, ℕ, zero, suc, ◌≤◌, String, ◌≡◌, refl, ap, ◌∙◌, Bool, true, false, List, [], ◌∷◌, ◌++◌, map,
  arith, inl, inr, leb, take, length, length-take_le, filter_by, All, All-take, Bool-cases,
  contains, update_where, string_eq,
}
use lightai_go.Control.{Task, Db}
use lightai_go.Control.Claim.{
  is_overdue, sweep_tasks, insert_by_age, order_by_age, max_tasks, claimable, claim_task,
  claim_tasks, is_fetched, fetch_claimed, claim_and_return_tasks,
}

abbrev pub drop {ℓ} : {A : Type ℓ} → ℕ → List A → List A
drop zero xs = xs
drop (suc n) [] = []
drop (suc n) (x ∷ xs) = drop n xs

abbrev pub NotOlder : Task → List Task → Type 0
NotOlder t us = All (λ u. t.created_at ≤ u.created_at) us

abbrev IsByAge : List Task → Type 0
IsByAge [] = Unit
IsByAge (t ∷ ts) = NotOlder t ts × IsByAge ts

NotOlder-trans :
    (t u : Task) (us : List Task) → t.created_at ≤ u.created_at → NotOlder u us → NotOlder t us
NotOlder-trans t u [] h k = tt
NotOlder-trans t u (v ∷ us) h k = (omega arith, NotOlder-trans t u us h k.1)

NotOlder-insert :
    (s t : Task) (us : List Task)
    → s.created_at ≤ t.created_at
    → NotOlder s us
    → NotOlder s (insert_by_age t us)
unfolding insert_by_age
NotOlder-insert s t [] h k = (h, tt)
NotOlder-insert s t (u ∷ us) h k = elim (Bool-cases (leb t.created_at u.created_at)) [
  | inl e ↦ rw e (h, k)
  | inr e ↦ rw e (k.0, NotOlder-insert s t us h k.1)
]

insert_by_age-IsByAge : (t : Task) (us : List Task) → IsByAge us → IsByAge (insert_by_age t us)
unfolding insert_by_age
insert_by_age-IsByAge t [] h = (tt, tt)
insert_by_age-IsByAge t (u ∷ us) h = elim (Bool-cases (leb t.created_at u.created_at)) [
  | inl e ↦
      let le : t.created_at ≤ u.created_at = ground arith in
      rw e ((le, NotOlder-trans t u us le h.0), h)
  | inr e ↦
      let le : u.created_at ≤ t.created_at = ground arith in
      rw e (NotOlder-insert u t us le h.0, insert_by_age-IsByAge t us h.1)
]

pub order_by_age-IsByAge : (ts : List Task) → IsByAge (order_by_age ts)
unfolding order_by_age
order_by_age-IsByAge [] = tt
order_by_age-IsByAge (t ∷ ts) = insert_by_age-IsByAge t (order_by_age ts) (order_by_age-IsByAge ts)

insert_by_age-perm : (t : Task) (us : List Task) → Perm (insert_by_age t us) (t ∷ us)
unfolding insert_by_age
insert_by_age-perm t [] = Perm.refl (t ∷ [])
insert_by_age-perm t (u ∷ us) = elim (Bool-cases (leb t.created_at u.created_at)) [
  | inl e ↦ rw e (Perm.refl (t ∷ u ∷ us))
  | inr e ↦ rw e (Perm.trans (Perm.cons u (insert_by_age-perm t us)) (Perm.swap t u us))
]

pub order_by_age-perm : (ts : List Task) → Perm (order_by_age ts) ts
unfolding order_by_age
order_by_age-perm [] = Perm.refl []
order_by_age-perm (t ∷ ts) =
    Perm.trans (insert_by_age-perm t (order_by_age ts)) (Perm.cons t (order_by_age-perm ts))

pub take-drop : (n : ℕ) (ts : List Task) → take n ts ++ drop n ts ≡ ts
take-drop zero ts = refl
take-drop (suc n) [] = refl
take-drop (suc n) (t ∷ ts) = ap (λ (us : List Task). t ∷ us) (take-drop n ts)

NotOlder-drop : (t : Task) (n : ℕ) (us : List Task) → NotOlder t us → NotOlder t (drop n us)
NotOlder-drop t zero us h = h
NotOlder-drop t (suc n) [] h = tt
NotOlder-drop t (suc n) (u ∷ us) h = NotOlder-drop t n us h.1

pub taken_first :
    (n : ℕ) (ts : List Task) → IsByAge ts → All (λ t. NotOlder t (drop n ts)) (take n ts)
taken_first zero ts h = tt
taken_first (suc n) [] h = tt
taken_first (suc n) (t ∷ ts) h = (NotOlder-drop t n ts h.0, taken_first n ts h.1)

pub length_full : (n : ℕ) (ts : List Task) → (drop n ts ≡ []) ⊎ (length (take n ts) ≡ n)
length_full zero ts = inr refl
length_full (suc n) [] = inl refl
length_full (suc n) (t ∷ ts) = elim (length_full n ts) [ inl e ↦ inl e | inr e ↦ inr (ap suc e) ]

All-insert :
    (P : Task → Type 0) (t : Task) (us : List Task) → P t → All P us → All P (insert_by_age t us)
unfolding insert_by_age
All-insert P t [] p h = (p, tt)
All-insert P t (u ∷ us) p h = elim (Bool-cases (leb t.created_at u.created_at)) [
  | inl e ↦ rw e (p, h)
  | inr e ↦ rw e (h.0, All-insert P t us p h.1)
]

All-order : (P : Task → Type 0) (ts : List Task) → All P ts → All P (order_by_age ts)
unfolding order_by_age
All-order P [] h = tt
All-order P (t ∷ ts) h = All-insert P t (order_by_age ts) h.0 (All-order P ts h.1)

All-filter_self : (p : Task → Bool) (ts : List Task) → All (λ t. p t ≡ true) (filter_by p ts)
All-filter_self p [] = tt
All-filter_self p (t ∷ ts) = elim (Bool-cases (p t)) [
  | inl e ↦ rw e (e, All-filter_self p ts)
  | inr e ↦ rw e (All-filter_self p ts)
]

update_nothing :
    (p : Task → Bool) (f : Task → Task) (ts : List Task)
    → All (λ t. p t ≡ false) ts
    → update_where p f ts ≡ ts
unfolding update_where
update_nothing p f [] h = refl
update_nothing p f (t ∷ ts) h = ground (arith, update_nothing p f ts h.1)

All-of_any : (ts : List Task) → All (λ t. contains [] t.id ≡ false) ts
All-of_any [] = tt
All-of_any (t ∷ ts) = (refl, All-of_any ts)

claim_nothing :
    (node agent : String) (now : ℕ) (ts : List Task)
    → claimable node ts ≡ []
    → claim_tasks node agent now ts ≡ ts
unfolding claim_tasks
claim_nothing node agent now ts empty =
    ap
      (λ (c : List Task).
        update_where (λ t. contains (map (λ (u : Task). u.id) c) t.id) (claim_task agent now) ts)
      empty
    ∙ update_nothing _ (claim_task agent now) ts (All-of_any ts)

sweep_nothing :
    (node : String) (now : ℕ) (ts : List Task)
    → All (λ t. is_overdue node now t ≡ false) ts
    → sweep_tasks node now ts ≡ ts
unfolding sweep_tasks
sweep_nothing node now ts fresh = update_nothing (is_overdue node now) _ ts fresh

-- Every task in a heartbeat's answer stands on that node, is claimed by that agent and was claimed
-- in this very second; there are at most ten.
pub claim_given :
    (db : Db) (node agent : String) (now : ℕ)
    → let given = (claim_and_return_tasks db node agent now).1 in
      All (λ t. is_fetched node agent now t ≡ true) given × (length given ≤ 10)
unfolding claim_and_return_tasks fetch_claimed
claim_given db node agent now =
    let table = claim_tasks node agent now (sweep_tasks node now db.tasks) in
    let queue = order_by_age (filter_by (is_fetched node agent now) table) in
    (
      All-take (λ t. is_fetched node agent now t ≡ true) max_tasks queue
          (All-order (λ t. is_fetched node agent now t ≡ true) _
            (All-filter_self (is_fetched node agent now) table)),
      length-take_le max_tasks queue,
    )

-- Where the node's queue is empty and nothing is overdue, a second heartbeat of the same agent in
-- the same second is given again all that the first was given.
pub claim_same_second :
    (db : Db) (node agent : String) (now : ℕ)
    → claimable node (claim_and_return_tasks db node agent now).0.tasks ≡ []
    → All (λ t. is_overdue node now t ≡ false) (claim_and_return_tasks db node agent now).0.tasks
    → (claim_and_return_tasks (claim_and_return_tasks db node agent now).0 node agent now).1
      ≡ (claim_and_return_tasks db node agent now).1
unfolding claim_and_return_tasks
claim_same_second db node agent now empty fresh =
    let once = claim_tasks node agent now (sweep_tasks node now db.tasks) in
    rw (sweep_nothing node now once fresh)
      (ap (fetch_claimed node agent now) (claim_nothing node agent now once empty))
