-- ===== src/Control/Queue.antt =====
-- What a heartbeat (internal/server/api/agent_handlers.go) claims of its node's queue.
use mathlib.Core.List.{Perm}
use mathlib.Core.List.Perm
use lightai_go.Common.{
  ◌⊎◌, ℕ, ◌+◌, ◌≤◌, String, ◌≡◌, refl, ap, ◌∙◌, sym, subst, Bool, true, false, not, ◌&&◌, some,
  List, [], ◌∷◌, ◌++◌, map, arith, inl, inr, length, leb, take, length-take_le, filter_by, find,
  All, All-append, Bool-cases, contains, count_by, count_by-append, count_by-update_where,
  count_by-filter_by, update_where, string_eq, eq_refl, ◌==◌,
}
use lightai_go.Control.{timed_out, Node, Task, Db}
use lightai_go.Control.Claim.{
  is_overdue, sweep_expired_tasks, claim_and_return_tasks, sweep_tasks, insert_by_age, order_by_age,
  max_tasks, is_waiting, claimable, claim_task, claim_tasks,
}
use lightai_go.Control.Nodes.{mark_online, handle_heartbeat}
use lightai_go.Control.Claiming.{
  NotOlder, drop, take-drop, order_by_age-perm, order_by_age-IsByAge, taken_first, length_full,
}

-- The primary key of the table: no two tasks have one id.
abbrev pub IsKeyed : List Task → Type 0
IsKeyed tasks = (id : String) → count_by (λ (t : Task). t.id == id) tasks ≤ 1

-- The claim takes the tasks by their ids.
abbrev pub is_taken : List Task → Task → Bool
is_taken taken t = contains (map (λ (u : Task). u.id) taken) t.id

abbrev is_left : List Task → Task → Bool
is_left taken t = not (is_taken taken t)

count_by-insert :
    (q : Task → Bool) (t : Task) (us : List Task)
    → count_by q (insert_by_age t us) ≡ count_by q (t ∷ us)
unfolding insert_by_age
count_by-insert q t [] = refl
count_by-insert q t (u ∷ us) = ground (arith, count_by-insert q t us)

count_by-order : (q : Task → Bool) (ts : List Task) → count_by q (order_by_age ts) ≡ count_by q ts
unfolding order_by_age
count_by-order q [] = refl
count_by-order q (t ∷ ts) =
    let one = count_by-insert q t (order_by_age ts) in
    let rest = count_by-order q ts in ground arith

filter_by-insert :
    (q : Task → Bool) (t : Task) (us : List Task)
    → Perm (filter_by q (insert_by_age t us)) (filter_by q (t ∷ us))
unfolding insert_by_age
filter_by-insert q t [] = Perm.refl _
filter_by-insert q t (u ∷ us) = elim (Bool-cases (leb t.created_at u.created_at)) [
  | inl e ↦ rw e (Perm.refl _)
  | inr e ↦
      let rest = filter_by-insert q t us in
      rw e (elim (Bool-cases (q u)) [
        | inr f ↦ rw f rest
        | inl f ↦ rw f (elim (Bool-cases (q t)) [
          | inr g ↦ rw g (Perm.cons u (rw g at rest))
          | inl g ↦
              let both : Perm (filter_by q (insert_by_age t us)) (t ∷ filter_by q us) =
                rw g at rest in
              rw g (Perm.trans (Perm.cons u both) (Perm.swap t u (filter_by q us)))
        ])
      ])
]

filter_by-order :
    (q : Task → Bool) (ts : List Task) → Perm (filter_by q (order_by_age ts)) (filter_by q ts)
unfolding order_by_age
filter_by-order q [] = Perm.refl []
filter_by-order q (t ∷ ts) =
    Perm.trans (filter_by-insert q t (order_by_age ts)) (elim (Bool-cases (q t)) [
      | inl e ↦ rw e (Perm.cons t (filter_by-order q ts))
      | inr e ↦ rw e (filter_by-order q ts)
    ])

All-inserted :
    (P : Task → Type 0) (t : Task) (us : List Task) → All P (insert_by_age t us) → P t × All P us
unfolding insert_by_age
All-inserted P t [] h = h
All-inserted P t (u ∷ us) h = elim (Bool-cases (leb t.created_at u.created_at)) [
  | inl e ↦ (rw e at h)
  | inr e ↦
      let k : P u × All P (insert_by_age t us) = rw e at h in
      let (p, rest) = All-inserted P t us k.1 in (p, (k.0, rest))
]

All-ordered : (P : Task → Type 0) (ts : List Task) → All P (order_by_age ts) → All P ts
unfolding order_by_age
All-ordered P [] h = tt
All-ordered P (t ∷ ts) h =
    let (p, rest) = All-inserted P t (order_by_age ts) h in (p, All-ordered P ts rest)

-- Each task of a part of the taken ones is taken.
all_taken :
    (taken ts : List Task)
    → ((id : String)
        → contains (map (λ (u : Task). u.id) ts) id ≡ true
        → contains (map (λ (u : Task). u.id) taken) id ≡ true)
    → All (λ t. is_taken taken t ≡ true) ts
all_taken taken [] h = tt
all_taken taken (t ∷ ts) h =
    (h t.id (rw (eq_refl t.id) refl), all_taken taken ts (λ id k. h id (ground arith)))

not_taken :
    (ts : List Task) (id : String)
    → count_by (λ (t : Task). t.id == id) ts ≡ 0
    → contains (map (λ (u : Task). u.id) ts) id ≡ false
not_taken [] id h = refl
not_taken (t ∷ ts) id h = ground (arith, not_taken ts id)

-- Where no id is in both parts of a queue, none of the second part is taken.
all_left :
    (taken ts : List Task)
    → ((id : String)
        → count_by (λ (t : Task). t.id == id) taken + count_by (λ (t : Task). t.id == id) ts ≤ 1)
    → filter_by (is_left taken) ts ≡ ts
all_left taken [] h = refl
all_left taken (t ∷ ts) h =
    let same = eq_refl t.id in
    let here = h t.id in
    let none_here : count_by (λ (u : Task). u.id == t.id) taken ≡ 0 = ground arith in
    let rest = all_left taken ts (λ id. let k = h id in ground arith) in
    rw (not_taken taken t.id none_here) (ap (λ (us : List Task). t ∷ us) rest)

filter_by-none :
    (q : Task → Bool) (ts : List Task) → All (λ t. q t ≡ false) ts → filter_by q ts ≡ []
filter_by-none q [] h = refl
filter_by-none q (t ∷ ts) h = ground (arith, filter_by-none q ts h.1)

filter_by-append :
    (q : Task → Bool) (ts us : List Task)
    → filter_by q (ts ++ us) ≡ filter_by q ts ++ filter_by q us
filter_by-append q [] us = refl
filter_by-append q (t ∷ ts) us = ground (arith, filter_by-append q ts us)

-- The tasks that still wait after the claim are the waiting ones that are not taken.
still_waiting :
    (node agent : String) (now : ℕ) (taken ts : List Task)
    → filter_by (is_waiting node) (update_where (is_taken taken) (claim_task agent now) ts)
      ≡ filter_by (is_left taken) (filter_by (is_waiting node) ts)
unfolding update_where claim_task
still_waiting node agent now taken [] = refl
still_waiting node agent now taken (t ∷ ts) =
    let rest = still_waiting node agent now taken ts in ground arith

module _ (node : String) (tasks : List Task) where
  abbrev waiting : List Task
  waiting = filter_by (is_waiting node) tasks

  abbrev first : List Task
  first = take max_tasks (order_by_age waiting)

  abbrev later : List Task
  later = drop max_tasks (order_by_age waiting)

  -- The waiting tasks that are not taken
  abbrev left : List Task
  left = filter_by (is_left first) waiting

  first_taken : All (λ t. is_left first t ≡ false) first
  first_taken = not_left first (all_taken first first (λ id k. k))
    where
      not_left :
          (ts : List Task)
          → All (λ t. is_taken first t ≡ true) ts
          → All (λ t. is_left first t ≡ false) ts
      not_left [] h = tt
      not_left (t ∷ ts) h = (rw h.0 refl, not_left ts h.1)

  left-perm : IsKeyed tasks → Perm left later
  left-perm keyed =
      let apart = all_left first later (λ id.
        let whole = count_by-order (λ (t : Task). t.id == id) waiting in
        let split = count_by-append (λ (t : Task). t.id == id) first later in
        let joined =
          ap (count_by (λ (t : Task). t.id == id)) (take-drop max_tasks (order_by_age waiting)) in
        omega (
          arith,
          whole,
          split,
          joined,
          keyed id,
          count_by-filter_by (λ (t : Task). t.id == id) (is_waiting node) tasks,
        )) in
      let parts : filter_by (is_left first) (first ++ later) ≡ later =
        filter_by-append (is_left first) first later
        ∙ rw (filter_by-none (is_left first) first first_taken) apart in
      let queue : filter_by (is_left first) (order_by_age waiting) ≡ later =
        ap (filter_by (is_left first)) (sym (take-drop max_tasks (order_by_age waiting))) ∙ parts in
      Perm.symm
        (subst (λ (ts : List Task). Perm ts left) queue (filter_by-order (is_left first) waiting))

  taken_and_left : IsKeyed tasks → Perm (first ++ left) waiting
  taken_and_left keyed =
      Perm.trans (Perm.append_left first (left-perm keyed))
        (rw (take-drop max_tasks (order_by_age waiting)) (order_by_age-perm waiting))

  -- What holds of the later tasks of the queue holds of those that are left.
  left_later : (P : Task → Type 0) → All P later → All P left
  left_later P h =
      let Q : Task → Type 0 = λ t. (is_left first t ≡ false) ⊎ P t in
      let queue : All Q (order_by_age waiting) =
        subst (All Q) (take-drop max_tasks (order_by_age waiting))
          (All-append Q first later (lefts first first_taken) (rights later h)) in
      chosen waiting (All-ordered Q waiting queue)
    where
      lefts :
          (ts : List Task)
          → All (λ t. is_left first t ≡ false) ts
          → All (λ t. (is_left first t ≡ false) ⊎ P t) ts
      lefts [] k = tt
      lefts (t ∷ ts) k = (inl k.0, lefts ts k.1)

      rights : (ts : List Task) → All P ts → All (λ t. (is_left first t ≡ false) ⊎ P t) ts
      rights [] k = tt
      rights (t ∷ ts) k = (inr k.0, rights ts k.1)

      chosen :
          (ts : List Task)
          → All (λ t. (is_left first t ≡ false) ⊎ P t) ts
          → All P (filter_by (is_left first) ts)
      chosen [] k = tt
      chosen (t ∷ ts) (inl e, k) = rw e (chosen ts k)
      chosen (t ∷ ts) (inr p, k) = elim (Bool-cases (is_left first t)) [
        | inl e ↦ rw e (p, chosen ts k)
        | inr e ↦ rw e (chosen ts k)
      ]

  left-NotOlder : All (λ t. NotOlder t left) first
  left-NotOlder =
      each first (taken_first max_tasks (order_by_age waiting) (order_by_age-IsByAge waiting))
    where
      each : (ts : List Task) → All (λ t. NotOlder t later) ts → All (λ t. NotOlder t left) ts
      each [] h = tt
      each (t ∷ ts) h = (left_later (λ u. t.created_at ≤ u.created_at) h.0, each ts h.1)

  none_left : later ≡ [] → left ≡ []
  none_left e = nothing left (left_later (λ t. ⊥) (rw e tt))
    where
      nothing : (ts : List Task) → All (λ t. ⊥) ts → ts ≡ []
      nothing [] h = refl
      nothing (t ∷ ts) h = absurd (h.0)

-- The waiting tasks of a table in two parts, those that are claimed and the ones left.
abbrev pub IsOldestFirst : String → List Task → List Task → List Task → Type 0
IsOldestFirst node tasks taken left =
    Perm (taken ++ left) (filter_by (is_waiting node) tasks)
    × All (λ t. NotOlder t left) taken
    × (length taken ≤ 10)
    × ((left ≡ []) ⊎ (length taken ≡ 10))

claim_tasks-IsOldestFirst :
    (node agent : String) (now : ℕ) (tasks : List Task)
    → IsKeyed tasks
    → (taken : List Task) × (claim_tasks node agent now tasks
        ≡ update_where (is_taken taken) (claim_task agent now) tasks)
      × IsOldestFirst node tasks taken
          (filter_by (is_waiting node) (claim_tasks node agent now tasks))
unfolding claim_tasks claimable
claim_tasks-IsOldestFirst node agent now tasks keyed =
    rw (still_waiting node agent now (first node tasks) tasks) (
      first node tasks,
      refl,
      (
        taken_and_left node tasks keyed,
        left-NotOlder node tasks,
        length-take_le max_tasks (order_by_age (waiting node tasks)),
        elim (length_full max_tasks (order_by_age (waiting node tasks))) [
          | inl e ↦ inl (none_left node tasks e)
          | inr e ↦ inr e
        ],
      ),
    )

sweep_tasks-IsKeyed :
    (node : String) (now : ℕ) (tasks : List Task)
    → IsKeyed tasks
    → IsKeyed (sweep_tasks node now tasks)
unfolding sweep_tasks
sweep_tasks-IsKeyed node now tasks keyed id =
    let kept =
      count_by-update_where (λ (t : Task). t.id == id) (is_overdue node now)
        (λ t. record t { status = timed_out; finished_at = some now }) tasks (λ t p q. q) in
    omega (arith, kept, keyed id)

heartbeat_tasks :
    (db : Db) (node agent : String) (now : ℕ) (n : Node)
    → (node == "") ≡ false
    → find (λ (m : Node). m.id == node) db.nodes ≡ some n
    → (not (n.agent_id == "") && not (n.agent_id == agent)) ≡ false
    → (handle_heartbeat db node agent now).0.tasks
      ≡ claim_tasks node agent now (sweep_tasks node now db.tasks)
unfolding handle_heartbeat claim_and_return_tasks sweep_expired_tasks mark_online
heartbeat_tasks db node agent now n named found matches = rw named (rw found (rw matches refl))

-- A heartbeat of a registered node by its agent, on a table where no two tasks have one id, claims
-- some of the node's tasks that are pending after the sweep and no other task: it claims at most ten,
-- exactly ten where any of them is still pending after it, and none of those is older than one that
-- it claims. The claimed and the pending ones are together those that were pending.
pub handle_heartbeat-IsOldestFirst :
    (db : Db) (node agent : String) (now : ℕ) (n : Node)
    → (node == "") ≡ false
    → find (λ (m : Node). m.id == node) db.nodes ≡ some n
    → (not (n.agent_id == "") && not (n.agent_id == agent)) ≡ false
    → IsKeyed db.tasks
    → let swept = sweep_tasks node now db.tasks in
      let after = (handle_heartbeat db node agent now).0.tasks in
      (taken : List Task) × (after ≡ update_where (is_taken taken) (claim_task agent now) swept)
      × IsOldestFirst node swept taken (filter_by (is_waiting node) after)
handle_heartbeat-IsOldestFirst db node agent now n named found matches keyed =
    rw (heartbeat_tasks db node agent now n named found matches) (
      claim_tasks-IsOldestFirst node agent now (sweep_tasks node now db.tasks)
        (sweep_tasks-IsKeyed node now db.tasks keyed))
