-- ===== src/Control/Sweeping.antt =====
-- What the sweep of a heartbeat does to instances whose task has timed out.
use lightai_go.Common.{
  ℕ, String, ◌≡◌, refl, ◌≢◌, Bool, true, false, not, ◌&&◌, List, [], ◌∷◌, arith, inl, inr, any, All,
  All-update_where, Bool-cases, contains, update_where, eq_iff, string_eq, ◌==◌,
}
use lightai_go.Control.{InstanceState, Instance, Task, Db, is_timed_out, is_failed}
use lightai_go.Control.Claim.{
  sweep_tasks, timed_out_instances, sweep_instances, sweep_expired_tasks,
}

-- A timed-out task of the node for the instance, of any type.
abbrev pub timed_out_for : String → String → Task → Bool
timed_out_for node id t = is_timed_out t.status && t.node_id == node && t.instance_id == id

timed_out_stays :
    (node id : String) (now : ℕ) (ts : List Task)
    → any (timed_out_for node id) ts ≡ true
    → any (timed_out_for node id) (sweep_tasks node now ts) ≡ true
unfolding sweep_tasks update_where
timed_out_stays node id now [] h = h
timed_out_stays node id now (t ∷ ts) h = ground (arith, timed_out_stays node id now ts)

instance_listed :
    (node id : String) (ts : List Task)
    → id ≢ ""
    → any (timed_out_for node id) ts ≡ true
    → contains (timed_out_instances node ts) id ≡ true
unfolding timed_out_instances
instance_listed node id [] ne h = h
instance_listed node id (t ∷ ts) ne h =
    ground (arith, instance_listed node id ts ne, eq_iff t.instance_id id, eq_iff t.instance_id "")

All-unit : (is : List Instance) → All (λ i. Unit {0}) is
All-unit [] = tt
All-unit (i ∷ is) = (tt, All-unit is)

abbrev pub is_not_failed : String → Instance → Bool
is_not_failed id i = i.id == id && not (is_failed i.actual_state)

none_alive :
    (id : String) (is : List Instance)
    → All (λ i. i.id ≡ id → i.actual_state ≡ InstanceState.failed) is
    → any (is_not_failed id) is ≡ false
none_alive id [] h = refl
none_alive id (i ∷ is) h = elim (Bool-cases (i.id == id)) [
  | inl e ↦
      let dead = h.0 ((eq_iff i.id id).0 e) in
      rw (dead, is_not_failed) (ground (arith, none_alive id is h.1))
  | inr e ↦ ground (arith, none_alive id is h.1)
]

each_row_failed :
    (db : Db) (node id : String) (now : ℕ)
    → id ≢ ""
    → any (timed_out_for node id) db.tasks ≡ true
    → All
        (λ i. i.id ≡ id → i.actual_state ≡ InstanceState.failed)
        (sweep_expired_tasks db node now).instances
unfolding sweep_expired_tasks sweep_instances
each_row_failed db node id now ne h =
    All-update_where (λ (i : Instance). Unit {0}) _ _ _ db.instances (λ i _ _ _. refl)
      (λ i _ missed same. absurd (
        let listed =
          instance_listed node id (sweep_tasks node now db.tasks) ne
            (timed_out_stays node id now db.tasks h) in
        let unlisted = rw same at missed in cc))
      (All-unit db.instances)

-- Once a task of an instance, whose id is not empty, has timed out on a node, whatever the task was
-- for, the sweep of each later heartbeat of that node leaves no row of the instance in any state but
-- `failed`.
pub sweep_fails_instance :
    (db : Db) (node id : String) (now : ℕ)
    → id ≢ ""
    → any (timed_out_for node id) db.tasks ≡ true
    → any (is_not_failed id) (sweep_expired_tasks db node now).instances ≡ false
sweep_fails_instance db node id now ne h = none_alive id _ (each_row_failed db node id now ne h)
