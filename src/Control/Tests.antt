-- ===== src/Control/Tests.antt =====
-- The control plane's theorems at concrete tables.
use lightai_go.Common.{
  ◌≡◌, ◌≢◌, refl, false, List, [], ◌∷◌, arith, map, any, All, update_where, string_eq, Bool-cases,
  inl, inr, subst, count_by, ◌≤◌, ◌==◌, filter_by,
}
use lightai_go.Control.{
  timed_out, Task, Db, Caller, insert_lease, insert_instance, insert_task, insert_group,
  insert_plan, transaction,
}
use lightai_go.Control.Lifecycle.{
  deployment_starting, conflict, started, active_deployment_run, start_statements,
  handle_start_deployment,
}
use lightai_go.Control.Steps.{here, next, start, initial}
use lightai_go.Control.Claim.{
  is_waiting, claim_task, claimable, claim_tasks, claim_and_return_tasks, sweep_tasks,
  sweep_expired_tasks, is_overdue,
}
use lightai_go.Control.Result.{handle_task_result, apply_report, task_already_terminal}
use lightai_go.Control.Nodes.{handle_heartbeat}
use lightai_go.Control.Claiming.{claim_same_second}
use lightai_go.Control.Queue.{IsKeyed, is_taken, IsOldestFirst, handle_heartbeat-IsOldestFirst}
use lightai_go.Control.Reporting.{is_live_for, stop_report_releases, handle_task_result_once}
use lightai_go.Control.Conflicts.{held_gpu_refuses_start}
use lightai_go.Control.Stopping.{IsAnswered, handle_stop_lem}
use lightai_go.Control.Expiry.{heartbeat_frees_no_lease}
use lightai_go.Control.Sweeping.{is_not_failed, sweep_fails_instance}
use lightai_go.Control.Exclusive.{IsExclusive, Reach-IsExclusive}
use lightai_go.Control.Starting.{run, IsAtomic, run-IsAtomic, run_bars_run}
use lightai_go.Control.Samples.{
  some_task, overdue_task, start_task, success_report, with_task, never, preflight, ids, later_ids,
  ready, node_1,
}

abbrev after_start : Db
after_start = (handle_start_deployment never "d1" preflight ids 100 initial).0

abbrev ready_started : Db
ready_started = (handle_start_deployment never "d1" preflight ids 100 ready).0

initial-IsExclusive : IsExclusive initial
initial-IsExclusive gpu = omega arith

Reach-IsExclusive_example : IsExclusive after_start
Reach-IsExclusive_example =
    Reach-IsExclusive initial-IsExclusive (next here (start never "d1" preflight ids 100))

run-IsAtomic_example : IsAtomic never "d1" preflight ids 100 ready
run-IsAtomic_example = run-IsAtomic never "d1" preflight ids 100 ready

ready_starts : (run never "d1" preflight ids 100 ready).1 ≡ started
unfolding handle_start_deployment transaction start_statements active_deployment_run insert_instance
    insert_lease insert_task insert_group insert_plan
ready_starts = refl

run_bars_run_example :
    handle_start_deployment never "d1" preflight later_ids 101
      (run never "d1" preflight ids 100 ready).0
    ≡ ((run never "d1" preflight ids 100 ready).0, conflict deployment_starting)
run_bars_run_example =
    run_bars_run never "d1" preflight ids 100 never preflight later_ids 101 ready ready_starts

stop_report_releases_example :
    any
      (is_live_for "i9")
      (handle_task_result (with_task some_task) "k9" success_report 60).0.leases
    ≡ false
unfolding handle_task_result apply_report
stop_report_releases_example =
    stop_report_releases (with_task some_task) "k9" success_report 60 some_task refl (λ h. cc) refl
      refl refl refl

abbrev after_report : Db
after_report = (handle_task_result (with_task some_task) "k9" success_report 60).0

handle_task_result_once_example :
    handle_task_result after_report "k9" success_report 61 ≡ (after_report, task_already_terminal)
unfolding handle_task_result
handle_task_result_once_example =
    handle_task_result_once (with_task some_task) "k9" success_report success_report 60 61 refl refl

one_lease-IsExclusive : IsExclusive (with_task some_task)
one_lease-IsExclusive gpu = ground arith

held_gpu_refuses_start_example :
    ((handle_start_deployment never "d1" preflight ids 100 (with_task some_task)).1 ≢ started)
    × ((handle_start_deployment never "d1" preflight ids 100 (with_task some_task)).0
        ≡ with_task some_task)
held_gpu_refuses_start_example =
    held_gpu_refuses_start never "d1" preflight ids 100 (with_task some_task) "g1"
      one_lease-IsExclusive refl refl

abbrev caller : Caller
caller = record { user_id = "u1"; tenant_id = "t1"; is_platform_admin = false; permissions = [] }

handle_stop_lem_example : IsAnswered "o2" (λ i. "k2") 200 caller "d1" ready_started
handle_stop_lem_example = handle_stop_lem "o2" (λ i. "k2") 200 caller "d1" ready_started

abbrev second_task : Task
second_task = record start_task { id = "k8"; created_at = 40 }

abbrev queued : Db
queued = record ready { tasks = some_task ∷ second_task ∷ [] }

queued-IsKeyed : IsKeyed queued.tasks
queued-IsKeyed id = elim (Bool-cases ("k9" == id)) [
  | inl e ↦
      let same : "k9" ≡ id = (string_eq.equal_iff _ _).0 e in
      subst (λ i. count_by (λ (t : Task). t.id == i) queued.tasks ≤ 1) same (omega arith)
  | inr e ↦ rw e (ground arith)
]

handle_heartbeat-IsOldestFirst_example :
    (taken : List Task) × ((handle_heartbeat queued "n1" "a1" 60).0.tasks
      ≡ update_where (is_taken taken) (claim_task "a1" 60) (sweep_tasks "n1" 60 queued.tasks))
    × IsOldestFirst "n1"
        (sweep_tasks "n1" 60 queued.tasks)
        taken
        (filter_by (is_waiting "n1") (handle_heartbeat queued "n1" "a1" 60).0.tasks)
handle_heartbeat-IsOldestFirst_example =
    handle_heartbeat-IsOldestFirst queued "n1" "a1" 60 node_1 refl refl refl queued-IsKeyed

abbrev polled : Db × List Task
polled = claim_and_return_tasks (with_task some_task) "n1" "a1" 60

queue_empty : claimable "n1" polled.0.tasks ≡ []
unfolding claim_and_return_tasks claim_tasks claimable sweep_tasks update_where
queue_empty = refl

none_overdue : All (λ t. is_overdue "n1" 60 t ≡ false) polled.0.tasks
unfolding claim_and_return_tasks claim_tasks claimable sweep_tasks update_where
none_overdue = (refl, tt)

claim_same_second_example : (claim_and_return_tasks polled.0 "n1" "a1" 60).1 ≡ polled.1
claim_same_second_example =
    claim_same_second (with_task some_task) "n1" "a1" 60 queue_empty none_overdue

heartbeat_frees_no_lease_example :
    (handle_heartbeat ready_started "n1" "a1" 900).0.leases ≡ ready_started.leases
heartbeat_frees_no_lease_example =
    heartbeat_frees_no_lease ready ready_started "n1" "a1" 900 refl
      (next here (start never "d1" preflight ids 100))

-- The heartbeat of a node that is there sweeps: the start task times out, its leases stay.
sweeps_started_run :
    map (λ (t : Task). t.status) (handle_heartbeat ready_started "n1" "a1" 900).0.tasks
    ≡ timed_out ∷ []
unfolding handle_heartbeat handle_start_deployment transaction start_statements
    active_deployment_run insert_instance insert_lease insert_task insert_group insert_plan
    claim_and_return_tasks claim_tasks sweep_tasks sweep_expired_tasks claimable update_where
sweeps_started_run = refl

sweep_fails_instance_example :
    any (is_not_failed "i9") (sweep_expired_tasks (with_task overdue_task) "n1" 200).instances
    ≡ false
sweep_fails_instance_example =
    sweep_fails_instance (with_task overdue_task) "n1" "i9" 200 (λ h. cc) refl
