-- ===== src/Control/Shutdown.antt =====
-- `HandleStopDeployment` and `HandleDeleteDeployment`
-- (internal/server/api/deployment_lifecycle_handlers.go). The updates of the stop handler ignore
-- their errors there; here they succeed, and only the insert of a task can fail.
use lightai_go.Common.{
  ℕ, String, Bool, true, false, not, ◌&&◌, none, some, List, [], ◌∷◌, ◌++◌, find, update_where,
  delete_where, filter_by, string_eq, ◌==◌, if◌then◌else◌,
}
use lightai_go.Control.{
  TaskStatus, model_instance_stop, InstanceState, released, DeploymentStatus, Node, Deployment,
  Instance, Task, Db, is_live, is_stopped, Statement, transaction, commit, insert_task, Caller,
  tenant_scope_check,
}
use lightai_go.Control.Nodes.{is_online}
use lightai_go.Control.Lifecycle.{new_task, set_deployment}

-- `CASE WHEN actual_state = 'running' THEN 'stopping' ELSE actual_state END`
abbrev pub stopping_from : InstanceState → InstanceState
stopping_from InstanceState.running = InstanceState.stopping
stopping_from s = s

unfoldable pub mark_stopping : String → Db → Db
mark_stopping id db = record db {
  instances =
      update_where (λ i. i.id == id)
        (λ i. record i {
          desired_state = InstanceState.stopped;
          actual_state = stopping_from i.actual_state;
        })
        db.instances;
}

pub data Warning : Type 0 where
  not_dispatched dispatch_failed wait_timed_out stop_failed : String → Warning

-- `COALESCE(n.status,'unknown')` is "online"
abbrev pub node_is_online : String → List Node → Bool
node_is_online id nodes = elim (find (λ (n : Node). n.id == id) nodes) [
  | none ↦ false
  | some n ↦ is_online n.status
]

-- What `waitForAgentTaskResult` has read when it returns, and the warning that it leads to.
abbrev pub wait_warnings : String → String → Db → List Warning
wait_warnings task instance db = elim (find (λ (t : Task). t.id == task) db.tasks) [
  | none ↦ wait_timed_out instance ∷ []
  | some t ↦ elim t.status [
    | TaskStatus.completed ↦ []
    | TaskStatus.failed ↦ stop_failed instance ∷ []
    | TaskStatus.timed_out ↦ stop_failed instance ∷ []
    | _ ↦ wait_timed_out instance ∷ []
  ]
]

-- `others task` is what the other handlers do to the tables while this one waits for the task.
module _ (others : String → Db → Db) (deployment tenant operation : String)
    (task_id : String → String) (now : ℕ) where
  abbrev pub stop_task : Instance → Task
  stop_task i =
      new_task deployment
        (record {
          has_errors = false;
          tenant_id = tenant;
          node_id = i.node_id;
          accelerator_ids = [];
          host_port = 0;
          container_port = 0;
        })
        (record {
          operation = operation;
          instance = i.id;
          run_plan = "";
          task = "";
          group = "";
          lease = λ g. "";
        })
        now model_instance_stop (task_id i.id) i.id i.node_id 90

  -- One round of the loop. The states of the nodes are those of the query before the loop.
  unfoldable pub stop_one : List Node → Instance → Db → Db × List Warning
  unfolding mark_stopping insert_task
  stop_one nodes i db =
      let marked = mark_stopping i.id db in
      if not (node_is_online i.node_id nodes)
      then (marked, not_dispatched i.id ∷ [])
      else elim (insert_task (stop_task i) marked) [
        | none ↦ (marked, dispatch_failed i.id ∷ [])
        | some sent ↦
            let after = others (task_id i.id) sent in
            (after, wait_warnings (task_id i.id) i.id after)
      ]

  unfoldable pub stop_all : List Node → List Instance → Db → Db × List Warning
  unfolding stop_one
  stop_all nodes [] db = (db, [])
  stop_all nodes (i ∷ is) db =
      let (db', here) = stop_one nodes i db in
      let (last, later) = stop_all nodes is db' in (last, here ++ later)

  unfoldable pub stop_deployment : Db → Db × List Warning
  unfolding stop_all
  stop_deployment db =
      let found =
        filter_by
          (λ (i : Instance). i.deployment_id == deployment && not (is_stopped i.actual_state))
          db.instances in
      let (last, warnings) = stop_all db.nodes found db in
      (set_deployment deployment DeploymentStatus.stopped last, warnings)

pub data ShutdownReply : Type 0 where
  not_found internal_error deleted : ShutdownReply
  stopped : List Warning → ShutdownReply

unfoldable pub handle_stop_deployment :
    (String → Db → Db) → String → (String → String) → ℕ → Caller → String → Db → Db × ShutdownReply
unfolding stop_deployment
handle_stop_deployment others operation task_id now caller id db =
    elim (find (λ (d : Deployment). d.id == id) db.deployments) [
      | none ↦ (db, not_found)
      | some d ↦
          if tenant_scope_check caller d.tenant_id
          then (let (db', warnings) =
                stop_deployment others id d.tenant_id operation task_id now db in
              (db', stopped warnings))
          else (db, not_found)
    ]

-- The statements of the transaction of `HandleDeleteDeployment`, in order.
abbrev pub delete_statements : String → ℕ → List Statement
delete_statements id now =
    (λ db. some (record db {
      instances =
          update_where (λ i. i.deployment_id == id && not (is_stopped i.actual_state))
            (λ i. record i {
              actual_state = InstanceState.stopped;
              desired_state = InstanceState.stopped;
              stopped_at = some now;
            })
            db.instances;
    }))
    ∷ (λ db. some (record db {
      leases =
          update_where (λ l. l.deployment_id == id && is_live l.status)
            (λ l. record l { status = released }) db.leases;
    }))
    ∷ (λ db. some (record db {
      tasks =
          update_where
            (λ t.
              t.deployment_id == id
              && not (elim t.status [
                | TaskStatus.completed ↦ true
                | TaskStatus.failed ↦ true
                | _ ↦ false
              ]))
            (λ t. record t { status = TaskStatus.failed; finished_at = some now }) db.tasks;
    }))
    ∷ (λ db. some (record db { tasks = delete_where (λ t. t.deployment_id == id) db.tasks }))
    ∷ (λ db. some (record db { plans = delete_where (λ p. p.deployment_id == id) db.plans }))
    ∷ (λ db. some (record db { groups = delete_where (λ g. g.deployment_plan_id == id) db.groups }))
    ∷ (λ db. some (record db { leases = delete_where (λ l. l.deployment_id == id) db.leases }))
    ∷ (λ db.
        some (record db { instances = delete_where (λ i. i.deployment_id == id) db.instances }))
    ∷ (λ db. some (record db { deployments = delete_where (λ d. d.id == id) db.deployments }))
    ∷ []

unfoldable pub handle_delete_deployment : (ℕ → Bool) → ℕ → Caller → String → Db → Db × ShutdownReply
unfolding transaction
handle_delete_deployment fails now caller id db =
    elim (find (λ (d : Deployment). d.id == id) db.deployments) [
      | none ↦ (db, not_found)
      | some d ↦
          if not (tenant_scope_check caller d.tenant_id)
          then (db, not_found)
          else commit db internal_error deleted (transaction fails 0 (delete_statements id now) db)
    ]
