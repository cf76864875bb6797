-- ===== src/Control/Lifecycle.antt =====
-- Starting, stopping and deleting a deployment
-- (internal/server/api/deployment_lifecycle_handlers.go). What `preflightDeployment` finds is an
-- argument, and so are the ids that `uuid.NewString` gives.
use lightai_go.Common.{
  ℕ, String, Bool, true, false, ◌&&◌, Option, none, some, List, [], ◌∷◌, ◌++◌, find, update_where,
  leb, string_eq, ◌==◌, if◌then◌else◌,
}
use lightai_go.Control.{
  TaskStatus, TaskType, model_instance_start, model_instance_stop, model_instance_logs,
  InstanceState, reserved, DeploymentStatus, blank, Instance, Lease, Task, Db, Statement,
  transaction, commit, insert_instance, insert_lease, insert_task, insert_group, insert_plan,
}

pub data Reason : Type 0 where
  deployment_starting deployment_running deployment_stopping deployment_task_active : Reason

-- The answer of `activeDeploymentRun` where it is `Blocked`: the row's id and the reason.
abbrev pub run_reason : InstanceState → Option Reason
run_reason InstanceState.pending = some deployment_starting
run_reason InstanceState.starting = some deployment_starting
run_reason InstanceState.provisioning = some deployment_starting
run_reason InstanceState.running = some deployment_running
run_reason InstanceState.healthy = some deployment_running
run_reason InstanceState.stopping = some deployment_stopping
run_reason _ = none

abbrev pub is_some {ℓ} : {A : Type ℓ} → Option A → Bool
is_some none = false
is_some (some a) = true

-- `ORDER BY created_at DESC LIMIT 1`; of rows of one second the first stands.
abbrev pub newest : (Instance → Bool) → List Instance → Option Instance
newest p [] = none
newest p (i ∷ is) =
    let rest = newest p is in
    if p i
    then elim rest [
      | none ↦ some i
      | some j ↦ if leb j.created_at i.created_at then some i else some j
    ]
    else rest

abbrev pub is_active_run : String → Instance → Bool
is_active_run deployment i = i.deployment_id == deployment && is_some (run_reason i.actual_state)

-- `task_type IN (start, stop) AND status IN ('pending','in_progress')`
abbrev pub is_lifecycle : TaskType → Bool
is_lifecycle model_instance_start = true
is_lifecycle model_instance_stop = true
is_lifecycle model_instance_logs = false

abbrev pub is_open : TaskStatus → Bool
is_open TaskStatus.pending = true
is_open TaskStatus.in_progress = true
is_open _ = false

abbrev pub is_active_task : String → Task → Bool
is_active_task deployment t =
    t.deployment_id == deployment && is_lifecycle t.task_type && is_open t.status

unfoldable pub active_deployment_run : Db → String → Option Reason
active_deployment_run db deployment = elim (newest (is_active_run deployment) db.instances) [
  | some i ↦ run_reason i.actual_state
  | none ↦ elim (find (is_active_task deployment) db.tasks) [
    | none ↦ none
    | some t ↦ some deployment_task_active
  ]
]

-- What the preflight has found: whether it reports errors, and what it read and resolved.
pub record Preflight : Type 0 where
  pub has_errors : Bool
  pub tenant_id : String
  pub node_id : String
  pub accelerator_ids : List String
  pub host_port : ℕ
  pub container_port : ℕ

pub record FreshIds : Type 0 where
  pub operation : String
  pub instance : String
  pub run_plan : String
  pub task : String
  pub group : String
  pub lease : String → String

pub data StartReply : Type 0 where
  conflict : Reason → StartReply
  preflight_failed internal_error started : StartReply

-- `UPDATE model_deployments SET desired_state = ?, status = ? WHERE id = ?`
abbrev pub set_deployment : String → DeploymentStatus → Db → Db
set_deployment id status db = record db {
  deployments =
      update_where (λ d. d.id == id) (λ d. record d { desired_state = status; status = status })
        db.deployments;
}

module _ (deployment : String) (pf : Preflight) (ids : FreshIds) (now : ℕ) where
  abbrev pub new_instance : Instance
  new_instance = record {
    id = ids.instance;
    deployment_id = deployment;
    tenant_id = pf.tenant_id;
    node_id = pf.node_id;
    host_port = pf.host_port;
    container_port = pf.container_port;
    current_run_plan_id = ids.run_plan;
    actual_state = InstanceState.pending;
    desired_state = InstanceState.running;
    container_id = "";
    endpoint_url = none;
    last_error = blank;
    stopped_at = none;
    created_at = now;
  }

  -- The insert names no `expires_at`, which stays null.
  abbrev pub new_lease : String → Lease
  new_lease gpu = record {
    id = ids.lease gpu;
    gpu_id = gpu;
    node_id = pf.node_id;
    deployment_id = deployment;
    instance_id = ids.instance;
    tenant_id = pf.tenant_id;
    status = reserved;
    expires_at = none;
  }

  abbrev pub new_task : TaskType → String → String → String → ℕ → Task
  new_task type id instance node timeout = record {
    id = id;
    task_type = type;
    status = TaskStatus.pending;
    tenant_id = pf.tenant_id;
    deployment_id = deployment;
    instance_id = instance;
    node_id = node;
    agent_id = "";
    result = none;
    timeout_seconds = timeout;
    retry_count = 0;
    claimed_at = none;
    finished_at = none;
    lease_owner = "";
    lease_expires_at = none;
    operation_id = ids.operation;
    generation = 0;
    attempt = 1;
    created_at = now;
  }

  -- The statements of the transaction of `HandleStartDeployment`, in order.
  unfoldable pub lease_statements : List String → List Statement
  lease_statements [] = []
  lease_statements (gpu ∷ gpus) = insert_lease (new_lease gpu) ∷ lease_statements gpus

  unfoldable pub start_statements : List Statement
  unfolding lease_statements
  start_statements =
      insert_instance new_instance
      ∷ insert_group
          (record { id = ids.group; deployment_plan_id = deployment; tenant_id = pf.tenant_id })
      ∷ insert_plan (record {
        id = ids.run_plan;
        deployment_id = deployment;
        instance_id = ids.instance;
        tenant_id = pf.tenant_id;
      })
      ∷ (lease_statements pf.accelerator_ids
          ++ insert_task (new_task model_instance_start ids.task ids.instance pf.node_id 300)
            ∷ (λ db. some (set_deployment deployment DeploymentStatus.running db))
            ∷ [])

-- `HandleStartDeployment`: the check for an active run, the preflight, then one transaction.
unfoldable pub handle_start_deployment :
    (ℕ → Bool) → String → Preflight → FreshIds → ℕ → Db → Db × StartReply
unfolding active_deployment_run start_statements transaction insert_instance insert_lease
    insert_task insert_group insert_plan
handle_start_deployment fails deployment pf ids now db =
    elim (active_deployment_run db deployment) [
      | some reason ↦ (db, conflict reason)
      | none ↦
          if pf.has_errors
          then (db, preflight_failed)
          else commit db internal_error started
              (transaction fails 0 (start_statements deployment pf ids now) db)
    ]
