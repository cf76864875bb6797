-- ===== src/Control/Samples.antt =====
-- Concrete rows and tables for the tests of the control plane.
use lightai_go.Common.{ℕ, Bool, true, false, none, some, [], ◌∷◌, string_eq}
use lightai_go.Control.{
  TaskStatus, model_instance_start, model_instance_stop, timed_out, reserved, DeploymentStatus,
  online, Report, Node, Deployment, Lease, Task, Db,
}
use lightai_go.Control.Lifecycle.{Preflight, FreshIds}
use lightai_go.Control.Steps.{initial}

abbrev pub some_task : Task
some_task = record {
  id = "k9";
  task_type = model_instance_stop;
  status = TaskStatus.pending;
  tenant_id = "t1";
  deployment_id = "d1";
  instance_id = "i9";
  node_id = "n1";
  agent_id = "";
  result = none;
  timeout_seconds = 60;
  retry_count = 0;
  claimed_at = none;
  finished_at = none;
  lease_owner = "";
  lease_expires_at = none;
  operation_id = "o9";
  generation = 1;
  attempt = 1;
  created_at = 50;
}

abbrev pub overdue_task : Task
overdue_task = record some_task { status = timed_out }

abbrev pub start_task : Task
start_task = record some_task { task_type = model_instance_start }

abbrev pub some_lease : Lease
some_lease = record {
  id = "l9";
  gpu_id = "g1";
  node_id = "n1";
  deployment_id = "d1";
  instance_id = "i9";
  tenant_id = "t1";
  status = reserved;
  expires_at = none;
}

abbrev pub success_report : Report
success_report = record {
  status = some "completed";
  agent_id = some "a1";
  instance_id = none;
  container_id = some "c1";
  error_message = none;
  error = none;
  failure_reason_code = none;
  success = some true;
}

abbrev pub node_1 : Node
node_1 = record {
  id = "n1";
  agent_id = "a1";
  tenant_id = "t1";
  status = online;
  last_heartbeat_at = 90;
}

abbrev pub with_task : Task → Db
with_task t = record initial { tasks = t ∷ []; leases = some_lease ∷ []; nodes = node_1 ∷ [] }

abbrev pub never : ℕ → Bool
never k = false

abbrev pub preflight : Preflight
preflight = record {
  has_errors = false;
  tenant_id = "t1";
  node_id = "n1";
  accelerator_ids = "g1" ∷ "g2" ∷ [];
  host_port = 8001;
  container_port = 8000;
}

abbrev pub ids : FreshIds
ids = record {
  operation = "o1";
  instance = "i1";
  run_plan = "p1";
  task = "k1";
  group = "r1";
  lease = λ gpu. gpu;
}

abbrev pub later_ids : FreshIds
later_ids = record ids { instance = "i2"; run_plan = "p2"; task = "k2"; group = "r2" }

abbrev pub deployment_1 : Deployment
deployment_1 = record {
  id = "d1";
  tenant_id = "t1";
  desired_state = DeploymentStatus.stopped;
  status = DeploymentStatus.stopped;
}

abbrev pub ready : Db
ready = record initial { nodes = node_1 ∷ []; deployments = deployment_1 ∷ [] }
