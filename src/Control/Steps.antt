-- ===== src/Control/Steps.antt =====
-- The control plane as a step relation: each handler's effect on the tables is one step, and the
-- stop handler, which waits for other handlers, is one step for each instance and one at its end.
use lightai_go.Common.{ℕ, String, Bool, Option, List, []}
use lightai_go.Control.{Report, Node, Instance, Db, Caller, DeploymentStatus}
use lightai_go.Control.Nodes.{handle_heartbeat, mark_offline_nodes, patch_node_tenant}
use lightai_go.Control.Result.{handle_task_result}
use lightai_go.Control.Lifecycle.{Preflight, FreshIds, set_deployment, handle_start_deployment}
use lightai_go.Control.Shutdown.{stop_one, handle_delete_deployment}

-- A stop handler between two waits.
abbrev pub alone : String → Db → Db
alone task db = db

pub data Step (db : Db) : Db → Type 0 where
  heartbeat : (node agent : String) (now : ℕ) → Step db (handle_heartbeat db node agent now).0
  go_offline : (now threshold : ℕ) → Step db (mark_offline_nodes now threshold db)
  transfer :
      (fails : ℕ → Bool) (audit : String) (tenants : List String) (caller : Option Caller)
      (node target : String)
      → Step db (patch_node_tenant fails audit db tenants caller node target).0
  report : (id : String) (req : Report) (now : ℕ) → Step db (handle_task_result db id req now).0
  start :
      (fails : ℕ → Bool) (deployment : String) (pf : Preflight) (ids : FreshIds) (now : ℕ)
      → Step db (handle_start_deployment fails deployment pf ids now db).0
  stop_request :
      (deployment tenant operation : String) (task_id : String → String) (now : ℕ)
      (nodes : List Node) (i : Instance)
      → Step db (stop_one alone deployment tenant operation task_id now nodes i db).0
  stop_finish :
      (deployment : String) → Step db (set_deployment deployment DeploymentStatus.stopped db)
  delete :
      (fails : ℕ → Bool) (now : ℕ) (caller : Caller) (id : String)
      → Step db (handle_delete_deployment fails now caller id db).0

pub data Reach (db : Db) : Db → Type 0 where
  here : Reach db db
  next : {mid last : Db} → Reach db mid → Step mid last → Reach db last

abbrev pub initial : Db
initial = record {
  nodes = [];
  gpus = [];
  deployments = [];
  instances = [];
  leases = [];
  tasks = [];
  groups = [];
  plans = [];
  audits = [];
}
