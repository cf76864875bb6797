-- ===== src/Control.antt =====
-- The control plane's tables (internal/server/db/db.go, internal/server/api/constants.go) as one
-- state, and the transaction that `h.DB.Begin`, `tx.Exec`, `tx.Commit` make of SQL statements.
-- Times are seconds; the columns `updated_at`, `started_at`, `reserved_at`, `activated_at` and
-- `released_at`, which no statement reads, are left out.
pub mod Claim
pub mod Result
pub mod Lifecycle
pub mod Nodes
pub mod Shutdown
pub mod Steps
pub mod Transactions
pub mod LeaseRules
pub mod Exclusive
pub mod Expiry
pub mod Starting
pub mod Claiming
pub mod Queue
pub mod Stopping
pub mod Sweeping
pub mod Reporting
pub mod Conflicts
mod Samples
mod Tests
use lightai_go.Common.{
  ℕ, suc, String, Bool, true, false, ◌||◌, ◌&&◌, Option, none, some, List, [], ◌∷◌, ◌++◌, any,
  string_eq, ◌==◌, if◌then◌else◌,
}

pub data TaskStatus : Type 0 where
  pending claimed in_progress completed failed timed_out : TaskStatus

pub data TaskType : Type 0 where
  model_instance_start model_instance_stop model_instance_logs : TaskType

pub data InstanceState : Type 0 where
  pending starting provisioning running healthy stopping stopped failed initializing : InstanceState

pub data LeaseStatus : Type 0 where
  reserved active released failed expired : LeaseStatus

pub data DeploymentStatus : Type 0 where
  running stopped failed : DeploymentStatus

pub data NodeStatus : Type 0 where
  online offline : NodeStatus

-- The JSON object that an agent posts; `none` is a key that is absent or of another type.
pub record Report : Type 0 where
  pub status : Option String
  pub agent_id : Option String
  pub instance_id : Option String
  pub container_id : Option String
  pub error_message : Option String
  pub error : Option String
  pub failure_reason_code : Option String
  pub success : Option Bool

-- The text column `last_error`: empty, a message, or the JSON of `buildStartFailureLastError`
-- (error, failure_reason_code, container_id; its exit code and log tails are left out).
pub data LastError : Type 0 where
  blank : LastError
  message : String → LastError
  start_failure : String → String → String → LastError

pub record Node : Type 0 where
  pub id : String
  pub agent_id : String
  pub tenant_id : String
  pub status : NodeStatus
  pub last_heartbeat_at : ℕ

pub record Deployment : Type 0 where
  pub id : String
  pub tenant_id : String
  pub desired_state : DeploymentStatus
  pub status : DeploymentStatus

-- `endpoint_url` is `none` for "" and `some p` for "http://127.0.0.1:p".
pub record Instance : Type 0 where
  pub id : String
  pub deployment_id : String
  pub tenant_id : String
  pub node_id : String
  pub host_port : ℕ
  pub container_port : ℕ
  pub current_run_plan_id : String
  pub actual_state : InstanceState
  pub desired_state : InstanceState
  pub container_id : String
  pub endpoint_url : Option ℕ
  pub last_error : LastError
  pub stopped_at : Option ℕ
  pub created_at : ℕ

pub record Lease : Type 0 where
  pub id : String
  pub gpu_id : String
  pub node_id : String
  pub deployment_id : String
  pub instance_id : String
  pub tenant_id : String
  pub status : LeaseStatus
  pub expires_at : Option ℕ

pub record Task : Type 0 where
  pub id : String
  pub task_type : TaskType
  pub status : TaskStatus
  pub tenant_id : String
  pub deployment_id : String
  pub instance_id : String
  pub node_id : String
  pub agent_id : String
  pub result : Option Report
  pub timeout_seconds : ℕ
  pub retry_count : ℕ
  pub claimed_at : Option ℕ
  pub finished_at : Option ℕ
  pub lease_owner : String
  pub lease_expires_at : Option ℕ
  pub operation_id : String
  pub generation : ℕ
  pub attempt : ℕ
  pub created_at : ℕ

pub record RunPlanGroup : Type 0 where
  pub id : String
  pub deployment_plan_id : String
  pub tenant_id : String

pub record RunPlanRow : Type 0 where
  pub id : String
  pub deployment_id : String
  pub instance_id : String
  pub tenant_id : String

pub record Gpu : Type 0 where
  pub id : String
  pub node_id : String
  pub tenant_id : String

-- The audit row of a node's transfer.
pub record Audit : Type 0 where
  pub id : String
  pub entity_id : String
  pub from_tenant_id : String
  pub to_tenant_id : String
  pub operator_user_id : String

pub record Db : Type 0 where
  pub nodes : List Node
  pub gpus : List Gpu
  pub deployments : List Deployment
  pub instances : List Instance
  pub leases : List Lease
  pub tasks : List Task
  pub groups : List RunPlanGroup
  pub plans : List RunPlanRow
  pub audits : List Audit

-- `status IN ('completed','failed','timed_out')`
abbrev pub is_terminal : TaskStatus → Bool
is_terminal completed = true
is_terminal TaskStatus.failed = true
is_terminal timed_out = true
is_terminal _ = false

abbrev pub is_pending : TaskStatus → Bool
is_pending TaskStatus.pending = true
is_pending _ = false

abbrev pub is_claimed : TaskStatus → Bool
is_claimed claimed = true
is_claimed _ = false

abbrev pub is_timed_out : TaskStatus → Bool
is_timed_out timed_out = true
is_timed_out _ = false

abbrev pub is_reserved : LeaseStatus → Bool
is_reserved reserved = true
is_reserved _ = false

-- `status IN ('reserved','active')`
abbrev pub is_live : LeaseStatus → Bool
is_live reserved = true
is_live active = true
is_live _ = false

abbrev pub is_stopped : InstanceState → Bool
is_stopped InstanceState.stopped = true
is_stopped _ = false

abbrev pub is_failed : InstanceState → Bool
is_failed InstanceState.failed = true
is_failed _ = false

-- The rows that the partial unique index `idx_gpu_leases_reserved_active` compares.
abbrev pub holds_gpu : String → Lease → Bool
holds_gpu gpu l = l.gpu_id == gpu && is_live l.status

-- One statement of a transaction: `none` is an error of the database.
abbrev pub Statement : Type 0
Statement = Db → Option Db

-- `fails k` is the k-th statement failing for a reason outside the tables. The deferred rollback
-- makes the whole block `none`.
unfoldable pub transaction : (ℕ → Bool) → ℕ → List Statement → Db → Option Db
transaction fails k [] db = if fails k then none else some db
transaction fails k (s ∷ rest) db = elim (if fails k then none else s db) [
  | none ↦ none
  | some db' ↦ transaction fails (suc k) rest db'
]

-- The answer to a transaction: the old state and an error, or the new state and the good reply.
abbrev pub commit : {R : Type 0} → Db → R → R → Option Db → Db × R
commit db bad good none = (db, bad)
commit db bad good (some db') = (db', good)

-- `INSERT` under the primary keys and the partial unique index. The foreign keys on the deployment
-- are left out: a row for a deployment that is not there is inserted here.
unfoldable pub insert_instance : Instance → Statement
insert_instance i db =
    if any (λ j. j.id == i.id) db.instances
    then none
    else some (record db { instances = db.instances ++ i ∷ [] })

unfoldable pub insert_lease : Lease → Statement
insert_lease l db =
    if any (λ m. m.id == l.id) db.leases || is_live l.status && any (holds_gpu l.gpu_id) db.leases
    then none
    else some (record db { leases = db.leases ++ l ∷ [] })

unfoldable pub insert_task : Task → Statement
insert_task t db =
    if any (λ u. u.id == t.id) db.tasks
    then none
    else some (record db { tasks = db.tasks ++ t ∷ [] })

unfoldable pub insert_group : RunPlanGroup → Statement
insert_group g db =
    if any (λ h. h.id == g.id) db.groups
    then none
    else some (record db { groups = db.groups ++ g ∷ [] })

unfoldable pub insert_plan : RunPlanRow → Statement
insert_plan p db =
    if any (λ q. q.id == p.id) db.plans
    then none
    else some (record db { plans = db.plans ++ p ∷ [] })

unfoldable pub insert_audit : Audit → Statement
insert_audit a db =
    if any (λ b. b.id == a.id) db.audits
    then none
    else some (record db { audits = db.audits ++ a ∷ [] })

-- The session behind a request, as `SessionInfoFromContext` and `PermissionsFromContext` give it.
pub record Caller : Type 0 where
  pub user_id : String
  pub tenant_id : String
  pub is_platform_admin : Bool
  pub permissions : List String

-- `tenantScopeCheck` of internal/server/api/helpers.go, for a request with a session.
abbrev pub tenant_scope_check : Caller → String → Bool
tenant_scope_check c tenant = c.is_platform_admin || tenant == c.tenant_id
