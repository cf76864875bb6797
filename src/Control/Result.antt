-- ===== src/Control/Result.antt =====
-- What an agent reports about a task: `HandleTaskResult` of internal/server/api/agent_handlers.go.
-- Each `h.DB.Exec` there ignores its error; here all succeed. Audit rows and logs are left out.
use lightai_go.Common.{
  ℕ, String, Bool, true, not, ◌&&◌, ◌||◌, Option, none, some, List, find, update_where, ltb,
  or_else, string_eq, ◌==◌, if◌then◌else◌,
}
use lightai_go.Control.{
  TaskStatus, completed, TaskType, model_instance_start, model_instance_stop, model_instance_logs,
  InstanceState, LeaseStatus, active, released, LastError, message, start_failure, Report, Instance,
  Lease, Task, Db, is_terminal, is_live, is_reserved,
}

pub data Reply : Type 0 where
  task_not_found task_already_terminal lease_owner_mismatch ok : Reply

-- `strVal(req, key, def)`
abbrev pub str_val : Option String → String → String
str_val = or_else

unfoldable pub finish_task : String → TaskStatus → Report → ℕ → Db → Db
finish_task id status report now db = record db {
  tasks =
      update_where (λ t. t.id == id)
        (λ t. record t { status = status; result = some report; finished_at = some now }) db.tasks;
}

abbrev pub set_instance : String → (Instance → Instance) → Db → Db
set_instance id f db = record db { instances = update_where (λ i. i.id == id) f db.instances }

-- `UPDATE gpu_leases SET status = 'released' WHERE instance_id = ? AND status IN ('reserved','active')`
unfoldable pub release_leases : String → List Lease → List Lease
release_leases id =
    update_where (λ l. l.instance_id == id && is_live l.status) λ l. record l { status = released }

-- `UPDATE gpu_leases SET status = ? WHERE instance_id = ? AND status = 'reserved'`
unfoldable pub settle_leases : String → LeaseStatus → List Lease → List Lease
settle_leases id status =
    update_where (λ l. l.instance_id == id && is_reserved l.status)
      λ l. record l { status = status }

abbrev pub with_leases : (List Lease → List Lease) → Db → Db
with_leases f db = record db { leases = f db.leases }

unfoldable pub fail_instance : String → String → Db → Db
fail_instance id error =
    set_instance id
      λ i. record i { actual_state = InstanceState.failed; last_error = message error }

unfoldable pub stop_instance : String → ℕ → Db → Db
stop_instance id now = set_instance id λ i. record i {
  actual_state = InstanceState.stopped;
  desired_state = InstanceState.stopped;
  stopped_at = some now;
}

-- `buildStartFailureLastError`
unfoldable pub build_start_failure : Report → String → String → LastError
build_start_failure req error container =
    start_failure error (str_val req.failure_reason_code "task_failed")
      (if container == "" then str_val req.container_id "" else container)

-- The first matching row's `host_port`, 0 where there is none; its endpoint is local.
abbrev pub endpoint_of : String → List Instance → Option ℕ
endpoint_of id instances = elim (find (λ (i : Instance). i.id == id) instances) [
  | none ↦ none
  | some i ↦ if ltb 0 i.host_port then some i.host_port else none
]

unfoldable pub start_succeeded : String → Report → Db → Db
unfolding settle_leases
start_succeeded id req db = with_leases (settle_leases id active) (
    set_instance id
      (λ i. record i {
        actual_state = InstanceState.running;
        container_id = str_val req.container_id "";
        endpoint_url = endpoint_of id db.instances;
      })
      db)

unfoldable pub start_failed : String → Report → String → Db → Db
unfolding settle_leases build_start_failure
start_failed id req error db = with_leases (settle_leases id LeaseStatus.failed) (
    set_instance id
      (λ i. record i {
        actual_state = InstanceState.failed;
        container_id = str_val req.container_id "";
        endpoint_url = endpoint_of id db.instances;
        last_error = build_start_failure req error (str_val req.container_id "");
      })
      db)

-- The case "failed", "error" keeps the container that is known where the report names none.
unfoldable pub start_reported_failed : String → Report → String → Db → Db
unfolding settle_leases build_start_failure
start_reported_failed id req error db =
    let container = str_val req.container_id "" in
    with_leases (settle_leases id LeaseStatus.failed) (
      set_instance id
        (λ i. record i {
          actual_state = InstanceState.failed;
          container_id = if container == "" then i.container_id else container;
          last_error = build_start_failure req error container;
        })
        db)

-- case "completed", "success"
unfoldable pub reported_completed : TaskType → String → Bool → Report → String → ℕ → Db → Db
unfolding stop_instance release_leases fail_instance start_succeeded start_failed
reported_completed model_instance_logs instance success req error now db = db
reported_completed model_instance_stop instance success req error now db =
    if instance == ""
    then db
    else if success
    then with_leases (release_leases instance) (stop_instance instance now db)
    else fail_instance instance (str_val req.error_message (str_val req.error "docker stop failed"))
        db
reported_completed model_instance_start instance success req error now db =
    if instance == ""
    then db
    else if success
    then start_succeeded instance req db
    else start_failed instance req error db

-- case "failed", "error"
unfoldable pub reported_failed : TaskType → String → Report → Db → Db
unfolding fail_instance start_reported_failed
reported_failed model_instance_logs instance req db = db
reported_failed model_instance_stop instance req db =
    if instance == ""
    then db
    else fail_instance instance (str_val req.error_message (str_val req.error "unknown")) db
reported_failed model_instance_start instance req db =
    if instance == ""
    then db
    else start_reported_failed instance req
        (str_val req.error_message (str_val req.error "unknown")) db

-- The task's own instance comes first, then the one that the report names.
abbrev pub instance_of : Task → Report → String
instance_of t req = if t.instance_id == "" then str_val req.instance_id "" else t.instance_id

abbrev pub says_completed : Report → Bool
says_completed req =
    str_val req.status "completed" == "completed" || str_val req.status "completed" == "success"

abbrev pub says_failed : Report → Bool
says_failed req =
    str_val req.status "completed" == "failed" || str_val req.status "completed" == "error"

-- `errorMsg` of the case "completed"
abbrev pub error_of : Report → String
error_of req = str_val req.error_message (str_val req.error "")

abbrev pub is_success : Report → Bool
is_success req = or_else req.success true && error_of req == ""

-- The `switch status`; another status changes nothing.
unfoldable pub apply_report : Task → Report → ℕ → Db → Db
unfolding finish_task reported_completed reported_failed
apply_report t req now db =
    if says_completed req
    then reported_completed t.task_type (instance_of t req) (is_success req) req (error_of req) now
        (finish_task t.id (if is_success req then completed else TaskStatus.failed) req now db)
    else if says_failed req
    then reported_failed t.task_type (instance_of t req) req
        (finish_task t.id TaskStatus.failed req now db)
    else db

-- A report from another agent than the one that holds the task; one that names no agent passes.
abbrev pub is_foreign : Task → Report → Bool
is_foreign t req =
    let agent = str_val req.agent_id "" in
    not (t.lease_owner == "") && not (agent == "") && not (t.lease_owner == agent)

unfoldable pub handle_task_result : Db → String → Report → ℕ → Db × Reply
unfolding apply_report
handle_task_result db id req now = elim (find (λ (t : Task). t.id == id) db.tasks) [
  | none ↦ (db, task_not_found)
  | some t ↦
      if is_terminal t.status
      then (db, task_already_terminal)
      else if is_foreign t req
      then (db, lease_owner_mismatch)
      else (apply_report t req now db, ok)
]
