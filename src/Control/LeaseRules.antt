-- ===== src/Control/LeaseRules.antt =====
-- A rule for invariants of the lease table, from the statements on leases to the steps of the
-- control plane (internal/server/api).
use lightai_go.Common.{
  ℕ, String, ◌≡◌, refl, Bool, ◌&&◌, Option, none, some, List, [], ◌∷◌, arith, inl, inr, find, All,
  All-append, update_where, delete_where, Bool-cases, Option-cases, if_holds, string_eq, ◌==◌,
  if◌then◌else◌,
}
use lightai_go.Control.{
  TaskStatus, completed, TaskType, model_instance_start, model_instance_stop, model_instance_logs,
  LeaseStatus, released, Report, Node, Deployment, Instance, Lease, Task, Db, Caller,
  tenant_scope_check, is_live, is_terminal, insert_instance, insert_lease, insert_task,
  insert_group, insert_plan, insert_audit,
}
use lightai_go.Control.Claim.{sweep_leases}
use lightai_go.Control.Result.{
  release_leases, settle_leases, finish_task, reported_completed, reported_failed, apply_report,
  is_foreign, says_completed, says_failed, error_of, is_success, instance_of, Reply,
  handle_task_result,
}
use lightai_go.Control.Nodes.{
  HeartbeatReply, handle_heartbeat, mark_offline_nodes, check_transfer, transfer_statements,
  TransferReply, patch_node_tenant,
}
use lightai_go.Control.Lifecycle.{
  Preflight, FreshIds, new_lease, lease_statements, start_statements, active_deployment_run,
  StartReply, handle_start_deployment,
}
use lightai_go.Control.Shutdown.{stop_one, delete_statements, handle_delete_deployment}
use lightai_go.Control.Steps.{
  Step, Reach, alone, heartbeat, go_offline, transfer, report, start, stop_request, stop_finish,
  delete, here, next,
}
use lightai_go.Control.Transactions.{Keeps, kept_by_guard, kept_by_some, commit_keeps}

-- The statements that change the lease table, each keeping `P`.
pub record Rules (P : List Lease → Type 0) : Type 0 where
  pub sweep : (now : ℕ) (ls : List Lease) → P ls → P (sweep_leases now ls)
  pub settle :
      (id : String) (status : LeaseStatus) (ls : List Lease) → P ls → P (settle_leases id status ls)
  pub release : (id : String) (ls : List Lease) → P ls → P (release_leases id ls)
  pub remove : (p : Lease → Bool) (ls : List Lease) → P ls → P (delete_where p ls)
  pub cancel :
      (id : String) (ls : List Lease)
      → P ls
      → P (
          update_where
            (λ l. l.deployment_id == id && is_live l.status)
            (λ l. record l { status = released })
            ls)
  pub add :
      (l : Lease) (db db' : Db)
      → l.expires_at ≡ none
      → P db.leases
      → insert_lease l db ≡ some db'
      → P db'.leases

module _ (P : List Lease → Type 0) (rules : Rules P) where
  abbrev Holds : Db → Type 0
  Holds db = P db.leases

  reported_completed-Holds :
      (type : TaskType) (id : String) (success : Bool) (req : Report) (error : String) (now : ℕ)
      (db : Db)
      → Holds db
      → Holds (reported_completed type id success req error now db)
  unfolding reported_completed
  reported_completed-Holds model_instance_logs id success req error now db h = h
  reported_completed-Holds model_instance_stop id success req error now db h =
      if_holds Holds (id == "") _ _ h (if_holds Holds success _ _ (rules.release id db.leases h) h)
  reported_completed-Holds model_instance_start id success req error now db h =
      if_holds Holds (id == "") _ _ h
        (if_holds Holds success _ _ (rules.settle id _ db.leases h) (rules.settle id _ db.leases h))

  reported_failed-Holds :
      (type : TaskType) (id : String) (req : Report) (db : Db)
      → Holds db
      → Holds (reported_failed type id req db)
  unfolding reported_failed
  reported_failed-Holds model_instance_logs id req db h = h
  reported_failed-Holds model_instance_stop id req db h = if_holds Holds (id == "") _ _ h h
  reported_failed-Holds model_instance_start id req db h =
      if_holds Holds (id == "") _ _ h (rules.settle id _ db.leases h)

  apply_report-Holds :
      (t : Task) (req : Report) (now : ℕ) (db : Db) → Holds db → Holds (apply_report t req now db)
  unfolding apply_report reported_completed reported_failed
  apply_report-Holds t req now db h =
      if_holds Holds (says_completed req)
        (reported_completed t.task_type (instance_of t req) (is_success req) req (error_of req) now
          (finish_task t.id (if is_success req then completed else TaskStatus.failed) req now db))
        (if says_failed req
          then reported_failed t.task_type (instance_of t req) req
              (finish_task t.id TaskStatus.failed req now db)
          else db)
        (reported_completed-Holds t.task_type (instance_of t req) (is_success req) req
          (error_of req) now
          (finish_task t.id (if is_success req then completed else TaskStatus.failed) req now db) h)
        (if_holds Holds (says_failed req)
          (reported_failed t.task_type (instance_of t req) req
            (finish_task t.id TaskStatus.failed req now db))
          db
          (reported_failed-Holds t.task_type (instance_of t req) req
            (finish_task t.id TaskStatus.failed req now db) h)
          h)

  handle_task_result-Holds :
      (id : String) (req : Report) (now : ℕ) (db : Db)
      → Holds db
      → Holds (handle_task_result db id req now).0
  unfolding handle_task_result
  handle_task_result-Holds id req now db h =
      elim (Option-cases (find (λ (t : Task). t.id == id) db.tasks)) [
        | inl e ↦ rw (e, handle_task_result) h
        | inr (t, e) ↦
            rw (e, handle_task_result)
              (if_holds (λ (r : Db × Reply). Holds r.0) (is_terminal t.status) _ _ h
                (if_holds (λ (r : Db × Reply). Holds r.0) (is_foreign t req) _ _ h
                  (apply_report-Holds t req now db h)))
      ]

  handle_heartbeat-Holds :
      (node agent : String) (now : ℕ) (db : Db)
      → Holds db
      → Holds (handle_heartbeat db node agent now).0
  unfolding handle_heartbeat
  handle_heartbeat-Holds node agent now db h =
      if_holds (λ (r : Db × HeartbeatReply). Holds r.0) (node == "") _ _ h
        (elim (Option-cases (find (λ (n : Node). n.id == node) db.nodes)) [
          | inl e ↦ rw e h
          | inr (n, e) ↦ rw e (
              if_holds (λ (r : Db × HeartbeatReply). Holds r.0) _ _ _ h
                (rules.sweep now db.leases h))
        ])

  lease_statements-Keeps :
      (deployment : String) (pf : Preflight) (ids : FreshIds) (now : ℕ) (gpus : List String)
      → All (Keeps Holds) (lease_statements deployment pf ids now gpus)
  unfolding lease_statements
  lease_statements-Keeps deployment pf ids now [] = tt
  lease_statements-Keeps deployment pf ids now (gpu ∷ gpus) = (
    λ db db' h e. rules.add (new_lease deployment pf ids now gpu) db db' refl h e,
    lease_statements-Keeps deployment pf ids now gpus,
  )

  start_statements-Keeps :
      (deployment : String) (pf : Preflight) (ids : FreshIds) (now : ℕ)
      → All (Keeps Holds) (start_statements deployment pf ids now)
  unfolding start_statements insert_instance insert_group insert_plan insert_task
  start_statements-Keeps deployment pf ids now = (
    λ db db' h e. kept_by_guard Holds _ _ db' e h,
    (
      λ db db' h e. kept_by_guard Holds _ _ db' e h,
      (
        λ db db' h e. kept_by_guard Holds _ _ db' e h,
        All-append (Keeps Holds) (lease_statements deployment pf ids now pf.accelerator_ids) _
            (lease_statements-Keeps deployment pf ids now pf.accelerator_ids)
            (
              λ db db' h e. kept_by_guard Holds _ _ db' e h,
              (λ db db' h e. kept_by_some Holds _ db' e h, tt),
            ),
      ),
    ),
  )

  handle_start-Holds :
      (fails : ℕ → Bool) (deployment : String) (pf : Preflight) (ids : FreshIds) (now : ℕ) (db : Db)
      → Holds db
      → Holds (handle_start_deployment fails deployment pf ids now db).0
  unfolding handle_start_deployment
  handle_start-Holds fails deployment pf ids now db h =
      elim (Option-cases (active_deployment_run db deployment)) [
        | inr (reason, e) ↦ rw (e, handle_start_deployment) h
        | inl e ↦
            rw (e, handle_start_deployment)
              (if_holds (λ (r : Db × StartReply). Holds r.0) pf.has_errors _ _ h
                (commit_keeps Holds fails (start_statements deployment pf ids now) db _ _
                  (start_statements-Keeps deployment pf ids now) h))
      ]

  stop_one-Holds :
      (deployment tenant operation : String) (task_id : String → String) (now : ℕ)
      (nodes : List Node) (i : Instance) (db : Db)
      → Holds db
      → Holds (stop_one alone deployment tenant operation task_id now nodes i db).0
  unfolding stop_one
  stop_one-Holds deployment tenant operation task_id now nodes i db h = ground arith

  transfer_statements-Keeps :
      (audit operator node from to : String)
      → All (Keeps Holds) (transfer_statements audit operator node from to)
  unfolding insert_audit
  transfer_statements-Keeps audit operator node from to = (
    λ db db' h e. kept_by_some Holds _ db' e h,
    (
      λ db db' h e. kept_by_some Holds _ db' e h,
      (λ db db' h e. kept_by_guard Holds _ _ db' e h, tt),
    ),
  )

  patch_node_tenant-Holds :
      (fails : ℕ → Bool) (audit : String) (tenants : List String) (caller : Option Caller)
      (node target : String) (db : Db)
      → Holds db
      → Holds (patch_node_tenant fails audit db tenants caller node target).0
  unfolding patch_node_tenant
  patch_node_tenant-Holds fails audit tenants none node target db h = ground arith
  patch_node_tenant-Holds fails audit tenants (some caller) node target db h =
      if_holds (λ (r : Db × TransferReply). Holds r.0) (node == "") _ _ h
        (if_holds (λ (r : Db × TransferReply). Holds r.0) (target == "") _ _ h
          (elim (Option-cases (find (λ (n : Node). n.id == node) db.nodes)) [
            | inl e ↦ rw e h
            | inr (n, e) ↦ rw e (elim (Option-cases (check_transfer db tenants caller n target)) [
              | inr (reply, refused) ↦ rw refused h
              | inl passed ↦ rw passed (
                  commit_keeps Holds fails
                    (transfer_statements audit caller.user_id node n.tenant_id target) db _ _
                    (transfer_statements-Keeps audit caller.user_id node n.tenant_id target) h)
            ])
          ]))

  delete_statements-Keeps : (id : String) (now : ℕ) → All (Keeps Holds) (delete_statements id now)
  delete_statements-Keeps id now = (
    λ db db' h e. kept_by_some Holds _ db' e h,
    (
      λ db db' h e. kept_by_some Holds _ db' e (rules.cancel id db.leases h),
      (
        λ db db' h e. kept_by_some Holds _ db' e h,
        (
          λ db db' h e. kept_by_some Holds _ db' e h,
          (
            λ db db' h e. kept_by_some Holds _ db' e h,
            (
              λ db db' h e. kept_by_some Holds _ db' e h,
              (
                λ db db' h e. kept_by_some Holds _ db' e (rules.remove _ db.leases h),
                (
                  λ db db' h e. kept_by_some Holds _ db' e h,
                  (λ db db' h e. kept_by_some Holds _ db' e h, tt),
                ),
              ),
            ),
          ),
        ),
      ),
    ),
  )

  handle_delete-Holds :
      (fails : ℕ → Bool) (now : ℕ) (caller : Caller) (id : String) (db : Db)
      → Holds db
      → Holds (handle_delete_deployment fails now caller id db).0
  unfolding handle_delete_deployment
  handle_delete-Holds fails now caller id db h =
      elim (Option-cases (find (λ (d : Deployment). d.id == id) db.deployments)) [
        | inl e ↦ rw (e, handle_delete_deployment) h
        | inr (d, e) ↦
            rw (e, handle_delete_deployment)
              (elim (Bool-cases (tenant_scope_check caller d.tenant_id)) [
                | inl allowed ↦ rw allowed (
                    commit_keeps Holds fails (delete_statements id now) db _ _
                      (delete_statements-Keeps id now) h)
                | inr denied ↦ rw denied h
              ])
      ]

  -- Every step keeps what the statements on leases keep.
  pub Step-lease_rule : {db db' : Db} → Step db db' → Holds db → Holds db'
  unfolding mark_offline_nodes
  Step-lease_rule {db} (heartbeat node agent now) h = handle_heartbeat-Holds node agent now db h
  Step-lease_rule (go_offline now threshold) h = h
  Step-lease_rule {db} (transfer fails audit tenants caller node target) h =
      patch_node_tenant-Holds fails audit tenants caller node target db h
  Step-lease_rule {db} (report id req now) h = handle_task_result-Holds id req now db h
  Step-lease_rule {db} (start fails deployment pf ids now) h =
      handle_start-Holds fails deployment pf ids now db h
  Step-lease_rule {db} (stop_request deployment tenant operation task_id now nodes i) h =
      stop_one-Holds deployment tenant operation task_id now nodes i db h
  Step-lease_rule (stop_finish deployment) h = h
  Step-lease_rule {db} (delete fails now caller id) h = handle_delete-Holds fails now caller id db h

  pub Reach-lease_rule : {db db' : Db} → Holds db → Reach db db' → Holds db'
  Reach-lease_rule h here = h
  Reach-lease_rule h (next r st) = Step-lease_rule st (Reach-lease_rule h r)
