-- ===== src/Control/Claim.antt =====
-- The heartbeat's work queue (internal/server/api/agent_handlers.go): `sweepExpiredTasks` and
-- `claimAndReturnTasks`. A failed statement of the sweep is only logged there; here all succeed.
use lightai_go.Common.{
  ℕ, ◌+◌, String, Bool, false, not, ◌&&◌, Option, none, some, List, [], ◌∷◌, map, ltb, leb, any,
  take, filter_by, contains, update_where, string_eq, nat_eq, ◌==◌, if◌then◌else◌,
}
use lightai_go.Control.{
  claimed, timed_out, InstanceState, LeaseStatus, DeploymentStatus, Instance, Lease, Task,
  Deployment, Db, is_terminal, is_pending, is_claimed, is_timed_out, is_reserved, is_failed,
}

-- `(strftime('%s', now) - strftime('%s', created_at)) > timeout_seconds`
abbrev pub is_overdue : String → ℕ → Task → Bool
is_overdue node now t =
    t.node_id == node && not (is_terminal t.status) && ltb (t.created_at + t.timeout_seconds) now

unfoldable pub sweep_tasks : String → ℕ → List Task → List Task
sweep_tasks node now =
    update_where (is_overdue node now) λ t. record t { status = timed_out; finished_at = some now }

-- `SELECT instance_id FROM agent_tasks WHERE status = 'timed_out' AND node_id = ? AND instance_id != ''`
unfoldable pub timed_out_instances : String → List Task → List String
timed_out_instances node tasks =
    map (λ t. t.instance_id)
      (filter_by (λ t. is_timed_out t.status && t.node_id == node && not (t.instance_id == ""))
        tasks)

unfoldable pub sweep_instances : List String → List Instance → List Instance
sweep_instances ids =
    update_where (λ i. contains ids i.id) λ i. record i { actual_state = InstanceState.failed }

abbrev pub is_past : ℕ → Option ℕ → Bool
is_past now none = false
is_past now (some t) = ltb t now

unfoldable pub sweep_leases : ℕ → List Lease → List Lease
sweep_leases now =
    update_where (λ l. is_past now l.expires_at && is_reserved l.status)
      λ l. record l { status = LeaseStatus.failed }

unfoldable pub sweep_deployments : List Instance → List Deployment → List Deployment
sweep_deployments instances =
    update_where (λ d. any (λ i. is_failed i.actual_state && i.deployment_id == d.id) instances)
      λ d. record d { status = DeploymentStatus.failed }

unfoldable pub sweep_expired_tasks : Db → String → ℕ → Db
unfolding sweep_tasks timed_out_instances sweep_instances sweep_leases sweep_deployments
sweep_expired_tasks db node now =
    let tasks = sweep_tasks node now db.tasks in
    let instances = sweep_instances (timed_out_instances node tasks) db.instances in
    record db {
      tasks = tasks;
      instances = instances;
      leases = sweep_leases now db.leases;
      deployments = sweep_deployments instances db.deployments;
    }

-- `ORDER BY created_at ASC` on times in seconds, where SQLite orders their text; rows of one second
-- keep their order in the table.
unfoldable pub insert_by_age : Task → List Task → List Task
insert_by_age t [] = t ∷ []
insert_by_age t (u ∷ us) =
    if leb t.created_at u.created_at then t ∷ u ∷ us else u ∷ insert_by_age t us

unfoldable pub order_by_age : List Task → List Task
unfolding insert_by_age
order_by_age [] = []
order_by_age (t ∷ ts) = insert_by_age t (order_by_age ts)

abbrev pub max_tasks : ℕ
max_tasks = 10

abbrev pub is_waiting : String → Task → Bool
is_waiting node t = t.node_id == node && is_pending t.status

unfoldable pub claimable : String → List Task → List Task
unfolding order_by_age
claimable node tasks = take max_tasks (order_by_age (filter_by (is_waiting node) tasks))

unfoldable pub claim_task : String → ℕ → Task → Task
claim_task agent now t = record t {
  status = claimed;
  claimed_at = some now;
  agent_id = agent;
  lease_owner = agent;
  lease_expires_at = some (now + 300);
  generation = t.generation + 1;
  attempt = t.attempt + 1;
  retry_count = t.retry_count + 1;
}

unfoldable pub claim_tasks : String → String → ℕ → List Task → List Task
unfolding claimable claim_task
claim_tasks node agent now tasks =
    update_where (λ t. contains (map (λ u. u.id) (claimable node tasks)) t.id)
      (claim_task agent now) tasks

abbrev claimed_now : Option ℕ → ℕ → Bool
claimed_now none now = false
claimed_now (some t) now = t == now

abbrev pub is_fetched : String → String → ℕ → Task → Bool
is_fetched node agent now t =
    t.node_id == node && is_claimed t.status && t.agent_id == agent && claimed_now t.claimed_at now

unfoldable pub fetch_claimed : String → String → ℕ → List Task → List Task
unfolding order_by_age
fetch_claimed node agent now tasks =
    take max_tasks (order_by_age (filter_by (is_fetched node agent now) tasks))

-- The new state, and the tasks of the heartbeat's answer.
unfoldable pub claim_and_return_tasks : Db → String → String → ℕ → Db × List Task
unfolding sweep_expired_tasks claim_tasks fetch_claimed
claim_and_return_tasks db node agent now =
    let swept = sweep_expired_tasks db node now in
    let tasks = claim_tasks node agent now swept.tasks in
    (record swept { tasks = tasks }, fetch_claimed node agent now tasks)
