-- ===== src/Control/Nodes.antt =====
-- Nodes (internal/server/api/agent_handlers.go): the heartbeat and its check of the agent, the
-- offline sweep, and the transfer of a node to another tenant.
use lightai_go.Common.{
  ℕ, ◌-◌, String, Bool, true, false, not, ◌&&◌, ◌||◌, Option, none, some, List, [], ◌∷◌, find, any,
  update_where, ltb, contains, string_eq, ◌==◌, if◌then◌else◌,
}
use lightai_go.Control.{
  NodeStatus, online, offline, InstanceState, Node, Instance, Lease, Task, Db, is_live, Caller,
  Statement, transaction, commit, insert_audit,
}
use lightai_go.Control.Claim.{claim_and_return_tasks}

pub data HeartbeatReply : Type 0 where
  node_id_required agent_id_mismatch need_register : HeartbeatReply
  tasks : List Task → HeartbeatReply

unfoldable pub mark_online : String → ℕ → Db → Db
mark_online id now db = record db {
  nodes =
      update_where (λ n. n.id == id) (λ n. record n { status = online; last_heartbeat_at = now })
        db.nodes;
}

-- `HandleHeartbeat`
unfoldable pub handle_heartbeat : Db → String → String → ℕ → Db × HeartbeatReply
unfolding mark_online claim_and_return_tasks
handle_heartbeat db node agent now =
    if node == ""
    then (db, node_id_required)
    else elim (find (λ (n : Node). n.id == node) db.nodes) [
      | none ↦ (db, need_register)
      | some n ↦
          if not (n.agent_id == "") && not (n.agent_id == agent)
          then (db, agent_id_mismatch)
          else let (db', given) = claim_and_return_tasks (mark_online node now db) node agent now in
            (db', tasks given)
    ]

abbrev pub is_online : NodeStatus → Bool
is_online online = true
is_online offline = false

-- `MarkOfflineNodes`
unfoldable pub mark_offline_nodes : ℕ → ℕ → Db → Db
mark_offline_nodes now threshold db = record db {
  nodes =
      update_where (λ n. is_online n.status && ltb n.last_heartbeat_at (now - threshold))
        (λ n. record n { status = offline }) db.nodes;
}

pub data TransferReply : Type 0 where
  id_required unauthorized tenant_required node_not_found forbidden target_not_found : TransferReply
  active_leases active_instances internal_error transferred : TransferReply

-- `actual_state IN ('pending','starting','running','stopping')`
abbrev pub is_busy : InstanceState → Bool
is_busy InstanceState.pending = true
is_busy InstanceState.starting = true
is_busy InstanceState.running = true
is_busy InstanceState.stopping = true
is_busy _ = false

abbrev pub may_transfer : Caller → Node → Bool
may_transfer c n =
    c.is_platform_admin || (n.tenant_id == c.tenant_id && contains c.permissions "node:transfer")

-- The statements of the transfer: the node, its GPUs and the audit row.
abbrev pub transfer_statements : String → String → String → String → String → List Statement
transfer_statements audit operator node from to =
    (λ db. some (record db {
      nodes = update_where (λ n. n.id == node) (λ n. record n { tenant_id = to }) db.nodes;
    }))
    ∷ (λ db. some (record db {
      gpus = update_where (λ g. g.node_id == node) (λ g. record g { tenant_id = to }) db.gpus;
    }))
    ∷ insert_audit (record {
      id = audit;
      entity_id = node;
      from_tenant_id = from;
      to_tenant_id = to;
      operator_user_id = operator;
    })
    ∷ []

-- The guards of `HandlePatchNodeTenant`, in the order in which they are asked; the ids of the
-- active tenants are an argument.
unfoldable pub check_transfer : Db → List String → Caller → Node → String → Option TransferReply
check_transfer db tenants caller n target =
    if not (may_transfer caller n)
    then some forbidden
    else if not (contains tenants target)
    then some target_not_found
    else if any (λ (l : Lease). l.node_id == n.id && is_live l.status) db.leases
    then some active_leases
    else if any (λ (i : Instance). i.node_id == n.id && is_busy i.actual_state) db.instances
    then some active_instances
    else none

-- `HandlePatchNodeTenant` on a body that parses
unfoldable pub patch_node_tenant :
    (ℕ → Bool) → String → Db → List String → Option Caller → String → String → Db × TransferReply
unfolding check_transfer transaction insert_audit
patch_node_tenant fails audit db tenants none node target =
    if node == "" then (db, id_required) else (db, unauthorized)
patch_node_tenant fails audit db tenants (some caller) node target =
    if node == ""
    then (db, id_required)
    else if target == ""
    then (db, tenant_required)
    else elim (find (λ (n : Node). n.id == node) db.nodes) [
      | none ↦ (db, node_not_found)
      | some n ↦ elim (check_transfer db tenants caller n target) [
        | some reply ↦ (db, reply)
        | none ↦ commit db internal_error transferred (
            transaction fails 0 (transfer_statements audit caller.user_id node n.tenant_id target)
              db)
      ]
    ]
