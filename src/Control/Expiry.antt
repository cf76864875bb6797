-- ===== src/Control/Expiry.antt =====
-- The expiry of leases: `sweepExpiredTasks` (internal/server/api/agent_handlers.go) fails the
-- reserved leases that are past `expires_at`.
use lightai_go.Common.{
  ℕ, String, ◌≡◌, refl, not, ◌&&◌, none, List, [], ◌∷◌, arith, inl, inr, find, All, All-append,
  All-update_where, All-filter_by, update_where, delete_where, Option-cases, if_holds, string_eq,
  ◌==◌,
}
use lightai_go.Control.{Node, Lease, Db, insert_lease}
use lightai_go.Control.Claim.{sweep_leases}
use lightai_go.Control.Nodes.{HeartbeatReply, handle_heartbeat}
use lightai_go.Control.Transactions.{kept_by_guard}
use lightai_go.Control.Result.{release_leases, settle_leases}
use lightai_go.Control.Steps.{Reach}
use lightai_go.Control.LeaseRules.{Rules, Reach-lease_rule}

abbrev pub HasNoExpiry : Lease → Type 0
HasNoExpiry l = l.expires_at ≡ none

sweep_leases-id : (now : ℕ) (ls : List Lease) → All HasNoExpiry ls → sweep_leases now ls ≡ ls
unfolding sweep_leases update_where
sweep_leases-id now [] h = refl
sweep_leases-id now (l ∷ ls) h = ground (arith, sweep_leases-id now ls h.1)

expiry_rules : Rules (All HasNoExpiry)
unfolding sweep_leases release_leases settle_leases delete_where insert_lease
expiry_rules = record {
  sweep = λ now ls h. All-update_where HasNoExpiry HasNoExpiry _ _ ls (λ l p _. p) (λ l p _. p) h;
  settle =
      λ id status ls h. All-update_where HasNoExpiry HasNoExpiry _ _ ls (λ l p _. p) (λ l p _. p) h;
  release = λ id ls h. All-update_where HasNoExpiry HasNoExpiry _ _ ls (λ l p _. p) (λ l p _. p) h;
  remove = λ p ls h. All-filter_by HasNoExpiry _ ls h;
  cancel = λ id ls h. All-update_where HasNoExpiry HasNoExpiry _ _ ls (λ l p _. p) (λ l p _. p) h;
  add = λ l db db' e h inserted.
      kept_by_guard (λ d. All HasNoExpiry d.leases) _ _ db' inserted
        (All-append HasNoExpiry db.leases (l ∷ []) h (e, tt));
}

-- From any tables without a lease, whatever nodes, deployments and tasks they have and whatever has
-- happened since, a heartbeat leaves every lease as it is: a reserved lease whose start task has
-- timed out stays reserved.
pub heartbeat_frees_no_lease :
    (before db : Db) (node agent : String) (now : ℕ)
    → before.leases ≡ []
    → Reach before db
    → (handle_heartbeat db node agent now).0.leases ≡ db.leases
unfolding handle_heartbeat
heartbeat_frees_no_lease before db node agent now none_yet r =
    let held : All HasNoExpiry before.leases = rw none_yet tt in
    let same =
      sweep_leases-id now db.leases (Reach-lease_rule (All HasNoExpiry) expiry_rules held r) in
    if_holds (λ (s : Db × HeartbeatReply). s.0.leases ≡ db.leases) (node == "") _ _ refl
      (elim (Option-cases (find (λ (n : Node). n.id == node) db.nodes)) [
        | inl e ↦ rw e refl
        | inr (n, e) ↦ rw e (
            if_holds (λ (s : Db × HeartbeatReply). s.0.leases ≡ db.leases)
              (not (n.agent_id == "") && not (n.agent_id == agent)) _ _ refl same)
      ])
