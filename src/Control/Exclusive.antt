-- ===== src/Control/Exclusive.antt =====
-- The reserved and active leases of a GPU, over histories of handlers (internal/server/api).
use lightai_go.Common.{
  ℕ, ◌≤◌, String, ◌≡◌, false, ◌&&◌, some, List, [], ◌∷◌, ◌++◌, arith, inl, inr, any, count_by,
  count_by-append, count_by_zero, count_by-update_where, count_by-delete_where, update_where,
  Bool-cases, string_eq, ◌==◌, eq_iff,
}
use lightai_go.Control.{Lease, LeaseStatus, released, Db, is_live, holds_gpu, insert_lease}
use lightai_go.Control.Claim.{sweep_leases}
use lightai_go.Control.Result.{release_leases, settle_leases}
use lightai_go.Control.Steps.{Reach}
use lightai_go.Control.LeaseRules.{Rules, Reach-lease_rule}

abbrev pub IsExclusive : Db → Type 0
IsExclusive db = (gpu : String) → count_by (holds_gpu gpu) db.leases ≤ 1

abbrev Shrinks : List Lease → List Lease → Type 0
Shrinks before after =
    (gpu : String) → count_by (holds_gpu gpu) after ≤ count_by (holds_gpu gpu) before

sweep_leases-Shrinks : (now : ℕ) (ls : List Lease) → Shrinks ls (sweep_leases now ls)
unfolding sweep_leases
sweep_leases-Shrinks now ls gpu =
    count_by-update_where (holds_gpu gpu) _ _ ls (λ l p q. ground arith)

settle_leases-Shrinks :
    (id : String) (status : LeaseStatus) (ls : List Lease) → Shrinks ls (settle_leases id status ls)
unfolding settle_leases
settle_leases-Shrinks id status ls gpu =
    count_by-update_where (holds_gpu gpu) _ _ ls (λ l p q. ground arith)

release_leases-Shrinks : (id : String) (ls : List Lease) → Shrinks ls (release_leases id ls)
unfolding release_leases
release_leases-Shrinks id ls gpu =
    count_by-update_where (holds_gpu gpu) _ _ ls (λ l p q. ground arith)

insert_bound :
    (l : Lease) (ls : List Lease) (gpu : String)
    → (is_live l.status && any (holds_gpu l.gpu_id) ls) ≡ false
    → count_by (holds_gpu gpu) ls ≤ 1
    → count_by (holds_gpu gpu) (ls ++ l ∷ []) ≤ 1
insert_bound l ls gpu free h = elim (Bool-cases (holds_gpu gpu l)) [
  | inl held ↦
      let same : l.gpu_id ≡ gpu = ground (arith, eq_iff l.gpu_id gpu) in
      let none_live : any (holds_gpu l.gpu_id) ls ≡ false = ground arith in
      ground (
        arith,
        count_by-append (holds_gpu gpu) ls (l ∷ []),
        count_by_zero (holds_gpu gpu) ls (rw same at none_live),
      )
  | inr other ↦ ground (arith, count_by-append (holds_gpu gpu) ls (l ∷ []))
]

insert_lease-IsExclusive :
    (l : Lease) (db db' : Db) → IsExclusive db → insert_lease l db ≡ some db' → IsExclusive db'
unfolding insert_lease
insert_lease-IsExclusive l db db' h e gpu = ground (arith, insert_bound l db.leases gpu, h gpu)

exclusive_rules : Rules (λ ls. (gpu : String) → count_by (holds_gpu gpu) ls ≤ 1)
exclusive_rules = record {
  sweep = λ now ls h gpu. omega (arith, sweep_leases-Shrinks now ls gpu, h gpu);
  settle = λ id status ls h gpu. omega (arith, settle_leases-Shrinks id status ls gpu, h gpu);
  release = λ id ls h gpu. omega (arith, release_leases-Shrinks id ls gpu, h gpu);
  remove = λ p ls h gpu. omega (arith, count_by-delete_where (holds_gpu gpu) p ls, h gpu);
  cancel = λ id ls h gpu. omega (arith, cancelled id ls gpu, h gpu);
  add = λ l db db' _ h e. insert_lease-IsExclusive l db db' h e;
}
  where
    cancelled :
        (id : String) (ls : List Lease)
        → Shrinks ls (
            update_where
              (λ l. l.deployment_id == id && is_live l.status)
              (λ l. record l { status = released })
              ls)
    cancelled id ls gpu = count_by-update_where (holds_gpu gpu) _ _ ls (λ l p q. ground arith)

-- In a state where no GPU has two reserved or active leases, none has after any history of
-- heartbeats, offline sweeps, transfers, reports, starts, stops and deletions, whatever fails.
pub Reach-IsExclusive : {db db' : Db} → IsExclusive db → Reach db db' → IsExclusive db'
Reach-IsExclusive h r = Reach-lease_rule _ exclusive_rules h r
