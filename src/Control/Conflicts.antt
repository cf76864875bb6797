-- ===== src/Control/Conflicts.antt =====
-- Runs that compete: a start that asks for a GPU that is taken.
use lightai_go.Common.{
  ℕ, ◌≤◌, String, ◌≡◌, subst, ◌≢◌, Bool, true, List, [], ◌∷◌, map, arith, inl, inr, any, count_by,
  count_by-append, contains, string_eq,
}
use lightai_go.Control.{Lease, Db, holds_gpu}
use lightai_go.Control.Lifecycle.{Preflight, FreshIds, new_lease, started, handle_start_deployment}
use lightai_go.Control.Steps.{start, here, next}
use lightai_go.Control.Exclusive.{IsExclusive, Reach-IsExclusive}
use lightai_go.Control.Starting.{run-IsAtomic}

count_by_pos : (p : Lease → Bool) (ls : List Lease) → any p ls ≡ true → 1 ≤ count_by p ls
count_by_pos p [] h = cc
count_by_pos p (l ∷ ls) h = ground (arith, count_by_pos p ls)

new_leases_hold :
    (deployment : String) (pf : Preflight) (ids : FreshIds) (now : ℕ) (gpu : String)
    (gpus : List String)
    → contains gpus gpu ≡ true
    → any (holds_gpu gpu) (map (new_lease deployment pf ids now) gpus) ≡ true
new_leases_hold deployment pf ids now gpu [] h = cc
new_leases_hold deployment pf ids now gpu (g ∷ gpus) h =
    ground (arith, new_leases_hold deployment pf ids now gpu gpus)

-- In a state where no GPU has two reserved or active leases, and one such lease holds a GPU, a
-- start that asks for this GPU does not succeed and changes nothing.
pub held_gpu_refuses_start :
    (fails : ℕ → Bool) (deployment : String) (pf : Preflight) (ids : FreshIds) (now : ℕ) (db : Db)
    (gpu : String)
    → IsExclusive db
    → any (holds_gpu gpu) db.leases ≡ true
    → contains pf.accelerator_ids gpu ≡ true
    → let r = handle_start_deployment fails deployment pf ids now db in (r.1 ≢ started) × (r.0 ≡ db)
held_gpu_refuses_start fails deployment pf ids now db gpu h held asked =
    elim (run-IsAtomic fails deployment pf ids now db) [
      | inr refused ↦ refused
      | inl (_, _, _, new) ↦
          let after = Reach-IsExclusive h (next here (start fails deployment pf ids now)) gpu in
          let counted =
            subst (λ (ls : List Lease). count_by (holds_gpu gpu) ls ≤ 1) new.leases after in
          absurd (
            omega (
              arith,
              counted,
              count_by-append (holds_gpu gpu) db.leases
                  (map (new_lease deployment pf ids now) pf.accelerator_ids),
              count_by_pos (holds_gpu gpu) db.leases held,
              count_by_pos (holds_gpu gpu) _
                  (new_leases_hold deployment pf ids now gpu pf.accelerator_ids asked),
            ))
    ]
