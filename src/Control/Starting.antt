-- ===== src/Control/Starting.antt =====
-- What `HandleStartDeployment` (internal/server/api/deployment_lifecycle_handlers.go) does to the
-- tables.
use lightai_go.Common.{
  ℕ, suc, String, ◌≡◌, refl, sym, ap, subst, ◌≢◌, Bool, true, false, none, some, List, [], ◌∷◌, ◌⊎◌,
  ◌++◌, map, append-nil, append_assoc, arith, inl, inr, Bool-cases, Option-cases, eq_refl,
  string_eq, ◌==◌,
}
use lightai_go.Control.{
  model_instance_start, DeploymentStatus, InstanceState, Instance, Lease, Db, Statement,
  transaction, commit, insert_instance, insert_lease, insert_task, insert_group, insert_plan,
}
use lightai_go.Control.Lifecycle.{
  Preflight, FreshIds, new_instance, new_lease, new_task, lease_statements, start_statements,
  set_deployment, deployment_starting, newest, is_active_run, active_deployment_run, StartReply,
  conflict, internal_error, started, handle_start_deployment,
}
use lightai_go.Control.Transactions.{
  transaction_cons, transaction_guard, transaction_nil, kept_by_guard-eq,
}

newest-append_none :
    (p : Instance → Bool) (is : List Instance) (i : Instance)
    → newest p is ≡ none
    → p i ≡ true
    → newest p (is ++ i ∷ []) ≡ some i
newest-append_none p [] i e h = ground arith
newest-append_none p (j ∷ is) i e h = ground (arith, newest-append_none p is i)

newest_holds :
    (p : Instance → Bool) (is : List Instance) (i : Instance) → newest p is ≡ some i → p i ≡ true
newest_holds p [] i h = cc
newest_holds p (j ∷ is) i h = ground (arith, newest_holds p is i)

no_active_run :
    (deployment : String) (db : Db)
    → active_deployment_run db deployment ≡ none
    → newest (is_active_run deployment) db.instances ≡ none
unfolding active_deployment_run
no_active_run deployment db e =
    elim (Option-cases (newest (is_active_run deployment) db.instances)) [
      | inl nobody ↦ nobody
      | inr (i, found) ↦
          let active = newest_holds (is_active_run deployment) db.instances i found in ground arith
    ]

-- The one active instance of a deployment decides what the next start is told.
active_of_new :
    (deployment : String) (i : Instance) (db db' : Db)
    → active_deployment_run db deployment ≡ none
    → db'.instances ≡ db.instances ++ i ∷ []
    → i.actual_state ≡ InstanceState.pending
    → (i.deployment_id == deployment) ≡ true
    → active_deployment_run db' deployment ≡ some deployment_starting
unfolding active_deployment_run
active_of_new deployment i db db' idle added state same =
    let found : newest (is_active_run deployment) db'.instances ≡ some i = rw added (
      newest-append_none (is_active_run deployment) db.instances i
        (no_active_run deployment db idle) (ground arith)) in
    rw (found, active_deployment_run) (simp state)

module _ (fails : ℕ → Bool) (deployment : String) (pf : Preflight) (ids : FreshIds) (now : ℕ) where
  -- Only the rows of the new run are added, and the deployment is marked as running.
  pub record IsStarted (db db' : Db) : Type 0 where
    pub instances : db'.instances ≡ db.instances ++ new_instance deployment pf ids now ∷ []
    pub leases : db'.leases ≡ db.leases ++ map (new_lease deployment pf ids now) pf.accelerator_ids
    pub tasks :
        db'.tasks
        ≡ db.tasks
          ++ new_task deployment pf ids now model_instance_start ids.task ids.instance pf.node_id
              300
            ∷ []
    pub deployments :
        db'.deployments ≡ (set_deployment deployment DeploymentStatus.running db).deployments
    pub nodes : db'.nodes ≡ db.nodes
    pub groups :
        db'.groups
        ≡ db.groups
          ++ record { id = ids.group; deployment_plan_id = deployment; tenant_id = pf.tenant_id }
            ∷ []
    pub plans :
        db'.plans
        ≡ db.plans
          ++ record {
            id = ids.run_plan;
            deployment_id = deployment;
            instance_id = ids.instance;
            tenant_id = pf.tenant_id;
          }
            ∷ []
    pub gpus : db'.gpus ≡ db.gpus
    pub audits : db'.audits ≡ db.audits

  insert_lease-eq :
      (gpu : String) (db mid : Db)
      → insert_lease (new_lease deployment pf ids now gpu) db ≡ some mid
      → mid ≡ record db { leases = db.leases ++ new_lease deployment pf ids now gpu ∷ [] }
  unfolding insert_lease
  insert_lease-eq gpu db mid e = sym (kept_by_guard-eq _ _ mid e)

  leases_added :
      (k : ℕ) (gpus : List String) (rest : List Statement) (db db' : Db)
      → transaction fails k (lease_statements deployment pf ids now gpus ++ rest) db ≡ some db'
      → (j : ℕ) × (transaction fails j rest
            (record db { leases = db.leases ++ map (new_lease deployment pf ids now) gpus })
          ≡ some db')
  unfolding lease_statements
  leases_added k [] rest db db' e = (k, rw append-nil e)
  leases_added k (gpu ∷ gpus) rest db db' e =
      let (mid, inserted, later) = transaction_cons fails k _ _ db db' e in
      let written =
        subst
          (λ (d : Db).
            transaction fails (suc k) (lease_statements deployment pf ids now gpus ++ rest) d
            ≡ some db')
          (insert_lease-eq gpu db mid inserted) later in
      let (j, last) = leases_added (suc k) gpus rest _ db' written in
      (
        j,
        subst (λ (ls : List Lease). transaction fails j rest (record db { leases = ls }) ≡ some db')
            (append_assoc db.leases (new_lease deployment pf ids now gpu ∷ [])
              (map (new_lease deployment pf ids now) gpus))
            last,
      )

  transaction-IsStarted :
      (db db' : Db)
      → transaction fails 0 (start_statements deployment pf ids now) db ≡ some db'
      → IsStarted db db'
  unfolding start_statements insert_instance insert_group insert_plan insert_task
  transaction-IsStarted db db' e =
      let one = transaction_guard fails 0 _ _ db db' _ _ refl e in
      let two = transaction_guard fails 1 _ _ _ db' _ _ refl one in
      let three = transaction_guard fails 2 _ _ _ db' _ _ refl two in
      let (j, four) = leases_added 3 pf.accelerator_ids _ _ db' three in
      let five = transaction_guard fails j _ _ _ db' _ _ refl four in
      let six = transaction_guard fails (suc j) _ _ _ db' false _ refl five in
      let last = transaction_nil fails (suc (suc j)) _ db' six in
      record {
        instances = sym (ap (λ (d : Db). d.instances) last);
        leases = sym (ap (λ (d : Db). d.leases) last);
        tasks = sym (ap (λ (d : Db). d.tasks) last);
        deployments = sym (ap (λ (d : Db). d.deployments) last);
        nodes = sym (ap (λ (d : Db). d.nodes) last);
        groups = sym (ap (λ (d : Db). d.groups) last);
        plans = sym (ap (λ (d : Db). d.plans) last);
        gpus = sym (ap (λ (d : Db). d.gpus) last);
        audits = sym (ap (λ (d : Db). d.audits) last);
      }

  abbrev pub run : Db → Db × StartReply
  run = handle_start_deployment fails deployment pf ids now

  run-eq :
      (db : Db)
      → active_deployment_run db deployment ≡ none
      → pf.has_errors ≡ false
      → run db
        ≡ commit db internal_error started
            (transaction fails 0 (start_statements deployment pf ids now) db)
  unfolding handle_start_deployment
  run-eq db e fine = rw (e, handle_start_deployment) (simp fine)

  run_refused :
      (db : Db)
      → (active_deployment_run db deployment ≢ none) ⊎ (pf.has_errors ≡ true)
      → ((run db).1 ≢ started) × ((run db).0 ≡ db)
  unfolding handle_start_deployment
  run_refused db refused = ground arith

  -- A start that adds the rows of a new run, or one that changes nothing.
  abbrev pub IsAtomic : Db → Type 0
  IsAtomic db =
      (((run db).1 ≡ started)
        × (active_deployment_run db deployment ≡ none)
        × (pf.has_errors ≡ false)
        × IsStarted db (run db).0)
      ⊎ (((run db).1 ≢ started) × ((run db).0 ≡ db))

  -- Either the start answers `started`, no run of the deployment was active, the preflight had no
  -- errors, and the tables have the rows of the new run (its instance, group, plan, leases and task)
  -- and the deployment's mark, with no other change to any table; or it answers something else and
  -- all tables are as they were.
  pub run-IsAtomic : (db : Db) → IsAtomic db
  run-IsAtomic db = elim (Option-cases (active_deployment_run db deployment)) [
    | inr (reason, e) ↦ inr (run_refused db (inl (rw e (λ h. cc))))
    | inl e ↦ elim (Bool-cases pf.has_errors) [
      | inl wrong ↦ inr (run_refused db (inr wrong))
      | inr fine ↦
          elim (Option-cases (transaction fails 0 (start_statements deployment pf ids now) db)) [
            | inl failed ↦ inr (rw (run-eq db e fine) (rw failed ((λ h. cc), refl)))
            | inr (db', passed) ↦ inl (
                rw (run-eq db e fine)
                  (rw passed (refl, e, fine, transaction-IsStarted db db' passed)))
          ]
    ]
  ]

  -- After a start that succeeds, a second start of the deployment, whatever its preflight finds,
  -- changes nothing and answers that the deployment is starting.
  pub run_bars_run :
      (fails' : ℕ → Bool) (pf' : Preflight) (ids' : FreshIds) (later : ℕ) (db : Db)
      → (run db).1 ≡ started
      → handle_start_deployment fails' deployment pf' ids' later (run db).0
        ≡ ((run db).0, conflict deployment_starting)
  unfolding handle_start_deployment
  run_bars_run fails' pf' ids' later db h = elim (run-IsAtomic db) [
    | inr (refused, _) ↦ absurd (refused h)
    | inl (_, idle, _, new) ↦
        rw
          (
            active_of_new deployment (new_instance deployment pf ids now) db (run db).0 idle
                new.instances refl (eq_refl deployment),
            handle_start_deployment,
          )
          refl
  ]
