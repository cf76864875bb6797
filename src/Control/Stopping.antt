-- ===== src/Control/Stopping.antt =====
-- What `HandleStopDeployment` (internal/server/api/deployment_lifecycle_handlers.go) does to the
-- tables when no other handler runs while it waits.
use lightai_go.Common.{
  ℕ, String, ◌≡◌, refl, ap, sym, ◌∙◌, ◌⊎◌, Bool, true, false, not, ◌&&◌, ◌||◌, none, some, List, [],
  ◌∷◌, ◌++◌, append-nil, append_assoc, map, any, any-append, find, All, All-append, subst, contains,
  update_where, filter_by, arith, inl, inr, Bool-cases, Option-cases, string_eq, eq_refl, ◌==◌,
  if◌then◌else◌,
}
use lightai_go.Control.{
  model_instance_stop, TaskStatus, InstanceState, DeploymentStatus, Node, Deployment, Instance,
  Task, Db, Caller, tenant_scope_check, is_stopped, insert_task,
}
use lightai_go.Control.Lifecycle.{set_deployment}
use lightai_go.Control.Shutdown.{
  stopping_from, mark_stopping, node_is_online, stop_task, stop_one, stop_all, stop_deployment,
  ShutdownReply, not_found, handle_stop_deployment,
}
use lightai_go.Control.Steps.{alone}

-- The row of an instance that is to stop
abbrev pub told_to_stop : Instance → Instance
told_to_stop i = record i {
  desired_state = InstanceState.stopped;
  actual_state = stopping_from i.actual_state;
}

abbrev pub is_one_of : List Instance → Instance → Bool
is_one_of is i = contains (map (λ (j : Instance). j.id) is) i.id

stopping_from-twice : (s : InstanceState) → stopping_from (stopping_from s) ≡ stopping_from s
stopping_from-twice InstanceState.pending = refl
stopping_from-twice InstanceState.starting = refl
stopping_from-twice InstanceState.provisioning = refl
stopping_from-twice InstanceState.running = refl
stopping_from-twice InstanceState.healthy = refl
stopping_from-twice InstanceState.stopping = refl
stopping_from-twice InstanceState.stopped = refl
stopping_from-twice InstanceState.failed = refl
stopping_from-twice InstanceState.initializing = refl

told_twice : (i : Instance) → told_to_stop (told_to_stop i) ≡ told_to_stop i
told_twice i =
    ap (λ (s : InstanceState). record i { desired_state = InstanceState.stopped; actual_state = s })
      (stopping_from-twice i.actual_state)

same_id : (a b : String) → (a == b) ≡ (b == a)
same_id a b = elim (Bool-cases (a == b)) [
  | inl e ↦ rw ((string_eq.equal_iff a b).0 e) refl
  | inr e ↦ elim (Bool-cases (b == a)) [
    | inl f ↦ rw ((string_eq.equal_iff b a).0 f) refl
    | inr f ↦ e ∙ sym f
  ]
]

none_told : (rows : List Instance) → update_where (is_one_of []) told_to_stop rows ≡ rows
unfolding update_where
none_told [] = refl
none_told (j ∷ rows) = ap (λ (js : List Instance). j ∷ js) (none_told rows)

told_both :
    (i : Instance) (is rows : List Instance)
    → update_where
        (is_one_of is)
        told_to_stop
        (update_where (λ (j : Instance). j.id == i.id) told_to_stop rows)
      ≡ update_where (is_one_of (i ∷ is)) told_to_stop rows
unfolding update_where
told_both i is [] = refl
told_both i is (j ∷ rows) =
    let rest = told_both i is rows in
    elim (Bool-cases (j.id == i.id)) [
      | inl e ↦
          let flipped : (i.id == j.id) ≡ true = rw (same_id i.id j.id) e in
          rw e (
            rw flipped (elim (Bool-cases (is_one_of is j)) [
              | inl f ↦
                  rw f (rw (told_twice j) (ap (λ (js : List Instance). told_to_stop j ∷ js) rest))
              | inr f ↦ rw f (ap (λ (js : List Instance). told_to_stop j ∷ js) rest)
            ]))
      | inr e ↦
          let flipped : (i.id == j.id) ≡ false = rw (same_id i.id j.id) e in
          rw e (
            rw flipped (
              ap (λ (js : List Instance). (if is_one_of is j then told_to_stop j else j) ∷ js)
                rest))
    ]

-- A stop task for one of the instances, whose node is online.
abbrev pub IsStopTask : List Node → List Instance → Task → Type 0
IsStopTask nodes is t =
    (t.task_type ≡ model_instance_stop)
    × (t.status ≡ TaskStatus.pending)
    × (any
          (λ (i : Instance).
            node_is_online i.node_id nodes && (t.instance_id == i.id && t.node_id == i.node_id))
          is
        ≡ true)

-- A run on an online node has a task of its id, new or from before.
abbrev pub HasTask : List Node → (String → String) → List Task → Instance → Type 0
HasTask nodes task_id tasks i =
    (not (node_is_online i.node_id nodes) || any (λ (u : Task). u.id == task_id i.id) tasks) ≡ true

module _ (deployment tenant operation : String) (task_id : String → String) (now : ℕ)
    (nodes : List Node) where
  abbrev task_of : Instance → Task
  task_of = stop_task alone deployment tenant operation task_id now

  -- The insert of an id that is there already fails.
  abbrev sent_one : Instance → List Task → List Task
  sent_one i tasks =
      if node_is_online i.node_id nodes && not (any (λ (u : Task). u.id == task_id i.id) tasks)
      then task_of i ∷ []
      else []

  abbrev sent_all : List Instance → List Task → List Task
  sent_all [] tasks = []
  sent_all (i ∷ is) tasks =
      let rest = sent_all is (tasks ++ sent_one i tasks) in sent_one i tasks ++ rest

  stop_one-eq :
      (i : Instance) (db : Db)
      → (stop_one alone deployment tenant operation task_id now nodes i db).0 ≡ record db {
        instances = update_where (λ (j : Instance). j.id == i.id) told_to_stop db.instances;
        tasks = db.tasks ++ sent_one i db.tasks;
      }
  unfolding stop_one mark_stopping insert_task
  stop_one-eq i db = elim (Bool-cases (node_is_online i.node_id nodes)) [
    | inr e ↦ rw e (rw append-nil refl)
    | inl e ↦ rw e (elim (Bool-cases (any (λ (u : Task). u.id == task_id i.id) db.tasks)) [
      | inl f ↦ rw f (rw append-nil refl)
      | inr f ↦ rw f refl
    ])
  ]

  stop_all-eq :
      (is : List Instance) (db : Db)
      → (stop_all alone deployment tenant operation task_id now nodes is db).0 ≡ record db {
        instances = update_where (is_one_of is) told_to_stop db.instances;
        tasks = db.tasks ++ sent_all is db.tasks;
      }
  unfolding stop_all
  stop_all-eq [] db = rw append-nil (rw (none_told db.instances) refl)
  stop_all-eq (i ∷ is) db =
      let mid : Db = record db {
        instances = update_where (λ (j : Instance). j.id == i.id) told_to_stop db.instances;
        tasks = db.tasks ++ sent_one i db.tasks;
      } in
      let rest = sent_all is (db.tasks ++ sent_one i db.tasks) in
      ap (λ (d : Db). (stop_all alone deployment tenant operation task_id now nodes is d).0)
        (stop_one-eq i db)
      ∙ (stop_all-eq is mid
          ∙ rw (told_both i is db.instances)
              (rw (append_assoc db.tasks (sent_one i db.tasks) rest) refl))

  sent_all-IsStopTask :
      (whole is : List Instance) (tasks : List Task)
      → ((p : Instance → Bool) → any p is ≡ true → any p whole ≡ true)
      → All (IsStopTask nodes whole) (sent_all is tasks)
  sent_all-IsStopTask whole [] tasks h = tt
  sent_all-IsStopTask whole (i ∷ is) tasks h =
      let mine : Instance → Bool =
        λ j. node_is_online j.node_id nodes && (i.id == j.id && i.node_id == j.node_id) in
      All-append (IsStopTask nodes whole) (sent_one i tasks) _
        (elim (Bool-cases (node_is_online i.node_id nodes)) [
          | inr e ↦ rw e tt
          | inl e ↦ rw e (elim (Bool-cases (any (λ (u : Task). u.id == task_id i.id) tasks)) [
            | inl f ↦ rw f tt
            | inr f ↦
                rw f (
                  (refl, refl, h mine (rw e (rw (eq_refl i.id) (rw (eq_refl i.node_id) refl)))),
                  tt,
                )
          ])
        ])
        (sent_all-IsStopTask whole is _ (λ p k. h p (ground arith)))

  first_HasTask :
      (i : Instance) (tasks rest : List Task)
      → HasTask nodes task_id (tasks ++ (sent_one i tasks ++ rest)) i
  first_HasTask i tasks rest = elim (Bool-cases (node_is_online i.node_id nodes)) [
    | inr e ↦ rw e refl
    | inl e ↦
        let named : Task → Bool = λ u. u.id == task_id i.id in
        rw e (elim (Bool-cases (any named tasks)) [
          | inl f ↦ rw f (rw (any-append named tasks rest) (rw f refl))
          | inr f ↦ rw f (
              rw (any-append named tasks (task_of i ∷ rest))
                (rw f (rw (eq_refl (task_id i.id)) refl)))
        ])
  ]

  sent_all-HasTask :
      (is : List Instance) (tasks : List Task)
      → All (HasTask nodes task_id (tasks ++ sent_all is tasks)) is
  sent_all-HasTask [] tasks = tt
  sent_all-HasTask (i ∷ is) tasks =
      let one = sent_one i tasks in
      let rest = sent_all is (tasks ++ one) in
      (
        first_HasTask i tasks rest,
        subst (λ (ts : List Task). All (HasTask nodes task_id ts) is) (append_assoc tasks one rest)
            (sent_all-HasTask is (tasks ++ one)),
      )

abbrev pub found_runs : String → Db → List Instance
found_runs id db =
    filter_by (λ (i : Instance). i.deployment_id == id && not (is_stopped i.actual_state))
      db.instances

module _ (operation : String) (task_id : String → String) (now : ℕ) (caller : Caller) (id : String)
    (db : Db) where
  abbrev pub stop_run : Db × ShutdownReply
  stop_run = handle_stop_deployment alone operation task_id now caller id db

  -- Each run of the deployment that is not stopped is told to stop, the deployment is marked, and
  -- stop tasks for the runs on online nodes are added, with no other change.
  abbrev pub IsStopping : List Task → Type 0
  IsStopping sent =
      (stop_run.0 ≡ record (set_deployment id DeploymentStatus.stopped db) {
        instances = update_where (is_one_of (found_runs id db)) told_to_stop db.instances;
        tasks = db.tasks ++ sent;
      })
      × All (IsStopTask db.nodes (found_runs id db)) sent
      × All (HasTask db.nodes task_id stop_run.0.tasks) (found_runs id db)

  abbrev pub MayStop : Deployment → Type 0
  MayStop d =
      (find (λ (e : Deployment). e.id == id) db.deployments ≡ some d)
      × (tenant_scope_check caller d.tenant_id ≡ true)

  abbrev pub IsAnswered : Type 0
  IsAnswered =
      ((d : Deployment) × MayStop d × (sent : List Task) × IsStopping sent)
      ⊎ (((d : Deployment) → ¬ MayStop d) × (stop_run ≡ (db, not_found)))

  allowed_stop :
      (d : Deployment)
      → MayStop d
      → stop_run.0 ≡ record (set_deployment id DeploymentStatus.stopped db) {
        instances = update_where (is_one_of (found_runs id db)) told_to_stop db.instances;
        tasks =
            db.tasks
            ++ sent_all id d.tenant_id operation task_id now db.nodes (found_runs id db) db.tasks;
      }
  unfolding handle_stop_deployment stop_deployment
  allowed_stop d (e, allowed) =
      rw (e, handle_stop_deployment)
        (rw allowed (
          ap (set_deployment id DeploymentStatus.stopped)
            (stop_all-eq id d.tenant_id operation task_id now db.nodes (found_runs id db) db)))

  allowed-IsStopping : (d : Deployment) → MayStop d → (sent : List Task) × IsStopping sent
  allowed-IsStopping d may =
      let found = found_runs id db in
      let sent = sent_all id d.tenant_id operation task_id now db.nodes found db.tasks in
      let after = allowed_stop d may in
      (
        sent,
        (
          after,
          sent_all-IsStopTask id d.tenant_id operation task_id now db.nodes found found db.tasks
              (λ p k. k),
          subst (λ (ts : List Task). All (HasTask db.nodes task_id ts) found)
              (sym (ap (λ (x : Db). x.tasks) after))
              (sent_all-HasTask id d.tenant_id operation task_id now db.nodes found db.tasks),
        ),
      )

  refused_stop :
      (find (λ (e : Deployment). e.id == id) db.deployments ≡ none)
        ⊎ ((d : Deployment) × (find (λ (e : Deployment). e.id == id) db.deployments ≡ some d)
            × (tenant_scope_check caller d.tenant_id ≡ false))
      → stop_run ≡ (db, not_found)
  unfolding handle_stop_deployment
  refused_stop (inl e) = rw (e, handle_stop_deployment) refl
  refused_stop (inr (d, e, denied)) = rw (e, handle_stop_deployment) (rw denied refl)

  -- A stop with no other handler at its waits, of a deployment that is there and in the caller's
  -- scope, tells exactly the instances to stop that have the id of a run of the deployment that is
  -- not stopped, marks the deployment as stopped and adds tasks, with no other change to any table:
  -- each added task is a pending stop task for such a run on an online node, and each such run on an
  -- online node has a task of the id made for it. Any other stop is told that the deployment is not
  -- found, and changes nothing.
  pub handle_stop_lem : IsAnswered
  handle_stop_lem = elim (Option-cases (find (λ (e : Deployment). e.id == id) db.deployments)) [
    | inl e ↦ inr ((λ d (f, _). let x = rw e at f in cc), refused_stop (inl e))
    | inr (d, e) ↦ elim (Bool-cases (tenant_scope_check caller d.tenant_id)) [
      | inl allowed ↦
          (let (sent, done) = allowed-IsStopping d (e, allowed) in
            inl (d, (e, allowed), sent, done))
      | inr denied ↦ inr (
        (λ d' (f, k).
            let same : some d ≡ some d' = sym e ∙ f in
            let one : d ≡ d' = cc in let x = rw one at denied in cc),
        refused_stop (inr (d, e, denied)),
      )
    ]
  ]
