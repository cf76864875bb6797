-- ===== src/Control/Reporting.antt =====
-- What a report does to its task, and to the leases of its instance.
use lightai_go.Common.{
  ℕ, String, ◌≡◌, refl, ◌≢◌, Bool, true, false, ◌&&◌, ◌||◌, some, List, [], ◌∷◌, arith, inl, inr,
  any, find, find_holds, update_where, Bool-cases, Option-cases, eq_iff, string_eq, ◌==◌,
  if◌then◌else◌,
}
use lightai_go.Control.{
  TaskStatus, completed, TaskType, model_instance_start, model_instance_stop, Report, Lease,
  LeaseStatus, Task, Db, is_terminal, is_live, is_reserved,
}
use lightai_go.Control.Result.{
  ok, task_already_terminal, finish_task, release_leases, settle_leases, reported_completed,
  reported_failed, apply_report, says_completed, says_failed, is_success, error_of, instance_of,
  handle_task_result,
}

find-update :
    (id : String) (f : Task → Task) (ts : List Task) (t : Task)
    → ((u : Task) → (f u).id ≡ u.id)
    → find (λ u. u.id == id) ts ≡ some t
    → find (λ u. u.id == id) (update_where (λ u. u.id == id) f ts) ≡ some (f t)
unfolding update_where
find-update id f [] t keeps e = cc
find-update id f (u ∷ ts) t keeps e =
    ground (arith, keeps u, find-update id f ts t keeps, eq_iff u.id id, eq_iff (f u).id id)

completed-tasks :
    (type : TaskType) (id : String) (success : Bool) (req : Report) (error : String) (now : ℕ)
    (db : Db)
    → (reported_completed type id success req error now db).tasks ≡ db.tasks
unfolding reported_completed
completed-tasks model_instance_start id success req error now db = ground arith
completed-tasks _ id success req error now db = ground arith

failed-tasks :
    (type : TaskType) (id : String) (req : Report) (db : Db)
    → (reported_failed type id req db).tasks ≡ db.tasks
unfolding reported_failed
failed-tasks model_instance_start id req db = ground arith
failed-tasks _ id req db = ground arith

taken :
    (db : Db) (id : String) (req : Report) (now : ℕ)
    → (handle_task_result db id req now).1 ≡ ok
    → (t : Task) × (find (λ (u : Task). u.id == id) db.tasks ≡ some t)
      × ((handle_task_result db id req now).0 ≡ apply_report t req now db)
unfolding handle_task_result
taken db id req now accepted = elim (Option-cases (find (λ (u : Task). u.id == id) db.tasks)) [
  | inl e ↦ absurd (let wrong = rw (e, handle_task_result) at accepted in cc)
  | inr (t, e) ↦ (
    t,
    e,
    rw (e, handle_task_result) (let reply = rw (e, handle_task_result) at accepted in ground arith),
  )
]

-- Only the task's own row changes, and it ends.
apply_report-tasks :
    (t : Task) (req : Report) (now : ℕ) (db : Db)
    → (says_completed req || says_failed req) ≡ true
    → (s : TaskStatus) × (is_terminal s ≡ true)
      × ((apply_report t req now db).tasks ≡ (finish_task t.id s req now db).tasks)
unfolding apply_report
apply_report-tasks t req now db says = elim (Bool-cases (says_completed req)) [
  | inl done ↦ (
    if is_success req then completed else TaskStatus.failed,
    ground arith,
    rw done
        (completed-tasks t.task_type (instance_of t req) (is_success req) req (error_of req) now _),
  )
  | inr other ↦ (
    TaskStatus.failed,
    refl,
    rw other (
        let failing : says_failed req ≡ true = ground arith in
        rw failing (failed-tasks t.task_type (instance_of t req) req _)),
  )
]

ignored :
    (db : Db) (id : String) (req : Report) (now : ℕ) (t : Task)
    → find (λ (u : Task). u.id == id) db.tasks ≡ some t
    → is_terminal t.status ≡ true
    → handle_task_result db id req now ≡ (db, task_already_terminal)
unfolding handle_task_result
ignored db id req now t e ended = rw (e, handle_task_result) (rw ended refl)

-- After a report that is taken, and that says how the task ended, every further report of the
-- task changes nothing.
pub handle_task_result_once :
    (db : Db) (id : String) (req again : Report) (now later : ℕ)
    → (says_completed req || says_failed req) ≡ true
    → (handle_task_result db id req now).1 ≡ ok
    → let db' = (handle_task_result db id req now).0 in
      handle_task_result db' id again later ≡ (db', task_already_terminal)
unfolding finish_task
handle_task_result_once db id req again now later says accepted =
    let (t, found, applied) = taken db id req now accepted in
    let (s, ended, rows) = apply_report-tasks t req now db says in
    let same : t.id ≡ id =
      (eq_iff t.id id).0 (find_holds (λ (u : Task). u.id == id) db.tasks t found) in
    let ends : Task → Task =
      λ u. record u { status = s; result = some req; finished_at = some now } in
    let after : (handle_task_result db id req now).0.tasks
        ≡ update_where (λ u. u.id == id) ends db.tasks =
      rw (applied, rows, same) refl in
    ignored (handle_task_result db id req now).0 id again later (ends t)
      (rw after (find-update id ends db.tasks t (λ u. refl) found)) ended

release_leases_lem :
    (id : String) (ls : List Lease)
    → any (λ l. l.instance_id == id && is_live l.status) (release_leases id ls) ≡ false
unfolding release_leases update_where
release_leases_lem id [] = refl
release_leases_lem id (l ∷ ls) = ground (arith, release_leases_lem id ls)

settle_leases_lem :
    (id : String) (status : LeaseStatus) (ls : List Lease)
    → is_reserved status ≡ false
    → any (λ l. l.instance_id == id && is_reserved l.status) (settle_leases id status ls) ≡ false
unfolding settle_leases update_where
settle_leases_lem id status [] h = refl
settle_leases_lem id status (l ∷ ls) h = ground (arith, settle_leases_lem id status ls)

abbrev pub is_live_for : String → Lease → Bool
is_live_for id l = l.instance_id == id && is_live l.status

abbrev pub is_reserved_for : String → Lease → Bool
is_reserved_for id l = l.instance_id == id && is_reserved l.status

stop_releases :
    (type : TaskType) (id : String) (success : Bool) (req : Report) (error : String) (now : ℕ)
    (db : Db)
    → type ≡ model_instance_stop
    → id ≢ ""
    → success ≡ true
    → any (is_live_for id) (reported_completed type id success req error now db).leases ≡ false
unfolding reported_completed
stop_releases model_instance_stop id success req error now db _ named e =
    ground (arith, eq_iff id "", release_leases_lem id db.leases)
stop_releases _ id success req error now db type named e = absurd (cc)

start_settles :
    (type : TaskType) (id : String) (success : Bool) (req : Report) (error : String) (now : ℕ)
    (db : Db)
    → type ≡ model_instance_start
    → id ≢ ""
    → any (is_reserved_for id) (reported_completed type id success req error now db).leases ≡ false
unfolding reported_completed
start_settles model_instance_start id success req error now db _ named = ground (
  arith,
  eq_iff id "",
  settle_leases_lem id LeaseStatus.active db.leases refl,
  settle_leases_lem id LeaseStatus.failed db.leases refl,
)
start_settles _ id success req error now db type named = absurd (cc)

start_failure_settles :
    (type : TaskType) (id : String) (req : Report) (db : Db)
    → type ≡ model_instance_start
    → id ≢ ""
    → any (is_reserved_for id) (reported_failed type id req db).leases ≡ false
unfolding reported_failed
start_failure_settles model_instance_start id req db _ named =
    ground (arith, eq_iff id "", settle_leases_lem id LeaseStatus.failed db.leases refl)
start_failure_settles _ id req db type named = absurd (cc)

module _ (db : Db) (id : String) (req : Report) (now : ℕ) (t : Task)
    (found : find (λ (u : Task). u.id == id) db.tasks ≡ some t) (named : instance_of t req ≢ "")
    (accepted : (handle_task_result db id req now).1 ≡ ok) where
  applied : (handle_task_result db id req now).0 ≡ apply_report t req now db
  applied =
      let (u, found', e) = taken db id req now accepted in let same : u ≡ t = cc in rw same at e

  -- When a report that says `completed`, with success, is taken for a stop task that names an
  -- instance, itself or by the report, no lease of that instance stays reserved or active.
  pub stop_report_releases :
      t.task_type ≡ model_instance_stop
      → says_completed req ≡ true
      → is_success req ≡ true
      → any (is_live_for (instance_of t req)) (handle_task_result db id req now).0.leases ≡ false
  unfolding apply_report
  stop_report_releases type done success = rw applied (
      rw done (
        stop_releases t.task_type (instance_of t req) (is_success req) req (error_of req) now _ type
          named success))

  -- When a report that says `completed` or `failed` is taken for a start task that names an
  -- instance, itself or by the report, no lease of that instance stays reserved.
  pub start_report_settles :
      t.task_type ≡ model_instance_start
      → (says_completed req || says_failed req) ≡ true
      → any (is_reserved_for (instance_of t req)) (handle_task_result db id req now).0.leases
        ≡ false
  unfolding apply_report
  start_report_settles type says = rw applied (elim (Bool-cases (says_completed req)) [
    | inl done ↦ rw done (
        start_settles t.task_type (instance_of t req) (is_success req) req (error_of req) now _ type
          named)
    | inr other ↦ rw other (
        let failing : says_failed req ≡ true = ground arith in
        rw failing (start_failure_settles t.task_type (instance_of t req) req _ type named))
  ])
