-- ===== src/Manager/Update/Laws.antt =====
-- updateTasks of internal/manager/manager.go: what the table says after the workers' replies.
use minkube.Base.{
  String, List, [], ◌∷◌, false, nat_eq, string_eq, ◌==◌, ==_iff, if◌then◌else◌, arith, ◌≡◌, refl,
  Option, none, some, ◌∙◌, ap, Option-cases, Bool-cases, inl, inr,
}
use minkube.Base.GoMap
use minkube.Base.GoMap.{lookup-insert, lookup_or-insert}
use minkube.Base.Queue.{QueueOps}
use minkube.Heap.{Heap, Ptr, write, alloc}
use minkube.Manager.{Manager}
use minkube.Manager.Invariant.{Inv}
use minkube.Manager.Invariant.Update.{update_task-Inv, update_loop-Inv}
use minkube.Manager.Update.{
  Reply, request_error, send_error, bad_status, bad_body, tasks, refresh_task, adopt_task,
  update_task, update_loop, update_tasks,
}
use minkube.Task.{Task, State, Uuid, differs}

-- The state that the table has for an ID.
abbrev pub state_at : Heap → Option Ptr → Option State
state_at h none = none
state_at h (some p) = some (h.cell p).state

abbrev pub known_state : {Q : Type 0} → Uuid → Manager Q → Option State
known_state id m = state_at m.heap (GoMap.lookup id m.task_db)

-- What a list of tasks reports of an ID: the state of the last task with it.
abbrev pub reported : Uuid → List Task → Option State → Option State
reported id [] before = before
reported id (t ∷ ts) before = reported id ts (if t.id == id then some t.state else before)

differs_lem : (s t : State) → differs s t ≡ false → s ≡ t
differs_lem s t h = ground arith

module _ {Q : Type 0} ⦃queue : QueueOps Q⦄ (work : String) (t : Task) (id : Uuid) (m : Manager Q)
    (v : Inv m) where
  adopt_task_state :
      known_state id (adopt_task work t m) ≡ (if t.id == id then some t.state else known_state id m)
  unfolding adopt_task alloc write
  adopt_task_state = elim (Option-cases (GoMap.lookup id m.task_db)) [
    | inl e ↦ ground (arith, lookup-insert t.id id m.heap.next m.task_db)
    | inr (q, e) ↦
        ground (arith, lookup-insert t.id id m.heap.next m.task_db, v.table_allocated id q e)
  ]

  refresh_task_state :
      (p : Ptr)
      → GoMap.lookup t.id m.task_db ≡ some p
      → known_state id (refresh_task p t m)
        ≡ (if t.id == id then some t.state else known_state id m)
  unfolding refresh_task write
  refresh_task_state p k = elim (Option-cases (GoMap.lookup id m.task_db)) [
    | inl e ↦ elim (Bool-cases (differs (m.heap.cell p).state t.state)) [
      | inl d ↦ rw d (ground (arith, ==_iff t.id id))
      | inr d ↦ rw d (ground (arith, ==_iff t.id id))
    ]
    | inr (q, e) ↦
        let same = v.table_keys id q e in
        let own = v.table_keys t.id p k in
        elim (Bool-cases (differs (m.heap.cell p).state t.state)) [
          | inl d ↦ rw d (ground (arith, ==_iff t.id id, ==_iff p q))
          | inr d ↦ rw d (
              ground
                (arith, ==_iff t.id id, ==_iff p q, differs_lem (m.heap.cell p).state t.state d))
        ]
  ]

  update_task_state :
      known_state id (update_task work t m)
      ≡ (if t.id == id then some t.state else known_state id m)
  unfolding update_task
  update_task_state = elim (Option-cases (GoMap.lookup t.id m.task_db)) [
    | inl e ↦ rw (e, update_task) adopt_task_state
    | inr (p, e) ↦ rw (e, update_task) (refresh_task_state p e)
  ]

-- After a worker's tasks are merged, the table has every task that was reported, with the state
-- last reported, and what it says of the other tasks is as before.
update_loop_state :
    {Q : Type 0} ⦃queue : QueueOps Q⦄ (work : String) (ts : List Task) (id : Uuid) (m : Manager Q)
    → Inv m
    → known_state id (update_loop work ts m) ≡ reported id ts (known_state id m)
unfolding update_loop
update_loop_state work [] id m v = refl
update_loop_state work (t ∷ ts) id m v =
    update_loop_state work ts id (update_task work t m) (update_task-Inv work t m v)
    ∙ ap (reported id ts) (update_task_state work t id m v)

-- What a round of replies reports of an ID, in the order of the replies.
abbrev pub reported_by : Uuid → List (String × Reply) → Option State → Option State
reported_by id [] before = before
reported_by id ((work, tasks ts) ∷ rs) before = reported_by id rs (reported id ts before)
reported_by id ((work, request_error) ∷ rs) before = reported_by id rs before
reported_by id ((work, send_error) ∷ rs) before = reported_by id rs before
reported_by id ((work, bad_status) ∷ rs) before = reported_by id rs before
reported_by id ((work, bad_body) ∷ rs) before = reported_by id rs before

-- After a round of updateTasks the table has every task that some worker reported, with the state
-- that was reported last; failed requests change nothing.
pub update_tasks_state :
    {Q : Type 0} ⦃queue : QueueOps Q⦄ (rs : List (String × Reply)) (id : Uuid) (m : Manager Q)
    → Inv m
    → known_state id (update_tasks rs m).0 ≡ reported_by id rs (known_state id m)
unfolding update_tasks
update_tasks_state [] id m v = refl
update_tasks_state ((work, request_error) ∷ rs) id m v = update_tasks_state rs id m v
update_tasks_state ((work, send_error) ∷ rs) id m v = update_tasks_state rs id m v
update_tasks_state ((work, bad_status) ∷ rs) id m v = update_tasks_state rs id m v
update_tasks_state ((work, bad_body) ∷ rs) id m v = update_tasks_state rs id m v
update_tasks_state ((work, tasks ts) ∷ rs) id m v =
    update_tasks_state rs id (update_loop work ts m) (update_loop-Inv work ts m v)
    ∙ ap (reported_by id rs) (update_loop_state work ts id m v)
