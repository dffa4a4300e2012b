-- ===== src/Manager/Invariant/Cleanup.antt =====
-- CleanUpTasks keeps the manager's invariant.
use minkube.Base.{
  String, List, [], ◌∷◌, true, false, nat_eq, string_eq, ◌==◌, ==_iff, arith, ◌≡◌, refl, contains,
  some, inl, inr, Option-cases, Bool-cases, ◌&&◌, ltb,
}
use minkube.Base.GoMap
use minkube.Base.GoMap.{lookup-insert, lookup-delete, lookup_or-insert}
use minkube.Base.Queue.{QueueOps}
use minkube.Manager.{Manager}
use minkube.Manager.Invariant.{Inv}
use minkube.Task.{Uuid, Time, is_completed}
use minkube.Manager.Cleanup.{
  remove_first, forget_assignment, forget_task, clean_up_task, clean_up_loop, clean_up_tasks,
}

-- Removing one ID from a list keeps the others.
contains-remove_first :
    (id j : Uuid) (xs : List Uuid)
    → (id == j) ≡ false
    → contains j (remove_first id xs) ≡ contains j xs
unfolding remove_first
contains-remove_first id j [] n = refl
contains-remove_first id j (x ∷ xs) n = ground (arith, ==_iff id j, contains-remove_first id j xs n)

module _ {Q : Type 0} ⦃queue : QueueOps Q⦄ where
  forget_mapped :
      (id_t : Uuid) (w : String) (id : Uuid) (u : String) (m : Manager Q)
      → Inv m
      → GoMap.lookup id (GoMap.delete id_t m.task_worker_map) ≡ some u
      → contains id (GoMap.lookup_or u [] (forget_assignment id_t w m.workers_task_map)) ≡ true
  unfolding forget_assignment
  forget_mapped id_t w id u m v h =
      let old : List Uuid = GoMap.lookup_or w [] m.workers_task_map in
      ground (
        arith,
        ==_iff w u,
        lookup-delete id_t id m.task_worker_map,
        lookup_or-insert w u [] (remove_first id_t old) m.workers_task_map,
        contains-remove_first id_t id old,
        v.assigned_mapped id u,
        v.assigned_mapped id w,
      )

  forget_task-Inv : (id_t : Uuid) (m : Manager Q) → Inv m → Inv (forget_task id_t m)
  unfolding forget_task
  forget_task-Inv id_t m v = elim (Option-cases (GoMap.lookup id_t m.task_worker_map)) [
    | inl e ↦ rw e record {
      heap_started = v.heap_started;
      table_keys = λ id p h. ground (arith, lookup-delete id_t id m.task_db, v.table_keys id p);
      table_allocated =
          λ id p h. ground (arith, lookup-delete id_t id m.task_db, v.table_allocated id p);
      table_listed = λ id p h. ground (arith, lookup-delete id_t id m.task_db, v.table_listed id p);
      sorted_allocated = v.sorted_allocated;
      queue_allocated = v.queue_allocated;
      queue_listed = v.queue_listed;
      events_known = λ id h. ground (
        arith,
        lookup-delete id_t id m.task_db,
        lookup-delete id_t id m.event_db,
        v.events_known id,
      );
      assigned_known = λ id h.
          ground (arith, ==_iff id_t id, lookup-delete id_t id m.task_db, v.assigned_known id);
      assigned_mapped = v.assigned_mapped;
    }
    | inr (w, e) ↦ rw e record {
      heap_started = v.heap_started;
      table_keys = λ id p h. ground (arith, lookup-delete id_t id m.task_db, v.table_keys id p);
      table_allocated =
          λ id p h. ground (arith, lookup-delete id_t id m.task_db, v.table_allocated id p);
      table_listed = λ id p h. ground (arith, lookup-delete id_t id m.task_db, v.table_listed id p);
      sorted_allocated = v.sorted_allocated;
      queue_allocated = v.queue_allocated;
      queue_listed = v.queue_listed;
      events_known = λ id h. ground (
        arith,
        lookup-delete id_t id m.task_db,
        lookup-delete id_t id m.event_db,
        v.events_known id,
      );
      assigned_known = λ id h. ground (
        arith,
        lookup-delete id_t id m.task_db,
        lookup-delete id_t id m.task_worker_map,
        v.assigned_known id,
      );
      assigned_mapped = λ id u h. forget_mapped id_t w id u m v h;
    }
  ]

  clean_up_task-Inv :
      (cutoff : Time) (id : Uuid) (m : Manager Q) → Inv m → Inv (clean_up_task cutoff id m)
  unfolding clean_up_task
  clean_up_task-Inv cutoff id m v = elim (Option-cases (GoMap.lookup id m.task_db)) [
    | inl e ↦ rw (e, clean_up_task) v
    | inr (t, e) ↦
        rw (e, clean_up_task)
          (elim (Bool-cases
            (is_completed (m.heap.cell t).state && ltb (m.heap.cell t).start_time cutoff)) [
              | inl go ↦ rw go (forget_task-Inv id m v)
              | inr stay ↦ rw stay v
            ])
  ]

  clean_up_loop-Inv :
      (cutoff : Time) (ids : List Uuid) (m : Manager Q) → Inv m → Inv (clean_up_loop cutoff ids m)
  unfolding clean_up_loop
  clean_up_loop-Inv cutoff [] m v = v
  clean_up_loop-Inv cutoff (id ∷ ids) m v =
      clean_up_loop-Inv cutoff ids (clean_up_task cutoff id m) (clean_up_task-Inv cutoff id m v)

-- CleanUpTasks keeps the invariant, in whatever order it visits the table.
pub clean_up_tasks-Inv :
    {Q : Type 0} ⦃queue : QueueOps Q⦄ (order : List Uuid) (now : Time) (m : Manager Q)
    → Inv m
    → Inv (clean_up_tasks order now m)
unfolding clean_up_tasks
clean_up_tasks-Inv order now m v = clean_up_loop-Inv _ order m v
