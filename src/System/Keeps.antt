-- ===== src/System/Keeps.antt =====
-- What every part of the manager keeps of the task objects: those that exist keep their IDs, and the
-- IDs of the sorted list stay in it.
pub mod Operations
use minkube.Base.{
  String, List, [], ◌∷◌, true, false, nat_eq, ◌==◌, ==_iff, arith, ◌≡◌, refl, contains, Option,
  none, some, ◌∙◌, ap, sym, subst, map, fun_ext, inl, inr, Bool-cases, Option-cases, string_eq,
  Bool, ltb, ◌&&◌,
}
use minkube.Base.GoMap
use minkube.Base.GoMap.{lookup-delete}
use minkube.Base.Queue.{QueueOps}
use minkube.Heap.{Heap, Ptr, write, alloc}
use minkube.Manager.{Manager}
use minkube.Manager.Cleanup.{forget_task, clean_up_task, clean_up_loop, clean_up_tasks}
use minkube.Manager.Health.{health_check_worker, mark_worker_up, mark_worker_down}
use minkube.Manager.Invariant.{Inv, IsAllocated}
use minkube.Manager.Invariant.Add.{contains-add_sorted}
use minkube.Manager.Invariant.Send.{InFlight, heap-Inv}
use minkube.Manager.Invariant.Update.{alloc-Inv, alloc_old, alloc_alive, alloc_ids, update_task-Inv}
use minkube.Manager.Sorted.{add_task}
use minkube.Manager.Sorted.Laws.{ids_of, contains-insert_sorted}
use minkube.Manager.Update.{
  Reply, request_error, send_error, bad_status, bad_body, tasks, refresh_task, adopt_task,
  update_task, update_loop, update_worker,
}
use minkube.ManagerHttp.Handlers.{
  is_valid_request, full_task, submit_task, start_task_handler, stop_task, stop_task_handler,
}
use minkube.Task.{
  Task, TaskEvent, Uuid, Time, StartTaskEventRequest, completed, differs, is_completed,
}

module _ {Q : Type 0} where
  pub record Keeps (m m' : Manager Q) : Type 0 where
    pub alive : (p : Ptr) → IsAllocated m.heap p → IsAllocated m'.heap p
    pub same_id : (p : Ptr) → IsAllocated m.heap p → (m'.heap.cell p).id ≡ (m.heap.cell p).id
    pub still_listed :
        (id : Uuid)
        → contains id (ids_of m.heap m.sorted_tasks) ≡ true
        → contains id (ids_of m'.heap m'.sorted_tasks) ≡ true
    pub no_new_event :
        (id : Uuid) (te : TaskEvent)
        → GoMap.lookup id m'.event_db ≡ some te
        → GoMap.lookup id m.event_db ≡ some te
    pub same_workers : m'.workers ≡ m.workers

  pub Keeps-refl : (m : Manager Q) → Keeps m m
  Keeps-refl m = record {
    alive = λ p a. a;
    same_id = λ p a. refl;
    still_listed = λ id l. l;
    no_new_event = λ id te e. e;
    same_workers = refl;
  }

  pub Keeps-trans : (m1 m2 m3 : Manager Q) → Keeps m1 m2 → Keeps m2 m3 → Keeps m1 m3
  Keeps-trans m1 m2 m3 k l = record {
    alive = λ p a. l.alive p (k.alive p a);
    same_id = λ p a. l.same_id p (k.alive p a) ∙ k.same_id p a;
    still_listed = λ id c. l.still_listed id (k.still_listed id c);
    no_new_event = λ id te e. k.no_new_event id te (l.no_new_event id te e);
    same_workers = l.same_workers ∙ k.same_workers;
  }

  -- A manager with the same objects and the same list.
  pub Keeps-same :
      (m m' : Manager Q)
      → m'.heap ≡ m.heap
      → m'.sorted_tasks ≡ m.sorted_tasks
      → m'.workers ≡ m.workers
      → ((id : Uuid) (te : TaskEvent)
          → GoMap.lookup id m'.event_db ≡ some te
          → GoMap.lookup id m.event_db ≡ some te)
      → Keeps m m'
  Keeps-same m m' e f u g = record {
    same_workers = u;
    no_new_event = g;
    alive = λ p a. rw e a;
    same_id = λ p a. rw e refl;
    still_listed = λ id c. rw (e, f) c;
  }

  -- A new heap of the same size in which every object keeps its ID.
  pub Keeps-heap :
      (m : Manager Q) (h : Heap)
      → ((p : Ptr) → (h.cell p).id ≡ (m.heap.cell p).id)
      → h.next ≡ m.heap.next
      → Keeps m (record m { heap = h })
  Keeps-heap m h e n = record {
    same_workers = refl;
    alive = λ p a. omega arith;
    same_id = λ p a. e p;
    no_new_event = λ id te k. k;
    still_listed = λ id c. rw (ap (λ f. map f m.sorted_tasks) (fun_ext e)) c;
  }

  pub InFlight-Keeps :
      ⦃queue : QueueOps Q⦄ (m m' : Manager Q) (t : Ptr) → Keeps m m' → InFlight m t → InFlight m' t
  InFlight-Keeps m m' t k (a, l) = (
    k.alive t a,
    subst (λ id. contains id (ids_of m'.heap m'.sorted_tasks) ≡ true) (sym (k.same_id t a))
        (k.still_listed _ l),
  )
