-- ===== src/System/Keeps/Operations.antt =====
-- The operations that run between SendWork's parts keep the task objects and the sorted list.
use minkube.Base.{
  String, List, [], ◌∷◌, true, false, nat_eq, ==_iff, arith, ◌≡◌, refl, contains, Option, none,
  some, ap, sym, subst, inl, inr, Bool-cases, Option-cases, string_eq, Bool, ltb, ◌&&◌,
}
use minkube.Base.GoMap
use minkube.Base.GoMap.{lookup-delete}
use minkube.Base.Queue.{QueueOps}
use minkube.Heap.{Heap, Ptr, write, alloc}
use minkube.Manager.{Manager}
use minkube.Manager.Cleanup.{forget_task, clean_up_task, clean_up_loop, clean_up_tasks}
use minkube.Manager.Health.{health_check_worker, mark_worker_up, mark_worker_down}
use minkube.Manager.Invariant.{Inv}
use minkube.Manager.Invariant.Add.{contains-add_sorted}
use minkube.Manager.Invariant.Update.{alloc-Inv, alloc_old, alloc_alive, alloc_ids, update_task-Inv}
use minkube.Manager.Send.{schedule_task}
use minkube.Manager.Sorted.{add_task}
use minkube.Manager.Sorted.Laws.{contains-insert_sorted}
use minkube.Manager.Update.{
  Reply, request_error, send_error, bad_status, bad_body, tasks, refresh_task, adopt_task,
  update_task, update_loop, update_worker,
}
use minkube.ManagerHttp.Handlers.{
  is_valid_request, full_task, submit_task, start_task_handler, mark_completed,
}
use minkube.Task.{Task, Uuid, Time, StartTaskEventRequest, differs, is_completed}
use minkube.System.Keeps.{Keeps, Keeps-refl, Keeps-trans, Keeps-same, Keeps-heap}

module _ {Q : Type 0} where
  alloc-Keeps :
      ⦃queue : QueueOps Q⦄ (t : Task) (m : Manager Q)
      → Inv m
      → Keeps m (record m { heap = alloc t m.heap })
  alloc-Keeps t m v = record {
    alive = λ p a. alloc_alive t m.heap p a;
    same_workers = refl;
    same_id = λ p a. ap (λ x. x.id) (alloc_old t m.heap p a);
    no_new_event = λ id te k. k;
    still_listed = λ id c.
        subst (λ ids. contains id ids ≡ true)
          (sym (alloc_ids t m.heap m.sorted_tasks v.sorted_allocated)) c;
  }

  refresh_task-Keeps : (p : Ptr) (t : Task) (m : Manager Q) → Keeps m (refresh_task p t m)
  unfolding refresh_task write
  refresh_task-Keeps p t m = elim (Bool-cases (differs (m.heap.cell p).state t.state)) [
    | inl e ↦ rw e (Keeps-heap m _ (λ q. unfold write in ground (arith, ==_iff p q)) refl)
    | inr e ↦ rw e (Keeps-refl m)
  ]

  adopt_task-Keeps :
      ⦃queue : QueueOps Q⦄ (work : String) (t : Task) (m : Manager Q)
      → Inv m
      → Keeps m (adopt_task work t m)
  unfolding adopt_task
  adopt_task-Keeps work t m v =
      let h : Heap = alloc t m.heap in
      let k : Keeps m (record m { heap = h }) = alloc-Keeps t m v in
      record {
        alive = k.alive;
        same_workers = refl;
        same_id = k.same_id;
        no_new_event = k.no_new_event;
        still_listed = λ id c.
            ground
              (arith, contains-insert_sorted h m.sorted_tasks m.heap.next id, k.still_listed id c);
      }

  pub add_task-Keeps :
      ⦃queue : QueueOps Q⦄ (t : Ptr) (m : Manager Q) → Inv m → Keeps m (add_task t m)
  unfolding add_task
  add_task-Keeps t m v = record {
    alive = λ p a. a;
    same_workers = refl;
    same_id = λ p a. refl;
    no_new_event = λ id te k. k;
    still_listed =
        λ id c. ground (arith, contains-add_sorted m.heap m.sorted_tasks t id v.sorted_allocated);
  }

module _ {Q : Type 0} ⦃queue : QueueOps Q⦄ where
  update_task-Keeps :
      (work : String) (t : Task) (m : Manager Q) → Inv m → Keeps m (update_task work t m)
  unfolding update_task
  update_task-Keeps work t m v = elim (Option-cases (GoMap.lookup t.id m.task_db)) [
    | inl e ↦ rw (e, update_task) (adopt_task-Keeps work t m v)
    | inr (p, e) ↦ rw (e, update_task) (refresh_task-Keeps p t m)
  ]

  update_loop-Keeps :
      (work : String) (ts : List Task) (m : Manager Q) → Inv m → Keeps m (update_loop work ts m)
  unfolding update_loop
  update_loop-Keeps work [] m v = Keeps-refl m
  update_loop-Keeps work (t ∷ ts) m v =
      let m1 = update_task work t m in
      Keeps-trans m m1 (update_loop work ts m1) (update_task-Keeps work t m v)
        (update_loop-Keeps work ts m1 (update_task-Inv work t m v))

  pub update_worker-Keeps :
      (work : String) (reply : Reply) (m : Manager Q)
      → Inv m
      → Keeps m (update_worker work reply m).0
  unfolding update_worker
  update_worker-Keeps work request_error m v = Keeps-refl m
  update_worker-Keeps work send_error m v = Keeps-refl m
  update_worker-Keeps work bad_status m v = Keeps-refl m
  update_worker-Keeps work bad_body m v = Keeps-refl m
  update_worker-Keeps work (tasks ts) m v = update_loop-Keeps work ts m v

  pub health_check_worker-Keeps :
      (w : String) (reached : Bool) (m : Manager Q) → Keeps m (health_check_worker w reached m)
  unfolding health_check_worker mark_worker_up mark_worker_down
  health_check_worker-Keeps w true m = Keeps-same m _ refl refl refl (λ id te k. k)
  health_check_worker-Keeps w false m = Keeps-same m _ refl refl refl (λ id te k. k)

  forget_task-Keeps : (id : Uuid) (m : Manager Q) → Keeps m (forget_task id m)
  unfolding forget_task
  forget_task-Keeps id m = elim (Option-cases (GoMap.lookup id m.task_worker_map)) [
    | inl e ↦
        rw e
          (Keeps-same m _ refl refl refl (λ j te k. ground (arith, lookup-delete id j m.event_db)))
    | inr (w, e) ↦
        rw e
          (Keeps-same m _ refl refl refl (λ j te k. ground (arith, lookup-delete id j m.event_db)))
  ]

  clean_up_task-Keeps :
      (cutoff : Time) (id : Uuid) (m : Manager Q) → Keeps m (clean_up_task cutoff id m)
  unfolding clean_up_task
  clean_up_task-Keeps cutoff id m = elim (Option-cases (GoMap.lookup id m.task_db)) [
    | inl e ↦ rw (e, clean_up_task) (Keeps-refl m)
    | inr (t, e) ↦
        rw (e, clean_up_task)
          (elim (Bool-cases
            (is_completed (m.heap.cell t).state && ltb (m.heap.cell t).start_time cutoff)) [
              | inl go ↦ rw go (forget_task-Keeps id m)
              | inr stay ↦ rw stay (Keeps-refl m)
            ])
  ]

  clean_up_loop-Keeps :
      (cutoff : Time) (ids : List Uuid) (m : Manager Q) → Keeps m (clean_up_loop cutoff ids m)
  unfolding clean_up_loop
  clean_up_loop-Keeps cutoff [] m = Keeps-refl m
  clean_up_loop-Keeps cutoff (id ∷ ids) m =
      let m1 = clean_up_task cutoff id m in
      Keeps-trans m m1 (clean_up_loop cutoff ids m1) (clean_up_task-Keeps cutoff id m)
        (clean_up_loop-Keeps cutoff ids m1)

  pub clean_up_tasks-Keeps :
      (order : List Uuid) (now : Time) (m : Manager Q) → Keeps m (clean_up_tasks order now m)
  unfolding clean_up_tasks
  clean_up_tasks-Keeps order now m = clean_up_loop-Keeps _ order m

  submit_task-Keeps : (t : Task) (m : Manager Q) → Inv m → Keeps m (submit_task t m)
  unfolding submit_task
  submit_task-Keeps t m v =
      let m1 = record m { heap = alloc t m.heap } in
      Keeps-trans m m1 (add_task m.heap.next m1) (alloc-Keeps t m v)
        (add_task-Keeps m.heap.next m1 (alloc-Inv t m v))

  pub start_task_handler-Keeps :
      (id : Uuid) (now : Time) (correlation_id : String) (body : Option StartTaskEventRequest)
      (m : Manager Q)
      → Inv m
      → Keeps m (start_task_handler id now correlation_id body m).0
  unfolding start_task_handler
  start_task_handler-Keeps id now correlation_id none m v = Keeps-refl m
  start_task_handler-Keeps id now correlation_id (some event) m v =
      elim (Bool-cases (is_valid_request event.task)) [
        | inl e ↦ rw e (submit_task-Keeps (full_task id now correlation_id event.task) m v)
        | inr e ↦ rw e (Keeps-refl m)
      ]

  pub mark_completed-Keeps : (p : Ptr) (m : Manager Q) → Keeps m (mark_completed p m)
  unfolding mark_completed write
  mark_completed-Keeps p m =
      Keeps-heap m _ (λ q. unfold write in ground (arith, ==_iff p q)) (unfold write in refl)

  pub schedule_task-Keeps : (t : Ptr) (m : Manager Q) → Keeps m (schedule_task t m)
  unfolding schedule_task write
  schedule_task-Keeps t m =
      Keeps-heap m _ (λ q. unfold write in ground (arith, ==_iff t q)) (unfold write in refl)
