-- ===== src/System/Safety.antt =====
-- The manager's invariant in every interleaving of its goroutines.
use minkube.Base.{
  String, List, [], ◌∷◌, true, false, Bool-cases, nat_eq, string_eq, ◌==◌, some, ◌≡◌, refl, arith,
  subst, inl, inr, ◌<◌, All, All-map, ◌++◌,
}
use minkube.Base.Queue.{QueueOps}
use minkube.Heap.{Heap, Ptr}
use minkube.Manager.{Manager, new}
use minkube.Manager.Invariant.{Inv}
use minkube.Manager.Invariant.Cleanup.{clean_up_tasks-Inv}
use minkube.Manager.Invariant.New.{new-Inv, health_check_worker-Inv}
use minkube.Manager.Invariant.Send.{InFlight}
use minkube.Manager.Invariant.Update.{update_worker-Inv}
use minkube.Manager.Select.{get_healthy_workers, choose}
use minkube.Manager.Send.{
  SendReply, marshal_error, request_error, send_error, refused, created, take_pending, finish_send,
  record_sent,
}
use minkube.ManagerHttp.Handlers.Laws.{start_task_handler-Inv, mark_completed-Inv}
use minkube.System.{
  Phase, idle, Step, take, list_healthy, list_ready, choose_next, schedule, read_state, copy_task,
  finish, update, check, clean, post, mark, requeue, Stage, stage, Steps, done, more,
}
use minkube.System.Keeps.{Keeps, Keeps-refl, Keeps-same, InFlight-Keeps}
use minkube.System.Keeps.Operations.{
  update_worker-Keeps, health_check_worker-Keeps, clean_up_tasks-Keeps, start_task_handler-Keeps,
  add_task-Keeps, mark_completed-Keeps, schedule_task-Keeps,
}
use minkube.Task.{TaskEvent, Time}
use minkube.Base.GoMap
use minkube.Base.GoMap.{lookup-insert, lookup-empty}
use minkube.Manager.Sorted.{add_task}
use minkube.Manager.Invariant.Add.{add_task-Inv}
use minkube.ManagerHttp.Handlers.{mark_completed}
use minkube.System.Sending.{
  PhaseInv, EventsMatch, PhaseInv-Keeps, new-events, take-SendInv, choose-SendInv, schedule-SendInv,
  copied-PhaseInv, finish-SendInv, after_healthy-PhaseInv, after_ready-PhaseInv,
}

module _ {Q : Type 0} ⦃queue : QueueOps Q⦄ where
  -- The tasks that requests to stop them have marked exist and have their entries as well.
  abbrev pub SystemInv : Manager Q → Stage → Type 0
  SystemInv m (stage p ss) = Inv m × PhaseInv m p × EventsMatch m × All (InFlight m) ss

  stopping-Keeps :
      (m m' : Manager Q) (ss : List Ptr) → Keeps m m' → All (InFlight m) ss → All (InFlight m') ss
  stopping-Keeps m m' ss k a =
      All-map (InFlight m) (InFlight m') (λ t f. InFlight-Keeps m m' t k f) ss a

  kept-SystemInv :
      (q : Stage) (m m' : Manager Q) → Keeps m m' → Inv m' → SystemInv m q → SystemInv m' q
  kept-SystemInv (stage p ss) m m' k v' (v, f, g, a) = (
    v',
    PhaseInv-Keeps p m m' k f,
    λ id te e. g id te (k.no_new_event id te e),
    stopping-Keeps m m' ss k a,
  )

  take_pending-Keeps : (m : Manager Q) → Keeps m (take_pending m).0
  unfolding take_pending
  take_pending-Keeps m = elim (Bool-cases (queue.len m.pending_tasks == 0)) [
    | inl e ↦ rw e (Keeps-refl m)
    | inr e ↦ rw e (Keeps-same m _ refl refl refl (λ id te k. k))
  ]

  choose-Keeps : (ws : List String) (m : Manager Q) → Keeps m (choose ws m).0
  unfolding choose
  choose-Keeps [] m = Keeps-refl m
  choose-Keeps (w ∷ ws) m = Keeps-same m _ refl refl refl (λ id te k. k)

  added-stopping :
      (t : Ptr) (m m' : Manager Q) (ss : List Ptr)
      → some (add_task t m) ≡ some m'
      → Inv m
      → All (InFlight m) ss
      → All (InFlight m') ss
  added-stopping t m m' ss e v a =
      let same : add_task t m ≡ m' = ground (arith, e) in
      subst (λ x. All (InFlight x) ss) same
        (stopping-Keeps m (add_task t m) ss (add_task-Keeps t m v) a)

  -- Whatever the reply, the tasks of the requests stay, though an event may be new.
  finish_send-stopping :
      (t : Ptr) (w : String) (te : TaskEvent) (reply : SendReply) (m m' : Manager Q) (ss : List Ptr)
      → finish_send t w te reply m ≡ some m'
      → Inv m
      → All (InFlight m) ss
      → All (InFlight m') ss
  unfolding finish_send record_sent
  finish_send-stopping t w te marshal_error m m' ss e v a = added-stopping t m m' ss e v a
  finish_send-stopping t w te request_error m m' ss e v a = ground (arith, e)
  finish_send-stopping t w te send_error m m' ss e v a = added-stopping t m m' ss e v a
  finish_send-stopping t w te (refused true) m m' ss e v a = added-stopping t m m' ss e v a
  finish_send-stopping t w te (refused false) m m' ss e v a =
      let same : m ≡ m' = ground (arith, e) in subst (λ x. All (InFlight x) ss) same a
  finish_send-stopping t w te created m m' ss e v a =
      let same : record_sent t w te m ≡ m' = ground (arith, e) in
      subst (λ x. All (InFlight x) ss) same a

  requeued-All :
      (m : Manager Q) (before after : List Ptr) (t : Ptr)
      → All (InFlight m) (before ++ t ∷ after)
      → InFlight m t × All (InFlight m) (before ++ after)
  requeued-All m [] after t (f, a) = (f, a)
  requeued-All m (s ∷ before) after t (f, a) =
      let (g, b) = requeued-All m before after t a in (g, (f, b))

  requeue-SystemInv :
      (p : Phase) (before after : List Ptr) (t : Ptr) (m : Manager Q)
      → SystemInv m (stage p (before ++ t ∷ after))
      → SystemInv (add_task t m) (stage p (before ++ after))
  requeue-SystemInv p before after t m (v, f, g, a) =
      let (ft, rest) = requeued-All m before after t a in
      kept-SystemInv (stage p (before ++ after)) m (add_task t m) (add_task-Keeps t m v)
        (add_task-Inv t m ft.0 v) (v, f, g, rest)

  stage-Inv : (q : Stage) (m : Manager Q) → SystemInv m q → Inv m
  stage-Inv (stage p ss) m h = h.0

  step-SystemInv :
      (m : Manager Q) (q : Stage) (m' : Manager Q) (q' : Stage)
      → Step m q m' q'
      → SystemInv m q
      → SystemInv m' q'
  step-SystemInv m _ _ _ (take ss) (v, f, g, a) =
      let (v1, f1, g1) = take-SendInv m (v, f, g) in
      (v1, f1, g1, stopping-Keeps m _ ss (take_pending-Keeps m) a)
  step-SystemInv m _ _ _ (list_healthy ss t) (v, f, g, a) =
      (v, after_healthy-PhaseInv t m.workers (get_healthy_workers m) m f, g, a)
  step-SystemInv m _ _ _ (list_ready ss t healthy) (v, f, g, a) =
      (v, after_ready-PhaseInv t healthy m f, g, a)
  step-SystemInv m _ _ _ (choose_next ss t ws) (v, f, g, a) =
      let (v1, f1, g1) = choose-SendInv t ws m (v, f, g) in
      (v1, f1, g1, stopping-Keeps m _ ss (choose-Keeps ws m) a)
  step-SystemInv m _ _ _ (schedule ss t w) (v, f, g, a) =
      let (v1, f1, g1) = schedule-SendInv t w m (v, f, g) in
      (v1, f1, g1, stopping-Keeps m _ ss (schedule_task-Keeps t m) a)
  step-SystemInv m _ _ _ (read_state ss t w) h = h
  step-SystemInv m _ _ _ (copy_task ss t w s id now) (v, f, g, a) =
      (v, copied-PhaseInv t w s id now m f, g, a)
  step-SystemInv m _ _ _ (finish ss t w te reply m' e) (v, f, g, a) =
      let (v1, f1, g1) = finish-SendInv t w te reply m m' e (v, f, g) in
      (v1, f1, g1, finish_send-stopping t w te reply m m' ss e v a)
  step-SystemInv m q _ _ (update _ work reply) h =
      let v : Inv m = stage-Inv q m h in
      kept-SystemInv q m _ (update_worker-Keeps work reply m v) (update_worker-Inv work reply m v) h
  step-SystemInv m q _ _ (check _ w reached) h =
      kept-SystemInv q m _ (health_check_worker-Keeps w reached m)
        (health_check_worker-Inv w reached m (stage-Inv q m h)) h
  step-SystemInv m q _ _ (clean _ order now) h =
      kept-SystemInv q m _ (clean_up_tasks-Keeps order now m)
        (clean_up_tasks-Inv order now m (stage-Inv q m h)) h
  step-SystemInv m q _ _ (post _ id now c body) h =
      let v : Inv m = stage-Inv q m h in
      kept-SystemInv q m _ (start_task_handler-Keeps id now c body m v)
        (start_task_handler-Inv id now c body m v) h
  step-SystemInv m _ _ _ (mark p ss id t e) (v, f, g, a) =
      let k : Keeps m (mark_completed t m) = mark_completed-Keeps t m in
      let found : InFlight m t =
        (v.table_allocated id t e, rw (v.table_keys id t e) (v.table_listed id t e)) in
      kept-SystemInv (stage p (t ∷ ss)) m (mark_completed t m) k (mark_completed-Inv t m v)
        (v, f, g, (found, a))
  step-SystemInv m _ _ _ (requeue p before after t ss e) h =
      requeue-SystemInv p before after t m (rw e at h)

  steps-SystemInv :
      (m : Manager Q) (q : Stage) (m' : Manager Q) (q' : Stage)
      → Steps m q m' q'
      → SystemInv m q
      → SystemInv m' q'
  steps-SystemInv m q m' q' (done _ _) h = h
  steps-SystemInv m q m' q' (more _ _ m1 q1 _ _ s r) h =
      steps-SystemInv m1 q1 m' q' r (step-SystemInv m q m1 q1 s h)

  -- In every state that the manager's process reaches from its start, in whatever order its goroutines
  -- run between the moments in which they let go of the lock and whatever is asked and replied, the
  -- invariant holds; the task that SendWork holds and those that are being stopped exist and have their
  -- entries in the sorted list; the worker that SendWork has selected is configured, and the event that
  -- it sends is of its task; and every recorded event is of the task that it is recorded for.
  pub reachable-SystemInv :
      (heap : Heap) (workers : List String) (now : Time) (m : Manager Q) (q : Stage)
      → 0 < heap.next
      → Steps (new heap workers now) (stage idle []) m q
      → SystemInv m q
  reachable-SystemInv heap workers now m q h s =
      steps-SystemInv (new heap workers now) (stage idle []) m q s (
        new-Inv heap workers now h,
        tt,
        λ id te e.
            let none_there : GoMap.lookup {V = TaskEvent} id GoMap.empty ≡ some te =
              rw (new-events Q heap workers now) at e in
            ground (arith, lookup-empty {V = TaskEvent} id),
        tt,
      )
