-- ===== src/System/Sequential.antt =====
-- SendWork as one function is one of the interleavings.
use minkube.Base.GoMap
use minkube.ManagerHttp.Handlers.{stop_task, stop_task_handler}
use minkube.Base.{
  refl, false, string_eq, nat_eq, ◌==◌, String, List, [], ◌∷◌, Option, none, some, ◌≡◌, arith,
  subst,
}
use minkube.Base.Queue.{QueueOps}
use minkube.Heap.{Ptr}
use minkube.Manager.{Manager}
use minkube.Manager.Select.{
  Result, ok, err, select_worker, select_from, schedulable_workers, get_healthy_workers,
  get_ready_workers,
}
use minkube.Manager.Send.{
  SendReply, take_pending, schedule_task, new_event, offer_to, offer_task, send_work,
}
use minkube.System.{
  Stage, stage, Phase, mark, requeue, idle, after_take, after_select, take, list_healthy,
  list_ready, choose_next, schedule, read_state, copy_task, after_healthy, after_ready, taken,
  finish, Steps, done, more,
}
use minkube.Task.{TaskEvent, Uuid, Time}

pub then_steps :
    {Q : Type 0} ⦃queue : QueueOps Q⦄ {m m1 m2 : Manager Q} {p p1 p2 : Stage}
    → Steps m p m1 p1
    → Steps m1 p1 m2 p2
    → Steps m p m2 p2
then_steps (done _ _) r = r
then_steps (more _ _ m1 p1 _ _ s q) r = more _ _ m1 p1 _ _ s (then_steps q r)

module _ {Q : Type 0} ⦃queue : QueueOps Q⦄ (id : Uuid) (now : Time) (reply : SendReply)
    (ss : List Ptr) where
  done_at : (p : Stage) (m m' : Manager Q) → some m ≡ some m' → Steps m p m' p
  done_at p m m' e =
      let same : m ≡ m' = ground (arith, e) in subst (λ x. Steps m p x p) same (done m p)

  steps_after_select :
      (t : Ptr) (r : Result String) (m m' : Manager Q)
      → offer_to t id now reply r m ≡ some m'
      → Steps m (stage (after_select t r) ss) m' (stage idle ss)
  unfolding offer_to new_event
  steps_after_select t (err e) m m' h = done_at (stage idle ss) m m' h
  steps_after_select t (ok w) m m' h =
      let te : TaskEvent = new_event id now ((schedule_task t m).heap.cell t) in
      more _ _ _ _ _ _ (schedule ss t w) (
        more _ _ _ _ _ _ (read_state ss t w) (
          more _ _ _ _ _ _ (copy_task ss t w _ id now)
            (more _ _ _ _ _ _ (finish ss t w te reply m' h) (done m' (stage idle ss)))))

  ready_steps :
      (t : Ptr) (healthy : List String) (w : String) (ws : List String) (r : Result (List String))
      (m : Manager Q)
      → let selected = select_from (w ∷ ws) (schedulable_workers (ok healthy) r) m in
        Steps m
          (stage (after_ready t healthy r) ss)
          selected.0
          (stage (after_select t selected.1) ss)
  unfolding select_from
  ready_steps t healthy w ws (err e) m = done m (stage idle ss)
  ready_steps t healthy w ws (ok ready) m = more _ _ _ _ _ _ (choose_next ss t _) (done _ _)

  healthy_steps :
      (t : Ptr) (ws : List String) (r : Result (List String)) (m : Manager Q)
      → let selected = select_from ws (schedulable_workers r (get_ready_workers m)) m in
        Steps m (stage (after_healthy t ws r) ss) selected.0 (stage (after_select t selected.1) ss)
  unfolding select_from
  healthy_steps t [] r m = done m (stage idle ss)
  healthy_steps t (w ∷ ws) (err e) m = done m (stage idle ss)
  healthy_steps t (w ∷ ws) (ok healthy) m =
      more _ _ _ _ _ _ (list_ready ss t healthy)
        (ready_steps t healthy w ws (get_ready_workers m) m)

  -- SelectWorker with nothing in between.
  select_steps :
      (t : Ptr) (m : Manager Q)
      → Steps m
          (stage (taken t) ss)
          (select_worker m).0
          (stage (after_select t (select_worker m).1) ss)
  unfolding select_worker
  select_steps t m =
      more _ _ _ _ _ _ (list_healthy ss t) (healthy_steps t m.workers (get_healthy_workers m) m)

  steps_after_take :
      (r : Option Ptr) (m m' : Manager Q)
      → offer_task r id now reply m ≡ some m'
      → Steps m (stage (after_take r) ss) m' (stage idle ss)
  unfolding offer_task
  steps_after_take none m m' h = done_at (stage idle ss) m m' h
  steps_after_take (some t) m m' h =
      then_steps (select_steps t m)
        (steps_after_select t (select_worker m).1 (select_worker m).0 m' h)

  -- SendWork with nothing else in between, by its parts.
  pub send_work-Steps :
      (m m' : Manager Q)
      → send_work id now reply m ≡ some m'
      → Steps m (stage idle ss) m' (stage idle ss)
  unfolding send_work
  send_work-Steps m m' h =
      more _ _ _ _ _ _ (take ss) (steps_after_take (take_pending m).1 (take_pending m).0 m' h)

-- The two parts of StopTaskHandler, for a task that it finds, do what the handler does.
module _ {Q : Type 0} ⦃queue : QueueOps Q⦄ where
  stop_task_handler-Steps :
      (parse : String → Option Uuid) (task_id : String) (id : Uuid) (t : Ptr) (p : Phase)
      (m : Manager Q)
      → (task_id == "") ≡ false
      → parse task_id ≡ some id
      → GoMap.lookup id m.task_db ≡ some t
      → Steps m (stage p []) (stop_task_handler parse task_id m).0 (stage p [])
  unfolding stop_task_handler stop_task
  stop_task_handler-Steps parse task_id id t p m e f g =
      rw (e, f, stop_task_handler)
        (rw g (
          more _ _ _ _ _ _ (mark p [] id t g)
            (more _ _ _ _ _ _ (requeue p [] [] t (t ∷ []) refl) (done _ _))))
