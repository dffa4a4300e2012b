-- ===== src/Worker/Service/Laws.antt =====
-- internal/worker/service/worker.go: which calls never return, and what runTask makes
-- of a task in another state.
use minkube.Base.{
  List, ◌∷◌, false, some, ◌==◌, string_eq, nat_eq, ◌≡◌, refl, arith, ap, length, ==_refl,
  Option-cases, inl, inr,
}
use minkube.Base.GoMap
use minkube.Base.GoMap.{lookup-insert}
use minkube.Base.Queue.{QueueOps}
use minkube.Heap.{Ptr}
use minkube.Task.{Uuid, Time, State, running, completed, failed}
use minkube.Task.Docker.{DockerClient}
use minkube.Worker.Service.{
  Worker, free, write_locked, returns, deadlock, fatal, lock, unlock, update_object, release,
  get_tasks, update_task_state, mark_task, stop_task, run_state, run_item, run_task,
  run_tasks_round,
}

-- GetTasks ends the process, whenever no goroutine holds the lock before it.
get_tasks_ends :
    {Q D : Type 0} (order : List Uuid) (w : Worker Q D) → w.mu ≡ free → get_tasks order w ≡ fatal
unfolding get_tasks
get_tasks_ends order w h = rw (h, get_tasks) refl

-- An update of a task's state returns, and gives the lock back.
pub update_task_state_returns :
    {Q D : Type 0} (id : Uuid) (s : State) (now : Time) (w : Worker Q D)
    → w.mu ≡ free
    → (w' : Worker Q D) × (update_task_state id s now w ≡ returns w') × (w'.mu ≡ free)
unfolding update_task_state lock unlock mark_task update_object
update_task_state_returns id s now w h = elim (Option-cases (GoMap.lookup id w.task_ids)) [
  | inl e ↦ (record w { mu = free }, rw h (rw (e, mark_task) refl), refl)
  | inr (p, e) ↦ (
    record (update_object p (λ x. record x { state = s; end_time = now }) w) { mu = free },
    rw h (rw (e, mark_task) refl),
    refl,
  )
]

module _ {Q D : Type 0} ⦃queue : QueueOps Q⦄ ⦃client : DockerClient D⦄ where
  stop_blocks :
      (now : Time) (t : Ptr) (w : Worker Q D) → w.mu ≡ write_locked → stop_task now t w ≡ deadlock
  unfolding stop_task lock
  stop_blocks now t w h = rw (h, stop_task) refl

  -- A round of the worker's loop whose next task is Completed never ends, since runTask
  -- holds the lock that StopTask asks for.
  pub stopping_blocks :
      (now : Time) (w : Worker Q D) (t : Ptr) (ts : List Ptr)
      → w.mu ≡ free
      → queue.items w.queue ≡ t ∷ ts
      → (w.heap.cell t).state ≡ completed
      → run_tasks_round now w ≡ deadlock
  unfolding run_tasks_round run_item lock unlock run_state stop_task
  stopping_blocks now w t ts h q c =
      let busy : (queue.len w.queue == 0) ≡ false =
        ground (arith, queue.len_lem w.queue, ap length q) in
      let (first, rest) = queue.dequeue_cons w.queue t ts q in
      rw (h, busy, first, c, run_tasks_round, run_item, run_state, stop_task) refl

module _ {Q D : Type 0} ⦃queue : QueueOps Q⦄ ⦃client : DockerClient D⦄ (now : Time) (w : Worker Q D)
    (t : Ptr) (ts : List Ptr) where
  -- The worker with its oldest task off the queue, under the lock.
  abbrev pub dequeued : Worker Q D
  dequeued = record w { queue = (queue.dequeue w.queue).1; mu = write_locked }

  pub run_task_some :
      w.mu ≡ free
      → queue.items w.queue ≡ t ∷ ts
      → run_task now w ≡ run_state (w.heap.cell t).state now t dequeued
  unfolding run_task run_item lock unlock
  run_task_some h q =
      let busy : (queue.len w.queue == 0) ≡ false =
        ground (arith, queue.len_lem w.queue, ap length q) in
      let (first, rest) = queue.dequeue_cons w.queue t ts q in
      rw (h, busy, first, run_task, run_item) refl

  -- A round of the worker's loop whose next task says Running already, and is in the worker's
  -- table, takes the task off the queue, marks it as Failed and gives the lock back.
  run_unexpected :
      w.mu ≡ free
      → queue.items w.queue ≡ t ∷ ts
      → (w.heap.cell t).state ≡ running
      → GoMap.lookup (w.heap.cell t).id w.task_ids ≡ some t
      → (w' : Worker Q D) × (run_tasks_round now w ≡ returns w')
        × (queue.items w'.queue ≡ ts)
        × (w'.mu ≡ free)
        × ((w'.heap.cell t).state ≡ failed)
  unfolding run_tasks_round release run_state unlock update_task_state mark_task
  run_unexpected h q r k =
      let busy : (queue.len w.queue == 0) ≡ false =
        ground (arith, queue.len_lem w.queue, ap length q) in
      let (first, rest) = queue.dequeue_cons w.queue t ts q in
      (
        update_object t (λ x. record x { state = failed; end_time = now })
            (record dequeued { mu = free }),
        rw (busy, run_tasks_round)
            (rw (run_task_some h q) (rw (r, run_state) (rw (k, mark_task) refl))),
        rest,
        refl,
        ground (arith, ==_refl t),
      )
