-- ===== src/Cluster/Stopped.antt =====
-- A worker whose RunTasks has hung, as the manager and its other clients see it.
use minkube.Base.{
  String, [], ◌∷◌, ◌++◌, Bool, true, false, Option, some, ◌≡◌, refl, string_eq, nat_eq, ◌==◌,
}
use minkube.Base.GoMap
use minkube.Base.Queue.{QueueOps}
use minkube.Heap.{Ptr}
use minkube.Http.{Answer, answered, panicked}
use minkube.Manager.{Manager, is_worker_ready, is_worker_healthy}
use minkube.Manager.Health.{health_check_worker}
use minkube.Manager.Health.Laws.{up_lem}
use minkube.Task.{TaskEvent, Time, Uuid}
use minkube.Task.Docker.{DockerClient}
use minkube.Worker.Service.{
  Worker, Outcome, returns, deadlock, free, write_locked, read_lock, enqueue_task,
}
use minkube.WorkerHttp.Handlers.{accepted_event, start_task_handler, submit, is_empty_body}
use minkube.WorkerHttp.Logs.{LogClient}
use minkube.WorkerHttp.Serve.{start_task, get_tasks, health, Call, World, read_section, serve}
use minkube.WorkerHttp.Handlers.Laws.{stopped_worker}
use minkube.WorkerProcess.{hung, waiting, stuck, watching, Stage, stage, WorkerSteps}
use minkube.WorkerProcess.Blocked.{OnlyQueues, stop_ends_work}

-- The error of the request to /health in HealthCheckWorkers: any response at all counts as one that
-- reached the worker.
unfoldable pub reached : {A : Type 0} → Outcome (A × Answer) → Bool
reached (returns (w, answered status)) = true
reached (returns (w, panicked)) = false
reached _ = false

module _ {Q D : Type 0} ⦃queue : QueueOps Q⦄ ⦃logs : LogClient D⦄ where
  post_accepted :
      (o : World) (c : Call) (te : TaskEvent) (w : Worker Q D)
      → is_empty_body c.content_length ≡ false
      → c.body ≡ some te
      → (w' : Worker Q D) × (serve o start_task c w ≡ returns (w', answered 201))
        × (queue.items w'.queue ≡ queue.items w.queue ++ w.heap.next ∷ [])
  unfolding serve start_task_handler submit enqueue_task
  post_accepted o c te w e b = (
    submit (accepted_event o.id o.now te).task w,
    rw (e, b, start_task_handler) refl,
    queue.enqueue_lem w.heap.next w.queue,
  )

  get_tasks_waits :
      (o : World) (c : Call) (w : Worker Q D)
      → w.mu ≡ write_locked
      → serve o get_tasks c w ≡ deadlock
  unfolding serve read_section read_lock
  get_tasks_waits o c w l = rw (l, read_section) refl

  health_reached :
      {M : Type 0} (o : World) (c : Call) (w : Worker Q D) (name : String) (m : Manager M)
      → let m' = health_check_worker name (reached (serve o health c w)) m in
        (is_worker_healthy name m' ≡ true) × (is_worker_ready name m' ≡ true)
  unfolding serve reached health_check_worker is_worker_healthy is_worker_ready
  health_reached o c w name m = let (f, s, h) = up_lem name m in (h, rw s refl)

module _ {Q D : Type 0} ⦃queue : QueueOps Q⦄ ⦃client : DockerClient D⦄ ⦃logs : LogClient D⦄ where
  -- One request to stop a task that the worker knows, with the lock free and an empty queue, ends its
  -- work and nobody is told: its process reaches the state in which RunTasks hangs, and in every state
  -- after that, whatever is asked and in whatever order its goroutines run, as long as no two calls of
  -- the queue overlap, no task has been run or changed and the queue has only grown at its end. Yet a
  -- health check of the manager makes the worker healthy and ready, and a task that is posted is answered
  -- with status 201 and queued, while the request for its tasks waits for ever.
  pub stopped_worker_stays_ready :
      {M : Type 0} (parse : String → Option Uuid) (task_id : String) (id : Uuid) (p : Ptr)
      (now : Time) (w v : Worker Q D) (s : Stage) (o : World) (c : Call) (te : TaskEvent)
      (name : String) (m : Manager M)
      → w.mu ≡ free
      → (task_id == "") ≡ false
      → parse task_id ≡ some id
      → GoMap.lookup id w.task_ids ≡ some p
      → queue.items w.queue ≡ []
      → is_empty_body c.content_length ≡ false
      → c.body ≡ some te
      → WorkerSteps (hung (stopped_worker p w)) (stage stuck (watching [])) v s
      → let m' = health_check_worker name (reached (serve o health c v)) m in
        WorkerSteps w
          (stage waiting (watching []))
          (hung (stopped_worker p w))
          (stage stuck (watching []))
        × OnlyQueues (hung (stopped_worker p w)) v
        × ((is_worker_healthy name m' ≡ true) × (is_worker_ready name m' ≡ true))
        × ((v' : Worker Q D) × (serve o start_task c v ≡ returns (v', answered 201))
            × (queue.items v'.queue ≡ queue.items v.queue ++ v.heap.next ∷ []))
        × (serve o get_tasks c v ≡ deadlock)
  stopped_worker_stays_ready parse task_id id p now w v s o c te name m l e k f q n b r =
      let (reached_it, only) = stop_ends_work parse task_id id p now w v s l e k f q r in
      (
        reached_it,
        only,
        health_reached o c v name m,
        post_accepted o c te v n b,
        get_tasks_waits o c v only.still_locked,
      )
