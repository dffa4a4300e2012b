-- ===== src/WorkerHttp/Handlers/Laws.antt =====
-- The worker's handlers: what a started or stopped task becomes.
use minkube.Base.{
  ℕ, suc, String, [], ◌∷◌, ◌++◌, true, false, Option, some, string_eq, nat_eq, ◌==◌, ==_refl, ◌≡◌,
  refl, arith, ap, subst, ◌∙◌, sym, inl, inr, Option-cases, Bool-cases,
}
use minkube.Base.Int.{pos}
use minkube.Base.GoMap
use minkube.Base.GoMap.{GoMap}
use minkube.Base.Queue.{QueueOps}
use minkube.Heap.{Ptr, write}
use minkube.Http.{Response, success, failure}
use minkube.Task.{Task, TaskEvent, Uuid, Time, pending, completed}
use minkube.Task.Docker.{DockerClient}
use minkube.Worker.Service.{
  Worker, free, write_locked, returns, deadlock, lock, unlock, update_object, enqueue_task,
  run_tasks_round,
}
use minkube.Worker.Service.Laws.{stopping_blocks}
use minkube.Worker.Service.Start.{HasTask, state_after, run_result}
use minkube.Worker.Service.Start.Rounds.{task_started}
use minkube.WorkerHttp.Handlers.{
  accepted_event, submit, start_task_handler, stop_found, stop_locked, stop_task_handler,
}

module _ {Q D : Type 0} ⦃queue : QueueOps Q⦄ ⦃client : DockerClient D⦄ where
  -- A worker and a task that started on it.
  abbrev pub Ran : Time → Task → D → GoMap Uuid Ptr → Ptr → Worker Q D → Type 0
  Ran now x s table p v =
      (w' : Worker Q D) × (run_tasks_round now v ≡ returns w')
      × (queue.items w'.queue ≡ [])
      × (w'.mu ≡ free)
      × (w'.task_ids ≡ GoMap.insert x.id p table)
      × HasTask x.id p (state_after (run_result x s).error) w'

  submit_cell : (t : Task) (w : Worker Q D) → (submit t w).heap.cell w.heap.next ≡ t
  unfolding submit write
  submit_cell t w = rw (==_refl w.heap.next) refl

  submit_queue :
      (t : Task) (w : Worker Q D)
      → queue.items w.queue ≡ []
      → queue.items (submit t w).queue ≡ w.heap.next ∷ []
  unfolding submit
  submit_queue t w q = queue.enqueue_lem w.heap.next w.queue ∙ ap (λ ps. ps ++ w.heap.next ∷ []) q

  submit_runs :
      (t : Task) (started : Time) (w : Worker Q D)
      → w.mu ≡ free
      → queue.items w.queue ≡ []
      → w.docker_available ≡ true
      → t.state ≡ pending
      → Ran started t w.docker w.task_ids w.heap.next (submit t w)
  unfolding submit
  submit_runs t started w l q h s =
      subst (λ x. Ran started x w.docker w.task_ids w.heap.next (submit t w)) (submit_cell t w)
        (task_started started (submit t w) w.heap.next [] l (submit_queue t w q) h
          (inl (ap (λ x. x.state) (submit_cell t w) ∙ s)))

  start_lem :
      (id : Uuid) (now : Time) (n : ℕ) (te : TaskEvent) (w : Worker Q D)
      → start_task_handler id now (pos (suc n)) (some te) w
        ≡ (submit (accepted_event id now te).task w, success 201 (accepted_event id now te))
  unfolding start_task_handler
  start_lem id now n te w =
      let full : (suc n == 0) ≡ false = ground arith in rw (full, start_task_handler) refl

  -- A task that is posted to a worker with an empty queue is run by the next round of its loop under
  -- the new ID that the worker gave it, whatever ID it was posted with.
  pub posted_task_runs :
      (id : Uuid) (posted started : Time) (n : ℕ) (te : TaskEvent) (w : Worker Q D)
      → w.mu ≡ free
      → queue.items w.queue ≡ []
      → w.docker_available ≡ true
      → let t = (accepted_event id posted te).task in
        let posted_to = (start_task_handler id posted (pos (suc n)) (some te) w).0 in
        (w' : Worker Q D) × (run_tasks_round started posted_to ≡ returns w')
        × (queue.items w'.queue ≡ [])
        × (w'.mu ≡ free)
        × (w'.task_ids ≡ GoMap.insert id w.heap.next w.task_ids)
        × HasTask id w.heap.next (state_after (run_result t w.docker).error) w'
  unfolding accepted_event
  posted_task_runs id posted started n te w l q h =
      subst
        (λ r. Ran started (accepted_event id posted te).task w.docker w.task_ids w.heap.next r.0)
        (sym (start_lem id posted n te w))
        (submit_runs (accepted_event id posted te).task started w l q h refl)

  -- The worker after a request to stop the task.
  abbrev pub stopped_worker : Ptr → Worker Q D → Worker Q D
  stopped_worker p w = record (stop_found p w).0 { mu = free }

  -- With an empty queue before, the task is the only one in the queue, as Completed.
  pub stopped_worker_lem :
      (p : Ptr) (w : Worker Q D)
      → queue.items w.queue ≡ []
      → (queue.items (stopped_worker p w).queue ≡ p ∷ [])
        × (((stopped_worker p w).heap.cell p).state ≡ completed)
  unfolding stop_found update_object enqueue_task
  stopped_worker_lem p w q =
      (queue.enqueue_lem p w.queue ∙ ap (λ ps. ps ++ p ∷ []) q, rw (==_refl p) refl)

  -- With the lock free, the request to stop a task that the worker knows is answered with status
  -- 200, and leaves the task as Completed and last in the queue; where the queue was empty, the
  -- next round of the worker's loop then never ends.
  pub stopping_worker_blocks :
      (parse : String → Option Uuid) (task_id : String) (id : Uuid) (p : Ptr) (now : Time)
      (w : Worker Q D)
      → w.mu ≡ free
      → (task_id == "") ≡ false
      → parse task_id ≡ some id
      → GoMap.lookup id w.task_ids ≡ some p
      → queue.items w.queue ≡ []
      → let v = stopped_worker p w in
        (t : Task) × (stop_task_handler parse task_id w ≡ returns (v, success 200 t))
        × (t.state ≡ completed)
        × (run_tasks_round now v ≡ deadlock)
  unfolding stop_task_handler lock unlock stop_locked stop_found update_object enqueue_task
  stopping_worker_blocks parse task_id id p now w l e k f q = (
    (update_object p (λ x. record x { state = completed }) w).heap.cell p,
    rw (e, stop_task_handler) (rw l (rw (k, f, stop_locked) refl)),
    rw (==_refl p) refl,
    stopping_blocks now (stopped_worker p w) p [] refl
        (queue.enqueue_lem p w.queue ∙ ap (λ ps. ps ++ p ∷ []) q) (rw (==_refl p) refl),
  )

stop_locked_mutex :
    {Q D : Type 0} ⦃queue : QueueOps Q⦄ (parse : String → Option Uuid) (task_id : String)
    (w : Worker Q D)
    → (stop_locked parse task_id w).0.mu ≡ w.mu
unfolding stop_locked update_object enqueue_task
stop_locked_mutex parse task_id w = elim (Option-cases (parse task_id)) [
  | inl n ↦ rw (n, stop_locked) refl
  | inr (id, n) ↦ elim (Option-cases (GoMap.lookup id w.task_ids)) [
    | inl k ↦ rw (n, k, stop_locked) refl
    | inr (p, k) ↦ rw (n, k, stop_locked) refl
  ]
]

-- Whatever the request is, StopTaskHandler returns with the lock free if it was free before.
pub stop_task_handler_returns :
    {Q D : Type 0} ⦃queue : QueueOps Q⦄ (parse : String → Option Uuid) (task_id : String)
    (w : Worker Q D)
    → w.mu ≡ free
    → (w' : Worker Q D) × (r : Response Task) × (stop_task_handler parse task_id w
        ≡ returns (w', r))
      × (w'.mu ≡ free)
unfolding stop_task_handler lock unlock
stop_task_handler_returns parse task_id w l = elim (Bool-cases (task_id == "")) [
  | inl e ↦ (w, failure 400, rw (e, stop_task_handler) refl, l)
  | inr e ↦
      let w1 = record w { mu = write_locked } in
      let r = stop_locked parse task_id w1 in
      (
        record r.0 { mu = free },
        r.1,
        rw (e, stop_task_handler) (rw l (rw (stop_locked_mutex parse task_id w1) refl)),
        refl,
      )
]
