-- ===== src/WorkerHttp/Serve/Laws.antt =====
-- Requests to a worker whose lock is free, and to one whose lock is never given back.
use minkube.Base.{
  String, Option, ◌≡◌, refl, ◌∙◌, string_eq, nat_eq, ◌==◌, Bool-cases, Option-cases, inl, inr,
}
use minkube.Base.Int.{ℤ}
use minkube.Base.Queue.{QueueOps}
use minkube.Http.{Answer}
use minkube.Task.{Task, TaskEvent, Time, Uuid}
use minkube.Worker.Monitor.{get_task}
use minkube.Worker.Service.{Worker, Outcome, returns, free, read_lock, read_unlock, enqueue_task}
use minkube.WorkerHttp.Handlers.{start_task_handler, submit, is_empty_body}
use minkube.WorkerHttp.Handlers.Laws.{stop_task_handler_returns}
use minkube.WorkerHttp.Logs.{
  LogClient, get_docker_task_logs_handler, task_logs, get_docker_task_logs,
}
use minkube.WorkerHttp.Serve.{
  Endpoint, start_task, get_tasks, health, stop_task, get_task_logs, Call, World, read_section,
  answer_logs, serve_logs, serve,
}

module _ {Q D : Type 0} ⦃queue : QueueOps Q⦄ where
  start_task_mutex :
      (id : Uuid) (now : Time) (length : ℤ) (body : Option TaskEvent) (w : Worker Q D)
      → (start_task_handler id now length body w).0.mu ≡ w.mu
  unfolding start_task_handler submit enqueue_task
  start_task_mutex id now length body w = elim (Bool-cases (is_empty_body length)) [
    | inl e ↦ rw (e, start_task_handler) refl
    | inr e ↦ elim (Option-cases body) [
      | inl k ↦ rw (e, k, start_task_handler) refl
      | inr (te, k) ↦ rw (e, k, start_task_handler) refl
    ]
  ]

module _ {Q D : Type 0} where
  read_section_returns :
      (w : Worker Q D) → w.mu ≡ free → read_section w ≡ returns (record w { mu = free })
  unfolding read_section read_lock read_unlock
  read_section_returns w l = rw (l, read_section) refl

module _ {Q D : Type 0} ⦃logs : LogClient D⦄ where
  task_logs_mutex :
      (o : World) (t : Task) (w : Worker Q D) → (task_logs o.marshal o.flushes t w).1.mu ≡ w.mu
  unfolding task_logs
  task_logs_mutex o t w = elim (Bool-cases (t.container_id == "")) [
    | inl e ↦ rw (e, task_logs) refl
    | inr e ↦ elim (Option-cases (get_docker_task_logs t w.docker).0.error) [
      | inl n ↦ elim (Bool-cases o.flushes) [
        | inl f ↦ rw (e, n, f, task_logs) refl
        | inr f ↦ rw (e, n, f, task_logs) refl
      ]
      | inr (x, n) ↦ rw (e, n, task_logs) refl
    ]
  ]

  answer_logs_mutex :
      (o : World) (task_id : String) (w : Worker Q D) → (answer_logs o task_id w).0.mu ≡ w.mu
  unfolding get_docker_task_logs_handler
  answer_logs_mutex o task_id w = elim (Bool-cases (task_id == "")) [
    | inl e ↦ rw (e, get_docker_task_logs_handler) refl
    | inr e ↦ elim (Option-cases (o.parse task_id)) [
      | inl n ↦ rw (e, n, get_docker_task_logs_handler) refl
      | inr (id, n) ↦ elim (Option-cases (get_task id w)) [
        | inl g ↦ rw (e, n, g, get_docker_task_logs_handler) refl
        | inr (t, g) ↦ rw (e, n, g, get_docker_task_logs_handler) (task_logs_mutex o t w)
      ]
    ]
  ]

  -- A request that returns and gives the lock back.
  abbrev pub Returns : Outcome (Worker Q D × Answer) → Type 0
  Returns o = (w : Worker Q D) × (a : Answer) × (o ≡ returns (w, a)) × (w.mu ≡ free)

  serve_logs-Returns :
      (o : World) (task_id : String) (w : Worker Q D)
      → w.mu ≡ free
      → Returns (serve_logs o task_id w)
  unfolding serve_logs
  serve_logs-Returns o task_id w l = elim (Bool-cases (task_id == "")) [
    | inl e ↦ rw e (_, _, refl, answer_logs_mutex o task_id w ∙ l)
    | inr e ↦ elim (Option-cases (o.parse task_id)) [
      | inl n ↦ rw (e, n) (_, _, refl, answer_logs_mutex o task_id w ∙ l)
      | inr (id, n) ↦
          rw (e, n, read_section_returns w l)
            (_, _, refl, answer_logs_mutex o task_id (record w { mu = free }))
    ]
  ]

module _ {Q D : Type 0} ⦃queue : QueueOps Q⦄ ⦃logs : LogClient D⦄ where
  -- Every request to a worker whose lock is free is answered, or its handler panics, and the lock is free
  -- again: no request waits for ever.
  pub request-Returns :
      (o : World) (e : Endpoint) (c : Call) (w : Worker Q D) → w.mu ≡ free → Returns (serve o e c w)
  unfolding serve
  request-Returns o start_task c w l =
      (_, _, refl, start_task_mutex o.id o.now c.content_length c.body w ∙ l)
  request-Returns o get_tasks c w l = rw (read_section_returns w l) (_, _, refl, refl)
  request-Returns o health c w l = (w, _, refl, l)
  request-Returns o (stop_task task_id) c w l =
      let (w', r, e, f) = stop_task_handler_returns o.parse task_id w l in rw e (w', _, refl, f)
  request-Returns o (get_task_logs task_id) c w l = serve_logs-Returns o task_id w l
