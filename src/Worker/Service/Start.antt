-- ===== src/Worker/Service/Start.antt =====
-- internal/worker/service/worker.go: what a round of RunTasks leaves of a task that it starts.
pub mod Rounds
use minkube.Base.{
  String, List, ◌∷◌, true, false, Option, none, some, ◌==◌, ==_refl, string_eq, nat_eq, ◌≡◌, refl,
  arith, ap, subst, ◌∙◌, length, sym, Option-cases, inl, inr, ◌⊎◌,
}
use minkube.Base.GoMap
use minkube.Base.GoMap.{lookup-insert}
use minkube.Base.Queue.{QueueOps}
use minkube.Heap.{Ptr}
use minkube.Task.{
  Task, Uuid, Time, State, pending, scheduled, running, failed, DockerResult, new_config,
}
use minkube.Task.Docker.{DockerClient, Docker, new_docker, run}
use minkube.Worker.Service.{
  Worker, free, write_locked, returns, panics, and_then, lock, unlock, update_task_state, mark_task,
  update_object, release, finish_start, start_task, after_start, run_scheduled, run_state, run_task,
  note_result, run_tasks_round,
}
use minkube.Worker.Service.Laws.{run_task_some, dequeued}

-- What stays of a worker through a start: its queue and its lock.
abbrev pub SameQueue : {Q D : Type 0} → Worker Q D → Worker Q D → Type 0
SameQueue w w' = (w'.queue ≡ w.queue) × (w'.mu ≡ w.mu)

-- The table has the task's object under the task's ID, in the given state.
abbrev pub HasTask : {Q D : Type 0} → Uuid → Ptr → State → Worker Q D → Type 0
HasTask id t s w =
    (GoMap.lookup id w.task_ids ≡ some t) × ((w.heap.cell t).state ≡ s) × ((w.heap.cell t).id ≡ id)

module _ {Q D : Type 0} (t : Ptr) where
  finish_ok :
      (result : DockerResult) (w : Worker Q D)
      → result.error ≡ none
      → let r = finish_start t result w in
        (r.0 ≡ result)
        × (r.1 ≡ some t)
        × SameQueue w r.2
        × (r.2.task_ids ≡ GoMap.insert (w.heap.cell t).id t w.task_ids)
        × HasTask (w.heap.cell t).id t running r.2
        × ((r.2.heap.cell t).container_id ≡ result.container_id)
  unfolding finish_start
  finish_ok result w e =
      let id : Uuid = (w.heap.cell t).id in
      rw (e, finish_start) (ground (arith, ==_refl t, ==_refl id, lookup-insert id id t w.task_ids))

  finish_failed :
      (result : DockerResult) (w : Worker Q D) (x : String)
      → result.error ≡ some x
      → let r = finish_start t result w in
        (r.0 ≡ result)
        × SameQueue w r.2
        × (r.2.task_ids ≡ GoMap.insert (w.heap.cell t).id t w.task_ids)
        × HasTask (w.heap.cell t).id t failed r.2
  unfolding finish_start
  finish_failed result w x e =
      let id : Uuid = (w.heap.cell t).id in
      rw (e, finish_start) (ground (arith, ==_refl t, ==_refl id, lookup-insert id id t w.task_ids))

after_start_lem :
    {Q D : Type 0} (t : Ptr) (res : DockerResult) (u : Option Ptr) (v : Worker Q D)
    → ((res.error ≡ none) × (u ≡ some t)) ⊎ ((x : String) × (res.error ≡ some x))
    → v.mu ≡ write_locked
    → after_start t (res, u, v) ≡ returns (res, some t, record v { mu = free })
unfolding after_start release unlock
after_start_lem t res u v (inl (n, e)) l = ground arith
after_start_lem t res u v (inr (x, n)) l = ground arith

pub after_nothing :
    {Q D : Type 0} (t : Ptr) (res : DockerResult) (u : Option Ptr) (v : Worker Q D)
    → res.error ≡ none
    → u ≡ none
    → after_start t (res, u, v) ≡ panics
unfolding after_start
after_nothing t res u v n e = ground arith

-- The Docker value of a task, and the result of running it.
abbrev pub docker_of : Task → Docker
docker_of x = record { config = new_config x; container_id = "" }

abbrev pub run_result : {D : Type 0} ⦃client : DockerClient D⦄ → Task → D → DockerResult
run_result x s = (run (docker_of x) s).0

-- The state that a start leaves, by the error of the run.
abbrev pub state_after : Option String → State
state_after none = running
state_after (some e) = failed

module _ {Q D : Type 0} ⦃client : DockerClient D⦄ (now : Time) (t : Ptr) (w : Worker Q D) where
  abbrev pub prepared : Worker Q D
  prepared = update_object t (λ x. record x { start_time = now }) w

  prepared_cell : prepared.heap.cell t ≡ record (w.heap.cell t) { start_time = now }
  unfolding update_object
  prepared_cell = rw (==_refl t) refl

  prepared_config : new_config (prepared.heap.cell t) ≡ new_config (w.heap.cell t)
  unfolding new_config
  prepared_config = rw prepared_cell refl

  prepared_id : (prepared.heap.cell t).id ≡ (w.heap.cell t).id
  prepared_id = ap (λ x. x.id) prepared_cell

  start_available :
      w.docker_available ≡ true
      → let r = run (docker_of (w.heap.cell t)) w.docker in
        start_task now t w ≡ finish_start t r.0 (record prepared { docker = r.2 })
  unfolding start_task update_object new_docker
  start_available h = rw h (rw prepared_config refl)

  pub start_unavailable :
      w.docker_available ≡ false
      → ((start_task now t w).0.error ≡ none) × ((start_task now t w).1 ≡ none)
  unfolding start_task new_docker
  start_unavailable h = rw (h, start_task) (refl, refl)

  -- The worker after the run, before the task is noted.
  abbrev pub ran : Worker Q D
  ran = record prepared { docker = (run (docker_of (w.heap.cell t)) w.docker).2 }

  -- What a start under the lock leaves.
  abbrev pub Started : DockerResult → Worker Q D → Type 0
  Started res w' =
      (w'.queue ≡ w.queue)
      × (w'.mu ≡ free)
      × (w'.task_ids ≡ GoMap.insert (w.heap.cell t).id t w.task_ids)
      × HasTask (w.heap.cell t).id t (state_after res.error) w'

  pub run_scheduled_lem : run_scheduled now t w ≡ after_start t (start_task now t w)
  unfolding run_scheduled
  run_scheduled_lem = refl

  run_scheduled_finish :
      (res : DockerResult)
      → run_result (w.heap.cell t) w.docker ≡ res
      → w.docker_available ≡ true
      → run_scheduled now t w ≡ after_start t (finish_start t res ran)
  run_scheduled_finish res e h =
      run_scheduled_lem
      ∙ (ap (after_start t) (start_available h) ∙ ap (λ r. after_start t (finish_start t r ran)) e)

  kept_mutex : ran.mu ≡ w.mu
  unfolding update_object
  kept_mutex = refl

  kept_table :
      GoMap.insert (w.heap.cell t).id t ran.task_ids ≡ GoMap.insert (w.heap.cell t).id t w.task_ids
  unfolding update_object
  kept_table = refl

  kept_queue : ran.queue ≡ w.queue
  unfolding update_object
  kept_queue = refl

  after_ok :
      (res : DockerResult)
      → w.mu ≡ write_locked
      → (w' : Worker Q D) × (after_start t (finish_start t res ran) ≡ returns (res, some t, w'))
        × Started res w'
  after_ok res l =
      let r : DockerResult × Option Ptr × Worker Q D = finish_start t res ran in
      elim (Option-cases res.error) [
        | inl n ↦
            let (a, b, (q, m), d, (k, st, i), c) = finish_ok t res ran n in
            (
              record r.2 { mu = free },
              after_start_lem t r.0 r.1 r.2 (inl (ap (λ x. x.error) a ∙ n, b)) (m ∙ kept_mutex ∙ l)
                  ∙ ap (λ x. returns (x, some t, record r.2 { mu = free })) a,
              (
                q ∙ kept_queue,
                refl,
                d ∙ ap (λ id. GoMap.insert id t ran.task_ids) prepared_id ∙ kept_table,
                (
                  ap (λ id. GoMap.lookup id r.2.task_ids) (sym prepared_id) ∙ k,
                  st ∙ sym (ap state_after n),
                  i ∙ prepared_id,
                ),
              ),
            )
        | inr (x, n) ↦
            let (a, (q, m), d, (k, st, i)) = finish_failed t res ran x n in
            (
              record r.2 { mu = free },
              after_start_lem t r.0 r.1 r.2 (inr (x, ap (λ x. x.error) a ∙ n)) (m ∙ kept_mutex ∙ l)
                  ∙ ap (λ x. returns (x, some t, record r.2 { mu = free })) a,
              (
                q ∙ kept_queue,
                refl,
                d ∙ ap (λ id. GoMap.insert id t ran.task_ids) prepared_id ∙ kept_table,
                (
                  ap (λ id. GoMap.lookup id r.2.task_ids) (sym prepared_id) ∙ k,
                  st ∙ sym (ap state_after n),
                  i ∙ prepared_id,
                ),
              ),
            )
      ]

  pub run_scheduled_ok :
      (res : DockerResult)
      → run_result (w.heap.cell t) w.docker ≡ res
      → w.docker_available ≡ true
      → w.mu ≡ write_locked
      → (w' : Worker Q D) × (run_scheduled now t w ≡ returns (res, some t, w')) × Started res w'
  run_scheduled_ok res e h l =
      let (w', r, s) = after_ok res l in (w', run_scheduled_finish res e h ∙ r, s)
