-- ===== src/Worker/Service.antt =====
-- internal/worker/service/worker.go: the worker's queue and task table, and how tasks are started
-- and stopped. The mutex is part of the state, since a goroutine that asks for a lock that it holds
-- itself never goes on.
pub mod Laws
pub mod Start
use minkube.Base.{
  ℕ, String, List, [], ◌∷◌, Bool, true, false, Option, none, some, if◌then◌else◌, ◌==◌, string_eq,
  nat_eq,
}
use minkube.Base.GoMap
use minkube.Base.GoMap.{GoMap}
use minkube.Base.Queue.{QueueOps}
use minkube.Heap.{Heap, Ptr, write}
use minkube.Task.{
  Task, Uuid, Time, DockerResult, State, pending, scheduled, running, completed, failed, new_config,
}
use minkube.Task.Docker.{DockerClient, Docker, new_docker, run, stop, with_error}

-- `sync.RWMutex` as far as one goroutine uses it: free, held by a writer, or by one reader.
pub data Mutex : Type 0 where
  free write_locked read_locked : Mutex

-- `docker` is the daemon's state, and `docker_available` whether NewDocker can make a client. The
-- name, the worker's own state and the statistics, which these operations do not read, are left out.
pub record Worker (Q D : Type 0) : Type 0 where
  pub heap : Heap
  pub queue : Q
  pub task_ids : GoMap Uuid Ptr
  pub docker : D
  pub docker_available : Bool
  pub mu : Mutex

-- How a function ends: it returns; it waits for a lock for ever; it panics; or the runtime ends the
-- process.
pub data Outcome {ℓ} (A : Type ℓ) : Type ℓ where
  returns : A → Outcome A
  deadlock panics fatal : Outcome A

abbrev pub and_then : {A B : Type 0} → Outcome A → (A → Outcome B) → Outcome B
and_then (returns a) f = f a
and_then deadlock f = deadlock
and_then panics f = panics
and_then fatal f = fatal

-- `w.mu.Lock()`, `w.mu.RLock()` and `w.mu.Unlock()` on the mutex.
abbrev pub locked : Mutex → Outcome Mutex
locked free = returns write_locked
locked write_locked = deadlock
locked read_locked = deadlock

abbrev pub read_locked_after : Mutex → Outcome Mutex
read_locked_after free = returns read_locked
read_locked_after write_locked = deadlock
read_locked_after read_locked = returns read_locked

abbrev pub unlocked : Mutex → Outcome Mutex
unlocked free = fatal
unlocked write_locked = returns free
unlocked read_locked = fatal

-- `w.mu.RUnlock()`, by the last reader.
abbrev pub read_unlocked : Mutex → Outcome Mutex
read_unlocked free = fatal
read_unlocked write_locked = fatal
read_unlocked read_locked = returns free

module _ {Q D : Type 0} where
  abbrev pub set_mutex : Worker Q D → Mutex → Outcome (Worker Q D)
  set_mutex w mu = returns (record w { mu = mu })

  unfoldable pub lock : Worker Q D → Outcome (Worker Q D)
  lock w = and_then (locked w.mu) (set_mutex w)

  unfoldable pub read_lock : Worker Q D → Outcome (Worker Q D)
  read_lock w = and_then (read_locked_after w.mu) (set_mutex w)

  unfoldable pub read_unlock : Worker Q D → Outcome (Worker Q D)
  read_unlock w = and_then (read_unlocked w.mu) (set_mutex w)

  unfoldable pub unlock : Worker Q D → Outcome (Worker Q D)
  unlock w = and_then (unlocked w.mu) (set_mutex w)

  -- `*p = f(*p)` and `w.TaskIds[t.ID] = t`
  unfoldable pub update_object : Ptr → (Task → Task) → Worker Q D → Worker Q D
  unfolding write
  update_object p f w = record w { heap = write p (f (w.heap.cell p)) w.heap }

  unfoldable pub remember : Ptr → Worker Q D → Worker Q D
  remember t w = record w { task_ids = GoMap.insert (w.heap.cell t).id t w.task_ids }

  -- The change that `updateTaskState` makes under the lock.
  unfoldable pub mark_task : Uuid → State → Time → Worker Q D → Worker Q D
  unfolding update_object
  mark_task id new_state now w = elim (GoMap.lookup id w.task_ids) [
    | none ↦ w
    | some t ↦ update_object t (λ x. record x { state = new_state; end_time = now }) w
  ]

  -- `updateTaskState`
  unfoldable pub update_task_state : Uuid → State → Time → Worker Q D → Outcome (Worker Q D)
  unfolding lock unlock mark_task
  update_task_state id new_state now w =
      and_then (lock w) (λ w'. unlock (mark_task id new_state now w'))

  -- The copies of the tasks, by the order in which the map is visited.
  abbrev pub collect : List Uuid → Worker Q D → List Task
  collect [] w = []
  collect (id ∷ ids) w = elim (GoMap.lookup id w.task_ids) [
    | none ↦ collect ids w
    | some t ↦ w.heap.cell t ∷ collect ids w
  ]

  -- `GetTasks`, which takes the read lock and gives back the write lock.
  unfoldable pub get_tasks : List Uuid → Worker Q D → Outcome (List Task × Worker Q D)
  unfolding read_lock unlock
  get_tasks order w =
      and_then (read_lock w) (λ w'. and_then (unlock w') (λ w''. returns (collect order w', w'')))

  -- The end of `StartTask`, by the error of the run.
  unfoldable pub finish_start :
      Ptr → DockerResult → Worker Q D → DockerResult × Option Ptr × Worker Q D
  unfolding update_object remember
  finish_start t result w = elim result.error [
    | some e ↦ (result, none, remember t (update_object t (λ x. record x { state = failed }) w))
    | none ↦ (
      result,
      some t,
      remember t (
          update_object t (λ x. record x { container_id = result.container_id; state = running })
            w),
    )
  ]

  -- The deferred unlock, and the results of `runTask`.
  unfoldable pub release :
      DockerResult → Option Ptr → Worker Q D → Outcome (DockerResult × Option Ptr × Worker Q D)
  unfolding unlock
  release result t w = and_then (unlock w) (λ w'. returns (result, t, w'))

  -- What follows `StartTask`; without an error and without a task the log line panics.
  unfoldable pub after_start :
      Ptr
      → DockerResult × Option Ptr × Worker Q D
      → Outcome (DockerResult × Option Ptr × Worker Q D)
  unfolding release
  after_start t (result, updated, w) = elim result.error [
    | some e ↦ release result (some t) w
    | none ↦ elim updated [ none ↦ panics | some u ↦ release result (some u) w ]
  ]

module _ {Q D : Type 0} ⦃client : DockerClient D⦄ where
  -- `StartTask`, which runs while its caller holds the lock; nothing in it panics.
  unfoldable pub start_task : Time → Ptr → Worker Q D → DockerResult × Option Ptr × Worker Q D
  unfolding finish_start new_docker
  start_task now t w =
      let w1 = update_object t (λ x. record x { start_time = now }) w in
      elim (new_docker w.docker_available (new_config (w1.heap.cell t))) [
        | none ↦ (
          with_error none,
          none,
          remember t (update_object t (λ x. record x { state = failed }) w1),
        )
        | some d ↦
            let (result, _, s) = run d w1.docker in finish_start t result (record w1 { docker = s })
      ]

  -- `StopTask`
  unfoldable pub stop_task : Time → Ptr → Worker Q D → Outcome (DockerResult × Worker Q D)
  unfolding lock unlock update_object remember
  stop_task now t w = and_then (lock w) (λ w1.
      let (result, s) = stop (w1.heap.cell t).container_id w1.docker in
      let stopped = remember t (
        update_object t (λ x. record x { end_time = now; state = completed })
          (record w1 { docker = s })) in
      and_then (unlock stopped) (λ w2. returns (result, w2)))

  -- The case of a scheduled task.
  unfoldable pub run_scheduled :
      Time → Ptr → Worker Q D → Outcome (DockerResult × Option Ptr × Worker Q D)
  unfolding after_start
  run_scheduled now t w = after_start t (start_task now t w)

  -- The switch of `runTask` on the state of the task, under the lock.
  unfoldable pub run_state :
      State → Time → Ptr → Worker Q D → Outcome (DockerResult × Option Ptr × Worker Q D)
  unfolding run_scheduled stop_task update_object
  run_state pending now t w =
      run_scheduled now t (update_object t (λ x. record x { state = scheduled }) w)
  run_state scheduled now t w = run_scheduled now t w
  run_state completed now t w = and_then (stop_task now t w) (λ r. release r.0 (some t) r.1)
  run_state running now t w = release (with_error (some "unexpected task state")) (some t) w
  run_state failed now t w = release (with_error (some "unexpected task state")) (some t) w

module _ {Q D : Type 0} ⦃queue : QueueOps Q⦄ where
  -- `AddTask`
  unfoldable pub enqueue_task : Ptr → Worker Q D → Worker Q D
  enqueue_task t w = record w { queue = queue.enqueue t w.queue }

module _ {Q D : Type 0} ⦃queue : QueueOps Q⦄ ⦃client : DockerClient D⦄ where
  -- What `runTask` does with the item that it took off the queue.
  unfoldable pub run_item :
      Time → Option Ptr → Worker Q D → Outcome (DockerResult × Option Ptr × Worker Q D)
  unfolding lock run_state
  run_item now none w = returns (with_error (some "Invalid type in queue"), none, w)
  run_item now (some t) w = and_then (lock w) (λ w1. run_state (w1.heap.cell t).state now t w1)

  unfoldable pub run_task : Time → Worker Q D → Outcome (DockerResult × Option Ptr × Worker Q D)
  unfolding lock unlock run_item
  run_task now w = and_then (lock w) (λ w1.
      let (item, rest) = queue.dequeue w1.queue in
      if queue.len w1.queue == 0
      then and_then (unlock w1) (λ w2. returns (with_error none, none, w2))
      else and_then (unlock (record w1 { queue = rest })) (run_item now item))

  -- What a round of `RunTasks` does with the results; an error without a task is a panic.
  unfoldable pub note_result : Time → DockerResult → Option Ptr → Worker Q D → Outcome (Worker Q D)
  unfolding update_task_state
  note_result now result t w = elim result.error [
    | none ↦ returns w
    | some e ↦ elim t [ none ↦ panics | some p ↦ update_task_state (w.heap.cell p).id failed now w ]
  ]

  -- A round of the loop of `RunTasks`.
  unfoldable pub run_tasks_round : Time → Worker Q D → Outcome (Worker Q D)
  unfolding run_task note_result
  run_tasks_round now w =
      if queue.len w.queue == 0
      then returns w
      else and_then (run_task now w) (λ r. note_result now r.0 r.1 r.2)
