-- ===== src/WorkerProcess.antt =====
-- cmd/worker/main.go: the goroutines of a worker's process on their shared state: RunTasks,
-- MonitorTasks and the requests, cut where they let go of the lock.
pub mod Safety
pub mod Blocked
use minkube.Base.{
  ℕ, String, List, [], ◌∷◌, Bool, Option, none, some, ◌≡◌, if◌then◌else◌, ◌==◌, nat_eq, string_eq,
}
use minkube.Base.GoMap
use minkube.Base.Int.{ℤ}
use minkube.Base.Queue.{QueueOps}
use minkube.Heap.{Heap, Ptr}
use minkube.Http.{Response}
use minkube.Task.{
  Task, TaskEvent, Uuid, Time, failed, PortMap, ContainerJson, ContainerState, DockerResult,
  DockerInspectResponse,
}
use minkube.Task.Docker.{DockerClient, with_error}
use minkube.Worker.Monitor.{tasks_to_inspect, update_ports}
use minkube.Worker.Service.{
  Worker, free, write_locked, Outcome, returns, deadlock, panics, and_then, lock, unlock,
  update_task_state, run_item, note_result,
}
use minkube.WorkerHttp.Handlers.{start_task_handler, stop_task_handler}

-- Where RunTasks stands, with the local variables that are live there.
pub data Running : Type 0 where
  waiting : Running  -- before `w.Queue.Len() != 0`
  taking : Running  -- before the first lock of runTask
  took : (item : Option Ptr) → Running  -- before its second lock
  noting : (result : DockerResult) → (t : Option Ptr) → Running  -- before `result.Error != nil`
  stuck : Running  -- in the lock of StopTask, which never comes

-- Where MonitorTasks stands.
pub data Watching : Type 0 where
  watching : (ts : List Ptr) → Watching  -- before the lock of a round, or before InspectTask
  answered : (t : Ptr) → (resp : DockerInspectResponse) → (ts : List Ptr) → Watching
  porting : (t : Ptr) → (settings : Option PortMap) → (ts : List Ptr) → Watching  -- before its lock

pub data Stage : Type 0 where
  stage : (run : Running) → (watch : Watching) → Stage

module _ {Q D : Type 0} ⦃queue : QueueOps Q⦄ where
  -- The worker that `main` makes.
  unfoldable pub new_worker : Heap → D → Bool → Worker Q D
  new_worker heap docker docker_available = record {
    heap = heap;
    queue = queue.new;
    task_ids = GoMap.empty;
    docker = docker;
    docker_available = docker_available;
    mu = free;
  }

  -- A worker whose RunTasks hangs in StopTask: the oldest task is off the queue, and runTask holds the
  -- lock.
  unfoldable pub hung : Worker Q D → Worker Q D
  hung w = record w { queue = (queue.dequeue w.queue).1; mu = write_locked }

  -- RunTasks reads the length of the queue without the lock.
  unfoldable pub look : Worker Q D → Running
  look w = if queue.len w.queue == 0 then waiting else taking

  -- The first locked part of runTask. Of an empty queue it returns no error and no task.
  unfoldable pub take_item : Worker Q D → Outcome (Running × Worker Q D)
  unfolding lock unlock
  take_item w = and_then (lock w) (λ w1.
      let (item, rest) = queue.dequeue w1.queue in
      if queue.len w1.queue == 0
      then and_then (unlock w1) (λ w2. returns (noting (with_error none) none, w2))
      else and_then (unlock (record w1 { queue = rest })) (λ w2. returns (took item, w2)))

module _ {Q D : Type 0} where
  -- MonitorTasks with the answer about a task, up to the lock under which the ports are stored.
  unfoldable pub note_container_state :
      Time
      → Ptr
      → ContainerJson
      → Option ContainerState
      → List Ptr
      → Worker Q D
      → Outcome (Watching × Worker Q D)
  unfolding update_task_state
  note_container_state now t c none ts w = panics
  note_container_state now t c (some st) ts w =
      and_then
        (if st.status == "exited"
          then update_task_state (w.heap.cell t).id failed now w
          else returns w)
        (λ w1. returns (porting t c.network_settings ts, w1))

  unfoldable pub note_answer :
      Time → Ptr → DockerInspectResponse → List Ptr → Worker Q D → Outcome (Watching × Worker Q D)
  unfolding note_container_state update_task_state
  note_answer now t resp ts w =
      let mark =
        and_then (update_task_state (w.heap.cell t).id failed now w)
          (λ w1. returns (watching ts, w1)) in
      elim resp.error [
        | some e ↦ mark
        | none ↦ elim resp.container [
          | none ↦ mark
          | some c ↦ note_container_state now t c c.state ts w
        ]
      ]

module _ {Q D : Type 0} ⦃queue : QueueOps Q⦄ ⦃client : DockerClient D⦄ where
  -- One part of one goroutine's work, between two moments in which it does not hold the lock. Where
  -- a task that was taken off the queue makes runTask wait for ever with the lock in its hands, that
  -- is a step; what panics has none. InspectTask runs without the lock, so that any answer may come,
  -- and Docker may have done anything by then. A call of the queue is one step, also that of a
  -- request, which does not hold the lock.
  pub data WorkerStep (w : Worker Q D) : Stage → Worker Q D → Stage → Type 0 where
    see : (m : Watching) → WorkerStep w (stage waiting m) w (stage (look w) m)
    take :
        (m : Watching) (r : Running) (w' : Worker Q D)
        → take_item w ≡ returns (r, w')
        → WorkerStep w (stage taking m) w' (stage r m)
    run :
        (m : Watching) (now : Time) (item : Option Ptr) (result : DockerResult) (t : Option Ptr)
        (w' : Worker Q D)
        → run_item now item w ≡ returns (result, t, w')
        → WorkerStep w (stage (took item) m) w' (stage (noting result t) m)
    block :
        (m : Watching) (now : Time) (t : Ptr)
        → w.mu ≡ free
        → run_item now (some t) w ≡ deadlock
        → WorkerStep w (stage (took (some t)) m) (record w { mu = write_locked }) (stage stuck m)
    note :
        (m : Watching) (now : Time) (result : DockerResult) (t : Option Ptr) (w' : Worker Q D)
        → note_result now result t w ≡ returns w'
        → WorkerStep w (stage (noting result t) m) w' (stage waiting m)
    list :
        (r : Running) (order : List Uuid) (ts : List Ptr) (w' : Worker Q D)
        → tasks_to_inspect order w ≡ returns (ts, w')
        → WorkerStep w (stage r (watching [])) w' (stage r (watching ts))
    answer :
        (r : Running) (t : Ptr) (ts : List Ptr) (resp : DockerInspectResponse) (docker : D)
        → WorkerStep w
            (stage r (watching (t ∷ ts)))
            (record w { docker = docker })
            (stage r (answered t resp ts))
    heed :
        (r : Running) (t : Ptr) (ts : List Ptr) (resp : DockerInspectResponse) (now : Time)
        (m : Watching) (w' : Worker Q D)
        → note_answer now t resp ts w ≡ returns (m, w')
        → WorkerStep w (stage r (answered t resp ts)) w' (stage r m)
    store :
        (r : Running) (t : Ptr) (ts : List Ptr) (settings : Option PortMap) (w' : Worker Q D)
        → update_ports (w.heap.cell t).id settings w ≡ returns w'
        → WorkerStep w (stage r (porting t settings ts)) w' (stage r (watching ts))
    post :
        (q : Stage) (id : Uuid) (now : Time) (content_length : ℤ) (body : Option TaskEvent)
        → WorkerStep w q (start_task_handler id now content_length body w).0 q
    delete :
        (q : Stage) (parse : String → Option Uuid) (task_id : String) (w' : Worker Q D)
        (r : Response Task)
        → stop_task_handler parse task_id w ≡ returns (w', r)
        → WorkerStep w q w' q

  -- Any number of steps, in any interleaving.
  pub data WorkerSteps : Worker Q D → Stage → Worker Q D → Stage → Type 0 where
    done : (w : Worker Q D) (q : Stage) → WorkerSteps w q w q
    more :
        (w : Worker Q D) (q : Stage) (w1 : Worker Q D) (q1 : Stage) (w2 : Worker Q D) (q2 : Stage)
        → WorkerStep w q w1 q1
        → WorkerSteps w1 q1 w2 q2
        → WorkerSteps w q w2 q2
