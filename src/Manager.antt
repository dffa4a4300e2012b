-- ===== src/Manager.antt =====
-- internal/manager/manager.go: the manager's state, its construction and the reads of it.
-- A `*task.Task` is an address in the heap that the state carries: the task table, the sorted list
-- and the queue share the objects, as in the source. The mutex is not part of the state: each
-- function below runs while its goroutine holds the lock, and SendWork is cut where it does not.
pub mod Health
pub mod Sorted
pub mod Select
pub mod Cleanup
pub mod Update
pub mod Send
pub mod Invariant
use minkube.Base.{ℕ, String, List, [], ◌∷◌, Bool, false, Option, none, some, string_eq, nat_eq}
use minkube.Base.Int.{ℤ, pos}
use minkube.Base.GoMap
use minkube.Base.GoMap.{GoMap}
use minkube.Base.Queue.{QueueOps}
use minkube.Heap.{Heap, Ptr}
use minkube.Task.{TaskEvent, Time, Uuid}
use minkube.Worker.State.{State, ready, is_ready}

-- `EventDb` maps to events that nothing changes after they are stored, so they stand there by value.
pub record Manager (Q : Type 0) : Type 0 where
  pub heap : Heap
  pub pending_tasks : Q
  pub task_db : GoMap Uuid Ptr
  pub sorted_tasks : List Ptr
  pub event_db : GoMap Uuid TaskEvent
  pub workers : List String
  pub workers_task_map : GoMap String (List Uuid)
  pub worker_health : GoMap String Bool
  pub worker_state : GoMap String State
  pub worker_health_check_failures : GoMap String ℤ
  pub task_worker_map : GoMap Uuid String
  pub last_worker : ℕ
  pub last_cleanup_time : Time

-- The loop of `New` over the workers, on the four maps that it fills.
unfoldable pub register_workers : {Q : Type 0} → List String → Manager Q → Manager Q
register_workers [] m = m
register_workers (w ∷ ws) m = register_workers ws (record m {
  workers_task_map = GoMap.insert w [] m.workers_task_map;
  worker_health = GoMap.insert w false m.worker_health;
  worker_state = GoMap.insert w ready m.worker_state;
  worker_health_check_failures = GoMap.insert w (pos 0) m.worker_health_check_failures;
})

module _ {Q : Type 0} ⦃queue : QueueOps Q⦄ where
  -- `New`; the scheduler argument is not used, and the cleanup goroutine is `Cleanup` on a timer.
  unfoldable pub new : Heap → List String → Time → Manager Q
  unfolding register_workers
  new heap workers now = register_workers workers (record {
    heap = heap;
    pending_tasks = queue.new;
    task_db = GoMap.empty;
    sorted_tasks = [];
    event_db = GoMap.empty;
    workers = workers;
    workers_task_map = GoMap.empty;
    worker_health = GoMap.empty;
    worker_state = GoMap.empty;
    worker_health_check_failures = GoMap.empty;
    task_worker_map = GoMap.empty;
    last_worker = 0;
    last_cleanup_time = now;
  })

module _ {Q : Type 0} where
  -- `GetTask`: `none` is `nil, false`.
  unfoldable pub get_task : Uuid → Manager Q → Option Ptr
  get_task id m = GoMap.lookup id m.task_db

  -- `IsWorkerReady`; a worker that is in no map reads as `Ready`, the zero value.
  unfoldable pub is_worker_ready : String → Manager Q → Bool
  is_worker_ready w m = is_ready (GoMap.lookup_or w ready m.worker_state)

  unfoldable pub is_worker_healthy : String → Manager Q → Bool
  is_worker_healthy w m = GoMap.lookup_or w false m.worker_health
