-- ===== src/Tests.antt =====
-- Concrete managers and requests, and the theorems at work on them.
pub mod ManagerRuns
pub mod DockerRuns
pub mod HttpRuns
pub mod WorkerRuns
pub mod StatsRuns
pub mod ProcessRuns
pub mod ClusterRuns
pub mod CommandRuns
pub mod ServeRuns
pub mod WorkerServeRuns
pub mod LockRuns
pub mod SystemRuns
pub mod StreamRuns
pub mod WorkerHttpRuns
use minkube.Base.{ℕ, String, List, [], ◌∷◌, true, some, ◌≡◌, refl, arith}
use minkube.Base.Int.{pos, wrap, ◌*ℤ◌}
use minkube.Base.GoMap
use minkube.Base.Queue.{QueueOps, list_queue}
use minkube.Heap.{Heap, write, alloc}
use minkube.Manager.{Manager, new, register_workers, is_worker_healthy, is_worker_ready}
use minkube.Manager.Health.{health_check_worker, health_check_workers}
use minkube.Manager.Invariant.{Inv}
use minkube.Manager.Invariant.New.{new-Inv, health_check_workers-Inv}
use minkube.Manager.Select.Laws.{schedulable}
use minkube.Manager.Sorted.{add_task}
use minkube.ManagerHttp.Handlers.{
  is_valid_request, memory_in_bytes, full_task, submit_task, start_task_handler,
}
use minkube.ManagerHttp.Handlers.Laws.{start_task_handler-Inv}
use minkube.Task.{Task, zero_task, StartTaskRequest, StartTaskEventRequest, completed}

instance abbrev pub fifo : QueueOps (List ℕ)
fifo = list_queue

-- Two workers that no health check has reached yet, and then the same two healthy.
abbrev pub fresh : Manager (List ℕ)
fresh = new (record { next = 1; cell = λ p. zero_task }) ("w1" ∷ "w2" ∷ []) 0

abbrev pub healthy : Manager (List ℕ)
healthy = health_check_workers (("w1", true) ∷ ("w2", true) ∷ []) fresh

abbrev pub request : StartTaskRequest
request = record {
  name = "web";
  image = "nginx";
  memory = pos 6;
  disk = pos 1;
  restart_policy = "always";
  port_bindings = GoMap.empty;
}

abbrev pub event_request : StartTaskEventRequest
event_request = record { task = request }

-- One task, of ID 7 and with start time 100, in the queue, the table and the list.
abbrev pub busy : Manager (List ℕ)
busy = (start_task_handler 7 100 "c1" (some event_request) healthy).0

fresh-Inv : Inv fresh
fresh-Inv = new-Inv (record { next = 1; cell = λ p. zero_task }) ("w1" ∷ "w2" ∷ []) 0 (omega arith)

healthy-Inv : Inv healthy
healthy-Inv = health_check_workers-Inv (("w1", true) ∷ ("w2", true) ∷ []) fresh fresh-Inv

pub busy-Inv : Inv busy
busy-Inv = start_task_handler-Inv 7 100 "c1" (some event_request) healthy healthy-Inv

pub healthy-schedulable : schedulable healthy ≡ "w1" ∷ "w2" ∷ []
unfolding new register_workers health_check_workers health_check_worker GoMap.insert GoMap.lookup_or
    GoMap.empty schedulable is_worker_healthy is_worker_ready
healthy-schedulable = refl

fresh-schedulable : schedulable fresh ≡ []
unfolding new register_workers GoMap.insert GoMap.lookup_or GoMap.empty schedulable
    is_worker_healthy
fresh-schedulable = refl

pub busy-queue : busy.pending_tasks ≡ 1 ∷ []
unfolding new register_workers health_check_workers health_check_worker start_task_handler
    memory_in_bytes submit_task add_task wrap ◌*ℤ◌
busy-queue = refl

-- A request for a task leaves the workers' entries alone.
pub busy-schedulable : schedulable busy ≡ "w1" ∷ "w2" ∷ []
unfolding new register_workers health_check_workers health_check_worker GoMap.insert GoMap.lookup_or
    GoMap.empty schedulable is_worker_healthy is_worker_ready start_task_handler memory_in_bytes
    submit_task add_task wrap ◌*ℤ◌
busy-schedulable = refl

-- The same task submitted to the manager whose workers are unknown.
abbrev pub stuck : Manager (List ℕ)
stuck = (start_task_handler 7 100 "c1" (some event_request) fresh).0

stuck-Inv : Inv stuck
stuck-Inv = start_task_handler-Inv 7 100 "c1" (some event_request) fresh fresh-Inv

pub stuck-schedulable : schedulable stuck ≡ []
unfolding new register_workers GoMap.insert GoMap.lookup_or GoMap.empty schedulable
    is_worker_healthy start_task_handler memory_in_bytes submit_task add_task wrap ◌*ℤ◌
stuck-schedulable = refl

pub stuck-queue : stuck.pending_tasks ≡ 1 ∷ []
unfolding new register_workers start_task_handler memory_in_bytes submit_task add_task wrap ◌*ℤ◌
stuck-queue = refl
