-- ===== src/ManagerHttp/Handlers.antt =====
-- internal/manager/http/handlers.go: StartTaskHandler and StopTaskHandler.
pub mod Laws
use minkube.Base.{
  ℕ, String, List, Bool, true, false, Option, none, some, string_eq, nat_eq, ◌==◌, if◌then◌else◌,
  ◌&&◌, ◌||◌,
}
use minkube.Base.Int.{ℤ, pos, wrap, ◌*ℤ◌, ltb_ℤ}
use minkube.Base.GoMap
use minkube.Base.Queue.{QueueOps}
use minkube.Heap.{Heap, Ptr, write, alloc}
use minkube.Manager.{Manager}
use minkube.Manager.Sorted.{add_task}
use minkube.Http.{Response, success, failure}
use minkube.Task.{
  Task, TaskEvent, StartTaskRequest, StartTaskEventRequest, Uuid, Time, pending, completed,
}

-- 6 MB in bytes.
abbrev pub min_memory_bytes : ℤ
min_memory_bytes = pos 6291456

-- `taskRequestEvent.Task.Memory * 1024 * 1024`
unfoldable pub memory_in_bytes : ℤ → ℤ
memory_in_bytes memory = wrap (wrap (memory *ℤ pos 1024) *ℤ pos 1024)

-- The checks of the request, in order.
unfoldable pub is_valid_request : StartTaskRequest → Bool
unfolding memory_in_bytes
is_valid_request r =
    if r.name == ""
    then false
    else (if r.image == ""
        then false
        else (if ltb_ℤ (memory_in_bytes r.memory) min_memory_bytes
            then false
            else (if ltb_ℤ (pos 0) r.disk && ltb_ℤ r.disk (pos 1) then false else true)))

-- The complete task, with the fields that the server generates.
unfoldable pub full_task : Uuid → Time → String → StartTaskRequest → Task
unfolding memory_in_bytes
full_task id now correlation_id r = record {
  id = id;
  container_id = "";
  correlation_id = correlation_id;
  name = r.name;
  state = pending;
  image = r.image;
  memory = memory_in_bytes r.memory;
  disk = r.disk;
  exposed_port_set = GoMap.empty;
  host_ports = GoMap.empty;
  port_bindings = r.port_bindings;
  restart_policy = r.restart_policy;
  start_time = now;
  end_time = 0;
  health_check = "";
  retry_count = pos 0;
  max_retry_count = pos 3;
}

module _ {Q : Type 0} ⦃queue : QueueOps Q⦄ where
  -- The new task object, and its address in the queue, the table and the list.
  unfoldable pub submit_task : Task → Manager Q → Manager Q
  unfolding add_task alloc
  submit_task t m = add_task m.heap.next (record m { heap = alloc t m.heap })

  -- `body` is what reading the body of at most 10 KB and decoding it gave; `none` is an error of
  -- either. `id` and `now` are those of uuid.New and time.Now.
  unfoldable pub start_task_handler :
      Uuid
      → Time
      → String
      → Option StartTaskEventRequest
      → Manager Q
      → Manager Q × Response TaskEvent
  unfolding is_valid_request full_task submit_task
  start_task_handler id now correlation_id none m = (m, failure 400)
  start_task_handler id now correlation_id (some event) m =
      let t = full_task id now correlation_id event.task in
      if is_valid_request event.task
      then (
        submit_task t m,
        success 201 (record { id = id; state = t.state; timestamp = now; task = t }),
      )
      else (m, failure 400)

  -- `taskToStop.State = task.Completed`, under the lock that the look-up took.
  unfoldable pub mark_completed : Ptr → Manager Q → Manager Q
  unfolding write
  mark_completed p m = record m {
    heap = write p (record (m.heap.cell p) { state = completed }) m.heap;
  }

  -- The task is marked as completed and queued again.
  unfoldable pub stop_task : Ptr → Manager Q → Manager Q
  unfolding add_task mark_completed
  stop_task p m = add_task p (mark_completed p m)

  -- `parse` is uuid.Parse, of a package outside the repository. The body of the success is a text.
  unfoldable pub stop_task_handler :
      (String → Option Uuid) → String → Manager Q → Manager Q × Response Uuid
  unfolding stop_task
  stop_task_handler parse task_id m =
      if task_id == "" then (m, failure 400) else elim (parse task_id) [
        | none ↦ (m, failure 400)
        | some id ↦ elim (GoMap.lookup id m.task_db) [
          | none ↦ (m, failure 400)
          | some p ↦ (stop_task p m, success 204 (m.heap.cell p).id)
        ]
      ]
