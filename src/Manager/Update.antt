-- ===== src/Manager/Update.antt =====
-- internal/manager/manager.go: updateTasks, which reads every worker's list of tasks.
pub mod Laws
use minkube.Base.{
  String, List, [], ◌∷◌, ◌++◌, Option, none, some, nat_eq, string_eq, if◌then◌else◌, contains,
}
use minkube.Base.GoMap
use minkube.Heap.{Ptr, write, alloc}
use minkube.Manager.{Manager}
use minkube.Manager.Sorted.{insert_sorted}
use minkube.Task.{Task, Uuid, differs}

-- What a goroutine of `updateTasks` gets for its request: the request could not be built, or not
-- sent; a status other than 200; a body that is no list of tasks; or the tasks.
pub data Reply : Type 0 where
  request_error send_error bad_status bad_body : Reply
  tasks : List Task → Reply

-- The three errors that a goroutine sends to `errCh`, with the worker's address.
pub data UpdateError : Type 0 where
  retrieving_failed error_response could_not_decode : String → UpdateError

-- The first error that the channel received.
abbrev pub or_first : Option UpdateError → Option UpdateError → Option UpdateError
or_first none e = e
or_first (some d) e = some d

module _ {Q : Type 0} where
  -- The task is in the table: four fields are copied where the state differs.
  unfoldable pub refresh_task : Ptr → Task → Manager Q → Manager Q
  unfolding write
  refresh_task p worker_task m =
      let manager_task = m.heap.cell p in
      if differs manager_task.state worker_task.state
      then record m {
        heap =
            write p
              (record manager_task {
                state = worker_task.state;
                container_id = worker_task.container_id;
                start_time = worker_task.start_time;
                end_time = worker_task.end_time;
              })
              m.heap;
      }
      else m

  -- The task is not in the table: a copy of it is added.
  unfoldable pub adopt_task : String → Task → Manager Q → Manager Q
  unfolding alloc insert_sorted
  adopt_task work worker_task m =
      let id = worker_task.id in
      let task_copy = m.heap.next in
      let heap = alloc worker_task m.heap in
      record m {
        heap = heap;
        task_db = GoMap.insert id task_copy m.task_db;
        task_worker_map = GoMap.insert id work m.task_worker_map;
        sorted_tasks = insert_sorted heap m.sorted_tasks task_copy;
        workers_task_map =
            if contains id (GoMap.lookup_or work [] m.workers_task_map)
            then m.workers_task_map
            else GoMap.insert work (GoMap.lookup_or work [] m.workers_task_map ++ id ∷ [])
                m.workers_task_map;
      }

  -- A round of the loop over the tasks of a worker.
  unfoldable pub update_task : String → Task → Manager Q → Manager Q
  unfolding refresh_task adopt_task
  update_task work worker_task m = elim (GoMap.lookup worker_task.id m.task_db) [
    | some p ↦ refresh_task p worker_task m
    | none ↦ adopt_task work worker_task m
  ]

  unfoldable pub update_loop : String → List Task → Manager Q → Manager Q
  update_loop work [] m = m
  update_loop work (t ∷ ts) m = update_loop work ts (update_task work t m)

  -- One goroutine: the new state, and the error that it sends. A request that fails to be sent is
  -- only logged.
  unfoldable pub update_worker : String → Reply → Manager Q → Manager Q × Option UpdateError
  unfolding update_loop update_task
  update_worker work request_error m = (m, some (retrieving_failed work))
  update_worker work send_error m = (m, none)
  update_worker work bad_status m = (m, some (error_response work))
  update_worker work bad_body m = (m, some (could_not_decode work))
  update_worker work (tasks ts) m = (update_loop work ts m, none)

  -- The goroutines hold the lock for their whole loop, so they run one after another, in the
  -- order in which they finish their requests: each worker with its reply.
  unfoldable pub update_tasks : List (String × Reply) → Manager Q → Manager Q × Option UpdateError
  unfolding update_worker
  update_tasks [] m = (m, none)
  update_tasks ((work, reply) ∷ rs) m =
      let (m', e) = update_worker work reply m in
      let (m'', es) = update_tasks rs m' in (m'', or_first e es)
