-- ===== src/WorkerHttp/Handlers.antt =====
-- internal/worker/http/handlers.go: StartTaskHandler, StopTaskHandler and GetStatsHandler.
pub mod Laws
use minkube.Base.{
  ℕ, String, Bool, true, false, Option, none, some, string_eq, nat_eq, ◌==◌, if◌then◌else◌,
}
use minkube.Base.Int.{ℤ, pos, negsuc}
use minkube.Base.GoMap
use minkube.Base.Queue.{QueueOps}
use minkube.Heap.{Ptr, alloc}
use minkube.Http.{Response, success, failure}
use minkube.Task.{Task, TaskEvent, Uuid, Time, pending, completed}
use minkube.Worker.Service.{
  Worker, Outcome, returns, and_then, lock, unlock, update_object, enqueue_task,
}

-- The event with the fields that the worker sets: its time, and a new ID for the task, whatever ID
-- the event came with.
unfoldable pub accepted_event : Uuid → Time → TaskEvent → TaskEvent
accepted_event id now te = record te {
  timestamp = now;
  task = record te.task { id = id; start_time = now; state = pending };
}

-- `r.ContentLength == 0`; a length that is not known is -1.
abbrev pub is_empty_body : ℤ → Bool
is_empty_body (pos n) = n == 0
is_empty_body (negsuc n) = false

module _ {Q D : Type 0} ⦃queue : QueueOps Q⦄ where
  -- `&te.Task` is a new object.
  unfoldable pub submit : Task → Worker Q D → Worker Q D
  unfolding alloc enqueue_task
  submit t w = enqueue_task w.heap.next (record w { heap = alloc t w.heap })

  -- `body` is what decoding gave, `none` for an error; `id` and `now` are those of uuid.New and
  -- time.Now.
  unfoldable pub start_task_handler :
      Uuid → Time → ℤ → Option TaskEvent → Worker Q D → Worker Q D × Response TaskEvent
  unfolding accepted_event submit
  start_task_handler id now content_length body w =
      if is_empty_body content_length then (w, failure 204) else elim body [
        | none ↦ (w, failure 400)
        | some te ↦ let event = accepted_event id now te in (submit event.task w, success 201 event)
      ]

  -- Between the lock and the unlock: the task is marked as completed and queued again.
  unfoldable pub stop_found : Ptr → Worker Q D → Worker Q D × Response Task
  unfolding update_object enqueue_task
  stop_found p w =
      let marked = update_object p (λ x. record x { state = completed }) w in
      (enqueue_task p marked, success 200 (marked.heap.cell p))

  unfoldable pub stop_locked :
      (String → Option Uuid) → String → Worker Q D → Worker Q D × Response Task
  unfolding stop_found
  stop_locked parse task_id w = elim (parse task_id) [
    | none ↦ (w, failure 400)
    | some id ↦ elim (GoMap.lookup id w.task_ids) [
      | none ↦ (w, failure 400)
      | some p ↦ stop_found p w
    ]
  ]

  -- `parse` is uuid.Parse, of a package outside the repository. Every branch behind the lock gives it
  -- back before it answers.
  unfoldable pub stop_task_handler :
      (String → Option Uuid) → String → Worker Q D → Outcome (Worker Q D × Response Task)
  unfolding lock unlock stop_locked
  stop_task_handler parse task_id w =
      if task_id == ""
      then returns (w, failure 400)
      else and_then (lock w) (λ w1.
        let (w2, r) = stop_locked parse task_id w1 in and_then (unlock w2) (λ w3. returns (w3, r)))

-- GetStatsHandler, on the worker's statistics; `none` is nil.
unfoldable pub get_stats_handler : {S : Type 0} → Option S → Response S
get_stats_handler none = failure 400
get_stats_handler (some stats) = success 200 stats
