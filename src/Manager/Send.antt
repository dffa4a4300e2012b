-- ===== src/Manager/Send.antt =====
-- internal/manager/manager.go: SendWork, cut where it lets go of the lock.
pub mod Laws
use minkube.Base.{
  String, [], ◌∷◌, ◌++◌, Bool, true, false, Option, none, some, ◌==◌, nat_eq, string_eq,
  if◌then◌else◌,
}
use minkube.Base.GoMap
use minkube.Base.Queue.{QueueOps}
use minkube.Heap.{Ptr, write}
use minkube.Manager.{Manager}
use minkube.Manager.Select.{Result, ok, err, select_worker}
use minkube.Manager.Sorted.{add_task}
use minkube.Task.{Task, TaskEvent, State, Time, Uuid, scheduled}

-- How the request to the worker ends: the event could not be encoded; the request could not be
-- built; it could not be sent; a status other than 201, whose body is an error response or is not;
-- or status 201.
pub data SendReply : Type 0 where
  marshal_error request_error send_error : SendReply
  refused : Bool → SendReply
  created : SendReply

-- The event that is sent, with a fresh ID of its own, the state that was read and a copy of the task.
unfoldable pub event_of : Uuid → State → Time → Task → TaskEvent
event_of id s now t = record { id = id; state = s; timestamp = now; task = t }

-- Where nothing comes between the two reads, the state is that of the copy.
unfoldable pub new_event : Uuid → Time → Task → TaskEvent
unfolding event_of
new_event id now t = event_of id t.state now t

module _ {Q : Type 0} where
  -- `t.State = task.Scheduled`
  unfoldable pub schedule_task : Ptr → Manager Q → Manager Q
  unfolding write
  schedule_task t m = record m {
    heap = write t (record (m.heap.cell t) { state = scheduled }) m.heap;
  }

  -- Under the lock: the worker took the task.
  unfoldable pub record_sent : Ptr → String → TaskEvent → Manager Q → Manager Q
  record_sent t w te m =
      let id = (m.heap.cell t).id in
      record m {
        event_db = GoMap.insert id te m.event_db;
        workers_task_map =
            GoMap.insert w (GoMap.lookup_or w [] m.workers_task_map ++ id ∷ []) m.workers_task_map;
        task_worker_map = GoMap.insert id w m.task_worker_map;
        task_db = GoMap.insert id t m.task_db;
      }

module _ {Q : Type 0} ⦃queue : QueueOps Q⦄ where
  -- Under the lock: take the oldest task off the queue. `none` ends the call, for an empty queue and
  -- for an item that is no task.
  unfoldable pub take_pending : Manager Q → Manager Q × Option Ptr
  take_pending m =
      let (t, rest) = queue.dequeue m.pending_tasks in
      if queue.len m.pending_tasks == 0 then (m, none) else (record m { pending_tasks = rest }, t)

  -- What follows the request. `none` is a panic: a request that could not be built is nil, and its
  -- header is set before the error is looked at.
  unfoldable pub finish_send : Ptr → String → TaskEvent → SendReply → Manager Q → Option (Manager Q)
  unfolding record_sent
  finish_send t w te marshal_error m = some (add_task t m)
  finish_send t w te request_error m = none
  finish_send t w te send_error m = some (add_task t m)
  finish_send t w te (refused true) m = some (add_task t m)
  finish_send t w te (refused false) m = some m
  finish_send t w te created m = some (record_sent t w te m)

  -- A task off the queue goes to the worker that was selected; without one it is let go.
  unfoldable pub offer_to :
      Ptr → Uuid → Time → SendReply → Result String → Manager Q → Option (Manager Q)
  unfolding schedule_task new_event finish_send
  offer_to t id now reply (err e) m = some m
  offer_to t id now reply (ok w) m =
      let sent = schedule_task t m in
      finish_send t w (new_event id now (sent.heap.cell t)) reply sent

  unfoldable pub offer_task : Option Ptr → Uuid → Time → SendReply → Manager Q → Option (Manager Q)
  unfolding offer_to
  offer_task none id now reply m = some m
  offer_task (some t) id now reply m =
      let (m', selected) = select_worker m in offer_to t id now reply selected m'

  -- `SendWork` with nothing else in between: `id` and `now` are the event's.
  unfoldable pub send_work : Uuid → Time → SendReply → Manager Q → Option (Manager Q)
  unfolding take_pending offer_task
  send_work id now reply m = let (m', taken) = take_pending m in offer_task taken id now reply m'
