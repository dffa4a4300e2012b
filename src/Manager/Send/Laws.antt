-- ===== src/Manager/Send/Laws.antt =====
-- SendWork of internal/manager/manager.go: what becomes of the oldest pending task.
use minkube.Base.{
  ℕ, ◌+◌, ◌%◌, String, List, [], ◌∷◌, ◌++◌, true, false, nat_eq, string_eq, ◌==◌, ==_iff, arith,
  ◌≡◌, refl, contains, contains-append, some, ◌∙◌, length, get_or, ap, ◌⊎◌, inl, inr,
}
use minkube.Base.GoMap
use minkube.Base.GoMap.{lookup-insert, lookup_or-insert}
use minkube.Base.Queue.{QueueOps}
use minkube.Heap.{Ptr, write}
use minkube.Manager.{Manager, is_worker_healthy, is_worker_ready}
use minkube.Manager.Select.{Result, ok, err, select_worker}
use minkube.Manager.Select.Laws.{schedulable, select_worker_some, select_worker_none}
use minkube.Manager.Send.{
  SendReply, send_error, refused, created, take_pending, schedule_task, new_event, record_sent,
  finish_send, offer_to, offer_task, send_work,
}
use minkube.Manager.Sorted.{add_task}
use minkube.Task.{TaskEvent, Uuid, Time, scheduled}

module _ {Q : Type 0} ⦃queue : QueueOps Q⦄ (m : Manager Q) (t : Ptr) (ts : List Ptr)
    (q : queue.items m.pending_tasks ≡ t ∷ ts) where
  -- The manager once the task is off the queue.
  abbrev pub taken : Manager Q
  taken = record m { pending_tasks = (queue.dequeue m.pending_tasks).1 }

  take_pending_lem : take_pending m ≡ (taken, some t)
  unfolding take_pending
  take_pending_lem =
      let busy : (queue.len m.pending_tasks == 0) ≡ false =
        ground (arith, queue.len_lem m.pending_tasks, ap length q) in
      let (first, rest) = queue.dequeue_cons m.pending_tasks t ts q in
      rw busy (ap (λ x. (taken, x)) first)

  send_work_some :
      (id : Uuid) (now : Time) (reply : SendReply) (i : ℕ) (r : Result String)
      → select_worker taken ≡ (record taken { last_worker = i }, r)
      → send_work id now reply m ≡ offer_to t id now reply r (record taken { last_worker = i })
  unfolding send_work offer_task
  send_work_some id now reply i r e =
      ap (λ x. offer_task x.1 id now reply x.0) take_pending_lem
      ∙ ap (λ x. offer_to t id now reply x.1 x.0) e

-- Without a worker that is healthy and ready, the oldest pending task leaves the queue and is not
-- put back by the call, while the table, the sorted list and the task itself are as they were.
pub send_without_worker :
    {Q : Type 0} ⦃queue : QueueOps Q⦄ (id : Uuid) (now : Time) (reply : SendReply) (m : Manager Q)
    (t : Ptr) (ts : List Ptr)
    → queue.items m.pending_tasks ≡ t ∷ ts
    → schedulable m ≡ []
    → (m' : Manager Q) × (send_work id now reply m ≡ some m')
      × (queue.items m'.pending_tasks ≡ ts)
      × (m'.task_db ≡ m.task_db)
      × (m'.sorted_tasks ≡ m.sorted_tasks)
      × (m'.heap ≡ m.heap)
unfolding offer_to
send_without_worker ⦃queue⦄ id now reply m t ts q e =
    let (f, s) =
      select_worker_none (taken m t ts q)
        (unfold schedulable is_worker_healthy is_worker_ready in e) in
    (
      record (taken m t ts q) { last_worker = m.last_worker },
      send_work_some m t ts q id now reply m.last_worker (err f) s,
      (queue.dequeue_cons m.pending_tasks t ts q).1,
      refl,
      refl,
      refl,
    )

-- What is recorded of a task t that worker w took, in the manager m' after the call.
pub record Recorded {Q : Type 0} (m' : Manager Q) (t : Ptr) (w : String) : Type 0 where
  pub event : TaskEvent
  pub stored : GoMap.lookup (m'.heap.cell t).id m'.event_db ≡ some event
  pub event_scheduled : event.state ≡ scheduled
  pub task_scheduled : event.task.state ≡ scheduled
  pub table : GoMap.lookup (m'.heap.cell t).id m'.task_db ≡ some t
  pub worker : GoMap.lookup (m'.heap.cell t).id m'.task_worker_map ≡ some w
  pub listed : contains (m'.heap.cell t).id (GoMap.lookup_or w [] m'.workers_task_map) ≡ true
  pub state : (m'.heap.cell t).state ≡ scheduled

record_sent_lem :
    {Q : Type 0} (m : Manager Q) (t : Ptr) (w : String) (te : TaskEvent)
    → te.state ≡ scheduled
    → te.task.state ≡ scheduled
    → (m.heap.cell t).state ≡ scheduled
    → Recorded (record_sent t w te m) t w
unfolding record_sent
record_sent_lem m t w te a b c =
    let id : Uuid = (m.heap.cell t).id in
    let old : List Uuid = GoMap.lookup_or w [] m.workers_task_map in
    record {
      event = te;
      stored = ground (arith, ==_iff id id, lookup-insert id id te m.event_db);
      event_scheduled = a;
      task_scheduled = b;
      table = ground (arith, ==_iff id id, lookup-insert id id t m.task_db);
      worker = ground (arith, ==_iff id id, lookup-insert id id w m.task_worker_map);
      listed = ground (
        arith,
        ==_iff w w,
        lookup_or-insert w w [] (old ++ id ∷ []) m.workers_task_map,
        contains-append id old (id ∷ []),
      );
      state = c;
    }

pub schedule_task_state :
    {Q : Type 0} (m : Manager Q) (t : Ptr) → ((schedule_task t m).heap.cell t).state ≡ scheduled
unfolding schedule_task write
schedule_task_state m t = ground arith

schedule_task_id :
    {Q : Type 0} (m : Manager Q) (t : Ptr)
    → ((schedule_task t m).heap.cell t).id ≡ (m.heap.cell t).id
unfolding schedule_task write
schedule_task_id m t = ground arith

-- With a schedulable worker that takes the task, the oldest pending task leaves the queue and is
-- recorded as sent to the worker that is next in turn. Whatever state the task was in, the event
-- that is sent and the task itself say Scheduled.
pub send_created :
    {Q : Type 0} ⦃queue : QueueOps Q⦄ (id : Uuid) (now : Time) (m : Manager Q) (t : Ptr)
    (ts : List Ptr) (v : String) (vs : List String)
    → queue.items m.pending_tasks ≡ t ∷ ts
    → schedulable m ≡ v ∷ vs
    → let index = (m.last_worker + 1) % length (v ∷ vs) in
      (m' : Manager Q) × (send_work id now created m ≡ some m')
      × (queue.items m'.pending_tasks ≡ ts)
      × (m'.last_worker ≡ index)
      × Recorded m' t (get_or (v ∷ vs) index "")
unfolding offer_to finish_send
send_created ⦃queue⦄ id now m t ts v vs q e =
    let index = (m.last_worker + 1) % length (v ∷ vs) in
    let w = get_or (v ∷ vs) index "" in
    let selected = record (taken m t ts q) { last_worker = index } in
    let sent = schedule_task t selected in
    let te = new_event id now (sent.heap.cell t) in
    let marked = schedule_task_state selected t in
    (
      record_sent t w te sent,
      send_work_some m t ts q id now created index (ok w) (
          select_worker_some (taken m t ts q) v vs
            (unfold schedulable is_worker_healthy is_worker_ready in e)),
      unfold record_sent schedule_task in (queue.dequeue_cons m.pending_tasks t ts q).1,
      unfold record_sent schedule_task in refl,
      record_sent_lem sent t w te (unfold new_event in marked) (unfold new_event in marked) marked,
    )

module _ {Q : Type 0} ⦃queue : QueueOps Q⦄ where
  requeued :
      {reply : SendReply} (r : (reply ≡ send_error) ⊎ (reply ≡ refused true)) (t : Ptr) (w : String)
      (te : TaskEvent) (m : Manager Q)
      → finish_send t w te reply m ≡ some (add_task t m)
  unfolding finish_send
  requeued (inl e) t w te m = rw e refl
  requeued (inr e) t w te m = rw e refl

  pub add_task_items :
      (t : Ptr) (m : Manager Q) (ts : List Ptr)
      → queue.items m.pending_tasks ≡ ts
      → queue.items (add_task t m).pending_tasks ≡ ts ++ t ∷ []
  unfolding add_task
  add_task_items t m ts e =
      queue.enqueue_lem t m.pending_tasks ∙ ap (λ (xs : List Ptr). xs ++ t ∷ []) e

  pub add_task_table :
      (t : Ptr) (m : Manager Q) (id : Uuid)
      → (m.heap.cell t).id ≡ id
      → GoMap.lookup id (add_task t m).task_db ≡ some t
  unfolding add_task
  add_task_table t m id e =
      ground (arith, ==_iff (m.heap.cell t).id id, lookup-insert (m.heap.cell t).id id t m.task_db)

-- A task whose request fails on the way, or is refused with an error response, is queued again
-- behind the others.
pub send_requeued :
    {Q : Type 0} ⦃queue : QueueOps Q⦄ (id : Uuid) (now : Time) (reply : SendReply) (m : Manager Q)
    (t : Ptr) (ts : List Ptr) (v : String) (vs : List String)
    → (reply ≡ send_error) ⊎ (reply ≡ refused true)
    → queue.items m.pending_tasks ≡ t ∷ ts
    → schedulable m ≡ v ∷ vs
    → (m' : Manager Q) × (send_work id now reply m ≡ some m')
      × (queue.items m'.pending_tasks ≡ ts ++ t ∷ [])
      × (GoMap.lookup (m.heap.cell t).id m'.task_db ≡ some t)
unfolding offer_to finish_send
send_requeued ⦃queue⦄ id now reply m t ts v vs r q e =
    let index = (m.last_worker + 1) % length (v ∷ vs) in
    let w = get_or (v ∷ vs) index "" in
    let selected = record (taken m t ts q) { last_worker = index } in
    let sent = schedule_task t selected in
    (
      add_task t sent,
      send_work_some m t ts q id now reply index (ok w) (
            select_worker_some (taken m t ts q) v vs
              (unfold schedulable is_worker_healthy is_worker_ready in e))
          ∙ requeued r t w (new_event id now (sent.heap.cell t)) sent,
      add_task_items t sent ts
          (unfold schedule_task in (queue.dequeue_cons m.pending_tasks t ts q).1),
      add_task_table t sent (m.heap.cell t).id (schedule_task_id selected t),
    )
