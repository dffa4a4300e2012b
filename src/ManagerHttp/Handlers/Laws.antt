-- ===== src/ManagerHttp/Handlers/Laws.antt =====
-- The handlers of internal/manager/http/handlers.go that change the manager.
use minkube.Base.{
  ℕ, ◌+◌, ◌*◌, ◌<◌, String, List, [], ◌∷◌, ◌++◌, true, false, nat_eq, string_eq, ◌==◌, ==_iff, not,
  ◌&&◌, leb, if◌then◌else◌, arith, ◌≡◌, refl, Option, none, some, ◌∙◌, ap, Option-cases, inl, inr,
  Bool-cases,
}
use minkube.Base.Int.{ℤ, pos, negsuc, wrap, wrap-pos, *ℤ-pos, ltb_ℤ, int_bound}
use minkube.Base.GoMap
use minkube.Base.GoMap.{lookup-insert}
use minkube.Base.Queue.{QueueOps}
use minkube.Heap.{Ptr, write, alloc}
use minkube.Manager.{Manager, is_worker_healthy, is_worker_ready}
use minkube.Manager.Invariant.{Inv, IsAllocated}
use minkube.Manager.Invariant.Add.{add_task-Inv}
use minkube.Manager.Invariant.Send.{heap-Inv}
use minkube.Manager.Invariant.Update.{alloc-Inv}
use minkube.Manager.Select.Laws.{schedulable}
use minkube.Manager.Send.{created, send_work}
use minkube.Manager.Send.Laws.{Recorded, send_created, add_task_items, add_task_table}
use minkube.Manager.Sorted.{add_task}
use minkube.ManagerHttp.Handlers.{
  memory_in_bytes, min_memory_bytes, is_valid_request, full_task, submit_task, start_task_handler,
  mark_completed, stop_task, stop_task_handler,
}
use minkube.Http.{success}
use minkube.Task.{Task, StartTaskRequest, StartTaskEventRequest, Uuid, Time, completed}

memory_fits : (n : ℕ) → n < 8796093022208 → memory_in_bytes (pos n) ≡ pos (n * 1048576)
unfolding memory_in_bytes
memory_fits n h =
    rw (*ℤ-pos n 1024, wrap-pos (n * 1024) (omega arith), *ℤ-pos (n * 1024) 1024)
      (wrap-pos (n * 1024 * 1024) (omega arith) ∙ ap pos (omega arith))

-- For a memory from 0 to 2 ^ 43 - 1 MB the checks accept exactly the requests with a name, an image
-- and at least 6 MB; the check of the disk space refuses nothing.
pub is_valid_request_lem :
    (r : StartTaskRequest) (n : ℕ)
    → r.memory ≡ pos n
    → n < 8796093022208
    → is_valid_request r ≡ (not (r.name == "") && (not (r.image == "") && leb 6 n))
unfolding is_valid_request
is_valid_request_lem r n e h = rw (e, memory_fits n h) (disk r.disk)
  where
    disk :
        (d : ℤ)
        → (if r.name == ""
            then false
            else (if r.image == ""
                then false
                else (if ltb_ℤ (pos (n * 1048576)) min_memory_bytes
                    then false
                    else (if ltb_ℤ (pos 0) d && ltb_ℤ d (pos 1) then false else true))))
          ≡ (not (r.name == "") && (not (r.image == "") && leb 6 n))
    disk (pos k) = ground arith
    disk (negsuc k) = ground arith

wrap_multiple :
    (a j n : ℕ) → a ≡ 18446744073709551616 * j + n → n < int_bound → wrap (pos a) ≡ pos n
unfolding wrap
wrap_multiple a j n e h = ground arith

-- The product in bytes wraps: a memory of 2 ^ 44 j + n MB, for j below 512, reads as n MB.
memory_wraps :
    (j n : ℕ)
    → j < 512
    → n < 8796093022208
    → memory_in_bytes (pos (17592186044416 * j + n)) ≡ pos (n * 1048576)
unfolding memory_in_bytes
memory_wraps j n h k =
    let mb : ℕ = 17592186044416 * j + n in
    rw (*ℤ-pos mb 1024, wrap-pos (mb * 1024) (omega arith), *ℤ-pos (mb * 1024) 1024)
      (wrap_multiple (mb * 1024 * 1024) j (n * 1048576) (omega arith) (omega arith))

module _ {Q : Type 0} ⦃queue : QueueOps Q⦄ where
  submit_task-Inv : (t : Task) (m : Manager Q) → Inv m → Inv (submit_task t m)
  unfolding submit_task
  submit_task-Inv t m v =
      add_task-Inv m.heap.next (record m { heap = alloc t m.heap })
        (unfold alloc write in (v.heap_started, omega arith)) (alloc-Inv t m v)

  pub mark_completed-Inv : (p : Ptr) (m : Manager Q) → Inv m → Inv (mark_completed p m)
  unfolding mark_completed
  mark_completed-Inv p m v =
      heap-Inv m (write p (record (m.heap.cell p) { state = completed }) m.heap)
        (λ q. unfold write in ground (arith, ==_iff p q)) (unfold write in refl) v

  stop_task-Inv : (p : Ptr) (m : Manager Q) → IsAllocated m.heap p → Inv m → Inv (stop_task p m)
  unfolding stop_task mark_completed
  stop_task-Inv p m a v =
      add_task-Inv p (mark_completed p m) (unfold write in a) (mark_completed-Inv p m v)

-- StartTaskHandler keeps the manager's invariant, whatever the request.
pub start_task_handler-Inv :
    {Q : Type 0} ⦃queue : QueueOps Q⦄ (id : Uuid) (now : Time) (correlation_id : String)
    (body : Option StartTaskEventRequest) (m : Manager Q)
    → Inv m
    → Inv (start_task_handler id now correlation_id body m).0
unfolding start_task_handler
start_task_handler-Inv id now correlation_id none m v = v
start_task_handler-Inv id now correlation_id (some event) m v =
    elim (Bool-cases (is_valid_request event.task)) [
      | inl e ↦ rw e (submit_task-Inv (full_task id now correlation_id event.task) m v)
      | inr e ↦ rw e v
    ]

-- StopTaskHandler keeps the manager's invariant, whatever the request.
pub stop_task_handler-Inv :
    {Q : Type 0} ⦃queue : QueueOps Q⦄ (parse : String → Option Uuid) (task_id : String)
    (m : Manager Q)
    → Inv m
    → Inv (stop_task_handler parse task_id m).0
unfolding stop_task_handler
stop_task_handler-Inv parse task_id m v = elim (Bool-cases (task_id == "")) [
  | inl e ↦ rw e v
  | inr e ↦ elim (Option-cases (parse task_id)) [
    | inl f ↦ rw (e, f) v
    | inr (id, f) ↦ elim (Option-cases (GoMap.lookup id m.task_db)) [
      | inl g ↦ rw (e, f, stop_task_handler) (rw g v)
      | inr (p, g) ↦
          rw (e, f, stop_task_handler) (rw g (stop_task-Inv p m (v.table_allocated id p g) v))
    ]
  ]
]

-- A request that is accepted is answered with status 201 and an event with the new task, and the
-- task is queued last and stands in the table under its ID.
pub start_task_accepted :
    {Q : Type 0} ⦃queue : QueueOps Q⦄ (id : Uuid) (now : Time) (correlation_id : String)
    (event : StartTaskEventRequest) (m : Manager Q)
    → is_valid_request event.task ≡ true
    → let t = full_task id now correlation_id event.task in
      let r = start_task_handler id now correlation_id (some event) m in
      (r.1 ≡ success 201 (record { id = id; state = t.state; timestamp = now; task = t }))
      × (queue.items r.0.pending_tasks ≡ queue.items m.pending_tasks ++ m.heap.next ∷ [])
      × (GoMap.lookup id r.0.task_db ≡ some m.heap.next)
      × (r.0.heap.cell m.heap.next ≡ t)
unfolding start_task_handler submit_task
start_task_accepted id now correlation_id event m e =
    let t = full_task id now correlation_id event.task in
    let made = record m { heap = alloc t m.heap } in
    let stored : (alloc t m.heap).cell m.heap.next ≡ t = unfold alloc write in ground arith in
    rw e (
      refl,
      add_task_items m.heap.next made _ refl,
      add_task_table m.heap.next made id (ap (λ x. x.id) stored ∙ unfold full_task in refl),
      unfold add_task in stored,
    )

module _ {Q : Type 0} ⦃queue : QueueOps Q⦄ (p : Ptr) where
  stop_task_state : (m : Manager Q) → ((stop_task p m).heap.cell p).state ≡ completed
  unfolding stop_task add_task write
  stop_task_state m = ground arith

  sent_again :
      (event_id : Uuid) (now : Time) (m : Manager Q) (v : String) (vs : List String)
      → queue.items m.pending_tasks ≡ []
      → schedulable m ≡ v ∷ vs
      → (m' : Manager Q) × (w : String) × (send_work event_id now created (stop_task p m) ≡ some m')
        × Recorded m' p w
  unfolding stop_task
  sent_again event_id now m v vs q s =
      let marked = record m {
        heap = write p (record (m.heap.cell p) { state = completed }) m.heap;
      } in
      let r =
        send_created event_id now (add_task p marked) p [] v vs (add_task_items p marked [] q)
          (unfold add_task schedulable is_worker_healthy is_worker_ready in s) in
      (r.0, _, r.1, r.4)

-- Stopping a task through the manager starts it again: where the queue was empty, the request to
-- stop a task of the table marks it as completed and queues it, and the next SendWork that a worker
-- accepts marks the same task object as Scheduled and sends that state.
pub stop_starts_again :
    {Q : Type 0} ⦃queue : QueueOps Q⦄ (parse : String → Option Uuid) (task_id : String) (id : Uuid)
    (p : Ptr) (event_id : Uuid) (now : Time) (m : Manager Q) (v : String) (vs : List String)
    → (task_id == "") ≡ false
    → parse task_id ≡ some id
    → GoMap.lookup id m.task_db ≡ some p
    → queue.items m.pending_tasks ≡ []
    → schedulable m ≡ v ∷ vs
    → let stopped = (stop_task_handler parse task_id m).0 in
      ((stopped.heap.cell p).state ≡ completed)
      × ((m' : Manager Q) × (w : String) × (send_work event_id now created stopped ≡ some m')
          × Recorded m' p w)
unfolding stop_task_handler
stop_starts_again parse task_id id p event_id now m v vs ne e f q s =
    rw (ne, e, stop_task_handler) (rw f (stop_task_state p m, sent_again p event_id now m v vs q s))
