-- ===== src/Manager/Invariant/Send.antt =====
-- SendWork keeps the manager's invariant, cut where it lets go of the lock.
use minkube.Base.{
  ℕ, String, List, [], ◌∷◌, ◌++◌, true, false, nat_eq, string_eq, ◌==◌, ==_iff, arith, ◌≡◌, ◌≢◌,
  refl, contains, All, All-map, none, some, ◌∙◌, ◌⊎◌, inl, inr, ap, sym, subst, map, fun_ext,
  length, contains-append, List-cases,
}
use minkube.Base.GoMap
use minkube.Base.GoMap.{lookup-insert, lookup-delete, lookup_or-insert}
use minkube.Base.Queue.{QueueOps}
use minkube.Heap.{Heap, Ptr, write}
use minkube.Manager.{Manager}
use minkube.Manager.Invariant.{Inv, IsAllocated, IsListed}
use minkube.Manager.Invariant.Add.{add_task-Inv}
use minkube.Manager.Sorted.{add_task}
use minkube.Manager.Sorted.Laws.{ids_of}
use minkube.Task.{TaskEvent, Uuid, Time}
use minkube.Manager.Select.Laws.{select_worker_place}
use minkube.Manager.Select.{Result, ok, err}
use minkube.Manager.Send.{
  SendReply, marshal_error, request_error, send_error, refused, created, take_pending,
  schedule_task, record_sent, finish_send, offer_to, offer_task, send_work,
}

module _ {Q : Type 0} ⦃queue : QueueOps Q⦄ where
  -- A new heap in which every object keeps its ID.
  pub heap-Inv :
      (m : Manager Q) (h : Heap)
      → ((p : Ptr) → (h.cell p).id ≡ (m.heap.cell p).id)
      → h.next ≡ m.heap.next
      → Inv m
      → Inv (record m { heap = h })
  heap-Inv m h e n v =
      let same : (ps : List Ptr) → ids_of h ps ≡ ids_of m.heap ps =
        λ ps. ap (λ f. map f ps) (fun_ext e) in
      let alive : (p : Ptr) → IsAllocated m.heap p → IsAllocated h p = λ p a. omega arith in
      record {
        heap_started = omega (arith, v.heap_started);
        table_keys = λ id p k. e p ∙ v.table_keys id p k;
        table_allocated = λ id p k. alive p (v.table_allocated id p k);
        table_listed = λ id p k. rw (same m.sorted_tasks) (v.table_listed id p k);
        sorted_allocated = All-map _ _ alive m.sorted_tasks v.sorted_allocated;
        queue_allocated = All-map _ _ alive (queue.items m.pending_tasks) v.queue_allocated;
        queue_listed =
            All-map (IsListed m.heap m.sorted_tasks) (IsListed h m.sorted_tasks)
              (λ p k. rw (same m.sorted_tasks, e p) k) (queue.items m.pending_tasks) v.queue_listed;
        events_known = v.events_known;
        assigned_known = v.assigned_known;
        assigned_mapped = v.assigned_mapped;
      }

  schedule_task_ids :
      (t : Ptr) (m : Manager Q) (p : Ptr)
      → ((schedule_task t m).heap.cell p).id ≡ (m.heap.cell p).id
  unfolding schedule_task write
  schedule_task_ids t m p = ground arith

  pub schedule_task-Inv : (t : Ptr) (m : Manager Q) → Inv m → Inv (schedule_task t m)
  unfolding schedule_task write
  schedule_task-Inv t m v = heap-Inv m (schedule_task t m).heap (schedule_task_ids t m) refl v

  -- What a goroutine knows of the task that it took off the queue.
  abbrev pub InFlight : Manager Q → Ptr → Type 0
  InFlight m t = IsAllocated m.heap t × IsListed m.heap m.sorted_tasks t

  append_mapped :
      (id_t : Uuid) (w : String) (id : Uuid) (u : String) (m : Manager Q)
      → Inv m
      → GoMap.lookup id (GoMap.insert id_t w m.task_worker_map) ≡ some u
      → contains id (
          GoMap.lookup_or u [] (
            GoMap.insert w
              (GoMap.lookup_or w [] m.workers_task_map ++ id_t ∷ [])
              m.workers_task_map))
        ≡ true
  append_mapped id_t w id u m v h =
      let old : List Uuid = GoMap.lookup_or w [] m.workers_task_map in
      ground (
        arith,
        ==_iff w u,
        ==_iff id_t id,
        lookup-insert id_t id w m.task_worker_map,
        lookup_or-insert w u [] (old ++ id_t ∷ []) m.workers_task_map,
        contains-append id old (id_t ∷ []),
        v.assigned_mapped id u,
        v.assigned_mapped id w,
      )

  pub schedule_task-InFlight :
      (t : Ptr) (m : Manager Q) → InFlight m t → InFlight (schedule_task t m) t
  schedule_task-InFlight t m (a, l) =
      let same : ids_of (schedule_task t m).heap m.sorted_tasks ≡ ids_of m.heap m.sorted_tasks =
        ap (λ f. map f m.sorted_tasks) (fun_ext (schedule_task_ids t m)) in
      let listed : contains ((schedule_task t m).heap.cell t).id
            (ids_of (schedule_task t m).heap m.sorted_tasks)
          ≡ true =
        subst (λ id. contains id (ids_of (schedule_task t m).heap m.sorted_tasks) ≡ true)
          (sym (schedule_task_ids t m t))
          (subst (λ ids. contains (m.heap.cell t).id ids ≡ true) (sym same) l) in
      unfold schedule_task write in (a, listed)

  record_sent-Inv :
      (t : Ptr) (w : String) (te : TaskEvent) (m : Manager Q)
      → InFlight m t
      → Inv m
      → Inv (record_sent t w te m)
  unfolding record_sent
  record_sent-Inv t w te m (a, l) v =
      let id_t : Uuid = (m.heap.cell t).id in
      record {
        heap_started = v.heap_started;
        table_keys = λ id p h. ground (arith, lookup-insert id_t id t m.task_db, v.table_keys id p);
        table_allocated =
            λ id p h. ground (arith, lookup-insert id_t id t m.task_db, v.table_allocated id p);
        table_listed = λ id p h.
            ground (arith, ==_iff id_t id, lookup-insert id_t id t m.task_db, v.table_listed id p);
        sorted_allocated = v.sorted_allocated;
        queue_allocated = v.queue_allocated;
        queue_listed = v.queue_listed;
        events_known = λ id h. ground (
          arith,
          lookup-insert id_t id t m.task_db,
          lookup-insert id_t id te m.event_db,
          v.events_known id,
        );
        assigned_known = λ id h. ground (
          arith,
          lookup-insert id_t id t m.task_db,
          lookup-insert id_t id w m.task_worker_map,
          v.assigned_known id,
        );
        assigned_mapped = λ id u h. append_mapped id_t w id u m v h;
      }

  pub take_pending-Inv :
      (m : Manager Q)
      → Inv m
      → Inv (take_pending m).0
        × (((take_pending m).1 ≡ none)
            ⊎ ((t : Ptr) × ((take_pending m).1 ≡ some t) × InFlight (take_pending m).0 t))
  unfolding take_pending
  take_pending-Inv m v = elim (List-cases (queue.items m.pending_tasks)) [
    | inl e ↦
        let none_left : (queue.len m.pending_tasks == 0) ≡ true =
          ground (arith, queue.len_lem m.pending_tasks, ap length e) in
        rw none_left (v, inl refl)
    | inr (t, ts, e) ↦
        let count : (queue.len m.pending_tasks == 0) ≡ false =
          ground (arith, queue.len_lem m.pending_tasks, ap length e) in
        let (first, rest) = queue.dequeue_cons m.pending_tasks t ts e in
        let alive : All (IsAllocated m.heap) (t ∷ ts) = rw e at v.queue_allocated in
        let listed : All (IsListed m.heap m.sorted_tasks) (t ∷ ts) = rw e at v.queue_listed in
        rw count (
          record {
            heap_started = v.heap_started;
            table_keys = v.table_keys;
            table_allocated = v.table_allocated;
            table_listed = v.table_listed;
            sorted_allocated = v.sorted_allocated;
            queue_allocated = rw rest alive.1;
            queue_listed = rw rest listed.1;
            events_known = v.events_known;
            assigned_known = v.assigned_known;
            assigned_mapped = v.assigned_mapped;
          },
          inr (t, first, (alive.0, listed.0)),
        )
  ]

  pub place-Inv : (m : Manager Q) (i : ℕ) → Inv m → Inv (record m { last_worker = i })
  place-Inv m i v = record {
    heap_started = v.heap_started;
    table_keys = v.table_keys;
    table_allocated = v.table_allocated;
    table_listed = v.table_listed;
    sorted_allocated = v.sorted_allocated;
    queue_allocated = v.queue_allocated;
    queue_listed = v.queue_listed;
    events_known = v.events_known;
    assigned_known = v.assigned_known;
    assigned_mapped = v.assigned_mapped;
  }

  -- Every way in which a request can end, but the panic, keeps the invariant.
  pub finish_send-Inv :
      (t : Ptr) (w : String) (te : TaskEvent) (reply : SendReply) (m : Manager Q)
      → reply ≢ request_error
      → InFlight m t
      → Inv m
      → (m' : Manager Q) × (finish_send t w te reply m ≡ some m') × Inv m'
  unfolding finish_send
  finish_send-Inv t w te marshal_error m n f v = (add_task t m, refl, add_task-Inv t m f.0 v)
  finish_send-Inv t w te request_error m n f v = absurd (n refl)
  finish_send-Inv t w te send_error m n f v = (add_task t m, refl, add_task-Inv t m f.0 v)
  finish_send-Inv t w te (refused true) m n f v = (add_task t m, refl, add_task-Inv t m f.0 v)
  finish_send-Inv t w te (refused false) m n f v = (m, refl, v)
  finish_send-Inv t w te created m n f v =
      (record_sent t w te m, refl, record_sent-Inv t w te m f v)

  offer_to-Inv :
      (t : Ptr) (id : Uuid) (now : Time) (reply : SendReply) (selected : Result String)
      (m : Manager Q)
      → reply ≢ request_error
      → InFlight m t
      → Inv m
      → (m' : Manager Q) × (offer_to t id now reply selected m ≡ some m') × Inv m'
  unfolding offer_to
  offer_to-Inv t id now reply (err e) m n f v = (m, refl, v)
  offer_to-Inv t id now reply (ok w) m n f v =
      finish_send-Inv t w _ reply (schedule_task t m) n (schedule_task-InFlight t m f)
        (schedule_task-Inv t m v)

  offer_task-Inv :
      (t : Ptr) (id : Uuid) (now : Time) (reply : SendReply) (m : Manager Q)
      → reply ≢ request_error
      → InFlight m t
      → Inv m
      → (m' : Manager Q) × (offer_task (some t) id now reply m ≡ some m') × Inv m'
  unfolding offer_task
  offer_task-Inv t id now reply m n f v =
      let (i, selected, e) = select_worker_place m in
      rw e
        (offer_to-Inv t id now reply selected (record m { last_worker = i }) n f (place-Inv m i v))

-- SendWork keeps the invariant, whatever the worker replies, as long as the request can be built.
pub send_work-Inv :
    {Q : Type 0} ⦃queue : QueueOps Q⦄ (id : Uuid) (now : Time) (reply : SendReply) (m : Manager Q)
    → reply ≢ request_error
    → Inv m
    → (m' : Manager Q) × (send_work id now reply m ≡ some m') × Inv m'
unfolding send_work
send_work-Inv id now reply m n v =
    let (v', taken) = take_pending-Inv m v in
    elim taken [
      | inl e ↦ rw (e, offer_task) ((take_pending m).0, refl, v')
      | inr (t, e, f) ↦ rw e (offer_task-Inv t id now reply (take_pending m).0 n f v')
    ]
