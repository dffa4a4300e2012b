-- ===== src/WorkerProcess/Safety.antt =====
-- The worker's invariant in every interleaving of its goroutines.
use minkube.Base.{
  ℕ, ◌<◌, ◌≤◌, String, List, [], ◌∷◌, Bool, true, false, Option, none, some, ◌≡◌, refl, arith,
  subst, nat_eq, string_eq, ◌==◌, All, All-map, List-cases, ap, length, Bool-cases, Option-cases,
  inl, inr,
}
use minkube.Base.GoMap
use minkube.Base.GoMap.{lookup-empty}
use minkube.Base.Int.{ℤ}
use minkube.Base.Queue.{QueueOps}
use minkube.Heap.{Heap, Ptr, IsAllocated, alloc, write}
use minkube.Task.{
  TaskEvent, Uuid, Time, is_running, completed, failed, ContainerJson, ContainerState, DockerResult,
  DockerInspectResponse,
}
use minkube.Task.Docker.{DockerClient}
use minkube.Worker.Invariant.{
  Returned, Inv, Good, lock-Good, unlock-Good, update_object-Good, enqueue_task-Good, alloc-Good,
  set_mutex-Good, queue-Good, docker-Good,
}
use minkube.Worker.Invariant.Rounds.{lower-Good, run_item-Good, note_result-Good}
use minkube.Worker.Invariant.Monitoring.{then-Good, update_ports-Good, update_task_state-Good}
use minkube.Worker.Monitor.{if_running, running_tasks, tasks_to_inspect, update_ports}
use minkube.Worker.Service.{
  Worker, Outcome, returns, write_locked, and_then, lock, unlock, update_object, update_task_state,
  run_item, note_result,
}
use minkube.WorkerHttp.Handlers.{
  accepted_event, is_empty_body, submit, start_task_handler, stop_found, stop_locked,
  stop_task_handler,
}
use minkube.WorkerProcess.{
  new_worker, Running, waiting, taking, took, noting, stuck, Watching, watching, answered, porting,
  Stage, stage, look, take_item, note_container_state, note_answer, WorkerStep, see, take, run,
  block, note, list, answer, heed, store, post, delete, WorkerSteps, done, more,
}

-- A property of everything that an operation returns holds of what it returned.
pub of_returned :
    {A : Type 0} (P : A → Type 0) (m : Outcome A) (a : A) → m ≡ returns a → Returned P m → P a
of_returned P m a e h = subst (Returned P) e h

module _ {Q D : Type 0} ⦃queue : QueueOps Q⦄ where
  if_running-All :
      (w : Worker Q D) (o : Option Ptr) (ts : List Ptr)
      → ((p : Ptr) → o ≡ some p → IsAllocated w.heap p)
      → All (IsAllocated w.heap) ts
      → All (IsAllocated w.heap) (if_running o w.heap ts)
  unfolding if_running
  if_running-All w none ts h a = a
  if_running-All w (some t) ts h a = elim (Bool-cases (is_running (w.heap.cell t).state)) [
    | inl e ↦ rw e (h t refl, a)
    | inr e ↦ rw e a
  ]

  running_tasks-All :
      (order : List Uuid) (w : Worker Q D)
      → Inv w
      → All (IsAllocated w.heap) (running_tasks order w)
  running_tasks-All [] w v = tt
  running_tasks-All (id ∷ ids) w v =
      if_running-All w (GoMap.lookup id w.task_ids) (running_tasks ids w) (v.table_allocated id)
        (running_tasks-All ids w v)

  module _ (n : ℕ) where
    pub start_task_handler-Good :
        (id : Uuid) (now : Time) (content_length : ℤ) (body : Option TaskEvent) (w : Worker Q D)
        → Good n w
        → Good n (start_task_handler id now content_length body w).0
    unfolding start_task_handler submit
    start_task_handler-Good id now content_length body w g =
        elim (Bool-cases (is_empty_body content_length)) [
          | inl e ↦ rw (e, start_task_handler) g
          | inr e ↦ elim (Option-cases body) [
            | inl k ↦ rw (e, k, start_task_handler) g
            | inr (te, k) ↦
                rw (e, k, start_task_handler)
                  (enqueue_task-Good n w.heap.next
                    (record w { heap = alloc (accepted_event id now te).task w.heap })
                    (unfold alloc write in (g.0.heap_started, omega arith))
                    (alloc-Good n (accepted_event id now te).task w g))
          ]
        ]

    stop_found-Good :
        (p : Ptr) (w : Worker Q D) → IsAllocated w.heap p → Good n w → Good n (stop_found p w).0
    unfolding stop_found update_object write
    stop_found-Good p w a g =
        enqueue_task-Good n p _ a
          (update_object-Good n p (λ x. record x { state = completed }) w (λ x. refl) g)

    stop_locked-Good :
        (parse : String → Option Uuid) (task_id : String) (w : Worker Q D)
        → Good n w
        → Good n (stop_locked parse task_id w).0
    unfolding stop_locked
    stop_locked-Good parse task_id w g = elim (Option-cases (parse task_id)) [
      | inl e ↦ rw (e, stop_locked) g
      | inr (id, e) ↦ elim (Option-cases (GoMap.lookup id w.task_ids)) [
        | inl k ↦ rw (e, k, stop_locked) g
        | inr (p, k) ↦ rw (e, k, stop_locked) (stop_found-Good p w (g.0.table_allocated id p k) g)
      ]
    ]

    stop_task_handler-Good :
        (parse : String → Option Uuid) (task_id : String) (w : Worker Q D)
        → Good n w
        → Returned (λ r. Good n r.0) (stop_task_handler parse task_id w)
    unfolding stop_task_handler
    stop_task_handler-Good parse task_id w g = elim (Bool-cases (task_id == "")) [
      | inl e ↦ rw e g
      | inr e ↦ rw e (
          then-Good n (λ r. Good n r.0) (lock w) _ (lock-Good n w g)
            (λ w1 g1.
              then-Good n (λ r. Good n r.0) (unlock (stop_locked parse task_id w1).0) _
                (unlock-Good n (stop_locked parse task_id w1).0
                  (stop_locked-Good parse task_id w1 g1))
                (λ w2 g2. g2)))
    ]

    -- The list is of objects that exist.
    abbrev GoodList : List Ptr × Worker Q D → Type 0
    GoodList r = All (IsAllocated r.1.heap) r.0 × Good n r.1

    tasks_to_inspect-Good :
        (order : List Uuid) (w : Worker Q D)
        → Good n w
        → Returned GoodList (tasks_to_inspect order w)
    unfolding tasks_to_inspect
    tasks_to_inspect-Good order w g = then-Good n GoodList (lock w) _ (lock-Good n w g) (λ w1 g1.
        let k : ℕ = w1.heap.next in
        then-Good k GoodList (unlock w1) _ (unlock-Good k w1 (g1.0, omega arith)) (λ w2 g2. (
          All-map (IsAllocated w1.heap) (IsAllocated w2.heap) (λ p a. omega arith)
              (running_tasks order w1) (running_tasks-All order w1 g1.0),
          lower-Good n k w2 g1.1 g2,
        )))

module _ {Q D : Type 0} ⦃queue : QueueOps Q⦄ where
  -- What RunTasks and MonitorTasks know of their tasks where they stand.
  abbrev pub RunInv : Worker Q D → Running → Type 0
  RunInv w waiting = Unit {0}
  RunInv w taking = Unit {0}
  RunInv w (took none) = Unit {0}
  RunInv w (took (some t)) = IsAllocated w.heap t
  RunInv w (noting result t) = Unit {0}
  RunInv w stuck = Unit {0}

  abbrev pub WatchInv : Worker Q D → Watching → Type 0
  WatchInv w (watching ts) = All (IsAllocated w.heap) ts
  WatchInv w (answered t resp ts) = All (IsAllocated w.heap) (t ∷ ts)
  WatchInv w (porting t settings ts) = All (IsAllocated w.heap) (t ∷ ts)

  -- The invariant of the worker, and the tasks that its goroutines hold exist.
  abbrev pub ProcessInv : Worker Q D → Stage → Type 0
  ProcessInv w (stage r m) = Inv w × RunInv w r × WatchInv w m

  grown-All :
      (w w' : Worker Q D) (ps : List Ptr)
      → w.heap.next ≤ w'.heap.next
      → All (IsAllocated w.heap) ps
      → All (IsAllocated w'.heap) ps
  grown-All w w' ps l a =
      All-map (IsAllocated w.heap) (IsAllocated w'.heap) (λ p h. omega arith) ps a

  -- What exists stays.
  grown-RunInv :
      (w w' : Worker Q D) (r : Running) → w.heap.next ≤ w'.heap.next → RunInv w r → RunInv w' r
  grown-RunInv w w' waiting l h = tt
  grown-RunInv w w' taking l h = tt
  grown-RunInv w w' (took none) l h = tt
  grown-RunInv w w' (took (some t)) l h = omega arith
  grown-RunInv w w' (noting result t) l h = tt
  grown-RunInv w w' stuck l h = tt

  grown-WatchInv :
      (w w' : Worker Q D) (m : Watching) → w.heap.next ≤ w'.heap.next → WatchInv w m → WatchInv w' m
  grown-WatchInv w w' (watching ts) l h = grown-All w w' ts l h
  grown-WatchInv w w' (answered t resp ts) l h = grown-All w w' (t ∷ ts) l h
  grown-WatchInv w w' (porting t settings ts) l h = grown-All w w' (t ∷ ts) l h

  grown-ProcessInv :
      (w w' : Worker Q D) (q : Stage) → Good w.heap.next w' → ProcessInv w q → ProcessInv w' q
  grown-ProcessInv w w' (stage r m) (v', l) (v, a, b) =
      (v', grown-RunInv w w' r l a, grown-WatchInv w w' m l b)

  look-RunInv : (w : Worker Q D) → RunInv w (look w)
  unfolding look
  look-RunInv w = elim (Bool-cases (queue.len w.queue == 0)) [ inl e ↦ rw e tt | inr e ↦ rw e tt ]

  stage-Inv : (q : Stage) (w : Worker Q D) → ProcessInv w q → Inv w
  stage-Inv (stage r m) w h = h.0

  -- The item that is taken off the queue is a task that exists.
  module _ (n : ℕ) where
    abbrev GoodItem : Running × Worker Q D → Type 0
    GoodItem r = RunInv r.1 r.0 × Good n r.1

    taken_item-Good :
        (t : Ptr) (ts : List Ptr) (w : Worker Q D)
        → queue.items w.queue ≡ t ∷ ts
        → Good n w
        → Returned GoodItem (
            and_then
              (unlock (record w { queue = (queue.dequeue w.queue).1 }))
              (λ w2. returns (took (some t), w2)))
    taken_item-Good t ts w q (v, l) =
        let k : ℕ = w.heap.next in
        let a : All (IsAllocated w.heap) (t ∷ ts) = rw q at v.queue_allocated in
        let rest : All (IsAllocated w.heap) (queue.items (queue.dequeue w.queue).1) =
          rw (queue.dequeue_cons w.queue t ts q).1 a.1 in
        let w1 = record w { queue = (queue.dequeue w.queue).1 } in
        then-Good k GoodItem (unlock w1) _
          (unlock-Good k w1 (queue-Good k w (queue.dequeue w.queue).1 rest (v, omega arith)))
          (λ w2 g2. ((a.0.0, omega (arith, g2.1, a.0.1)), lower-Good n k w2 l g2))

    take_item-Good : (w : Worker Q D) → Good n w → Returned GoodItem (take_item w)
    unfolding take_item
    take_item-Good w g = then-Good n GoodItem (lock w) _ (lock-Good n w g) (λ w1 g1.
        elim (List-cases (queue.items w1.queue)) [
          | inl q ↦
              let none_left : (queue.len w1.queue == 0) ≡ true =
                ground (arith, queue.len_lem w1.queue, ap length q) in
              rw none_left
                (then-Good n GoodItem (unlock w1) _ (unlock-Good n w1 g1) (λ w2 g2. (tt, g2)))
          | inr (t, ts, q) ↦
              let count : (queue.len w1.queue == 0) ≡ false =
                ground (arith, queue.len_lem w1.queue, ap length q) in
              rw (count, (queue.dequeue_cons w1.queue t ts q).0) (taken_item-Good t ts w1 q g1)
        ])

module _ {Q D : Type 0} ⦃queue : QueueOps Q⦄ (t : Ptr) (ts : List Ptr) (now : Time) (w : Worker Q D)
    (v : Inv w) (a : All (IsAllocated w.heap) (t ∷ ts)) where
  abbrev n : ℕ
  n = w.heap.next

  -- The worker after an answer was heeded, and what MonitorTasks goes on with.
  abbrev Heeded : Watching × Worker Q D → Type 0
  Heeded r = WatchInv r.1 r.0 × Good n r.1

  marked-Good : Returned Heeded (
      and_then
        (update_task_state (w.heap.cell t).id failed now w)
        (λ w1. returns (watching ts, w1)))
  marked-Good =
      then-Good n Heeded (update_task_state (w.heap.cell t).id failed now w) _
        (update_task_state-Good n (w.heap.cell t).id failed now w (v, omega arith))
        (λ w1 g1. (grown-All w w1 ts g1.1 a.1, g1))

  note_container_state-Good :
      (c : ContainerJson) (st : Option ContainerState)
      → Returned Heeded (note_container_state now t c st ts w)
  unfolding note_container_state
  note_container_state-Good c none = tt
  note_container_state-Good c (some st) = elim (Bool-cases (st.status == "exited")) [
    | inl e ↦
        rw (e, note_container_state)
          (then-Good n Heeded (update_task_state (w.heap.cell t).id failed now w) _
            (update_task_state-Good n (w.heap.cell t).id failed now w (v, omega arith))
            (λ w1 g1. (grown-All w w1 (t ∷ ts) g1.1 a, g1)))
    | inr e ↦ rw (e, note_container_state) (a, (v, omega arith))
  ]

  note_answer-Good : (resp : DockerInspectResponse) → Returned Heeded (note_answer now t resp ts w)
  unfolding note_answer
  note_answer-Good resp = elim (Option-cases resp.error) [
    | inr (x, e) ↦ rw (e, note_answer) marked-Good
    | inl e ↦ elim (Option-cases resp.container) [
      | inl c ↦ rw (e, c, note_answer) marked-Good
      | inr (c, k) ↦ rw (e, k, note_answer) (note_container_state-Good c c.state)
    ]
  ]

module _ {Q D : Type 0} ⦃queue : QueueOps Q⦄ ⦃client : DockerClient D⦄ where
  ran-Good :
      (now : Time) (item : Option Ptr) (w w' : Worker Q D) (result : DockerResult) (t : Option Ptr)
      → run_item now item w ≡ returns (result, t, w')
      → Inv w
      → RunInv w (took item)
      → Good w.heap.next w'
  unfolding run_item
  ran-Good now none w w' result t e v h =
      let same : w ≡ w' = ground (arith, e) in subst (Good w.heap.next) same (v, omega arith)
  ran-Good now (some p) w w' result t e v h =
      of_returned (λ r. Good w.heap.next r.2) (run_item now (some p) w) (result, t, w') e
        (run_item-Good w.heap.next now p w h.0 h.1 (v, omega arith))

  step-ProcessInv :
      (w : Worker Q D) (q : Stage) (w' : Worker Q D) (q' : Stage)
      → WorkerStep w q w' q'
      → ProcessInv w q
      → ProcessInv w' q'
  step-ProcessInv w _ _ _ (see m) (v, a, b) = (v, look-RunInv w, b)
  step-ProcessInv w _ _ _ (take m r w' e) (v, a, b) =
      let n : ℕ = w.heap.next in
      let (h, g) =
        of_returned (GoodItem n) (take_item w) (r, w') e (take_item-Good n w (v, omega arith)) in
      (g.0, h, grown-WatchInv w w' m g.1 b)
  step-ProcessInv w _ _ _ (run m now item result t w' e) (v, a, b) =
      let g : Good w.heap.next w' = ran-Good now item w w' result t e v a in
      (g.0, tt, grown-WatchInv w w' m g.1 b)
  step-ProcessInv w _ _ _ (block m now t l e) (v, a, b) =
      ((set_mutex-Good w.heap.next w write_locked (v, omega arith)).0, tt, b)
  step-ProcessInv w _ _ _ (note m now result t w' e) (v, a, b) =
      let n : ℕ = w.heap.next in
      let g : Good n w' =
        of_returned (Good n) (note_result now result t w) w' e
          (note_result-Good n now result t w (v, omega arith)) in
      (g.0, tt, grown-WatchInv w w' m g.1 b)
  step-ProcessInv w _ _ _ (list r order ts w' e) (v, a, b) =
      let n : ℕ = w.heap.next in
      let (h, g) =
        of_returned (GoodList n) (tasks_to_inspect order w) (ts, w') e
          (tasks_to_inspect-Good n order w (v, omega arith)) in
      (g.0, grown-RunInv w w' r g.1 a, h)
  step-ProcessInv w _ _ _ (answer r t ts resp docker) (v, a, b) =
      let (v1, l) = docker-Good w.heap.next w docker (v, omega arith) in
      (v1, grown-RunInv w (record w { docker = docker }) r l a, b)
  step-ProcessInv w _ _ _ (heed r t ts resp now m w' e) (v, a, b) =
      let (h, g) =
        of_returned (Heeded t ts now w v b) (note_answer now t resp ts w) (m, w') e
          (note_answer-Good t ts now w v b resp) in
      (g.0, grown-RunInv w w' r g.1 a, h)
  step-ProcessInv w _ _ _ (store r t ts settings w' e) (v, a, b) =
      let n : ℕ = w.heap.next in
      let g : Good n w' =
        of_returned (Good n) (update_ports (w.heap.cell t).id settings w) w' e
          (update_ports-Good n (w.heap.cell t).id settings w (v, omega arith)) in
      (g.0, grown-RunInv w w' r g.1 a, grown-All w w' ts g.1 b.1)
  step-ProcessInv w q _ _ (post _ id now length body) h =
      let n : ℕ = w.heap.next in
      grown-ProcessInv w _ q
        (start_task_handler-Good n id now length body w (stage-Inv q w h, omega arith)) h
  step-ProcessInv w q _ _ (delete _ parse task_id w' r e) h =
      let n : ℕ = w.heap.next in
      grown-ProcessInv w w' q
        (of_returned (λ r. Good n r.0) (stop_task_handler parse task_id w) (w', r) e
          (stop_task_handler-Good n parse task_id w (stage-Inv q w h, omega arith)))
        h

  steps-ProcessInv :
      (w : Worker Q D) (q : Stage) (w' : Worker Q D) (q' : Stage)
      → WorkerSteps w q w' q'
      → ProcessInv w q
      → ProcessInv w' q'
  steps-ProcessInv w q _ _ (done _ _) h = h
  steps-ProcessInv w q w' q' (more _ _ w1 q1 _ _ s r) h =
      steps-ProcessInv w1 q1 w' q' r (step-ProcessInv w q w1 q1 s h)

  new_worker-Inv :
      (heap : Heap) (docker : D) (docker_available : Bool)
      → 0 < heap.next
      → Inv {Q = Q} (new_worker heap docker docker_available)
  unfolding new_worker
  new_worker-Inv heap docker docker_available h = record {
    heap_started = h;
    table_keys = λ id p e. ground (arith, lookup-empty {V = Ptr} id);
    table_allocated = λ id p e. ground (arith, lookup-empty {V = Ptr} id);
    queue_allocated = rw queue.new_lem tt;
  }

  -- In every state that a worker's process reaches from its start, in whatever order its goroutines
  -- run between the moments in which they let go of the lock, as long as no two calls of the queue
  -- overlap, and whatever Docker answers, the table maps an ID to a task object with that ID; the table
  -- and the queue hold objects that exist, and so do the tasks that MonitorTasks has yet to inspect or
  -- to store the ports of, and the task that RunTasks has taken off the queue and has yet to run.
  pub reachable-ProcessInv :
      (heap : Heap) (docker : D) (docker_available : Bool) (w : Worker Q D) (q : Stage)
      → 0 < heap.next
      → WorkerSteps (new_worker heap docker docker_available) (stage waiting (watching [])) w q
      → ProcessInv w q
  reachable-ProcessInv heap docker docker_available w q h s =
      steps-ProcessInv _ (stage waiting (watching [])) w q s
        (new_worker-Inv heap docker docker_available h, tt, tt)
