-- ===== src/WorkerProcess/Blocked.antt =====
-- A worker whose RunTasks has hung: the rest of its process goes on, and no task is ever run again.
use minkube.Base.{
  String, List, [], ◌∷◌, ◌++◌, false, Option, none, some, ◌≡◌, refl, sym, ◌∙◌, ap, arith, subst,
  nat_eq, string_eq, ◌==◌, Bool-cases, Option-cases, inl, inr, length,
}
use mathlib.Core.List.{append-nil, append_assoc}
use minkube.Base.GoMap
use minkube.Base.Int.{ℤ}
use minkube.Base.Queue.{QueueOps}
use minkube.Heap.{Ptr, IsAllocated, alloc, write}
use minkube.Http.{Response, success}
use minkube.Task.{
  Task, TaskEvent, Uuid, Time, ContainerJson, ContainerState, State, completed, failed, PortMap,
  DockerResult, DockerInspectResponse,
}
use minkube.Task.Docker.{DockerClient}
use minkube.Worker.Monitor.{tasks_to_inspect, update_ports}
use minkube.Worker.Service.{
  Worker, Outcome, returns, deadlock, panics, and_then, free, write_locked, lock, unlock, run_item,
  run_state, stop_task, note_result, update_task_state, enqueue_task,
}
use minkube.WorkerHttp.Handlers.{is_empty_body, submit, start_task_handler, stop_task_handler}
use minkube.WorkerHttp.Handlers.Laws.{stopped_worker, stopped_worker_lem, stopping_worker_blocks}
use minkube.WorkerProcess.{
  hung, look, take_item, note_container_state, note_answer, Running, waiting, taking, took, stuck,
  Watching, watching, porting, Stage, stage, WorkerStep, see, take, run, block, note, list, answer,
  heed, store, post, delete, WorkerSteps, done, more,
}

module _ {Q D : Type 0} ⦃queue : QueueOps Q⦄ where
  -- The lock stays taken, the table and every task that exists stay as they are, and the queue only
  -- grows at its end.
  pub record OnlyQueues (w w' : Worker Q D) : Type 0 where
    pub still_locked : w'.mu ≡ write_locked
    pub same_table : w'.task_ids ≡ w.task_ids
    pub same_tasks :
        (p : Ptr) → IsAllocated w.heap p → IsAllocated w'.heap p × (w'.heap.cell p ≡ w.heap.cell p)
    pub queued : (ps : List Ptr) × (queue.items w'.queue ≡ queue.items w.queue ++ ps)

  OnlyQueues-refl : (w : Worker Q D) → w.mu ≡ write_locked → OnlyQueues w w
  OnlyQueues-refl w l = record {
    still_locked = l;
    same_table = refl;
    same_tasks = λ p a. (a, refl);
    queued = ([], sym (append-nil (queue.items w.queue)));
  }

  OnlyQueues-trans :
      (w1 w2 w3 : Worker Q D) → OnlyQueues w1 w2 → OnlyQueues w2 w3 → OnlyQueues w1 w3
  OnlyQueues-trans w1 w2 w3 a b = record {
    still_locked = b.still_locked;
    same_table = b.same_table ∙ a.same_table;
    same_tasks =
        λ p h. let (h2, e2) = a.same_tasks p h in let (h3, e3) = b.same_tasks p h2 in (h3, e3 ∙ e2);
    queued =
        let (ps, e) = a.queued in
        let (qs, f) = b.queued in
        (ps ++ qs, f ∙ ap (λ xs. xs ++ qs) e ∙ append_assoc (queue.items w1.queue) ps qs);
  }

  post-OnlyQueues :
      (id : Uuid) (now : Time) (length : ℤ) (body : Option TaskEvent) (w : Worker Q D)
      → w.mu ≡ write_locked
      → OnlyQueues w (start_task_handler id now length body w).0
  unfolding start_task_handler submit enqueue_task
  post-OnlyQueues id now length body w l = elim (Bool-cases (is_empty_body length)) [
    | inl e ↦ rw (e, start_task_handler) (OnlyQueues-refl w l)
    | inr e ↦ elim (Option-cases body) [
      | inl k ↦ rw (e, k, start_task_handler) (OnlyQueues-refl w l)
      | inr (te, k) ↦
          rw (e, k, start_task_handler)
            (record {
              still_locked = l;
              same_table = refl;
              same_tasks = λ p a. unfold alloc write in (omega arith, ground arith);
              queued = (_, queue.enqueue_lem w.heap.next w.queue);
            })
    ]
  ]

-- What asks for the lock waits for ever.
module _ {Q D : Type 0} (w : Worker Q D) (l : w.mu ≡ write_locked) where
  update_task_state_waits :
      (id : Uuid) (s : State) (now : Time) → update_task_state id s now w ≡ deadlock
  unfolding update_task_state lock
  update_task_state_waits id s now = rw (l, update_task_state) refl

  update_ports_waits : (id : Uuid) (ports : Option PortMap) → update_ports id ports w ≡ deadlock
  unfolding update_ports lock
  update_ports_waits id ports = rw (l, update_ports) refl

  tasks_to_inspect_waits : (order : List Uuid) → tasks_to_inspect order w ≡ deadlock
  unfolding tasks_to_inspect lock
  tasks_to_inspect_waits order = rw (l, tasks_to_inspect) refl

-- The inspection of a task asks for the lock whatever Docker answers, unless it panics.
-- Where MonitorTasks heeds an answer and does not wait, it has changed nothing.
module _ {Q D : Type 0} (now : Time) (t : Ptr) (ts : List Ptr) (w w' : Worker Q D) (m : Watching)
    (l : w.mu ≡ write_locked) where
  mark_waits :
      and_then {B = Watching × Worker Q D}
          (update_task_state (w.heap.cell t).id failed now w)
          (λ w1. returns (watching ts, w1))
        ≡ returns (m, w')
      → w ≡ w'
  mark_waits e =
      let waits : ◌≡◌ {A = Outcome (Watching × Worker Q D)} deadlock (returns (m, w')) =
        rw (update_task_state_waits w l (w.heap.cell t).id failed now) at e in
      absurd (ground arith)

  note_container_state_waits :
      (c : ContainerJson) (s : Option ContainerState)
      → note_container_state now t c s ts w ≡ returns (m, w')
      → w ≡ w'
  unfolding note_container_state
  note_container_state_waits c none e = absurd (ground arith)
  note_container_state_waits c (some s) e = elim (Bool-cases (s.status == "exited")) [
    | inl x ↦
        let waits : ◌≡◌ {A = Outcome (Watching × Worker Q D)} deadlock (returns (m, w')) =
          rw (x, update_task_state_waits w l (w.heap.cell t).id failed now) at e in
        absurd (ground arith)
    | inr x ↦
        let goes_on : ◌≡◌ {A = Outcome (Watching × Worker Q D)}
            (returns (porting t c.network_settings ts, w)) (returns (m, w')) =
          rw x at e in
        ground arith
  ]

  note_answer_waits :
      (resp : DockerInspectResponse) → note_answer now t resp ts w ≡ returns (m, w') → w ≡ w'
  unfolding note_answer
  note_answer_waits resp e = elim (Option-cases resp.error) [
    | inr (x, k) ↦ mark_waits (rw k at e)
    | inl k ↦ elim (Option-cases resp.container) [
      | inl c ↦ mark_waits (rw (k, c) at e)
      | inr (c, f) ↦ note_container_state_waits c c.state (rw (k, f) at e)
    ]
  ]

module _ {Q D : Type 0} ⦃queue : QueueOps Q⦄ where
  delete_waits :
      (parse : String → Option Uuid) (task_id : String) (w w' : Worker Q D) (r : Response Task)
      → w.mu ≡ write_locked
      → stop_task_handler parse task_id w ≡ returns (w', r)
      → w ≡ w'
  unfolding stop_task_handler lock
  delete_waits parse task_id w w' r l e = elim (Bool-cases (task_id == "")) [
    | inl k ↦ ground (arith, rw k at e)
    | inr k ↦
        let waits : ◌≡◌ {A = Outcome (Worker Q D × Response Task)} deadlock (returns (w', r)) =
          rw (k, l) at e in
        absurd (ground arith)
  ]

module _ {Q D : Type 0} ⦃queue : QueueOps Q⦄ ⦃client : DockerClient D⦄ where
  take_waits :
      (r : Running) (w w' : Worker Q D) → w.mu ≡ write_locked → take_item w ≡ returns (r, w') → ⊥
  unfolding take_item lock
  take_waits r w w' l e =
      let waits : ◌≡◌ {A = Outcome (Running × Worker Q D)} deadlock (returns (r, w')) = rw l at e in
      ground arith

  run_waits :
      (now : Time) (item : Option Ptr) (result : DockerResult) (t : Option Ptr) (w w' : Worker Q D)
      → w.mu ≡ write_locked
      → run_item now item w ≡ returns (result, t, w')
      → w ≡ w'
  unfolding run_item lock
  run_waits now none result t w w' l e = ground (arith, e)
  run_waits now (some p) result t w w' l e =
      let waits : ◌≡◌ {A = Outcome (DockerResult × Option Ptr × Worker Q D)} deadlock
          (returns (result, t, w')) =
        rw l at e in
      absurd (ground arith)

  note_waits :
      (now : Time) (result : DockerResult) (t : Option Ptr) (w w' : Worker Q D)
      → w.mu ≡ write_locked
      → note_result now result t w ≡ returns w'
      → w ≡ w'
  unfolding note_result
  note_waits now result t w w' l e = elim (Option-cases result.error) [
    | inl k ↦ ground (arith, rw k at e)
    | inr (x, k) ↦ elim (Option-cases t) [
      | inl n ↦ let panic : panics ≡ returns w' = rw (k, n) at e in absurd (ground arith)
      | inr (p, n) ↦
          let waits : deadlock ≡ returns w' =
            rw (k, n, update_task_state_waits w l (w.heap.cell p).id failed now) at e in
          absurd (ground arith)
    ]
  ]

  answer-OnlyQueues :
      (docker : D) (w : Worker Q D)
      → w.mu ≡ write_locked
      → OnlyQueues w (record w { docker = docker })
  answer-OnlyQueues docker w l = record {
    still_locked = l;
    same_table = refl;
    same_tasks = λ p a. (a, refl);
    queued = ([], sym (append-nil (queue.items w.queue)));
  }

  step-OnlyQueues :
      (w : Worker Q D) (q : Stage) (w' : Worker Q D) (q' : Stage)
      → w.mu ≡ write_locked
      → WorkerStep w q w' q'
      → OnlyQueues w w'
  step-OnlyQueues w _ _ _ l (see m) = OnlyQueues-refl w l
  step-OnlyQueues w _ _ _ l (take m r w' e) = absurd (take_waits r w w' l e)
  step-OnlyQueues w _ _ _ l (run m now item result t w' e) =
      subst (OnlyQueues w) (run_waits now item result t w w' l e) (OnlyQueues-refl w l)
  step-OnlyQueues w _ _ _ l (block m now t f e) = absurd (ground arith)
  step-OnlyQueues w _ _ _ l (note m now result t w' e) =
      subst (OnlyQueues w) (note_waits now result t w w' l e) (OnlyQueues-refl w l)
  step-OnlyQueues w _ _ _ l (list r order ts w' e) =
      absurd (ground (arith, tasks_to_inspect_waits w l order))
  step-OnlyQueues w _ _ _ l (answer r t ts resp docker) = answer-OnlyQueues docker w l
  step-OnlyQueues w _ _ _ l (heed r t ts resp now m w' e) =
      subst (OnlyQueues w) (note_answer_waits now t ts w w' m l resp e) (OnlyQueues-refl w l)
  step-OnlyQueues w _ _ _ l (store r t ts settings w' e) =
      absurd (ground (arith, update_ports_waits w l (w.heap.cell t).id settings))
  step-OnlyQueues w _ _ _ l (post _ id now length body) = post-OnlyQueues id now length body w l
  step-OnlyQueues w _ _ _ l (delete _ parse task_id w' r e) =
      subst (OnlyQueues w) (delete_waits parse task_id w w' r l e) (OnlyQueues-refl w l)

  steps-OnlyQueues :
      (w : Worker Q D) (q : Stage) (w' : Worker Q D) (q' : Stage)
      → w.mu ≡ write_locked
      → WorkerSteps w q w' q'
      → OnlyQueues w w'
  steps-OnlyQueues w _ _ _ l (done _ _) = OnlyQueues-refl w l
  steps-OnlyQueues w q w' q' l (more _ _ w1 q1 _ _ s r) =
      let first : OnlyQueues w w1 = step-OnlyQueues w q w1 q1 l s in
      OnlyQueues-trans w w1 w' first (steps-OnlyQueues w1 q1 w' q' first.still_locked r)

  -- RunTasks takes the task to be stopped off the queue and then waits for ever.
  stopping_steps :
      (now : Time) (u : Worker Q D) (p : Ptr)
      → u.mu ≡ free
      → queue.items u.queue ≡ p ∷ []
      → (u.heap.cell p).state ≡ completed
      → WorkerSteps u (stage waiting (watching [])) (hung u) (stage stuck (watching []))
  unfolding hung look take_item lock unlock run_item run_state stop_task
  stopping_steps now u p l q c =
      let busy : (queue.len u.queue == 0) ≡ false =
        ground (arith, queue.len_lem u.queue, ap length q) in
      let first : (queue.dequeue u.queue).0 ≡ some p = (queue.dequeue_cons u.queue p [] q).0 in
      let rest : Worker Q D = record u { queue = (queue.dequeue u.queue).1; mu = free } in
      let seen : look u ≡ taking = rw (busy, look) refl in
      let took_it : take_item u ≡ returns (took (some p), rest) =
        rw (l, busy, first, take_item) refl in
      let waits : run_item now (some p) rest ≡ deadlock =
        rw (c, run_item, run_state, stop_task) refl in
      more _ _ _ _ _ _ (see (watching [])) (
        subst (λ r. WorkerSteps u (stage r (watching [])) (hung u) (stage stuck (watching [])))
          (sym seen)
          (more _ _ _ _ _ _ (take (watching []) (took (some p)) rest took_it)
            (more _ _ _ _ _ _ (block (watching []) now p refl waits) (done _ _))))

  -- One request to stop a task that the worker knows, with the lock free and an empty queue, ends its
  -- work: its process reaches the state in which RunTasks hangs, and whatever else is asked of it from
  -- there and in whatever order its goroutines run, the lock is never free again, no task of the table or
  -- of the heap changes, and the tasks that are posted are queued and never leave the queue.
  pub stop_ends_work :
      (parse : String → Option Uuid) (task_id : String) (id : Uuid) (p : Ptr) (now : Time)
      (w v : Worker Q D) (s : Stage)
      → w.mu ≡ free
      → (task_id == "") ≡ false
      → parse task_id ≡ some id
      → GoMap.lookup id w.task_ids ≡ some p
      → queue.items w.queue ≡ []
      → WorkerSteps (hung (stopped_worker p w)) (stage stuck (watching [])) v s
      → WorkerSteps w
          (stage waiting (watching []))
          (hung (stopped_worker p w))
          (stage stuck (watching []))
        × OnlyQueues (hung (stopped_worker p w)) v
  stop_ends_work parse task_id id p now w v s l e k f q r =
      let (t, deleted, c, hangs) = stopping_worker_blocks parse task_id id p now w l e k f q in
      let u : Worker Q D = stopped_worker p w in
      let (queued, state) = stopped_worker_lem p w q in
      (
        more _ _ _ _ _ _
            (delete (stage waiting (watching [])) parse task_id u (success 200 t) deleted)
            (stopping_steps now u p refl queued state),
        unfold hung in steps-OnlyQueues (hung u) (stage stuck (watching [])) v s refl r,
      )
