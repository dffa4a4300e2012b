-- ===== src/Cluster/Laws.antt =====
-- The manager and a worker together: what a report tells the manager.
use minkube.Base.{
  ℕ, suc, take_all, contains, Bool-cases, inl, inr, Option-cases, ◌≤◌, String, List, [], ◌∷◌, true,
  false, Option, none, some, ◌==◌, ==_iff, nat_eq, ◌≡◌, refl, arith, ◌∙◌, ap, length,
}
use minkube.Base.GoMap
use minkube.Base.GoMap.{lookup-insert}
use minkube.Base.Int.{pos}
use minkube.Base.Queue.{QueueOps}
use minkube.Base.Strconv.{atoi}
use minkube.Cluster.{reply_of, report}
use minkube.Heap.{Ptr}
use minkube.Manager.{Manager}
use minkube.Manager.Invariant.{Inv}
use minkube.Worker.Invariant.{Inv as WorkerInv, Good}
use minkube.Worker.Invariant.Rounds.{run_tasks_round-Good}
use minkube.WorkerProcess.Safety.{of_returned, start_task_handler-Good}
use minkube.Manager.Send.Laws.{Recorded}
use minkube.Manager.Update.{tasks, update_tasks}
use minkube.Manager.Update.Laws.{known_state, reported, update_tasks_state}
use minkube.ManagerHttp.Paging.Laws.{page_of_lem}
use minkube.Task.{Task, State, Uuid, Time, scheduled}
use minkube.Task.Docker.{DockerClient}
use minkube.Worker.Service.{Worker, free, returns, collect, run_tasks_round}
use minkube.Worker.Service.Start.{state_after, run_result}
use minkube.WorkerHttp.Handlers.{accepted_event, start_task_handler}
use minkube.WorkerHttp.Handlers.Laws.{posted_task_runs}
use minkube.WorkerHttp.Paging.{get_tasks_handler, tasks_response, parse_page, parse_limit, page_of}
use minkube.WorkerHttp.Paging.Laws.{page_of-eq}

-- The two parameters of the manager's request.
page_param : parse_page "1" ≡ pos 1
unfolding parse_page atoi
page_param = refl

limit_param : parse_limit "1000" ≡ pos 1000
unfolding parse_limit atoi
limit_param = refl

whole_page : (xs : List Task) → length xs ≤ 1000 → page_of xs (pos 1) (pos 1000) ≡ some xs
whole_page xs h =
    page_of-eq xs 0 999 (omega arith) (omega arith)
    ∙ (page_of_lem xs 0 999 (omega arith) (omega arith) ∙ ap some (take_all 1000 xs h))

tasks_response_all :
    (xs : List Task) → length xs ≤ 1000 → reply_of (tasks_response (pos 1) (pos 1000) xs) ≡ tasks xs
unfolding tasks_response reply_of
tasks_response_all xs h = rw (whole_page xs h, tasks_response) refl

module _ {Q D : Type 0} (order : List Uuid) (w : Worker Q D) where
  report_all : length (collect order w) ≤ 1000 → report order w ≡ tasks (collect order w)
  unfolding report get_tasks_handler
  report_all h = rw (page_param, limit_param) (tasks_response_all (collect order w) h)

  module _ ⦃tasks_queue : QueueOps Q⦄ (good : WorkerInv w) (id : Uuid) (p : Ptr)
      (known : GoMap.lookup id w.task_ids ≡ some p) where
    -- Once the state of the task is reported, the rest of the list does not change it.
    reported_kept :
        (ids : List Uuid)
        → reported id (collect ids w) (some (w.heap.cell p).state) ≡ some (w.heap.cell p).state
    reported_kept [] = refl
    reported_kept (i ∷ ids) = elim (Option-cases (GoMap.lookup i w.task_ids)) [
      | inl e ↦ ground (arith, reported_kept ids)
      | inr (q, e) ↦ elim (Bool-cases (i == id)) [
        | inl f ↦ ground (
          arith,
          ==_iff i id,
          ==_iff (w.heap.cell q).id id,
          good.table_keys i q e,
          reported_kept ids,
        )
        | inr f ↦ ground (
          arith,
          ==_iff i id,
          ==_iff (w.heap.cell q).id id,
          good.table_keys i q e,
          reported_kept ids,
        )
      ]
    ]

    reported_known :
        (ids : List Uuid) (before : Option State)
        → contains id ids ≡ true
        → reported id (collect ids w) before ≡ some (w.heap.cell p).state
    reported_known [] before h = ground arith
    reported_known (i ∷ ids) before h = elim (Option-cases (GoMap.lookup i w.task_ids)) [
      | inl e ↦ ground (arith, ==_iff i id, reported_known ids before)
      | inr (q, e) ↦ elim (Bool-cases (i == id)) [
        | inl f ↦ ground (
          arith,
          ==_iff i id,
          ==_iff (w.heap.cell q).id id,
          good.table_keys i q e,
          reported_kept ids,
        )
        | inr f ↦ ground (
          arith,
          ==_iff i id,
          ==_iff (w.heap.cell q).id id,
          good.table_keys i q e,
          reported_known ids before,
        )
      ]
    ]

    -- Where the manager and the worker keep their invariants, a round of updateTasks with the
    -- answer that the worker's GetTasksHandler gives, for a table of at most 1000 tasks and in any
    -- order that visits the task, makes the manager know the task in the state that the worker has
    -- it in.
    pub report_learned :
        {R : Type 0} ⦃queue : QueueOps R⦄ (name : String) (m : Manager R)
        → Inv m
        → length (collect order w) ≤ 1000
        → contains id order ≡ true
        → known_state id (update_tasks ((name, report order w) ∷ []) m).0
          ≡ some (w.heap.cell p).state
    report_learned name m v h c = rw (report_all h) (
        update_tasks_state ((name, tasks (collect order w)) ∷ []) id m v
        ∙ reported_known order (known_state id m) c)

-- The copies are at most as many as the IDs that are visited.
length-collect :
    {Q D : Type 0} (ids : List Uuid) (w : Worker Q D) → length (collect ids w) ≤ length ids
length-collect [] w = omega arith
length-collect (id ∷ ids) w = elim (Option-cases (GoMap.lookup id w.task_ids)) [
  | inl e ↦ ground (arith, length-collect ids w)
  | inr (p, e) ↦ ground (arith, length-collect ids w)
]

-- An ID that the worker's table does not have is not reported.
unreported :
    {Q D : Type 0} ⦃queue : QueueOps Q⦄ (w : Worker Q D) (v : WorkerInv w) (id : Uuid)
    (ids : List Uuid) (before : Option State)
    → GoMap.lookup id w.task_ids ≡ none
    → reported id (collect ids w) before ≡ before
unreported w v id [] before n = refl
unreported w v id (i ∷ ids) before n = elim (Option-cases (GoMap.lookup i w.task_ids)) [
  | inl e ↦ ground (arith, unreported w v id ids before n)
  | inr (p, e) ↦
      let other : ((w.heap.cell p).id == id) ≡ false =
        ground (arith, ==_iff (w.heap.cell p).id id, v.table_keys i p e) in
      ground (arith, other, unreported w v id ids before n)
]

-- What a round with a worker's report leaves of an ID that the worker's table does not have.
report_others :
    {R Q D : Type 0} ⦃pending : QueueOps R⦄ ⦃queue : QueueOps Q⦄ (order : List Uuid)
    (w : Worker Q D) (name : String) (m : Manager R) (id : Uuid)
    → WorkerInv w
    → Inv m
    → length (collect order w) ≤ 1000
    → GoMap.lookup id w.task_ids ≡ none
    → known_state id (update_tasks ((name, report order w) ∷ []) m).0 ≡ known_state id m
report_others order w name m id good v h n = rw (report_all order w h) (
    update_tasks_state ((name, tasks (collect order w)) ∷ []) id m v
    ∙ unreported w good id order (known_state id m) n)

-- A task that the manager recorded as sent goes with the recorded event to a worker with an empty
-- queue, a free lock and a Docker client, which keeps its invariant and does not have the manager's
-- ID in its table, and which makes an ID for the task that differs from the manager's. Once the
-- worker has run it and the manager, which keeps its invariant, has asked for the worker's tasks, in
-- any order of at most 1000 IDs that visits the new one, the manager still has the task as Scheduled,
-- and has the worker's task beside it under the ID that the worker made.
pub sent_task_stays_scheduled :
    {R Q D : Type 0} ⦃pending : QueueOps R⦄ ⦃queue : QueueOps Q⦄ ⦃client : DockerClient D⦄
    (m : Manager R) (t : Ptr) (name : String) (sent : Recorded m t name) (new_id : Uuid)
    (posted started : Time) (n : ℕ) (w : Worker Q D) (order : List Uuid)
    → Inv m
    → WorkerInv w
    → (new_id == (m.heap.cell t).id) ≡ false
    → GoMap.lookup (m.heap.cell t).id w.task_ids ≡ none
    → w.mu ≡ free
    → queue.items w.queue ≡ []
    → w.docker_available ≡ true
    → length order ≤ 1000
    → contains new_id order ≡ true
    → let ran = (accepted_event new_id posted sent.event).task in
      (w' : Worker Q D) × (run_tasks_round started
          (start_task_handler new_id posted (pos (suc n)) (some sent.event) w).0
        ≡ returns w')
      × (known_state (m.heap.cell t).id (update_tasks ((name, report order w') ∷ []) m).0
          ≡ some scheduled)
      × (known_state new_id (update_tasks ((name, report order w') ∷ []) m).0
          ≡ some (state_after (run_result ran w.docker).error))
sent_task_stays_scheduled m t name sent new_id posted started n w order v good other absent l q a
      few visited =
    let (w', r, q', l', table, (known, state, id)) =
      posted_task_runs new_id posted started n sent.event w l q a in
    let posted_to : Worker _ _ =
      (start_task_handler new_id posted (pos (suc n)) (some sent.event) w).0 in
    let (good', grown) = of_returned (Good 0) (run_tasks_round started posted_to) w' r (
      run_tasks_round-Good 0 started posted_to (
        start_task_handler-Good 0 new_id posted (pos (suc n)) (some sent.event) w
          (good, omega arith))) in
    let size : length (collect order w') ≤ 1000 =
      let shorter = length-collect order w' in omega (arith, shorter, few) in
    let unknown : GoMap.lookup (m.heap.cell t).id w'.task_ids ≡ none =
      ap (GoMap.lookup (m.heap.cell t).id) table
      ∙ ground
          (arith, lookup-insert new_id (m.heap.cell t).id w.heap.next w.task_ids, other, absent) in
    let before : known_state (m.heap.cell t).id m ≡ some scheduled =
      rw (sent.table, known_state) (ap some sent.state) in
    (
      w',
      r,
      report_others order w' name m (m.heap.cell t).id good' v size unknown ∙ before,
      report_learned order w' good' new_id w.heap.next known name m v size visited ∙ ap some state,
    )
