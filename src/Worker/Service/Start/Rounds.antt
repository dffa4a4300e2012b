-- ===== src/Worker/Service/Start/Rounds.antt =====
-- A round of RunTasks on a task that is to start.
use minkube.Base.{
  List, ◌∷◌, true, false, some, ◌==◌, ==_refl, string_eq, nat_eq, ◌≡◌, refl, arith, ap, subst, ◌∙◌,
  length, sym, Option-cases, inl, inr, ◌⊎◌,
}
use minkube.Base.GoMap
use minkube.Base.GoMap.{lookup-insert}
use minkube.Base.Queue.{QueueOps}
use minkube.Heap.{Ptr}
use minkube.Task.{Uuid, Time, pending, scheduled, failed, DockerResult, new_config}
use minkube.Task.Docker.{DockerClient}
use minkube.Worker.Service.{
  Worker, free, write_locked, returns, panics, and_then, lock, unlock, update_task_state, mark_task,
  update_object, run_state, run_task, note_result, run_tasks_round,
}
use minkube.Worker.Service.Laws.{run_task_some, dequeued}
use minkube.Worker.Service.Start.{
  HasTask, after_nothing, run_result, state_after, Started, start_unavailable, run_scheduled_lem,
  run_scheduled_ok,
}

-- RunTasks marks the task of a failed run once more.
note_lem :
    {Q D : Type 0} ⦃queue : QueueOps Q⦄ ⦃client : DockerClient D⦄ (now : Time) (res : DockerResult)
    (id : Uuid) (t : Ptr) (w : Worker Q D)
    → w.mu ≡ free
    → HasTask id t (state_after res.error) w
    → (w' : Worker Q D) × (note_result now res (some t) w ≡ returns w')
      × (w'.queue ≡ w.queue)
      × (w'.mu ≡ free)
      × (w'.task_ids ≡ w.task_ids)
      × HasTask id t (state_after res.error) w'
unfolding note_result update_task_state lock unlock mark_task update_object
note_lem now res id t w l (k, st, i) = elim (Option-cases res.error) [
  | inl n ↦ (w, rw (n, note_result) refl, refl, l, refl, (k, st, i))
  | inr (x, n) ↦
      let known : GoMap.lookup (w.heap.cell t).id w.task_ids ≡ some t =
        ap (λ j. GoMap.lookup j w.task_ids) i ∙ k in
      (
        record (update_object t (λ x. record x { state = failed; end_time = now }) w) { mu = free },
        rw (n, note_result) (rw l (rw (known, mark_task) refl)),
        refl,
        refl,
        refl,
        (k, rw (n, ==_refl t) refl, rw (==_refl t) i),
      )
]

module _ {Q D : Type 0} ⦃queue : QueueOps Q⦄ ⦃client : DockerClient D⦄ (now : Time) (w : Worker Q D)
    (t : Ptr) (ts : List Ptr) where
  round_lem :
      (res : DockerResult) (w' : Worker Q D)
      → queue.items w.queue ≡ t ∷ ts
      → run_task now w ≡ returns (res, some t, w')
      → run_tasks_round now w ≡ note_result now res (some t) w'
  unfolding run_tasks_round
  round_lem res w' q r =
      let busy : (queue.len w.queue == 0) ≡ false =
        ground (arith, queue.len_lem w.queue, ap length q) in
      rw (busy, run_tasks_round) (ap (λ x. and_then x (λ r. note_result now r.0 r.1 r.2)) r)

  marked : Worker Q D → Worker Q D
  marked v = update_object t (λ x. record x { state = scheduled }) v

  marked_id : (v : Worker Q D) → ((marked v).heap.cell t).id ≡ (v.heap.cell t).id
  unfolding marked update_object
  marked_id v = rw (==_refl t) refl

  marked_table :
      (v : Worker Q D)
      → GoMap.insert (v.heap.cell t).id t (marked v).task_ids
        ≡ GoMap.insert (v.heap.cell t).id t v.task_ids
  unfolding marked update_object
  marked_table v = refl

  marked_result :
      (v : Worker Q D)
      → run_result ((marked v).heap.cell t) (marked v).docker ≡ run_result (v.heap.cell t) v.docker
  unfolding marked update_object new_config
  marked_result v = rw (==_refl t) refl

  run_state_ok :
      (res : DockerResult) (v : Worker Q D)
      → run_result (v.heap.cell t) v.docker ≡ res
      → v.docker_available ≡ true
      → v.mu ≡ write_locked
      → ((v.heap.cell t).state ≡ pending) ⊎ ((v.heap.cell t).state ≡ scheduled)
      → (w' : Worker Q D) × (run_state (v.heap.cell t).state now t v ≡ returns (res, some t, w'))
        × Started now t v res w'
  unfolding run_state marked update_object
  run_state_ok res v e h l (inr s) = rw s (run_scheduled_ok now t v res e h l)
  run_state_ok res v e h l (inl s) =
      let (w', r, (q, m, d, (k, st, i))) =
        run_scheduled_ok now t (marked v) res (marked_result v ∙ e) h l in
      subst
        (λ x.
          (w' : Worker Q D) × (run_state x now t v ≡ returns (res, some t, w'))
          × Started now t v res w')
        (sym s)
        (
          w',
          r,
          (
            q,
            m,
            d ∙ ap (λ id. GoMap.insert id t (marked v).task_ids) (marked_id v) ∙ marked_table v,
            (ap (λ id. GoMap.lookup id w'.task_ids) (sym (marked_id v)) ∙ k, st, i ∙ marked_id v),
          ),
        )

  -- A round of RunTasks, with the lock free and a Docker client at hand, whose next task is
  -- Pending or Scheduled runs it: the task leaves the queue, the table has it under its ID, as
  -- Running if the run returned no error and as Failed if it did, and is otherwise as it was, and the
  -- lock is free.
  pub task_started :
      w.mu ≡ free
      → queue.items w.queue ≡ t ∷ ts
      → w.docker_available ≡ true
      → ((w.heap.cell t).state ≡ pending) ⊎ ((w.heap.cell t).state ≡ scheduled)
      → (w' : Worker Q D) × (run_tasks_round now w ≡ returns w')
        × (queue.items w'.queue ≡ ts)
        × (w'.mu ≡ free)
        × (w'.task_ids ≡ GoMap.insert (w.heap.cell t).id t w.task_ids)
        × HasTask (w.heap.cell t).id t (state_after (run_result (w.heap.cell t) w.docker).error) w'
  task_started l q h s =
      let res : DockerResult = run_result (w.heap.cell t) w.docker in
      let (w1, r, (q1, m1, d1, k1)) = run_state_ok res (dequeued now w t ts) refl h refl s in
      let (w2, r2, q2, m2, d2, k2) = note_lem now res (w.heap.cell t).id t w1 m1 k1 in
      (
        w2,
        round_lem res w1 q (run_task_some now w t ts l q ∙ r) ∙ r2,
        ap queue.items (q2 ∙ q1) ∙ (queue.dequeue_cons w.queue t ts q).1,
        m2,
        d2 ∙ d1,
        k2,
      )

  -- Where no Docker client can be made, starting a task panics, so that the worker's process ends.
  start_panics :
      w.mu ≡ free
      → queue.items w.queue ≡ t ∷ ts
      → w.docker_available ≡ false
      → (w.heap.cell t).state ≡ scheduled
      → run_tasks_round now w ≡ panics
  unfolding run_tasks_round run_state
  start_panics l q h s =
      let busy : (queue.len w.queue == 0) ≡ false =
        ground (arith, queue.len_lem w.queue, ap length q) in
      let (e, u) = start_unavailable now t (dequeued now w t ts) h in
      rw (busy, run_tasks_round)
        (ap (λ x. and_then x (λ r. note_result now r.0 r.1 r.2))
          (run_task_some now w t ts l q
            ∙ subst (λ x. run_state x now t (dequeued now w t ts) ≡ panics) (sym s)
                (run_scheduled_lem now t (dequeued now w t ts) ∙ after_nothing t _ _ _ e u)))
