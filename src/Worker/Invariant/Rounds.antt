-- ===== src/Worker/Invariant/Rounds.antt =====
-- The rounds of RunTasks keep the worker's invariant.
use minkube.Base.{
  ℕ, ◌<◌, ◌≤◌, List, ◌∷◌, true, false, Option, none, some, ◌≡◌, refl, arith, ap, length, nat_eq,
  string_eq, ◌==◌, All, Bool-cases, Option-cases, List-cases, inl, inr, if◌then◌else◌,
}
use minkube.Base.Queue.{QueueOps}
use minkube.Heap.{Ptr, IsAllocated}
use minkube.Task.{
  Time, State, pending, scheduled, running, completed, failed, DockerResult, new_config,
}
use minkube.Task.Docker.{DockerClient, new_docker, run, stop, with_error}
use minkube.Worker.Invariant.{
  Returned, and_then-Returned, Good, lock-Good, unlock-Good, docker-Good, queue-Good,
  update_object-Good, remember-Good,
}
use minkube.Worker.Service.{
  Worker, returns, and_then, lock, unlock, update_object, remember, finish_start, release,
  after_start, start_task, stop_task, run_scheduled, run_state, run_item, run_task, note_result,
  run_tasks_round,
}
use minkube.Worker.Invariant.Monitoring.{Returned-map, then-Good, update_task_state-Good}

-- The worker among the results of `runTask`.
abbrev GoodResult :
    {Q D : Type 0} ⦃queue : QueueOps Q⦄ → ℕ → DockerResult × Option Ptr × Worker Q D → Type 0
GoodResult n r = Good n r.2

module _ {Q D : Type 0} ⦃queue : QueueOps Q⦄ (n : ℕ) where
  release-Good :
      (r : DockerResult) (u : Option Ptr) (w : Worker Q D)
      → Good n w
      → Returned (GoodResult n) (release r u w)
  unfolding release
  release-Good r u w g = then-Good n (GoodResult n) (unlock w) _ (unlock-Good n w g) (λ w1 g1. g1)

  after_start-Good :
      (t : Ptr) (r : DockerResult × Option Ptr × Worker Q D)
      → Good n r.2
      → Returned (GoodResult n) (after_start t r)
  unfolding after_start
  after_start-Good t (r, u, w) g = elim (Option-cases r.error) [
    | inr (x, e) ↦ rw (e, after_start) (release-Good r (some t) w g)
    | inl e ↦ elim (Option-cases u) [
      | inl k ↦ rw (e, k, after_start) tt
      | inr (p, k) ↦ rw (e, k, after_start) (release-Good r (some p) w g)
    ]
  ]

  module _ (t : Ptr) (above : 0 < t) (below : t < n) where
    finish_start-Good :
        (r : DockerResult) (w : Worker Q D) → Good n w → Good n (finish_start t r w).2
    unfolding finish_start
    finish_start-Good r w g = elim (Option-cases r.error) [
      | inl e ↦
          rw (e, finish_start)
            (remember-Good n t _ above below (
              update_object-Good n t
                (λ x. record x { container_id = r.container_id; state = running }) w (λ x. refl) g))
      | inr (x, e) ↦
          rw (e, finish_start)
            (remember-Good n t _ above below
              (update_object-Good n t (λ x. record x { state = failed }) w (λ x. refl) g))
    ]

    module _ ⦃client : DockerClient D⦄ (now : Time) where
      start_task-Good : (w : Worker Q D) → Good n w → Good n (start_task now t w).2
      unfolding start_task
      start_task-Good w g =
          let w1 = update_object t (λ x. record x { start_time = now }) w in
          let g1 : Good n w1 =
            update_object-Good n t (λ x. record x { start_time = now }) w (λ x. refl) g in
          elim (Option-cases (new_docker w.docker_available (new_config (w1.heap.cell t)))) [
            | inl e ↦
                rw (e, start_task)
                  (remember-Good n t _ above below
                    (update_object-Good n t (λ x. record x { state = failed }) w1 (λ x. refl) g1))
            | inr (d, e) ↦
                rw (e, start_task)
                  (finish_start-Good (run d w1.docker).0
                    (record w1 { docker = (run d w1.docker).2 })
                    (docker-Good n w1 (run d w1.docker).2 g1))
          ]

      stop_task-Good : (w : Worker Q D) → Good n w → Returned (λ r. Good n r.1) (stop_task now t w)
      unfolding stop_task
      stop_task-Good w g =
          then-Good n (λ r. Good n r.1) (lock w) _ (lock-Good n w g)
            (λ w1 g1.
              let (result, s) = stop (w1.heap.cell t).container_id w1.docker in
              let w2 = record w1 { docker = s } in
              let w3 = update_object t (λ x. record x { end_time = now; state = completed }) w2 in
              then-Good n (λ r. Good n r.1) (unlock (remember t w3)) _
                (unlock-Good n (remember t w3) (
                  remember-Good n t w3 above below (
                    update_object-Good n t (λ x. record x { end_time = now; state = completed }) w2
                      (λ x. refl) (docker-Good n w1 s g1))))
                (λ w4 g4. g4))

      run_scheduled-Good :
          (w : Worker Q D) → Good n w → Returned (GoodResult n) (run_scheduled now t w)
      unfolding run_scheduled
      run_scheduled-Good w g = after_start-Good t (start_task now t w) (start_task-Good w g)

      run_state-Good :
          (s : State) (w : Worker Q D) → Good n w → Returned (GoodResult n) (run_state s now t w)
      unfolding run_state
      run_state-Good pending w g =
          run_scheduled-Good (update_object t (λ x. record x { state = scheduled }) w)
            (update_object-Good n t (λ x. record x { state = scheduled }) w (λ x. refl) g)
      run_state-Good scheduled w g = run_scheduled-Good w g
      run_state-Good completed w g = and_then-Returned (GoodResult n) (stop_task now t w) _ (
          Returned-map _ _ (stop_task now t w) (λ r h. release-Good r.0 (some t) r.1 h)
            (stop_task-Good w g))
      run_state-Good running w g = release-Good _ (some t) w g
      run_state-Good failed w g = release-Good _ (some t) w g

module _ {Q D : Type 0} ⦃queue : QueueOps Q⦄ ⦃client : DockerClient D⦄ (n : ℕ) (now : Time) where
  pub note_result-Good :
      (r : DockerResult) (u : Option Ptr) (w : Worker Q D)
      → Good n w
      → Returned (Good n) (note_result now r u w)
  unfolding note_result
  note_result-Good r u w g = elim (Option-cases r.error) [
    | inl e ↦ rw (e, note_result) g
    | inr (x, e) ↦ elim (Option-cases u) [
      | inl k ↦ rw (e, k, note_result) tt
      | inr (p, k) ↦
          rw (e, k, note_result) (update_task_state-Good n (w.heap.cell p).id failed now w g)
    ]
  ]

  pub run_item-Good :
      (t : Ptr) (w : Worker Q D)
      → 0 < t
      → t < n
      → Good n w
      → Returned (GoodResult n) (run_item now (some t) w)
  unfolding run_item
  run_item-Good t w a b g =
      then-Good n (GoodResult n) (lock w) _ (lock-Good n w g)
        (λ w1 g1. run_state-Good n t a b now (w1.heap.cell t).state w1 g1)

-- The bound may be lowered.
pub lower-Good :
    {Q D : Type 0} ⦃queue : QueueOps Q⦄ (n k : ℕ) (w : Worker Q D) → n ≤ k → Good k w → Good n w
lower-Good n k w h (v, l) = (v, omega arith)

module _ {Q D : Type 0} ⦃queue : QueueOps Q⦄ ⦃client : DockerClient D⦄ (n : ℕ) (now : Time) where
  -- The rest of `runTask`, once an object was taken off the queue.
  dequeued-Good :
      (t : Ptr) (ts : List Ptr) (w : Worker Q D)
      → queue.items w.queue ≡ t ∷ ts
      → Good n w
      → Returned (GoodResult n) (
          and_then
            (unlock (record w { queue = (queue.dequeue w.queue).1 }))
            (run_item now (some t)))
  dequeued-Good t ts w q (v, l) =
      let k : ℕ = w.heap.next in
      let a : All (IsAllocated w.heap) (t ∷ ts) = rw q at v.queue_allocated in
      let rest : All (IsAllocated w.heap) (queue.items (queue.dequeue w.queue).1) =
        rw (queue.dequeue_cons w.queue t ts q).1 a.1 in
      let w1 = record w { queue = (queue.dequeue w.queue).1 } in
      Returned-map (GoodResult k) (GoodResult n) _ (λ r g. lower-Good n k r.2 l g)
        (then-Good k (GoodResult k) (unlock w1) _
          (unlock-Good k w1 (queue-Good k w (queue.dequeue w.queue).1 rest (v, omega arith)))
          (λ w2 g2. run_item-Good k now t w2 a.0.0 a.0.1 g2))

  run_task-Good : (w : Worker Q D) → Good n w → Returned (GoodResult n) (run_task now w)
  unfolding run_task
  run_task-Good w g = then-Good n (GoodResult n) (lock w) _ (lock-Good n w g) locked_run
    where
      locked_run :
          (w1 : Worker Q D)
          → Good n w1
          → Returned (GoodResult n) (
              if queue.len w1.queue == 0
              then and_then (unlock w1) (λ w2. returns (with_error none, none, w2))
              else and_then
                  (unlock (record w1 { queue = (queue.dequeue w1.queue).1 }))
                  (run_item now (queue.dequeue w1.queue).0))
      locked_run w1 g1 = elim (List-cases (queue.items w1.queue)) [
        | inl q ↦
            let none_left : (queue.len w1.queue == 0) ≡ true =
              ground (arith, queue.len_lem w1.queue, ap length q) in
            rw none_left
              (then-Good n (GoodResult n) (unlock w1) _ (unlock-Good n w1 g1) (λ w2 g2. g2))
        | inr (t, ts, q) ↦
            let count : (queue.len w1.queue == 0) ≡ false =
              ground (arith, queue.len_lem w1.queue, ap length q) in
            rw (count, (queue.dequeue_cons w1.queue t ts q).0) (dequeued-Good t ts w1 q g1)
      ]

  pub run_tasks_round-Good : (w : Worker Q D) → Good n w → Returned (Good n) (run_tasks_round now w)
  unfolding run_tasks_round
  run_tasks_round-Good w g = elim (Bool-cases (queue.len w.queue == 0)) [
    | inl e ↦ rw e g
    | inr e ↦ rw e (
        and_then-Returned (Good n) (run_task now w) _ (
          Returned-map _ _ (run_task now w) (λ r h. note_result-Good n now r.0 r.1 r.2 h)
            (run_task-Good w g)))
  ]
