-- ===== src/Worker/Monitor/Rounds.antt =====
-- A round of MonitorTasks ends with the lock free.
use minkube.Base.{
  String, List, [], ◌∷◌, some, ◌==◌, string_eq, nat_eq, ◌≡◌, refl, ap, ◌∙◌, subst, inl, inr,
  Option-cases, Bool-cases,
}
use minkube.Base.GoMap
use minkube.Heap.{Ptr}
use minkube.Task.{Uuid, Time, failed, ContainerJson, ContainerState, PortMap}
use minkube.Task.Docker.{DockerClient}
use minkube.Task.Docker.Laws.{Result-cases}
use minkube.Worker.Service.{
  Worker, free, write_locked, Outcome, returns, and_then, lock, unlock, update_object,
}
use minkube.Worker.Service.Laws.{update_task_state_returns}
use minkube.Worker.Monitor.{
  if_running, running_tasks, tasks_to_inspect, set_ports, store_ports, update_ports, note_container,
  monitor_task, monitor_loop, monitor_round,
}
use minkube.Worker.Monitor.Laws.{
  IsDescribed, answer, inspected, note, inspected_lem, unfold_err, unfold_ok,
}

-- An action that returns, with the lock free.
abbrev pub Completes : {Q D : Type 0} → Outcome (Worker Q D) → Type 0
Completes {Q} {D} m = (w' : Worker Q D) × (m ≡ returns w') × (w'.mu ≡ free)

module _ {Q D : Type 0} where
  running_tasks_lem :
      (order : List Uuid) (w : Worker Q D)
      → running_tasks order (record w { mu = write_locked }) ≡ running_tasks order w
  running_tasks_lem [] w = refl
  running_tasks_lem (id ∷ ids) w =
      ap (if_running (GoMap.lookup id w.task_ids) w.heap) (running_tasks_lem ids w)

  lock_free : (w : Worker Q D) → w.mu ≡ free → lock w ≡ returns (record w { mu = write_locked })
  unfolding lock
  lock_free w l = simp l

  tasks_to_inspect_lem :
      (order : List Uuid) (w : Worker Q D)
      → w.mu ≡ free
      → tasks_to_inspect order w ≡ returns (running_tasks order w, record w { mu = free })
  unfolding tasks_to_inspect unlock
  tasks_to_inspect_lem order w l =
      ap (λ x. and_then x (λ w1. and_then (unlock w1) (λ w2. returns (running_tasks order w1, w2))))
        (lock_free w l)
      ∙ ap (λ ts. returns (ts, record w { mu = free })) (running_tasks_lem order w)

  update_ports_returns :
      (id : Uuid) (ports : PortMap) (w : Worker Q D)
      → w.mu ≡ free
      → Completes (update_ports id (some ports) w)
  unfolding update_ports lock unlock store_ports set_ports update_object
  update_ports_returns id ports w l = elim (Option-cases (GoMap.lookup id w.task_ids)) [
    | inl e ↦ (record w { mu = free }, rw l (rw (e, set_ports) refl), refl)
    | inr (p, e) ↦ (
      record (update_object p (λ x. record x { host_ports = ports }) w) { mu = free },
      rw l (rw (e, set_ports) refl),
      refl,
    )
  ]

  note_container_returns :
      (id : Uuid) (now : Time) (c : ContainerJson) (st : ContainerState) (ports : PortMap)
      (w : Worker Q D)
      → c.network_settings ≡ some ports
      → w.mu ≡ free
      → Completes (note_container id now c (some st) w)
  unfolding note_container
  note_container_returns id now c st ports w n l = elim (Bool-cases (st.status == "exited")) [
    | inl e ↦
        let (w1, r1, l1) = update_task_state_returns id failed now w l in
        let (w2, r2, l2) = update_ports_returns id ports w1 l1 in
        (
          w2,
          rw (e, n, note_container) (ap (λ x. and_then x (update_ports id (some ports))) r1 ∙ r2),
          l2,
        )
    | inr e ↦
        let (w2, r2, l2) = update_ports_returns id ports w l in
        (w2, rw (e, n, note_container) r2, l2)
  ]

module _ {Q D : Type 0} ⦃client : DockerClient D⦄
    (described : (id : String) (s : D) → IsDescribed (client.container_inspect id s).0)
    (now : Time) where
  monitor_task_returns : (t : Ptr) (w : Worker Q D) → w.mu ≡ free → Completes (monitor_task now t w)
  monitor_task_returns t w l = elim (Result-cases (answer now t w)) [
    | inr (x, r) ↦
        let (w', e, m) =
          update_task_state_returns (w.heap.cell t).id failed now (inspected now t w) l in
        (w', inspected_lem now t w ∙ (ap (note now t w) r ∙ (unfold_err now t w x ∙ e)), m)
    | inl (c, r) ↦ elim (Option-cases c.state) [
      | inl n ↦ absurd ((subst IsDescribed r (described (w.heap.cell t).container_id w.docker)).0 n)
      | inr (st, n) ↦ elim (Option-cases c.network_settings) [
        | inl g ↦
            absurd ((subst IsDescribed r (described (w.heap.cell t).container_id w.docker)).1 g)
        | inr (ports, g) ↦
            let (w', e, m) =
              note_container_returns (w.heap.cell t).id now c st ports (inspected now t w) g l in
            (
              w',
              inspected_lem now t w
                  ∙ (ap (note now t w) r
                      ∙ (unfold_ok now t w c
                          ∙ (ap (λ y. note_container (w.heap.cell t).id now c y (inspected now t w))
                                n
                              ∙ e))),
              m,
            )
      ]
    ]
  ]

  monitor_loop_returns :
      (ts : List Ptr) (w : Worker Q D) → w.mu ≡ free → Completes (monitor_loop now ts w)
  unfolding monitor_loop
  monitor_loop_returns [] w l = (w, refl, l)
  monitor_loop_returns (t ∷ ts) w l =
      let (w1, e1, l1) = monitor_task_returns t w l in
      let (w2, e2, l2) = monitor_loop_returns ts w1 l1 in
      (w2, ap (λ x. and_then x (monitor_loop now ts)) e1 ∙ e2, l2)

  -- As long as Docker describes every container with its state and its network settings, a round of MonitorTasks that finds
  -- the lock free returns with the lock free, in whatever order it visits the table and whatever
  -- the answers are.
  pub monitor_round_returns :
      (order : List Uuid) (w : Worker Q D) → w.mu ≡ free → Completes (monitor_round order now w)
  unfolding monitor_round
  monitor_round_returns order w l =
      let v : Worker Q D = record w { mu = free } in
      let (w', e, m) = monitor_loop_returns (running_tasks order w) v refl in
      (
        w',
        ap (λ x. and_then x (λ r. monitor_loop now r.0 r.1)) (tasks_to_inspect_lem order w l) ∙ e,
        m,
      )
