-- ===== src/Worker/Monitor/Laws.antt =====
-- MonitorTasks: what a round makes of a running task.
use minkube.Base.{
  none, some, if◌then◌else◌, ◌==◌, ==_refl, string_eq, nat_eq, ◌≡◌, ◌≢◌, refl, ap, ◌∙◌, sym, subst,
  inl, inr, Option-cases, Bool-cases,
}
use minkube.Heap.{Ptr}
use minkube.Task.{Uuid, Time, Error, State, failed, ContainerJson, ContainerState, PortMap}
use minkube.Task.Docker.{DockerClient, Result, ok, err, inspect_container, inspect_response}
use minkube.Task.Docker.Laws.{Result-cases}
use minkube.Worker.Service.{
  Worker, free, Outcome, returns, and_then, lock, unlock, update_object, update_task_state,
  mark_task,
}
use minkube.Worker.Service.Start.{HasTask}
use minkube.Worker.Monitor.{
  set_ports, store_ports, update_ports, note_container, note_inspection, inspect_task, monitor_task,
}

-- The state that the answer about a task's container leaves.
abbrev pub after_status : State → ContainerState → State
after_status before st = if st.status == "exited" then failed else before

abbrev pub monitored : State → Result ContainerJson → State
monitored before (err e) = failed
monitored before (ok c) = elim c.state [ none ↦ before | some st ↦ after_status before st ]

-- An answer about a container has its state and its network settings; without the one or the other
-- the loop panics.
abbrev pub IsDescribed : Result ContainerJson → Type 0
IsDescribed (err e) = Unit {0}
IsDescribed (ok c) = (c.state ≢ none) × (c.network_settings ≢ none)

module _ {Q D : Type 0} (id : Uuid) (t : Ptr) (now : Time) where
  -- What a step keeps of the worker and of the task, but for its state.
  abbrev pub Noted : State → Worker Q D → Worker Q D → Type 0
  Noted s w w' =
      (w'.queue ≡ w.queue) × (w'.mu ≡ free) × (w'.task_ids ≡ w.task_ids) × HasTask id t s w'

  failed-Noted :
      (s : State) (w : Worker Q D)
      → w.mu ≡ free
      → HasTask id t s w
      → (w' : Worker Q D) × (update_task_state id failed now w ≡ returns w') × Noted failed w w'
  unfolding update_task_state lock unlock mark_task update_object
  failed-Noted s w l (k, st, i) = (
    record (update_object t (λ x. record x { state = failed; end_time = now }) w) { mu = free },
    rw l (rw (k, mark_task) refl),
    (refl, refl, refl, (k, rw (==_refl t) refl, rw (==_refl t) i)),
  )

  ports-Noted :
      (s : State) (ports : PortMap) (w : Worker Q D)
      → w.mu ≡ free
      → HasTask id t s w
      → (w' : Worker Q D) × (update_ports id (some ports) w ≡ returns w') × Noted s w w'
  unfolding update_ports lock unlock store_ports set_ports update_object
  ports-Noted s ports w l (k, st, i) = (
    record (update_object t (λ x. record x { host_ports = ports }) w) { mu = free },
    rw l (rw (k, set_ports) refl),
    (refl, refl, refl, (k, rw (==_refl t) st, rw (==_refl t) i)),
  )

  container-Noted :
      (s : State) (c : ContainerJson) (st : ContainerState) (ports : PortMap) (w : Worker Q D)
      → c.network_settings ≡ some ports
      → w.mu ≡ free
      → HasTask id t s w
      → (w' : Worker Q D) × (note_container id now c (some st) w ≡ returns w')
        × Noted (after_status s st) w w'
  unfolding note_container
  container-Noted s c st ports w n l h = elim (Bool-cases (st.status == "exited")) [
    | inl e ↦
        let (w1, r1, (q1, l1, m1, h1)) = failed-Noted s w l h in
        let (w2, r2, (q2, l2, m2, h2)) = ports-Noted failed ports w1 l1 h1 in
        (
          w2,
          rw (e, n, note_container) (ap (λ x. and_then x (update_ports id (some ports))) r1 ∙ r2),
          rw e (q2 ∙ q1, l2, m2 ∙ m1, h2),
        )
    | inr e ↦
        let (w2, r2, k) = ports-Noted s ports w l h in (w2, rw (e, n, note_container) r2, rw e k)
  ]

module _ {Q D : Type 0} ⦃client : DockerClient D⦄ (now : Time) (t : Ptr) (w : Worker Q D) where
  abbrev pub answer : Result ContainerJson
  answer = (client.container_inspect (w.heap.cell t).container_id w.docker).0

  abbrev pub inspected : Worker Q D
  inspected = record w {
    docker = (client.container_inspect (w.heap.cell t).container_id w.docker).1;
  }

  abbrev pub note : Result ContainerJson → Outcome (Worker Q D)
  note r = note_inspection (w.heap.cell t).id now (inspect_response r) inspected

  pub inspected_lem : monitor_task now t w ≡ note answer
  unfolding monitor_task inspect_task inspect_container
  inspected_lem = refl

  pub unfold_err :
      (x : Error) → note (err x) ≡ update_task_state (w.heap.cell t).id failed now inspected
  unfolding note_inspection
  unfold_err x = refl

  pub unfold_ok :
      (c : ContainerJson) → note (ok c) ≡ note_container (w.heap.cell t).id now c c.state inspected
  unfolding note_inspection
  unfold_ok c = refl

  -- The round of MonitorTasks for a task of the table, with the lock free and an answer that, where it
  -- describes a container, has its state and its network settings, marks the task as Failed exactly if the inspection fails or the
  -- container has exited, keeps its state otherwise, and gives the lock back.
  pub monitor_task_lem :
      (s : State)
      → w.mu ≡ free
      → HasTask (w.heap.cell t).id t s w
      → IsDescribed answer
      → (w' : Worker Q D) × (monitor_task now t w ≡ returns w')
        × Noted (w.heap.cell t).id t now (monitored s answer) w w'
  monitor_task_lem s l h a = elim (Result-cases answer) [
    | inr (x, r) ↦
        let (w', e, n) = failed-Noted (w.heap.cell t).id t now s inspected l h in
        (
          w',
          inspected_lem ∙ (ap note r ∙ (unfold_err x ∙ e)),
          subst (λ y. Noted (w.heap.cell t).id t now y w w') (sym (ap (monitored s) r)) n,
        )
    | inl (c, r) ↦ elim (Option-cases c.state) [
      | inl n ↦ absurd ((subst IsDescribed r a).0 n)
      | inr (st, n) ↦ elim (Option-cases c.network_settings) [
        | inl g ↦ absurd ((subst IsDescribed r a).1 g)
        | inr (ports, g) ↦
            let (w', e, k) =
              container-Noted (w.heap.cell t).id t now s c st ports inspected g l h in
            (
              w',
              inspected_lem
                  ∙ (ap note r
                      ∙ (unfold_ok c
                          ∙ (ap (λ y. note_container (w.heap.cell t).id now c y inspected) n ∙ e))),
              subst (λ y. Noted (w.heap.cell t).id t now y w w')
                  (sym (ap (monitored s) r ∙ rw (n, monitored) refl)) k,
            )
      ]
    ]
  ]
