-- ===== src/Worker/Invariant/Monitoring.antt =====
-- The rounds of MonitorTasks keep the worker's invariant.
use minkube.Base.{
  ℕ, Option, none, some, refl, nat_eq, string_eq, ◌==◌, Bool-cases, Option-cases, inl, inr,
}
use minkube.Base.GoMap
use minkube.Base.Queue.{QueueOps}
use minkube.Heap.{Ptr}
use minkube.Task.{
  Uuid, Time, State, failed, ContainerJson, ContainerState, DockerInspectResponse, PortMap,
}
use minkube.Task.Docker.{DockerClient, inspect_container}
use minkube.Worker.Invariant.{
  Returned, and_then-Returned, Good, lock-Good, unlock-Good, docker-Good, update_object-Good,
}
use minkube.Worker.Monitor.{
  set_ports, store_ports, update_ports, note_container, note_inspection, inspect_task, monitor_task,
}
use minkube.Worker.Service.{
  Worker, Outcome, returns, deadlock, panics, fatal, and_then, lock, mark_task, update_task_state,
}

-- A Returned property that a stronger one gives.
pub Returned-map :
    {A : Type 0} (P R : A → Type 0) (m : Outcome A)
    → ((a : A) → P a → R a)
    → Returned P m
    → Returned R m
Returned-map P R (returns a) f h = f a h
Returned-map P R deadlock f h = tt
Returned-map P R panics f h = tt
Returned-map P R fatal f h = tt

module _ {Q D : Type 0} ⦃queue : QueueOps Q⦄ (n : ℕ) where
  -- Operations one after another.
  pub then-Good :
      {B : Type 0} (P : B → Type 0) (m : Outcome (Worker Q D)) (f : Worker Q D → Outcome B)
      → Returned (Good n) m
      → ((w : Worker Q D) → Good n w → Returned P (f w))
      → Returned P (and_then m f)
  then-Good P m f h k = and_then-Returned P m f (Returned-map _ _ m k h)

  mark_task-Good :
      (id : Uuid) (s : State) (now : Time) (w : Worker Q D)
      → Good n w
      → Good n (mark_task id s now w)
  unfolding mark_task
  mark_task-Good id s now w g = elim (Option-cases (GoMap.lookup id w.task_ids)) [
    | inl e ↦ rw (e, mark_task) g
    | inr (t, e) ↦
        rw (e, mark_task)
          (update_object-Good n t (λ x. record x { state = s; end_time = now }) w (λ x. refl) g)
  ]

  pub update_task_state-Good :
      (id : Uuid) (s : State) (now : Time) (w : Worker Q D)
      → Good n w
      → Returned (Good n) (update_task_state id s now w)
  unfolding update_task_state
  update_task_state-Good id s now w g =
      then-Good (Good n) (lock w) _ (lock-Good n w g)
        (λ w1 g1. unlock-Good n (mark_task id s now w1) (mark_task-Good id s now w1 g1))

  set_ports-Good :
      (id : Uuid) (ports : PortMap) (w : Worker Q D) → Good n w → Good n (set_ports id ports w)
  unfolding set_ports
  set_ports-Good id ports w g = elim (Option-cases (GoMap.lookup id w.task_ids)) [
    | inl e ↦ rw (e, set_ports) g
    | inr (t, e) ↦
        rw (e, set_ports)
          (update_object-Good n t (λ x. record x { host_ports = ports }) w (λ x. refl) g)
  ]

  store_ports-Good :
      (id : Uuid) (settings : Option PortMap) (w : Worker Q D)
      → Good n w
      → Returned (Good n) (store_ports id settings w)
  unfolding store_ports
  store_ports-Good id (some ports) w g = set_ports-Good id ports w g
  store_ports-Good id none w g = elim (Option-cases (GoMap.lookup id w.task_ids)) [
    | inl e ↦ rw (e, store_ports) g
    | inr (t, e) ↦ rw (e, store_ports) tt
  ]

  pub update_ports-Good :
      (id : Uuid) (settings : Option PortMap) (w : Worker Q D)
      → Good n w
      → Returned (Good n) (update_ports id settings w)
  unfolding update_ports
  update_ports-Good id settings w g = then-Good (Good n) (lock w) _ (lock-Good n w g) (λ w1 g1.
      then-Good (Good n) (store_ports id settings w1) _ (store_ports-Good id settings w1 g1)
        (λ w2 g2. unlock-Good n w2 g2))

  note_container-Good :
      (id : Uuid) (now : Time) (c : ContainerJson) (st : Option ContainerState) (w : Worker Q D)
      → Good n w
      → Returned (Good n) (note_container id now c st w)
  unfolding note_container
  note_container-Good id now c none w g = tt
  note_container-Good id now c (some st) w g = elim (Bool-cases (st.status == "exited")) [
    | inl e ↦
        rw (e, note_container)
          (then-Good (Good n) (update_task_state id failed now w) _
            (update_task_state-Good id failed now w g) (update_ports-Good id c.network_settings))
    | inr e ↦ rw (e, note_container) (update_ports-Good id c.network_settings w g)
  ]

  note_inspection-Good :
      (id : Uuid) (now : Time) (resp : DockerInspectResponse) (w : Worker Q D)
      → Good n w
      → Returned (Good n) (note_inspection id now resp w)
  unfolding note_inspection
  note_inspection-Good id now resp w g = elim (Option-cases resp.error) [
    | inr (x, e) ↦ rw (e, note_inspection) (update_task_state-Good id failed now w g)
    | inl e ↦ elim (Option-cases resp.container) [
      | inl k ↦ rw (e, k, note_inspection) (update_task_state-Good id failed now w g)
      | inr (c, k) ↦ rw (e, k, note_inspection) (note_container-Good id now c c.state w g)
    ]
  ]

  pub monitor_task-Good :
      ⦃client : DockerClient D⦄ (now : Time) (t : Ptr) (w : Worker Q D)
      → Good n w
      → Returned (Good n) (monitor_task now t w)
  unfolding monitor_task inspect_task inspect_container
  monitor_task-Good now t w g =
      let (resp, s) = inspect_container (w.heap.cell t).container_id w.docker in
      note_inspection-Good (w.heap.cell t).id now resp (record w { docker = s })
        (docker-Good n w s g)
