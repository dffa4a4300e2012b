-- ===== src/Task/Docker/Laws.antt =====
-- Docker's Run and Stop in task/task.go: what their results say of the calls to the daemon.
use minkube.Base.{
  String, false, none, some, arith, ◌≡◌, refl, ◌↔◌, inl, inr, Option-cases, Bool-cases, ap, ◌⊎◌,
  ◌∙◌, sym,
}
use minkube.Task.{Error, ContainerJson}
use minkube.Task.Docker.{
  Result, ok, err, DockerClient, Docker, container_config, says_running, verify_started,
  start_container, create_container, run, stop,
}

pub Result-cases {ℓ} :
    {A : Type ℓ} (r : Result A) → ((a : A) × (r ≡ ok a)) ⊎ ((e : Error) × (r ≡ err e))
Result-cases (ok a) = inl (a, refl)
Result-cases (err e) = inr (e, refl)

verify_started_error : (id : String) (r : Result ContainerJson) → (verify_started id r).error ≡ none
unfolding verify_started
verify_started_error id (ok c) = refl
verify_started_error id (err e) = refl

-- The container ID that a started container's result carries.
abbrev pub reported_id : String → Result ContainerJson → String
reported_id id (ok c) = id
reported_id id (err e) = ""

verify_started_id :
    (id : String) (r : Result ContainerJson) → (verify_started id r).container_id ≡ reported_id id r
unfolding verify_started
verify_started_id id (ok c) = refl
verify_started_id id (err e) = refl

module _ {D : Type 0} ⦃client : DockerClient D⦄ (d : Docker) where
  start_ok :
      (id : String) (s : D)
      → (client.container_start id s).0 ≡ none
      → let inspected = client.container_inspect id (client.container_start id s).1 in
        start_container d id s
        ≡ (verify_started id inspected.0, record d { container_id = id }, inspected.1)
  unfolding start_container verify_started
  start_ok id s n = rw (n, start_container) refl

  create_ok :
      (id : String) (s : D)
      → let created = client.container_create (container_config d.config) s in
        (created.0 ≡ ok id) → create_container d s ≡ start_container d id created.1
  unfolding create_container start_container
  create_ok id s n = rw (n, create_container) refl

  run_ok :
      (s : D)
      → let pulled = client.image_pull d.config.image s in
        let inspected = client.container_inspect d.container_id pulled.1 in
        (pulled.0 ≡ none)
        → (says_running inspected.0 ≡ false)
        → run d s ≡ create_container d inspected.1
  unfolding run create_container start_container
  run_ok s n idle = rw (n, idle, run) refl

  -- A run that creates and starts a container keeps the container's ID and returns no error, but
  -- where the inspection at its end fails, the ID that the result carries is empty.
  run_started :
      (id : String) (s : D)
      → let pulled = client.image_pull d.config.image s in
        let before = client.container_inspect d.container_id pulled.1 in
        let created = client.container_create (container_config d.config) before.1 in
        let started = client.container_start id created.1 in
        let after = client.container_inspect id started.1 in
        (pulled.0 ≡ none)
        → (says_running before.0 ≡ false)
        → (created.0 ≡ ok id)
        → (started.0 ≡ none)
        → ((run d s).0.error ≡ none)
          × ((run d s).0.container_id ≡ reported_id id after.0)
          × ((run d s).1.container_id ≡ id)
  run_started id s pull idle create start =
      let e = run_ok s pull idle ∙ (create_ok id _ create ∙ start_ok id _ start) in
      (
        ap (λ x. x.0.error) e ∙ verify_started_error id _,
        ap (λ x. x.0.container_id) e ∙ verify_started_id id _,
        ap (λ x. x.1.container_id) e,
      )

  start_failed :
      (id : String) (s : D) (e : Error)
      → (start_container d id s).0.error ≡ some e
      → (start_container d id s).1 ≡ d
  unfolding start_container
  start_failed id s e h = elim (Option-cases (client.container_start id s).0) [
    | inl n ↦ absurd (
        ground (
          arith,
          ap (λ x. x.0.error) (start_ok id s n),
          verify_started_error id (client.container_inspect id (client.container_start id s).1).0,
        ))
    | inr (x, n) ↦ rw (n, start_container) refl
  ]

  create_failed :
      (s : D) (e : Error) → (create_container d s).0.error ≡ some e → (create_container d s).1 ≡ d
  unfolding create_container
  create_failed s e h =
      elim (Result-cases (client.container_create (container_config d.config) s).0) [
        | inl (id, n) ↦
            ap (λ x. x.1) (create_ok id s n)
            ∙ start_failed id _ e (sym (ap (λ x. x.0.error) (create_ok id s n)) ∙ h)
        | inr (x, n) ↦ rw (n, create_container) refl
      ]

  -- A run that returns an error leaves the Docker value as it was, its container ID included.
  run_failed : (s : D) (e : Error) → (run d s).0.error ≡ some e → (run d s).1 ≡ d
  unfolding run
  run_failed s e h =
      let pulled = client.image_pull d.config.image s in
      elim (Option-cases pulled.0) [
        | inl n ↦
            elim (Bool-cases (says_running (client.container_inspect d.container_id pulled.1).0)) [
              | inl busy ↦ rw (n, busy, run) refl
              | inr idle ↦
                  ap (λ x. x.1) (run_ok s n idle)
                  ∙ create_failed _ e (sym (ap (λ x. x.0.error) (run_ok s n idle)) ∙ h)
            ]
        | inr (x, n) ↦ rw (n, run) refl
      ]

-- Stop reports success exactly if the container was stopped and then removed.
stop_lem :
    {D : Type 0} ⦃client : DockerClient D⦄ (id : String) (s : D)
    → ((stop id s).0.error ≡ none) ↔ (
        ((client.container_stop id s).0 ≡ none)
        × ((client.container_remove id (client.container_stop id s).1).0 ≡ none))
unfolding stop
stop_lem ⦃client = client⦄ id s = ground arith
