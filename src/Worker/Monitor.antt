-- ===== src/Worker/Monitor.antt =====
-- internal/worker/service/worker.go: MonitorTasks, IsTaskRunning, InspectTask and GetTask.
pub mod Laws
pub mod Rounds
use Prim.Native.String
use Prim.Native.String.{◌++◌ as str_append}
use text.Mathlib.Text.{starts_with}
use minkube.Base.{
  ℕ, String, List, [], ◌∷◌, Bool, true, false, Option, none, some, if◌then◌else◌, ◌||◌, ◌==◌,
  string_eq, nat_eq,
}
use minkube.Base.GoMap
use minkube.Heap.{Ptr, Heap}
use minkube.Task.{
  Task, Uuid, Time, Error, State, failed, ContainerJson, ContainerState, DockerInspectResponse,
  PortMap, is_running as says_running,
}
use minkube.Task.Docker.{DockerClient, Result, ok, err, inspect_container, is_running}
use minkube.Worker.Service.{
  Worker, Outcome, returns, deadlock, panics, fatal, and_then, lock, unlock, read_lock,
  update_object, update_task_state,
}

-- `strings.Contains`
unfoldable pub contains_text : String → String → Bool
contains_text String.[] sub = sub == ""
contains_text (String.◌∷◌ c s) sub = starts_with (String.◌∷◌ c s) sub || contains_text s sub

-- A round of the loop that makes the list of the running tasks.
unfoldable pub if_running : Option Ptr → Heap → List Ptr → List Ptr
if_running none h rest = rest
if_running (some t) h rest = if says_running (h.cell t).state then t ∷ rest else rest

module _ {Q D : Type 0} where
  -- The running tasks of the table, by the order in which the map is visited.
  abbrev pub running_tasks : List Uuid → Worker Q D → List Ptr
  running_tasks [] w = []
  running_tasks (id ∷ ids) w = if_running (GoMap.lookup id w.task_ids) w.heap (running_tasks ids w)

  -- The first part of a round: the list is made under the lock.
  unfoldable pub tasks_to_inspect : List Uuid → Worker Q D → Outcome (List Ptr × Worker Q D)
  unfolding lock unlock
  tasks_to_inspect order w =
      and_then (lock w) (λ w1. and_then (unlock w1) (λ w2. returns (running_tasks order w1, w2)))

  -- The change of the last part of a round, under the lock.
  unfoldable pub set_ports : Uuid → PortMap → Worker Q D → Worker Q D
  unfolding update_object
  set_ports id ports w = elim (GoMap.lookup id w.task_ids) [
    | none ↦ w
    | some t ↦ update_object t (λ x. record x { host_ports = ports }) w
  ]

  -- A task of the table and a container without network settings make the line panic, before the
  -- lock is given back.
  unfoldable pub store_ports : Uuid → Option PortMap → Worker Q D → Outcome (Worker Q D)
  unfolding set_ports
  store_ports id (some ports) w = returns (set_ports id ports w)
  store_ports id none w = elim (GoMap.lookup id w.task_ids) [ none ↦ returns w | some t ↦ panics ]

  unfoldable pub update_ports : Uuid → Option PortMap → Worker Q D → Outcome (Worker Q D)
  unfolding lock unlock store_ports
  update_ports id settings w =
      and_then (lock w) (λ w1. and_then (store_ports id settings w1) (λ w2. unlock w2))

  -- A container that was inspected: one without a state is a panic.
  unfoldable pub note_container :
      Uuid → Time → ContainerJson → Option ContainerState → Worker Q D → Outcome (Worker Q D)
  unfolding update_task_state update_ports
  note_container id now c none w = panics
  note_container id now c (some st) w =
      and_then (if st.status == "exited" then update_task_state id failed now w else returns w)
        (update_ports id c.network_settings)

  -- What the loop does with the answer about a task.
  unfoldable pub note_inspection :
      Uuid → Time → DockerInspectResponse → Worker Q D → Outcome (Worker Q D)
  unfolding note_container update_task_state
  note_inspection id now resp w = elim resp.error [
    | some e ↦ update_task_state id failed now w
    | none ↦ elim resp.container [
      | none ↦ update_task_state id failed now w
      | some c ↦ note_container id now c c.state w
    ]
  ]

  -- `GetTask`, with both locks: a copy of the object; `none` is `Task{}, false`.
  unfoldable pub get_task : Uuid → Worker Q D → Option Task
  get_task id w = elim (GoMap.lookup id w.task_ids) [
    | none ↦ none
    | some t ↦ if t == 0 then none else some (w.heap.cell t)
  ]

module _ {Q D : Type 0} ⦃client : DockerClient D⦄ where
  -- `InspectTask`; the Docker value is not read, so that a nil one does not matter.
  unfoldable pub inspect_task : Task → Worker Q D → DockerInspectResponse × Worker Q D
  unfolding inspect_container
  inspect_task t w =
      let (r, s) = inspect_container t.container_id w.docker in (r, record w { docker = s })

  -- A round of the inner loop.
  unfoldable pub monitor_task : Time → Ptr → Worker Q D → Outcome (Worker Q D)
  unfolding inspect_task note_inspection
  monitor_task now t w =
      let (resp, w') = inspect_task (w.heap.cell t) w in
      note_inspection (w.heap.cell t).id now resp w'

  unfoldable pub monitor_loop : Time → List Ptr → Worker Q D → Outcome (Worker Q D)
  monitor_loop now [] w = returns w
  monitor_loop now (t ∷ ts) w = and_then (monitor_task now t w) (monitor_loop now ts)

  -- A round of the loop of `MonitorTasks`, with nothing else in between.
  unfoldable pub monitor_round : List Uuid → Time → Worker Q D → Outcome (Worker Q D)
  unfolding tasks_to_inspect monitor_loop monitor_task
  monitor_round order now w = and_then (tasks_to_inspect order w) (λ r. monitor_loop now r.0 r.1)

  -- `IsTaskRunning`; `none` is a panic.
  unfoldable pub is_task_running : String → Worker Q D → Option (Result Bool) × Worker Q D
  unfolding is_running contains_text
  is_task_running container_id w =
      if container_id == ""
      then (some (ok false), w)
      else (let (r, s) = is_running container_id w.docker in
          (
            elim r [
              | none ↦ none
              | some (ok b) ↦ some (ok b)
              | some (err e) ↦
                  if contains_text e "No such container"
                  then some (ok false)
                  else some (err (str_append "error checking container status: " e))
            ],
            record w { docker = s },
          ))
