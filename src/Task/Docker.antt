-- ===== src/Task/Docker.antt =====
-- task/task.go: the operations on containers, over a client of the Docker daemon.
pub mod Laws
use minkube.Base.{
  String, List, [], ◌∷◌, Bool, true, false, Option, none, some, if◌then◌else◌, ◌==◌, string_eq,
}
use minkube.Task.{Config, Error, ContainerState, ContainerJson, DockerResult, DockerInspectResponse}

pub data Result {ℓ} (A : Type ℓ) : Type ℓ where
  ok : A → Result A
  err : Error → Result A

-- `client.Client` of github.com/docker/docker, a package outside the repository: the calls that the
-- program makes, on the daemon's state D. A container is created from a configuration and a name.
pub record DockerClient (D : Type 0) : Type 0 where
  pub image_pull : String → D → Option Error × D
  pub container_create : Config → D → Result String × D
  pub container_start : String → D → Option Error × D
  pub container_inspect : String → D → Result ContainerJson × D
  pub container_stop : String → D → Option Error × D
  pub container_remove : String → D → Option Error × D

pub record Docker : Type 0 where
  pub config : Config
  pub container_id : String

-- `NewDocker`; `made` is whether a client could be made, and `none` is nil.
unfoldable pub new_docker : Bool → Config → Option Docker
new_docker made c = if made then some (record { config = c; container_id = "" }) else none

-- `DockerResult{Error: err}`
abbrev pub with_error : Option Error → DockerResult
with_error e = record { error = e; action = ""; container_id = ""; result = "" }

-- The configuration that the container is created with: the command is fixed.
abbrev pub container_config : Config → Config
container_config c = record c {
  cmd = "sh" ∷ "-c" ∷ "while true; do echo log $(date); sleep 2; done" ∷ [];
}

abbrev pub inspect_response : Result ContainerJson → DockerInspectResponse
inspect_response (err e) = record { error = some e; container = none }
inspect_response (ok c) = record { error = none; container = some c }

-- The check whether the container already runs; a state that is missing says no.
abbrev pub says_running : Result ContainerJson → Bool
says_running (err e) = false
says_running (ok c) = elim c.state [ none ↦ false | some s ↦ s.status == "running" ]

-- The end of `Run`, once the container was started: an error of the inspection is not returned,
-- the nil error of the start is.
unfoldable pub verify_started : String → Result ContainerJson → DockerResult
verify_started id (err e) = with_error none
verify_started id (ok c) = record {
  error = none;
  action = "start";
  container_id = id;
  result = "success";
}

module _ {D : Type 0} ⦃client : DockerClient D⦄ where
  unfoldable pub inspect_container : String → D → DockerInspectResponse × D
  inspect_container id s = let (r, s') = client.container_inspect id s in (inspect_response r, s')

  unfoldable pub start_container : Docker → String → D → DockerResult × Docker × D
  unfolding verify_started
  start_container d id s =
      let (started, s1) = client.container_start id s in
      elim started [
        | some e ↦ (with_error (some e), d, s1)
        | none ↦
            let (inspected, s2) = client.container_inspect id s1 in
            (verify_started id inspected, record d { container_id = id }, s2)
      ]

  unfoldable pub create_container : Docker → D → DockerResult × Docker × D
  unfolding start_container
  create_container d s =
      let (created, s1) = client.container_create (container_config d.config) s in
      elim created [ err e ↦ (with_error (some e), d, s1) | ok id ↦ start_container d id s1 ]

  -- `Run`
  unfoldable pub run : Docker → D → DockerResult × Docker × D
  unfolding create_container
  run d s =
      let (pulled, s1) = client.image_pull d.config.image s in
      elim pulled [
        | some e ↦ (with_error (some e), d, s1)
        | none ↦
            let (inspected, s2) = client.container_inspect d.container_id s1 in
            if says_running inspected
            then (
              record {
                error = none;
                action = "start";
                container_id = d.container_id;
                result = "already running";
              },
              d,
              s2,
            )
            else create_container d s2
      ]

  -- `Stop`
  unfoldable pub stop : String → D → DockerResult × D
  stop id s =
      let (stopped, s1) = client.container_stop id s in
      elim stopped [
        | some e ↦
            (record { error = some e; action = "stop"; container_id = ""; result = "failed" }, s1)
        | none ↦
            let (removed, s2) = client.container_remove id s1 in
            elim removed [
              | some e ↦ (
                record { error = some e; action = "stop"; container_id = ""; result = "failed" },
                s2,
              )
              | none ↦ (
                record { error = none; action = "stop"; container_id = ""; result = "success" },
                s2,
              )
            ]
      ]

  -- `IsRunning`; `none` is the panic of a container without a state.
  unfoldable pub is_running : String → D → Option (Result Bool) × D
  is_running id s =
      let (r, s') = client.container_inspect id s in
      (
        elim r [
          | err e ↦ some (err e)
          | ok c ↦ elim c.state [ none ↦ none | some st ↦ some (ok st.running) ]
        ],
        s',
      )
