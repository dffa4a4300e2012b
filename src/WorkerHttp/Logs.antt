-- ===== src/WorkerHttp/Logs.antt =====
-- internal/worker/http/handlers.go: GetDockerTaskLogsHandler, with GetDockerTaskLogs of
-- internal/worker/service/worker.go and GetDockerContainerLogs of task/task.go.
pub mod Laws
use minkube.Base.{
  ℕ, String, List, [], ◌∷◌, ◌++◌, Bool, true, false, Option, none, some, string_eq, ◌==◌,
  if◌then◌else◌,
}
use minkube.Task.{Task, Uuid, Error}
use minkube.Task.Docker.{Result, ok, err}
use minkube.Worker.Monitor.{get_task}
use minkube.Worker.Service.{Worker}
use minkube.Worker.Stream.{
  DockerLogFormat, LogStream, DockerTaskLogsResponse, Ending, process_docker_stream,
}

-- `types.ContainerLogsOptions` of Docker's client.
pub record ContainerLogsOptions : Type 0 where
  pub show_stdout : Bool
  pub show_stderr : Bool
  pub since : String
  pub until : String
  pub timestamps : Bool
  pub follow : Bool
  pub tail : String
  pub details : Bool

-- `ContainerLogs` of Docker's client, a package outside the repository: the stream of a container's
-- log, on the daemon's state D; and what is still read of a stream once the context of its request
-- is cancelled.
pub record LogClient (D : Type 0) : Type 0 where
  pub container_logs : ContainerLogsOptions → String → D → Result LogStream × D
  pub cancel : LogStream → LogStream

-- `GetDockerContainerLogs`: the deferred call cancels the context before the caller reads.
unfoldable pub get_docker_container_logs :
    {D : Type 0} ⦃logs : LogClient D⦄
    → ContainerLogsOptions
    → String
    → D
    → DockerTaskLogsResponse × D
get_docker_container_logs ⦃logs = logs⦄ options id s =
    let (r, s') = logs.container_logs options id s in
    (
      elim r [
        | err e ↦ record { error = some e; log_stream = none }
        | ok stream ↦ record { error = none; log_stream = some (logs.cancel stream) }
      ],
      s',
    )

abbrev pub log_options : ContainerLogsOptions
log_options = record {
  show_stdout = true;
  show_stderr = true;
  since = "2013-01-02T13:23:37Z";
  until = "";
  timestamps = false;
  follow = false;
  tail = "";
  details = true;
}

-- `GetDockerTaskLogs`; the Docker value is not read, so that a nil one does not matter.
unfoldable pub get_docker_task_logs :
    {D : Type 0} ⦃logs : LogClient D⦄ → Task → D → DockerTaskLogsResponse × D
unfolding get_docker_container_logs
get_docker_task_logs t s = get_docker_container_logs log_options t.container_id s

-- What the handler writes: an error response, or status 200 and then a line for each entry, with the
-- ending of the stream, which is only logged.
pub data LogsResponse : Type 0 where
  refused : ℕ → LogsResponse
  streamed : List String → Ending → LogsResponse

-- The callback: an entry that cannot be encoded stops the stream.
unfoldable pub write_entry :
    (DockerLogFormat → Option String) → DockerLogFormat → List String → Option Error × List String
write_entry marshal f lines = elim (marshal f) [
  | none ↦ (some "could not marshall log entry", lines)
  | some line ↦ (none, lines ++ line ∷ [])
]

unfoldable pub stream_response :
    (DockerLogFormat → Option String) → DockerTaskLogsResponse → LogsResponse
unfolding write_entry
stream_response marshal response =
    let (ending, lines) = process_docker_stream response (write_entry marshal) [] in
    streamed lines ending

module _ {Q D : Type 0} ⦃logs : LogClient D⦄ where
  -- The logs of a task that was found.
  unfoldable pub task_logs :
      (DockerLogFormat → Option String) → Bool → Task → Worker Q D → LogsResponse × Worker Q D
  unfolding get_docker_task_logs stream_response
  task_logs marshal flushes t w =
      if t.container_id == ""
      then (refused 409, w)
      else (let (response, s) = get_docker_task_logs t w.docker in
          let w' = record w { docker = s } in
          elim response.error [
            | some e ↦ (refused 500, w')
            | none ↦ if flushes then (stream_response marshal response, w') else (refused 500, w')
          ])

  -- `marshal` is json.Marshal on an entry, `parse` is uuid.Parse, and `flushes` is whether the response
  -- writer is an http.Flusher.
  unfoldable pub get_docker_task_logs_handler :
      (DockerLogFormat → Option String)
      → Bool
      → (String → Option Uuid)
      → String
      → Worker Q D
      → LogsResponse × Worker Q D
  unfolding task_logs
  get_docker_task_logs_handler marshal flushes parse task_id w =
      if task_id == "" then (refused 400, w) else elim (parse task_id) [
        | none ↦ (refused 400, w)
        | some id ↦ elim (get_task id w) [
          | none ↦ (refused 404, w)
          | some t ↦ task_logs marshal flushes t w
        ]
      ]
