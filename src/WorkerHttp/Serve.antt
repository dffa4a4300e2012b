-- ===== src/WorkerHttp/Serve.antt =====
-- internal/worker/http/api.go: the routes of a worker's interface, and HealthHandler of handlers.go.
-- Which route a request is for is decided by chi, the router; there are no middlewares.
pub mod Laws
use minkube.Base.{ℕ, String, List, Bool, Option, none, some, string_eq, ◌==◌, if◌then◌else◌}
use minkube.Base.Int.{ℤ}
use minkube.Base.Queue.{QueueOps}
use minkube.Http.{Response, success, Answer, answered, answer_of}
use minkube.Task.{TaskEvent, Time, Uuid}
use minkube.Worker.Stream.{DockerLogFormat}
use minkube.Worker.Service.{Worker, Outcome, returns, and_then, read_lock, read_unlock}
use minkube.WorkerHttp.Handlers.{start_task_handler, stop_task_handler}
use minkube.WorkerHttp.Logs.{
  LogClient, LogsResponse, refused, streamed, get_docker_task_logs_handler,
}
use minkube.WorkerHttp.Paging.{get_tasks_handler}

pub data Endpoint : Type 0 where
  start_task get_tasks health : Endpoint
  stop_task get_task_logs : (task_id : String) → Endpoint

-- What the handlers read of a request: its length, its body as it is decoded, and the two query
-- parameters.
pub record Call : Type 0 where
  pub content_length : ℤ
  pub body : Option TaskEvent
  pub page : String
  pub limit : String

-- What comes from elsewhere while a handler runs: uuid.New, time.Now, the order in which the table
-- is visited, uuid.Parse, json.Marshal, and whether the response writer is an http.Flusher.
pub record World : Type 0 where
  pub id : Uuid
  pub now : Time
  pub order : List Uuid
  pub parse : String → Option Uuid
  pub marshal : DockerLogFormat → Option String
  pub flushes : Bool

-- `HealthHandler` reads nothing of the worker.
abbrev pub health_handler : Response String
health_handler = success 200 "up"

-- The header of a stream is written before its first entry.
abbrev pub logs_answer : LogsResponse → Answer
logs_answer (refused status) = answered status
logs_answer (streamed lines ending) = answered 200

module _ {Q D : Type 0} where
  -- A part between RLock and RUnlock that changes nothing.
  unfoldable pub read_section : Worker Q D → Outcome (Worker Q D)
  unfolding read_lock read_unlock
  read_section w = and_then (read_lock w) read_unlock

module _ {Q D : Type 0} ⦃logs : LogClient D⦄ where
  abbrev pub answer_logs : World → String → Worker Q D → Worker Q D × Answer
  answer_logs o task_id w =
      let (r, w') = get_docker_task_logs_handler o.marshal o.flushes o.parse task_id w in
      (w', logs_answer r)

  -- GetDockerTaskLogsHandler takes the lock in GetTask, with an ID that is parsed.
  unfoldable pub serve_logs : World → String → Worker Q D → Outcome (Worker Q D × Answer)
  unfolding read_section
  serve_logs o task_id w =
      if task_id == "" then returns (answer_logs o task_id w) else elim (o.parse task_id) [
        | none ↦ returns (answer_logs o task_id w)
        | some id ↦ and_then (read_section w) (λ w1. returns (answer_logs o task_id w1))
      ]

module _ {Q D : Type 0} ⦃queue : QueueOps Q⦄ ⦃logs : LogClient D⦄ where
  -- The handler of a route, with its locks.
  unfoldable pub serve : World → Endpoint → Call → Worker Q D → Outcome (Worker Q D × Answer)
  unfolding read_section serve_logs
  serve o start_task c w =
      let (w', r) = start_task_handler o.id o.now c.content_length c.body w in
      returns (w', answer_of r)
  serve o get_tasks c w =
      and_then (read_section w)
        (λ w1. returns (w1, answer_of (get_tasks_handler c.page c.limit o.order w1)))
  serve o health c w = returns (w, answer_of health_handler)
  serve o (stop_task task_id) c w =
      and_then (stop_task_handler o.parse task_id w) (λ r. returns (r.0, answer_of r.1))
  serve o (get_task_logs task_id) c w = serve_logs o task_id w
