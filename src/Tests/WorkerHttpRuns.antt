-- ===== src/Tests/WorkerHttpRuns.antt =====
-- internal/worker/http: the theorems on requests to a concrete worker.
use minkube.Base.{
  ℕ, String, List, [], ◌∷◌, Option, none, some, ◌≡◌, refl, string_eq, nat_eq, ◌==◌, true, false,
  suc,
}
use minkube.Base.GoMap
use minkube.Task.{running, Uuid}
use minkube.Task.Docker.{ok}
use minkube.Tests.{fifo}
use minkube.Tests.DockerRuns.{daemon}
use minkube.Tests.WorkerRuns.{worker_with}
use minkube.Worker.Service.{Worker}
use minkube.Worker.Stream.RoundTrip.{encode_log}
use minkube.WorkerHttp.Logs.{LogClient, get_docker_task_logs_handler}
use minkube.WorkerHttp.Logs.Laws.{IsIncomplete, logs_never_end}

-- The worker with one task in its table and nothing in its queue.
abbrev pub idle_worker : Worker (List ℕ) ℕ
idle_worker = record (worker_with running) { queue = [] }

pub idle_worker_knows : GoMap.lookup 7 idle_worker.task_ids ≡ some 1
unfolding GoMap.lookup GoMap.insert
idle_worker_knows = refl

-- A parser of IDs that knows one text.
abbrev pub parse_worker_id : String → Option Uuid
parse_worker_id s = elim (s == "seven") [ true ↦ some 7 | false ↦ none ]

-- A log whose stream gives nothing more once its request is cancelled.
instance abbrev pub cancelled_logs : LogClient ℕ
cancelled_logs = record {
  container_logs = λ options id calls.
      (ok (record { bytes = encode_log ((1, 0x68 ∷ []) ∷ []); failure = none }), suc calls);
  cancel = λ s. record { bytes = []; failure = some "context canceled" };
}

logs_never_end_example :
    IsIncomplete
      (get_docker_task_logs_handler (λ f. some "line") true parse_worker_id "seven" idle_worker).0
logs_never_end_example =
    logs_never_end (λ f. some "line") true "context canceled" (λ s. refl) parse_worker_id "seven"
      idle_worker
