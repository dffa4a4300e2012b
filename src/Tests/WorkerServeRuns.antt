-- ===== src/Tests/WorkerServeRuns.antt =====
-- internal/worker/http: requests to a worker with a free lock, and to one that has hung.
use minkube.Base.{ℕ, List, [], ◌∷◌, ◌++◌, true, some, ◌≡◌, refl}
use minkube.Base.Int.{pos}
use minkube.Http.{answered}
use minkube.Manager.{is_worker_ready, is_worker_healthy}
use minkube.Manager.Health.{health_check_worker}
use minkube.Task.{TaskEvent, zero_task, pending}
use minkube.Tests.{fifo, fresh}
use minkube.Tests.DockerRuns.{daemon}
use minkube.Tests.WorkerHttpRuns.{idle_worker, idle_worker_knows, parse_worker_id, cancelled_logs}
use minkube.Worker.Service.{Worker, returns, deadlock}
use minkube.WorkerHttp.Serve.{Call, World, start_task, get_tasks, health, get_task_logs, serve}
use minkube.WorkerHttp.Serve.Laws.{Returns, request-Returns}
use minkube.WorkerProcess.{
  WorkerSteps, Stage, stage, waiting, stuck, watching, hung, post, done, more,
}
use minkube.WorkerHttp.Handlers.{start_task_handler}
use minkube.WorkerHttp.Handlers.Laws.{stopped_worker}
use minkube.WorkerProcess.Blocked.{OnlyQueues}
use minkube.Cluster.Stopped.{reached, stopped_worker_stays_ready}

abbrev world : World
world = record {
  id = 8;
  now = 100;
  order = 7 ∷ [];
  parse = parse_worker_id;
  marshal = λ f. some "line";
  flushes = true;
}

abbrev posted_event : TaskEvent
posted_event = record { id = 3; state = pending; timestamp = 0; task = zero_task }

abbrev post_request : Call
post_request = record { content_length = pos 200; body = some posted_event; page = ""; limit = "" }

request-Returns_example : Returns (serve world (get_task_logs "seven") post_request idle_worker)
request-Returns_example =
    request-Returns world (get_task_logs "seven") post_request idle_worker refl

-- The worker hangs, and then a task is posted.
abbrev hung_worker : Worker (List ℕ) ℕ
hung_worker = hung (stopped_worker 1 idle_worker)

abbrev posted_worker : Worker (List ℕ) ℕ
posted_worker = (start_task_handler 9 200 (pos 200) (some posted_event) hung_worker).0

abbrev hanging : Stage
hanging = stage stuck (watching [])

posted_after : WorkerSteps hung_worker hanging posted_worker hanging
posted_after = more _ _ _ _ _ _ (post hanging 9 200 (pos 200) (some posted_event)) (done _ _)

stopped_worker_stays_ready_example :
    let m' =
      health_check_worker "w1" (reached (serve world health post_request posted_worker)) fresh in
    WorkerSteps idle_worker (stage waiting (watching [])) hung_worker hanging
    × OnlyQueues hung_worker posted_worker
    × ((is_worker_healthy "w1" m' ≡ true) × (is_worker_ready "w1" m' ≡ true))
    × ((v' : Worker (List ℕ) ℕ) × (serve world start_task post_request posted_worker
          ≡ returns (v', answered 201))
        × (v'.queue ≡ posted_worker.queue ++ posted_worker.heap.next ∷ []))
    × (serve world get_tasks post_request posted_worker ≡ deadlock)
stopped_worker_stays_ready_example =
    stopped_worker_stays_ready parse_worker_id "seven" 7 1 110 idle_worker posted_worker hanging
      world post_request posted_event "w1" fresh refl refl refl idle_worker_knows refl refl refl
      posted_after
