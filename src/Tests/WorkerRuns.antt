-- ===== src/Tests/WorkerRuns.antt =====
-- internal/worker/service/worker.go: the theorems on the worker at a concrete worker.
use minkube.Base.{ℕ, suc, arith, List, [], ◌∷◌, some, String, ◌≡◌, refl, nat_eq, true, false, inl}
use minkube.Base.GoMap
use minkube.Task.{State, zero_task, running, failed}
use minkube.Tests.{fifo}
use minkube.Tests.DockerRuns.{daemon}
use minkube.Worker.Service.{Worker, free, returns, run_tasks_round}
use minkube.Worker.Service.Start.{HasTask}
use minkube.Worker.Service.Start.Rounds.{task_started}
use minkube.Worker.Monitor.{monitor_task, monitor_round}
use minkube.Worker.Monitor.Laws.{Noted, IsDescribed, monitor_task_lem}
use minkube.Worker.Monitor.Rounds.{Completes, monitor_round_returns}
use minkube.Task.{pending, ContainerJson, new_config}
use minkube.Task.Docker.{DockerClient, ok, run}

-- One task, of ID 7 and in the given state, in the queue and in the table.
abbrev pub worker_with : State → Worker (List ℕ) ℕ
worker_with s = record {
  heap = record { next = 2; cell = λ p. record zero_task { id = 7; state = s } };
  queue = 1 ∷ [];
  task_ids = GoMap.insert 7 1 GoMap.empty;
  docker = 0;
  docker_available = true;
  mu = free;
}

worker_knows : GoMap.lookup 7 (worker_with running).task_ids ≡ some 1
unfolding GoMap.lookup GoMap.insert
worker_knows = refl

task_started_example :
    (w' : Worker (List ℕ) ℕ) × (run_tasks_round 5 (worker_with pending) ≡ returns w')
    × (w'.queue ≡ [])
    × (w'.mu ≡ free)
    × (w'.task_ids ≡ GoMap.insert 7 1 (worker_with pending).task_ids)
    × HasTask 7 1 running w'
unfolding run new_config zero_task
task_started_example = task_started 5 (worker_with pending) 1 [] refl refl refl (inl refl)

-- A daemon whose containers have all exited.
abbrev exited : ContainerJson
exited = record {
  state = some (record { status = "exited"; running = false });
  network_settings = some GoMap.empty;
}

abbrev exiting : DockerClient ℕ
exiting = record daemon { container_inspect = λ id calls. (ok exited, suc calls) }

exited-IsDescribed : IsDescribed (ok exited)
exited-IsDescribed = (λ e. ground arith, λ e. ground arith)

monitor_task_lem_example :
    (w' : Worker (List ℕ) ℕ) × (monitor_task ⦃client = exiting⦄ 5 1 (worker_with running)
      ≡ returns w')
    × Noted 7 1 5 failed (worker_with running) w'
monitor_task_lem_example =
    monitor_task_lem ⦃client = exiting⦄ 5 1 (worker_with running) running refl
      (worker_knows, refl, refl) exited-IsDescribed

described : (id : String) (s : ℕ) → IsDescribed (exiting.container_inspect id s).0
described id s = exited-IsDescribed

monitor_round_returns_example :
    Completes (monitor_round ⦃client = exiting⦄ (7 ∷ []) 5 (worker_with running))
monitor_round_returns_example =
    monitor_round_returns ⦃client = exiting⦄ described 5 (7 ∷ []) (worker_with running) refl
