-- ===== src/Tests/ProcessRuns.antt =====
-- cmd/worker/main.go: the theorem on the worker's process at a concrete run.
use minkube.Base.{ℕ, List, [], ◌∷◌, true, some, ◌≡◌, refl, arith, nat_eq, subst, sym}
use minkube.Base.Int.{pos}
use minkube.Heap.{Heap}
use minkube.Task.{TaskEvent, zero_task, pending}
use minkube.Tests.{fifo}
use minkube.Tests.DockerRuns.{daemon}
use minkube.Worker.Service.{Worker, returns}
use minkube.Worker.Monitor.{tasks_to_inspect, if_running}
use minkube.Base.GoMap.{lookup, empty}
use minkube.WorkerHttp.Handlers.{start_task_handler}
use minkube.WorkerProcess.{
  new_worker, look, take_item, waiting, taking, took, watching, Stage, stage, WorkerSteps, see,
  take, list, post, done, more,
}
use minkube.WorkerProcess.Safety.{ProcessInv, reachable-ProcessInv}

abbrev empty_heap : Heap
empty_heap = record { next = 1; cell = λ p. zero_task }

-- The event of a task that has the ID 7 where it comes from.
abbrev sent_event : TaskEvent
sent_event = record {
  id = 3;
  state = pending;
  timestamp = 0;
  task = record zero_task { id = 7; name = "web"; image = "nginx" };
}

abbrev new_one : Worker (List ℕ) ℕ
new_one = new_worker empty_heap 0 true

abbrev posted_to : Worker (List ℕ) ℕ
posted_to = (start_task_handler 8 100 (pos 200) (some sent_event) new_one).0

-- The worker once RunTasks has taken the task off the queue.
abbrev taken_off : Worker (List ℕ) ℕ
taken_off = record posted_to { queue = [] }

something_seen : look posted_to ≡ taking
unfolding look start_task_handler new_worker
something_seen = refl

task_taken : take_item posted_to ≡ returns (took (some 1), taken_off)
unfolding take_item start_task_handler new_worker
task_taken = refl

-- MonitorTasks makes its list before the task runs.
nothing_to_inspect : tasks_to_inspect (8 ∷ []) taken_off ≡ returns ([], taken_off)
unfolding tasks_to_inspect start_task_handler new_worker if_running lookup empty
nothing_to_inspect = refl

abbrev holding : Stage
holding = stage (took (some 1)) (watching [])

taking_steps : WorkerSteps posted_to (stage taking (watching [])) taken_off holding
taking_steps = more _ _ _ _ _ _ (take (watching []) (took (some 1)) taken_off task_taken) (
    more _ _ _ _ _ _ (list (took (some 1)) (8 ∷ []) [] taken_off nothing_to_inspect)
      (done taken_off holding))

worker_run : WorkerSteps new_one (stage waiting (watching [])) taken_off holding
worker_run =
    more _ _ _ _ _ _ (post (stage waiting (watching [])) 8 100 (pos 200) (some sent_event)) (
      more _ _ _ _ _ _ (see (watching [])) (
        subst (λ r. WorkerSteps posted_to (stage r (watching [])) taken_off holding)
          (sym something_seen) taking_steps))

reachable-ProcessInv_example : ProcessInv taken_off holding
reachable-ProcessInv_example =
    reachable-ProcessInv empty_heap 0 true taken_off holding (omega arith) worker_run
