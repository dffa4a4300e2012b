-- ===== src/Tests/SystemRuns.antt =====
-- cmd/manager/main.go: the theorems on the manager's process at concrete interleavings.
use minkube.Base.{
  ℕ, List, [], ◌∷◌, some, ◌≡◌, refl, arith, sym, subst, nat_eq, string_eq, true, false,
}
use minkube.Base.GoMap
use minkube.Heap.{Heap, write}
use minkube.Manager.{Manager, new}
use minkube.Manager.Send.{take_pending, schedule_task, event_of}
use minkube.Manager.Select.{ok, get_healthy_workers, get_ready_workers, choose, workers_in_both}
use minkube.Base.Int.{wrap, ◌*ℤ◌, ◌+ℤ◌}
use minkube.Manager.Health.{health_check_worker}
use minkube.ManagerHttp.Handlers.{start_task_handler, mark_completed}
use minkube.System.{
  idle, taken, after_take, after_select, selected, Steps, done, more, take, list_healthy,
  list_ready, choose_next, after_healthy, after_ready, listed, choosing, check, post, mark,
  schedule, marked, read_state, copy_task, requesting, Stage, stage,
}
use minkube.System.Safety.{SystemInv, reachable-SystemInv}
use minkube.Task.{TaskEvent, zero_task, completed}
use minkube.System.Sequential.{then_steps}
use minkube.Tests.{fifo, fresh, event_request}

abbrev first_heap : Heap
first_heap = record { next = 1; cell = λ p. zero_task }

abbrev checked : Manager (List ℕ)
checked = health_check_worker "w1" true fresh

abbrev posted : Manager (List ℕ)
posted = (start_task_handler 7 100 "c1" (some event_request) checked).0

abbrev taken_off : Manager (List ℕ)
taken_off = (take_pending posted).0

-- The request to stop the task comes while SendWork selects a worker for it, and gets as far as its
-- first unlock.
abbrev stopped : Manager (List ℕ)
stopped = mark_completed 1 taken_off

-- A health check fails between the list of the healthy workers and that of the ready ones.
abbrev down : Manager (List ℕ)
down = health_check_worker "w1" false stopped

abbrev picked : Manager (List ℕ)
picked = (choose ("w1" ∷ []) down).0

one_taken : (take_pending posted).1 ≡ some 1
unfolding take_pending start_task_handler wrap ◌*ℤ◌ health_check_worker new
one_taken = refl

healthy_listed :
    after_healthy 1 stopped.workers (get_healthy_workers stopped) ≡ listed 1 ("w1" ∷ [])
unfolding mark_completed GoMap.lookup take_pending start_task_handler wrap ◌*ℤ◌ health_check_worker
    new GoMap.insert get_healthy_workers GoMap.lookup_or
healthy_listed = refl

ready_listed : after_ready 1 ("w1" ∷ []) (get_ready_workers down) ≡ choosing 1 ("w1" ∷ [])
unfolding get_ready_workers health_check_worker mark_completed GoMap.lookup take_pending
    start_task_handler wrap ◌*ℤ◌ new GoMap.insert GoMap.lookup_or ◌+ℤ◌ workers_in_both
ready_listed = refl

worker_chosen : (choose ("w1" ∷ []) down).1 ≡ ok "w1"
unfolding choose health_check_worker mark_completed GoMap.lookup take_pending start_task_handler
    wrap ◌*ℤ◌ new GoMap.insert
worker_chosen = refl

task_known : GoMap.lookup 7 taken_off.task_db ≡ some 1
unfolding GoMap.lookup take_pending start_task_handler wrap ◌*ℤ◌ health_check_worker new
    GoMap.insert
task_known = refl

-- The worker is selected all the same.
abbrev reached_stage : Stage
reached_stage = stage (selected 1 "w1") (1 ∷ [])

selecting : Steps stopped (stage (taken 1) (1 ∷ [])) picked reached_stage
selecting = more _ _ _ _ _ _ (list_healthy (1 ∷ []) 1) (
    subst (λ p. Steps stopped (stage p (1 ∷ [])) picked reached_stage) (sym healthy_listed)
      (more _ _ _ _ _ _ (check (stage (listed 1 ("w1" ∷ [])) (1 ∷ [])) "w1" false) (
        more _ _ _ _ _ _ (list_ready (1 ∷ []) 1 ("w1" ∷ [])) (
          subst (λ p. Steps down (stage p (1 ∷ [])) picked reached_stage) (sym ready_listed)
            (more _ _ _ _ _ _ (choose_next (1 ∷ []) 1 ("w1" ∷ [])) (
              subst (λ r. Steps picked (stage (after_select 1 r) (1 ∷ [])) picked reached_stage)
                (sym worker_chosen) (done picked reached_stage)))))))

interleaving : Steps (new first_heap ("w1" ∷ "w2" ∷ []) 0) (stage idle []) picked reached_stage
interleaving = more _ _ _ _ _ _ (check (stage idle []) "w1" true) (
    more _ _ _ _ _ _ (post (stage idle []) 7 100 "c1" (some event_request)) (
      more _ _ _ _ _ _ (take []) (
        subst (λ r. Steps taken_off (stage (after_take r) []) picked reached_stage) (sym one_taken)
          (more _ _ _ _ _ _ (mark (taken 1) [] 7 1 task_known) selecting))))

-- A second request to stop the task comes between the write of its state and the read for the event,
-- which is sent as Completed.
abbrev scheduled_one : Manager (List ℕ)
scheduled_one = schedule_task 1 picked

abbrev stopped_again : Manager (List ℕ)
stopped_again = mark_completed 1 scheduled_one

still_known : GoMap.lookup 7 scheduled_one.task_db ≡ some 1
unfolding GoMap.lookup take_pending start_task_handler wrap ◌*ℤ◌ health_check_worker new
    GoMap.insert schedule_task choose mark_completed
still_known = refl

abbrev racing_event : TaskEvent
racing_event = event_of 9 (stopped_again.heap.cell 1).state 200 (stopped_again.heap.cell 1)

sent_completed : racing_event.state ≡ completed
unfolding event_of mark_completed write
sent_completed = refl

abbrev last_stage : Stage
last_stage = stage (requesting 1 "w1" racing_event) (1 ∷ 1 ∷ [])

racing : Steps picked reached_stage stopped_again last_stage
racing = more _ _ _ _ _ _ (schedule (1 ∷ []) 1 "w1") (
    more _ _ _ _ _ _ (mark (marked 1 "w1") (1 ∷ []) 7 1 still_known) (
      more _ _ _ _ _ _ (read_state (1 ∷ 1 ∷ []) 1 "w1")
        (more _ _ _ _ _ _ (copy_task (1 ∷ 1 ∷ []) 1 "w1" _ 9 200) (done stopped_again last_stage))))

reachable-SystemInv_example : SystemInv stopped_again last_stage
reachable-SystemInv_example =
    reachable-SystemInv first_heap ("w1" ∷ "w2" ∷ []) 0 stopped_again last_stage (omega arith)
      (then_steps interleaving racing)
