-- ===== src/Tests/ClusterRuns.antt =====
-- The theorems on the manager and a worker together, at a concrete manager and worker.
use minkube.Base.{
  ℕ, List, [], ◌∷◌, Option, none, some, ◌≡◌, refl, arith, sym, subst, ap, nat_eq, ◌==◌, ==_iff,
  string_eq, false,
}
use minkube.Base.Int.{pos, wrap, ◌*ℤ◌}
use minkube.Base.GoMap
use minkube.Base.GoMap.{lookup-insert, lookup-empty}
use minkube.Cluster.{report}
use minkube.Cluster.Laws.{report_learned, sent_task_stays_scheduled}
use minkube.Heap.{Ptr}
use minkube.Manager.{Manager, new}
use minkube.Manager.Health.{health_check_workers}
use minkube.Manager.Select.{
  select_worker, get_healthy_workers, get_ready_workers, choose, workers_in_both,
}
use minkube.ManagerHttp.Handlers.{start_task_handler as manager_start}
use minkube.Manager.Invariant.{Inv}
use minkube.Worker.Invariant.{Inv as WorkerInv}
use minkube.Manager.Invariant.Send.{send_work-Inv}
use minkube.Manager.Send.{send_work, created}
use minkube.Manager.Send.Laws.{Recorded}
use minkube.Manager.Update.{update_tasks}
use minkube.Manager.Update.Laws.{known_state}
use minkube.Task.{running, scheduled}
use minkube.Tests.{fifo, busy, busy-Inv}
use minkube.Tests.DockerRuns.{daemon}
use minkube.Tests.WorkerHttpRuns.{idle_worker, idle_worker_knows}
use minkube.Worker.Service.{Worker, returns, run_tasks_round}
use minkube.Worker.Service.Start.{state_after, run_result}
use minkube.WorkerHttp.Handlers.{accepted_event, start_task_handler}

idle_worker-Inv : WorkerInv idle_worker
idle_worker-Inv = record {
  heap_started = omega arith;
  table_keys = λ id p e.
      ground (
        arith,
        ==_iff 7 id,
        lookup-insert 7 id 1 (GoMap.empty {V = Ptr}),
        lookup-empty {V = Ptr} id,
      );
  table_allocated = λ id p e.
      ground (
        arith,
        ==_iff 7 id,
        lookup-insert 7 id 1 (GoMap.empty {V = Ptr}),
        lookup-empty {V = Ptr} id,
      );
  queue_allocated = tt;
}

report_learned_example :
    known_state 7 (update_tasks (("w1", report (7 ∷ []) idle_worker) ∷ []) busy).0 ≡ some running
unfolding GoMap.lookup GoMap.insert
report_learned_example =
    report_learned (7 ∷ []) idle_worker idle_worker-Inv 7 1 idle_worker_knows "w1" busy busy-Inv
      (omega arith) refl

abbrev or_busy : Option (Manager (List ℕ)) → Manager (List ℕ)
or_busy none = busy
or_busy (some m) = m

-- The manager after the worker "w2" took the task.
abbrev sent : Manager (List ℕ)
sent = or_busy (send_work 9 200 created busy)

sent-Inv : Inv sent
sent-Inv =
    let (m, e, v) = send_work-Inv 9 200 created busy (λ e. ground arith) busy-Inv in
    subst Inv (sym (ap or_busy e)) v

sent-Recorded : Recorded sent 1 "w2"
unfolding GoMap.lookup send_work manager_start wrap ◌*ℤ◌ health_check_workers new select_worker
    get_healthy_workers GoMap.lookup_or GoMap.insert get_ready_workers choose workers_in_both
sent-Recorded = record {
  event = record { id = 9; state = scheduled; timestamp = 200; task = sent.heap.cell 1 };
  stored = refl;
  event_scheduled = refl;
  task_scheduled = refl;
  table = refl;
  worker = refl;
  listed = refl;
  state = refl;
}

sent_id : (8 == (sent.heap.cell 1).id) ≡ false
unfolding GoMap.lookup send_work manager_start wrap ◌*ℤ◌ health_check_workers new select_worker
    get_healthy_workers GoMap.lookup_or GoMap.insert get_ready_workers choose workers_in_both
sent_id = refl

-- A worker with another task in its table.
abbrev other_worker : Worker (List ℕ) ℕ
other_worker = record idle_worker {
  heap = record idle_worker.heap { cell = λ p. record (idle_worker.heap.cell p) { id = 5 } };
  task_ids = GoMap.insert 5 1 GoMap.empty;
}

other_worker-Inv : WorkerInv other_worker
other_worker-Inv = record {
  heap_started = omega arith;
  table_keys = λ id p e.
      ground (
        arith,
        ==_iff 5 id,
        lookup-insert 5 id 1 (GoMap.empty {V = Ptr}),
        lookup-empty {V = Ptr} id,
      );
  table_allocated = λ id p e.
      ground (
        arith,
        ==_iff 5 id,
        lookup-insert 5 id 1 (GoMap.empty {V = Ptr}),
        lookup-empty {V = Ptr} id,
      );
  queue_allocated = tt;
}

sent_unknown : GoMap.lookup (sent.heap.cell 1).id other_worker.task_ids ≡ none
unfolding GoMap.empty GoMap.lookup send_work manager_start wrap ◌*ℤ◌ health_check_workers new
    select_worker get_healthy_workers GoMap.lookup_or GoMap.insert get_ready_workers choose
    workers_in_both
sent_unknown = refl

sent_task_stays_scheduled_example :
    (w' : Worker (List ℕ) ℕ) × (run_tasks_round 310
        (start_task_handler 8 300 (pos 200) (some sent-Recorded.event) other_worker).0
      ≡ returns w')
    × (known_state (sent.heap.cell 1).id (update_tasks (("w2", report (5 ∷ 8 ∷ []) w') ∷ []) sent).0
        ≡ some scheduled)
    × (known_state 8 (update_tasks (("w2", report (5 ∷ 8 ∷ []) w') ∷ []) sent).0
        ≡ some (
            state_after
              (run_result
                (accepted_event 8 300 sent-Recorded.event).task
                other_worker.docker).error))
sent_task_stays_scheduled_example =
    sent_task_stays_scheduled sent 1 "w2" sent-Recorded 8 300 310 199 other_worker (5 ∷ 8 ∷ [])
      sent-Inv other_worker-Inv sent_id sent_unknown refl refl refl (omega arith) refl
