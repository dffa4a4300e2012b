-- ===== src/Tests/ManagerRuns.antt =====
-- internal/manager/manager.go: the manager's theorems at concrete managers.
use minkube.Base.{
  ℕ, ◌<◌, ◌+◌, ◌-◌, ◌*◌, ◌%◌, String, List, [], ◌∷◌, true, false, some, none, ◌≡◌, ◌≢◌, ap, inr,
  refl, arith, get_or, contains, nat_eq, string_eq, ◌==◌, if◌then◌else◌,
}
use mathlib.Core.List.{Perm}
use minkube.Base.Int.{pos}
use minkube.Base.GoMap
use minkube.Heap.{Heap, Ptr}
use minkube.Manager.{Manager, new, is_worker_healthy, is_worker_ready}
use minkube.Manager.Cleanup.{clean_up_tasks, hour, task_retention_hours}
use minkube.Manager.Cleanup.Laws.{is_expired, clean_up_tasks_lem}
use minkube.Manager.Health.{health_check_worker, health_check_workers}
use minkube.Manager.Health.Laws.{failed_checks, failed_checks_lem, failures_of, state_of, health_of}
use minkube.Manager.Select.{
  ok, select_worker, get_healthy_workers, get_ready_workers, choose, workers_in_both,
}
use minkube.Manager.Select.Laws.{
  select_worker_some, select_worker_sound, select_worker_fair, select_times,
}
use minkube.Manager.Send.{created, refused, request_error, send_work}
use minkube.Manager.Send.Laws.{send_created, send_requeued, send_without_worker, Recorded}
use minkube.Manager.Sorted.{insert_sorted}
use minkube.Manager.Sorted.Laws.{IsOrdered, insert_sorted-IsOrdered, insert_sorted-perm}
use minkube.Manager.Update.{Reply, tasks, send_error as unreachable, update_tasks}
use minkube.Manager.Update.Laws.{update_tasks_state, known_state, reported_by}
use minkube.Task.{completed, running, Uuid, zero_task}
use minkube.Tests.{
  fifo, fresh, healthy, busy, stuck, busy-Inv, busy-queue, busy-schedulable, healthy-schedulable,
  stuck-queue, stuck-schedulable,
}
use minkube.Worker.State.{unhealthy}

created_differs : created ≢ request_error
created_differs e = ground arith

-- The worker w1 reports two tasks that the manager does not know, and w2 cannot be reached.
abbrev reports : List (String × Reply)
reports =
    ("w1", tasks (record zero_task { id = 8; state = running } ∷ record zero_task { id = 5 } ∷ []))
    ∷ ("w2", unreachable)
    ∷ []

update_tasks_state_example :
    known_state 8 (update_tasks reports busy).0 ≡ reported_by 8 reports (known_state 8 busy)
update_tasks_state_example = update_tasks_state reports 8 busy busy-Inv

select_worker_some_example : select_worker busy ≡ (
  record busy { last_worker = (busy.last_worker + 1) % 2 },
  ok (get_or ("w1" ∷ "w2" ∷ []) ((busy.last_worker + 1) % 2) ""),
)
select_worker_some_example = select_worker_some busy "w1" ("w2" ∷ []) busy-schedulable

select_worker_fair_example :
    (k : ℕ) × (k < 2) × ((select_worker (select_times k healthy)).1 ≡ ok "w1")
select_worker_fair_example =
    select_worker_fair healthy "w1" ("w2" ∷ []) 0 healthy-schedulable (omega arith)

healthy_selects : (select_worker healthy).1 ≡ ok "w2"
unfolding select_worker health_check_workers new get_healthy_workers GoMap.lookup_or GoMap.insert
    get_ready_workers choose workers_in_both
healthy_selects = refl

select_worker_sound_example :
    (contains "w2" healthy.workers ≡ true)
    × (is_worker_healthy "w2" healthy ≡ true)
    × (is_worker_ready "w2" healthy ≡ true)
select_worker_sound_example = select_worker_sound healthy "w2" healthy_selects

send_created_example :
    let index = (busy.last_worker + 1) % 2 in
    (m' : Manager (List ℕ)) × (send_work 9 200 created busy ≡ some m')
    × (m'.pending_tasks ≡ [])
    × (m'.last_worker ≡ index)
    × Recorded m' 1 (get_or ("w1" ∷ "w2" ∷ []) index "")
send_created_example = send_created 9 200 busy 1 [] "w1" ("w2" ∷ []) busy-queue busy-schedulable

send_requeued_example :
    (m' : Manager (List ℕ)) × (send_work 9 200 (refused true) busy ≡ some m')
    × (m'.pending_tasks ≡ 1 ∷ [])
    × (GoMap.lookup (busy.heap.cell 1).id m'.task_db ≡ some 1)
send_requeued_example =
    send_requeued 9 200 (refused true) busy 1 [] "w1" ("w2" ∷ []) (inr refl) busy-queue
      busy-schedulable

send_without_worker_example :
    (m' : Manager (List ℕ)) × (send_work 9 200 created stuck ≡ some m')
    × (m'.pending_tasks ≡ [])
    × (m'.task_db ≡ stuck.task_db)
    × (m'.sorted_tasks ≡ stuck.sorted_tasks)
    × (m'.heap ≡ stuck.heap)
send_without_worker_example =
    send_without_worker 9 200 created stuck 1 [] stuck-queue stuck-schedulable

-- Five task objects, of ID p + 10 and start time 10 p.
abbrev five : Heap
five = record { next = 6; cell = λ p. record zero_task { id = p + 10; start_time = 10 * p } }

insert_sorted-IsOrdered_example : IsOrdered five (insert_sorted five (1 ∷ 4 ∷ 5 ∷ []) 3)
insert_sorted-IsOrdered_example =
    insert_sorted-IsOrdered five (1 ∷ 4 ∷ 5 ∷ []) 3
      ((omega arith, (omega arith, tt)), ((omega arith, tt), (tt, tt)))

insert_sorted-perm_example : Perm (insert_sorted five (4 ∷ 1 ∷ 5 ∷ []) 3) (3 ∷ 4 ∷ 1 ∷ 5 ∷ [])
insert_sorted-perm_example = insert_sorted-perm five (4 ∷ 1 ∷ 5 ∷ []) 3

-- A task of ID 7 that is completed and started at time 100.
abbrev done : Manager (List ℕ)
done = record fresh {
  heap = record {
    next = 2;
    cell = λ p. record zero_task { id = 7; state = completed; start_time = 100 };
  };
  task_db = GoMap.insert 7 1 GoMap.empty;
}

done_visited :
    (k : Uuid) (p : Ptr) → GoMap.lookup k done.task_db ≡ some p → contains k (7 ∷ []) ≡ true
done_visited k p h =
    ground (arith, GoMap.lookup-insert {V = Ptr} 7 k 1 GoMap.empty, GoMap.lookup-empty {V = Ptr} k)

clean_up_tasks_lem_example :
    (GoMap.lookup 7 (clean_up_tasks (7 ∷ []) 90000000000000 done).task_db ≡ (
      if is_expired
        (90000000000000 - task_retention_hours * hour)
        done.heap
        (GoMap.lookup 7 done.task_db)
      then none
      else GoMap.lookup 7 done.task_db))
    × ((clean_up_tasks (7 ∷ []) 90000000000000 done).sorted_tasks ≡ done.sorted_tasks)
clean_up_tasks_lem_example = clean_up_tasks_lem (7 ∷ []) 90000000000000 done 7 done_visited

failed_checks_lem_example :
    let m' = failed_checks 6 "w1" (health_check_worker "w1" true fresh) in
    (failures_of "w1" m' ≡ pos 6) × (state_of "w1" m' ≡ unhealthy) × (health_of "w1" m' ≡ false)
failed_checks_lem_example = failed_checks_lem 6 "w1" fresh (omega arith)

w1_differs : ◌≢◌ {A = String} "w1" "w2"
w1_differs e = let absurd_test : false ≡ true = ap (λ s. s == "w2") e in ground arith
