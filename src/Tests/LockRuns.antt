-- ===== src/Tests/LockRuns.antt =====
-- Schedules of the manager's goroutines.
use minkube.Base.{
  ◌++◌, ◌<◌, ◌≤◌, String, List, [], ◌∷◌, map, true, false, some, ◌≡◌, ◌⊎◌, refl, All,
}
use minkube.Http.{panic}
use minkube.Locks.{
  RwMutex, Section, write, Goroutine, outside, waiting, writing, reading, gone, Move, r_lock,
  r_unlock, r_lock_abandoned, lock_called, lock_taken, LockSteps, here, there, start, done, more,
  unlocked, send_work_sections, health_check_sections, get_task_sections, get_tasks_sections,
}
use minkube.Locks.Deadlock.{
  Any, crowded, before_check, in_check, select_worker_deadlocks, page_panic_blocks_writers,
}
use minkube.Locks.Finish.{NoneStarts, moves, left, goroutines_finish}
use minkube.Locks.Progress.{OtherWork, get_task, clean_up, health_check, SomeMoves, Finished}
use minkube.Manager.Select.{ok}
use minkube.Manager.Send.{created}
use minkube.ManagerHttp.Paging.{get_tasks_handler}
use minkube.Tests.{busy}
use minkube.Base.Strconv.{atoi}
use minkube.Base.Int.{wrap, ◌*ℤ◌, ◌-ℤ◌}
use minkube.ManagerHttp.Handlers.{start_task_handler}
use minkube.ManagerHttp.Paging.{start_of_page}
use minkube.Manager.{new}
use minkube.Manager.Health.{health_check_workers}
use minkube.Http.{slice}
use minkube.Locks.Invariant.{total, writes}

abbrev pending_only : RwMutex
pending_only = record { readers = 0; pending = true }

-- A request reads, a check waits in Lock, and a cleanup has come in.
abbrev one_reads : List Goroutine
one_reads = reading 0 [] ∷ waiting [] ∷ outside (write ∷ []) ∷ []

abbrev read_and_pending : RwMutex
read_and_pending = record { readers = 1; pending = true }

request_reads :
    LockSteps OtherWork unlocked
      (map outside (get_task_sections ∷ health_check_sections ∷ []))
      read_and_pending
      one_reads
request_reads =
    more (here (r_lock refl))
      (more (there (here (lock_called refl))) (more (there (there (start clean_up))) done))

-- The request gives the read lock back, and the check takes the lock.
abbrev check_has_lock : List Goroutine
check_has_lock = outside [] ∷ writing [] ∷ outside (write ∷ []) ∷ []

goes_on : LockSteps NoneStarts read_and_pending one_reads pending_only check_has_lock
goes_on = more (here r_unlock) (more (there (here (lock_taken refl))) done)

goroutines_finish_example :
    (moves goes_on ≤ total left one_reads)
    × (SomeMoves pending_only check_has_lock ⊎ All Finished check_has_lock)
goroutines_finish_example =
    goroutines_finish (get_task_sections ∷ health_check_sections ∷ []) read_and_pending pending_only
      one_reads check_has_lock (get_task, (health_check, tt)) request_reads goes_on

-- Two workers, both healthy and ready, and a cleanup beside the check.
abbrev both_workers : List String
both_workers = "w1" ∷ "w2" ∷ []

abbrev sends_one : List Section
sends_one = send_work_sections (some 1) both_workers (ok both_workers) (ok both_workers) created

-- Both stand where they wait for each other, and a request for a task comes in.
abbrev both_stuck : List Goroutine
both_stuck = in_check 2 sends_one ((write ∷ []) ∷ [])

abbrev with_request : List Goroutine
with_request = both_stuck ++ outside get_task_sections ∷ []

request_comes : LockSteps Any crowded both_stuck crowded with_request
request_comes = more (there (there (there (start tt)))) done

select_worker_deadlocks_example :
    LockSteps Any unlocked (before_check sends_one ((write ∷ []) ∷ [])) crowded both_stuck
    × (crowded ≡ crowded)
    × ((qs : List (List Section)) × (with_request ≡ both_stuck ++ map outside qs))
select_worker_deadlocks_example =
    select_worker_deadlocks 1 "w1" ("w2" ∷ []) (ok both_workers) (ok both_workers) created
      ((write ∷ []) ∷ []) crowded with_request request_comes

-- The start of this page is - 2 ^ 63.
abbrev huge_page : String
huge_page = "4611686018427387905"

huge_page_panics : get_tasks_handler huge_page "2" busy ≡ panic
unfolding get_tasks_handler atoi start_task_handler wrap ◌*ℤ◌ health_check_workers new start_of_page
    ◌-ℤ◌ slice
huge_page_panics = refl

abbrev page_sections : List Section
page_sections = get_tasks_sections (get_tasks_handler huge_page "2" busy)

page_leaves : Move unlocked (outside page_sections) (record { readers = 1; pending = false }) gone
unfolding get_tasks_sections
page_leaves = rw huge_page_panics (r_lock_abandoned refl)

-- A cleanup that comes after the panic waits.
page_panic_blocks_writers_example :
    (total writes (gone ∷ waiting [] ∷ []) ≡ 0) × (0 < read_and_pending.readers)
page_panic_blocks_writers_example =
    page_panic_blocks_writers huge_page "2" busy (page_sections ∷ (write ∷ []) ∷ []) unlocked
      (record { readers = 1; pending = false }) read_and_pending gone (outside (write ∷ []) ∷ [])
      (gone ∷ waiting [] ∷ []) huge_page_panics done page_leaves
      (more (there (here (lock_called refl))) done)
