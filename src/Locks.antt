-- ===== src/Locks.antt =====
-- internal/manager/manager.go and internal/manager/http/handlers.go: how the manager's functions
-- take its sync.RWMutex, and the goroutines that compete for it. The data that they guard is left out
-- here: a function is the list of its locked sections.
pub mod Invariant
pub mod Progress
pub mod Finish
pub mod Deadlock
use minkube.Base.{
  ℕ, suc, ◌+◌, ◌-◌, String, List, [], ◌∷◌, ◌++◌, Bool, true, false, Option, none, some, ◌≡◌, length,
  string_eq, ◌==◌, if◌then◌else◌,
}
use minkube.Heap.{Ptr}
use minkube.Http.{Response, success, failure, panic}
use minkube.Manager.Select.{Result, ok, err, schedulable_workers}
use minkube.Manager.Send.{SendReply, marshal_error, request_error, send_error, refused, created}
use minkube.Manager.Update.{Reply, tasks}

-- How many read locks are held, and whether a call of Lock has shut out new readers: it does so
-- before it waits for the readers that are there, until Unlock.
pub record RwMutex : Type 0 where
  pub readers : ℕ
  pub pending : Bool

-- Code between taking the lock and giving it back: to write; to read, with a number of read locks
-- that are taken and given back one after another inside; or to read until a panic, which a
-- handler's server recovers from while the read lock stays taken.
pub data Section : Type 0 where
  write : Section
  read : (inner : ℕ) → Section
  abandon : Section

-- Where a goroutine stands: before the first of the sections to come, inside the call of Lock, in a
-- section, in an inner read of a section, or gone with its read lock.
pub data Goroutine : Type 0 where
  outside : (todo : List Section) → Goroutine
  waiting writing : (todo : List Section) → Goroutine
  reading rereading : (inner : ℕ) → (todo : List Section) → Goroutine
  gone : Goroutine

pub data Move (m : RwMutex) : Goroutine → RwMutex → Goroutine → Type 0 where
  r_lock :
      {k : ℕ} {todo : List Section}
      → m.pending ≡ false
      → Move m (outside (read k ∷ todo)) (record m { readers = m.readers + 1 }) (reading k todo)
  r_lock_inner :
      {k : ℕ} {todo : List Section}
      → m.pending ≡ false
      → Move m (reading (suc k) todo) (record m { readers = m.readers + 1 }) (rereading k todo)
  r_unlock_inner :
      {k : ℕ} {todo : List Section}
      → Move m (rereading k todo) (record m { readers = m.readers - 1 }) (reading k todo)
  r_unlock :
      {todo : List Section}
      → Move m (reading 0 todo) (record m { readers = m.readers - 1 }) (outside todo)
  r_lock_abandoned :
      {todo : List Section}
      → m.pending ≡ false
      → Move m (outside (abandon ∷ todo)) (record m { readers = m.readers + 1 }) gone
  lock_called :
      {todo : List Section}
      → m.pending ≡ false
      → Move m (outside (write ∷ todo)) (record m { pending = true }) (waiting todo)
  lock_taken : {todo : List Section} → m.readers ≡ 0 → Move m (waiting todo) m (writing todo)
  unlock :
      {todo : List Section} → Move m (writing todo) (record m { pending = false }) (outside todo)

-- One move of one goroutine, or the start of another one that is `Allowed`.
pub data LockStep (Allowed : List Section → Type 0) (m : RwMutex)
    : List Goroutine → RwMutex → List Goroutine → Type 0 where
  here :
      {g g' : Goroutine} {m' : RwMutex} {gs : List Goroutine}
      → Move m g m' g'
      → LockStep Allowed m (g ∷ gs) m' (g' ∷ gs)
  there :
      {g : Goroutine} {m' : RwMutex} {gs gs' : List Goroutine}
      → LockStep Allowed m gs m' gs'
      → LockStep Allowed m (g ∷ gs) m' (g ∷ gs')
  start : {p : List Section} → Allowed p → LockStep Allowed m [] m (outside p ∷ [])

pub data LockSteps (Allowed : List Section → Type 0)
    : RwMutex → List Goroutine → RwMutex → List Goroutine → Type 0 where
  done : {m : RwMutex} {gs : List Goroutine} → LockSteps Allowed m gs m gs
  more :
      {m m1 m2 : RwMutex} {gs gs1 gs2 : List Goroutine}
      → LockStep Allowed m gs m1 gs1
      → LockSteps Allowed m1 gs1 m2 gs2
      → LockSteps Allowed m gs m2 gs2

-- The zero value of the mutex.
abbrev pub unlocked : RwMutex
unlocked = record { readers = 0; pending = false }

-- AddTask, CleanUpTasks, MarkWorkerUp and MarkWorkerDown.
abbrev pub add_task_sections : List Section
add_task_sections = write ∷ []

abbrev pub clean_up_sections : List Section
clean_up_sections = write ∷ []

abbrev pub health_check_sections : List Section
health_check_sections = write ∷ []

-- GetTask, GetTasks, IsWorkerHealthy and IsWorkerReady.
abbrev pub get_task_sections : List Section
get_task_sections = read 0 ∷ []

-- The part of updateTasks before its goroutines, and the goroutine of a worker.
abbrev pub update_tasks_sections : List Section
update_tasks_sections = read 0 ∷ []

unfoldable pub update_worker_sections : Reply → List Section
update_worker_sections (tasks ts) = write ∷ []
update_worker_sections _ = []

-- GetHealthyWorkers and GetReadyWorkers ask IsWorkerHealthy or IsWorkerReady for every configured
-- worker under their own read lock.
abbrev pub workers_section : List String → Section
workers_section workers = read (length workers)

-- The end of SelectWorker, with the schedulable workers.
abbrev choose_sections : Result (List String) → List Section
choose_sections (ok (w ∷ ws)) = write ∷ []
choose_sections _ = []

-- SelectWorker, with the configured workers and what the two lists came to.
unfoldable pub select_worker_sections :
    List String → Result (List String) → Result (List String) → List Section
select_worker_sections [] healthy ready = []
select_worker_sections (w ∷ ws) (err e) ready = workers_section (w ∷ ws) ∷ []
select_worker_sections (w ∷ ws) (ok healthy) ready =
    workers_section (w ∷ ws)
    ∷ workers_section (w ∷ ws)
    ∷ choose_sections (schedulable_workers (ok healthy) ready)

-- SendWork behind its request: AddTask puts the task back, or the task is recorded as sent.
unfoldable pub finish_send_sections : SendReply → List Section
finish_send_sections marshal_error = add_task_sections
finish_send_sections request_error = []
finish_send_sections send_error = add_task_sections
finish_send_sections (refused true) = add_task_sections
finish_send_sections (refused false) = []
finish_send_sections created = write ∷ []

abbrev pub offered_sections : List String → Result (List String) → SendReply → List Section
offered_sections (w ∷ ws) (ok (v ∷ vs)) reply = finish_send_sections reply
offered_sections _ _ reply = []

-- SendWork, with the task that was taken off the queue. The request is made where SelectWorker came
-- to its end.
unfoldable pub send_work_sections :
    Option Ptr
    → List String
    → Result (List String)
    → Result (List String)
    → SendReply
    → List Section
unfolding select_worker_sections
send_work_sections none workers healthy ready reply = write ∷ []
send_work_sections (some t) workers healthy ready reply =
    write ∷ select_worker_sections workers healthy ready
    ++ offered_sections workers (schedulable_workers healthy ready) reply

-- StartTaskHandler and StopTaskHandler, by what they answer.
unfoldable pub start_task_sections {ℓ} : {A : Type ℓ} → Response A → List Section
start_task_sections (success status a) = add_task_sections
start_task_sections (failure status) = []
start_task_sections panic = []

-- The ID is parsed under the lock and looked up, and a task that is found is queued.
abbrev pub stop_known_sections {ℓ} : {A : Type ℓ} → Response A → List Section
stop_known_sections (success status a) = write ∷ add_task_sections
stop_known_sections _ = write ∷ []

unfoldable pub stop_task_sections {ℓ} : {A : Type ℓ} → String → Response A → List Section
stop_task_sections task_id r = if task_id == "" then [] else stop_known_sections r

-- GetTasksHandler: the parameters are refused before the lock is taken, and the slice may panic.
unfoldable pub get_tasks_sections {ℓ} : {A : Type ℓ} → Response A → List Section
get_tasks_sections (success status a) = read 0 ∷ []
get_tasks_sections (failure status) = []
get_tasks_sections panic = abandon ∷ []
