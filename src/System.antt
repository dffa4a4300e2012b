-- ===== src/System.antt =====
-- cmd/manager/main.go: the goroutines of the manager's process on their shared state. ProcessTasks
-- calls SendWork, which lets go of the lock between its parts; the updates, health checks, cleanups
-- and requests of the other goroutines run in between.
pub mod Keeps
pub mod Sending
pub mod Safety
pub mod Sequential
use minkube.Base.{ℕ, String, List, [], ◌∷◌, ◌++◌, nat_eq, Bool, Option, none, some, ◌≡◌}
use minkube.Base.Queue.{QueueOps}
use minkube.Heap.{Ptr}
use minkube.Manager.{Manager}
use minkube.Manager.Cleanup.{clean_up_tasks}
use minkube.Manager.Health.{health_check_worker}
use minkube.Manager.Select.{
  Result, ok, err, workers_in_both, get_healthy_workers, get_ready_workers, choose,
}
use minkube.Manager.Send.{SendReply, take_pending, schedule_task, event_of, finish_send}
use minkube.Manager.Update.{Reply, update_worker}
use minkube.ManagerHttp.Handlers.{start_task_handler, mark_completed}
use minkube.Manager.Sorted.{add_task}
use minkube.Base.GoMap
use minkube.Task.{TaskEvent, State, Uuid, Time, StartTaskEventRequest}

-- Where SendWork stands, with the local variables that are live there. One goroutine runs it.
pub data Phase : Type 0 where
  idle : Phase
  taken : (t : Ptr) → Phase  -- before SelectWorker
  listed : (t : Ptr) → (healthy : List String) → Phase  -- before GetReadyWorkers
  choosing : (t : Ptr) → (schedulable : List String) → Phase  -- before the lock of SelectWorker
  selected : (t : Ptr) → (w : String) → Phase  -- before `t.State = task.Scheduled`
  marked : (t : Ptr) → (w : String) → Phase  -- before `State: t.State` of the event
  stated : (t : Ptr) → (w : String) → (s : State) → Phase  -- before `Task: *t` of the event
  requesting : (t : Ptr) → (w : String) → (te : TaskEvent) → Phase  -- before the reply

-- SendWork, and the tasks that requests to stop them have marked and not yet queued.
pub data Stage : Type 0 where
  stage : (send : Phase) → (stopping : List Ptr) → Stage

abbrev pub after_take : Option Ptr → Phase
after_take none = idle
after_take (some t) = taken t

-- GetHealthyWorkers is asked only if workers are configured.
abbrev pub after_healthy : Ptr → List String → Result (List String) → Phase
after_healthy t [] r = idle
after_healthy t (w ∷ ws) (err e) = idle
after_healthy t (w ∷ ws) (ok healthy) = listed t healthy

abbrev pub after_ready : Ptr → List String → Result (List String) → Phase
after_ready t healthy (err e) = idle
after_ready t healthy (ok ready) = choosing t (workers_in_both healthy ready)

abbrev pub after_select : Ptr → Result String → Phase
after_select t (err e) = idle
after_select t (ok w) = selected t w

module _ {Q : Type 0} ⦃queue : QueueOps Q⦄ where
  -- One part of one goroutine's work, between two moments in which it does not hold the lock. A
  -- panic has no step.
  pub data Step (m : Manager Q) : Stage → Manager Q → Stage → Type 0 where
    take :
        (ss : List Ptr)
        → Step m (stage idle ss) (take_pending m).0 (stage (after_take (take_pending m).1) ss)
    list_healthy :
        (ss : List Ptr) (t : Ptr)
        → Step m
            (stage (taken t) ss)
            m
            (stage (after_healthy t m.workers (get_healthy_workers m)) ss)
    list_ready :
        (ss : List Ptr) (t : Ptr) (healthy : List String)
        → Step m
            (stage (listed t healthy) ss)
            m
            (stage (after_ready t healthy (get_ready_workers m)) ss)
    choose_next :
        (ss : List Ptr) (t : Ptr) (schedulable : List String)
        → Step m
            (stage (choosing t schedulable) ss)
            (choose schedulable m).0
            (stage (after_select t (choose schedulable m).1) ss)
    -- SendWork does not hold the lock where it writes the state and where it reads it and the task
    -- for the event: each is a step of its own.
    schedule :
        (ss : List Ptr) (t : Ptr) (w : String)
        → Step m (stage (selected t w) ss) (schedule_task t m) (stage (marked t w) ss)
    read_state :
        (ss : List Ptr) (t : Ptr) (w : String)
        → Step m (stage (marked t w) ss) m (stage (stated t w (m.heap.cell t).state) ss)
    copy_task :
        (ss : List Ptr) (t : Ptr) (w : String) (s : State) (id : Uuid) (now : Time)
        → Step m
            (stage (stated t w s) ss)
            m
            (stage (requesting t w (event_of id s now (m.heap.cell t))) ss)
    finish :
        (ss : List Ptr) (t : Ptr) (w : String) (te : TaskEvent) (reply : SendReply) (m' : Manager Q)
        → finish_send t w te reply m ≡ some m'
        → Step m (stage (requesting t w te) ss) m' (stage idle ss)
    update : (q : Stage) (work : String) (reply : Reply) → Step m q (update_worker work reply m).0 q
    check : (q : Stage) (w : String) (reached : Bool) → Step m q (health_check_worker w reached m) q
    clean : (q : Stage) (order : List Uuid) (now : Time) → Step m q (clean_up_tasks order now m) q
    post :
        (q : Stage) (id : Uuid) (now : Time) (correlation_id : String)
        (body : Option StartTaskEventRequest)
        → Step m q (start_task_handler id now correlation_id body m).0 q
    -- StopTaskHandler up to its unlock, where it finds the task; otherwise it changes nothing.
    mark :
        (p : Phase) (ss : List Ptr) (id : Uuid) (t : Ptr)
        → GoMap.lookup id m.task_db ≡ some t
        → Step m (stage p ss) (mark_completed t m) (stage p (t ∷ ss))
    -- Its call of AddTask, which others may overtake.
    requeue :
        (p : Phase) (before after : List Ptr) (t : Ptr) (ss : List Ptr)
        → ss ≡ before ++ t ∷ after
        → Step m (stage p ss) (add_task t m) (stage p (before ++ after))

  -- Any number of steps, in any interleaving.
  pub data Steps : Manager Q → Stage → Manager Q → Stage → Type 0 where
    done : (m : Manager Q) (q : Stage) → Steps m q m q
    more :
        (m : Manager Q) (q : Stage) (m1 : Manager Q) (q1 : Stage) (m2 : Manager Q) (q2 : Stage)
        → Step m q m1 q1
        → Steps m1 q1 m2 q2
        → Steps m q m2 q2
