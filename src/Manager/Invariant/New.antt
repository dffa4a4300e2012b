-- ===== src/Manager/Invariant/New.antt =====
-- internal/manager/manager.go: the invariant of `New` and of the health checks.
use minkube.Base.{
  ◌<◌, String, List, [], ◌∷◌, Bool, true, false, nat_eq, string_eq, ◌≡◌, refl, none, arith,
}
use minkube.Base.GoMap
use minkube.Base.GoMap.{lookup-empty}
use minkube.Base.Queue.{QueueOps}
use minkube.Heap.{Heap}
use minkube.Manager.{Manager, register_workers, new}
use minkube.Manager.Health.{
  health_check_worker, health_check_workers, mark_worker_up, mark_worker_down,
}
use minkube.Manager.Invariant.{Inv}
use minkube.Task.{Time, Uuid}

-- A manager without a task.
record IsFresh {Q : Type 0} ⦃queue : QueueOps Q⦄ (m : Manager Q) : Type 0 where
  heap_started : 0 < m.heap.next
  no_table : (id : Uuid) → GoMap.lookup id m.task_db ≡ none
  no_list : m.sorted_tasks ≡ []
  no_queue : queue.items m.pending_tasks ≡ []
  no_events : (id : Uuid) → GoMap.lookup id m.event_db ≡ none
  no_assignments : (id : Uuid) → GoMap.lookup id m.task_worker_map ≡ none

IsFresh-Inv : {Q : Type 0} ⦃queue : QueueOps Q⦄ (m : Manager Q) → IsFresh m → Inv m
IsFresh-Inv m h = record {
  heap_started = h.heap_started;
  table_keys = λ id p e. ground (arith, h.no_table id);
  table_allocated = λ id p e. ground (arith, h.no_table id);
  table_listed = λ id p e. ground (arith, h.no_table id);
  sorted_allocated = rw h.no_list tt;
  queue_allocated = rw h.no_queue tt;
  queue_listed = rw h.no_queue tt;
  events_known = λ id e. ground (arith, h.no_events id);
  assigned_known = λ id e. ground (arith, h.no_assignments id);
  assigned_mapped = λ id w e. ground (arith, h.no_assignments id);
}

register_workers-IsFresh :
    {Q : Type 0} ⦃queue : QueueOps Q⦄ (ws : List String) (m : Manager Q)
    → IsFresh m
    → IsFresh (register_workers ws m)
unfolding register_workers
register_workers-IsFresh [] m h = h
register_workers-IsFresh (w ∷ ws) m h = register_workers-IsFresh ws _ (record {
  heap_started = h.heap_started;
  no_table = h.no_table;
  no_list = h.no_list;
  no_queue = h.no_queue;
  no_events = h.no_events;
  no_assignments = h.no_assignments;
})

-- New makes a manager with the invariant, whatever workers it is given.
pub new-Inv :
    {Q : Type 0} ⦃queue : QueueOps Q⦄ (heap : Heap) (workers : List String) (now : Time)
    → 0 < heap.next
    → Inv (new {Q = Q} heap workers now)
unfolding new
new-Inv ⦃queue = queue⦄ heap workers now h = IsFresh-Inv _ (
    register_workers-IsFresh workers _ (record {
      heap_started = h;
      no_table = λ id. lookup-empty id;
      no_list = refl;
      no_queue = queue.new_lem;
      no_events = λ id. lookup-empty id;
      no_assignments = λ id. lookup-empty id;
    }))

pub health_check_worker-Inv :
    {Q : Type 0} ⦃queue : QueueOps Q⦄ (w : String) (reached : Bool) (m : Manager Q)
    → Inv m
    → Inv (health_check_worker w reached m)
unfolding health_check_worker mark_worker_up mark_worker_down
health_check_worker-Inv w true m i = record {
  heap_started = i.heap_started;
  table_keys = i.table_keys;
  table_allocated = i.table_allocated;
  table_listed = i.table_listed;
  sorted_allocated = i.sorted_allocated;
  queue_allocated = i.queue_allocated;
  queue_listed = i.queue_listed;
  events_known = i.events_known;
  assigned_known = i.assigned_known;
  assigned_mapped = i.assigned_mapped;
}
health_check_worker-Inv w false m i = record {
  heap_started = i.heap_started;
  table_keys = i.table_keys;
  table_allocated = i.table_allocated;
  table_listed = i.table_listed;
  sorted_allocated = i.sorted_allocated;
  queue_allocated = i.queue_allocated;
  queue_listed = i.queue_listed;
  events_known = i.events_known;
  assigned_known = i.assigned_known;
  assigned_mapped = i.assigned_mapped;
}

-- A round of HealthCheckWorkers keeps the invariant, in whatever order and with whatever answers.
pub health_check_workers-Inv :
    {Q : Type 0} ⦃queue : QueueOps Q⦄ (rs : List (String × Bool)) (m : Manager Q)
    → Inv m
    → Inv (health_check_workers rs m)
unfolding health_check_workers
health_check_workers-Inv [] m i = i
health_check_workers-Inv ((w, reached) ∷ rs) m i =
    health_check_workers-Inv rs _ (health_check_worker-Inv w reached m i)
