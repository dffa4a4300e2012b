-- ===== src/Manager/Invariant.antt =====
-- What every operation of internal/manager/manager.go keeps true of the manager's state.
pub mod Add
pub mod Send
pub mod Update
pub mod Cleanup
pub mod New
use minkube.Base.{
  ℕ, zero, suc, ◌+◌, ◌<◌, ◌≤◌, String, List, [], ◌∷◌, ◌++◌, Bool, true, false, nat_eq, string_eq,
  ◌==◌, ==_iff, if◌then◌else◌, arith, ◌≡◌, refl, contains, All, All-append, All-map, Option, none,
  some, ◌||◌, ◌∙◌, ◌⊎◌, inl, inr, Option-cases, set, ap, sym, subst, Bool-cases, map,
}
use minkube.Base.Int.{ℤ, pos, negsuc}
use minkube.Base.GoMap
use minkube.Base.GoMap.{lookup-insert, lookup-delete, lookup_or-insert}
use minkube.Base.Queue.{QueueOps}
use minkube.Heap.{Heap, Ptr, write, alloc}
pub use minkube.Heap.{IsAllocated}
use minkube.Manager.{Manager}
use minkube.Manager.Sorted.{add_task, find_task_in_sorted_list, insert_sorted}
use minkube.Manager.Sorted.Laws.{ids_of, contains-insert_sorted, find_from_lem, insert_sorted_lem}
use minkube.Task.{Task, TaskEvent, Uuid}

-- A task whose ID the sorted list has an entry for.
abbrev pub IsListed : Heap → List Ptr → Ptr → Type 0
IsListed h ps p = contains (h.cell p).id (ids_of h ps) ≡ true

module _ {Q : Type 0} ⦃queue : QueueOps Q⦄ where
  -- The task table maps an ID to an object with that ID, which the sorted list has an entry for;
  -- queued tasks have an entry too; events and assignments are of tasks in the table; and the worker
  -- that a task is assigned to has it in its list.
  pub record Inv (m : Manager Q) : Type 0 where
    pub heap_started : 0 < m.heap.next
    pub table_keys :
        (id : Uuid) (p : Ptr) → GoMap.lookup id m.task_db ≡ some p → (m.heap.cell p).id ≡ id
    pub table_allocated :
        (id : Uuid) (p : Ptr) → GoMap.lookup id m.task_db ≡ some p → IsAllocated m.heap p
    pub table_listed :
        (id : Uuid) (p : Ptr)
        → GoMap.lookup id m.task_db ≡ some p
        → contains id (ids_of m.heap m.sorted_tasks) ≡ true
    pub sorted_allocated : All (IsAllocated m.heap) m.sorted_tasks
    pub queue_allocated : All (IsAllocated m.heap) (queue.items m.pending_tasks)
    pub queue_listed : All (IsListed m.heap m.sorted_tasks) (queue.items m.pending_tasks)
    pub events_known :
        (id : Uuid) → GoMap.lookup id m.task_db ≡ none → GoMap.lookup id m.event_db ≡ none
    pub assigned_known :
        (id : Uuid) → GoMap.lookup id m.task_db ≡ none → GoMap.lookup id m.task_worker_map ≡ none
    pub assigned_mapped :
        (id : Uuid) (w : String)
        → GoMap.lookup id m.task_worker_map ≡ some w
        → contains id (GoMap.lookup_or w [] m.workers_task_map) ≡ true
