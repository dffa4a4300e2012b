-- ===== src/Manager/Sorted.antt =====
-- internal/manager/manager.go: the sorted list of tasks, and AddTask.
pub mod Laws
use minkube.Base.{
  ℕ, suc, ◌+◌, List, [], ◌∷◌, ◌++◌, Bool, ◌==◌, nat_eq, if◌then◌else◌, not, ◌&&◌, ltb, length,
  get_or, set, copy_within,
}
use minkube.Base.Int.{ℤ, pos, negsuc}
use minkube.Base.GoMap
use minkube.Base.Queue.{QueueOps}
use minkube.Base.Search.{search_index}
use minkube.Heap.{Heap, Ptr}
use minkube.Manager.{Manager}
use minkube.Task.{Uuid}

-- The loop of `findTaskInSortedList` from index i.
unfoldable pub find_from : Heap → Uuid → ℕ → List Ptr → ℤ
find_from h id i [] = negsuc 0
find_from h id i (p ∷ ps) =
    let rest = find_from h id (suc i) ps in
    if not (p == 0) && (h.cell p).id == id then pos i else rest

-- -1, which is `negsuc 0`, says that no entry has the ID.
unfoldable pub find_task_in_sorted_list : Heap → Uuid → List Ptr → ℤ
unfolding find_from
find_task_in_sorted_list h id tasks = find_from h id 0 tasks

-- `tasks[i].StartTime.After(newTask.StartTime)`
abbrev pub starts_after : Heap → Ptr → Ptr → Bool
starts_after h p new_task = ltb (h.cell new_task).start_time (h.cell p).start_time

unfoldable pub insert_sorted : Heap → List Ptr → Ptr → List Ptr
unfolding search_index copy_within
insert_sorted h tasks new_task =
    let index = search_index (length tasks) (λ i. starts_after h (get_or tasks i 0) new_task) in
    let grown = tasks ++ 0 ∷ [] in set (copy_within grown (index + 1) index) index new_task

-- What `AddTask` does to the sorted list at the index found: replace the entry, or insert.
unfoldable pub place_sorted : Heap → List Ptr → Ptr → ℤ → List Ptr
unfolding insert_sorted
place_sorted h tasks t (pos existing_index) = set tasks existing_index t
place_sorted h tasks t (negsuc _) = insert_sorted h tasks t

unfoldable pub add_sorted : Heap → List Ptr → Ptr → List Ptr
unfolding find_task_in_sorted_list place_sorted
add_sorted h tasks t = place_sorted h tasks t (find_task_in_sorted_list h (h.cell t).id tasks)

module _ {Q : Type 0} ⦃queue : QueueOps Q⦄ where
  unfoldable pub add_task : Ptr → Manager Q → Manager Q
  unfolding add_sorted
  add_task t m = record m {
    pending_tasks = queue.enqueue t m.pending_tasks;
    task_db = GoMap.insert (m.heap.cell t).id t m.task_db;
    sorted_tasks = add_sorted m.heap m.sorted_tasks t;
  }
