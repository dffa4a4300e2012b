-- ===== src/Manager/Cleanup.antt =====
-- internal/manager/manager.go: CleanUpTasks, which a goroutine runs once an hour.
pub mod Laws
use minkube.Base.{
  ℕ, ◌-◌, ◌*◌, String, List, [], ◌∷◌, none, some, ◌==◌, nat_eq, string_eq, if◌then◌else◌, ltb, ◌&&◌,
  contains,
}
use minkube.Base.GoMap
use minkube.Base.GoMap.{GoMap}
use minkube.Manager.{Manager}
use minkube.Task.{Uuid, Time, is_completed}

-- time.Hour in nanoseconds.
abbrev pub hour : ℕ
hour = 3600000000000

abbrev pub task_retention_hours : ℕ
task_retention_hours = 24

-- The inner loop: `append(taskIDs[:i], taskIDs[i+1:]...)` at the first match, and `break`.
unfoldable pub remove_first : Uuid → List Uuid → List Uuid
remove_first id [] = []
remove_first id (x ∷ xs) = if x == id then xs else x ∷ remove_first id xs

-- The list stays as it is where the inner loop finds no match.
unfoldable pub forget_assignment :
    Uuid → String → GoMap String (List Uuid) → GoMap String (List Uuid)
unfolding remove_first
forget_assignment id worker m =
    let task_ids = GoMap.lookup_or worker [] m in
    if contains id task_ids then GoMap.insert worker (remove_first id task_ids) m else m

module _ {Q : Type 0} where
  -- What the loop does to a task that has to go.
  unfoldable pub forget_task : Uuid → Manager Q → Manager Q
  unfolding forget_assignment
  forget_task id m =
      let unassigned : Manager Q = elim (GoMap.lookup id m.task_worker_map) [
        | none ↦ m
        | some worker ↦ record m {
          workers_task_map = forget_assignment id worker m.workers_task_map;
          task_worker_map = GoMap.delete id m.task_worker_map;
        }
      ] in
      record unassigned {
        event_db = GoMap.delete id unassigned.event_db;
        task_db = GoMap.delete id unassigned.task_db;
      }

  -- A round of the loop at the key `id`; a key that is no longer in the map is not visited.
  unfoldable pub clean_up_task : Time → Uuid → Manager Q → Manager Q
  unfolding forget_task
  clean_up_task cutoff id m = elim (GoMap.lookup id m.task_db) [
    | none ↦ m
    | some t ↦
        if is_completed (m.heap.cell t).state && ltb (m.heap.cell t).start_time cutoff
        then forget_task id m
        else m
  ]

  unfoldable pub clean_up_loop : Time → List Uuid → Manager Q → Manager Q
  clean_up_loop cutoff [] m = m
  clean_up_loop cutoff (id ∷ ids) m = clean_up_loop cutoff ids (clean_up_task cutoff id m)

  -- `order` is the order in which the runtime visits the keys of the task table.
  unfoldable pub clean_up_tasks : List Uuid → Time → Manager Q → Manager Q
  unfolding clean_up_loop clean_up_task
  clean_up_tasks order now m = clean_up_loop (now - task_retention_hours * hour) order m
