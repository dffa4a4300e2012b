-- ===== src/Manager/Cleanup/Laws.antt =====
-- CleanUpTasks of internal/manager/manager.go: which tasks go, and what is left of them.
use minkube.Base.{
  ◌-◌, ◌*◌, List, [], ◌∷◌, Bool, true, false, nat_eq, ◌==◌, ==_iff, ◌&&◌, ltb, if◌then◌else◌, arith,
  ◌≡◌, refl, contains, Option, none, some, ◌∙◌, ap, Option-cases, Bool-cases, inl, inr,
}
use minkube.Base.GoMap
use minkube.Base.GoMap.{lookup-delete}
use minkube.Heap.{Heap, Ptr}
use minkube.Manager.{Manager}
use minkube.Manager.Cleanup.{
  forget_task, clean_up_task, clean_up_loop, clean_up_tasks, hour, task_retention_hours,
}
use minkube.Task.{Uuid, Time, is_completed}

-- A table entry that has to go: completed, and started before the cutoff.
abbrev pub is_expired : Time → Heap → Option Ptr → Bool
is_expired cutoff h none = false
is_expired cutoff h (some t) = is_completed (h.cell t).state && ltb (h.cell t).start_time cutoff

module _ {Q : Type 0} where
  forget_task_lem :
      (id : Uuid) (m : Manager Q)
      → ((forget_task id m).heap ≡ m.heap)
        × ((forget_task id m).sorted_tasks ≡ m.sorted_tasks)
        × ((forget_task id m).task_db ≡ GoMap.delete id m.task_db)
        × ((forget_task id m).event_db ≡ GoMap.delete id m.event_db)
  unfolding forget_task
  forget_task_lem id m = elim (Option-cases (GoMap.lookup id m.task_worker_map)) [
    | inl e ↦ rw (e, forget_task) (refl, refl, refl, refl)
    | inr (w, e) ↦ rw (e, forget_task) (refl, refl, refl, refl)
  ]

  clean_up_task_lem :
      (cutoff : Time) (id j : Uuid) (m : Manager Q)
      → ((clean_up_task cutoff id m).heap ≡ m.heap)
        × ((clean_up_task cutoff id m).sorted_tasks ≡ m.sorted_tasks)
        × (GoMap.lookup j (clean_up_task cutoff id m).task_db ≡ (
            if id == j && is_expired cutoff m.heap (GoMap.lookup j m.task_db)
            then none
            else GoMap.lookup j m.task_db))
  unfolding clean_up_task
  clean_up_task_lem cutoff id j m = elim (Option-cases (GoMap.lookup id m.task_db)) [
    | inl e ↦ rw (e, clean_up_task) (refl, refl, ground (arith, ==_iff id j))
    | inr (t, e) ↦
        elim (Bool-cases
          (is_completed (m.heap.cell t).state && ltb (m.heap.cell t).start_time cutoff)) [
            | inl go ↦
                let (a, b, c, d) = forget_task_lem id m in
                rw (e, clean_up_task)
                  (rw go (
                    a,
                    b,
                    ap (GoMap.lookup j) c
                        ∙ lookup-delete id j m.task_db
                        ∙ ground (arith, ==_iff id j),
                  ))
            | inr stay ↦ rw (e, clean_up_task) (rw stay (refl, refl, ground (arith, ==_iff id j)))
          ]
  ]

  clean_up_loop_lem :
      (cutoff : Time) (order : List Uuid) (j : Uuid) (m : Manager Q)
      → ((clean_up_loop cutoff order m).sorted_tasks ≡ m.sorted_tasks)
        × (GoMap.lookup j (clean_up_loop cutoff order m).task_db ≡ (
            if contains j order && is_expired cutoff m.heap (GoMap.lookup j m.task_db)
            then none
            else GoMap.lookup j m.task_db))
  unfolding clean_up_loop
  clean_up_loop_lem cutoff [] j m = (refl, refl)
  clean_up_loop_lem cutoff (id ∷ ids) j m =
      let (h, s, k) = clean_up_task_lem cutoff id j m in
      let (s', k') = clean_up_loop_lem cutoff ids j (clean_up_task cutoff id m) in
      (s' ∙ s, k' ∙ rw (h, k) (ground arith))

-- In whatever order the loop visits the table, if it visits every key: a task leaves the table
-- exactly if it is completed and started more than 24 hours ago, and the other entries stay. The
-- sorted list keeps its entries, also those of the tasks that go.
pub clean_up_tasks_lem :
    {Q : Type 0} (order : List Uuid) (now : Time) (m : Manager Q) (j : Uuid)
    → ((k : Uuid) (p : Ptr) → GoMap.lookup k m.task_db ≡ some p → contains k order ≡ true)
    → (GoMap.lookup j (clean_up_tasks order now m).task_db ≡ (
        if is_expired (now - task_retention_hours * hour) m.heap (GoMap.lookup j m.task_db)
        then none
        else GoMap.lookup j m.task_db))
      × ((clean_up_tasks order now m).sorted_tasks ≡ m.sorted_tasks)
unfolding clean_up_tasks
clean_up_tasks_lem order now m j all =
    let (s, k) = clean_up_loop_lem (now - task_retention_hours * hour) order j m in
    elim (Option-cases (GoMap.lookup j m.task_db)) [
      | inl e ↦ (ground (arith, k), s)
      | inr (p, e) ↦ (ground (arith, k, all j p e), s)
    ]
