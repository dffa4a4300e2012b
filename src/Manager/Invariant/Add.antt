-- ===== src/Manager/Invariant/Add.antt =====
-- AddTask keeps the manager's invariant.
use minkube.Base.{
  ℕ, zero, suc, ◌+◌, List, [], ◌∷◌, true, false, nat_eq, string_eq, ◌==◌, ==_iff, arith, ◌≡◌, refl,
  contains, All, All-append, All-map, ◌||◌, ◌⊎◌, inl, inr, set, Bool-cases, take, drop,
}
use minkube.Base.Int.{ℤ, pos, negsuc}
use minkube.Base.GoMap.{lookup-insert}
use minkube.Base.Queue.{QueueOps}
use minkube.Heap.{Heap, Ptr}
use minkube.Manager.{Manager}
use minkube.Manager.Invariant.{Inv, IsAllocated}
use minkube.Manager.Sorted.{
  add_task, find_task_in_sorted_list, insert_sorted, add_sorted, place_sorted,
}
use minkube.Manager.Sorted.Laws.{
  ids_of, contains-insert_sorted, find_from_lem, insert_sorted_lem, All-take, All-drop, insert_at,
}
use minkube.Task.{Uuid}

module _ (h : Heap) where
  All-set :
      (P : Ptr → Type 0) (n : ℕ) (t : Ptr) (ps : List Ptr) → All P ps → P t → All P (set ps n t)
  All-set P n t [] a b = tt
  All-set P zero t (p ∷ ps) a b = (b, a.1)
  All-set P (suc n) t (p ∷ ps) a b = (a.0, All-set P n t ps a.1 b)

  pub All-insert_sorted :
      (P : Ptr → Type 0) (t : Ptr) (ps : List Ptr) → All P ps → P t → All P (insert_sorted h ps t)
  All-insert_sorted P t ps a b = rw (insert_sorted_lem h ps t) (
      All-append P (take (insert_at h ps t) ps) (t ∷ drop (insert_at h ps t) ps) (All-take P _ ps a)
        (b, All-drop P _ ps a))

  contains-place_sorted :
      (ps : List Ptr) (t : Ptr) (id : Uuid) (i : ℤ)
      → ((n : ℕ) × (i ≡ pos (0 + n))
          × (ids_of h (set ps n t) ≡ ids_of h ps)
          × (contains (h.cell t).id (ids_of h ps) ≡ true))
        ⊎ ((i ≡ negsuc 0) × (contains (h.cell t).id (ids_of h ps) ≡ false))
      → contains id (ids_of h (place_sorted h ps t i))
        ≡ ((h.cell t).id == id || contains id (ids_of h ps))
  unfolding place_sorted
  contains-place_sorted ps t id (pos i) (inl (n, f, s, c)) =
      let e : i ≡ n = ground arith in
      rw (e, s)
        (elim (Bool-cases ((h.cell t).id == id)) [
          | inl same ↦ rw (same, ← (==_iff _ id).0 same) c
          | inr other ↦ rw other refl
        ])
  contains-place_sorted ps t id (negsuc i) (inl (n, f, s, c)) = cc
  contains-place_sorted ps t id (pos i) (inr (f, c)) = cc
  contains-place_sorted ps t id (negsuc i) (inr (f, c)) = contains-insert_sorted h ps t id

  -- After the task is put into the sorted list, the list has its ID and every ID it had.
  pub contains-add_sorted :
      (ps : List Ptr) (t : Ptr) (id : Uuid)
      → All (IsAllocated h) ps
      → contains id (ids_of h (add_sorted h ps t))
        ≡ ((h.cell t).id == id || contains id (ids_of h ps))
  unfolding add_sorted
  contains-add_sorted ps t id a =
      contains-place_sorted ps t id (find_task_in_sorted_list h (h.cell t).id ps) (
        unfold find_task_in_sorted_list in
        find_from_lem h (h.cell t).id 0 ps t (All-map _ _ (λ p q. q.0) ps a) refl)

  All-place_sorted :
      (P : Ptr → Type 0) (ps : List Ptr) (t : Ptr) (i : ℤ)
      → All P ps
      → P t
      → All P (place_sorted h ps t i)
  unfolding place_sorted
  All-place_sorted P ps t (pos i) a b = All-set P i t ps a b
  All-place_sorted P ps t (negsuc i) a b = All-insert_sorted P t ps a b

  All-add_sorted :
      (P : Ptr → Type 0) (ps : List Ptr) (t : Ptr) → All P ps → P t → All P (add_sorted h ps t)
  unfolding add_sorted
  All-add_sorted P ps t a b = All-place_sorted P ps t _ a b

module _ {Q : Type 0} ⦃queue : QueueOps Q⦄ where
  -- AddTask of a task object that exists keeps the invariant.
  pub add_task-Inv : (t : Ptr) (m : Manager Q) → IsAllocated m.heap t → Inv m → Inv (add_task t m)
  unfolding add_task
  add_task-Inv t m a v =
      let id_t : Uuid = (m.heap.cell t).id in
      let listed : (id : Uuid)
          → contains id (ids_of m.heap (add_sorted m.heap m.sorted_tasks t))
            ≡ (id_t == id || contains id (ids_of m.heap m.sorted_tasks)) =
        λ id. contains-add_sorted m.heap m.sorted_tasks t id v.sorted_allocated in
      record {
        heap_started = v.heap_started;
        table_keys = λ id p h.
            ground (arith, ==_iff id_t id, lookup-insert id_t id t m.task_db, v.table_keys id p);
        table_allocated = λ id p h.
            ground
              (arith, ==_iff id_t id, lookup-insert id_t id t m.task_db, v.table_allocated id p);
        table_listed = λ id p h.
            ground (arith, listed id, lookup-insert id_t id t m.task_db, v.table_listed id p);
        sorted_allocated = All-add_sorted m.heap _ m.sorted_tasks t v.sorted_allocated a;
        queue_allocated =
            rw queue.enqueue_lem
              (All-append _ (queue.items m.pending_tasks) (t ∷ []) v.queue_allocated (a, tt));
        queue_listed = rw queue.enqueue_lem (
            All-append _ (queue.items m.pending_tasks) (t ∷ [])
              (All-map _ _ (λ p h. ground (arith, listed (m.heap.cell p).id))
                (queue.items m.pending_tasks) v.queue_listed)
              (ground (arith, listed id_t), tt));
        events_known = λ id h. ground (arith, lookup-insert id_t id t m.task_db, v.events_known id);
        assigned_known =
            λ id h. ground (arith, lookup-insert id_t id t m.task_db, v.assigned_known id);
        assigned_mapped = v.assigned_mapped;
      }
