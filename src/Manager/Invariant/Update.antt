-- ===== src/Manager/Invariant/Update.antt =====
-- updateTasks keeps the manager's invariant.
use minkube.Base.{
  String, List, [], ◌∷◌, ◌++◌, true, nat_eq, string_eq, ◌==◌, ==_iff, if◌then◌else◌, arith, ◌≡◌,
  refl, contains, All, All-map, All-map₂, none, some, ◌||◌, ◌∙◌, inl, inr, Option-cases, ap, sym,
  subst, Bool-cases, contains-append,
}
use minkube.Base.GoMap
use minkube.Base.GoMap.{lookup-insert, lookup-delete, lookup_or-insert}
use minkube.Base.Queue.{QueueOps}
use minkube.Heap.{Heap, Ptr, write, alloc}
use minkube.Manager.{Manager}
use minkube.Manager.Invariant.{Inv, IsAllocated, IsListed}
use minkube.Manager.Invariant.Add.{All-insert_sorted}
use minkube.Manager.Invariant.Send.{heap-Inv}
use minkube.Manager.Sorted.{insert_sorted}
use minkube.Manager.Sorted.Laws.{ids_of, contains-insert_sorted}
use minkube.Task.{Task, Uuid, differs}
use minkube.Manager.Update.{
  Reply, request_error, send_error, bad_status, bad_body, tasks, refresh_task, adopt_task,
  update_task, update_loop, update_worker, update_tasks,
}

-- A new object at the next address leaves what is allocated as it was.
module _ (t : Task) (h : Heap) where
  pub alloc_old : (p : Ptr) → IsAllocated h p → (alloc t h).cell p ≡ h.cell p
  unfolding alloc write
  alloc_old p a = ground arith

  alloc_new : (alloc t h).cell h.next ≡ t
  unfolding alloc write
  alloc_new = ground arith

  pub alloc_alive : (p : Ptr) → IsAllocated h p → IsAllocated (alloc t h) p
  unfolding alloc write
  alloc_alive p a = omega arith

  pub alloc_ids : (ps : List Ptr) → All (IsAllocated h) ps → ids_of (alloc t h) ps ≡ ids_of h ps
  alloc_ids [] a = refl
  alloc_ids (p ∷ ps) a = cc (alloc_old p a.0, alloc_ids ps a.1)

module _ {Q : Type 0} ⦃queue : QueueOps Q⦄ where
  refresh_task-Inv : (p : Ptr) (t : Task) (m : Manager Q) → Inv m → Inv (refresh_task p t m)
  unfolding refresh_task write
  refresh_task-Inv p t m v = elim (Bool-cases (differs (m.heap.cell p).state t.state)) [
    | inl e ↦ rw e (heap-Inv m _ (λ q. unfold write in ground (arith, ==_iff p q)) refl v)
    | inr e ↦ rw e v
  ]

  -- Making a new object keeps the invariant.
  pub alloc-Inv : (t : Task) (m : Manager Q) → Inv m → Inv (record m { heap = alloc t m.heap })
  alloc-Inv t m v =
      let h : Heap = alloc t m.heap in
      let kept : ids_of h m.sorted_tasks ≡ ids_of m.heap m.sorted_tasks =
        alloc_ids t m.heap m.sorted_tasks v.sorted_allocated in
      record {
        heap_started = unfold alloc write in omega arith;
        table_keys = λ id p k.
            ap (λ x. x.id) (alloc_old t m.heap p (v.table_allocated id p k)) ∙ v.table_keys id p k;
        table_allocated = λ id p k. alloc_alive t m.heap p (v.table_allocated id p k);
        table_listed =
            λ id p k. subst (λ ids. contains id ids ≡ true) (sym kept) (v.table_listed id p k);
        sorted_allocated = All-map _ _ (alloc_alive t m.heap) m.sorted_tasks v.sorted_allocated;
        queue_allocated =
            All-map _ _ (alloc_alive t m.heap) (queue.items m.pending_tasks) v.queue_allocated;
        queue_listed =
            All-map₂ (IsAllocated m.heap) (IsListed m.heap m.sorted_tasks)
              (IsListed h m.sorted_tasks)
              (λ p a l.
                subst (λ x. contains x (ids_of h m.sorted_tasks) ≡ true)
                  (sym (ap (λ x. x.id) (alloc_old t m.heap p a)))
                  (subst (λ ids. contains (m.heap.cell p).id ids ≡ true) (sym kept) l))
              (queue.items m.pending_tasks) v.queue_allocated v.queue_listed;
        events_known = v.events_known;
        assigned_known = v.assigned_known;
        assigned_mapped = v.assigned_mapped;
      }

  adopt_mapped :
      (work : String) (id_t : Uuid) (id : Uuid) (u : String) (m : Manager Q)
      → Inv m
      → GoMap.lookup id (GoMap.insert id_t work m.task_worker_map) ≡ some u
      → contains id (
          GoMap.lookup_or u [] (
            if contains id_t (GoMap.lookup_or work [] m.workers_task_map)
            then m.workers_task_map
            else GoMap.insert work
                (GoMap.lookup_or work [] m.workers_task_map ++ id_t ∷ [])
                m.workers_task_map))
        ≡ true
  adopt_mapped work id_t id u m v h =
      let old : List Uuid = GoMap.lookup_or work [] m.workers_task_map in
      ground (
        arith,
        ==_iff work u,
        ==_iff id_t id,
        lookup-insert id_t id work m.task_worker_map,
        lookup_or-insert work u [] (old ++ id_t ∷ []) m.workers_task_map,
        contains-append id old (id_t ∷ []),
        v.assigned_mapped id u,
        v.assigned_mapped id work,
      )

  adopt_task-Inv :
      (work : String) (t : Task) (m : Manager Q)
      → GoMap.lookup t.id m.task_db ≡ none
      → Inv m
      → Inv (adopt_task work t m)
  unfolding adopt_task
  adopt_task-Inv work t m absent v =
      let h : Heap = alloc t m.heap in
      let p_new : Ptr = m.heap.next in
      let fresh : IsAllocated h p_new = unfold alloc write in (v.heap_started, omega arith) in
      let new_id : (h.cell p_new).id ≡ t.id = ap (λ x. x.id) (alloc_new t m.heap) in
      let kept : ids_of h m.sorted_tasks ≡ ids_of m.heap m.sorted_tasks =
        alloc_ids t m.heap m.sorted_tasks v.sorted_allocated in
      let listed : (id : Uuid)
          → contains id (ids_of h (insert_sorted h m.sorted_tasks p_new))
            ≡ (t.id == id || contains id (ids_of m.heap m.sorted_tasks)) =
        λ id.
          contains-insert_sorted h m.sorted_tasks p_new id
          ∙ ap (λ x. x == id || contains id (ids_of h m.sorted_tasks)) new_id
          ∙ ap (λ ids. t.id == id || contains id ids) kept in
      record {
        heap_started = unfold alloc write in omega arith;
        table_keys = λ id p k. ground (
          arith,
          ==_iff t.id id,
          lookup-insert t.id id p_new m.task_db,
          v.table_keys id p,
          v.table_allocated id p,
          alloc_old t m.heap p,
          new_id,
        );
        table_allocated = λ id p k. ground (
          arith,
          ==_iff t.id id,
          lookup-insert t.id id p_new m.task_db,
          v.table_allocated id p,
          alloc_alive t m.heap p,
          fresh,
        );
        table_listed = λ id p k.
            ground (arith, listed id, lookup-insert t.id id p_new m.task_db, v.table_listed id p);
        sorted_allocated =
            All-insert_sorted h _ p_new m.sorted_tasks
              (All-map _ _ (alloc_alive t m.heap) m.sorted_tasks v.sorted_allocated) fresh;
        queue_allocated =
            All-map _ _ (alloc_alive t m.heap) (queue.items m.pending_tasks) v.queue_allocated;
        queue_listed =
            All-map₂ (IsAllocated m.heap) (IsListed m.heap m.sorted_tasks)
              (IsListed h (insert_sorted h m.sorted_tasks p_new))
              (λ p a l.
                let same : (h.cell p).id ≡ (m.heap.cell p).id =
                  ap (λ x. x.id) (alloc_old t m.heap p a) in
                ground (arith, listed (h.cell p).id, same))
              (queue.items m.pending_tasks) v.queue_allocated v.queue_listed;
        events_known =
            λ id k. ground (arith, lookup-insert t.id id p_new m.task_db, v.events_known id);
        assigned_known = λ id k. ground (
          arith,
          lookup-insert t.id id p_new m.task_db,
          lookup-insert t.id id work m.task_worker_map,
          v.assigned_known id,
        );
        assigned_mapped = λ id u k. adopt_mapped work t.id id u m v k;
      }

  pub update_task-Inv :
      (work : String) (t : Task) (m : Manager Q) → Inv m → Inv (update_task work t m)
  unfolding update_task
  update_task-Inv work t m v = elim (Option-cases (GoMap.lookup t.id m.task_db)) [
    | inl e ↦ rw (e, update_task) (adopt_task-Inv work t m e v)
    | inr (p, e) ↦ rw (e, update_task) (refresh_task-Inv p t m v)
  ]

  pub update_loop-Inv :
      (work : String) (ts : List Task) (m : Manager Q) → Inv m → Inv (update_loop work ts m)
  unfolding update_loop
  update_loop-Inv work [] m v = v
  update_loop-Inv work (t ∷ ts) m v =
      update_loop-Inv work ts (update_task work t m) (update_task-Inv work t m v)

  pub update_worker-Inv :
      (work : String) (reply : Reply) (m : Manager Q) → Inv m → Inv (update_worker work reply m).0
  unfolding update_worker
  update_worker-Inv work request_error m v = v
  update_worker-Inv work send_error m v = v
  update_worker-Inv work bad_status m v = v
  update_worker-Inv work bad_body m v = v
  update_worker-Inv work (tasks ts) m v = update_loop-Inv work ts m v

-- updateTasks keeps the invariant, whatever the workers reply and in whatever order.
update_tasks-Inv :
    {Q : Type 0} ⦃queue : QueueOps Q⦄ (rs : List (String × Reply)) (m : Manager Q)
    → Inv m
    → Inv (update_tasks rs m).0
unfolding update_tasks
update_tasks-Inv [] m v = v
update_tasks-Inv ((work, reply) ∷ rs) m v =
    update_tasks-Inv rs (update_worker work reply m).0 (update_worker-Inv work reply m v)
