-- ===== src/Worker/Invariant.antt =====
-- internal/worker/service/worker.go: what the worker's operations keep true of its table and queue.
pub mod Monitoring
pub mod Rounds
use minkube.Base.{
  ℕ, ◌<◌, ◌≤◌, String, List, [], ◌∷◌, ◌++◌, true, false, Option, none, some, ◌≡◌, refl, arith, ◌∙◌,
  ap, sym, nat_eq, ◌==◌, ==_iff, All, All-map, All-append, Bool-cases, Option-cases, inl, inr,
}
use minkube.Base.GoMap
use minkube.Base.GoMap.{lookup-insert}
use minkube.Base.Queue.{QueueOps}
use minkube.Heap.{Heap, Ptr, write, alloc, IsAllocated}
use minkube.Task.{Task, Uuid}
use minkube.Worker.Service.{
  Worker, Mutex, Outcome, returns, deadlock, panics, fatal, and_then, locked, unlocked, set_mutex,
  lock, unlock, update_object, remember, enqueue_task,
}

-- A property of what an operation returns, if it does.
abbrev pub Returned : {A : Type 0} → (A → Type 0) → Outcome A → Type 0
Returned P (returns a) = P a
Returned P deadlock = Unit {0}
Returned P panics = Unit {0}
Returned P fatal = Unit {0}

pub and_then-Returned :
    {A B : Type 0} (P : B → Type 0) (m : Outcome A) (f : A → Outcome B)
    → Returned (λ a. Returned P (f a)) m
    → Returned P (and_then m f)
and_then-Returned P (returns a) f h = h
and_then-Returned P deadlock f h = tt
and_then-Returned P panics f h = tt
and_then-Returned P fatal f h = tt

Returned-all : {A : Type 0} (P : A → Type 0) (m : Outcome A) → ((a : A) → P a) → Returned P m
Returned-all P (returns a) h = h a
Returned-all P deadlock h = tt
Returned-all P panics h = tt
Returned-all P fatal h = tt

module _ {Q D : Type 0} ⦃queue : QueueOps Q⦄ where
  -- The table maps an ID to an object with that ID, and the queue holds objects that exist.
  pub record Inv (w : Worker Q D) : Type 0 where
    pub heap_started : 0 < w.heap.next
    pub table_keys :
        (id : Uuid) (p : Ptr) → GoMap.lookup id w.task_ids ≡ some p → (w.heap.cell p).id ≡ id
    pub table_allocated :
        (id : Uuid) (p : Ptr) → GoMap.lookup id w.task_ids ≡ some p → IsAllocated w.heap p
    pub queue_allocated : All (IsAllocated w.heap) (queue.items w.queue)

  -- The invariant, with at least n addresses handed out.
  abbrev pub Good : ℕ → Worker Q D → Type 0
  Good n w = Inv w × (n ≤ w.heap.next)

  module _ (n : ℕ) where
    pub set_mutex-Good : (w : Worker Q D) (mu : Mutex) → Good n w → Good n (record w { mu = mu })
    set_mutex-Good w mu (v, h) = (
      record {
        heap_started = v.heap_started;
        table_keys = v.table_keys;
        table_allocated = v.table_allocated;
        queue_allocated = v.queue_allocated;
      },
      h,
    )

    pub lock-Good : (w : Worker Q D) → Good n w → Returned (Good n) (lock w)
    unfolding lock
    lock-Good w g =
        and_then-Returned (Good n) (locked w.mu) (set_mutex w)
          (Returned-all _ (locked w.mu) (λ mu. set_mutex-Good w mu g))

    pub unlock-Good : (w : Worker Q D) → Good n w → Returned (Good n) (unlock w)
    unfolding unlock
    unlock-Good w g =
        and_then-Returned (Good n) (unlocked w.mu) (set_mutex w)
          (Returned-all _ (unlocked w.mu) (λ mu. set_mutex-Good w mu g))

    pub docker-Good : (w : Worker Q D) (s : D) → Good n w → Good n (record w { docker = s })
    docker-Good w s (v, h) = (
      record {
        heap_started = v.heap_started;
        table_keys = v.table_keys;
        table_allocated = v.table_allocated;
        queue_allocated = v.queue_allocated;
      },
      h,
    )

    pub queue-Good :
        (w : Worker Q D) (q : Q)
        → All (IsAllocated w.heap) (queue.items q)
        → Good n w
        → Good n (record w { queue = q })
    queue-Good w q a (v, h) = (
      record {
        heap_started = v.heap_started;
        table_keys = v.table_keys;
        table_allocated = v.table_allocated;
        queue_allocated = a;
      },
      h,
    )

    pub update_object-Good :
        (t : Ptr) (f : Task → Task) (w : Worker Q D)
        → ((x : Task) → (f x).id ≡ x.id)
        → Good n w
        → Good n (update_object t f w)
    unfolding update_object write
    update_object-Good t f w same (v, h) = (
      record {
        heap_started = v.heap_started;
        table_keys = λ id p k. ground (arith, ==_iff t p, same (w.heap.cell t), v.table_keys id p);
        table_allocated = v.table_allocated;
        queue_allocated = v.queue_allocated;
      },
      h,
    )

    pub remember-Good :
        (t : Ptr) (w : Worker Q D) → 0 < t → t < n → Good n w → Good n (remember t w)
    unfolding remember
    remember-Good t w a b (v, h) =
        let id_t : Uuid = (w.heap.cell t).id in
        (
          record {
            heap_started = v.heap_started;
            table_keys = λ id p k.
                ground
                  (arith, ==_iff id_t id, lookup-insert id_t id t w.task_ids, v.table_keys id p);
            table_allocated = λ id p k.
                ground (
                  arith,
                  ==_iff id_t id,
                  lookup-insert id_t id t w.task_ids,
                  v.table_allocated id p,
                );
            queue_allocated = v.queue_allocated;
          },
          h,
        )

    pub enqueue_task-Good :
        (t : Ptr) (w : Worker Q D) → IsAllocated w.heap t → Good n w → Good n (enqueue_task t w)
    unfolding enqueue_task
    enqueue_task-Good t w a g =
        queue-Good w (queue.enqueue t w.queue)
          (rw queue.enqueue_lem
            (All-append _ (queue.items w.queue) (t ∷ []) g.0.queue_allocated (a, tt)))
          g

    -- A new object.
    pub alloc-Good :
        (t : Task) (w : Worker Q D) → Good n w → Good n (record w { heap = alloc t w.heap })
    unfolding alloc write
    alloc-Good t w (v, h) = (
      record {
        heap_started = omega arith;
        table_keys = λ id p k.
            ground (arith, ==_iff w.heap.next p, v.table_keys id p k, v.table_allocated id p k);
        table_allocated = λ id p k. ground (arith, v.table_allocated id p k);
        queue_allocated =
            All-map (IsAllocated w.heap) _ (λ p a. ground arith) (queue.items w.queue)
              v.queue_allocated;
      },
      omega arith,
    )
