-- ===== src/Heap.antt =====
-- The task objects that pointers of type *task.Task lead to.
use minkube.Base.{ℕ, suc, ◌<◌, if◌then◌else◌, ◌==◌, nat_eq}
use minkube.Task.{Task}

abbrev pub Ptr : Type 0
Ptr = ℕ

-- `next` is the next address to hand out; address 0 is nil and is never handed out.
pub record Heap : Type 0 where
  pub next : Ptr
  pub cell : Ptr → Task

-- `*p = t`
unfoldable pub write : Ptr → Task → Heap → Heap
write p t h = record h { cell = λ q. if p == q then t else h.cell q }

-- `&t` of a new variable: the address is `h.next`.
unfoldable pub alloc : Task → Heap → Heap
unfolding write
alloc t h = write h.next t (record h { next = suc h.next })

-- A pointer to a task object that exists.
abbrev pub IsAllocated : Heap → Ptr → Type 0
IsAllocated h p = (0 < p) × (p < h.next)
