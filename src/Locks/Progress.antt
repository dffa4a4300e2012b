-- ===== src/Locks/Progress.antt =====
-- The manager's goroutines never wait for one another for ever, SelectWorker's and panics aside.
use minkube.Base.{
  ℕ, zero, suc, ◌<◌, String, List, [], ◌∷◌, map, false, Bool-cases, ◌≡◌, ◌⊎◌, inl, inr, refl, arith,
  ltb, ltb→lt, All, string_eq, ◌==◌,
}
use minkube.Http.{Response, success, failure, panic}
use minkube.Locks.{
  RwMutex, Section, write, read, Goroutine, outside, waiting, writing, reading, Move, r_lock,
  r_lock_inner, r_unlock_inner, r_unlock, r_lock_abandoned, lock_called, lock_taken, unlock,
  LockStep, here, there, start, LockSteps, done, more, unlocked, add_task_sections,
  clean_up_sections, health_check_sections, get_task_sections, update_tasks_sections,
  update_worker_sections, start_task_sections, stop_task_sections, get_tasks_sections,
  stop_known_sections,
}
use minkube.Locks.Invariant.{held, announced, total, LockInv, steps-LockInv, start-LockInv}
use minkube.ManagerHttp.Paging.{PaginatedTaskResponse}
use minkube.Task.{TaskEvent, Uuid}
use minkube.Manager.Update.{Reply, tasks, request_error, send_error, bad_status, bad_body}

-- A section that takes the lock once and gives it back.
abbrev pub IsPlain : Section → Type 0
IsPlain write = Unit
IsPlain (read zero) = Unit
IsPlain _ = ⊥

abbrev pub PlainGoroutine : Goroutine → Type 0
PlainGoroutine (outside todo) = All IsPlain todo
PlainGoroutine (waiting todo) = All IsPlain todo
PlainGoroutine (writing todo) = All IsPlain todo
PlainGoroutine (reading zero todo) = All IsPlain todo
PlainGoroutine _ = ⊥

-- What the manager's goroutines do other than SendWork, and than a request whose handler panics.
pub data OtherWork : List Section → Type 0 where
  get_task : OtherWork get_task_sections
  add_task : OtherWork add_task_sections
  clean_up : OtherWork clean_up_sections
  health_check : OtherWork health_check_sections
  update_tasks : OtherWork update_tasks_sections
  update_worker : (reply : Reply) → OtherWork (update_worker_sections reply)
  start_task : (r : Response TaskEvent) → OtherWork (start_task_sections r)
  stop_task : (task_id : String) (r : Response Uuid) → OtherWork (stop_task_sections task_id r)
  get_tasks :
      (status : ℕ) (page : PaginatedTaskResponse)
      → OtherWork (get_tasks_sections (success status page))
  refuse_page :
      (status : ℕ) → OtherWork (get_tasks_sections {A = PaginatedTaskResponse} (failure status))

stop_known-IsPlain : {A : Type 0} (r : Response A) → All IsPlain (stop_known_sections r)
stop_known-IsPlain (success status a) = (tt, (tt, tt))
stop_known-IsPlain (failure status) = (tt, tt)
stop_known-IsPlain panic = (tt, tt)

other_work-IsPlain : {p : List Section} → OtherWork p → All IsPlain p
unfolding update_worker_sections start_task_sections stop_task_sections get_tasks_sections
other_work-IsPlain get_task = (tt, tt)
other_work-IsPlain add_task = (tt, tt)
other_work-IsPlain clean_up = (tt, tt)
other_work-IsPlain health_check = (tt, tt)
other_work-IsPlain update_tasks = (tt, tt)
other_work-IsPlain (update_worker (tasks ts)) = (tt, tt)
other_work-IsPlain (update_worker request_error) = tt
other_work-IsPlain (update_worker send_error) = tt
other_work-IsPlain (update_worker bad_status) = tt
other_work-IsPlain (update_worker bad_body) = tt
other_work-IsPlain (start_task (success status a)) = (tt, tt)
other_work-IsPlain (start_task (failure status)) = tt
other_work-IsPlain (start_task panic) = tt
other_work-IsPlain (stop_task task_id r) = elim (Bool-cases (task_id == "")) [
  | inl e ↦ rw e tt
  | inr e ↦ rw e (stop_known-IsPlain r)
]
other_work-IsPlain (get_tasks status page) = (tt, tt)
other_work-IsPlain (refuse_page status) = tt

move-PlainGoroutine :
    {m m' : RwMutex} {g g' : Goroutine} → Move m g m' g' → PlainGoroutine g → PlainGoroutine g'
move-PlainGoroutine (r_lock {k = zero} p) h = h.1
move-PlainGoroutine (r_lock {k = suc k} p) h = absurd h.0
move-PlainGoroutine (r_lock_inner p) h = absurd h
move-PlainGoroutine r_unlock_inner h = absurd h
move-PlainGoroutine r_unlock h = h
move-PlainGoroutine (r_lock_abandoned p) h = absurd h.0
move-PlainGoroutine (lock_called p) h = h.1
move-PlainGoroutine (lock_taken p) h = h
move-PlainGoroutine unlock h = h

step-PlainGoroutine :
    {m m' : RwMutex} {gs gs' : List Goroutine}
    → LockStep OtherWork m gs m' gs'
    → All PlainGoroutine gs
    → All PlainGoroutine gs'
step-PlainGoroutine (here mv) (h, hs) = (move-PlainGoroutine mv h, hs)
step-PlainGoroutine (there s) (h, hs) = (h, step-PlainGoroutine s hs)
step-PlainGoroutine (start w) h = (other_work-IsPlain w, tt)

steps-PlainGoroutine :
    {m m' : RwMutex} {gs gs' : List Goroutine}
    → LockSteps OtherWork m gs m' gs'
    → All PlainGoroutine gs
    → All PlainGoroutine gs'
steps-PlainGoroutine done h = h
steps-PlainGoroutine (more s r) h = steps-PlainGoroutine r (step-PlainGoroutine s h)

abbrev pub Moves : RwMutex → Goroutine → Type 0
Moves m g = (m' : RwMutex) × (g' : Goroutine) × Move m g m' g'

-- A goroutine of the list that moves.
abbrev pub SomeMoves : RwMutex → List Goroutine → Type 0
SomeMoves m [] = ⊥
SomeMoves m (g ∷ gs) = Moves m g ⊎ SomeMoves m gs

-- The goroutines that a sum counts: one of them moves if all that are counted do.
counted-Moves :
    (m : RwMutex) (f : Goroutine → ℕ) (gs : List Goroutine)
    → ((g : Goroutine) → PlainGoroutine g → 0 < f g → Moves m g)
    → All PlainGoroutine gs
    → SomeMoves m gs ⊎ (total f gs ≡ 0)
counted-Moves m f [] moves h = inr refl
counted-Moves m f (g ∷ gs) moves (h, hs) = elim (Bool-cases (ltb 0 (f g))) [
  | inl s ↦ inl (inl (moves g h (ltb→lt 0 (f g) s)))
  | inr z ↦ elim (counted-Moves m f gs moves hs) [
    | inl s ↦ inl (inr s)
    | inr zs ↦ inr (ground (arith, zs))
  ]
]

held-Moves : (m : RwMutex) (g : Goroutine) → PlainGoroutine g → 0 < held g → Moves m g
held-Moves m (reading zero todo) h c = (_, _, r_unlock)
held-Moves m g h c = absurd (ground arith)

announced-Moves :
    (m : RwMutex) → m.readers ≡ 0 → (g : Goroutine) → PlainGoroutine g → 0 < announced g → Moves m g
announced-Moves m z (waiting todo) h c = (_, _, lock_taken z)
announced-Moves m z (writing todo) h c = (_, _, unlock)
announced-Moves m z g h c = absurd (ground arith)

abbrev todo_count : Goroutine → ℕ
todo_count (outside []) = 0
todo_count (outside (s ∷ todo)) = 1
todo_count _ = 0

outside-Moves :
    (m : RwMutex)
    → m.pending ≡ false
    → (g : Goroutine) → PlainGoroutine g
    → 0 < todo_count g
    → Moves m g
outside-Moves m p (outside (write ∷ todo)) h c = (_, _, lock_called p)
outside-Moves m p (outside (read zero ∷ todo)) h c = (_, _, r_lock p)
outside-Moves m p g h c = absurd (ground arith)

-- Has returned.
abbrev pub Finished : Goroutine → Type 0
Finished g = g ≡ outside []

finished :
    (gs : List Goroutine)
    → All PlainGoroutine gs
    → total held gs ≡ 0
    → total announced gs ≡ 0
    → total todo_count gs ≡ 0
    → All Finished gs
finished [] h a b c = tt
finished (outside [] ∷ gs) h a b c =
    (refl, finished gs h.1 (omega arith) (omega arith) (omega arith))
finished (g ∷ gs) h a b c = absurd (ground arith)

progress :
    (m : RwMutex) (gs : List Goroutine)
    → LockInv m gs
    → All PlainGoroutine gs
    → SomeMoves m gs ⊎ All Finished gs
progress m gs v h = elim (counted-Moves m held gs (held-Moves m) h) [
  | inl s ↦ inl s
  | inr r ↦
      elim (counted-Moves m announced gs (announced-Moves m (ground (arith, r, v.readers_held)))
        h) [
          | inl s ↦ inl s
          | inr a ↦
              elim (counted-Moves m todo_count gs
                (outside-Moves m (ground (arith, a, v.one_pending))) h) [
                  | inl s ↦ inl s
                  | inr t ↦ inr (finished gs h r a t)
                ]
        ]
]

other_works-PlainGoroutine :
    (ps : List (List Section)) → All OtherWork ps → All PlainGoroutine (map outside ps)
other_works-PlainGoroutine [] w = tt
other_works-PlainGoroutine (p ∷ ps) (w, ws) =
    (other_work-IsPlain w, other_works-PlainGoroutine ps ws)

-- As long as the manager's goroutines only update tasks, check workers, clean up and answer requests
-- whose handlers do not panic, they never deadlock: in every state that they reach, in whatever
-- order they move and however many requests come in, some goroutine can move unless all have
-- finished.
pub never_deadlocked :
    (ps : List (List Section)) (m : RwMutex) (gs : List Goroutine)
    → All OtherWork ps
    → LockSteps OtherWork unlocked (map outside ps) m gs
    → SomeMoves m gs ⊎ All Finished gs
never_deadlocked ps m gs w r =
    progress m gs (steps-LockInv r (start-LockInv ps))
      (steps-PlainGoroutine r (other_works-PlainGoroutine ps w))
