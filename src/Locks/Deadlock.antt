-- ===== src/Locks/Deadlock.antt =====
-- Where the manager's goroutines wait for ever: SelectWorker asks for a read lock that it has, and a
-- panic of GetTasksHandler leaves one taken.
use minkube.Base.{
  ℕ, suc, ◌<◌, String, List, [], ◌∷◌, ◌++◌, map, true, some, ◌≡◌, refl, sym, ap, subst, arith, All,
  All-append, length, drop,
}
use mathlib.Core.List.{append-nil, append_assoc, map-append}
use minkube.Heap.{Ptr}
use minkube.Http.{panic}
use minkube.Locks.{
  RwMutex, Section, write, read, abandon, Goroutine, outside, waiting, reading, gone, Move, r_lock,
  r_lock_inner, r_unlock_inner, r_unlock, r_lock_abandoned, lock_called, lock_taken, unlock,
  LockStep, here, there, start, LockSteps, done, more, unlocked, health_check_sections,
  select_worker_sections, send_work_sections, get_tasks_sections, offered_sections,
}
use minkube.Locks.Invariant.{held, writes, total, LockInv, steps-LockInv, start-LockInv}
use minkube.Manager.{Manager}
use minkube.Manager.Select.{Result, ok, err, schedulable_workers}
use minkube.Manager.Send.{SendReply}
use minkube.ManagerHttp.Paging.{get_tasks_handler}

-- Any goroutine may start.
abbrev pub Any : List Section → Type 0
Any p = Unit

-- While a writer waits for one reader, these do not move.
abbrev Still : Goroutine → Type 0
Still (outside todo) = Unit
Still (waiting todo) = Unit
Still (reading (suc k) todo) = Unit
Still _ = ⊥

-- One reader, and a call of Lock that waits for it.
abbrev pub crowded : RwMutex
crowded = record { readers = 1; pending = true }

move-Still : {m : RwMutex} {g g' : Goroutine} → Move crowded g m g' → Still g → ⊥
move-Still (r_lock p) h = ground arith
move-Still (r_lock_inner p) h = ground arith
move-Still r_unlock_inner h = h
move-Still r_unlock h = h
move-Still (r_lock_abandoned p) h = ground arith
move-Still (lock_called p) h = ground arith
move-Still (lock_taken z) h = omega (arith, z)
move-Still unlock h = h

-- Only new goroutines change the list.
abbrev StillThere : List Goroutine → RwMutex → List Goroutine → Type 0
StillThere gs m gs' = (m ≡ crowded) × (qs : List (List Section)) × (gs' ≡ gs ++ map outside qs)

step-Still :
    {m : RwMutex} (gs gs' : List Goroutine)
    → LockStep Any crowded gs m gs'
    → All Still gs
    → StillThere gs m gs'
step-Still (g ∷ gs) gs' (here mv) (h, hs) = absurd (move-Still mv h)
step-Still (g ∷ gs) _ (there {gs'} s) (h, hs) =
    let (e, qs, eqs) = step-Still gs gs' s hs in (e, qs, ap (◌∷◌ g) eqs)
step-Still [] gs' (start {p} a) h = (refl, p ∷ [], refl)

outside-Still : (qs : List (List Section)) → All Still (map outside qs)
outside-Still [] = tt
outside-Still (q ∷ qs) = (tt, outside-Still qs)

grown :
    (gs gs1 gs2 : List Goroutine) (qs qs2 : List (List Section))
    → gs1 ≡ gs ++ map outside qs
    → gs2 ≡ gs1 ++ map outside qs2
    → gs2 ≡ gs ++ map outside (qs ++ qs2)
grown gs gs1 gs2 qs qs2 e f =
    rw (f, e, map-append outside qs qs2) (append_assoc gs (map outside qs) (map outside qs2))

steps-Still :
    {m m' : RwMutex} (gs gs' : List Goroutine)
    → m ≡ crowded
    → LockSteps Any m gs m' gs'
    → All Still gs
    → StillThere gs m' gs'
steps-Still gs gs' e done h = (e, [], sym (append-nil gs))
steps-Still {m} {m'} gs gs' e (more {m1} {gs1} s r) h =
    let first : LockStep Any crowded gs m1 gs1 = subst (λ x. LockStep Any x gs m1 gs1) e s in
    let (e1, qs, eqs) = step-Still gs gs1 first h in
    let still1 : All Still gs1 =
      rw eqs (All-append Still gs (map outside qs) h (outside-Still qs)) in
    let (e2, qs2, eqs2) = steps-Still gs1 gs' e1 r still1 in
    (e2, qs ++ qs2, grown gs gs1 gs' qs qs2 eqs eqs2)

-- What SelectWorker does first where workers are configured.
select_worker_sections_head :
    (w : String) (ws : List String) (healthy ready : Result (List String))
    → (todo : List Section) × (select_worker_sections (w ∷ ws) healthy ready
        ≡ read (suc (length ws)) ∷ todo)
unfolding select_worker_sections
select_worker_sections_head w ws (err e) ready = (_, refl)
select_worker_sections_head w ws (ok healthy) ready = (_, refl)

-- SendWork with a task and a worker configured, and a health check, beside other goroutines.
abbrev pub before_check : List Section → List (List Section) → List Goroutine
before_check sends ps = outside sends ∷ outside health_check_sections ∷ map outside ps

-- SendWork in the list of the healthy workers, and the health check in Lock.
abbrev pub in_check : ℕ → List Section → List (List Section) → List Goroutine
in_check workers sends ps = reading workers (drop 2 sends) ∷ waiting [] ∷ map outside ps

-- SendWork with a task in the queue and a worker configured, and a health check beside any other
-- goroutines that have not begun: in some order of their moves SelectWorker holds the read lock in
-- GetHealthyWorkers and the health check calls Lock before IsWorkerHealthy asks for the read lock
-- again. In every state after that one the mutex and all these goroutines stand as they do there, and
-- no goroutine that is started later has moved.
pub select_worker_deadlocks :
    (t : Ptr) (w : String) (ws : List String) (healthy ready : Result (List String))
    (reply : SendReply) (ps : List (List Section)) (m : RwMutex) (gs : List Goroutine)
    → let sends = send_work_sections (some t) (w ∷ ws) healthy ready reply in
      let stuck = in_check (suc (length ws)) sends ps in
      LockSteps Any crowded stuck m gs
      → LockSteps Any unlocked (before_check sends ps) crowded stuck
        × (m ≡ crowded)
        × ((qs : List (List Section)) × (gs ≡ stuck ++ map outside qs))
unfolding send_work_sections
select_worker_deadlocks t w ws healthy ready reply ps m gs r =
    let (todo, e) = select_worker_sections_head w ws healthy ready in
    let rest = todo ++ offered_sections (w ∷ ws) (schedulable_workers healthy ready) reply in
    let run : LockSteps Any unlocked (before_check (write ∷ (read (suc (length ws)) ∷ rest)) ps)
        crowded (in_check (suc (length ws)) (write ∷ (read (suc (length ws)) ∷ rest)) ps) =
      more (here (lock_called refl)) (
        more (here (lock_taken refl)) (
          more (here unlock)
            (more (here (r_lock refl)) (more (there (here (lock_called refl))) done)))) in
    let (same, qs, f) = steps-Still _ gs refl r (tt, (tt, outside-Still ps)) in
    (rw e run, same, (qs, f))

-- A goroutine that has gone with its read lock stays.
gone_move : {m m' : RwMutex} {g' : Goroutine} → Move m gone m' g' → ⊥
gone_move mv = elim mv [ ]

gone_steps :
    {m m' : RwMutex} (gs gs' : List Goroutine)
    → LockSteps Any m (gone ∷ gs) m' gs'
    → (rest : List Goroutine) × (gs' ≡ gone ∷ rest)
gone_steps gs _ done = (gs, refl)
gone_steps gs gs' (more (here mv) r) = absurd (gone_move mv)
gone_steps gs gs' (more (there {gs' = gs1} s) r) = gone_steps gs1 gs' r

steps_then :
    {m m1 m2 : RwMutex} {gs gs1 gs2 : List Goroutine}
    → LockSteps Any m gs m1 gs1
    → LockSteps Any m1 gs1 m2 gs2
    → LockSteps Any m gs m2 gs2
steps_then done r = r
steps_then (more s q) r = more s (steps_then q r)

abandon_move : {m m' : RwMutex} {g : Goroutine} → Move m (outside (abandon ∷ [])) m' g → g ≡ gone
abandon_move (r_lock_abandoned p) = refl

-- With a read lock that is held, none writes.
held_excludes :
    {m : RwMutex} (gs : List Goroutine)
    → LockInv m gs
    → 0 < total held gs
    → (total writes gs ≡ 0) × (0 < m.readers)
held_excludes gs v h =
    let r = v.readers_held in let x = v.exclusive in (ground (arith, x, r), omega (arith, r))

module _ {Q : Type 0} where
  -- After a request for a page whose slice panics has taken the read lock, in whatever state it finds
  -- the goroutines, the lock is never free again: whatever runs or is started, no goroutine ever
  -- holds it to write.
  pub page_panic_blocks_writers :
      (page_str limit_str : String) (manager : Manager Q) (ps : List (List Section))
      (m m1 m' : RwMutex) (g : Goroutine) (gs gs' : List Goroutine)
      → get_tasks_handler page_str limit_str manager ≡ panic
      → LockSteps Any unlocked
          (map outside ps)
          m
          (outside (get_tasks_sections (get_tasks_handler page_str limit_str manager)) ∷ gs)
      → Move m (outside (get_tasks_sections (get_tasks_handler page_str limit_str manager))) m1 g
      → LockSteps Any m1 (g ∷ gs) m' gs'
      → (total writes gs' ≡ 0) × (0 < m'.readers)
  unfolding get_tasks_sections
  page_panic_blocks_writers page_str limit_str manager ps m m1 m' g gs gs' e r mv q =
      let request : List Section =
        get_tasks_sections (get_tasks_handler page_str limit_str manager) in
      let is_abandon : request ≡ abandon ∷ [] = rw e refl in
      let is_gone : g ≡ gone = abandon_move (subst (λ p. Move m (outside p) m1 g) is_abandon mv) in
      let later : LockSteps Any m1 (gone ∷ gs) m' gs' =
        subst (λ x. LockSteps Any m1 (x ∷ gs) m' gs') is_gone q in
      let (rest, e_rest) = gone_steps gs gs' later in
      let v : LockInv m' gs' = steps-LockInv (steps_then r (more (here mv) q)) (start-LockInv ps) in
      held_excludes gs' v (rw e_rest (omega arith))
