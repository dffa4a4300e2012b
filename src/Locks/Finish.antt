-- ===== src/Locks/Finish.antt =====
-- Once no more goroutines are started, the manager's goroutines are done after a number of moves that
-- their sections fix.
use minkube.Base.{ℕ, suc, ◌+◌, ◌*◌, ◌≤◌, List, [], ◌∷◌, map, ◌≡◌, ◌⊎◌, arith, All}
use minkube.Locks.{
  RwMutex, Section, write, read, abandon, Goroutine, outside, waiting, writing, reading, rereading,
  gone, Move, r_lock, r_lock_inner, r_unlock_inner, r_unlock, r_lock_abandoned, lock_called,
  lock_taken, unlock, LockStep, here, there, start, LockSteps, done, more, unlocked,
}
use minkube.Locks.Invariant.{total}
use minkube.Locks.Progress.{OtherWork, SomeMoves, Finished, never_deadlocked}

-- The moves that a goroutine has left.
abbrev pub left_of : List Section → ℕ
left_of [] = 0
left_of (write ∷ todo) = 3 + left_of todo
left_of (read k ∷ todo) = 2 + 2 * k + left_of todo
left_of (abandon ∷ todo) = 1

abbrev pub left : Goroutine → ℕ
left (outside todo) = left_of todo
left (waiting todo) = 2 + left_of todo
left (writing todo) = 1 + left_of todo
left (reading k todo) = 1 + 2 * k + left_of todo
left (rereading k todo) = 2 + 2 * k + left_of todo
left gone = 0

abbrev pub NoneStarts : List Section → Type 0
NoneStarts p = ⊥

move_left : {m m' : RwMutex} {g g' : Goroutine} → Move m g m' g' → left g ≡ 1 + left g'
move_left (r_lock p) = omega arith
move_left (r_lock_inner p) = omega arith
move_left r_unlock_inner = omega arith
move_left r_unlock = omega arith
move_left (r_lock_abandoned p) = omega arith
move_left (lock_called p) = omega arith
move_left (lock_taken z) = omega arith
move_left unlock = omega arith

step_left :
    {m m' : RwMutex} {gs gs' : List Goroutine}
    → LockStep NoneStarts m gs m' gs'
    → total left gs ≡ 1 + total left gs'
step_left (here mv) = omega (arith, move_left mv)
step_left (there s) = omega (arith, step_left s)
step_left (start a) = absurd a

-- The number of moves of a run.
abbrev pub moves :
    {Allowed : List Section → Type 0} {m m' : RwMutex} {gs gs' : List Goroutine}
    → LockSteps Allowed m gs m' gs'
    → ℕ
moves done = 0
moves (more s r) = suc (moves r)

moves-left :
    {m m' : RwMutex} {gs gs' : List Goroutine} (r : LockSteps NoneStarts m gs m' gs')
    → moves r + total left gs' ≡ total left gs
moves-left done = omega arith
moves-left (more s r) = omega (arith, step_left s, moves-left r)

other_step :
    {m m' : RwMutex} {gs gs' : List Goroutine}
    → LockStep NoneStarts m gs m' gs'
    → LockStep OtherWork m gs m' gs'
other_step (here mv) = here mv
other_step (there s) = there (other_step s)
other_step (start a) = absurd a

steps_then_moves :
    {m m1 m2 : RwMutex} {gs gs1 gs2 : List Goroutine}
    → LockSteps OtherWork m gs m1 gs1
    → LockSteps NoneStarts m1 gs1 m2 gs2
    → LockSteps OtherWork m gs m2 gs2
steps_then_moves done done = done
steps_then_moves done (more s r) = more (other_step s) (steps_then_moves done r)
steps_then_moves (more s q) r = more s (steps_then_moves q r)

-- The manager's goroutines other than SendWork's finish, panics aside: from any state that they reach,
-- once no more of them are started, a run in whatever order has at most as many moves as their
-- sections have left, and it can go on until all have finished.
pub goroutines_finish :
    (ps : List (List Section)) (m m' : RwMutex) (gs gs' : List Goroutine)
    → All OtherWork ps
    → LockSteps OtherWork unlocked (map outside ps) m gs
    → (r : LockSteps NoneStarts m gs m' gs')
    → (moves r ≤ total left gs) × (SomeMoves m' gs' ⊎ All Finished gs')
goroutines_finish ps m m' gs gs' w q r =
    (omega (arith, moves-left r), never_deadlocked ps m' gs' w (steps_then_moves q r))
