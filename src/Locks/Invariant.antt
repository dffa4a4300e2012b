-- ===== src/Locks/Invariant.antt =====
-- What the moves of the goroutines keep of the mutex.
use minkube.Base.{
  ℕ, ◌+◌, ◌<◌, ◌≤◌, List, [], ◌∷◌, map, Bool, true, false, ◌≡◌, ◌⊎◌, inl, inr, refl, arith,
}
use minkube.Locks.{
  RwMutex, Section, Goroutine, outside, waiting, writing, reading, rereading, gone, Move, r_lock,
  r_lock_inner, r_unlock_inner, r_unlock, r_lock_abandoned, lock_called, lock_taken, unlock,
  LockStep, here, there, start, LockSteps, done, more, unlocked,
}

-- The read locks that a goroutine holds, whether it has shut out readers, and whether it writes.
abbrev pub held : Goroutine → ℕ
held (reading k todo) = 1
held (rereading k todo) = 2
held gone = 1
held _ = 0

abbrev pub announced : Goroutine → ℕ
announced (waiting todo) = 1
announced (writing todo) = 1
announced _ = 0

abbrev pub writes : Goroutine → ℕ
writes (writing todo) = 1
writes _ = 0

abbrev pub total : (Goroutine → ℕ) → List Goroutine → ℕ
total f [] = 0
total f (g ∷ gs) = f g + total f gs

abbrev bit : Bool → ℕ
bit true = 1
bit false = 0

-- The mutex counts the read locks, one goroutine at most has shut out readers, and while it writes
-- there is no reader.
pub record LockInv (m : RwMutex) (gs : List Goroutine) : Type 0 where
  pub readers_held : m.readers ≡ total held gs
  pub one_pending : total announced gs ≡ bit m.pending
  pub exclusive : 0 < total writes gs → m.readers ≡ 0

pub writes-le-announced : (gs : List Goroutine) → total writes gs ≤ total announced gs
writes-le-announced [] = omega arith
writes-le-announced (outside todo ∷ gs) = omega (arith, writes-le-announced gs)
writes-le-announced (waiting todo ∷ gs) = omega (arith, writes-le-announced gs)
writes-le-announced (writing todo ∷ gs) = omega (arith, writes-le-announced gs)
writes-le-announced (reading k todo ∷ gs) = omega (arith, writes-le-announced gs)
writes-le-announced (rereading k todo ∷ gs) = omega (arith, writes-le-announced gs)
writes-le-announced (gone ∷ gs) = omega (arith, writes-le-announced gs)

-- A move changes a sum by what its goroutine changes.
abbrev Moved : (Goroutine → ℕ) → Goroutine → Goroutine → List Goroutine → List Goroutine → Type 0
Moved f g g' gs gs' = (total f gs' + f g ≡ total f gs + f g') × (f g ≤ total f gs)

-- What a step changes: one goroutine moves, or one that holds nothing is new.
abbrev StepChange : RwMutex → List Goroutine → RwMutex → List Goroutine → Type 0
StepChange m gs m' gs' =
    ((g : Goroutine) × (g' : Goroutine) × Move m g m' g'
      × ((f : Goroutine → ℕ) → Moved f g g' gs gs'))
    ⊎ ((m' ≡ m)
        × (p : List Section) × ((f : Goroutine → ℕ) → total f gs' ≡ total f gs + f (outside p)))

module _ {Allowed : List Section → Type 0} where
  step_change :
      {m m' : RwMutex} {gs gs' : List Goroutine}
      → LockStep Allowed m gs m' gs'
      → StepChange m gs m' gs'
  step_change (here {g} {g'} mv) = inl (g, g', mv, λ f. (omega arith, omega arith))
  step_change (there {g = h} s) = elim (step_change s) [
    | inl (g, g', mv, c) ↦ inl (g, g', mv, λ f. (omega (arith, (c f).0), omega (arith, (c f).1)))
    | inr (e, p, c) ↦ inr (e, p, λ f. omega (arith, c f))
  ]
  step_change (start {p} a) = inr (refl, p, λ f. omega arith)

move-LockInv :
    {m m' : RwMutex} {g g' : Goroutine} (gs gs' : List Goroutine)
    → Move m g m' g'
    → ((f : Goroutine → ℕ) → Moved f g g' gs gs')
    → LockInv m gs
    → LockInv m' gs'
move-LockInv {m} {m'} {g} {g'} gs gs' mv c v = kept mv (c held) (c announced) (c writes)
  where
    open v use {readers_held, one_pending, exclusive}

    below : total writes gs ≤ total announced gs
    below = writes-le-announced gs

    kept :
        {m' : RwMutex} {g g' : Goroutine}
        → Move m g m' g'
        → Moved held g g' gs gs'
        → Moved announced g g' gs gs'
        → Moved writes g g' gs gs'
        → LockInv m' gs'
    kept (r_lock p) (h, _) (a, _) (w, _) = record {
      readers_held = omega (arith, readers_held);
      one_pending = ground (arith, below, one_pending, exclusive);
      exclusive = ground (arith, below, one_pending, exclusive);
    }
    kept (r_lock_inner p) (h, _) (a, _) (w, _) = record {
      readers_held = omega (arith, readers_held);
      one_pending = ground (arith, below, one_pending, exclusive);
      exclusive = ground (arith, below, one_pending, exclusive);
    }
    kept r_unlock_inner (h, _) (a, _) (w, _) = record {
      readers_held = omega (arith, readers_held);
      one_pending = ground (arith, below, one_pending, exclusive);
      exclusive = ground (arith, below, one_pending, exclusive);
    }
    kept r_unlock (h, _) (a, _) (w, _) = record {
      readers_held = omega (arith, readers_held);
      one_pending = ground (arith, below, one_pending, exclusive);
      exclusive = ground (arith, below, one_pending, exclusive);
    }
    kept (r_lock_abandoned p) (h, _) (a, _) (w, _) = record {
      readers_held = omega (arith, readers_held);
      one_pending = ground (arith, below, one_pending, exclusive);
      exclusive = ground (arith, below, one_pending, exclusive);
    }
    kept (lock_called p) (h, _) (a, _) (w, _) = record {
      readers_held = omega (arith, readers_held);
      one_pending = ground (arith, below, one_pending, exclusive);
      exclusive = ground (arith, below, one_pending, exclusive);
    }
    kept (lock_taken p) (h, _) (a, _) (w, _) = record {
      readers_held = omega (arith, readers_held);
      one_pending = ground (arith, below, one_pending, exclusive);
      exclusive = ground (arith, below, one_pending, exclusive);
    }
    kept unlock (h, _) (a, b) (w, _) = record {
      readers_held = omega (arith, readers_held);
      one_pending = ground (arith, below, one_pending, exclusive);
      exclusive = ground (arith, below, one_pending, exclusive);
    }

module _ {Allowed : List Section → Type 0} where
  step-LockInv :
      {m m' : RwMutex} {gs gs' : List Goroutine}
      → LockStep Allowed m gs m' gs'
      → LockInv m gs
      → LockInv m' gs'
  step-LockInv {gs} {gs'} s v = elim (step_change s) [
    | inl (g, g', mv, c) ↦ move-LockInv gs gs' mv c v
    | inr (e, p, c) ↦ rw e (record {
      readers_held = omega (arith, c held, v.readers_held);
      one_pending = omega (arith, c announced, v.one_pending);
      exclusive = ground (arith, c writes, v.exclusive);
    })
  ]

  pub steps-LockInv :
      {m m' : RwMutex} {gs gs' : List Goroutine}
      → LockSteps Allowed m gs m' gs'
      → LockInv m gs
      → LockInv m' gs'
  steps-LockInv done v = v
  steps-LockInv (more s r) v = steps-LockInv r (step-LockInv s v)

total_outside :
    (f : Goroutine → ℕ) (ps : List (List Section))
    → ((p : List Section) → f (outside p) ≡ 0)
    → total f (map outside ps) ≡ 0
total_outside f [] z = refl
total_outside f (p ∷ ps) z = omega (arith, z p, total_outside f ps z)

pub start-LockInv : (ps : List (List Section)) → LockInv unlocked (map outside ps)
start-LockInv ps = record {
  readers_held = omega (arith, total_outside held ps (λ p. refl));
  one_pending = total_outside announced ps (λ p. refl);
  exclusive = λ h. refl;
}
