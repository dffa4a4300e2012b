-- ===== src/Base/Queue.antt =====
-- `github.com/golang-collections/collections/queue`, a package outside the repository: the
-- operations that the program calls, and their documented first-in first-out behaviour in terms of
-- the items that a queue holds, oldest first. The program stores pointers only.
use mathlib.Core.Path.{◌≡◌, refl}
use mathlib.Core.Option.{Option, none, some}
use mathlib.Core.List.{List, [], ◌∷◌, ◌++◌}
use native.Mathlib.Omega.{arith}
use minkube.Base.Lists.{length}
use Prim.Native.Nat.{ℕ}

pub record QueueOps (Q : Type 0) : Type 0 where
  pub new : Q
  pub enqueue : ℕ → Q → Q
  pub dequeue : Q → Option ℕ × Q
  pub len : Q → ℕ
  pub items : Q → List ℕ
  pub new_lem : items new ≡ []
  pub enqueue_lem : (p : ℕ) (q : Q) → items (enqueue p q) ≡ items q ++ p ∷ []
  pub dequeue_nil : (q : Q) → items q ≡ [] → (dequeue q).0 ≡ none
  pub dequeue_cons :
      (q : Q) (p : ℕ) (ps : List ℕ)
      → items q ≡ p ∷ ps
      → ((dequeue q).0 ≡ some p) × (items (dequeue q).1 ≡ ps)
  pub len_lem : (q : Q) → len q ≡ length (items q)

-- A list with its head as the oldest item satisfies the laws.
abbrev pub dequeue_list : List ℕ → Option ℕ × List ℕ
dequeue_list [] = (none, [])
dequeue_list (p ∷ ps) = (some p, ps)

pub dequeue_list-nil : (q : List ℕ) → q ≡ [] → (dequeue_list q).0 ≡ none
dequeue_list-nil q h = ground arith

pub dequeue_list-cons :
    (q : List ℕ) (p : ℕ) (ps : List ℕ)
    → q ≡ p ∷ ps
    → ((dequeue_list q).0 ≡ some p) × ((dequeue_list q).1 ≡ ps)
dequeue_list-cons q p ps h = ground arith

abbrev pub list_queue : QueueOps (List ℕ)
list_queue = record {
  new = [];
  enqueue = λ p q. q ++ p ∷ [];
  dequeue = dequeue_list;
  len = length;
  items = λ q. q;
  new_lem = refl;
  enqueue_lem = λ p q. refl;
  dequeue_nil = dequeue_list-nil;
  dequeue_cons = dequeue_list-cons;
  len_lem = λ q. refl;
}
