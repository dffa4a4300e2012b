-- ===== src/Manager/Sorted/Laws.antt =====
-- The sorted list of internal/manager/manager.go: insertion keeps the order and the entries.
use minkube.Base.{
  ℕ, zero, suc, ◌+◌, ◌<◌, ◌≤◌, List, [], ◌∷◌, ◌++◌, true, false, nat_eq, ◌==◌, ◌||◌, arith, ◌≡◌,
  refl, length, get_or, take, drop, set, map, contains, set-copy_within, All, All-append,
  take-append-drop, subst, ◌⊎◌, inl, inr, Bool-cases,
}
use mathlib.Core.List.{Perm, perm_middle}
use minkube.Base.Int.{pos, negsuc}
use minkube.Base.Search.{search_index, search_index_lem, search_index-le}
use minkube.Heap.{Heap, Ptr}
use minkube.Manager.Sorted.{find_from, starts_after, insert_sorted}
use minkube.Task.{Uuid}

-- The start times do not fall along the list.
abbrev pub start_of : Heap → Ptr → ℕ
start_of h p = (h.cell p).start_time

abbrev pub IsOrdered : Heap → List Ptr → Type 0
IsOrdered h [] = Unit {0}
IsOrdered h (p ∷ ps) = All (λ q. start_of h p ≤ start_of h q) ps × IsOrdered h ps

abbrev pub insert_at : Heap → List Ptr → Ptr → ℕ
insert_at h tasks t = search_index (length tasks) (λ i. starts_after h (get_or tasks i 0) t)

All-get_or :
    (h : Heap) (x : ℕ) (ps : List Ptr) (i : ℕ)
    → All (λ q. x ≤ start_of h q) ps
    → i < length ps
    → x ≤ start_of h (get_or ps i 0)
All-get_or h x [] i a b = absurd (omega arith)
All-get_or h x (p ∷ ps) zero a b = a.0
All-get_or h x (p ∷ ps) (suc i) a b = All-get_or h x ps i a.1 (omega arith)

get_or_mono :
    (h : Heap) (ps : List Ptr) (i j : ℕ)
    → IsOrdered h ps
    → i ≤ j
    → j < length ps
    → start_of h (get_or ps i 0) ≤ start_of h (get_or ps j 0)
get_or_mono h [] i j o le b = absurd (omega arith)
get_or_mono h (p ∷ ps) zero zero o le b = omega arith
get_or_mono h (p ∷ ps) zero (suc j) o le b = All-get_or h _ ps j o.0 (omega arith)
get_or_mono h (p ∷ ps) (suc i) zero o le b = absurd (omega arith)
get_or_mono h (p ∷ ps) (suc i) (suc j) o le b = get_or_mono h ps i j o.1 (omega arith) (omega arith)

-- The search finds a place between the entries that start no later and those that start later.
insert_at_lem :
    (h : Heap) (ps : List Ptr) (t : Ptr)
    → IsOrdered h ps
    → (insert_at h ps t ≤ length ps)
      × ((a : ℕ) → a < insert_at h ps t → starts_after h (get_or ps a 0) t ≡ false)
      × ((a : ℕ) → insert_at h ps t ≤ a → a < length ps → starts_after h (get_or ps a 0) t ≡ true)
insert_at_lem h ps t o =
    search_index_lem (λ i. starts_after h (get_or ps i 0) t) (length ps)
      (λ a b le lt s. ground (arith, get_or_mono h ps a b o le lt))

-- Opening a gap with `append` and `copy` and writing to it is insertion, in a list of any order.
pub insert_sorted_lem :
    (h : Heap) (ps : List Ptr) (t : Ptr)
    → insert_sorted h ps t ≡ take (insert_at h ps t) ps ++ t ∷ drop (insert_at h ps t) ps
unfolding insert_sorted
insert_sorted_lem h ps t = set-copy_within ps 0 t (insert_at h ps t) (search_index-le _ (length ps))

-- InsertSorted adds the task to the list and neither loses nor doubles a task of it, whether the list
-- is ordered or not.
pub insert_sorted-perm : (h : Heap) (ps : List Ptr) (t : Ptr) → Perm (insert_sorted h ps t) (t ∷ ps)
insert_sorted-perm h ps t = rw (insert_sorted_lem h ps t) (
    subst (λ qs. Perm (take i ps ++ t ∷ drop i ps) (t ∷ qs)) (take-append-drop i ps)
      (perm_middle (take i ps) (drop i ps)))
  where
    i : ℕ
    i = insert_at h ps t

pub All-take : (P : Ptr → Type 0) (n : ℕ) (ps : List Ptr) → All P ps → All P (take n ps)
All-take P zero ps a = tt
All-take P (suc n) [] a = tt
All-take P (suc n) (p ∷ ps) a = (a.0, All-take _ n ps a.1)

pub All-drop : (P : Ptr → Type 0) (n : ℕ) (ps : List Ptr) → All P ps → All P (drop n ps)
All-drop P zero ps a = a
All-drop P (suc n) [] a = tt
All-drop P (suc n) (p ∷ ps) a = All-drop _ n ps a.1

-- The entries after a place that start later than x, from the facts about each index.
drop-All :
    (h : Heap) (x n : ℕ) (ps : List Ptr)
    → ((a : ℕ) → n ≤ a → a < length ps → x < start_of h (get_or ps a 0))
    → All (λ q. x ≤ start_of h q) (drop n ps)
drop-All h x zero [] f = tt
drop-All h x zero (p ∷ ps) f = (
  omega (arith, f 0 (omega arith) (omega arith)),
  drop-All h x zero ps (λ a u v. f (suc a) (omega arith) (omega arith)),
)
drop-All h x (suc n) [] f = tt
drop-All h x (suc n) (p ∷ ps) f = drop-All h x n ps (λ a u v. f (suc a) (omega arith) (omega arith))

-- An ordered list stays ordered when a task is put between the two parts.
IsOrdered-middle :
    (h : Heap) (t : Ptr) (n : ℕ) (ps : List Ptr)
    → IsOrdered h ps
    → n ≤ length ps
    → ((a : ℕ) → a < n → start_of h (get_or ps a 0) ≤ start_of h t)
    → ((a : ℕ) → n ≤ a → a < length ps → start_of h t < start_of h (get_or ps a 0))
    → IsOrdered h (take n ps ++ t ∷ drop n ps)
IsOrdered-middle h t zero ps o le before after = (drop-All h (start_of h t) 0 ps after, o)
IsOrdered-middle h t (suc n) [] o le before after = absurd (omega arith)
IsOrdered-middle h t (suc n) (p ∷ ps) o le before after = (
  All-append _ (take n ps) (t ∷ drop n ps) (All-take _ n ps o.0)
      (before 0 (omega arith), All-drop _ n ps o.0),
  IsOrdered-middle h t n ps o.1 (omega arith) (λ a u. before (suc a) (omega arith))
      (λ a u v. after (suc a) (omega arith) (omega arith)),
)

-- Insertion into a list that is ordered by start time keeps it ordered.
pub insert_sorted-IsOrdered :
    (h : Heap) (ps : List Ptr) (t : Ptr) → IsOrdered h ps → IsOrdered h (insert_sorted h ps t)
insert_sorted-IsOrdered h ps t o =
    let (le, before, after) = insert_at_lem h ps t o in
    rw (insert_sorted_lem h ps t) (
      IsOrdered-middle h t (insert_at h ps t) ps o le (λ a u. ground (arith, before a u))
        (λ a u v. ground (arith, after a u v)))

abbrev pub ids_of : Heap → List Ptr → List Uuid
ids_of h = map λ p. (h.cell p).id

-- Reading the IDs of the list after an insertion.
pub contains-insert_sorted :
    (h : Heap) (ps : List Ptr) (t : Ptr) (id : Uuid)
    → contains id (ids_of h (insert_sorted h ps t))
      ≡ ((h.cell t).id == id || contains id (ids_of h ps))
contains-insert_sorted h ps t id = rw (insert_sorted_lem h ps t) (middle (insert_at h ps t) ps)
  where
    middle :
        (n : ℕ) (qs : List Ptr)
        → contains id (ids_of h (take n qs ++ t ∷ drop n qs))
          ≡ ((h.cell t).id == id || contains id (ids_of h qs))
    middle zero qs = refl
    middle (suc n) [] = refl
    middle (suc n) (q ∷ qs) = ground (arith, middle n qs)

-- The search by ID stops at an entry with that ID, and replacing the entry by another with the same
-- ID keeps the list of IDs; -1 says that there is no such entry.
pub find_from_lem :
    (h : Heap) (id : Uuid) (i : ℕ) (ps : List Ptr) (t : Ptr)
    → All (λ p. 0 < p) ps
    → (h.cell t).id ≡ id
    → ((n : ℕ) × (find_from h id i ps ≡ pos (i + n))
        × (ids_of h (set ps n t) ≡ ids_of h ps)
        × (contains id (ids_of h ps) ≡ true))
      ⊎ ((find_from h id i ps ≡ negsuc 0) × (contains id (ids_of h ps) ≡ false))
unfolding find_from
find_from_lem h id i [] t a e = inr (refl, refl)
find_from_lem h id i (p ∷ ps) t a e = elim (Bool-cases ((h.cell p).id == id)) [
  | inl hit ↦ inl (0, ground arith, ground arith, ground arith)
  | inr miss ↦ elim (find_from_lem h id (suc i) ps t a.1 e) [
    | inl (n, f, s, c) ↦ inl (suc n, ground arith, ground arith, ground arith)
    | inr (f, c) ↦ inr (ground arith, ground arith)
  ]
]
