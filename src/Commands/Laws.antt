-- ===== src/Commands/Laws.antt =====
-- What the environment of the two commands comes to.
use Prim.Native.Char.{Char, code}
use Prim.Native.String.{String}
use minkube.Base.{
  ℕ, ◌+◌, ◌-◌, ◌*◌, ◌^◌, ◌<◌, ◌≤◌, List, [], ◌∷◌, false, Option, none, some, string_eq, nat_eq,
  ◌==◌, ==_iff, ◌≡◌, ◌≢◌, refl, ap, arith, Bool-cases, contains, All, ◌++◌, ◌∙◌, Option-cases, inl,
  inr, ◌⊎◌,
}
use minkube.Base.Int.{ℤ, pos, sub_ℕ, int_bound}
use minkube.Base.Strconv.{atoi, digits, digits_from, in_range, in_range_negative}
use minkube.Base.Queue.{QueueOps}
use minkube.Heap.{Heap}
use minkube.Manager.{Manager, new, register_workers}
use minkube.Manager.Invariant.{Inv}
use minkube.Manager.Invariant.New.{new-Inv}
use minkube.Task.{Time}
use minkube.Commands.{
  push_first, split_commas, workers_of, start_manager, uint_digits, parse_uint, clamped,
  clamped_negative, worker_port,
}

-- The code points of a text, and those of texts with a comma between each two.
abbrev pub codes : String → List ℕ
codes String.[] = []
codes (String.◌∷◌ c s) = code c ∷ codes s

abbrev pub join_commas : List String → List ℕ
join_commas [] = []
join_commas (s ∷ []) = codes s
join_commas (s ∷ t ∷ rest) = codes s ++ b',' ∷ join_commas (t ∷ rest)

abbrev pub HasNoComma : String → Type 0
HasNoComma s = contains b',' (codes s) ≡ false

push_first-join_commas :
    (c : Char) (ss : List String) → join_commas (push_first c ss) ≡ code c ∷ join_commas ss
push_first-join_commas c [] = refl
push_first-join_commas c (s ∷ []) = refl
push_first-join_commas c (s ∷ t ∷ rest) = refl

push_first-HasNoComma :
    (c : Char) (ss : List String)
    → (code c == b',') ≡ false
    → All HasNoComma ss
    → All HasNoComma (push_first c ss)
push_first-HasNoComma c [] e h = (rw e refl, tt)
push_first-HasNoComma c (s ∷ ss) e (h, hs) = (rw e h, hs)

comma_first : (ss : List String) → ss ≢ [] → join_commas ("" ∷ ss) ≡ b',' ∷ join_commas ss
comma_first [] n = absurd (n refl)
comma_first (s ∷ ss) n = refl

push_first_some : (c : Char) (ss : List String) → push_first c ss ≢ []
push_first_some c [] e = ground arith
push_first_some c (s ∷ ss) e = ground arith

split_commas_some : (s : String) → split_commas s ≢ []
unfolding split_commas
split_commas_some String.[] e = ground arith
split_commas_some (String.◌∷◌ c s) e = elim (Bool-cases (code c == b',')) [
  | inl k ↦ ground (arith, k)
  | inr k ↦ push_first_some c (split_commas s) (rw k at e)
]

-- What `strings.Split` gives is the text again with commas in between, and no part has a comma.
split_commas_lem :
    (s : String) → (join_commas (split_commas s) ≡ codes s) × All HasNoComma (split_commas s)
unfolding split_commas
split_commas_lem String.[] = (refl, (refl, tt))
split_commas_lem (String.◌∷◌ c s) =
    let (j, h) = split_commas_lem s in
    elim (Bool-cases (code c == b',')) [
      | inl e ↦ rw e (
        comma_first (split_commas s) (split_commas_some s)
            ∙ ground (arith, (==_iff (code c) b',').0 e, j),
        (refl, h),
      )
      | inr e ↦ rw e (
        push_first-join_commas c (split_commas s) ∙ ap (◌∷◌ (code c)) j,
        push_first-HasNoComma c (split_commas s) e h,
      )
    ]

register_workers-workers :
    {Q : Type 0} (ws : List String) (m : Manager Q) → (register_workers ws m).workers ≡ m.workers
unfolding register_workers
register_workers-workers [] m = refl
register_workers-workers (w ∷ ws) m = register_workers-workers ws _

module _ {Q : Type 0} ⦃queue : QueueOps Q⦄ where
  -- With MINKUBE_WORKERS set the manager starts with the invariant, and its workers are the parts of the
  -- text between its commas, in order: at least one, which is empty where two commas meet or at an end.
  pub start_manager_lem :
      (heap : Heap) (workers_str : String) (now : Time)
      → 0 < heap.next
      → (workers_str == "") ≡ false
      → (m : Manager Q) × (start_manager heap workers_str now ≡ some m)
        × Inv m
        × (m.workers ≢ [])
        × (join_commas m.workers ≡ codes workers_str)
        × All HasNoComma m.workers
  unfolding start_manager workers_of
  start_manager_lem heap workers_str now h e =
      let ws = split_commas workers_str in
      let m : Manager Q = new heap ws now in
      let same : m.workers ≡ ws = unfold new in register_workers-workers ws _ in
      let (j, c) = split_commas_lem workers_str in
      (
        m,
        rw (e, start_manager) refl,
        new-Inv heap ws now h,
        rw same (split_commas_some workers_str),
        rw same j,
        rw same c,
      )

digits_from-le : (acc n : ℕ) (s : String) → digits_from acc s ≡ some n → acc ≤ n
unfolding digits_from
digits_from-le acc n String.[] e = ground (arith, e)
digits_from-le acc n (String.◌∷◌ c s) e =
    ground (arith, digits_from-le (acc * 10 + (code c - b'0')) n s)

uint_digits-digits_from :
    (acc n : ℕ) (s : String) → digits_from acc s ≡ some n → n < 2 ^ 64 → uint_digits acc s ≡ some n
unfolding digits_from uint_digits
uint_digits-digits_from acc n String.[] e h = e
uint_digits-digits_from acc n (String.◌∷◌ c s) e h =
    let next : ℕ = acc * 10 + (code c - b'0') in
    ground (arith, digits_from-le next n s, uint_digits-digits_from next n s)

parse_uint-digits : (n : ℕ) (s : String) → digits s ≡ some n → n < 2 ^ 64 → parse_uint s ≡ some n
unfolding digits parse_uint
parse_uint-digits n s e h = ground (arith, uint_digits-digits_from 0 n s)

digits_from-uint_digits :
    (acc n : ℕ) (s : String)
    → uint_digits acc s ≡ some n
    → n ≤ int_bound
    → digits_from acc s ≡ some n
unfolding digits_from uint_digits
digits_from-uint_digits acc n String.[] e h = e
digits_from-uint_digits acc n (String.◌∷◌ c s) e h =
    ground (arith, digits_from-uint_digits (acc * 10 + (code c - b'0')) n s)

digits-parse_uint : (n : ℕ) (s : String) → parse_uint s ≡ some n → n ≤ int_bound → digits s ≡ some n
unfolding digits parse_uint
digits-parse_uint n s e h = ground (arith, digits_from-uint_digits 0 n s)

-- What a dropped error leaves: 0, or the end of the range.
abbrev pub IsLeftover : ℤ → Type 0
IsLeftover a = (a ≡ pos 0) ⊎ (a ≡ pos (int_bound - 1)) ⊎ (a ≡ sub_ℕ 0 int_bound)

-- The number, or what an error leaves.
abbrev pub ReadAs : Option ℤ → ℤ → Type 0
ReadAs o a = (o ≡ some a) ⊎ ((o ≡ none) × IsLeftover a)

clamped-ReadAs : (s : String) → ReadAs (in_range (digits s)) (clamped (parse_uint s))
clamped-ReadAs s = elim (Option-cases (digits s)) [
  | inl k ↦ elim (Option-cases (parse_uint s)) [
    | inl u ↦ ground (arith, k, u)
    | inr (m, u) ↦ ground (arith, k, u, digits-parse_uint m s u)
  ]
  | inr (n, k) ↦ elim (Option-cases (parse_uint s)) [
    | inl u ↦ ground (arith, k, u, parse_uint-digits n s k)
    | inr (m, u) ↦ ground (arith, k, u, parse_uint-digits n s k, digits-parse_uint m s u)
  ]
]

clamped_negative-ReadAs :
    (s : String) → ReadAs (in_range_negative (digits s)) (clamped_negative (parse_uint s))
clamped_negative-ReadAs s = elim (Option-cases (digits s)) [
  | inl k ↦ elim (Option-cases (parse_uint s)) [
    | inl u ↦ ground (arith, k, u)
    | inr (m, u) ↦ ground (arith, k, u, digits-parse_uint m s u)
  ]
  | inr (n, k) ↦ elim (Option-cases (parse_uint s)) [
    | inl u ↦ ground (arith, k, u, parse_uint-digits n s k)
    | inr (m, u) ↦ ground (arith, k, u, parse_uint-digits n s k, digits-parse_uint m s u)
  ]
]

-- The worker's port is the number in MINKUBE_PORT where Atoi reads one, and otherwise, since the error
-- is dropped, 0 or an end of the range of int64.
pub worker_port-ReadAs : (s : String) → ReadAs (atoi s) (worker_port s)
unfolding worker_port atoi
worker_port-ReadAs String.[] = ground arith
worker_port-ReadAs (String.◌∷◌ c s) = elim (Bool-cases (code c == b'-')) [
  | inl e ↦ rw e (clamped_negative-ReadAs s)
  | inr e ↦ elim (Bool-cases (code c == b'+')) [
    | inl f ↦ rw (e, f) (clamped-ReadAs s)
    | inr f ↦ rw (e, f) (clamped-ReadAs (String.◌∷◌ c s))
  ]
]
