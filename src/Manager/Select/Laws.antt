-- ===== src/Manager/Select/Laws.antt =====
-- SelectWorker of internal/manager/manager.go: who is chosen, when it fails, and in which turn.
use minkube.Base.{
  ℕ, zero, suc, ◌+◌, ◌<◌, ◌%◌, String, List, [], ◌∷◌, Bool, true, string_eq, ◌==◌, ==_iff, ◌&&◌,
  arith, ◌≡◌, refl, length, get_or, contains, Bool-cases, ◌⊎◌, inl, inr, ap, sym, ◌∙◌, ==_refl,
  List-cases, subst, ◌-◌, All, All-map,
}
use native.Mathlib.Nat.{mod-lt, mod-add-mod, add-mod-mod, add-mod_right, mod-eq_of_lt}
use minkube.Manager.{Manager, is_worker_healthy, is_worker_ready}
use minkube.Manager.Select.{
  Result, ok, err, SelectError, passing, or_error, workers_in_both, schedulable_workers,
  get_healthy_workers, get_ready_workers, choose, select_worker, no_healthy_and_ready, select_from,
  no_workers_available,
}

-- The specification: the workers that are both healthy and ready, in the order of the configuration.
abbrev pub is_schedulable : {Q : Type 0} → Manager Q → String → Bool
is_schedulable m w = is_worker_healthy w m && is_worker_ready w m

unfoldable pub schedulable : {Q : Type 0} → Manager Q → List String
schedulable m = passing (is_schedulable m) m.workers

contains-passing :
    (p : String → Bool) (w : String) (ws : List String)
    → contains w (passing p ws) ≡ (contains w ws && p w)
contains-passing p w [] = refl
contains-passing p w (v ∷ ws) = elim (Bool-cases (v == w)) [
  | inl same ↦ rw ((==_iff v w).0 same) (ground (arith, ==_refl w, contains-passing p w ws))
  | inr other ↦ ground (arith, contains-passing p w ws)
]

passing-passing :
    (p q : String → Bool) (ws : List String)
    → passing p (passing q ws) ≡ passing (λ w. p w && q w) ws
passing-passing p q [] = refl
passing-passing p q (w ∷ ws) = ground (arith, passing-passing p q ws)

passing_congr :
    (p q : String → Bool) (ws : List String) → All (λ w. p w ≡ q w) ws → passing p ws ≡ passing q ws
passing_congr p q [] a = refl
passing_congr p q (w ∷ ws) a = ground (arith, passing_congr p q ws a.1)

pub All-contained : (ws : List String) → All (λ w. contains w ws ≡ true) ws
All-contained [] = tt
All-contained (w ∷ ws) =
    (ground (arith, ==_refl w), All-map _ _ (λ v h. ground arith) ws (All-contained ws))

pub All-passing :
    (P : String → Type 0) (p : String → Bool) (ws : List String) → All P ws → All P (passing p ws)
All-passing P p [] a = tt
All-passing P p (w ∷ ws) (a, rest) = elim (Bool-cases (p w)) [
  | inl e ↦ rw e (a, All-passing P p ws rest)
  | inr e ↦ rw e (All-passing P p ws rest)
]

pub All-get_or :
    (P : String → Type 0) (ws : List String) (i : ℕ) (d : String)
    → i < length ws
    → All P ws
    → P (get_or ws i d)
All-get_or P [] i d h a = absurd (omega arith)
All-get_or P (w ∷ ws) zero d h a = a.0
All-get_or P (w ∷ ws) (suc i) d h a = All-get_or P ws i d (omega arith) a.1

-- Both lists come from one list of workers, so their intersection is that list filtered by both.
in_both_lem :
    (p q : String → Bool) (ws : List String)
    → workers_in_both (passing p ws) (passing q ws) ≡ passing (λ w. p w && q w) ws
unfolding workers_in_both
in_both_lem p q ws =
    passing-passing (λ w. contains w (passing p ws)) q ws
    ∙ passing_congr _ _ ws
        (All-map _ _ (λ w h. ground (arith, contains-passing p w ws)) ws (All-contained ws))

passing_none :
    (p q : String → Bool) (ws : List String)
    → (passing p ws ≡ []) ⊎ (passing q ws ≡ [])
    → passing (λ w. p w && q w) ws ≡ []
passing_none p q [] h = refl
passing_none p q (w ∷ ws) h = ground (arith, passing_none p q ws)

schedulable_workers_lem :
    (p q : String → Bool) (ws : List String) (d e : SelectError)
    → (schedulable_workers (or_error (passing p ws) d) (or_error (passing q ws) e)
        ≡ ok (passing (λ w. p w && q w) ws))
      ⊎ (((f : SelectError) × (schedulable_workers
                (or_error (passing p ws) d)
                (or_error (passing q ws) e)
              ≡ err f))
          × (passing (λ w. p w && q w) ws ≡ []))
schedulable_workers_lem p q ws d e = elim (List-cases (passing p ws)) [
  | inl a ↦ inr ((d, rw a refl), passing_none p q ws (inl a))
  | inr (v, vs, a) ↦ elim (List-cases (passing q ws)) [
    | inl b ↦ inr ((e, rw (a, b) refl), passing_none p q ws (inr b))
    | inr (u, us, b) ↦ inl (rw (a, b) (ap ok (cc (a, b, in_both_lem p q ws))))
  ]
]

module _ {Q : Type 0} (m : Manager Q) where
  lists_lem :
      (schedulable_workers (get_healthy_workers m) (get_ready_workers m) ≡ ok (schedulable m))
      ⊎ (((f : SelectError) × (schedulable_workers (get_healthy_workers m) (get_ready_workers m)
              ≡ err f))
          × (schedulable m ≡ []))
  unfolding get_healthy_workers get_ready_workers schedulable
  lists_lem =
      schedulable_workers_lem (λ w. is_worker_healthy w m) (λ w. is_worker_ready w m) m.workers _ _

  some_worker : (v : String) (vs : List String) → schedulable m ≡ v ∷ vs → (m.workers ≡ []) → ⊥
  unfolding schedulable
  some_worker v vs h e = cc (h, ap (passing (is_schedulable m)) e)

module _ {Q : Type 0} (m : Manager Q) where
  select_from_some :
      (us : List String) (r : Result (List String)) (v : String) (vs : List String)
      → (us ≡ [] → ⊥)
      → r ≡ ok (v ∷ vs)
      → let index = (m.last_worker + 1) % length (v ∷ vs) in
        select_from us r m ≡ (record m { last_worker = index }, ok (get_or (v ∷ vs) index ""))
  unfolding select_from choose
  select_from_some [] r v vs n h = absurd (n refl)
  select_from_some (u ∷ us) r v vs n h = rw h refl

  select_from_none :
      (us : List String) (r : Result (List String))
      → (r ≡ ok []) ⊎ ((f : SelectError) × (r ≡ err f))
      → (e : SelectError) × (select_from us r m ≡ (m, err e))
  unfolding select_from choose
  select_from_none [] r h = (no_workers_available, refl)
  select_from_none (u ∷ us) r (inl h) = (no_healthy_and_ready, rw h refl)
  select_from_none (u ∷ us) r (inr (f, h)) = (f, rw h refl)

-- SelectWorker implements the specification: where some worker is both healthy and ready it takes
-- the next of those workers in turn and remembers its place.
pub select_worker_some :
    {Q : Type 0} (m : Manager Q) (v : String) (vs : List String)
    → schedulable m ≡ v ∷ vs
    → let index = (m.last_worker + 1) % length (v ∷ vs) in
      select_worker m ≡ (record m { last_worker = index }, ok (get_or (v ∷ vs) index ""))
unfolding select_worker
select_worker_some m v vs h = elim (lists_lem m) [
  | inl l ↦ select_from_some m m.workers _ v vs (some_worker m v vs h) (l ∙ ap ok h)
  | inr (_, n) ↦ cc
]

-- Where no worker is both healthy and ready, it fails and changes nothing.
pub select_worker_none :
    {Q : Type 0} (m : Manager Q)
    → schedulable m ≡ []
    → (e : SelectError) × (select_worker m ≡ (m, err e))
unfolding select_worker
select_worker_none m h = elim (lists_lem m) [
  | inl l ↦ select_from_none m m.workers _ (inl (l ∙ ap ok h))
  | inr (f, _) ↦ select_from_none m m.workers _ (inr f)
]

schedulable_sound :
    {Q : Type 0} (m : Manager Q) (w : String)
    → contains w (schedulable m) ≡ true
    → (contains w m.workers ≡ true) × (is_worker_healthy w m ≡ true) × (is_worker_ready w m ≡ true)
unfolding schedulable
schedulable_sound m w h = ground (arith, contains-passing (is_schedulable m) w m.workers)

-- A worker that is selected is configured, healthy and ready.
pub select_worker_sound :
    {Q : Type 0} (m : Manager Q) (w : String)
    → (select_worker m).1 ≡ ok w
    → (contains w m.workers ≡ true) × (is_worker_healthy w m ≡ true) × (is_worker_ready w m ≡ true)
select_worker_sound m w h = elim (List-cases (schedulable m)) [
  | inl e ↦ let (f, g) = select_worker_none m e in cc
  | inr (v, vs, e) ↦
      let index = (m.last_worker + 1) % length (v ∷ vs) in
      let chosen : get_or (v ∷ vs) index "" ≡ w = cc (select_worker_some m v vs e) in
      schedulable_sound m w (
        subst (λ u. contains u (schedulable m) ≡ true) chosen
          (subst (λ us. contains (get_or (v ∷ vs) index "") us ≡ true) (sym e)
            (All-get_or _ (v ∷ vs) index "" (mod-lt _ (omega arith)) (All-contained (v ∷ vs)))))
]

-- A selection changes the place of the round robin at most.
pub select_worker_place :
    {Q : Type 0} (m : Manager Q)
    → (i : ℕ) × (r : Result String) × (select_worker m ≡ (record m { last_worker = i }, r))
select_worker_place m = elim (List-cases (schedulable m)) [
  | inl e ↦ let (f, g) = select_worker_none m e in (m.last_worker, err f, g)
  | inr (v, vs, e) ↦ (_, _, select_worker_some m v vs e)
]

-- The manager after k selections with nothing else in between.
unfoldable pub select_times : {Q : Type 0} → ℕ → Manager Q → Manager Q
select_times zero m = m
select_times (suc k) m = (select_worker (select_times k m)).0

-- Where the round robin stands after k selections among n workers.
place_after : ℕ → ℕ → ℕ → ℕ
place_after n last zero = last
place_after n last (suc k) = (place_after n last k + 1) % n

place_after_lem : (n last k : ℕ) → (place_after n last k + 1) % n ≡ (last + 1 + k) % n
unfolding place_after
place_after_lem n last zero = ap (λ (t : ℕ). t % n) (omega arith)
place_after_lem n last (suc k) =
    rw (place_after_lem n last k, mod-add-mod (last + 1 + k) n 1)
      (ap (λ (t : ℕ). t % n) (omega arith))

-- The turn at which index j comes.
turn_lem : (n last j : ℕ) → j < n → (last + 1 + (j + n - (last + 1) % n) % n) % n ≡ j
turn_lem n last j h =
    let a : ℕ = (last + 1) % n in
    let small : a < n = mod-lt (last + 1) (omega arith) in
    let total : a + (j + n - a) ≡ j + n = omega arith in
    sym (mod-add-mod (last + 1) n ((j + n - a) % n))
    ∙ add-mod-mod a (j + n - a) n
    ∙ ap (λ (t : ℕ). t % n) total
    ∙ add-mod_right j n
    ∙ mod-eq_of_lt h

module _ {Q : Type 0} (m : Manager Q) (v : String) (vs : List String)
    (e : schedulable m ≡ v ∷ vs) where
  select_at :
      (i : ℕ)
      → let index = (i + 1) % length (v ∷ vs) in
        select_worker (record m { last_worker = i })
        ≡ (record m { last_worker = index }, ok (get_or (v ∷ vs) index ""))
  select_at i =
      select_worker_some (record m { last_worker = i }) v vs
        (unfold schedulable is_worker_healthy is_worker_ready in e)

  select_times_lem :
      (k : ℕ)
      → select_times k m ≡ record m { last_worker = place_after (length (v ∷ vs)) m.last_worker k }
  unfolding select_times place_after
  select_times_lem zero = refl
  select_times_lem (suc k) =
      ap (λ x. (select_worker x).0) (select_times_lem k) ∙ ap (λ r. r.0) (select_at _)

-- Round robin: whatever worker was last, each of the n schedulable workers is selected within the
-- next n selections, as long as no health check changes the workers' entries.
pub select_worker_fair :
    {Q : Type 0} (m : Manager Q) (v : String) (vs : List String) (j : ℕ)
    → schedulable m ≡ v ∷ vs
    → j < length (v ∷ vs)
    → (k : ℕ) × (k < length (v ∷ vs))
      × ((select_worker (select_times k m)).1 ≡ ok (get_or (v ∷ vs) j ""))
select_worker_fair m v vs j e h =
    let n : ℕ = length (v ∷ vs) in
    let k : ℕ = (j + n - (m.last_worker + 1) % n) % n in
    let place : (place_after n m.last_worker k + 1) % n ≡ j =
      place_after_lem n m.last_worker k ∙ turn_lem n m.last_worker j h in
    (
      k,
      mod-lt _ (omega arith),
      ap (λ x. (select_worker x).1) (select_times_lem m v vs e k)
          ∙ ap (λ r. r.1) (select_at m v vs e _)
          ∙ ap (λ (i : ℕ). ok (get_or (v ∷ vs) i "")) place,
    )
