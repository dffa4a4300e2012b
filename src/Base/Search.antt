-- ===== src/Base/Search.antt =====
-- Go's `sort.Search`: binary search for the least index at which a monotone test holds.
use minkube.Base.Tests.{ltb, if◌then◌else◌, Bool-cases}
use Prim.Native.Nat.{ℕ, zero, suc, ◌+◌, ◌-◌, ◌/◌, ◌≤◌, ◌<◌}
use mathlib.Core.Path.{◌≡◌}
use mathlib.Core.Logic.{inl, inr}
use mathlib.Core.Bool.{Bool, true, false}
use native.Mathlib.Omega.{arith}

-- The loop over i and j; each round halves j - i, so fuel of j - i is enough.
unfoldable pub search_loop : ℕ → (ℕ → Bool) → ℕ → ℕ → ℕ
search_loop zero f i j = i
search_loop (suc fuel) f i j =
    let h = (i + j) / 2 in
    let upper = search_loop fuel f (h + 1) j in
    let lower = search_loop fuel f i h in if ltb i j then (if f h then lower else upper) else i

unfoldable pub search_index : ℕ → (ℕ → Bool) → ℕ
unfolding search_loop
search_index n f = search_loop n f 0 n

search_loop-le : (f : ℕ → Bool) (fuel i j n : ℕ) → i ≤ j → j ≤ n → search_loop fuel f i j ≤ n
unfolding search_loop
search_loop-le f zero i j n h k = omega arith
search_loop-le f (suc fuel) i j n h k =
    ground
      (arith, search_loop-le f fuel i ((i + j) / 2) n, search_loop-le f fuel ((i + j) / 2 + 1) j n)

-- For any test the result is within the range.
pub search_index-le : (f : ℕ → Bool) (n : ℕ) → search_index n f ≤ n
unfolding search_index
search_index-le f n = search_loop-le f n 0 n n (omega arith) (omega arith)

module _ (f : ℕ → Bool) (n : ℕ) (up : (a b : ℕ) → a ≤ b → b < n → f a ≡ true → f b ≡ true) where
  -- All below i fail and all from j on hold, so the loop ends at the boundary.
  search_loop_lem :
      (fuel i j : ℕ)
      → j - i ≤ fuel
      → i ≤ j
      → j ≤ n
      → ((a : ℕ) → a < i → f a ≡ false)
      → ((a : ℕ) → j ≤ a → a < n → f a ≡ true)
      → (search_loop fuel f i j ≤ n)
        × ((a : ℕ) → a < search_loop fuel f i j → f a ≡ false)
        × ((a : ℕ) → search_loop fuel f i j ≤ a → a < n → f a ≡ true)
  unfolding search_loop
  search_loop_lem zero i j m le jn below above =
      (omega arith, below, λ a p q. above a (omega arith) q)
  search_loop_lem (suc fuel) i j m le jn below above = elim (Bool-cases (ltb i j)) [
    | inr stop ↦ rw stop ((omega (arith), below, λ a p q. above a (ground arith) q))
    | inl go ↦
        let lt : i < j = ground arith in
        elim (Bool-cases (f ((i + j) / 2))) [
          | inl hit ↦
              rw (go, hit)
                (search_loop_lem fuel i ((i + j) / 2) (omega arith) (omega arith) (omega arith)
                  below (λ a p q. up ((i + j) / 2) a p q hit))
          | inr miss ↦
              rw (go, miss)
                (search_loop_lem fuel ((i + j) / 2 + 1) j (omega arith) (omega arith) jn
                  (λ a p. elim (Bool-cases (f a)) [
                    | inl t ↦ ground (arith, up a ((i + j) / 2))
                    | inr t ↦ t
                  ])
                  above)
        ]
  ]

  pub search_index_lem :
      (search_index n f ≤ n)
      × ((a : ℕ) → a < search_index n f → f a ≡ false)
      × ((a : ℕ) → search_index n f ≤ a → a < n → f a ≡ true)
  unfolding search_index
  search_index_lem =
      search_loop_lem n 0 n (omega arith) (omega arith) (omega arith) (λ a p. absurd (omega arith))
        (λ a p q. absurd (omega arith))
