-- ===== src/Base/Lists.antt =====
-- Go slices as lists measured by native numbers, under the library's names.
use Prim.Native.Nat.{ℕ, zero, suc, ◌+◌, ◌-◌, ◌≤◌, min}
use mathlib.Core.Path.{◌≡◌, refl, ap, sym, ◌∙◌}
use mathlib.Core.List.{List, [], ◌∷◌, ◌++◌}
use mathlib.Core.List.{append-nil}
use mathlib.Core.Option.{Option, none, some}
use mathlib.Core.Logic.{◌⊎◌, inl, inr}
use native.Mathlib.Omega.{arith}

module _ {ℓ} {A : Type ℓ} where
  abbrev pub length : List A → ℕ
  length [] = 0
  length (x ∷ xs) = suc (length xs)

  abbrev pub get_elem? : List A → ℕ → Option A
  get_elem? [] i = none
  get_elem? (x ∷ xs) zero = some x
  get_elem? (x ∷ xs) (suc i) = get_elem? xs i

  abbrev pub get_or : List A → ℕ → A → A
  get_or [] i d = d
  get_or (x ∷ xs) zero d = x
  get_or (x ∷ xs) (suc i) d = get_or xs i d

  -- A write in bounds, `xs[i] = v`.
  abbrev pub set : List A → ℕ → A → List A
  set [] i v = []
  set (x ∷ xs) zero v = v ∷ xs
  set (x ∷ xs) (suc i) v = x ∷ set xs i v

  abbrev pub take : ℕ → List A → List A
  take zero xs = []
  take (suc n) [] = []
  take (suc n) (x ∷ xs) = x ∷ take n xs

  abbrev pub drop : ℕ → List A → List A
  drop zero xs = xs
  drop (suc n) [] = []
  drop (suc n) (x ∷ xs) = drop n xs

  -- `copy(xs[d:], xs[s:])`: the overlapping copy within one slice, for d and s within it.
  unfoldable pub copy_within : List A → ℕ → ℕ → List A
  copy_within xs d s =
      let n = min (length xs - d) (length xs - s) in
      take d xs ++ (take n (drop s xs) ++ drop (d + n) xs)

module _ {ℓ} {A : Type ℓ} where
  pub length-append : (xs ys : List A) → length (xs ++ ys) ≡ length xs + length ys
  length-append [] ys = omega arith
  length-append (x ∷ xs) ys = omega (arith, length-append xs ys)

  pub take-append-drop : (n : ℕ) (xs : List A) → take n xs ++ drop n xs ≡ xs
  take-append-drop zero xs = refl
  take-append-drop (suc n) [] = refl
  take-append-drop (suc n) (x ∷ xs) = ap (◌∷◌ x) (take-append-drop n xs)

  pub length-take : (n : ℕ) (xs : List A) → length (take n xs) ≡ min n (length xs)
  length-take zero xs = omega arith
  length-take (suc n) [] = omega arith
  length-take (suc n) (x ∷ xs) = omega (arith, length-take n xs)

  pub length-drop : (n : ℕ) (xs : List A) → length (drop n xs) ≡ length xs - n
  length-drop zero xs = omega arith
  length-drop (suc n) [] = omega arith
  length-drop (suc n) (x ∷ xs) = omega (arith, length-drop n xs)

  pub take_all : (n : ℕ) (xs : List A) → length xs ≤ n → take n xs ≡ xs
  take_all zero [] h = refl
  take_all zero (x ∷ xs) h = absurd (omega arith)
  take_all (suc n) [] h = refl
  take_all (suc n) (x ∷ xs) h = ap (◌∷◌ x) (take_all n xs (omega arith))

  pub drop_all : (n : ℕ) (xs : List A) → length xs ≤ n → drop n xs ≡ []
  drop_all zero [] h = refl
  drop_all zero (x ∷ xs) h = absurd (omega arith)
  drop_all (suc n) [] h = refl
  drop_all (suc n) (x ∷ xs) h = drop_all n xs (omega arith)

  pub take-nil : (n : ℕ) → take {A = A} n [] ≡ []
  take-nil zero = refl
  take-nil (suc n) = refl

  -- Two neighbouring parts of a list.
  pub take-append-take-drop :
      (m n : ℕ) (xs : List A) → take m xs ++ take n (drop m xs) ≡ take (m + n) xs
  take-append-take-drop zero n xs = ap (λ (k : ℕ). take k xs) (omega arith)
  take-append-take-drop (suc m) n [] = take-nil n ∙ sym (take-nil (suc m + n))
  take-append-take-drop (suc m) n (x ∷ xs) =
      let e : suc m + n ≡ suc (m + n) = omega arith in
      rw e (ap (◌∷◌ x) (take-append-take-drop m n xs))

  pub take-append_self : (xs ys : List A) → take (length xs) (xs ++ ys) ≡ xs
  take-append_self [] ys = refl
  take-append_self (x ∷ xs) ys = ap (◌∷◌ x) (take-append_self xs ys)

  pub drop-append_self : (xs ys : List A) → drop (length xs) (xs ++ ys) ≡ ys
  drop-append_self [] ys = refl
  drop-append_self (x ∷ xs) ys = drop-append_self xs ys

  drop_past : (xs : List A) (d : A) → drop (suc (length xs)) (xs ++ d ∷ []) ≡ []
  drop_past [] d = refl
  drop_past (x ∷ xs) d = drop_past xs d

  gap_lem :
      (xs : List A) (d v : A) (i n m : ℕ)
      → i + n ≡ length xs
      → m ≡ suc (length xs)
      → set
          (take (suc i) (xs ++ d ∷ []) ++ (take n (drop i (xs ++ d ∷ [])) ++ drop m (xs ++ d ∷ [])))
          i
          v
        ≡ take i xs ++ v ∷ drop i xs
  gap_lem [] d v zero n m e g = let z : n ≡ 0 = omega arith in rw (z, g) refl
  gap_lem (x ∷ xs) d v zero n m e g =
      let z : n ≡ suc (length xs) = omega arith in
      rw (z, g, take-append_self xs (d ∷ []), drop_past xs d, append-nil) refl
  gap_lem [] d v (suc i) n m e g = absurd (omega arith)
  gap_lem (x ∷ xs) d v (suc i) n m e g =
      rw g (ap (◌∷◌ x) (gap_lem xs d v i n (suc (length xs)) (omega arith) refl))

  -- Opening a gap at i with `append`, `copy` and a write is insertion at i.
  pub set-copy_within :
      (xs : List A) (d v : A) (i : ℕ)
      → i ≤ length xs
      → set (copy_within (xs ++ d ∷ []) (i + 1) i) i v ≡ take i xs ++ v ∷ drop i xs
  unfolding copy_within
  set-copy_within xs d v i h =
      let grown : length (xs ++ d ∷ []) ≡ suc (length xs) =
        omega (arith, length-append xs (d ∷ [])) in
      let kept : min (length (xs ++ d ∷ []) - (i + 1)) (length (xs ++ d ∷ []) - i) ≡ length xs - i =
        omega arith in
      let next : i + 1 ≡ suc i = omega arith in
      rw (kept, next)
        (gap_lem xs d v i (length xs - i) (suc i + (length xs - i)) (omega arith) (omega arith))

-- A predicate on every element, and membership, by recursion.
module _ {ℓ κ} {A : Type ℓ} where
  abbrev pub All : (A → Type κ) → List A → Type κ
  All P [] = Unit
  All P (x ∷ xs) = P x × All P xs

  pub All-append : (P : A → Type κ) (xs ys : List A) → All P xs → All P ys → All P (xs ++ ys)
  All-append P [] ys p q = q
  All-append P (x ∷ xs) ys p q = (p.0, All-append P xs ys p.1 q)

  pub All-map :
      (P : A → Type κ) (Q : A → Type κ) (f : (x : A) → P x → Q x) (xs : List A)
      → All P xs
      → All Q xs
  All-map P Q f [] a = tt
  All-map P Q f (x ∷ xs) a = (f x a.0, All-map P Q f xs a.1)

  pub All-map₂ :
      (P Q R : A → Type κ) (f : (x : A) → P x → Q x → R x) (xs : List A)
      → All P xs
      → All Q xs
      → All R xs
  All-map₂ P Q R f [] a b = tt
  All-map₂ P Q R f (x ∷ xs) a b = (f x a.0 b.0, All-map₂ P Q R f xs a.1 b.1)

pub List-cases {ℓ} :
    {A : Type ℓ} (xs : List A) → (xs ≡ []) ⊎ ((y : A) × (ys : List A) × (xs ≡ y ∷ ys))
List-cases [] = inl refl
List-cases (x ∷ xs) = inr (x, xs, refl)
