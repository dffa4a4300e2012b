-- ===== src/Http/Laws.antt =====
-- Go's slice expression within the bounds.
use minkube.Base.{
  ℕ, ◌+◌, ◌-◌, ◌<◌, List, true, some, if◌then◌else◌, leb, length, take, drop, ◌≡◌, arith, ◌∙◌, ap,
  sym, Bool-cases, inl, inr, take_all, length-drop,
}
use minkube.Base.Int.{pos}
use minkube.Http.{slice}

module _ {ℓ} {A : Type ℓ} where
  -- A page is cut out of the list at its place.
  pub slice_lem :
      (xs : List A) (s l : ℕ)
      → s < length xs
      → slice xs (pos s) (pos (if leb (s + l) (length xs) then s + l else length xs))
        ≡ some (take l (drop s xs))
  unfolding slice
  slice_lem xs s l h = elim (Bool-cases (leb (s + l) (length xs))) [
    | inl e ↦ let n : s + l - s ≡ l = omega arith in rw (e, n) (ground arith)
    | inr e ↦
        let ordered : leb s (length xs) ≡ true = ground arith in
        let within : leb (length xs) (length xs) ≡ true = ground arith in
        rw (e, ordered, within)
          (ap some (
            take_all (length xs - s) (drop s xs) (omega (arith, length-drop s xs))
            ∙ sym (take_all l (drop s xs) (ground (arith, length-drop s xs)))))
  ]
