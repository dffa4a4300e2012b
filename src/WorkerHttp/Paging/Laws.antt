-- ===== src/WorkerHttp/Paging/Laws.antt =====
-- The worker's pages: they are the manager's, and they overflow in other ways.
use minkube.Base.{
  ℕ, suc, ◌+◌, ◌-◌, ◌*◌, ◌<◌, ◌≤◌, String, List, true, false, none, some, string_eq, nat_eq, ◌==◌,
  if◌then◌else◌, leb, ltb, length, take, drop, ◌≡◌, refl, arith, ◌∙◌, sym, Bool-cases, inl, inr,
  drop_all, take-nil,
}
use minkube.Base.Int.{
  ℤ, pos, negsuc, wrap, wrap-pos, wrap_overflow, ◌+ℤ◌, ltb_ℤ, int_bound, int_mod, +ℤ-pos, -ℤ-one,
  *ℤ-pos, sub_ℕ,
}
use minkube.Base.Strconv.{atoi}
use minkube.Http.{slice}
use minkube.Http.Laws.{slice_lem}
use minkube.ManagerHttp.Paging.{page_of as manager_page_of}
use minkube.ManagerHttp.Paging.Laws.{page_of_lem}
use minkube.WorkerHttp.Paging.{parse_limit, page_start, page_bounds, page_of}

start_lem :
    (k l : ℕ)
    → k < int_bound
    → k * suc l < int_bound
    → page_start (pos (suc k)) (pos (suc l)) ≡ pos (k * suc l)
unfolding page_start
start_lem k l a b = rw (-ℤ-one k, wrap-pos k a, *ℤ-pos k (suc l)) (wrap-pos (k * suc l) b)

bounds_inside :
    (s l total : ℕ)
    → s + l < int_bound
    → s < total
    → page_bounds (pos s) (pos l) total ≡ (pos s, pos (if leb (s + l) total then s + l else total))
unfolding page_bounds
bounds_inside s l total a h = rw (+ℤ-pos s l, wrap-pos (s + l) a) (ground arith)

bounds_past :
    (s l total : ℕ) → total ≤ s → page_bounds (pos s) (pos l) total ≡ (pos total, pos total)
unfolding page_bounds
bounds_past s l total h = ground arith

module _ {ℓ} {A : Type ℓ} where
  page_inside :
      (xs : List A) (k l : ℕ)
      → k < int_bound
      → k * suc l + suc l < int_bound
      → k * suc l < length xs
      → page_of xs (pos (suc k)) (pos (suc l)) ≡ some (take (suc l) (drop (k * suc l) xs))
  unfolding page_of
  page_inside xs k l a b h =
      rw (start_lem k l a (omega arith), bounds_inside (k * suc l) (suc l) (length xs) b h)
        (ground (arith, slice_lem xs (k * suc l) (suc l) h))

  page_past :
      (xs : List A) (k l : ℕ)
      → k < int_bound
      → k * suc l + suc l < int_bound
      → length xs ≤ k * suc l
      → page_of xs (pos (suc k)) (pos (suc l)) ≡ some (take (suc l) (drop (k * suc l) xs))
  unfolding page_of
  page_past xs k l a b h =
      rw
        (
          start_lem k l a (omega arith),
          bounds_past (k * suc l) (suc l) (length xs) h,
          drop_all (k * suc l) xs h,
          take-nil {A = A} (suc l),
        )
        (ground arith)

  -- While nothing overflows, the worker's page is the manager's page of the same list.
  pub page_of-eq :
      (xs : List A) (k l : ℕ)
      → k < int_bound
      → k * suc l + suc l < int_bound
      → page_of xs (pos (suc k)) (pos (suc l)) ≡ manager_page_of xs (pos (suc k)) (pos (suc l))
  page_of-eq xs k l a b = elim (Bool-cases (ltb (k * suc l) (length xs))) [
    | inl e ↦ page_inside xs k l a b (ground arith) ∙ sym (page_of_lem xs k l a b)
    | inr e ↦ page_past xs k l a b (ground arith) ∙ sym (page_of_lem xs k l a b)
  ]

start_overflow :
    (k l : ℕ)
    → k < int_bound
    → int_bound ≤ k * suc l
    → k * suc l < int_mod
    → page_start (pos (suc k)) (pos (suc l)) ≡ negsuc (18446744073709551615 - k * suc l)
unfolding page_start
start_overflow k l a b c =
    rw (-ℤ-one k, wrap-pos k a, *ℤ-pos k (suc l)) (wrap_overflow (k * suc l) b c)

end_negative :
    (m l : ℕ)
    → m < int_bound
    → suc l < int_bound
    → wrap (negsuc m +ℤ pos (suc l)) ≡ sub_ℕ (suc l) (suc m)
unfolding ◌+ℤ◌ wrap
end_negative m l a b = ground arith

bounds_negative :
    (m l total : ℕ)
    → m < int_bound
    → suc l < int_bound
    → ((page_bounds (negsuc m) (pos (suc l)) total).0 ≡ negsuc m)
      × (ltb_ℤ (negsuc m) (page_bounds (negsuc m) (pos (suc l)) total).1 ≡ true)
unfolding page_bounds
bounds_negative m l total a b = rw (end_negative m l a b) (ground arith)

slice_negative {ℓ} :
    {A : Type ℓ} (xs : List A) (i j : ℤ) (m : ℕ) → i ≡ negsuc m → slice xs i j ≡ none
unfolding slice
slice_negative xs i j m e = rw e refl

-- A page whose start does not fit into 63 bits, but into 64, makes the handler panic, whatever tasks
-- there are, also if there is none.
pub page_of_panics {ℓ} :
    {A : Type ℓ} (xs : List A) (k l : ℕ)
    → k < int_bound
    → suc l < int_bound
    → int_bound ≤ k * suc l
    → k * suc l < int_mod
    → page_of xs (pos (suc k)) (pos (suc l)) ≡ none
unfolding page_of
page_of_panics xs k l a b c d =
    let (s, t) = bounds_negative (18446744073709551615 - k * suc l) l (length xs) (omega arith) b in
    rw (start_overflow k l a c d) (
      ground (
        arith,
        slice_negative xs _
            (page_bounds (negsuc (18446744073709551615 - k * suc l)) (pos (suc l)) (length xs)).1 _
            s,
      ))

-- The page is at least 1 and so is the limit, but the limit may be as large as an int: its bound of
-- 1000 is not enforced.
limit_unbounded :
    (s : String) (n : ℕ)
    → (s == "") ≡ false
    → atoi s ≡ some (pos (suc n))
    → parse_limit s ≡ pos (suc n)
unfolding parse_limit
limit_unbounded s n h e = ground arith
