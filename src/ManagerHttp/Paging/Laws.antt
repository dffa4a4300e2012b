-- ===== src/ManagerHttp/Paging/Laws.antt =====
-- The pages of internal/manager/http/handlers.go: their bounds, what they hold, and when they fail.
use native.Mathlib.Nat.{div-add-mod', mod-lt}
use minkube.Base.{
  ℕ, zero, suc, ◌+◌, ◌-◌, ◌*◌, ◌/◌, ◌%◌, ◌<◌, ◌≤◌, String, List, [], ◌++◌, true, false, Option,
  none, some, string_eq, nat_eq, ◌==◌, if◌then◌else◌, ◌||◌, leb, length, take, drop, ◌≡◌, refl,
  arith, ◌∙◌, ap, sym, Option-cases, Bool-cases, inl, inr, take_all, drop_all,
  take-append-take-drop,
}
use minkube.Base.Int.{
  ℤ, pos, negsuc, wrap-pos, leb_ℤ, quot, int_bound, int_mod, +ℤ-pos, -ℤ-one, *ℤ-pos, wrap_overflow,
}
use minkube.Base.Strconv.{atoi}
use minkube.Http.{slice}
use minkube.Http.Laws.{slice_lem}
use minkube.ManagerHttp.Paging.{
  parse_pagination_params, start_of_page, end_of_page, page_of, total_pages,
}

-- Parameters that are accepted are in their ranges: a page from 1 on, and a limit from 1 to 1000.
parse_pagination_bounds :
    (page_str limit_str : String) (page limit : ℤ)
    → parse_pagination_params page_str limit_str ≡ some (page, limit)
    → (leb_ℤ (pos 1) page ≡ true) × (leb_ℤ (pos 1) limit ≡ true) × (leb_ℤ limit (pos 1000) ≡ true)
unfolding parse_pagination_params
parse_pagination_bounds page_str limit_str page limit h = elim (Option-cases (atoi page_str)) [
  | inl e ↦ elim (Option-cases (atoi limit_str)) [
    | inl f ↦ ground arith
    | inr (l, f) ↦ ground arith
  ]
  | inr (p, e) ↦ elim (Option-cases (atoi limit_str)) [
    | inl f ↦ ground arith
    | inr (l, f) ↦ ground arith
  ]
]

start_lem :
    (k l : ℕ)
    → k < int_bound
    → k * suc l < int_bound
    → start_of_page (pos (suc k)) (pos (suc l)) ≡ pos (k * suc l)
unfolding start_of_page
start_lem k l a b = rw (-ℤ-one k, wrap-pos k a, *ℤ-pos k (suc l)) (wrap-pos (k * suc l) b)

start_overflow :
    (k l : ℕ)
    → k < int_bound
    → int_bound ≤ k * suc l
    → k * suc l < int_mod
    → start_of_page (pos (suc k)) (pos (suc l)) ≡ negsuc (18446744073709551615 - k * suc l)
unfolding start_of_page
start_overflow k l a b c =
    rw (-ℤ-one k, wrap-pos k a, *ℤ-pos k (suc l)) (wrap_overflow (k * suc l) b c)

end_lem :
    (s l count : ℕ)
    → s + l < int_bound
    → end_of_page (pos s) (pos l) count ≡ pos (if leb (s + l) count then s + l else count)
unfolding end_of_page
end_lem s l count a = rw (+ℤ-pos s l, wrap-pos (s + l) a) (ground arith)

at_least_one : (n : ℕ) → (if n == 0 then pos 1 else pos n) ≡ pos (if n == 0 then 1 else n)
at_least_one n = ground arith

count_lem :
    (l count : ℕ)
    → count + suc l < int_bound
    → (n : ℕ) × (total_pages (pos (suc l)) count ≡ pos n)
      × (count ≤ n * suc l)
      × (n * suc l ≤ count + suc l)
unfolding total_pages
count_lem l count a =
    let q : ℕ = (count + l) / suc l in
    let sum : count + suc l ≡ suc (count + l) = omega arith in
    let whole : q * suc l + (count + l) % suc l ≡ count + l = div-add-mod' (count + l) (suc l) in
    let small : (count + l) % suc l < suc l = mod-lt (count + l) (omega arith) in
    (
      if q == 0 then 1 else q,
      rw
          (
            +ℤ-pos count (suc l),
            wrap-pos (count + suc l) a,
            sum,
            -ℤ-one (count + l),
            wrap-pos (count + l) (omega arith),
          )
          (unfold quot in at_least_one q),
      ground arith,
      ground arith,
    )

module _ {ℓ} {A : Type ℓ} where
  abbrev pub page_or_nil : Option (List A) → List A
  page_or_nil none = []
  page_or_nil (some xs) = xs

  -- While nothing overflows, page k + 1 holds the tasks from k times the limit on, at most as many
  -- as the limit; a page behind the end is empty.
  pub page_of_lem :
      (xs : List A) (k l : ℕ)
      → k < int_bound
      → k * suc l + suc l < int_bound
      → page_of xs (pos (suc k)) (pos (suc l)) ≡ some (take (suc l) (drop (k * suc l) xs))
  unfolding page_of
  page_of_lem xs k l a b =
      rw (start_lem k l a (omega arith), end_lem (k * suc l) (suc l) (length xs) b)
        (elim (Bool-cases (leb (length xs) (k * suc l))) [
          | inl past ↦
              let test : (leb_ℤ (pos (length xs)) (pos (k * suc l)) || length xs == 0) ≡ true =
                ground arith in
              rw test (ap some (sym (ap (take (suc l)) (drop_all (k * suc l) xs (ground arith)))))
          | inr inside ↦
              let test : (leb_ℤ (pos (length xs)) (pos (k * suc l)) || length xs == 0) ≡ false =
                ground arith in
              rw test (slice_lem xs (k * suc l) (suc l) (ground arith))
        ])

  -- A page whose start does not fit into 63 bits, but into 64, makes the handler panic, whenever
  -- there is a task.
  page_of_overflow :
      (xs : List A) (k l : ℕ)
      → 0 < length xs
      → k < int_bound
      → int_bound ≤ k * suc l
      → k * suc l < int_mod
      → page_of xs (pos (suc k)) (pos (suc l)) ≡ none
  unfolding page_of slice
  page_of_overflow xs k l n a b c = rw (start_overflow k l a b c) (ground arith)

  -- The first n pages, one after another.
  abbrev pub pages : List A → ℕ → ℕ → List A
  pages xs l zero = []
  pages xs l (suc n) = pages xs l n ++ page_or_nil (page_of xs (pos (suc n)) (pos (suc l)))

  pages_lem :
      (xs : List A) (l n : ℕ)
      → n * suc l < int_bound
      → n < int_bound
      → pages xs l n ≡ take (n * suc l) xs
  pages_lem xs l zero a b = let e : 0 * suc l ≡ 0 = omega arith in rw e refl
  pages_lem xs l (suc n) a b =
      rw
        (
          page_of_lem xs n l (omega arith) (omega arith),
          pages_lem xs l n (omega arith) (omega arith),
        )
        (take-append-take-drop (n * suc l) (suc l) xs ∙ ap (λ (k : ℕ). take k xs) (omega arith))

  -- The pages that the response counts, read one after another, are the whole list.
  pub pages_complete :
      (xs : List A) (l : ℕ)
      → length xs + suc l < int_bound
      → (n : ℕ) × (total_pages (pos (suc l)) (length xs) ≡ pos n) × (pages xs l n ≡ xs)
  pages_complete xs l a =
      let (n, e, le, ge) = count_lem l (length xs) a in
      (n, e, pages_lem xs l n (omega arith) (omega arith) ∙ take_all (n * suc l) xs le)
