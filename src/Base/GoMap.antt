-- ===== src/Base/GoMap.antt =====
-- Go's built-in map: what reads, writes and `delete` do, with the laws that clients use. The
-- representation stays in this file. A range over a map visits its keys in an order that the
-- runtime chooses; the loops that range over a map take that order as an argument.
use mathlib.Core.Path.{◌≡◌, refl}
use mathlib.Core.Option.{Option, none, some}
use mathlib.Core.List.{List, [], ◌∷◌}
use native.Mathlib.Omega.{arith}
use minkube.Base.Tests.{if◌then◌else◌}
use minkube.Base.Eq.{Eq, ◌==◌}

pub record GoMap (K V : Type 0) : Type 0 where
  entries : List (K × V)

module _ {K V : Type 0} where
  -- `make(map[K]V)`
  unfoldable pub empty : GoMap K V
  empty = record { entries = [] }

module _ {K V : Type 0} ⦃e : Eq K⦄ where
  find : K → List (K × V) → Option V
  find k [] = none
  find k ((j, v) ∷ m) = if j == k then some v else find k m

  remove : K → List (K × V) → List (K × V)
  remove k [] = []
  remove k ((j, v) ∷ m) = let rest = remove k m in if j == k then rest else (j, v) ∷ rest

  -- `v, ok := m[k]`
  unfoldable pub lookup : K → GoMap K V → Option V
  unfolding find
  lookup k m = find k m.entries

  -- `m[k] = v`
  unfoldable pub insert : K → V → GoMap K V → GoMap K V
  unfolding remove
  insert k v m = record { entries = (k, v) ∷ remove k m.entries }

  -- `delete(m, k)`
  unfoldable pub delete : K → GoMap K V → GoMap K V
  unfolding remove
  delete k m = record { entries = remove k m.entries }

  -- `m[k]`, where a missing key reads as the zero value of the type.
  unfoldable pub lookup_or : K → V → GoMap K V → V
  unfolding lookup
  lookup_or k zero_value m = elim (lookup k m) [ none ↦ zero_value | some v ↦ v ]

  find-remove :
      (k j : K) (m : List (K × V)) → find j (remove k m) ≡ (if k == j then none else find j m)
  unfolding find remove
  find-remove k j [] = ground arith
  find-remove k j ((i, w) ∷ m) =
      ground (arith, e.test_iff k j, e.test_iff i k, e.test_iff i j, find-remove k j m)

  pub lookup-empty : (k : K) → lookup k empty ≡ none
  unfolding lookup empty
  lookup-empty k = refl

  pub lookup-insert :
      (k j : K) (v : V) (m : GoMap K V)
      → lookup j (insert k v m) ≡ (if k == j then some v else lookup j m)
  unfolding lookup insert find
  lookup-insert k j v m = ground (arith, find-remove k j m.entries)

  pub lookup-delete :
      (k j : K) (m : GoMap K V) → lookup j (delete k m) ≡ (if k == j then none else lookup j m)
  unfolding lookup delete
  lookup-delete k j m = find-remove k j m.entries

  pub lookup_or-empty : (k : K) (d : V) → lookup_or k d empty ≡ d
  unfolding lookup_or empty
  lookup_or-empty k d = refl

  pub lookup_or-insert :
      (k j : K) (d v : V) (m : GoMap K V)
      → lookup_or j d (insert k v m) ≡ (if k == j then v else lookup_or j d m)
  unfolding lookup_or insert find
  lookup_or-insert k j d v m = ground (arith, find-remove k j m.entries)

  pub lookup_or-some : (k : K) (d v : V) (m : GoMap K V) → lookup k m ≡ some v → lookup_or k d m ≡ v
  unfolding lookup_or
  lookup_or-some k d v m h = ground arith

pub ruleset map_laws =
    (lookup-empty, lookup-insert, lookup-delete, lookup_or-empty, lookup_or-insert)
