-- ===== src/Http.antt =====
-- What the handlers of internal/manager/http and internal/worker/http share: responses and Go's
-- slice expression.
pub mod Laws
use minkube.Base.{ℕ, ◌-◌, List, Option, none, some, if◌then◌else◌, ◌&&◌, leb, length, take, drop}
use minkube.Base.Int.{ℤ, pos, negsuc}

-- A response by its status, the texts of error messages left out; or a panic of the handler.
pub data Response {ℓ} (A : Type ℓ) : Type ℓ where
  success : ℕ → A → Response A
  failure : ℕ → Response A
  panic : Response A

-- What a client sees of it: a response with its status, or a panic.
pub data Answer : Type 0 where
  answered : (status : ℕ) → Answer
  panicked : Answer

abbrev pub answer_of {ℓ} : {A : Type ℓ} → Response A → Answer
answer_of (success status a) = answered status
answer_of (failure status) = answered status
answer_of panic = panicked

-- `xs[start:end]`; `none` is a panic. The end is at most the length wherever the program slices.
unfoldable pub slice {ℓ} : {A : Type ℓ} → List A → ℤ → ℤ → Option (List A)
slice xs (pos i) (pos j) =
    if leb i j && leb j (length xs) then some (take (j - i) (drop i xs)) else none
slice xs (pos i) (negsuc j) = none
slice xs (negsuc i) end = none
