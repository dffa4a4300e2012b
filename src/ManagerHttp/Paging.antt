-- ===== src/ManagerHttp/Paging.antt =====
-- internal/manager/http/handlers.go: parsePaginationParams and GetTasksHandler.
pub mod Laws
use minkube.Base.{
  ℕ, ◌-◌, String, List, [], ◌∷◌, Bool, true, false, Option, none, some, string_eq, nat_eq, ◌==◌,
  if◌then◌else◌, ◌&&◌, ◌||◌, leb, length, take, drop, map,
}
use minkube.Base.Int.{ℤ, pos, negsuc, wrap, ◌+ℤ◌, ◌-ℤ◌, ◌*ℤ◌, ltb_ℤ, leb_ℤ, min_ℤ, quot}
use minkube.Base.Strconv.{atoi}
use minkube.Http.{Response, success, failure, panic, slice}
use minkube.Heap.{Heap, Ptr}
use minkube.Manager.{Manager}
use minkube.Task.{Task}

-- A query parameter: the number, or the default if it is empty; `none` is an error.
abbrev pub checked : (ℤ → Bool) → Option ℤ → Option ℤ
checked valid none = none
checked valid (some n) = if valid n then some n else none

abbrev pub valid_page : ℤ → Bool
valid_page n = leb_ℤ (pos 1) n

abbrev pub valid_limit : ℤ → Bool
valid_limit n = leb_ℤ (pos 1) n && leb_ℤ n (pos 1000)

unfoldable pub parse_page : String → Option ℤ
parse_page s = if s == "" then some (pos 1) else checked valid_page (atoi s)

unfoldable pub parse_limit : String → Option ℤ
parse_limit s = if s == "" then some (pos 100) else checked valid_limit (atoi s)

abbrev pub both : Option ℤ → Option ℤ → Option (ℤ × ℤ)
both none limit = none
both (some page) none = none
both (some page) (some limit) = some (page, limit)

unfoldable pub parse_pagination_params : String → String → Option (ℤ × ℤ)
unfolding parse_page parse_limit
parse_pagination_params page_str limit_str = both (parse_page page_str) (parse_limit limit_str)

pub record PaginationMetadata : Type 0 where
  pub page : ℤ
  pub limit : ℤ
  pub total_tasks : ℤ
  pub total_pages : ℤ
  pub has_next : Bool
  pub has_prev : Bool

-- A task that is `null` in the response is `none`.
pub record PaginatedTaskResponse : Type 0 where
  pub tasks : List (Option Task)
  pub pagination_metadata : PaginationMetadata

-- The loop that copies the tasks of a page.
abbrev pub copy_tasks : Heap → List Ptr → List (Option Task)
copy_tasks h = map λ p. if p == 0 then none else some (h.cell p)

unfoldable pub start_of_page : ℤ → ℤ → ℤ
start_of_page page limit = wrap (wrap (page -ℤ pos 1) *ℤ limit)

unfoldable pub end_of_page : ℤ → ℤ → ℕ → ℤ
end_of_page start limit count = min_ℤ (wrap (start +ℤ limit)) (pos count)

-- The tasks of a page; `none` is the panic of the slice.
unfoldable pub page_of {ℓ} : {A : Type ℓ} → List A → ℤ → ℤ → Option (List A)
page_of xs page limit =
    let count = length xs in
    let start = start_of_page page limit in
    if leb_ℤ (pos count) start || count == 0
    then some []
    else slice xs start (end_of_page start limit count)

-- `if totalPages == 0 { totalPages = 1 }`
abbrev pub or_one : ℤ → ℤ
or_one (pos n) = if n == 0 then pos 1 else pos n
or_one (negsuc n) = negsuc n

unfoldable pub total_pages : ℤ → ℕ → ℤ
total_pages limit count = or_one (quot (wrap (wrap (pos count +ℤ limit) -ℤ pos 1)) limit)

unfoldable pub metadata : ℤ → ℤ → ℕ → PaginationMetadata
metadata page limit count = record {
  page = page;
  limit = limit;
  total_tasks = pos count;
  total_pages = total_pages limit count;
  has_next = ltb_ℤ (end_of_page (start_of_page page limit) limit count) (pos count);
  has_prev = ltb_ℤ (pos 1) page;
}

module _ {Q : Type 0} where
  unfoldable pub page_response : ℤ → ℤ → Manager Q → Response PaginatedTaskResponse
  unfolding page_of metadata
  page_response page limit m = elim (page_of m.sorted_tasks page limit) [
    | none ↦ panic
    | some ps ↦ success 200 (record {
      tasks = copy_tasks m.heap ps;
      pagination_metadata = metadata page limit (length m.sorted_tasks);
    })
  ]

  -- The two strings are the query parameters, empty if they are not given.
  unfoldable pub get_tasks_handler : String → String → Manager Q → Response PaginatedTaskResponse
  unfolding parse_pagination_params page_response
  get_tasks_handler page_str limit_str m = elim (parse_pagination_params page_str limit_str) [
    | none ↦ failure 400
    | some (page, limit) ↦ page_response page limit m
  ]
