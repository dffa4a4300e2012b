-- ===== src/WorkerHttp/Paging.antt =====
-- internal/worker/http/handlers.go: GetTasksHandler.
pub mod Laws
use minkube.Base.{
  ℕ, String, List, [], ◌∷◌, Bool, true, false, Option, none, some, string_eq, ◌==◌, if◌then◌else◌,
  ◌&&◌, leb, length,
}
use minkube.Base.Int.{ℤ, pos, negsuc, wrap, ◌+ℤ◌, ◌-ℤ◌, ◌*ℤ◌, ltb_ℤ, leb_ℤ, quot}
use minkube.Base.Strconv.{atoi}
use minkube.Http.{Response, success, panic, slice}
use minkube.Task.{Task, Uuid}
use minkube.Worker.Service.{Worker, collect}

-- `err == nil && p > 0`
abbrev pub or_default : ℤ → Option ℤ → ℤ
or_default d none = d
or_default d (some n) = if ltb_ℤ (pos 0) n then n else d

-- A query parameter that is empty, no number or not positive leaves the default.
unfoldable pub parse_page : String → ℤ
parse_page s = if s == "" then pos 1 else or_default (pos 1) (atoi s)

-- The test of the limit is on the default, which is at most 1000.
unfoldable pub parse_limit : String → ℤ
parse_limit s =
    if s == ""
    then pos 100
    else (if leb_ℤ (pos 100) (pos 1000) then or_default (pos 100) (atoi s) else pos 100)

-- The two indices of a page, before and after they are cut to the number of tasks.
unfoldable pub page_start : ℤ → ℤ → ℤ
page_start page limit = wrap (wrap (page -ℤ pos 1) *ℤ limit)

unfoldable pub page_bounds : ℤ → ℤ → ℕ → ℤ × ℤ
page_bounds start limit total =
    let end = wrap (start +ℤ limit) in
    if leb_ℤ (pos total) start
    then (pos total, pos total)
    else (if ltb_ℤ (pos total) end then (start, pos total) else (start, end))

-- The tasks of a page; `none` is the panic of the slice.
unfoldable pub page_of {ℓ} : {A : Type ℓ} → List A → ℤ → ℤ → Option (List A)
unfolding page_start page_bounds
page_of xs page limit =
    let (start, end) = page_bounds (page_start page limit) limit (length xs) in
    if ltb_ℤ start end then slice xs start end else some []

unfoldable pub total_pages : ℤ → ℕ → ℤ
total_pages limit total = quot (wrap (wrap (pos total +ℤ limit) -ℤ pos 1)) limit

pub record TasksResponse : Type 0 where
  pub tasks : List Task
  pub page : ℤ
  pub limit : ℤ
  pub total_tasks : ℤ
  pub total_pages : ℤ
  pub has_next : Bool
  pub has_prev : Bool

unfoldable pub tasks_response : ℤ → ℤ → List Task → Response TasksResponse
unfolding page_of total_pages
tasks_response page limit ts = elim (page_of ts page limit) [
  | none ↦ panic
  | some paged ↦ success 200 (record {
    tasks = paged;
    page = page;
    limit = limit;
    total_tasks = pos (length ts);
    total_pages = total_pages limit (length ts);
    has_next = ltb_ℤ page (total_pages limit (length ts));
    has_prev = ltb_ℤ (pos 1) page;
  })
]

-- `order` is the order in which the table is visited under the read lock.
unfoldable pub get_tasks_handler :
    {Q D : Type 0} → String → String → List Uuid → Worker Q D → Response TasksResponse
unfolding parse_page parse_limit tasks_response
get_tasks_handler page_str limit_str order w =
    tasks_response (parse_page page_str) (parse_limit limit_str) (collect order w)
