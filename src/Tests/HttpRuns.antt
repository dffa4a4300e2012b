-- ===== src/Tests/HttpRuns.antt =====
-- internal/manager/http: the theorems on requests at concrete requests.
use minkube.Base.{
  ℕ, String, List, [], ◌∷◌, true, false, Option, some, none, ◌≡◌, ◌≢◌, ap, ◌↔◌, refl, arith,
  contains, nat_eq, string_eq, ◌==◌, ◌||◌, ◌&&◌, not, leb, ◌++◌,
}
use minkube.Base.Int.{pos, wrap, ◌*ℤ◌}
use minkube.Base.GoMap
use minkube.Base.Strconv.{atoi}
use minkube.Manager.{Manager, new, is_worker_healthy, is_worker_ready}
use minkube.Manager.Health.{health_check_workers}
use minkube.Manager.Select.Laws.{schedulable}
use minkube.Manager.Send.{send_work, created}
use minkube.Manager.Send.Laws.{Recorded}
use minkube.ManagerHttp.Auth.{
  ApiKeyInfo, Request, responds, serves_next, api_key_auth_middleware, api_rate_limit_middleware,
  get_required_permission, method_path, load_api_keys, tasks_route, endpoint_permissions,
  endpoint_rate_limits, get_rate_limits,
}
use minkube.ManagerHttp.Auth.Laws.{auth_serves, delete_served_and_refused, has_service}
use minkube.ManagerHttp.Auth.Token.{bearer_token}
use minkube.ManagerHttp.Handlers.{
  is_valid_request, full_task, start_task_handler, stop_task_handler,
}
use minkube.ManagerHttp.Handlers.Laws.{is_valid_request_lem, start_task_accepted, stop_starts_again}
use minkube.ManagerHttp.Paging.{parse_pagination_params, total_pages}
use minkube.ManagerHttp.Paging.Laws.{pages_complete, pages}
use minkube.Task.{completed}
use minkube.Http.{success}
use minkube.Tests.{fifo, healthy, busy, request, event_request}

-- A parser of IDs that knows one text.
abbrev parse_seven : String → Option ℕ
parse_seven s = elim (s == "seven") [ true ↦ some 7 | false ↦ none ]

is_valid_request_lem_example :
    is_valid_request request ≡ (not (request.name == "") && (not (request.image == "") && leb 6 6))
is_valid_request_lem_example = is_valid_request_lem request 6 refl (omega arith)

request_is_valid : is_valid_request request ≡ true
unfolding is_valid_request wrap ◌*ℤ◌
request_is_valid = refl

start_task_accepted_example :
    let t = full_task 8 300 "c2" request in
    let r = start_task_handler 8 300 "c2" (some event_request) busy in
    (r.1 ≡ success 201 (record { id = 8; state = t.state; timestamp = 300; task = t }))
    × (r.0.pending_tasks ≡ busy.pending_tasks ++ busy.heap.next ∷ [])
    × (GoMap.lookup 8 r.0.task_db ≡ some busy.heap.next)
    × (r.0.heap.cell busy.heap.next ≡ t)
start_task_accepted_example = start_task_accepted 8 300 "c2" event_request busy request_is_valid

-- The healthy manager with the task of ID 7 in its table and nothing in its queue.
abbrev idle : Manager (List ℕ)
idle = record healthy { task_db = GoMap.insert 7 1 GoMap.empty }

idle-table : GoMap.lookup 7 idle.task_db ≡ some 1
unfolding GoMap.lookup GoMap.insert
idle-table = refl

idle-queue : idle.pending_tasks ≡ []
unfolding health_check_workers new
idle-queue = refl

idle-schedulable : schedulable idle ≡ "w1" ∷ "w2" ∷ []
unfolding schedulable health_check_workers new is_worker_healthy GoMap.lookup_or GoMap.insert
    is_worker_ready
idle-schedulable = refl

stop_starts_again_example :
    let stopped = (stop_task_handler parse_seven "seven" idle).0 in
    ((stopped.heap.cell 1).state ≡ completed)
    × ((m' : Manager (List ℕ)) × (w : String) × (send_work 9 200 created stopped ≡ some m')
        × Recorded m' 1 w)
stop_starts_again_example =
    stop_starts_again parse_seven "seven" 7 1 9 200 idle "w1" ("w2" ∷ []) refl refl idle-table
      idle-queue idle-schedulable

abbrev get_request : Request
get_request = record { method = "GET"; path = "/tasks"; authorization = "Bearer mk_client_abc123" }

abbrev delete_request : Request
delete_request = record {
  method = "DELETE";
  path = "/tasks/1";
  authorization = "Bearer mk_client_abc123";
}

abbrev readonly_request : Request
readonly_request = record {
  method = "GET";
  path = "/tasks";
  authorization = "Bearer mk_readonly_def456";
}

get_token : bearer_token get_request.authorization ≡ some "mk_client_abc123"
unfolding bearer_token
get_token = refl

get_has_entry : get_required_permission get_request ≢ ""
unfolding get_required_permission GoMap.lookup_or endpoint_permissions GoMap.insert method_path
get_has_entry e = let absurd_test : false ≡ true = ap (λ s. s == "") e in ground arith

auth_serves_example : (api_key_auth_middleware load_api_keys get_request ≡ serves_next ∷ []) ↔ (
    (info : ApiKeyInfo) × (GoMap.lookup "mk_client_abc123" load_api_keys ≡ some info)
    × ((contains (get_required_permission get_request) info.permissions
          || contains "admin:*" info.permissions)
        ≡ true))
auth_serves_example =
    auth_serves load_api_keys get_request "mk_client_abc123" get_token get_has_entry (omega arith)

get_is_served : has_service (tasks_route load_api_keys get_request) ≡ true
unfolding tasks_route api_key_auth_middleware bearer_token get_required_permission GoMap.lookup_or
    endpoint_permissions GoMap.insert method_path load_api_keys api_rate_limit_middleware
    get_rate_limits endpoint_rate_limits
get_is_served = refl

abbrev client_info : ApiKeyInfo
client_info = record {
  permissions = "tasks:read" ∷ "tasks:write" ∷ [];
  description = "Client application key";
  current_rate = pos 0;
  rate_limits = pos 500;
  is_active = true;
  expires_at = "2029-04-02";
}

client_known : GoMap.lookup "mk_client_abc123" load_api_keys ≡ some client_info
unfolding GoMap.lookup load_api_keys GoMap.insert
client_known = refl

delete_served_and_refused_example :
    tasks_route load_api_keys delete_request ≡ serves_next ∷ responds 401 ∷ []
delete_served_and_refused_example =
    delete_served_and_refused load_api_keys delete_request "mk_client_abc123" client_info refl refl
      get_token client_known refl refl

readonly_token : bearer_token readonly_request.authorization ≡ some "mk_readonly_def456"
unfolding bearer_token
readonly_token = refl

abbrev five : List ℕ
five = 10 ∷ 11 ∷ 12 ∷ 13 ∷ 14 ∷ []

pages_complete_example : (n : ℕ) × (total_pages (pos 2) 5 ≡ pos n) × (pages five 1 n ≡ five)
pages_complete_example = pages_complete five 1 (omega arith)

params_accepted : parse_pagination_params "3" "20" ≡ some (pos 3, pos 20)
unfolding parse_pagination_params atoi
params_accepted = refl
