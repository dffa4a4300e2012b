-- ===== src/Tests/ServeRuns.antt =====
-- Requests to the /tasks routes of a manager.
use minkube.Base.{
  ℕ, String, [], ◌∷◌, true, false, Option, none, some, ◌≡◌, ◌≢◌, refl, arith, string_eq, ◌==◌, ap,
  sym, ◌∙◌,
}
use minkube.Base.GoMap
use minkube.Base.Int.{pos, wrap, ◌*ℤ◌}
use minkube.ManagerHttp.Auth.{
  ApiKeyInfo, ApiKeys, load_api_keys, correlation_id, get_required_permission, get_rate_limits,
  endpoint_permissions, endpoint_rate_limits, method_path,
}
use minkube.ManagerHttp.Auth.Token.{bearer_token}
use minkube.ManagerHttp.Handlers.{full_task, submit_task, is_valid_request}
use minkube.Http.{answered}
use minkube.ManagerHttp.Serve.{Call, Fresh, start_task, call_handler, serve}
use minkube.ManagerHttp.Serve.Laws.{
  no_key_no_change, permitted_served_once, slash_bypasses_permissions,
}
use minkube.Tests.{fifo, busy, event_request}
use minkube.Task.{Uuid}

abbrev no_uuid : String → Option Uuid
no_uuid s = none

abbrev numbered : ℕ → Fresh
numbered n = record { correlation = "r"; id = 9; now = 300 }

-- A request to start a task, by its path and its Authorization header.
abbrev post_with : String → String → Call
post_with path authorization = record {
  request = record { method = "POST"; path = path; authorization = authorization };
  endpoint = start_task;
  x_request_id = "";
  body = some event_request;
  page = "";
  limit = "";
}

abbrev anonymous : Call
anonymous = post_with "/tasks" ""

abbrev by_client : Call
by_client = post_with "/tasks" "Bearer mk_client_abc123"

abbrev by_reader : Call
by_reader = post_with "/tasks/" "Bearer mk_reader_1"

no_token : bearer_token "" ≡ none
unfolding bearer_token
no_token = refl

no_key_no_change_example : (serve no_uuid load_api_keys numbered anonymous busy).0 ≡ busy
no_key_no_change_example =
    no_key_no_change no_uuid load_api_keys numbered anonymous busy
      (λ token info e. ground (arith, no_token, e))

client_token : bearer_token "Bearer mk_client_abc123" ≡ some "mk_client_abc123"
unfolding bearer_token
client_token = refl

abbrev client : ApiKeyInfo
client = record {
  permissions = "tasks:read" ∷ "tasks:write" ∷ [];
  description = "Client application key";
  current_rate = pos 0;
  rate_limits = pos 500;
  is_active = true;
  expires_at = "2029-04-02";
}

client_loaded : GoMap.lookup "mk_client_abc123" load_api_keys ≡ some client
unfolding GoMap.lookup load_api_keys GoMap.insert
client_loaded = refl

write_permission : get_required_permission by_client.request ≡ "tasks:write"
unfolding get_required_permission GoMap.lookup_or endpoint_permissions GoMap.insert method_path
write_permission = refl

post_limit : get_rate_limits by_client.request ≡ pos 400
unfolding get_rate_limits GoMap.lookup_or endpoint_rate_limits GoMap.insert method_path
post_limit = refl

permission_needed : get_required_permission by_client.request ≢ ""
permission_needed e =
    let test : false ≡ true = ap (λ (s : String). s == "") (sym write_permission ∙ e) in
    ground arith

permitted_served_once_example :
    let handled = call_handler no_uuid start_task (numbered 0) by_client busy in
    serve no_uuid load_api_keys numbered by_client busy ≡ (handled.0, handled.1 ∷ [])
permitted_served_once_example =
    permitted_served_once no_uuid load_api_keys numbered by_client busy "mk_client_abc123" client
      399 client_token client_loaded refl (omega arith) permission_needed (rw write_permission refl)
      post_limit refl

-- An active key that may only read.
abbrev reader : ApiKeyInfo
reader = record {
  permissions = "tasks:read" ∷ [];
  description = "";
  current_rate = pos 0;
  rate_limits = pos 0;
  is_active = true;
  expires_at = "";
}

abbrev reader_keys : ApiKeys
reader_keys = GoMap.insert "mk_reader_1" reader GoMap.empty

reader_known : GoMap.lookup "mk_reader_1" reader_keys ≡ some reader
unfolding GoMap.lookup GoMap.insert
reader_known = refl

reader_token : bearer_token "Bearer mk_reader_1" ≡ some "mk_reader_1"
unfolding bearer_token
reader_token = refl

request_valid : is_valid_request event_request.task ≡ true
unfolding is_valid_request wrap ◌*ℤ◌
request_valid = refl

slash_bypasses_permissions_example : serve no_uuid reader_keys numbered by_reader busy ≡ (
  submit_task (full_task 9 300 (correlation_id "" "r") event_request.task) busy,
  answered 201 ∷ answered 401 ∷ [],
)
slash_bypasses_permissions_example =
    slash_bypasses_permissions no_uuid reader_keys numbered by_reader busy "mk_reader_1" reader refl
      refl refl reader_token reader_known refl refl event_request refl request_valid
