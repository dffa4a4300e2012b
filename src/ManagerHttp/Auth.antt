-- ===== src/ManagerHttp/Auth.antt =====
-- internal/manager/http/api.go: bearer tokens, API keys, permissions and rate limits.
pub mod Token
pub mod Laws
use Prim.Native.String.{◌++◌ as str_append, len}
use text.Mathlib.Text.{starts_with}
use minkube.Base.{
  ℕ, ◌≤◌, String, List, [], ◌∷◌, Bool, true, false, Option, none, some, string_eq, nat_eq, ◌==◌,
  if◌then◌else◌, ◌&&◌, ◌||◌, leb, ◌++◌,
}
use minkube.Base.Int.{ℤ, pos, negsuc, ltb_ℤ}
use minkube.Base.GoMap
use minkube.Base.GoMap.{GoMap}
use Token.{bearer_token}

pub record ApiKeyInfo : Type 0 where
  pub permissions : List String
  pub description : String
  pub current_rate : ℤ
  pub rate_limits : ℤ
  pub is_active : Bool
  pub expires_at : String

abbrev pub ApiKeys : Type 0
ApiKeys = GoMap String ApiKeyInfo

-- The parts of an `http.Request` that the middlewares read: its method, the path of its URL, and
-- its Authorization header, empty if there is none.
pub record Request : Type 0 where
  pub method : String
  pub path : String
  pub authorization : String

pub data AuthError : Type 0 where
  key_does_not_exist key_inactive key_not_found insufficient_permissions above_rate_limit :
      AuthError

unfoldable pub endpoint_permissions : GoMap String String
endpoint_permissions = GoMap.insert "POST /tasks" "tasks:write" (
    GoMap.insert "GET /tasks" "tasks:read"
      (GoMap.insert "DELETE /tasks/*" "tasks:write" GoMap.empty))

unfoldable pub endpoint_rate_limits : GoMap String ℤ
endpoint_rate_limits =
    GoMap.insert "POST /tasks" (pos 400)
      (GoMap.insert "GET /tasks" (pos 5000) (GoMap.insert "DELETE /tasks/*" (pos 400) GoMap.empty))

-- `keyIsActive`: `none` is `true, nil`; an error comes with `false`.
unfoldable pub key_is_active : ApiKeys → String → Option AuthError
key_is_active keys api_key = elim (GoMap.lookup api_key keys) [
  | none ↦ some key_does_not_exist
  | some info ↦ if info.is_active then none else some key_inactive
]

-- The loop over the permissions of a key.
unfoldable pub grants : String → List String → Bool
grants required [] = false
grants required (permission ∷ rest) =
    (permission == required || permission == "admin:*") || grants required rest

-- `ApiKeyHasPermissions`, in the same form.
unfoldable pub api_key_has_permissions : ApiKeys → String → String → Option AuthError
unfolding grants
api_key_has_permissions keys api_key required = elim (GoMap.lookup api_key keys) [
  | none ↦ some key_not_found
  | some info ↦ if grants required info.permissions then none else some insufficient_permissions
]

-- The key under which a request is looked up in the two tables.
unfoldable pub method_path : Request → String
method_path r =
    if r.method == "DELETE" && starts_with r.path "/tasks/"
    then "DELETE /tasks"
    else str_append r.method (str_append " " r.path)

unfoldable pub get_rate_limits : Request → ℤ
get_rate_limits r = GoMap.lookup_or (method_path r) (pos 0) endpoint_rate_limits

unfoldable pub get_required_permission : Request → String
get_required_permission r = GoMap.lookup_or (method_path r) "" endpoint_permissions

unfoldable pub below_rate_limit : ApiKeys → String → ℤ → Option AuthError
below_rate_limit keys api_key required = elim (GoMap.lookup api_key keys) [
  | none ↦ some key_does_not_exist
  | some info ↦ if ltb_ℤ info.current_rate required then none else some above_rate_limit
]

-- What a middleware does, in order: it writes an error response with a status, or calls the next
-- handler. `panics` is a slice out of range.
pub data Action : Type 0 where
  responds : ℕ → Action
  serves_next : Action
  panics : Action

-- `apiKey[:8]`, which the log line evaluates.
abbrev pub sliceable : String → Bool
sliceable api_key = leb 8 (len api_key)

-- What follows the token in ApiKeyAuthMiddleware.
unfoldable pub auth_actions : ApiKeys → String → String → List Action
unfolding api_key_has_permissions
auth_actions keys api_key required =
    if required == ""
    then serves_next ∷ []
    else elim (api_key_has_permissions keys api_key required) [
      | some e ↦ responds 403 ∷ []
      | none ↦ (if sliceable api_key then serves_next else panics) ∷ []
    ]

unfoldable pub api_key_auth_middleware : ApiKeys → Request → List Action
unfolding auth_actions
api_key_auth_middleware keys r = elim (bearer_token r.authorization) [
  | none ↦ responds 401 ∷ []
  | some api_key ↦ auth_actions keys api_key (get_required_permission r)
]

-- `rateLimitAllowed == 0`
abbrev pub is_zero : ℤ → Bool
is_zero (pos n) = n == 0
is_zero (negsuc n) = false

-- What follows the check of an active key in ApiRateLimitMiddleware. With no limit for the request
-- the next handler is called, and the function goes on.
unfoldable pub rate_actions : ApiKeys → String → ℤ → List Action
unfolding below_rate_limit
rate_actions keys api_key allowed =
    let rest : List Action = elim (below_rate_limit keys api_key allowed) [
      | some e ↦ responds 401 ∷ []
      | none ↦ (if sliceable api_key then serves_next else panics) ∷ []
    ] in
    if is_zero allowed then serves_next ∷ rest else rest

unfoldable pub api_rate_limit_middleware : ApiKeys → Request → List Action
unfolding key_is_active rate_actions
api_rate_limit_middleware keys r = elim (bearer_token r.authorization) [
  | none ↦ responds 401 ∷ []
  | some api_key ↦ elim (key_is_active keys api_key) [
    | some e ↦ responds 403 ∷ []
    | none ↦ rate_actions keys api_key (get_rate_limits r)
  ]
]

-- CorrelationMiddleware: the request's own ID, or a new one.
unfoldable pub correlation_id : String → String → String
correlation_id header fresh = if header == "" then fresh else header

-- `loadAPIKeys`
unfoldable pub load_api_keys : ApiKeys
load_api_keys =
    GoMap.insert "mk_manager_internal"
      (record {
        permissions = "admin:*" ∷ [];
        description = "Manager API key";
        current_rate = pos 0;
        rate_limits = pos 10000;
        is_active = true;
        expires_at = "";
      })
      (GoMap.insert "mk_admin_xyz789"
        (record {
          permissions = "admin:*" ∷ [];
          description = "Admin access key";
          current_rate = pos 0;
          rate_limits = pos 5000;
          is_active = true;
          expires_at = "2030-09-09";
        })
        (GoMap.insert "mk_client_abc123"
          (record {
            permissions = "tasks:read" ∷ "tasks:write" ∷ [];
            description = "Client application key";
            current_rate = pos 0;
            rate_limits = pos 500;
            is_active = true;
            expires_at = "2029-04-02";
          })
          (GoMap.insert "mk_readonly_def456"
            (record {
              permissions = "tasks:read" ∷ [];
              description = "Read-only access key";
              current_rate = pos 0;
              rate_limits = pos 1000;
              is_active = false;
              expires_at = "";
            })
            GoMap.empty)))

-- The middlewares of the /tasks routes in the order of `initRouter`: where one calls the next
-- handler, the actions of the next stand in its place. The last one is the route's handler, and
-- CorrelationMiddleware always calls it.
unfoldable pub serve_next_with : List Action → List Action → List Action
serve_next_with next [] = []
serve_next_with next (serves_next ∷ rest) = next ++ serve_next_with next rest
serve_next_with next (responds status ∷ rest) = responds status ∷ serve_next_with next rest
serve_next_with next (panics ∷ rest) = panics ∷ []

unfoldable pub tasks_route : ApiKeys → Request → List Action
unfolding serve_next_with
tasks_route keys r =
    serve_next_with (api_rate_limit_middleware keys r) (api_key_auth_middleware keys r)
