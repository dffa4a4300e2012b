-- ===== src/ManagerHttp/Auth/Laws.antt =====
-- What the middlewares of internal/manager/http/api.go let through, and what they do not.
use Prim.Native.String.{len}
use text.Mathlib.Text.{starts_with}
use minkube.Base.{
  ◌≤◌, String, List, [], ◌∷◌, Bool, true, false, some, string_eq, nat_eq, ◌||◌, ◌≡◌, ◌≢◌, ◌↔◌, inl,
  inr, refl, arith, ==_iff, contains, All, Option-cases, ◌++◌,
}
use minkube.Base.Int.{pos, ltb_ℤ}
use minkube.Base.GoMap
use minkube.Base.GoMap.{lookup-insert, lookup_or-insert, lookup-empty, lookup_or-empty}
use minkube.ManagerHttp.Auth.Token.{bearer_token}
use minkube.ManagerHttp.Auth.{
  ApiKeyInfo, ApiKeys, Request, Action, responds, serves_next, panics, grants, endpoint_permissions,
  endpoint_rate_limits, get_required_permission, get_rate_limits, method_path, auth_actions,
  api_key_auth_middleware, key_is_active, api_key_has_permissions, below_rate_limit, rate_actions,
  api_rate_limit_middleware, load_api_keys, tasks_route, serve_next_with,
}

abbrev pub NotPanic : Action → Type 0
NotPanic a = a ≢ panics

-- Whether the next handler is called.
abbrev pub has_service : List Action → Bool
has_service [] = false
has_service (serves_next ∷ acts) = true
has_service (responds n ∷ acts) = has_service acts
has_service (panics ∷ acts) = has_service acts

-- The loop over a key's permissions finds the required one or the administrator's.
pub grants_lem :
    (required : String) (ps : List String)
    → grants required ps ≡ (contains required ps || contains "admin:*" ps)
unfolding grants
grants_lem required [] = refl
grants_lem required (p ∷ ps) = ground (arith, grants_lem required ps)

method_path_delete :
    (r : Request)
    → r.method ≡ "DELETE"
    → starts_with r.path "/tasks/" ≡ true
    → method_path r ≡ "DELETE /tasks"
unfolding method_path
method_path_delete r e s = ground (arith, ==_iff r.method "DELETE")

delete_permission : (r : Request) → method_path r ≡ "DELETE /tasks" → get_required_permission r ≡ ""
unfolding get_required_permission endpoint_permissions GoMap.lookup_or GoMap.insert GoMap.empty
delete_permission r e = rw e refl

delete_limit : (r : Request) → method_path r ≡ "DELETE /tasks" → get_rate_limits r ≡ pos 0
unfolding get_rate_limits endpoint_rate_limits GoMap.lookup_or GoMap.insert GoMap.empty
delete_limit r e = rw e refl

-- A request without a table entry passes the permission check with any bearer token at all.
unlisted_unguarded :
    (keys : ApiKeys) (r : Request) (token : String)
    → bearer_token r.authorization ≡ some token
    → get_required_permission r ≡ ""
    → api_key_auth_middleware keys r ≡ serves_next ∷ []
unfolding api_key_auth_middleware
unlisted_unguarded keys r token t q = rw (t, api_key_auth_middleware, q) refl

-- Without an entry in the two tables an active key is enough, and a second response follows.
pub unlisted_route :
    (keys : ApiKeys) (r : Request) (token : String) (info : ApiKeyInfo)
    → bearer_token r.authorization ≡ some token
    → GoMap.lookup token keys ≡ some info
    → info.is_active ≡ true
    → ltb_ℤ info.current_rate (pos 0) ≡ false
    → get_required_permission r ≡ ""
    → get_rate_limits r ≡ pos 0
    → tasks_route keys r ≡ serves_next ∷ responds 401 ∷ []
unfolding tasks_route api_rate_limit_middleware key_is_active rate_actions below_rate_limit
unlisted_route keys r token info t k a n q l =
    rw (unlisted_unguarded keys r token t q) (ground arith)

-- With an active key whose rate is not negative, a request to delete a task is served, and then
-- answered once more with status 401.
pub delete_served_and_refused :
    (keys : ApiKeys) (r : Request) (token : String) (info : ApiKeyInfo)
    → r.method ≡ "DELETE"
    → starts_with r.path "/tasks/" ≡ true
    → bearer_token r.authorization ≡ some token
    → GoMap.lookup token keys ≡ some info
    → info.is_active ≡ true
    → ltb_ℤ info.current_rate (pos 0) ≡ false
    → tasks_route keys r ≡ serves_next ∷ responds 401 ∷ []
delete_served_and_refused keys r token info e s t k a n =
    let path = method_path_delete r e s in
    unlisted_route keys r token info t k a n (delete_permission r path) (delete_limit r path)

-- A request with a table entry passes the permission check exactly if its token is a known key that
-- has the required permission or the administrator's; keys of fewer than 8 bytes are left out.
pub auth_serves :
    (keys : ApiKeys) (r : Request) (token : String)
    → bearer_token r.authorization ≡ some token
    → get_required_permission r ≢ ""
    → 8 ≤ len token
    → (api_key_auth_middleware keys r ≡ serves_next ∷ []) ↔ (
        (info : ApiKeyInfo) × (GoMap.lookup token keys ≡ some info)
        × ((contains (get_required_permission r) info.permissions
              || contains "admin:*" info.permissions)
            ≡ true))
unfolding api_key_auth_middleware auth_actions api_key_has_permissions
auth_serves keys r token t q l = elim (Option-cases (GoMap.lookup token keys)) [
  | inl e ↦
      (λ h. ground (arith, ==_iff (get_required_permission r) ""), λ k. let (info, f, g) = k in cc)
  | inr (info, e) ↦ (
    λ h. (
      info,
      e,
      ground (
        arith,
        ==_iff (get_required_permission r) "",
        grants_lem (get_required_permission r) info.permissions,
      ),
    ),
    λ k.
        let (other, f, g) = k in
        ground (
          arith,
          ==_iff (get_required_permission r) "",
          grants_lem (get_required_permission r) info.permissions,
        ),
  )
]

has_service-append :
    (xs ys : List Action) → has_service (xs ++ ys) ≡ (has_service xs || has_service ys)
has_service-append [] ys = refl
has_service-append (serves_next ∷ xs) ys = refl
has_service-append (responds n ∷ xs) ys = has_service-append xs ys
has_service-append (panics ∷ xs) ys = has_service-append xs ys

-- Without a call further on there is none.
no_service :
    (next acts : List Action)
    → has_service next ≡ false
    → has_service (serve_next_with next acts) ≡ false
unfolding serve_next_with
no_service next [] h = refl
no_service next (serves_next ∷ acts) h =
    ground (arith, has_service-append next (serve_next_with next acts), no_service next acts h)
no_service next (responds n ∷ acts) h = no_service next acts h
no_service next (panics ∷ acts) h = refl

rate_needs_active :
    (keys : ApiKeys) (r : Request)
    → has_service (api_rate_limit_middleware keys r) ≡ true
    → (token : String) × (info : ApiKeyInfo) × (bearer_token r.authorization ≡ some token)
      × (GoMap.lookup token keys ≡ some info)
      × (info.is_active ≡ true)
unfolding api_rate_limit_middleware key_is_active
rate_needs_active keys r h = elim (Option-cases (bearer_token r.authorization)) [
  | inl e ↦ absurd (ground arith)
  | inr (token, e) ↦ elim (Option-cases (GoMap.lookup token keys)) [
    | inl f ↦ absurd (ground arith)
    | inr (info, f) ↦ (token, info, e, f, ground arith)
  ]
]

-- Whatever the request, the handler of a /tasks route runs only for a token that is an active key.
pub handler_needs_active_key :
    (keys : ApiKeys) (r : Request)
    → has_service (tasks_route keys r) ≡ true
    → (token : String) × (info : ApiKeyInfo) × (bearer_token r.authorization ≡ some token)
      × (GoMap.lookup token keys ≡ some info)
      × (info.is_active ≡ true)
unfolding tasks_route
handler_needs_active_key keys r h =
    rate_needs_active keys r (
      ground
        (arith, no_service (api_rate_limit_middleware keys r) (api_key_auth_middleware keys r)))

-- Every key of the configuration has at least 8 bytes.
abbrev AllLong : ApiKeys → Type 0
AllLong keys = (t : String) (i : ApiKeyInfo) → GoMap.lookup t keys ≡ some i → 8 ≤ len t

AllLong-insert :
    (k : String) (v : ApiKeyInfo) (keys : ApiKeys)
    → 8 ≤ len k
    → AllLong keys
    → AllLong (GoMap.insert k v keys)
AllLong-insert k v keys l a t i h = ground (arith, ==_iff k t, lookup-insert k t v keys, a t i)

load_api_keys-AllLong : AllLong load_api_keys
unfolding load_api_keys
load_api_keys-AllLong = AllLong-insert _ _ _ (omega arith) (
    AllLong-insert _ _ _ (omega arith) (
      AllLong-insert _ _ _ (omega arith) (
        AllLong-insert _ _ _ (omega arith)
          (λ t i h. ground (arith, lookup-empty {V = ApiKeyInfo} t)))))

-- With the keys of loadAPIKeys no middleware panics, whatever the request.
loaded_keys_safe :
    (r : Request)
    → (All NotPanic (api_key_auth_middleware load_api_keys r))
      × (All NotPanic (api_rate_limit_middleware load_api_keys r))
unfolding api_key_auth_middleware api_rate_limit_middleware auth_actions rate_actions key_is_active
    api_key_has_permissions below_rate_limit
loaded_keys_safe r = elim (Option-cases (bearer_token r.authorization)) [
  | inl e ↦ (ground arith, ground arith)
  | inr (token, e) ↦ elim (Option-cases (GoMap.lookup token load_api_keys)) [
    | inl f ↦ (ground arith, ground arith)
    | inr (info, f) ↦
        let long : 8 ≤ len token = load_api_keys-AllLong token info f in
        (ground arith, ground arith)
  ]
]

-- The read-only key is inactive, so every request with it is refused by the rate limiter.
readonly_refused :
    (r : Request)
    → bearer_token r.authorization ≡ some "mk_readonly_def456"
    → api_rate_limit_middleware load_api_keys r ≡ responds 403 ∷ []
unfolding api_rate_limit_middleware key_is_active load_api_keys GoMap.lookup GoMap.insert
    GoMap.empty
readonly_refused r t = rw (t, api_rate_limit_middleware) refl
