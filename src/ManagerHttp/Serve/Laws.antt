-- ===== src/ManagerHttp/Serve/Laws.antt =====
-- What a request to the /tasks routes does to the manager.
use Prim.Native.String.{len}
use minkube.Base.{
  ℕ, suc, ◌≤◌, String, List, [], ◌∷◌, true, false, Option, some, ◌≡◌, ◌≢◌, ◌||◌, refl, ap, arith,
  string_eq, nat_eq, ==_iff, contains, Bool-cases, inl, inr,
}
use minkube.Base.GoMap
use minkube.Base.Int.{pos, ltb_ℤ}
use minkube.Base.Queue.{QueueOps}
use minkube.Manager.{Manager}
use minkube.ManagerHttp.Auth.{
  ApiKeyInfo, ApiKeys, Request, Action, responds, serves_next, panics, tasks_route,
  api_key_auth_middleware, api_rate_limit_middleware, auth_actions, api_key_has_permissions,
  key_is_active, rate_actions, below_rate_limit, get_required_permission, get_rate_limits,
  method_path, correlation_id, serve_next_with, endpoint_permissions, endpoint_rate_limits,
}
use minkube.ManagerHttp.Auth.Laws.{
  has_service, handler_needs_active_key, grants_lem, unlisted_route,
}
use minkube.ManagerHttp.Auth.Token.{bearer_token}
use minkube.ManagerHttp.Handlers.{is_valid_request, full_task, submit_task, start_task_handler}
use minkube.Http.{Answer, answered, panicked}
use minkube.ManagerHttp.Serve.{
  start_task, Call, Fresh, call_handler, unless_panicked, run_actions, serve,
}
use minkube.Task.{Uuid, StartTaskEventRequest}

module _ {Q : Type 0} ⦃queue : QueueOps Q⦄ (parse : String → Option Uuid) where
  run_actions_unserved :
      (acts : List Action) (fresh : ℕ → Fresh) (n : ℕ) (c : Call) (m : Manager Q)
      → has_service acts ≡ false
      → (run_actions parse acts fresh n c m).0 ≡ m
  unfolding run_actions
  run_actions_unserved [] fresh n c m h = refl
  run_actions_unserved (responds status ∷ rest) fresh n c m h =
      run_actions_unserved rest fresh n c m h
  run_actions_unserved (serves_next ∷ rest) fresh n c m h = ground (arith, h)
  run_actions_unserved (panics ∷ rest) fresh n c m h = refl

  -- A request whose token is not an active key, or that has no token, leaves the manager as it was.
  pub no_key_no_change :
      (keys : ApiKeys) (fresh : ℕ → Fresh) (c : Call) (m : Manager Q)
      → ((token : String) (info : ApiKeyInfo)
          → bearer_token c.request.authorization ≡ some token
          → GoMap.lookup token keys ≡ some info
          → info.is_active ≡ false)
      → (serve parse keys fresh c m).0 ≡ m
  unfolding serve
  no_key_no_change keys fresh c m inactive =
      elim (Bool-cases (has_service (tasks_route keys c.request))) [
        | inl h ↦
            let (token, info, e, f, a) = handler_needs_active_key keys c.request h in
            absurd (ground (arith, inactive token info e f))
        | inr h ↦ run_actions_unserved (tasks_route keys c.request) fresh 0 c m h
      ]

last_answer :
    {Q : Type 0} (answer : Answer) (m : Manager Q)
    → unless_panicked answer m (m, []) ≡ (m, answer ∷ [])
last_answer (answered status) m = refl
last_answer panicked m = refl

-- With an active key that has the permission and is below the limit of the request, the middlewares
-- call the next handler once and do nothing else.
permitted_route :
    (keys : ApiKeys) (r : Request) (token : String) (info : ApiKeyInfo) (k : ℕ)
    → bearer_token r.authorization ≡ some token
    → GoMap.lookup token keys ≡ some info
    → info.is_active ≡ true
    → 8 ≤ len token
    → get_required_permission r ≢ ""
    → (contains (get_required_permission r) info.permissions || contains "admin:*" info.permissions)
      ≡ true
    → get_rate_limits r ≡ pos (suc k)
    → ltb_ℤ info.current_rate (pos (suc k)) ≡ true
    → tasks_route keys r ≡ serves_next ∷ []
unfolding tasks_route api_rate_limit_middleware api_key_auth_middleware auth_actions rate_actions
    key_is_active api_key_has_permissions below_rate_limit serve_next_with
permitted_route keys r token info k t l a long q p g b = ground (
  arith,
  ==_iff (get_required_permission r) "",
  grants_lem (get_required_permission r) info.permissions,
)

slash_permission :
    (r : Request) → r.method ≡ "POST" → r.path ≡ "/tasks/" → get_required_permission r ≡ ""
unfolding get_required_permission endpoint_permissions method_path GoMap.lookup_or GoMap.insert
    GoMap.empty
slash_permission r e p = rw (e, p) refl

slash_limit : (r : Request) → r.method ≡ "POST" → r.path ≡ "/tasks/" → get_rate_limits r ≡ pos 0
unfolding get_rate_limits endpoint_rate_limits method_path GoMap.lookup_or GoMap.insert GoMap.empty
slash_limit r e p = rw (e, p) refl

module _ {Q : Type 0} ⦃queue : QueueOps Q⦄ (parse : String → Option Uuid) where
  call_handler_posted :
      (f : Fresh) (c : Call) (event : StartTaskEventRequest) (m : Manager Q)
      → c.body ≡ some event
      → is_valid_request event.task ≡ true
      → call_handler parse start_task f c m ≡ (
        submit_task
            (full_task f.id f.now (correlation_id c.x_request_id f.correlation) event.task)
            m,
        answered 201,
      )
  unfolding start_task_handler
  call_handler_posted f c event m b v = rw b (rw v refl)

  -- A request with an active key that has the permission for the request and is below its limit runs the
  -- handler once, and what the handler answers is all that is answered.
  pub permitted_served_once :
      (keys : ApiKeys) (fresh : ℕ → Fresh) (c : Call) (m : Manager Q) (token : String)
      (info : ApiKeyInfo) (k : ℕ)
      → bearer_token c.request.authorization ≡ some token
      → GoMap.lookup token keys ≡ some info
      → info.is_active ≡ true
      → 8 ≤ len token
      → get_required_permission c.request ≢ ""
      → (contains (get_required_permission c.request) info.permissions
          || contains "admin:*" info.permissions)
        ≡ true
      → get_rate_limits c.request ≡ pos (suc k)
      → ltb_ℤ info.current_rate (pos (suc k)) ≡ true
      → let handled = call_handler parse c.endpoint (fresh 0) c m in
        serve parse keys fresh c m ≡ (handled.0, handled.1 ∷ [])
  unfolding serve run_actions
  permitted_served_once keys fresh c m token info k t l a long q p g b =
      rw (permitted_route keys c.request token info k t l a long q p g b)
        (let (m1, answer) = call_handler parse c.endpoint (fresh 0) c m in last_answer answer m1)

  -- A valid request to start a task whose path is /tasks/ instead of /tasks, and which the router gives
  -- to StartTaskHandler all the same, needs no permission: with any active key whose rate is not
  -- negative the task is created and answered with status 201, and then with status 401 as well.
  pub slash_bypasses_permissions :
      (keys : ApiKeys) (fresh : ℕ → Fresh) (c : Call) (m : Manager Q) (token : String)
      (info : ApiKeyInfo)
      → c.request.method ≡ "POST"
      → c.request.path ≡ "/tasks/"
      → c.endpoint ≡ start_task
      → bearer_token c.request.authorization ≡ some token
      → GoMap.lookup token keys ≡ some info
      → info.is_active ≡ true
      → ltb_ℤ info.current_rate (pos 0) ≡ false
      → (event : StartTaskEventRequest) → c.body ≡ some event
      → is_valid_request event.task ≡ true
      → let t =
          full_task
            (fresh 0).id
            (fresh 0).now
            (correlation_id c.x_request_id (fresh 0).correlation)
            event.task in
        serve parse keys fresh c m ≡ (submit_task t m, answered 201 ∷ answered 401 ∷ [])
  unfolding serve run_actions start_task_handler
  slash_bypasses_permissions keys fresh c m token info e p d t l a n event b v =
      let route : tasks_route keys c.request ≡ serves_next ∷ responds 401 ∷ [] =
        unlisted_route keys c.request token info t l a n (slash_permission c.request e p)
          (slash_limit c.request e p) in
      rw (route, d)
        (ap (λ h. unless_panicked h.1 h.0 (h.0, answered 401 ∷ []))
          (call_handler_posted (fresh 0) c event m b v))
