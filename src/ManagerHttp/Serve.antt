-- ===== src/ManagerHttp/Serve.antt =====
-- internal/manager/http/api.go: a request to the /tasks routes, from the middlewares to the handlers.
pub mod Laws
use minkube.Base.{ℕ, ◌+◌, String, List, [], ◌∷◌, Option, none}
use minkube.Base.Queue.{QueueOps}
use minkube.Http.{Answer, answered, panicked, answer_of}
use minkube.Manager.{Manager}
use minkube.ManagerHttp.Auth.{
  ApiKeys, Request, Action, responds, serves_next, panics, correlation_id, tasks_route,
}
use minkube.ManagerHttp.Handlers.{start_task_handler, stop_task_handler}
use minkube.ManagerHttp.Paging.{get_tasks_handler}
use minkube.Task.{StartTaskEventRequest, Time, Uuid}

-- The routes below /tasks. Which one a request is for is decided by chi, the router.
pub data Endpoint : Type 0 where
  start_task get_tasks : Endpoint
  stop_task : (task_id : String) → Endpoint

-- A request, with what its handler reads: the header X-Request-ID, the body as it is decoded, and
-- the two query parameters.
pub record Call : Type 0 where
  pub request : Request
  pub endpoint : Endpoint
  pub x_request_id : String
  pub body : Option StartTaskEventRequest
  pub page : String
  pub limit : String

-- What uuid.New and time.Now give while the next handler runs.
pub record Fresh : Type 0 where
  pub correlation : String
  pub id : Uuid
  pub now : Time

-- The handler's answer, and what follows unless it is a panic.
abbrev pub unless_panicked :
    {Q : Type 0} → Answer → Manager Q → Manager Q × List Answer → Manager Q × List Answer
unless_panicked (answered status) m (m', answers) = (m', answered status ∷ answers)
unless_panicked panicked m later = (m, panicked ∷ [])

module _ {Q : Type 0} ⦃queue : QueueOps Q⦄ (parse : String → Option Uuid) where
  -- CorrelationMiddleware and the handler behind it.
  abbrev pub call_handler : Endpoint → Fresh → Call → Manager Q → Manager Q × Answer
  call_handler start_task fresh c m =
      let (m', r) =
        start_task_handler fresh.id fresh.now (correlation_id c.x_request_id fresh.correlation)
          c.body m in
      (m', answer_of r)
  call_handler get_tasks fresh c m = (m, answer_of (get_tasks_handler c.page c.limit m))
  call_handler (stop_task task_id) fresh c m =
      let (m', r) = stop_task_handler parse task_id m in (m', answer_of r)

  -- What the middlewares do, with the handler at each call of the next handler; the n-th run of it
  -- has the n-th `fresh`, and finds the body read after the first. A panic ends the request.
  unfoldable pub run_actions :
      List Action → (fresh : ℕ → Fresh) → ℕ → Call → Manager Q → Manager Q × List Answer
  run_actions [] fresh n c m = (m, [])
  run_actions (responds status ∷ rest) fresh n c m =
      let (m', answers) = run_actions rest fresh n c m in (m', answered status ∷ answers)
  run_actions (serves_next ∷ rest) fresh n c m =
      let (m1, answer) = call_handler c.endpoint (fresh n) c m in
      let later = run_actions rest fresh (n + 1) (record c { body = none }) m1 in
      unless_panicked answer m1 later
  run_actions (panics ∷ rest) fresh n c m = (m, panicked ∷ [])

  unfoldable pub serve : ApiKeys → (ℕ → Fresh) → Call → Manager Q → Manager Q × List Answer
  unfolding run_actions
  serve keys fresh c m = run_actions (tasks_route keys c.request) fresh 0 c m
