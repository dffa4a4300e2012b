-- ===== src/WorkerHttp.antt =====
-- internal/worker/http: the worker's request handlers.
pub mod Paging
pub mod Handlers
pub mod Logs
pub mod Stats
pub mod Serve
