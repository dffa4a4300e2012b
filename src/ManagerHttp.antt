-- ===== src/ManagerHttp.antt =====
-- internal/manager/http: the manager's HTTP interface.
pub mod Auth
pub mod Serve
pub mod Paging
pub mod Handlers
