-- ===== src/Worker.antt =====
-- internal/worker/service: the worker, its states and its service.
pub mod State
pub mod Service
pub mod Utf8
pub mod Stream
pub mod Monitor
pub mod Stats
pub mod Invariant
