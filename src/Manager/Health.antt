-- ===== src/Manager/Health.antt =====
-- internal/manager/manager.go: MarkWorkerDown, MarkWorkerUp, HealthCheckWorkers.
use minkube.Base.{String, List, [], ◌∷◌, Bool, true, false, string_eq, if◌then◌else◌}
use minkube.Base.Int.{ℤ, pos, wrap, ◌+ℤ◌, ltb_ℤ}
use minkube.Base.GoMap
use minkube.Manager.{Manager}
use minkube.Worker.State.{ready, unhealthy}
pub mod Laws

module _ {Q : Type 0} where
  unfoldable pub mark_worker_down : String → Manager Q → Manager Q
  mark_worker_down w m =
      let failures =
        GoMap.insert w (wrap (GoMap.lookup_or w (pos 0) m.worker_health_check_failures +ℤ pos 1))
          m.worker_health_check_failures in
      record m {
        worker_health = GoMap.insert w false m.worker_health;
        worker_health_check_failures = failures;
        worker_state =
            if ltb_ℤ (pos 5) (GoMap.lookup_or w (pos 0) failures)
            then GoMap.insert w unhealthy m.worker_state
            else m.worker_state;
      }

  unfoldable pub mark_worker_up : String → Manager Q → Manager Q
  mark_worker_up w m = record m {
    worker_health = GoMap.insert w true m.worker_health;
    worker_health_check_failures = GoMap.insert w (pos 0) m.worker_health_check_failures;
    worker_state = GoMap.insert w ready m.worker_state;
  }

  -- One goroutine of `HealthCheckWorkers`: `reached` is whether the request returned a response,
  -- of any status.
  unfoldable pub health_check_worker : String → Bool → Manager Q → Manager Q
  unfolding mark_worker_down mark_worker_up
  health_check_worker w reached m = if reached then mark_worker_up w m else mark_worker_down w m

  -- The goroutines of a round take the lock one after another: each worker with what its request
  -- gave, in the order in which they get it.
  unfoldable pub health_check_workers : List (String × Bool) → Manager Q → Manager Q
  unfolding health_check_worker
  health_check_workers [] m = m
  health_check_workers ((w, reached) ∷ rs) m =
      health_check_workers rs (health_check_worker w reached m)
