-- ===== src/Manager/Health/Laws.antt =====
-- The health bookkeeping of internal/manager/manager.go: what a worker's entries say of its past.
use minkube.Base.{
  ℕ, zero, suc, ◌<◌, String, Bool, true, false, string_eq, nat_eq, ◌==◌, ==_iff, if◌then◌else◌,
  arith, ◌≡◌, ◌≢◌, ltb,
}
use minkube.Base.Int.{ℤ, pos, wrap, ◌+ℤ◌, int_bound}
use minkube.Base.GoMap
use minkube.Base.GoMap.{lookup_or-insert}
use minkube.Manager.{Manager}
use minkube.Manager.Health.{mark_worker_down, mark_worker_up, health_check_worker}
use minkube.Worker.State.{State, ready, unhealthy}

abbrev pub failures_of : {Q : Type 0} → String → Manager Q → ℤ
failures_of w m = GoMap.lookup_or w (pos 0) m.worker_health_check_failures

abbrev pub state_of : {Q : Type 0} → String → Manager Q → State
state_of w m = GoMap.lookup_or w ready m.worker_state

abbrev pub health_of : {Q : Type 0} → String → Manager Q → Bool
health_of w m = GoMap.lookup_or w false m.worker_health

bump_lem : (n : ℕ) → suc n < int_bound → wrap (pos n +ℤ pos 1) ≡ pos (suc n)
unfolding ◌+ℤ◌ wrap
bump_lem n h = ground arith

-- k failed checks in a row.
unfoldable pub failed_checks : {Q : Type 0} → ℕ → String → Manager Q → Manager Q
failed_checks zero w m = m
failed_checks (suc k) w m = health_check_worker w false (failed_checks k w m)

module _ {Q : Type 0} (w : String) (m : Manager Q) where
  pub up_lem :
      (failures_of w (mark_worker_up w m) ≡ pos 0)
      × (state_of w (mark_worker_up w m) ≡ ready)
      × (health_of w (mark_worker_up w m) ≡ true)
  unfolding mark_worker_up
  up_lem = ground (
    arith,
    ==_iff w w,
    lookup_or-insert w w (pos 0) (pos 0) m.worker_health_check_failures,
    lookup_or-insert w w ready ready m.worker_state,
    lookup_or-insert w w false true m.worker_health,
  )

  down_lem :
      (n : ℕ)
      → suc n < int_bound
      → failures_of w m ≡ pos n
      → (failures_of w (mark_worker_down w m) ≡ pos (suc n))
        × (state_of w (mark_worker_down w m) ≡ (if ltb 5 (suc n) then unhealthy else state_of w m))
        × (health_of w (mark_worker_down w m) ≡ false)
  unfolding mark_worker_down
  down_lem n b h = ground (
    arith,
    ==_iff w w,
    bump_lem n b,
    lookup_or-insert w w (pos 0) (wrap (failures_of w m +ℤ pos 1)) m.worker_health_check_failures,
    lookup_or-insert w w ready unhealthy m.worker_state,
    lookup_or-insert w w false false m.worker_health,
  )

-- After a successful check and k failures in a row, the counter is k, the worker is up exactly if k
-- is 0, and its state is Unhealthy exactly from the sixth failure on.
pub failed_checks_lem :
    {Q : Type 0} (k : ℕ) (w : String) (m : Manager Q)
    → k < int_bound
    → let m' = failed_checks k w (health_check_worker w true m) in
      (failures_of w m' ≡ pos k)
      × (state_of w m' ≡ (if ltb 5 k then unhealthy else ready))
      × (health_of w m' ≡ (if k == 0 then true else false))
unfolding failed_checks health_check_worker
failed_checks_lem zero w m b = up_lem w m
failed_checks_lem (suc k) w m b =
    let before = failed_checks k w (health_check_worker w true m) in
    let (n, s, u) = failed_checks_lem k w m (omega arith) in
    ground (arith, down_lem w before k b n, s)

-- A check of one worker changes nothing that is recorded of another.
health_check_other :
    {Q : Type 0} (w v : String) (reached : Bool) (m : Manager Q)
    → w ≢ v
    → let m' = health_check_worker w reached m in
      (failures_of v m' ≡ failures_of v m)
      × (state_of v m' ≡ state_of v m)
      × (health_of v m' ≡ health_of v m)
unfolding health_check_worker mark_worker_up mark_worker_down
health_check_other w v reached m ne = ground (
  arith,
  ==_iff w v,
  lookup_or-insert w v (pos 0) (pos 0) m.worker_health_check_failures,
  lookup_or-insert w v (pos 0) (wrap (failures_of w m +ℤ pos 1)) m.worker_health_check_failures,
  lookup_or-insert w v ready ready m.worker_state,
  lookup_or-insert w v ready unhealthy m.worker_state,
  lookup_or-insert w v false true m.worker_health,
  lookup_or-insert w v false false m.worker_health,
)
