-- ===== src/Manager/Select.antt =====
-- internal/manager/manager.go: SelectWorker and the worker lists that it reads.
pub mod Laws
use minkube.Base.{
  ◌+◌, ◌%◌, String, List, [], ◌∷◌, Bool, string_eq, if◌then◌else◌, contains, length, get_or,
}
use minkube.Manager.{Manager, is_worker_ready, is_worker_healthy}

pub data SelectError : Type 0 where
  no_workers_available no_healthy_workers no_ready_workers no_healthy_and_ready : SelectError

pub data Result {ℓ} (A : Type ℓ) : Type ℓ where
  ok : A → Result A
  err : SelectError → Result A

-- The workers of a list that pass a test, in order.
abbrev pub passing : (String → Bool) → List String → List String
passing p [] = []
passing p (w ∷ ws) = let rest = passing p ws in if p w then w ∷ rest else rest

abbrev pub or_error : List String → SelectError → Result (List String)
or_error [] e = err e
or_error (w ∷ ws) e = ok (w ∷ ws)

-- `workersInBoth`: those of b that are in a.
unfoldable pub workers_in_both : List String → List String → List String
workers_in_both a b = passing (λ w. contains w a) b

-- The first failure is returned; otherwise the workers in both lists.
abbrev pub schedulable_workers : Result (List String) → Result (List String) → Result (List String)
schedulable_workers (err e) ready = err e
schedulable_workers (ok healthy) (err e) = err e
schedulable_workers (ok healthy) (ok ready) = ok (workers_in_both healthy ready)

module _ {Q : Type 0} where
  unfoldable pub get_healthy_workers : Manager Q → Result (List String)
  unfolding is_worker_healthy
  get_healthy_workers m =
      or_error (passing (λ w. is_worker_healthy w m) m.workers) no_healthy_workers

  unfoldable pub get_ready_workers : Manager Q → Result (List String)
  unfolding is_worker_ready
  get_ready_workers m = or_error (passing (λ w. is_worker_ready w m) m.workers) no_ready_workers

  -- The round robin over the schedulable workers.
  unfoldable pub choose : List String → Manager Q → Manager Q × Result String
  choose [] m = (m, err no_healthy_and_ready)
  choose (w ∷ ws) m =
      let index = (m.last_worker + 1) % length (w ∷ ws) in
      (record m { last_worker = index }, ok (get_or (w ∷ ws) index ""))

  -- `SelectWorker` on the configured workers and the schedulable ones.
  unfoldable pub select_from :
      List String → Result (List String) → Manager Q → Manager Q × Result String
  select_from [] schedulable m = (m, err no_workers_available)
  select_from (_ ∷ _) (err e) m = (m, err e)
  select_from (_ ∷ _) (ok ws) m = choose ws m

  unfoldable pub select_worker : Manager Q → Manager Q × Result String
  unfolding select_from
  select_worker m =
      select_from m.workers (schedulable_workers (get_healthy_workers m) (get_ready_workers m)) m
