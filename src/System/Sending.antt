-- ===== src/System/Sending.antt =====
-- What the parts of SendWork keep of the manager's invariant, and what each knows of its task.
use minkube.Base.{
  String, List, [], ◌∷◌, true, false, Bool-cases, nat_eq, string_eq, ◌==◌, ==_iff, some, ◌≡◌, ◌≢◌,
  refl, arith, ◌∙◌, sym, subst, inl, inr, All, List-cases, contains,
}
use minkube.Base.Queue.{QueueOps}
use minkube.Heap.{Heap, Ptr}
use native.Mathlib.Nat.{mod-lt}
use minkube.Manager.{is_worker_ready, Manager, new, register_workers}
use minkube.Manager.Invariant.{Inv}
use minkube.Manager.Invariant.Send.{
  InFlight, take_pending-Inv, schedule_task-Inv, schedule_task-InFlight, place-Inv, finish_send-Inv,
}
use minkube.Manager.Select.{Result, ok, err, get_ready_workers, choose, passing, workers_in_both}
use minkube.Manager.Select.Laws.{All-contained, All-passing, All-get_or}
use minkube.Manager.Send.{
  SendReply, marshal_error, request_error, send_error, refused, created, take_pending,
  schedule_task, event_of, finish_send, record_sent,
}
use minkube.System.{
  Phase, idle, taken, listed, choosing, selected, marked, stated, requesting, after_take,
  after_healthy, after_ready, after_select,
}
use minkube.System.Keeps.{Keeps, InFlight-Keeps}
use minkube.Task.{TaskEvent, State, Uuid, Time}
use minkube.Base.GoMap
use minkube.Base.GoMap.{lookup-insert, lookup-empty}
use minkube.Manager.Sorted.{add_task}

-- A manager that New made has recorded no event.
register_workers-events :
    {Q : Type 0} (ws : List String) (m : Manager Q) → (register_workers ws m).event_db ≡ m.event_db
unfolding register_workers
register_workers-events [] m = refl
register_workers-events (w ∷ ws) m = register_workers-events ws _

pub new-events :
    (Q : Type 0) ⦃queue : QueueOps Q⦄ (heap : Heap) (workers : List String) (now : Time)
    → (new {Q = Q} heap workers now).event_db ≡ GoMap.empty
unfolding new
new-events Q heap workers now = register_workers-events workers _

module _ {Q : Type 0} ⦃queue : QueueOps Q⦄ where
  -- What SendWork knows of its task where it stands.
  abbrev pub PhaseInv : Manager Q → Phase → Type 0
  PhaseInv m idle = Unit {0}
  PhaseInv m (taken t) = InFlight m t
  PhaseInv m (listed t healthy) = InFlight m t
  PhaseInv m (choosing t schedulable) =
      InFlight m t × All (λ w. contains w m.workers ≡ true) schedulable
  PhaseInv m (selected t w) = InFlight m t × (contains w m.workers ≡ true)
  PhaseInv m (marked t w) = InFlight m t × (contains w m.workers ≡ true)
  PhaseInv m (stated t w s) = InFlight m t × (contains w m.workers ≡ true)
  PhaseInv m (requesting t w te) =
      InFlight m t × (contains w m.workers ≡ true) × (te.task.id ≡ (m.heap.cell t).id)

  -- Every event that is recorded is of the task that it is recorded for.
  abbrev pub EventsMatch : Manager Q → Type 0
  EventsMatch m =
      (id : Uuid) (te : TaskEvent) → GoMap.lookup id m.event_db ≡ some te → te.task.id ≡ id

  abbrev pub SendInv : Manager Q → Phase → Type 0
  SendInv m p = Inv m × PhaseInv m p × EventsMatch m

  pub PhaseInv-Keeps : (p : Phase) (m m' : Manager Q) → Keeps m m' → PhaseInv m p → PhaseInv m' p
  PhaseInv-Keeps idle m m' k h = tt
  PhaseInv-Keeps (taken t) m m' k h = InFlight-Keeps m m' t k h
  PhaseInv-Keeps (listed t healthy) m m' k h = InFlight-Keeps m m' t k h
  PhaseInv-Keeps (choosing t ws) m m' k (f, c) = (InFlight-Keeps m m' t k f, rw (k.same_workers) c)
  PhaseInv-Keeps (selected t w) m m' k (f, c) = (InFlight-Keeps m m' t k f, rw (k.same_workers) c)
  PhaseInv-Keeps (marked t w) m m' k (f, c) = (InFlight-Keeps m m' t k f, rw (k.same_workers) c)
  PhaseInv-Keeps (stated t w s) m m' k (f, c) = (InFlight-Keeps m m' t k f, rw (k.same_workers) c)
  PhaseInv-Keeps (requesting t w te) m m' k (f, c, i) =
      (InFlight-Keeps m m' t k f, rw (k.same_workers) c, i ∙ sym (k.same_id t f.0))

  take_pending-events : (m : Manager Q) → (take_pending m).0.event_db ≡ m.event_db
  unfolding take_pending
  take_pending-events m = elim (Bool-cases (queue.len m.pending_tasks == 0)) [
    | inl e ↦ rw e refl
    | inr e ↦ rw e refl
  ]

  pub take-SendInv :
      (m : Manager Q) → SendInv m idle → SendInv (take_pending m).0 (after_take (take_pending m).1)
  take-SendInv m (v, f, g) =
      let (v', r) = take_pending-Inv m v in
      (
        v',
        elim r [ inl e ↦ rw e tt | inr (t, e, h) ↦ rw e h ],
        λ id te e. g id te (rw (take_pending-events m) at e),
      )

  pub after_healthy-PhaseInv :
      (t : Ptr) (ws : List String) (r : Result (List String)) (m : Manager Q)
      → InFlight m t
      → PhaseInv m (after_healthy t ws r)
  after_healthy-PhaseInv t [] r m f = tt
  after_healthy-PhaseInv t (w ∷ ws) (err e) m f = tt
  after_healthy-PhaseInv t (w ∷ ws) (ok healthy) m f = f

  pub after_ready-PhaseInv :
      (t : Ptr) (healthy : List String) (m : Manager Q)
      → InFlight m t
      → PhaseInv m (after_ready t healthy (get_ready_workers m))
  unfolding get_ready_workers
  after_ready-PhaseInv t healthy m f =
      let ready : List String = passing (λ w. is_worker_ready w m) m.workers in
      let kept : All (λ w. contains w m.workers ≡ true) (workers_in_both healthy ready) =
        unfold workers_in_both in
        All-passing _ _ ready (All-passing _ _ m.workers (All-contained m.workers)) in
      elim (List-cases ready) [ inl e ↦ rw e tt | inr (w, ws, e) ↦ rw e (f, rw e at kept) ]

  pub choose-SendInv :
      (t : Ptr) (ws : List String) (m : Manager Q)
      → SendInv m (choosing t ws)
      → SendInv (choose ws m).0 (after_select t (choose ws m).1)
  unfolding choose
  choose-SendInv t [] m (v, f, g) = (v, tt, g)
  choose-SendInv t (w ∷ ws) m (v, (f, c), g) =
      (place-Inv m _ v, (f, All-get_or _ (w ∷ ws) _ "" (mod-lt _ (omega arith)) c), g)

  pub schedule-SendInv :
      (t : Ptr) (w : String) (m : Manager Q)
      → SendInv m (selected t w)
      → SendInv (schedule_task t m) (marked t w)
  schedule-SendInv t w m (v, (f, c), g) = (
    schedule_task-Inv t m v,
    (schedule_task-InFlight t m f, unfold schedule_task in c),
    unfold schedule_task in g,
  )

  -- The copy has the ID of the task, whatever state was read.
  pub copied-PhaseInv :
      (t : Ptr) (w : String) (s : State) (id : Uuid) (now : Time) (m : Manager Q)
      → PhaseInv m (stated t w s)
      → PhaseInv m (requesting t w (event_of id s now (m.heap.cell t)))
  unfolding event_of
  copied-PhaseInv t w s id now m (f, c) = (f, c, refl)

  finish_send-events :
      (t : Ptr) (w : String) (te : TaskEvent) (reply : SendReply) (m m' : Manager Q)
      → finish_send t w te reply m ≡ some m'
      → te.task.id ≡ (m.heap.cell t).id
      → EventsMatch m
      → EventsMatch m'
  unfolding finish_send add_task record_sent
  finish_send-events t w te marshal_error m m' e i g id x k = g id x (ground arith)
  finish_send-events t w te request_error m m' e i g id x k = ground arith
  finish_send-events t w te send_error m m' e i g id x k = g id x (ground arith)
  finish_send-events t w te (refused true) m m' e i g id x k = g id x (ground arith)
  finish_send-events t w te (refused false) m m' e i g id x k = g id x (ground arith)
  finish_send-events t w te created m m' e i g id x k = ground (
    arith,
    ==_iff (m.heap.cell t).id id,
    lookup-insert (m.heap.cell t).id id te m.event_db,
    g id x,
  )

  sends :
      (t : Ptr) (w : String) (te : TaskEvent) (reply : SendReply) (m m' : Manager Q)
      → finish_send t w te reply m ≡ some m'
      → reply ≢ request_error
  unfolding finish_send
  sends t w te marshal_error m m' e n = ground arith
  sends t w te request_error m m' e n = ground arith
  sends t w te send_error m m' e n = ground arith
  sends t w te (refused b) m m' e n = ground arith
  sends t w te created m m' e n = ground arith

  pub finish-SendInv :
      (t : Ptr) (w : String) (te : TaskEvent) (reply : SendReply) (m m' : Manager Q)
      → finish_send t w te reply m ≡ some m'
      → SendInv m (requesting t w te)
      → SendInv m' idle
  finish-SendInv t w te reply m m' e (v, (f, c, i), g) =
      let (m1, e1, v1) = finish_send-Inv t w te reply m (sends t w te reply m m' e) f v in
      let same : m1 ≡ m' = ground (arith, sym e1 ∙ e) in
      (subst Inv same v1, tt, finish_send-events t w te reply m m' e i g)
