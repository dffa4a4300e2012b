-- ===== src/WorkerHttp/Logs/Laws.antt =====
-- The worker's log handler: what it writes of a container's log.
use minkube.Base.{
  suc, String, List, [], ◌∷◌, ◌++◌, Bool, Option, none, some, string_eq, nat_eq, ◌==◌, ◌≡◌, arith,
  ap, ◌∙◌, sym, inl, inr, Option-cases, Bool-cases, length, All,
}
use mathlib.Core.List.{append-nil, append_assoc}
use minkube.Task.{Task, Uuid, Error}
use minkube.Task.Docker.Laws.{Result-cases}
use minkube.Worker.Monitor.{get_task}
use minkube.Worker.Service.{Worker}
use minkube.Worker.Stream.{DockerLogFormat, LogStream, ended, out_of_fuel, process_docker_stream}
use minkube.Worker.Stream.RoundTrip.{
  Entry, IsEntry, encode_log, deliver, log_of, response_of, process-encode_log,
}
use minkube.Worker.Stream.Failing.{loop_fails}
use minkube.WorkerHttp.Logs.{
  LogClient, log_options, get_docker_task_logs, get_docker_container_logs,
  get_docker_container_logs, LogsResponse, refused, streamed, write_entry, stream_response,
  task_logs, get_docker_task_logs_handler,
}

-- The lines of a log, as far as its entries can be encoded.
abbrev pub lines_of : (DockerLogFormat → String) → List Entry → List String
lines_of line [] = []
lines_of line (x ∷ xs) = line (log_of x) ∷ lines_of line xs

deliver-lines_of :
    (line : DockerLogFormat → String) (xs : List Entry) (before : List String)
    → deliver (write_entry (λ f. some (line f))) xs before ≡ (none, before ++ lines_of line xs)
unfolding write_entry
deliver-lines_of line [] before = ap (λ l. (none, l)) (sym (append-nil before))
deliver-lines_of line (x ∷ xs) before =
    deliver-lines_of line xs (before ++ line (log_of x) ∷ [])
    ∙ ap (λ l. (none, l)) (append_assoc before (line (log_of x) ∷ []) (lines_of line xs))

-- Where every entry can be encoded and is a text of code points in fewer than 2 ^ 32 bytes, the
-- response to the stream of a log is one line for each entry, in order.
stream_response-encode_log :
    (line : DockerLogFormat → String) (xs : List Entry)
    → All IsEntry xs
    → stream_response (λ f. some (line f)) (response_of (encode_log xs))
      ≡ streamed (lines_of line xs) (ended none)
unfolding stream_response
stream_response-encode_log line xs a =
    ap (λ r. streamed r.1 r.0)
      (process-encode_log (write_entry (λ f. some (line f))) [] xs a
        ∙ ap (λ r. (ended r.0, r.1)) (deliver-lines_of line xs []))

-- A response that is an error response, or a stream that ends in an error.
abbrev pub IsIncomplete : LogsResponse → Type 0
IsIncomplete (refused status) = Unit {0}
IsIncomplete (streamed lines (ended (some e))) = Unit {0}
IsIncomplete (streamed lines (ended none)) = ⊥
IsIncomplete (streamed lines out_of_fuel) = ⊥

stream_response-IsIncomplete :
    (marshal : DockerLogFormat → Option String) (s : LogStream) (e : Error)
    → s.failure ≡ some e
    → IsIncomplete (stream_response marshal (record { error = none; log_stream = some s }))
unfolding stream_response process_docker_stream
stream_response-IsIncomplete marshal s e h =
    let (x, k) = loop_fails (write_entry marshal) (suc (length s.bytes)) s [] e (omega arith) h in
    rw k tt

module _ {Q D : Type 0} ⦃logs : LogClient D⦄ (marshal : DockerLogFormat → Option String)
    (flushes : Bool) (e : Error) (h : (s : LogStream) → (logs.cancel s).failure ≡ some e) where
  task_logs-IsIncomplete :
      (t : Task) (w : Worker Q D) → IsIncomplete (task_logs marshal flushes t w).0
  unfolding task_logs get_docker_task_logs get_docker_container_logs
  task_logs-IsIncomplete t w = elim (Bool-cases (t.container_id == "")) [
    | inl c ↦ rw (c, task_logs) tt
    | inr c ↦ elim (Result-cases (logs.container_logs log_options t.container_id w.docker).0) [
      | inr (x, r) ↦ rw (c, r, task_logs) tt
      | inl (s, r) ↦ elim (Bool-cases flushes) [
        | inl f ↦
            rw (c, r, f, task_logs)
              (rw (r, get_docker_task_logs)
                (stream_response-IsIncomplete marshal (logs.cancel s) e (h s)))
        | inr f ↦ rw (c, r, f, task_logs) tt
      ]
    ]
  ]

  -- If reads fail once the context of a request is cancelled, no log is ever read to its end: the
  -- handler answers with an error, or with status 200 and a stream that ends in an error.
  pub logs_never_end :
      (parse : String → Option Uuid) (task_id : String) (w : Worker Q D)
      → IsIncomplete (get_docker_task_logs_handler marshal flushes parse task_id w).0
  unfolding get_docker_task_logs_handler
  logs_never_end parse task_id w = elim (Bool-cases (task_id == "")) [
    | inl c ↦ rw (c, get_docker_task_logs_handler) tt
    | inr c ↦ elim (Option-cases (parse task_id)) [
      | inl n ↦ rw (c, n, get_docker_task_logs_handler) tt
      | inr (id, n) ↦ elim (Option-cases (get_task id w)) [
        | inl k ↦ rw (c, n, k, get_docker_task_logs_handler) tt
        | inr (t, k) ↦ rw (c, n, k, get_docker_task_logs_handler) (task_logs-IsIncomplete t w)
      ]
    ]
  ]
