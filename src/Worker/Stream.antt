-- ===== src/Worker/Stream.antt =====
-- internal/worker/service/worker.go: ProcessDockerStream, which takes Docker's multiplexed log stream
-- apart. Bytes are numbers below 256.
pub mod RoundTrip
pub mod Cuts
pub mod Ends
pub mod Failing
use minkube.Base.{
  ℕ, zero, suc, ◌+◌, ◌*◌, List, [], ◌∷◌, Bool, true, false, Option, none, some, nat_eq, ◌==◌,
  if◌then◌else◌, leb, length, take, drop, get_or,
}
use minkube.Task.{Error}
use minkube.Worker.Utf8.{to_valid_utf8}

-- `task.DockerLogFormat`; the payload is the bytes of its text.
pub record DockerLogFormat : Type 0 where
  pub stream_type : ℕ
  pub payload : List ℕ

-- An `io.ReadCloser`: the bytes that it gives, and how it ends: io.EOF, or another error.
pub record LogStream : Type 0 where
  pub bytes : List ℕ
  pub failure : Option Error

-- `task.DockerTaskLogsResponse`
pub record DockerTaskLogsResponse : Type 0 where
  pub error : Option Error
  pub log_stream : Option LogStream

pub data ReadResult : Type 0 where
  full : List ℕ → LogStream → ReadResult
  eof : ReadResult
  failed : Error → ReadResult

-- `io.ReadFull` where fewer than the wanted bytes are left.
abbrev pub read_short : List ℕ → Option Error → ReadResult
read_short bytes (some e) = failed e
read_short [] none = eof
read_short (_ ∷ _) none = failed "unexpected EOF"

unfoldable pub read_full : ℕ → LogStream → ReadResult
read_full n s =
    if leb n (length s.bytes)
    then full (take n s.bytes) (record s { bytes = drop n s.bytes })
    else read_short s.bytes s.failure

-- `binary.BigEndian.Uint32(b)`
unfoldable pub big_endian : List ℕ → ℕ
big_endian b = get_or b 0 0 * 16777216 + get_or b 1 0 * 65536 + get_or b 2 0 * 256 + get_or b 3 0

-- A round of the loop: a frame and the rest, the end of the loop, or an error.
pub data Round : Type 0 where
  frame : DockerLogFormat → LogStream → Round
  last : Round
  broken : Error → Round

unfoldable pub read_payload : List ℕ → ReadResult → Round
read_payload header eof = last
read_payload header (failed e) = broken e
read_payload header (full payload rest) =
    frame (record { stream_type = get_or header 0 0; payload = to_valid_utf8 payload }) rest

unfoldable pub read_header : ReadResult → Round
unfolding read_full big_endian read_payload
read_header eof = last
read_header (failed e) = broken e
read_header (full header rest) = read_payload header (read_full (big_endian (drop 4 header)) rest)

unfoldable pub read_frame : LogStream → Round
unfolding read_full read_header
read_frame s = read_header (read_full 8 s)

-- How the loop ends: the error that is returned, or no more fuel.
pub data Ending : Type 0 where
  ended : Option Error → Ending
  out_of_fuel : Ending

module _ {S : Type 0} where
  -- The loop. `stream_log` is the callback, on the state that it changes.
  unfoldable pub stream_loop :
      ℕ → (DockerLogFormat → S → Option Error × S) → LogStream → S → Ending × S
  stream_loop zero stream_log s st = (out_of_fuel, st)
  stream_loop (suc fuel) stream_log s st = elim (read_frame s) [
    | last ↦ (ended none, st)
    | broken e ↦ (ended (some e), st)
    | frame f rest ↦
        let (e, st') = stream_log f st in
        elim e [ some x ↦ (ended (some x), st') | none ↦ stream_loop fuel stream_log rest st' ]
  ]

  -- `ProcessDockerStream`; each round but the last takes 8 bytes at least.
  unfoldable pub process_docker_stream :
      DockerTaskLogsResponse → (DockerLogFormat → S → Option Error × S) → S → Ending × S
  unfolding stream_loop
  process_docker_stream response stream_log st = elim response.error [
    | some e ↦ (ended (some e), st)
    | none ↦ elim response.log_stream [
      | none ↦ (ended (some "no log stream"), st)
      | some s ↦ stream_loop (suc (length s.bytes)) stream_log s st
    ]
  ]
