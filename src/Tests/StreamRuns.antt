-- ===== src/Tests/StreamRuns.antt =====
-- ProcessDockerStream: the theorems on a log of two entries.
use minkube.Base.{List, [], ◌∷◌, ◌++◌, Option, none, some, ◌≡◌, refl, arith, nat_eq, inl, All}
use minkube.Task.{Error}
use minkube.Worker.Stream.{DockerLogFormat, DockerTaskLogsResponse, ended, process_docker_stream}
use minkube.Worker.Stream.RoundTrip.{
  Entry, header_of, IsEntry, encode_log, response_of, process-encode_log,
}
use minkube.Worker.Stream.Cuts.{process_cut_header, process_lost_payload}
use minkube.Worker.Stream.Ends.{process_ends}
use minkube.Worker.Utf8.{to_valid_utf8}
use minkube.Worker.Utf8.Laws.{to_valid-encode_text}

-- "hé" to the standard output, and an empty entry to the standard error.
abbrev greeting : List Entry
greeting = (1, 0x68 ∷ 0xe9 ∷ []) ∷ (2, []) ∷ []

greeting_entries : All IsEntry greeting
greeting_entries =
    (((inl (omega arith), (inl (omega arith), tt)), omega arith), ((tt, omega arith), tt))

-- A callback that keeps the entries.
abbrev keep : DockerLogFormat → List DockerLogFormat → Option Error × List DockerLogFormat
keep f fs = (none, fs ++ f ∷ [])

abbrev kept : List DockerLogFormat
kept =
    record { stream_type = 1; payload = 0x68 ∷ 0xc3 ∷ 0xa9 ∷ [] }
    ∷ record { stream_type = 2; payload = [] }
    ∷ []

process-encode_log_example :
    process_docker_stream (response_of (encode_log greeting)) keep [] ≡ (ended none, kept)
process-encode_log_example = process-encode_log keep [] greeting greeting_entries

process_cut_header_example :
    process_docker_stream (response_of (encode_log greeting ++ 1 ∷ 0 ∷ [])) keep []
    ≡ (ended (some "unexpected EOF"), kept)
process_cut_header_example =
    process_cut_header keep [] greeting 1 (0 ∷ []) greeting_entries (omega arith) refl

process_lost_payload_example :
    process_docker_stream (response_of (encode_log greeting ++ header_of 1 3)) keep []
    ≡ (ended none, kept)
process_lost_payload_example =
    process_lost_payload keep [] greeting 1 3 greeting_entries (omega arith) (omega arith)

-- A stream that ends within a header.
abbrev cut : DockerTaskLogsResponse
cut = response_of (encode_log greeting ++ 1 ∷ [])

process_ends_example : (r : Option Error) × ((process_docker_stream cut keep []).0 ≡ ended r)
process_ends_example = process_ends keep cut []

to_valid-encode_text_example : to_valid_utf8 (0x68 ∷ 0xc3 ∷ 0xa9 ∷ []) ≡ 0x68 ∷ 0xc3 ∷ 0xa9 ∷ []
to_valid-encode_text_example =
    to_valid-encode_text (0x68 ∷ 0xe9 ∷ []) (inl (omega arith), (inl (omega arith), tt))
