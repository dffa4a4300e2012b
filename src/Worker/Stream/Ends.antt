-- ===== src/Worker/Stream/Ends.antt =====
-- ProcessDockerStream ends on every stream.
use minkube.Base.{
  ℕ, zero, suc, ◌+◌, ◌<◌, ◌≤◌, List, [], ◌∷◌, Option, none, some, nat_eq, leb, length, drop, ◌≡◌,
  ◌≢◌, refl, arith, ap, ◌∙◌, sym, ◌⊎◌, inl, inr, length-drop, Option-cases, Bool-cases,
}
use minkube.Task.{Error}
use minkube.Worker.Stream.{
  DockerLogFormat, LogStream, DockerTaskLogsResponse, ReadResult, full, eof, failed, read_short,
  read_full, big_endian, Round, frame, last, broken, read_payload, read_header, read_frame, ended,
  stream_loop, process_docker_stream,
}
use minkube.Worker.Stream.RoundTrip.{read_frame_lem, loop_frame, loop_stopped}

read_short-ne-full :
    (bytes : List ℕ) (f : Option Error) (p : List ℕ) (rest : LogStream)
    → read_short bytes f ≢ full p rest
read_short-ne-full bytes (some e) p rest h = ground arith
read_short-ne-full [] none p rest h = ground arith
read_short-ne-full (b ∷ bs) none p rest h = ground arith

-- What a read takes off the stream.
read_full_takes :
    (n : ℕ) (s rest : LogStream) (p : List ℕ)
    → read_full n s ≡ full p rest
    → length rest.bytes + n ≡ length s.bytes
unfolding read_full
read_full_takes n s rest p h = elim (Bool-cases (leb n (length s.bytes))) [
  | inl fits ↦ ground (arith, length-drop n s.bytes)
  | inr short ↦ absurd (read_short-ne-full s.bytes s.failure p rest (rw short at h))
]

read_payload_frame :
    (header : List ℕ) (r : ReadResult) (rest : LogStream) (g : DockerLogFormat)
    → read_payload header r ≡ frame g rest
    → (p : List ℕ) × (r ≡ full p rest)
unfolding read_payload
read_payload_frame header (full p x) rest g h = (p, ground arith)
read_payload_frame header eof rest g h = ground arith
read_payload_frame header (failed y) rest g h = ground arith

read_header_frame :
    (r : ReadResult) (rest : LogStream) (g : DockerLogFormat)
    → read_header r ≡ frame g rest
    → (header : List ℕ) × (s : LogStream) × (r ≡ full header s)
      × (length rest.bytes ≤ length s.bytes)
unfolding read_header
read_header_frame (full header s) rest g h =
    let (p, e) = read_payload_frame header (read_full (big_endian (drop 4 header)) s) rest g h in
    (header, s, refl, omega (arith, read_full_takes _ s rest p e))
read_header_frame eof rest g h = ground arith
read_header_frame (failed y) rest g h = ground arith

pub read_frame_takes :
    (s rest : LogStream) (g : DockerLogFormat)
    → read_frame s ≡ frame g rest
    → length rest.bytes < length s.bytes
read_frame_takes s rest g h =
    let (header, t, e, le) =
      read_header_frame (read_full 8 s) rest g (sym (read_frame_lem s) ∙ h) in
    omega (arith, read_full_takes 8 s t header e)

pub Round-cases :
    (r : Round)
    → (r ≡ last)
      ⊎ (((e : Error) × (r ≡ broken e))
          ⊎ ((g : DockerLogFormat) × (rest : LogStream) × (r ≡ frame g rest)))
Round-cases last = inl refl
Round-cases (broken e) = inr (inl (e, refl))
Round-cases (frame g rest) = inr (inr (g, rest, refl))

module _ {S : Type 0} (stream_log : DockerLogFormat → S → Option Error × S) where
  loop_ends :
      (fuel : ℕ) (s : LogStream) (st : S)
      → length s.bytes < fuel
      → (r : Option Error) × ((stream_loop fuel stream_log s st).0 ≡ ended r)
  unfolding stream_loop
  loop_ends zero s st h = absurd (omega arith)
  loop_ends (suc fuel) s st h = elim (Round-cases (read_frame s)) [
    | inl e ↦ (none, rw (e, stream_loop) refl)
    | inr (inl (x, e)) ↦ (some x, rw (e, stream_loop) refl)
    | inr (inr (g, rest, e)) ↦ elim (Option-cases (stream_log g st).0) [
      | inl n ↦
          let (r, k) =
            loop_ends fuel rest (stream_log g st).1 (omega (arith, read_frame_takes s rest g e)) in
          (r, ap (λ x. x.0) (loop_frame stream_log fuel s rest g st e n) ∙ k)
      | inr (y, n) ↦ (some y, ap (λ x. x.0) (loop_stopped stream_log fuel s rest g st y e n))
    ]
  ]

-- ProcessDockerStream ends on every response, whatever the stream and the callback: its loop never
-- runs out of fuel.
pub process_ends :
    {S : Type 0} (stream_log : DockerLogFormat → S → Option Error × S)
    (response : DockerTaskLogsResponse) (st : S)
    → (r : Option Error) × ((process_docker_stream response stream_log st).0 ≡ ended r)
unfolding process_docker_stream
process_ends stream_log response st = elim (Option-cases response.error) [
  | inl e ↦ elim (Option-cases response.log_stream) [
    | inl n ↦ (some "no log stream", rw (e, n, process_docker_stream) refl)
    | inr (s, n) ↦
        let (r, k) = loop_ends stream_log (suc (length s.bytes)) s st (omega arith) in
        (r, rw (e, n, process_docker_stream) k)
  ]
  | inr (x, e) ↦ (some x, rw (e, process_docker_stream) refl)
]
