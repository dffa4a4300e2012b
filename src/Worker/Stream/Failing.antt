-- ===== src/Worker/Stream/Failing.antt =====
-- ProcessDockerStream on a stream whose reads end in an error.
use minkube.Base.{
  ℕ, zero, suc, ◌<◌, List, Option, some, leb, ◌≡◌, refl, arith, ap, ◌∙◌, subst, inl, inr,
  Option-cases, Bool-cases, length, drop,
}
use minkube.Task.{Error}
use minkube.Worker.Stream.{
  DockerLogFormat, LogStream, ended, stream_loop, ReadResult, full, eof, failed, read_full, Round,
  frame, last, broken, read_payload, read_header, read_frame, big_endian,
}
use minkube.Worker.Stream.RoundTrip.{loop_frame, loop_stopped, read_frame_lem}
use minkube.Worker.Stream.Ends.{Round-cases, read_frame_takes}

-- A read from such a stream does not meet the end of the log, and leaves such a stream.
abbrev Fails : Error → ReadResult → Type 0
Fails e (full p rest) = rest.failure ≡ some e
Fails e eof = ⊥
Fails e (failed x) = Unit {0}

read_full-Fails : (n : ℕ) (s : LogStream) (e : Error) → s.failure ≡ some e → Fails e (read_full n s)
unfolding read_full
read_full-Fails n s e h = elim (Bool-cases (leb n (length s.bytes))) [
  | inl fits ↦ rw fits h
  | inr short ↦ rw (short, h) tt
]

abbrev FailsRound : Error → Round → Type 0
FailsRound e (frame g rest) = rest.failure ≡ some e
FailsRound e last = ⊥
FailsRound e (broken x) = Unit {0}

read_payload-Fails :
    (header : List ℕ) (e : Error) (r : ReadResult)
    → Fails e r
    → FailsRound e (read_payload header r)
unfolding read_payload
read_payload-Fails header e (full p rest) h = h
read_payload-Fails header e eof h = h
read_payload-Fails header e (failed x) h = h

read_header-Fails : (e : Error) (r : ReadResult) → Fails e r → FailsRound e (read_header r)
unfolding read_header
read_header-Fails e (full header rest) h =
    read_payload-Fails header e (read_full (big_endian (drop 4 header)) rest)
      (read_full-Fails (big_endian (drop 4 header)) rest e h)
read_header-Fails e eof h = h
read_header-Fails e (failed x) h = h

read_frame-Fails : (s : LogStream) (e : Error) → s.failure ≡ some e → FailsRound e (read_frame s)
read_frame-Fails s e h =
    rw (read_frame_lem s) (read_header-Fails e (read_full 8 s) (read_full-Fails 8 s e h))

module _ {S : Type 0} (stream_log : DockerLogFormat → S → Option Error × S) where
  -- The loop on such a stream ends with an error, after the entries before it.
  pub loop_fails :
      (fuel : ℕ) (s : LogStream) (st : S) (e : Error)
      → length s.bytes < fuel
      → s.failure ≡ some e
      → (x : Error) × ((stream_loop fuel stream_log s st).0 ≡ ended (some x))
  unfolding stream_loop
  loop_fails zero s st e h k = absurd (omega arith)
  loop_fails (suc fuel) s st e h k =
      let f : FailsRound e (read_frame s) = read_frame-Fails s e k in
      elim (Round-cases (read_frame s)) [
        | inl r ↦ absurd (subst (FailsRound e) r f)
        | inr (inl (x, r)) ↦ (x, rw (r, stream_loop) refl)
        | inr (inr (g, rest, r)) ↦ elim (Option-cases (stream_log g st).0) [
          | inl n ↦
              let (x, t) =
                loop_fails fuel rest (stream_log g st).1 e
                  (omega (arith, read_frame_takes s rest g r)) (subst (FailsRound e) r f) in
              (x, ap (λ x. x.0) (loop_frame stream_log fuel s rest g st r n) ∙ t)
          | inr (y, n) ↦ (y, ap (λ x. x.0) (loop_stopped stream_log fuel s rest g st y r n))
        ]
      ]
