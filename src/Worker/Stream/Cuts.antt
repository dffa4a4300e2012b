-- ===== src/Worker/Stream/Cuts.antt =====
-- ProcessDockerStream on a stream that ends too early.
use minkube.Base.{
  ℕ, suc, ◌<◌, List, [], ◌∷◌, ◌++◌, Option, none, some, nat_eq, length, ◌≡◌, refl, arith, ap, ◌∙◌,
  All,
}
use minkube.Task.{Error}
use minkube.Worker.Stream.{
  DockerLogFormat, LogStream, eof, read_full, last, broken, read_payload, read_header, read_frame,
  ended, stream_loop, process_docker_stream,
}
use minkube.Worker.Stream.RoundTrip.{
  Entry, header_of, encode_log, IsEntry, response_of, deliver, then_loop, fuel_left, read_frame_lem,
  read_header_full, read_full-append, big_endian_lem, process-append, then_last,
}

short_header :
    (y : ℕ) (ys : List ℕ)
    → length ys < 7
    → read_frame (record { bytes = y ∷ ys; failure = none }) ≡ broken "unexpected EOF"
unfolding read_frame
short_header y ys h = ground arith

read_full-none : (n : ℕ) → 0 < n → read_full n (record { bytes = []; failure = none }) ≡ eof
unfolding read_full
read_full-none n h = ground arith

read_payload_eof : (header : List ℕ) → read_payload header eof ≡ last
unfolding read_payload
read_payload_eof header = refl

lost_payload :
    (t n : ℕ)
    → 0 < n
    → n < 4294967296
    → read_frame (record { bytes = header_of t n; failure = none }) ≡ last
lost_payload t n p h =
    let header : List ℕ = header_of t n in
    let rest : LogStream = record { bytes = []; failure = none } in
    read_frame_lem (record { bytes = header; failure = none })
    ∙ (ap read_header (read_full-append header [] none)
        ∙ (read_header_full header rest
            ∙ (ap (λ k. read_payload header (read_full k rest)) (big_endian_lem n h)
                ∙ (ap (read_payload header) (read_full-none n p) ∙ read_payload_eof header))))

module _ {S : Type 0} (stream_log : DockerLogFormat → S → Option Error × S) (st : S) where
  then_broken :
      (fuel : ℕ) (s : LogStream) (r : Option Error × S) (e : Error)
      → read_frame s ≡ broken e
      → r.0 ≡ none
      → then_loop stream_log (suc fuel) s r ≡ (ended (some e), r.1)
  unfolding stream_loop
  then_broken fuel s (some d, x) e h n = ground arith
  then_broken fuel s (none, x) e h n = rw (h, stream_loop) refl

  -- A stream that ends within a header gives the entries before it and then an error.
  pub process_cut_header :
      (xs : List Entry) (y : ℕ) (ys : List ℕ)
      → All IsEntry xs
      → length ys < 7
      → (deliver stream_log xs st).0 ≡ none
      → process_docker_stream (response_of (encode_log xs ++ y ∷ ys)) stream_log st
        ≡ (ended (some "unexpected EOF"), (deliver stream_log xs st).1)
  process_cut_header xs y ys a h n =
      process-append stream_log st xs (y ∷ ys) a
      ∙ then_broken (fuel_left xs (y ∷ ys)) _ (deliver stream_log xs st) _ (short_header y ys h) n

  -- A stream that ends right behind the header of a payload that is not empty, after the frames of
  -- texts of code points, gives the entries before it and no error: that the last payload is lost
  -- is not reported.
  pub process_lost_payload :
      (xs : List Entry) (t n : ℕ)
      → All IsEntry xs
      → 0 < n
      → n < 4294967296
      → process_docker_stream (response_of (encode_log xs ++ header_of t n)) stream_log st
        ≡ (ended (deliver stream_log xs st).0, (deliver stream_log xs st).1)
  process_lost_payload xs t n a p h =
      process-append stream_log st xs (header_of t n) a
      ∙ then_last stream_log st (fuel_left xs (header_of t n)) _ (deliver stream_log xs st)
          (lost_payload t n p h)
