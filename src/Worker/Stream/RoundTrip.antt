-- ===== src/Worker/Stream/RoundTrip.antt =====
-- The frames of ProcessDockerStream: what was encoded comes back.
use minkube.Base.{
  ℕ, suc, ◌+◌, ◌-◌, ◌/◌, ◌%◌, ◌<◌, ◌≤◌, List, [], ◌∷◌, ◌++◌, true, Option, none, some, nat_eq, leb,
  length, drop, ◌≡◌, refl, arith, ap, ◌∙◌, sym, inl, inr, All, length-append, take-append_self,
  drop-append_self, Option-cases,
}
use mathlib.Core.List.{append_assoc, append-nil}
use native.Mathlib.Nat.{zero-add}
use minkube.Task.{Error}
use minkube.Worker.Utf8.{to_valid_utf8}
use minkube.Worker.Utf8.Laws.{encode_text, IsScalar, to_valid-encode_text}
use minkube.Worker.Stream.{
  DockerLogFormat, LogStream, DockerTaskLogsResponse, full, read_full, big_endian, frame, last,
  read_payload, read_header, read_frame, Ending, ended, stream_loop, process_docker_stream,
}

-- A frame of Docker's format: the type of the stream, three zero bytes, and the payload's length in
-- four bytes.
abbrev pub header_of : ℕ → ℕ → List ℕ
header_of t n =
    t ∷ 0 ∷ 0 ∷ 0 ∷ (n / 16777216) ∷ (n / 65536 % 256) ∷ (n / 256 % 256) ∷ (n % 256) ∷ []

-- An entry of a log: a stream type and a text, by its code points.
abbrev pub Entry : Type 0
Entry = ℕ × List ℕ

abbrev pub encode_entry : Entry → List ℕ
encode_entry (t, cs) = header_of t (length (encode_text cs)) ++ encode_text cs

abbrev pub encode_log : List Entry → List ℕ
encode_log [] = []
encode_log (x ∷ xs) = encode_entry x ++ encode_log xs

abbrev pub IsEntry : Entry → Type 0
IsEntry (t, cs) = All IsScalar cs × (length (encode_text cs) < 4294967296)

abbrev pub log_of : Entry → DockerLogFormat
log_of (t, cs) = record { stream_type = t; payload = encode_text cs }

pub big_endian_lem : (n : ℕ) → n < 4294967296 → big_endian (drop 4 (header_of 0 n)) ≡ n
unfolding big_endian
big_endian_lem n h = omega arith

pub read_full-append :
    (xs ys : List ℕ) (f : Option Error)
    → read_full (length xs) (record { bytes = xs ++ ys; failure = f })
      ≡ full xs (record { bytes = ys; failure = f })
unfolding read_full
read_full-append xs ys f =
    let fits : leb (length xs) (length (xs ++ ys)) ≡ true = ground (arith, length-append xs ys) in
    rw (fits, take-append_self xs ys, drop-append_self xs ys) refl

pub read_frame_lem : (s : LogStream) → read_frame s ≡ read_header (read_full 8 s)
unfolding read_frame
read_frame_lem s = refl

pub read_header_full :
    (header : List ℕ) (rest : LogStream)
    → read_header (full header rest)
      ≡ read_payload header (read_full (big_endian (drop 4 header)) rest)
unfolding read_header
read_header_full header rest = refl

read_payload_full :
    (t n : ℕ) (payload : List ℕ) (rest : LogStream)
    → to_valid_utf8 payload ≡ payload
    → read_payload (header_of t n) (full payload rest)
      ≡ frame (record { stream_type = t; payload = payload }) rest
unfolding read_payload
read_payload_full t n payload rest h = rw h refl

read_frame-append :
    (x : Entry) (ys : List ℕ) (f : Option Error)
    → IsEntry x
    → read_frame (record { bytes = encode_entry x ++ ys; failure = f })
      ≡ frame (log_of x) (record { bytes = ys; failure = f })
unfolding read_frame
read_frame-append (t, cs) ys f (s, n) =
    let size : ℕ = length (encode_text cs) in
    let header : List ℕ = header_of t size in
    let rest : LogStream = record { bytes = encode_text cs ++ ys; failure = f } in
    ap read_header (read_full-append header (encode_text cs ++ ys) f)
    ∙ (read_header_full header rest
        ∙ (ap (λ k. read_payload header (read_full k rest)) (big_endian_lem size n)
            ∙ (ap (read_payload header) (read_full-append (encode_text cs) ys f)
                ∙ read_payload_full t size (encode_text cs) _ (to_valid-encode_text cs s))))

-- The loop on the frames of a log, one callback after another until one fails. What is left of the
-- stream comes after them.
module _ {S : Type 0} (stream_log : DockerLogFormat → S → Option Error × S) where
  abbrev pub deliver : List Entry → S → Option Error × S
  deliver [] st = (none, st)
  deliver (x ∷ xs) st =
      let (e, st') = stream_log (log_of x) st in
      elim e [ some y ↦ (some y, st') | none ↦ deliver xs st' ]

  -- The ending of the loop on the rest of the stream, unless a callback failed.
  abbrev pub then_loop : ℕ → LogStream → Option Error × S → Ending × S
  then_loop fuel rest (some e, st) = (ended (some e), st)
  then_loop fuel rest (none, st) = stream_loop fuel stream_log rest st

  pub loop_frame :
      (fuel : ℕ) (s rest : LogStream) (g : DockerLogFormat) (st : S)
      → read_frame s ≡ frame g rest
      → (stream_log g st).0 ≡ none
      → stream_loop (suc fuel) stream_log s st
        ≡ stream_loop fuel stream_log rest (stream_log g st).1
  unfolding stream_loop
  loop_frame fuel s rest g st r e = rw (r, stream_loop) (rw e refl)

  pub loop_stopped :
      (fuel : ℕ) (s rest : LogStream) (g : DockerLogFormat) (st : S) (y : Error)
      → read_frame s ≡ frame g rest
      → (stream_log g st).0 ≡ some y
      → stream_loop (suc fuel) stream_log s st ≡ (ended (some y), (stream_log g st).1)
  unfolding stream_loop
  loop_stopped fuel s rest g st y r e = rw (r, stream_loop) (rw e refl)

  loop-append :
      (xs : List Entry) (fuel : ℕ) (ys : List ℕ) (f : Option Error) (st : S)
      → All IsEntry xs
      → stream_loop
          (length xs + fuel)
          stream_log
          (record { bytes = encode_log xs ++ ys; failure = f })
          st
        ≡ then_loop fuel (record { bytes = ys; failure = f }) (deliver xs st)
  loop-append [] fuel ys f st a =
      ap (λ k. stream_loop k stream_log (record { bytes = ys; failure = f }) st) (zero-add fuel)
  loop-append (x ∷ xs) fuel ys f st a =
      let e : suc (length xs) + fuel ≡ suc (length xs + fuel) = omega arith in
      let r = read_frame-append x (encode_log xs ++ ys) f a.0 in
      rw (e, append_assoc (encode_entry x) (encode_log xs) ys)
        (elim (Option-cases (stream_log (log_of x) st).0) [
          | inl n ↦
              loop_frame (length xs + fuel) _ _ (log_of x) st r n
              ∙ (loop-append xs fuel ys f (stream_log (log_of x) st).1 a.1 ∙ rw (n, deliver) refl)
          | inr (y, n) ↦
              loop_stopped (length xs + fuel) _ _ (log_of x) st y r n ∙ rw (n, deliver) refl
        ])

length-encode_log : (xs : List Entry) → length xs ≤ length (encode_log xs)
length-encode_log [] = omega arith
length-encode_log (x ∷ xs) =
    omega (arith, length-encode_log xs, length-append {A = ℕ} (encode_entry x) (encode_log xs))

-- The rest of the fuel once the frames of the log are read.
abbrev pub fuel_left : List Entry → List ℕ → ℕ
fuel_left xs ys = length (encode_log xs ++ ys) - length xs

fuel_lem :
    (xs : List Entry) (ys : List ℕ)
    → suc (length (encode_log xs ++ ys)) ≡ length xs + suc (fuel_left xs ys)
fuel_lem xs ys = omega (arith, length-encode_log xs, length-append {A = ℕ} (encode_log xs) ys)

abbrev pub response_of : List ℕ → DockerTaskLogsResponse
response_of bytes = record {
  error = none;
  log_stream = some (record { bytes = bytes; failure = none });
}

nothing_left : read_frame (record { bytes = []; failure = none }) ≡ last
unfolding read_frame
nothing_left = refl

module _ {S : Type 0} (stream_log : DockerLogFormat → S → Option Error × S) (st : S) where
  pub process-append :
      (xs : List Entry) (ys : List ℕ)
      → All IsEntry xs
      → process_docker_stream (response_of (encode_log xs ++ ys)) stream_log st
        ≡ then_loop stream_log
            (suc (fuel_left xs ys))
            (record { bytes = ys; failure = none })
            (deliver stream_log xs st)
  unfolding process_docker_stream
  process-append xs ys a =
      ap (λ k. stream_loop k stream_log (record { bytes = encode_log xs ++ ys; failure = none }) st)
        (fuel_lem xs ys)
      ∙ loop-append stream_log xs (suc (fuel_left xs ys)) ys none st a

  pub then_last :
      (fuel : ℕ) (s : LogStream) (r : Option Error × S)
      → read_frame s ≡ last
      → then_loop stream_log (suc fuel) s r ≡ (ended r.0, r.1)
  unfolding stream_loop
  then_last fuel s (some e, x) h = refl
  then_last fuel s (none, x) h = rw (h, stream_loop) refl

  -- The frames of a log, whose entries are texts of code points in fewer than 2 ^ 32 bytes each,
  -- come back as its entries: the callback gets them in order, until one fails, and its error is
  -- what ProcessDockerStream returns.
  pub process-encode_log :
      (xs : List Entry)
      → All IsEntry xs
      → process_docker_stream (response_of (encode_log xs)) stream_log st
        ≡ (ended (deliver stream_log xs st).0, (deliver stream_log xs st).1)
  process-encode_log xs a =
      ap (λ bs. process_docker_stream (response_of bs) stream_log st)
        (sym (append-nil (encode_log xs)))
      ∙ (process-append xs [] a
          ∙ then_last (fuel_left xs []) _ (deliver stream_log xs st) nothing_left)
