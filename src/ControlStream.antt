-- ===== src/ControlStream.antt =====
-- packages/ceal-worker-cli/src/leased-consumer-control-session.ts: the newline-framed stream of an
-- inherited Agent. TextDecoder is the platform's: a chunk is the text that it gives, or none where it
-- throws. The contract's maximum and the handling of a frame are parameters.
pub mod Framing
use ceal_cli.Base.{
  ℕ, ◌+◌, List, [], ◌∷◌, ◌++◌, Option, none, some, Bool, true, false, not, ◌==◌, ltb, if◌then◌else◌,
}
use ceal_cli.Base.Outcome.{Outcome, ok, err}

pub data StreamError : Type 0 where
  invalid_frame frame_too_large unterminated_frame undecodable refused : StreamError

-- The end of the stream or an error, and the frames that were handed over, in order.
abbrev pub Handled : Type 0
Handled = Outcome StreamError (Unit {0}) × List (List ℕ)

-- The bytes of a code point in UTF-8.
abbrev pub utf8_length : ℕ → ℕ
utf8_length c = if ltb c 128 then 1 else (if ltb c 2048 then 2 else (if ltb c 65536 then 3 else 4))

-- Buffer.byteLength(text, "utf8")
abbrev pub byte_length : List ℕ → ℕ
byte_length [] = 0
byte_length (c ∷ cs) = utf8_length c + byte_length cs

-- text.endsWith("\r")
abbrev pub ends_with_return : List ℕ → Bool
ends_with_return [] = false
ends_with_return (c ∷ []) = c == 13
ends_with_return (c ∷ d ∷ cs) = ends_with_return (d ∷ cs)

abbrev pub is_empty : List ℕ → Bool
is_empty [] = true
is_empty (c ∷ cs) = false

abbrev pub push : ℕ → List (List ℕ) × List ℕ → List (List ℕ) × List ℕ
push c ([], rest) = ([], c ∷ rest)
push c (line ∷ lines, rest) = ((c ∷ line) ∷ lines, rest)

-- What the inner loop takes off the buffer: the texts before each newline, and what stays.
abbrev pub split_lines : List ℕ → List (List ℕ) × List ℕ
split_lines [] = ([], [])
split_lines (c ∷ cs) =
    let (lines, rest) = split_lines cs in
    if c == 10 then ([] ∷ lines, rest) else push c (lines, rest)

abbrev pub handed : List ℕ → Handled → Handled
handed frame (o, frames) = (o, frame ∷ frames)

module _ (maximum : ℕ) (handle : List ℕ → Bool) where
  unfoldable pub check_frame : List ℕ → Outcome StreamError (Unit {0})
  check_frame text =
      if is_empty text
      then err invalid_frame
      else (if ends_with_return text
          then err invalid_frame
          else (if ltb maximum (byte_length text) then err frame_too_large else ok tt))

  -- The frames of the buffer, and what follows them.
  abbrev pub deliver : List (List ℕ) → Handled → Handled
  deliver [] next = next
  deliver (frame ∷ frames) next =
      let later = deliver frames next in
      elim (check_frame frame) [
        | err e ↦ (err e, [])
        | ok _ ↦ if handle frame then handed frame later else (err refused, frame ∷ [])
      ]

  -- The end of the stream, with what the decoder still holds.
  abbrev pub finish : List ℕ → Option (List ℕ) → Handled
  finish pending none = (err undecodable, [])
  finish pending (some text) =
      if is_empty (pending ++ text) then (ok tt, []) else (err unterminated_frame, [])

  abbrev pub bounded : List ℕ → Handled → Handled
  bounded pending next =
      if ltb maximum (byte_length pending) then (err frame_too_large, []) else next

  -- runLeasedConsumerControlSession, from the text that is pending
  unfoldable pub run_stream : List (Option (List ℕ)) → Option (List ℕ) → List ℕ → Handled
  run_stream [] flush pending = finish pending flush
  run_stream (none ∷ chunks) flush pending = (err undecodable, [])
  run_stream (some text ∷ chunks) flush pending = deliver (split_lines (pending ++ text)).0 (
      bounded (split_lines (pending ++ text)).1
        (run_stream chunks flush (split_lines (pending ++ text)).1))
