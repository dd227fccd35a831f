-- ===== src/HiddenInput.antt =====
-- packages/ceal-worker-cli/src/hidden-terminal-input.ts: the reader of an enrollment code that is typed
-- into a terminal and not shown. The promise and the calls on the two streams are fields of one state;
-- what the streams emit is a list of events.
pub mod Released
use ceal_cli.Base.{
  ℕ, suc, ◌-◌, String, List, [], ◌∷◌, ◌++◌, Option, none, some, Bool, true, false, not, ◌&&◌, ◌||◌,
  ◌==◌, ltb, if◌then◌else◌,
}
use ceal_cli.Base.Outcome.{Outcome, ok, err}

pub record HiddenInputState : Type 0 where
  -- one byte each, and their number
  pub chunks : List ℕ
  pub bytes : ℕ
  -- stdin: its raw mode, whether it was resumed, whether the listeners are on
  pub raw : Bool
  pub flowing : Bool
  pub listening : Bool
  -- what stderr shows
  pub shown : List String
  pub outcome : Option (Outcome String (List ℕ))

pub data InputEvent : Type 0 where
  data_event : List ℕ → InputEvent
  end_event : InputEvent

pub record Terminal : Type 0 where
  pub stdin_is_tty : Bool
  pub stderr_is_tty : Bool
  pub has_raw_mode : Bool
  pub is_raw : Bool

abbrev pub prompt : String
prompt = "Device enrollment code (input hidden): "

abbrev pub hidden : String
hidden = "[input hidden]\n"

abbrev pub max_code_bytes : ℕ
max_code_bytes = 4096

abbrev pub pop : List ℕ → List ℕ
pop [] = []
pop (b ∷ []) = []
pop (b ∷ c ∷ more) = b ∷ pop (c ∷ more)

abbrev pub erase : HiddenInputState → List ℕ → HiddenInputState
erase s [] = s
erase s (b ∷ more) = record s { chunks = pop (b ∷ more); bytes = s.bytes - 1 }

-- A promise keeps the first outcome.
abbrev pub first_outcome :
    Option (Outcome String (List ℕ)) → Outcome String (List ℕ) → Outcome String (List ℕ)
first_outcome none o = o
first_outcome (some earlier) o = earlier

module _ (was_raw : Bool) where
  abbrev pub release_terminal : HiddenInputState → HiddenInputState
  release_terminal s = record s { listening = false; raw = was_raw; flowing = false }

  -- finish and fail, by their outcome
  abbrev pub settle_input : Outcome String (List ℕ) → HiddenInputState → HiddenInputState
  settle_input o s = record (release_terminal s) {
    shown = s.shown ++ hidden ∷ [];
    outcome = some (first_outcome s.outcome o);
  }

-- The decoder is `toString("utf8")`.
module _ (decode : List ℕ → List ℕ) (was_raw : Bool) where
  -- Whether the input ends with this byte, and the state behind it
  abbrev pub handle_hidden_input_byte : ℕ → HiddenInputState → Bool × HiddenInputState
  handle_hidden_input_byte byte s =
      if byte == 3
      then (true, settle_input was_raw (err "input_cancelled") s)
      else if byte == 13 || byte == 10
      then (true, settle_input was_raw (ok (decode s.chunks)) s)
      else if byte == 8 || byte == 127
      then (false, erase s s.chunks)
      else if ltb max_code_bytes (suc s.bytes)
      then (
        true,
        settle_input was_raw (err "stdin_secret_too_large") (record s { bytes = suc s.bytes }),
      )
      else (false, record s { bytes = suc s.bytes; chunks = s.chunks ++ byte ∷ [] })

  abbrev pub unless_ended :
      (HiddenInputState → HiddenInputState) → Bool × HiddenInputState → HiddenInputState
  unless_ended next (true, s) = s
  unless_ended next (false, s) = next s

  unfoldable pub accept_hidden_input : List ℕ → HiddenInputState → HiddenInputState
  accept_hidden_input [] s = s
  accept_hidden_input (byte ∷ more) s =
      unless_ended (accept_hidden_input more) (handle_hidden_input_byte byte s)

  abbrev pub handle_event : InputEvent → HiddenInputState → HiddenInputState
  handle_event (data_event chunk) s = accept_hidden_input chunk s
  handle_event end_event s = settle_input was_raw (err "stdin_ended") s

  -- The streams emit to the listeners that are on.
  unfoldable pub emit : List InputEvent → HiddenInputState → HiddenInputState
  emit [] s = s
  emit (e ∷ more) s = emit more (if s.listening then handle_event e s else s)

abbrev pub prompted : HiddenInputState
prompted = record {
  chunks = [];
  bytes = 0;
  raw = true;
  flowing = true;
  listening = true;
  shown = prompt ∷ [];
  outcome = none;
}

unfoldable pub read_hidden_terminal_enrollment_code :
    (List ℕ → List ℕ) → Terminal → List InputEvent → Outcome String HiddenInputState
read_hidden_terminal_enrollment_code decode t events =
    if not t.stdin_is_tty || not t.stderr_is_tty || not t.has_raw_mode
    then err "interactive_enrollment_required"
    else ok (emit decode t.is_raw events prompted)
