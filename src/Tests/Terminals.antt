-- ===== src/Tests/Terminals.antt =====
-- A code that is typed into a concrete terminal.
use ceal_cli.Base.{ℕ, List, [], ◌∷◌, some, true, false, refl}
use ceal_cli.Base.Outcome.{ok}
use ceal_cli.HiddenInput.{
  HiddenInputState, InputEvent, data_event, end_event, Terminal, prompt, hidden,
  accept_hidden_input, emit, read_hidden_terminal_enrollment_code,
}
use ceal_cli.HiddenInput.Released.{Stands, read_hidden-Stands}

-- These bytes are ASCII.
abbrev as_ascii : List ℕ → List ℕ
as_ascii bytes = bytes

abbrev terminal : Terminal
terminal = record { stdin_is_tty = true; stderr_is_tty = true; has_raw_mode = true; is_raw = false }

-- "ab", an erased byte, "c", the end of the line, and more that nobody reads
abbrev typed : List InputEvent
typed = data_event (97 ∷ 98 ∷ []) ∷ data_event (120 ∷ 127 ∷ 99 ∷ 13 ∷ 100 ∷ []) ∷ end_event ∷ []

abbrev released : HiddenInputState
released = record {
  chunks = 97 ∷ 98 ∷ 99 ∷ [];
  bytes = 3;
  raw = false;
  flowing = false;
  listening = false;
  shown = prompt ∷ hidden ∷ [];
  outcome = some (ok (97 ∷ 98 ∷ 99 ∷ []));
}

read_hidden-Stands_example : Stands as_ascii false released
unfolding read_hidden_terminal_enrollment_code emit accept_hidden_input
read_hidden-Stands_example = read_hidden-Stands as_ascii terminal typed released refl
