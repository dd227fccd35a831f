-- ===== src/HiddenInput/Released.antt =====
-- The terminal is given back, and the code is bounded and plain.
use ceal_cli.Base.{
  ap, sym, subst, ◌∙◌, ℕ, suc, ◌+◌, ◌≤◌, String, List, [], ◌∷◌, ◌++◌, length, none, some, Bool,
  true, false, not, ◌||◌, ◌==◌, ltb, all, if◌then◌else◌, ◌≡◌, refl, inl, inr, ◌⊎◌, arith,
  Bool-cases, length-append, all-append,
}
use ceal_cli.Base.Outcome.{Outcome, ok, err}
use ceal_cli.HiddenInput.{
  HiddenInputState, InputEvent, Terminal, prompt, hidden, max_code_bytes, pop, erase, settle_input,
  handle_hidden_input_byte, unless_ended, accept_hidden_input, emit, handle_event, prompted,
  read_hidden_terminal_enrollment_code, data_event, end_event,
}

-- No byte that ends the input or erases
unfoldable pub is_plain : ℕ → Bool
is_plain b = not (b == 3 || b == 13 || b == 10 || b == 8 || b == 127)

abbrev pub IsCode : List ℕ → Type 0
IsCode code = (length code ≤ max_code_bytes) × (all is_plain code ≡ true)

-- The reader waits: the terminal is raw and shows the prompt only.
pub record IsPending (s : HiddenInputState) : Type 0 where
  pub waits : s.outcome ≡ none
  pub raw : s.raw ≡ true
  pub flowing : s.flowing ≡ true
  pub listening : s.listening ≡ true
  pub shown : s.shown ≡ prompt ∷ []
  pub counted : s.bytes ≡ length s.chunks
  pub code : IsCode s.chunks

-- The reader is done: the terminal is as it was, stdin is paused, and no byte of the code was shown.
pub record IsReleased (decode : List ℕ → List ℕ) (was_raw : Bool) (s : HiddenInputState)
    : Type 0 where
  pub settled : Outcome String (List ℕ)
  pub outcome : s.outcome ≡ some settled
  pub raw : s.raw ≡ was_raw
  pub flowing : s.flowing ≡ false
  pub listening : s.listening ≡ false
  pub shown : s.shown ≡ prompt ∷ hidden ∷ []
  pub code : (c : List ℕ) → settled ≡ ok c → (b : List ℕ) × (c ≡ decode b) × IsCode b

plain_byte :
    (b : ℕ)
    → (b == 3) ≡ false
    → (b == 13 || b == 10) ≡ false
    → (b == 8 || b == 127) ≡ false
    → is_plain b ≡ true
unfolding is_plain
plain_byte b x y z = ground arith

pop-IsCode :
    (b : ℕ) (bs : List ℕ)
    → all is_plain (b ∷ bs) ≡ true
    → (suc (length (pop (b ∷ bs))) ≡ length (b ∷ bs)) × (all is_plain (pop (b ∷ bs)) ≡ true)
pop-IsCode b [] h = (refl, refl)
pop-IsCode b (c ∷ more) h =
    let (l, p) = pop-IsCode c more (ground arith) in (ap suc l, ground arith)

erase-IsPending :
    (cs : List ℕ) (s : HiddenInputState) → s.chunks ≡ cs → IsPending s → IsPending (erase s cs)
erase-IsPending [] s e p = p
erase-IsPending (b ∷ more) s e p =
    let plain : all is_plain (b ∷ more) ≡ true =
      subst (λ (l : List ℕ). all is_plain l ≡ true) e p.code.1 in
    let (l, q) = pop-IsCode b more plain in
    let counted : s.bytes ≡ length (b ∷ more) = p.counted ∙ ap (λ (x : List ℕ). length x) e in
    let bound : length (b ∷ more) ≤ max_code_bytes =
      subst (λ (x : List ℕ). length x ≤ max_code_bytes) e p.code.0 in
    record {
      waits = p.waits;
      raw = p.raw;
      flowing = p.flowing;
      listening = p.listening;
      shown = p.shown;
      counted = omega arith;
      code = (omega arith, q);
    }

module _ (decode : List ℕ → List ℕ) (w : Bool) where
  settle_input-IsReleased :
      (o : Outcome String (List ℕ)) (s : HiddenInputState)
      → s.outcome ≡ none
      → s.shown ≡ prompt ∷ []
      → ((c : List ℕ) → o ≡ ok c → (b : List ℕ) × (c ≡ decode b) × IsCode b)
      → IsReleased decode w (settle_input w o s)
  settle_input-IsReleased o s waits shown code = record {
    settled = o;
    outcome = rw waits refl;
    raw = refl;
    flowing = refl;
    listening = refl;
    shown = rw shown refl;
    code = code;
  }

  abbrev pub Stands : HiddenInputState → Type 0
  Stands s = IsPending s ⊎ IsReleased decode w s

  -- A byte ends the input with a released terminal, or leaves the reader waiting.
  abbrev Handled : Bool × HiddenInputState → Type 0
  Handled (true, s) = IsReleased decode w s
  Handled (false, s) = IsPending s

  type-IsPending :
      (b : ℕ) (s : HiddenInputState)
      → is_plain b ≡ true
      → ltb max_code_bytes (suc s.bytes) ≡ false
      → IsPending s
      → IsPending (record s { bytes = suc s.bytes; chunks = s.chunks ++ b ∷ [] })
  type-IsPending b s plain fits p =
      let counted : s.bytes ≡ length s.chunks = p.counted in
      let l : length (s.chunks ++ b ∷ []) ≡ length s.chunks + 1 = length-append s.chunks (b ∷ []) in
      record {
        waits = p.waits;
        raw = p.raw;
        flowing = p.flowing;
        listening = p.listening;
        shown = p.shown;
        counted = omega arith;
        code = (ground arith, rw (all-append is_plain s.chunks (b ∷ []), p.code.1, plain) refl);
      }

  fail-IsReleased :
      (x : String) (s : HiddenInputState)
      → IsPending s
      → IsReleased decode w (settle_input w (err x) s)
  fail-IsReleased x s p =
      settle_input-IsReleased (err x) s p.waits p.shown (λ c e. absurd (ground arith))

  handle-Handled :
      (b : ℕ) (s : HiddenInputState) → IsPending s → Handled (handle_hidden_input_byte decode w b s)
  handle-Handled b s p = elim (Bool-cases (b == 3)) [
    | inl x ↦ rw x (fail-IsReleased "input_cancelled" s p)
    | inr x ↦ elim (Bool-cases (b == 13 || b == 10)) [
      | inl y ↦
          rw (x, y)
            (settle_input-IsReleased (ok (decode s.chunks)) s p.waits p.shown
              (λ c e. let q : decode s.chunks ≡ c = cc in (s.chunks, sym q, p.code)))
      | inr y ↦ elim (Bool-cases (b == 8 || b == 127)) [
        | inl z ↦ rw (x, y, z) (erase-IsPending s.chunks s refl p)
        | inr z ↦ elim (Bool-cases (ltb max_code_bytes (suc s.bytes))) [
          | inl n ↦
              rw (x, y, z, n)
                (settle_input-IsReleased (err "stdin_secret_too_large")
                  (record s { bytes = suc s.bytes }) p.waits p.shown (λ c e. absurd (ground arith)))
          | inr n ↦ rw (x, y, z, n) (type-IsPending b s (plain_byte b x y z) n p)
        ]
      ]
    ]
  ]

  onward :
      (next : HiddenInputState → HiddenInputState) (r : Bool × HiddenInputState)
      → Handled r
      → ((t : HiddenInputState) → IsPending t → Stands (next t))
      → Stands (unless_ended decode w next r)
  onward next (true, t) h f = inr h
  onward next (false, t) h f = f t h

  accept-Stands :
      (bs : List ℕ) (s : HiddenInputState)
      → IsPending s
      → Stands (accept_hidden_input decode w bs s)
  unfolding accept_hidden_input
  accept-Stands [] s p = inl p
  accept-Stands (b ∷ bs) s p =
      onward (accept_hidden_input decode w bs) (handle_hidden_input_byte decode w b s)
        (handle-Handled b s p) (λ t q. accept-Stands bs t q)

  heard :
      (on : Bool) (e : InputEvent) (s : HiddenInputState)
      → s.listening ≡ on
      → Stands s
      → Stands (if on then handle_event decode w e s else s)
  heard false e s q h = h
  heard true (data_event bs) s q (inl p) = accept-Stands bs s p
  heard true end_event s q (inl p) = inr (fail-IsReleased "stdin_ended" s p)
  heard true e s q (inr r) = let off : s.listening ≡ false = r.listening in absurd (ground arith)

  emit-Stands :
      (es : List InputEvent) (s : HiddenInputState) → Stands s → Stands (emit decode w es s)
  unfolding emit
  emit-Stands [] s h = h
  emit-Stands (e ∷ es) s h =
      emit-Stands es (if s.listening then handle_event decode w e s else s)
        (heard s.listening e s refl h)

prompted-IsPending : IsPending prompted
prompted-IsPending = record {
  waits = refl;
  raw = refl;
  flowing = refl;
  listening = refl;
  shown = refl;
  counted = refl;
  code = (omega arith, refl);
}

-- Whatever a terminal emits, the reader either waits, in raw mode with its prompt and at most 4,096
-- bytes, or is done: the raw mode is as it was before, stdin is paused, the listeners are off, and
-- stderr shows the prompt and the note alone. A code that it returns decodes at most 4,096 bytes, none
-- of which erases or ends the input.
pub read_hidden-Stands :
    (decode : List ℕ → List ℕ) (t : Terminal) (events : List InputEvent) (s : HiddenInputState)
    → read_hidden_terminal_enrollment_code decode t events ≡ ok s
    → Stands decode t.is_raw s
unfolding read_hidden_terminal_enrollment_code
read_hidden-Stands decode t events s h =
    let stands : Stands decode t.is_raw (emit decode t.is_raw events prompted) =
      emit-Stands decode t.is_raw events prompted (inl prompted-IsPending) in
    elim (Bool-cases (not t.stdin_is_tty || not t.stderr_is_tty || not t.has_raw_mode)) [
      | inl x ↦ absurd (ground arith)
      | inr x ↦
          let q : emit decode t.is_raw events prompted ≡ s = ground arith in
          subst (λ (y : HiddenInputState). Stands decode t.is_raw y) q stands
    ]
