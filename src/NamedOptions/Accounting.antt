-- ===== src/NamedOptions/Accounting.antt =====
-- What a successful parse accounts for.
use ceal_cli.Base.{
  String, List, [], ◌∷◌, ◌++◌, Option, none, some, true, false, ◌≡◌, refl, sym, arith, ◌≢◌, eq_iff,
  str_eq, false≢true, ◌∙◌, ap, append_assoc, append-nil, has, Bool-cases, inl, inr,
}
use ceal_cli.NamedOptions.{
  Parsed, nothing_parsed, starts_with_dashes, NamedOptionOutcome, flag, value, unknown, invalid,
  consume_value, consume_named_option, refused_value, turn, with_operand, parse_from,
  parse_named_options, unknown_named_option,
}

module _ (vs fs : List String) where
  -- A command line read from the left: the flags, the named values and the operands in their order.
  pub data Reads : List String → List String → List (String × String) → List String → Type 0 where
    at_end : Reads [] [] [] []
    reads_flag :
        (o : String) (rest f : List String) (v : List (String × String)) (p : List String)
        → has fs o ≡ true
        → Reads rest f v p
        → Reads (o ∷ rest) (o ∷ f) v p
    reads_value :
        (o following : String) (rest f : List String) (v : List (String × String)) (p : List String)
        → has vs o ≡ true
        → has fs o ≡ false
        → following ≢ ""
        → Reads rest f v p
        → Reads (o ∷ following ∷ rest) f ((o, following) ∷ v) p
    reads_operand :
        (o : String) (rest f : List String) (v : List (String × String)) (p : List String)
        → has vs o ≡ false
        → has fs o ≡ false
        → starts_with_dashes o ≡ false
        → Reads rest f v p
        → Reads (o ∷ rest) f v (o ∷ p)

  -- What a turn takes.
  data Consumed (o : String) (f : Option String) (s : Parsed) : NamedOptionOutcome → Type 0 where
    is_flag : has fs o ≡ true → Consumed o f s (flag (record s { flags = s.flags ++ o ∷ [] }))
    is_value :
        (v : String)
        → f ≡ some v
        → has vs o ≡ true
        → has fs o ≡ false
        → v ≢ ""
        → Consumed o f s (value (record s { values = s.values ++ (o, v) ∷ [] }))
    is_unknown : has fs o ≡ false → has vs o ≡ false → Consumed o f s unknown
    is_invalid : Consumed o f s invalid

  value-Consumed :
      (o : String) (f : Option String) (s : Parsed)
      → has vs o ≡ true
      → has fs o ≡ false
      → Consumed o f s (consume_value vs fs o f s)
  value-Consumed o none s h g = is_invalid
  value-Consumed o (some v) s h g = elim (Bool-cases (refused_value vs fs o v s)) [
    | inl x ↦ rw x is_invalid
    | inr x ↦ rw x (
        is_value v refl h g (λ e.
          let full : str_eq v "" ≡ false = ground arith in
          false≢true (sym full ∙ (eq_iff v "").1 e)))
  ]

  consume-Consumed :
      (o : String) (f : Option String) (s : Parsed)
      → Consumed o f s (consume_named_option vs fs o f s)
  unfolding consume_named_option
  consume-Consumed o f s = elim (Bool-cases (has fs o)) [
    | inl x ↦ elim (Bool-cases (has s.flags o)) [
      | inl y ↦ rw (x, y) is_invalid
      | inr y ↦ rw (x, y) (is_flag x)
    ]
    | inr x ↦ elim (Bool-cases (has vs o)) [
      | inl y ↦ rw (x, y) (value-Consumed o f s y x)
      | inr y ↦ rw (x, y) (is_unknown x y)
    ]
  ]

  -- `r` is `s` with what the words hold.
  record Adds (os : List String) (s r : Parsed) : Type 0 where
    new_flags : List String
    new_values : List (String × String)
    new_operands : List String
    reads : Reads os new_flags new_values new_operands
    flags_lem : r.flags ≡ s.flags ++ new_flags
    values_lem : r.values ≡ s.values ++ new_values
    operands_lem : r.operands ≡ s.operands ++ new_operands

  flag-Adds :
      (o : String) (os : List String) (s r : Parsed)
      → has fs o ≡ true
      → Adds os (record s { flags = s.flags ++ o ∷ [] }) r
      → Adds (o ∷ os) s r
  flag-Adds o os s r h a = record {
    new_flags = o ∷ a.new_flags;
    new_values = a.new_values;
    new_operands = a.new_operands;
    reads = reads_flag o os a.new_flags a.new_values a.new_operands h a.reads;
    flags_lem = a.flags_lem ∙ append_assoc s.flags (o ∷ []) a.new_flags;
    values_lem = a.values_lem;
    operands_lem = a.operands_lem;
  }

  value-Adds :
      (o v : String) (os : List String) (s r : Parsed)
      → has vs o ≡ true
      → has fs o ≡ false
      → v ≢ ""
      → Adds os (record s { values = s.values ++ (o, v) ∷ [] }) r
      → Adds (o ∷ v ∷ os) s r
  value-Adds o v os s r h g n a = record {
    new_flags = a.new_flags;
    new_values = (o, v) ∷ a.new_values;
    new_operands = a.new_operands;
    reads = reads_value o v os a.new_flags a.new_values a.new_operands h g n a.reads;
    flags_lem = a.flags_lem;
    values_lem = a.values_lem ∙ append_assoc s.values ((o, v) ∷ []) a.new_values;
    operands_lem = a.operands_lem;
  }

  operand-Adds :
      (o : String) (os : List String) (s r : Parsed)
      → has fs o ≡ false
      → has vs o ≡ false
      → starts_with_dashes o ≡ false
      → Adds os (with_operand o s) r
      → Adds (o ∷ os) s r
  operand-Adds o os s r g h n a = record {
    new_flags = a.new_flags;
    new_values = a.new_values;
    new_operands = o ∷ a.new_operands;
    reads = reads_operand o os a.new_flags a.new_values a.new_operands h g n a.reads;
    flags_lem = a.flags_lem;
    values_lem = a.values_lem;
    operands_lem = a.operands_lem ∙ append_assoc s.operands (o ∷ []) a.new_operands;
  }

  -- `os` are the words behind `o`, and a value is the first of them.
  turn-Adds :
      (o : String) (f : Option String) (os : List String) (s r : Parsed)
      (next skip : Parsed → Option Parsed) (x : NamedOptionOutcome)
      → Consumed o f s x
      → ((t : Parsed) → next t ≡ some r → Adds os t r)
      → ((t : Parsed) (v : String)
          → f ≡ some v
          → skip t ≡ some r
          → (rest : List String) × (os ≡ v ∷ rest) × Adds rest t r)
      → turn vs fs o s next skip x ≡ some r
      → Adds (o ∷ os) s r
  turn-Adds o f os s r next skip (flag t) (is_flag h) a b e = flag-Adds o os s r h (a _ e)
  turn-Adds o f os s r next skip (value t) (is_value v g h x n) a b e =
      let (rest, q, m) = b _ v g e in rw q (value-Adds o v rest s r h x n m)
  turn-Adds o f os s r next skip invalid is_invalid a b e = cc
  turn-Adds o f os s r next skip unknown (is_unknown g h) a b e =
      elim (Bool-cases (starts_with_dashes o)) [
        | inl x ↦ let no : none ≡ some r = rw x at e in cc
        | inr x ↦
            let t : next (with_operand o s) ≡ some r = rw x at e in
            operand-Adds o os s r g h x (a _ t)
      ]

  none_left : (s r : Parsed) → some s ≡ some r → Adds [] s r
  none_left s r e =
      let same : s ≡ r = cc in
      rw (sym same) (record {
        new_flags = [];
        new_values = [];
        new_operands = [];
        reads = at_end;
        flags_lem = sym (append-nil s.flags);
        values_lem = sym (append-nil s.values);
        operands_lem = sym (append-nil s.operands);
      })

  parse_from-Adds : (os : List String) (s r : Parsed) → parse_from vs fs os s ≡ some r → Adds os s r
  unfolding parse_from
  parse_from-Adds [] s r e = none_left s r e
  parse_from-Adds (o ∷ []) s r e =
      turn-Adds o none [] s r some some (consume_named_option vs fs o none s)
        (consume-Consumed o none s) (λ t. none_left t r) (λ t v g. cc) e
  parse_from-Adds (o ∷ v ∷ rest) s r e =
      turn-Adds o (some v) (v ∷ rest) s r (parse_from vs fs (v ∷ rest)) (parse_from vs fs rest)
        (consume_named_option vs fs o (some v) s) (consume-Consumed o (some v) s)
        (λ t. parse_from-Adds (v ∷ rest) t r)
        (λ t w g k.
          let same : v ≡ w = cc in (rest, ap (λ x. x ∷ rest) same, parse_from-Adds rest t r k))
        e

  turn-refused :
      (o : String) (f : Option String) (s : Parsed) (next skip : Parsed → Option Parsed)
      (x : NamedOptionOutcome)
      → Consumed o f s x
      → (has fs o ≡ true → (t : Parsed) → next t ≡ none)
      → (has fs o ≡ false → has vs o ≡ true → (t : Parsed) → skip t ≡ none)
      → (has fs o ≡ false
          → has vs o ≡ false
          → starts_with_dashes o ≡ false
          → (t : Parsed) → next t ≡ none)
      → turn vs fs o s next skip x ≡ none
  turn-refused o f s next skip (flag t) (is_flag h) a b c = a h _
  turn-refused o f s next skip (value t) (is_value v g h x n) a b c = b x h _
  turn-refused o f s next skip invalid is_invalid a b c = refl
  turn-refused o f s next skip unknown (is_unknown g h) a b c =
      elim (Bool-cases (starts_with_dashes o)) [
        | inl x ↦ rw x refl
        | inr x ↦ rw x (c g h x (with_operand o s))
      ]

  unknown_from :
      (os : List String) (s : Parsed) (u : String)
      → unknown_named_option vs fs os ≡ some u
      → parse_from vs fs os s ≡ none
  unfolding parse_from unknown_named_option
  unknown_from [] s u h = cc
  unknown_from (o ∷ []) s u h =
      turn-refused o none s some some (consume_named_option vs fs o none s)
        (consume-Consumed o none s) (λ f t. ground arith) (λ f v t. ground arith)
        (λ f v d t. ground arith)
  unknown_from (o ∷ v ∷ rest) s u h =
      turn-refused o (some v) s (parse_from vs fs (v ∷ rest)) (parse_from vs fs rest)
        (consume_named_option vs fs o (some v) s) (consume-Consumed o (some v) s)
        (λ f t. unknown_from (v ∷ rest) t u (ground arith))
        (λ f g t. unknown_from rest t u (ground arith))
        (λ f g d t. unknown_from (v ∷ rest) t u (ground arith))

-- A parse that succeeds accounts for every word of the command line, in order: each word is a declared
-- flag, a declared name with the word behind it as its value, which is not empty, or an operand, which
-- is not declared and does not begin with two dashes. The parse holds exactly these.
pub parse-accounts :
    (vs fs options : List String) (r : Parsed)
    → parse_named_options vs fs options ≡ some r
    → Reads vs fs options r.flags r.values r.operands
unfolding parse_named_options
parse-accounts vs fs options r h =
    let a = parse_from-Adds vs fs options nothing_parsed r h in
    let f : r.flags ≡ a.new_flags = a.flags_lem in
    let v : r.values ≡ a.new_values = a.values_lem in
    let p : r.operands ≡ a.new_operands = a.operands_lem in rw (f, v, p) a.reads

-- The option that is named as unknown is one for which the parse fails.
pub unknown-refused :
    (vs fs options : List String) (o : String)
    → unknown_named_option vs fs options ≡ some o
    → parse_named_options vs fs options ≡ none
unfolding parse_named_options
unknown-refused vs fs options o h = unknown_from vs fs options nothing_parsed o h
