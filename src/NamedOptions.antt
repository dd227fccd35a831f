-- ===== src/NamedOptions.antt =====
-- packages/ceal-worker-cli/src/named-options.ts: the named options of a command line.
pub mod Accounting
use ceal_cli.Base.{
  String, List, [], ◌∷◌, ◌++◌, map, Option, none, some, Bool, true, false, ◌&&◌, ◌||◌, not, str_eq,
  has, after_prefix, codes, if◌then◌else◌,
}

-- option.startsWith("--")
abbrev pub starts_with_dashes : String → Bool
starts_with_dashes s = elim (after_prefix (codes "--") (codes s)) [ none ↦ false | some _ ↦ true ]

-- ParsedNamedOptions: the map and the set as lists in the order of insertion
pub record Parsed : Type 0 where
  pub values : List (String × String)
  pub flags : List String
  pub operands : List String

abbrev pub nothing_parsed : Parsed
nothing_parsed = record { values = []; flags = []; operands = [] }

abbrev pub names : List (String × String) → List String
names [] = []
names ((k, v) ∷ vs) = k ∷ names vs

-- NamedOptionOutcome, with the map and the set that are left
pub data NamedOptionOutcome : Type 0 where
  flag : Parsed → NamedOptionOutcome
  value : Parsed → NamedOptionOutcome
  unknown : NamedOptionOutcome
  invalid : NamedOptionOutcome

abbrev pub with_operand : String → Parsed → Parsed
with_operand o s = record s { operands = s.operands ++ o ∷ [] }

module _ (value_options flag_options : List String) where
  abbrev pub is_option : String → Bool
  is_option s = has value_options s || has flag_options s

  abbrev pub refused_value : String → String → Parsed → Bool
  refused_value o following s =
      has (names s.values) o
      || str_eq following ""
      || (not (str_eq following "--") && starts_with_dashes following && is_option following)

  abbrev pub consume_value : String → Option String → Parsed → NamedOptionOutcome
  consume_value o none s = invalid
  consume_value o (some following) s =
      if refused_value o following s
      then invalid
      else value (record s { values = s.values ++ (o, following) ∷ [] })

  -- consumeNamedOption
  unfoldable pub consume_named_option : String → Option String → Parsed → NamedOptionOutcome
  consume_named_option o following s =
      if has flag_options o
      then (if has s.flags o then invalid else flag (record s { flags = s.flags ++ o ∷ [] }))
      else (if not (has value_options o) then unknown else consume_value o following s)

  -- One turn of the loop of parseNamedOptions, with the turns that follow.
  abbrev pub turn :
      String
      → Parsed
      → (Parsed → Option Parsed)
      → (Parsed → Option Parsed)
      → NamedOptionOutcome
      → Option Parsed
  turn o s next skip invalid = none
  turn o s next skip (flag t) = next t
  turn o s next skip (value t) = skip t
  turn o s next skip unknown = if starts_with_dashes o then none else next (with_operand o s)

  unfoldable pub parse_from : List String → Parsed → Option Parsed
  parse_from [] s = some s
  parse_from (o ∷ []) s = turn o s some some (consume_named_option o none s)
  parse_from (o ∷ v ∷ rest) s =
      turn o s (parse_from (v ∷ rest)) (parse_from rest) (consume_named_option o (some v) s)

  -- parseNamedOptions
  unfoldable pub parse_named_options : List String → Option Parsed
  unfolding parse_from
  parse_named_options options = parse_from options nothing_parsed

  -- unknownNamedOption
  unfoldable pub unknown_named_option : List String → Option String
  unknown_named_option [] = none
  unknown_named_option (o ∷ []) =
      if has flag_options o || has value_options o || not (starts_with_dashes o)
      then none
      else some o
  unknown_named_option (o ∷ v ∷ rest) =
      let after = unknown_named_option (v ∷ rest) in
      let past = unknown_named_option rest in
      if has flag_options o
      then after
      else (if has value_options o then past else (if starts_with_dashes o then some o else after))
