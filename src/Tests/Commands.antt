-- ===== src/Tests/Commands.antt =====
-- Concrete instances of the properties of the command line's options.
use ceal_cli.Base.{String, List, [], ◌∷◌, some, ◌≡◌, refl}
use ceal_cli.NamedOptions.{Parsed, parse_named_options, unknown_named_option}
use ceal_cli.NamedOptions.Accounting.{Reads, parse-accounts}

abbrev value_options : List String
value_options = "--target" ∷ []

abbrev flag_options : List String
flag_options = "--json" ∷ []

abbrev parsed : Parsed
parsed = record { values = ("--target", "a") ∷ []; flags = "--json" ∷ []; operands = "call" ∷ [] }

command-parsed :
    parse_named_options value_options flag_options ("call" ∷ "--target" ∷ "a" ∷ "--json" ∷ [])
    ≡ some parsed
unfolding parse_named_options ceal_cli.NamedOptions.consume_named_option
command-parsed = refl

parse-accounts_example :
    Reads value_options flag_options
      ("call" ∷ "--target" ∷ "a" ∷ "--json" ∷ [])
      parsed.flags
      parsed.values
      parsed.operands
parse-accounts_example =
    parse-accounts value_options flag_options ("call" ∷ "--target" ∷ "a" ∷ "--json" ∷ []) parsed
      command-parsed

command-unknown :
    unknown_named_option value_options flag_options ("call" ∷ "--nope" ∷ []) ≡ some "--nope"
unfolding unknown_named_option
command-unknown = refl
