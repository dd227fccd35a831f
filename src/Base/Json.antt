-- ===== src/Base/Json.antt =====
-- JSON values, as `JSON.parse` returns them. A number is a natural number or one that no
-- definition of this library looks into. Keys of an object are distinct.
use Prim.Native.Nat.{ℕ}
use Prim.Native.String.{String}
use mathlib.Core.Bool.{Bool}
use mathlib.Core.List.{List, [], ◌∷◌}
use mathlib.Core.Option.{Option, none, some}
use text.Mathlib.Text.{◌==◌ as str_eq}
use ceal_cli.Base.Tests.{if◌then◌else◌}

mutual
  pub data Json : Type 0 where
    null : Json
    bool : Bool → Json
    num : ℕ → Json
    other_num : Json
    str : String → Json
    arr : Items → Json
    obj : Fields → Json

  pub data Items : Type 0 where
    nil : Items
    cons : Json → Items → Items

  pub data Fields : Type 0 where
    end : Fields
    field : String → Json → Fields → Fields

-- record[key]; none is undefined.
abbrev pub get : String → Fields → Option Json
get k end = none
get k (field j v fs) = if str_eq j k then some v else get k fs

-- Object.keys(record)
abbrev pub keys : Fields → List String
keys end = []
keys (field k v fs) = k ∷ keys fs

abbrev pub items : Items → List Json
items nil = []
items (cons v vs) = v ∷ items vs

abbrev pub from_items : List Json → Items
from_items [] = nil
from_items (v ∷ vs) = cons v (from_items vs)

-- typeof value === "string"
abbrev pub as_text : Option Json → Option String
as_text (some (str s)) = some s
as_text _ = none

-- The property that an object spread adds only where the value is defined.
abbrev pub optional_field : String → Option Json → Fields → Fields
optional_field k none fs = fs
optional_field k (some v) fs = field k v fs
