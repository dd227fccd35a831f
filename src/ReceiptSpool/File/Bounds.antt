-- ===== src/ReceiptSpool/File/Bounds.antt =====
-- What a read of the spool file may return, whatever the file holds.
use ceal_cli.Base.{
  ℕ, ◌≤◌, ◌-◌, String, List, [], length, take_last, length-drop, all, all-drop, Option, none, some,
  Bool, true, ◌≡◌, refl, arith, sym, inl, inr, Bool-cases, Option-cases,
}
use ceal_cli.Base.Json.{
  Json, Items, Fields, null, bool, num, other_num, str, arr, obj, get, nil, cons,
}
use ceal_cli.Platform.{Platform}
use ceal_cli.ReceiptSpool.{
  Entry, max_entries, within_retention, is_valid_entry, parse_entry, entry_of,
}
use ceal_cli.ReceiptSpool.File.{
  File, Drops, State, Reading, spool, foreign, missing, parsed_entries, read_entries, read_record,
  read_json, read_items, read_spool, state, loaded, load,
}

-- Within the declared bounds, at the time of the read.
pub record IsBounded (now : ℕ) (es : List Entry) : Type 0 where
  pub few : length es ≤ max_entries
  pub recent : all (λ e. within_retention e.recorded_at now) es ≡ true
  pub valid : all is_valid_entry es ≡ true

pub length-take_last : {A : Type 0} (n : ℕ) (xs : List A) → length (take_last n xs) ≤ n
length-take_last n xs = omega (arith, length-drop (length xs - n) xs)

parse_entry-valid :
    (p : Platform) (j : Json) (e : Entry) → parse_entry p j ≡ some e → is_valid_entry e ≡ true
unfolding parse_entry entry_of
parse_entry-valid p j e h = ground arith

parsed_entries-recent :
    (p : Platform) (now : ℕ) (vs : Items)
    → all (λ e. within_retention e.recorded_at now) (parsed_entries p now vs) ≡ true
parsed_entries-recent p now nil = refl
parsed_entries-recent p now (cons v vs) = ground (arith, parsed_entries-recent p now vs)

parsed_entries-valid :
    (p : Platform) (now : ℕ) (vs : Items) → all is_valid_entry (parsed_entries p now vs) ≡ true
parsed_entries-valid p now nil = refl
parsed_entries-valid p now (cons v vs) = elim (Option-cases (parse_entry p v)) [
  | inl x ↦ rw (x, all, parsed_entries) (parsed_entries-valid p now vs)
  | inr (e, x) ↦
      let one : is_valid_entry e ≡ true = parse_entry-valid p v e x in
      elim (Bool-cases (within_retention e.recorded_at now)) [
        | inl y ↦ rw (x, y, one, parsed_entries) (parsed_entries-valid p now vs)
        | inr y ↦ rw (x, y, parsed_entries) (parsed_entries-valid p now vs)
      ]
]

read_entries-IsBounded :
    (p : Platform) (vs : Items) (now : ℕ)
    → IsBounded now (take_last max_entries (parsed_entries p now vs))
read_entries-IsBounded p vs now = record {
  few = length-take_last max_entries (parsed_entries p now vs);
  recent = all-drop _ _ (parsed_entries p now vs) (parsed_entries-recent p now vs);
  valid = all-drop _ _ (parsed_entries p now vs) (parsed_entries-valid p now vs);
}

read_record-entries :
    (p : Platform) (fs : Fields) (vs : Items) (identity : String) (now : ℕ) (drops : Drops)
    (s : State)
    → read_record p fs vs identity now drops ≡ spool s
    → s.entries ≡ take_last max_entries (parsed_entries p now vs)
unfolding read_record read_entries
read_record-entries p fs vs identity now drops s h = ground arith

module _ (p : Platform) (identity : String) (now : ℕ) (drops : Drops) (s : State) where
  read_items-IsBounded :
      (fs : Fields) (j : Option Json)
      → read_items p fs j identity now drops ≡ spool s
      → IsBounded now s.entries
  read_items-IsBounded fs (some (arr vs)) h =
      rw (read_record-entries p fs vs identity now drops s h) (read_entries-IsBounded p vs now)
  read_items-IsBounded fs (some null) h = cc
  read_items-IsBounded fs (some (bool _)) h = cc
  read_items-IsBounded fs (some (num _)) h = cc
  read_items-IsBounded fs (some other_num) h = cc
  read_items-IsBounded fs (some (str _)) h = cc
  read_items-IsBounded fs (some (obj _)) h = cc
  read_items-IsBounded fs none h = cc

  read_json-IsBounded :
      (j : Option Json) → read_json p j identity now drops ≡ spool s → IsBounded now s.entries
  unfolding read_json
  read_json-IsBounded (some (obj fs)) h = read_items-IsBounded fs (get "entries" fs) h
  read_json-IsBounded (some null) h = cc
  read_json-IsBounded (some (bool _)) h = cc
  read_json-IsBounded (some (num _)) h = cc
  read_json-IsBounded (some other_num) h = cc
  read_json-IsBounded (some (str _)) h = cc
  read_json-IsBounded (some (arr _)) h = cc
  read_json-IsBounded none h = cc

  pub read_spool-IsBounded :
      (file : Option File) (mode : Bool)
      → read_spool p file identity now drops mode ≡ spool s
      → IsBounded now s.entries
  unfolding read_spool
  read_spool-IsBounded none mode h = cc
  read_spool-IsBounded (some f) mode h = read_json-IsBounded f.contents (ground arith)

  empty-IsBounded : (t : State) → t.entries ≡ [] → IsBounded now t.entries
  empty-IsBounded t h = rw h (record { few = omega arith; recent = refl; valid = refl })

  loaded-IsBounded :
      (file : Option File) (r : Reading)
      → read_spool p file identity now drops true ≡ r
      → loaded file drops r ≡ state s
      → IsBounded now s.entries
  loaded-IsBounded file (spool t) e h =
      let same : t ≡ s = cc in read_spool-IsBounded file true (rw (sym same) e)
  loaded-IsBounded file foreign e h = empty-IsBounded s (ground arith)
  loaded-IsBounded (some f) missing e h = cc
  loaded-IsBounded none missing e h = empty-IsBounded s (ground arith)

-- What `load` returns is within the bounds, whatever the file holds: at most 200 entries, each
-- valid and each within the retention window at the time of the read.
pub load-IsBounded :
    (p : Platform) (file : Option File) (drops : Drops) (identity : String) (now : ℕ) (s : State)
    → load p file drops identity now ≡ state s
    → IsBounded now s.entries
unfolding load
load-IsBounded p file drops identity now s h =
    loaded-IsBounded p identity now drops s file _ refl (ground arith)
