-- ===== src/Tests/Files.antt =====
-- Concrete writes of a store's file.
use ceal_cli.Base.{
  ℕ, [], ◌∷◌, codes, none, some, true, false, ◌==◌, ◌≡◌, ◌⊎◌, inl, refl, if◌then◌else◌,
}
use ceal_cli.StoreFile.Calls.{
  Name, File, plain, Disk, Fault, works, fails, partly, find, without, put, stat, delete,
  change_mode, rename, write_new, Environment,
}
use ceal_cli.StoreFile.Sweep.{IsLeftOver, sweep_exact}
use ceal_cli.StoreFile.Atomic.{Replaces, new_file, write-Replaces}
use ceal_cli.StoreFile.Outcome.{cut_short, write_cleans}
use ceal_cli.StoreFile.{
  StoreWrite, is_temporary, safe_rest, temporary_name, sweep_names, sweep_stale_temporaries,
  write_local_store_file,
}

abbrev session_file : Name
session_file = codes "client-session.json"

abbrev orphan : Name
orphan = codes ".session.7.ab.tmp"

abbrev sibling_orphan : Name
sibling_orphan = codes ".session-spool.7.ab.tmp"

abbrev old_file : File
old_file = record { mode = 384; modified = 5; contents = 1 ∷ 2 ∷ [] }

abbrev disk : Disk
disk = record {
  entries =
      (orphan, plain old_file)
      ∷ (session_file, plain old_file)
      ∷ (sibling_orphan, plain old_file)
      ∷ [];
  calls = 0;
}

abbrev environment : (ℕ → Fault) → Environment
environment fault = record {
  fault = fault;
  now = 3600006;
  pid = codes "41";
  nonce = codes "00ff";
  masked_mode = 256;
}

abbrev session_write : StoreWrite
session_write = record {
  file = session_file;
  prefix = codes "session";
  contents = 7 ∷ 8 ∷ 9 ∷ [];
  require_mode = true;
}

-- The call at this position fails.
abbrev failing : ℕ → ℕ → Fault
failing j k = if k == j then fails else works

write-Replaces_example :
    let v = environment (failing 6) in
    let (r, after) = write_local_store_file v session_write disk in
    Replaces
      (find session_file disk.entries)
      (new_file v session_write)
      r
      (find session_file after.entries)
unfolding is_temporary
write-Replaces_example = write-Replaces (environment (failing 6)) session_write disk refl

abbrev swept : Disk
swept = (sweep_stale_temporaries (environment λ k. works) (codes "session") disk).1

sweep_exact_example :
    (IsLeftOver 3600006 (codes "session") orphan (find orphan disk.entries)
      → find orphan swept.entries ≡ none)
    × ((¬ IsLeftOver 3600006 (codes "session") orphan (find orphan disk.entries))
        → find orphan swept.entries ≡ find orphan disk.entries)
sweep_exact_example = sweep_exact (environment λ k. works) (codes "session") (λ k. refl) disk orphan

write_cleans_example :
    (find
        (temporary_name (environment (failing 5)) (codes "session"))
        (write_local_store_file (environment (failing 5)) session_write disk).1.entries
      ≡ none)
    ⊎ ((n : ℕ) × (fails ≡ partly n)
        × (find
              (temporary_name (environment (failing 5)) (codes "session"))
              (write_local_store_file (environment (failing 5)) session_write disk).1.entries
            ≡ some (cut_short (environment (failing 5)) session_write n)))
unfolding is_temporary find
write_cleans_example =
    write_cleans (environment (failing 5)) session_write disk 5 fails (inl refl) (λ k. refl) refl
      refl

-- The orphan of another prefix is no temporary of this one.
sibling_is_kept : is_temporary (codes "session") sibling_orphan ≡ false
unfolding is_temporary
sibling_is_kept = refl

-- A write that fails after it has created the temporary leaves a part of the contents there.
abbrev breaking_off : Environment
breaking_off = environment λ k. if k == 4 then partly 2 else works

partial_write_stays :
    find
      (temporary_name breaking_off (codes "session"))
      (write_local_store_file breaking_off session_write disk).1.entries
    ≡ some (plain (record { mode = 256; modified = 3600006; contents = 7 ∷ 8 ∷ [] }))
unfolding write_local_store_file safe_rest sweep_stale_temporaries sweep_names is_temporary find
    without put stat delete change_mode rename write_new
partial_write_stays = refl
