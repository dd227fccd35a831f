-- ===== src/StoreFile/Atomic.antt =====
-- The file of a store after a write: the old one or the whole new one.
use ceal_cli.Base.{
  ℕ, List, take, Option, none, some, Bool, true, false, ◌≡◌, false≢true, refl, sym, subst, ◌∙◌,
  arith, ◌⊎◌, inl, inr, Bool-cases, if◌then◌else◌,
}
use ceal_cli.StoreFile.Calls.{
  Name, same_name, File, Node, plain, find, without, put, Entries, Disk, Fault, works, fails, dies,
  partly, dies_within, Ended, done, thrown, killed, throw, unsafe_store, Action, Environment, stat,
  delete, change_mode, rename, write_new, create, follow, finally, ◌>>◌,
}
use ceal_cli.StoreFile.Lookup.{same_name_iff, same_name_refl, find-without, find-put}
use ceal_cli.StoreFile.Sweep.{is_swept, sweep_keeps}
use ceal_cli.StoreFile.Prefix.{temporary_name-is_temporary}
use ceal_cli.StoreFile.{
  StoreWrite, is_temporary, is_safe_prefix, temporary_name, file_mode, put_in_place, replace_file,
  check_target, sweep_stale_temporaries, write_local_store_file,
}

abbrev pub is_done : Ended (Unit {0}) → Bool
is_done (done _) = true
is_done _ = false

-- The abstract store holds one file. A replacement that does not succeed may have taken place.
pub data Replaces (old : Option Node) (new : File) : Ended (Unit {0}) → Option Node → Type 0 where
  kept : {r : Ended (Unit {0})} → is_done r ≡ false → Replaces old new r old
  replaced : {r : Ended (Unit {0})} → Replaces old new r (some (plain new))

-- The same, as a sum.
abbrev Leaves : Option Node → File → Ended (Unit {0}) × Option Node → Type 0
Leaves old new (r, found) = ((is_done r ≡ false) × (found ≡ old)) ⊎ (found ≡ some (plain new))

Leaves-Replaces :
    (old : Option Node) (new : File) (r : Ended (Unit {0})) (found : Option Node)
    → Leaves old new (r, found)
    → Replaces old new r found
Leaves-Replaces old new r found (inl (e, same)) = subst (Replaces old new r) (sym same) (kept e)
Leaves-Replaces old new r found (inr e) = subst (Replaces old new r) (sym e) replaced

abbrev pub new_file : Environment → StoreWrite → File
new_file v w = record { mode = file_mode; modified = v.now; contents = w.contents }

-- What an action's end shows of the store's file.
abbrev seen : StoreWrite → Ended (Unit {0}) × Disk → Ended (Unit {0}) × Option Node
seen w (r, d) = (r, find w.file d.entries)

module _ (v : Environment) (w : StoreWrite) (t : Name) (apart : same_name t w.file ≡ false) where
  put_in_place_lem :
      (d : Disk) (f : File)
      → f.modified ≡ v.now
      → f.contents ≡ w.contents
      → find t d.entries ≡ some (plain f)
      → Leaves (find w.file d.entries) (new_file v w) (seen w (put_in_place v w t d))
  unfolding change_mode rename
  put_in_place_lem d f at bytes here =
      let g : File = record f { mode = file_mode } in
      let es : Entries = put t (plain g) d.entries in
      ground (
        arith,
        find-put w.file t (plain g) d.entries,
        find-put t t (plain g) d.entries,
        same_name_refl t,
        same_name_refl w.file,
        find-put w.file w.file (plain g) (without t es),
      )

  delete_keeps : (d : Disk) → find w.file (delete v t d).1.entries ≡ find w.file d.entries
  unfolding delete
  delete_keeps d = ground (arith, find-without w.file t d.entries)

  finally-Leaves :
      (old : Option Node) (new : File) (r : Ended (Unit {0}) × Disk)
      → Leaves old new (seen w r)
      → Leaves old new (seen w (finally (delete v t) r))
  finally-Leaves old new (done _, d) h = ground (arith, delete_keeps d)
  finally-Leaves old new (thrown _, d) h = ground (arith, delete_keeps d)
  finally-Leaves old new (killed, d) h = h

  create_keeps :
      (fault : Fault) (f : File) (found : Option Node) (d : Disk)
      → find w.file (create fault t f found d).1.entries ≡ find w.file d.entries
  create_keeps works f none d = ground (arith, find-put w.file t (plain f) d.entries)
  create_keeps fails f none d = refl
  create_keeps dies f none d = refl
  create_keeps (partly k) f none d =
      let g : File = record f { contents = take k f.contents } in
      ground (arith, find-put w.file t (plain g) d.entries)
  create_keeps (dies_within k) f none d =
      let g : File = record f { contents = take k f.contents } in
      ground (arith, find-put w.file t (plain g) d.entries)
  create_keeps fault f (some x) d = ground arith

  write_new_keeps :
      (d : Disk) → find w.file (write_new v t w.contents d).1.entries ≡ find w.file d.entries
  unfolding write_new
  write_new_keeps d =
      create_keeps (v.fault d.calls)
        (record { mode = v.masked_mode; modified = v.now; contents = w.contents })
        (find t d.entries) d

  write_new_lem :
      (d : Disk)
      → is_done (write_new v t w.contents d).0 ≡ true
      → find t (write_new v t w.contents d).1.entries
        ≡ some (plain (record { mode = v.masked_mode; modified = v.now; contents = w.contents }))
  unfolding write_new
  write_new_lem d h =
      let f : File = record { mode = v.masked_mode; modified = v.now; contents = w.contents } in
      ground (arith, find-put t t (plain f) d.entries, same_name_refl t)

  replace-Leaves :
      (d : Disk) → Leaves (find w.file d.entries) (new_file v w) (seen w (replace_file v w t d))
  replace-Leaves d = after_write (write_new v t w.contents d) (write_new_keeps d) (write_new_lem d)
    where
      after_write :
          (r : Ended (Unit {0}) × Disk)
          → find w.file r.1.entries ≡ find w.file d.entries
          → (is_done r.0 ≡ true
              → find t r.1.entries
                ≡ some (
                    plain
                      (record { mode = v.masked_mode; modified = v.now; contents = w.contents })))
          → Leaves
              (find w.file d.entries)
              (new_file v w)
              (seen w (follow (λ _ c. finally (delete v t) (put_in_place v w t c)) r))
      after_write (done _, c) same here =
          let f : File = record { mode = v.masked_mode; modified = v.now; contents = w.contents } in
          let out : Leaves (find w.file c.entries) (new_file v w) (seen w (put_in_place v w t c)) =
            put_in_place_lem c f refl refl (here refl) in
          subst
            (λ (x : Option Node).
              Leaves x (new_file v w) (seen w (finally (delete v t) (put_in_place v w t c))))
            same (finally-Leaves (find w.file c.entries) (new_file v w) (put_in_place v w t c) out)
      after_write (thrown _, c) same here = inl (refl, same)
      after_write (killed, c) same here = inl (refl, same)

-- A step before the write that leaves the file as it was, and then the rest.
follow-Leaves :
    (w : StoreWrite) (old : Option Node) (new : File) (k : Unit {0} → Action (Unit {0}))
    (r : Ended (Unit {0}) × Disk)
    → find w.file r.1.entries ≡ old
    → ((c : Disk) → find w.file c.entries ≡ old → Leaves old new (seen w (k tt c)))
    → Leaves old new (seen w (follow k r))
follow-Leaves w old new k (done _, c) e next = next c e
follow-Leaves w old new k (thrown _, c) e next = inl (refl, e)
follow-Leaves w old new k (killed, c) e next = inl (refl, e)

pub check_keeps :
    (v : Environment) (w : StoreWrite) (d : Disk) (n : Name)
    → find n (check_target v w d).1.entries ≡ find n d.entries
unfolding stat
check_keeps v w d n = ground arith

pub swept_of_other :
    (now : ℕ) (prefix : List ℕ) (n : Name) (found : Option Node)
    → is_temporary prefix n ≡ false
    → is_swept now prefix n found ≡ false
swept_of_other now prefix n none h = refl
swept_of_other now prefix n (some x) h = ground arith

pub apart_of :
    (v : Environment) (prefix : List ℕ) (n : Name)
    → is_temporary prefix n ≡ false
    → same_name (temporary_name v prefix) n ≡ false
apart_of v prefix n h = elim (Bool-cases (same_name (temporary_name v prefix) n)) [
  | inr e ↦ e
  | inl e ↦
      let same : temporary_name v prefix ≡ n = (same_name_iff (temporary_name v prefix) n).0 e in
      let is : is_temporary prefix (temporary_name v prefix) ≡ true =
        temporary_name-is_temporary v prefix in
      absurd (false≢true (sym h ∙ subst (λ (x : Name). is_temporary prefix x ≡ true) same is))
]

if-Leaves :
    (w : StoreWrite) (old : Option Node) (new : File) (safe : Bool) (m : Action (Unit {0}))
    (d : Disk)
    → find w.file d.entries ≡ old
    → Leaves old new (seen w (m d))
    → Leaves old new (seen w ((if safe then m else throw unsafe_store) d))
if-Leaves w old new true m d same h = h
if-Leaves w old new false m d same h = inl (refl, same)

-- Whatever call fails, and wherever the process dies, the store's file is the old one or the whole
-- new one with the mode 0600, and it is the new one if the write returns. The file is one whose name
-- is not that of a temporary.
pub write-Replaces :
    (v : Environment) (w : StoreWrite) (d : Disk)
    → is_temporary w.prefix w.file ≡ false
    → let (r, after) = write_local_store_file v w d in
      Replaces (find w.file d.entries) (new_file v w) r (find w.file after.entries)
unfolding write_local_store_file
write-Replaces v w d other =
    let old : Option Node = find w.file d.entries in
    let t : Name = temporary_name v w.prefix in
    let apart : same_name t w.file ≡ false = apart_of v w.prefix w.file other in
    let new : File = new_file v w in
    let replaces : (c : Disk)
        → find w.file c.entries ≡ old
        → Leaves old new (seen w (replace_file v w t c)) =
      (λ c e.
        subst (λ (x : Option Node). Leaves x new (seen w (replace_file v w t c))) e
          (replace-Leaves v w t apart c)) in
    let checks : (c : Disk)
        → find w.file c.entries ≡ old
        → Leaves old new (seen w (follow (λ _. replace_file v w t) (check_target v w c))) =
      (λ c e.
        follow-Leaves w old new (λ _. replace_file v w t) (check_target v w c)
          (check_keeps v w c w.file ∙ e) replaces) in
    let sweeps : Leaves old new (
        seen w (
          follow (λ _. check_target v w >> replace_file v w t)
            (sweep_stale_temporaries v w.prefix d))) =
      follow-Leaves w old new (λ _. check_target v w >> replace_file v w t)
        (sweep_stale_temporaries v w.prefix d)
        (sweep_keeps v w.prefix d w.file (swept_of_other v.now w.prefix w.file old other)) checks in
    let (r, after) = write_local_store_file v w d in
    Leaves-Replaces old new r (find w.file after.entries) (
      if-Leaves w old new (is_safe_prefix w.prefix)
        (sweep_stale_temporaries v w.prefix >> (check_target v w >> replace_file v w t)) d refl
        sweeps)
