-- ===== src/StoreFile/Outcome.antt =====
-- What a write returns, and what it leaves of its own temporary.
use ceal_cli.Base.{
  ℕ, subst, take, ◌⊎◌, suc, Option, none, some, Bool, true, false, not, ◌&&◌, ◌==◌, ◌≡◌, refl, ◌∙◌,
  arith, inl, inr, Bool-cases, if◌then◌else◌,
}
use ceal_cli.StoreFile.Calls.{
  Name, same_name, File, Node, plain, symlink, directory, find, without, put, Entries, Disk, works,
  fails, partly, Fault, unsafe_store, Ended, done, thrown, killed, Action, Environment, stat,
  delete, change_mode, rename, write_new, follow, ◌>>◌,
}
use ceal_cli.StoreFile.Lookup.{same_name_refl, same_name_comm, find-without, find-put}
use ceal_cli.StoreFile.Sweep.{sweep_keeps, follow_keeps, follow-done, sweep-done}
use ceal_cli.StoreFile.Atomic.{swept_of_other, apart_of, check_keeps}
use ceal_cli.StoreFile.{
  StoreWrite, is_temporary, is_safe_prefix, temporary_name, file_mode, replace_file, check_target,
  sweep_stale_temporaries, write_local_store_file,
}

-- A target that the write may replace: none, a link that leads nowhere, or a plain file, of mode
-- 0600 where the caller requires that.
abbrev pub is_replaceable : Bool → Option Node → Bool
is_replaceable require_mode none = true
is_replaceable require_mode (some (symlink dangling)) = dangling
is_replaceable require_mode (some directory) = false
is_replaceable require_mode (some (plain f)) = not (require_mode && not (f.mode == file_mode))

module _ (v : Environment) (w : StoreWrite) (fine : (k : ℕ) → v.fault k ≡ works) where
  check_fine :
      (d : Disk)
      → (check_target v w d).0 ≡ (
          if is_replaceable w.require_mode (find w.file d.entries)
          then done tt
          else thrown unsafe_store)
  unfolding stat
  check_fine d = ground (arith, fine d.calls)

-- The temporary with the first bytes of the contents alone.
abbrev pub cut_short : Environment → StoreWrite → ℕ → Node
cut_short v w n =
    plain (record { mode = v.masked_mode; modified = v.now; contents = take n w.contents })

module _ (v : Environment) (w : StoreWrite) (t : Name) (apart : same_name t w.file ≡ false) where
  replace_fine :
      (d : Disk)
      → ((k : ℕ) → v.fault k ≡ works)
      → find t d.entries ≡ none
      → (replace_file v w t d).0 ≡ done tt
  unfolding write_new change_mode rename delete
  replace_fine d fine free =
      let f : File = record { mode = v.masked_mode; modified = v.now; contents = w.contents } in
      let g : File = record f { mode = file_mode } in
      let es : Entries = put t (plain f) d.entries in
      let fs : Entries = put t (plain g) es in
      ground (
        arith,
        fine d.calls,
        fine (suc d.calls),
        fine (suc (suc d.calls)),
        fine (suc (suc (suc d.calls))),
        find-put t t (plain f) d.entries,
        same_name_refl t,
        find-put t t (plain g) es,
      )

  -- Where one call at most fails, the temporary is gone.
  replace_cleans :
      (d : Disk) (j : ℕ)
      → ((k : ℕ) → v.fault k ≡ (if k == j then fails else works))
      → find t d.entries ≡ none
      → find t (replace_file v w t d).1.entries ≡ none
  unfolding write_new change_mode rename delete
  replace_cleans d j faults free =
      let f : File = record { mode = v.masked_mode; modified = v.now; contents = w.contents } in
      let g : File = record f { mode = file_mode } in
      let es : Entries = put t (plain f) d.entries in
      let fs : Entries = put t (plain g) es in
      let gs : Entries = put w.file (plain g) (without t fs) in
      ground (
        arith,
        faults d.calls,
        faults (suc d.calls),
        faults (suc (suc d.calls)),
        faults (suc (suc (suc d.calls))),
        find-put t t (plain f) d.entries,
        same_name_refl t,
        find-put t t (plain g) es,
        find-without t t es,
        find-without t t fs,
        find-without t t gs,
        find-put t w.file (plain g) (without t fs),
        same_name_comm t w.file,
      )

  -- Where one call at most ends in a part of what it does, the temporary is gone, or is that part.
  replace_cuts :
      (d : Disk) (j n : ℕ)
      → ((k : ℕ) → v.fault k ≡ (if k == j then partly n else works))
      → find t d.entries ≡ none
      → (find t (replace_file v w t d).1.entries ≡ none)
        ⊎ (find t (replace_file v w t d).1.entries ≡ some (cut_short v w n))
  unfolding write_new change_mode rename delete
  replace_cuts d j n faults free =
      let f : File = record { mode = v.masked_mode; modified = v.now; contents = w.contents } in
      let g : File = record f { mode = file_mode } in
      let es : Entries = put t (plain f) d.entries in
      let fs : Entries = put t (plain g) es in
      let gs : Entries = put w.file (plain g) (without t fs) in
      ground (
        arith,
        faults d.calls,
        faults (suc d.calls),
        faults (suc (suc d.calls)),
        faults (suc (suc (suc d.calls))),
        find-put t t (plain f) d.entries,
        find-put t t (cut_short v w n) d.entries,
        same_name_refl t,
        find-put t t (plain g) es,
        find-without t t es,
        find-without t t fs,
        find-without t t gs,
        find-put t w.file (plain g) (without t fs),
        same_name_comm t w.file,
      )

follow-decides :
    (k : Unit {0} → Action (Unit {0})) (r : Ended (Unit {0}) × Disk) (b : Bool)
    → r.0 ≡ (if b then done tt else thrown unsafe_store)
    → (k tt r.1).0 ≡ done tt
    → (follow k r).0 ≡ (if b then done tt else thrown unsafe_store)
follow-decides k (done _, d) true h out = out
follow-decides k (done _, d) false h out = cc
follow-decides k (thrown x, d) true h out = cc
follow-decides k (thrown x, d) false h out = h
follow-decides k (killed, d) true h out = cc
follow-decides k (killed, d) false h out = cc

-- If no call fails, a write under a safe prefix succeeds exactly if its target is absent, a link that
-- leads nowhere, or a plain file, of mode 0600 where the caller requires that, and refuses the store
-- as unsafe otherwise. Its random name is not taken.
pub write_decides :
    (v : Environment) (w : StoreWrite) (d : Disk)
    → ((k : ℕ) → v.fault k ≡ works)
    → is_safe_prefix w.prefix ≡ true
    → is_temporary w.prefix w.file ≡ false
    → find (temporary_name v w.prefix) d.entries ≡ none
    → (write_local_store_file v w d).0 ≡ (
        if is_replaceable w.require_mode (find w.file d.entries)
        then done tt
        else thrown unsafe_store)
unfolding write_local_store_file
write_decides v w d fine safe other free =
    let t : Name = temporary_name v w.prefix in
    let swept : Disk = (sweep_stale_temporaries v w.prefix d).1 in
    let target : find w.file swept.entries ≡ find w.file d.entries =
      sweep_keeps v w.prefix d w.file
        (swept_of_other v.now w.prefix w.file (find w.file d.entries) other) in
    let still_free : find t swept.entries ≡ none =
      sweep_keeps v w.prefix d t (rw free refl) ∙ free in
    let checked : Disk = (check_target v w swept).1 in
    let decided : (check_target v w swept).0 ≡ (
        if is_replaceable w.require_mode (find w.file d.entries)
        then done tt
        else thrown unsafe_store) =
      rw (← target) (check_fine v w fine swept) in
    let out : (replace_file v w t checked).0 ≡ done tt =
      replace_fine v w t (apart_of v w.prefix w.file other) checked fine
        (check_keeps v w swept t ∙ still_free) in
    rw
      (
        safe,
        follow-done (λ _. check_target v w >> replace_file v w t)
            (sweep_stale_temporaries v w.prefix d) (sweep-done v w.prefix fine d),
      )
      (follow-decides (λ _. replace_file v w t) (check_target v w swept)
        (is_replaceable w.require_mode (find w.file d.entries)) decided out)

write_cleans_fails :
    (v : Environment) (w : StoreWrite) (d : Disk) (j : ℕ)
    → ((k : ℕ) → v.fault k ≡ (if k == j then fails else works))
    → is_temporary w.prefix w.file ≡ false
    → find (temporary_name v w.prefix) d.entries ≡ none
    → find (temporary_name v w.prefix) (write_local_store_file v w d).1.entries ≡ none
unfolding write_local_store_file
write_cleans_fails v w d j faults other free =
    let t : Name = temporary_name v w.prefix in
    let apart : same_name t w.file ≡ false = apart_of v w.prefix w.file other in
    let cleaned : find t
          (follow (λ _. check_target v w >> replace_file v w t)
            (sweep_stale_temporaries v w.prefix d)).1.entries
        ≡ none =
      follow_keeps t none (λ _. check_target v w >> replace_file v w t)
        (sweep_stale_temporaries v w.prefix d) (sweep_keeps v w.prefix d t (rw free refl) ∙ free)
        (λ (c : Disk) (e : find t c.entries ≡ none).
          follow_keeps t none (λ _. replace_file v w t) (check_target v w c)
            (check_keeps v w c t ∙ e)
            (λ (b : Disk) (g : find t b.entries ≡ none).
              replace_cleans v w t apart b j faults g)) in
    elim (Bool-cases (is_safe_prefix w.prefix)) [ inl e ↦ rw e cleaned | inr e ↦ rw e free ]

-- Two actions leave no temporary, or a cut one, if the first leaves none and the second either.
follow_cuts :
    (n : Name) (cut : Node) (k : Unit {0} → Action (Unit {0})) (r : Ended (Unit {0}) × Disk)
    → find n r.1.entries ≡ none
    → ((c : Disk)
        → find n c.entries ≡ none
        → (find n (k tt c).1.entries ≡ none) ⊎ (find n (k tt c).1.entries ≡ some cut))
    → (find n (follow k r).1.entries ≡ none) ⊎ (find n (follow k r).1.entries ≡ some cut)
follow_cuts n cut k (done u, c) e next = next c e
follow_cuts n cut k (thrown x, c) e next = inl e
follow_cuts n cut k (killed, c) e next = inl e

write_cleans_partly :
    (v : Environment) (w : StoreWrite) (d : Disk) (j n : ℕ)
    → ((k : ℕ) → v.fault k ≡ (if k == j then partly n else works))
    → is_temporary w.prefix w.file ≡ false
    → find (temporary_name v w.prefix) d.entries ≡ none
    → let t = temporary_name v w.prefix in
      (find t (write_local_store_file v w d).1.entries ≡ none)
      ⊎ (find t (write_local_store_file v w d).1.entries ≡ some (cut_short v w n))
unfolding write_local_store_file
write_cleans_partly v w d j n faults other free =
    let t : Name = temporary_name v w.prefix in
    let apart : same_name t w.file ≡ false = apart_of v w.prefix w.file other in
    let swept : Ended (Unit {0}) × Disk = sweep_stale_temporaries v w.prefix d in
    let rest : Unit {0} → Action (Unit {0}) = λ _. check_target v w >> replace_file v w t in
    let cleaned : (find t (follow rest swept).1.entries ≡ none)
        ⊎ (find t (follow rest swept).1.entries ≡ some (cut_short v w n)) =
      follow_cuts t (cut_short v w n) rest swept (sweep_keeps v w.prefix d t (rw free refl) ∙ free)
        (λ (c : Disk) (e : find t c.entries ≡ none).
          follow_cuts t (cut_short v w n) (λ _. replace_file v w t) (check_target v w c)
            (check_keeps v w c t ∙ e)
            (λ (b : Disk) (g : find t b.entries ≡ none).
              replace_cuts v w t apart b j n faults g)) in
    elim (Bool-cases (is_safe_prefix w.prefix)) [ inl e ↦ rw e cleaned | inr e ↦ rw e (inl free) ]

-- A call that fails before it did anything, or that ends in a part of what it does
abbrev pub IsFailure : Fault → Type 0
IsFailure x = (x ≡ fails) ⊎ ((n : ℕ) × (x ≡ partly n))

-- If one call fails, whichever it is, the write leaves no temporary of its own, unless the call is one
-- that ended in a part: then the temporary may hold the first bytes of the contents, as many as it
-- wrote. Its random name is not taken.
pub write_cleans :
    (v : Environment) (w : StoreWrite) (d : Disk) (j : ℕ) (x : Fault)
    → IsFailure x
    → ((k : ℕ) → v.fault k ≡ (if k == j then x else works))
    → is_temporary w.prefix w.file ≡ false
    → find (temporary_name v w.prefix) d.entries ≡ none
    → (find (temporary_name v w.prefix) (write_local_store_file v w d).1.entries ≡ none)
      ⊎ ((n : ℕ) × (x ≡ partly n)
          × (find (temporary_name v w.prefix) (write_local_store_file v w d).1.entries
              ≡ some (cut_short v w n)))
write_cleans v w d j x (inl e) faults other free = inl (
    write_cleans_fails v w d j
      (subst (λ (y : Fault). (k : ℕ) → v.fault k ≡ (if k == j then y else works)) e faults) other
      free)
write_cleans v w d j x (inr (n, e)) faults other free =
    elim (write_cleans_partly v w d j n
      (subst (λ (y : Fault). (k : ℕ) → v.fault k ≡ (if k == j then y else works)) e faults) other
      free) [ inl gone ↦ inl gone | inr cut ↦ inr (n, e, cut) ]
