-- ===== src/Handoff/Failed.antt =====
-- What a failed handoff leaves, and when a handoff cannot fail.
use ceal_cli.Base.{
  ℕ, String, List, [], ◌∷◌, ◌++◌, length, false, ◌≡◌, inl, inr, ◌⊎◌, arith, Option, none, some,
  Bool-cases,
}
use ceal_cli.Base.Outcome.{Outcome, ok, err}
use ceal_cli.AttachmentStream.{Yielded}
use ceal_cli.Handoff.{
  same_binding, Manifest, StreamRecord, manifest, attachment, terminal, ReceiveError, Surroundings,
  Files, other_error, manifest_file, Root, unowned, removed, Progress, clean_up, settle_manifest,
  publish_manifest, receive_records, materialized_of, fill_root, open_root,
  receive_attachment_stream,
}

module _ (v : Surroundings) where
  -- The root was not this call's, or it is gone, or its removal failed, which the error says.
  abbrev pub IsCleared : String → Root → Type 0
  IsCleared c root =
      (root ≡ unowned) ⊎ (root ≡ removed) ⊎ ((c ≡ "handoff_cleanup_failed") × (v.removes ≡ false))

  module _ (c : String) (root : Root) where
    clean_up-IsCleared :
        (x : ReceiveError) (files : Files) → clean_up v x files ≡ (err c, root) → IsCleared c root
    clean_up-IsCleared x files h = elim (Bool-cases v.removes) [
      | inl e ↦ inr (inl (ground arith))
      | inr e ↦ inr (inr (ground arith, e))
    ]

    settle_manifest-IsCleared :
        (m : Manifest) (files : Files) (fault : Option (List ℕ))
        → settle_manifest v m files fault ≡ (err c, root)
        → IsCleared c root
    settle_manifest-IsCleared m files none h = absurd (ground arith)
    settle_manifest-IsCleared m files (some part) h =
        clean_up-IsCleared other_error (files ++ (manifest_file, part) ∷ []) h

    publish_manifest-IsCleared :
        (m : Manifest) (g : Progress) → publish_manifest v m g ≡ (err c, root) → IsCleared c root
    publish_manifest-IsCleared m (err x, files) h = clean_up-IsCleared x files h
    publish_manifest-IsCleared m (ok k, files) h =
        settle_manifest-IsCleared m files (v.write_fault k) h

    module _ (m : Manifest) (sha : String) (rs : List StreamRecord)
        (end : Outcome String (Unit {0})) where
      fill_root-IsCleared :
          (o : Outcome ReceiveError (Unit {0}))
          → fill_root v m sha rs end o ≡ (err c, root)
          → IsCleared c root
      fill_root-IsCleared (err x) h = clean_up-IsCleared x [] h
      fill_root-IsCleared (ok u) h =
          publish_manifest-IsCleared m
            (receive_records v sha (length m.attachments) end rs (materialized_of m.attachments)
              false 0 [])
            h

      open_root-IsCleared :
          (o : Outcome ReceiveError (Unit {0}))
          → open_root v m sha rs end o ≡ (err c, root)
          → IsCleared c root
      open_root-IsCleared (err x) h = inl (ground arith)
      open_root-IsCleared (ok u) h = fill_root-IsCleared v.make_attachments h

-- A handoff that fails leaves no file: its root was never this call's or was removed, unless the
-- removal failed, and then the error is `handoff_cleanup_failed`.
pub failed-IsCleared :
    (v : Surroundings) (y : Yielded StreamRecord (Unit {0})) (c : String) (root : Root)
    → receive_attachment_stream v y ≡ (err c, root)
    → IsCleared v c root
unfolding receive_attachment_stream
failed-IsCleared v ([], err x) c root h = inl (ground arith)
failed-IsCleared v ([], ok u) c root h = inl (ground arith)
failed-IsCleared v (attachment slot payload ∷ rs, end) c root h = inl (ground arith)
failed-IsCleared v (terminal s n ∷ rs, end) c root h = inl (ground arith)
failed-IsCleared v (manifest m sha ∷ rs, end) c root h =
    elim (Bool-cases (same_binding m.binding v.expected_binding)) [
      | inr x ↦ inl (ground arith)
      | inl x ↦ elim (Bool-cases (v.exceeds_safety m)) [
        | inl y ↦ inl (ground arith)
        | inr y ↦ open_root-IsCleared v c root m sha rs end v.create_root (ground arith)
      ]
    ]
