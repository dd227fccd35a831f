-- ===== src/Handoff/Received.antt =====
-- When a handoff cannot fail.
use ceal_cli.Base.{
  ℕ, subst, suc, String, List, [], ◌∷◌, ◌++◌, length, true, false, ◌==◌, str_eq, ◌≡◌, refl, arith,
  none, append-nil, append_assoc, eq_iff, ◌∙◌, ap,
}
use ceal_cli.Base.Outcome.{Outcome, ok}
use ceal_cli.Handoff.{
  Binding, same_binding, Expected, Manifest, StreamRecord, manifest, attachment, terminal,
  Surroundings, Files, manifest_file, attachment_file, holds, receive_records, materialized_of,
  receive_attachment_stream, fill_root, publish_manifest, open_root, settle_manifest, ReceiveError,
  Root,
}
use ceal_cli.Handoff.Published.{same_binding_refl, Delivers, delivered_files}

module _ (v : Surroundings) where
  -- Every call on the file system works.
  pub record Works : Type 0 where
    pub creates : v.create_root ≡ ok tt
    pub makes : v.make_attachments ≡ ok tt
    pub writes : (k : ℕ) → v.write_fault k ≡ none

  module _ (w : Works) (sha : String) (n : ℕ) where
    Delivers-received :
        (rs : List StreamRecord) (es : List Expected) (k : ℕ) (files : Files)
        → Delivers v sha n es rs
        → (j : ℕ) × (receive_records v sha n (ok tt) rs es false k files
            ≡ (ok j, files ++ delivered_files rs))
    unfolding receive_records
    Delivers-received (terminal s m ∷ []) [] k files (a, b) =
        let t : str_eq s sha ≡ true = (eq_iff s sha).1 a in
        let q : (m == n) ≡ true = ground arith in (k, rw (t, q, append-nil files) refl)
    Delivers-received (attachment slot payload ∷ rs) (e ∷ es) k files (a, b, c, d) =
        let (j, received) =
          Delivers-received rs es (suc k) (files ++ (attachment_file e.slot, payload) ∷ []) d in
        let s : (slot == e.slot) ≡ true = ground arith in
        let l : (length payload == e.size_bytes) ≡ true = ground arith in
        let t : str_eq (v.sha256 payload) e.sha256 ≡ true =
          (eq_iff (v.sha256 payload) e.sha256).1 c in
        let written : v.write_fault k ≡ none = w.writes k in
        (
          j,
          rw (s, l, t, written, a)
              (received
                ∙ ap (λ (x : Files). (ok j, x))
                    (append_assoc files ((attachment_file e.slot, payload) ∷ [])
                      (delivered_files rs))),
        )
    Delivers-received [] [] k files d = absurd d
    Delivers-received [] (e ∷ es) k files d = absurd d
    Delivers-received (manifest m s ∷ rs) [] k files d = absurd d
    Delivers-received (manifest m s ∷ rs) (e ∷ es) k files d = absurd d
    Delivers-received (attachment slot payload ∷ rs) [] k files d = absurd d
    Delivers-received (terminal s m ∷ r ∷ rs) [] k files d = absurd d
    Delivers-received (terminal s m ∷ rs) (e ∷ es) k files d = absurd d

-- A complete stream is always handed over, if every call on the file system works: the manifest is
-- returned, and the root holds the attachments and the manifest.
pub delivered-received :
    (v : Surroundings) (m : Manifest) (sha : String) (rs : List StreamRecord)
    → Works v
    → m.binding ≡ v.expected_binding
    → v.exceeds_safety m ≡ false
    → Delivers v sha (length m.attachments) (materialized_of m.attachments) rs
    → receive_attachment_stream v (manifest m sha ∷ rs, ok tt)
      ≡ (ok m, holds (delivered_files rs ++ (manifest_file, v.manifest_text m) ∷ []))
unfolding receive_attachment_stream
delivered-received v m sha rs w b s d =
    let (j, received) =
      Delivers-received v w sha (length m.attachments) rs (materialized_of m.attachments) 0 [] d in
    let opened : Outcome ReceiveError (Unit {0}) → Outcome String Manifest × Root =
      open_root v m sha rs (ok tt) in
    let filled : Outcome ReceiveError (Unit {0}) → Outcome String Manifest × Root =
      fill_root v m sha rs (ok tt) in
    let same : same_binding m.binding v.expected_binding ≡ true =
      subst (λ (x : Binding). same_binding m.binding x ≡ true) b (same_binding_refl m.binding) in
    rw (same, s)
      (ap opened w.creates
        ∙ ap filled w.makes
        ∙ ap (publish_manifest v m) received
        ∙ ap (settle_manifest v m (delivered_files rs)) (w.writes j))
