-- ===== src/Handoff/Published.antt =====
-- What a handoff holds, and what a failure leaves.
use ceal_cli.Base.{
  ℕ, suc, String, List, [], ◌∷◌, ◌++◌, length, Bool, true, false, ◌==◌, str_eq, ◌≡◌, refl, sym, ap,
  subst, ◌∙◌, inl, inr, arith, Option, none, some, Bool-cases, append-nil, append_assoc, false≢true,
  ◌&&◌, eq_iff, eq_refl,
}
use ceal_cli.Base.Outcome.{Outcome, ok, err}
use ceal_cli.AttachmentStream.{Yielded}
use ceal_cli.Handoff.{
  Binding, same_binding, Expected, Manifest, StreamRecord, manifest, attachment, terminal,
  ReceiveError, other_error, attachment_file, manifest_file, Files, Surroundings, Root, holds,
  materialized_of, Progress, write_create_only, after_records, receive_records, clean_up,
  settle_manifest, publish_manifest, fill_root, open_root, receive_attachment_stream,
}

pub same_binding-same : (a b : Binding) → same_binding a b ≡ true → a ≡ b
same_binding-same a b h =
    let t0 : a.event_ref ≡ b.event_ref = (eq_iff a.event_ref b.event_ref).0 (ground arith) in
    let t1 : a.requester_subject_ref ≡ b.requester_subject_ref =
      (eq_iff a.requester_subject_ref b.requester_subject_ref).0 (ground arith) in
    let t2 : a.lease_ref ≡ b.lease_ref = (eq_iff a.lease_ref b.lease_ref).0 (ground arith) in
    let t3 : a.consumer_ref ≡ b.consumer_ref =
      (eq_iff a.consumer_ref b.consumer_ref).0 (ground arith) in
    let t4 : a.attachment_set_ref ≡ b.attachment_set_ref =
      (eq_iff a.attachment_set_ref b.attachment_set_ref).0 (ground arith) in
    let n0 : a.event_revision ≡ b.event_revision = ground arith in
    let n1 : a.normalized_projection_revision ≡ b.normalized_projection_revision = ground arith in
    let n2 : a.lease_fence ≡ b.lease_fence = ground arith in
    let n3 : a.consumer_generation ≡ b.consumer_generation = ground arith in
    λ i. record {
      event_ref = t0 i;
      requester_subject_ref = t1 i;
      lease_ref = t2 i;
      consumer_ref = t3 i;
      attachment_set_ref = t4 i;
      event_revision = n0 i;
      normalized_projection_revision = n1 i;
      lease_fence = n2 i;
      consumer_generation = n3 i;
    }

pub same_binding_refl : (a : Binding) → same_binding a a ≡ true
same_binding_refl a =
    let t0 : str_eq a.event_ref a.event_ref ≡ true = eq_refl a.event_ref in
    let t1 : str_eq a.requester_subject_ref a.requester_subject_ref ≡ true =
      eq_refl a.requester_subject_ref in
    let t2 : str_eq a.lease_ref a.lease_ref ≡ true = eq_refl a.lease_ref in
    let t3 : str_eq a.consumer_ref a.consumer_ref ≡ true = eq_refl a.consumer_ref in
    let t4 : str_eq a.attachment_set_ref a.attachment_set_ref ≡ true =
      eq_refl a.attachment_set_ref in
    ground arith

-- The files of the attachments that are sent
abbrev pub delivered_files : List StreamRecord → Files
delivered_files [] = []
delivered_files (attachment slot payload ∷ rs) =
    (attachment_file slot, payload) ∷ delivered_files rs
delivered_files (manifest m s ∷ rs) = delivered_files rs
delivered_files (terminal s n ∷ rs) = delivered_files rs

module _ (v : Surroundings) where
  -- The expected attachments in order, each of its size and digest, then the terminal record
  abbrev pub Delivers : String → ℕ → List Expected → List StreamRecord → Type 0
  Delivers sha n [] (terminal s m ∷ []) = (s ≡ sha) × (m ≡ n)
  Delivers sha n (e ∷ es) (attachment slot payload ∷ rs) =
      (slot ≡ e.slot)
      × (length payload ≡ e.size_bytes)
      × (v.sha256 payload ≡ e.sha256)
      × Delivers sha n es rs
  Delivers sha n _ _ = ⊥

  pub record IsHandoff (y : Yielded StreamRecord (Unit {0})) (m : Manifest) (root : Root)
      : Type 0 where
    pub sha : String
    pub rest : List StreamRecord
    pub first : y.0 ≡ manifest m sha ∷ rest
    pub ended : y.1 ≡ ok tt
    pub bound : m.binding ≡ v.expected_binding
    pub safe : v.exceeds_safety m ≡ false
    pub delivered : Delivers sha (length m.attachments) (materialized_of m.attachments) rest
    pub files : root ≡ holds (delivered_files rest ++ (manifest_file, v.manifest_text m) ∷ [])

  clean_up-fails :
      (x : ReceiveError) (files : Files) (m : Manifest) (root : Root)
      → ¬ (clean_up v x files ≡ (ok m, root))
  clean_up-fails x files m root h = ground arith

  module _ (sha : String) (n : ℕ) (end : Outcome String (Unit {0})) where
    abbrev Received : List StreamRecord → List Expected → Files → Files → Type 0
    Received rs es files out =
        Delivers sha n es rs × (end ≡ ok tt) × (out ≡ files ++ delivered_files rs)

    after_records_lem :
        (seen : Bool) (o : Outcome String (Unit {0})) (k j : ℕ) (files out : Files)
        → after_records v seen k files o ≡ (ok j, out)
        → (seen ≡ true) × (o ≡ ok tt) × (out ≡ files)
    after_records_lem true (ok u) k j files out h = (refl, refl, ground arith)
    after_records_lem false (ok u) k j files out h = absurd (ground arith)
    after_records_lem seen (err x) k j files out h = absurd (ground arith)

    sent :
        (slot : ℕ) (payload : List ℕ) (rs : List StreamRecord) (e : Expected) (es : List Expected)
        (k j : ℕ) (files out : Files) (next : Files → Progress) (fault : Option (List ℕ))
        → ((more : Files) → next more ≡ (ok j, out) → Received rs es more out)
        → write_create_only v (attachment_file e.slot) payload k files next fault ≡ (ok j, out)
        → slot ≡ e.slot
        → length payload ≡ e.size_bytes
        → v.sha256 payload ≡ e.sha256
        → Received (attachment slot payload ∷ rs) (e ∷ es) files out
    sent slot payload rs e es k j files out next none ih h a b c =
        let (d, f, g) = ih (files ++ (attachment_file e.slot, payload) ∷ []) h in
        (
          (a, b, c, d),
          f,
          rw a (
              g ∙ append_assoc files ((attachment_file e.slot, payload) ∷ []) (delivered_files rs)),
        )
    sent slot payload rs e es k j files out next (some part) ih h a b c = absurd (ground arith)

    receive_records-Received :
        (rs : List StreamRecord) (es : List Expected) (k j : ℕ) (files out : Files)
        → receive_records v sha n end rs es false k files ≡ (ok j, out)
        → Received rs es files out
    unfolding receive_records
    receive_records-Received [] es k j files out h =
        absurd (false≢true (after_records_lem false end k j files out h).0)
    receive_records-Received (manifest m s ∷ rs) es k j files out h = absurd (ground arith)
    receive_records-Received (attachment slot payload ∷ rs) [] k j files out h =
        absurd (ground arith)
    receive_records-Received (attachment slot payload ∷ rs) (e ∷ es) k j files out h =
        elim (Bool-cases (slot == e.slot)) [
          | inr x ↦ absurd (ground arith)
          | inl x ↦
              elim (Bool-cases
                (length payload == e.size_bytes && str_eq (v.sha256 payload) e.sha256)) [
                  | inr y ↦ absurd (ground arith)
                  | inl y ↦
                      sent slot payload rs e es k j files out
                        (receive_records v sha n end rs es false (suc k)) (v.write_fault k)
                        (λ more q. receive_records-Received rs es (suc k) j more out q)
                        (ground arith) (ground arith) (ground arith)
                        ((eq_iff (v.sha256 payload) e.sha256).0 (ground arith))
                ]
        ]
    receive_records-Received (terminal s m ∷ rs) (e ∷ es) k j files out h = absurd (ground arith)
    receive_records-Received (terminal s m ∷ r ∷ rs) [] k j files out h = absurd (ground arith)
    receive_records-Received (terminal s m ∷ []) [] k j files out h =
        elim (Bool-cases (str_eq s sha && m == n)) [
          | inr x ↦ absurd (ground arith)
          | inl x ↦
              let (a, b, c) = after_records_lem true end k j files out (ground arith) in
              (((eq_iff s sha).0 (ground arith), ground arith), b, c ∙ sym (append-nil files))
        ]

  settle_manifest_lem :
      (m m' : Manifest) (out : Files) (fault : Option (List ℕ)) (root : Root)
      → settle_manifest v m out fault ≡ (ok m', root)
      → (m ≡ m') × (root ≡ holds (out ++ (manifest_file, v.manifest_text m) ∷ []))
  settle_manifest_lem m m' out none root h = (ground arith, ground arith)
  settle_manifest_lem m m' out (some part) root h =
      absurd (clean_up-fails other_error (out ++ (manifest_file, part) ∷ []) m' root h)

  publish_manifest_lem :
      (m m' : Manifest) (g : Progress) (root : Root)
      → publish_manifest v m g ≡ (ok m', root)
      → (j : ℕ) × (out : Files) × (g ≡ (ok j, out))
        × (m ≡ m')
        × (root ≡ holds (out ++ (manifest_file, v.manifest_text m) ∷ []))
  publish_manifest_lem m m' (err x, out) root h = absurd (clean_up-fails x out m' root h)
  publish_manifest_lem m m' (ok j, out) root h =
      let (a, b) = settle_manifest_lem m m' out (v.write_fault j) root h in (j, out, refl, a, b)

  module _ (m m' : Manifest) (sha : String) (rs : List StreamRecord)
      (end : Outcome String (Unit {0})) (root : Root) where
    fill_root_lem :
        (o : Outcome ReceiveError (Unit {0}))
        → m.binding ≡ v.expected_binding
        → v.exceeds_safety m ≡ false
        → fill_root v m sha rs end o ≡ (ok m', root)
        → IsHandoff (manifest m sha ∷ rs, end) m' root
    fill_root_lem (err x) b s h = absurd (clean_up-fails x [] m' root h)
    fill_root_lem (ok u) b s h =
        let (j, out, received, same, held) =
          publish_manifest_lem m m'
            (receive_records v sha (length m.attachments) end rs (materialized_of m.attachments)
              false 0 [])
            root h in
        let (delivered, ended, files) =
          receive_records-Received sha (length m.attachments) end rs (materialized_of m.attachments)
            0 j [] out received in
        subst (λ (x : Manifest). IsHandoff (manifest m sha ∷ rs, end) x root) same
          (record {
            sha = sha;
            rest = rs;
            first = refl;
            ended = ended;
            bound = b;
            safe = s;
            delivered = delivered;
            files =
                held
                ∙ ap (λ (x : Files). holds (x ++ (manifest_file, v.manifest_text m) ∷ [])) files;
          })

    open_root_lem :
        (o : Outcome ReceiveError (Unit {0}))
        → m.binding ≡ v.expected_binding
        → v.exceeds_safety m ≡ false
        → open_root v m sha rs end o ≡ (ok m', root)
        → IsHandoff (manifest m sha ∷ rs, end) m' root
    open_root_lem (err x) b s h = absurd (ground arith)
    open_root_lem (ok u) b s h = fill_root_lem v.make_attachments b s h

-- A handoff succeeds only if the stream was read to its end without an error and held a manifest of
-- this binding within the safety limits, the expected attachments in order with their sizes and
-- digests, and last the one terminal record of that manifest; the root then holds exactly these
-- attachments and the manifest, which is returned.
pub receive_attachment_stream-IsHandoff :
    (v : Surroundings) (y : Yielded StreamRecord (Unit {0})) (m : Manifest) (root : Root)
    → receive_attachment_stream v y ≡ (ok m, root)
    → IsHandoff v y m root
unfolding receive_attachment_stream
receive_attachment_stream-IsHandoff v ([], err x) m root h = absurd (ground arith)
receive_attachment_stream-IsHandoff v ([], ok u) m root h = absurd (ground arith)
receive_attachment_stream-IsHandoff v (attachment slot payload ∷ rs, end) m root h =
    absurd (ground arith)
receive_attachment_stream-IsHandoff v (terminal s n ∷ rs, end) m root h = absurd (ground arith)
receive_attachment_stream-IsHandoff v (manifest a sha ∷ rs, end) m root h =
    elim (Bool-cases (same_binding a.binding v.expected_binding)) [
      | inr x ↦ absurd (ground arith)
      | inl x ↦ elim (Bool-cases (v.exceeds_safety a)) [
        | inl y ↦ absurd (ground arith)
        | inr y ↦
            open_root_lem v a m sha rs end root v.create_root
              (same_binding-same a.binding v.expected_binding x) y (ground arith)
      ]
    ]
