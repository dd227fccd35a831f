-- ===== src/Handoff.antt =====
-- packages/ceal-worker-cli/src/leased-consumer-attachment-stream.ts:
-- receiveLeasedConsumerAttachmentStream from the first record on, which turns the records of a stream
-- into a directory that is handed to the Agent. The protocol's decoder, its safety limits, SHA-256
-- and the file system's answers are parameters.
pub mod Published
pub mod Failed
pub mod Received
use ceal_cli.Base.{
  ℕ, suc, String, List, [], ◌∷◌, ◌++◌, length, Option, none, some, Bool, true, false, not, ◌&&◌,
  ◌==◌, str_eq, if◌then◌else◌,
}
use ceal_cli.Base.Outcome.{Outcome, ok, err}
use ceal_cli.AttachmentStream.{Yielded}

-- A materialized attachment of the manifest
pub record Expected : Type 0 where
  pub slot : ℕ
  pub size_bytes : ℕ
  pub sha256 : String

pub data Attachment : Type 0 where
  materialized : Expected → Attachment
  unread : (slot : ℕ) → Attachment

-- What a stream, a lease and a consumer are bound to
pub record Binding : Type 0 where
  pub event_ref : String
  pub requester_subject_ref : String
  pub lease_ref : String
  pub consumer_ref : String
  pub attachment_set_ref : String
  pub event_revision : ℕ
  pub normalized_projection_revision : ℕ
  pub lease_fence : ℕ
  pub consumer_generation : ℕ

-- sameBinding
abbrev pub same_binding : Binding → Binding → Bool
same_binding left right =
    str_eq left.event_ref right.event_ref
    && str_eq left.requester_subject_ref right.requester_subject_ref
    && str_eq left.lease_ref right.lease_ref
    && str_eq left.consumer_ref right.consumer_ref
    && str_eq left.attachment_set_ref right.attachment_set_ref
    && left.event_revision == right.event_revision
    && left.normalized_projection_revision == right.normalized_projection_revision
    && left.lease_fence == right.lease_fence
    && left.consumer_generation == right.consumer_generation

pub record Manifest : Type 0 where
  pub binding : Binding
  pub attachments : List Attachment

-- A decoded record, with its payload
pub data StreamRecord : Type 0 where
  manifest : Manifest → (manifest_sha256 : String) → StreamRecord
  attachment : (slot : ℕ) → (payload : List ℕ) → StreamRecord
  terminal : (manifest_sha256 : String) → (slot_count : ℕ) → StreamRecord

-- A thrown error: one with a code of the stream's own, or any other
pub data ReceiveError : Type 0 where
  coded : String → ReceiveError
  other_error : ReceiveError

-- attachments/<slot>.bin and manifest.json
pub data HandoffFile : Type 0 where
  attachment_file : ℕ → HandoffFile
  manifest_file : HandoffFile

abbrev pub Files : Type 0
Files = List (HandoffFile × List ℕ)

pub record Surroundings : Type 0 where
  pub sha256 : List ℕ → String
  -- input.expected_binding
  pub expected_binding : Binding
  -- attachmentStreamExceedsSafety
  pub exceeds_safety : Manifest → Bool
  -- createHandoffRoot and assertFreshOwnerOnlyRoot; the attachments' directory
  pub create_root : Outcome ReceiveError (Unit {0})
  pub make_attachments : Outcome ReceiveError (Unit {0})
  -- the n-th writeCreateOnly with the hook after it: none if both work, else the part of the file
  -- that was written before they threw
  pub write_fault : ℕ → Option (List ℕ)
  pub manifest_text : Manifest → List ℕ
  -- whether the removal of the root works
  pub removes : Bool

-- What is left of the root: it was never this call's, it was removed, or it holds files.
pub data Root : Type 0 where
  unowned removed : Root
  holds : Files → Root

abbrev pub materialized_of : List Attachment → List Expected
materialized_of [] = []
materialized_of (materialized e ∷ more) = e ∷ materialized_of more
materialized_of (unread slot ∷ more) = materialized_of more

-- The files so far, and an error or the number of writes.
abbrev pub Progress : Type 0
Progress = Outcome ReceiveError ℕ × Files

module _ (v : Surroundings) where
  -- writeCreateOnly
  abbrev pub write_create_only :
      HandoffFile → List ℕ → ℕ → Files → (Files → Progress) → Option (List ℕ) → Progress
  write_create_only file bytes k files next none = next (files ++ (file, bytes) ∷ [])
  write_create_only file bytes k files next (some part) =
      (err other_error, files ++ (file, part) ∷ [])

  abbrev pub write_attachment : Expected → ℕ → List ℕ → ℕ → Files → (Files → Progress) → Progress
  write_attachment e slot payload k files next =
      if not (slot == e.slot)
      then (err (coded "attachment_slot_mismatch"), files)
      else if not (length payload == e.size_bytes && str_eq (v.sha256 payload) e.sha256)
      then (err (coded "attachment_digest_mismatch"), files)
      else write_create_only (attachment_file e.slot) payload k files next (v.write_fault k)

  abbrev pub after_records : Bool → ℕ → Files → Outcome String (Unit {0}) → Progress
  after_records seen k files (err x) = (err (coded x), files)
  after_records seen k files (ok _) =
      if seen then (ok k, files) else (err (coded "incomplete_attachment_stream"), files)

  module _ (sha : String) (slot_count : ℕ) (end : Outcome String (Unit {0})) where
    -- The loop over the records behind the manifest: the attachments that are still expected, whether
    -- the terminal record was seen, and the writes and files so far
    unfoldable pub receive_records : List StreamRecord → List Expected → Bool → ℕ → Files → Progress
    receive_records [] expected seen k files = after_records seen k files end
    receive_records (r ∷ rs) expected true k files = (err (coded "trailing_stream_data"), files)
    receive_records (manifest m s ∷ rs) expected false k files =
        (err (coded "duplicate_manifest"), files)
    receive_records (attachment slot payload ∷ rs) [] false k files =
        (err (coded "attachment_slot_mismatch"), files)
    receive_records (attachment slot payload ∷ rs) (e ∷ es) false k files =
        write_attachment e slot payload k files (receive_records rs es false (suc k))
    receive_records (terminal s n ∷ rs) (e ∷ es) false k files =
        if str_eq s sha && n == slot_count
        then (err (coded "incomplete_attachment_stream"), files)
        else (err (coded "terminal_mismatch"), files)
    receive_records (terminal s n ∷ rs) [] false k files =
        let rest = receive_records rs [] true k files in
        if str_eq s sha && n == slot_count then rest else (err (coded "terminal_mismatch"), files)

  abbrev pub thrown_code : ReceiveError → String
  thrown_code (coded x) = x
  thrown_code other_error = "handoff_write_failed"

  -- The catch, where the root is this call's
  abbrev pub clean_up : ReceiveError → Files → Outcome String Manifest × Root
  clean_up x files =
      if v.removes
      then (err (thrown_code x), removed)
      else (err "handoff_cleanup_failed", holds files)

  abbrev pub settle_manifest : Manifest → Files → Option (List ℕ) → Outcome String Manifest × Root
  settle_manifest m files none = (ok m, holds (files ++ (manifest_file, v.manifest_text m) ∷ []))
  settle_manifest m files (some part) = clean_up other_error (files ++ (manifest_file, part) ∷ [])

  abbrev pub publish_manifest : Manifest → Progress → Outcome String Manifest × Root
  publish_manifest m (err x, files) = clean_up x files
  publish_manifest m (ok k, files) = settle_manifest m files (v.write_fault k)

  abbrev pub fill_root :
      Manifest
      → String
      → List StreamRecord
      → Outcome String (Unit {0})
      → Outcome ReceiveError (Unit {0})
      → Outcome String Manifest × Root
  fill_root m sha rs end (err x) = clean_up x []
  fill_root m sha rs end (ok _) =
      publish_manifest m (
        receive_records sha (length m.attachments) end rs (materialized_of m.attachments) false 0
          [])

  abbrev pub open_root :
      Manifest
      → String
      → List StreamRecord
      → Outcome String (Unit {0})
      → Outcome ReceiveError (Unit {0})
      → Outcome String Manifest × Root
  open_root m sha rs end (err x) = (err (thrown_code x), unowned)
  open_root m sha rs end (ok _) = fill_root m sha rs end v.make_attachments

  -- receiveLeasedConsumerAttachmentStream, on what its generator yields
  unfoldable pub receive_attachment_stream :
      Yielded StreamRecord (Unit {0}) → Outcome String Manifest × Root
  receive_attachment_stream ([], err x) = (err x, unowned)
  receive_attachment_stream ([], ok _) = (err "missing_manifest", unowned)
  receive_attachment_stream (manifest m sha ∷ rs, end) =
      if not (same_binding m.binding v.expected_binding)
      then (err "attachment_binding_mismatch", unowned)
      else if v.exceeds_safety m
      then (err "attachment_stream_over_budget", unowned)
      else open_root m sha rs end v.create_root
  receive_attachment_stream (attachment slot payload ∷ rs, end) = (err "manifest_required", unowned)
  receive_attachment_stream (terminal sha n ∷ rs, end) = (err "manifest_required", unowned)
