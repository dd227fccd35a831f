-- ===== src/Tests/Handoffs.antt =====
-- A concrete handoff of an attachment stream.
use ceal_cli.Base.{List, [], ◌∷◌, none, some, true, false, ◌==◌, if◌then◌else◌, ◌≡◌, refl}
use ceal_cli.Base.Outcome.{ok}
use ceal_cli.AttachmentStream.{Yielded}
use ceal_cli.Handoff.{
  Binding, Manifest, materialized, unread, StreamRecord, manifest, attachment, terminal,
  Surroundings, attachment_file, manifest_file, removed, holds, receive_attachment_stream,
  receive_records,
}
use ceal_cli.Handoff.Published.{IsHandoff, receive_attachment_stream-IsHandoff}
use ceal_cli.Handoff.Failed.{IsCleared, failed-IsCleared}
use ceal_cli.Handoff.Received.{Works, delivered-received}

abbrev binding : Binding
binding = record {
  event_ref = "event:1";
  requester_subject_ref = "requester:1";
  lease_ref = "lease:1";
  consumer_ref = "consumer:1";
  attachment_set_ref = "attachment:1";
  event_revision = 1;
  normalized_projection_revision = 1;
  lease_fence = 1;
  consumer_generation = 1;
}

abbrev working : Surroundings
working = record {
  sha256 = λ bytes. "00";
  expected_binding = binding;
  exceeds_safety = λ m. false;
  create_root = ok tt;
  make_attachments = ok tt;
  write_fault = λ k. none;
  manifest_text = λ m. 123 ∷ [];
  removes = true;
}

-- The second write breaks off after one byte.
abbrev breaking : Surroundings
breaking = record working { write_fault = λ k. if k == 1 then some (123 ∷ []) else none }

abbrev two_attachments : Manifest
two_attachments = record {
  binding = binding;
  attachments = materialized (record { slot = 0; size_bytes = 2; sha256 = "00" }) ∷ unread 1 ∷ [];
}

abbrev records : List StreamRecord
records = attachment 0 (7 ∷ 8 ∷ []) ∷ terminal "aa" 2 ∷ []

abbrev yielded : Yielded StreamRecord (Unit {0})
yielded = (manifest two_attachments "aa" ∷ records, ok tt)

working-Works : Works working
working-Works = record { creates = refl; makes = refl; writes = λ k. refl }

delivered-received_example :
    receive_attachment_stream working yielded
    ≡ (ok two_attachments, holds ((attachment_file 0, 7 ∷ 8 ∷ []) ∷ (manifest_file, 123 ∷ []) ∷ []))
delivered-received_example =
    delivered-received working two_attachments "aa" records working-Works refl refl
      (refl, refl, refl, (refl, refl))

receive_attachment_stream-IsHandoff_example :
    IsHandoff working yielded two_attachments
      (holds ((attachment_file 0, 7 ∷ 8 ∷ []) ∷ (manifest_file, 123 ∷ []) ∷ []))
unfolding receive_attachment_stream receive_records
receive_attachment_stream-IsHandoff_example =
    receive_attachment_stream-IsHandoff working yielded two_attachments
      (holds ((attachment_file 0, 7 ∷ 8 ∷ []) ∷ (manifest_file, 123 ∷ []) ∷ [])) refl

failed-IsCleared_example : IsCleared breaking "handoff_write_failed" removed
unfolding receive_attachment_stream receive_records
failed-IsCleared_example = failed-IsCleared breaking yielded "handoff_write_failed" removed refl
