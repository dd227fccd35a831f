-- ===== src/Session/Record/RoundTrip.antt =====
-- A session that may be written reads back as itself, and what a read returns may be written.
use ceal_cli.Base.{String, Option, none, some, true, ◌≡◌, refl, ◌∙◌, arith}
use ceal_cli.Base.Json.{obj}
use ceal_cli.Base.Outcome.{Outcome, ok, ◌>>=◌}
use ceal_cli.Platform.{Platform}
use ceal_cli.Session.{
  StoredSession, CandidateSession, StoreError, BlockedReason, outcome_unknown, refresh_invalid,
  refresh_expired, refresh_replayed, refresh_revoked, candidate, validate_session, valid_attempt,
  require, valid_blocked_reason, is_refresh_attempt_ref,
}
use ceal_cli.Session.Record.{serialize_session, parse_session, as_session}

-- The session with another attempt and reason; the twelve texts stay.
abbrev with_state : StoredSession → Option String → Option BlockedReason → StoredSession
with_state s a r = record s { refresh_attempt_ref = a; renewal_blocked_reason = r }

module _ (p : Platform) where
  abbrev written : StoredSession → Outcome StoreError StoredSession
  written s = validate_session p (candidate s) >>= λ _. ok s

  parse-serialize_plain :
      (s : StoredSession)
      → parse_session p (obj (serialize_session (with_state s none none)))
        ≡ written (with_state s none none)
  unfolding parse_session serialize_session as_session
  parse-serialize_plain s = refl

  parse-serialize_blocked :
      (s : StoredSession) (r : BlockedReason)
      → parse_session p (obj (serialize_session (with_state s none (some r))))
        ≡ written (with_state s none (some r))
  unfolding parse_session serialize_session as_session valid_blocked_reason
  parse-serialize_blocked s outcome_unknown = refl
  parse-serialize_blocked s refresh_invalid = refl
  parse-serialize_blocked s refresh_expired = refl
  parse-serialize_blocked s refresh_replayed = refl
  parse-serialize_blocked s refresh_revoked = refl

  parse-serialize_attempt :
      (s : StoredSession) (a : String)
      → parse_session p (obj (serialize_session (with_state s (some a) (some outcome_unknown)))) ≡ (
          require (is_refresh_attempt_ref a) >>= λ _.
          written (with_state s (some a) (some outcome_unknown)))
  unfolding parse_session serialize_session as_session valid_blocked_reason
  parse-serialize_attempt s a = refl

  -- validateSession accepts an attempt only in its form and with the reason `outcome_unknown`.
  validate-attempt : (v : CandidateSession) → validate_session p v ≡ ok tt → valid_attempt v ≡ true
  unfolding validate_session
  validate-attempt v h = ground arith

attempt_fields :
    (s : StoredSession) (a : String) (r : Option BlockedReason)
    → valid_attempt (candidate (with_state s (some a) r)) ≡ true
    → (is_refresh_attempt_ref a ≡ true) × (r ≡ some outcome_unknown)
unfolding valid_attempt
attempt_fields s a none h = ground arith
attempt_fields s a (some outcome_unknown) h = (ground arith, refl)
attempt_fields s a (some refresh_invalid) h = ground arith
attempt_fields s a (some refresh_expired) h = ground arith
attempt_fields s a (some refresh_replayed) h = ground arith
attempt_fields s a (some refresh_revoked) h = ground arith

module _ (p : Platform) where
  written_ok : (s : StoredSession) → validate_session p (candidate s) ≡ ok tt → written p s ≡ ok s
  written_ok s h = rw h

  serialize_state :
      (s : StoredSession) (a : Option String) (r : Option BlockedReason)
      → validate_session p (candidate (with_state s a r)) ≡ ok tt
      → parse_session p (obj (serialize_session (with_state s a r))) ≡ ok (with_state s a r)
  serialize_state s none none h = parse-serialize_plain p s ∙ written_ok _ h
  serialize_state s none (some r) h = parse-serialize_blocked p s r ∙ written_ok _ h
  serialize_state s (some a) r h =
      let (form, reason) = attempt_fields s a r (validate-attempt p _ h) in
      rw (reason, parse-serialize_attempt p s a, form) (written_ok _ (rw reason at h))

  -- A session that passes validateSession reads back from its stored record as itself.
  pub parse-serialize :
      (s : StoredSession)
      → validate_session p (candidate s) ≡ ok tt
      → parse_session p (obj (serialize_session s)) ≡ ok s
  parse-serialize s h = serialize_state s s.refresh_attempt_ref s.renewal_blocked_reason h
