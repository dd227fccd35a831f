-- ===== src/Adoption/Polling.antt =====
-- The wait of adoptSession of device-adoption.ts: it polls the Gateway until it answers for good, or
-- until the local ceiling.
use ceal_cli.Base.{
  ℕ, zero, suc, ◌+◌, max, String, List, [], ◌∷◌, Option, none, some, Bool, true, false, ◌||◌, ltb,
  str_eq, has, if◌then◌else◌,
}
use ceal_cli.Base.Json.{Json}

-- A sealed delivery
pub record Delivery : Type 0 where
  pub binding : Json
  pub encapsulated_key : String
  pub ciphertext : String

-- What the command does that others see, and its waits.
pub data Entry : Type 0 where
  started_request : (email : String) → Entry
  presented : (url : String) → Entry
  announced_approval : Entry
  polled : Entry
  slept : (ms : ℕ) → Entry
  opened : Delivery → Entry

pub data StopCode : Type 0 where
  unsupported_feature recovery_required expired : StopCode

-- client.poll; an error is the code of a CealDeviceAdoptionClientError, if it is one
pub data PollReply : Type 0 where
  thrown : Option String → PollReply
  failed : StopCode → PollReply
  sealed : Delivery → PollReply
  pending : (retry_after_ms : ℕ) → PollReply
  approval_required : (retry_after_ms : ℕ) → PollReply

-- The Gateway and the time: the n-th poll's answer, how long it took, and by how much the sleep
-- after it was late. `begun` is what monotonicNow returns before the first poll.
pub record Clock : Type 0 where
  pub reply : ℕ → PollReply
  pub took_ms : ℕ → ℕ
  pub late_ms : ℕ → ℕ
  pub begun : ℕ

pub data Phase : Type 0 where
  at_start at_poll : Phase

-- MAX_LOCAL_WAIT_MS
abbrev pub max_local_wait_ms : ℕ
max_local_wait_ms = 2100000

-- POLL_RETRY_FLOOR_MS
abbrev pub poll_retry_floor_ms : ℕ
poll_retry_floor_ms = 1000

abbrev is_start_failure : String → Bool
is_start_failure = has ("adoption_not_available" ∷ "gateway_unavailable" ∷ "rate_limited" ∷ [])

abbrev pub outcome_of : String → String
outcome_of code =
    if str_eq code "invalid_response"
    then "malformed_response"
    else if str_eq code "request_timeout"
    then "request_timeout"
    else if str_eq code "invalid_configuration"
    then "invalid_argument"
    else "request_failed"

abbrev pub coded_outcome : Phase → String → String
coded_outcome at_poll code = if is_start_failure code then "malformed_response" else outcome_of code
coded_outcome at_start code = if is_start_failure code then code else outcome_of code

-- transportOutcome: the code of the outcome
unfoldable pub transport_outcome : Phase → Option String → String
transport_outcome phase none = coded_outcome phase "request_failed"
transport_outcome phase (some code) = coded_outcome phase code

-- failureOutcome: the code
abbrev pub failure_outcome : StopCode → String
failure_outcome unsupported_feature = "unsupported_feature"
failure_outcome recovery_required = "recovery_required"
failure_outcome expired = "expired"

-- The variables of the loop, and the log.
pub record Wait : Type 0 where
  pub now : ℕ
  pub retry_after_ms : ℕ
  pub announced : Bool
  pub log : List Entry

pub data WaitEnd : Type 0 where
  gave_up : String → WaitEnd
  delivered : Delivery → WaitEnd

abbrev pub is_retried : String → Bool
is_retried code = str_eq code "request_timeout" || str_eq code "request_failed"

abbrev pub announce : Wait → Wait
announce t =
    if t.announced then t else record t { announced = true; log = announced_approval ∷ t.log }

module _ (c : Clock) where
  abbrev pub deadline : ℕ
  deadline = c.begun + max_local_wait_ms

  abbrev pub sleep : ℕ → ℕ → Wait → Wait
  sleep k ms t = record t { now = t.now + ms + c.late_ms k; log = slept ms ∷ t.log }

  -- One wait, unless it passes the local deadline.
  abbrev pub sleep_or_stop :
      ℕ → ℕ → (Wait → Option (WaitEnd × Wait)) → Wait → Option (WaitEnd × Wait)
  sleep_or_stop k ms next t =
      if ltb deadline (t.now + ms) then some (gave_up "wait_timeout", t) else next (sleep k ms t)

  abbrev pub remember : ℕ → Wait → Wait
  remember ms t = record t { retry_after_ms = max ms poll_retry_floor_ms }

  -- What the loop does with an answer.
  abbrev pub handle :
      ℕ → (Wait → Option (WaitEnd × Wait)) → PollReply → Wait → Option (WaitEnd × Wait)
  handle k next (thrown e) t =
      let code = transport_outcome at_poll e in
      if is_retried code then sleep_or_stop k t.retry_after_ms next t else some (gave_up code, t)
  handle k next (failed code) t = some (gave_up (failure_outcome code), t)
  handle k next (sealed v) t = some (delivered v, t)
  handle k next (pending ms) t = sleep_or_stop k ms next (remember ms t)
  handle k next (approval_required ms) t = sleep_or_stop k ms next (announce (remember ms t))

  abbrev pub poll : ℕ → Wait → Wait
  poll k t = record t { now = t.now + c.took_ms k; log = polled ∷ t.log }

  -- The loop of adoptSession from its k-th turn; none where the fuel runs out
  unfoldable pub wait_from : ℕ → ℕ → Wait → Option (WaitEnd × Wait)
  wait_from zero k t = none
  wait_from (suc fuel) k t = handle k (wait_from fuel (suc k)) (c.reply k) (poll k t)

  abbrev pub wait : ℕ → List Entry → Option (WaitEnd × Wait)
  wait fuel log =
      wait_from fuel 0
        record { now = c.begun; retry_after_ms = poll_retry_floor_ms; announced = false; log = log }
