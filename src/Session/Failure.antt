-- ===== src/Session/Failure.antt =====
-- packages/ceal-worker-cli/src/session-replacement.ts and client-session.ts: how a thrown error
-- becomes a reason code.
use ceal_cli.Base.{String, ◌||◌, str_eq, if◌then◌else◌}
use ceal_cli.Session.{StoreError, home_unavailable, refresh_busy, unsafe_store, invalid_store}

-- What a `catch` of the session commands receives: a CealClientSessionError with its code, a
-- CealSessionStoreError, or any other error.
pub data Thrown : Type 0 where
  client : String → Thrown
  store : StoreError → Thrown
  other : Thrown

abbrev pub store_code : StoreError → String
store_code home_unavailable = "home_unavailable"
store_code refresh_busy = "refresh_busy"
store_code unsafe_store = "unsafe_store"
store_code invalid_store = "invalid_store"

-- sessionStoreFailureCode(error, fallback)
abbrev pub session_store_failure_code : Thrown → String → String
session_store_failure_code (store e) fallback = store_code e
session_store_failure_code _ fallback = fallback

-- What the Gateway session client throws: its own error with a code, or any other.
pub data TransportError : Type 0 where
  coded : String → TransportError
  uncoded : TransportError

abbrev pub transport_code : TransportError → String
transport_code (coded c) = c
transport_code uncoded = "request_failed"

-- clientSessionTransportFailure; `unavailable` is `session_${operation}_unavailable`
unfoldable pub client_session_transport_failure : TransportError → String → String
client_session_transport_failure e unavailable =
    if str_eq (transport_code e) "request_timeout"
      || str_eq (transport_code e) "request_failed"
      || str_eq (transport_code e) "invalid_response"
    then unavailable
    else transport_code e
