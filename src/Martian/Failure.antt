-- ===== src/Martian/Failure.antt =====
-- internal/martian/errors.go and the errors of proxy_connect.go: an error is its text and the layers of its chain, the
-- outermost one first. The errors of Windows are left out.
use forwarder.Base.{
  Bool, true, false, ◌||◌, Option, none, some, List, [], ◌∷◌, Bytes, codes, contains,
}
use forwarder.Http.Message.{Response}

pub data Cause : Type 0 where
  closing_connection connect_fallback : Cause
  eof unexpected_eof conn_aborted conn_reset closed_body closed_pipe : Cause
  net_error : Bool → Cause
  connect_error : Response → Cause
  other_cause : Cause

pub record Failure : Type 0 where
  pub text : Bytes
  pub chain : List Cause

-- `errClose`
abbrev pub err_close : Failure
err_close = record { text = codes "closing connection"; chain = closing_connection ∷ [] }

-- `errors.Is` and `errors.As`, with what is looked for.
abbrev pub any_cause : (Cause → Bool) → List Cause → Bool
any_cause f [] = false
any_cause f (c ∷ cs) = f c || any_cause f cs

abbrev pub is_closing : Cause → Bool
is_closing closing_connection = true
is_closing c = false

abbrev pub is_fallback : Cause → Bool
is_fallback connect_fallback = true
is_fallback c = false

abbrev is_closed_conn : Cause → Bool
is_closed_conn eof = true
is_closed_conn unexpected_eof = true
is_closed_conn conn_aborted = true
is_closed_conn conn_reset = true
is_closed_conn closed_body = true
is_closed_conn c = false

abbrev is_end : Cause → Bool
is_end eof = true
is_end unexpected_eof = true
is_end closed_pipe = true
is_end c = false

-- The first `net.Error` of the chain, and whether it is a timeout.
abbrev first_net_error : List Cause → Bool
first_net_error [] = false
first_net_error (net_error timeout ∷ cs) = timeout
first_net_error (c ∷ cs) = first_net_error cs

-- `isClosedConnError`
pub is_closed_conn_error : Option Failure → Bool
is_closed_conn_error none = false
is_closed_conn_error (some e) =
    any_cause is_closed_conn e.chain || contains e.text (codes "use of closed network connection")

-- `isCloseable`
unfoldable pub is_closeable : Failure → Bool
is_closeable e =
    any_cause is_end e.chain || first_net_error e.chain || contains e.text (codes "tls:")

-- `maybeConnectErrorResponse`
abbrev pub maybe_connect_error_response : List Cause → Option Response
maybe_connect_error_response [] = none
maybe_connect_error_response (connect_error res ∷ cs) = some res
maybe_connect_error_response (c ∷ cs) = maybe_connect_error_response cs
