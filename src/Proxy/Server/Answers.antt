-- ===== src/Proxy/Server/Answers.antt =====
-- What the servers answer, and what they wait for.
use forwarder.Base.{
  ◌≡◌, ◌≢◌, refl, Bool, true, false, Option, none, some, [], Bytes, if◌then◌else◌, arith,
}
use forwarder.Proxy.Server.{
  readyz, is_ready, ready_text, Served, no_error, server_closed, failed_with, run_server,
  redact_userinfo,
}

-- The check of readiness decides the status and the text; and the type of the content is set too late to be sent.
pub readyz_lem :
    (check : Option Bool)
    → ((readyz check).sent ≡ some ((if is_ready check then 200 else 503), []))
      × ((readyz check).written ≡ ready_text (is_ready check))
unfolding readyz
readyz_lem none = (refl, refl)
readyz_lem (some true) = (refl, refl)
readyz_lem (some false) = (refl, refl)

-- Since `Serve` of net/http never returns without an error, a server that runs never waits for its shutdown.
pub run_server-never_waits :
    (protocol : Bytes) (served : Served)
    → served ≢ no_error
    → (run_server protocol served).1 ≡ false
unfolding run_server
run_server-never_waits protocol no_error h = absurd (h refl)
run_server-never_waits protocol server_closed h = ground arith
run_server-never_waits protocol (failed_with e) h = ground arith

-- The text of credentials for the log does not depend on the password.
pub redact_userinfo_same :
    (user p q : Bytes)
    → redact_userinfo (some (record { username = user; password = some p }))
      ≡ redact_userinfo (some (record { username = user; password = some q }))
unfolding redact_userinfo
redact_userinfo_same user p q = refl
