-- ===== src/Martian/Conn/Loop.antt =====
-- internal/martian/proxy.go: the loop of `handleLoop`, a call of `handle` for each step.
use forwarder.Base.{
  ℕ, zero, suc, true, false, ◌||◌, Option, none, some, [], ◌∷◌, ltb, if◌then◌else◌,
}
use forwarder.Martian.Conn.Handle.{Next, returned, again, crashed, handle}
use forwarder.Martian.Conn.Read.{Conn}
use forwarder.Martian.Events.{World, client_handshake}
use forwarder.Martian.Failure.{Failure, any_cause, is_closing, is_closeable}
use forwarder.Martian.Proxy.{Proxy, Outside}

abbrev max_consecutive_errors : ℕ
max_consecutive_errors = 5

-- The loop, with `errorsN`, or its end.
pub data Loop : Type 0 where
  running : ℕ → Conn → Loop
  ended : Conn → Loop

-- What the loop does with the result of `handle`.
abbrev pub loop_result : ℕ → Next → Conn → Loop
loop_result n again c = running n c
loop_result n crashed c = ended c
loop_result n (returned none) c = running 0 c
loop_result n (returned (some e)) c =
    if any_cause is_closing e.chain || is_closeable e
    then ended c
    else if ltb (suc n) max_consecutive_errors
    then running (suc n) c
    else ended c

abbrev pub handshaken : Option Failure → Loop
handshaken (some e) = ended (record { secure = false; world = client_handshake ∷ [] })
handshaken none = running 0 (record { secure = true; world = client_handshake ∷ [] })

-- `maybeHandshakeTLS`, and the return of `handleLoop` at its error.
abbrev pub maybe_handshake_tls : Option (World → Option Failure) → Loop
maybe_handshake_tls none = running 0 (record { secure = false; world = [] })
maybe_handshake_tls (some handshake) = handshaken (handshake [])

module _ (p : Proxy) (out : Outside) where
  -- A round of the loop.
  unfoldable pub loop_step : Loop → Loop
  loop_step (ended c) = ended c
  loop_step (running n c) = let (next, c') = handle p out c in loop_result n next c'

  -- The beginning of `handleLoop`.
  unfoldable pub start : Loop
  start =
      if out.closing []
      then ended (record { secure = false; world = [] })
      else maybe_handshake_tls out.accepted_tls

  -- Some rounds.
  unfoldable pub loop_steps : ℕ → Loop → Loop
  loop_steps zero l = l
  loop_steps (suc k) l = loop_steps k (loop_step l)
