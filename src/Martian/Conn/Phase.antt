-- ===== src/Martian/Conn/Phase.antt =====
-- internal/martian/proxy_conn.go: where the calls that the handlers share take a connection.
use forwarder.Base.{◌≡◌, ap, ◌∙◌, Bool, ◌∷◌, Bytes, arith}
use forwarder.Http.Message.{Request, Response}
use forwarder.Martian.Conn.Read.{read_request}
use forwarder.Martian.Conn.Write.{write_response, write_error_response, tunnel, run_tunnel}
use forwarder.Martian.Connect.{connect_request, connect, connect_by_proxy, terminated}
use forwarder.Martian.Events.{
  World, connect_called, approved, answered, phase, on_answer, on_verdict, on_upstream,
}
use forwarder.Martian.Failure.{Failure}
use forwarder.Martian.Proxy.{Proxy, Outside, Connected, modify_request, modify_response}
use forwarder.Martian.Conn.Handle.{close_all}
use forwarder.Martian.Proxy.{round_trip}

module _ (p : Proxy) (out : Outside) where
  -- A response is written once, to a request with a verdict.
  pub phase-write_response :
      (w : World) (res : Response) → phase (write_response p out w res).1 ≡ on_answer (phase w)
  unfolding write_response
  phase-write_response w res = ground arith

  pub phase-modify_response :
      (w : World) (res : Response) → phase (modify_response p out w res).2 ≡ phase w
  unfolding modify_response
  phase-modify_response w res = ground arith

  pub phase-modify_request :
      (w : World) (req : Request)
      → phase (modify_request p out w req).2 ≡ on_verdict (phase w) (modify_request p out w req).0
  unfolding modify_request
  phase-modify_request w req = ground arith

  pub phase-read_request : (s : Bool) (w : World) → phase (read_request p out s w).1 ≡ phase w
  unfolding read_request
  phase-read_request s w = ground arith

  pub phase-write_error_response :
      (w : World) (req : Request) (e : Failure)
      → phase (write_error_response p out w req e).1 ≡ on_answer (phase w)
  unfolding write_error_response
  phase-write_error_response w req e =
      phase-write_response _ _ ∙ ap on_answer (phase-modify_response w _)

  pub phase-run_tunnel :
      (name : Bytes) (w : World) → phase w ≡ answered → phase (run_tunnel p out name w).1 ≡ answered
  unfolding run_tunnel
  phase-run_tunnel name w h = ground arith

  pub phase-tunnel :
      (name : Bytes) (w : World) (res : Response)
      → phase w ≡ approved
      → phase (tunnel p out name w res).1 ≡ answered
  unfolding tunnel
  phase-tunnel name w res h =
      let q : phase (write_response p out w res).1 ≡ answered =
        phase-write_response w res ∙ ap on_answer h in
      let k = phase-run_tunnel name (write_response p out w res).1 q in ground (arith, q, k)

  pub phase-connect_by_proxy :
      (w : World) (req : Request) (u : _)
      → phase w ≡ approved
      → phase (connect_by_proxy p out w req u).1 ≡ approved
  unfolding connect_by_proxy
  phase-connect_by_proxy w req u h = ground arith

  pub phase-connect :
      (w : World) (req : Request) → phase w ≡ approved → phase (connect p out w req).1 ≡ approved
  unfolding connect
  phase-connect w req h = grind (arith, phase-connect_by_proxy)

  pub phase-terminated :
      (t : Bool) (c : Connected) (w : World)
      → phase w ≡ approved
      → phase (terminated p out t (c, w)).1 ≡ approved
  unfolding terminated
  phase-terminated t c w h = ground arith

  pub phase-dialed :
      (w : World) (req : Request) (t : Bool)
      → phase w ≡ approved
      → phase (terminated p out t (connect p out w req)).1 ≡ approved
  phase-dialed w req t h =
      phase-terminated t (connect p out w req).0 (connect p out w req).1 (phase-connect w req h)

  pub phase-connect_request :
      (w : World) (req : Request) (t : Bool)
      → phase w ≡ approved
      → phase (connect_request p out w req t).1 ≡ approved
  unfolding connect_request
  phase-connect_request w req t h =
      let a = phase-dialed w req t h in
      let b = phase-dialed (connect_called req ∷ w) req t (ap on_upstream h) in ground (arith, a, b)

  pub phase-close_all : (c : Connected) (w : World) → phase (close_all p out c w) ≡ phase w
  phase-close_all c w = ground arith

  pub phase-round_trip :
      (w : World) (req : Request) → phase w ≡ approved → phase (round_trip p out w req).1 ≡ approved
  unfolding round_trip
  phase-round_trip w req h = ground (arith, h)
