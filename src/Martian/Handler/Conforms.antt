-- ===== src/Martian/Handler/Conforms.antt =====
-- internal/martian/proxy_handler.go: a call of the handler keeps the protocol of a connection.
use forwarder.Base.{
  ℕ, ◌≡◌, refl, ap, ◌∙◌, Bool, true, false, Option, none, some, [], ◌∷◌, Bytes, ◌==◌, beq, codes,
  if◌then◌else◌, Result, ok, err, arith,
}
use forwarder.Http.Headers.{Headers}
use forwarder.Http.Message.{Request, Response}
use forwarder.Martian.Conn.Conforms.{Kept}
use forwarder.Martian.Conn.Handle.{upgraded}
use forwarder.Martian.Conn.Phase.{
  phase-write_response, phase-modify_response, phase-modify_request, phase-run_tunnel,
  phase-connect_request, phase-round_trip, phase-close_all,
}
use forwarder.Martian.Conn.Write.{write_response}
use forwarder.Martian.Connect.{should_terminate_tls, connect_request}
use forwarder.Martian.Events.{
  World, Phase, asked, approved, answered, phase, on_answer, on_verdict, hijacked, flushed,
  client_closed, head_written,
}
use forwarder.Martian.Failure.{Failure}
use forwarder.Martian.Handler.{
  Writer, Served, done, aborted, nil_response, copy_body, body_written, answer, answer_error,
  written_tunnel, tunnel_1, tunnel_2, handler_tunnel, tunnel_ends, upgrade, handler_connected,
  handler_after_connect, closing_all, handler_connect, serve_connect, handler_response,
  handler_round_trip, handler_request, serve_plain, serve_http, arrived, new_writer, copy_header,
  add_trailer_header,
}
use forwarder.Martian.Proxy.{
  Proxy, Outside, Connected, modify_request, modify_response, round_trip, upgrade_type,
}

-- A handler that returns has answered; one that panics has kept the protocol.
abbrev pub Answered : Served → Phase → Type 0
Answered done f = f ≡ answered
Answered s f = Kept f

Answered-any : (s : Served) (f : Phase) → f ≡ answered → Answered s f
Answered-any done f h = h
Answered-any aborted f h = rw h tt
Answered-any nil_response f h = rw h tt

Kept-approved : (w : World) → phase w ≡ approved → Kept (phase w)
Kept-approved w h = rw h tt

Answered-phase : (s : Served) (f g : Phase) → f ≡ g → Answered s g → Answered s f
Answered-phase s f g h k = rw h k

phase-flushed :
    (t : Bool) (w : World) → phase w ≡ answered → phase (if t then flushed ∷ w else w) ≡ answered
phase-flushed true w h = h
phase-flushed false w h = h

module _ (p : Proxy) (out : Outside) where
  phase-copy_body :
      (w : World) (res : Response) → phase w ≡ answered → phase (copy_body p out w res).1 ≡ answered
  unfolding copy_body
  phase-copy_body w res h = ground (arith, h)

  phase-body_written :
      (res : Response) (h : Headers) (e : Option Failure) (w : World)
      → phase (body_written p out res h (e, w)).1.world ≡ phase w
  phase-body_written res h (some e) w = refl
  phase-body_written res h none w = refl

  phase-head :
      (w : World) (code : ℕ) (h : Headers)
      → on_answer (phase w) ≡ answered
      → phase (head_written code h ∷ w) ≡ answered
  phase-head w code h k = k

  phase-answer :
      (writer : Writer) (res : Response)
      → on_answer (phase writer.world) ≡ answered
      → phase (answer p out writer res).1.world ≡ answered
  unfolding answer
  phase-answer writer res h =
      let k = add_trailer_header (copy_header writer.fields res.header) res.trailer in
      let b = copy_body p out _ res in
      phase-body_written res k b.0 b.1
      ∙ phase-copy_body _ res
          (phase-flushed out.can_flush _ (phase-head writer.world res.status_code k h))

  phase-answer_error :
      (writer : Writer) (req : Request) (e : Failure)
      → on_answer (phase writer.world) ≡ answered
      → phase (answer_error p out writer req e).1.world ≡ answered
  unfolding answer_error
  phase-answer_error writer req e h =
      phase-answer _ _ (ap on_answer (phase-modify_response p out writer.world _) ∙ h)

  phase-written_tunnel :
      (name : Bytes) (e : Option Failure) (w : World)
      → phase w ≡ answered
      → phase (written_tunnel p out name (e, w)).1 ≡ answered
  phase-written_tunnel name (some e) w h = h
  phase-written_tunnel name none w h = phase-run_tunnel p out name w h

  -- A tunnel that returns no error is behind an answer.
  abbrev Tunneled : Option Failure × World → Type 0
  Tunneled (none, w) = phase w ≡ answered
  Tunneled (some e, w) = Kept (phase w)

  Tunneled-any : (e : Option Failure) (w : World) → phase w ≡ answered → Tunneled (e, w)
  Tunneled-any none w h = h
  Tunneled-any (some e) w h = rw h tt

  Tunneled-tunnel_1 :
      (name : Bytes) (w : World) (res : Response) (e : Option Failure)
      → phase w ≡ approved
      → Tunneled (tunnel_1 p out name w res e)
  unfolding tunnel_1
  Tunneled-tunnel_1 name w res (some e) h = rw h tt
  Tunneled-tunnel_1 name w res none h =
      let k = write_response p out (hijacked ∷ w) res in
      let t = written_tunnel p out name k in
      Tunneled-any t.0 (client_closed ∷ t.1) (
        phase-written_tunnel name k.0 k.1
          (phase-write_response p out (hijacked ∷ w) res ∙ ap on_answer h))

  Tunneled-tunnel_2 :
      (name : Bytes) (w : World) (e : Option Failure)
      → phase w ≡ answered
      → Tunneled (tunnel_2 p out name w e)
  unfolding tunnel_2
  Tunneled-tunnel_2 name w (some e) h = rw h tt
  Tunneled-tunnel_2 name w none h = rw h refl

  Tunneled-if :
      (a b : Option Failure × World) (t : Bool)
      → Tunneled a
      → Tunneled b
      → Tunneled (if t then a else b)
  Tunneled-if a b true h k = h
  Tunneled-if a b false h k = k

  Tunneled-handler_tunnel :
      (name : Bytes) (writer : Writer) (req : Request) (res : Response)
      → phase writer.world ≡ approved
      → Tunneled (handler_tunnel p out name writer req res)
  unfolding handler_tunnel
  Tunneled-handler_tunnel name writer req res h =
      Tunneled-if (tunnel_1 p out name writer.world res (out.hijack_error writer.world)) _
        (req.proto_major == 1) (Tunneled-tunnel_1 name writer.world res _ h)
        (Tunneled-if (tunnel_2 p out name _ _) _ (req.proto_major == 2)
          (Tunneled-tunnel_2 name _ _ (ap on_answer h)) (Kept-approved writer.world h))

  -- What the handler and its parts come to.
  abbrev Ends : Served × Writer → Type 0
  Ends (s, writer) = Answered s (phase writer.world)

  Ends-if : (a b : Served × Writer) (t : Bool) → Ends a → Ends b → Ends (if t then a else b)
  Ends-if a b true h k = h
  Ends-if a b false h k = k

  Ends-tunnel_ends :
      (h : Headers) (e : Option Failure) (w : World)
      → Tunneled (e, w)
      → Ends (tunnel_ends p out h (e, w))
  Ends-tunnel_ends h none w t = t
  Ends-tunnel_ends h (some e) w t = t

  Ends-tunnel :
      (h : Headers) (t : Option Failure × World) → Tunneled t → Ends (tunnel_ends p out h t)
  Ends-tunnel h t k = Ends-tunnel_ends h t.0 t.1 k

  Ends-answer :
      (writer : Writer) (res : Response)
      → on_answer (phase writer.world) ≡ answered
      → Ends (answer p out writer res)
  Ends-answer writer res h = Answered-any _ _ (phase-answer writer res h)

  Ends-answer_error :
      (writer : Writer) (req : Request) (e : Failure)
      → on_answer (phase writer.world) ≡ answered
      → Ends (answer_error p out writer req e)
  Ends-answer_error writer req e h = Answered-any _ _ (phase-answer_error writer req e h)

  Ends-upgrade :
      (writer : Writer) (req : Request) (res : Response)
      → phase writer.world ≡ approved
      → Ends (upgrade p out writer req res)
  unfolding upgrade
  Ends-upgrade writer req res h =
      Ends-if _ (aborted, writer) res.writable
        (Ends-tunnel writer.fields
          (handler_tunnel p out (upgrade_type p out res.header) writer req
            (record res { body = [] }))
          (Tunneled-handler_tunnel (upgrade_type p out res.header) writer req
            (record res { body = [] }) h))
        (Kept-approved writer.world h)

  Ends-handler_connected :
      (writer : Writer) (req : Request) (e : Option Failure) (res : Response) (w : World)
      → phase w ≡ approved
      → Ends (handler_connected p out writer req (e, res, w))
  Ends-handler_connected writer req (some e) res w h = Ends-answer_error _ req e (ap on_answer h)
  Ends-handler_connected writer req none res w h =
      Ends-if _ (answer p out (record writer { world = w }) res) (res.status_code == 200)
        (Ends-tunnel writer.fields
          (handler_tunnel p out (codes "CONNECT") (record writer { world = w }) req res)
          (Tunneled-handler_tunnel (codes "CONNECT") (record writer { world = w }) req res h))
        (Ends-answer _ res (ap on_answer h))

  Ends-handler_after_connect :
      (writer : Writer) (req : Request) (e : Option Failure) (r : Option Response) (w : World)
      → phase w ≡ approved
      → Ends (handler_after_connect p out writer req e r w)
  Ends-handler_after_connect writer req (some e) r w h = Ends-answer_error _ req e (ap on_answer h)
  Ends-handler_after_connect writer req none none w h = Kept-approved w h
  Ends-handler_after_connect writer req none (some res) w h =
      let m = modify_response p out w res in
      Ends-handler_connected writer req m.0 m.1 m.2 (phase-modify_response p out w res ∙ h)

  Ends-closing_all :
      (c : Connected) (s : Served) (writer : Writer)
      → Ends (s, writer)
      → Ends (closing_all p out c (s, writer))
  Ends-closing_all c s writer h = Answered-phase s _ _ (phase-close_all p out c writer.world) h

  Ends-handler_connect :
      (t : Bool) (writer : Writer) (e : Option Failure) (req : Request) (w : World)
      → phase w ≡ on_verdict asked e
      → Ends (handler_connect p out t writer (e, req, w))
  Ends-handler_connect t writer (some e) req w h = Ends-answer_error _ req e (ap on_answer h)
  Ends-handler_connect t writer none req w h =
      let c = connect_request p out w req t in
      let r = handler_after_connect p out writer req c.0.error c.0.res c.1 in
      Ends-closing_all c.0 r.0 r.1 (
        Ends-handler_after_connect writer req c.0.error c.0.res c.1
          (phase-connect_request p out w req t h))

  Ends-serve_connect :
      (writer : Writer) (req : Request)
      → phase writer.world ≡ asked
      → Ends (serve_connect p out writer req)
  unfolding serve_connect
  Ends-serve_connect writer req h =
      let r = modify_request p out writer.world _ in
      Ends-handler_connect (should_terminate_tls req) writer r.0 r.1 r.2
        (phase-modify_request p out writer.world _ ∙ ap (λ k. on_verdict k r.0) h)

  Ends-handler_response :
      (writer : Writer) (req : Request) (kind : Bytes) (e : Option Failure) (res : Response)
      (w : World)
      → phase w ≡ approved
      → Ends (handler_response p out writer req kind (e, res, w))
  Ends-handler_response writer req kind (some e) res w h =
      Ends-answer_error _ req e (ap on_answer h)
  Ends-handler_response writer req kind none res w h =
      let res' : Response = record res { header = upgraded p out kind res.header } in
      Ends-if (upgrade p out (record writer { world = w }) req res') _ (res.status_code == 101)
        (Ends-upgrade (record writer { world = w }) req res' h)
        (Ends-answer _ res' (ap on_answer h))

  Ends-handler_round_trip :
      (writer : Writer) (req : Request) (r : Result Failure Response) (w : World)
      → phase w ≡ approved
      → Ends (handler_round_trip p out writer req (r, w))
  Ends-handler_round_trip writer req (err e) w h = Ends-answer_error _ req e (ap on_answer h)
  Ends-handler_round_trip writer req (ok res) w h =
      let m = modify_response p out w (record res { request = req }) in
      Ends-handler_response writer req (upgrade_type p out res.header) m.0 m.1 m.2
        (phase-modify_response p out w _ ∙ h)

  Ends-handler_request :
      (kind : Bytes) (writer : Writer) (e : Option Failure) (req : Request) (w : World)
      → phase w ≡ on_verdict asked e
      → Ends (handler_request p out kind writer (e, req, w))
  Ends-handler_request kind writer (some e) req w h = Ends-answer_error _ req e (ap on_answer h)
  Ends-handler_request kind writer none req w h =
      let req' : Request = record req { header = upgraded p out kind req.header } in
      let r = round_trip p out w req' in
      Ends-handler_round_trip writer req' r.0 r.1 (phase-round_trip p out w req' h)

  Ends-serve_plain :
      (writer : Writer) (req : Request)
      → phase writer.world ≡ asked
      → Ends (serve_plain p out writer req)
  unfolding serve_plain
  Ends-serve_plain writer req h =
      let r = modify_request p out writer.world _ in
      Ends-handler_request (upgrade_type p out req.header) writer r.0 r.1 r.2
        (phase-modify_request p out writer.world _ ∙ ap (λ k. on_verdict k r.0) h)

  -- A call of the handler keeps the protocol of a connection, whatever the peers and the modifiers do: a request goes upstream only
  -- after the request modifier accepted it, and is answered at most once, after the modifier's verdict and before a tunnel is run. A handler that
  -- returns, and does not panic, has answered.
  pub serve_http-Answered :
      (req : Request) → let (s, writer) = serve_http p out req in Answered s (phase writer.world)
  unfolding serve_http
  serve_http-Answered req =
      Ends-if (serve_connect p out (new_writer (arrived req)) (arrived req))
        (serve_plain p out (new_writer (arrived req)) (arrived req))
        (beq (arrived req).method (codes "CONNECT"))
        (Ends-serve_connect (new_writer (arrived req)) (arrived req) refl)
        (Ends-serve_plain (new_writer (arrived req)) (arrived req) refl)
