-- ===== src/Martian/Conn/Conforms.antt =====
-- internal/martian/proxy_conn.go: the calls on a connection keep the protocol.
use forwarder.Base.{
  ◌≡◌, ◌⊎◌, inl, inr, refl, ap, ◌∙◌, Bool, true, false, Option, none, some, [], ◌∷◌, Bytes, ◌==◌,
  beq, codes, if◌then◌else◌, Result, ok, err, arith,
}
use forwarder.Http.Message.{Request, Response}
use forwarder.Martian.Conn.Handle.{
  Next, returned, again, crashed, handle, handle_request, handle_plain_request,
  handle_connect_request, connect_modified, connect_tunnel, after_connect, connect_verdict,
  handle_mitm, mitm_verdict, mitm_answered, mitm_peeked, mitm_handshake, after_round_trip,
  request_verdict, response_verdict, upgraded, after_read, insecure,
}
use forwarder.Martian.Conn.Read.{Conn, read_request}
use forwarder.Martian.Conn.Write.{write_response, handle_upgrade_response}
use forwarder.Martian.Connect.{connect_request, should_terminate_tls, new_connect_response}
use forwarder.Martian.Events.{
  World, request_read, Phase, idle, asked, refused, approved, answered, broken, phase, on_answer,
  on_request, on_verdict,
}
use forwarder.Martian.Failure.{Failure, err_close}
use forwarder.Martian.Proxy.{
  Proxy, Outside, modify_request, modify_response, round_trip, fix_request_scheme, should_mitm,
  upgrade_type,
}
use forwarder.Martian.Conn.Phase.{
  phase-round_trip, phase-close_all, phase-write_response, phase-modify_response,
  phase-modify_request, phase-read_request, phase-write_error_response, phase-tunnel,
  phase-connect_request,
}

-- Where a handler may stop before there is an answer.
abbrev pub Stops : Next → Type 0
Stops crashed = Unit
Stops again = ⊥
Stops (returned none) = ⊥
Stops (returned (some e)) = e ≡ err_close

abbrev pub Kept : Phase → Type 0
Kept broken = ⊥
Kept f = Unit

abbrev pub Final : Next → Phase → Type 0
Final next f = (f ≡ answered) ⊎ (Stops next × Kept f)

if_Final :
    (a b : Next × Bool × World) (t : Bool)
    → Final a.0 (phase a.2)
    → Final b.0 (phase b.2)
    → let (next, s, w) = if t then a else b in Final next (phase w)
if_Final a b true f g = f
if_Final a b false f g = g

-- What a handler of a request that is not for a tunnel returns.
abbrev FinalResult : Option Failure × World → Type 0
FinalResult (e, w) = Final (returned e) (phase w)

if_FinalResult :
    (a b : Option Failure × World) (t : Bool)
    → FinalResult a
    → FinalResult b
    → FinalResult (if t then a else b)
if_FinalResult a b true f g = f
if_FinalResult a b false f g = g

-- Between two requests.
abbrev pub Ready : Phase → Type 0
Ready idle = Unit
Ready answered = Unit
Ready f = ⊥

Ready-Kept : (f : Phase) → Ready f → Kept f
Ready-Kept idle h = tt
Ready-Kept answered h = tt
Ready-Kept asked h = absurd h
Ready-Kept refused h = absurd h
Ready-Kept approved h = absurd h
Ready-Kept broken h = absurd h

on_request-Ready : (f : Phase) → Ready f → on_request f ≡ asked
on_request-Ready idle h = refl
on_request-Ready answered h = refl
on_request-Ready asked h = absurd h
on_request-Ready refused h = absurd h
on_request-Ready approved h = absurd h
on_request-Ready broken h = absurd h

module _ (p : Proxy) (out : Outside) where
  -- The response modifier has seen the response.
  phase-connect_verdict :
      (req : Request) (e : Option Failure) (res : Response) (w : World)
      → phase w ≡ approved
      → phase (connect_verdict p out req (e, res, w)).1 ≡ answered
  phase-connect_verdict req (some e) res w h =
      phase-write_error_response p out w req e ∙ ap on_answer h
  phase-connect_verdict req none res w h =
      let a = phase-tunnel p out (codes "CONNECT") w res h in
      let b : phase (write_response p out w res).1 ≡ answered =
        phase-write_response p out w res ∙ ap on_answer h in
      ground (arith, a, b)

  Final-after_connect :
      (req : Request) (e : Option Failure) (r : Option Response) (w : World)
      → phase w ≡ approved
      → let (next, w') = after_connect p out req e r w in Final next (phase w')
  Final-after_connect req (some e) r w h =
      inl (phase-write_error_response p out w req e ∙ ap on_answer h)
  Final-after_connect req none none w h = inr (tt, rw h tt)
  Final-after_connect req none (some res) w h =
      let m = modify_response p out w res in
      inl (phase-connect_verdict req m.0 m.1 m.2 (phase-modify_response p out w res ∙ h))

  Final-connect_tunnel :
      (w : World) (req : Request) (t : Bool)
      → phase w ≡ approved
      → let (next, w') = connect_tunnel p out w req t in Final next (phase w')
  Final-connect_tunnel w req t h =
      let c = connect_request p out w req t in
      let f =
        Final-after_connect req c.0.error c.0.res c.1 (phase-connect_request p out w req t h) in
      rw (phase-close_all p out c.0 (after_connect p out req c.0.error c.0.res c.1).1) f

  -- The handlers of a connection whose request has been answered.
  phase-mitm_handshake :
      (w : World) (req : Request)
      → phase w ≡ answered
      → phase (mitm_handshake p out w req).2 ≡ answered
  phase-mitm_handshake w req h = ground (arith, h)

  phase-mitm_peeked :
      (w : World) (req : Request)
      → phase w ≡ answered
      → phase (mitm_peeked p out w req).2 ≡ answered
  phase-mitm_peeked w req h = let k = phase-mitm_handshake w req h in ground (arith, h, k)

  phase-mitm_answered :
      (req : Request) (e : Option Failure) (w : World)
      → phase w ≡ answered
      → phase (mitm_answered p out req (e, w)).2 ≡ answered
  phase-mitm_answered req none w h = phase-mitm_peeked w req h
  phase-mitm_answered req (some e) w h = h

  phase-mitm_verdict :
      (req : Request) (e : Option Failure) (res : Response) (w : World)
      → phase w ≡ approved
      → phase (mitm_verdict p out req (e, res, w)).2 ≡ answered
  phase-mitm_verdict req (some e) res w h = phase-write_response p out w _ ∙ ap on_answer h
  phase-mitm_verdict req none res w h =
      let k = write_response p out w res in
      phase-mitm_answered req k.0 k.1 (phase-write_response p out w res ∙ ap on_answer h)

  phase-handle_mitm :
      (w : World) (req : Request)
      → phase w ≡ approved
      → phase (handle_mitm p out w req).2 ≡ answered
  unfolding handle_mitm
  phase-handle_mitm w req h =
      let m = modify_response p out w (new_connect_response req) in
      phase-mitm_verdict req m.0 m.1 m.2 (phase-modify_response p out w _ ∙ h)

  Final-connect_modified :
      (t : Bool) (e : Option Failure) (req : Request) (w : World)
      → phase w ≡ on_verdict asked e
      → let (next, s, w') = connect_modified p out t (e, req, w) in Final next (phase w')
  Final-connect_modified t (some e) req w h =
      inl (phase-write_error_response p out w req e ∙ ap on_answer h)
  Final-connect_modified t none req w h =
      if_Final (handle_mitm p out w req) (insecure p out (connect_tunnel p out w req t))
        (should_mitm p req) (inl (phase-handle_mitm w req h)) (Final-connect_tunnel w req t h)

  Final-handle_connect_request :
      (w : World) (req : Request)
      → phase w ≡ asked
      → let (next, s, w') = handle_connect_request p out w req in Final next (phase w')
  unfolding handle_connect_request
  Final-handle_connect_request w req h =
      let r = modify_request p out w _ in
      Final-connect_modified (should_terminate_tls req) r.0 r.1 r.2
        (phase-modify_request p out w _ ∙ ap (λ k. on_verdict k r.0) h)

  Final-handle_upgrade_response :
      (w : World) (res : Response)
      → phase w ≡ approved
      → FinalResult (handle_upgrade_response p out w res)
  unfolding handle_upgrade_response
  Final-handle_upgrade_response w res h =
      let t = phase-tunnel p out (upgrade_type p out res.header) w (record res { body = [] }) h in
      if_FinalResult (_, _) (_, _) res.writable (inl t) (inr (refl, rw h tt))

  Final-response_verdict :
      (req : Request) (kind : Bytes) (e : Option Failure) (res : Response) (w : World)
      → phase w ≡ approved
      → FinalResult (response_verdict p out req kind (e, res, w))
  Final-response_verdict req kind (some e) res w h =
      inl (phase-write_error_response p out w req e ∙ ap on_answer h)
  Final-response_verdict req kind none res w h =
      let res' : Response = record res { header = upgraded p out kind res.header } in
      if_FinalResult (handle_upgrade_response p out w res') (write_response p out w res')
        (res.status_code == 101) (Final-handle_upgrade_response w res' h)
        (inl (phase-write_response p out w res' ∙ ap on_answer h))

  Final-after_round_trip :
      (req : Request) (r : Result Failure Response) (w : World)
      → phase w ≡ approved
      → FinalResult (after_round_trip p out req (r, w))
  Final-after_round_trip req (err e) w h =
      inl (phase-write_error_response p out w req e ∙ ap on_answer h)
  Final-after_round_trip req (ok res) w h =
      let m = modify_response p out w (record res { request = req }) in
      Final-response_verdict req (upgrade_type p out res.header) m.0 m.1 m.2
        (phase-modify_response p out w _ ∙ h)

  Final-request_verdict :
      (kind : Bytes) (e : Option Failure) (req : Request) (w : World)
      → phase w ≡ on_verdict asked e
      → FinalResult (request_verdict p out kind (e, req, w))
  Final-request_verdict kind (some e) req w h =
      inl (phase-write_error_response p out w req e ∙ ap on_answer h)
  Final-request_verdict kind none req w h =
      let req' : Request = record req { header = upgraded p out kind req.header } in
      let r = round_trip p out w req' in
      Final-after_round_trip req' r.0 r.1 (phase-round_trip p out w req' h)

  Final-handle_plain_request :
      (w : World) (req : Request) → phase w ≡ asked → FinalResult (handle_plain_request p out w req)
  unfolding handle_plain_request
  Final-handle_plain_request w req h =
      let r = modify_request p out w (fix_request_scheme p req) in
      Final-request_verdict (upgrade_type p out req.header) r.0 r.1 r.2
        (phase-modify_request p out w _ ∙ ap (λ k. on_verdict k r.0) h)

  Final-handle_request :
      (w : World) (req : Request)
      → phase w ≡ asked
      → let (next, s, w') = handle_request p out w req in Final next (phase w')
  unfolding handle_request
  Final-handle_request w req h =
      if_Final (returned (some err_close), false, w) _ (out.closing w) (inr (refl, rw h tt))
        (if_Final (handle_connect_request p out w _) _ (beq req.method (codes "CONNECT"))
          (Final-handle_connect_request w _ h) (Final-handle_plain_request w _ h))

  Final-after_read :
      (c : Conn) (r : Result Failure Request) (w : World)
      → Ready (phase w)
      → let (next, c') = after_read p out c (r, w) in Final next (phase c'.world)
  Final-after_read c (err e) w h = inr (refl, Ready-Kept (phase w) h)
  Final-after_read c (ok req) w h =
      Final-handle_request (request_read req ∷ w) req (on_request-Ready (phase w) h)

  -- A call of `handle` on a connection that is between two requests keeps the protocol. If the loop is to go on after it, the
  -- request that it read has been answered.
  pub Final-handle :
      (c : Conn)
      → Ready (phase c.world)
      → let (next, c') = handle p out c in Final next (phase c'.world)
  unfolding handle
  Final-handle c h =
      let r = read_request p out c.secure c.world in
      Final-after_read c r.0 r.1 (rw (phase-read_request p out c.secure c.world) h)
