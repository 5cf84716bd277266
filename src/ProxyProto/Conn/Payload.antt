-- ===== src/ProxyProto/Conn/Payload.antt =====
-- proxyproto/net.go: what a reader gets of a connection.
use forwarder.Base.{
  ◌≡◌, refl, sym, ap, ◌∙◌, Bool, true, false, Option, List, [], ◌∷◌, ◌++◌, append_assoc, append-nil,
  Bytes, take, drop, take-append-drop, Result, ok, err, if◌then◌else◌, arith,
}
use forwarder.Base.Int.{ℤ}
use forwarder.ProxyProto.Conn.{
  Conn, ConnError, HeaderState, not_read, have_header, have_error, accept, Method, local_addr,
  remote_addr, read, write, read_from, write_to, get_header, Call, Answer, failed, from_header,
  from_below, bytes, the_header, received, selected, read_header_context, with_header,
  without_header, method_result, run_call, run_calls, limit, is_late,
}
use forwarder.ProxyProto.Header.{Header, Addr, ReadError}
use forwarder.ProxyProto.Read.{read_header}

-- The bytes that calls returned.
abbrev pub got : List Answer → Bytes
got [] = []
got (bytes b ∷ answers) = b ++ got answers
got (a ∷ answers) = got answers

given : (g a b : Bytes) → (g ++ (a ++ [])) ++ b ≡ g ++ (a ++ b)
given g a b = rw (append-nil a) (append_assoc g a b)

got-without_header :
    (parse_ip : Bytes → Option Bytes) (e : ConnError) (m : Method)
    → got (without_header parse_ip e m ∷ []) ≡ []
got-without_header parse_ip e m = ground arith

got-cons : (a : Answer) (answers : List Answer) → got (a ∷ answers) ≡ got (a ∷ []) ++ got answers
got-cons (failed e) answers = refl
got-cons (from_header a) answers = refl
got-cons from_below answers = refl
got-cons (bytes b) answers = rw (append-nil b) refl
got-cons (the_header h) answers = refl

module _ (parse_ip : Bytes → Option Bytes) (s : Bytes) where
  -- What was read so far, `g`, and the connection.
  abbrev pub Payload : HeaderState → Bytes → Bytes → Type 0
  Payload not_read g stream = (g ≡ []) × (stream ≡ s)
  Payload (have_error e) g stream = g ≡ []
  Payload (have_header h) g stream =
      (rest : Bytes) × (read_header parse_ip s ≡ ok (h, rest)) × (g ++ stream ≡ rest)

  abbrev Good : Bytes → Conn → Type 0
  Good g c = Payload c.header_state g c.stream

  local_answer :
      (local : Bool) (g : Bytes) (c : Conn) (a : Option Addr)
      → Good g c
      → Good (g ++ got ((if local then from_below else from_header a) ∷ [])) c
  local_answer true g c a k = rw (append-nil g) k
  local_answer false g c a k = rw (append-nil g) k

  Good-received :
      (c : Conn) (r : Result ReadError (Header × Bytes))
      → read_header parse_ip s ≡ r
      → Good [] (received parse_ip c r)
  Good-received c (ok (h, rest)) q = (rest, q, refl)
  Good-received c (err e) q = refl

  Good-selected : (late : Bool) (c : Conn) → c.stream ≡ s → Good [] (selected parse_ip late c)
  Good-selected true c q = refl
  Good-selected false c q =
      Good-received c (read_header parse_ip c.stream) (ap (read_header parse_ip) (sym q))

  Good-empty : (g : Bytes) (c : Conn) → g ≡ [] → Good [] c → Good g c
  Good-empty g c q h = rw q h

  Good-read_header_context :
      (t : HeaderState) (g : Bytes) (c : Conn) (call : Call)
      → c.header_state ≡ t
      → Good g c
      → Good g (read_header_context parse_ip t c call)
  unfolding read_header_context
  Good-read_header_context not_read g c call q h =
      let k : Payload not_read g c.stream = rw q at h in
      Good-empty g (read_header_context parse_ip not_read c call) k.0
        (Good-selected (is_late (limit c.read_header_timeout call.left) call.arrival) c k.1)
  Good-read_header_context (have_header x) g c call q h = h
  Good-read_header_context (have_error e) g c call q h = h

  Good-with_header :
      (h : Header) (g : Bytes) (m : Method) (c : Conn)
      → c.header_state ≡ have_header h
      → Good g c
      → let (a, c') = with_header parse_ip h m c in Good (g ++ got (a ∷ [])) c'
  Good-with_header h g local_addr c q k = local_answer h.is_local g c h.destination k
  Good-with_header h g remote_addr c q k = local_answer h.is_local g c h.source k
  Good-with_header h g write c q k = rw (append-nil g) k
  Good-with_header h g read_from c q k = rw (append-nil g) k
  Good-with_header h g get_header c q k = rw (append-nil g) k
  Good-with_header h g (read n) c q k =
      let (rest, e, x) : Payload (have_header h) g c.stream = rw q at k in
      rw q (
        rest,
        e,
        given g (take n c.stream) (drop n c.stream)
            ∙ ap (λ z. g ++ z) (take-append-drop n c.stream)
            ∙ x,
      )
  Good-with_header h g write_to c q k =
      let (rest, e, x) : Payload (have_header h) g c.stream = rw q at k in
      rw q (rest, e, given g c.stream [] ∙ ap (λ z. g ++ z) (append-nil c.stream) ∙ x)

  Good-method_result :
      (t : HeaderState) (g : Bytes) (m : Method) (c : Conn)
      → c.header_state ≡ t
      → Good g c
      → let (a, c') = method_result parse_ip t m c in Good (g ++ got (a ∷ [])) c'
  Good-method_result not_read g m c q k = rw (append-nil g) k
  Good-method_result (have_header h) g m c q k = Good-with_header h g m c q k
  Good-method_result (have_error e) g m c q k = rw (got-without_header parse_ip e m, append-nil g) k

  Good-run_call :
      (g : Bytes) (c : Conn) (call : Call)
      → Good g c
      → let (a, c') = run_call parse_ip c call in Good (g ++ got (a ∷ [])) c'
  unfolding run_call
  Good-run_call g c call k =
      let c' = read_header_context parse_ip c.header_state c call in
      Good-method_result c'.header_state g call.method c' refl
        (Good-read_header_context c.header_state g c call refl k)

  Good-run_calls :
      (g : Bytes) (c : Conn) (calls : List Call)
      → Good g c
      → let (answers, c') = run_calls parse_ip c calls in Good (g ++ got answers) c'
  unfolding run_calls
  Good-run_calls g c [] k = rw (append-nil g) k
  Good-run_calls g c (call ∷ calls) k =
      let r = run_call parse_ip c call in
      let r' = run_calls parse_ip r.1 calls in
      rw (got-cons r.0 r'.0, sym (append_assoc g (got (r.0 ∷ [])) (got r'.0)))
        (Good-run_calls (g ++ got (r.0 ∷ [])) r.1 calls (Good-run_call g c call k))

  -- Whatever calls are made of a connection that will give some bytes, and whenever the header comes: as long as the header was not
  -- read, or when it could not be read or came too late, no call has returned a byte; once there is a header, it is the one at the
  -- front of these bytes, and the bytes that the calls returned so far, with those that the connection will still give, are exactly
  -- the bytes behind it.
  pub run_calls-Payload :
      (timeout : ℤ) (calls : List Call)
      → let (answers, c) = run_calls parse_ip (accept timeout s) calls in
        Payload c.header_state (got answers) c.stream
  run_calls-Payload timeout calls = Good-run_calls [] (accept timeout s) calls (refl, refl)
