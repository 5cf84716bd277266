-- ===== src/Martian/Conn/Rounds.antt =====
-- internal/martian/proxy.go: the rounds of the loop of a connection.
use forwarder.Base.{
  ℕ, zero, suc, ◌<◌, ◌≡◌, ◌⊎◌, inl, inr, refl, sym, ◌∙◌, Bool, true, false, ◌||◌, Option, none,
  some, List, [], ◌∷◌, ◌++◌, append_assoc, All, All-append, ltb, if◌then◌else◌, Result, ok, err,
  arith,
}
use forwarder.Http.Message.{Request}
use forwarder.Martian.Conn.Conforms.{Final, Kept, Ready, Final-handle}
use forwarder.Martian.Conn.Handle.{
  Next, returned, again, crashed, handle, handle_request, after_read,
}
use forwarder.Martian.Conn.Loop.{
  Loop, running, ended, loop_result, loop_step, loop_steps, start, handshaken, maybe_handshake_tls,
}
use forwarder.Martian.Conn.Read.{
  Conn, read_request, header_read, peeked, adjusted, deadline, same_deadline,
}
use forwarder.Martian.Events.{World, request_read, read_deadline, Event, Phase, answered, phase}
use forwarder.Martian.Failure.{Failure, err_close, any_cause, is_closing, is_closeable}
use forwarder.Martian.Proxy.{Proxy, Outside, read_header_timeout}

-- The protocol has been kept; a loop that is still running has seen fewer than five errors in a row and answered every request.
abbrev pub Safe : Loop → Type 0
Safe (running n c) = (n < 5) × Ready (phase c.world)
Safe (ended c) = Kept (phase c.world)

Ready-answered : (f : Phase) → f ≡ answered → Ready f
Ready-answered f h = rw h tt

Kept-answered : (f : Phase) → f ≡ answered → Kept f
Kept-answered f h = rw h tt

if_Safe :
    (n : ℕ) (c : Conn) (more : Bool)
    → (more ≡ true → suc n < 5)
    → phase c.world ≡ answered
    → Safe (if more then running (suc n) c else ended c)
if_Safe n c true b h = (b refl, Ready-answered (phase c.world) h)
if_Safe n c false b h = Kept-answered (phase c.world) h

ended_or_running :
    (n : ℕ) (c : Conn) (close : Bool)
    → phase c.world ≡ answered
    → Safe (if close then ended c else if ltb (suc n) 5 then running (suc n) c else ended c)
ended_or_running n c true h = Kept-answered (phase c.world) h
ended_or_running n c false h = if_Safe n c (ltb (suc n) 5) (λ k. ground arith) h

loop_result-Safe :
    (n : ℕ) (next : Next) (c : Conn)
    → n < 5
    → Final next (phase c.world)
    → Safe (loop_result n next c)
loop_result-Safe n again c b (inl h) = (b, Ready-answered (phase c.world) h)
loop_result-Safe n again c b (inr (s, k)) = absurd s
loop_result-Safe n crashed c b (inl h) = Kept-answered (phase c.world) h
loop_result-Safe n crashed c b (inr (s, k)) = k
loop_result-Safe n (returned none) c b (inl h) = (omega arith, Ready-answered (phase c.world) h)
loop_result-Safe n (returned none) c b (inr (s, k)) = absurd s
loop_result-Safe n (returned (some e)) c b (inl h) =
    ended_or_running n c (any_cause is_closing e.chain || is_closeable e) h
loop_result-Safe n (returned (some e)) c b (inr (s, k)) = rw s k

handshaken-Safe : (e : Option Failure) → Safe (handshaken e)
handshaken-Safe none = (omega arith, tt)
handshaken-Safe (some e) = tt

maybe_handshake_tls-Safe : (t : Option (World → Option Failure)) → Safe (maybe_handshake_tls t)
maybe_handshake_tls-Safe none = (omega arith, tt)
maybe_handshake_tls-Safe (some handshake) = handshaken-Safe (handshake [])

start_if :
    (l : Loop) (close : Bool)
    → Safe l
    → Safe (if close then ended (record { secure = false; world = [] }) else l)
start_if l true h = tt
start_if l false h = h

abbrev IsDeadline : Event → Type 0
IsDeadline (read_deadline t) = Unit
IsDeadline e = ⊥

-- Only deadlines for reading have been set.
abbrev pub Waits : World → World → Type 0
Waits w w' = (es : List Event) × (w' ≡ es ++ w) × All IsDeadline es

-- Then at most one request has been read.
abbrev pub Reads : World → World → Type 0
Reads w w' = Waits w w' ⊎ ((req : Request) × (v : World) × Waits w v × (w' ≡ request_read req ∷ v))

Waits-deadline : (t : Option ℕ) (w w' : World) → Waits (read_deadline t ∷ w) w' → Waits w w'
Waits-deadline t w w' (es, q, h) = (
  es ++ (read_deadline t ∷ []),
  q ∙ sym (append_assoc es _ w),
  All-append IsDeadline es _ h (tt, tt),
)

deadline_if :
    (t : Option ℕ) (w : World) (same : Bool) → Waits w (if same then w else read_deadline t ∷ w)
deadline_if t w true = ([], refl, tt)
deadline_if t w false = (read_deadline t ∷ [], refl, (tt, tt))

module _ (p : Proxy) (out : Outside) where
  loop_step-Safe : (l : Loop) → Safe l → Safe (loop_step p out l)
  unfolding loop_step
  loop_step-Safe (ended c) h = h
  loop_step-Safe (running n c) (b, r) =
      let k = handle p out c in loop_result-Safe n k.0 k.1 b (Final-handle p out c r)

  loop_steps-Safe : (k : ℕ) (l : Loop) → Safe l → Safe (loop_steps p out k l)
  unfolding loop_steps
  loop_steps-Safe zero l h = h
  loop_steps-Safe (suc k) l h = loop_steps-Safe k (loop_step p out l) (loop_step-Safe l h)

  start-Safe : Safe (start p out)
  unfolding start
  start-Safe = start_if _ (out.closing []) (maybe_handshake_tls-Safe out.accepted_tls)

  -- After any number of rounds of the loop of a connection, whatever the peers, the modifiers and the clock do: a request went
  -- upstream only after the request modifier accepted it, each request was answered at most once and after the modifier's verdict, a tunnel
  -- was run only after the answer, and a request was read only after the one before it was answered. As long as the
  -- loop runs, every request that was read has its answer, and fewer than five errors came in a row.
  pub start-Safe_always : (k : ℕ) → Safe (loop_steps p out k (start p out))
  start-Safe_always k = loop_steps-Safe k (start p out) start-Safe

  closing_request :
      (w : World) (req : Request)
      → out.closing w ≡ true
      → handle_request p out w req ≡ (returned (some err_close), false, w)
  unfolding handle_request
  closing_request w req h = rw h

  adjusted-Waits : (hdr whole : Option ℕ) (w : World) → Waits w (adjusted p out hdr whole w)
  adjusted-Waits hdr whole w = deadline_if whole w (same_deadline hdr whole)

  header_read-Waits :
      (s : Bool) (t0 : ℕ) (w : World) (r : Result Failure Request)
      → Waits w (header_read p out s t0 w r).1
  header_read-Waits s t0 w (err e) = ([], refl, tt)
  header_read-Waits s t0 w (ok req) =
      adjusted-Waits (deadline t0 (read_header_timeout p)) (deadline t0 p.read_time) w

  peeked-Waits : (s : Bool) (w : World) (r : Result Failure ℕ) → Waits w (peeked p out s w r).1
  peeked-Waits s w (err e) = ([], refl, tt)
  peeked-Waits s w (ok b) = Waits-deadline _ w _ (header_read-Waits s (out.now w) _ _)

  read_request-Waits : (s : Bool) (w : World) → Waits w (read_request p out s w).1
  unfolding read_request
  read_request-Waits s w = Waits-deadline _ w _ (peeked-Waits s _ _)

  handle-closing :
      (c : Conn) (r : Result Failure Request) (w : World)
      → ((v : World) → out.closing v ≡ true)
      → Waits c.world w
      → (f : Conn) × (after_read p out c (r, w) ≡ (returned (some err_close), f))
        × Reads c.world f.world
  handle-closing c (err e) w h k = (_, refl, inl k)
  handle-closing c (ok req) w h k = (
    record { secure = c.secure || false; world = request_read req ∷ w },
    rw (closing_request (request_read req ∷ w) req (h _)),
    inr (req, w, k, refl),
  )

  -- Once the proxy is closing, the loop of a connection ends in its next round: at most one request is read in it, and no modifier sees that
  -- request, nothing goes upstream and nothing is written.
  pub loop_step-closing :
      (n : ℕ) (c : Conn)
      → ((w : World) → out.closing w ≡ true)
      → (f : Conn) × (loop_step p out (running n c) ≡ ended f) × Reads c.world f.world
  unfolding loop_step handle
  loop_step-closing n c h =
      let r = read_request p out c.secure c.world in
      let (f, q, k) = handle-closing c r.0 r.1 h (read_request-Waits c.secure c.world) in
      (f, rw q, k)
