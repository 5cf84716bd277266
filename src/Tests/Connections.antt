-- ===== src/Tests/Connections.antt =====
-- internal/martian at a concrete proxy: connections, their goroutines, responses that are flushed and gRPC messages.
use forwarder.Base.{
  ℕ, ◌≡◌, ◌↔◌, refl, Bool, true, false, Option, none, some, List, [], ◌∷◌, ◌++◌, Bytes, codes,
  length, ltb, ok, err, if◌then◌else◌, arith,
}
use forwarder.Base.Int.{pos}
use forwarder.H2.Grpc.Frames.{adapter_at, marks}
use forwarder.H2.Grpc.Stream.{feed, feed-emitted}
use forwarder.H2.Grpc.{identity, reading_metadata, Encoding, emitter_message}
use forwarder.Http.Message.{Request}
use forwarder.Martian.Conn.Loop.{running, ended, loop_step, loop_steps, start}
use forwarder.Martian.Conn.Read.{Conn}
use forwarder.Martian.Conn.Rounds.{Safe, Reads, start-Safe_always, loop_step-closing}
use forwarder.Martian.Events.{phase}
use forwarder.Martian.Failure.{Failure, eof}
use forwarder.Martian.Flush.Pattern.{write_flushes_iff, writes, EndsIn}
use forwarder.Martian.Flush.{write, new_pattern_flush_writer}
use forwarder.Martian.Handler.{serve_http}
use forwarder.Martian.Handler.Conforms.{Answered, serve_http-Answered}
use forwarder.Martian.Proxy.{Proxy, Outside, new_response}
use forwarder.Martian.Serve.Counting.{Sound}
use forwarder.Martian.Serve.Drained.{steps-Sound}
use forwarder.Martian.Serve.Progress.{ways, ways_drain}
use forwarder.Martian.Serve.{
  State, Action, look, accept, register, check, finish, hang_up, release, delete, begin_shutdown,
  poll, initial, steps, step, move,
}

abbrev asking : Request
asking = record {
  method = codes "GET";
  proto_major = 1;
  proto_minor = 1;
  header = [];
  host = codes "c.example";
  remote_addr = [];
  scheme = codes "http";
  hostname = codes "c.example";
  url = codes "/";
  url_host = codes "c.example";
  content_length = pos 0;
  tls = false;
  close = false;
}

abbrev at_end : Failure
at_end = record { text = codes "EOF"; chain = eof ∷ [] }

-- A proxy without options.
abbrev plain_proxy : Proxy
plain_proxy = record {
  request_modifier = none;
  response_modifier = none;
  proxy_url = none;
  connect_func = none;
  error_page = none;
  mitm = false;
  mitm_filter = none;
  allow_http = false;
  without_warning = false;
  testing_skip_round_trip = false;
  idle_time = pos 1000;
  read_time = pos 0;
  read_header_time = pos 10;
  write_time = pos 5;
}

-- A client that sends requests until something has been answered, and an upstream that answers with 200.
abbrev outside : Bool → Outside
outside closing = record {
  now = length;
  closing = λ w. closing;
  remote_addr = codes "10.0.0.2:5";
  accepted_tls = none;
  peek = λ w. ok 71;
  read_http = λ w. if ltb (length w) 9 then ok asking else err at_end;
  transport = λ w req. ok (new_response (λ n. codes "OK") 200 req);
  dial = λ w h. none;
  dial_http = λ w u h k. record { res = none; conn = false; error = some at_end };
  dial_socks = λ w u h. none;
  upstream_tls = λ w. none;
  client_tls = λ w req. ok (codes "h2");
  h2_session = λ w req. none;
  write_error = λ w. none;
  flush_error = λ w. none;
  drain_error = λ w. none;
  can_flush = true;
  copy_error = λ w. none;
  hijack_error = λ w. none;
  body_trailer = λ w res. [];
  contains_token = λ vs t. false;
  parse_media_type = λ s. s;
  status_text = λ n. codes "OK";
  warning_text = λ w h e. e.text;
}

start-Safe_always_example :
    Safe (loop_steps plain_proxy (outside false) 3 (start plain_proxy (outside false)))
start-Safe_always_example = start-Safe_always plain_proxy (outside false) 3

abbrev fresh : Conn
fresh = record { secure = false; world = [] }

loop_step-closing_example :
    (f : Conn) × (loop_step plain_proxy (outside true) (running 0 fresh) ≡ ended f)
    × Reads fresh.world f.world
loop_step-closing_example = loop_step-closing plain_proxy (outside true) 0 fresh (λ w. refl)

-- A connection is served, and Shutdown waits for it.
abbrev a_run : List Action
a_run =
    look
    ∷ accept
    ∷ register 0
    ∷ check 0
    ∷ begin_shutdown
    ∷ finish 0
    ∷ hang_up 0
    ∷ release 0
    ∷ poll
    ∷ delete 0
    ∷ look
    ∷ []

abbrev final : State
final = record {
  serve = forwarder.Martian.Serve.Serving.stopped;
  delay = 0;
  closing = true;
  locked = false;
  conns = [];
  conns_wg = 0;
  workers = forwarder.Martian.Serve.Stage.gone ∷ [];
  shutdown = forwarder.Martian.Serve.Shutdown.drained;
  hung = [];
}

steps-Sound_example : Sound final
unfolding steps step move
steps-Sound_example = steps-Sound a_run final (omega arith) refl

abbrev no_codec : Encoding → Bytes → Option Bytes
no_codec e d = none

abbrev no_coder : Encoding → Bytes → Bytes
no_coder e d = d

-- Two messages in three frames, cut inside the header of the first one and inside the second one.
abbrev cut_frames : List Bytes
cut_frames = (0 ∷ 0 ∷ []) ∷ (0 ∷ 0 ∷ 2 ∷ 97 ∷ 98 ∷ 0 ∷ 0 ∷ 0 ∷ []) ∷ []

feed-emitted_example :
    (c : Bool) × (l : ℕ) × (feed no_codec no_coder
        (adapter_at identity reading_metadata [] false 0)
        cut_frames
        (0 ∷ 1 ∷ 99 ∷ [])
        true
      ≡ ok (adapter_at identity reading_metadata [] c l, marks true (codes "ab" ∷ codes "c" ∷ [])))
unfolding emitter_message
feed-emitted_example =
    feed-emitted no_codec no_coder identity false 0 cut_frames (0 ∷ 1 ∷ 99 ∷ []) true
      (codes "ab" ∷ codes "c" ∷ []) (omega arith, (omega arith, tt)) (omega arith) (omega arith)
      (omega arith, (omega arith, tt)) (omega arith) refl

write_flushes_iff_example :
    ((write {E = ℕ} none
        (writes (new_pattern_flush_writer (13, 10)) (codes "5" ∷ (104 ∷ 13 ∷ []) ∷ []))
        (10 ∷ 48 ∷ [])
        2
        none).flushed
      ≡ true)
    ↔ EndsIn 13 10 (codes "5" ++ (104 ∷ 13 ∷ [])) (10 ∷ 48 ∷ [])
write_flushes_iff_example =
    write_flushes_iff 13 10 (codes "5" ∷ (104 ∷ 13 ∷ []) ∷ []) (10 ∷ 48 ∷ []) (omega arith)
      (omega arith, (omega arith, tt)) (omega arith)

serve_http-Answered_example :
    let (s, writer) = serve_http plain_proxy (outside false) asking in
    Answered s (phase writer.world)
serve_http-Answered_example = serve_http-Answered plain_proxy (outside false) asking

-- Shutdown waits for a connection that is served and for one that has just registered.
abbrev waiting : State
waiting = record {
  serve = forwarder.Martian.Serve.Serving.accepting;
  delay = 0;
  closing = true;
  locked = true;
  conns = 1 ∷ 0 ∷ [];
  conns_wg = 2;
  workers = forwarder.Martian.Serve.Stage.serving ∷ forwarder.Martian.Serve.Stage.registered ∷ [];
  shutdown = forwarder.Martian.Serve.Shutdown.polling;
  hung = [];
}

ways_drain_example :
    (s : State) × (steps (ways 0 waiting.workers ++ (poll ∷ [])) waiting ≡ some s)
    × (s.shutdown ≡ forwarder.Martian.Serve.Shutdown.drained)
ways_drain_example = ways_drain waiting (omega arith, refl, tt) refl (omega arith)
