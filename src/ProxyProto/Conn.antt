-- ===== src/ProxyProto/Conn.antt =====
-- proxyproto/net.go: a connection that reads the PROXY protocol header before anything else. Calls are one step each, as `headerMu`
-- makes the reading of the header. Times are numbers of nanoseconds.
pub mod Payload
use forwarder.Base.{
  ℕ, zero, suc, Bool, true, false, Option, none, some, List, [], ◌∷◌, ◌++◌, Bytes, ltb, take, drop,
  Result, ok, err, if◌then◌else◌,
}
use forwarder.Base.Int.{ℤ, pos, negsuc}
use forwarder.ProxyProto.Header.{Header, Addr, ReadError}
use forwarder.ProxyProto.Read.{read_header}

pub data ConnError : Type 0 where
  header_timeout : ConnError
  no_header : ReadError → ConnError

-- `isHeaderRead`, `header` and `headerErr`.
pub data HeaderState : Type 0 where
  not_read : HeaderState
  have_header : Header → HeaderState
  have_error : ConnError → HeaderState

-- `Conn`: the bytes that the connection below will still give, and whether it was closed.
pub record Conn : Type 0 where
  pub read_header_timeout : ℤ
  pub header_state : HeaderState
  pub stream : Bytes
  pub hung_up : Bool

-- `Listener.Accept` with a connection that will give some bytes.
abbrev pub accept : ℤ → Bytes → Conn
accept timeout s = record {
  read_header_timeout = timeout;
  header_state = not_read;
  stream = s;
  hung_up = false;
}

pub data Method : Type 0 where
  local_addr remote_addr : Method
  read : ℕ → Method
  write read_from write_to get_header : Method

-- A call, with the time that its context leaves, if there is a limit, and the time until the bytes of a header have come.
pub record Call : Type 0 where
  pub method : Method
  pub left : Option ℤ
  pub arrival : ℕ

-- What a call returns: a failure, an address of the header or of the connection below, bytes, the header, or what a call of
-- the connection below returns.
pub data Answer : Type 0 where
  failed : ConnError → Answer
  from_header : Option Addr → Answer
  from_below : Answer
  bytes : Bytes → Answer
  the_header : Header → Answer

abbrev less : ℤ → ℤ → Bool
less (pos a) (pos b) = ltb a b
less (pos a) (negsuc b) = false
less (negsuc a) (pos b) = true
less (negsuc a) (negsuc b) = ltb b a

-- The time limit of the reading: of the context, or of the connection when that is shorter.
abbrev pub limit : ℤ → Option ℤ → Option ℤ
limit (pos (suc n)) none = some (pos (suc n))
limit (pos (suc n)) (some d) = if less (pos (suc n)) d then some (pos (suc n)) else some d
limit timeout left = left

-- Whether the context is done before the header has come.
abbrev pub is_late : Option ℤ → ℕ → Bool
is_late none arrival = false
is_late (some (pos n)) arrival = ltb n arrival
is_late (some (negsuc n)) arrival = true

module _ (parse_ip : Bytes → Option Bytes) where
  abbrev pub received : Conn → Result ReadError (Header × Bytes) → Conn
  received c (ok (h, rest)) = record c { header_state = have_header h; stream = rest }
  received c (err e) = record c { header_state = have_error (no_header e) }

  -- The `select`: the connection is closed when the header comes too late.
  abbrev pub selected : Bool → Conn → Conn
  selected true c = record c { header_state = have_error header_timeout; hung_up = true }
  selected false c = received c (read_header parse_ip c.stream)

  -- `readHeaderContext`
  unfoldable pub read_header_context : HeaderState → Conn → Call → Conn
  read_header_context not_read c call =
      selected (is_late (limit c.read_header_timeout call.left) call.arrival) c
  read_header_context s c call = c

  -- A method, when the header was read.
  abbrev pub with_header : Header → Method → Conn → Answer × Conn
  with_header h local_addr c = (if h.is_local then from_below else from_header h.destination, c)
  with_header h remote_addr c = (if h.is_local then from_below else from_header h.source, c)
  with_header h (read n) c = (bytes (take n c.stream), record c { stream = drop n c.stream })
  with_header h get_header c = (the_header h, c)
  with_header h write c = (from_below, c)
  with_header h read_from c = (from_below, c)
  with_header h write_to c = (bytes c.stream, record c { stream = [] })

  -- A method, when there is no header.
  abbrev pub without_header : ConnError → Method → Answer
  without_header e local_addr = from_below
  without_header e remote_addr = from_below
  without_header e m = failed e

  abbrev pub method_result : HeaderState → Method → Conn → Answer × Conn
  method_result not_read m c = (from_below, c)
  method_result (have_header h) m c = with_header h m c
  method_result (have_error e) m c = (without_header e m, c)

  -- A call of a method.
  unfoldable pub run_call : Conn → Call → Answer × Conn
  run_call c call =
      let c' = read_header_context c.header_state c call in
      method_result c'.header_state call.method c'

  -- Some calls, and what they return.
  unfoldable pub run_calls : Conn → List Call → List Answer × Conn
  run_calls c [] = ([], c)
  run_calls c (call ∷ calls) =
      let (a, c') = run_call c call in let (as', c'') = run_calls c' calls in (a ∷ as', c'')
