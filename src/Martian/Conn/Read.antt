-- ===== src/Martian/Conn/Read.antt =====
-- internal/martian/proxy_conn.go: the reading of a request. Times are numbers of nanoseconds.
use forwarder.Base.{
  ℕ, zero, suc, ◌+◌, Bool, true, false, Option, none, some, ◌∷◌, ◌==◌, if◌then◌else◌, Result, ok,
  err,
}
use forwarder.Base.Int.{ℤ, pos, negsuc}
use forwarder.Http.Message.{Request}
use forwarder.Martian.Connect.{fix_connect_req_content_length}
use forwarder.Martian.Events.{read_deadline, World}
use forwarder.Martian.Failure.{Failure}
use forwarder.Martian.Proxy.{Proxy, Outside, idle_timeout, read_header_timeout}

-- `proxyConn`: whether TLS has been negotiated, and what has happened on the connection.
pub record Conn : Type 0 where
  pub secure : Bool
  pub world : World

-- A deadline some time after `t0`, or none.
abbrev pub deadline : ℕ → ℤ → Option ℕ
deadline t0 (pos zero) = none
deadline t0 (pos (suc n)) = some (t0 + suc n)
deadline t0 (negsuc n) = none

abbrev pub same_deadline : Option ℕ → Option ℕ → Bool
same_deadline none none = true
same_deadline (some a) (some b) = a == b
same_deadline none (some b) = false
same_deadline (some a) none = false

module _ (p : Proxy) (out : Outside) where
  abbrev pub adjusted : Option ℕ → Option ℕ → World → World
  adjusted hdr whole w = if same_deadline hdr whole then w else read_deadline whole ∷ w

  -- `readRequest` after the header was read or could not be.
  abbrev pub header_read :
      Bool → ℕ → World → Result Failure Request → Result Failure Request × World
  header_read secure t0 w (err e) = (err e, w)
  header_read secure t0 w (ok req) = (
    ok (record (fix_connect_req_content_length req) { tls = secure }),
    adjusted (deadline t0 (read_header_timeout p)) (deadline t0 p.read_time) w,
  )

  -- The part of `readRequest` after the connection became readable.
  abbrev pub read_head : Bool → World → Result Failure Request × World
  read_head secure w =
      let w' : World = read_deadline (deadline (out.now w) (read_header_timeout p)) ∷ w in
      header_read secure (out.now w) w' (out.read_http w')

  abbrev pub peeked : Bool → World → Result Failure ℕ → Result Failure Request × World
  peeked secure w (err e) = (err e, w)
  peeked secure w (ok b) = read_head secure w

  -- `readRequest`
  unfoldable pub read_request : Bool → World → Result Failure Request × World
  read_request secure w =
      let w' : World = read_deadline (deadline (out.now w) (idle_timeout p)) ∷ w in
      peeked secure w' (out.peek w')
