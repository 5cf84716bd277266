-- ===== src/Martian/Conn/Write.antt =====
-- internal/martian/proxy_conn.go: the writing of responses, and tunnels.
use forwarder.Base.{
  ◌/◌, Bool, true, false, ◌&&◌, ◌||◌, Option, none, some, [], ◌∷◌, Bytes, codes, beq, ◌==◌,
  if◌then◌else◌,
}
use forwarder.Http.Headers.{add_header}
use forwarder.Http.Message.{Request, Response}
use forwarder.Martian.Conn.Read.{deadline}
use forwarder.Martian.Events.{
  write_deadline, wrote, Way, connect_ok, header_only, event_stream, chunked, plain, flushed,
  drained, copied, World,
}
use forwarder.Martian.Failure.{Failure, err_close, maybe_connect_error_response}
use forwarder.Martian.Flush.{is_header_only_spec, should_chunk, is_text_event_stream}
use forwarder.Martian.Proxy.{
  Proxy, Outside, is_positive, modify_response, error_response, upgrade_type, warned,
}

-- A CONNECT request that succeeded.
abbrev pub connected : Response → Bool
connected res = beq res.request.method (codes "CONNECT") && (res.status_code / 100 == 2)

-- Whether the connection is closed after the response.
abbrev pub closes : Bool → Response → Bool
closes closing res =
    if closing then true else if connected res then false else res.close || res.request.close

-- The response that is written, with its `Connection` header.
abbrev pub closed : Bool → Response → Response
closed close res =
    if close
    then record res {
      close = true;
      header = add_header (codes "Connection") (codes "close") res.header;
    }
    else record res { close = false }

-- The `switch` of `writeResponse`.
abbrev pub way_of : (Bytes → Bytes) → Response → Way
way_of media res =
    if connected res
    then connect_ok
    else if is_header_only_spec res
    then header_only
    else if is_text_event_stream media res
    then event_stream
    else if should_chunk res
    then chunked
    else plain

-- The first of two errors.
abbrev first_of : Option Failure → Option Failure → Option Failure
first_of none f = f
first_of (some e) f = some e

abbrev pub verdict : Option Failure → Bool → Option Failure
verdict (some e) close = some err_close
verdict none close = if close then some err_close else none

module _ (p : Proxy) (out : Outside) where
  abbrev pub write_started : World → World
  write_started w =
      if is_positive p.write_time then write_deadline (deadline (out.now w) p.write_time) ∷ w else w

  abbrev pub write_ended : World → World
  write_ended w = if is_positive p.write_time then write_deadline none ∷ w else w

  -- The write and the flush, with the error of the first of them that failed.
  abbrev put : World → Response → Option Failure × World
  put w res =
      let w' = wrote (way_of out.parse_media_type res) res ∷ w in
      (first_of (out.write_error w') (out.flush_error (flushed ∷ w')), flushed ∷ w')

  -- `writeResponse`
  unfoldable pub write_response : World → Response → Option Failure × World
  write_response w res =
      let w' = write_started w in
      let close = closes (out.closing w') res in
      let (e, w'') = put w' (closed close res) in (verdict e close, write_ended w'')

  -- The response of a failed CONNECT to an upstream proxy, or an error page.
  abbrev pub chosen_response : World → Request → Failure → Response
  chosen_response w req e = elim (maybe_connect_error_response e.chain) [
    | some res ↦ res
    | none ↦ error_response p out w req e
  ]

  -- The warning about a response modifier that failed.
  abbrev pub with_warning : World → Option Failure → Response → Response
  with_warning w none res = res
  with_warning w (some e) res = if p.without_warning then res else warned p out w e res

  -- `writeErrorResponse`
  unfoldable pub write_error_response : World → Request → Failure → Option Failure × World
  write_error_response w req e =
      let (e', res, w') = modify_response p out w (chosen_response w req e) in
      write_response w' (with_warning w' e' res)

  -- The part of `tunnel` after the response, with `drainBuffer` and `bicopy`.
  unfoldable pub run_tunnel : Bytes → World → Option Failure × World
  run_tunnel name w = elim (out.drain_error w) [
    | some e ↦ (some e, w)
    | none ↦ (none, copied name ∷ (drained ∷ w))
  ]

  -- `tunnel`
  unfoldable pub tunnel : Bytes → World → Response → Option Failure × World
  tunnel name w res =
      let (e, w') = write_response w res in
      elim e [ some e' ↦ (some e', w') | none ↦ run_tunnel name w' ]

  -- `handleUpgradeResponse`
  unfoldable pub handle_upgrade_response : World → Response → Option Failure × World
  handle_upgrade_response w res =
      if res.writable
      then (some err_close, (tunnel (upgrade_type p out res.header) w (record res { body = [] })).1)
      else (some err_close, w)
