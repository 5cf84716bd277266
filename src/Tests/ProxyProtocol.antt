-- ===== src/Tests/ProxyProtocol.antt =====
-- proxyproto/ at concrete connections.
use forwarder.Base.{
  ℕ, zero, suc, length, length-append, none, List, ◌≡◌, ◌≢◌, refl, ◌++◌, Option, some, [], ◌∷◌,
  Bytes, codes, ok, err, arith,
}
use forwarder.Base.Int.{pos}
use forwarder.Base.Decimal.{atoi}
use forwarder.ProxyProto.Conn.{Call, remote_addr, read, accept, run_calls}
use forwarder.ProxyProto.Conn.Payload.{Payload, got, run_calls-Payload}
use forwarder.ProxyProto.V2.{ipv4}
use forwarder.ProxyProto.Read.{read_header}
use forwarder.ProxyProto.Read.Prefix.{behind, read_header-behind}
use forwarder.ProxyProto.Read.Framing.{frame}
use forwarder.ProxyProto.Read.RoundTrip.{
  stream, Quad, quad, body4, addr, proxied, read_header-body4,
}
use forwarder.ProxyProto.Read.TextRoundTrip.{tcp4, text_header, read_header-fields}
use forwarder.ProxyProto.Tlv.Loop.{tlv, parse_tlvs-ne-out_of_fuel, parse_tlvs_third_lost}
use forwarder.ProxyProto.Tlv.{parse_tlvs, set_tlv, out_of_fuel}

-- A reader of addresses for the tests: every text stands for itself.
abbrev any_ip : Bytes → Option Bytes
any_ip b = some b

abbrev local : Quad
local = record { a = 127; b = 0; c = 0; d = 1 }

abbrev remote : Quad
remote = record { a = 10; b = 1; c = 2; d = 3 }

abbrev request : Bytes
request = codes "GET / HTTP/1.1"

read_header-body4_example :
    read_header any_ip (frame 1 0x11 (body4 remote local 4711 80 (codes "t")) ++ request)
    ≡ ok (
      proxied
          (addr stream (ipv4 (quad remote)) 4711)
          (addr stream (ipv4 (quad local)) 80)
          (codes "t"),
      request,
    )
read_header-body4_example =
    read_header-body4 any_ip stream remote local 4711 80 (codes "t") request (omega arith)

read_header-fields_example :
    read_header any_ip (codes "PROXY TCP4 10.1.2.3 10.1.2.4 4711 80\r\n" ++ request)
    ≡ ok (text_header (codes "10.1.2.3") (pos 4711) (codes "10.1.2.4") (pos 80), request)
unfolding atoi
read_header-fields_example =
    read_header-fields any_ip tcp4 (codes "10.1.2.3") (codes "10.1.2.4") (codes "4711") (codes "80")
      (codes "10.1.2.3") (codes "10.1.2.4") request (pos 4711) (pos 80) refl (omega arith)
      (omega arith) (refl, refl, refl, refl) refl refl refl refl

-- A number of bytes.
abbrev no_header : ℕ → Bytes
no_header zero = []
no_header (suc n) = b'G' ∷ no_header n

length-no_header : (n : ℕ) → length (no_header n) ≡ n
length-no_header zero = refl
length-no_header (suc n) = let e = length-no_header n in omega arith

-- A line that never ends.
abbrev endless : Bytes
endless = codes "PROXY UNKNOWN" ++ no_header 2064

read_header-behind_example :
    read_header any_ip (endless ++ request) ≡ behind request (read_header any_ip endless)
read_header-behind_example =
    read_header-behind any_ip endless request
      (omega (arith, length-no_header 2064, length-append (codes "PROXY UNKNOWN") (no_header 2064)))

parse_tlvs-ne-out_of_fuel_example : parse_tlvs (codes "abc") ≢ err out_of_fuel
parse_tlvs-ne-out_of_fuel_example = parse_tlvs-ne-out_of_fuel (codes "abc")

parse_tlvs_third_lost_example :
    parse_tlvs (tlv 1 (codes "h2") ++ (tlv 2 (codes "host") ++ tlv 5 (codes "id")))
    ≡ ok ((1, codes "h2") ∷ (2, codes "host") ∷ [])
unfolding set_tlv
parse_tlvs_third_lost_example =
    parse_tlvs_third_lost 1 (codes "h2") 2 (codes "host") 5 (codes "id") (omega arith)

-- The addresses of a connection are asked for, then it is read twice.
abbrev some_calls : List Call
some_calls =
    record { method = remote_addr; left = none; arrival = 3 }
    ∷ record { method = read 1; left = none; arrival = 0 }
    ∷ record { method = read 5; left = none; arrival = 0 }
    ∷ []

abbrev unknown_client : Bytes
unknown_client = codes "PROXY UNKNOWN" ++ (13 ∷ 10 ∷ codes "GET /")

run_calls-Payload_example :
    let (answers, c) = run_calls (λ s. none) (accept (pos 9) unknown_client) some_calls in
    Payload (λ s. none) unknown_client c.header_state (got answers) c.stream
run_calls-Payload_example = run_calls-Payload (λ s. none) unknown_client (pos 9) some_calls
