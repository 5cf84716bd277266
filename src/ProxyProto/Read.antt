-- ===== src/ProxyProto/Read.antt =====
-- proxyproto/proxy.go, `ReadHeader`.
pub mod Framing
pub mod Lines
pub mod Bounds
pub mod Prefix
pub mod RoundTrip
pub mod TextRoundTrip
use forwarder.Base.{Option, Bytes, Result, err, ◌>>=◌, has_prefix, if◌then◌else◌}
use forwarder.ProxyProto.Header.{
  Header, ReadError, short_identifier, not_proxy_protocol, read_full, v1_identifier, v2_identifier,
}
use forwarder.ProxyProto.V1.{read_v1_header}
use forwarder.ProxyProto.V2.{read_v2_header}

-- The header at the front of a connection, with the bytes that follow it. What a read took that fails is not kept: its connection
-- gives no bytes any more (Conn).
unfoldable pub read_header : (Bytes → Option Bytes) → Bytes → Result ReadError (Header × Bytes)
unfolding read_full
read_header parse_ip r = read_full short_identifier 13 r >>= λ m.
    if has_prefix m.0 v2_identifier
    then read_v2_header m.0 m.1
    else if has_prefix m.0 v1_identifier
    then read_v1_header parse_ip m.0 m.1
    else err not_proxy_protocol
