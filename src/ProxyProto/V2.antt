-- ===== src/ProxyProto/V2.antt =====
-- proxyproto/v2.go: the binary header.
use forwarder.Base.{
  ℕ, ◌/◌, ◌%◌, Bool, true, false, ◌||◌, not, Option, none, some, [], ◌∷◌, Bytes, Result, ok, err,
  ◌>>=◌, ltb, ◌==◌, if◌then◌else◌, length, take, drop, get_or,
}
use forwarder.Base.Int.{pos}
use forwarder.ProxyProto.Header.{
  Addr, tcp_addr, udp_addr, Header, ReadError, short_length, short_body, bad_version,
  header_too_long, zero_length, short_ipv4, short_ipv6, unix_socket, read_full, be16,
}

abbrev pub ipv4_address_len : ℕ
ipv4_address_len = 12

abbrev pub ipv6_address_len : ℕ
ipv6_address_len = 36

abbrev pub byte_at : Bytes → ℕ → ℕ
byte_at b i = get_or b i 0

-- `net.IPv4(a, b, c, d)`: the bytes of ::ffff:a.b.c.d.
abbrev pub ipv4 : Bytes → Bytes
ipv4 quad = 0 ∷ 0 ∷ 0 ∷ 0 ∷ 0 ∷ 0 ∷ 0 ∷ 0 ∷ 0 ∷ 0 ∷ 255 ∷ 255 ∷ quad

-- The address of the transport that the low half of the family byte names.
abbrev pub address : ℕ → Bytes → ℕ → Addr
address family ip port = if family % 16 == 2 then udp_addr ip (pos port) else tcp_addr ip (pos port)

abbrev pub Addresses : Type 0
Addresses = Option (Addr × Addr)

-- The switch over `buf[13]`: source and destination, if the family has them, and the offset at
-- which they end.
unfoldable pub proxy_addresses : ℕ → Bytes → Result ReadError (Addresses × ℕ)
proxy_addresses family tr =
    if family == 0x11 || family == 0x12
    then if ltb (length tr) ipv4_address_len
      then err short_ipv4
      else ok (
        some (
          address family (ipv4 (take 4 tr)) (be16 (byte_at tr 8) (byte_at tr 9)),
          address family (ipv4 (take 4 (drop 4 tr))) (be16 (byte_at tr 10) (byte_at tr 11)),
        ),
        ipv4_address_len,
      )
    else if family == 0x21 || family == 0x22
    then if ltb (length tr) ipv6_address_len
      then err short_ipv6
      else ok (
        some (
          address family (take 16 tr) (be16 (byte_at tr 32) (byte_at tr 33)),
          address family (take 16 (drop 16 tr)) (be16 (byte_at tr 34) (byte_at tr 35)),
        ),
        ipv6_address_len,
      )
    else if family == 0x31 || family == 0x32
    then err unix_socket
    else ok (none, 0)

abbrev pub source_of : Addresses → Option Addr
source_of none = none
source_of (some a) = some a.0

abbrev pub destination_of : Addresses → Option Addr
destination_of none = none
destination_of (some a) = some a.1

-- `Header{Version: 2}` with what the command set; the bytes behind the addresses are the TLVs.
abbrev pub v2_header : Bool → Addresses → Bytes → Header
v2_header is_local addresses tlvs = record {
  source = source_of addresses;
  destination = destination_of addresses;
  is_local = is_local;
  version = 2;
  raw_tlvs = tlvs;
  unknown = [];
}

-- The switch over `buf[12] & 0x0F`, on a trailing header `tr` (empty where the source has nil).
unfoldable pub v2_command : ℕ → ℕ → Bytes → Result ReadError Header
unfolding proxy_addresses
v2_command command family tr =
    if command == 0
    then ok (v2_header true none tr)
    else if command == 1
    then if length tr == 0
      then err zero_length
      else (proxy_addresses family tr >>= λ a. ok (v2_header false a.0 (drop a.1 tr)))
    else ok (v2_header false none tr)

-- `readV2Header`: the first 13 bytes are in `buf`. `buf[12] & 0xF0` is 0x20 for the bytes whose
-- high half is 2. With the UNIX socket error the source also returns the header, which its caller
-- drops.
unfoldable pub read_v2_header : Bytes → Bytes → Result ReadError (Header × Bytes)
unfolding read_full
read_v2_header buf r = read_full short_length 3 r >>= λ m.
    if not (byte_at buf 12 / 16 % 16 == 2)
    then err bad_version
    else let len = be16 (byte_at m.0 1) (byte_at m.0 2) in
      if ltb 2048 len
      then err header_too_long
      else read_full short_body len m.1 >>= λ t.
          v2_command (byte_at buf 12 % 16) (byte_at m.0 0) t.0 >>= λ h. ok (h, t.1)
