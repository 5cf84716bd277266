-- ===== src/ProxyProto/Read/RoundTrip.antt =====
-- proxyproto/v2.go: what a sender writes for a proxied connection is what the reader finds.
use forwarder.Base.{
  ℕ, ◌+◌, ◌/◌, ◌%◌, ◌≤◌, ◌≡◌, refl, ◌∙◌, true, false, Option, some, [], ◌∷◌, ◌++◌, Bytes, ok,
  length, length-append, arith, le→ltb, ltb, ◌==◌, take, drop, get_or, get_or-append_at,
  drop-append_past, take-append_at, ◌||◌,
}
use forwarder.Base.Int.{pos}
use forwarder.ProxyProto.Header.{Addr, tcp_addr, udp_addr, Header, be16-div-mod}
use forwarder.ProxyProto.V2.{v2_command, proxy_addresses, ipv4, address}
use forwarder.ProxyProto.Read.{read_header}
use forwarder.ProxyProto.Read.Framing.{frame, read_header-frame}

-- The two transports of the protocol, as the low half of the family byte.
pub data Transport : Type 0 where
  stream dgram : Transport

abbrev pub transport_code : Transport → ℕ
transport_code stream = 1
transport_code dgram = 2

abbrev pub addr : Transport → Bytes → ℕ → Addr
addr stream ip port = tcp_addr ip (pos port)
addr dgram ip port = udp_addr ip (pos port)

abbrev pub port_bytes : ℕ → Bytes
port_bytes p = (p / 256) ∷ (p % 256) ∷ []

pub record Quad : Type 0 where
  pub a : ℕ
  pub b : ℕ
  pub c : ℕ
  pub d : ℕ

abbrev pub quad : Quad → Bytes
quad q = q.a ∷ q.b ∷ q.c ∷ q.d ∷ []

-- The body of a header for two IPv4 endpoints, and what stands behind it.
abbrev pub body4 : Quad → Quad → ℕ → ℕ → Bytes → Bytes
body4 s d sp dp tlvs = quad s ++ (quad d ++ (port_bytes sp ++ (port_bytes dp ++ tlvs)))

abbrev pub body6 : Bytes → Bytes → ℕ → ℕ → Bytes → Bytes
body6 s d sp dp tlvs = s ++ (d ++ (port_bytes sp ++ (port_bytes dp ++ tlvs)))

abbrev pub proxied : Addr → Addr → Bytes → Header
proxied s d tlvs = record {
  source = some s;
  destination = some d;
  is_local = false;
  version = 2;
  raw_tlvs = tlvs;
  unknown = [];
}

v2_command-body4 :
    (t : Transport) (s d : Quad) (sp dp : ℕ) (tlvs : Bytes)
    → v2_command 1 (0x10 + transport_code t) (body4 s d sp dp tlvs)
      ≡ ok (proxied (addr t (ipv4 (quad s)) sp) (addr t (ipv4 (quad d)) dp) tlvs)
unfolding v2_command
v2_command-body4 stream s d sp dp tlvs = ground arith
v2_command-body4 dgram s d sp dp tlvs = ground arith

-- A header for two IPv4 endpoints with at most 2036 bytes of TLVs is read back whole, the TLVs behind the
-- addresses included.
pub read_header-body4 :
    (parse_ip : Bytes → Option Bytes) (t : Transport) (s d : Quad) (sp dp : ℕ) (tlvs rest : Bytes)
    → length tlvs ≤ 2036
    → read_header parse_ip (frame 1 (0x10 + transport_code t) (body4 s d sp dp tlvs) ++ rest)
      ≡ ok (proxied (addr t (ipv4 (quad s)) sp) (addr t (ipv4 (quad d)) dp) tlvs, rest)
read_header-body4 parse_ip t s d sp dp tlvs rest h =
    read_header-frame parse_ip 1 _ (body4 s d sp dp tlvs) rest (omega arith) (omega arith)
    ∙ rw (v2_command-body4 t s d sp dp tlvs)

module _ (s d : Bytes) (sp dp : ℕ) (tlvs : Bytes) (hs : length s ≡ 16) (hd : length d ≡ 16) where
  ports6 : Bytes
  ports6 = port_bytes sp ++ (port_bytes dp ++ tlvs)

  -- The numbers behind the 32 bytes of addresses.
  byte_at-body6 : (n i : ℕ) → n ≡ 32 + i → get_or (s ++ (d ++ ports6)) n 0 ≡ get_or ports6 i 0
  byte_at-body6 n i h =
      get_or-append_at s (d ++ ports6) n (16 + i) 0 (omega arith)
      ∙ get_or-append_at d ports6 (16 + i) i 0 (omega arith)

  drop-body6 : (n i : ℕ) → n ≡ 32 + i → drop n (s ++ (d ++ ports6)) ≡ drop i ports6
  drop-body6 n i h =
      drop-append_past s (d ++ ports6) n (16 + i) (omega arith)
      ∙ drop-append_past d ports6 (16 + i) i (omega arith)

  drop_d : drop 16 (s ++ (d ++ ports6)) ≡ d ++ ports6
  drop_d = drop-append_past s (d ++ ports6) 16 0 (omega arith)

  take_s : take 16 (s ++ (d ++ ports6)) ≡ s
  take_s = take-append_at s (d ++ ports6) 16 (omega arith)

  take_d : take 16 (d ++ ports6) ≡ d
  take_d = take-append_at d ports6 16 (omega arith)

  ltb-body6 : ltb (length (s ++ (d ++ ports6))) 36 ≡ false
  unfolding ports6
  ltb-body6 = le→ltb _ 36 (omega (arith, length-append s (d ++ ports6), length-append d ports6))

  length-body6 : length (s ++ (d ++ ports6)) ≡ 36 + length tlvs
  unfolding ports6
  length-body6 = omega (arith, length-append s (d ++ ports6), length-append d ports6)

  nonempty6 : (length (s ++ (d ++ ports6)) == 0) ≡ false
  nonempty6 = ground (arith, length-body6)

  proxy_addresses-body6 :
      (family : ℕ)
      → (family == 0x21 || family == 0x22) ≡ true
      → (family == 0x11 || family == 0x12) ≡ false
      → proxy_addresses family (s ++ (d ++ ports6))
        ≡ ok (some (address family s sp, address family d dp), 36)
  unfolding proxy_addresses ports6
  proxy_addresses-body6 family six not_four = rw (
    not_four,
    six,
    ltb-body6,
    drop_d,
    take_s,
    take_d,
    byte_at-body6 32 0 (omega arith),
    byte_at-body6 33 1 (omega arith),
    byte_at-body6 34 2 (omega arith),
    byte_at-body6 35 3 (omega arith),
    be16-div-mod sp,
    be16-div-mod dp,
  )

  v2_command-body6 :
      (t : Transport)
      → v2_command 1 (0x20 + transport_code t) (body6 s d sp dp tlvs)
        ≡ ok (proxied (addr t s sp) (addr t d dp) tlvs)
  unfolding v2_command ports6
  v2_command-body6 stream =
      rw (nonempty6, proxy_addresses-body6 0x21 refl refl, drop-body6 36 4 (omega arith))
  v2_command-body6 dgram =
      rw (nonempty6, proxy_addresses-body6 0x22 refl refl, drop-body6 36 4 (omega arith))

  -- A header for two IPv6 endpoints is read back whole, the TLVs behind the addresses included.
  pub read_header-body6 :
      (parse_ip : Bytes → Option Bytes) (t : Transport) (rest : Bytes)
      → length tlvs ≤ 2012
      → read_header parse_ip (frame 1 (0x20 + transport_code t) (body6 s d sp dp tlvs) ++ rest)
        ≡ ok (proxied (addr t s sp) (addr t d dp) tlvs, rest)
  unfolding ports6
  read_header-body6 parse_ip t rest h =
      read_header-frame parse_ip 1 _ (body6 s d sp dp tlvs) rest (omega arith)
        (omega (arith, length-body6))
      ∙ rw (v2_command-body6 t)
