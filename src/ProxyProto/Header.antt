-- ===== src/ProxyProto/Header.antt =====
-- proxyproto/proxy.go: the header, and reading from the connection. A connection is the list of the
-- bytes that it will still give; a reader returns what it read with the bytes that are left.
use forwarder.Base.{
  ℕ, zero, suc, ◌+◌, ◌*◌, ◌/◌, ◌%◌, ◌≡◌, arith, Bool, Option, [], ◌∷◌, Bytes, codes, Result, ok,
  err, ◌>>=◌,
}
use forwarder.Base.Int.{ℤ}

-- `net.Addr`: the addresses are 16 bytes long, as `net.IP` holds them.
pub data Addr : Type 0 where
  tcp_addr : Bytes → ℤ → Addr
  udp_addr : Bytes → ℤ → Addr

pub record Header : Type 0 where
  pub source : Option Addr
  pub destination : Option Addr
  pub is_local : Bool
  pub version : ℕ
  pub raw_tlvs : Bytes
  pub unknown : Bytes

pub data ReadError : Type 0 where
  short_identifier short_length short_body short_tcp4 short_tcp6 : ReadError
  bad_version header_too_long zero_length short_ipv4 short_ipv6 unix_socket : ReadError
  no_more_bytes gave_up unrecognized_protocol corrupted not_proxy_protocol : ReadError
  invalid_ip invalid_port : ℕ → ReadError

-- `io.ReadFull` of `n` bytes, with the error that the caller wraps it in.
unfoldable pub read_full : ReadError → ℕ → Bytes → Result ReadError (Bytes × Bytes)
read_full e zero r = ok ([], r)
read_full e (suc n) [] = err e
read_full e (suc n) (c ∷ r) = read_full e n r >>= λ p. ok (c ∷ p.0, p.1)

-- `binary.BigEndian.Uint16` of two bytes.
abbrev pub be16 : ℕ → ℕ → ℕ
be16 hi lo = hi * 256 + lo

pub be16-div-mod : (n : ℕ) → be16 (n / 256) (n % 256) ≡ n
be16-div-mod n = omega arith

abbrev pub v1_identifier : Bytes
v1_identifier = codes "PROXY "

-- "\r\n\r\n\x00\r\nQUIT\n"
abbrev pub v2_identifier : Bytes
v2_identifier = 13 ∷ 10 ∷ 13 ∷ 10 ∷ 0 ∷ 13 ∷ 10 ∷ b'Q' ∷ b'U' ∷ b'I' ∷ b'T' ∷ 10 ∷ []
