-- ===== src/ProxyProto/V1.antt =====
-- proxyproto/v1.go: the text header. `buf` of the source is here the list of the bytes read so far.
use forwarder.Base.{
  ℕ, zero, suc, ◌+◌, ◌-◌, Bool, true, false, ◌&&◌, Option, none, some, [], ◌∷◌, ◌++◌, Bytes, codes,
  beq, Result, ok, err, ◌>>=◌, ◌==◌, if◌then◌else◌, length, take, drop,
}
use forwarder.Base.Int.{ℤ, pos}
use forwarder.Base.Decimal.{atoi}
use forwarder.ProxyProto.Header.{
  tcp_addr, Header, ReadError, short_tcp4, short_tcp6, no_more_bytes, gave_up,
  unrecognized_protocol, corrupted, invalid_ip, invalid_port, read_full,
}

abbrev pub crlf : Bytes
crlf = b'\r' ∷ b'\n' ∷ []

-- The addresses as the callback of `parseV1Header` fills them in.
pub record Fields : Type 0 where
  pub src_ip : Bytes
  pub dest_ip : Bytes
  pub src_port : ℤ
  pub dest_port : ℤ
  pub done : Bool

abbrev pub no_fields : Fields
no_fields = record { src_ip = []; dest_ip = []; src_port = pos 0; dest_port = pos 0; done = false }

-- `split` with its callback, over the bytes of the field that has begun, `cur`.
unfoldable pub split :
    {S : Type 0} → (ℕ → Bytes → S → Result ReadError S) → ℕ → Bytes → Bytes → S → Result ReadError S
split fn n cur [] st = fn n cur st
split fn n cur (c ∷ buf) st = elim (c == b' ') [
  | true ↦ fn n cur st >>= λ st'. split fn (n + 1) [] buf st'
  | false ↦ split fn n (cur ++ c ∷ []) buf st
]

-- `net.ParseIP` is a parameter: it reads a text as an address, or not.
module _ (parse_ip : Bytes → Option Bytes) where
  -- The callback: the switch over the position.
  unfoldable pub field : ℕ → Bytes → Fields → Result ReadError Fields
  field zero buf f = elim (parse_ip buf) [
    | none ↦ err (invalid_ip 0)
    | some ip ↦ ok (record f { src_ip = ip })
  ]
  field (suc zero) buf f = elim (parse_ip buf) [
    | none ↦ err (invalid_ip 1)
    | some ip ↦ ok (record f { dest_ip = ip })
  ]
  field (suc (suc zero)) buf f = elim (atoi buf) [
    | none ↦ err (invalid_port 2)
    | some port ↦ ok (record f { src_port = port })
  ]
  field (suc (suc (suc zero))) buf f = elim (atoi buf) [
    | none ↦ err (invalid_port 3)
    | some port ↦ ok (record f { dest_port = port; done = true })
  ]
  field (suc (suc (suc (suc n)))) buf f = ok f

  unfoldable pub v1_header : Fields → Result ReadError Header
  v1_header f =
      if f.done
      then ok (record {
        source = some (tcp_addr f.src_ip f.src_port);
        destination = some (tcp_addr f.dest_ip f.dest_port);
        is_local = false;
        version = 1;
        raw_tlvs = [];
        unknown = [];
      })
      else err corrupted

  -- `parseV1Header`: the addresses begin behind the first 11 bytes.
  unfoldable pub parse_v1_header : Bytes → Result ReadError Header
  unfolding split field v1_header
  parse_v1_header buf = split field 0 [] (drop 11 buf) no_fields >>= v1_header

-- `buf[idx-1]`, the last byte read.
abbrev pub last_byte : Bytes → ℕ
last_byte [] = 0
last_byte (x ∷ []) = x
last_byte (x ∷ (y ∷ buf)) = last_byte (y ∷ buf)

-- `readUntilCRLF`: `n` is 107 - idx, the reads that are left.
unfoldable pub read_until_crlf : ℕ → Bytes → Bytes → Result ReadError (Bytes × Bytes)
read_until_crlf zero buf r = err gave_up
read_until_crlf (suc n) buf [] = err no_more_bytes
read_until_crlf (suc n) buf (c ∷ r) = elim (last_byte buf == b'\r' && c == b'\n') [
  | true ↦ ok (take (length buf - 1) buf, r)
  | false ↦ read_until_crlf n (buf ++ c ∷ []) r
]

module _ (parse_ip : Bytes → Option Bytes) where
  -- The rest of a line whose first `length buf` bytes are read, the optimistic read included.
  unfoldable pub read_v1_addresses : Bytes → Bytes → Result ReadError (Header × Bytes)
  read_v1_addresses buf r =
      let idx = length buf in
      if beq (drop (idx - 2) buf) crlf
      then (parse_v1_header parse_ip (take (idx - 2) buf) >>= λ h. ok (h, r))
      else (read_until_crlf (107 - idx) buf r >>= λ b.
          parse_v1_header parse_ip b.0 >>= λ h. ok (h, b.1))

  -- `readV1Header`: the first 13 bytes are in `buf`.
  unfoldable pub read_v1_header : Bytes → Bytes → Result ReadError (Header × Bytes)
  unfolding read_full
  read_v1_header buf r =
      if beq (drop 6 buf) (codes "UNKNOWN")
      then (read_until_crlf (107 - 13) buf r >>= λ b. ok (
        record {
          source = none;
          destination = none;
          is_local = true;
          version = 1;
          raw_tlvs = [];
          unknown = b.0;
        },
        b.1,
      ))
      else if beq (take 4 (drop 6 buf)) (codes "TCP4")
      then (read_full short_tcp4 19 r >>= λ m. read_v1_addresses (buf ++ m.0) m.1)
      else if beq (take 4 (drop 6 buf)) (codes "TCP6")
      then (read_full short_tcp6 11 r >>= λ m. read_v1_addresses (buf ++ m.0) m.1)
      else err unrecognized_protocol
