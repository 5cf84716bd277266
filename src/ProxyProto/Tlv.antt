-- ===== src/ProxyProto/Tlv.antt =====
-- proxyproto/proxy.go, `ParseTLVs`.
pub mod Loop
use forwarder.Base.{
  ℕ, zero, suc, ◌+◌, List, [], ◌∷◌, Bytes, Result, ok, err, ltb, ◌==◌, if◌then◌else◌, length, take,
  drop, get_or,
}
use forwarder.ProxyProto.Header.{be16}

pub data TlvError : Type 0 where
  out_of_fuel : TlvError
  tlv_too_long : ℕ → ℕ → TlvError

-- `map[byte][]byte`
abbrev pub Tlvs : Type 0
Tlvs = List (ℕ × Bytes)

-- `tlv[k] = v`
unfoldable pub set_tlv : ℕ → Bytes → Tlvs → Tlvs
set_tlv k v [] = (k, v) ∷ []
set_tlv k v ((j, w) ∷ m) = if j == k then (k, v) ∷ m else (j, w) ∷ set_tlv k v m

abbrev pub tlv_header_len : ℕ
tlv_header_len = 3

-- The loop, with `offset += end` as the source has it.
pub tlv_loop : ℕ → Bytes → ℕ → Tlvs → Result TlvError Tlvs
unfolding set_tlv
tlv_loop zero raw offset tlv = err out_of_fuel
tlv_loop (suc fuel) raw offset tlv =
    let kind = get_or raw offset 0 in
    let len = be16 (get_or raw (offset + 1) 0) (get_or raw (offset + 2) 0) in
    let begin = offset + tlv_header_len in
    let end = begin + len in
    let rest = tlv_loop fuel raw (offset + end) (set_tlv kind (take len (drop begin raw)) tlv) in
    if ltb (offset + tlv_header_len) (length raw)
    then if ltb (length raw) end then err (tlv_too_long kind len) else rest
    else ok tlv

-- Each round moves the offset, so `length raw + 1` rounds are enough.
unfoldable pub parse_tlvs : Bytes → Result TlvError Tlvs
parse_tlvs raw = tlv_loop (suc (length raw)) raw 0 []
