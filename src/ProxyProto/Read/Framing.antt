-- ===== src/ProxyProto/Read/Framing.antt =====
-- How much of a connection the header readers of proxyproto/ take.
use forwarder.Base.{
  ℕ, zero, suc, ◌+◌, ◌/◌, ◌%◌, ◌≤◌, ◌<◌, ◌≡◌, refl, true, Option, [], ◌∷◌, ◌++◌, Bytes, ok, ◌>>=◌,
  bind-eq-ok, length, arith, le→ltb, ◌==◌,
}
use forwarder.ProxyProto.Header.{ReadError, read_full, v2_identifier, be16-div-mod, short_body}
use forwarder.ProxyProto.V2.{read_v2_header, v2_command}
use forwarder.ProxyProto.Read.{read_header}

pub read_full-append :
    (e : ReadError) (xs ys : Bytes) → read_full e (length xs) (xs ++ ys) ≡ ok (xs, ys)
unfolding read_full
read_full-append e [] ys = refl
read_full-append e (x ∷ xs) ys = rw (read_full-append e xs ys)

-- The binary header as the protocol lays it out: the identifier, the version with the command, the
-- family, the length of the body in network order, the body.
abbrev pub frame : ℕ → ℕ → Bytes → Bytes
frame command family body =
    v2_identifier ++ (0x20 + command) ∷ family ∷ (length body / 256) ∷ (length body % 256) ∷ body

pub version-nibble : (command : ℕ) → command < 16 → ((0x20 + command) / 16 % 16 == 2) ≡ true
version-nibble command h = ground arith

command-nibble : (command : ℕ) → command < 16 → (0x20 + command) % 16 ≡ command
command-nibble command h = omega arith

-- A binary header is read to its last byte and no further, whatever its command and family are,
-- and is then decoded from its body alone.
pub read_header-frame :
    (parse_ip : Bytes → Option Bytes) (command family : ℕ) (body rest : Bytes)
    → command < 16
    → length body ≤ 2048
    → read_header parse_ip (frame command family body ++ rest)
      ≡ (v2_command command family body >>= λ h. ok (h, rest))
unfolding read_header read_v2_header read_full
read_header-frame parse_ip command family body rest small fits = rw (
  version-nibble command small,
  command-nibble command small,
  be16-div-mod (length body),
  le→ltb 2048 (length body) fits,
  read_full-append short_body body rest,
)

pub read_full-eq-ok :
    (e : ReadError) (n : ℕ) (r : Bytes) {p : Bytes × Bytes}
    → read_full e n r ≡ ok p
    → (r ≡ p.0 ++ p.1) × (length p.0 ≡ n)
unfolding read_full
read_full-eq-ok e zero r h = ground arith
read_full-eq-ok e (suc n) [] h = cc
read_full-eq-ok e (suc n) (c ∷ r) h =
    let (q, hp, hq) = bind-eq-ok (read_full e n r) h in
    let ih = read_full-eq-ok e n r hq in ground arith
