-- ===== src/ProxyProto/Read/Prefix.antt =====
-- proxyproto/: how many bytes of a connection decide what is read, also when the reading fails.
use forwarder.Base.{
  ◌%◌, ◌/◌, not, ℕ, zero, suc, ◌+◌, ◌-◌, ◌≤◌, ◌≡◌, refl, ap, ◌∙◌, Bool, true, false, inl, inr, [],
  ◌∷◌, ◌++◌, Bytes, Result, ok, err, ◌>>=◌, length, ◌==◌, length-append, take, drop, ltb, arith,
  Option, Bool-cases, has_prefix, beq, codes, if◌then◌else◌, ◌&&◌,
}
use forwarder.ProxyProto.Header.{
  Header, ReadError, read_full, v1_identifier, v2_identifier, be16, short_identifier, short_length,
  short_body, short_tcp4, short_tcp6,
}
use forwarder.ProxyProto.V1.{
  last_byte, read_until_crlf, read_v1_addresses, read_v1_header, parse_v1_header, crlf,
}
use forwarder.ProxyProto.V2.{read_v2_header, v2_command, byte_at}
use forwarder.ProxyProto.Read.{read_header}
use forwarder.ProxyProto.Read.Framing.{read_full-eq-ok}

-- A result with more bytes behind those that are left; an error stays as it is.
abbrev pub behind :
    {A : Type 0} → Bytes → Result ReadError (A × Bytes) → Result ReadError (A × Bytes)
behind x (ok (a, rest)) = ok (a, rest ++ x)
behind x (err e) = err e

bind-behind :
    {A B : Type 0} (x : Bytes) (a : Result ReadError (A × Bytes))
    (f : A × Bytes → Result ReadError (B × Bytes))
    → ((p : A × Bytes) → a ≡ ok p → f (p.0, p.1 ++ x) ≡ behind x (f p))
    → (behind x a >>= f) ≡ behind x (a >>= f)
bind-behind x (ok p) f h = h p refl
bind-behind x (err e) f h = refl

if-behind :
    {B : Type 0} (x : Bytes) (b : Bool) (s t : Result ReadError (B × Bytes))
    {s' t' : Result ReadError (B × Bytes)}
    → (b ≡ true → s' ≡ behind x s)
    → (b ≡ false → t' ≡ behind x t)
    → (if b then s' else t') ≡ behind x (if b then s else t)
if-behind x true s t h k = h refl
if-behind x false s t h k = k refl

with_rest-behind :
    (x : Bytes) (m : Result ReadError Header) (r : Bytes)
    → (m >>= λ h. ok (h, r ++ x)) ≡ behind x (m >>= λ h. ok (h, r))
with_rest-behind x (ok h) r = refl
with_rest-behind x (err e) r = refl

read_full-behind :
    (e : ReadError) (n : ℕ) (r x : Bytes)
    → n ≤ length r
    → read_full e n (r ++ x) ≡ behind x (read_full e n r)
unfolding read_full
read_full-behind e zero r x h = refl
read_full-behind e (suc n) [] x h = absurd (omega arith)
read_full-behind e (suc n) (c ∷ r) x h =
    ap (λ m. m >>= λ p. ok (c ∷ p.0, p.1)) (read_full-behind e n r x (omega arith))
    ∙ bind-behind x (read_full e n r) (λ p. ok (c ∷ p.0, p.1)) (λ p q. refl)

read_until_crlf-behind :
    (n : ℕ) (buf r x : Bytes)
    → n ≤ length r
    → read_until_crlf n buf (r ++ x) ≡ behind x (read_until_crlf n buf r)
unfolding read_until_crlf
read_until_crlf-behind zero buf r x h = refl
read_until_crlf-behind (suc n) buf [] x h = absurd (omega arith)
read_until_crlf-behind (suc n) buf (c ∷ r) x h =
    elim (Bool-cases (last_byte buf == b'\r' && c == b'\n')) [
      | inl e ↦ rw (e, read_until_crlf) refl
      | inr e ↦ rw (e, read_until_crlf) (read_until_crlf-behind n (buf ++ c ∷ []) r x (omega arith))
    ]

-- What is left once `n` bytes were read.
left_of :
    (e : ReadError) (n k : ℕ) (r : Bytes) {p : Bytes × Bytes}
    → n + k ≤ length r
    → read_full e n r ≡ ok p
    → k ≤ length p.1
left_of e n k r {p} h q =
    let f = read_full-eq-ok e n r q in
    let g = ap length f.0 in omega (arith, length-append p.0 p.1, f.1)

-- A bind of a read of `n` bytes.
read_then-behind :
    {B : Type 0} (e : ReadError) (n : ℕ) (r x : Bytes)
    (f : Bytes × Bytes → Result ReadError (B × Bytes))
    → n ≤ length r
    → ((p : Bytes × Bytes) → read_full e n r ≡ ok p → f (p.0, p.1 ++ x) ≡ behind x (f p))
    → (read_full e n (r ++ x) >>= f) ≡ behind x (read_full e n r >>= f)
read_then-behind e n r x f h k =
    ap (λ m. m >>= f) (read_full-behind e n r x h) ∙ bind-behind x (read_full e n r) f k

until_then-behind :
    {B : Type 0} (n : ℕ) (buf r x : Bytes) (f : Bytes × Bytes → Result ReadError (B × Bytes))
    → n ≤ length r
    → ((p : Bytes × Bytes) → read_until_crlf n buf r ≡ ok p → f (p.0, p.1 ++ x) ≡ behind x (f p))
    → (read_until_crlf n buf (r ++ x) >>= f) ≡ behind x (read_until_crlf n buf r >>= f)
until_then-behind n buf r x f h k =
    ap (λ m. m >>= f) (read_until_crlf-behind n buf r x h)
    ∙ bind-behind x (read_until_crlf n buf r) f k

module _ (parse_ip : Bytes → Option Bytes) where
  read_v1_addresses-behind :
      (buf r x : Bytes)
      → 107 ≤ length r + length buf
      → read_v1_addresses parse_ip buf (r ++ x) ≡ behind x (read_v1_addresses parse_ip buf r)
  unfolding read_v1_addresses
  read_v1_addresses-behind buf r x h =
      if-behind x (beq (drop (length buf - 2) buf) crlf) _ _
        (λ _. with_rest-behind x (parse_v1_header parse_ip (take (length buf - 2) buf)) r)
        (λ _.
          ap (λ m. m >>= λ b. parse_v1_header parse_ip b.0 >>= λ h. ok (h, b.1))
            (read_until_crlf-behind (107 - length buf) buf r x (omega arith))
          ∙ bind-behind x (read_until_crlf (107 - length buf) buf r)
              (λ b. parse_v1_header parse_ip b.0 >>= λ h. ok (h, b.1))
              (λ p q. with_rest-behind x (parse_v1_header parse_ip p.0) p.1))

  optimistic-behind :
      (e : ReadError) (n : ℕ) (buf r x : Bytes)
      → length buf ≡ 13
      → n ≤ 94
      → 94 ≤ length r
      → (read_full e n (r ++ x) >>= λ m. read_v1_addresses parse_ip (buf ++ m.0) m.1)
        ≡ behind x (read_full e n r >>= λ m. read_v1_addresses parse_ip (buf ++ m.0) m.1)
  optimistic-behind e n buf r x h few long = read_then-behind e n r x _ (omega arith) (λ p q.
      read_v1_addresses-behind (buf ++ p.0) p.1 x (
        omega (
          arith,
          length-append buf p.0,
          (read_full-eq-ok e n r q).1,
          left_of e n (94 - n) r (omega arith) q,
        )))

  read_v1_header-behind :
      (buf r x : Bytes)
      → length buf ≡ 13
      → 94 ≤ length r
      → read_v1_header parse_ip buf (r ++ x) ≡ behind x (read_v1_header parse_ip buf r)
  unfolding read_v1_header
  read_v1_header-behind buf r x h long =
      if-behind x (beq (drop 6 buf) (codes "UNKNOWN")) _ _
        (λ _. until_then-behind 94 buf r x _ long (λ p q. refl))
        (λ _.
          if-behind x (beq (take 4 (drop 6 buf)) (codes "TCP4")) _ _
            (λ _. optimistic-behind short_tcp4 19 buf r x h (omega arith) long)
            (λ _.
              if-behind x (beq (take 4 (drop 6 buf)) (codes "TCP6")) _ _
                (λ _. optimistic-behind short_tcp6 11 buf r x h (omega arith) long) (λ _. refl)))

read_v2_header-behind :
    (buf r x : Bytes)
    → 2051 ≤ length r
    → read_v2_header buf (r ++ x) ≡ behind x (read_v2_header buf r)
unfolding read_v2_header
read_v2_header-behind buf r x long = read_then-behind short_length 3 r x _ (omega arith) (λ p q.
    if-behind x (not (byte_at buf 12 / 16 % 16 == 2)) _ _ (λ _. refl)
      (λ _.
        if-behind x (ltb 2048 (be16 (byte_at p.0 1) (byte_at p.0 2))) _ _ (λ _. refl)
          (λ small.
            let fits = left_of short_length 3 2048 r (omega arith) q in
            read_then-behind short_body (be16 (byte_at p.0 1) (byte_at p.0 2)) p.1 x _
              (ground arith)
              (λ t _.
                with_rest-behind x (v2_command (byte_at buf 12 % 16) (byte_at p.0 0) t.0) t.1))))

-- What is read, and whether the reading fails and how, is decided by the first 2064 bytes of a connection: more bytes behind
-- these change neither the header nor the error, and they are left on the connection when a header is read.
pub read_header-behind :
    (parse_ip : Bytes → Option Bytes) (r x : Bytes)
    → 2064 ≤ length r
    → read_header parse_ip (r ++ x) ≡ behind x (read_header parse_ip r)
unfolding read_header
read_header-behind parse_ip r x long =
    read_then-behind short_identifier 13 r x _ (omega arith) (λ p q.
      let more = left_of short_identifier 13 2051 r long q in
      if-behind x (has_prefix p.0 v2_identifier) _ _ (λ _. read_v2_header-behind p.0 p.1 x more)
        (λ _.
          if-behind x (has_prefix p.0 v1_identifier) _ _
            (λ _.
              read_v1_header-behind parse_ip p.0 p.1 x (read_full-eq-ok short_identifier 13 r q).1
                (omega arith))
            (λ _. refl)))
