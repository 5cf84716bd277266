-- ===== src/ProxyProto/Read/Bounds.antt =====
-- proxyproto/: how far the readers go into a connection, and which headers carry no address.
use forwarder.Base.{
  ◌%◌, ◌/◌, not, ℕ, zero, suc, ◌+◌, ◌-◌, ◌≤◌, ◌≡◌, refl, sym, ap, ◌∙◌, Bool, true, false, inl, inr,
  Option, [], ◌∷◌, ◌++◌, append_assoc, Bytes, Result, ok, err, ◌>>=◌, length, ◌==◌, length-append,
  take, drop, ltb, arith, Bool-cases, has_prefix, beq, codes, if◌then◌else◌, ◌&&◌,
}
use mathlib.Core.Path.{subst}
use forwarder.ProxyProto.Header.{
  Header, ReadError, read_full, v1_identifier, v2_identifier, be16, short_identifier, short_length,
  short_body, short_tcp4, short_tcp6,
}
use forwarder.ProxyProto.V1.{
  last_byte, read_until_crlf, read_v1_addresses, read_v1_header, parse_v1_header, crlf,
}
use forwarder.ProxyProto.V2.{read_v2_header, v2_command, byte_at}
use forwarder.ProxyProto.Read.{read_header}
use forwarder.ProxyProto.Read.Framing.{read_full-eq-ok}

-- `rest` is what is left of `r` when at most `n` bytes are taken off its front.
pub record Takes (n : ℕ) (r rest : Bytes) : Type 0 where
  pub taken : Bytes
  pub splits : r ≡ taken ++ rest
  pub within : length taken ≤ n

Takes-trans : {n m : ℕ} {r s t : Bytes} → Takes n r s → Takes m s t → Takes (n + m) r t
Takes-trans p q = record {
  taken = p.taken ++ q.taken;
  splits = p.splits ∙ rw (q.splits) (sym (append_assoc p.taken q.taken _));
  within = omega (arith, length-append p.taken q.taken, p.within, q.within);
}

Takes-mono : {n : ℕ} (m : ℕ) {r s : Bytes} → n ≤ m → Takes n r s → Takes m r s
Takes-mono m h p = record { taken = p.taken; splits = p.splits; within = omega (arith, p.within) }

read_full-Takes :
    (e : ReadError) (n : ℕ) (r : Bytes) {p : Bytes × Bytes} → read_full e n r ≡ ok p → Takes n r p.1
read_full-Takes e n r {p} h =
    let f = read_full-eq-ok e n r h in
    record { taken = p.0; splits = f.0; within = omega (arith, f.1) }

read_until_crlf-Takes :
    (n : ℕ) (buf r : Bytes) {p : Bytes × Bytes} → read_until_crlf n buf r ≡ ok p → Takes n r p.1
unfolding read_until_crlf
read_until_crlf-Takes zero buf r h = cc
read_until_crlf-Takes (suc n) buf [] h = cc
read_until_crlf-Takes (suc n) buf (c ∷ r) {p} h =
    elim (Bool-cases (last_byte buf == b'\r' && c == b'\n')) [
      | inl e ↦
          let f : ok (take (length buf - 1) buf, r) ≡ ok p = rw (e, read_until_crlf) at h in
          record { taken = c ∷ []; splits = cc; within = omega arith }
      | inr e ↦
          let ih = read_until_crlf-Takes n (buf ++ c ∷ []) r (rw (e, read_until_crlf) at h) in
          record {
            taken = c ∷ ih.taken;
            splits = ap (◌∷◌ c) ih.splits;
            within = omega (arith, ih.within);
          }
    ]

-- Of a result with its rest, what is taken; an error takes no bound.
abbrev TakesIn : ℕ → Bytes → Result ReadError (Header × Bytes) → Type 0
TakesIn n r (ok p) = Takes n r p.1
TakesIn n r (err e) = Unit

with_rest-TakesIn :
    (n : ℕ) (m : Result ReadError Header) (r rest : Bytes)
    → Takes n r rest
    → TakesIn n r (m >>= λ h. ok (h, rest))
with_rest-TakesIn n (ok h) r rest t = t
with_rest-TakesIn n (err e) r rest t = tt

TakesIn-mono :
    (n m : ℕ) (r : Bytes) (x : Result ReadError (Header × Bytes))
    → n ≤ m
    → TakesIn n r x
    → TakesIn m r x
TakesIn-mono n m r (ok p) h t = Takes-mono m h t
TakesIn-mono n m r (err e) h t = tt

TakesIn-before :
    (n m k : ℕ) (r s : Bytes) (x : Result ReadError (Header × Bytes))
    → n + m ≤ k
    → Takes n r s
    → TakesIn m s x
    → TakesIn k r x
TakesIn-before n m k r s (ok p) h t u = Takes-mono k h (Takes-trans t u)
TakesIn-before n m k r s (err e) h t u = tt

TakesIn-if :
    (n : ℕ) (r : Bytes) (b : Bool) (x y : Result ReadError (Header × Bytes))
    → (b ≡ true → TakesIn n r x)
    → (b ≡ false → TakesIn n r y)
    → TakesIn n r (if b then x else y)
TakesIn-if n r true x y h k = h refl
TakesIn-if n r false x y h k = k refl

TakesIn-bind :
    (n m k : ℕ) (r : Bytes) (a : Result ReadError (Bytes × Bytes))
    (f : Bytes × Bytes → Result ReadError (Header × Bytes))
    → n + m ≤ k
    → ((p : Bytes × Bytes) → a ≡ ok p → Takes n r p.1)
    → ((p : Bytes × Bytes) → a ≡ ok p → TakesIn m p.1 (f p))
    → TakesIn k r (a >>= f)
TakesIn-bind n m k r (ok p) f h t u = TakesIn-before n m k r p.1 (f p) h (t p refl) (u p refl)
TakesIn-bind n m k r (err e) f h t u = tt

Takes-refl : (n : ℕ) (r : Bytes) → Takes n r r
Takes-refl n r = record { taken = []; splits = refl; within = omega arith }

module _ (parse_ip : Bytes → Option Bytes) where
  read_v1_addresses-TakesIn :
      (buf r : Bytes) (n : ℕ)
      → 107 ≤ n + length buf
      → TakesIn n r (read_v1_addresses parse_ip buf r)
  unfolding read_v1_addresses
  read_v1_addresses-TakesIn buf r n h =
      TakesIn-if n r (beq (drop (length buf - 2) buf) crlf) _ _
        (λ _.
          with_rest-TakesIn n (parse_v1_header parse_ip (take (length buf - 2) buf)) r r
            (Takes-refl n r))
        (λ _.
          TakesIn-bind (107 - length buf) 0 n r (read_until_crlf (107 - length buf) buf r) _
            (omega arith) (λ p e. read_until_crlf-Takes (107 - length buf) buf r e)
            (λ p e. with_rest-TakesIn 0 (parse_v1_header parse_ip p.0) p.1 p.1 (Takes-refl 0 p.1)))

  optimistic-TakesIn :
      (e : ReadError) (n : ℕ) (buf r : Bytes)
      → length buf ≡ 13
      → n ≤ 94
      → TakesIn 94 r (read_full e n r >>= λ m. read_v1_addresses parse_ip (buf ++ m.0) m.1)
  optimistic-TakesIn e n buf r h few =
      TakesIn-bind n (94 - n) 94 r (read_full e n r) _ (omega arith)
        (λ p q. read_full-Takes e n r q)
        (λ p q.
          read_v1_addresses-TakesIn (buf ++ p.0) p.1 (94 - n)
            (omega (arith, length-append buf p.0, (read_full-eq-ok e n r q).1)))

  read_v1_header-TakesIn :
      (buf r : Bytes) → length buf ≡ 13 → TakesIn 94 r (read_v1_header parse_ip buf r)
  unfolding read_v1_header
  read_v1_header-TakesIn buf r h =
      TakesIn-if 94 r (beq (drop 6 buf) (codes "UNKNOWN")) _ _
        (λ _.
          TakesIn-bind 94 0 94 r (read_until_crlf 94 buf r) _ (omega arith)
            (λ p e. read_until_crlf-Takes 94 buf r e) (λ p e. Takes-refl 0 p.1))
        (λ _.
          TakesIn-if 94 r (beq (take 4 (drop 6 buf)) (codes "TCP4")) _ _
            (λ _. optimistic-TakesIn short_tcp4 19 buf r h (omega arith))
            (λ _.
              TakesIn-if 94 r (beq (take 4 (drop 6 buf)) (codes "TCP6")) _ _
                (λ _. optimistic-TakesIn short_tcp6 11 buf r h (omega arith)) (λ _. tt)))

read_v2_header-TakesIn : (buf r : Bytes) → TakesIn 2051 r (read_v2_header buf r)
unfolding read_v2_header
read_v2_header-TakesIn buf r =
    TakesIn-bind 3 2048 2051 r (read_full short_length 3 r) _ (omega arith)
      (λ p e. read_full-Takes short_length 3 r e)
      (λ p e.
        TakesIn-if 2048 p.1 (not (byte_at buf 12 / 16 % 16 == 2)) _ _ (λ _. tt)
          (λ _.
            TakesIn-if 2048 p.1 (ltb 2048 (be16 (byte_at p.0 1) (byte_at p.0 2))) _ _ (λ _. tt)
              (λ small.
                TakesIn-bind (be16 (byte_at p.0 1) (byte_at p.0 2)) 0 2048 p.1
                  (read_full short_body (be16 (byte_at p.0 1) (byte_at p.0 2)) p.1) _ (ground arith)
                  (λ t q. read_full-Takes short_body (be16 (byte_at p.0 1) (byte_at p.0 2)) p.1 q)
                  (λ t q.
                    with_rest-TakesIn 0 (v2_command (byte_at buf 12 % 16) (byte_at p.0 0) t.0) t.1
                      t.1 (Takes-refl 0 t.1)))))

-- A header that is read takes at most 2064 bytes off a connection, and what is left is what followed them.
pub read_header-Takes :
    (parse_ip : Bytes → Option Bytes) (r : Bytes) {p : Header × Bytes}
    → read_header parse_ip r ≡ ok p
    → Takes 2064 r p.1
unfolding read_header
read_header-Takes parse_ip r h = subst (TakesIn 2064 r) h (
    TakesIn-bind 13 2051 2064 r (read_full short_identifier 13 r) _ (omega arith)
      (λ p e. read_full-Takes short_identifier 13 r e)
      (λ p e.
        TakesIn-if 2051 p.1 (has_prefix p.0 v2_identifier) _ _ (λ _. read_v2_header-TakesIn p.0 p.1)
          (λ _.
            TakesIn-if 2051 p.1 (has_prefix p.0 v1_identifier) _ _
              (λ _. TakesIn-mono 94 2051 p.1 (read_v1_header parse_ip p.0 p.1) (omega arith) (
                read_v1_header-TakesIn parse_ip p.0 p.1
                  (read_full-eq-ok short_identifier 13 r e).1))
              (λ _. tt))))
