-- ===== src/ProxyProto/Read/Lines.antt =====
-- proxyproto/v1.go, `readUntilCRLF` and the optimistic read before it: the line is found whole.
use forwarder.Base.{
  ℕ, zero, suc, ◌+◌, ◌-◌, ◌≤◌, ◌≡◌, refl, ◌∙◌, false, Option, [], ◌∷◌, ◌++◌, ◌⊎◌, inl, inr,
  append_assoc, append-nil, Bytes, beq, occurs, occurs-append-false, Result, ok, ◌>>=◌, length,
  length-append, take, drop, take-append, drop-append, take-append-drop, length-take, length-drop,
  arith, ◌==◌,
}
use forwarder.ProxyProto.Header.{Header, ReadError, read_full}
use forwarder.ProxyProto.V1.{read_until_crlf, read_v1_addresses, parse_v1_header, crlf, last_byte}
use forwarder.ProxyProto.Read.Framing.{read_full-append}

last_byte-concat : (buf : Bytes) (c : ℕ) → last_byte (buf ++ c ∷ []) ≡ c
last_byte-concat [] c = refl
last_byte-concat (x ∷ []) c = refl
last_byte-concat (x ∷ (y ∷ buf)) c = last_byte-concat (y ∷ buf) c

take-init : (buf : Bytes) (c : ℕ) → take (length (buf ++ c ∷ []) - 1) (buf ++ c ∷ []) ≡ buf
take-init buf c =
    let e : length (buf ++ c ∷ []) - 1 ≡ length buf = omega (arith, length-append buf (c ∷ [])) in
    rw e (take-append buf (c ∷ []))

-- Reading on from a buffer that does not end in a carriage return.
pub read_until_crlf-text :
    (n : ℕ) (buf text rest : Bytes)
    → (last_byte buf == b'\r') ≡ false
    → occurs b'\r' text ≡ false
    → length text + 2 ≤ n
    → read_until_crlf n buf (text ++ (crlf ++ rest)) ≡ ok (buf ++ text, rest)
unfolding read_until_crlf
read_until_crlf-text (suc (suc n)) buf [] rest h k fits =
    rw (h, read_until_crlf)
      (rw (last_byte-concat buf b'\r', read_until_crlf) (rw (take-init buf b'\r', append-nil)))
read_until_crlf-text (suc n) buf (c ∷ text) rest h k fits =
    rw (h, read_until_crlf)
      (read_until_crlf-text n (buf ++ c ∷ []) text rest (rw last_byte-concat (ground arith))
          (ground arith) (omega arith)
        ∙ rw append_assoc)
read_until_crlf-text zero buf text rest h k fits = absurd (omega arith)
read_until_crlf-text (suc zero) buf [] rest h k fits = absurd (omega arith)

read_until_crlf-half :
    (n : ℕ) (buf rest : Bytes)
    → read_until_crlf (suc n) (buf ++ b'\r' ∷ []) (b'\n' ∷ rest) ≡ ok (buf, rest)
unfolding read_until_crlf
read_until_crlf-half n buf rest =
    rw (last_byte-concat buf b'\r', read_until_crlf) (rw (take-init buf b'\r'))

-- The two bytes before the end are not CRLF while the line goes on, and when only its first half is
-- read.
beq-crlf_of_occurs : (b : Bytes) → occurs b'\r' b ≡ false → beq b crlf ≡ false
beq-crlf_of_occurs [] h = refl
beq-crlf_of_occurs (x ∷ b) h = ground arith

occurs-drop : (c n : ℕ) (b : Bytes) → occurs c b ≡ false → occurs c (drop n b) ≡ false
occurs-drop c zero b h = h
occurs-drop c (suc n) [] h = refl
occurs-drop c (suc n) (x ∷ b) h = occurs-drop c n b (ground arith)

pub occurs-take : (c n : ℕ) (b : Bytes) → occurs c b ≡ false → occurs c (take n b) ≡ false
occurs-take c zero b h = refl
occurs-take c (suc n) [] h = refl
occurs-take c (suc n) (x ∷ b) h = ground (arith, occurs-take c n b)

beq-crlf_half :
    (x : ℕ) (b : Bytes)
    → occurs b'\r' (x ∷ b) ≡ false
    → beq (drop (length b) (x ∷ (b ++ b'\r' ∷ []))) crlf ≡ false
beq-crlf_half x [] h = ground arith
beq-crlf_half x (y ∷ b) h = beq-crlf_half y b (ground arith)

last_byte_of_occurs :
    (x : ℕ) (b : Bytes) → occurs b'\r' (x ∷ b) ≡ false → (last_byte (x ∷ b) == b'\r') ≡ false
last_byte_of_occurs x [] h = ground arith
last_byte_of_occurs x (y ∷ b) h = last_byte_of_occurs y b (ground arith)

-- The first `k` bytes of `xs ++ ys`, where `xs` is long enough.
read_full-part :
    (e : ReadError) (n : ℕ) (xs ys : Bytes)
    → n ≤ length xs
    → read_full e n (xs ++ ys) ≡ ok (take n xs, drop n xs ++ ys)
unfolding read_full
read_full-part e zero xs ys h = refl
read_full-part e (suc n) [] ys h = absurd (omega arith)
read_full-part e (suc n) (x ∷ xs) ys h = rw (read_full-part e n xs ys (omega arith))

-- It ends behind `tail`, which follows the line.
read_full-past :
    (e : ReadError) (n : ℕ) (xs tail ys : Bytes)
    → n ≡ length xs + length tail
    → read_full e n (xs ++ (tail ++ ys)) ≡ ok (xs ++ tail, ys)
read_full-past e n xs tail ys h =
    let e' : n ≡ length (xs ++ tail) = omega (arith, length-append xs tail) in
    rw (e', ← append_assoc xs tail ys) (read_full-append e (xs ++ tail) ys)

Three-cases : (n k : ℕ) → n ≤ k + 2 → (n ≤ k) ⊎ ((n ≡ k + 1) ⊎ (n ≡ k + 2))
Three-cases n k h = ground arith

module _ (parse_ip : Bytes → Option Bytes) where
  Parses : Bytes → Bytes → Result ReadError (Header × Bytes)
  Parses line rest = parse_v1_header parse_ip line >>= λ h. ok (h, rest)

  -- The optimistic read ends inside the line.
  addresses_inside :
      (x : ℕ) (b text rest : Bytes)
      → occurs b'\r' (x ∷ b) ≡ false
      → occurs b'\r' text ≡ false
      → length b + length text ≤ 104
      → read_v1_addresses parse_ip (x ∷ b) (text ++ (crlf ++ rest)) ≡ Parses (x ∷ (b ++ text)) rest
  unfolding read_v1_addresses Parses
  addresses_inside x b text rest h k fits =
      rw (beq-crlf_of_occurs _ (occurs-drop b'\r' (suc (length b) - 2) (x ∷ b) h)) (
        rw (
          read_until_crlf-text (107 - suc (length b)) (x ∷ b) text rest (last_byte_of_occurs x b h)
            k (omega arith)))

  -- It ends behind the carriage return.
  addresses_half :
      (x : ℕ) (b rest : Bytes)
      → occurs b'\r' (x ∷ b) ≡ false
      → length b ≤ 104
      → read_v1_addresses parse_ip (x ∷ (b ++ b'\r' ∷ [])) (b'\n' ∷ rest) ≡ Parses (x ∷ b) rest
  unfolding read_v1_addresses Parses
  addresses_half x b rest h fits =
      let e : suc (length (b ++ b'\r' ∷ [])) - 2 ≡ length b =
        omega (arith, length-append b (b'\r' ∷ [])) in
      let e' : 107 - suc (length (b ++ b'\r' ∷ [])) ≡ suc (104 - length b) =
        omega (arith, length-append b (b'\r' ∷ [])) in
      rw e
        (rw (beq-crlf_half x b h) (rw e' (rw (read_until_crlf-half (104 - length b) (x ∷ b) rest))))

  -- It ends behind the line.
  addresses_whole :
      (x : ℕ) (b rest : Bytes)
      → read_v1_addresses parse_ip (x ∷ (b ++ crlf)) rest ≡ Parses (x ∷ b) rest
  unfolding read_v1_addresses Parses
  addresses_whole x b rest =
      let e : suc (length (b ++ crlf)) - 2 ≡ length (x ∷ b) = omega (arith, length-append b crlf) in
      rw e (rw (drop-append (x ∷ b) crlf) (rw (take-append (x ∷ b) crlf)))

  -- The line is found whole wherever the optimistic read of `n` bytes ends, if that is not behind
  -- the line.
  pub read_v1_addresses-line :
      (e : ReadError) (n : ℕ) (x : ℕ) (pre more rest : Bytes)
      → n ≤ length more + 2
      → occurs b'\r' (x ∷ pre) ≡ false
      → occurs b'\r' more ≡ false
      → length pre + length more ≤ 104
      → (read_full e n (more ++ (crlf ++ rest)) >>= λ m.
          read_v1_addresses parse_ip (x ∷ (pre ++ m.0)) m.1)
        ≡ (parse_v1_header parse_ip (x ∷ (pre ++ more)) >>= λ h. ok (h, rest))
  unfolding Parses
  read_v1_addresses-line e n x pre more rest room h k fits =
      elim (Three-cases n (length more) room) [
        | inl inside ↦ rw (read_full-part e n more (crlf ++ rest) inside) (
            addresses_inside x (pre ++ take n more) (drop n more) rest
              (occurs-append-false b'\r' (x ∷ pre) (take n more) h (occurs-take b'\r' n more k))
              (occurs-drop b'\r' n more k)
              (omega
                (arith, length-append pre (take n more), length-take n more, length-drop n more))
            ∙ rw append_assoc (rw (take-append-drop n more)))
        | inr (inl half) ↦ rw (read_full-past e n more (b'\r' ∷ []) (b'\n' ∷ rest) half) (
            rw (← append_assoc) (
              addresses_half x (pre ++ more) rest (occurs-append-false b'\r' (x ∷ pre) more h k)
                (omega (arith, length-append pre more))))
        | inr (inr whole) ↦
            rw (read_full-past e n more crlf rest whole)
              (rw (← append_assoc) (addresses_whole x (pre ++ more) rest))
      ]
