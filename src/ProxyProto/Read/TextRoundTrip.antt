-- ===== src/ProxyProto/Read/TextRoundTrip.antt =====
-- proxyproto/v1.go: the lines of the text header that are read back.
use forwarder.Base.{
  ℕ, ◌+◌, ◌≤◌, ◌≡◌, refl, ◌∙◌, true, false, Option, none, some, [], ◌∷◌, ◌++◌, append_assoc,
  append-nil, Bytes, codes, occurs, Result, ok, ◌>>=◌, length, drop, arith, ◌==◌,
}
use forwarder.Base.Int.{ℤ}
use forwarder.Base.Decimal.{atoi}
use forwarder.ProxyProto.Header.{Header, ReadError, tcp_addr, short_tcp4, short_tcp6}
use forwarder.ProxyProto.V1.{
  split, field, v1_header, parse_v1_header, read_v1_header, crlf, no_fields,
}
use forwarder.ProxyProto.Read.{read_header}
use forwarder.ProxyProto.Read.Lines.{read_until_crlf-text, read_v1_addresses-line}

module _ {S : Type 0} (fn : ℕ → Bytes → S → Result ReadError S) where
  -- A field goes up to the next space.
  split-field :
      (n : ℕ) (cur a rest : Bytes) (st : S)
      → occurs b' ' a ≡ false
      → split fn n cur (a ++ b' ' ∷ rest) st
        ≡ (fn n (cur ++ a) st >>= λ st'. split fn (n + 1) [] rest st')
  unfolding split
  split-field n cur [] rest st h = rw append-nil
  split-field n cur (c ∷ a) rest st h =
      let e : (c == b' ') ≡ false = ground arith in
      rw (e, split) (split-field n (cur ++ c ∷ []) a rest st (ground arith) ∙ rw append_assoc)

  split_last :
      (n : ℕ) (cur a : Bytes) (st : S)
      → occurs b' ' a ≡ false
      → split fn n cur a st ≡ fn n (cur ++ a) st
  unfolding split
  split_last n cur [] st h = rw append-nil
  split_last n cur (c ∷ a) st h =
      let e : (c == b' ') ≡ false = ground arith in
      rw (e, split) (split_last n (cur ++ c ∷ []) a st (ground arith) ∙ rw append_assoc)

pub data Protocol : Type 0 where
  tcp4 tcp6 : Protocol

abbrev pub keyword : Protocol → Bytes
keyword tcp4 = codes "PROXY TCP4 "
keyword tcp6 = codes "PROXY TCP6 "

-- The bytes that the optimistic read takes for granted behind the keyword, CRLF included.
abbrev pub least : Protocol → ℕ
least tcp4 = 21
least tcp6 = 13

least-ne : (p : Protocol) → least p ≤ 3 → ⊥
least-ne tcp4 h = omega arith
least-ne tcp6 h = omega arith

-- The two addresses and the two ports, with single spaces between them.
abbrev pub fields : Bytes → Bytes → Bytes → Bytes → Bytes
fields a b sp dp = a ++ b' ' ∷ (b ++ b' ' ∷ (sp ++ b' ' ∷ dp))

abbrev pub text_header : Bytes → ℤ → Bytes → ℤ → Header
text_header src sp dst dp = record {
  source = some (tcp_addr src sp);
  destination = some (tcp_addr dst dp);
  is_local = false;
  version = 1;
  raw_tlvs = [];
  unknown = [];
}

abbrev pub unknown_header : Bytes → Header
unknown_header line = record {
  source = none;
  destination = none;
  is_local = true;
  version = 1;
  raw_tlvs = [];
  unknown = line;
}

module _ (parse_ip : Bytes → Option Bytes) where
  -- An UNKNOWN line of at most 107 bytes is taken whole, whatever follows the word UNKNOWN.
  pub read_header-unknown :
      (text rest : Bytes)
      → occurs b'\r' text ≡ false
      → length text ≤ 92
      → read_header parse_ip (codes "PROXY UNKNOWN" ++ (text ++ (crlf ++ rest)))
        ≡ ok (unknown_header (codes "PROXY UNKNOWN" ++ text), rest)
  unfolding read_header read_v1_header
  read_header-unknown text rest clean fits =
      rw (read_until_crlf-text 94 (codes "PROXY UNKNOWN") text rest refl clean (omega arith))

  -- A line that is no shorter than the optimistic read is taken whole, and only it.
  pub read_header-line :
      (p : Protocol) (line rest : Bytes)
      → occurs b'\r' line ≡ false
      → least p ≤ length line + 2
      → length line ≤ 94
      → read_header parse_ip (keyword p ++ (line ++ (crlf ++ rest)))
        ≡ (parse_v1_header parse_ip (keyword p ++ line) >>= λ h. ok (h, rest))
  unfolding read_header read_v1_header
  read_header-line tcp4 (x ∷ (y ∷ line)) rest clean long short =
      read_v1_addresses-line parse_ip short_tcp4 19 b'P' (drop 1 (keyword tcp4) ++ x ∷ y ∷ []) line
        rest (omega arith) (ground arith) (ground arith) (omega arith)
  read_header-line tcp6 (x ∷ (y ∷ line)) rest clean long short =
      read_v1_addresses-line parse_ip short_tcp6 11 b'P' (drop 1 (keyword tcp6) ++ x ∷ y ∷ []) line
        rest (omega arith) (ground arith) (ground arith) (omega arith)
  read_header-line p [] rest clean long short = absurd (least-ne p (omega arith))
  read_header-line p (x ∷ []) rest clean long short = absurd (least-ne p (omega arith))

  fields_read :
      (a b sp dp src dst : Bytes) (n m : ℤ)
      → occurs b' ' a ≡ false
      → occurs b' ' b ≡ false
      → occurs b' ' sp ≡ false
      → occurs b' ' dp ≡ false
      → parse_ip a ≡ some src
      → parse_ip b ≡ some dst
      → atoi sp ≡ some n
      → atoi dp ≡ some m
      → (split (field parse_ip) 0 [] (fields a b sp dp) no_fields >>= v1_header parse_ip)
        ≡ ok (text_header src n dst m)
  unfolding field v1_header
  fields_read a b sp dp src dst n m ha hb hsp hdp ea eb en em =
      rw (split-field (field parse_ip) 0 [] a (b ++ b' ' ∷ (sp ++ b' ' ∷ dp)) no_fields ha) (
        rw (ea, field)
          (rw (split-field (field parse_ip) 1 [] b (sp ++ b' ' ∷ dp) _ hb) (
            rw (eb, field)
              (rw (split-field (field parse_ip) 2 [] sp dp _ hsp) (
                rw (en, field)
                  (rw (split_last (field parse_ip) 3 [] dp _ hdp) (rw (em, field))))))))

  parse_v1_header-fields :
      (p : Protocol) (a b sp dp src dst : Bytes) (n m : ℤ)
      → occurs b' ' a ≡ false
      → occurs b' ' b ≡ false
      → occurs b' ' sp ≡ false
      → occurs b' ' dp ≡ false
      → parse_ip a ≡ some src
      → parse_ip b ≡ some dst
      → atoi sp ≡ some n
      → atoi dp ≡ some m
      → parse_v1_header parse_ip (keyword p ++ fields a b sp dp) ≡ ok (text_header src n dst m)
  unfolding parse_v1_header field v1_header
  parse_v1_header-fields tcp4 a b sp dp src dst n m ha hb hsp hdp ea eb en em =
      fields_read a b sp dp src dst n m ha hb hsp hdp ea eb en em
  parse_v1_header-fields tcp6 a b sp dp src dst n m ha hb hsp hdp ea eb en em =
      fields_read a b sp dp src dst n m ha hb hsp hdp ea eb en em

  -- The fields of a text header, two addresses that `net.ParseIP` reads and two ports that are numbers, none of them
  -- with a blank or a carriage return, written with single spaces between them and CRLF behind them, are read back,
  -- and nothing behind the line is taken, when the fields have at most 94 bytes and, with the CRLF, at least the 21
  -- bytes for TCP4 or the 13 for TCP6.
  pub read_header-fields :
      (p : Protocol) (a b sp dp src dst rest : Bytes) (n m : ℤ)
      → occurs b'\r' (fields a b sp dp) ≡ false
      → least p ≤ length (fields a b sp dp) + 2
      → length (fields a b sp dp) ≤ 94
      → (occurs b' ' a ≡ false)
        × (occurs b' ' b ≡ false)
        × (occurs b' ' sp ≡ false)
        × (occurs b' ' dp ≡ false)
      → parse_ip a ≡ some src
      → parse_ip b ≡ some dst
      → atoi sp ≡ some n
      → atoi dp ≡ some m
      → read_header parse_ip (keyword p ++ (fields a b sp dp ++ (crlf ++ rest)))
        ≡ ok (text_header src n dst m, rest)
  read_header-fields p a b sp dp src dst rest n m clean long short h ea eb en em =
      read_header-line p (fields a b sp dp) rest clean long short
      ∙ rw (parse_v1_header-fields p a b sp dp src dst n m h.0 h.1 h.2 h.3 ea eb en em)
