-- ===== src/Martian/Framing.antt =====
-- internal/martian/header/framing_modifier.go
pub mod Agreement
use forwarder.Base.{
  true, false, List, [], ◌∷◌, Bytes, codes, beq, concat, map, Result, ok, err, ◌>>=◌, if◌then◌else◌,
}
use forwarder.Http.Headers.{Headers, values, or_nil, set_header, del}
use forwarder.Http.Text.{trim_space, split_by}
use forwarder.Http.Message.{Request}

pub data FramingError : Type 0 where
  mismatched_lengths : List Bytes → FramingError
  not_chunked : FramingError

-- The two nested loops over the lengths, with `length` so far.
abbrev pub canonical_length : List Bytes → Bytes → List Bytes → Result FramingError Bytes
canonical_length cls length [] = ok length
canonical_length cls length (l ∷ ls) = elim (beq length []) [
  | true ↦ canonical_length cls (trim_space l) ls
  | false ↦ elim (beq length (trim_space l)) [
    | true ↦ canonical_length cls length ls
    | false ↦ err (mismatched_lengths cls)
  ]
]

-- The values of a header's lines, each split on commas.
abbrev pub split_values : List Bytes → List Bytes
split_values vs = concat (map (split_by b',') vs)

-- `last[len(last)-1]`; a split is never empty.
abbrev pub last_of : List Bytes → Bytes
last_of [] = []
last_of (x ∷ []) = x
last_of (x ∷ y ∷ xs) = last_of (y ∷ xs)

abbrev pub fix_length : Headers → Result FramingError Headers
fix_length h = elim (or_nil (values h (codes "Content-Length"))) [
  | [] ↦ ok h
  | c ∷ cs ↦
      canonical_length (c ∷ cs) [] (split_values (c ∷ cs))
      >>= (λ length. ok (set_header (codes "Content-Length") length h))
]

abbrev pub fix_encoding : Headers → Result FramingError Headers
fix_encoding h = elim (or_nil (values h (codes "Transfer-Encoding"))) [
  | [] ↦ ok h
  | t ∷ ts ↦
      if beq (trim_space (last_of (split_by b',' (last_of (t ∷ ts))))) (codes "chunked")
      then ok (del (codes "Content-Length") h)
      else err not_chunked
]

-- The modifier of `NewBadFramingModifier`.
unfoldable pub modify_request : Headers → Result FramingError Headers
modify_request h = fix_length h >>= fix_encoding
