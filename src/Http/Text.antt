-- ===== src/Http/Text.antt =====
-- The functions of `strings` and `net/textproto` on header fields, for ASCII texts.
use forwarder.Base.{
  ℕ, ◌+◌, ◌-◌, Bool, true, ◌&&◌, ◌||◌, List, [], ◌∷◌, Bytes, codes, leb, ◌==◌, if◌then◌else◌,
  occurs,
}
use forwarder.Base.Decimal.{is_digit}

abbrev pub is_upper : ℕ → Bool
is_upper c = leb b'A' c && leb c b'Z'

abbrev pub is_lower : ℕ → Bool
is_lower c = leb b'a' c && leb c b'z'

pub upper : ℕ → ℕ
upper c = if is_lower c then c - 32 else c

pub lower : ℕ → ℕ
lower c = if is_upper c then c + 32 else c

-- The bytes of a token, of which header names are made.
pub is_token : ℕ → Bool
is_token c = is_upper c || is_lower c || is_digit c || occurs c (codes "!#$%&'*+-.^_`|~")

pub all_token : Bytes → Bool
unfolding is_token
all_token [] = true
all_token (c ∷ s) = is_token c && all_token s

-- Upper case where a word begins, lower case elsewhere.
pub title : Bool → Bytes → Bytes
unfolding upper lower
title first [] = []
title first (c ∷ s) = (if first then upper c else lower c) ∷ title (c == b'-') s

-- `http.CanonicalHeaderKey`: a name with other bytes than those of a token stays as it is.
unfoldable pub canonical : Bytes → Bytes
unfolding all_token title
canonical s = if all_token s then title true s else s

-- `unicode.IsSpace` on ASCII.
abbrev pub is_space : ℕ → Bool
is_space c = c == b' ' || (leb 9 c && leb c 13)

unfoldable pub trim_left : Bytes → Bytes
trim_left [] = []
trim_left (c ∷ s) = let rest = trim_left s in if is_space c then rest else c ∷ s

-- With nothing but spaces behind it a space is dropped.
unfoldable pub trim_right : Bytes → Bytes
trim_right [] = []
trim_right (c ∷ s) = elim (trim_right s) [
  | [] ↦ if is_space c then [] else c ∷ []
  | d ∷ t ↦ c ∷ (d ∷ t)
]

-- `strings.TrimSpace`
abbrev pub trim_space : Bytes → Bytes
trim_space s = trim_right (trim_left s)

-- Puts a byte in front of the first part.
abbrev pub onto_first : ℕ → List Bytes → List Bytes
onto_first c [] = (c ∷ []) ∷ []
onto_first c (p ∷ ps) = (c ∷ p) ∷ ps

-- `strings.Split` by one byte: one part more than there are separators.
unfoldable pub split_by : ℕ → Bytes → List Bytes
split_by sep [] = [] ∷ []
split_by sep (c ∷ s) = if c == sep then [] ∷ split_by sep s else onto_first c (split_by sep s)
