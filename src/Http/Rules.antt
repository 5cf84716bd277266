-- ===== src/Http/Rules.antt =====
-- header/header.go: the rules that change headers. The two regular expressions are written out.
pub mod RoundTrip
use forwarder.Base.{
  ℕ, Bool, true, false, ◌||◌, ◌&&◌, not, Option, none, some, List, [], ◌∷◌, ◌++◌, Bytes, codes, beq,
  ltb, take, drop, map, length, has_prefix, Result, ok, err, ◌>>=◌, ◌==◌, if◌then◌else◌,
}
use forwarder.Base.Decimal.{is_digit}
use forwarder.Http.Headers.{Headers, set_header, add_header, del, del_all}
use forwarder.Http.Text.{is_upper, is_lower, lower}

-- `Header`: the action with what it is about; only `Add` has a value.
pub data Rule : Type 0 where
  remove_header : Bytes → Rule
  remove_by_prefix : Bytes → Rule
  empty : Bytes → Rule
  add : Bytes → Bytes → Rule

pub data RuleError : Type 0 where
  invalid_value : RuleError
  invalid_name : RuleError

-- `[A-Za-z0-9-]`
unfoldable pub is_name : ℕ → Bool
is_name c = is_upper c || is_lower c || is_digit c || c == b'-'

abbrev pub all_names : Bytes → Bool
all_names [] = true
all_names (c ∷ s) = is_name c && all_names s

-- `headerNameRegex`
unfoldable pub name_matches : Bytes → Bool
name_matches [] = false
name_matches (c ∷ s) = all_names (c ∷ s)

-- `strings.HasSuffix` with one byte.
unfoldable pub ends_in : ℕ → Bytes → Bool
ends_in e [] = false
ends_in e (c ∷ []) = c == e
ends_in e (c ∷ d ∷ s) = ends_in e (d ∷ s)

-- `val[:len(val)-1]`
unfoldable pub drop_last : Bytes → Bytes
drop_last [] = []
drop_last (c ∷ []) = []
drop_last (c ∷ d ∷ s) = c ∷ drop_last (d ∷ s)

-- The name at the front of a line, and what follows.
unfoldable pub span_name : Bytes → Bytes × Bytes
span_name [] = ([], [])
span_name (c ∷ s) = let p = span_name s in if is_name c then (c ∷ p.0, p.1) else ([], c ∷ s)

-- `\s`
abbrev pub is_blank : ℕ → Bool
is_blank c = c == 9 || c == 10 || c == 12 || c == 13 || c == 32

unfoldable pub skip_blanks : Bytes → Bytes
skip_blanks [] = []
skip_blanks (c ∷ s) = let rest = skip_blanks s in if is_blank c then rest else c ∷ s

-- `(.*)\r?\n?$`: as `.*` is greedy it keeps a carriage return, and a line feed may only stand at the end.
unfoldable pub line_value : Bytes → Option Bytes
line_value [] = some []
line_value (c ∷ s) = elim (line_value s) [
  | none ↦ none
  | some v ↦ if c == 10 then elim s [ [] ↦ some [] | d ∷ t ↦ none ] else some (c ∷ v)
]

-- `headerLineRegex`, when the name was read.
abbrev pub line_behind : Bytes × Bytes → Option (Bytes × Bytes)
line_behind (name, []) = none
line_behind (name, c ∷ rest) =
    if c == b':' && not (beq name [])
    then elim (line_value (skip_blanks rest)) [ none ↦ none | some v ↦ some (name, v) ]
    else none

abbrev pub line_matches : Bytes → Option (Bytes × Bytes)
line_matches s = line_behind (span_name s)

abbrev pub name_of : Rule → Bytes
name_of (remove_header name) = name
name_of (remove_by_prefix name) = name
name_of (empty name) = name
name_of (add name value) = name

-- The tests of the text's two ends.
pub read_rule : Bytes → Result RuleError Rule
read_rule val =
    if has_prefix val (codes "-")
    then if ends_in b'*' val
      then ok (remove_by_prefix (drop 1 (drop_last val)))
      else ok (remove_header (drop 1 val))
    else if ends_in b';' val
    then ok (empty (drop_last val))
    else elim (line_matches val) [
      | none ↦ err invalid_value
      | some (name, value) ↦ ok (add name value)
    ]

-- `ParseHeader`
pub parse_header : Bytes → Result RuleError Rule
parse_header val =
    read_rule val >>= λ h. if name_matches (name_of h) then ok h else err invalid_name

-- `removeHeadersByPrefix`: the keys that are deleted, and the loop over them.
unfoldable pub keys_with_prefix : Bytes → Headers → List Bytes
keys_with_prefix prefix [] = []
keys_with_prefix prefix ((k, vs) ∷ h) =
    let rest = keys_with_prefix prefix h in
    if ltb (length k) (length prefix)
    then rest
    else if beq (map lower (take (length prefix) k)) (map lower prefix)
    then k ∷ rest
    else rest

abbrev pub remove_headers_by_prefix : Headers → Bytes → Headers
remove_headers_by_prefix h prefix = del_all (keys_with_prefix prefix h) h

-- `Apply`
unfoldable pub apply_rule : Rule → Headers → Headers
apply_rule (remove_header name) h = del name h
apply_rule (remove_by_prefix name) h = remove_headers_by_prefix h name
apply_rule (empty name) h = set_header name [] h
apply_rule (add name value) h = add_header name value h

-- `String`
pub show_rule : Rule → Bytes
show_rule (remove_header name) = b'-' ∷ name
show_rule (remove_by_prefix name) = b'-' ∷ (name ++ (b'*' ∷ []))
show_rule (empty name) = name ++ (b';' ∷ [])
show_rule (add name value) = name ++ (b':' ∷ value)

-- `ModifyRequest` and `ModifyResponse`
pub apply_rules : List Rule → Headers → Headers
apply_rules [] h = h
apply_rules (r ∷ rs) h = apply_rules rs (apply_rule r h)
