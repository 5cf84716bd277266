-- ===== src/Http/Rules/RoundTrip.antt =====
-- What a rule prints as is read as the rule.
use forwarder.Base.{
  ℕ, ◌≡◌, refl, ap, ◌∙◌, true, false, some, [], ◌∷◌, ◌++◌, Bytes, codes, beq, occurs, has_prefix,
  ok, ◌==◌, ==_iff, arith,
}
use forwarder.Http.Rules.{
  Rule, remove_header, remove_by_prefix, empty, add, is_name, all_names, name_matches, ends_in,
  drop_last, span_name, skip_blanks, line_value, line_matches, line_behind, name_of, read_rule,
  parse_header, show_rule,
}

ends_in-append : (e d : ℕ) (s : Bytes) → ends_in e (s ++ (d ∷ [])) ≡ (d == e)
unfolding ends_in
ends_in-append e d [] = refl
ends_in-append e d (c ∷ []) = refl
ends_in-append e d (c ∷ b ∷ s) = ends_in-append e d (b ∷ s)

drop_last-append : (d : ℕ) (s : Bytes) → drop_last (s ++ (d ∷ [])) ≡ s
unfolding drop_last
drop_last-append d [] = refl
drop_last-append d (c ∷ []) = refl
drop_last-append d (c ∷ b ∷ s) = ap (λ k. c ∷ k) (drop_last-append d (b ∷ s))

ends_in-names : (e : ℕ) (s : Bytes) → is_name e ≡ false → all_names s ≡ true → ends_in e s ≡ false
unfolding ends_in
ends_in-names e [] k h = refl
ends_in-names e (c ∷ []) k h = ground (arith, ==_iff c e)
ends_in-names e (c ∷ b ∷ s) k h = ground (arith, ends_in-names e (b ∷ s))

span_name-colon :
    (name value : Bytes)
    → all_names name ≡ true
    → span_name (name ++ (b':' ∷ value)) ≡ (name, b':' ∷ value)
unfolding span_name is_name
span_name-colon [] value h = refl
span_name-colon (c ∷ name) value h = ground (arith, span_name-colon name value)

line_value-plain : (v : Bytes) → occurs 10 v ≡ false → line_value v ≡ some v
unfolding line_value
line_value-plain [] h = refl
line_value-plain (c ∷ v) h = ground (arith, line_value-plain v)

-- A value that a line can hold: no line feed, no blank in front, no semicolon at the end.
abbrev pub PlainValue : Bytes → Type 0
PlainValue v = (occurs 10 v ≡ false) × (skip_blanks v ≡ v) × (ends_in b';' v ≡ false)

-- What a rule may be about: names of letters, digits and dashes, with no dash in front where it would read as a removal.
abbrev pub WellFormed : Rule → Type 0
WellFormed (remove_header name) = name_matches name ≡ true
WellFormed (remove_by_prefix name) = name_matches name ≡ true
WellFormed (empty name) = (name_matches name ≡ true) × (has_prefix name (codes "-") ≡ false)
WellFormed (add name value) =
    (name_matches name ≡ true) × (has_prefix name (codes "-") ≡ false) × PlainValue value

ends_in-behind :
    (e : ℕ) (s : Bytes) (d : ℕ) (v : Bytes) → ends_in e (s ++ (d ∷ v)) ≡ ends_in e (d ∷ v)
unfolding ends_in
ends_in-behind e [] d v = refl
ends_in-behind e (c ∷ []) d v = refl
ends_in-behind e (c ∷ b ∷ s) d v = ends_in-behind e (b ∷ s) d v

ends_in-colon : (v : Bytes) → ends_in b';' v ≡ false → ends_in b';' (b':' ∷ v) ≡ false
unfolding ends_in
ends_in-colon [] h = refl
ends_in-colon (c ∷ v) h = h

all-matches :
    (name : Bytes) → name_matches name ≡ true → (all_names name ≡ true) × (beq name [] ≡ false)
unfolding name_matches
all-matches [] h = cc
all-matches (c ∷ name) h = (h, refl)

dash-append :
    (name t : Bytes)
    → name_matches name ≡ true
    → has_prefix (name ++ t) (codes "-") ≡ has_prefix name (codes "-")
unfolding name_matches
dash-append [] t h = cc
dash-append (c ∷ name) t h = refl

star-name : (name : Bytes) → name_matches name ≡ true → ends_in b'*' (b'-' ∷ name) ≡ false
unfolding is_name
star-name name h = ends_in-names b'*' (b'-' ∷ name) refl ((all-matches name h).0)

read_rule-line :
    (name value : Bytes)
    → WellFormed (add name value)
    → line_matches (name ++ (b':' ∷ value)) ≡ some (name, value)
read_rule-line name value (named, dash, (line, blanks, last)) =
    ap line_behind (span_name-colon name value ((all-matches name named).0))
    ∙ rw ((all-matches name named).1, blanks, line_value-plain value line)

read_rule-show_rule : (r : Rule) → WellFormed r → read_rule (show_rule r) ≡ ok r
unfolding read_rule show_rule
read_rule-show_rule (remove_header name) h = rw (star-name name h)
read_rule-show_rule (remove_by_prefix name) h =
    rw (ends_in-append b'*' b'*' (b'-' ∷ name), drop_last-append b'*' (b'-' ∷ name))
read_rule-show_rule (empty name) (named, dash) = rw (
  dash-append name (b';' ∷ []) named,
  dash,
  ends_in-append b';' b';' name,
  drop_last-append b';' name,
)
read_rule-show_rule (add name value) h =
    let (named, dash, (line, blanks, last)) = h in
    rw
      (
        dash-append name (b':' ∷ value) named,
        dash,
        ends_in-behind b';' name b':' value,
        ends_in-colon value last,
      )
      (rw (read_rule-line name value h))

name_of-WellFormed : (r : Rule) → WellFormed r → name_matches (name_of r) ≡ true
name_of-WellFormed (remove_header name) h = h
name_of-WellFormed (remove_by_prefix name) h = h
name_of-WellFormed (empty name) h = h.0
name_of-WellFormed (add name value) h = h.0

-- A rule's text is parsed as the rule, for names of letters, digits and dashes, without a dash in front in the rules that set a header,
-- and values without a line feed, blanks in front and a semicolon at the end.
pub parse_header-show_rule : (r : Rule) → WellFormed r → parse_header (show_rule r) ≡ ok r
unfolding parse_header
parse_header-show_rule r h = rw (read_rule-show_rule r h, name_of-WellFormed r h)
