-- ===== src/Proxy/Rules.antt =====
-- ruleset/regexp.go; a compiled regular expression is its text, and the engine is a parameter.
pub mod Choice
use forwarder.Base.{
  Bool, true, false, not, ◌&&◌, ◌||◌, Option, none, some, List, [], ◌∷◌, ◌++◌, Bytes, codes, beq,
  has_prefix, drop, Result, ok, err, ◌>>=◌, if◌then◌else◌,
}

pub record RegexpMatcher : Type 0 where
  pub include : Option Bytes
  pub exclude : Option Bytes
  pub inverse : Bool

pub data RuleError : Type 0 where
  no_include_rules : RuleError
  does_not_compile : Bytes → RuleError

-- The texts with a bar in between.
abbrev pub joined : List Bytes → Bytes
joined [] = []
joined (r ∷ []) = r
joined (r ∷ q ∷ rs) = r ++ (b'|' ∷ joined (q ∷ rs))

-- The local function `build`; what is joined from rules that compile compiles.
abbrev pub build : List Bytes → Option Bytes
build rules = let s = joined rules in if beq s [] then none else some s

-- `NewRegexpMatcher`
abbrev pub new_regexp_matcher : List Bytes → List Bytes → Result RuleError RegexpMatcher
new_regexp_matcher [] exclude = err no_include_rules
new_regexp_matcher (r ∷ include) exclude =
    ok (record { include = build (r ∷ include); exclude = build exclude; inverse = false })

-- `Inverse`
abbrev pub inverse_of : RegexpMatcher → RegexpMatcher
inverse_of r = record { include = r.include; exclude = r.exclude; inverse = not r.inverse }

pub record RegexpListItem : Type 0 where
  pub regexp : Bytes
  pub exclude : Bool

-- `ParseRegexpListItem`
pub parse_regexp_list_item : (Bytes → Option Bytes) → Bytes → Result RuleError RegexpListItem
parse_regexp_list_item compile val =
    let exclude = has_prefix val (codes "-") in
    let rest = if exclude then drop 1 val else val in
    elim (compile rest) [
      | some message ↦ err (does_not_compile message)
      | none ↦ ok (record { regexp = rest; exclude = exclude })
    ]

-- `String`
abbrev pub show_item : RegexpListItem → Bytes
show_item r = if r.exclude then b'-' ∷ r.regexp else r.regexp

-- The loop of `NewRegexpMatcherFromList` on the rules of one kind.
abbrev pub of_kind : Bool → List RegexpListItem → List Bytes
of_kind excluded [] = []
of_kind excluded (r ∷ l) =
    let rest = of_kind excluded l in
    if r.exclude
    then if excluded then r.regexp ∷ rest else rest
    else if excluded
    then rest
    else r.regexp ∷ rest

abbrev pub new_regexp_matcher_from_list : List RegexpListItem → Result RuleError RegexpMatcher
new_regexp_matcher_from_list l = new_regexp_matcher (of_kind false l) (of_kind true l)

module _ (match_string : Bytes → Bytes → Bool) where
  abbrev pub match_part : Option Bytes → Bytes → Bool
  match_part none s = false
  match_part (some r) s = match_string r s

  abbrev pub match_rules : RegexpMatcher → Bytes → Bool
  match_rules r s = if match_part r.exclude s then false else match_part r.include s

  -- `Match`
  pub match : RegexpMatcher → Bytes → Bool
  match r s = let m = match_rules r s in if r.inverse then not m else m
