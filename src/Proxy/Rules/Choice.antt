-- ===== src/Proxy/Rules/Choice.antt =====
-- What a list of rules lets through.
use forwarder.Base.{
  ◌≡◌, ◌≢◌, refl, ap, ◌∙◌, Bool, true, false, not, ◌&&◌, ◌||◌, Option, none, List, [], ◌∷◌, ◌++◌,
  Bytes, codes, beq, ok, if◌then◌else◌, arith, All, Bool-cases, inl, inr, has_prefix, ok_injective,
}
use forwarder.Proxy.Rules.{
  RegexpMatcher, RegexpListItem, joined, build, new_regexp_matcher, new_regexp_matcher_from_list,
  inverse_of, of_kind, match_part, match, parse_regexp_list_item, show_item,
}

abbrev pub NotEmpty : Bytes → Type 0
NotEmpty r = r ≢ []

-- Whether a text matches a rule of a kind.
pub any_matches : (Bytes → Bytes → Bool) → Bool → List RegexpListItem → Bytes → Bool
any_matches match_string excluded [] s = false
any_matches match_string excluded (r ∷ l) s =
    (match_string r.regexp s && (if r.exclude then excluded else not excluded))
    || any_matches match_string excluded l s

-- What the engine documents of a bar, for expressions of a kind: two of them with a bar in between are again of that kind,
-- and match what one of them does. Expressions with a flag that is not in a group are of no such kind.
abbrev pub Alternates : (Bytes → Bytes → Bool) → (Bytes → Type 0) → Type 0
Alternates match_string IsWhole =
    (a b : Bytes)
    → IsWhole a
    → IsWhole b
    → IsWhole (a ++ (b'|' ∷ b))
      × ((s : Bytes) → match_string (a ++ (b'|' ∷ b)) s ≡ (match_string a s || match_string b s))

module _ (match_string : Bytes → Bytes → Bool) (IsWhole : Bytes → Type 0)
    (alternation : Alternates match_string IsWhole) where
  abbrev any_of : List Bytes → Bytes → Bool
  any_of [] s = false
  any_of (r ∷ rs) s = match_string r s || any_of rs s

  joined-IsWhole : (r : Bytes) (rs : List Bytes) → All IsWhole (r ∷ rs) → IsWhole (joined (r ∷ rs))
  joined-IsWhole r [] w = w.0
  joined-IsWhole r (q ∷ rs) w = (alternation r (joined (q ∷ rs)) w.0 (joined-IsWhole q rs w.1)).0

  joined-any_of :
      (r : Bytes) (rs : List Bytes) (s : Bytes)
      → All IsWhole (r ∷ rs)
      → match_string (joined (r ∷ rs)) s ≡ any_of (r ∷ rs) s
  joined-any_of r [] s w = ground arith
  joined-any_of r (q ∷ rs) s w =
      (alternation r (joined (q ∷ rs)) w.0 (joined-IsWhole q rs w.1)).1 s
      ∙ ap (λ b. match_string r s || b) (joined-any_of q rs s w.1)

  of_kind-any_of :
      (k : Bool) (l : List RegexpListItem) (s : Bytes)
      → any_of (of_kind k l) s ≡ any_matches match_string k l s
  unfolding any_matches
  of_kind-any_of k [] s = refl
  of_kind-any_of k (r ∷ l) s = ground (arith, of_kind-any_of k l s)

  joined-ne-nil : (r : Bytes) (rs : List Bytes) → r ≢ [] → beq (joined (r ∷ rs)) [] ≡ false
  joined-ne-nil [] rs h = absurd (h refl)
  joined-ne-nil (c ∷ r) [] h = refl
  joined-ne-nil (c ∷ r) (q ∷ rs) h = refl

  match_part-build :
      (rs : List Bytes) (s : Bytes)
      → All NotEmpty rs
      → All IsWhole rs
      → match_part match_string (build rs) s ≡ any_of rs s
  match_part-build [] s h w = refl
  match_part-build (r ∷ rs) s h w = rw (joined-ne-nil r rs h.0) (joined-any_of r rs s w)

  of_kind-All :
      (P : Bytes → Type 0) (k : Bool) (l : List RegexpListItem)
      → All (λ r. P r.regexp) l
      → All P (of_kind k l)
  of_kind-All P k [] h = tt
  of_kind-All P true (r ∷ l) h = elim (Bool-cases r.exclude) [
    | inl e ↦ rw e (h.0, of_kind-All P true l h.1)
    | inr e ↦ rw e (of_kind-All P true l h.1)
  ]
  of_kind-All P false (r ∷ l) h = elim (Bool-cases r.exclude) [
    | inl e ↦ rw e (of_kind-All P false l h.1)
    | inr e ↦ rw e (h.0, of_kind-All P false l h.1)
  ]

  built :
      (include exclude : List Bytes) (m : RegexpMatcher)
      → new_regexp_matcher include exclude ≡ ok m
      → m ≡ record { include = build include; exclude = build exclude; inverse = false }
  built [] exclude m h = cc
  built (r ∷ include) exclude m h = ok_injective h refl

  -- A matcher made from a list of rules, none of them empty, matches exactly the texts that an included rule matches and no
  -- excluded rule does, and its inverse exactly the others, when the rules are of a kind of expressions that the bar joins to one
  -- of that kind, which matches what one of the two does; a rule with a flag such as `(?i)` that is not in a group is of no such kind.
  pub match-any_matches :
      (l : List RegexpListItem) (m : RegexpMatcher) (s : Bytes)
      → All (λ r. NotEmpty r.regexp) l
      → All (λ r. IsWhole r.regexp) l
      → new_regexp_matcher_from_list l ≡ ok m
      → (match match_string m s
          ≡ (any_matches match_string false l s && not (any_matches match_string true l s)))
        × (match match_string (inverse_of m) s
            ≡ not (any_matches match_string false l s && not (any_matches match_string true l s)))
  unfolding match
  match-any_matches l m s full whole h = ground (
    arith,
    built (of_kind false l) (of_kind true l) m h,
    match_part-build (of_kind false l) s (of_kind-All NotEmpty false l full)
        (of_kind-All IsWhole false l whole),
    match_part-build (of_kind true l) s (of_kind-All NotEmpty true l full)
        (of_kind-All IsWhole true l whole),
    of_kind-any_of false l s,
    of_kind-any_of true l s,
  )

-- A rule's text is parsed as the rule, when its expression compiles and does not begin with a dash if it is an included one.
pub parse_regexp_list_item-show_item :
    (compile : Bytes → Option Bytes) (r : RegexpListItem)
    → compile r.regexp ≡ none
    → (r.exclude ≡ false → has_prefix r.regexp (codes "-") ≡ false)
    → parse_regexp_list_item compile (show_item r) ≡ ok r
unfolding parse_regexp_list_item
parse_regexp_list_item-show_item compile r h k = ground (arith, k)
