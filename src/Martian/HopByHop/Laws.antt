-- ===== src/Martian/HopByHop/Laws.antt =====
-- Which headers are left.
use mathlib.Core.Path.{subst}
use forwarder.Base.{
  ◌≡◌, refl, sym, ap, ◌∙◌, ◌||◌, ◌==◌, ◌⊎◌, true, false, none, List, [], ◌∷◌, ◌++◌, map, concat,
  Bytes, codes, beq, beq_iff, occurs, if◌then◌else◌, Bool-cases, inl, inr, arith,
}
use forwarder.Http.Headers.{Headers, values, or_nil, del_all, is_in, values-del_all}
use forwarder.Http.Text.{canonical, trim_space, split_by}
use forwarder.Martian.HopByHop.{hop_by_hop_headers, named, remove_hop_by_hop_headers}

hop_by_hop_headers-canonical : map canonical hop_by_hop_headers ≡ hop_by_hop_headers
unfolding canonical
hop_by_hop_headers-canonical = refl

values-del_twice :
    (hs ks : List Bytes) (h : Headers) (j : Bytes)
    → values (del_all hs (del_all ks h)) j
      ≡ (if is_in j (map canonical hs) || is_in j (map canonical ks) then none else values h j)
values-del_twice hs ks h j =
    values-del_all hs (del_all ks h) j ∙ (elim (Bool-cases (is_in j (map canonical hs))) [
      | inl here ↦ rw here
      | inr there ↦ rw there (values-del_all ks h j)
    ])

-- The elements of a list that is separated by commas.
pub data Element : Bytes → Bytes → Type 0 where
  alone : {t : Bytes} → occurs b',' t ≡ false → Element t t
  front : (t s : Bytes) → occurs b',' t ≡ false → Element (t ++ (b',' ∷ s)) t
  later :
      (u s : Bytes) {t : Bytes} → occurs b',' u ≡ false → Element s t → Element (u ++ (b',' ∷ s)) t

-- Some entry of a list has a property.
abbrev pub Some {ℓ} : {A : Type ℓ} → (A → Type 0) → List A → Type 0
Some P [] = ⊥
Some P (x ∷ xs) = P x ⊎ Some P xs

-- An element of a text names the header, spaces around it apart, in whatever case.
abbrev pub Names : Bytes → Bytes → Type 0
Names j v = (t : Bytes) × Element v t × (canonical (canonical (trim_space t)) ≡ j)

-- A header is one of the specification, by their names in their usual case, or is named by a value of Connection.
abbrev pub IsHopByHop : Bytes → Type 0
IsHopByHop j =
    Some (λ k. k ≡ j)
      (codes "Connection"
        ∷ codes "Keep-Alive"
        ∷ codes "Proxy-Authenticate"
        ∷ codes "Proxy-Authorization"
        ∷ codes "Proxy-Connection"
        ∷ codes "Te"
        ∷ codes "Trailer"
        ∷ codes "Transfer-Encoding"
        ∷ codes "Upgrade"
        ∷ [])

abbrev pub IsRemoved : Headers → Bytes → Type 0
IsRemoved h j = IsHopByHop j ⊎ Some (Names j) (or_nil (values h (codes "Connection")))

-- The first part of a text, and what is behind it.
first_part :
    (s : Bytes)
    → (p : Bytes) × (ps : List Bytes) × (split_by b',' s ≡ p ∷ ps)
      × (occurs b',' p ≡ false)
      × (((ps ≡ []) × (s ≡ p)) ⊎ ((r : Bytes) × (s ≡ p ++ (b',' ∷ r)) × (ps ≡ split_by b',' r)))
unfolding split_by
first_part [] = ([], [], refl, refl, inl (refl, refl))
first_part (c ∷ s) = elim (Bool-cases (c == b',')) [
  | inl e ↦
      let k : c ≡ b',' = ground (arith, e) in
      ([], split_by b',' s, rw e refl, refl, inr (s, rw k refl, refl))
  | inr e ↦
      let (p, ps, h, clean, rest) = first_part s in
      (
        c ∷ p,
        ps,
        rw (e, h) refl,
        ground (arith, e, clean),
        (elim rest [
          | inl (k, l) ↦ inl (k, ap (◌∷◌ c) l)
          | inr (r, k, l) ↦ inr (r, ap (◌∷◌ c) k, l)
        ]),
      )
]

split_by-front :
    (u r : Bytes) → occurs b',' u ≡ false → split_by b',' (u ++ (b',' ∷ r)) ≡ u ∷ split_by b',' r
unfolding split_by
split_by-front [] r h = refl
split_by-front (c ∷ u) r h =
    let k : occurs b',' u ≡ false = ground (arith, h) in
    let z : (c == b',') ≡ false = ground (arith, h) in rw (z, split_by-front u r k) refl

split_by-only : (u : Bytes) → occurs b',' u ≡ false → split_by b',' u ≡ u ∷ []
unfolding split_by
split_by-only [] h = refl
split_by-only (c ∷ u) h =
    let k : occurs b',' u ≡ false = ground (arith, h) in
    let z : (c == b',') ≡ false = ground (arith, h) in rw (z, split_by-only u k) refl

-- The name that a part of a value stands for, as it is deleted.
abbrev key_of : Bytes → Bytes
key_of t = canonical (canonical (trim_space t))

abbrev keys_of : List Bytes → List Bytes
keys_of ps = map canonical (map (λ v. canonical (trim_space v)) ps)

is_in-keys_append :
    (j : Bytes) (ps qs : List Bytes)
    → is_in j (keys_of (ps ++ qs)) ≡ (is_in j (keys_of ps) || is_in j (keys_of qs))
is_in-keys_append j [] qs = refl
is_in-keys_append j (p ∷ ps) qs = ground (arith, is_in-keys_append j ps qs)

first_Element :
    (s p : Bytes) (ps : List Bytes)
    → occurs b',' p ≡ false
    → ((ps ≡ []) × (s ≡ p)) ⊎ ((r : Bytes) × (s ≡ p ++ (b',' ∷ r)) × (ps ≡ split_by b',' r))
    → Element s p
first_Element s p ps clean (inl (k, l)) = rw l (alone clean)
first_Element s p ps clean (inr (r, k, l)) = rw k (front p r clean)

keys-Names :
    (j : Bytes) (qs : List Bytes) (s : Bytes)
    → split_by b',' s ≡ qs
    → is_in j (keys_of qs) ≡ true
    → Names j s
keys-Names j [] s e h = cc
keys-Names j (q ∷ qs) s e h =
    let (p, ps, f, clean, rest) = first_part s in
    let hq : p ≡ q = cc in
    let hqs : ps ≡ qs = cc in
    elim (Bool-cases (beq (key_of q) j)) [
      | inl same ↦
          (q, subst (Element s) hq (first_Element s p ps clean rest), (beq_iff (key_of q) j).0 same)
      | inr differ ↦
          let k : is_in j (keys_of qs) ≡ true = rw differ at h in
          elim rest [
            | inl (none_left, l) ↦ absurd (empty qs (sym hqs ∙ none_left) k)
            | inr (r, l, m) ↦
                let (t, x, y) = keys-Names j qs r (sym m ∙ hqs) k in
                (t, rw l (later p r clean x), y)
          ]
    ]
  where
    empty : (l : List Bytes) → l ≡ [] → is_in j (keys_of l) ≡ true → ⊥
    empty l z y =
        let w : is_in j (keys_of []) ≡ true = subst (λ i. is_in j (keys_of i) ≡ true) z y in cc

Names-keys :
    {s t : Bytes}
    → Element s t
    → (j : Bytes) → key_of t ≡ j
    → is_in j (keys_of (split_by b',' s)) ≡ true
Names-keys {s} (alone clean) j e =
    rw (split_by-only s clean) (ground (arith, (beq_iff (key_of s) j).1 e))
Names-keys (front t s clean) j e =
    rw (split_by-front t s clean) (ground (arith, (beq_iff (key_of t) j).1 e))
Names-keys (later u s clean x) j e =
    rw (split_by-front u s clean) (let k = Names-keys x j e in ground (arith, k))

named-Some :
    (j : Bytes) (vs : List Bytes) → is_in j (map canonical (named vs)) ≡ true → Some (Names j) vs
named-Some j [] h = cc
named-Some j (v ∷ vs) h =
    let e = is_in-keys_append j (split_by b',' v) (concat (map (split_by b',') vs)) in
    elim (Bool-cases (is_in j (keys_of (split_by b',' v)))) [
      | inl here ↦ inl (keys-Names j (split_by b',' v) v refl here)
      | inr there ↦ inr (named-Some j vs (ground (arith, e, there, h)))
    ]

Some-named :
    (j : Bytes) (vs : List Bytes) → Some (Names j) vs → is_in j (map canonical (named vs)) ≡ true
Some-named j [] h = absurd h
Some-named j (v ∷ vs) (inl (t, x, y)) =
    is_in-keys_append j (split_by b',' v) (concat (map (split_by b',') vs))
    ∙ rw (Names-keys x j y) refl
Some-named j (v ∷ vs) (inr h) =
    let e = is_in-keys_append j (split_by b',' v) (concat (map (split_by b',') vs)) in
    let k = Some-named j vs h in ground (arith, e, k)

Some-is_in : (j : Bytes) (ks : List Bytes) → Some (λ k. k ≡ j) ks → is_in j ks ≡ true
Some-is_in j [] h = absurd h
Some-is_in j (k ∷ ks) (inl e) = rw ((beq_iff k j).1 e) refl
Some-is_in j (k ∷ ks) (inr h) = let e = Some-is_in j ks h in ground (arith, e)

is_in-Some : (j : Bytes) (ks : List Bytes) → is_in j ks ≡ true → Some (λ k. k ≡ j) ks
is_in-Some j [] h = cc
is_in-Some j (k ∷ ks) h = elim (Bool-cases (beq k j)) [
  | inl same ↦ inl ((beq_iff k j).0 same)
  | inr differ ↦ inr (is_in-Some j ks (rw differ at h))
]

left :
    (h : Headers) (j : Bytes)
    → values (remove_hop_by_hop_headers h) j ≡ (
        if is_in j hop_by_hop_headers
          || is_in j (map canonical (named (or_nil (values h (codes "Connection")))))
        then none
        else values h j)
unfolding remove_hop_by_hop_headers
left h j =
    let ks = named (or_nil (values h (codes "Connection"))) in
    subst
      (λ hs.
        values (remove_hop_by_hop_headers h) j
        ≡ (if is_in j hs || is_in j (map canonical ks) then none else values h j))
      hop_by_hop_headers-canonical (values-del_twice hop_by_hop_headers ks h j)

-- A header is removed if it is one of the nine hop-by-hop headers, or if an element of a value of the Connection header, which
-- commas separate, is its name, in any case and with spaces around it; every other header keeps its values.
pub values-remove_hop_by_hop_headers :
    (h : Headers) (j : Bytes)
    → (IsRemoved h j × (values (remove_hop_by_hop_headers h) j ≡ none))
      ⊎ (¬ (IsRemoved h j) × (values (remove_hop_by_hop_headers h) j ≡ values h j))
values-remove_hop_by_hop_headers h j =
    let vs = or_nil (values h (codes "Connection")) in
    elim (Bool-cases (is_in j hop_by_hop_headers)) [
      | inl own ↦ inl (inl (is_in-Some j hop_by_hop_headers own), left h j ∙ rw own refl)
      | inr other ↦ elim (Bool-cases (is_in j (map canonical (named vs)))) [
        | inl listed ↦ inl (inr (named-Some j vs listed), left h j ∙ rw (other, listed) refl)
        | inr kept ↦ inr (
          λ gone. elim gone [
            | inl x ↦ let e = Some-is_in j hop_by_hop_headers x in cc
            | inr x ↦ let e = Some-named j vs x in cc
          ],
          left h j ∙ rw (other, kept) refl,
        )
      ]
    ]
