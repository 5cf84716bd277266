-- ===== src/Martian/Framing/Agreement.antt =====
-- What a request that is let through says of its body's length.
use mathlib.Core.Path.{subst}
use forwarder.Base.{
  ◌≡◌, refl, sym, ap, ◌∙◌, ◌⊎◌, inl, inr, Bool, true, false, none, some, List, [], ◌∷◌, Bytes,
  codes, beq, beq_iff, All, ok, err, bind-eq-ok, ok_injective, arith, if◌then◌else◌,
}
use forwarder.Http.Headers.{Headers, values, put, remove, or_nil, values-put, values-remove}
use forwarder.Http.Text.{canonical, trim_space, split_by}
use forwarder.Martian.Framing.{
  FramingError, canonical_length, split_values, last_of, fix_length, fix_encoding, modify_request,
}

content_length-canonical : canonical (codes "Content-Length") ≡ codes "Content-Length"
unfolding canonical
content_length-canonical = refl

-- A length is blank or the one that was found.
abbrev pub Agrees : Bytes → Bytes → Type 0
Agrees n l = (trim_space l ≡ []) ⊎ (trim_space l ≡ n)

canonical_length-Agrees :
    (cls : List Bytes) (length : Bytes) (ls : List Bytes) (n : Bytes)
    → canonical_length cls length ls ≡ ok n
    → All (Agrees n) ls × ((length ≡ []) ⊎ (length ≡ n))
canonical_length-Agrees cls length [] n h = (tt, inr (ok_injective refl h))
canonical_length-Agrees cls length (l ∷ ls) n h = ground (
  arith,
  canonical_length-Agrees cls (trim_space l) ls n,
  canonical_length-Agrees cls length ls n,
  beq_iff length [],
  beq_iff length (trim_space l),
)

-- The lengths agree, and one is left.
abbrev pub HasOneLength : Headers → Headers → Type 0
HasOneLength h h' =
    (n : Bytes) × (values h' (codes "Content-Length") ≡ some (n ∷ []))
    × All (Agrees n) (split_values (or_nil (values h (codes "Content-Length"))))

one_left :
    (h h' : Headers) (n : Bytes)
    → put (canonical (codes "Content-Length")) (n ∷ []) h ≡ h'
    → values h' (codes "Content-Length") ≡ some (n ∷ [])
one_left h h' n e =
    ap (λ k. values k (codes "Content-Length")) (sym e)
    ∙ rw (
      values-put (canonical (codes "Content-Length")) (n ∷ []) h (codes "Content-Length"),
      content_length-canonical,
    )

fix_length_lem :
    (h h' : Headers)
    → fix_length h ≡ ok h'
    → (or_nil (values h' (codes "Content-Length")) ≡ []) ⊎ HasOneLength h h'
fix_length_lem h h' e = go (or_nil (values h (codes "Content-Length"))) refl
  where
    go :
        (vs : List Bytes)
        → or_nil (values h (codes "Content-Length")) ≡ vs
        → (or_nil (values h' (codes "Content-Length")) ≡ []) ⊎ HasOneLength h h'
    go [] w =
        let same : h ≡ h' = ok_injective refl (rw (w, fix_length) at e) in
        inl (ap (λ k. or_nil (values k (codes "Content-Length"))) (sym same) ∙ w)
    go (c ∷ cs) w =
        let (n, set, found) =
          bind-eq-ok (canonical_length (c ∷ cs) [] (split_values (c ∷ cs)))
            (rw (w, fix_length) at e) in
        inr (
          n,
          one_left h h' n (ok_injective refl set),
          rw w ((canonical_length-Agrees (c ∷ cs) [] _ n found).0),
        )

-- The last transfer coding is chunked.
abbrev pub EndsInChunked : Headers → Type 0
EndsInChunked h =
    trim_space (last_of (split_by b',' (last_of (or_nil (values h (codes "Transfer-Encoding"))))))
    ≡ codes "chunked"

-- How the end of the body is known: by nothing, by one length, or by chunks alone.
abbrev pub Framed : Headers → Headers → Type 0
Framed h h' =
    ((or_nil (values h' (codes "Transfer-Encoding")) ≡ [])
      × ((or_nil (values h' (codes "Content-Length")) ≡ []) ⊎ HasOneLength h h'))
    ⊎ ((values h' (codes "Content-Length") ≡ none) × EndsInChunked h')

test_ok :
    (b : Bool) {x y : Headers} (e : FramingError)
    → (if b then ok x else err e) ≡ ok y
    → (b ≡ true) × (x ≡ y)
test_ok true e h = (refl, ok_injective refl h)
test_ok false e h = cc

without_length :
    (h h' : Headers) (t : Bytes) (ts : List Bytes)
    → remove (canonical (codes "Content-Length")) h ≡ h'
    → or_nil (values h (codes "Transfer-Encoding")) ≡ t ∷ ts
    → trim_space (last_of (split_by b',' (last_of (t ∷ ts)))) ≡ codes "chunked"
    → (values h' (codes "Content-Length") ≡ none) × EndsInChunked h'
without_length h h' t ts e w chunked =
    subst (λ k. (values k (codes "Content-Length") ≡ none) × EndsInChunked k) e
      (
        rw (
          values-remove (canonical (codes "Content-Length")) h (codes "Content-Length"),
          content_length-canonical,
        ),
        rw
            (
              values-remove (canonical (codes "Content-Length")) h (codes "Transfer-Encoding"),
              content_length-canonical,
              w,
            )
            chunked,
      )

fix_encoding-Framed :
    (h h₁ h' : Headers)
    → fix_encoding h₁ ≡ ok h'
    → (or_nil (values h₁ (codes "Content-Length")) ≡ []) ⊎ HasOneLength h h₁
    → Framed h h'
fix_encoding-Framed h h₁ h' e one = go (or_nil (values h₁ (codes "Transfer-Encoding"))) refl
  where
    go : (vs : List Bytes) → or_nil (values h₁ (codes "Transfer-Encoding")) ≡ vs → Framed h h'
    go [] w =
        let same : h₁ ≡ h' = ok_injective refl (rw (w, fix_encoding) at e) in
        inl (
          subst
            (λ k.
              (or_nil (values k (codes "Transfer-Encoding")) ≡ [])
              × ((or_nil (values k (codes "Content-Length")) ≡ []) ⊎ HasOneLength h k))
            same (w, one))
    go (t ∷ ts) w =
        let (chunked, same) =
          test_ok (beq (trim_space (last_of (split_by b',' (last_of (t ∷ ts))))) (codes "chunked"))
            _ (rw (w, fix_encoding) at e) in
        inr (without_length h₁ h' t ts same w ((beq_iff _ (codes "chunked")).0 chunked))

-- When the modifier lets a request through, there is no transfer coding and there are no lengths or one that all the lengths of the request are,
-- blank ones apart, or there is no length and the last transfer coding is chunked.
pub modify_request-Framed : (h h' : Headers) → modify_request h ≡ ok h' → Framed h h'
unfolding modify_request
modify_request-Framed h h' e =
    let (h₁, e₁, e₀) = bind-eq-ok (fix_length h) e in
    fix_encoding-Framed h h₁ h' e₁ (fix_length_lem h h₁ e₀)
