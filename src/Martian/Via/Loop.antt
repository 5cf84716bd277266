-- ===== src/Martian/Via/Loop.antt =====
-- A request that comes back is refused.
use forwarder.Base.{
  ℕ, ◌≡◌, ◌∙◌, refl, ap, sym, Bool, true, false, [], ◌∷◌, ◌++◌, append_assoc, Bytes, codes,
  contains, contains-append, beq, ok, err, if◌then◌else◌, Bool-cases, inl, inr, beq_refl,
}
use forwarder.Http.Headers.{Headers, get, set_header, values-put}
use forwarder.Http.Message.{Request}
use forwarder.Http.Text.{canonical}
use forwarder.Martian.Via.{LoopError, version_prefix, new_via, modify_request}

pub get-set_header : (k v : Bytes) (h : Headers) → get (set_header k v h) k ≡ v
get-set_header k v h =
    rw (values-put (canonical k) (v ∷ []) h (canonical k), beq_refl (canonical k))

-- What stands before the blank and the tag at the end of the Via header that a pass leaves.
abbrev before_tag : Bytes → Request → Bytes
before_tag via req =
    let version = version_prefix req.proto_major req.proto_minor in
    if beq via [] then version else via ++ (codes ", " ++ version)

new_via-before_tag :
    (tag via : Bytes) (req : Request) → new_via tag via req ≡ before_tag via req ++ (b' ' ∷ tag)
new_via-before_tag tag via req = elim (Bool-cases (beq via [])) [
  | inl h ↦ rw h
  | inr h ↦ rw (h, append_assoc)
]

module _ (c : ℕ) (t : Bytes) where
  contains_between : (a p b : Bytes) → contains (a ++ ((p ++ (c ∷ t)) ++ b)) t ≡ true
  contains_between a p b =
      rw
        (
          append_assoc p (c ∷ t) b,
          ← append_assoc p (c ∷ []) (t ++ b),
          ← append_assoc a (p ++ (c ∷ [])) (t ++ b),
        )
        (contains-append (a ++ (p ++ (c ∷ []))) t b)

  ne_nil_between : (a p b : Bytes) → beq (a ++ ((p ++ (c ∷ t)) ++ b)) [] ≡ false
  ne_nil_between (x ∷ a) p b = refl
  ne_nil_between [] (x ∷ p) b = refl
  ne_nil_between [] [] b = refl

guarded_ok :
    (b c : Bool) (e : LoopError) {x y : Request}
    → (if b then ok x else if c then err e else ok x) ≡ ok y
    → x ≡ y
guarded_ok true c e h = cc
guarded_ok false true e h = cc
guarded_ok false false e h = cc

modify_request_left :
    (tag : Bytes) (req req' : Request)
    → modify_request tag req ≡ ok req'
    → get req'.header (codes "Via") ≡ new_via tag (get req.header (codes "Via")) req
unfolding modify_request
modify_request_left tag req req' h =
    let via = get req.header (codes "Via") in
    ap (λ r. get r.header (codes "Via")) (sym (guarded_ok (beq via []) (contains via tag) _ h))
    ∙ get-set_header (codes "Via") (new_via tag via req) req.header

-- A request that a proxy lets through, and that comes to the same proxy again with the Via header that
-- it left, whatever else was added around that header's value, is refused with status 400 and closed.
pub modify_request_twice :
    (tag before after : Bytes) (req req' again : Request)
    → modify_request tag req ≡ ok req'
    → get again.header (codes "Via") ≡ before ++ (get req'.header (codes "Via") ++ after)
    → modify_request tag again
      ≡ err (record {
        status = 400;
        via = get again.header (codes "Via");
        closed = record again { close = true };
      })
unfolding modify_request
modify_request_twice tag before after req req' again h e =
    let p = before_tag (get req.header (codes "Via")) req in
    let seen =
      e
      ∙ ap (λ v. before ++ (v ++ after))
          (modify_request_left tag req req' h ∙ new_via-before_tag tag _ req) in
    rw (
      ap (λ v. beq v []) seen ∙ ne_nil_between b' ' tag before p after,
      ap (λ v. contains v tag) seen ∙ contains_between b' ' tag before p after,
    )
