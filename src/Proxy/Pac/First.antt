-- ===== src/Proxy/Pac/First.antt =====
-- The first proxy of a list.
use forwarder.Base.{
  ℕ, ◌≡◌, refl, sym, ap, ◌∙◌, Option, none, some, List, [], ◌∷◌, Bytes, cut, ok, bind-eq-ok,
  ok_injective, ◌==◌, Bool-cases, inl, inr,
}
use forwarder.Http.Text.{split_by, onto_first}
use forwarder.Proxy.Pac.{
  Proxy, no_proxy, first_proxy, all_proxies, before_cut, parse_each, parse_proxy,
}

-- What is cut off is the first part, and the rest has the others.
abbrev Parts : List Bytes → Bytes → Option (Bytes × Bytes) → Type 0
Parts vs s none = vs ≡ s ∷ []
Parts vs s (some (a, b)) = vs ≡ a ∷ split_by b';' b

onto_first-Parts :
    (c : ℕ) (vs : List Bytes) (s : Bytes) (o : Option (Bytes × Bytes))
    → Parts vs s o
    → Parts (onto_first c vs) (c ∷ s) (elim o [ none ↦ none | some (a, b) ↦ some (c ∷ a, b) ])
onto_first-Parts c vs s none h = ap (onto_first c) h
onto_first-Parts c vs s (some (a, b)) h = ap (onto_first c) h

split_by-cut : (s : Bytes) → Parts (split_by b';' s) s (cut b';' s)
unfolding split_by
split_by-cut [] = refl
split_by-cut (c ∷ s) = elim (Bool-cases (c == b';')) [
  | inl e ↦ rw e refl
  | inr e ↦ rw e (onto_first-Parts c (split_by b';' s) s (cut b';' s) (split_by-cut s))
]

split_by-before_cut :
    (vs : List Bytes) (s : Bytes) (o : Option (Bytes × Bytes))
    → Parts vs s o
    → (rest : List Bytes) × (vs ≡ elim o [ none ↦ s | some (a, b) ↦ a ] ∷ rest)
split_by-before_cut vs s none h = ([], h)
split_by-before_cut vs s (some (a, b)) h = (split_by b';' b, h)

-- When the whole list is read, its first proxy is what the list's first entry alone is read as; with no list that is the direct way.
pub first_proxy-all_proxies :
    (split_host_port : Bytes → Option (Bytes × Bytes)) (s : Bytes) (ps : List Proxy)
    → all_proxies split_host_port s ≡ ok ps
    → first_proxy split_host_port s ≡ ok (elim ps [ [] ↦ no_proxy | p ∷ rest ↦ p ])
unfolding first_proxy all_proxies
first_proxy-all_proxies split_host_port [] ps h = rw (sym (ok_injective refl h))
first_proxy-all_proxies split_host_port (c ∷ s) ps h =
    let (rest, parts) = split_by-before_cut _ (c ∷ s) _ (split_by-cut (c ∷ s)) in
    let (p, later, first) =
      bind-eq-ok (parse_proxy split_host_port (before_cut split_host_port (c ∷ s)))
        (rw parts at h) in
    let (qs, last, each) = bind-eq-ok (parse_each split_host_port rest) later in
    first ∙ rw (sym (ok_injective refl last))
