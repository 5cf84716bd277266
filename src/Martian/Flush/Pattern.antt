-- ===== src/Martian/Flush/Pattern.antt =====
-- When the writer flushes.
use forwarder.Base.{
  ℕ, suc, ◌-◌, ◌<◌, ◌≡◌, ◌≢◌, ◌↔◌, refl, sym, ap, ◌∙◌, Bool, true, ◌&&◌, ◌||◌, none, List, [], ◌∷◌,
  ◌++◌, append_assoc, Bytes, contains, contains-append, concat, append-nil, Bool-cases, inl, inr,
  drop, length, length-append, get_or, All, ◌==◌, arith,
}
use forwarder.Martian.Flush.{FlushWriter, new_pattern_flush_writer, at_pattern, write}

-- The last byte of a stream, and 0 of an empty one.
abbrev last_of : Bytes → ℕ
last_of [] = 0
last_of (c ∷ []) = c
last_of (c ∷ d ∷ s) = last_of (d ∷ s)

-- The pattern stands in the stream `s` with `p` behind it, and ends in `p`.
abbrev pub EndsIn : ℕ → ℕ → Bytes → Bytes → Type 0
EndsIn x y s p = (a : Bytes) × (b : Bytes) × (s ++ p ≡ a ++ (x ∷ y ∷ b)) × (length b < length p)

module _ (x y : ℕ) where
  abbrev found : Bytes → Bool
  found p = contains p (x ∷ y ∷ [])

  later : (c : ℕ) (p : Bytes) → EndsIn x y [] p → EndsIn x y [] (c ∷ p)
  later c p (a, b, e, l) = (c ∷ a, b, ap (λ k. c ∷ k) e, omega arith)

  contains-EndsIn : (p : Bytes) → found p ≡ true → EndsIn x y [] p
  contains-EndsIn [] h = cc
  contains-EndsIn (c ∷ []) h = absurd (ground arith)
  contains-EndsIn (c ∷ d ∷ p) h = elim (Bool-cases ((c == x) && (d == y))) [
    | inl e ↦ ([], p, ground arith, omega arith)
    | inr e ↦ later c (d ∷ p) (contains-EndsIn (d ∷ p) (ground arith))
  ]

  EndsIn-contains : (p : Bytes) → EndsIn x y [] p → found p ≡ true
  EndsIn-contains p (a, b, e, l) = rw e (contains-append a (x ∷ y ∷ []) b)

  -- The test of `Write` after the stream `s`.
  abbrev tests : Bytes → Bytes → Bool
  tests s p = (last_of s == x && get_or p 0 0 == y) || found p

  tests-EndsIn : (s p : Bytes) → x ≢ 0 → 0 < length p → tests s p ≡ true → EndsIn x y s p
  tests-EndsIn [] p k l h = contains-EndsIn p (ground arith)
  tests-EndsIn (c ∷ []) [] k l h = absurd (omega arith)
  tests-EndsIn (c ∷ []) (d ∷ p) k l h = elim (Bool-cases ((c == x) && (d == y))) [
    | inl e ↦ ([], p, ground arith, omega arith)
    | inr e ↦
        let (a, b, f, m) = contains-EndsIn (d ∷ p) (ground arith) in
        (c ∷ a, b, ap (λ k. c ∷ k) f, m)
  ]
  tests-EndsIn (c ∷ d ∷ s) p k l h =
      let (a, b, f, m) = tests-EndsIn (d ∷ s) p k l h in (c ∷ a, b, ap (λ k. c ∷ k) f, m)

  EndsIn-tests : (s p : Bytes) → EndsIn x y s p → tests s p ≡ true
  EndsIn-tests [] p h = ground (arith, EndsIn-contains p h)
  EndsIn-tests (c ∷ []) p ([], b, f, m) =
      let e : p ≡ y ∷ b = ap (λ l. drop 1 l) f in
      let g : c ≡ x = ap (λ l. get_or l 0 0) f in rw e (ground (arith, g))
  EndsIn-tests (c ∷ []) p (e ∷ a, b, f, m) =
      ground (arith, EndsIn-contains p (a, b, ap (λ l. drop 1 l) f, m))
  EndsIn-tests (c ∷ d ∷ s) p ([], b, f, m) =
      absurd (omega (arith, ap (λ l. length l) f, length-append s p))
  EndsIn-tests (c ∷ d ∷ s) p (e ∷ a, b, f, m) =
      EndsIn-tests (d ∷ s) p (a, b, ap (λ l. drop 1 l) f, m)

-- A sequence of writes, all of them taken whole.
abbrev pub writes : FlushWriter → List Bytes → FlushWriter
writes w [] = w
writes w (p ∷ ps) = writes (write {E = ℕ} none w p (length p) none).writer ps

abbrev pub IsData : Bytes → Type 0
IsData p = 0 < length p

suc-sub : (n : ℕ) → suc n - 1 ≡ n
suc-sub n = omega arith

last_of-get : (p : Bytes) → 0 < length p → last_of p ≡ get_or p (length p - 1) 0
last_of-get [] h = absurd (omega arith)
last_of-get (c ∷ []) h = refl
last_of-get (c ∷ d ∷ p) h =
    rw (suc-sub (suc (length p))) (last_of-get (d ∷ p) (omega arith) ∙ rw (suc-sub (length p)) refl)

last_of-append : (s p : Bytes) → 0 < length p → last_of (s ++ p) ≡ last_of p
last_of-append [] p h = refl
last_of-append (c ∷ []) [] h = absurd (omega arith)
last_of-append (c ∷ []) (d ∷ p) h = refl
last_of-append (c ∷ d ∷ s) p h = last_of-append (d ∷ s) p h

writes_lem :
    (w : FlushWriter) (s : Bytes) (ps : List Bytes)
    → All IsData ps
    → w.last ≡ last_of s
    → ((writes w ps).last ≡ last_of (s ++ concat ps)) × ((writes w ps).pattern ≡ w.pattern)
unfolding write
writes_lem w s [] h e = (e ∙ ap last_of (sym (append-nil s)), refl)
writes_lem w s (p ∷ ps) (full, h) e =
    let w' = (write {E = ℕ} none w p (length p) none).writer in
    let now : w'.last ≡ last_of (s ++ p) =
      ground (arith, last_of-get p full, last_of-append s p full) in
    let (a, b) = writes_lem w' (s ++ p) ps h now in
    (a ∙ ap last_of (append_assoc s p (concat ps)), b)

-- After writes that were taken whole, none of them empty, the next such write flushes exactly when the pattern of two bytes, the first
-- one not 0, stands in the stream so far and ends in this write, also when it is cut between two writes.
pub write_flushes_iff :
    (x y : ℕ) (ps : List Bytes) (p : Bytes)
    → x ≢ 0
    → All IsData ps
    → 0 < length p
    → ((write {E = ℕ} none (writes (new_pattern_flush_writer (x, y)) ps) p (length p) none).flushed
        ≡ true)
      ↔ EndsIn x y (concat ps) p
unfolding write
write_flushes_iff x y ps p k h l =
    let (a, b) = writes_lem (new_pattern_flush_writer (x, y)) [] ps h refl in
    let e : at_pattern (writes (new_pattern_flush_writer (x, y)) ps) p (length p)
        ≡ tests x y (concat ps) p =
      ground (arith, a, b) in
    (λ f. tests-EndsIn x y (concat ps) p k l (sym e ∙ f), λ f. e ∙ EndsIn-tests x y (concat ps) p f)
