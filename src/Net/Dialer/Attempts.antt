-- ===== src/Net/Dialer/Attempts.antt =====
-- net.go: which attempt of the Dialer gives the connection.
use forwarder.Base.{
  ℕ, zero, suc, ◌+◌, ◌<◌, ◌≡◌, ◌⊎◌, inl, inr, refl, sym, ap, ◌∙◌, Bool, true, false, Option, none,
  some, List, [], ◌∷◌, ◌++◌, Bytes, Result, ok, err, arith,
}
use forwarder.Base.Int.{ℤ, pos, negsuc}
use forwarder.Net.Dialer.{
  Dialed, DialEvent, slept, counted_retry, counted_error, counted_dial, tried, closed, Retry,
  attempts_of, pause, closes_failed, after_calls, dial_loop, dial_with_retry,
}

-- The attempts that were made, and those whose connections were closed.
abbrev pub made : List DialEvent → List ℕ
made [] = []
made (tried i ∷ es) = i ∷ made es
made (e ∷ es) = made es

abbrev pub pauses : List DialEvent → ℕ
pauses [] = 0
pauses (slept d ∷ es) = suc (pauses es)
pauses (e ∷ es) = pauses es

-- The numbers from `i` on.
abbrev pub from : ℕ → ℕ → List ℕ
from i zero = []
from i (suc n) = i ∷ from (suc i) n

made-append : (es fs : List DialEvent) → made (es ++ fs) ≡ made es ++ made fs
made-append [] fs = refl
made-append (tried i ∷ es) fs = ap (λ k. i ∷ k) (made-append es fs)
made-append (slept d ∷ es) fs = made-append es fs
made-append (counted_retry a ∷ es) fs = made-append es fs
made-append (counted_error a ∷ es) fs = made-append es fs
made-append (counted_dial a ∷ es) fs = made-append es fs
made-append (closed i ∷ es) fs = made-append es fs

made-attempt :
    (rt : Retry) (address : Bytes) (i : ℕ) (c : Bool)
    → made (pause rt address i ++ (tried i ∷ closes_failed c i)) ≡ i ∷ []
made-attempt rt address zero true = refl
made-attempt rt address zero false = refl
made-attempt rt address (suc i) true = refl
made-attempt rt address (suc i) false = refl

made-last :
    (rt : Retry) (address : Bytes) (i : ℕ) → made (pause rt address i ++ (tried i ∷ [])) ≡ i ∷ []
made-last rt address i = made-attempt rt address i false

-- How many attempts a configured number allows: that many, and one if it is 0 or negative.
abbrev pub Allowed : ℤ → ℕ → Type 0
Allowed z n = ((z ≡ pos n) × (0 < n)) ⊎ ((n ≡ 1) × ((z ≡ pos 0) ⊎ ((k : ℕ) × (z ≡ negsuc k))))

module _ {E : Type 0} (dial : ℕ → Dialed E) where
  -- The next `n` attempts from `i` on fail.
  abbrev pub AllFail : ℕ → ℕ → Type 0
  AllFail i zero = Unit
  AllFail i (suc n) = ((e : E) × ((dial i).error ≡ some e)) × AllFail (suc i) n

  abbrev pub last_error : ℕ → ℕ → Option E → Option E
  last_error i zero last = last
  last_error i (suc n) last = last_error (suc i) n (dial i).error

  abbrev pub DialResult : ℕ → ℕ → Option E → Result (Option E) ℕ × List DialEvent → Type 0
  DialResult i n last (r, es) =
      ((k : ℕ) × (k < n)
        × (r ≡ ok (i + k))
        × ((dial (i + k)).error ≡ none)
        × AllFail i k
        × (made es ≡ from i (suc k)))
      ⊎ ((r ≡ err (last_error i n last)) × AllFail i n × (made es ≡ from i n))

  -- A failed attempt in front of the others.
  failed-DialResult :
      (es : List DialEvent) (n i : ℕ) (last : Option E) (e : E)
      (res : Result (Option E) ℕ × List DialEvent)
      → (dial i).error ≡ some e
      → made es ≡ i ∷ []
      → DialResult (suc i) n (some e) res
      → DialResult i (suc n) last (after_calls dial es res)
  failed-DialResult es n i last e (res, fs) q m (inl (k, b, r, z, f, m')) =
      let j : suc i + k ≡ i + suc k = omega arith in
      inl (
        suc k,
        omega arith,
        r ∙ ap (λ x. ok x) j,
        ap (λ x. (dial x).error) (sym j) ∙ z,
        ((e, q), f),
        made-append es fs ∙ ap (λ x. x ++ made fs) m ∙ ap (λ x. i ∷ x) m',
      )
  failed-DialResult es n i last e (res, fs) q m (inr (r, f, m')) = inr (
    r ∙ ap (λ x. err (last_error (suc i) n x)) (sym q),
    ((e, q), f),
    made-append es fs ∙ ap (λ x. x ++ made fs) m ∙ ap (λ x. i ∷ x) m',
  )

  attempt-DialResult :
      (rt : Retry) (address : Bytes) (n i : ℕ) (last : Option E) (o : Option E)
      (rest : E → Result (Option E) ℕ × List DialEvent)
      → (dial i).error ≡ o
      → ((e : E) → DialResult (suc i) n (some e) (rest e))
      → DialResult i (suc n) last (elim o [
        | none ↦ (ok i, pause rt address i ++ (tried i ∷ []))
        | some e ↦
            after_calls dial
              (pause rt address i ++ (tried i ∷ closes_failed (dial i).conn i))
              (rest e)
      ])
  attempt-DialResult rt address n i last none rest q h =
      let j : i + 0 ≡ i = omega arith in
      inl (
        0,
        omega arith,
        ap (λ x. ok x) (sym j),
        ap (λ x. (dial x).error) j ∙ q,
        tt,
        made-last rt address i,
      )
  attempt-DialResult rt address n i last (some e) rest q h =
      failed-DialResult (pause rt address i ++ (tried i ∷ closes_failed (dial i).conn i)) n i last e
        (rest e) q (made-attempt rt address i (dial i).conn) (h e)

  dial_loop-DialResult :
      (rt : Retry) (address : Bytes) (n i : ℕ) (last : Option E)
      → DialResult i n last (dial_loop dial rt address n i last)
  unfolding dial_loop
  dial_loop-DialResult rt address zero i last = inr (refl, tt, refl)
  dial_loop-DialResult rt address (suc n) i last =
      attempt-DialResult rt address n i last (dial i).error
        (λ e. dial_loop dial rt address n (suc i) (some e)) refl
        (λ e. dial_loop-DialResult rt address n (suc i) (some e))

  attempts_of-Allowed : (z : ℤ) → Allowed z (attempts_of z)
  attempts_of-Allowed (pos zero) = inr (refl, inl refl)
  attempts_of-Allowed (pos (suc n)) = inl (refl, omega arith)
  attempts_of-Allowed (negsuc n) = inr (refl, inr (n, refl))

  -- Dialing with retries gives the connection of the first attempt that succeeds, and the attempts made are those up to it; if none of the
  -- configured number of attempts succeeds, and it is one when the configured number is not positive, all of them were made and the error is the
  -- last one's.
  pub dial_with_retry-DialResult :
      (rt : Retry) (address : Bytes)
      → (n : ℕ) × Allowed rt.attempts n × DialResult 0 n none (dial_with_retry dial rt address)
  unfolding dial_with_retry
  dial_with_retry-DialResult rt address = (
    attempts_of rt.attempts,
    attempts_of-Allowed rt.attempts,
    dial_loop-DialResult rt address (attempts_of rt.attempts) 0 none,
  )
