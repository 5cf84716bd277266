-- ===== src/Net/Dialer.antt =====
-- net.go, the Dialer: an attempt has a number, and what it leads to is a function of that number. Metrics are listed as calls.
pub mod Attempts
use forwarder.Base.{
  ℕ, zero, suc, Bool, true, false, Option, none, some, List, [], ◌∷◌, ◌++◌, Bytes, Result, ok, err,
  if◌then◌else◌,
}
use forwarder.Base.Int.{ℤ, pos, negsuc}

-- What a call of `dial` returns: whether there is a connection, and the error.
pub record Dialed (E : Type 0) : Type 0 where
  pub conn : Bool
  pub error : Option E

-- The calls of the Dialer.
pub data DialEvent : Type 0 where
  slept : ℤ → DialEvent
  counted_retry counted_error counted_dial : Bytes → DialEvent
  tried : ℕ → DialEvent
  closed : ℕ → DialEvent

-- `DialRetryConfig`
pub record Retry : Type 0 where
  pub attempts : ℤ
  pub backoff : ℤ

-- `DialConnTrack`
pub data DialConnTrack : Type 0 where
  by_default disabled traffic : DialConnTrack

abbrev pub attempts_of : ℤ → ℕ
attempts_of (pos zero) = 1
attempts_of (pos (suc n)) = suc n
attempts_of (negsuc n) = 1

-- Before each attempt but the first one.
abbrev pub pause : Retry → Bytes → ℕ → List DialEvent
pause rt address zero = []
pause rt address (suc i) = slept rt.backoff ∷ counted_retry address ∷ []

abbrev pub closes_failed : Bool → ℕ → List DialEvent
closes_failed true i = closed i ∷ []
closes_failed false i = []

module _ {E : Type 0} (dial : ℕ → Dialed E) where
  abbrev pub after_calls :
      List DialEvent → Result (Option E) ℕ × List DialEvent → Result (Option E) ℕ × List DialEvent
  after_calls es (r, fs) = (r, es ++ fs)

  -- The loop of `dialContext` from attempt `i` on, with the last error; the result is the attempt whose connection is returned.
  unfoldable pub dial_loop : Retry → Bytes → ℕ → ℕ → Option E → Result (Option E) ℕ × List DialEvent
  dial_loop rt address zero i last = (err last, [])
  dial_loop rt address (suc n) i last = elim ((dial i).error) [
    | none ↦ (ok i, pause rt address i ++ (tried i ∷ []))
    | some e ↦
        after_calls (pause rt address i ++ (tried i ∷ closes_failed (dial i).conn i))
          (dial_loop rt address n (suc i) (some e))
  ]

  -- `dialContext`
  unfoldable pub dial_with_retry : Retry → Bytes → Result (Option E) ℕ × List DialEvent
  dial_with_retry rt address = dial_loop rt address (attempts_of rt.attempts) 0 none

  abbrev pub with_metrics :
      Bytes → Result (Option E) ℕ × List DialEvent → Result (Option E) ℕ × List DialEvent
  with_metrics address (err e, es) = (err e, es ++ (counted_error address ∷ []))
  with_metrics address (ok i, es) = (ok i, es ++ (counted_dial address ∷ []))

  -- `DialContext`, for the address that the redirection gives; with tracking the connection is one of Conntrack.
  unfoldable pub dial_context :
      DialConnTrack → (Bytes → Bytes) → Retry → Bytes → Result (Option E) ℕ × List DialEvent
  dial_context disabled redirect rt address = dial_with_retry rt (redirect address)
  dial_context by_default redirect rt address =
      with_metrics (redirect address) (dial_with_retry rt (redirect address))
  dial_context traffic redirect rt address =
      with_metrics (redirect address) (dial_with_retry rt (redirect address))
