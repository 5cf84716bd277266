-- ===== src/H2/Chunks/Laws.antt =====
-- What the chunks of a payload are: all of it, in order, within the limits.
use forwarder.Base.{
  ℕ, zero, suc, ◌≤◌, ◌<◌, ◌≡◌, refl, sym, ◌∙◌, ap, Bool, true, false, ◌&&◌, List, [], ◌∷◌, ◌++◌,
  Bytes, length, take, drop, concat, All, min, arith, take-append-drop, length-take, length-drop,
  Bool-cases, ◌==◌, inl, inr,
}
use forwarder.H2.Frame.{Block, QueuedFrame, queued_data}
use forwarder.H2.Chunks.{continuation_chunks, split_into_chunks, data_frames}

abbrev pub payload_of : Block → Bytes
payload_of b = b.first ++ concat b.continued

-- A chunk that is not empty and not longer than `n`.
abbrev pub IsChunk : ℕ → Bytes → Type 0
IsChunk n c = (0 < length c) × (length c ≤ n)

continuation_chunks-concat :
    (fuel most : ℕ) (d : Bytes)
    → 0 < most
    → length d ≤ fuel
    → concat (continuation_chunks fuel most d) ≡ d
unfolding continuation_chunks
continuation_chunks-concat zero most [] h k = refl
continuation_chunks-concat zero most (c ∷ d) h k = absurd (omega arith)
continuation_chunks-concat (suc fuel) most [] h k = refl
continuation_chunks-concat (suc fuel) most (c ∷ d) h k =
    let len = min (length (c ∷ d)) most in
    rw
      (continuation_chunks-concat fuel most (drop len (c ∷ d)) h
        (omega (arith, length-drop len (c ∷ d))))
      (take-append-drop len (c ∷ d))

continuation_chunks-IsChunk :
    (fuel most : ℕ) (d : Bytes) → 0 < most → All (IsChunk most) (continuation_chunks fuel most d)
unfolding continuation_chunks
continuation_chunks-IsChunk zero most d h = tt
continuation_chunks-IsChunk (suc fuel) most [] h = tt
continuation_chunks-IsChunk (suc fuel) most (c ∷ d) h =
    let len = min (length (c ∷ d)) most in
    (
      (omega (arith, length-take len (c ∷ d)), omega (arith, length-take len (c ∷ d))),
      continuation_chunks-IsChunk fuel most (drop len (c ∷ d)) h,
    )

-- The chunks of a header block are the block, in order; the first is within its own limit, and each
-- further one is not empty and within the limit of a frame.
pub split_into_chunks_lem :
    (first_max most : ℕ) (d : Bytes)
    → 0 < most
    → (payload_of (split_into_chunks first_max most d) ≡ d)
      × (length (split_into_chunks first_max most d).first ≤ first_max)
      × All (IsChunk most) (split_into_chunks first_max most d).continued
unfolding split_into_chunks
split_into_chunks_lem first_max most d h =
    let len = min (length d) first_max in
    (
      rw
          (continuation_chunks-concat (length d) most (drop len d) h
            (omega (arith, length-drop len d)))
          (take-append-drop len d),
      omega (arith, length-take len d),
      continuation_chunks-IsChunk (length d) most (drop len d) h,
    )

-- All the payloads of the DATA frames of a list, in order.
abbrev pub payloads : List QueuedFrame → Bytes
payloads [] = []
payloads (queued_data _ _ d ∷ fs) = d ++ payloads fs
payloads (_ ∷ fs) = payloads fs

-- DATA frames of the stream within the limit, none but the last with END_STREAM, and that one as
-- asked.
abbrev pub IsDataRun : ℕ → ℕ → Bool → List QueuedFrame → Type 0
IsDataRun most id ended [] = ⊥
IsDataRun most id ended (queued_data i e d ∷ []) = (i ≡ id) × (e ≡ ended) × (length d ≤ most)
IsDataRun most id ended (queued_data i e d ∷ (f ∷ fs)) =
    (i ≡ id) × (e ≡ false) × (0 < length d) × (length d ≤ most) × IsDataRun most id ended (f ∷ fs)
IsDataRun most id ended _ = ⊥

eq_nil_of_length : (d : Bytes) → (length d == 0) ≡ true → d ≡ []
eq_nil_of_length [] h = refl
eq_nil_of_length (c ∷ d) h = ground arith

IsDataRun-cons :
    (most id : ℕ) (ended : Bool) (e : Bool) (d : Bytes) (fs : List QueuedFrame)
    → e ≡ false
    → 0 < length d
    → length d ≤ most
    → IsDataRun most id ended fs
    → IsDataRun most id ended (queued_data id e d ∷ fs)
IsDataRun-cons most id ended e d [] he h k r = absurd r
IsDataRun-cons most id ended e d (f ∷ fs) he h k r = (refl, he, h, k, r)

and_true : (b : Bool) → (b && true) ≡ b
and_true true = refl
and_true false = refl

and_false : (b : Bool) → (b && false) ≡ false
and_false true = refl
and_false false = refl

data_frames-payloads :
    (fuel most id : ℕ) (ended : Bool) (d : Bytes)
    → 0 < most
    → length d < fuel
    → payloads (data_frames fuel most id ended d) ≡ d
unfolding data_frames
data_frames-payloads zero most id ended d h k = absurd (omega arith)
data_frames-payloads (suc fuel) most id ended d h k =
    let len = min (length d) most in
    elim (Bool-cases (length (drop len d) == 0)) [
      | inl done ↦ rw done (
          ap (◌++◌ (take len d)) (sym (eq_nil_of_length (drop len d) done))
          ∙ take-append-drop len d)
      | inr more ↦ rw more (
          rw
            (data_frames-payloads fuel most id ended (drop len d) h
              (ground (arith, length-drop len d)))
            (take-append-drop len d))
    ]

data_frames-IsDataRun :
    (fuel most id : ℕ) (ended : Bool) (d : Bytes)
    → 0 < most
    → length d < fuel
    → IsDataRun most id ended (data_frames fuel most id ended d)
unfolding data_frames
data_frames-IsDataRun zero most id ended d h k = absurd (omega arith)
data_frames-IsDataRun (suc fuel) most id ended d h k =
    let len = min (length d) most in
    elim (Bool-cases (length (drop len d) == 0)) [
      | inl done ↦ rw (done, and_true ended) (refl, refl, omega (arith, length-take len d))
      | inr more ↦
          rw (more, and_false ended)
            (IsDataRun-cons most id ended false (take len d)
              (data_frames fuel most id ended (drop len d)) refl
              (ground (arith, length-take len d, length-drop len d))
              (omega (arith, length-take len d))
              (data_frames-IsDataRun fuel most id ended (drop len d) h
                (ground (arith, length-drop len d))))
    ]

-- With one round more than the payload has bytes the loop splits a payload into DATA frames that
-- carry all of it, in order and within the frame size, and only the last one ends the stream.
pub data_frames_lem :
    (most id : ℕ) (ended : Bool) (d : Bytes)
    → 0 < most
    → (payloads (data_frames (suc (length d)) most id ended d) ≡ d)
      × IsDataRun most id ended (data_frames (suc (length d)) most id ended d)
data_frames_lem most id ended d h = (
  data_frames-payloads (suc (length d)) most id ended d h (omega arith),
  data_frames-IsDataRun (suc (length d)) most id ended d h (omega arith),
)
