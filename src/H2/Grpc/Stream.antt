-- ===== src/H2/Grpc/Stream.antt =====
-- internal/martian/h2/grpc/grpc.go: the calls that a whole stream of DATA frames leads to.
use forwarder.Base.{
  ℕ, suc, ◌+◌, ◌*◌, ◌<◌, ◌≡◌, inl, inr, refl, sym, ap, ◌∙◌, Bool, false, Option, List, [], ◌∷◌,
  ◌++◌, append_assoc, append-nil, Bytes, map, concat, length, length-append, All, Result, ok, ◌>>=◌,
  arith,
}
use forwarder.H2.Grpc.{
  Adapter, Encoding, DataState, reading_metadata, reading_message_data, GrpcError, Out, message,
  adapter_data, emitter_message,
}
use forwarder.H2.Grpc.Frames.{
  frame, frames, IsSmall, Expects, Stuck, finished, marks, adapter_at, Outcome, rounds,
}
use forwarder.H2.Grpc.Messages.{loop-Outcome}

-- The last message is not empty.
abbrev pub IsDelivered : List Bytes → Type 0
IsDelivered [] = Unit
IsDelivered (m ∷ []) = 0 < length m
IsDelivered (m ∷ m' ∷ ms) = IsDelivered (m' ∷ ms)

IsDelivered-append : (ds ms : List Bytes) → IsDelivered (ds ++ ms) → IsDelivered ms
IsDelivered-append [] ms h = h
IsDelivered-append (d ∷ []) [] h = tt
IsDelivered-append (d ∷ []) (m ∷ ms) h = h
IsDelivered-append (d ∷ d' ∷ ds) ms h = IsDelivered-append (d' ∷ ds) ms h

All-append-right : (ds ms : List Bytes) → All IsSmall (ds ++ ms) → All IsSmall ms
All-append-right [] ms h = h
All-append-right (d ∷ ds) ms h = All-append-right ds ms h.1

marks-append :
    (e : Bool) (ds : List Bytes) (m : Bytes) (ms : List Bytes)
    → marks false ds ++ marks e (m ∷ ms) ≡ marks e (ds ++ (m ∷ ms))
marks-append e [] m ms = refl
marks-append e (d ∷ []) m ms = refl
marks-append e (d ∷ d' ∷ ds) m ms = ap (λ k. message d false ∷ k) (marks-append e (d' ∷ ds) m ms)

-- While bytes are to come, so is a message.
more_expected :
    (st : DataState) (c : Bool) (l : ℕ) (b r : Bytes) (ms : List Bytes)
    → Expects st c l b r ms
    → 0 < length r
    → (m : Bytes) × (ms' : List Bytes) × (ms ≡ m ∷ ms')
more_expected st c l b r (m ∷ ms) x h = (m, ms, refl)
more_expected reading_metadata c l b r [] x h =
    let n = length-append b r in let k : length (b ++ r) ≡ 0 = ap length x in absurd (omega arith)
more_expected reading_message_data c l b r [] x h = absurd x

-- A chunk goes into the buffer.
Expects-append :
    (st : DataState) (c : Bool) (l : ℕ) (b d r : Bytes) (ms : List Bytes)
    → Expects st c l b (d ++ r) ms
    → Expects st c l (b ++ d) r ms
Expects-append reading_metadata c l b d r ms x = append_assoc b d r ∙ x
Expects-append reading_message_data c l b d r (m ∷ ms) (y, y', x) = (y, y', append_assoc b d r ∙ x)
Expects-append reading_message_data c l b d r [] x = absurd x

rounds-le : (st : DataState) (b : Bytes) → rounds st b < 2 * length b + 2
rounds-le reading_metadata b = omega arith
rounds-le reading_message_data b = omega arith

-- At the end of a stream nothing is left over.
all_delivered :
    (st : DataState) (c : Bool) (l : ℕ) (b : Bytes) (ms : List Bytes)
    → Expects st c l b [] ms
    → Stuck st l b
    → IsDelivered ms
    → (st ≡ reading_metadata) × (b ≡ []) × (ms ≡ [])
all_delivered reading_metadata c l b [] x w h = (refl, sym (append-nil b) ∙ x, refl)
all_delivered reading_metadata c l b (m ∷ ms) x w h =
    let n = length-append b [] in
    let k : length (b ++ []) ≡ suc (suc (suc (suc (suc (length (m ++ frames ms)))))) =
      ap length x in
    absurd (omega arith)
all_delivered reading_message_data c l b [] x w h = absurd x
all_delivered reading_message_data c l b (m ∷ ms) (y, y', x) (inl w) h =
    let n = length-append b [] in
    let n' = length-append m (frames ms) in
    let k : length (b ++ []) ≡ length (m ++ frames ms) = ap length x in absurd (omega arith)
all_delivered reading_message_data c l b (m ∷ []) (y, y', x) (inr w) h =
    let n = length-append m [] in
    let k : 0 ≡ length (m ++ []) = ap (λ z. length (z ++ [])) (sym w) ∙ ap length x in
    absurd (omega arith)
all_delivered reading_message_data c l b (m ∷ m' ∷ ms) (y, y', x) (inr w) h =
    let n = length-append m (frames (m' ∷ ms)) in
    let k : 0 ≡ length (m ++ frames (m' ∷ ms)) = ap (λ z. length (z ++ [])) (sym w) ∙ ap length x in
    let j : length (frames (m' ∷ ms)) ≡ suc (suc (suc (suc (suc (length (m' ++ frames ms)))))) =
      refl in
    absurd (omega arith)

finished-false : (st : DataState) (b : Bytes) → finished false st b ≡ false
finished-false reading_metadata b = ground arith
finished-false reading_message_data b = refl

-- The calls of two frames are the calls for the messages of both.
marks_join :
    {f : Bool} {ms ms' ms'' : List Bytes} {m : Bytes} (ended : Bool) (ds : List Bytes)
    → f ≡ false
    → ms' ≡ m ∷ ms''
    → ms ≡ ds ++ ms'
    → marks f ds ++ marks ended ms' ≡ marks ended ms
marks_join {ms'' = ms''} {m = m} ended ds g q p = rw (g, p, q, marks-append ended ds m ms'')

last_call :
    {res : Result GrpcError (Adapter × List Out)} {e : Encoding} {st : DataState} {b : Bytes}
    {c : Bool} {l : ℕ} {ds ms : List Bytes} (ended : Bool)
    → res ≡ ok (adapter_at e st b c l, marks (finished ended st b) ds)
    → st ≡ reading_metadata
    → b ≡ []
    → ms ≡ ds
    → res ≡ ok (adapter_at e reading_metadata [] c l, marks ended ms)
last_call ended h s z q = rw (h, s, z, q)

module _ (decompress : Encoding → Bytes → Option Bytes) (compress : Encoding → Bytes → Bytes) where
  -- The DATA frames of a stream, one after the other; only the last may end it.
  abbrev pub feed : Adapter → List Bytes → Bytes → Bool → Result GrpcError (Adapter × List Out)
  feed a [] d ended = adapter_data decompress compress a d ended
  feed a (c ∷ cs) d ended = adapter_data decompress compress a c false >>= λ r.
      feed r.0 cs d ended >>= λ s. ok (s.0, r.1 ++ s.1)

  data-Outcome :
      (e : Encoding) (st : DataState) (b : Bytes) (c : Bool) (l : ℕ) (d r : Bytes) (ended : Bool)
      (ms : List Bytes)
      → 0 < length d
      → length b + length d < 4294967296
      → All IsSmall ms
      → Expects st c l b (d ++ r) ms
      → Outcome e
          (adapter_data decompress compress (adapter_at e st b c l) d ended)
          ended
          (length (b ++ d))
          r
          ms
  unfolding adapter_data
  data-Outcome e st b c l d r ended ms z k s x =
      let n = length-append b d in
      loop-Outcome decompress compress _ e st (b ++ d) c l ended r ms (rounds-le st (b ++ d))
        (omega arith) (omega arith) s (Expects-append st c l b d r ms x)

  feed_join :
      {a' a'' : Adapter} {o o' o'' : List Out} (a : Adapter) (f : Bytes) (cs : List Bytes)
      (d : Bytes) (ended : Bool)
      → adapter_data decompress compress a f false ≡ ok (a', o)
      → feed a' cs d ended ≡ ok (a'', o')
      → o ++ o' ≡ o''
      → feed a (f ∷ cs) d ended ≡ ok (a'', o'')
  feed_join a f cs d ended h k q = rw (h, k, q)

  feed-marks :
      (cs : List Bytes) (e : Encoding) (st : DataState) (b : Bytes) (c : Bool) (l : ℕ) (d : Bytes)
      (ended : Bool) (ms : List Bytes)
      → All (λ x. 0 < length x) cs
      → 0 < length d
      → length b + length (concat cs ++ d) < 4294967296
      → All IsSmall ms
      → IsDelivered ms
      → Expects st c l b (concat cs ++ d) ms
      → (c' : Bool) × (l' : ℕ) × (feed (adapter_at e st b c l) cs d ended
          ≡ ok (adapter_at e reading_metadata [] c' l', marks ended ms))
  feed-marks [] e st b c l d ended ms a z k s h x =
      let (st', b', c', l', ds, ms', res, p, x', w, n, g) =
        data-Outcome e st b c l d [] ended ms z k s (rw (append-nil d) x) in
      let (q, q', q'') =
        all_delivered st' c' l' b' ms' x' w (IsDelivered-append ds ms' (rw (sym p) h)) in
      (c', l', last_call ended res q q' (p ∙ ap (λ k. ds ++ k) q'' ∙ append-nil ds))
  feed-marks (f ∷ cs) e st b c l d ended ms a z k s h x =
      let n' = length-append f (concat cs) in
      let n'' = length-append (f ++ concat cs) d in
      let n3 = length-append (concat cs) d in
      let n4 = length-append b f in
      let (st', b', c', l', ds, ms', res, p, x', w, n, g) =
        data-Outcome e st b c l f (concat cs ++ d) false ms a.0 (omega arith) s
          (rw (sym (append_assoc f (concat cs) d)) x) in
      let (m, ms'', q) = more_expected st' c' l' b' (concat cs ++ d) ms' x' (omega arith) in
      let (c2, l2, t) =
        feed-marks cs e st' b' c' l' d ended ms' a.1 z (omega arith)
          (All-append-right ds ms' (rw (sym p) s)) (IsDelivered-append ds ms' (rw (sym p) h)) x' in
      (
        c2,
        l2,
        feed_join (adapter_at e st b c l) f cs d ended res t
            (marks_join ended ds (finished-false st' b') q p),
      )

  -- What the emitter writes for some messages.
  abbrev pub emitted : Encoding → List Bytes → Bytes
  emitted e ms = concat (map (emitter_message decompress compress false e) ms)

  emitted-frames : (e : Encoding) (ms : List Bytes) → emitted e ms ≡ frames ms
  unfolding emitter_message
  emitted-frames e [] = refl
  emitted-frames e (m ∷ ms) = ap (λ k. frame m ++ k) (emitted-frames e ms)

  -- An enabled adapter that is idle gets, in DATA frames none of which is empty, the bytes that the emitter writes, uncompressed,
  -- for some messages, each shorter than 2^32 bytes and all their bytes together fewer than 2^32, the last one not empty. However
  -- the bytes are cut into frames, the processor is called once for each message, in order, the end of the stream is marked on
  -- the last one alone, if the last frame has it, no call fails, and the adapter is idle again with nothing left in its buffer.
  pub feed-emitted :
      (e : Encoding) (c : Bool) (l : ℕ) (cs : List Bytes) (d : Bytes) (ended : Bool)
      (ms : List Bytes)
      → All (λ x. 0 < length x) cs
      → 0 < length d
      → length (concat cs ++ d) < 4294967296
      → All IsSmall ms
      → IsDelivered ms
      → concat cs ++ d ≡ emitted e ms
      → (c' : Bool) × (l' : ℕ) × (feed (adapter_at e reading_metadata [] c l) cs d ended
          ≡ ok (adapter_at e reading_metadata [] c' l', marks ended ms))
  feed-emitted e c l cs d ended ms a z k s h x =
      feed-marks cs e reading_metadata [] c l d ended ms a z (omega arith) s h
        (x ∙ emitted-frames e ms)
