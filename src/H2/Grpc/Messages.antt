-- ===== src/H2/Grpc/Messages.antt =====
-- The messages that come out of DATA frames, however the stream was cut into them.
use forwarder.Base.{
  ℕ, zero, suc, ◌≤◌, ◌<◌, ◌≡◌, inl, inr, refl, sym, ap, ◌∙◌, Bool, false, Option, List, [], ◌∷◌,
  ◌++◌, Bytes, length, length-append, take, drop, All, ◌==◌, Result, ok, ◌>>=◌, if◌then◌else◌,
  arith,
}
use forwarder.H2.Grpc.{
  Adapter, Encoding, DataState, reading_metadata, reading_message_data, GrpcError, Out, message,
  put_be32, data_loop,
}
use forwarder.H2.Grpc.Frames.{
  frames, IsSmall, be32-put_be32, Expects, finished, adapter_at, Outcome, marks-cons, less_or_not,
  length-drop-le, empty_not, not_empty, cons-not-nil, take-front, split-header, rounds,
}

module _ (decompress : Encoding → Bytes → Option Bytes) (compress : Encoding → Bytes → Bytes) where
  abbrev pub loop : ℕ → Adapter → Bool → Result GrpcError (Adapter × List Out)
  loop = data_loop decompress compress

  metadata_waits :
      (fuel : ℕ) (e : Encoding) (b : Bytes) (c : Bool) (l : ℕ) (ended : Bool)
      → 0 < length b
      → length b < 5
      → loop (suc fuel) (adapter_at e reading_metadata b c l) ended
        ≡ ok (adapter_at e reading_metadata b c l, [])
  unfolding data_loop
  metadata_waits fuel e b c l ended z h = ground arith

  metadata_goes :
      (fuel : ℕ) (e : Encoding) (n : ℕ) (b : Bytes) (c : Bool) (l : ℕ) (ended : Bool)
      → n < 4294967296
      → loop (suc fuel) (adapter_at e reading_metadata (0 ∷ (put_be32 n ++ b)) c l) ended ≡ (
          if length b == 0
          then ok (adapter_at e reading_message_data b false n, [])
          else (loop fuel (adapter_at e reading_message_data b false n) ended >>= λ r.
              ok (r.0, [] ++ r.1)))
  unfolding data_loop
  metadata_goes fuel e n b c l ended h = ground (arith, be32-put_be32 n b h)

  message_waits :
      (fuel : ℕ) (e : Encoding) (b : Bytes) (l : ℕ) (ended : Bool)
      → length b < 4294967296
      → length b < l
      → loop (suc fuel) (adapter_at e reading_message_data b false l) ended
        ≡ ok (adapter_at e reading_message_data b false l, [])
  unfolding data_loop
  message_waits fuel e b l ended k h = ground arith

  message_goes :
      (fuel : ℕ) (e : Encoding) (b : Bytes) (l : ℕ) (ended : Bool)
      → length b < 4294967296
      → l ≤ length b
      → loop (suc fuel) (adapter_at e reading_message_data b false l) ended ≡ (
          if length (drop l b) == 0
          then ok (adapter_at e reading_metadata (drop l b) false l, message (take l b) ended ∷ [])
          else (loop fuel (adapter_at e reading_metadata (drop l b) false l) ended >>= λ r.
              ok (r.0, message (take l b) false ∷ r.1)))
  unfolding data_loop
  message_goes fuel e b l ended k h = ground arith

  metadata_more :
      (fuel : ℕ) (e : Encoding) (n y : ℕ) (b : Bytes) (c : Bool) (l : ℕ) (ended : Bool)
      (a : Adapter) (out : List Out)
      → n < 4294967296
      → loop fuel (adapter_at e reading_message_data (y ∷ b) false n) ended ≡ ok (a, out)
      → loop (suc fuel) (adapter_at e reading_metadata (0 ∷ (put_be32 n ++ (y ∷ b))) c l) ended
        ≡ ok (a, out)
  metadata_more fuel e n y b c l ended a out s q =
      metadata_goes fuel e n (y ∷ b) c l ended s
      ∙ not_empty (length b) _ _
      ∙ ap (λ k. k >>= λ (r : Adapter × List Out). ok (r.0, r.1)) q

  message_more :
      (fuel : ℕ) (e : Encoding) (m : Bytes) (y : ℕ) (b b₁ : Bytes) (ended : Bool) (a : Adapter)
      (out : List Out)
      → length b < 4294967296
      → length m ≤ length b
      → take (length m) b ≡ m
      → drop (length m) b ≡ y ∷ b₁
      → loop fuel (adapter_at e reading_metadata (y ∷ b₁) false (length m)) ended ≡ ok (a, out)
      → loop (suc fuel) (adapter_at e reading_message_data b false (length m)) ended
        ≡ ok (a, message m false ∷ out)
  message_more fuel e m y b b₁ ended a out s j t d q =
      rw (message_goes fuel e b (length m) ended s j, t, d)
        (not_empty (length b₁) _ _
          ∙ ap (λ k. k >>= λ (r : Adapter × List Out). ok (r.0, message m false ∷ r.1)) q)

  -- The header of a message has come, and after it `b₁`.
  after_header :
      (fuel : ℕ) (e : Encoding) (b : Bytes) (c : Bool) (l : ℕ) (ended : Bool) (r m b₁ : Bytes)
      (ms : List Bytes)
      → length m < 4294967296
      → b ≡ 0 ∷ (put_be32 (length m) ++ b₁)
      → b₁ ++ r ≡ m ++ frames ms
      → (0 < length b₁
          → Outcome e
              (loop fuel (adapter_at e reading_message_data b₁ false (length m)) ended)
              ended
              (length b₁)
              r
              (m ∷ ms))
      → Outcome e
          (loop (suc fuel) (adapter_at e reading_metadata b c l) ended)
          ended
          (length b)
          r
          (m ∷ ms)
  after_header fuel e b c l ended r m [] ms s q x rest = (
    reading_message_data,
    [],
    false,
    length m,
    [],
    m ∷ ms,
    rw (q, metadata_goes fuel e (length m) [] c l ended s),
    refl,
    (refl, refl, x),
    inr refl,
    omega arith,
    λ _. refl,
  )
  after_header fuel e b c l ended r m (y ∷ b₁) ms s q x rest =
      let (st', b', c', l', ds, ms', res, p, x', t, n, h) = rest (omega arith) in
      (
        st',
        b',
        c',
        l',
        ds,
        ms',
        rw q (metadata_more fuel e (length m) y b₁ c l ended _ _ s res),
        p,
        x',
        t,
        let n' : length b ≡ suc (suc (suc (suc (suc (suc (length b₁)))))) = ap length q in
            omega arith,
        h,
      )

  -- A whole message has come, and after it `b₁`.
  after_message :
      (fuel : ℕ) (e : Encoding) (b : Bytes) (ended : Bool) (r m b₁ : Bytes) (ms : List Bytes)
      → length b < 4294967296
      → length m ≤ length b
      → take (length m) b ≡ m
      → drop (length m) b ≡ b₁
      → length b₁ ≤ length b
      → b₁ ++ r ≡ frames ms
      → (0 < length b₁
          → Outcome e
              (loop fuel (adapter_at e reading_metadata b₁ false (length m)) ended)
              ended
              (length b₁)
              r
              ms)
      → Outcome e
          (loop (suc fuel) (adapter_at e reading_message_data b false (length m)) ended)
          ended
          (length b)
          r
          (m ∷ ms)
  after_message fuel e b ended r m [] ms k j t d n x rest = (
    reading_metadata,
    [],
    false,
    length m,
    m ∷ [],
    ms,
    rw (message_goes fuel e b (length m) ended k j, t, d),
    refl,
    x,
    omega arith,
    n,
    λ h. cons-not-nil h,
  )
  after_message fuel e b ended r m (y ∷ b₁) ms k j t d n x rest =
      let (st', b', c', l', ds, ms', res, p, x', u, n', h) = rest (omega arith) in
      (
        st',
        b',
        c',
        l',
        m ∷ ds,
        ms',
        message_more fuel e m y b b₁ ended _ _ k j t d res
            ∙ ap (λ z. ok (adapter_at e st' b' c' l', z))
                (sym (marks-cons (finished ended st' b') m ds h)),
        ap (λ z. m ∷ z) p,
        x',
        u,
        omega arith,
        λ h. cons-not-nil h,
      )

  pub loop-Outcome :
      (fuel : ℕ) (e : Encoding) (st : DataState) (b : Bytes) (c : Bool) (l : ℕ) (ended : Bool)
      (r : Bytes) (ms : List Bytes)
      → rounds st b < fuel
      → 0 < length b
      → length b < 4294967296
      → All IsSmall ms
      → Expects st c l b r ms
      → Outcome e (loop fuel (adapter_at e st b c l) ended) ended (length b) r ms
  loop-Outcome zero e st b c l ended r ms f z k s x = absurd (omega arith)
  loop-Outcome (suc fuel) e reading_metadata b c l ended r [] f z k s x =
      let n = length-append b r in let m : length (b ++ r) ≡ 0 = ap length x in absurd (omega arith)
  loop-Outcome (suc fuel) e reading_metadata b c l ended r (m ∷ ms) f z k s x =
      elim (less_or_not (length b) 5) [
        | inl w ↦ (
          reading_metadata,
          b,
          c,
          l,
          [],
          m ∷ ms,
          metadata_waits fuel e b c l ended z w,
          refl,
          x,
          w,
          omega arith,
          λ _. empty_not b ended z,
        )
        | inr w ↦
            let (b₁, q, x') = split-header b r m (frames ms) (x ∙ refl) w in
            let n : length b ≡ suc (suc (suc (suc (suc (length b₁))))) = ap length q in
            after_header fuel e b c l ended r m b₁ ms s.0 q x' (λ z.
              loop-Outcome fuel e reading_message_data b₁ false (length m) ended r (m ∷ ms)
                (omega arith) z (omega arith) s (refl, refl, x'))
      ]
  loop-Outcome (suc fuel) e reading_message_data b c l ended r [] f z k s x = absurd x
  loop-Outcome (suc fuel) e reading_message_data b c l ended r (m ∷ ms) f z k s (y, y', x) =
      rw (y, y')
        (elim (less_or_not (length b) (length m)) [
          | inl w ↦ (
            reading_message_data,
            b,
            false,
            length m,
            [],
            m ∷ ms,
            message_waits fuel e b (length m) ended k w,
            refl,
            (refl, refl, x),
            inl w,
            omega arith,
            λ _. refl,
          )
          | inr w ↦
              let (t, d) = take-front b r m (frames ms) x w in
              let n : length (drop (length m) b) ≤ length b = length-drop-le (length m) b in
              after_message fuel e b ended r m _ ms k w t refl n d (λ z'.
                loop-Outcome fuel e reading_metadata (drop (length m) b) false (length m) ended r ms
                  (omega arith) z' (omega arith) s.1 d)
        ])
