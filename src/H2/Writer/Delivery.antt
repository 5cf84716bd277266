-- ===== src/H2/Writer/Delivery.antt =====
-- What a stream's processor hands over is what a relay of this package, behind the proxy, reads, with a
-- decoder that is in step with the relay's encoder.
use forwarder.Base.{
  ℕ, ◌≤◌, ◌<◌, ◌+◌, ◌-◌, ◌%◌, ◌≡◌, refl, ◌∙◌, Bool, true, false, ◌||◌, not, Option, none, some, [],
  ◌∷◌, ◌++◌, Bytes, length, ok, err, ok_injective, All, arith, if◌then◌else◌,
}
use forwarder.H2.Frame.{Priority, Block, queued_header, send, is_single}
use forwarder.H2.Chunks.{split_into_chunks}
use forwarder.H2.Chunks.Laws.{payload_of, split_into_chunks_lem}
use forwarder.H2.Process.Blocks.{visible, delivered, one_call, process_frames-send_header}
use forwarder.H2.Process.{Fields, header_call, deliver, Reader, process_frame, process_frames}
use forwarder.H2.Relay.{enqueue_frame}
use forwarder.H2.Writer.{
  Sender, is_zero, WriteError, encode_full, behind, header, header_fragment_length,
}

-- What `hpack` documents: an encoder and a decoder that are in step stay so, and a decoder reads
-- the fields that were written.
pub record Codec (Encoder Decoder : Type 0) : Type 1 where
  pub write_field : Encoder → Bytes × Bytes → Option (Bytes × Encoder)
  pub decode : Decoder → Bytes → Option (Fields × Decoder)
  pub InStep : Encoder → Decoder → Type 0
  pub decode_nil : (d : Decoder) → decode d [] ≡ some ([], d)
  pub decode_field :
      (e e' : Encoder) (d : Decoder) (f : Bytes × Bytes) (b : Bytes)
      → InStep e d
      → write_field e f ≡ some (b, e')
      → (d' : Decoder) × InStep e' d'
        × ((rest : Bytes) (fs : Fields) (d'' : Decoder)
            → decode d' rest ≡ some (fs, d'')
            → decode d (b ++ rest) ≡ some (f ∷ fs, d''))

-- The bytes of the payload of a HEADERS frame in front of the fragment (RFC 7540, 6.2).
abbrev pub priority_length : Priority → ℕ
priority_length p = if is_zero p then 0 else 5

fragment_fits :
    (most : ℕ) (p : Priority)
    → 5 ≤ most
    → most < 4294967296
    → header_fragment_length most p + priority_length p ≤ most
fragment_fits most p h k = go (is_zero p)
  where
    go :
        (z : Bool)
        → (if z then most else (most + 4294967296 - 5) % 4294967296) + (if z then 0 else 5) ≤ most
    go true = omega arith
    go false = omega arith

module _ {Encoder Decoder : Type 0} (codec : Codec Encoder Decoder) where
  open codec use {write_field, decode, InStep, decode_nil, decode_field}

  abbrev Decoded : Decoder → Bytes → Fields → Encoder → Type 0
  Decoded d block fields e' = (d' : Decoder) × (decode d block ≡ some (fields, d')) × InStep e' d'

  behind-inv :
      (b : Bytes) (m : Option (Bytes × Encoder)) {block : Bytes} {e : Encoder}
      → behind b m ≡ some (block, e)
      → (rest : Bytes) × (m ≡ some (rest, e)) × (block ≡ b ++ rest)
  behind-inv b none h = cc
  behind-inv b (some (rest, e')) h = (rest, cc, cc)

  -- The block of all the fields decodes to the fields.
  decode-encode_full :
      (e e' : Encoder) (d : Decoder) (fields : Fields) (block : Bytes)
      → InStep e d
      → encode_full write_field e fields ≡ some (block, e')
      → Decoded d block fields e'
  unfolding encode_full
  decode-encode_full e e' d [] block s h =
      let he : e ≡ e' = cc in let hb : [] ≡ block = cc in (d, rw (← hb) (decode_nil d), rw (← he) s)
  decode-encode_full e e' d (f ∷ fs) block s h =
      go (write_field e f) refl h (λ e1 d1 rest. decode-encode_full e1 e' d1 fs rest)
    where
      go :
          (m : Option (Bytes × Encoder))
          → write_field e f ≡ m
          → (elim m [ none ↦ none | some (b, e1) ↦ behind b (encode_full write_field e1 fs) ])
            ≡ some (block, e')
          → ((e1 : Encoder) (d1 : Decoder) (rest : Bytes)
              → InStep e1 d1
              → encode_full write_field e1 fs ≡ some (rest, e')
              → Decoded d1 rest fs e')
          → Decoded d block (f ∷ fs) e'
      go none w k ih = cc
      go (some (b, e1)) w k ih =
          let (rest, hm, hb) = behind-inv b (encode_full write_field e1 fs) k in
          let (d1, s1, more) = decode_field e e1 d f b s w in
          let (d2, hd, s2) = ih e1 d1 rest s1 hm in (d2, rw hb (more rest fs d2 hd), s2)

  -- What a header call leaves: a queued frame that fits, whose frames are read as the same fields.
  abbrev pub HeaderQueued :
      Sender Encoder → Sender Encoder → Reader Decoder → ℕ → Fields → Bool → Priority → Type 0
  HeaderQueued s s' r id fields ended p =
      (b : Block) × (d' : Decoder) × (s'.relay ≡ enqueue_frame s.relay (queued_header id ended p b))
      × InStep s'.encoder d'
      × (visible (process_frames decode r (send (queued_header id ended p b)))
          ≡ ok (d', deliver id (header_call fields (ended || not (is_single b)) p) ∷ []))
      × (length b.first + priority_length p ≤ s.relay.max_frame_size)
      × All (λ c. (0 < length c) × (length c ≤ s.relay.max_frame_size)) b.continued

  read_header :
      (r : Reader Decoder) (d' : Decoder) (id : ℕ) (fields : Fields) (ended : Bool) (p : Priority)
      (b : Block)
      → decode r.decoder (payload_of b) ≡ some (fields, d')
      → visible (process_frames decode r (send (queued_header id ended p b)))
        ≡ ok (d', deliver id (header_call fields (ended || not (is_single b)) p) ∷ [])
  unfolding process_frames process_frame
  read_header r d' id fields ended p b h =
      let e = ended || not (is_single b) in
      process_frames-send_header decode r id ended p b
      ∙ one_call decode id (λ fs. header_call fs e p) (payload_of b) r
      ∙ rw (h, delivered) refl

  -- A header call that succeeds, while the limit for frames is at least 5 and less than 2^32, queues one frame,
  -- behind what the stream has queued. Its first chunk leaves room for the priority and the others are not empty and
  -- within the limit; the reader of another relay, whose decoder is in step with the encoder, reads the same fields
  -- and priority, and takes the stream for ended also when the block took several frames; and that decoder stays in
  -- step.
  pub header-HeaderQueued :
      (s s' : Sender Encoder) (r : Reader Decoder) (id : ℕ) (fields : Fields) (ended : Bool)
      (p : Priority)
      → InStep s.encoder r.decoder
      → 5 ≤ s.relay.max_frame_size
      → s.relay.max_frame_size < 4294967296
      → header write_field s id fields ended p ≡ ok s'
      → HeaderQueued s s' r id fields ended p
  unfolding header
  header-HeaderQueued s s' r id fields ended p step low high h =
      go (encode_full write_field s.encoder fields) refl h
    where
      go :
          (m : Option (Bytes × Encoder))
          → encode_full write_field s.encoder fields ≡ m
          → (elim m [
            | none ↦ err WriteError.encoding
            | some (block, e) ↦ ok (record {
              relay = enqueue_frame s.relay (
                  queued_header id ended p (
                    split_into_chunks
                      (header_fragment_length s.relay.max_frame_size p)
                      s.relay.max_frame_size
                      block));
              encoder = e;
            })
          ])
            ≡ ok s'
          → HeaderQueued s s' r id fields ended p
      go none w k = cc
      go (some (block, e)) w k =
          let most = s.relay.max_frame_size in
          let b = split_into_chunks (header_fragment_length most p) most block in
          let (whole, short, rest) =
            split_into_chunks_lem (header_fragment_length most p) most block (omega arith) in
          let (d', hd, next) = decode-encode_full s.encoder e r.decoder fields block step w in
          rw (← (ok_injective refl k)) (
            b,
            d',
            refl,
            next,
            read_header r d' id fields ended p b (rw whole hd),
            omega (arith, fragment_fits most p low high),
            rest,
          )
