-- ===== src/H2/Writer.antt =====
-- internal/martian/h2/relay.go, the sending half of a relay, and processor.go, `relayAdapter`: what the calls
-- of a stream's last processor queue. The encoder of `hpack`, with its state, is a parameter: it
-- writes one field, or fails, and a failure ends the relay.
pub mod Delivery
use forwarder.Base.{
  ℕ, ◌+◌, ◌-◌, ◌%◌, ◌^◌, Bool, ◌&&◌, not, Option, none, some, List, [], ◌∷◌, ◌++◌, Bytes, Result,
  ok, err, ◌==◌, if◌then◌else◌,
}
use forwarder.H2.Frame.{
  Priority, queued_header, queued_push_promise, queued_priority, queued_rst_stream,
}
use forwarder.H2.Chunks.{split_into_chunks}
use forwarder.H2.Process.{
  Fields, Call, data_call, header_call, priority_call, rst_stream_call, push_promise_call,
}
use forwarder.H2.Relay.{Relay, enqueue_frame, relay_data}

pub data WriteError : Type 0 where
  encoding : WriteError

-- The fields of a relay that sending changes.
pub record Sender (Encoder : Type 0) : Type 0 where
  pub relay : Relay
  pub encoder : Encoder

abbrev pub headers_priority_metadata_length : ℕ
headers_priority_metadata_length = 5

abbrev pub push_promise_metadata_length : ℕ
push_promise_metadata_length = 4

-- `PriorityParam.IsZero`
abbrev pub is_zero : Priority → Bool
is_zero p = p.dep == 0 && not p.exclusive && p.weight == 0

-- A difference of two `uint32`.
abbrev pub sub_u32 : ℕ → ℕ → ℕ
sub_u32 a b = (a + 2 ^ 32 - b) % 2 ^ 32

-- `maxHeaderFragmentLength` of `header`
abbrev pub header_fragment_length : ℕ → Priority → ℕ
header_fragment_length most p =
    if is_zero p then most else sub_u32 most headers_priority_metadata_length

-- `maxHeaderFragmentLength` of `pushPromise`
abbrev pub promise_fragment_length : ℕ → ℕ
promise_fragment_length most = sub_u32 most push_promise_metadata_length

abbrev pub behind {ℓ} : {E : Type ℓ} → Bytes → Option (Bytes × E) → Option (Bytes × E)
behind b none = none
behind b (some (rest, e)) = some (b ++ rest, e)

module _ {Encoder : Type 0} (write_field : Encoder → Bytes × Bytes → Option (Bytes × Encoder)) where
  -- `encodeFull`: the block of all the fields.
  unfoldable pub encode_full : Encoder → Fields → Option (Bytes × Encoder)
  encode_full e [] = some ([], e)
  encode_full e (f ∷ fs) = elim (write_field e f) [
    | none ↦ none
    | some (b, e') ↦ behind b (encode_full e' fs)
  ]

  -- `header`
  unfoldable pub header :
      Sender Encoder → ℕ → Fields → Bool → Priority → Result WriteError (Sender Encoder)
  header s id fields ended p = elim (encode_full s.encoder fields) [
    | none ↦ err encoding
    | some (block, e) ↦
        let most = s.relay.max_frame_size in
        let chunks = split_into_chunks (header_fragment_length most p) most block in
        ok (record { relay = enqueue_frame s.relay (queued_header id ended p chunks); encoder = e })
  ]

  -- `pushPromise`
  pub push_promise : Sender Encoder → ℕ → ℕ → Fields → Result WriteError (Sender Encoder)
  push_promise s id promise fields = elim (encode_full s.encoder fields) [
    | none ↦ err encoding
    | some (block, e) ↦
        let most = s.relay.max_frame_size in
        let chunks = split_into_chunks (promise_fragment_length most) most block in
        ok (record {
          relay = enqueue_frame s.relay (queued_push_promise id promise chunks);
          encoder = e;
        })
  ]

  -- The methods of `relayAdapter` for stream `id`, and `priority` and `rstStream`, which they call.
  pub adapter_call : Sender Encoder → ℕ → Call → Result WriteError (Sender Encoder)
  unfolding header push_promise
  adapter_call s id (data_call d ended) = ok (record s { relay = relay_data s.relay id d ended })
  adapter_call s id (header_call fields ended p) = header s id fields ended p
  adapter_call s id (priority_call p) =
      ok (record s { relay = enqueue_frame s.relay (queued_priority id p) })
  adapter_call s id (rst_stream_call code) =
      ok (record s { relay = enqueue_frame s.relay (queued_rst_stream id code) })
  adapter_call s id (push_promise_call promise fields) = push_promise s id promise fields
