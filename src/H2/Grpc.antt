-- ===== src/H2/Grpc.antt =====
-- internal/martian/h2/grpc/grpc.go: the adapter, which puts gRPC messages together from DATA frames, and the
-- emitter, which writes them again. The codecs of gzip, flate and snappy are parameters.
pub mod Frames
pub mod Messages
pub mod Stream
use forwarder.Base.{
  ℕ, zero, suc, ◌+◌, ◌*◌, ◌/◌, ◌%◌, ◌^◌, Bool, true, false, not, ◌&&◌, ◌||◌, Option, none, some,
  List, [], ◌∷◌, ◌++◌, Bytes, codes, beq, length, get_or, take, drop, ltb, ◌==◌, if◌then◌else◌,
  Result, ok, err, ◌>>=◌,
}
use forwarder.H2.Frame.{Priority}
use forwarder.H2.Process.{Fields}

pub data Encoding : Type 0 where
  identity gzip deflate snappy : Encoding

pub data DataState : Type 0 where
  reading_metadata reading_message_data : DataState

pub data GrpcError : Type 0 where
  unrecognized_encoding : Bytes → GrpcError
  codec_failed : Bytes → GrpcError
  out_of_fuel : GrpcError

-- The calls that the adapter makes, of the processor and of the sink.
pub data Out : Type 0 where
  message : Bytes → Bool → Out
  header : Fields → Bool → Priority → Out
  sink_data : Bytes → Bool → Out
  sink_header : Fields → Bool → Priority → Out

-- `adapter`; the flag `enabled` that both directions share is a field of each.
pub record Adapter : Type 0 where
  pub enabled : Bool
  pub encoding : Encoding
  pub buffer : Bytes
  pub state : DataState
  pub compressed : Bool
  pub message_length : ℕ

abbrev pub new_adapter : Adapter
new_adapter = record {
  enabled = false;
  encoding = identity;
  buffer = [];
  state = reading_metadata;
  compressed = false;
  message_length = 0;
}

-- `isEnabled` and the loop that looks for the content type.
abbrev pub is_grpc : Fields → Bool
is_grpc [] = false
is_grpc ((name, value) ∷ fields) =
    if beq name (codes "content-type") && beq value (codes "application/grpc")
    then true
    else is_grpc fields

abbrev pub encoding_of : Bytes → Option Encoding
encoding_of value =
    if beq value (codes "identity")
    then some identity
    else if beq value (codes "gzip")
    then some gzip
    else if beq value (codes "deflate")
    then some deflate
    else if beq value (codes "snappy")
    then some snappy
    else none

-- The loop over the headers for grpc-encoding.
unfoldable pub read_encoding : Fields → Encoding → Result GrpcError Encoding
read_encoding [] e = ok e
read_encoding ((name, value) ∷ fields) e = elim (beq name (codes "grpc-encoding")) [
  | false ↦ read_encoding fields e
  | true ↦ elim (encoding_of value) [
    | none ↦ err (unrecognized_encoding value)
    | some e' ↦ read_encoding fields e'
  ]
]

-- `Header`
unfoldable pub adapter_header :
    Adapter → Fields → Bool → Priority → Result GrpcError (Adapter × List Out)
adapter_header a fields ended p =
    if a.enabled || is_grpc fields
    then read_encoding fields a.encoding
      >>= (λ e. ok (record a { enabled = true; encoding = e }, header fields ended p ∷ []))
    else ok (a, sink_header fields ended p ∷ [])

-- `binary.BigEndian`, four bytes
abbrev pub be32 : Bytes → ℕ
be32 (a ∷ b ∷ c ∷ d ∷ s) = ((a * 256 + b) * 256 + c) * 256 + d
be32 s = 0

abbrev pub put_be32 : ℕ → Bytes
put_be32 n = (n / 16777216 % 256) ∷ (n / 65536 % 256) ∷ (n / 256 % 256) ∷ (n % 256) ∷ []

module _ (decompress : Encoding → Bytes → Option Bytes) (compress : Encoding → Bytes → Bytes) where
  -- The `switch` on the encoding of a compressed message.
  abbrev pub decoded : Bool → Encoding → Bytes → Result GrpcError Bytes
  decoded false e d = ok d
  decoded true identity d = ok d
  decoded true e d = elim (decompress e d) [ none ↦ err (codec_failed d) | some d' ↦ ok d' ]

  -- A round of the loop: the adapter with the calls, and whether the loop goes on.
  abbrev pub read_metadata : Adapter → Bool → Adapter × List Out × Bool
  read_metadata a ended =
      let sent = if ended && (length a.buffer == 0) then message [] true ∷ [] else [] in
      if ltb (length a.buffer) 5 then (a, sent, false) else (
        record a {
          buffer = drop 5 a.buffer;
          state = reading_message_data;
          compressed = ltb 0 (get_or a.buffer 0 0);
          message_length = be32 (drop 1 a.buffer);
        },
        sent,
        not (length (drop 5 a.buffer) == 0),
      )

  abbrev pub read_message : Adapter → Bool → Result GrpcError (Adapter × List Out × Bool)
  read_message a ended =
      if ltb (length a.buffer % 4294967296) a.message_length
      then ok (a, [], false)
      else let rest = drop a.message_length a.buffer in
        decoded a.compressed a.encoding (take a.message_length a.buffer) >>= λ d. ok (
          record a { buffer = rest; state = reading_metadata },
          message d (ended && (length rest == 0)) ∷ [],
          not (length rest == 0),
        )

  abbrev pub data_round : DataState → Adapter → Bool → Result GrpcError (Adapter × List Out × Bool)
  data_round reading_metadata a ended = ok (read_metadata a ended)
  data_round reading_message_data a ended = read_message a ended

  -- The loop of `Data`. A round that goes on has taken bytes off the buffer or has read a header, so twice as many rounds as bytes,
  -- and two more, are enough.
  unfoldable pub data_loop : ℕ → Adapter → Bool → Result GrpcError (Adapter × List Out)
  data_loop zero a ended = err out_of_fuel
  data_loop (suc fuel) a ended = elim (data_round a.state a ended) [
    | err e ↦ err e
    | ok (a', sent, more) ↦ elim more [
      | false ↦ ok (a', sent)
      | true ↦ data_loop fuel a' ended >>= λ r. ok (r.0, sent ++ r.1)
    ]
  ]

  -- `Data`
  unfoldable pub adapter_data : Adapter → Bytes → Bool → Result GrpcError (Adapter × List Out)
  adapter_data a d ended =
      let a' = record a { buffer = a.buffer ++ d } in
      if a.enabled
      then data_loop (2 * length a'.buffer + 2) a' ended
      else ok (a, sink_data d ended ∷ [])

  -- The `switch` of the emitter.
  abbrev pub encoded : Bool → Encoding → Bytes → Bytes
  encoded false e d = d
  encoded true identity d = d
  encoded true e d = compress e d

  -- `Message` of the emitter: the payload of the DATA frame for the sink.
  unfoldable pub emitter_message : Bool → Encoding → Bytes → Bytes
  emitter_message compressed e d =
      let d' = encoded compressed e d in
      (if compressed then 1 else 0) ∷ (put_be32 (length d') ++ d')
