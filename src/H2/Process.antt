-- ===== src/H2/Process.antt =====
-- internal/martian/h2/relay.go, `processFrame`: what a frame that was read makes a relay do. The decoder of
-- `hpack`, with its state, is a parameter; a frame that is read is one of the frames that a framer
-- writes. Calls of the two framers and of the stream's processor are effects, in order; one that
-- fails ends the relay.
pub mod Blocks
use forwarder.Base.{
  ℕ, Bool, true, false, Option, none, some, List, [], ◌∷◌, ◌++◌, Bytes, length, Result, ok, err,
  ◌>>=◌, ◌==◌, if◌then◌else◌,
}
use forwarder.H2.Frame.{
  Priority, Wire, data_frame, headers, push_promise, continuation, priority_frame, rst_stream,
  settings_ack, settings, ping, go_away, window_update,
}

abbrev pub Fields : Type 0
Fields = List (Bytes × Bytes)

-- The calls of a `Processor`.
pub data Call : Type 0 where
  data_call : Bytes → Bool → Call
  header_call : Fields → Bool → Priority → Call
  priority_call : Priority → Call
  rst_stream_call : ℕ → Call
  push_promise_call : ℕ → Fields → Call

pub data Effect : Type 0 where
  deliver : ℕ → Call → Effect
  to_dest : Wire → Effect
  to_source : Wire → Effect
  peer_table_size : ℕ → Effect
  peer_initial_window_size : ℕ → Effect
  peer_max_frame_size : ℕ → Effect
  peer_window : ℕ → ℕ → Effect

pub data Continuation : Type 0 where
  header_continuation : Priority → Continuation
  push_promise_continuation : ℕ → Continuation

pub data ProcessError : Type 0 where
  decoding : ProcessError
  no_continuation_state : ProcessError

-- The fields that reading changes; `Decoder` is the decoder's state.
pub record Reader (Decoder : Type 0) : Type 0 where
  pub header_buffer : Bytes
  pub continuation_state : Option Continuation
  pub decoder : Decoder

-- `sendWindowUpdates`, on the peer
abbrev pub send_window_updates : ℕ → Bytes → List Effect
send_window_updates id [] = []
send_window_updates id (c ∷ d) =
    to_source (window_update 0 (length (c ∷ d)))
    ∷ to_source (window_update id (length (c ∷ d)))
    ∷ []

-- The function that `ForeachSetting` is given.
abbrev pub apply_setting : ℕ × ℕ → List Effect
apply_setting (id, v) =
    if id == 1
    then peer_table_size v ∷ []
    else if id == 4
    then peer_initial_window_size v ∷ []
    else if id == 5
    then peer_max_frame_size v ∷ []
    else []

abbrev pub apply_settings : List (ℕ × ℕ) → List Effect
apply_settings [] = []
apply_settings (s ∷ ss) = apply_setting s ++ apply_settings ss

-- The two methods `complete`.
abbrev pub complete : Continuation → Fields → Call
complete (header_continuation p) fields = header_call fields true p
complete (push_promise_continuation promise) fields = push_promise_call promise fields

module _ {Decoder : Type 0} (decode : Decoder → Bytes → Option (Fields × Decoder)) where
  -- `decodeFull`, and the call that has the fields.
  abbrev pub decode_and :
      ℕ
      → (Fields → Call)
      → Bytes
      → Reader Decoder
      → Result ProcessError (Reader Decoder × List Effect)
  decode_and id call block r = elim (decode r.decoder block) [
    | none ↦ err decoding
    | some (fields, d) ↦ ok (record r { decoder = d }, deliver id (call fields) ∷ [])
  ]

  -- The case of a CONTINUATION frame that ends the headers; without a state the source panics.
  abbrev pub finish :
      ℕ → Option Continuation → Reader Decoder → Result ProcessError (Reader Decoder × List Effect)
  finish id none r = err no_continuation_state
  finish id (some state) r = decode_and id (complete state) r.header_buffer r

  -- `processFrame`
  unfoldable pub process_frame :
      Reader Decoder → Wire → Result ProcessError (Reader Decoder × List Effect)
  process_frame r (data_frame id ended d) =
      ok (r, send_window_updates id d ++ deliver id (data_call d ended) ∷ [])
  process_frame r (headers id block ended true p) =
      decode_and id (λ fields. header_call fields ended p) block r
  process_frame r (headers id block ended false p) =
      ok (record r { header_buffer = block; continuation_state = some (header_continuation p) }, [])
  process_frame r (push_promise id promise block true) =
      decode_and id (push_promise_call promise) block r
  process_frame r (push_promise id promise block false) = ok (
    record r {
      header_buffer = block;
      continuation_state = some (push_promise_continuation promise);
    },
    [],
  )
  process_frame r (continuation id false block) =
      ok (record r { header_buffer = r.header_buffer ++ block }, [])
  process_frame r (continuation id true block) =
      finish id r.continuation_state (record r { header_buffer = r.header_buffer ++ block })
  process_frame r (priority_frame id p) = ok (r, deliver id (priority_call p) ∷ [])
  process_frame r (rst_stream id code) = ok (r, deliver id (rst_stream_call code) ∷ [])
  process_frame r settings_ack = ok (r, to_dest settings_ack ∷ [])
  process_frame r (settings ss) = ok (r, apply_settings ss ++ to_dest (settings ss) ∷ [])
  process_frame r (ping is_ack d) = ok (r, to_dest (ping is_ack d) ∷ [])
  process_frame r (go_away id code d) = ok (r, to_dest (go_away id code d) ∷ [])
  process_frame r (window_update id increment) = ok (r, peer_window id increment ∷ [])

  -- The loop of `relayFrames` on the frames that are read, up to the first error.
  unfoldable pub process_frames :
      Reader Decoder → List Wire → Result ProcessError (Reader Decoder × List Effect)
  process_frames r [] = ok (r, [])
  process_frames r (f ∷ fs) =
      process_frame r f >>= λ a. process_frames a.0 fs >>= λ b. ok (b.0, a.1 ++ b.1)
