-- ===== src/H2/Relay.antt =====
-- internal/martian/h2/relay.go: the flow-control state of one direction. `output` is all that was put
-- on the output channel so far, in order; the writer goroutine sends it in that order. The parts of the
-- calls that hold `flowMu` are steps.
pub mod Order
pub mod Run
pub mod Credit
use forwarder.Base.{
  ℕ, suc, Bool, Option, none, some, List, [], ◌∷◌, ◌++◌, Bytes, length, ◌==◌, if◌then◌else◌,
}
use forwarder.Base.Int.{ℤ, pos, ◌+ℤ◌, ◌-ℤ◌}
use forwarder.H2.Frame.{
  Priority, QueuedFrame, queued_header, queued_push_promise, queued_priority, queued_rst_stream,
  stream_id,
}
use forwarder.H2.Chunks.{data_frames, split_into_chunks}
use forwarder.H2.Output.{OutputBuffer, emit_eligible_frames, enqueue}

pub record Relay : Type 0 where
  pub max_frame_size : ℕ
  pub initial_window_size : ℕ
  pub connection_window_size : ℤ
  pub output_buffers : ℕ → Option OutputBuffer
  pub output : List QueuedFrame

abbrev pub initial_max_frame_size : ℕ
initial_max_frame_size = 16384

abbrev pub default_initial_window_size : ℕ
default_initial_window_size = 65535

-- `newRelay`
abbrev pub new_relay : Relay
new_relay = record {
  max_frame_size = initial_max_frame_size;
  initial_window_size = default_initial_window_size;
  connection_window_size = pos default_initial_window_size;
  output_buffers = λ _. none;
  output = [];
}

-- A write to the map `outputBuffers`.
abbrev pub update {ℓ} : {A : Type ℓ} → (ℕ → Option A) → ℕ → A → ℕ → Option A
update m k v j = if j == k then some v else m j

abbrev pub or_new : ℕ → Option OutputBuffer → OutputBuffer
or_new initial none = record { window_size = pos initial; queue = [] }
or_new initial (some w) = w

-- What `outputBuffer` returns: the stream's buffer, or a new one with the initial window.
abbrev pub buffer_of : Relay → ℕ → OutputBuffer
buffer_of r id = or_new r.initial_window_size (r.output_buffers id)

-- `w.emitEligibleFrames(r.output, &r.connectionWindowSize)` on the buffer `w` of stream `id`.
unfoldable pub emit : Relay → ℕ → OutputBuffer → Relay
emit r id w =
    let e = emit_eligible_frames w r.connection_window_size in
    record r {
      connection_window_size = e.connection;
      output_buffers = update r.output_buffers id e.buffer;
      output = r.output ++ e.sent;
    }

-- `enqueueFrame`
unfoldable pub enqueue_frame : Relay → QueuedFrame → Relay
enqueue_frame r f = emit r (stream_id f) (enqueue f (buffer_of r (stream_id f)))

-- `sendQueuedFramesUnderWindowSize`: the buffers are visited in an order that Go does not fix.
unfoldable pub send_queued_frames : Relay → List ℕ → Relay
send_queued_frames r [] = r
send_queued_frames r (id ∷ ids) = elim (r.output_buffers id) [
  | none ↦ send_queued_frames r ids
  | some w ↦ send_queued_frames (emit r id w) ids
]

abbrev pub grant : ℤ → OutputBuffer → OutputBuffer
grant n w = record w { window_size = w.window_size +ℤ n }

-- The part of `updateWindow` for stream 0.
abbrev pub connection_granted : Relay → List ℕ → ℕ → ℕ → Relay
connection_granted r visit id increment =
    if id == 0
    then send_queued_frames
        (record r { connection_window_size = r.connection_window_size +ℤ pos increment }) visit
    else r

-- `updateWindow`, when no other call comes in between its parts: a grant for the connection goes on to the buffer of stream 0 as well.
unfoldable pub update_window : Relay → List ℕ → ℕ → ℕ → Relay
update_window r visit id increment =
    let granted = connection_granted r visit id increment in
    emit granted id (grant (pos increment) (buffer_of granted id))

abbrev pub regrant : ℤ → Option OutputBuffer → Option OutputBuffer
regrant delta none = none
regrant delta (some w) = some (grant delta w)

-- `updateInitialWindowSize`: every stream's window moves by the difference.
abbrev pub initial_moved : Relay → ℕ → Relay
initial_moved r v = record r {
  initial_window_size = v;
  output_buffers = λ id. regrant (pos v -ℤ pos r.initial_window_size) (r.output_buffers id);
}

unfoldable pub update_initial_window_size : Relay → List ℕ → ℕ → Relay
update_initial_window_size r visit v = send_queued_frames (initial_moved r v) visit

-- `updateMaxFrameSize`
abbrev pub update_max_frame_size : Relay → ℕ → Relay
update_max_frame_size r v = record r { max_frame_size = v }

unfoldable pub enqueue_all : Relay → List QueuedFrame → Relay
enqueue_all r [] = r
enqueue_all r (f ∷ fs) = enqueue_all (enqueue_frame r f) fs

-- `data`: the fuel is one more than the payload's length, which `Chunks.Laws` shows to be enough.
unfoldable pub relay_data : Relay → ℕ → Bytes → Bool → Relay
relay_data r id payload ended =
    enqueue_all r (data_frames (suc (length payload)) r.max_frame_size id ended payload)

-- A call that changes the flow-control state, with the order in which a loop over the buffers visits
-- them. `data`, `header` and the others are sequences of `enqueued`. `updateWindow` and
-- `updateInitialWindowSize` give up `flowMu` in between: when other calls come there, each of their
-- parts that hold it is an event of its own, the last four.
pub data Event : Type 0 where
  enqueued : QueuedFrame → Event
  granted : List ℕ → ℕ → ℕ → Event
  initial_changed : List ℕ → ℕ → Event
  frame_size_changed : ℕ → Event
  connection_raised : ℕ → Event
  stream_raised : ℕ → ℕ → Event
  initial_set : ℕ → Event
  flushed : List ℕ → Event

unfoldable pub step : Relay → Event → Relay
step r (enqueued f) = enqueue_frame r f
step r (granted visit id increment) = update_window r visit id increment
step r (initial_changed visit v) = update_initial_window_size r visit v
step r (frame_size_changed v) = update_max_frame_size r v
step r (connection_raised increment) = record r {
  connection_window_size = r.connection_window_size +ℤ pos increment;
}
step r (stream_raised id increment) = emit r id (grant (pos increment) (buffer_of r id))
step r (initial_set v) = initial_moved r v
step r (flushed visit) = send_queued_frames r visit

unfoldable pub run : Relay → List Event → Relay
run r [] = r
run r (e ∷ es) = run (step r e) es
