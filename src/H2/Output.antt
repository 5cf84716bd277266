-- ===== src/H2/Output.antt =====
-- internal/martian/h2/relay.go, `outputBuffer`: the frames of one stream that wait for window.
pub mod Laws
use forwarder.Base.{ℕ, Bool, ◌||◌, List, [], ◌∷◌, ◌++◌, if◌then◌else◌}
use forwarder.Base.Int.{ℤ, pos, ◌-ℤ◌, ltb_ℤ}
use forwarder.H2.Frame.{QueuedFrame, flow_control_size}

pub record OutputBuffer : Type 0 where
  pub window_size : ℤ
  pub queue : List QueuedFrame

-- What a pass over a queue leaves: the frames put on the output channel, the connection's window
-- and the buffer.
pub record Emitted : Type 0 where
  pub sent : List QueuedFrame
  pub connection : ℤ
  pub buffer : OutputBuffer

-- The loop of `emitEligibleFrames`, on the two windows and the queue.
pub emit_loop : ℤ → ℤ → List QueuedFrame → Emitted
emit_loop connection window [] = record {
  sent = [];
  connection = connection;
  buffer = record { window_size = window; queue = [] };
}
emit_loop connection window (f ∷ fs) =
    let size = pos (flow_control_size f) in
    let rest = emit_loop (connection -ℤ size) (window -ℤ size) fs in
    if ltb_ℤ connection size || ltb_ℤ window size
    then record {
      sent = [];
      connection = connection;
      buffer = record { window_size = window; queue = f ∷ fs };
    }
    else record rest { sent = f ∷ rest.sent }

pub emit_eligible_frames : OutputBuffer → ℤ → Emitted
unfolding emit_loop
emit_eligible_frames w connection = emit_loop connection w.window_size w.queue

unfoldable pub enqueue : QueuedFrame → OutputBuffer → OutputBuffer
enqueue f w = record w { queue = w.queue ++ f ∷ [] }
