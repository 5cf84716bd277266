-- ===== src/H2/Frame.antt =====
-- internal/martian/h2/queued_frames.go: the frames that wait in a stream's queue, and the frames
-- of `http2.Framer` that sending them writes. The framer is the list of the frames written to it.
pub mod Blocks
use forwarder.Base.{ℕ, ◌≡◌, Bool, true, false, List, [], ◌∷◌, Bytes, length, leb, ltb}

-- `http2.PriorityParam`
pub record Priority : Type 0 where
  pub dep : ℕ
  pub exclusive : Bool
  pub weight : ℕ

-- The chunks of a header block: the source indexes the first one, so there is always one.
pub record Block : Type 0 where
  pub first : Bytes
  pub continued : List Bytes

pub data QueuedFrame : Type 0 where
  queued_data : ℕ → Bool → Bytes → QueuedFrame
  queued_header : ℕ → Bool → Priority → Block → QueuedFrame
  queued_push_promise : ℕ → ℕ → Block → QueuedFrame
  queued_priority : ℕ → Priority → QueuedFrame
  queued_rst_stream : ℕ → ℕ → QueuedFrame

-- What a framer is asked to write; the flags of HEADERS are END_STREAM and END_HEADERS.
pub data Wire : Type 0 where
  data_frame : ℕ → Bool → Bytes → Wire
  headers : ℕ → Bytes → Bool → Bool → Priority → Wire
  push_promise : ℕ → ℕ → Bytes → Bool → Wire
  continuation : ℕ → Bool → Bytes → Wire
  priority_frame : ℕ → Priority → Wire
  rst_stream : ℕ → ℕ → Wire
  settings_ack : Wire
  settings : List (ℕ × ℕ) → Wire
  ping : Bool → Bytes → Wire
  go_away : ℕ → ℕ → Bytes → Wire
  window_update : ℕ → ℕ → Wire

unfoldable pub stream_id : QueuedFrame → ℕ
stream_id (queued_data id _ _) = id
stream_id (queued_header id _ _ _) = id
stream_id (queued_push_promise id _ _) = id
stream_id (queued_priority id _) = id
stream_id (queued_rst_stream id _) = id

-- Only DATA frames count against the windows.
unfoldable pub flow_control_size : QueuedFrame → ℕ
flow_control_size (queued_data _ _ d) = length d
flow_control_size (queued_header _ _ _ _) = 0
flow_control_size (queued_push_promise _ _ _) = 0
flow_control_size (queued_priority _ _) = 0
flow_control_size (queued_rst_stream _ _) = 0

-- The loop over the chunks behind the first: the last one ends the headers.
unfoldable pub send_continuations : ℕ → List Bytes → List Wire
send_continuations id [] = []
send_continuations id (c ∷ []) = continuation id true c ∷ []
send_continuations id (c ∷ (d ∷ cs)) = continuation id false c ∷ send_continuations id (d ∷ cs)

-- `len(f.chunks) <= 1`
unfoldable pub is_single : Block → Bool
is_single b = leb (length (b.first ∷ b.continued)) 1

-- `send`, where the framer takes every frame; a framer that fails ends the relay.
unfoldable pub send : QueuedFrame → List Wire
unfolding send_continuations is_single
send (queued_data id ended d) = data_frame id ended d ∷ []
send (queued_header id ended p b) =
    headers id b.first ended (is_single b) p ∷ send_continuations id b.continued
send (queued_push_promise id promise b) =
    push_promise id promise b.first (is_single b) ∷ send_continuations id b.continued
send (queued_priority id p) = priority_frame id p ∷ []
send (queued_rst_stream id code) = rst_stream id code ∷ []
