-- ===== src/H2/Threads.antt =====
-- internal/martian/h2/relay.go, `relayFrames`: the output channel of one relay, between the threads that put
-- frames on it and the goroutine that sends them. Frames are put by the relay's own reader, which
-- ends once, and by the reader of the peer, whose window updates release frames of this relay.
pub mod Channel
use forwarder.Base.{ℕ, ◌<◌, ◌≡◌, Bool, true, false, Option, none, some, List, [], ◌∷◌, ◌++◌, length}
use forwarder.H2.Frame.{QueuedFrame}

-- `outputChannelSize`
abbrev pub output_channel_size : ℕ
output_channel_size = 15

-- `offered` is all that was put on the channel, `sent` all that the framer took; `waiting` is the frame that
-- the own reader is about to put, which blocks it, `sending` the one that the writer has taken and
-- is writing; `is_failed` is `err != nil` in the writer, which has then told the reader; `is_running` is
-- false once the reader has met the writer at `readerDone`.
pub record Pipe : Type 0 where
  pub output : List QueuedFrame
  pub offered : List QueuedFrame
  pub sent : List QueuedFrame
  pub waiting : Option QueuedFrame
  pub sending : Option QueuedFrame
  pub is_failed : Bool
  pub is_running : Bool

abbrev pub opened : Pipe
opened = record {
  output = [];
  offered = [];
  sent = [];
  waiting = none;
  sending = none;
  is_failed = false;
  is_running = true;
}

-- A frame put on the channel.
abbrev pub offer : QueuedFrame → Pipe → Pipe
offer f p = record p { output = p.output ++ f ∷ []; offered = p.offered ++ f ∷ [] }

-- The own reader comes to a put, and gets through it.
abbrev pub blocked : QueuedFrame → Pipe → Pipe
blocked f p = record p { waiting = some f }

abbrev pub put_by_reader : QueuedFrame → Pipe → Pipe
put_by_reader f p = record (offer f p) { waiting = none }

-- A frame is taken to be sent, or to be dropped after an error.
abbrev pub taken : QueuedFrame → List QueuedFrame → Pipe → Pipe
taken f rest p = record p { output = rest; sending = some f }

abbrev pub dropped : List QueuedFrame → Pipe → Pipe
dropped rest p = record p { output = rest }

-- The write of the frame ends, without an error or with one.
abbrev pub sent_on : QueuedFrame → Pipe → Pipe
sent_on f p = record p { sending = none; sent = p.sent ++ f ∷ [] }

abbrev pub failed : Pipe → Pipe
failed p = record p { sending = none; is_failed = true }

abbrev pub stopped : Pipe → Pipe
stopped p = record p { is_running = false }

-- What the writer does: the first case of its `select`, and the end of a write, for which it may wait.
pub data WriterStep (p : Pipe) : Pipe → Type 0 where
  take_frame :
      (f : QueuedFrame) (rest : List QueuedFrame)
      → p.is_running ≡ true
      → p.sending ≡ none
      → p.is_failed ≡ false
      → p.output ≡ f ∷ rest
      → WriterStep p (taken f rest p)
  drain :
      (f : QueuedFrame) (rest : List QueuedFrame)
      → p.is_running ≡ true
      → p.sending ≡ none
      → p.is_failed ≡ true
      → p.output ≡ f ∷ rest
      → WriterStep p (dropped rest p)
  send : (f : QueuedFrame) → p.is_running ≡ true → p.sending ≡ some f → WriterStep p (sent_on f p)
  send_fails :
      (f : QueuedFrame) → p.is_running ≡ true → p.sending ≡ some f → WriterStep p (failed p)

-- A put waits while the channel is full. The reader ends between two frames, when the writer is at its `select`.
pub data Step (p : Pipe) : Pipe → Type 0 where
  writer : {q : Pipe} → WriterStep p q → Step p q
  peer_puts : (f : QueuedFrame) → length p.output < output_channel_size → Step p (offer f p)
  reader_waits : (f : QueuedFrame) → p.is_running ≡ true → p.waiting ≡ none → Step p (blocked f p)
  reader_puts :
      (f : QueuedFrame)
      → p.waiting ≡ some f
      → length p.output < output_channel_size
      → Step p (put_by_reader f p)
  reader_done : p.is_running ≡ true → p.waiting ≡ none → p.sending ≡ none → Step p (stopped p)

pub data Steps (p : Pipe) : Pipe → Type 0 where
  here : Steps p p
  next : {q r : Pipe} → Steps p q → Step q r → Steps p r
