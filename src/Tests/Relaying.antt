-- ===== src/Tests/Relaying.antt =====
-- The sending half of an HTTP/2 relay, its threads and its set-up, at concrete values.
use forwarder.Base.{
  ℕ, suc, ◌≡◌, refl, ap, inr, true, false, Option, none, some, [], ◌∷◌, ◌++◌, Bytes, codes, ok,
  arith,
}
use forwarder.H2.Frame.{Priority, QueuedFrame, queued_header, queued_rst_stream}
use forwarder.H2.Chunks.{split_into_chunks, continuation_chunks}
use forwarder.H2.Process.{Fields, Reader}
use forwarder.H2.Relay.{new_relay, enqueue_frame}
use forwarder.H2.Setup.Chains.{get_same}
use forwarder.H2.Setup.{Processors, stored, get}
use forwarder.H2.Threads.Channel.{IsSound, Steps-IsSound, CanPut, Steps-CanPut}
use forwarder.H2.Threads.{
  Pipe, opened, offer, taken, sent_on, blocked, Steps, writer, take_frame, send, peer_puts,
  reader_waits, here, next,
}
use forwarder.H2.Writer.Delivery.{Codec, HeaderQueued, header-HeaderQueued}
use forwarder.H2.Writer.{Sender, header, encode_full}

-- A codec for names and values of one byte each, with a count for its state.
abbrev toy_write : ℕ → Bytes × Bytes → Option (Bytes × ℕ)
toy_write e (c ∷ [], d ∷ []) = some (c ∷ d ∷ [], suc e)
toy_write e _ = none

abbrev toy_front : Bytes × Bytes → Option (Fields × ℕ) → Option (Fields × ℕ)
toy_front f none = none
toy_front f (some (fs, d)) = some (f ∷ fs, d)

abbrev toy_decode : ℕ → Bytes → Option (Fields × ℕ)
toy_decode d [] = some ([], d)
toy_decode d (c ∷ []) = none
toy_decode d (c ∷ k ∷ rest) = toy_front (c ∷ [], k ∷ []) (toy_decode (suc d) rest)

abbrev FieldRead : ℕ → ℕ → Bytes × Bytes → Bytes → Type 0
FieldRead e' d f b =
    (d' : ℕ) × (e' ≡ d')
    × ((rest : Bytes) (fs : Fields) (d'' : ℕ)
        → toy_decode d' rest ≡ some (fs, d'')
        → toy_decode d (b ++ rest) ≡ some (f ∷ fs, d''))

toy_read :
    (e e' d : ℕ) (f : Bytes × Bytes) (b : Bytes)
    → e ≡ d
    → toy_write e f ≡ some (b, e')
    → FieldRead e' d f b
toy_read e e' d ([], v) b h w = cc
toy_read e e' d (c ∷ [], []) b h w = cc
toy_read e e' d (c ∷ x ∷ n, v) b h w = cc
toy_read e e' d (c ∷ [], k ∷ l ∷ v) b h w = cc
toy_read e e' d (c ∷ [], k ∷ []) b h w =
    let hb : c ∷ k ∷ [] ≡ b = cc in
    let he : e' ≡ suc d = cc in
    rw (← hb) (suc d, he, λ rest fs d'' r. ap (toy_front (c ∷ [], k ∷ [])) r)

abbrev toy : Codec ℕ ℕ
toy = record {
  write_field = toy_write;
  decode = toy_decode;
  InStep = λ e d. e ≡ d;
  decode_nil = λ d. refl;
  decode_field = toy_read;
}

abbrev no_weight : Priority
no_weight = record { dep = 1; exclusive = false; weight = 0 }

abbrev fresh : Sender ℕ
fresh = record { relay = new_relay; encoder = 0 }

abbrev read_nothing : Reader ℕ
read_nothing = record { header_buffer = []; continuation_state = none; decoder = 0 }

abbrev one_field : Fields
one_field = (codes "a", codes "b") ∷ []

abbrev queued : Sender ℕ
queued = record {
  relay =
      enqueue_frame new_relay
        (queued_header 1 true no_weight (record { first = codes "ab"; continued = [] }));
  encoder = 1;
}

queued_lem : header toy_write fresh 1 one_field true no_weight ≡ ok queued
unfolding header encode_full split_into_chunks continuation_chunks
queued_lem = refl

header-HeaderQueued_example : HeaderQueued toy fresh queued read_nothing 1 one_field true no_weight
header-HeaderQueued_example =
    header-HeaderQueued toy fresh queued read_nothing 1 one_field true no_weight refl (omega arith)
      (omega arith) queued_lem

-- One frame is put on the channel and sent, and the reader comes to a put.
abbrev a_reset : QueuedFrame
a_reset = queued_rst_stream 1 8

abbrev after_send : Pipe
after_send = blocked a_reset (sent_on a_reset (taken a_reset [] (offer a_reset opened)))

one_sent : Steps opened after_send
one_sent =
    next
      (next
        (next (next here (peer_puts a_reset (omega arith)))
          (writer (take_frame a_reset [] refl refl refl refl)))
        (writer (send a_reset refl refl)))
      (reader_waits a_reset refl refl)

Steps-IsSound_example : IsSound after_send
Steps-IsSound_example = Steps-IsSound one_sent

Steps-CanPut_example : CanPut after_send
Steps-CanPut_example = Steps-CanPut one_sent (inr (a_reset, refl))

abbrev ends : Processors ℕ
ends = record { c_to_s = 1; s_to_c = 2 }

abbrev other_ends : Processors ℕ
other_ends = record { c_to_s = 3; s_to_c = 4 }

get_same_example :
    (get (stored (get (λ _. none) ((1, other_ends) ∷ []) 1 ends).0 ((2, ends) ∷ [])) [] 1 ends).1
    ≡ (get (λ _. none) ((1, other_ends) ∷ []) 1 ends).1
get_same_example = get_same (λ _. none) ((1, other_ends) ∷ []) ((2, ends) ∷ []) [] 1 ends ends
