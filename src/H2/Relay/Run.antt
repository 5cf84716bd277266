-- ===== src/H2/Relay/Run.antt =====
-- The relay after any sequence of calls, whichever goroutines make them.
use forwarder.Base.{ℕ, ◌≡◌, refl, sym, ◌∙◌, List, [], ◌∷◌, ◌++◌, append_assoc, append-nil}
use forwarder.Base.Int.{pos}
use forwarder.H2.Frame.{QueuedFrame}
use forwarder.H2.Relay.{
  Relay, new_relay, buffer_of, grant, connection_raised, stream_raised, initial_set, flushed, Event,
  enqueued, granted, initial_changed, frame_size_changed, step, run,
}
use forwarder.H2.Relay.Order.{
  emit-Owned, emit-history, same-history, moved-Owned, moved-history, send_queued_frames-Owned,
  send_queued_frames-history, of_stream, of_stream-append, Owned, history, enqueue_frame-Owned,
  enqueue_frame-history, update_window-Owned, update_window-history,
  update_initial_window_size-Owned, update_initial_window_size-history,
}

-- The frames that a sequence of calls queues.
abbrev pub queued : List Event → List QueuedFrame
queued [] = []
queued (enqueued f ∷ es) = f ∷ queued es
queued (_ ∷ es) = queued es

step-Owned : (r : Relay) (e : Event) → Owned r → Owned (step r e)
unfolding step
step-Owned r (enqueued f) o = enqueue_frame-Owned r o f
step-Owned r (granted visit id n) o = update_window-Owned r o visit id n
step-Owned r (initial_changed visit v) o = update_initial_window_size-Owned r o visit v
step-Owned r (frame_size_changed v) o = o
step-Owned r (connection_raised n) o = o
step-Owned r (stream_raised id n) o = emit-Owned r id (grant (pos n) (buffer_of r id)) (o id) o
step-Owned r (initial_set v) o = moved-Owned r o v
step-Owned r (flushed visit) o = send_queued_frames-Owned r visit o

step-history :
    (r : Relay) (e : Event)
    → Owned r
    → (j : ℕ) → history (step r e) j ≡ history r j ++ of_stream j (queued (e ∷ []))
unfolding step
step-history r (enqueued f) o j = enqueue_frame-history r o f j
step-history r (granted visit id n) o j =
    update_window-history r o visit id n j ∙ sym (append-nil (history r j))
step-history r (initial_changed visit v) o j =
    update_initial_window_size-history r o visit v j ∙ sym (append-nil (history r j))
step-history r (frame_size_changed v) o j = sym (append-nil (history r j))
step-history r (connection_raised n) o j = sym (append-nil (history r j))
step-history r (stream_raised id n) o j =
    emit-history r id (grant (pos n) (buffer_of r id)) (o id) j
    ∙ same-history r id j
    ∙ sym (append-nil (history r j))
step-history r (initial_set v) o j = moved-history r o v j ∙ sym (append-nil (history r j))
step-history r (flushed visit) o j =
    send_queued_frames-history r visit o j ∙ sym (append-nil (history r j))

queued-cons : (e : Event) (es : List Event) → queued (e ∷ es) ≡ queued (e ∷ []) ++ queued es
queued-cons (enqueued f) es = refl
queued-cons _ es = refl

run-history :
    (r : Relay) (es : List Event)
    → Owned r
    → (j : ℕ) → history (run r es) j ≡ history r j ++ of_stream j (queued es)
unfolding run
run-history r [] o j = sym (append-nil (history r j))
run-history r (e ∷ es) o j =
    run-history (step r e) es (step-Owned r e o) j
    ∙ rw (step-history r e o j, queued-cons e es, of_stream-append j (queued (e ∷ [])) (queued es))
        (append_assoc (history r j) (of_stream j (queued (e ∷ []))) (of_stream j (queued es)))

-- Whatever calls are made on a new relay, and in whatever order the buffers are visited: of each
-- stream, what was put on the channel and then what still waits is what was queued, in that order.
pub run-in_order :
    (es : List Event) (id : ℕ)
    → of_stream id (run new_relay es).output ++ (buffer_of (run new_relay es) id).queue
      ≡ of_stream id (queued es)
run-in_order es id = run-history new_relay es (λ j. tt) id
