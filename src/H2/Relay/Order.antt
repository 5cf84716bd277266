-- ===== src/H2/Relay/Order.antt =====
-- Frames of one stream leave in the order in which they were queued, whatever the windows do.
use forwarder.Base.{
  ℕ, ◌≡◌, refl, sym, ap, ◌∙◌, false, inl, inr, some, List, [], ◌∷◌, ◌++◌, append_assoc, append-nil,
  Bool-cases, Option-cases, arith, All, All-append, ◌==◌, ==_iff, ==_refl, if◌then◌else◌,
}
use forwarder.Base.Int.{pos, ◌+ℤ◌}
use forwarder.H2.Frame.{QueuedFrame, stream_id}
use forwarder.H2.Output.{OutputBuffer, emit_eligible_frames, enqueue}
use forwarder.H2.Output.Laws.{Pass, emit_eligible_frames-Pass}
use forwarder.H2.Relay.{
  Relay, buffer_of, emit, enqueue_frame, send_queued_frames, grant, update_window,
  connection_granted, initial_moved, update_initial_window_size,
}

-- The frames of a list that belong to a stream.
abbrev pub of_stream : ℕ → List QueuedFrame → List QueuedFrame
of_stream id [] = []
of_stream id (f ∷ fs) = if stream_id f == id then f ∷ of_stream id fs else of_stream id fs

abbrev pub IsOf : ℕ → List QueuedFrame → Type 0
IsOf id = All (λ f. stream_id f ≡ id)

pub of_stream-append :
    (id : ℕ) (fs gs : List QueuedFrame)
    → of_stream id (fs ++ gs) ≡ of_stream id fs ++ of_stream id gs
of_stream-append id [] gs = refl
of_stream-append id (f ∷ fs) gs = ground (arith, of_stream-append id fs gs)

pub of_stream_own : (id : ℕ) (fs : List QueuedFrame) → IsOf id fs → of_stream id fs ≡ fs
of_stream_own id [] h = refl
of_stream_own id (f ∷ fs) h = ground (arith, of_stream_own id fs h.1)

pub of_stream_other :
    (id j : ℕ) (fs : List QueuedFrame) → (j == id) ≡ false → IsOf id fs → of_stream j fs ≡ []
of_stream_other id j [] n h = refl
of_stream_other id j (f ∷ fs) n h = ground (arith, of_stream_other id j fs n h.1)

IsOf-split : (id : ℕ) (fs gs : List QueuedFrame) → IsOf id (fs ++ gs) → IsOf id fs × IsOf id gs
IsOf-split id [] gs h = (tt, h)
IsOf-split id (f ∷ fs) gs h = let p = IsOf-split id fs gs h.1 in ((h.0, p.0), p.1)

-- Every queue holds frames of its own stream only.
abbrev pub Owned : Relay → Type 0
Owned r = (id : ℕ) → IsOf id (buffer_of r id).queue

-- What was sent of a stream, and then what waits.
abbrev pub history : Relay → ℕ → List QueuedFrame
history r j = of_stream j r.output ++ (buffer_of r j).queue

pub buffer_of-emit :
    (r : Relay) (id : ℕ) (w : OutputBuffer) (j : ℕ)
    → buffer_of (emit r id w) j ≡ (
        if j == id then (emit_eligible_frames w r.connection_window_size).buffer else buffer_of r j)
unfolding emit
buffer_of-emit r id w j = elim (Bool-cases (j == id)) [ inl here ↦ rw here | inr there ↦ rw there ]

module _ (r : Relay) (id : ℕ) (w : OutputBuffer) (own : IsOf id w.queue) where
  abbrev went : List QueuedFrame
  went = (emit_eligible_frames w r.connection_window_size).sent

  pass :
      Pass r.connection_window_size w.window_size w.queue
        (emit_eligible_frames w r.connection_window_size)
  pass = emit_eligible_frames-Pass w r.connection_window_size

  pub sent-IsOf :
      IsOf id (emit_eligible_frames w r.connection_window_size).sent
      × IsOf id (emit_eligible_frames w r.connection_window_size).buffer.queue
  sent-IsOf = IsOf-split id _ _ (rw (pass.in_order) own)

  pub emit-Owned : Owned r → Owned (emit r id w)
  emit-Owned o j = elim (Bool-cases (j == id)) [
    | inl here ↦ rw (buffer_of-emit r id w j, here, (==_iff j id).0 here) sent-IsOf.1
    | inr there ↦ rw (buffer_of-emit r id w j, there) (o j)
  ]

  pub emit-history :
      (j : ℕ)
      → history (emit r id w) j
        ≡ (if j == id then of_stream id r.output ++ w.queue else history r j)
  unfolding emit
  emit-history j = elim (Bool-cases (j == id)) [
    | inl here ↦
        rw
          (
            buffer_of-emit r id w j,
            here,
            (==_iff j id).0 here,
            of_stream-append id r.output went,
            of_stream_own id went sent-IsOf.0,
          )
          (append_assoc (of_stream id r.output) _ _
            ∙ ap (◌++◌ (of_stream id r.output)) pass.in_order)
    | inr there ↦ rw (
      buffer_of-emit r id w j,
      there,
      of_stream-append j r.output went,
      of_stream_other id j went there sent-IsOf.0,
      append-nil,
    )
  ]

found-IsOf :
    (r : Relay) (id : ℕ) (w : OutputBuffer)
    → Owned r
    → r.output_buffers id ≡ some w
    → IsOf id w.queue
found-IsOf r id w o e = rw e at (o id)

found-history :
    (r : Relay) (id : ℕ) (w : OutputBuffer)
    → r.output_buffers id ≡ some w
    → (j : ℕ) → (if j == id then of_stream id r.output ++ w.queue else history r j) ≡ history r j
found-history r id w e j = elim (Bool-cases (j == id)) [
  | inl here ↦ rw (here, (==_iff j id).0 here, e)
  | inr there ↦ rw there
]

pub send_queued_frames-Owned :
    (r : Relay) (ids : List ℕ) → Owned r → Owned (send_queued_frames r ids)
unfolding send_queued_frames
send_queued_frames-Owned r [] o = o
send_queued_frames-Owned r (id ∷ ids) o = elim (Option-cases (r.output_buffers id)) [
  | inl e ↦ rw (e, send_queued_frames) (send_queued_frames-Owned r ids o)
  | inr (w, e) ↦
      rw (e, send_queued_frames)
        (send_queued_frames-Owned (emit r id w) ids (emit-Owned r id w (found-IsOf r id w o e) o))
]

pub send_queued_frames-history :
    (r : Relay) (ids : List ℕ)
    → Owned r
    → (j : ℕ) → history (send_queued_frames r ids) j ≡ history r j
unfolding send_queued_frames
send_queued_frames-history r [] o j = refl
send_queued_frames-history r (id ∷ ids) o j = elim (Option-cases (r.output_buffers id)) [
  | inl e ↦ rw (e, send_queued_frames) (send_queued_frames-history r ids o j)
  | inr (w, e) ↦
      let own = found-IsOf r id w o e in
      rw (e, send_queued_frames)
        (send_queued_frames-history (emit r id w) ids (emit-Owned r id w own o) j
          ∙ emit-history r id w own j
          ∙ found-history r id w e j)
]

pub same-history :
    (r : Relay) (id j : ℕ)
    → (if j == id then of_stream id r.output ++ (buffer_of r id).queue else history r j)
      ≡ history r j
same-history r id j = elim (Bool-cases (j == id)) [
  | inl here ↦ rw (here, (==_iff j id).0 here)
  | inr there ↦ rw there
]

-- The window of a buffer is no part of its history.
module _ (r : Relay) (o : Owned r) where
  enqueued-IsOf :
      (f : QueuedFrame) → IsOf (stream_id f) (enqueue f (buffer_of r (stream_id f))).queue
  unfolding enqueue
  enqueued-IsOf f =
      All-append _ (buffer_of r (stream_id f)).queue (f ∷ []) (o (stream_id f)) (refl, tt)

  pub enqueue_frame-Owned : (f : QueuedFrame) → Owned (enqueue_frame r f)
  unfolding enqueue_frame
  enqueue_frame-Owned f =
      emit-Owned r (stream_id f) (enqueue f (buffer_of r (stream_id f))) (enqueued-IsOf f) o

  pub enqueue_frame-history :
      (f : QueuedFrame) (j : ℕ)
      → history (enqueue_frame r f) j ≡ history r j ++ of_stream j (f ∷ [])
  unfolding enqueue_frame enqueue
  enqueue_frame-history f j = elim (Bool-cases (j == stream_id f)) [
    | inl here ↦
        emit-history r (stream_id f) (enqueue f (buffer_of r (stream_id f))) (enqueued-IsOf f) j
        ∙ rw (here, (==_iff j (stream_id f)).0 here, ==_refl (stream_id f))
            (sym (
              append_assoc (of_stream (stream_id f) r.output) (buffer_of r (stream_id f)).queue
                (f ∷ [])))
    | inr there ↦
        emit-history r (stream_id f) (enqueue f (buffer_of r (stream_id f))) (enqueued-IsOf f) j
        ∙ (let other : (stream_id f == j) ≡ false = ground arith in rw (there, other, append-nil))
  ]

  granted-Owned :
      (visit : List ℕ) (id increment : ℕ) → Owned (connection_granted r visit id increment)
  granted-Owned visit id increment = elim (Bool-cases (id == 0)) [
    | inl e ↦ rw e (
        send_queued_frames-Owned
          (record r { connection_window_size = r.connection_window_size +ℤ pos increment }) visit o)
    | inr e ↦ rw e o
  ]

  granted-history :
      (visit : List ℕ) (id increment j : ℕ)
      → history (connection_granted r visit id increment) j ≡ history r j
  granted-history visit id increment j = elim (Bool-cases (id == 0)) [
    | inl e ↦ rw e (
        send_queued_frames-history
          (record r { connection_window_size = r.connection_window_size +ℤ pos increment }) visit o
          j)
    | inr e ↦ rw e
  ]

  pub update_window-Owned :
      (visit : List ℕ) (id increment : ℕ) → Owned (update_window r visit id increment)
  unfolding update_window
  update_window-Owned visit id increment =
      let granted = connection_granted r visit id increment in
      let own = granted-Owned visit id increment in
      emit-Owned granted id (grant (pos increment) (buffer_of granted id)) (own id) own

  pub update_window-history :
      (visit : List ℕ) (id increment j : ℕ)
      → history (update_window r visit id increment) j ≡ history r j
  unfolding update_window
  update_window-history visit id increment j =
      let granted = connection_granted r visit id increment in
      emit-history granted id (grant (pos increment) (buffer_of granted id))
        (granted-Owned visit id increment id) j
      ∙ same-history granted id j
      ∙ granted-history visit id increment j

  moved_queue : (v j : ℕ) → (buffer_of (initial_moved r v) j).queue ≡ (buffer_of r j).queue
  moved_queue v j = elim (Option-cases (r.output_buffers j)) [ inl e ↦ rw e | inr (w, e) ↦ rw e ]

  pub moved-history : (v j : ℕ) → history (initial_moved r v) j ≡ history r j
  moved-history v j = ap (◌++◌ (of_stream j r.output)) (moved_queue v j)

  pub moved-Owned : (v : ℕ) → Owned (initial_moved r v)
  moved-Owned v j = rw (moved_queue v j) (o j)

  pub update_initial_window_size-Owned :
      (visit : List ℕ) (v : ℕ) → Owned (update_initial_window_size r visit v)
  unfolding update_initial_window_size
  update_initial_window_size-Owned visit v =
      send_queued_frames-Owned (initial_moved r v) visit (moved-Owned v)

  pub update_initial_window_size-history :
      (visit : List ℕ) (v j : ℕ) → history (update_initial_window_size r visit v) j ≡ history r j
  unfolding update_initial_window_size
  update_initial_window_size-history visit v j =
      send_queued_frames-history (initial_moved r v) visit (moved-Owned v) j ∙ moved-history v j
