-- ===== src/H2/Relay/Credit.antt =====
-- The connection's window: no more DATA leaves than the peer has granted.
use forwarder.Base.{
  ℕ, ◌+◌, ◌≤◌, ◌≡◌, ap, inl, inr, List, [], ◌∷◌, ◌++◌, Bool-cases, Option-cases, arith, ◌==◌,
  if◌then◌else◌,
}
use forwarder.Base.Int.{pos, ◌+ℤ◌, ◌≤ℤ◌, int_laws, pos_part, neg_part}
use forwarder.H2.Frame.{QueuedFrame}
use forwarder.H2.Output.{OutputBuffer, emit_eligible_frames}
use forwarder.H2.Output.Laws.{total, emit_eligible_frames-Pass}
use forwarder.H2.Relay.{
  Relay, new_relay, emit, enqueue_frame, send_queued_frames, connection_granted, update_window,
  initial_moved, update_initial_window_size, Event, enqueued, granted, initial_changed,
  frame_size_changed, connection_raised, stream_raised, initial_set, flushed, step, run,
}

pub total-append : (fs gs : List QueuedFrame) → total (fs ++ gs) ≡ total fs + total gs
total-append [] gs = omega arith
total-append (f ∷ fs) gs = omega (arith, total-append fs gs)

-- The window and what was sent make up what was granted; the window is not negative.
pub record Credits (n : ℕ) (r : Relay) : Type 0 where
  pub balance : r.connection_window_size +ℤ pos (total r.output) ≡ pos n
  pub nonneg : pos 0 ≤ℤ r.connection_window_size

emit-Credits :
    (n : ℕ) (r : Relay) (id : ℕ) (w : OutputBuffer) → Credits n r → Credits n (emit r id w)
unfolding emit
emit-Credits n r id w c =
    let p = emit_eligible_frames-Pass w r.connection_window_size in
    let e = emit_eligible_frames w r.connection_window_size in
    record {
      balance = omega (
        int_laws,
        ap pos_part c.balance,
        ap neg_part c.balance,
        ap pos_part p.connection_spent,
        ap neg_part p.connection_spent,
        total-append r.output e.sent,
      );
      nonneg = p.connection_nonneg c.nonneg;
    }

send_queued_frames-Credits :
    (n : ℕ) (r : Relay) (ids : List ℕ) → Credits n r → Credits n (send_queued_frames r ids)
unfolding send_queued_frames
send_queued_frames-Credits n r [] c = c
send_queued_frames-Credits n r (id ∷ ids) c = elim (Option-cases (r.output_buffers id)) [
  | inl e ↦ rw (e, send_queued_frames) (send_queued_frames-Credits n r ids c)
  | inr (w, e) ↦
      rw (e, send_queued_frames)
        (send_queued_frames-Credits n (emit r id w) ids (emit-Credits n r id w c))
]

-- Only a grant for stream 0 is one for the connection.
abbrev pub connection_part : ℕ → ℕ → ℕ
connection_part id increment = if id == 0 then increment else 0

granted-Credits :
    (n : ℕ) (r : Relay) (visit : List ℕ) (id increment : ℕ)
    → Credits n r
    → Credits (n + connection_part id increment) (connection_granted r visit id increment)
granted-Credits n r visit id increment c = elim (Bool-cases (id == 0)) [
  | inl e ↦ rw e (
      send_queued_frames-Credits (n + increment)
        (record r { connection_window_size = r.connection_window_size +ℤ pos increment }) visit
        (record {
          balance = omega (int_laws, ap pos_part c.balance, ap neg_part c.balance);
          nonneg = omega (int_laws, c.nonneg);
        }))
  | inr e ↦ rw e (let z : n + 0 ≡ n = omega arith in rw z c)
]

abbrev pub grant_of : Event → ℕ
grant_of (granted _ id increment) = connection_part id increment
grant_of (connection_raised increment) = increment
grant_of _ = 0

abbrev pub grants : List Event → ℕ
grants [] = 0
grants (e ∷ es) = grant_of e + grants es

step-Credits : (n : ℕ) (r : Relay) (e : Event) → Credits n r → Credits (n + grant_of e) (step r e)
unfolding step enqueue_frame update_window update_initial_window_size
step-Credits n r (enqueued f) c = let z : n + 0 ≡ n = omega arith in rw z (emit-Credits n r _ _ c)
step-Credits n r (granted visit id increment) c =
    emit-Credits _ (connection_granted r visit id increment) id _
      (granted-Credits n r visit id increment c)
step-Credits n r (initial_changed visit v) c =
    let z : n + 0 ≡ n = omega arith in
    rw z (
      send_queued_frames-Credits n (initial_moved r v) visit
        (record { balance = c.balance; nonneg = c.nonneg }))
step-Credits n r (frame_size_changed v) c =
    let z : n + 0 ≡ n = omega arith in rw z (record { balance = c.balance; nonneg = c.nonneg })
step-Credits n r (connection_raised increment) c = record {
  balance = omega (int_laws, ap pos_part c.balance, ap neg_part c.balance);
  nonneg = omega (int_laws, c.nonneg);
}
step-Credits n r (stream_raised id increment) c =
    let z : n + 0 ≡ n = omega arith in rw z (emit-Credits n r _ _ c)
step-Credits n r (initial_set v) c =
    let z : n + 0 ≡ n = omega arith in rw z (record { balance = c.balance; nonneg = c.nonneg })
step-Credits n r (flushed visit) c =
    let z : n + 0 ≡ n = omega arith in rw z (send_queued_frames-Credits n r visit c)

run-Credits :
    (n : ℕ) (r : Relay) (es : List Event) → Credits n r → Credits (n + grants es) (run r es)
unfolding run
run-Credits n r [] c = let z : n + 0 ≡ n = omega arith in rw z c
run-Credits n r (e ∷ es) c =
    let z : n + (grant_of e + grants es) ≡ n + grant_of e + grants es = omega arith in
    rw z (run-Credits (n + grant_of e) (step r e) es (step-Credits n r e c))

-- After any sequence of calls the connection's window is what the peer has granted less the DATA
-- that was sent, and it is not negative: never more is sent than 65535 bytes and the grants.
pub run_within_grants :
    (es : List Event)
    → ((run new_relay es).connection_window_size +ℤ pos (total (run new_relay es).output)
        ≡ pos (65535 + grants es))
      × (total (run new_relay es).output ≤ 65535 + grants es)
run_within_grants es =
    let c =
      run-Credits 65535 new_relay es (record { balance = omega int_laws; nonneg = omega arith }) in
    (c.balance, omega (int_laws, ap pos_part c.balance, ap neg_part c.balance, c.nonneg))
