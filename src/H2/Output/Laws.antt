-- ===== src/H2/Output/Laws.antt =====
-- What a pass over a queue sends, and what it does to the two windows.
use forwarder.Base.{
  ℕ, ◌+◌, ◌≡◌, refl, ap, true, inl, inr, List, [], ◌∷◌, ◌++◌, Bool-cases, arith, ◌||◌,
}
use forwarder.Base.Int.{ℤ, pos, ◌+ℤ◌, ◌-ℤ◌, ◌≤ℤ◌, ltb_ℤ, int_laws, pos_part, neg_part}
use forwarder.H2.Frame.{QueuedFrame, flow_control_size}
use forwarder.H2.Output.{OutputBuffer, Emitted, emit_loop, emit_eligible_frames}

-- The bytes of DATA in a list of frames.
abbrev pub total : List QueuedFrame → ℕ
total [] = 0
total (f ∷ fs) = flow_control_size f + total fs

-- The frame at the front of a queue does not fit.
abbrev pub IsHeld : ℤ → ℤ → List QueuedFrame → Type 0
IsHeld connection window [] = Unit
IsHeld connection window (f ∷ fs) =
    (ltb_ℤ connection (pos (flow_control_size f)) || ltb_ℤ window (pos (flow_control_size f)))
    ≡ true

-- What a pass with windows `c` and `w` over the queue `q` does.
pub record Pass (c w : ℤ) (q : List QueuedFrame) (e : Emitted) : Type 0 where
  pub in_order : e.sent ++ e.buffer.queue ≡ q
  pub connection_spent : e.connection +ℤ pos (total e.sent) ≡ c
  pub window_spent : e.buffer.window_size +ℤ pos (total e.sent) ≡ w
  pub connection_nonneg : pos 0 ≤ℤ c → pos 0 ≤ℤ e.connection
  pub window_nonneg : pos 0 ≤ℤ w → pos 0 ≤ℤ e.buffer.window_size
  pub held : IsHeld e.connection e.buffer.window_size e.buffer.queue

stopped :
    (c w : ℤ) (q : List QueuedFrame)
    → IsHeld c w q
    → Pass c w q
        (record { sent = []; connection = c; buffer = record { window_size = w; queue = q } })
stopped c w q h = record {
  in_order = refl;
  connection_spent = omega int_laws;
  window_spent = omega int_laws;
  connection_nonneg = λ x. x;
  window_nonneg = λ x. x;
  held = h;
}

abbrev emitted_cons : QueuedFrame → Emitted → Emitted
emitted_cons f e = record e { sent = f ∷ e.sent }

went_on :
    (c w : ℤ) (f : QueuedFrame) (q : List QueuedFrame) (e : Emitted)
    → pos (flow_control_size f) ≤ℤ c
    → pos (flow_control_size f) ≤ℤ w
    → Pass (c -ℤ pos (flow_control_size f)) (w -ℤ pos (flow_control_size f)) q e
    → Pass c w (f ∷ q) (emitted_cons f e)
went_on c w f q e fc fw p = record {
  in_order = ap (◌∷◌ f) p.in_order;
  connection_spent =
      omega (int_laws, ap pos_part p.connection_spent, ap neg_part p.connection_spent);
  window_spent = omega (int_laws, ap pos_part p.window_spent, ap neg_part p.window_spent);
  connection_nonneg = λ h. p.connection_nonneg (omega int_laws);
  window_nonneg = λ h. p.window_nonneg (omega int_laws);
  held = p.held;
}

emit_loop-Pass : (c w : ℤ) (q : List QueuedFrame) → Pass c w q (emit_loop c w q)
unfolding emit_loop
emit_loop-Pass c w [] = stopped c w [] tt
emit_loop-Pass c w (f ∷ q) =
    let size = pos (flow_control_size f) in
    elim (Bool-cases (ltb_ℤ c size || ltb_ℤ w size)) [
      | inl full ↦ rw full (stopped c w (f ∷ q) full)
      | inr room ↦ rw room (
          went_on c w f q _ (ground (arith, room)) (ground (arith, room))
            (emit_loop-Pass (c -ℤ size) (w -ℤ size) q))
    ]

-- A pass over a stream's queue sends frames off its front and in order, takes the bytes of DATA that
-- it sends off both windows, brings neither of them below zero, and stops at the first frame that
-- does not fit.
pub emit_eligible_frames-Pass :
    (w : OutputBuffer) (connection : ℤ)
    → Pass connection w.window_size w.queue (emit_eligible_frames w connection)
unfolding emit_eligible_frames
emit_eligible_frames-Pass w connection = emit_loop-Pass connection w.window_size w.queue
