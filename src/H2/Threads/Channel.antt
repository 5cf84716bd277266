-- ===== src/H2/Threads/Channel.antt =====
-- Every run of the threads from an open pipe.
use forwarder.Base.{
  ◌≤◌, ◌<◌, ◌≡◌, refl, sym, ap, ◌∙◌, ◌⊎◌, inl, inr, Bool, true, false, Option, none, some, List, [],
  ◌∷◌, ◌++◌, length, length-append, append_assoc, arith,
}
use forwarder.H2.Frame.{QueuedFrame}
use forwarder.H2.Threads.{
  output_channel_size, Pipe, opened, offer, taken, dropped, sent_on, failed, WriterStep, take_frame,
  drain, send, send_fails, Step, writer, peer_puts, reader_waits, reader_puts, reader_done, Steps,
  here, next,
}

-- The frame that is being written, as a list.
abbrev pub under_way : Option QueuedFrame → List QueuedFrame
under_way none = []
under_way (some f) = f ∷ []

-- The frames sent are the first of those offered; before a failure the others are the one that is
-- being written and those that wait; and the channel is never over its size. A reader that waits has not ended.
pub record IsSound (p : Pipe) : Type 0 where
  pub in_order : (lost : List QueuedFrame) × (p.offered ≡ p.sent ++ (under_way p.sending ++ lost))
  pub none_lost : p.is_failed ≡ false → p.offered ≡ p.sent ++ (under_way p.sending ++ p.output)
  pub bounded : length p.output ≤ output_channel_size
  pub none_after : p.is_failed ≡ true → p.sending ≡ none
  pub waits : p.is_running ≡ false → p.waiting ≡ none

shorter :
    (rest : List QueuedFrame) (f : QueuedFrame) {out : List QueuedFrame}
    → out ≡ f ∷ rest
    → length out ≤ output_channel_size
    → length rest ≤ output_channel_size
shorter rest f h k = let e = ap length h in omega arith

-- One more frame behind the others.
behind :
    (sent way out : List QueuedFrame) (f : QueuedFrame) {all : List QueuedFrame}
    → all ≡ sent ++ (way ++ out)
    → all ++ f ∷ [] ≡ sent ++ (way ++ (out ++ f ∷ []))
behind sent way out f h =
    ap (λ l. l ++ f ∷ []) h
    ∙ append_assoc sent (way ++ out) (f ∷ [])
    ∙ ap (λ l. sent ++ l) (append_assoc way out (f ∷ []))

WriterStep-IsSound : {p q : Pipe} → WriterStep p q → IsSound p → IsSound q
WriterStep-IsSound {p} (take_frame f rest run idle fine out) s =
    let e : p.offered ≡ p.sent ++ (f ∷ rest) = s.none_lost fine ∙ rw (idle, out) refl in
    record {
      in_order = (rest, e);
      none_lost = λ h. e;
      bounded = shorter rest f out s.bounded;
      none_after = λ h. cc;
      waits = s.waits;
    }
WriterStep-IsSound {p} (drain f rest run idle bad out) s = record {
  in_order = s.in_order;
  none_lost = λ h. cc;
  bounded = shorter rest f out s.bounded;
  none_after = s.none_after;
  waits = s.waits;
}
WriterStep-IsSound {p} (send f run busy) s = record {
  in_order =
      (s.in_order.0, s.in_order.1 ∙ rw busy (sym (append_assoc p.sent (f ∷ []) s.in_order.0)));
  none_lost = λ h. s.none_lost h ∙ rw busy (sym (append_assoc p.sent (f ∷ []) p.output));
  bounded = s.bounded;
  none_after = λ h. refl;
  waits = s.waits;
}
WriterStep-IsSound {p} (send_fails f run busy) s = record {
  in_order = (under_way p.sending ++ s.in_order.0, s.in_order.1);
  none_lost = λ h. cc;
  bounded = s.bounded;
  none_after = λ h. refl;
  waits = s.waits;
}

offered-IsSound :
    {p : Pipe} (f : QueuedFrame)
    → length p.output < output_channel_size
    → IsSound p
    → IsSound (offer f p)
offered-IsSound {p} f room s = record {
  in_order =
      (s.in_order.0 ++ f ∷ [], behind p.sent (under_way p.sending) s.in_order.0 f s.in_order.1);
  none_lost = λ h. behind p.sent (under_way p.sending) p.output f (s.none_lost h);
  bounded = omega (arith, length-append {0} p.output (f ∷ []));
  none_after = s.none_after;
  waits = s.waits;
}

Step-IsSound : {p q : Pipe} → Step p q → IsSound p → IsSound q
Step-IsSound (writer w) s = WriterStep-IsSound w s
Step-IsSound (peer_puts f room) s = offered-IsSound f room s
Step-IsSound (reader_waits f run idle) s = record {
  in_order = s.in_order;
  none_lost = s.none_lost;
  bounded = s.bounded;
  none_after = s.none_after;
  waits = λ h. cc;
}
Step-IsSound (reader_puts f own room) s =
    let o = offered-IsSound f room s in
    record {
      in_order = o.in_order;
      none_lost = o.none_lost;
      bounded = o.bounded;
      none_after = o.none_after;
      waits = λ h. refl;
    }
Step-IsSound (reader_done run own idle) s = record {
  in_order = s.in_order;
  none_lost = s.none_lost;
  bounded = s.bounded;
  none_after = s.none_after;
  waits = λ h. own;
}

opened-IsSound : IsSound opened
opened-IsSound = record {
  in_order = ([], refl);
  none_lost = λ h. refl;
  bounded = omega arith;
  none_after = λ h. refl;
  waits = λ h. refl;
}

-- Whatever the threads do in whatever order: what is sent is the first part of what was put on the
-- channel, in that order; while no write has failed the rest of it is the frame that is being
-- written and then what waits there, and after a failure none is written; and at most fifteen frames wait.
pub Steps-IsSound : {p : Pipe} → Steps opened p → IsSound p
Steps-IsSound here = opened-IsSound
Steps-IsSound (next run step) = Step-IsSound step (Steps-IsSound run)

abbrev pub HasRoom : Pipe → Type 0
HasRoom p = length p.output < output_channel_size

-- Room for a put after one more step of the writer.
abbrev pub OneStep : Pipe → Type 0
OneStep p = (q : Pipe) × WriterStep p q × HasRoom q

-- Room for a put now, after a step of the writer, or after the end of its write and one more step.
abbrev pub CanPut : Pipe → Type 0
CanPut p =
    HasRoom p
    ⊎ (OneStep p
        ⊎ ((f : QueuedFrame) × (p.sending ≡ some f) × OneStep (sent_on f p) × OneStep (failed p)))

one_step :
    (p : Pipe) (f : QueuedFrame) (rest : List QueuedFrame) (bad : Bool)
    → p.output ≡ f ∷ rest
    → p.is_failed ≡ bad
    → p.sending ≡ none
    → p.is_running ≡ true
    → length p.output ≤ output_channel_size
    → OneStep p
one_step p f rest false ho hf hs run b =
    (taken f rest p, take_frame f rest run hs hf ho, let e = ap length ho in omega arith)
one_step p f rest true ho hf hs run b =
    (dropped rest p, drain f rest run hs hf ho, let e = ap length ho in omega arith)

can_put :
    (p : Pipe) (out : List QueuedFrame) (way : Option QueuedFrame)
    → p.output ≡ out
    → p.sending ≡ way
    → p.is_running ≡ true
    → length p.output ≤ output_channel_size
    → CanPut p
can_put p [] way ho hs run b = inl (let e = ap length ho in omega arith)
can_put p (f ∷ rest) none ho hs run b = inr (inl (one_step p f rest p.is_failed ho refl hs run b))
can_put p (f ∷ rest) (some g) ho hs run b = inr (
    inr (
      g,
      hs,
      one_step (sent_on g p) f rest p.is_failed ho refl refl run b,
      one_step (failed p) f rest true ho refl refl run b,
    ))

not_ended :
    (p : Pipe)
    → IsSound p
    → (p.is_running ≡ true) ⊎ ((f : QueuedFrame) × (p.waiting ≡ some f))
    → p.is_running ≡ true
not_ended p s (inl running) = running
not_ended p s (inr (f, own)) = go p.is_running refl
  where
    go : (b : Bool) → p.is_running ≡ b → p.is_running ≡ true
    go true r = r
    go false r = let e = s.waits r in cc

-- While the reader has not ended, or when it waits to put a frame, the writer makes room, whether writes fail or not: there is
-- room on the channel, or one step of the writer makes room, or a frame is being written and one step makes room
-- when that write has ended, with an error or without one.
pub Steps-CanPut :
    {p : Pipe}
    → Steps opened p
    → (p.is_running ≡ true) ⊎ ((f : QueuedFrame) × (p.waiting ≡ some f))
    → CanPut p
Steps-CanPut {p} run who =
    let s = Steps-IsSound run in
    can_put p p.output p.sending refl refl (not_ended p s who) s.bounded

-- Steps of a pipe whose reader has ended.
pub record IsStuck (p : Pipe) : Type 0 where
  pub ended : p.is_running ≡ false
  pub is_full : length p.output ≡ output_channel_size

-- Once the reader has ended, a full channel stays full for ever: no step is possible, so a thread that has a
-- frame for it, such as the peer's reader at a window update, never goes on.
pub stuck_for_ever : {p q : Pipe} → IsStuck p → Step p q → ⊥
stuck_for_ever s (writer (take_frame f rest run idle fine out)) = let e = s.ended in cc
stuck_for_ever s (writer (drain f rest run idle bad out)) = let e = s.ended in cc
stuck_for_ever s (writer (send f run busy)) = let e = s.ended in cc
stuck_for_ever s (writer (send_fails f run busy)) = let e = s.ended in cc
stuck_for_ever s (peer_puts f room) = omega (arith, s.is_full)
stuck_for_ever s (reader_waits f run idle) = let e = s.ended in cc
stuck_for_ever s (reader_puts f own room) = omega (arith, s.is_full)
stuck_for_ever s (reader_done run own idle) = let e = s.ended in cc
