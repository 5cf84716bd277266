-- ===== src/H2/Process/Blocks.antt =====
-- Header blocks that come in several frames.
use forwarder.Base.{
  ℕ, suc, ◌≡◌, refl, sym, ap, ◌∙◌, Bool, true, false, ◌||◌, not, Option, none, some, List, [], ◌∷◌,
  ◌++◌, append-nil, append_assoc, Bytes, concat, length, leb, Result, ok, err, ◌>>=◌, arith,
}
use forwarder.H2.Frame.{
  Priority, Block, queued_header, queued_push_promise, headers, push_promise, send,
  send_continuations, is_single,
}
use forwarder.H2.Process.{
  Fields, Call, header_call, push_promise_call, Effect, deliver, Continuation, header_continuation,
  push_promise_continuation, ProcessError, decoding, Reader, complete, decode_and, process_frame,
  process_frames,
}

or_false : (b : Bool) → (b || false) ≡ b
or_false b = ground arith

or_true : (b : Bool) → (b || true) ≡ true
or_true b = ground arith

module _ {Decoder : Type 0} where
  -- What a reader does, without the buffer and the state that it keeps between frames.
  abbrev pub visible :
      Result ProcessError (Reader Decoder × List Effect)
      → Result ProcessError (Decoder × List Effect)
  visible (ok (r, es)) = ok (r.decoder, es)
  visible (err e) = err e

module _ {Decoder : Type 0} (decode : Decoder → Bytes → Option (Fields × Decoder)) where
  abbrev pub delivered :
      Decoder → ℕ → (Fields → Call) → Bytes → Result ProcessError (Decoder × List Effect)
  delivered d id call block = elim (decode d block) [
    | none ↦ err decoding
    | some (fields, d') ↦ ok (d', deliver id (call fields) ∷ [])
  ]

  pub one_call :
      (id : ℕ) (call : Fields → Call) (block : Bytes) (r : Reader Decoder)
      → visible (decode_and decode id call block r >>= λ a. ok (a.0, a.1 ++ []))
        ≡ delivered r.decoder id call block
  one_call id call block r = ground arith

  nothing_more :
      (m : Result ProcessError (Reader Decoder × List Effect))
      → visible (m >>= λ b. ok (b.0, [] ++ b.1)) ≡ visible m
  nothing_more (ok (r, es)) = refl
  nothing_more (err e) = refl

  process-continuations :
      (r : Reader Decoder) (id : ℕ) (state : Continuation) (c : Bytes) (cs : List Bytes)
      → r.continuation_state ≡ some state
      → visible (process_frames decode r (send_continuations id (c ∷ cs)))
        ≡ delivered r.decoder id (complete state) (r.header_buffer ++ concat (c ∷ cs))
  unfolding process_frames process_frame send_continuations
  process-continuations r id state c [] e =
      rw (e, append-nil)
        (one_call id (complete state) (r.header_buffer ++ c)
          (record r { header_buffer = r.header_buffer ++ c; continuation_state = some state }))
  process-continuations r id state c (d ∷ cs) e =
      let later = record r { header_buffer = r.header_buffer ++ c } in
      nothing_more (process_frames decode later (send_continuations id (d ∷ cs)))
      ∙ process-continuations later id state d cs e
      ∙ ap (delivered r.decoder id (complete state))
          (append_assoc r.header_buffer c (concat (d ∷ cs)))

  -- The relay at the other end reads what a queued header frame writes as one HEADERS frame with the whole block; but when the block
  -- took more than one frame, the stream counts as ended whatever the frame's flag was.
  pub process_frames-send_header :
      (r : Reader Decoder) (id : ℕ) (ended : Bool) (p : Priority) (b : Block)
      → visible (process_frames decode r (send (queued_header id ended p b)))
        ≡ visible (
            process_frames decode r
              (headers id (b.first ++ concat b.continued) (ended || not (is_single b)) true p ∷ []))
  unfolding process_frames process_frame send send_continuations is_single
  process_frames-send_header r id ended p b = go b.first b.continued
    where
      go :
          (d : Bytes) (cs : List Bytes)
          → visible (
              process_frames decode r
                (send (queued_header id ended p (record { first = d; continued = cs }))))
            ≡ visible (
                process_frames decode r (
                  headers id
                    (d ++ concat cs)
                    (ended || not (is_single (record { first = d; continued = cs })))
                    true
                    p
                  ∷ []))
      go d [] = rw append-nil (
          ap (λ e. visible (process_frames decode r (headers id d e true p ∷ [])))
            (sym (or_false ended)))
      go d (c ∷ cs) =
          let r' = record r {
            header_buffer = d;
            continuation_state = some (header_continuation p);
          } in
          let e : leb (suc (suc (length cs))) 1 ≡ false = ground arith in
          rw e (
            nothing_more (process_frames decode r' (send_continuations id (c ∷ cs)))
            ∙ process-continuations r' id (header_continuation p) c cs refl
            ∙ sym (one_call id (λ fields. header_call fields true p) (d ++ concat (c ∷ cs)) r)
            ∙ ap
                (λ e.
                  visible
                    (process_frames decode r (headers id (d ++ concat (c ∷ cs)) e true p ∷ [])))
                (sym (or_true ended)))

  -- The same of a queued push promise frame, without an exception.
  pub process_frames-send-push_promise :
      (r : Reader Decoder) (id promise : ℕ) (b : Block)
      → visible (process_frames decode r (send (queued_push_promise id promise b)))
        ≡ visible (
            process_frames decode r
              (push_promise id promise (b.first ++ concat b.continued) true ∷ []))
  unfolding process_frames process_frame send send_continuations is_single
  process_frames-send-push_promise r id promise b = go b.first b.continued
    where
      go :
          (d : Bytes) (cs : List Bytes)
          → visible (
              process_frames decode r
                (send (queued_push_promise id promise (record { first = d; continued = cs }))))
            ≡ visible (process_frames decode r (push_promise id promise (d ++ concat cs) true ∷ []))
      go d [] = rw append-nil refl
      go d (c ∷ cs) =
          let r' = record r {
            header_buffer = d;
            continuation_state = some (push_promise_continuation promise);
          } in
          let e : leb (suc (suc (length cs))) 1 ≡ false = ground arith in
          rw e (
            nothing_more (process_frames decode r' (send_continuations id (c ∷ cs)))
            ∙ process-continuations r' id (push_promise_continuation promise) c cs refl
            ∙ sym (one_call id (push_promise_call promise) (d ++ concat (c ∷ cs)) r))
