-- ===== src/H2/Frame/Blocks.antt =====
-- A header block on the wire: what a receiver puts together again.
use forwarder.Base.{
  ℕ, suc, ◌≡◌, ◌∙◌, Bool, true, false, Option, none, some, List, [], ◌∷◌, ◌++◌, append_assoc,
  append-nil, Bytes, concat, length, leb, ◌==◌, ==_refl, if◌then◌else◌, arith,
}
use forwarder.H2.Frame.{
  Priority, Block, queued_header, queued_push_promise, Wire, headers, push_promise, continuation,
  send, send_continuations, is_single,
}

-- A receiver of HEADERS or PUSH_PROMISE: it appends CONTINUATION frames of the same stream up to
-- the one with END_HEADERS.
pub collect : ℕ → Bytes → List Wire → Option (Bytes × List Wire)
collect id acc (continuation i true d ∷ ws) = if i == id then some (acc ++ d, ws) else none
collect id acc (continuation i false d ∷ ws) =
    let more = collect id (acc ++ d) ws in if i == id then more else none
collect id acc _ = none

abbrev open_block : Bool → ℕ → Bytes → List Wire → Option (Bytes × List Wire)
open_block true id d ws = some (d, ws)
open_block false id d ws = collect id d ws

pub receive_header : List Wire → Option (ℕ × Bool × Priority × (Bytes × List Wire))
receive_header (headers id d ended complete p ∷ ws) = elim (open_block complete id d ws) [
  | none ↦ none
  | some r ↦ some (id, ended, p, r)
]
receive_header _ = none

pub receive_push_promise : List Wire → Option (ℕ × ℕ × (Bytes × List Wire))
receive_push_promise (push_promise id promise d complete ∷ ws) =
    elim (open_block complete id d ws) [ none ↦ none | some r ↦ some (id, promise, r) ]
receive_push_promise _ = none

collect-send_continuations :
    (id : ℕ) (acc c : Bytes) (cs : List Bytes) (rest : List Wire)
    → collect id acc (send_continuations id (c ∷ cs) ++ rest) ≡ some (acc ++ concat (c ∷ cs), rest)
unfolding collect send_continuations
collect-send_continuations id acc c [] rest = rw (==_refl id, append-nil)
collect-send_continuations id acc c (d ∷ cs) rest =
    rw (==_refl id) (collect-send_continuations id (acc ++ c) d cs rest ∙ rw append_assoc)

open_block-chunks :
    (id : ℕ) (d : Bytes) (cs : List Bytes) (rest : List Wire)
    → open_block (leb (length (d ∷ cs)) 1) id d (send_continuations id cs ++ rest)
      ≡ some (d ++ concat cs, rest)
unfolding send_continuations
open_block-chunks id d [] rest = rw append-nil
open_block-chunks id d (c ∷ cs) rest =
    let e : leb (suc (suc (length cs))) 1 ≡ false = ground arith in
    rw e (collect-send_continuations id d c cs rest)

-- What a queued header frame writes is received as one block with all its chunks, the flags and the
-- priority as queued, and what follows is left alone.
pub receive_header-send :
    (id : ℕ) (ended : Bool) (p : Priority) (b : Block) (rest : List Wire)
    → receive_header (send (queued_header id ended p b) ++ rest)
      ≡ some (id, ended, p, (b.first ++ concat b.continued, rest))
unfolding receive_header send is_single
receive_header-send id ended p b rest =
    rw (open_block-chunks id b.first b.continued rest, receive_header)

-- So is a push promise.
pub receive_push_promise-send :
    (id promise : ℕ) (b : Block) (rest : List Wire)
    → receive_push_promise (send (queued_push_promise id promise b) ++ rest)
      ≡ some (id, promise, (b.first ++ concat b.continued, rest))
unfolding receive_push_promise send is_single
receive_push_promise-send id promise b rest =
    rw (open_block-chunks id b.first b.continued rest, receive_push_promise)
