-- ===== src/H2/Chunks.antt =====
-- internal/martian/h2/relay.go, `splitIntoChunks` and the payload splitting of `data`.
pub mod Laws
use forwarder.Base.{
  ℕ, zero, suc, Bool, true, false, ◌&&◌, List, [], ◌∷◌, Bytes, length, take, drop, ltb, leb,
  if◌then◌else◌, ◌==◌, min,
}
use forwarder.H2.Frame.{Block, QueuedFrame, queued_data}

-- The loop over `remaining`. The fuel counts rounds; with none left the rest is dropped, which
-- `Laws` excludes for a positive limit. (With the limit 0 the source loops for ever.)
unfoldable pub continuation_chunks : ℕ → ℕ → Bytes → List Bytes
continuation_chunks zero most remaining = []
continuation_chunks (suc fuel) most [] = []
continuation_chunks (suc fuel) most (c ∷ remaining) =
    let len = min (length (c ∷ remaining)) most in
    take len (c ∷ remaining) ∷ continuation_chunks fuel most (drop len (c ∷ remaining))

unfoldable pub split_into_chunks : ℕ → ℕ → Bytes → Block
unfolding continuation_chunks
split_into_chunks first_max continuation_max payload =
    let len = min (length payload) first_max in
    record {
      first = take len payload;
      continued = continuation_chunks (length payload) continuation_max (drop len payload);
    }

-- The frames that the loop of `data` enqueues, in order: the last one carries END_STREAM.
pub data_frames : ℕ → ℕ → ℕ → Bool → Bytes → List QueuedFrame
data_frames zero most id ended payload = []
data_frames (suc fuel) most id ended payload =
    let len = min (length payload) most in
    let rest = drop len payload in
    let more = data_frames fuel most id ended rest in
    queued_data id (ended && length rest == 0) (take len payload)
    ∷ (if length rest == 0 then [] else more)
