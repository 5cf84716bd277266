-- ===== src/Martian/Flush.antt =====
-- internal/martian/flush.go: which responses are flushed early, and the writer that flushes at a pattern. The
-- writer below and its Flush are parameters: the bytes it took with its error, and Flush's error.
pub mod Pattern
use forwarder.Base.{
  ℕ, zero, suc, ◌-◌, ◌/◌, Bool, true, false, not, ◌&&◌, ◌||◌, Option, none, some, List, [], ◌∷◌,
  Bytes, codes, beq, contains, get_or, ltb, ◌==◌, if◌then◌else◌,
}
use forwarder.Base.Int.{ℤ, pos, negsuc}
use forwarder.Http.Headers.{get}
use forwarder.Http.Message.{Response}

-- `sseFlushPattern` and `chunkFlushPattern`
abbrev pub sse_flush_pattern : ℕ × ℕ
sse_flush_pattern = (10, 10)

abbrev pub chunk_flush_pattern : ℕ × ℕ
chunk_flush_pattern = (13, 10)

-- `isHeaderOnlySpec`
pub is_header_only_spec : Response → Bool
is_header_only_spec res =
    beq res.request.method (codes "HEAD")
    || res.status_code / 100 == 1
    || res.status_code == 204
    || res.status_code == 304

abbrev is_minus_one : ℤ → Bool
is_minus_one (pos n) = false
is_minus_one (negsuc n) = n == 0

-- `shouldChunk`
pub should_chunk : Response → Bool
unfolding is_header_only_spec
should_chunk res =
    if not (res.proto_major == 1) || not (res.proto_minor == 1)
    then false
    else if not (is_minus_one res.content_length)
    then false
    else not (is_header_only_spec res)

-- `isTextEventStream`, where `parse_media_type` gives the type without its parameters.
pub is_text_event_stream : (Bytes → Bytes) → Response → Bool
is_text_event_stream parse_media_type res =
    beq (parse_media_type (get res.header (codes "Content-Type"))) (codes "text/event-stream")

pub record FlushWriter : Type 0 where
  pub pattern : ℕ × ℕ
  pub last : ℕ

-- `newPatternFlushWriter`
abbrev pub new_pattern_flush_writer : ℕ × ℕ → FlushWriter
new_pattern_flush_writer pattern = record { pattern = pattern; last = 0 }

-- What a call returns, with whether Flush was called.
pub record Written (E : Type 0) : Type 0 where
  pub writer : FlushWriter
  pub flushed : Bool
  pub n : ℕ
  pub error : Option E

-- The condition for the flush.
abbrev pub at_pattern : FlushWriter → Bytes → ℕ → Bool
at_pattern w p n =
    (w.last == w.pattern.0 && ltb 0 n && get_or p 0 0 == w.pattern.1)
    || contains p (w.pattern.0 ∷ w.pattern.1 ∷ [])

-- `Write`
pub write : {E : Type 0} → Option E → FlushWriter → Bytes → ℕ → Option E → Written E
write flush_error w p n (some e) = record { writer = w; flushed = false; n = n; error = some e }
write flush_error w p n none = record {
  writer = record w { last = if ltb 0 n then get_or p (n - 1) 0 else 0 };
  flushed = at_pattern w p n;
  n = n;
  error = if at_pattern w p n then flush_error else none;
}
