-- ===== src/Martian/View.antt =====
-- internal/martian/messageview/messageview.go: the text of a message for the log, and what taking it does to the
-- message. What net/http, net/http/httputil and the decompressors do with headers and bodies are parameters.
pub mod Snapshot
use forwarder.Base.{
  ℕ, ◌+◌, ◌-◌, Bool, true, false, not, ◌&&◌, ◌||◌, Option, none, some, List, [], ◌∷◌, ◌++◌, Bytes,
  codes, beq, length, take, drop, ◌==◌, if◌then◌else◌, has_prefix, Result, ok, err,
}
use forwarder.Base.Decimal.{itoa}
use forwarder.Base.Int.{ℤ, pos, negsuc}
use forwarder.Http.Headers.{Headers, get}

-- A body: what reading it gives, whether the reading ends in an error, and whether it is also a
-- connection that can be written to.
pub record Body : Type 0 where
  pub content : Bytes
  pub is_broken : Bool
  pub is_writable : Bool

-- The parts of a request and of a response that a view reads.
pub record Message : Type 0 where
  pub transfer_encoding : List Bytes
  pub content_length : ℤ
  pub header : Headers
  pub body : Option Body
  pub trailer : Option Headers

-- `MessageView`
pub record View : Type 0 where
  pub message : Bytes
  pub cts : List Bytes
  pub chunked : Bool
  pub skips_body : Bool
  pub compress : Bytes
  pub body_offset : ℕ
  pub trailer_offset : ℕ

-- `New`
abbrev pub new_view : View
new_view = record {
  message = [];
  cts = [];
  chunked = false;
  skips_body = false;
  compress = [];
  body_offset = 0;
  trailer_offset = 0;
}

-- `SkipBody` and `SkipBodyUnlessContentType`
abbrev pub skip_body : Bool → View → View
skip_body b v = record v { skips_body = b }

abbrev pub skip_body_unless_content_type : List Bytes → View → View
skip_body_unless_content_type cts v = record v { skips_body = true; cts = cts }

-- `matchContentType`
unfoldable pub match_content_type : List Bytes → Bytes → Bool
match_content_type [] mct = false
match_content_type (ct ∷ cts) mct = has_prefix mct ct || match_content_type cts mct

abbrev pub line_end : Bytes
line_end = 13 ∷ 10 ∷ []

abbrev pub last_is_chunked : List Bytes → Bool
last_is_chunked [] = false
last_is_chunked (e ∷ []) = beq e (codes "chunked")
last_is_chunked (e ∷ (f ∷ es)) = last_is_chunked (f ∷ es)

-- `strings.Join(es, ", ")`
abbrev pub joined_comma : List Bytes → Bytes
joined_comma [] = []
joined_comma (e ∷ []) = e
joined_comma (e ∷ (f ∷ es)) = e ++ (codes ", " ++ joined_comma (f ∷ es))

-- `mv.chunked` after a message: it stays as it was when the message has no transfer encoding.
abbrev pub chunked_after : Bool → List Bytes → Bool
chunked_after before [] = before
chunked_after before (e ∷ es) = last_is_chunked (e ∷ es)

abbrev pub encoding_line : List Bytes → Bytes
encoding_line [] = []
encoding_line (e ∷ es) = codes "Transfer-Encoding: " ++ (joined_comma (e ∷ es) ++ line_end)

abbrev pub length_line : Bool → ℤ → Bytes
length_line true n = []
length_line false (pos n) = codes "Content-Length: " ++ (itoa n ++ line_end)
length_line false (negsuc n) = []

-- `write_subset` is `Header.WriteSubset`, with the names that are left out; `chunks` is what a chunked writer
-- writes for the data, once closed.
pub record Printing : Type 0 where
  pub write_subset : Headers → List Bytes → Bytes
  pub chunks : Bytes → Bytes

abbrev pub in_memory : Bytes → Body
in_memory d = record { content = d; is_broken = false; is_writable = false }

-- `HTTP/%d.%d`
abbrev pub protocol_text : ℕ → ℕ → Bytes
protocol_text major minor = codes "HTTP/" ++ (itoa major ++ (codes "." ++ itoa minor))

abbrev pub host_line : Bytes → Bytes
host_line [] = []
host_line (c ∷ host) = codes "Host: " ++ (c ∷ host ++ line_end)

-- The lines that both snapshots write between the first one and the other fields.
abbrev pub framing_lines : Bool → Message → Bytes
framing_lines chunked m = encoding_line m.transfer_encoding ++ length_line chunked m.content_length

-- The view when the text up to the body is written and there is no body to show.
abbrev pub headers_only : View → Bytes → View
headers_only v head = record v {
  message = head;
  body_offset = length head;
  trailer_offset = length head;
}

-- The view once the head of a message was looked at.
abbrev pub seen : View → Message → Bytes → View
seen v m compress = record v {
  chunked = chunked_after v.chunked m.transfer_encoding;
  compress = compress;
}

module _ (p : Printing) where
  -- The rest of a message's text, behind its trailer's offset.
  abbrev pub trailer_text : Option Headers → Bool → Bytes
  trailer_text none true = line_end
  trailer_text none false = []
  trailer_text (some t) chunked = p.write_subset t []

  abbrev pub body_text : Bool → Bytes → Bytes
  body_text chunked d = if chunked then p.chunks d else d

  -- The body, read into memory, and the trailer, by whether the read fails. Then what is left of the body is an error.
  abbrev pub with_body : View → Bytes → Message → Body → Bool → Result View View × Message
  with_body v head m b true = (
    err (record v { body_offset = length head; trailer_offset = length head }),
    record m { body = some (record b { content = [] }) },
  )
  with_body v head m b false = (
    ok (record v {
      message = head ++ (body_text v.chunked b.content ++ trailer_text m.trailer v.chunked);
      body_offset = length head;
      trailer_offset = length head + length (body_text v.chunked b.content);
    }),
    record m { body = some (in_memory b.content) },
  )

  abbrev pub skip_or_read : View → Bytes → Message → Body → Bool → Result View View × Message
  skip_or_read v head m b true = (ok (headers_only v head), m)
  skip_or_read v head m b false = with_body v head m b b.is_broken

  -- The part of both snapshots behind the headers.
  abbrev pub snapshot_body : View → Bytes → Message → Option Body → Result View View × Message
  snapshot_body v head m none = (ok (headers_only v head), m)
  snapshot_body v head m (some b) =
      skip_or_read v head m b
        (v.skips_body && not (match_content_type v.cts (get m.header (codes "Content-Type"))))

  -- The text of a request up to its body.
  abbrev pub request_head : View → Bytes → Bytes → ℕ → ℕ → Bytes → Message → Bytes
  request_head v method redacted major minor host m =
      method
      ++ (codes " " ++ (redacted ++ (codes " " ++ (protocol_text major minor ++ line_end))))
      ++ (host_line host
          ++ (framing_lines (chunked_after v.chunked m.transfer_encoding) m
              ++ (p.write_subset m.header
                    (codes "Host" ∷ codes "Content-Length" ∷ codes "Transfer-Encoding" ∷ [])
                  ++ line_end)))

  -- `SnapshotRequest`: method, `URL.Redacted()`, protocol version and host, then the message.
  unfoldable pub snapshot_request :
      View → Bytes → Bytes → ℕ → ℕ → Bytes → Message → Result View View × Message
  snapshot_request v method redacted major minor host m =
      snapshot_body (seen v m (get m.header (codes "Content-Encoding")))
        (request_head v method redacted major minor host m) m m.body

  -- The text of a response up to its body.
  abbrev pub response_head : View → ℕ → ℕ → Bytes → Message → Bytes
  response_head v major minor status m =
      protocol_text major minor
      ++ (codes " " ++ (status ++ line_end))
      ++ (framing_lines (chunked_after v.chunked m.transfer_encoding) m
          ++ (p.write_subset m.header (codes "Content-Length" ∷ codes "Transfer-Encoding" ∷ [])
              ++ line_end))

  -- `SnapshotResponse`: protocol version, status text and code, then the message.
  unfoldable pub snapshot_response : View → ℕ → ℕ → Bytes → ℕ → Message → Result View View × Message
  snapshot_response v major minor status code m =
      snapshot_body
        (seen v m
          (if code == 204 || code == 206 then [] else get m.header (codes "Content-Encoding")))
        (response_head v major minor status m) m m.body

-- The section readers over the text.
abbrev pub header_reader : View → Bytes
header_reader v = take v.body_offset v.message

abbrev pub trailer_reader : View → Bytes
trailer_reader v = drop v.trailer_offset v.message

abbrev pub body_section : View → Bytes
body_section v = take (v.trailer_offset - v.body_offset) (drop v.body_offset v.message)

-- `BodyReader`: `gunzip` fails on a body that is no gzip stream.
pub record Decoders : Type 0 where
  pub unchunk : Bytes → Bytes
  pub gunzip : Bytes → Option Bytes
  pub inflate : Bytes → Bytes

pub body_reader : Decoders → Bool → View → Option Bytes
body_reader d decode v =
    let raw = body_section v in
    let whole = if v.chunked then d.unchunk raw else raw in
    if not decode
    then some raw
    else if beq v.compress (codes "gzip")
    then d.gunzip whole
    else if beq v.compress (codes "deflate")
    then some (d.inflate whole)
    else some whole

-- `Reader`, without options
pub reader : View → Bytes
reader v = header_reader v ++ (body_section v ++ trailer_reader v)
