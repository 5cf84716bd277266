-- ===== src/Martian/Via.antt =====
-- internal/martian/header/via_modifier.go; the random boundary is part of the tag.
pub mod Loop
use forwarder.Base.{
  ℕ, ◌+◌, ◌*◌, List, [], ◌∷◌, ◌++◌, Bytes, codes, contains, beq, Result, ok, err, ◌==◌,
  if◌then◌else◌, true,
}
use forwarder.Base.Decimal.{itoa}
use forwarder.Http.Headers.{get, set_header}
use forwarder.Http.Message.{Request}

-- `martian.ErrorStatus` with the Via header of the error's text; the request is to be closed.
pub record LoopError : Type 0 where
  pub status : ℕ
  pub via : Bytes
  pub closed : Request

-- The prefix that `ProtoMajor` and `ProtoMinor` name.
abbrev pub version_prefix : ℕ → ℕ → Bytes
version_prefix major minor =
    let v = major * 10 + minor in
    if v == 20
    then codes "2.0"
    else if v == 11
    then codes "1.1"
    else if v == 10
    then codes "1.0"
    else itoa major ++ (b'.' ∷ itoa minor)

abbrev pub new_via : Bytes → Bytes → Request → Bytes
new_via tag via req =
    let entry = version_prefix req.proto_major req.proto_minor ++ (b' ' ∷ tag) in
    if beq via [] then entry else via ++ (codes ", " ++ entry)

-- `ModifyRequest`
unfoldable pub modify_request : Bytes → Request → Result LoopError Request
modify_request tag req =
    let via = get req.header (codes "Via") in
    if beq via []
    then ok (record req { header = set_header (codes "Via") (new_via tag via req) req.header })
    else if contains via tag
    then err (record { status = 400; via = via; closed = record req { close = true } })
    else ok (record req { header = set_header (codes "Via") (new_via tag via req) req.header })
