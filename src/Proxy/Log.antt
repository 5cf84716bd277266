-- ===== src/Proxy/Log.antt =====
-- httplog/httplog.go and middleware/logger.go: what a proxy logs of a request and its response. The name
-- of the trace, the text of a duration and `URL.Redacted` are parts of the entry.
pub mod Secrets
use forwarder.Base.{
  ℕ, ◌/◌, Bool, true, false, not, ◌&&◌, ◌||◌, Option, none, some, List, [], ◌∷◌, ◌++◌, Bytes, codes,
  beq, cut, ltb, ◌==◌, if◌then◌else◌, Result, ok, err,
}
use forwarder.Base.Decimal.{itoa}
use forwarder.Martian.View.{
  Message, View, Printing, new_view, skip_body, snapshot_request, snapshot_response, reader,
}

pub data LogMode : Type 0 where
  no_log short_url url headers body errors : LogMode

-- The texts of the modes; the empty one is `DefaultMode`.
pub mode_text : LogMode → Bytes
mode_text no_log = codes "none"
mode_text short_url = codes "short-url"
mode_text url = codes "url"
mode_text headers = codes "headers"
mode_text body = codes "body"
mode_text errors = codes "errors"

-- The switch of `SplitNameMode`
abbrev pub mode_in : List LogMode → Bytes → Option LogMode
mode_in [] val = none
mode_in (m ∷ ms) val = if beq (mode_text m) val then some m else mode_in ms val

abbrev pub modes : List LogMode
modes = no_log ∷ short_url ∷ url ∷ headers ∷ body ∷ errors ∷ []

abbrev pub with_mode : Bytes → Bytes → Option (Bytes × LogMode)
with_mode name val = elim (mode_in modes val) [ none ↦ none | some m ↦ some (name, m) ]

abbrev pub name_and_mode : Bytes → Option (Bytes × Bytes) → Option (Bytes × LogMode)
name_and_mode val none = with_mode [] val
name_and_mode val (some (n, m)) = with_mode n m

-- `SplitNameMode`
pub split_name_mode : Bytes → Option (Bytes × LogMode)
unfolding mode_text
split_name_mode val = name_and_mode val (cut b':' val)

-- The parts of a URL that the log reads; `redacted` is its text without the password.
pub record LoggedUrl : Type 0 where
  pub scheme : Bytes
  pub host : Bytes
  pub path : Bytes
  pub redacted : Bytes

-- `LogEntry`, with what the two messages are.
pub record Entry : Type 0 where
  pub trace : Bytes
  pub method : Bytes
  pub target : LoggedUrl
  pub status : ℕ
  pub duration : Bytes
  pub proto_major : ℕ
  pub proto_minor : ℕ
  pub request_host : Bytes
  pub request : Message
  pub status_line : Bytes
  pub response : Option Message

-- `trace`
abbrev pub trace_text : Entry → Bytes
trace_text e = if beq e.trace [] then [] else codes "[" ++ (e.trace ++ codes "] ")

-- The rest of a line.
abbrev pub outcome_text : Entry → Bytes
outcome_text e =
    codes " status=" ++ (itoa e.status ++ (codes " duration=" ++ (e.duration ++ 10 ∷ [])))

-- `URLLine`
abbrev pub url_line : Entry → Bytes
url_line e = trace_text e ++ (e.method ++ (codes " " ++ (e.target.redacted ++ outcome_text e)))

abbrev pub scheme_text : Bytes → Bytes
scheme_text [] = []
scheme_text (c ∷ s) = c ∷ s ++ codes "://"

abbrev pub path_text : Bytes → Bytes
path_text [] = []
path_text (c ∷ s) = if c == b'/' then c ∷ s else b'/' ∷ c ∷ s

-- `ShortURLLine`
abbrev pub short_url_line : Entry → Bytes
short_url_line e =
    trace_text e
    ++ (e.method
        ++ (codes " "
            ++ (scheme_text e.target.scheme
                ++ (e.target.host ++ (path_text e.target.path ++ outcome_text e)))))

-- The argument of `SkipBody` in `dump`
abbrev pub skips : Bool → Entry → Bool
skips with_body e = not with_body || (beq e.method (codes "CONNECT") && e.status / 100 == 2)

-- What a log call writes, if it writes anything, and the two messages afterwards.
pub record Logged : Type 0 where
  pub text : Bytes
  pub request : Message
  pub response : Option Message

-- What `error` writes, without the text of the error itself.
abbrev pub error_text : Bytes
error_text = 10 ∷ (codes "logger error: " ++ 10 ∷ [])

abbrev pub after_response : Bytes → Message → Result View View × Message → Logged
after_response text req (ok v, m) = record {
  text = text ++ reader v;
  request = req;
  response = some m;
}
after_response text req (err v, m) = record {
  text = text ++ error_text;
  request = req;
  response = some m;
}

abbrev pub only : Entry → Bytes → Option Logged
only e text = some (record { text = text; request = e.request; response = e.response })

abbrev pub in_front : Bytes → Logged → Option Logged
in_front line l = some (record l { text = line ++ (l.text ++ 10 ∷ []) })

module _ (p : Printing) where
  -- The second half of `dump`, on the view of the request.
  abbrev pub dump_response : View → Entry → Message → Option Message → Logged
  dump_response v e req none = record { text = reader v; request = req; response = none }
  dump_response v e req (some m) =
      after_response (reader v) req
        (snapshot_response p v e.proto_major e.proto_minor e.status_line e.status m)

  abbrev pub after_request : Entry → Result View View × Message → Logged
  after_request e (ok v, m) = dump_response v e m e.response
  after_request e (err v, m) = record { text = error_text; request = m; response = e.response }

  -- `Dump`; its last line end is in `in_front`.
  pub dump : Bool → Entry → Logged
  dump with_body e = after_request e (
      snapshot_request p (skip_body (skips with_body e) new_view) e.method e.target.redacted
        e.proto_major e.proto_minor e.request_host e.request)

  -- `LogFunc`: the log call, if there is one.
  pub log_func : LogMode → Entry → Option Logged
  unfolding dump
  log_func no_log e = none
  log_func short_url e = only e (short_url_line e)
  log_func url e = only e (url_line e)
  log_func headers e = in_front (short_url_line e) (dump false e)
  log_func body e = in_front (short_url_line e) (dump true e)
  log_func errors e = if ltb e.status 500 then none else in_front (short_url_line e) (dump false e)
