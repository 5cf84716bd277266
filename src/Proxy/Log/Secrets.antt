-- ===== src/Proxy/Log/Secrets.antt =====
-- What the log keeps to itself, and its modes.
use forwarder.Base.{
  ◌≡◌, ◌≢◌, refl, sym, ap, ◌∙◌, Bool, true, false, not, ◌&&◌, ◌||◌, Option, none, some, [], ◌∷◌,
  ◌++◌, Bytes, codes, occurs, cut, ok, ◌==◌, ltb, if◌then◌else◌, arith,
}
use forwarder.Http.Headers.{get}
use forwarder.Martian.View.{
  Body, Message, View, Printing, match_content_type, seen, request_head, response_head, in_memory,
  new_view, skip_body, headers_only, with_body, skip_or_read, snapshot_body, snapshot_request,
  snapshot_response, reader,
}
use forwarder.Proxy.Log.{
  LogMode, no_log, short_url, url, headers, body, errors, mode_text, name_and_mode, split_name_mode,
  Entry, Logged, dump, dump_response, after_request, after_response, log_func, in_front,
  short_url_line,
}

cut-append :
    (name rest : Bytes)
    → occurs b':' name ≡ false
    → cut b':' (name ++ (b':' ∷ rest)) ≡ some (name, rest)
cut-append [] rest h = refl
cut-append (c ∷ name) rest h = ground (arith, cut-append name rest)

-- A name without a colon, a colon and a mode are read as that name and that mode; a mode alone as no name and that mode.
pub split_name_mode_lem :
    (name : Bytes) (m : LogMode)
    → occurs b':' name ≡ false
    → (split_name_mode (name ++ (b':' ∷ mode_text m)) ≡ some (name, m))
      × (split_name_mode (mode_text m) ≡ some ([], m))
unfolding split_name_mode mode_text
split_name_mode_lem name no_log h =
    (ap (name_and_mode (name ++ (58 ∷ codes "none"))) (cut-append name (codes "none") h), refl)
split_name_mode_lem name short_url h = (
  ap (name_and_mode (name ++ (58 ∷ codes "short-url"))) (cut-append name (codes "short-url") h),
  refl,
)
split_name_mode_lem name url h =
    (ap (name_and_mode (name ++ (58 ∷ codes "url"))) (cut-append name (codes "url") h), refl)
split_name_mode_lem name headers h = (
  ap (name_and_mode (name ++ (58 ∷ codes "headers"))) (cut-append name (codes "headers") h),
  refl,
)
split_name_mode_lem name body h =
    (ap (name_and_mode (name ++ (58 ∷ codes "body"))) (cut-append name (codes "body") h), refl)
split_name_mode_lem name errors h =
    (ap (name_and_mode (name ++ (58 ∷ codes "errors"))) (cut-append name (codes "errors") h), refl)

abbrev pub with_body_of : Option Body → Message → Message
with_body_of b m = record m { body = b }

abbrev pub with_bodies_of : Option Body → Option Message → Option Message
with_bodies_of b none = none
with_bodies_of b (some m) = some (with_body_of b m)

-- The same exchange with other bodies.
abbrev pub other_bodies : Option Body → Option Body → Entry → Entry
other_bodies b c e = record e {
  request = with_body_of b e.request;
  response = with_bodies_of c e.response;
}

module _ (p : Printing) where
  snapshot_body_skipped :
      (v : View) (head : Bytes) (m : Message) (o : Option Body)
      → v.skips_body ≡ true
      → v.cts ≡ []
      → snapshot_body p v head m o ≡ (ok (headers_only v head), m)
  unfolding match_content_type
  snapshot_body_skipped v head m none h k = refl
  snapshot_body_skipped v head m (some b) h k = rw (h, k) refl

  abbrev response_seen : View → Entry → Message → View
  response_seen v e m =
      seen v m
        (if e.status == 204 || e.status == 206 then [] else get m.header (codes "Content-Encoding"))

  -- The texts of the two heads, one after the other.
  quiet_response : View → Entry → Option Message → Bytes
  quiet_response v e none = reader v
  quiet_response v e (some m) =
      reader v
      ++ reader (
          headers_only (response_seen v e m)
            (response_head p v e.proto_major e.proto_minor e.status_line m))

  dump_response_quiet :
      (v : View) (e : Entry) (req : Message) (o : Option Message)
      → v.skips_body ≡ true
      → v.cts ≡ []
      → dump_response p v e req o
        ≡ record { text = quiet_response v e o; request = req; response = o }
  unfolding quiet_response snapshot_response
  dump_response_quiet v e req none h k = refl
  dump_response_quiet v e req (some m) h k = ap (after_response (reader v) req) (
      snapshot_body_skipped (response_seen v e m)
        (response_head p v e.proto_major e.proto_minor e.status_line m) m m.body h k)

  abbrev request_seen : Entry → View
  request_seen e =
      seen (skip_body true new_view) e.request (get e.request.header (codes "Content-Encoding"))

  abbrev head_of : Entry → Bytes
  head_of e =
      request_head p (skip_body true new_view) e.method e.target.redacted e.proto_major
        e.proto_minor e.request_host e.request

  abbrev quiet_view : Entry → View
  quiet_view e = headers_only (request_seen e) (head_of e)

  -- A dump without bodies reads neither of them: the text is that of the heads.
  dump_quiet :
      (e : Entry)
      → dump p false e ≡ record {
        text = quiet_response (quiet_view e) e e.response;
        request = e.request;
        response = e.response;
      }
  unfolding dump snapshot_request
  dump_quiet e =
      ap (after_request p e)
        (snapshot_body_skipped (request_seen e) (head_of e) e.request e.request.body refl refl)
      ∙ dump_response_quiet (quiet_view e) e e.request e.response refl refl

  quiet_response_same :
      (v : View) (e : Entry) (b c : Option Body) (o : Option Message)
      → quiet_response v (other_bodies b c e) (with_bodies_of c o) ≡ quiet_response v e o
  unfolding quiet_response
  quiet_response_same v e b c none = refl
  quiet_response_same v e b c (some m) = refl

  dump_same :
      (e : Entry) (b c : Option Body)
      → (dump p false (other_bodies b c e)).text ≡ (dump p false e).text
  dump_same e b c =
      ap (λ l. l.text) (dump_quiet (other_bodies b c e))
      ∙ quiet_response_same (quiet_view e) e b c e.response
      ∙ sym (ap (λ l. l.text) (dump_quiet e))

  -- What a log call writes, if it writes anything.
  abbrev pub text_of : Option Logged → Option Bytes
  text_of none = none
  text_of (some l) = some l.text

  abbrev pub Leaves : Entry → Option Logged → Type 0
  Leaves e none = Unit
  Leaves e (some l) = (l.request ≡ e.request) × (l.response ≡ e.response)

  dumped :
      (e : Entry) (b c : Option Body)
      → (text_of (in_front (short_url_line e) (dump p false (other_bodies b c e)))
          ≡ text_of (in_front (short_url_line e) (dump p false e)))
        × Leaves e (in_front (short_url_line e) (dump p false e))
  dumped e b c = (
    ap (λ t. some (short_url_line e ++ (t ++ 10 ∷ []))) (dump_same e b c),
    (ap (λ l. l.request) (dump_quiet e), ap (λ l. l.response) (dump_quiet e)),
  )

  -- But for the mode `body`, the log has nothing of a body: with other bodies, or none, the same text is logged; and the request and the
  -- response, their bodies included, are left as they were.
  pub log_func_quiet :
      (m : LogMode) (e : Entry) (b c : Option Body)
      → m ≢ body
      → (text_of (log_func p m (other_bodies b c e)) ≡ text_of (log_func p m e))
        × Leaves e (log_func p m e)
  unfolding log_func
  log_func_quiet no_log e b c h = (refl, tt)
  log_func_quiet short_url e b c h = (refl, (refl, refl))
  log_func_quiet url e b c h = (refl, (refl, refl))
  log_func_quiet headers e b c h = dumped e b c
  log_func_quiet errors e b c h = go (ltb e.status 500)
    where
      go :
          (low : Bool)
          → (text_of (
                if low
                then none
                else in_front (short_url_line e) (dump p false (other_bodies b c e)))
              ≡ text_of (if low then none else in_front (short_url_line e) (dump p false e)))
            × Leaves e (if low then none else in_front (short_url_line e) (dump p false e))
      go true = (refl, tt)
      go false = dumped e b c
  log_func_quiet body e b c h = absurd (h refl)

  -- The response is left with the body in memory.
  abbrev InMemory : Message → Body → Logged → Type 0
  InMemory m b l = l.response ≡ some (with_body_of (some (in_memory b.content)) m)

  with_body-InMemory :
      (text : Bytes) (req : Message) (v : View) (head : Bytes) (m : Message) (b : Body)
      (broken : Bool)
      → broken ≡ false
      → InMemory m b (after_response text req (with_body p v head m b broken))
  with_body-InMemory text req v head m b true h = cc
  with_body-InMemory text req v head m b false h = refl

  skip_or_read-InMemory :
      (text : Bytes) (req : Message) (v : View) (head : Bytes) (m : Message) (b : Body)
      (skip : Bool)
      → b.is_broken ≡ false
      → skip ≡ false
      → InMemory m b (after_response text req (skip_or_read p v head m b skip))
  skip_or_read-InMemory text req v head m b true k s = cc
  skip_or_read-InMemory text req v head m b false k s =
      with_body-InMemory text req v head m b b.is_broken k

  snapshot_body-InMemory :
      (text : Bytes) (req : Message) (v : View) (head : Bytes) (m : Message) (b : Body)
      (o : Option Body)
      → o ≡ some b
      → b.is_broken ≡ false
      → v.skips_body ≡ false
      → InMemory m b (after_response text req (snapshot_body p v head m o))
  snapshot_body-InMemory text req v head m b none h k s = cc
  snapshot_body-InMemory text req v head m b (some b') h k s =
      let e : b' ≡ b = cc in
      rw (← e) (
        skip_or_read-InMemory text req v head m b' _ (ap (λ x. x.is_broken) e ∙ k)
          (ap (λ x. x && not (match_content_type v.cts (get m.header (codes "Content-Type")))) s))

  -- Where bodies are logged, a response that is not to a successful CONNECT is left with its whole body in memory, and no longer with a connection
  -- that can be written to: a response that switches protocols as well.
  pub dump_response-InMemory :
      (e : Entry) (v : View) (m : Message) (b : Body) (req : Message)
      → m.body ≡ some b
      → b.is_broken ≡ false
      → v.skips_body ≡ false
      → InMemory m b (dump_response p v e req (some m))
  unfolding snapshot_response
  dump_response-InMemory e v m b req h k s =
      snapshot_body-InMemory (reader v) req (response_seen v e m)
        (response_head p v e.proto_major e.proto_minor e.status_line m) m b m.body h k s
