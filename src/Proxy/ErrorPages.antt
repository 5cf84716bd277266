-- ===== src/Proxy/ErrorPages.antt =====
-- http_proxy_errors.go. What `errors.As` finds in an error is the first layer of a kind in its chain. `strconv.Quote`,
-- the digits of `%x` and `http.StatusText` are parameters.
pub mod Status
use forwarder.Base.{
  ℕ, zero, suc, ◌+◌, Bool, true, false, ◌||◌, ◌&&◌, not, Option, none, some, List, [], ◌∷◌, ◌++◌,
  Bytes, codes, beq, length, has_prefix, ◌==◌, if◌then◌else◌,
}
use forwarder.Http.Headers.{Headers, set_header}
use forwarder.Http.Message.{Request}

-- The kinds of layers that the handlers look for.
pub data Layer : Type 0 where
  syscall : Bytes → ℕ → Layer
  net_op : Bytes → Bool → Layer
  tls_record_header : Bytes → Layer
  tls_certificate : List (Bytes × Bytes) → Layer
  tls_ech_rejection : Layer
  tls_alert : Layer
  martian_status : ℕ → Layer
  authentication : Layer
  deny : Layer

-- An error: its text, and the layers of its chain, the outermost one first.
pub record ProxyFailure : Type 0 where
  pub text : Bytes
  pub layers : List Layer

-- What a handler returns: the code, or 0 when the error is not its own, the message and the label.
pub record Page : Type 0 where
  pub code : ℕ
  pub msg : Bytes
  pub label : Bytes

abbrev pub no_page : Page
no_page = record { code = 0; msg = []; label = [] }

-- `errors.As`, with what is made of the layer that is found.
abbrev pub find_layer : (Layer → Option Page) → List Layer → Page
find_layer f [] = no_page
find_layer f (l ∷ ls) = elim (f l) [ some p ↦ p | none ↦ find_layer f ls ]

abbrev pub skip_metrics_label : Bytes
skip_metrics_label = codes "-"

abbrev pub error_header : Bytes
error_header = codes "X-Forwarder-Error"

-- `tlsRecordHeaderLooksLikeHTTP`
pub tls_record_header_looks_like_http : Bytes → Bool
tls_record_header_looks_like_http hdr =
    has_prefix hdr (codes "HTTP")
    || has_prefix hdr (codes "GET")
    || has_prefix hdr (codes "HEAD")
    || has_prefix hdr (codes "POST")
    || has_prefix hdr (codes "PUT")
    || has_prefix hdr (codes "OPTIO")

-- `describeCertificates`, on the subjects and issuers.
pub describe_certificates : List (Bytes × Bytes) → Bytes
describe_certificates [] = []
describe_certificates ((subject, issuer) ∷ chain) =
    10
    ∷ (codes "- "
        ++ subject
        ++ codes " (issued by "
        ++ issuer
        ++ codes ")"
        ++ describe_certificates chain)

-- The parts of the response that `errorResponse` sets, and the label that is counted.
pub record Answer : Type 0 where
  pub status : ℕ
  pub header : Headers
  pub body : Bytes
  pub content_length : ℕ
  pub counted : Option Bytes

module _ (quote : Bytes → Bytes) (hex : Bytes → Bytes) (status_text : ℕ → Bytes)
    (windows : Bool) where
  abbrev pub about_host : Bytes → Request → Bytes
  about_host message req = message ++ quote req.host

  -- `handleWindowsNetError`
  abbrev pub handle_windows_net_error : Request → ProxyFailure → Page
  handle_windows_net_error req e =
      if windows
      then find_layer
          (λ l. elim l [
            | syscall call n ↦
                if (beq call (codes "wsarecv") || beq call (codes "wsasend")) && n == 10051
                then some (record {
                  code = 502;
                  msg = about_host (codes "failed to connect to remote host ") req;
                  label =
                      if beq call (codes "wsarecv") then codes "net_read" else codes "net_write";
                })
                else some no_page
            | _ ↦ none
          ])
          e.layers
      else no_page

  -- `handleNetError`
  abbrev pub handle_net_error : Request → ProxyFailure → Page
  handle_net_error req e =
      find_layer
        (λ l. elim l [
          | net_op op timeout ↦
              if timeout
              then some (record {
                code = 504;
                msg = about_host (codes "timed out connecting to remote host ") req;
                label = codes "net_" ++ op;
              })
              else some (record {
                code = 502;
                msg = about_host (codes "failed to connect to remote host ") req;
                label = codes "net_" ++ op;
              })
          | _ ↦ none
        ])
        e.layers

  -- `handleTLSRecordHeader`
  abbrev pub handle_tls_record_header : Request → ProxyFailure → Page
  handle_tls_record_header req e =
      find_layer
        (λ l. elim l [
          | tls_record_header hdr ↦ some (record {
            code = 502;
            msg =
                about_host (codes "tls handshake failed for host ") req
                ++ codes ": "
                ++ (if tls_record_header_looks_like_http hdr
                    then codes "scheme mismatch (looks like an HTTP request)"
                    else codes "record header: " ++ hex hdr);
            label = codes "tls_record_header";
          })
          | _ ↦ none
        ])
        e.layers

  -- `handleTLSCertificateError`
  abbrev pub handle_tls_certificate_error : Request → ProxyFailure → Page
  handle_tls_certificate_error req e =
      find_layer
        (λ l. elim l [
          | tls_certificate chain ↦ some (record {
            code = 502;
            msg =
                about_host (codes "tls handshake failed for host ") req
                ++ 10
                  ∷ (codes "unverified certificates:" ++ describe_certificates chain ++ 10 ∷ []);
            label = codes "tls_certificate";
          })
          | _ ↦ none
        ])
        e.layers

  -- `handleTLSECHRejectionError`
  abbrev pub handle_tls_ech_rejection_error : Request → ProxyFailure → Page
  handle_tls_ech_rejection_error req e =
      find_layer
        (λ l. elim l [
          | tls_ech_rejection ↦ some (record {
            code = 502;
            msg = about_host (codes "tls handshake failed for host ") req;
            label = codes "tls_ech_rejection";
          })
          | _ ↦ none
        ])
        e.layers

  -- `handleTLSAlertError`
  abbrev pub handle_tls_alert_error : Request → ProxyFailure → Page
  handle_tls_alert_error req e =
      find_layer
        (λ l. elim l [
          | tls_alert ↦ some (record {
            code = 502;
            msg = about_host (codes "tls alert for host ") req;
            label = codes "tls_alert";
          })
          | _ ↦ none
        ])
        e.layers

  -- `handleMartianErrorStatus`
  abbrev pub handle_martian_error_status : Request → ProxyFailure → Page
  handle_martian_error_status req e =
      find_layer
        (λ l. elim l [
          | martian_status status ↦ some (record {
            code = status;
            msg = about_host (codes "proxy error for host ") req;
            label = codes "martian_error";
          })
          | _ ↦ none
        ])
        e.layers

  -- `handleAuthenticationError`
  abbrev pub handle_authentication_error : Request → ProxyFailure → Page
  handle_authentication_error req e =
      find_layer
        (λ l. elim l [
          | authentication ↦ some (record {
            code = 407;
            msg = about_host (codes "proxying is denied to host ") req;
            label = codes "proxy_authentication";
          })
          | _ ↦ none
        ])
        e.layers

  -- `handleDenyError`
  abbrev pub handle_deny_error : Request → ProxyFailure → Page
  handle_deny_error req e =
      find_layer
        (λ l. elim l [
          | deny ↦ some (record {
            code = 403;
            msg = about_host (codes "proxying is denied to host ") req;
            label = skip_metrics_label;
          })
          | _ ↦ none
        ])
        e.layers

  -- The loop of `handleStatusText` over `n` codes from `i` on.
  unfoldable pub match_status_text : ℕ → ℕ → Bytes → Page
  match_status_text zero i text = no_page
  match_status_text (suc n) i text =
      let rest = match_status_text n (i + 1) text in
      if beq text (status_text i)
      then record { code = i; msg = text; label = codes "https_status_text" }
      else rest

  -- `handleStatusText`
  abbrev pub handle_status_text : Request → ProxyFailure → Page
  handle_status_text req e =
      if beq req.scheme (codes "https") then match_status_text 200 400 e.text else no_page

  -- The list `handlers`.
  abbrev pub handlers : List (Request → ProxyFailure → Page)
  handlers =
      handle_windows_net_error ∷ handle_net_error ∷ handle_tls_record_header
      ∷ handle_tls_certificate_error ∷ handle_tls_ech_rejection_error ∷ handle_tls_alert_error
      ∷ handle_martian_error_status ∷ handle_authentication_error ∷ handle_deny_error
      ∷ handle_status_text ∷ []

  abbrev pub unexpected_page : Page
  unexpected_page = record {
    code = 500;
    msg = codes "encountered an unexpected error";
    label = codes "unexpected_error";
  }

  -- The loop over the handlers, and the page when none has a code.
  unfoldable pub choose_page : List (Request → ProxyFailure → Page) → Request → ProxyFailure → Page
  choose_page [] req e = unexpected_page
  choose_page (h ∷ hs) req e =
      let p = h req e in let rest = choose_page hs req e in if p.code == 0 then rest else p

  abbrev pub body_of : Bytes → Page → ProxyFailure → Bytes
  body_of name p e = name ++ codes " " ++ p.msg ++ 10 ∷ (e.text ++ 10 ∷ [])

  abbrev pub challenge : Bytes → ℕ → Headers → Headers
  challenge name code h =
      if code == 407
      then set_header (codes "Proxy-Authenticate") (codes "Basic realm=" ++ quote name) h
      else h

  abbrev pub answer_of : Bytes → Page → ProxyFailure → Answer
  answer_of name p e = record {
    status = p.code;
    header =
        set_header (codes "Content-Type") (codes "text/plain; charset=utf-8")
          (set_header error_header (name ++ codes " " ++ e.text) (challenge name p.code []));
    body = body_of name p e;
    content_length = length (body_of name p e);
    counted = if beq p.label skip_metrics_label then none else some p.label;
  }

  -- `errorResponse`
  pub error_response : Bytes → Request → ProxyFailure → Answer
  error_response name req e = answer_of name (choose_page handlers req e) e
