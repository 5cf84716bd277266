-- ===== src/Http/Message.antt =====
-- The parts of `http.Request` and `url.URL` that the proxy uses; `tls` is whether TLS is set.
use forwarder.Base.{ℕ, Bool, Bytes}
use forwarder.Base.Int.{ℤ}
use forwarder.Http.Headers.{Headers}

pub record Request : Type 0 where
  pub method : Bytes
  pub proto_major : ℕ
  pub proto_minor : ℕ
  pub header : Headers
  pub host : Bytes
  pub remote_addr : Bytes
  pub scheme : Bytes
  pub hostname : Bytes
  pub url : Bytes
  pub url_host : Bytes
  pub content_length : ℤ
  pub tls : Bool
  pub close : Bool

-- The parts of `http.Response` that the proxy uses. The body is its bytes; a response that switches
-- protocols may have a connection for a body, which is `writable`.
pub record Response : Type 0 where
  pub status : Bytes
  pub status_code : ℕ
  pub proto_major : ℕ
  pub proto_minor : ℕ
  pub header : Headers
  pub trailer : Headers
  pub body : Bytes
  pub writable : Bool
  pub content_length : ℤ
  pub close : Bool
  pub request : Request
