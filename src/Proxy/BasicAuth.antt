-- ===== src/Proxy/BasicAuth.antt =====
-- middleware/basic_auth.go; `base64.StdEncoding.DecodeString` is a parameter.
pub mod Access
use forwarder.Base.{
  ℕ, Bool, true, false, ◌&&◌, Option, none, some, List, [], ◌∷◌, Bytes, codes, beq, cut, take, drop,
  map, length, ltb, if◌then◌else◌,
}
use forwarder.Http.Headers.{Headers, get, set_header, del}
use forwarder.Http.Text.{lower}

abbrev pub authorization_header : Bytes
authorization_header = codes "Authorization"

abbrev pub proxy_authorization_header : Bytes
proxy_authorization_header = codes "Proxy-Authorization"

-- `BasicAuth` is the name of its header; the two constructors.
abbrev pub new_basic_auth : Bytes
new_basic_auth = authorization_header

abbrev pub new_proxy_basic_auth : Bytes
new_proxy_basic_auth = proxy_authorization_header

-- `strings.EqualFold` on ASCII.
abbrev pub equal_fold : Bytes → Bytes → Bool
equal_fold a b = beq (map lower a) (map lower b)

module _ (decode_string : Bytes → Option Bytes) where
  -- `parseBasicAuth`
  unfoldable pub parse_basic_auth : Bytes → Option (Bytes × Bytes)
  parse_basic_auth auth =
      if ltb (length auth) 6
      then none
      else if equal_fold (take 6 auth) (codes "Basic ")
      then elim (decode_string (drop 6 auth)) [ none ↦ none | some c ↦ cut b':' c ]
      else none

  -- The method `BasicAuth`.
  unfoldable pub basic_auth : Bytes → Headers → Option (Bytes × Bytes)
  basic_auth header h =
      let auth = get h header in if beq auth [] then none else parse_basic_auth auth

  -- `AuthenticatedRequest`
  unfoldable pub authenticated_request : Bytes → Headers → Bytes → Bytes → Bool
  authenticated_request header h expected_user expected_pass = elim (basic_auth header h) [
    | none ↦ false
    | some (user, pass) ↦ beq user expected_user && beq pass expected_pass
  ]

-- What the handler of `Wrap` does: an answer of its own, or the wrapped handler's on these headers.
pub data Wrapped : Type 0 where
  answered : ℕ → Headers → Wrapped
  passed_on : Headers → Wrapped

abbrev pub realm : Bytes
realm = codes "Basic realm=\"Sauce Labs Forwarder\""

abbrev pub refusal : Bytes → Wrapped
refusal header =
    if beq header proxy_authorization_header
    then answered 407 (
        set_header (codes "Proxy-Connection") (codes "close")
          (set_header (codes "Proxy-Authenticate") realm []))
    else answered 401 (
        set_header (codes "Connection") (codes "close")
          (set_header (codes "WWW-Authenticate") realm []))

-- `Wrap`
pub wrap : (Bytes → Option Bytes) → Bytes → Bytes → Bytes → Headers → Wrapped
wrap decode_string header expected_user expected_pass h =
    if authenticated_request decode_string header h expected_user expected_pass
    then passed_on (del header h)
    else refusal header
