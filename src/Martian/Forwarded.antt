-- ===== src/Martian/Forwarded.antt =====
-- internal/martian/header/forwarded_modifier.go; `net.SplitHostPort` is a parameter.
use forwarder.Base.{
  ◌≡◌, Option, none, some, [], ◌∷◌, ◌++◌, Bytes, codes, beq, beq_iff, if◌then◌else◌, arith,
}
use forwarder.Http.Headers.{Headers, get, set_header, values-put}
use forwarder.Http.Message.{Request}
use forwarder.Http.Text.{canonical}

-- `if v := req.Header.Get(k); v == "" { req.Header.Set(k, v) }`
unfoldable pub set_if_empty : Bytes → Bytes → Headers → Headers
set_if_empty k v h = if beq (get h k) [] then set_header k v h else h

abbrev pub client_of : (Bytes → Option (Bytes × Bytes)) → Bytes → Bytes
client_of split_host_port addr = elim (split_host_port addr) [
  | none ↦ addr
  | some (host, port) ↦ host
]

-- The chain with the client at its end.
abbrev pub chained : Bytes → Bytes → Bytes
chained v xff = if beq v [] then xff else v ++ (codes ", " ++ xff)

-- The steps behind the test of the method.
pub forwarded_headers : (Bytes → Option (Bytes × Bytes)) → Request → Headers
forwarded_headers split_host_port req =
    let h = set_if_empty (codes "X-Forwarded-Proto") req.scheme req.header in
    let h = set_if_empty (codes "X-Forwarded-Host") req.host h in
    let h = set_if_empty (codes "X-Forwarded-Url") req.url h in
    let xff = client_of split_host_port req.remote_addr in
    set_header (codes "X-Forwarded-For") (chained (get h (codes "X-Forwarded-For")) xff) h

-- The modifier of `NewForwardedModifier`.
pub modify_request : (Bytes → Option (Bytes × Bytes)) → Request → Request
modify_request split_host_port req =
    if beq req.method (codes "CONNECT")
    then req
    else record req { header = forwarded_headers split_host_port req }

abbrev pub or_default : Bytes → Bytes → Bytes
or_default v d = if beq v [] then d else v

get-set_if_empty :
    (k v : Bytes) (h : Headers) (j : Bytes)
    → get (set_if_empty k v h) j
      ≡ (if beq (canonical k) (canonical j) then or_default (get h k) v else get h j)
unfolding set_if_empty
get-set_if_empty k v h j =
    ground (
      arith,
      values-put (canonical k) (v ∷ []) h (canonical j),
      beq_iff (canonical k) (canonical j),
    )

get-set_header :
    (k v : Bytes) (h : Headers) (j : Bytes)
    → get (set_header k v h) j ≡ (if beq (canonical k) (canonical j) then v else get h j)
get-set_header k v h j = ground (arith, values-put (canonical k) (v ∷ []) h (canonical j))

-- The chain of clients has the client at its end, and the scheme, the host and the URL are those of the request
-- unless the request already named them.
pub forwarded_headers_lem :
    (split_host_port : Bytes → Option (Bytes × Bytes)) (req : Request)
    → (get (forwarded_headers split_host_port req) (codes "X-Forwarded-For")
        ≡ chained
            (get req.header (codes "X-Forwarded-For"))
            (client_of split_host_port req.remote_addr))
      × (get (forwarded_headers split_host_port req) (codes "X-Forwarded-Proto")
          ≡ or_default (get req.header (codes "X-Forwarded-Proto")) req.scheme)
      × (get (forwarded_headers split_host_port req) (codes "X-Forwarded-Host")
          ≡ or_default (get req.header (codes "X-Forwarded-Host")) req.host)
      × (get (forwarded_headers split_host_port req) (codes "X-Forwarded-Url")
          ≡ or_default (get req.header (codes "X-Forwarded-Url")) req.url)
unfolding forwarded_headers canonical
forwarded_headers_lem split_host_port req = (
  simp (get-set_header, get-set_if_empty),
  simp (get-set_header, get-set_if_empty),
  simp (get-set_header, get-set_if_empty),
  simp (get-set_header, get-set_if_empty),
)
