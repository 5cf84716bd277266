-- ===== src/Martian/HopByHop.antt =====
-- internal/martian/header/hopbyhop_modifier.go
pub mod Laws
use forwarder.Base.{List, [], ◌∷◌, ◌++◌, map, Bytes, codes, concat}
use forwarder.Http.Headers.{Headers, values, or_nil, del_all}
use forwarder.Http.Text.{canonical, trim_space, split_by}

abbrev pub hop_by_hop_headers : List Bytes
hop_by_hop_headers =
    codes "Connection"
    ∷ codes "Keep-Alive"
    ∷ codes "Proxy-Authenticate"
    ∷ codes "Proxy-Authorization"
    ∷ codes "Proxy-Connection"
    ∷ codes "Te"
    ∷ codes "Trailer"
    ∷ codes "Transfer-Encoding"
    ∷ codes "Upgrade"
    ∷ []

-- The names that the values of Connection list, in order.
abbrev pub named : List Bytes → List Bytes
named vs = map (λ v. canonical (trim_space v)) (concat (map (split_by b',') vs))

-- `removeHopByHopHeaders`, which `ModifyRequest` and `ModifyResponse` call.
pub remove_hop_by_hop_headers : Headers → Headers
remove_hop_by_hop_headers h =
    del_all hop_by_hop_headers (del_all (named (or_nil (values h (codes "Connection")))) h)
