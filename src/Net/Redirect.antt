-- ===== src/Net/Redirect.antt =====
-- net.go, DialRedirectFromHostPortPairs. `net.SplitHostPort` and `net.JoinHostPort` are parameters.
use forwarder.Base.{Bool, ◌&&◌, ◌||◌, Option, none, some, List, [], ◌∷◌, Bytes, beq, if◌then◌else◌}

-- `HostPort` of host.go
pub record HostPort : Type 0 where
  pub host : Bytes
  pub port : Bytes

-- `HostPortPair` of host.go
pub record HostPortPair : Type 0 where
  pub src : HostPort
  pub dst : HostPort

abbrev pub or_same : Bytes → Bytes → Bytes
or_same new old = if beq new [] then old else new

abbrev pub meets : HostPort → Bytes → Bytes → Bool
meets s host port = (beq s.host [] || beq s.host host) && (beq s.port [] || beq s.port port)

-- The loop over the pairs.
unfoldable pub redirected :
    (Bytes → Bytes → Bytes) → List HostPortPair → Bytes → Bytes → Bytes → Bytes
redirected join [] host port address = address
redirected join (s ∷ subs) host port address =
    if meets s.src host port
    then join (or_same s.dst.host host) (or_same s.dst.port port)
    else redirected join subs host port address

-- `DialRedirectFromHostPortPairs`: the address that is dialed; the network stays as it is.
unfoldable pub dial_redirect :
    (Bytes → Option (Bytes × Bytes)) → (Bytes → Bytes → Bytes) → List HostPortPair → Bytes → Bytes
dial_redirect split join subs address = elim (split address) [
  | none ↦ address
  | some (host, port) ↦ redirected join subs host port address
]
