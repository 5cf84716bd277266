-- ===== src/Martian/Mitm.antt =====
-- internal/martian/mitm/mitm.go: the certificates that a proxy that terminates TLS hands to its clients, and
-- their cache. What the packages crypto/x509, crypto/rand, net and freelru do are parameters.
pub mod Issued
use forwarder.Base.{
  ℕ, ◌≡◌, ◌⊎◌, Bool, true, false, not, ◌&&◌, Option, none, some, List, [], ◌∷◌, Bytes, codes,
  Result, ok, err, beq, if◌then◌else◌,
}
use forwarder.Base.Int.{ℤ, pos, ◌-ℤ◌, ◌+ℤ◌}

-- The fields of an `x509.Certificate` that the package sets; `Ip` is `net.IP`.
pub record Template (Ip : Type 0) : Type 0 where
  pub serial_number : ℕ
  pub common_name : Bytes
  pub organization : List Bytes
  pub subject_key_id : Bytes
  pub signs_certificates : Bool
  pub not_before : ℤ
  pub not_after : ℤ
  pub ip_addresses : List Ip
  pub dns_names : List Bytes
  pub is_ca : Bool

-- `tls.Certificate`: the chain, the leaf's bytes first, the key and the parsed leaf.
pub record TlsCertificate (Leaf Key : Type 0) : Type 0 where
  pub chain : List Bytes
  pub private_key : Key
  pub leaf : Leaf

-- What the package calls. `create` is `x509.CreateCertificate` with a parent, its key's owner and a
-- signer; `verify` is `Leaf.Verify` at a time, for a name, against the roots. `look_up` and `add` are `Get` and `Add` of
-- the cache at a time, each with the cache afterwards: a look-up may reorder it or drop what is too old.
pub record Crypto : Type 1 where
  pub Leaf : Type 0
  pub Key : Type 0
  pub Signer : Type 0
  pub Ip : Type 0
  pub Store : Type 0
  pub create : Template Ip → Option Leaf → Key → Signer → Option Bytes
  pub parse : Bytes → Option Leaf
  pub raw : Leaf → Bytes
  pub verify : ℕ → List Leaf → Bytes → Leaf → Bool
  pub signer_of : Key → Signer
  pub key_id : Key → Option Bytes
  pub parse_ip : Bytes → Option Ip
  pub split_host_port : Bytes → Option (Bytes × Bytes)
  pub look_up : ℕ → Store → Bytes → Option (TlsCertificate Leaf Key) × Store
  pub add : ℕ → Store → Bytes → TlsCertificate Leaf Key → Store

pub data MitmError : Type 0 where
  no_key : MitmError
  no_key_id : MitmError
  no_serial : MitmError
  not_created : MitmError
  not_parsed : MitmError
  no_server_name : MitmError

module _ (x : Crypto) where
  open x use {
    Leaf, Key, Signer, Ip, Store, create, parse, raw, verify, signer_of, key_id, parse_ip,
    split_host_port, look_up, add,
  }

  abbrev pub Certificate : Type 0
  Certificate = TlsCertificate Leaf Key

  -- `Config`; `allowed_hosts` is the filter of an HTTP/2 configuration, if there is one.
  pub record Config : Type 0 where
    pub ca : Leaf
    pub capriv : Signer
    pub priv : Key
    pub key_identifier : Bytes
    pub validity : ℕ
    pub org : Bytes
    pub allowed_hosts : Option (Bytes → Bool)
    pub roots : List Leaf

  -- `NewAuthority`; the key and the serial number are what the source of randomness gave.
  pub new_authority : Bytes → Bytes → ℕ → ℕ → Option Key → Option ℕ → Result MitmError (Leaf × Key)
  new_authority name organization validity now none serial = err no_key
  new_authority name organization validity now (some priv) serial = elim (key_id priv) [
    | none ↦ err no_key_id
    | some id ↦ elim serial [
      | none ↦ err no_serial
      | some n ↦
          elim (create
            (record {
              serial_number = n;
              common_name = name;
              organization = organization ∷ [];
              subject_key_id = id;
              signs_certificates = true;
              not_before = pos now -ℤ pos validity;
              not_after = pos now +ℤ pos validity;
              ip_addresses = [];
              dns_names = name ∷ [];
              is_ca = true;
            })
            none priv (signer_of priv)) [
              | none ↦ err not_created
              | some bytes ↦ elim (parse bytes) [
                | none ↦ err not_parsed
                | some leaf ↦ ok (leaf, priv)
              ]
            ]
    ]
  ]

  -- `NewConfigWithCache`; the validity is counted in nanoseconds.
  pub new_config_with_cache : Leaf → Signer → Option Key → Result MitmError Config
  new_config_with_cache ca private_key none = err no_key
  new_config_with_cache ca private_key (some priv) = elim (key_id priv) [
    | none ↦ err no_key_id
    | some id ↦ ok (record {
      ca = ca;
      capriv = private_key;
      priv = priv;
      key_identifier = id;
      validity = 3600000000000;
      org = codes "Martian Proxy";
      allowed_hosts = none;
      roots = ca ∷ [];
    })
  ]

  -- `SetValidity`, `SetOrganization` and `SetH2Config`
  abbrev pub set_validity : ℕ → Config → Config
  set_validity v c = record c { validity = v }

  abbrev pub set_organization : Bytes → Config → Config
  set_organization org c = record c { org = org }

  abbrev pub set_h2_config : Option (Bytes → Bool) → Config → Config
  set_h2_config filter c = record c { allowed_hosts = filter }

  -- The host of `cert`: the name without a port.
  pub bare_host : Bytes → Bytes
  bare_host hostname = elim (split_host_port hostname) [ none ↦ hostname | some (host, _) ↦ host ]

  -- The template of `cert`: an address or a name, never both.
  abbrev pub template : Config → ℕ → ℕ → Bytes → Option Ip → Template Ip
  template c now n host ip = record {
    serial_number = n;
    common_name = host;
    organization = c.org ∷ [];
    subject_key_id = c.key_identifier;
    signs_certificates = false;
    not_before = pos now -ℤ pos c.validity;
    not_after = pos now +ℤ pos c.validity;
    ip_addresses = elim ip [ none ↦ [] | some a ↦ a ∷ [] ];
    dns_names = elim ip [ none ↦ host ∷ [] | some _ ↦ [] ];
    is_ca = false;
  }

  abbrev pub keep_certificate :
      Config → ℕ → Bytes → Store → Bytes → Option Leaf → Result MitmError (Certificate × Store)
  keep_certificate c now host s bytes none = err not_parsed
  keep_certificate c now host s bytes (some leaf) =
      let made : Certificate = record {
        chain = bytes ∷ raw c.ca ∷ [];
        private_key = c.priv;
        leaf = leaf;
      } in
      ok (made, add now s host made)

  abbrev pub read_certificate :
      Config → ℕ → Bytes → Store → Option Bytes → Result MitmError (Certificate × Store)
  read_certificate c now host s none = err not_created
  read_certificate c now host s (some bytes) = keep_certificate c now host s bytes (parse bytes)

  -- The part of `cert` behind the look-up.
  pub issue : Config → ℕ → Option ℕ → Bytes → Store → Result MitmError (Certificate × Store)
  issue c now none host s = err no_serial
  issue c now (some n) host s =
      read_certificate c now host s
        (create (template c now n host (parse_ip host)) (some c.ca) c.priv c.capriv)

  -- `cert` for a host, by what the cache has for it; the clock is read once.
  pub serve :
      Config
      → ℕ
      → Option ℕ
      → Bytes
      → Store
      → Option Certificate
      → Result MitmError (Certificate × Store)
  unfolding issue
  serve c now serial host s none = issue c now serial host s
  serve c now serial host s (some kept) =
      if verify now c.roots host kept.leaf then ok (kept, s) else issue c now serial host s

  -- `cert`
  unfoldable pub cert :
      Config → ℕ → Option ℕ → Bytes → Store → Result MitmError (Certificate × Store)
  unfolding serve bare_host
  cert c now serial hostname s =
      let (found, looked) = look_up now s (bare_host hostname) in
      serve c now serial (bare_host hostname) looked found

  -- `GetCertificate` of `TLS`, on the server name of the client's hello.
  pub tls_certificate :
      Config → ℕ → Option ℕ → Bytes → Store → Result MitmError (Certificate × Store)
  tls_certificate c now serial server_name s =
      if beq server_name [] then err no_server_name else cert c now serial server_name s

  -- `GetCertificate` of `TLSForHost`
  pub certificate_for_host :
      Config → ℕ → Option ℕ → Bytes → Bytes → Store → Result MitmError (Certificate × Store)
  certificate_for_host c now serial hostname server_name s =
      cert c now serial (if beq server_name [] then hostname else server_name) s

  -- `h2AllowedHost`
  pub h2_allowed_host : Config → Bytes → Bool
  h2_allowed_host c host = elim c.allowed_hosts [ none ↦ false | some filter ↦ filter host ]

  -- `NextProtos` of `TLSForHost`
  pub next_protos : Config → Bytes → List Bytes
  unfolding h2_allowed_host
  next_protos c host =
      if h2_allowed_host c host then codes "h2" ∷ codes "http/1.1" ∷ [] else codes "http/1.1" ∷ []
