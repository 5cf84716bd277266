-- ===== src/Proxy/Sources.antt =====
-- readurl.go, fileurl/fileurl.go and the rest of config.go: where a configuration value is read from. The file
-- system, the transport, base64 and `url.Parse` are parameters.
pub mod Reading
use forwarder.Base.{
  ℕ, Bool, true, false, not, ◌&&◌, ◌||◌, Option, none, some, List, [], ◌∷◌, ◌++◌, Bytes, codes, beq,
  has_prefix, drop, cut, leb, ltb, length, ◌==◌, if◌then◌else◌, Result, ok, err, ◌>>=◌,
}
use forwarder.Base.Decimal.{is_digit}
use forwarder.Http.Text.{is_upper, is_lower}
use forwarder.Proxy.Config.{parse_uint16}

-- The parts of `url.URL` that are read here.
pub record SourceUrl : Type 0 where
  pub scheme : Bytes
  pub opaque : Bytes
  pub has_user : Bool
  pub host : Bytes
  pub path : Bytes
  pub raw_query : Bytes
  pub fragment : Bytes

pub data SourceError : Type 0 where
  unsupported_source : SourceError
  not_base64_uri : SourceError
  bad_base64 : SourceError
  host_in_file user_in_file query_in_file fragment_in_file no_path : SourceError
  cannot_read : SourceError
  cannot_fetch : SourceError
  unexpected_status : ℕ → SourceError
  unparsable : SourceError

-- What the operating system and the network give: a file by its path, the standard input, and a
-- response's status and body.
pub record Files : Type 0 where
  pub open_and_read : Bytes → Option Bytes
  pub stdin : Option Bytes
  pub fetch : SourceUrl → Option (ℕ × Option Bytes)
  pub decode_string : Bytes → Option Bytes

abbrev pub or_error : SourceError → Option Bytes → Result SourceError Bytes
or_error e none = err e
or_error e (some b) = ok b

-- `strings.TrimPrefix(u.Opaque, "//")`
abbrev pub without_slashes : Bytes → Bytes
without_slashes s = if has_prefix s (codes "//") then drop 2 s else s

-- The encoded part: what stands behind the first comma, which must follow `base64`.
abbrev pub encoded_part : Bytes → Option (Bytes × Bytes) → Result SourceError Bytes
encoded_part v none = ok v
encoded_part v (some (format, rest)) =
    if beq format (codes "base64") then ok rest else err not_base64_uri

abbrev pub fetched : Option (ℕ × Option Bytes) → Result SourceError Bytes
fetched none = err cannot_fetch
fetched (some (status, body)) =
    if status == 200 then or_error cannot_fetch body else err (unexpected_status status)

module _ (files : Files) where
  -- `readData`
  pub read_data : Bytes → Result SourceError Bytes
  read_data opaque =
      encoded_part (without_slashes opaque) (cut b',' (without_slashes opaque)) >>= λ v.
      or_error bad_base64 (files.decode_string v)

  -- `readFile`
  pub read_file : SourceUrl → Result SourceError Bytes
  read_file u =
      if not (beq u.host [])
      then err host_in_file
      else if u.has_user
      then err user_in_file
      else if not (beq u.raw_query [])
      then err query_in_file
      else if not (beq u.fragment [])
      then err fragment_in_file
      else if beq u.path []
      then err no_path
      else if beq u.path (codes "-")
      then or_error cannot_read files.stdin
      else or_error cannot_read (files.open_and_read u.path)

  -- `readHTTP`
  abbrev pub read_http : SourceUrl → Result SourceError Bytes
  read_http u = fetched (files.fetch u)

  -- `ReadURL`
  pub read_url : SourceUrl → Result SourceError Bytes
  unfolding read_data read_file
  read_url u =
      if beq u.scheme (codes "data")
      then read_data u.opaque
      else if beq u.scheme (codes "file")
      then read_file u
      else if beq u.scheme (codes "http") || beq u.scheme (codes "https")
      then read_http u
      else err unsupported_source

  -- `ReadFileOrBase64`
  pub read_file_or_base64 : Bytes → Result SourceError Bytes
  unfolding read_data
  read_file_or_base64 name =
      if has_prefix name (codes "data:")
      then read_data (drop 5 name)
      else or_error cannot_read (files.open_and_read name)

-- `strings.ReplaceAll(val, "\\", "/")`
abbrev pub with_slashes : Bytes → Bytes
with_slashes [] = []
with_slashes (c ∷ s) = (if c == 92 then b'/' else c) ∷ with_slashes s

abbrev pub skip_slashes : Bytes → Bytes
skip_slashes [] = []
skip_slashes (c ∷ s) = if c == b'/' then skip_slashes s else c ∷ s

-- The match of `uncEmptyAuthorityRegex`: `file:`, four slashes or more and another byte; what stands from that byte on.
abbrev pub unc_part : Bytes → Option Bytes
unc_part val =
    if has_prefix val (codes "file:////")
    then elim (skip_slashes (drop 5 val)) [ [] ↦ none | c ∷ s ↦ some (c ∷ s) ]
    else none

-- The match of `windowsVolumeRegex`: the letter, and what stands behind the volume.
abbrev pub volume : Bytes → Option (ℕ × Bytes)
volume (a ∷ b ∷ c ∷ s) =
    if (is_upper a || is_lower a) && (b == b':' || b == b'|') && c == b'/'
    then some (a, s)
    else none
volume _ = none

abbrev pub windows_volume : Bytes → Option (ℕ × Bytes)
windows_volume [] = none
windows_volume (c ∷ s) = if c == b'/' then volume s else volume (c ∷ s)

abbrev pub windows_path : Bytes → Bytes
windows_path path = elim (windows_volume path) [ none ↦ path | some (a, s) ↦ a ∷ b':' ∷ b'/' ∷ s ]

abbrev pub swapped : SourceUrl → SourceUrl
swapped u =
    if beq u.path [] && not (beq u.opaque []) then record u { path = u.opaque; opaque = [] } else u

abbrev pub file_url : SourceUrl → SourceUrl
file_url u = let s = swapped u in record s { path = windows_path s.path }

-- The part of `ParseFilePathOrURL` behind `url.Parse`.
abbrev pub of_file_scheme : SourceUrl → SourceUrl
of_file_scheme u =
    let named = if beq u.scheme [] then record u { scheme = codes "file" } else u in
    if beq named.scheme (codes "file") then file_url named else named

-- What is given to `url.Parse`.
abbrev pub unc_fixed : Bytes → Bytes
unc_fixed val = elim (unc_part val) [ none ↦ val | some s ↦ codes "file://" ++ s ]

abbrev pub to_parse : Bytes → Bytes
to_parse val =
    let slashed = with_slashes val in
    unc_fixed (if has_prefix slashed (codes "//") then codes "file:" ++ slashed else slashed)

abbrev pub standard_input : SourceUrl
standard_input = record {
  scheme = codes "file";
  opaque = [];
  has_user = false;
  host = [];
  path = codes "-";
  raw_query = [];
  fragment = [];
}

-- `ParseFilePathOrURL`
pub parse_file_path_or_url : (Bytes → Option SourceUrl) → Bytes → Option SourceUrl
parse_file_path_or_url url_parse val =
    if beq val (codes "-")
    then some standard_input
    else elim (url_parse (to_parse val)) [ none ↦ none | some u ↦ some (of_file_scheme u) ]

pub data AddressError : Type 0 where
  not_an_ip : AddressError
  not_a_port : AddressError
  zero_port : AddressError

abbrev pub dns_port : Bytes → Option ℕ
dns_port port = if beq port [] then some 53 else parse_uint16 port

abbrev pub nonzero : ℕ → Result AddressError ℕ
nonzero n = if n == 0 then err zero_port else ok n

-- `ParseDNSAddress`, with `net.SplitHostPort`, whose error is ignored, and `netip.ParseAddr`; an address that parses is valid.
pub parse_dns_address :
    {Addr : Type 0}
    → (Bytes → Bytes × Bytes)
    → (Bytes → Option Addr)
    → Bytes
    → Result AddressError (Addr × ℕ)
parse_dns_address split parse_addr val =
    let (host, port) = split val in
    elim (parse_addr (if beq host [] then val else host)) [
      | none ↦ err not_an_ip
      | some a ↦ elim (dns_port port) [
        | none ↦ err not_a_port
        | some n ↦ nonzero n >>= λ p. ok (a, p)
      ]
    ]

-- The bytes of a name of a metric, in front and behind.
abbrev pub is_name_start : ℕ → Bool
is_name_start c = is_upper c || is_lower c || c == b'_' || c == b':'

abbrev pub all_name : Bytes → Bool
all_name [] = true
all_name (c ∷ s) = (is_name_start c || is_digit c) && all_name s

-- `ParsePrometheusNamespace`
pub parse_prometheus_namespace : Bytes → Option Bytes
parse_prometheus_namespace [] = some []
parse_prometheus_namespace (c ∷ s) = if is_name_start c && all_name s then some (c ∷ s) else none

-- `OpenFileParser`: whether a directory has to be made first, and the file; no path is no file.
pub open_file :
    {File : Type 0}
    → (Bytes → Bool)
    → (Bytes → Option File)
    → ℕ
    → Bytes
    → Result SourceError (Option File)
open_file make_dirs open_at dir_perm val =
    if beq val []
    then ok none
    else if not (dir_perm == 0) && not (make_dirs val)
    then err cannot_read
    else elim (open_at val) [ none ↦ err cannot_read | some f ↦ ok (some f) ]
