-- ===== src/Tests/Services.antt =====
-- Certificates, logging, the construction of a proxy and its run, at concrete values.
use forwarder.Base.{
  ℕ, ◌≡◌, ◌≢◌, true, false, Option, none, some, [], ◌∷◌, Bytes, codes, beq, if◌then◌else◌,
}
use forwarder.Base.Int.{pos}
use forwarder.Martian.Mitm.{TlsCertificate, Crypto, Config}
use forwarder.Martian.View.Snapshot.{Shown, HeadShown, head_shown, snapshot_response-Shown}
use forwarder.Martian.View.{Message, Printing, new_view, snapshot_response}
use forwarder.Net.Listen.{ListenerConfig}
use forwarder.Proxy.Config.{Names}
use forwarder.Proxy.Life.Run.{
  RunState, started, done, does, stopped, served, net_closed, close_listeners, shut_down,
  close_connections, closed_listeners, shutdown_failed, shut_down_or_closed,
}
use forwarder.Proxy.Life.{ProxyConfig, Surroundings}
use forwarder.Proxy.Log.Secrets.{other_bodies, text_of, Leaves, log_func_quiet}
use forwarder.Proxy.Log.{headers, body, Entry, log_func}

-- A cache with one place, and certificates that are their names.
abbrev Kept : Type 0
Kept = Option (Bytes × TlsCertificate Bytes ℕ)

abbrev find_kept : Kept → Bytes → Option (TlsCertificate Bytes ℕ)
find_kept none host = none
find_kept (some (k, c)) host = if beq host k then some c else none

abbrev toy_crypto : Crypto
toy_crypto = record {
  Leaf = Bytes;
  Key = ℕ;
  Signer = ℕ;
  Ip = Bytes;
  Store = Kept;
  create = λ t parent k s. some t.common_name;
  parse = λ b. some b;
  raw = λ l. l;
  verify = λ now roots host l. beq host l;
  signer_of = λ k. k;
  key_id = λ k. some [];
  parse_ip = λ host. none;
  split_host_port = λ host. none;
  look_up = λ now s host. (find_kept s host, s);
  add = λ now s host c. some (host, c);
}

abbrev toy_config : Config toy_crypto
toy_config = record {
  ca = codes "ca";
  capriv = 1;
  priv = 2;
  key_identifier = [];
  validity = 10;
  org = [];
  allowed_hosts = none;
  roots = codes "ca" ∷ [];
}

abbrev made : TlsCertificate Bytes ℕ
made = record {
  chain = codes "a.example" ∷ codes "ca" ∷ [];
  private_key = 2;
  leaf = codes "a.example";
}

abbrev with_made : Kept
with_made = some (codes "a.example", made)

abbrev plain_printing : Printing
plain_printing = record { write_subset = λ h names. []; chunks = λ d. d }

abbrev hello : Message
hello = record {
  transfer_encoding = [];
  content_length = pos 5;
  header = [];
  body = some (record { content = codes "hello"; is_broken = false; is_writable = false });
  trailer = none;
}

snapshot_response-Shown_example :
    Shown plain_printing false new_view hello hello.body
      (snapshot_response plain_printing new_view 1 1 (codes "200 OK") 200 hello)
    × HeadShown
        (head_shown plain_printing false 1 1 (codes "200 OK") hello)
        (snapshot_response plain_printing new_view 1 1 (codes "200 OK") 200 hello)
snapshot_response-Shown_example =
    snapshot_response-Shown plain_printing new_view 1 1 (codes "200 OK") 200 hello

abbrev exchange : Entry
exchange = record {
  trace = [];
  method = codes "GET";
  target = record { scheme = codes "http"; host = codes "a.example"; path = []; redacted = [] };
  status = 200;
  duration = codes "1ms";
  proto_major = 1;
  proto_minor = 1;
  request_host = codes "a.example";
  request = record hello { body = none };
  status_line = codes "200 OK";
  response = some hello;
}

headers-ne-body : headers ≢ body
headers-ne-body h = cc

log_func_quiet_example :
    (text_of plain_printing (log_func plain_printing headers (other_bodies none none exchange))
      ≡ text_of plain_printing (log_func plain_printing headers exchange))
    × Leaves plain_printing exchange (log_func plain_printing headers exchange)
log_func_quiet_example = log_func_quiet plain_printing headers exchange none none headers-ne-body

abbrev every_name : Names
every_name = record {
  is_domain_name = λ s. true;
  is_ip = λ s. false;
  url_parse = λ s. none;
  same_url = λ a b. some true;
}

-- The second listener cannot be opened.
abbrev surroundings : Surroundings Bytes
surroundings = record {
  names = every_name;
  tcp = λ c. if beq c.name (codes "second") then some (codes "in use") else none;
  mitm_loads = true;
  certificate_loads = true;
  aliases = some (codes "Box" ∷ []);
}

abbrev listener_named : Bytes → ListenerConfig
listener_named name = record {
  name = name;
  address = codes ":3128";
  proxy_protocol = none;
  read_limit = pos 0;
  write_limit = pos 0;
  track_traffic = false;
  tls = false;
}

abbrev two_listeners : ProxyConfig
two_listeners = record {
  basic_auth = none;
  listener = listener_named [];
  extra_listeners = listener_named (codes "second") ∷ [];
  protocol = codes "http";
  localhost_mode = codes "deny";
  upstream_proxy = none;
  mitm = false;
  mitm_domains = none;
  idle_timeout = pos 0;
  read_timeout = pos 0;
  read_header_timeout = pos 0;
  write_timeout = pos 0;
}

-- One listener: its server ends after the listener was closed, and the proxy does not shut down in time.
abbrev ended : RunState Bytes
ended = stopped true (
    does (close_connections ∷ []) shut_down_or_closed (
      does (shut_down ∷ []) shutdown_failed (
        served (some net_closed)
          (does (close_listeners ∷ []) closed_listeners (done (started 1))))))
