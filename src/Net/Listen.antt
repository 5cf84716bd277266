-- ===== src/Net/Listen.antt =====
-- net.go, Listener and MultiListener. What net.ListenConfig and the listeners below return is a parameter; the counters of metrics.go
-- are listed as calls.
pub mod Cleanup
use forwarder.Base.{
  ℕ, zero, suc, Bool, true, false, ◌||◌, Option, none, some, List, [], ◌∷◌, ◌++◌, Bytes, Result, ok,
  err, if◌then◌else◌,
}
use forwarder.Base.Int.{ℤ, pos, negsuc}
use forwarder.Net.Conntrack.{Wrapper, build}

-- `ListenerConfig`
pub record ListenerConfig : Type 0 where
  pub name : Bytes
  pub address : Bytes
  pub proxy_protocol : Option ℤ
  pub read_limit : ℤ
  pub write_limit : ℤ
  pub track_traffic : Bool
  pub tls : Bool

-- The listeners around the one for TCP, the innermost one first.
pub data Layer : Type 0 where
  proxy_protocol_layer : ℤ → Layer
  rate_limit_layer : ℤ → ℤ → Layer

abbrev is_positive : ℤ → Bool
is_positive (pos zero) = false
is_positive (pos (suc n)) = true
is_positive (negsuc n) = false

abbrev proxy_layers : Option ℤ → List Layer
proxy_layers none = []
proxy_layers (some timeout) = proxy_protocol_layer timeout ∷ []

-- `Listen` of a Listener that does not listen yet, and of one that does.
unfoldable pub listen :
    {E : Type 0} → Bool → Option E → ListenerConfig → Result (Option E) (List Layer)
listen true e c = err none
listen false (some e) c = err (some e)
listen false none c = ok (
    proxy_layers c.proxy_protocol
    ++ (if is_positive c.read_limit || is_positive c.write_limit
        then rate_limit_layer c.read_limit c.write_limit ∷ []
        else []))

-- What `Accept` puts around a connection, from the inside; TLS comes last.
pub data Around : Type 0 where
  tracked : List Wrapper → Around
  tls_server : Around

unfoldable pub accept : {E : Type 0} → Option E → ListenerConfig → Result E (List Around)
accept (some e) c = err e
accept none c = ok (tracked (build c.track_traffic true) ∷ (if c.tls then tls_server ∷ [] else []))

-- A listener that was opened or closed by `MultiListener.Listen`, by its name.
pub data ListenEvent : Type 0 where
  opened hung_up : Bytes → ListenEvent

abbrev pub hang_all : List Bytes → List ListenEvent
hang_all [] = []
hang_all (n ∷ ns) = hung_up n ∷ hang_all ns

abbrev pub then_events :
    {E : Type 0}
    → List ListenEvent
    → Result E (List Bytes) × List ListenEvent
    → Result E (List Bytes) × List ListenEvent
then_events es (r, fs) = (r, es ++ fs)

module _ {E : Type 0} (tcp : ListenerConfig → Option E) where
  -- The loop of `MultiListener.Listen`, with the listeners so far, and the deferred closing of them.
  unfoldable pub listen_loop :
      List ListenerConfig → List Bytes → Result (Option E) (List Bytes) × List ListenEvent
  listen_loop [] listeners = (ok listeners, [])
  listen_loop (c ∷ cs) listeners = elim (listen false (tcp c) c) [
    | err e ↦ (err e, hang_all listeners)
    | ok layers ↦ then_events (opened c.name ∷ []) (listen_loop cs (listeners ++ (c.name ∷ [])))
  ]

  -- `MultiListener.Listen`
  unfoldable pub listen_all :
      List ListenerConfig → Result (Option E) (List Bytes) × List ListenEvent
  listen_all cs = listen_loop cs []
