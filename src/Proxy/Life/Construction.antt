-- ===== src/Proxy/Life/Construction.antt =====
-- A proxy that was built, and one that was not.
use forwarder.Base.{
  ◌≡◌, refl, Bool, true, false, ◌&&◌, Option, none, some, List, [], Bytes, Result, ok, err,
  if◌then◌else◌,
}
use forwarder.Http.Message.{Request}
use forwarder.Martian.Proxy.{should_mitm}
use forwarder.Net.Listen.Cleanup.{opens, closes, CleanedUp}
use forwarder.Net.Listen.{ListenEvent}
use forwarder.Proxy.Life.{
  ProxyConfig, LifeError, localhost_mode_text, unmarshal_text, Surroundings, Built, Parts,
  new_checked, domain_filter, configure_proxy,
}
use forwarder.Proxy.Route.{
  ProxyLocalhostMode, deny_proxy_localhost, allow_proxy_localhost, direct_proxy_localhost,
}

-- Every mode is read from its text, and nothing else is.
pub unmarshal_text_lem : (m : ProxyLocalhostMode) → unmarshal_text (localhost_mode_text m) ≡ some m
unfolding unmarshal_text localhost_mode_text
unmarshal_text_lem deny_proxy_localhost = refl
unmarshal_text_lem allow_proxy_localhost = refl
unmarshal_text_lem direct_proxy_localhost = refl

module _ {E : Type 0} (out : Surroundings E) where
  -- What a construction leaves behind.
  abbrev pub Sound : ProxyConfig → Bool → Result LifeError Built × List ListenEvent → Type 0
  Sound c has_pac (err e, es) = closes es ≡ opens es
  Sound c has_pac (ok b, es) =
      (new_checked out c has_pac ≡ none) × (b.listeners ≡ opens es) × (closes es ≡ [])

  abbrev Listened : Result (Option E) (List Bytes) × List ListenEvent → Type 0
  Listened r = CleanedUp out.tcp [] r

-- The inner proxy terminates the TLS of a CONNECT request exactly when MITM is configured, and the host is one of the
-- domains for it where these are configured.
pub should_mitm-configure_proxy :
    (parts : Parts) (c : ProxyConfig) (req : Request)
    → should_mitm (configure_proxy parts c) req
      ≡ (c.mitm && elim c.mitm_domains [ none ↦ true | some domains ↦ domains req.hostname ])
unfolding configure_proxy
should_mitm-configure_proxy parts c req = filtered c.mitm c.mitm_domains
  where
    filtered :
        (m : Bool) (d : Option (Bytes → Bool))
        → (if m then elim (domain_filter m d) [ none ↦ true | some f ↦ f req ] else false)
          ≡ (m && elim d [ none ↦ true | some domains ↦ domains req.hostname ])
    filtered false d = refl
    filtered true none = refl
    filtered true (some f) = refl
