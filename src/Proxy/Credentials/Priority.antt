-- ===== src/Proxy/Credentials/Priority.antt =====
-- Which credentials a request gets.
use forwarder.Base.{
  ◌≡◌, refl, sym, ap, ◌∙◌, Bool, false, ◌&&◌, Option, none, some, List, [], ◌∷◌, Bytes, codes, beq,
  beq_iff, lookup, lookup-insert, ok, ◌>>=◌, bind-eq-ok, ok_injective, err-ne-ok, if◌then◌else◌,
  arith,
}
use forwarder.Proxy.Credentials.{
  HostPortUser, CredentialsMatcher, no_credentials, add_entry, add_entries, match_hostport,
}

-- The ways in which an entry covers a host and a port, the strongest one first.
data Cover : Type 0 where
  exact : Cover
  any_host : Cover
  any_port : Cover
  everything : Cover

module _ {User : Type 0} where
  abbrev covers : Cover → HostPortUser User → Bytes → Bytes → Bool
  covers exact c h p = beq c.host h && beq c.port p
  covers any_host c h p = beq c.host (codes "*") && beq c.port p
  covers any_port c h p = beq c.host h && beq c.port (codes "0")
  covers everything c h p = beq c.host (codes "*") && beq c.port (codes "0")

  abbrev or_else : Option User → Option User → Option User
  or_else (some u) v = some u
  or_else none v = v

  or_else_assoc : (u v w : Option User) → or_else (or_else u v) w ≡ or_else u (or_else v w)
  or_else_assoc none v w = refl
  or_else_assoc (some u) v w = refl

  or_else-none : (u : Option User) → or_else u none ≡ u
  or_else-none none = refl
  or_else-none (some u) = refl

  -- The user of the first entry of a kind.
  abbrev first_cover : Cover → List (HostPortUser User) → Bytes → Bytes → Option User
  first_cover k [] h p = none
  first_cover k (c ∷ cs) h p =
      or_else (if covers k c h p then some c.user else none) (first_cover k cs h p)

  -- The strongest kind that there is.
  pub best : List (HostPortUser User) → Bytes → Bytes → Option User
  best cs h p = or_else (first_cover exact cs h p) (
      or_else (first_cover any_host cs h p)
        (or_else (first_cover any_port cs h p) (first_cover everything cs h p)))

  module _ (join_host_port : Bytes → Bytes → Bytes)
      (split_host_port : Bytes → Option (Bytes × Bytes))
      (validate : HostPortUser User → Option Bytes) (h p : Bytes)
      (h-plain : beq h (codes "*") ≡ false) (p-plain : beq p (codes "0") ≡ false)
      (splits : split_host_port (join_host_port h p) ≡ some (h, p)) where
    abbrev slot : Cover → CredentialsMatcher User → Option User
    slot exact m = lookup m.hostport (join_host_port h p)
    slot any_host m = lookup m.port p
    slot any_port m = lookup m.host h
    slot everything m = m.global

    join-beq :
        (c : HostPortUser User)
        → split_host_port (join_host_port c.host c.port) ≡ some (c.host, c.port)
        → beq (join_host_port c.host c.port) (join_host_port h p) ≡ covers exact c h p
    join-beq c e = ground (
      arith,
      beq_iff (join_host_port c.host c.port) (join_host_port h p),
      beq_iff c.host h,
      beq_iff c.port p,
    )

    add_entry-slot :
        (k : Cover) (c : HostPortUser User) (m m' : CredentialsMatcher User)
        → split_host_port (join_host_port c.host c.port) ≡ some (c.host, c.port)
        → add_entry join_host_port validate c m ≡ ok m'
        → slot k m' ≡ or_else (slot k m) (if covers k c h p then some c.user else none)
    add_entry-slot exact c m m' e w = ground (
      arith,
      lookup-insert (join_host_port c.host c.port) c.user m.hostport (join_host_port h p),
      join-beq c e,
      beq_iff c.host h,
      beq_iff c.port p,
      beq_iff c.host (codes "*"),
      beq_iff c.port (codes "0"),
    )
    add_entry-slot any_host c m m' e w =
        ground (
          arith,
          lookup-insert c.port c.user m.port p,
          beq_iff c.port p,
          beq_iff c.port (codes "0"),
        )
    add_entry-slot any_port c m m' e w =
        ground (
          arith,
          lookup-insert c.host c.user m.host h,
          beq_iff c.host h,
          beq_iff c.host (codes "*"),
        )
    add_entry-slot everything c m m' e w = ground arith

    add_entries-cons :
        (c : HostPortUser User) (cs : List (HostPortUser User)) (m m' : CredentialsMatcher User)
        → add_entries join_host_port validate (c ∷ cs) m ≡ ok m'
        → (validate c ≡ none)
          × ((add_entry join_host_port validate c m >>= add_entries join_host_port validate cs)
              ≡ ok m')
    unfolding add_entries
    add_entries-cons c cs m m' w = go (validate c) refl
      where
        go :
            (v : Option Bytes)
            → validate c ≡ v
            → (validate c ≡ none)
              × ((add_entry join_host_port validate c m >>= add_entries join_host_port validate cs)
                  ≡ ok m')
        go none e = (e, rw (e, add_entries) at w)
        go (some t) e = absurd (err-ne-ok (rw (e, add_entries) at w))

    add_entries-slot :
        (valid : (c : HostPortUser User)
          → validate c ≡ none
          → split_host_port (join_host_port c.host c.port) ≡ some (c.host, c.port))
        (k : Cover) (cs : List (HostPortUser User)) (m m' : CredentialsMatcher User)
        → add_entries join_host_port validate cs m ≡ ok m'
        → slot k m' ≡ or_else (slot k m) (first_cover k cs h p)
    unfolding add_entries
    add_entries-slot valid k [] m m' w =
        ap (slot k) (ok_injective w refl) ∙ sym (or_else-none (slot k m))
    add_entries-slot valid k (c ∷ cs) m m' w =
        let (checked, later) = add_entries-cons c cs m m' w in
        let (m₁, rest, first) = bind-eq-ok (add_entry join_host_port validate c m) later in
        add_entries-slot valid k cs m₁ m' rest
        ∙ ap (λ u. or_else u (first_cover k cs h p))
            (add_entry-slot k c m m₁ (valid c checked) first)
        ∙ or_else_assoc (slot k m) _ (first_cover k cs h p)

    slot-match_hostport :
        (m : CredentialsMatcher User)
        → match_hostport split_host_port (some m) (join_host_port h p)
          ≡ or_else
              (slot exact m)
              (or_else (slot any_host m) (or_else (slot any_port m) (slot everything m)))
    unfolding match_hostport
    slot-match_hostport m = ground (arith)

    -- A matcher that the entries of a configuration make gives a host and a port, neither of them a wildcard,
    -- the user of the entry for both, else of the entry for the port on any host, else of the entry for the host on any port,
    -- else of the entry for everything, when splitting a joined host and port gives them back.
    pub match_hostport-best :
        (valid : (c : HostPortUser User)
          → validate c ≡ none
          → split_host_port (join_host_port c.host c.port) ≡ some (c.host, c.port))
        (cs : List (HostPortUser User)) (m : CredentialsMatcher User)
        → add_entries join_host_port validate cs no_credentials ≡ ok m
        → match_hostport split_host_port (some m) (join_host_port h p) ≡ best cs h p
    unfolding best
    match_hostport-best valid cs m w =
        slot-match_hostport m
        ∙ rw (
          add_entries-slot valid exact cs no_credentials m w,
          add_entries-slot valid any_host cs no_credentials m w,
          add_entries-slot valid any_port cs no_credentials m w,
          add_entries-slot valid everything cs no_credentials m w,
        )
