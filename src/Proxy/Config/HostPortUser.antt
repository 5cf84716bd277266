-- ===== src/Proxy/Config/HostPortUser.antt =====
-- host.go: credentials for a host and a port as text.
use forwarder.Base.{
  ℕ, ◌<◌, ◌≡◌, refl, sym, ap, ◌∙◌, ◌==◌, List, append_assoc, Bool-cases, inl, inr, beq_iff, Bool,
  true, false, Option, none, some, [], ◌∷◌, ◌++◌, Bytes, codes, beq, length, cut, occurs,
  occurs-append-false, if◌then◌else◌, ok, ◌>>=◌, arith,
}
use forwarder.Http.Text.{split_by, onto_first}
use forwarder.Net.Redirect.{HostPort}
use forwarder.Proxy.Config.{
  Userinfo, Names, parse_userinfo, wildcard_port_to_0, zero_for_star, joined,
  validate_host_port_user, cut_last, parse_host_port_user, show_host_port_user,
  redact_host_port_user, star_for_zero, at_host, shown_user, parts_read, url_asked, url_read,
  checked_user,
}

-- Host, port and user are texts that the form user[:password]@host:port can hold.
abbrev pub IsPlain : HostPort → Userinfo → Type 0
IsPlain hp ui =
    (0 < length ui.username)
    × (occurs b':' ui.username ≡ false)
    × (occurs b'@' hp.host ≡ false)
    × (occurs b'@' hp.port ≡ false)
    × (occurs b':' hp.port ≡ false)
    × (beq hp.port (codes "*") ≡ false)

cut_last-none : (names : Names) (s : Bytes) → occurs b'@' s ≡ false → cut_last names s ≡ none
cut_last-none names [] h = refl
cut_last-none names (c ∷ s) h =
    let k : occurs b'@' s ≡ false = ground (arith, h) in
    rw (cut_last-none names s k) (ground (arith, h))

cut_last-append :
    (names : Names) (a b : Bytes)
    → occurs b'@' b ≡ false
    → cut_last names (a ++ (b'@' ∷ b)) ≡ some (a, b)
cut_last-append names [] b h = rw (cut_last-none names b h) (ground arith)
cut_last-append names (c ∷ a) b h = rw (cut_last-append names a b h) refl

cut-none : (s : Bytes) → occurs b':' s ≡ false → cut b':' s ≡ none
cut-none [] h = refl
cut-none (c ∷ s) h =
    let k : occurs b':' s ≡ false = ground (arith, h) in
    let q = cut-none s k in ground (arith, h, q)

cut-append : (a b : Bytes) → occurs b':' a ≡ false → cut b':' (a ++ (b':' ∷ b)) ≡ some (a, b)
cut-append [] b h = ground arith
cut-append (c ∷ a) b h =
    let k : occurs b':' a ≡ false = ground (arith, h) in
    let q = cut-append a b k in ground (arith, h, q)

parse_userinfo-user :
    (u : Bytes) (p : Option Bytes)
    → 0 < length u
    → occurs b':' u ≡ false
    → (names : Names)
    → parse_userinfo (shown_user names (some (record { username = u; password = p })))
      ≡ ok (record { username = u; password = p })
unfolding parse_userinfo
parse_userinfo-user [] p h k names = absurd (omega arith)
parse_userinfo-user (c ∷ u) none h k names = rw (cut-none (c ∷ u) k) refl
parse_userinfo-user (c ∷ u) (some p) h k names = rw (cut-append (c ∷ u) p k) refl

star_or :
    (z : Bool) (port : Bytes)
    → occurs b'@' port ≡ false
    → occurs b'@' (if z then codes "*" else port) ≡ false
star_or true port h = refl
star_or false port h = h

occurs-star_for_zero :
    (names : Names) (port : Bytes)
    → occurs b'@' port ≡ false
    → occurs b'@' (star_for_zero names port) ≡ false
occurs-star_for_zero names port h = star_or (beq port (codes "0")) port h

-- The star that stands for any port is read as 0, in the last part only.
split_by-whole : (p : Bytes) → occurs b':' p ≡ false → split_by b':' p ≡ p ∷ []
unfolding split_by
split_by-whole [] h = refl
split_by-whole (c ∷ p) h =
    let k : occurs b':' p ≡ false = ground (arith, h) in rw (split_by-whole p k) (ground (arith, h))

-- What the pieces of a text become with one more piece behind them.
piece_behind : (ps : List Bytes) (q : Bytes) → List Bytes
piece_behind [] q = q ∷ []
piece_behind (p ∷ ps) q = p ∷ piece_behind ps q

onto_first-behind :
    (c : ℕ) (p : Bytes) (ps : List Bytes) (q : Bytes)
    → onto_first c (piece_behind (p ∷ ps) q) ≡ piece_behind (onto_first c (p ∷ ps)) q
unfolding piece_behind
onto_first-behind c p ps q = refl

split_by-pieces : (a : Bytes) → (p : Bytes) × (ps : List Bytes) × (split_by b':' a ≡ p ∷ ps)
unfolding split_by
split_by-pieces [] = ([], [], refl)
split_by-pieces (c ∷ a) = elim (Bool-cases (c == b':')) [
  | inl e ↦ ([], split_by b':' a, rw e refl)
  | inr e ↦ let (p, ps, h) = split_by-pieces a in (c ∷ p, ps, rw (e, h) refl)
]

split_by-behind :
    (a q : Bytes)
    → occurs b':' q ≡ false
    → split_by b':' (a ++ (b':' ∷ q)) ≡ piece_behind (split_by b':' a) q
unfolding split_by piece_behind
split_by-behind [] q h = rw (split_by-whole q h) refl
split_by-behind (c ∷ a) q h =
    let (p, ps, e) = split_by-pieces a in
    elim (Bool-cases (c == b':')) [
      | inl z ↦ rw (z, split_by-behind a q h) refl
      | inr z ↦ rw (z, split_by-behind a q h, e) refl
    ]

zero_for_star-behind :
    (p : Bytes) (ps : List Bytes) (q : Bytes)
    → zero_for_star (piece_behind (p ∷ ps) q)
      ≡ piece_behind (p ∷ ps) (if beq q (codes "*") then codes "0" else q)
unfolding piece_behind
zero_for_star-behind p [] q = refl
zero_for_star-behind p (r ∷ ps) q = ap (λ l. p ∷ l) (zero_for_star-behind r ps q)

joined-behind :
    (p : Bytes) (ps : List Bytes) (q : Bytes)
    → joined (piece_behind (p ∷ ps) q) ≡ joined (p ∷ ps) ++ (b':' ∷ q)
unfolding piece_behind
joined-behind p [] q = refl
joined-behind p (r ∷ ps) q =
    ap (λ s. p ++ (b':' ∷ s)) (joined-behind r ps q)
    ∙ sym (append_assoc p (b':' ∷ joined (r ∷ ps)) (b':' ∷ q))

joined-onto_first :
    (c : ℕ) (p : Bytes) (ps : List Bytes) → joined (onto_first c (p ∷ ps)) ≡ c ∷ joined (p ∷ ps)
joined-onto_first c p [] = refl
joined-onto_first c p (r ∷ ps) = refl

joined-split_by : (a : Bytes) → joined (split_by b':' a) ≡ a
unfolding split_by
joined-split_by [] = refl
joined-split_by (c ∷ a) =
    let (p, ps, e) = split_by-pieces a in
    let ih : joined (p ∷ ps) ≡ a = ap joined (sym e) ∙ joined-split_by a in
    elim (Bool-cases (c == b':')) [
      | inl z ↦ let k : c ≡ b':' = ground (arith, z) in rw (z, e) (rw ih (rw k refl))
      | inr z ↦ rw (z, e) (joined-onto_first c p ps ∙ ap (λ s. c ∷ s) ih)
    ]

wildcard_port_to_0-behind :
    (a q : Bytes)
    → occurs b':' q ≡ false
    → wildcard_port_to_0 (a ++ (b':' ∷ q))
      ≡ a ++ (b':' ∷ (if beq q (codes "*") then codes "0" else q))
unfolding wildcard_port_to_0
wildcard_port_to_0-behind a q h =
    let (p, ps, e) = split_by-pieces a in
    ap (λ l. joined (zero_for_star l)) (split_by-behind a q h ∙ ap (λ l. piece_behind l q) e)
    ∙ ap joined (zero_for_star-behind p ps q)
    ∙ joined-behind p ps (if beq q (codes "*") then codes "0" else q)
    ∙ ap (λ s. s ++ (b':' ∷ (if beq q (codes "*") then codes "0" else q)))
        (ap joined (sym e) ∙ joined-split_by a)

-- The port that was shown comes back.
port_back :
    (names : Names) (port : Bytes)
    → beq port (codes "*") ≡ false
    → (if beq (star_for_zero names port) (codes "*") then codes "0" else star_for_zero names port)
      ≡ port
port_back names port h = elim (Bool-cases (beq port (codes "0"))) [
  | inl e ↦ rw e (sym ((beq_iff port (codes "0")).0 e))
  | inr e ↦ rw e (rw h refl)
]

no_colon :
    (names : Names) (port : Bytes)
    → occurs b':' port ≡ false
    → occurs b':' (star_for_zero names port) ≡ false
no_colon names port h = elim (Bool-cases (beq port (codes "0"))) [
  | inl e ↦ rw e refl
  | inr e ↦ rw e h
]

wildcard_port_to_0-at_host :
    (names : Names) (hp : HostPort)
    → occurs b':' hp.port ≡ false
    → beq hp.port (codes "*") ≡ false
    → wildcard_port_to_0 (at_host names hp) ≡ b'@' ∷ (hp.host ++ (b':' ∷ hp.port))
wildcard_port_to_0-at_host names hp h k =
    wildcard_port_to_0-behind (b'@' ∷ hp.host) (star_for_zero names hp.port)
      (no_colon names hp.port h)
    ∙ ap (λ q. b'@' ∷ (hp.host ++ (b':' ∷ q))) (port_back names hp.port k)

-- The text of credentials for a host and a port, with a star for the port 0, is read as these, for a user that is not empty
-- and has no colon, any password, a host without `@`, and a port without `@` and colon that is not the star itself, which the
-- checks accept, when `url.Parse` reads `http://@host:port` as that host and port.
pub parse_host_port_user-show :
    (names : Names) (hp : HostPort) (ui : Userinfo)
    → IsPlain hp ui
    → names.url_parse (codes "http://@" ++ (hp.host ++ (b':' ∷ hp.port))) ≡ some hp
    → validate_host_port_user names (hp, some ui) ≡ none
    → parse_host_port_user names (show_host_port_user names (hp, some ui)) ≡ ok (hp, some ui)
unfolding parse_host_port_user show_host_port_user
parse_host_port_user-show names hp ui (a, b, c, d, e, f) u v =
    let no_at =
      occurs-append-false b'@' hp.host (b':' ∷ star_for_zero names hp.port) c
        (occurs-star_for_zero names hp.port d) in
    let w = parse_userinfo-user ui.username ui.password a b names in
    let back = hp.host ++ (b':' ∷ star_for_zero names hp.port) in
    let asked : names.url_parse (codes "http://" ++ wildcard_port_to_0 (b'@' ∷ back)) ≡ some hp =
      ap (λ s. names.url_parse (codes "http://" ++ s)) (wildcard_port_to_0-at_host names hp e f)
      ∙ u in
    ap (parts_read names) (cut_last-append names (shown_user names (some ui)) back no_at)
    ∙ ap (λ r. r >>= (λ z. url_asked names back z)) w
    ∙ ap (url_read names ui) asked
    ∙ ap (checked_user names (hp, some ui)) v

-- What logs show of credentials is the same for all passwords, and is what they would show of the password of five letters x.
pub redact_host_port_user-hides :
    (names : Names) (hp : HostPort) (u p q : Bytes)
    → redact_host_port_user names (hp, some (record { username = u; password = some p }))
      ≡ redact_host_port_user names (hp, some (record { username = u; password = some q }))
unfolding redact_host_port_user
redact_host_port_user-hides names hp u p q = refl
