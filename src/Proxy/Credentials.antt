-- ===== src/Proxy/Credentials.antt =====
-- credentials.go; `net.SplitHostPort`, `net.JoinHostPort` and the check of an entry are parameters.
pub mod Priority
use forwarder.Base.{
  ◌≡◌, Bool, true, false, ◌&&◌, Option, none, some, List, [], ◌∷◌, ◌++◌, Bytes, codes, beq, Table,
  lookup, insert, Result, ok, err, ◌>>=◌, if◌then◌else◌,
}

-- `HostPortUser`; the user is of any type.
pub record HostPortUser (User : Type 0) : Type 0 where
  pub host : Bytes
  pub port : Bytes
  pub user : User

pub record CredentialsMatcher (User : Type 0) : Type 0 where
  pub hostport : Table User
  pub host : Table User
  pub port : Table User
  pub global : Option User

pub data CredentialsError : Type 0 where
  invalid : Bytes → CredentialsError
  duplicate_global : CredentialsError
  duplicate_host_wildcard : CredentialsError
  duplicate_port_wildcard : CredentialsError
  duplicate_input : CredentialsError

-- The part of `url.URL` that decides.
pub record UrlHost : Type 0 where
  pub scheme : Bytes
  pub host : Bytes
  pub port : Bytes

-- The port that `MatchURL` puts in when the URL has none.
abbrev pub with_port : UrlHost → Option Bytes
with_port u =
    if beq u.port []
    then if beq u.scheme (codes "http")
      then some (u.host ++ codes ":80")
      else if beq u.scheme (codes "https")
      then some (u.host ++ codes ":443")
      else none
    else some u.host

module _ {User : Type 0} where
  abbrev pub no_credentials : CredentialsMatcher User
  no_credentials = record { hostport = []; host = []; port = []; global = none }

  -- `if _, ok := m[k]; ok`
  abbrev pub present : Option User → Bool
  present none = false
  present (some u) = true

  module _ (join_host_port : Bytes → Bytes → Bytes)
      (validate : HostPortUser User → Option Bytes) where
    -- The `switch` on a valid entry.
    abbrev pub add_entry :
        HostPortUser User
        → CredentialsMatcher User
        → Result CredentialsError (CredentialsMatcher User)
    add_entry c m =
        if beq c.host (codes "*") && beq c.port (codes "0")
        then if present m.global
          then err duplicate_global
          else ok (record m { global = some c.user })
        else if beq c.host (codes "*")
        then if present (lookup m.port c.port)
          then err duplicate_host_wildcard
          else ok (record m { port = insert c.port c.user m.port })
        else if beq c.port (codes "0")
        then if present (lookup m.host c.host)
          then err duplicate_port_wildcard
          else ok (record m { host = insert c.host c.user m.host })
        else if present (lookup m.hostport (join_host_port c.host c.port))
        then err duplicate_input
        else ok (record m { hostport = insert (join_host_port c.host c.port) c.user m.hostport })

    -- The loop over the entries.
    unfoldable pub add_entries :
        List (HostPortUser User)
        → CredentialsMatcher User
        → Result CredentialsError (CredentialsMatcher User)
    add_entries [] m = ok m
    add_entries (c ∷ cs) m = elim (validate c) [
      | some message ↦ err (invalid message)
      | none ↦ add_entry c m >>= add_entries cs
    ]

    -- `NewCredentialsMatcher`: with no entries there is no matcher.
    abbrev pub new_credentials_matcher :
        List (HostPortUser User) → Result CredentialsError (Option (CredentialsMatcher User))
    new_credentials_matcher [] = ok none
    new_credentials_matcher (c ∷ cs) = add_entries (c ∷ cs) no_credentials >>= λ m. ok (some m)

  module _ (split_host_port : Bytes → Option (Bytes × Bytes)) where
    abbrev pub match_split : CredentialsMatcher User → Bytes × Bytes → Option User
    match_split m (host, port) = elim (lookup m.port port) [
      | some u ↦ some u
      | none ↦ elim (lookup m.host host) [ some u ↦ some u | none ↦ m.global ]
    ]

    -- `Match`
    unfoldable pub match_hostport : Option (CredentialsMatcher User) → Bytes → Option User
    match_hostport none hostport = none
    match_hostport (some m) hostport = elim (lookup m.hostport hostport) [
      | some u ↦ some u
      | none ↦ elim (split_host_port hostport) [ none ↦ none | some hp ↦ match_split m hp ]
    ]

    -- `MatchURL`
    unfoldable pub match_url : Option (CredentialsMatcher User) → Option UrlHost → Option User
    match_url none u = none
    match_url (some m) none = none
    match_url (some m) (some u) = elim (with_port u) [
      | none ↦ none
      | some hostport ↦ match_hostport (some m) hostport
    ]
