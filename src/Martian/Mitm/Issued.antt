-- ===== src/Martian/Mitm/Issued.antt =====
-- Which certificates a client is handed.
use forwarder.Base.{ℕ, ◌≡◌, ◌⊎◌, true, Option, some, [], ◌∷◌, Bytes}
use forwarder.Martian.Mitm.{Crypto, Certificate, Config, template}

module _ (x : Crypto) where
  open x use {Leaf, Key, Store, create, parse, raw, verify, parse_ip, look_up, add}

  -- A certificate for one host, signed by the configured authority at a time: its leaf is made from the template for the host.
  pub record MadeAt (c : Config x) (now : ℕ) (host : Bytes) (k : Certificate x) : Type 0 where
    pub serial : ℕ
    pub bytes : Bytes
    pub created :
        create (template x c now serial host (parse_ip host)) (some c.ca) c.priv c.capriv
        ≡ some bytes
    pub parsed : parse bytes ≡ some k.leaf
    pub chain : k.chain ≡ bytes ∷ raw c.ca ∷ []
    pub key : k.private_key ≡ c.priv

  -- What a look-up finds, and the cache after it.
  abbrev pub found : ℕ → Store → Bytes → Option (Certificate x)
  found now s host = (look_up now s host).0

  abbrev pub looked : ℕ → Store → Bytes → Store
  looked now s host = (look_up now s host).1

  -- Whatever the cache will have for a host was made for that host.
  abbrev pub IsSound : Config x → Store → Type 0
  IsSound c s =
      (t : ℕ) (host : Bytes) (k : Certificate x)
      → found t s host ≡ some k
      → (now : ℕ) × MadeAt c now host k

  -- What a cache documents: it has nothing that was not put there, and a look-up puts nothing there.
  abbrev pub Remembers : Type 0
  Remembers =
      ((t : ℕ) (s : Store) (host : Bytes) (k : Certificate x) (u : ℕ) (other : Bytes)
          (l : Certificate x)
        → found u (add t s host k) other ≡ some l
        → ((other ≡ host) × (l ≡ k)) ⊎ (found u s other ≡ some l))
      × ((t : ℕ) (s : Store) (host : Bytes) (u : ℕ) (other : Bytes) (l : Certificate x)
          → found u (looked t s host) other ≡ some l
          → found u s other ≡ some l)

  -- What `serve` hands out for a host, by what was found: that, if it verifies now, or a certificate made now.
  abbrev pub Served :
      Config x → ℕ → Bytes → Store → Option (Certificate x) → Certificate x → Store → Type 0
  Served c now host s o k s' =
      ((o ≡ some k) × (verify now c.roots host k.leaf ≡ true) × (s' ≡ s))
      ⊎ (MadeAt c now host k × (s' ≡ add now s host k))

  -- What is handed out for a host after the look-up.
  abbrev pub Handed : Config x → ℕ → Bytes → Store → Certificate x → Store → Type 0
  Handed c now host s k s' = Served c now host (looked now s host) (found now s host) k s'
