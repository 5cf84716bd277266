-- ===== src/H2/Setup.antt =====
-- internal/martian/h2/h2.go: the connection preface, and the chains of stream processors that `Config.Proxy`
-- builds for each stream.
pub mod Chains
pub mod Preface
use forwarder.Base.{
  ℕ, zero, suc, ◌-◌, Bool, Option, none, some, List, [], ◌∷◌, ◌++◌, Bytes, codes, length, take,
  drop, Result, ok, err, ◌==◌, if◌then◌else◌, beq,
}

-- `connectionPreface`
abbrev pub connection_preface : Bytes
connection_preface =
    codes "PRI * HTTP/2.0" ++ 13 ∷ 10 ∷ 13 ∷ 10 ∷ codes "SM" ++ 13 ∷ 10 ∷ 13 ∷ 10 ∷ []

pub data PrefaceError : Type 0 where
  reading_preface : PrefaceError
  unexpected_preface : PrefaceError
  writing_preface : PrefaceError

-- The loop over `m`. The answers of the server's connection are a list: how many bytes a call of
-- `Write` took, or that it failed; a list that ends early is a call that does not return, which
-- counts as failed. The result has the bytes that were written.
unfoldable pub write_loop : List (Option ℕ) → Bytes → ℕ → Bytes → Result PrefaceError Bytes
write_loop answers preface zero sent = ok sent
write_loop [] preface (suc m) sent = err writing_preface
write_loop (none ∷ answers) preface (suc m) sent = err writing_preface
write_loop (some n ∷ answers) preface (suc m) sent =
    write_loop answers (drop n preface) (suc m - n) (sent ++ take n preface)

abbrev pub zeros : ℕ → Bytes
zeros zero = []
zeros (suc n) = 0 ∷ zeros n

-- The buffer after one call of `Read`: what it returned, at most as long as the buffer, and zeros.
abbrev pub filled : Bytes → Bytes
filled got = take (length connection_preface) got ++ zeros (length connection_preface - length got)

-- `forwardPreface`
pub forward_preface : Option Bytes → List (Option ℕ) → Result PrefaceError Bytes
unfolding write_loop
forward_preface none answers = err reading_preface
forward_preface (some got) answers =
    if beq (filled got) connection_preface
    then write_loop answers (filled got) (length connection_preface) []
    else err unexpected_preface

-- `Processors`
pub record Processors (Processor : Type 0) : Type 0 where
  pub c_to_s : Processor
  pub s_to_c : Processor

-- `StreamProcessorFactory`: nil is `none`.
abbrev pub Factory : Type 0 → Type 0
Factory Processor = Processors Processor → Option Processor × Option Processor

-- The contents of `streamProcessors`, a `sync.Map`.
abbrev pub Streams : Type 0 → Type 0
Streams Processor = ℕ → Option (Processors Processor)

module _ {Processor : Type 0} where
  abbrev pub or_sink : Option Processor → Processor → Processor
  or_sink none sink = sink
  or_sink (some p) sink = p

  -- The body of the loop of `create`.
  abbrev pub chain_one : Factory Processor → Processors Processor → Processors Processor
  chain_one factory p = record {
    c_to_s = or_sink (factory p).0 p.c_to_s;
    s_to_c = or_sink (factory p).1 p.s_to_c;
  }

  abbrev pub at_index : Option (Factory Processor) → Processors Processor → Processors Processor
  at_index none p = p
  at_index (some factory) p = chain_one factory p

  abbrev pub factory_at : List (Factory Processor) → ℕ → Option (Factory Processor)
  factory_at [] i = none
  factory_at (f ∷ fs) zero = some f
  factory_at (f ∷ fs) (suc i) = factory_at fs i

  -- The loop of `create`, with `i` factories left; no index is out of range.
  unfoldable pub create_loop :
      List (Factory Processor) → ℕ → Processors Processor → Processors Processor
  create_loop fs zero p = p
  create_loop fs (suc i) p = create_loop fs i (at_index (factory_at fs i) p)

  -- `create`: the adapters of the two relays behind all the factories' processors.
  pub create : List (Factory Processor) → Processors Processor → Processors Processor
  unfolding create_loop
  create fs adapters = create_loop fs (length fs) adapters

  -- `LoadOrStore` of the map, by what it has for the key
  abbrev pub settle :
      Streams Processor
      → ℕ
      → Processors Processor
      → Option (Processors Processor)
      → Streams Processor × Processors Processor
  settle m id p (some old) = (m, old)
  settle m id p none = ((λ j. if j == id then some p else m j), p)

  abbrev pub load_or_store :
      Streams Processor → ℕ → Processors Processor → Streams Processor × Processors Processor
  load_or_store m id p = settle m id p (m id)

  -- The calls that change the map, in the order in which they take effect.
  unfoldable pub stored : Streams Processor → List (ℕ × Processors Processor) → Streams Processor
  stored m [] = m
  stored m ((id, p) ∷ calls) = stored (load_or_store m id p).0 calls

  -- `Get`, before its choice of direction: between its `Load` and its `LoadOrStore` others may
  -- store, `between`.
  abbrev pub loaded :
      Streams Processor
      → ℕ
      → Processors Processor
      → Option (Processors Processor)
      → Streams Processor × Processors Processor
  loaded m id created (some p) = (m, p)
  loaded m id created none = load_or_store m id created

  pub get :
      Streams Processor
      → List (ℕ × Processors Processor)
      → ℕ
      → Processors Processor
      → Streams Processor × Processors Processor
  unfolding stored
  get m between id created = loaded (stored m between) id created (m id)
