-- ===== src/H2/Setup/Chains.antt =====
-- The chain of a stream's processors, and that there is one for each stream.
use forwarder.Base.{
  ℕ, zero, suc, ◌≡◌, refl, ap, ◌∙◌, Option, none, some, List, [], ◌∷◌, length, ==_refl, ==_iff,
  arith,
}
use forwarder.H2.Setup.{
  Processors, Factory, chain_one, at_index, factory_at, create_loop, create, Streams, load_or_store,
  settle, loaded, stored, get,
}

module _ {Processor : Type 0} where
  -- The first factory is the outermost: its processors see a frame first.
  pub wrapped : List (Factory Processor) → Processors Processor → Processors Processor
  wrapped [] p = p
  wrapped (f ∷ fs) p = chain_one f (wrapped fs p)

  create_loop-cons :
      (f : Factory Processor) (fs : List (Factory Processor)) (i : ℕ) (p : Processors Processor)
      → create_loop (f ∷ fs) (suc i) p ≡ chain_one f (create_loop fs i p)
  unfolding create_loop
  create_loop-cons f fs zero p = refl
  create_loop-cons f fs (suc i) p = create_loop-cons f fs i (at_index (factory_at fs i) p)

  -- The loop over the factories from the last to the first builds the chain in which each
  -- factory's processors stand in front of those of the later ones, with a nil one left out, and the relays at the end.
  pub create-wrapped :
      (fs : List (Factory Processor)) (adapters : Processors Processor)
      → create fs adapters ≡ wrapped fs adapters
  unfolding create wrapped create_loop
  create-wrapped [] adapters = refl
  create-wrapped (f ∷ fs) adapters =
      create_loop-cons f fs (length fs) adapters ∙ ap (chain_one f) (create-wrapped fs adapters)

  settle-keeps :
      (m : Streams Processor) (j id : ℕ) (q p : Processors Processor)
      (o : Option (Processors Processor))
      → m j ≡ o
      → m id ≡ some p
      → (settle m j q o).0 id ≡ some p
  settle-keeps m j id q p (some old) e h = h
  settle-keeps m j id q p none e h = ground (arith, ==_iff id j)

  stored-keeps :
      (calls : List (ℕ × Processors Processor)) (m : Streams Processor) (id : ℕ)
      (p : Processors Processor)
      → m id ≡ some p
      → stored m calls id ≡ some p
  unfolding stored
  stored-keeps [] m id p h = h
  stored-keeps ((j, q) ∷ calls) m id p h =
      stored-keeps calls (load_or_store m j q).0 id p (settle-keeps m j id q p (m j) refl h)

  settle-has :
      (m : Streams Processor) (id : ℕ) (p : Processors Processor)
      (o : Option (Processors Processor))
      → m id ≡ o
      → (settle m id p o).0 id ≡ some (settle m id p o).1
  settle-has m id p (some old) e = e
  settle-has m id p none e = rw (==_refl id)

  loaded-has :
      (n : Streams Processor) (id : ℕ) (p : Processors Processor)
      (o : Option (Processors Processor))
      → ((q : Processors Processor) → o ≡ some q → n id ≡ some q)
      → (loaded n id p o).0 id ≡ some (loaded n id p o).1
  loaded-has n id p (some q) keep = keep q refl
  loaded-has n id p none keep = settle-has n id p (n id) refl

  -- Both directions and all the frames of a stream meet the same processors: whatever is stored while a
  -- `Get` runs, and between it and a later one for the same stream, the two return the same.
  pub get_same :
      (m : Streams Processor) (during later during_second : List (ℕ × Processors Processor))
      (id : ℕ) (first second : Processors Processor)
      → (get (stored (get m during id first).0 later) during_second id second).1
        ≡ (get m during id first).1
  unfolding get
  get_same m during later during_second id first second =
      let has =
        loaded-has (stored m during) id first (m id) (λ q h. stored-keeps during m id q h) in
      rw (stored-keeps later (loaded (stored m during) id first (m id)).0 id _ has) refl
