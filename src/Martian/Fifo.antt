-- ===== src/Martian/Fifo.antt =====
-- internal/martian/fifo/fifo_group.go, on what is modified, a request or a response. A modifier changes it
-- and returns errors: none is Go's nil, and more than one are those that `multierr` has put together.
pub mod Immutable
use forwarder.Base.{Bool, true, false, List, [], ◌∷◌, ◌++◌, if◌then◌else◌}

-- The list of a group's modifiers, where a modifier may be a group itself.
pub data Modifiers (Message Error : Type 0) : Type 0 where
  no_more : Modifiers Message Error
  single : (Message → Message × List Error) → Modifiers Message Error → Modifiers Message Error
  grouped : Bool → Modifiers Message Error → Modifiers Message Error → Modifiers Message Error

-- `==` on flags
abbrev pub same : Bool → Bool → Bool
same true b = b
same false true = false
same false false = true

module _ {Message Error : Type 0} where
  -- The end of the loop's body, with the rest of the loop as a function.
  abbrev pub go_on :
      Bool
      → List Error
      → (Message → List Error → Message × List Error)
      → Message × List Error
      → Message × List Error
  go_on aggregate merr rest (m, []) = rest m merr
  go_on aggregate merr rest (m, e ∷ es) =
      if aggregate then rest m (merr ++ (e ∷ es)) else (m, e ∷ es)

  -- The loop of `ModifyRequest` and `ModifyResponse`, with `merr` so far.
  unfoldable pub run_group :
      Bool → Modifiers Message Error → Message → List Error → Message × List Error
  run_group aggregate no_more m merr = (m, merr)
  run_group aggregate (single f rest) m merr = go_on aggregate merr (run_group aggregate rest) (f m)
  run_group aggregate (grouped inner sub rest) m merr =
      go_on aggregate merr (run_group aggregate rest) (run_group inner sub m [])

  -- `ModifyRequest` and `ModifyResponse`
  abbrev pub modify : Bool → Modifiers Message Error → Message → Message × List Error
  modify aggregate mods m = run_group aggregate mods m []

  -- `append(reqmods, im.reqmods...)`
  unfoldable pub append_mods :
      Modifiers Message Error → Modifiers Message Error → Modifiers Message Error
  append_mods no_more more = more
  append_mods (single f rest) more = single f (append_mods rest more)
  append_mods (grouped inner sub rest) more = grouped inner sub (append_mods rest more)

  -- `ToImmutable` on the list of a group that aggregates errors or does not.
  unfoldable pub to_immutable : Bool → Modifiers Message Error → Modifiers Message Error
  to_immutable aggregate no_more = no_more
  to_immutable aggregate (single f rest) = single f (to_immutable aggregate rest)
  to_immutable aggregate (grouped inner sub rest) =
      let im = to_immutable inner sub in
      let more = to_immutable aggregate rest in
      if same aggregate inner then append_mods im more else grouped inner im more

  -- `AddRequestModifier` and `AddResponseModifier`
  abbrev pub add_modifier :
      (Message → Message × List Error) → Modifiers Message Error → Modifiers Message Error
  add_modifier f mods = append_mods mods (single f no_more)

  abbrev pub add_group :
      Bool → Modifiers Message Error → Modifiers Message Error → Modifiers Message Error
  add_group inner sub mods = append_mods mods (grouped inner sub no_more)
