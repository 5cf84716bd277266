-- ===== src/Martian/Fifo/Immutable.antt =====
-- An immutable group does what the group did.
use forwarder.Base.{
  ◌≡◌, refl, sym, ap, ◌∙◌, Bool, true, false, List, [], ◌∷◌, ◌++◌, append_assoc, append-nil,
  Bool-cases, inl, inr,
}
use forwarder.Martian.Fifo.{
  Modifiers, no_more, single, grouped, go_on, run_group, append_mods, same, to_immutable,
}

same_eq : (a b : Bool) → same a b ≡ true → a ≡ b
same_eq true b h = sym h
same_eq false true h = cc
same_eq false false h = refl

module _ {Message Error : Type 0} where
  -- Errors so far stay in front.
  abbrev with_errors : List Error → Message × List Error → Message × List Error
  with_errors merr (m, es) = (m, merr ++ es)

  go_on-cong :
      (aggregate : Bool) (merr : List Error)
      (rest rest' : Message → List Error → Message × List Error)
      → ((m : Message) (es : List Error) → rest m es ≡ rest' m es)
      → (r : Message × List Error) → go_on aggregate merr rest r ≡ go_on aggregate merr rest' r
  go_on-cong aggregate merr rest rest' h (m, []) = h m merr
  go_on-cong true merr rest rest' h (m, e ∷ es) = h m (merr ++ (e ∷ es))
  go_on-cong false merr rest rest' h (m, e ∷ es) = refl

  go_on-merr :
      (rest : Message → List Error → Message × List Error)
      → ((m : Message) (es : List Error) → rest m es ≡ with_errors es (rest m []))
      → (merr : List Error) (r : Message × List Error)
      → go_on true merr rest r ≡ with_errors merr (go_on true [] rest r)
  go_on-merr rest h merr (m, []) = h m merr
  go_on-merr rest h merr (m, e ∷ es) =
      h m (merr ++ (e ∷ es))
      ∙ ap (λ k. ((rest m []).0, k)) (append_assoc merr (e ∷ es) ((rest m []).1))
      ∙ ap (with_errors merr) (sym (h m (e ∷ es)))

  run_group-merr :
      (mods : Modifiers Message Error) (m : Message) (merr : List Error)
      → run_group true mods m merr ≡ with_errors merr (run_group true mods m [])
  unfolding run_group
  run_group-merr no_more m merr = rw append-nil
  run_group-merr (single f rest) m merr =
      go_on-merr (run_group true rest) (run_group-merr rest) merr (f m)
  run_group-merr (grouped inner sub rest) m merr =
      go_on-merr (run_group true rest) (run_group-merr rest) merr (run_group inner sub m [])

  go_on-with_errors :
      (rest : Message → List Error → Message × List Error) (a : List Error) (e : Error)
      (es : List Error) (r : Message × List Error)
      → go_on true (a ++ (e ∷ es)) rest r ≡ go_on true a rest (with_errors (e ∷ es) r)
  go_on-with_errors rest a e es (m, []) = rw append-nil
  go_on-with_errors rest a e es (m, c ∷ cs) = ap (rest m) (append_assoc a (e ∷ es) (c ∷ cs))

  go_on-go_on :
      (aggregate : Bool) (first all last : Message → List Error → Message × List Error)
      → ((m : Message) (es : List Error) → all m es ≡ go_on aggregate es last (first m []))
      → (aggregate ≡ true
          → (m : Message) (es : List Error) → first m es ≡ with_errors es (first m []))
      → (merr : List Error) (r : Message × List Error)
      → go_on aggregate merr all r ≡ go_on aggregate merr last (go_on aggregate [] first r)
  go_on-go_on aggregate first all last h k merr (m, []) = h m merr
  go_on-go_on false first all last h k merr (m, e ∷ es) = refl
  go_on-go_on true first all last h k merr (m, e ∷ es) =
      h m (merr ++ (e ∷ es))
      ∙ go_on-with_errors last merr e es (first m [])
      ∙ ap (go_on true merr last) (sym (k refl m (e ∷ es)))

  kept_in_front :
      (aggregate : Bool) (mods : Modifiers Message Error)
      → aggregate ≡ true
      → (m : Message) (es : List Error)
      → run_group aggregate mods m es ≡ with_errors es (run_group aggregate mods m [])
  kept_in_front aggregate mods e = rw e (run_group-merr mods)

  pub run_group-append_mods :
      (aggregate : Bool) (xs ys : Modifiers Message Error) (m : Message) (merr : List Error)
      → run_group aggregate (append_mods xs ys) m merr
        ≡ go_on aggregate merr (run_group aggregate ys) (run_group aggregate xs m [])
  unfolding run_group append_mods
  run_group-append_mods aggregate no_more ys m merr = refl
  run_group-append_mods aggregate (single f rest) ys m merr =
      go_on-go_on aggregate (run_group aggregate rest) (run_group aggregate (append_mods rest ys))
        (run_group aggregate ys) (run_group-append_mods aggregate rest ys)
        (kept_in_front aggregate rest) merr (f m)
  run_group-append_mods aggregate (grouped inner sub rest) ys m merr =
      go_on-go_on aggregate (run_group aggregate rest) (run_group aggregate (append_mods rest ys))
        (run_group aggregate ys) (run_group-append_mods aggregate rest ys)
        (kept_in_front aggregate rest) merr (run_group inner sub m [])

  -- The immutable group made from a group leaves the same message and returns the same errors, however deep groups that aggregate
  -- errors and groups that stop at the first one are nested.
  pub run_group-to_immutable :
      (aggregate : Bool) (mods : Modifiers Message Error) (m : Message) (merr : List Error)
      → run_group aggregate (to_immutable aggregate mods) m merr ≡ run_group aggregate mods m merr
  unfolding run_group to_immutable
  run_group-to_immutable aggregate no_more m merr = refl
  run_group-to_immutable aggregate (single f rest) m merr =
      go_on-cong aggregate merr _ _ (run_group-to_immutable aggregate rest) (f m)
  run_group-to_immutable aggregate (grouped inner sub rest) m merr =
      let later =
        go_on-cong aggregate merr _ _ (run_group-to_immutable aggregate rest)
          (run_group inner sub m []) in
      let inside = run_group-to_immutable inner sub m [] in
      elim (Bool-cases (same aggregate inner)) [
        | inl e ↦ rw e (
            run_group-append_mods aggregate (to_immutable inner sub) (to_immutable aggregate rest) m
              merr
            ∙ ap (go_on aggregate merr (run_group aggregate (to_immutable aggregate rest))) (
                ap (λ a. run_group a (to_immutable inner sub) m []) (same_eq aggregate inner e)
                ∙ inside)
            ∙ later)
        | inr e ↦ rw e (
            ap (go_on aggregate merr (run_group aggregate (to_immutable aggregate rest))) inside
            ∙ later)
      ]
