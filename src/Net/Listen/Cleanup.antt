-- ===== src/Net/Listen/Cleanup.antt =====
-- net.go: which listeners are left open.
use forwarder.Base.{
  ◌≡◌, refl, sym, ap, ◌∙◌, false, Option, List, [], ◌∷◌, ◌++◌, append_assoc, append-nil, Bytes,
  Result, ok, err,
}
use forwarder.Net.Listen.{
  ListenerConfig, Layer, listen, ListenEvent, opened, hung_up, hang_all, then_events, listen_loop,
  listen_all,
}

abbrev pub opens : List ListenEvent → List Bytes
opens [] = []
opens (opened n ∷ es) = n ∷ opens es
opens (e ∷ es) = opens es

abbrev pub closes : List ListenEvent → List Bytes
closes [] = []
closes (hung_up n ∷ es) = n ∷ closes es
closes (e ∷ es) = closes es

opens-hang_all : (ns : List Bytes) → opens (hang_all ns) ≡ []
opens-hang_all [] = refl
opens-hang_all (n ∷ ns) = opens-hang_all ns

closes-hang_all : (ns : List Bytes) → closes (hang_all ns) ≡ ns
closes-hang_all [] = refl
closes-hang_all (n ∷ ns) = ap (λ k. n ∷ k) (closes-hang_all ns)

module _ {E : Type 0} (tcp : ListenerConfig → Option E) where
  -- With some listeners open already: all are listening and open, or all that were opened are closed.
  abbrev pub CleanedUp : List Bytes → Result (Option E) (List Bytes) × List ListenEvent → Type 0
  CleanedUp listeners (ok names, es) = (names ≡ listeners ++ opens es) × (closes es ≡ [])
  CleanedUp listeners (err e, es) = closes es ≡ listeners ++ opens es

  CleanedUp-opened :
      (n : Bytes) (listeners : List Bytes) (r : Result (Option E) (List Bytes))
      (es : List ListenEvent)
      → CleanedUp (listeners ++ (n ∷ [])) (r, es)
      → CleanedUp listeners (then_events (opened n ∷ []) (r, es))
  CleanedUp-opened n listeners (ok names) es (h, k) =
      (h ∙ append_assoc listeners (n ∷ []) (opens es), k)
  CleanedUp-opened n listeners (err e) es h = h ∙ append_assoc listeners (n ∷ []) (opens es)

  CleanedUp-listen :
      (c : ListenerConfig) (listeners : List Bytes) (l : Result (Option E) (List Layer))
      (rest : Result (Option E) (List Bytes) × List ListenEvent)
      → CleanedUp (listeners ++ (c.name ∷ [])) rest
      → CleanedUp listeners (elim l [
        | err e ↦ (err e, hang_all listeners)
        | ok layers ↦ then_events (opened c.name ∷ []) rest
      ])
  CleanedUp-listen c listeners (err e) rest h =
      rw (closes-hang_all listeners, opens-hang_all listeners) (sym (append-nil listeners))
  CleanedUp-listen c listeners (ok layers) rest h =
      CleanedUp-opened c.name listeners rest.0 rest.1 h

  listen_loop-CleanedUp :
      (cs : List ListenerConfig) (listeners : List Bytes)
      → CleanedUp listeners (listen_loop tcp cs listeners)
  unfolding listen_loop
  listen_loop-CleanedUp [] listeners = (sym (append-nil listeners), refl)
  listen_loop-CleanedUp (c ∷ cs) listeners =
      CleanedUp-listen c listeners (listen false (tcp c) c) _
        (listen_loop-CleanedUp cs (listeners ++ (c.name ∷ [])))

  -- Listening on several addresses either gives exactly the listeners that it opened, in order, and closes none, or fails and
  -- closes every listener that it opened.
  pub listen_all-CleanedUp : (cs : List ListenerConfig) → CleanedUp [] (listen_all tcp cs)
  unfolding listen_all
  listen_all-CleanedUp cs = listen_loop-CleanedUp cs []
