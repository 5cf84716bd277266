-- ===== src/Martian/Serve/Progress.antt =====
-- internal/martian/proxy.go: Shutdown holds `connsMu` while it waits, and the goroutines that it waits for can end nevertheless.
use forwarder.Base.{
  ℕ, suc, ◌+◌, ◌*◌, ◌%◌, ◌≤◌, ◌<◌, ◌≡◌, refl, ap, ◌∙◌, Bool, true, false, Option, none, some, List,
  [], ◌∷◌, ◌++◌, append_assoc, append-nil, if◌then◌else◌, length, length-append, arith,
}
use forwarder.Martian.Serve.Counting.{counted, total, IsClosed, Sound}
use forwarder.Martian.Serve.Drained.{SoundResult, steps-SoundResult, not_both}
use forwarder.Martian.Serve.{
  Stage, spawned, registered, serving, leaving, hung_up, released, gone, Shutdown, polling, drained,
  State, Action, check, finish, hang_up, release, poll, same_stage, move, with_workers,
  shutdown_step, step, steps,
}

-- What a goroutine still does until the counter no longer counts it.
abbrev pub way : ℕ → Stage → List Action
way n registered = check n ∷ hang_up n ∷ release n ∷ []
way n serving = finish n ∷ hang_up n ∷ release n ∷ []
way n leaving = hang_up n ∷ release n ∷ []
way n hung_up = release n ∷ []
way n s = []

abbrev pub ways : ℕ → List Stage → List Action
ways n [] = []
ways n (s ∷ ss) = way n s ++ ways (suc n) ss

abbrev with_state : State → List Stage → ℕ → State
with_state s ws wg = record s { workers = ws; conns_wg = wg }

move-append :
    (a b : Stage) (before after : List Stage)
    → same_stage a a ≡ true
    → move a b (length before) (before ++ (a ∷ after)) ≡ some (before ++ (b ∷ after))
unfolding move
move-append a b [] after h = rw h refl
move-append a b (s ∷ before) after h = rw (move-append a b before after h) refl

abbrev then_steps : List Action → Option State → Option State
then_steps ys none = none
then_steps ys (some s) = steps ys s

rest-append :
    (xs ys : List Action) (r : Option State)
    → ((s : State) → steps (xs ++ ys) s ≡ then_steps ys (steps xs s))
    → elim r [ none ↦ none | some s ↦ steps (xs ++ ys) s ]
      ≡ then_steps ys (elim r [ none ↦ none | some s ↦ steps xs s ])
rest-append xs ys none f = refl
rest-append xs ys (some s) f = f s

steps-append : (xs ys : List Action) (s : State) → steps (xs ++ ys) s ≡ then_steps ys (steps xs s)
unfolding steps
steps-append [] ys s = refl
steps-append (x ∷ xs) ys s = rest-append xs ys (step x s) (steps-append xs ys)

steps-none : (s : State) → steps [] s ≡ some s
unfolding steps
steps-none s = refl

abbrev signed_off : ℕ → ℕ
signed_off wg = (wg + 4294967295) % 4294967296

one_more :
    (a : Action) (rest : List Action) (s s' : State) {r : Option State}
    → step a s ≡ some s'
    → steps rest s' ≡ r
    → steps (a ∷ rest) s ≡ r
unfolding steps
one_more a rest s s' h k =
    ap (λ (r : Option State). elim r [ none ↦ none | some s'' ↦ steps rest s'' ]) h ∙ k

module _ (before after : List Stage) (s : State) where
  abbrev at : Stage → ℕ → State
  at w wg = with_state s (before ++ (w ∷ after)) wg

  checked_move :
      (closing : Bool) {wg : ℕ}
      → closing ≡ true
      → with_workers (at registered wg) (
          move registered
            (if closing then leaving else serving)
            (length before)
            (before ++ (registered ∷ after)))
        ≡ some (at leaving wg)
  checked_move true h = rw (move-append registered leaving before after refl) refl
  checked_move false h = not_both h

  checked :
      (wg : ℕ)
      → s.closing ≡ true
      → step (check (length before)) (at registered wg) ≡ some (at leaving wg)
  unfolding step
  checked wg h = checked_move s.closing h

  finished : (wg : ℕ) → step (finish (length before)) (at serving wg) ≡ some (at leaving wg)
  unfolding step
  finished wg = rw (move-append serving leaving before after refl) refl

  hung : (wg : ℕ) → step (hang_up (length before)) (at leaving wg) ≡ some (at hung_up wg)
  unfolding step
  hung wg = rw (move-append leaving hung_up before after refl) refl

  released_now :
      (wg : ℕ) → step (release (length before)) (at hung_up wg) ≡ some (at released (signed_off wg))
  unfolding step
  released_now wg = rw (move-append hung_up released before after refl) refl

  off_from_leaving :
      (wg : ℕ)
      → steps (way (length before) leaving) (at leaving wg) ≡ some (at released (signed_off wg))
  off_from_leaving wg =
      one_more _ _ _ _ (hung wg) (one_more _ _ _ _ (released_now wg) (steps-none _))

  way_ends :
      (w : Stage) (wg : ℕ)
      → s.closing ≡ true
      → (w' : Stage) × (wg' : ℕ) × (counted w' ≡ 0)
        × (steps (way (length before) w) (at w wg) ≡ some (at w' wg'))
  way_ends registered wg h =
      (released, signed_off wg, refl, one_more _ _ _ _ (checked wg h) (off_from_leaving wg))
  way_ends serving wg h =
      (released, signed_off wg, refl, one_more _ _ _ _ (finished wg) (off_from_leaving wg))
  way_ends leaving wg h = (released, signed_off wg, refl, off_from_leaving wg)
  way_ends hung_up wg h =
      (released, signed_off wg, refl, one_more _ _ _ _ (released_now wg) (steps-none _))
  way_ends spawned wg h = (spawned, wg, refl, steps-none _)
  way_ends released wg h = (released, wg, refl, steps-none _)
  way_ends gone wg h = (gone, wg, refl, steps-none _)

total-at_end : (ws : List Stage) (w : Stage) → counted w ≡ 0 → total (ws ++ (w ∷ [])) ≡ total ws
total-at_end [] w h = omega arith
total-at_end (x ∷ ws) w h = omega (arith, total-at_end ws w h)

length-at_end : (ws : List Stage) (w : Stage) → length (ws ++ (w ∷ [])) ≡ suc (length ws)
length-at_end ws w = omega (arith, length-append ws (w ∷ []))

ways_join :
    (before after : List Stage) (w w' : Stage) (wg wg' : ℕ) (s : State) (r : Option State)
    → steps (way (length before) w) (with_state s (before ++ (w ∷ after)) wg)
      ≡ some (with_state s (before ++ (w' ∷ after)) wg')
    → steps
        (ways (length (before ++ (w' ∷ []))) after)
        (with_state s ((before ++ (w' ∷ [])) ++ after) wg')
      ≡ r
    → steps (ways (length before) (w ∷ after)) (with_state s (before ++ (w ∷ after)) wg) ≡ r
ways_join before after w w' wg wg' s r q k =
    steps-append (way (length before) w) (ways (suc (length before)) after)
      (with_state s (before ++ (w ∷ after)) wg)
    ∙ ap (then_steps (ways (suc (length before)) after)) q
    ∙ (rw (length-at_end before w', append_assoc before (w' ∷ []) after) at k)

ways_end :
    (before after : List Stage) (wg : ℕ) (s : State)
    → s.closing ≡ true
    → (ws : List Stage) × (wg' : ℕ) × (total ws ≡ total before)
      × (steps (ways (length before) after) (with_state s (before ++ after) wg)
          ≡ some (with_state s ws wg'))
ways_end before [] wg s h =
    (before, wg, refl, steps-none _ ∙ ap (λ k. some (with_state s k wg)) (append-nil before))
ways_end before (w ∷ after) wg s h =
    let (w', wg', z, q) = way_ends before after s w wg h in
    let (ws, wg'', t, k) = ways_end (before ++ (w' ∷ [])) after wg' s h in
    (ws, wg'', t ∙ total-at_end before w' z, ways_join before after w w' wg wg' s _ q k)

length-ways : (n : ℕ) (ws : List Stage) → length (ways n ws) ≤ 3 * length ws
length-ways n [] = omega arith
length-ways n (registered ∷ ws) = omega (arith, length-ways (suc n) ws)
length-ways n (serving ∷ ws) = omega (arith, length-ways (suc n) ws)
length-ways n (leaving ∷ ws) = omega (arith, length-ways (suc n) ws)
length-ways n (hung_up ∷ ws) = omega (arith, length-ways (suc n) ws)
length-ways n (spawned ∷ ws) = omega (arith, length-ways (suc n) ws)
length-ways n (released ∷ ws) = omega (arith, length-ways (suc n) ws)
length-ways n (gone ∷ ws) = omega (arith, length-ways (suc n) ws)

from_result : {r : Option State} {s : State} → r ≡ some s → SoundResult r → Sound s
from_result q h = rw q at h

is_closing : (v : Shutdown) (c : Bool) → IsClosed v c → v ≡ polling → c ≡ true
is_closing v c h q = rw q at h

poll_now :
    (v : Shutdown) (s : State)
    → v ≡ polling
    → s.conns_wg ≡ 0
    → shutdown_step v drained s ≡ some (record s { locked = false; shutdown = drained })
poll_now v s q z = rw (q, z) refl

-- While Shutdown waits, with fewer than 2^30 goroutines, these can go on, each by itself and although Shutdown holds the lock, until Shutdown
-- can return no error.
pub ways_drain :
    (s : State)
    → Sound s
    → s.shutdown ≡ polling
    → length s.workers < 1073741824
    → (s' : State) × (steps (ways 0 s.workers ++ (poll ∷ [])) s ≡ some s') × (s'.shutdown ≡ drained)
unfolding step
ways_drain s h q b =
    let (ws, wg, t, k₀) =
      ways_end [] s.workers s.conns_wg s (is_closing s.shutdown s.closing h.1 q) in
    let k : steps (ways 0 s.workers) s ≡ some (with_state s ws wg) = k₀ in
    let n = length-ways 0 s.workers in
    let sound : Sound (with_state s ws wg) =
      from_result k (steps-SoundResult (ways 0 s.workers) s (omega arith) h) in
    let done : wg ≡ 0 = sound.0 ∙ ap (λ k. k % 4294967296) t in
    (
      record s { workers = ws; conns_wg = wg; locked = false; shutdown = drained },
      steps-append (ways 0 s.workers) (poll ∷ []) s
          ∙ ap (then_steps (poll ∷ [])) k
          ∙ one_more poll [] (with_state s ws wg) _
              (poll_now s.shutdown (with_state s ws wg) q done) (steps-none _),
      refl,
    )
