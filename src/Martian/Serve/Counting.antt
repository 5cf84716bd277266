-- ===== src/Martian/Serve/Counting.antt =====
-- internal/martian/proxy.go: what `connsWg` counts, and what a step of a goroutine does to it.
use forwarder.Base.{
  ℕ, zero, suc, ◌+◌, ◌%◌, ◌≤◌, ◌≡◌, refl, Bool, true, false, Option, none, some, List, [], ◌∷◌,
  ◌++◌, All, if◌then◌else◌, length, arith,
}
use forwarder.Martian.Serve.{
  Stage, spawned, registered, serving, leaving, hung_up, released, gone, Shutdown, not_called,
  polling, drained, expired, State, same_stage, move, with_workers,
}

-- Whether the counter counts a goroutine.
abbrev pub counted : Stage → ℕ
counted registered = 1
counted serving = 1
counted leaving = 1
counted hung_up = 1
counted s = 0

abbrev pub total : List Stage → ℕ
total [] = 0
total (s ∷ ss) = counted s + total ss

abbrev pub IsQuiet : Stage → Type 0
IsQuiet serving = ⊥
IsQuiet s = Unit

pub total-append : (ss : List Stage) (s : Stage) → total (ss ++ (s ∷ [])) ≡ total ss + counted s
total-append [] s = omega arith
total-append (x ∷ ss) s = omega (arith, total-append ss s)

pub total-length : (ss : List Stage) → total ss ≤ length ss
total-length [] = omega arith
total-length (registered ∷ ss) = omega (arith, total-length ss)
total-length (serving ∷ ss) = omega (arith, total-length ss)
total-length (leaving ∷ ss) = omega (arith, total-length ss)
total-length (hung_up ∷ ss) = omega (arith, total-length ss)
total-length (spawned ∷ ss) = omega (arith, total-length ss)
total-length (released ∷ ss) = omega (arith, total-length ss)
total-length (gone ∷ ss) = omega (arith, total-length ss)

pub same_stage-eq : (s t : Stage) → same_stage s t ≡ true → s ≡ t
same_stage-eq s t h = ground arith

-- What a goroutine's step does to the number of counted ones.
abbrev pub Moved : Stage → Stage → List Stage → Option (List Stage) → Type 0
Moved a b ss none = Unit
Moved a b ss (some ss') =
    (total ss' + counted a ≡ total ss + counted b)
    × (length ss' ≡ length ss)
    × ((All IsQuiet ss → IsQuiet b → All IsQuiet ss'))

pub move_head :
    (a b s : Stage) (ss : List Stage) (here : Bool)
    → (here ≡ true → s ≡ a)
    → Moved a b (s ∷ ss) (if here then some (b ∷ ss) else none)
move_head a b s ss true h = rw (h refl) (omega arith, refl, λ q k. (k, q.1))
move_head a b s ss false h = tt

pub move_tail :
    (a b s : Stage) (ss : List Stage) (r : Option (List Stage))
    → Moved a b ss r
    → Moved a b (s ∷ ss) (elim r [ none ↦ none | some ss' ↦ some (s ∷ ss') ])
move_tail a b s ss none m = tt
move_tail a b s ss (some ss') (t, l, q) = (omega arith, omega arith, λ h k. (h.0, q h.1 k))

pub move-Moved : (a b : Stage) (n : ℕ) (ss : List Stage) → Moved a b ss (move a b n ss)
unfolding move
move-Moved a b n [] = tt
move-Moved a b zero (s ∷ ss) = move_head a b s ss (same_stage s a) (same_stage-eq s a)
move-Moved a b (suc n) (s ∷ ss) = move_tail a b s ss (move a b n ss) (move-Moved a b n ss)

-- The state of the proxy at any time: `connsWg` counts the goroutines that registered and did not yet sign off, the proxy is closing as soon as
-- Shutdown has been called, and once it has returned no error nobody serves a connection.
abbrev pub IsDrained : Shutdown → List Stage → Type 0
IsDrained drained ws = All IsQuiet ws
IsDrained v ws = Unit

abbrev pub IsClosed : Shutdown → Bool → Type 0
IsClosed not_called c = Unit
IsClosed v c = c ≡ true

abbrev pub Sound : State → Type 0
Sound s =
    (s.conns_wg ≡ total s.workers % 4294967296)
    × IsClosed s.shutdown s.closing
    × IsDrained s.shutdown s.workers

abbrev pub SoundStep : ℕ → Option State → Type 0
SoundStep n none = Unit
SoundStep n (some s) = Sound s × (length s.workers ≤ n)

-- A goroutine goes on, with a change of the counter.
pub IsDrained-move :
    (v : Shutdown) (b : Stage) (ss ss' : List Stage)
    → (All IsQuiet ss → IsQuiet b → All IsQuiet ss')
    → (v ≡ drained → IsQuiet b)
    → IsDrained v ss
    → IsDrained v ss'
IsDrained-move not_called b ss ss' f g h = tt
IsDrained-move polling b ss ss' f g h = tt
IsDrained-move drained b ss ss' f g h = f h (g refl)
IsDrained-move expired b ss ss' f g h = tt

pub with_workers-SoundStep :
    (a b : Stage) (s : State) (r : Option (List Stage)) (wg : ℕ) (cs : List ℕ)
    → Moved a b s.workers r
    → ((t : ℕ) → t + counted a ≡ total s.workers + counted b → wg ≡ t % 4294967296)
    → (s.shutdown ≡ drained → IsQuiet b)
    → Sound s
    → SoundStep (length s.workers) (with_workers (record s { conns = cs; conns_wg = wg }) r)
with_workers-SoundStep a b s none wg cs m f g h = tt
with_workers-SoundStep a b s (some ws) wg cs (t, l, q) f g (x, y, z) =
    ((f (total ws) t, y, IsDrained-move s.shutdown b s.workers ws q g z), omega arith)
