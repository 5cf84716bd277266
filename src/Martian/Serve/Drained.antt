-- ===== src/Martian/Serve/Drained.antt =====
-- internal/martian/proxy.go: what Shutdown promises when it returns no error.
use forwarder.Base.{
  ℕ, suc, ◌+◌, ◌%◌, ◌≤◌, ◌<◌, ◌≡◌, refl, sym, ap, ◌∙◌, Bool, true, false, Option, none, some, List,
  [], ◌∷◌, ◌++◌, All, ◌==◌, if◌then◌else◌, length, length-append, arith,
}
use forwarder.Martian.Serve.{
  Stage, spawned, registered, serving, leaving, hung_up, released, gone, Serving, looking,
  accepting, stopped, Shutdown, not_called, polling, drained, expired, State, Action, look, accept,
  accept_temporary, accept_failed, register, check, finish, hang_up, release, delete,
  begin_shutdown, poll, expire, close_proxy, initial, look_step, after_accept, shutdown_step, step,
  steps,
}
use forwarder.Martian.Serve.Counting.{
  counted, total, IsQuiet, total-append, total-length, move-Moved, IsDrained, IsClosed, Sound,
  SoundStep, with_workers-SoundStep,
}

weaken : (n m : ℕ) (r : Option State) → n ≤ m → SoundStep n r → SoundStep m r
weaken n m none h k = tt
weaken n m (some s) h (k, l) = (k, omega arith)

locked_or :
    (locked : Bool) (n : ℕ) (r : Option State)
    → SoundStep n r
    → SoundStep n (if locked then none else r)
locked_or true n r h = tt
locked_or false n r h = h

same_count : (w t u k : ℕ) → w ≡ u % 4294967296 → t + k ≡ u + k → w ≡ t % 4294967296
same_count w t u k h q = rw h (ap (λ n. n % 4294967296) (omega arith))

pub not_both : {P : Type 0} → false ≡ true → P
not_both h = cc

wg_up : (w t u : ℕ) → w ≡ u % 4294967296 → t + 0 ≡ u + 1 → (w + 1) % 4294967296 ≡ t % 4294967296
wg_up w t u h q = omega arith

wg_down :
    (w t u : ℕ)
    → w ≡ u % 4294967296
    → t + 1 ≡ u + 0
    → (w + 4294967295) % 4294967296 ≡ t % 4294967296
wg_down w t u h q = omega arith

counted_checked : (closing : Bool) → counted (if closing then leaving else serving) ≡ 1
counted_checked true = refl
counted_checked false = refl

IsQuiet-checked :
    (v : Shutdown) (closing : Bool)
    → IsClosed v closing
    → v ≡ drained
    → IsQuiet (if closing then leaving else serving)
IsQuiet-checked v true h q = tt
IsQuiet-checked v false h q = not_both (rw q at h)

IsQuiet-empty : (ws : List Stage) → total ws ≡ 0 → All IsQuiet ws
IsQuiet-empty [] h = tt
IsQuiet-empty (spawned ∷ ws) h = (tt, IsQuiet-empty ws (omega arith))
IsQuiet-empty (released ∷ ws) h = (tt, IsQuiet-empty ws (omega arith))
IsQuiet-empty (gone ∷ ws) h = (tt, IsQuiet-empty ws (omega arith))
IsQuiet-empty (registered ∷ ws) h = absurd (omega arith)
IsQuiet-empty (serving ∷ ws) h = absurd (omega arith)
IsQuiet-empty (leaving ∷ ws) h = absurd (omega arith)
IsQuiet-empty (hung_up ∷ ws) h = absurd (omega arith)

IsDrained-append :
    (v : Shutdown) (ws : List Stage) → IsDrained v ws → IsDrained v (ws ++ (spawned ∷ []))
IsDrained-append not_called ws h = tt
IsDrained-append polling ws h = tt
IsDrained-append expired ws h = tt
IsDrained-append drained [] h = (tt, tt)
IsDrained-append drained (w ∷ ws) h = (h.0, IsDrained-append drained ws h.1)

IsClosed-now : (v : Shutdown) → IsClosed v true
IsClosed-now not_called = tt
IsClosed-now polling = refl
IsClosed-now drained = refl
IsClosed-now expired = refl

accept-Sound :
    (v : Serving) (n : ℕ) (s : State) → SoundStep n (some s) → SoundStep n (after_accept v s)
accept-Sound looking n s h = tt
accept-Sound accepting n s h = h
accept-Sound stopped n s h = tt

look-Sound : (v : Serving) (s : State) → Sound s → SoundStep (length s.workers) (look_step v s)
look-Sound looking s h = (h, omega arith)
look-Sound accepting s h = tt
look-Sound stopped s h = tt

begin-Sound :
    (v : Shutdown) (s : State) → Sound s → SoundStep (length s.workers) (shutdown_step v polling s)
begin-Sound not_called s (x, y, z) = locked_or s.locked _ (some _) ((x, refl, tt), omega arith)
begin-Sound polling s h = tt
begin-Sound drained s h = tt
begin-Sound expired s h = tt

expire-Sound :
    (v : Shutdown) (s : State)
    → v ≡ s.shutdown
    → Sound s
    → SoundStep (length s.workers) (shutdown_step v expired s)
expire-Sound not_called s q h = tt
expire-Sound polling s q (x, y, z) = ((x, rw (sym q) at y, tt), omega arith)
expire-Sound drained s q h = tt
expire-Sound expired s q h = tt

all_released :
    (s : State) (zero_wg : Bool)
    → (zero_wg ≡ true → s.conns_wg ≡ 0)
    → length s.workers < 4294967296
    → s.closing ≡ true
    → Sound s
    → SoundStep
        (length s.workers)
        (if zero_wg then some (record s { locked = false; shutdown = drained }) else none)
all_released s true f b y (x, y', z) =
    let n = total-length s.workers in
    let w = f refl in ((x, y, IsQuiet-empty s.workers (omega arith)), omega arith)
all_released s false f b y h = tt

poll-Sound :
    (v : Shutdown) (s : State)
    → v ≡ s.shutdown
    → length s.workers < 4294967296
    → Sound s
    → SoundStep (length s.workers) (shutdown_step v drained s)
poll-Sound not_called s q b h = tt
poll-Sound polling s q b h =
    all_released s (s.conns_wg == 0) (λ k. ground arith) b (rw (sym q) at h.1) h
poll-Sound drained s q b h = tt
poll-Sound expired s q b h = tt

step-SoundStep :
    (a : Action) (s : State)
    → length s.workers < 4294967296
    → Sound s
    → SoundStep (suc (length s.workers)) (step a s)
unfolding step
step-SoundStep look s b h = weaken _ _ _ (omega arith) (look-Sound s.serve s h)
step-SoundStep accept s b (x, y, z) = accept-Sound s.serve _ _ (
  (
    rw (total-append s.workers spawned) (same_count _ _ (total s.workers) 0 x (omega arith)),
    y,
    IsDrained-append s.shutdown s.workers z,
  ),
  rw (length-append s.workers (spawned ∷ [])) (omega arith),
)
step-SoundStep accept_temporary s b h = accept-Sound s.serve _ _ (h, omega arith)
step-SoundStep accept_failed s b h = accept-Sound s.serve _ _ (h, omega arith)
step-SoundStep (register n) s b h = locked_or s.locked _ _ (
    weaken _ _ _ (omega arith) (
      with_workers-SoundStep spawned registered s _ _ _ (move-Moved spawned registered n s.workers)
        (λ t q. wg_up _ t _ h.0 q) (λ q. tt) h))
step-SoundStep (check n) s b h = weaken _ _ _ (omega arith) (
    with_workers-SoundStep registered (if s.closing then leaving else serving) s _ _ _
      (move-Moved _ _ n s.workers)
      (λ t q.
        same_count _ t _ 1 h.0 (q ∙ ap (λ k. total s.workers + k) (counted_checked s.closing)))
      (IsQuiet-checked s.shutdown s.closing h.1) h)
step-SoundStep (finish n) s b h = weaken _ _ _ (omega arith) (
    with_workers-SoundStep serving leaving s _ _ _ (move-Moved _ _ n s.workers)
      (λ t q. same_count _ t _ 1 h.0 q) (λ q. tt) h)
step-SoundStep (hang_up n) s b h = weaken _ _ _ (omega arith) (
    with_workers-SoundStep leaving hung_up s _ _ _ (move-Moved _ _ n s.workers)
      (λ t q. same_count _ t _ 1 h.0 q) (λ q. tt) h)
step-SoundStep (release n) s b h = weaken _ _ _ (omega arith) (
    with_workers-SoundStep hung_up released s _ _ _ (move-Moved _ _ n s.workers)
      (λ t q. wg_down _ t _ h.0 q) (λ q. tt) h)
step-SoundStep (delete n) s b h = locked_or s.locked _ _ (
    weaken _ _ _ (omega arith) (
      with_workers-SoundStep released gone s _ _ _ (move-Moved _ _ n s.workers)
        (λ t q. same_count _ t _ 0 h.0 q) (λ q. tt) h))
step-SoundStep begin_shutdown s b h = weaken _ _ _ (omega arith) (begin-Sound s.shutdown s h)
step-SoundStep poll s b h = weaken _ _ _ (omega arith) (poll-Sound s.shutdown s refl b h)
step-SoundStep expire s b h = weaken _ _ _ (omega arith) (expire-Sound s.shutdown s refl h)
step-SoundStep close_proxy s b (x, y, z) =
    locked_or s.locked _ (some _) ((x, IsClosed-now s.shutdown, z), omega arith)

abbrev pub SoundResult : Option State → Type 0
SoundResult none = Unit
SoundResult (some s) = Sound s

rest-SoundResult :
    (n : ℕ) (rest : State → Option State) (r : Option State)
    → SoundStep n r
    → ((s : State) → Sound s → length s.workers ≤ n → SoundResult (rest s))
    → SoundResult (elim r [ none ↦ none | some s ↦ rest s ])
rest-SoundResult n rest none h f = tt
rest-SoundResult n rest (some s) (h, k) f = f s h k

pub steps-SoundResult :
    (rest : List Action) (s : State)
    → length s.workers + length rest < 4294967296
    → Sound s
    → SoundResult (steps rest s)
unfolding steps
steps-SoundResult [] s b h = h
steps-SoundResult (a ∷ rest) s b h =
    rest-SoundResult (suc (length s.workers)) (steps rest) (step a s)
      (step-SoundStep a s (omega arith) h) (λ s' h' l. steps-SoundResult rest s' (omega arith) h')

-- Whatever the goroutines of a proxy do, in fewer than 2^32 actions: `connsWg` is the number of the goroutines that registered
-- and did not yet sign off, the proxy is closing as soon as Shutdown has been called, and from the moment that Shutdown returned no
-- error no connection is served any more.
pub steps-Sound :
    (rest : List Action) (s : State)
    → length rest < 4294967296
    → steps rest initial ≡ some s
    → Sound s
steps-Sound rest s b q =
    let h = steps-SoundResult rest initial (omega arith) (refl, tt, tt) in rw q at h
