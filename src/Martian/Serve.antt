-- ===== src/Martian/Serve.antt =====
-- internal/martian/proxy.go: the goroutines of a proxy as interleaved actions: Serve, a `handleLoop` for each accepted
-- connection, Shutdown and Close. An action whose goroutine has to wait, or that is not the next one of its goroutine, gives none.
-- Durations are numbers of nanoseconds.
pub mod Counting
pub mod Drained
pub mod Progress
use forwarder.Base.{
  ℕ, zero, suc, ◌+◌, ◌*◌, ◌/◌, ◌%◌, ◌≡◌, Bool, true, false, not, ◌&&◌, ◌||◌, Option, none, some,
  List, [], ◌∷◌, ◌++◌, ltb, ◌==◌, if◌then◌else◌, length,
}

-- Where a goroutine of `handleLoop` stands: before `conns` knows its connection, before it looks whether the proxy is closing, in
-- its loop, before the deferred `conn.Close`, before `connsWg.Add(-1)`, before the deletion from `conns`, and at its end.
pub data Stage : Type 0 where
  spawned registered serving leaving hung_up released gone : Stage

-- Where `Serve` stands: before it looks whether the proxy is closing, in Accept, and at its end.
pub data Serving : Type 0 where
  looking accepting stopped : Serving

pub data Shutdown : Type 0 where
  not_called polling drained expired : Shutdown

-- The proxy and its goroutines; a connection is the place of its goroutine in `workers`. `locked` is whether Shutdown holds
-- `connsMu`: every other holder gives it back in the same action. `hung` are the connections that Close closed.
pub record State : Type 0 where
  pub serve : Serving
  pub delay : ℕ
  pub closing : Bool
  pub locked : Bool
  pub conns : List ℕ
  pub conns_wg : ℕ
  pub workers : List Stage
  pub shutdown : Shutdown
  pub hung : List ℕ

pub data Action : Type 0 where
  look accept accept_temporary accept_failed : Action
  register check finish hang_up release delete : ℕ → Action
  begin_shutdown poll expire close_proxy : Action

abbrev pub initial : State
initial = record {
  serve = looking;
  delay = 0;
  closing = false;
  locked = false;
  conns = [];
  conns_wg = 0;
  workers = [];
  shutdown = not_called;
  hung = [];
}

-- The time that `Serve` sleeps after a temporary error.
abbrev pub next_delay : ℕ → ℕ
next_delay zero = 5000000
next_delay (suc n) = if ltb 1000000000 (suc n * 2) then 1000000000 else suc n * 2

-- `nextPollInterval`, with the jitter from math/rand: the interval and the next base.
abbrev pub next_poll_interval : ℕ → ℕ → ℕ × ℕ
next_poll_interval base jitter =
    (base + jitter, if ltb 500000000 (base * 2) then 500000000 else base * 2)

abbrev pub same_stage : Stage → Stage → Bool
same_stage spawned spawned = true
same_stage registered registered = true
same_stage serving serving = true
same_stage leaving leaving = true
same_stage hung_up hung_up = true
same_stage released released = true
same_stage gone gone = true
same_stage s t = false

-- A goroutine goes from a stage to another one.
unfoldable pub move : Stage → Stage → ℕ → List Stage → Option (List Stage)
move a b n [] = none
move a b zero (s ∷ ss) = if same_stage s a then some (b ∷ ss) else none
move a b (suc n) (s ∷ ss) = elim (move a b n ss) [ none ↦ none | some ss' ↦ some (s ∷ ss') ]

abbrev pub with_workers : State → Option (List Stage) → Option State
with_workers s none = none
with_workers s (some ws) = some (record s { workers = ws })

-- `delete(p.conns, conn)`
abbrev pub without : ℕ → List ℕ → List ℕ
without n [] = []
without n (c ∷ cs) = if c == n then without n cs else c ∷ without n cs

-- The counter is an atomic.Int32, here as its 32 bits.
abbrev pub add_wg : ℕ → State → State
add_wg k s = record s { conns_wg = (s.conns_wg + k) % 4294967296 }

-- The check at the top of the loop of `Serve`.
abbrev pub look_step : Serving → State → Option State
look_step looking s = some (record s { serve = if s.closing then stopped else accepting })
look_step v s = none

abbrev pub after_accept : Serving → State → Option State
after_accept accepting s = some s
after_accept v s = none

abbrev pub shutdown_step : Shutdown → Shutdown → State → Option State
shutdown_step not_called polling s =
    if s.locked then none else some (record s { closing = true; locked = true; shutdown = polling })
shutdown_step polling drained s =
    if s.conns_wg == 0 then some (record s { locked = false; shutdown = drained }) else none
shutdown_step polling expired s = some (record s { locked = false; shutdown = expired })
shutdown_step a b s = none

-- `Close`
abbrev pub close_step : State → Option State
close_step s =
    if s.locked then none else some (record s { closing = true; hung = s.conns ++ s.hung })

unfoldable pub step : Action → State → Option State
step look s = look_step s.serve s
step accept s =
    after_accept s.serve
      (record s { serve = looking; delay = 0; workers = s.workers ++ (spawned ∷ []) })
step accept_temporary s =
    after_accept s.serve (record s { serve = looking; delay = next_delay s.delay })
step accept_failed s = after_accept s.serve (record s { serve = stopped })
step (register n) s =
    if s.locked
    then none
    else with_workers (add_wg 1 (record s { conns = n ∷ s.conns }))
        (move spawned registered n s.workers)
step (check n) s =
    with_workers s (move registered (if s.closing then leaving else serving) n s.workers)
step (finish n) s = with_workers s (move serving leaving n s.workers)
step (hang_up n) s = with_workers s (move leaving hung_up n s.workers)
step (release n) s = with_workers (add_wg 4294967295 s) (move hung_up released n s.workers)
step (delete n) s =
    if s.locked
    then none
    else with_workers (record s { conns = without n s.conns }) (move released gone n s.workers)
step begin_shutdown s = shutdown_step s.shutdown polling s
step poll s = shutdown_step s.shutdown drained s
step expire s = shutdown_step s.shutdown expired s
step close_proxy s = close_step s

-- Some actions, one after the other.
unfoldable pub steps : List Action → State → Option State
steps [] s = some s
steps (a ∷ rest) s = elim (step a s) [ none ↦ none | some s' ↦ steps rest s' ]
