-- ===== src/Proxy/Life/Run.antt =====
-- http_proxy.go, `run`, over an `errgroup.Group`, and runctx/runctx.go: goroutines that are waited for.
-- What a goroutine does elsewhere is an outcome that the steps take as given. The context is canceled and has no deadline.
pub mod Waits
use forwarder.Base.{
  ℕ, zero, suc, ◌-◌, ◌≡◌, ◌≢◌, Bool, true, false, Option, none, some, List, [], ◌∷◌, ◌++◌,
  if◌then◌else◌,
}

pub data RunError (E : Type 0) : Type 0 where
  canceled : RunError E
  net_closed : RunError E
  other : E → RunError E

-- An `errgroup.Group`: the functions that have not returned, and the first error.
pub record Group (E : Type 0) : Type 0 where
  pub pending : ℕ
  pub first : Option (RunError E)

module _ {E : Type 0} where
  abbrev pub or_first : Option (RunError E) → Option (RunError E) → Option (RunError E)
  or_first none e = e
  or_first (some old) e = some old

  -- A function of the group returns.
  abbrev pub returned : Option (RunError E) → Group E → Group E
  returned e g = record { pending = g.pending - 1; first = or_first g.first e }

  -- `if errors.Is(err, net.ErrClosed) { err = nil }`
  abbrev pub unless_closed : Option (RunError E) → Option (RunError E)
  unless_closed none = none
  unless_closed (some canceled) = some canceled
  unless_closed (some net_closed) = none
  unless_closed (some (other e)) = some (other e)

-- What `run` does to the proxy.
pub data Deed : Type 0 where
  close_listeners shut_down close_connections close_idle : Deed

-- How far the first goroutine is: before the context is done, behind each call of the function, and when it has returned.
pub data Stopping : Type 0 where
  waits closed_listeners shutdown_failed shut_down_or_closed has_stopped : Stopping

abbrev pub after_shutdown : Bool → Stopping
after_shutdown true = shut_down_or_closed
after_shutdown false = shutdown_failed

abbrev pub idle_closed : Bool → List Deed
idle_closed true = close_idle ∷ []
idle_closed false = []

-- Whether the context is done, how far the first goroutine is and what it did, how many listeners are served, which errors
-- serving them had, in order, and the group.
pub record RunState (E : Type 0) : Type 0 where
  pub is_done : Bool
  pub phase : Stopping
  pub deeds : List Deed
  pub serving : ℕ
  pub faults : List (RunError E)
  pub group : Group E

module _ {E : Type 0} where
  -- One goroutine that waits for the context, and one for each listener.
  abbrev pub started : ℕ → RunState E
  started n = record {
    is_done = false;
    phase = waits;
    deeds = [];
    serving = n;
    faults = [];
    group = record { pending = suc n; first = none };
  }

  abbrev pub done : RunState E → RunState E
  done s = record s { is_done = true }

  -- A call of the first goroutine, with what it leads to.
  abbrev pub does : List Deed → Stopping → RunState E → RunState E
  does ds next s = record s { deeds = s.deeds ++ ds; phase = next }

  -- `return ctxErr`, behind the idle connections of a transport that has them.
  abbrev pub stopped : Bool → RunState E → RunState E
  stopped has_idle s = record (does (idle_closed has_idle) has_stopped s) {
    group = returned (some canceled) s.group;
  }

  abbrev pub as_list : Option (RunError E) → List (RunError E)
  as_list none = []
  as_list (some e) = e ∷ []

  abbrev pub served : Option (RunError E) → RunState E → RunState E
  served e s = record s {
    serving = s.serving - 1;
    faults = s.faults ++ as_list (unless_closed e);
    group = returned (unless_closed e) s.group;
  }

  -- The first goroutine goes on by one call at a time; what `Shutdown` gives and the kind of the transport are given.
  pub data RunStep (s : RunState E) : RunState E → Type 0 where
    cancel : RunStep s (done s)
    stop_listening :
        s.is_done ≡ true
        → s.phase ≡ waits
        → RunStep s (does (close_listeners ∷ []) closed_listeners s)
    shut :
        (graceful : Bool)
        → s.phase ≡ closed_listeners
        → RunStep s (does (shut_down ∷ []) (after_shutdown graceful) s)
    close :
        s.phase ≡ shutdown_failed → RunStep s (does (close_connections ∷ []) shut_down_or_closed s)
    stop : (has_idle : Bool) → s.phase ≡ shut_down_or_closed → RunStep s (stopped has_idle s)
    serve_returns : (e : Option (RunError E)) → s.serving ≢ 0 → RunStep s (served e s)

  pub data Running (n : ℕ) : RunState E → Type 0 where
    start : Running n (started n)
    go_on : {s t : RunState E} → Running n s → RunStep s t → Running n t

-- A `runctx.Group` that runs: whether the goroutine that waits for signals is there, whether the group's context is done, and
-- the group. Its functions are done with the context, or fail on their own.
pub record ContextGroup (E : Type 0) : Type 0 where
  pub watches : Bool
  pub is_done : Bool
  pub functions : ℕ
  pub group : Group E

module _ {E : Type 0} where
  -- `RunContext` when all the goroutines are started
  abbrev pub launched : Bool → ℕ → ContextGroup E
  launched notify n = record {
    watches = notify;
    is_done = false;
    functions = n;
    group = record { pending = if notify then suc n else n; first = none };
  }

  -- The context of an errgroup is done once a function fails.
  abbrev pub done_after : Bool → Option (RunError E) → Bool
  done_after is_done none = is_done
  done_after is_done (some e) = true

  abbrev pub interrupted : ContextGroup E → ContextGroup E
  interrupted s = record s { is_done = true }

  abbrev pub unwatched : ContextGroup E → ContextGroup E
  unwatched s = record s { watches = false; group = returned none s.group }

  abbrev pub function_returned : Option (RunError E) → ContextGroup E → ContextGroup E
  function_returned e s = record s {
    is_done = done_after s.is_done e;
    functions = s.functions - 1;
    group = returned e s.group;
  }

  pub data GroupStep (s : ContextGroup E) : ContextGroup E → Type 0 where
    signal : GroupStep s (interrupted s)
    watcher_returns : s.watches ≡ true → s.is_done ≡ true → GroupStep s (unwatched s)
    function_returns :
        (e : Option (RunError E)) → s.functions ≢ 0 → GroupStep s (function_returned e s)

  pub data GroupRun (notify : Bool) (n : ℕ) : ContextGroup E → Type 0 where
    launch : GroupRun notify n (launched notify n)
    proceed : {s t : ContextGroup E} → GroupRun notify n s → GroupStep s t → GroupRun notify n t

  -- What `RunContext` returns for the error of `Wait`.
  abbrev pub run_result : Option (RunError E) → Option (RunError E)
  run_result none = none
  run_result (some canceled) = none
  run_result (some net_closed) = some net_closed
  run_result (some (other e)) = some (other e)
