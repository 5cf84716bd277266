-- ===== src/Net/Conntrack.antt =====
-- conntrack/conntrack.go: a connection that counts its bytes in atomic.Uint64 counters and calls a function when it is closed. What
-- the connection below returns is a part of each call.
pub mod Counts
use forwarder.Base.{ℕ, zero, suc, ◌+◌, ◌%◌, ◌^◌, Bool, true, false, List, [], ◌∷◌, if◌then◌else◌}

-- `Observer` and `closeListener`: the counters, whether `once` has run, and how often `onClose` was called.
pub record Tracked : Type 0 where
  pub rx : ℕ
  pub tx : ℕ
  pub once : Bool
  pub on_close_calls : ℕ

abbrev pub new_tracked : Tracked
new_tracked = record { rx = 0; tx = 0; once = false; on_close_calls = 0 }

-- A call, with the number of bytes that the connection below moved, also when it failed.
pub data Io : Type 0 where
  read write read_from : ℕ → Io
  close : Io

-- `addRx` and `addTx`
abbrev pub add_rx : ℕ → Tracked → Tracked
add_rx n c = record c { rx = (c.rx + n) % 2 ^ 64 }

abbrev pub add_tx : ℕ → Tracked → Tracked
add_tx n c = record c { tx = (c.tx + n) % 2 ^ 64 }

-- `closeListener.Close`
abbrev pub close_once : Tracked → Tracked
close_once c = if c.once then c else record c { once = true; on_close_calls = suc c.on_close_calls }

unfoldable pub io : Io → Tracked → Tracked
io (read n) c = add_rx n c
io (write n) c = add_tx n c
io (read_from n) c = add_tx n c
io close c = close_once c

-- Some calls, one after the other.
unfoldable pub ios : List Io → Tracked → Tracked
ios [] c = c
ios (x ∷ xs) c = ios xs (io x c)

-- `Builder`: what is wrapped around a connection, outermost first.
pub data Wrapper : Type 0 where
  counting closing : Wrapper

abbrev pub build : Bool → Bool → List Wrapper
build true true = counting ∷ closing ∷ []
build true false = counting ∷ []
build false true = closing ∷ []
build false false = []
