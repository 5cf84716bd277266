-- ===== src/Net/Conntrack/Counts.antt =====
-- conntrack/conntrack.go: what the counters say.
use forwarder.Base.{
  ℕ, suc, ◌+◌, ◌%◌, ◌<◌, ◌≡◌, refl, Bool, true, false, List, [], ◌∷◌, if◌then◌else◌, arith,
}
use forwarder.Net.Conntrack.{
  Tracked, new_tracked, Io, read, write, read_from, close, add_rx, add_tx, close_once, io, ios,
}

-- The bytes that the calls moved in each direction, and whether one of them was Close.
abbrev pub bytes_in : List Io → ℕ
bytes_in [] = 0
bytes_in (read n ∷ xs) = n + bytes_in xs
bytes_in (x ∷ xs) = bytes_in xs

abbrev pub bytes_out : List Io → ℕ
bytes_out [] = 0
bytes_out (write n ∷ xs) = n + bytes_out xs
bytes_out (read_from n ∷ xs) = n + bytes_out xs
bytes_out (x ∷ xs) = bytes_out xs

abbrev pub has_close : List Io → Bool
has_close [] = false
has_close (close ∷ xs) = true
has_close (x ∷ xs) = has_close xs

abbrev Counts : Tracked → List Io → Tracked → Type 0
Counts c xs c' =
    (c'.rx % 18446744073709551616 ≡ (c.rx + bytes_in xs) % 18446744073709551616)
    × (c'.tx % 18446744073709551616 ≡ (c.tx + bytes_out xs) % 18446744073709551616)

ios-Counts : (xs : List Io) (c : Tracked) → Counts c xs (ios xs c)
unfolding ios io
ios-Counts [] c = (omega arith, omega arith)
ios-Counts (read n ∷ xs) c = let (a, b) = ios-Counts xs (add_rx n c) in (omega arith, omega arith)
ios-Counts (write n ∷ xs) c = let (a, b) = ios-Counts xs (add_tx n c) in (omega arith, omega arith)
ios-Counts (read_from n ∷ xs) c =
    let (a, b) = ios-Counts xs (add_tx n c) in (omega arith, omega arith)
ios-Counts (close ∷ xs) c = let (a, b) = ios-Counts xs (close_once c) in ground (arith, a, b)

-- The counters stay within 64 bits.
abbrev Bounded : Tracked → Type 0
Bounded c = (c.rx < 18446744073709551616) × (c.tx < 18446744073709551616)

ios-Bounded : (xs : List Io) (c : Tracked) → Bounded c → Bounded (ios xs c)
unfolding ios io
ios-Bounded [] c h = h
ios-Bounded (read n ∷ xs) c h = ios-Bounded xs (add_rx n c) (omega arith, h.1)
ios-Bounded (write n ∷ xs) c h = ios-Bounded xs (add_tx n c) (h.0, omega arith)
ios-Bounded (read_from n ∷ xs) c h = ios-Bounded xs (add_tx n c) (h.0, omega arith)
ios-Bounded (close ∷ xs) c h =
    ios-Bounded xs (close_once c) (ground (arith, h.0), ground (arith, h.1))

ios-closed :
    (xs : List Io) (c : Tracked) → c.once ≡ true → (ios xs c).on_close_calls ≡ c.on_close_calls
unfolding ios io
ios-closed [] c h = refl
ios-closed (read n ∷ xs) c h = ios-closed xs (add_rx n c) h
ios-closed (write n ∷ xs) c h = ios-closed xs (add_tx n c) h
ios-closed (read_from n ∷ xs) c h = ios-closed xs (add_tx n c) h
ios-closed (close ∷ xs) c h = let k = ios-closed xs c h in ground (arith, k, h)

ios-open :
    (xs : List Io) (c : Tracked)
    → c.once ≡ false
    → (ios xs c).on_close_calls ≡ (if has_close xs then suc c.on_close_calls else c.on_close_calls)
unfolding ios io
ios-open [] c h = refl
ios-open (read n ∷ xs) c h = ios-open xs (add_rx n c) h
ios-open (write n ∷ xs) c h = ios-open xs (add_tx n c) h
ios-open (read_from n ∷ xs) c h = ios-open xs (add_tx n c) h
ios-open (close ∷ xs) c h =
    let k = ios-closed xs (record c { once = true; on_close_calls = suc c.on_close_calls }) refl in
    ground (arith, k, h)

-- After any calls on a new connection the counters are the bytes that were read, and the bytes that were written or read from a
-- reader, modulo 2^64, and the function for its closing was called once if it was closed, however often, and else not at all.
pub ios_counted :
    (xs : List Io)
    → ((ios xs new_tracked).rx ≡ bytes_in xs % 18446744073709551616)
      × ((ios xs new_tracked).tx ≡ bytes_out xs % 18446744073709551616)
      × ((ios xs new_tracked).on_close_calls ≡ (if has_close xs then 1 else 0))
ios_counted xs =
    let (a, b) = ios-Counts xs new_tracked in
    let (c, d) = ios-Bounded xs new_tracked (omega arith, omega arith) in
    (omega arith, omega arith, ios-open xs new_tracked refl)
