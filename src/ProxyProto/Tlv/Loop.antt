-- ===== src/ProxyProto/Tlv/Loop.antt =====
-- proxyproto/proxy.go, the loop of `ParseTLVs`: that it ends, and what its offsets reach.
use forwarder.Base.{
  ℕ, zero, suc, ◌+◌, ◌≤◌, ◌<◌, ◌≡◌, ◌≢◌, refl, ◌∙◌, ◌/◌, ◌%◌, [], ◌∷◌, ◌++◌, append-nil, Bytes, ok,
  err, length, le→ltb, lt→ltb, length-append, take, drop, get_or, get_or-append_at,
  drop-append_past, take-append, arith,
}
use forwarder.ProxyProto.Header.{be16, be16-div-mod}
use forwarder.ProxyProto.Tlv.{out_of_fuel, Tlvs, set_tlv, tlv_loop, parse_tlvs}

tlv_loop-ne-out_of_fuel :
    (fuel : ℕ) (raw : Bytes) (offset : ℕ) (m : Tlvs)
    → length raw ≤ fuel + offset
    → tlv_loop (suc fuel) raw offset m ≢ err out_of_fuel
unfolding tlv_loop
tlv_loop-ne-out_of_fuel zero raw offset m h = ground arith
tlv_loop-ne-out_of_fuel (suc fuel) raw offset m h =
    let len = be16 (get_or raw (offset + 1) 0) (get_or raw (offset + 2) 0) in
    let m' = set_tlv (get_or raw offset 0) (take len (drop (offset + 3) raw)) m in
    ground (arith, tlv_loop-ne-out_of_fuel fuel raw (offset + (offset + 3 + len)) m')

-- The loop ends by its test: its fuel never runs out.
pub parse_tlvs-ne-out_of_fuel : (raw : Bytes) → parse_tlvs raw ≢ err out_of_fuel
unfolding parse_tlvs
parse_tlvs-ne-out_of_fuel raw = tlv_loop-ne-out_of_fuel (length raw) raw 0 [] (omega arith)

-- One value as the protocol lays it out.
abbrev pub tlv : ℕ → Bytes → Bytes
tlv kind v = kind ∷ (length v / 256) ∷ (length v % 256) ∷ v

module _ (pre : Bytes) (kind : ℕ) (v post : Bytes) where
  raw_at : Bytes
  raw_at = pre ++ (tlv kind v ++ post)

  length-raw_at : length raw_at ≡ length pre + 3 + length v + length post
  unfolding raw_at
  length-raw_at = omega (arith, length-append pre (tlv kind v ++ post), length-append v post)

  -- A round that stands at the front of a value takes that value.
  tlv_loop-step :
      (fuel offset : ℕ) (m : Tlvs)
      → offset ≡ length pre
      → 0 < length v + length post
      → tlv_loop (suc fuel) (pre ++ (tlv kind v ++ post)) offset m
        ≡ tlv_loop fuel
            (pre ++ (tlv kind v ++ post))
            (offset + (offset + 3 + length v))
            (set_tlv kind v m)
  unfolding tlv_loop raw_at
  tlv_loop-step fuel offset m at some_left = rw (
    lt→ltb (offset + 3) (length raw_at) (omega (arith, length-raw_at)),
    get_or-append_at pre (tlv kind v ++ post) offset 0 0 (omega arith),
    get_or-append_at pre (tlv kind v ++ post) (offset + 1) 1 0 (omega arith),
    get_or-append_at pre (tlv kind v ++ post) (offset + 2) 2 0 (omega arith),
    be16-div-mod (length v),
    drop-append_past pre (tlv kind v ++ post) (offset + 3) 3 (omega arith),
    take-append v post,
    le→ltb (length raw_at) (offset + 3 + length v) (omega (arith, length-raw_at)),
  )

-- The loop stops where no value is left to read.
tlv_loop-stop :
    (fuel : ℕ) (raw : Bytes) (offset : ℕ) (m : Tlvs)
    → length raw ≤ offset + 3
    → tlv_loop (suc fuel) raw offset m ≡ ok m
unfolding tlv_loop
tlv_loop-stop fuel raw offset m h = rw (le→ltb (offset + 3) (length raw) h)

module _ (k1 : ℕ) (v1 : Bytes) (k2 : ℕ) (v2 : Bytes) where
  -- The first two values are read, and then the loop goes on from an offset that counts the first
  -- one twice.
  tlv_loop_twice :
      (fuel : ℕ) (post : Bytes)
      → 0 < length v2 + length post
      → let raw = tlv k1 v1 ++ (tlv k2 v2 ++ post) in
        tlv_loop (suc (suc fuel)) raw 0 []
        ≡ tlv_loop fuel raw
            ((3 + length v1) + ((3 + length v1) + 3 + length v2))
            (set_tlv k2 v2 (set_tlv k1 v1 []))
  tlv_loop_twice fuel post some_left =
      tlv_loop-step [] k1 v1 (tlv k2 v2 ++ post) (suc fuel) 0 [] refl (omega arith)
      ∙ (let e : 0 + (0 + 3 + length v1) ≡ 3 + length v1 = omega arith in
          rw e (
            tlv_loop-step (tlv k1 v1) k2 v2 post fuel (3 + length v1) (set_tlv k1 v1 [])
              (omega arith) some_left))

  -- What follows two values is not read, unless it is longer than the first value by seven bytes.
  parse_tlvs_rest :
      (post : Bytes)
      → 0 < length v2 + length post
      → length post ≤ length v1 + 6
      → parse_tlvs (tlv k1 v1 ++ (tlv k2 v2 ++ post)) ≡ ok (set_tlv k2 v2 (set_tlv k1 v1 []))
  unfolding parse_tlvs
  parse_tlvs_rest post some_left short =
      let more = length (v1 ++ (tlv k2 v2 ++ post)) in
      tlv_loop_twice (suc (suc more)) post some_left
      ∙ tlv_loop-stop (suc more) (tlv k1 v1 ++ (tlv k2 v2 ++ post))
          ((3 + length v1) + ((3 + length v1) + 3 + length v2)) (set_tlv k2 v2 (set_tlv k1 v1 []))
          (omega (arith, length-append v1 (tlv k2 v2 ++ post), length-append v2 post))

  -- Two values are read back, if the second is not empty.
  pub parse_tlvs-two :
      0 < length v2 → parse_tlvs (tlv k1 v1 ++ tlv k2 v2) ≡ ok (set_tlv k2 v2 (set_tlv k1 v1 []))
  parse_tlvs-two h = rw append-nil at (parse_tlvs_rest [] (omega arith) (omega arith))

  -- A third value is lost, unless it is longer than the first by four bytes or more.
  pub parse_tlvs_third_lost :
      (k3 : ℕ) (v3 : Bytes)
      → length v3 ≤ length v1 + 3
      → parse_tlvs (tlv k1 v1 ++ (tlv k2 v2 ++ tlv k3 v3)) ≡ ok (set_tlv k2 v2 (set_tlv k1 v1 []))
  parse_tlvs_third_lost k3 v3 h = parse_tlvs_rest (tlv k3 v3) (omega arith) (omega arith)
