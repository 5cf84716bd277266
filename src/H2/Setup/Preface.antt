-- ===== src/H2/Setup/Preface.antt =====
-- What reaches the server of a client's connection preface.
use forwarder.Base.{
  ℕ, zero, suc, ◌-◌, ◌≤◌, ◌≡◌, refl, sym, ◌∙◌, ap, Bool-cases, inl, inr, Option, none, some, List,
  [], ◌∷◌, ◌++◌, append_assoc, append-nil, Bytes, length, take, drop, take-append-drop, length-drop,
  ok, err, beq, beq_iff, arith,
}
use forwarder.H2.Setup.{connection_preface, write_loop, filled, forward_preface, unexpected_preface}

drop_all : (n : ℕ) (d : Bytes) → length d ≤ n → take n d ≡ d
drop_all zero [] h = refl
drop_all zero (c ∷ d) h = absurd (omega arith)
drop_all (suc n) [] h = refl
drop_all (suc n) (c ∷ d) h = rw (drop_all n d (omega arith))

write_loop-sent :
    (answers : List (Option ℕ)) (d : Bytes) (m : ℕ) (sent : Bytes) {all : Bytes}
    → m ≡ length d
    → write_loop answers d m sent ≡ ok all
    → all ≡ sent ++ d
unfolding write_loop
write_loop-sent answers [] zero sent e h = rw append-nil cc
write_loop-sent answers (c ∷ d) zero sent e h = absurd (omega arith)
write_loop-sent [] d (suc m) sent e h = cc
write_loop-sent (none ∷ answers) d (suc m) sent e h = cc
write_loop-sent (some n ∷ answers) d (suc m) sent e h =
    write_loop-sent answers (drop n d) (suc m - n) (sent ++ take n d)
      (omega (arith, length-drop n d)) h
    ∙ append_assoc sent (take n d) (drop n d)
    ∙ rw (take-append-drop n d)

-- A preface is forwarded only if one read of the client gave it; then the server has got
-- all of it and nothing else, in whatever pieces it was written.
pub forward_preface_lem :
    (got : Bytes) (answers : List (Option ℕ)) (sent : Bytes)
    → forward_preface (some got) answers ≡ ok sent
    → (filled got ≡ connection_preface) × (sent ≡ connection_preface)
unfolding forward_preface
forward_preface_lem got answers sent h = elim (Bool-cases (beq (filled got) connection_preface)) [
  | inl same ↦
      let e : filled got ≡ connection_preface = (beq_iff (filled got) connection_preface).0 same in
      let k : write_loop answers (filled got) 24 [] ≡ ok sent = rw same at h in
      (e, write_loop-sent answers (filled got) 24 [] (ap length (sym e)) k ∙ e)
  | inr other ↦ absurd (refused (rw other at h))
]
  where
    refused : (err unexpected_preface) ≡ ok sent → ⊥
    refused k = cc
