-- ===== src/Base/Strings.antt =====
-- Go strings and byte slices: lists of bytes, with the parts of `bytes` and `strings` in use.
use Prim.Native.Char.{code}
use Prim.Native.Nat.{ℕ}
use Prim.Native.String.{String}
use mathlib.Core.Bool.{Bool, true, false, ◌&&◌, ◌||◌}
use mathlib.Core.List.{List, [], ◌∷◌, ◌++◌}
use mathlib.Core.Logic.{◌↔◌}
use mathlib.Core.Option.{Option, none, some}
use mathlib.Core.Path.{◌≡◌, refl}
use native.Mathlib.Omega.{arith}
use forwarder.Base.Tests.{◌==◌, if◌then◌else◌}

abbrev pub Bytes : Type 0
Bytes = List ℕ

-- The bytes of a text; every literal of the development is ASCII.
abbrev pub codes : String → Bytes
codes String.[] = []
codes (String.◌∷◌ c s) = code c ∷ codes s

-- `bytes.Equal`, and `==` on strings.
abbrev pub beq : Bytes → Bytes → Bool
beq [] [] = true
beq [] (y ∷ ys) = false
beq (x ∷ xs) [] = false
beq (x ∷ xs) (y ∷ ys) = (x == y) && beq xs ys

pub beq_iff : (a b : Bytes) → (beq a b ≡ true) ↔ (a ≡ b)
beq_iff [] [] = ground arith
beq_iff [] (y ∷ ys) = ground arith
beq_iff (x ∷ xs) [] = ground arith
beq_iff (x ∷ xs) (y ∷ ys) = ground (arith, beq_iff xs ys)

pub beq_refl : (a : Bytes) → beq a a ≡ true
beq_refl a = (beq_iff a a).1 refl

-- `strings.HasPrefix s p`.
abbrev pub has_prefix : Bytes → Bytes → Bool
has_prefix s [] = true
has_prefix [] (p ∷ ps) = false
has_prefix (c ∷ s) (p ∷ ps) = (c == p) && has_prefix s ps

pub has_prefix-append : (p s : Bytes) → has_prefix (p ++ s) p ≡ true
has_prefix-append [] s = refl
has_prefix-append (c ∷ p) s = ground (arith, has_prefix-append p s)

-- `strings.Contains s t`.
abbrev pub contains : Bytes → Bytes → Bool
contains [] t = has_prefix [] t
contains (c ∷ s) t = has_prefix (c ∷ s) t || contains s t

pub contains-append : (a t b : Bytes) → contains (a ++ (t ++ b)) t ≡ true
contains-append [] [] [] = refl
contains-append [] [] (c ∷ b) = refl
contains-append [] (d ∷ t) b = ground (arith, has_prefix-append (d ∷ t) b)
contains-append (c ∷ a) t b = ground (arith, contains-append a t b)

-- `strings.IndexByte` and a slice on both sides: what stands before the first `sep`, and behind it.
abbrev pub cut : ℕ → Bytes → Option (Bytes × Bytes)
cut sep [] = none
cut sep (c ∷ s) =
    if c == sep
    then some ([], s)
    else elim (cut sep s) [ none ↦ none | some (a, b) ↦ some (c ∷ a, b) ]

-- Whether a byte stands in a text.
abbrev pub occurs : ℕ → Bytes → Bool
occurs c [] = false
occurs c (x ∷ s) = x == c || occurs c s

pub occurs-append-false :
    (c : ℕ) (a b : Bytes) → occurs c a ≡ false → occurs c b ≡ false → occurs c (a ++ b) ≡ false
occurs-append-false c [] b h k = k
occurs-append-false c (x ∷ a) b h k = ground (arith, occurs-append-false c a b)
