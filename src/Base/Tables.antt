-- ===== src/Base/Tables.antt =====
-- Go maps from strings, as association lists.
use mathlib.Core.List.{List, [], ◌∷◌}
use mathlib.Core.Option.{Option, none, some}
use mathlib.Core.Path.{◌≡◌, refl}
use native.Mathlib.Omega.{arith}
use forwarder.Base.Strings.{Bytes, beq, beq_iff}
use forwarder.Base.Tests.{if◌then◌else◌}

abbrev pub Table {ℓ} : Type ℓ → Type ℓ
Table V = List (Bytes × V)

module _ {ℓ} {V : Type ℓ} where
  -- `v, ok := m[k]`
  abbrev pub lookup : Table V → Bytes → Option V
  lookup [] k = none
  lookup ((j, v) ∷ m) k = if beq j k then some v else lookup m k

  -- `m[k] = v`
  abbrev pub insert : Bytes → V → Table V → Table V
  insert k v [] = (k, v) ∷ []
  insert k v ((j, w) ∷ m) = if beq j k then (k, v) ∷ m else (j, w) ∷ insert k v m

  pub lookup-insert :
      (k : Bytes) (v : V) (m : Table V) (j : Bytes)
      → lookup (insert k v m) j ≡ (if beq k j then some v else lookup m j)
  lookup-insert k v [] j = refl
  lookup-insert k v ((i, w) ∷ m) j =
      ground (arith, beq_iff k j, beq_iff i k, beq_iff i j, lookup-insert k v m j)
