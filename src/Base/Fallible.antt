-- ===== src/Base/Fallible.antt =====
-- A Go result with an error: the value, or the error and no value.
use mathlib.Core.Logic.{◌≢◌}
use mathlib.Core.Path.{◌≡◌, refl}

pub data Result {ℓ} (E A : Type ℓ) : Type ℓ where
  ok : A → Result E A
  err : E → Result E A

-- `x, err := m; if err != nil { return err }`, and then the rest.
module _ {ℓ} {E A B : Type ℓ} where
  infixl 5 ◌>>=◌
  abbrev pub ◌>>=◌ : Result E A → (A → Result E B) → Result E B
  ok a >>= rest = rest a
  err e >>= rest = err e

  pub bind-eq-ok :
      (m : Result E A) {rest : A → Result E B} {b : B}
      → m >>= rest ≡ ok b
      → (a : A) × (rest a ≡ ok b) × (m ≡ ok a)
  bind-eq-ok (err e) {rest} h = cc
  bind-eq-ok (ok a) {rest} h = (a, h, refl)

pub ok_injective {ℓ} : {E A : Type ℓ} {a b : A} {r : Result E A} → r ≡ ok a → r ≡ ok b → a ≡ b
ok_injective h k = cc

pub err-ne-ok {ℓ} : {E A : Type ℓ} {e : E} {a : A} → err e ≢ ok a
err-ne-ok h = cc
