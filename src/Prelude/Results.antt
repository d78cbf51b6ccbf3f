-- ===== src/Prelude/Results.antt =====
-- Results of fallible code, and transactions: state passing in which an error loses the state.
use mathlib.Core.Logic.{◌⊎◌, inl, inr}
use mathlib.Core.Path.{◌≡◌, refl}
use mathlib.Core.Bool.{Bool, true, false}
use cim_backend.Prelude.Tests.{if◌then◌else◌}

pub data Outcome (E A : Type 0) : Type 0 where
  ok : A → Outcome E A
  err : E → Outcome E A

module _ {E A B : Type 0} where
  abbrev pub and_then : Outcome E A → (A → Outcome E B) → Outcome E B
  and_then (ok a) f = f a
  and_then (err e) f = err e

  -- Inversion of a successful bind, for proofs where the parts stay shut.
  pub and_then-eq-ok :
      (m : Outcome E A) (f : A → Outcome E B) {b : B}
      → and_then m f ≡ ok b
      → (a : A) × (m ≡ ok a) × (f a ≡ ok b)
  and_then-eq-ok (ok a) f h = (a, refl, h)
  and_then-eq-ok (err e) f h = cc

module _ {E A : Type 0} where
  pub ok-injective : {a b : A} → ◌≡◌ {A = Outcome E A} (ok a) (ok b) → a ≡ b
  ok-injective h = cc

  pub Outcome-cases : (o : Outcome E A) → ((a : A) × (o ≡ ok a)) ⊎ ((e : E) × (o ≡ err e))
  Outcome-cases (ok a) = inl (a, refl)
  Outcome-cases (err e) = inr (e, refl)

  -- What succeeds has passed the test.
  pub passed_test :
      (b : Bool) (e : E) (rest : Outcome E A) (a : A)
      → (if b then err e else rest) ≡ ok a
      → (b ≡ false) × (rest ≡ ok a)
  passed_test true e rest a h = absurd (cc)
  passed_test false e rest a h = (refl, h)
