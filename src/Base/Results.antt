-- ===== src/Base/Results.antt =====
-- What a call that can stop the machine comes to.
use mathlib.Core.Option.{Option, none, some}
use mathlib.Core.Path.{◌≡◌, ap, subst}

-- `panic` is a failed bounds check or a division by zero; `stuck` is a loop out of fuel.
pub data Outcome {ℓ} (A : Type ℓ) : Type ℓ where
  ret : A → Outcome A
  panic stuck : Outcome A

-- One call after another, and an `Option` whose `none` is a panic.
abbrev pub and_then {ℓ κ} : {A : Type ℓ} {B : Type κ} → Outcome A → (A → Outcome B) → Outcome B
and_then (ret a) f = f a
and_then panic f = panic
and_then stuck f = stuck

abbrev pub or_panic {ℓ} : {A : Type ℓ} → Option A → Outcome A
or_panic none = panic
or_panic (some a) = ret a

pub panic-ne-ret {ℓ} : {A : Type ℓ} {a : A} → ¬ (panic ≡ ret a)
panic-ne-ret {A} e = subst is_panic e tt
  where
    is_panic : Outcome A → Type 0
    is_panic panic = Unit
    is_panic stuck = Unit
    is_panic (ret a) = ⊥

pub ret-injective {ℓ} : {A : Type ℓ} {a b : A} → ret a ≡ ret b → a ≡ b
ret-injective {A} {a} e = ap result e
  where
    result : Outcome A → A
    result (ret x) = x
    result panic = a
    result stuck = a
