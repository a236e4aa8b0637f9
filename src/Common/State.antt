-- ===== src/Common/State.antt =====
-- A C routine that works on a state: what it returns, and the state that it leaves. Errors keep the
-- state, since callers may go on.
use mathlib.Core.Option.{Option, none, some}
use yacdb.Common.Memory.{Result, ok, failed, fault}

-- `crash` is undefined behaviour, a failed `assert`, or a recursion deeper than the stack.
pub data Outcome {ℓ κ} (S : Type ℓ) (A : Type κ) : Type (ℓ ⊔ κ) where
  done : A → S → Outcome S A
  error : S → Outcome S A
  crash : Outcome S A

abbrev pub Routine {ℓ κ} : Type ℓ → Type κ → Type (ℓ ⊔ κ)
Routine S A = S → Outcome S A

module _ {ℓ κ} {S : Type ℓ} {A : Type κ} where
  abbrev pub pure : A → Routine S A
  pure a s = done a s

  abbrev pub fail : Routine S A
  fail s = error s

  abbrev pub abort : Routine S A
  abort s = crash

  -- A routine that reads the state alone.
  abbrev pub returned : Result A → Routine S A
  returned (ok a) s = done a s
  returned failed s = error s
  returned fault s = crash

abbrev pub continue {ℓ κ ι} :
    {S : Type ℓ} {A : Type κ} {B : Type ι} → Outcome S A → (A → Routine S B) → Outcome S B
continue (done a s) f = f a s
continue (error s) f = error s
continue crash f = crash

infixl 5 ◌>>=◌
abbrev pub ◌>>=◌ {ℓ κ ι} :
    {S : Type ℓ} {A : Type κ} {B : Type ι} → Routine S A → (A → Routine S B) → Routine S B
◌>>=◌ m f s = continue (m s) f

-- The result of a call, for a caller that looks at it or ignores it.
abbrev pub result_of {ℓ κ} : {S : Type ℓ} {A : Type κ} → Outcome S A → Outcome S (Option A)
result_of (done a s) = done (some a) s
result_of (error s) = done none s
result_of crash = crash

abbrev pub attempt {ℓ κ} : {S : Type ℓ} {A : Type κ} → Routine S A → Routine S (Option A)
attempt m s = result_of (m s)
