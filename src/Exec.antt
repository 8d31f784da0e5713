-- ===== src/Exec.antt =====
-- Actions on a state that may fail. What was done before a failure stays done, so the state comes
-- back beside the error: Lua scripts run so over the data set, Go methods over the `World`.
pub mod Invert
use xredis.Errors.{Error, Sentinel, known}

pub data Result {ℓ} (A : Type ℓ) : Type ℓ where
  ok : A → Result A
  err : Error → Result A

-- `return ErrX`
abbrev pub fail {ℓ} : {A : Type ℓ} → Sentinel → Result A
fail s = err (known s)

-- `if err != nil { return err }` between calls that only compute
infixl 5 ◌>>>◌
abbrev pub ◌>>>◌ : {A B : Type 0} → Result A → (A → Result B) → Result B
ok a >>> f = f a
err e >>> f = err e

abbrev pub Exec : Type 0 → Type 0 → Type 0
Exec S A = S → Result A × S

module _ {S A : Type 0} where
  abbrev pub pure : A → Exec S A
  pure a s = (ok a, s)

  abbrev pub lift : Result A → Exec S A
  lift r s = (r, s)

  -- a command that only reads
  abbrev pub ask : (S → Result A) → Exec S A
  ask f s = (f s, s)

module _ {S A B : Type 0} where
  abbrev pub continue : Result A → (A → Exec S B) → Exec S B
  continue (ok a) f s = f a s
  continue (err e) f s = (err e, s)

  infixl 5 ◌>>=◌ ◌>>◌
  abbrev pub ◌>>=◌ : Exec S A → (A → Exec S B) → Exec S B
  ◌>>=◌ m f s = continue (m s).0 f (m s).1

  abbrev pub ◌>>◌ : Exec S A → Exec S B → Exec S B
  m >> k = m >>= λ _. k
