-- ===== src/Exec/Invert.antt =====
-- What a successful sequence of actions says of its parts.
use xredis.Prelude.{◌≡◌, refl, ◌⊎◌, inl, inr, arith}
use xredis.Errors.{Error}
use xredis.Exec.{Result, ok, err, Exec, continue, ◌>>=◌}

pub Result-cases :
    {A : Type 0} (r : Result A) → ((a : A) × (r ≡ ok a)) ⊎ ((e : Error) × (r ≡ err e))
Result-cases (ok a) = inl (a, refl)
Result-cases (err e) = inr (e, refl)

module _ {S A B : Type 0} where
  continue_ok :
      (r : Result A) (f : A → Exec S B) (s : S) {b : B}
      → (continue r f s).0 ≡ ok b
      → (a : A) × (r ≡ ok a) × ((f a s).0 ≡ ok b) × (continue r f s ≡ f a s)
  continue_ok (ok a) f s h = (a, refl, h, refl)
  continue_ok (err e) f s h = absurd (ground arith)

  pub bind_ok :
      (m : Exec S A) (f : A → Exec S B) (s : S) {b : B}
      → ((m >>= f) s).0 ≡ ok b
      → (a : A) × ((m s).0 ≡ ok a) × ((f a (m s).1).0 ≡ ok b) × ((m >>= f) s ≡ f a (m s).1)
  bind_ok m f s h = continue_ok (m s).0 f (m s).1 h
