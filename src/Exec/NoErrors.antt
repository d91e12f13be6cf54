-- ===== src/Exec/NoErrors.antt =====
-- Methods that end well or panic, whatever the state.
use oo.Prelude.{Bool, true, false, ◌≡◌, ◌≢◌, refl}
use oo.Outcome.{Result, ok, err, panic}
use oo.Exec.{Step, continue, ◌>>=◌}

abbrev pub is_err : {E A : Type 0} → Result E A → Bool
is_err (ok a) = false
is_err (err e) = true
is_err panic = false

abbrev pub NeverErrs : {E S A : Type 0} → Step E S A → Type 0
NeverErrs {S = S} m = (s : S) → is_err (m s).0 ≡ false

module _ {E S A B : Type 0} where
  is_err-continue :
      (r : Result E A) (f : A → Step E S B) (s : S)
      → is_err r ≡ false
      → ((a : A) → NeverErrs (f a))
      → is_err (continue r f s).0 ≡ false
  is_err-continue (ok a) f s h k = k a s
  is_err-continue (err e) f s h k = absurd (cc)
  is_err-continue panic f s h k = refl

  pub NeverErrs-bind :
      (m : Step E S A) (f : A → Step E S B)
      → NeverErrs m
      → ((a : A) → NeverErrs (f a))
      → NeverErrs (m >>= f)
  NeverErrs-bind m f h k s = is_err-continue (m s).0 f (m s).1 (h s) k

pub not_err : {E A : Type 0} (r : Result E A) (e : E) → is_err r ≡ false → r ≢ err e
not_err (ok a) e h same = cc
not_err (err x) e h same = cc
not_err panic e h same = cc
