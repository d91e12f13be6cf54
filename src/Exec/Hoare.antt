-- ===== src/Exec/Hoare.antt =====
-- What a method leaves behind, whether it ends well, with an error or with a panic.
use oo.Prelude.{Bool, true, false, if◌then◌else◌}
use oo.Outcome.{Result, ok, err, panic}
use oo.Exec.{Step, pure, lift, gets, raise, continue, ◌>>=◌}

-- From a state with `P`, `m` leaves a state with `Q`.
pub record Leaves {E S A : Type 0} (P : S → Type 0) (m : Step E S A) (Q : S → Type 0) : Type 0 where
  pub at : (s : S) → P s → Q (m s).1

module _ {E S A : Type 0} {P : S → Type 0} where
  pub Leaves-pure : (a : A) → Leaves {E = E} P (pure a) P
  Leaves-pure a = record { at = λ s h. h }

  pub Leaves-lift : (r : Result E A) → Leaves P (lift r) P
  Leaves-lift r = record { at = λ s h. h }

  pub Leaves-gets : (f : S → A) → Leaves {E = E} P (gets f) P
  Leaves-gets f = record { at = λ s h. h }

  pub Leaves-raise : (e : E) → Leaves {E = E} P (raise {A = A} e) P
  Leaves-raise e = record { at = λ s h. h }

  pub Leaves-if :
      {Q : S → Type 0} (b : Bool) (m n : Step E S A)
      → Leaves P m Q
      → Leaves P n Q
      → Leaves P (if b then m else n) Q
  Leaves-if true m n km kn = km
  Leaves-if false m n km kn = kn

module _ {E S A B : Type 0} {P Q : S → Type 0} where
  Leaves-continue :
      (r : Result E A) (f : A → Step E S B) (s : S)
      → ((a : A) → Leaves P (f a) Q)
      → ((s : S) → P s → Q s)
      → P s
      → Q (continue r f s).1
  Leaves-continue (ok a) f s k w h = (k a).at s h
  Leaves-continue (err e) f s k w h = w s h
  Leaves-continue panic f s k w h = w s h

module _ {E S A B : Type 0} {P Q R : S → Type 0} where
  -- If the first method fails, what it leaves must do for the whole.
  pub Leaves-bind :
      (m : Step E S A) (f : A → Step E S B)
      → Leaves P m Q
      → ((a : A) → Leaves Q (f a) R)
      → ((s : S) → Q s → R s)
      → Leaves P (m >>= f) R
  Leaves-bind m f km kf weaken = record {
    at = λ s h. Leaves-continue (m s).0 f (m s).1 kf weaken (km.at s h);
  }

module _ {E S A B : Type 0} {P : S → Type 0} where
  -- An invariant of both parts is one of the whole.
  pub Keeps-bind :
      (m : Step E S A) (f : A → Step E S B)
      → Leaves P m P
      → ((a : A) → Leaves P (f a) P)
      → Leaves P (m >>= f) P
  Keeps-bind m f km kf = Leaves-bind m f km kf (λ s h. h)

pub ruleset leaves = (Leaves-pure, Leaves-lift, Leaves-gets, Leaves-raise, Leaves-if, Keeps-bind)
