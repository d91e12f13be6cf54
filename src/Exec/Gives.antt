-- ===== src/Exec/Gives.antt =====
-- Methods whose values, where they end well, have a property.
use oo.Prelude.{Bool, true, false, if◌then◌else◌, ◌≡◌, subst, refl}
use oo.Outcome.{Result, ok, err, panic, ok-injective}
use oo.Exec.{Step, pure, raise, continue, ◌>>=◌}

abbrev pub Gives : {E S A : Type 0} → (A → Type 0) → Step E S A → Type 0
Gives {S = S} {A = A} P m = (s : S) (a : A) → (m s).0 ≡ ok a → P a

module _ {E S A : Type 0} where
  pub Gives-pure : (P : A → Type 0) (a : A) → P a → Gives {E = E} {S = S} P (pure a)
  Gives-pure P a h s b e = subst P (ok-injective e) h

  pub Gives-raise : (P : A → Type 0) (e : E) → Gives {S = S} P (raise e)
  Gives-raise P e s b h = absurd (cc)

  pub Gives-if :
      (P : A → Type 0) (b : Bool) (m n : Step E S A)
      → (b ≡ true → Gives P m)
      → (b ≡ false → Gives P n)
      → Gives P (if b then m else n)
  Gives-if P true m n h k = h refl
  Gives-if P false m n h k = k refl

module _ {E S A B : Type 0} where
  Gives-continue :
      (P : B → Type 0) (r : Result E A) (f : A → Step E S B) (s : S)
      → ((a : A) → Gives P (f a))
      → (b : B) → (continue r f s).0 ≡ ok b
      → P b
  Gives-continue P (ok a) f s h b e = h a s b e
  Gives-continue P (err x) f s h b e = absurd (cc)
  Gives-continue P panic f s h b e = absurd (cc)

  pub Gives-bind :
      (P : B → Type 0) (m : Step E S A) (f : A → Step E S B)
      → ((a : A) → Gives P (f a))
      → Gives P (m >>= f)
  Gives-bind P m f h s b e = Gives-continue P (m s).0 f (m s).1 h b e

  Gives-continue_with :
      (Q : A → Type 0) (P : B → Type 0) (r : Result E A) (f : A → Step E S B) (s : S)
      → ((a : A) → r ≡ ok a → Q a)
      → ((a : A) → Q a → Gives P (f a))
      → (b : B) → (continue r f s).0 ≡ ok b
      → P b
  Gives-continue_with Q P (ok a) f s g h b e = h a (g a refl) s b e
  Gives-continue_with Q P (err x) f s g h b e = absurd (cc)
  Gives-continue_with Q P panic f s g h b e = absurd (cc)

  -- Where the first value has a property that the rest goes on with.
  pub Gives-bind_with :
      (Q : A → Type 0) (P : B → Type 0) (m : Step E S A) (f : A → Step E S B)
      → Gives Q m
      → ((a : A) → Q a → Gives P (f a))
      → Gives P (m >>= f)
  Gives-bind_with Q P m f g h s b e = Gives-continue_with Q P (m s).0 f (m s).1 (λ a. g s a) h b e
