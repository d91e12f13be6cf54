-- ===== src/Exec.antt =====
-- Methods on `&mut self`: they give back an outcome and the state that they leave, which keeps what
-- was written before an error.
pub mod Hoare
pub mod NoErrors
pub mod Gives
use oo.Prelude.{◌≡◌, refl}
use oo.Outcome.{Outcome, Result, ok, err, panic, Error}

-- A method with errors `E` on a state `S`.
abbrev pub Step {ℓ} : Type 0 → Type 0 → Type ℓ → Type ℓ
Step E S A = S → Result E A × S

abbrev pub Exec {ℓ} : Type 0 → Type ℓ → Type ℓ
Exec S A = Step Error S A

module _ {ℓ} {E S : Type 0} {A : Type ℓ} where
  abbrev pub pure : A → Step E S A
  pure a s = (ok a, s)

  abbrev pub lift : Result E A → Step E S A
  lift r s = (r, s)

  abbrev pub gets : (S → A) → Step E S A
  gets f s = (ok (f s), s)

abbrev pub raise {ℓ} : {E S : Type 0} {A : Type ℓ} → E → Step E S A
raise e s = (err e, s)

abbrev pub modify : {E S : Type 0} → (S → S) → Step E S (Unit {0})
modify f s = (ok tt, f s)

module _ {ℓ κ} {E S : Type 0} {A : Type ℓ} {B : Type κ} where
  abbrev pub continue : Result E A → (A → Step E S B) → Step E S B
  continue (ok a) f s = f a s
  continue (err e) f s = (err e, s)
  continue panic f s = (panic, s)

  -- The rest of a method after a call, with the `?` that ends it on an error.
  infixl 5 ◌>>=◌
  abbrev pub ◌>>=◌ : Step E S A → (A → Step E S B) → Step E S B
  ◌>>=◌ m f s = continue (m s).0 f (m s).1

infixl 5 ◌>>◌
abbrev pub ◌>>◌ {κ} : {E S : Type 0} {B : Type κ} → Step E S (Unit {0}) → Step E S B → Step E S B
m >> k = m >>= λ _. k

-- A method of a part of the state.
abbrev pub zoom {ℓ} :
    {E S T : Type 0} {A : Type ℓ} → (S → T) → (T → S → S) → Step E T A → Step E S A
zoom get put m s = ((m (get s)).0, put (m (get s)).1 s)

-- A method that ends with a value computed before leaves the state of what it called last.
module _ {E S A B : Type 0} where
  pub continue-pure_state : (r : Result E A) (b : B) (s : S) → (continue r (λ _. pure b) s).1 ≡ s
  continue-pure_state (ok a) b s = refl
  continue-pure_state (err e) b s = refl
  continue-pure_state panic b s = refl

  pub continue-pure_outcome :
      (r : Result E A) (b c : B) (s : S) → (continue r (λ _. pure b) s).0 ≡ ok c → c ≡ b
  continue-pure_outcome (ok a) b c s h = cc
  continue-pure_outcome (err e) b c s h = absurd (cc)
  continue-pure_outcome panic b c s h = absurd (cc)

-- Nor does one that only turns the value into another.
pub continue-map_state :
    {E S A B : Type 0} (r : Result E A) (f : A → B) (s : S) → (continue r (λ a. pure (f a)) s).1 ≡ s
continue-map_state (ok a) f s = refl
continue-map_state (err e) f s = refl
continue-map_state panic f s = refl
