-- ===== src/Outcome.antt =====
-- What a call gives back: a value, an error, or a panic (`unwrap`, `expect`, a slice out of range).
-- The errors are those of client/src/file/error.rs and client/src/crypto/error.rs.
use oo.Prelude.{
  ◌⊎◌, inl, inr, ℕ, Bool, true, false, Option, none, some, List, [], ◌∷◌, Text, Bytes, ◌≡◌, refl,
}

-- client/src/file/error.rs, `WeakKeyError`.
pub data WeakKeyError : Type 0 where
  iteration_count_too_low : ℕ → WeakKeyError
  salt_too_short : ℕ → WeakKeyError
  password_too_short : ℕ → WeakKeyError
  strength_unknown : WeakKeyError

-- The kinds of `std::io::Error` that the code tells apart or makes.
pub data IoErrorKind : Type 0 where
  not_found invalid_input out_of_memory unexpected_eof other_io : IoErrorKind

-- client/src/crypto/error.rs with the native crates: the crates' own payloads are left out.
pub data CryptoError : Type 0 where
  pad_error getrandom : CryptoError

-- client/src/file/error.rs, `Error`, without the payloads of other crates' errors.
pub data Error : Type 0 where
  file_header_mismatch : Option Bytes → Error
  version_mismatch : Option Bytes → Error
  no_data : Error
  no_parent_dir : Text → Error
  gvariant_deserialization : Error
  salt_size_mismatch : ℕ → ℕ → Error
  weak_key : WeakKeyError → Error
  io : IoErrorKind → Error
  mac_error : Error
  checksum_mismatch : Error
  hashed_attribute_mac : Text → Error
  no_data_dir : Error
  target_file_changed : Text → Error
  portal : Error
  invalid_item_index : ℕ → Error
  utf8 : Error
  algorithm_mismatch : ℕ → Error
  incorrect_secret : Error
  partially_corrupted_keyring : ℕ → ℕ → Error
  crypto : CryptoError → Error
  locked : Error
  schema : Error

-- A value, an error or a panic.
pub data Result {ℓ} (E : Type 0) (A : Type ℓ) : Type ℓ where
  ok : A → Result E A
  err : E → Result E A
  panic : Result E A

abbrev pub Outcome {ℓ} : Type ℓ → Type ℓ
Outcome A = Result Error A

abbrev pub is_ok {ℓ} : {E : Type 0} {A : Type ℓ} → Result E A → Bool
is_ok (ok a) = true
is_ok (err e) = false
is_ok panic = false

abbrev pub or_err {ℓ} : {E : Type 0} {A : Type ℓ} → E → Option A → Result E A
or_err e none = err e
or_err e (some a) = ok a

-- The `?` operator, in `do` blocks.
infixl 5 ◌>>=◌
abbrev pub ◌>>=◌ {ℓ κ} :
    {E : Type 0} {A : Type ℓ} {B : Type κ} → Result E A → (A → Result E B) → Result E B
◌>>=◌ panic next = panic
◌>>=◌ (err x) next = err x
◌>>=◌ (ok value) next = next value

infixl 5 ◌>>◌
abbrev pub ◌>>◌ {κ} : {E : Type 0} {B : Type κ} → Result E (Unit {0}) → Result E B → Result E B
◌>>◌ first next = first >>= (λ _. next)

-- `return Err(e)` unless the test passes.
abbrev pub guard : {E : Type 0} → Bool → E → Result E (Unit {0})
guard true e = ok tt
guard false e = err e

-- Each element through a fallible call, stopping at the first failure: `collect` into a `Result`.
unfoldable pub collect {ℓ κ} :
    {E : Type 0} {A : Type ℓ} {B : Type κ} → (A → Result E B) → List A → Result E (List B)
collect f [] = ok []
collect f (x ∷ xs) = do y ← f x; ys ← collect f xs; ok (y ∷ ys)

-- A chain that succeeds, taken apart at its first call.
pub >>=-ok {ℓ κ} :
    {E : Type 0} {A : Type ℓ} {B : Type κ} (o : Result E A) (next : A → Result E B) {final : B}
    → (o >>= next) ≡ ok final
    → (value : A) × (o ≡ ok value) × (next value ≡ ok final)
>>=-ok (ok value) next done = (value, refl, done)
>>=-ok (err x) next done = cc
>>=-ok panic next done = cc

pub Outcome-cases {ℓ} :
    {E : Type 0} {A : Type ℓ} (o : Result E A)
    → ((a : A) × (o ≡ ok a)) ⊎ (((e : E) × (o ≡ err e)) ⊎ (o ≡ panic))
Outcome-cases (ok a) = inl (a, refl)
Outcome-cases (err e) = inr (inl (e, refl))
Outcome-cases panic = inr (inr refl)

pub ok-injective {ℓ} :
    {E : Type 0} {A : Type ℓ} {a b : A} → ◌≡◌ {A = Result E A} (ok a) (ok b) → a ≡ b
ok-injective h = cc

pub >>=-eq {ℓ κ} :
    {E : Type 0} {A : Type ℓ} {B : Type κ} (o : Result E A) (f g : A → Result E B)
    → ((a : A) → f a ≡ g a)
    → (o >>= f) ≡ (o >>= g)
>>=-eq (ok a) f g h = h a
>>=-eq (err x) f g h = refl
>>=-eq panic f g h = refl
