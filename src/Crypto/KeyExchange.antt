-- ===== src/Crypto/KeyExchange.antt =====
-- client/src/crypto/native.rs: the Diffie-Hellman key exchange of a session. Big numbers are numbers.
pub mod Powers
pub mod Agreement
use oo.Prelude.{
  ℕ, zero, suc, ◌+◌, ◌-◌, ◌*◌, ◌/◌, ◌%◌, Bool, true, false, List, [], ◌∷◌, ◌++◌, length, leb, ◌==◌,
  if◌then◌else◌, Bytes, Option, none, some,
}
use oo.Outcome.{Outcome, ok, err, panic, or_err, crypto, getrandom}
use oo.Exec.{Exec}
use oo.Os.{Os}
use oo.Crypto.{Primitives}

-- What the crate `hkdf` gives: the key of 16 bytes that SHA-256 extracts, without a salt or info, and
-- expands.
pub record Hkdf : Type 0 where
  pub derive : Bytes → Bytes

-- `DH_PRIME`
unfoldable pub dh_prime : ℕ
dh_prime =
    179769313486231590770839156793787453197860296048756011706444423684197180216158519368947833795864925541502180565485980503646440548199239100050792877003355816639229553136239076508735759914822574862575007425302077447712589550957937778424442426617334727629299387668709205606050270810842907692932019128194467627007

-- `BigUint::from_bytes_be` and `BigUint::to_bytes_be`.
unfoldable pub bytes_to_number : ℕ → Bytes → ℕ
bytes_to_number acc [] = acc
bytes_to_number acc (b ∷ bs) = bytes_to_number (acc * 256 + b) bs

-- The digits in base 256; fewer than the number itself.
unfoldable pub digits : ℕ → ℕ → Bytes
digits zero n = []
digits (suc fuel) n =
    let higher = digits fuel (n / 256) in if n == 0 then [] else higher ++ n % 256 ∷ []

unfoldable pub to_bytes_be : ℕ → Bytes
unfolding digits
to_bytes_be n = if n == 0 then 0 ∷ [] else digits n n

-- The loop of `powm`, of which a round halves the exponent.
unfoldable pub powm_loop : ℕ → ℕ → ℕ → ℕ → ℕ → ℕ
powm_loop prime zero base exp result = result
powm_loop prime (suc fuel) base exp result =
    let rest =
      powm_loop prime fuel (base * base % prime) (exp / 2)
        (if exp % 2 == 1 then result * base % prime else result) in
    if exp == 0 then result else rest

unfoldable pub powm : ℕ → ℕ → ℕ
unfolding powm_loop dh_prime
powm base exp = powm_loop dh_prime exp base exp 1

unfoldable pub generate_private_key : {W : Type 0} → ⦃os : Os W⦄ → ⦃p : Primitives⦄ → Exec W Bytes
generate_private_key ⦃os⦄ ⦃p⦄ w =
    (or_err (crypto getrandom) (os.fill p.key_size w).0, (os.fill p.key_size w).1)

unfoldable pub generate_public_key : Bytes → Bytes
unfolding powm bytes_to_number to_bytes_be
generate_public_key private_key = to_bytes_be (powm 2 (bytes_to_number 0 private_key))

unfoldable pub zeros : ℕ → Bytes
zeros zero = []
zeros (suc n) = 0 ∷ zeros n

-- The bytes with zeros before them, up to 128; `128 - len` must not be negative.
unfoldable pub padded_secret : Bytes → Outcome Bytes
unfolding zeros
padded_secret bytes =
    if leb (length bytes) 128 then ok (zeros (128 - length bytes) ++ bytes) else panic

unfoldable pub generate_aes_key : ⦃hkdf : Hkdf⦄ → Bytes → Bytes → Outcome Bytes
unfolding powm bytes_to_number to_bytes_be padded_secret
generate_aes_key ⦃hkdf⦄ private_key server_public_key =
    let common_secret =
      powm (bytes_to_number 0 server_public_key) (bytes_to_number 0 private_key) in
    elim (padded_secret (to_bytes_be common_secret)) [
      | ok ikm ↦ ok (hkdf.derive ikm)
      | err e ↦ err e
      | panic ↦ panic
    ]
