-- ===== src/Crypto/KeyExchange/Agreement.antt =====
-- client/src/crypto/native.rs: the two sides of a key exchange come to the same key.
use oo.Prelude.{
  ℕ, zero, suc, ◌+◌, ◌-◌, ◌*◌, ◌/◌, ◌%◌, ◌^◌, ◌≤◌, ◌<◌, true, Bool-cases, inl, inr, [], ◌∷◌, ◌++◌,
  ◌≡◌, ◌∙◌, refl, sym, ap, subst, arith, length, length-append, leb, ◌==◌, Bytes,
}
use native.Mathlib.Nat.{mul_comm, pow-suc, pow-zero}
use oo.Outcome.{ok}
use oo.Crypto.KeyExchange.Powers.{powm-power, powm-powm, powm_loop-lt, one_lt_dh_prime}
use oo.Crypto.KeyExchange.{
  powm, dh_prime, bytes_to_number, digits, to_bytes_be, Hkdf, generate_public_key, generate_aes_key,
  padded_secret, zeros,
}

bytes_to_number-snoc :
    (acc : ℕ) (bs : Bytes) (b : ℕ)
    → bytes_to_number acc (bs ++ b ∷ []) ≡ bytes_to_number acc bs * 256 + b
unfolding bytes_to_number
bytes_to_number-snoc acc [] b = refl
bytes_to_number-snoc acc (x ∷ bs) b = bytes_to_number-snoc (acc * 256 + x) bs b

bytes_to_number-digits : (fuel n : ℕ) → n ≤ fuel → bytes_to_number 0 (digits fuel n) ≡ n
unfolding digits bytes_to_number
bytes_to_number-digits zero n h = omega arith
bytes_to_number-digits (suc fuel) n h = elim (Bool-cases (n == 0)) [
  | inl e ↦ let none_left : 0 ≡ n = ground arith in rw (digits, e) none_left
  | inr e ↦
      let rest = bytes_to_number-digits fuel (n / 256) (ground arith) in
      rw (digits, e, bytes_to_number-snoc 0 (digits fuel (n / 256)) (n % 256), rest) (omega arith)
]

bytes_to_number-to_bytes_be : (n : ℕ) → bytes_to_number 0 (to_bytes_be n) ≡ n
unfolding to_bytes_be bytes_to_number
bytes_to_number-to_bytes_be n = elim (Bool-cases (n == 0)) [
  | inl e ↦ let none_left : 0 ≡ n = ground arith in rw (to_bytes_be, e) none_left
  | inr e ↦ rw (to_bytes_be, e) (bytes_to_number-digits n n (omega arith))
]

-- A number below a power of 256 has no more digits.
length-digits : (fuel n k : ℕ) → n < 256 ^ k → length (digits fuel n) ≤ k
unfolding digits
length-digits zero n k h = omega arith
length-digits (suc fuel) n zero h =
    let small : n < 1 = subst (λ x. n < x) (pow-zero 256) h in
    let e : (n == 0) ≡ true = ground arith in rw (digits, e) (omega arith)
length-digits (suc fuel) n (suc k) h = elim (Bool-cases (n == 0)) [
  | inl e ↦ rw (digits, e) (omega arith)
  | inr e ↦
      let wide : n < 256 ^ k * 256 = subst (λ x. n < x) (pow-suc 256 k) h in
      let rest = length-digits fuel (n / 256) k (omega (arith, wide)) in
      rw (digits, e, length-append (digits fuel (n / 256)) (n % 256 ∷ [])) (omega (arith, rest))
]

dh_prime_fits : dh_prime < 256 ^ 128
unfolding dh_prime
dh_prime_fits = omega arith

length-to_bytes_be : (n : ℕ) → n < dh_prime → length (to_bytes_be n) ≤ 128
unfolding to_bytes_be
length-to_bytes_be n h = elim (Bool-cases (n == 0)) [
  | inl e ↦ rw (to_bytes_be, e) (omega arith)
  | inr e ↦ rw (to_bytes_be, e) (length-digits n n 128 (omega (arith, h, dh_prime_fits)))
]

powm_lt : (base exp : ℕ) → powm base exp < dh_prime
unfolding powm
powm_lt base exp = powm_loop-lt dh_prime exp base exp 1 one_lt_dh_prime

bytes_to_number-generate_public_key :
    (a : Bytes) → bytes_to_number 0 (generate_public_key a) ≡ 2 ^ bytes_to_number 0 a % dh_prime
unfolding generate_public_key
bytes_to_number-generate_public_key a =
    rw (generate_public_key, bytes_to_number-to_bytes_be (powm 2 (bytes_to_number 0 a)))
      (powm-power 2 (bytes_to_number 0 a))

-- What one side computes from the public key of the other.
common_secret :
    (a b : Bytes)
    → powm (bytes_to_number 0 (generate_public_key b)) (bytes_to_number 0 a)
      ≡ 2 ^ (bytes_to_number 0 b * bytes_to_number 0 a) % dh_prime
unfolding generate_public_key
common_secret a b =
    rw (generate_public_key, bytes_to_number-to_bytes_be (powm 2 (bytes_to_number 0 b)))
      (powm-powm 2 (bytes_to_number 0 a) (bytes_to_number 0 b))

generate_aes_key-ok :
    ⦃hkdf : Hkdf⦄ (private_key public_key : Bytes)
    → generate_aes_key private_key public_key
      ≡ ok (
          hkdf.derive (
            zeros (
              128
              - length (
                  to_bytes_be
                    (powm (bytes_to_number 0 public_key) (bytes_to_number 0 private_key))))
            ++ to_bytes_be (powm (bytes_to_number 0 public_key) (bytes_to_number 0 private_key))))
unfolding generate_aes_key padded_secret
generate_aes_key-ok private_key public_key =
    let n = powm (bytes_to_number 0 public_key) (bytes_to_number 0 private_key) in
    let fits : leb (length (to_bytes_be n)) 128 ≡ true =
      let short =
        length-to_bytes_be n
          (powm_lt (bytes_to_number 0 public_key) (bytes_to_number 0 private_key)) in
      ground arith in
    rw (generate_aes_key, padded_secret, fits)

-- Both sides of a key exchange come to one key, whatever their private keys: each from its own private
-- key and the public key of the other. Neither side panics, and the public keys are powers of 2 modulo
-- the prime.
pub generate_aes_key-agree :
    ⦃hkdf : Hkdf⦄ (a b : Bytes)
    → ((key : Bytes) × (generate_aes_key a (generate_public_key b) ≡ ok key)
        × (generate_aes_key b (generate_public_key a) ≡ ok key))
      × (bytes_to_number 0 (generate_public_key a) ≡ 2 ^ bytes_to_number 0 a % dh_prime)
generate_aes_key-agree a b =
    let swap : 2 ^ (bytes_to_number 0 a * bytes_to_number 0 b) % dh_prime
        ≡ 2 ^ (bytes_to_number 0 b * bytes_to_number 0 a) % dh_prime =
      ap (λ x. 2 ^ x % dh_prime) (mul_comm (bytes_to_number 0 a) (bytes_to_number 0 b)) in
    let same : powm (bytes_to_number 0 (generate_public_key a)) (bytes_to_number 0 b)
        ≡ powm (bytes_to_number 0 (generate_public_key b)) (bytes_to_number 0 a) =
      common_secret b a ∙ (swap ∙ sym (common_secret a b)) in
    (
      (
        _,
        generate_aes_key-ok a (generate_public_key b),
        rw (generate_aes_key-ok b (generate_public_key a), same),
      ),
      bytes_to_number-generate_public_key a,
    )
