-- ===== src/Crypto/KeyExchange/Powers.antt =====
-- client/src/crypto/native.rs, `powm`: the loop against the power, and what the two sides agree on.
use oo.Prelude.{
  ℕ, zero, suc, ◌+◌, ◌*◌, ◌/◌, ◌%◌, ◌^◌, ◌≤◌, ◌<◌, Bool-cases, inl, inr, ◌≡◌, ◌∙◌, sym, ap, arith,
  ◌==◌,
}
use native.Mathlib.Nat.{
  mod-add-div, mul_assoc, mul_comm, add-mul-mod_self_left, pow-zero, pow-suc, mul_left_comm,
  mul-one, one-mul, mul-suc, mod-lt, mod-eq_of_lt,
}
use oo.Crypto.KeyExchange.{powm_loop, powm, dh_prime}

distrib : (a b c : ℕ) → (a + b) * c ≡ a * c + b * c
distrib a b c = grind arith

mod-mul-mod : (a b m : ℕ) → a % m * b % m ≡ a * b % m
mod-mul-mod a b m =
    let e : a * b ≡ a % m * b + m * (a / m * b) =
      ap (λ x. x * b) (sym (mod-add-div a m))
      ∙ (distrib (a % m) (m * (a / m)) b ∙ ap (λ x. a % m * b + x) (mul_assoc m (a / m) b)) in
    sym (ap (λ x. x % m) e ∙ add-mul-mod_self_left (a % m * b) m (a / m * b))

pow_square : (b k : ℕ) → (b * b) ^ k ≡ b ^ (2 * k)
pow_square b zero = pow-zero (b * b) ∙ sym (pow-zero b)
pow_square b (suc k) =
    let e : 2 * suc k ≡ suc (suc (2 * k)) = omega arith in
    rw (pow-suc (b * b) k, e, pow-suc b (suc (2 * k)), pow-suc b (2 * k), pow_square b k)
      (sym (mul_assoc (b ^ (2 * k)) b b))

pow-mod : (b n r m : ℕ) → (b % m) ^ n * r % m ≡ b ^ n * r % m
pow-mod b zero r m = rw (pow-zero (b % m), pow-zero b)
pow-mod b (suc n) r m =
    let open_left : (b % m) ^ suc n * r ≡ (b % m) ^ n * (b % m * r) =
      rw (pow-suc (b % m) n) (mul_assoc ((b % m) ^ n) (b % m) r) in
    let swap : b ^ n * (b % m * r) ≡ b % m * (b ^ n * r) = mul_left_comm (b ^ n) (b % m) r in
    let close : b * (b ^ n * r) ≡ b ^ suc n * r =
      rw (pow-suc b n) (sym (mul_assoc b (b ^ n) r) ∙ ap (λ x. x * r) (mul_comm b (b ^ n))) in
    ap (λ x. x % m) open_left
    ∙ (pow-mod b n (b % m * r) m
        ∙ (ap (λ x. x % m) swap ∙ (mod-mul-mod b (b ^ n * r) m ∙ ap (λ x. x % m) close)))

-- A round of the loop: the square and half of the exponent.
half_power : (base k r m : ℕ) → r * (base * base % m) ^ k % m ≡ r * base ^ (2 * k) % m
half_power base k r m =
    ap (λ x. x % m) (mul_comm r ((base * base % m) ^ k))
    ∙ (pow-mod (base * base) k r m
        ∙ ap (λ x. x % m) (ap (λ x. x * r) (pow_square base k) ∙ mul_comm (base ^ (2 * k)) r))

powm_loop-mod :
    (m fuel base exp result : ℕ)
    → exp ≤ fuel
    → powm_loop m fuel base exp result % m ≡ result * base ^ exp % m
unfolding powm_loop
powm_loop-mod m zero base exp result h =
    let none_left : exp ≡ 0 = omega arith in
    rw (none_left, pow-zero base) (ap (λ x. x % m) (sym (mul-one result)))
powm_loop-mod m (suc fuel) base exp result h = elim (Bool-cases (exp == 0)) [
  | inl e ↦
      let none_left : exp ≡ 0 = ground arith in
      rw (powm_loop, e, none_left, pow-zero base) (ap (λ x. x % m) (sym (mul-one result)))
  | inr e ↦ elim (Bool-cases (exp % 2 == 1)) [
    | inl odd ↦
        let parts : exp ≡ suc (2 * (exp / 2)) = ground arith in
        let rest =
          powm_loop-mod m fuel (base * base % m) (exp / 2) (result * base % m) (ground arith) in
        let power : result * base * base ^ (2 * (exp / 2)) ≡ result * base ^ exp =
          mul_assoc result base (base ^ (2 * (exp / 2)))
          ∙ ap (λ x. result * x)
              (mul_comm base (base ^ (2 * (exp / 2)))
                ∙ (sym (pow-suc base (2 * (exp / 2))) ∙ ap (λ x. base ^ x) (sym parts))) in
        rw (powm_loop, e, odd)
          (rest
            ∙ (mod-mul-mod (result * base) ((base * base % m) ^ (exp / 2)) m
                ∙ (half_power base (exp / 2) (result * base) m ∙ ap (λ x. x % m) power)))
    | inr even ↦
        let parts : 2 * (exp / 2) ≡ exp = ground arith in
        let rest = powm_loop-mod m fuel (base * base % m) (exp / 2) result (ground arith) in
        rw (powm_loop, e, even)
          (rest ∙ (half_power base (exp / 2) result m ∙ ap (λ x. result * base ^ x % m) parts))
  ]
]

pub powm_loop-lt : (m fuel base exp result : ℕ) → result < m → powm_loop m fuel base exp result < m
unfolding powm_loop
powm_loop-lt m zero base exp result h = h
powm_loop-lt m (suc fuel) base exp result h = elim (Bool-cases (exp == 0)) [
  | inl e ↦ rw (powm_loop, e) h
  | inr e ↦ elim (Bool-cases (exp % 2 == 1)) [
    | inl odd ↦
        rw (powm_loop, e, odd)
          (powm_loop-lt m fuel (base * base % m) (exp / 2) (result * base % m)
            (mod-lt (result * base) (omega (arith, h))))
    | inr even ↦ rw (powm_loop, e, even) (powm_loop-lt m fuel (base * base % m) (exp / 2) result h)
  ]
]

pub one_lt_dh_prime : 1 < dh_prime
unfolding dh_prime
one_lt_dh_prime = omega arith

-- The loop of squares computes the remainder of the power, for every base and exponent: it ends within
-- as many rounds as the exponent says, and the result is below the prime.
pub powm-power : (base exp : ℕ) → powm base exp ≡ base ^ exp % dh_prime
unfolding powm
powm-power base exp =
    sym (mod-eq_of_lt (powm_loop-lt dh_prime exp base exp 1 one_lt_dh_prime))
    ∙ (powm_loop-mod dh_prime exp base exp 1 (omega arith)
        ∙ ap (λ x. x % dh_prime) (one-mul (base ^ exp)))

pow-sum : (x n k : ℕ) → x ^ (n + k) ≡ x ^ n * x ^ k
pow-sum x n zero = let e : n + 0 ≡ n = omega arith in rw (e, pow-zero x) (sym (mul-one (x ^ n)))
pow-sum x n (suc k) =
    let e : n + suc k ≡ suc (n + k) = omega arith in
    rw (e, pow-suc x (n + k), pow-suc x k, pow-sum x n k) (mul_assoc (x ^ n) (x ^ k) x)

pow-pow : (x b a : ℕ) → (x ^ b) ^ a ≡ x ^ (b * a)
pow-pow x b zero = let e : b * 0 ≡ 0 = omega arith in rw (e, pow-zero (x ^ b), pow-zero x)
pow-pow x b (suc a) =
    let e : b * suc a ≡ b * a + b = mul-suc b a in
    rw (e, pow-suc (x ^ b) a, pow-pow x b a) (sym (pow-sum x (b * a) b))

-- A power of a power that is reduced on the way.
pub powm-powm : (x a b : ℕ) → powm (powm x b) a ≡ x ^ (b * a) % dh_prime
powm-powm x a b =
    powm-power (powm x b) a
    ∙ (ap (λ y. y ^ a % dh_prime) (powm-power x b)
        ∙ (ap (λ y. y % dh_prime) (sym (mul-one ((x ^ b % dh_prime) ^ a)))
            ∙ (pow-mod (x ^ b) a 1 dh_prime
                ∙ ap (λ y. y % dh_prime) (mul-one ((x ^ b) ^ a) ∙ pow-pow x b a))))
