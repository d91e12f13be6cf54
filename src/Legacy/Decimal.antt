-- ===== src/Legacy/Decimal.antt =====
-- `u32::to_string`: the digits give the number back.
use oo.Prelude.{
  ℕ, zero, suc, ◌+◌, ◌-◌, ◌*◌, ◌/◌, ◌%◌, ◌^◌, ◌≤◌, ◌<◌, Bool, true, false, ◌&&◌, [], ◌∷◌, ltb, leb,
  all, Text, ◌≡◌, sym, ap, ◌∙◌, arith, Bool-cases, inl, inr,
}
use native.Mathlib.Nat.{div-div-eq-div-mul, pow-suc, div-eq_of_lt}
use oo.Legacy.Items.{digits_from, decimal}

-- The number that digits stand for, read after others.
unfoldable pub number_of : ℕ → Text → ℕ
number_of acc [] = acc
number_of acc (c ∷ cs) = number_of (acc * 10 + (c - b'0')) cs

div-pow : (n k : ℕ) → n / 10 ^ suc (suc k) ≡ n / 10 ^ suc k / 10
div-pow n k = rw (pow-suc 10 (suc k)) (sym (div-div-eq-div-mul n (10 ^ suc k) 10))

number_of-digits_from_all :
    (k n : ℕ) → 10 ^ k ≤ n → number_of (n / 10 ^ suc k) (digits_from k n) ≡ n
unfolding number_of digits_from
number_of-digits_from_all zero n h = omega arith
number_of-digits_from_all (suc k) n h =
    let large : ltb n (10 ^ suc k) ≡ false = ground (arith, h) in
    let smaller : 10 ^ k ≤ n = omega (arith, h, pow-suc 10 k) in
    let step : n / 10 ^ suc (suc k) * 10 + (b'0' + n / 10 ^ suc k % 10 - b'0') ≡ n / 10 ^ suc k =
      rw (div-pow n k) (omega arith) in
    rw large (ap (λ a. number_of a (digits_from k n)) step ∙ number_of-digits_from_all k n smaller)

number_of-digits_from : (k n : ℕ) → n < 10 ^ suc k → number_of 0 (digits_from k n) ≡ n
unfolding number_of digits_from
number_of-digits_from zero n h = omega (arith, h)
number_of-digits_from (suc k) n h = elim (Bool-cases (ltb n (10 ^ suc k))) [
  | inl e ↦ rw (digits_from, e) (number_of-digits_from k n (ground (arith, e)))
  | inr e ↦
      let none_above : n / 10 ^ suc (suc k) ≡ 0 = div-eq_of_lt h in
      let large : 10 ^ suc k ≤ n = ground (arith, e) in
      rw (← none_above) (number_of-digits_from_all (suc k) n large)
]

-- The digits of a number below 10 ^ 10 give it back.
pub number_of-decimal : (n : ℕ) → n < 10 ^ 10 → number_of 0 (decimal n) ≡ n
unfolding decimal
number_of-decimal n h = number_of-digits_from 9 n h

pub decimal_injective : (m n : ℕ) → m < 10 ^ 10 → n < 10 ^ 10 → decimal m ≡ decimal n → m ≡ n
decimal_injective m n hm hn e =
    sym (number_of-decimal m hm) ∙ (ap (number_of 0) e ∙ number_of-decimal n hn)

-- All of them are digits.
abbrev pub is_digit : ℕ → Bool
is_digit c = leb b'0' c && leb c b'9'

digits_from_digits : (k n : ℕ) → all is_digit (digits_from k n) ≡ true
unfolding digits_from all
digits_from_digits zero n = ground arith
digits_from_digits (suc k) n = ground (arith, digits_from_digits k n)

pub decimal_digits : (n : ℕ) → all is_digit (decimal n) ≡ true
unfolding decimal
decimal_digits n = digits_from_digits 9 n
