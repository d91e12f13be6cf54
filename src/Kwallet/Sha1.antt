-- ===== src/Kwallet/Sha1.antt =====
-- kwallet/parser/src/crypto.rs, `kwallet_sha1_le`: SHA-1 whose words are read and written with the
-- low byte first. A word is a number below 2 ^ 32.
use oo.Prelude.{
  ℕ, zero, suc, ◌+◌, ◌-◌, ◌*◌, ◌/◌, ◌%◌, ◌^◌, none, some, List, [], ◌∷◌, ◌++◌, length, take, drop,
  get_elem?, set, leb, ltb, ◌==◌, if◌then◌else◌, Bytes,
}

-- A bitwise operation on the low bits, by what it does on one bit.
pub bitwise : (ℕ → ℕ → ℕ) → ℕ → ℕ → ℕ → ℕ
bitwise f zero a b = 0
bitwise f (suc n) a b = f (a % 2) (b % 2) + 2 * bitwise f n (a / 2) (b / 2)

infixl 32 ◌⊕◌
abbrev pub ◌⊕◌ : ℕ → ℕ → ℕ
unfolding bitwise
a ⊕ b = bitwise (λ x y. (x + y) % 2) 32 a b

abbrev pub bit_and : ℕ → ℕ → ℕ
unfolding bitwise
bit_and a b = bitwise (λ x y. x * y) 32 a b

abbrev pub bit_or : ℕ → ℕ → ℕ
unfolding bitwise
bit_or a b = bitwise (λ x y. x + y - x * y) 32 a b

abbrev pub wrapping_add : ℕ → ℕ → ℕ
wrapping_add a b = (a + b) % 2 ^ 32

abbrev pub rotate_left : ℕ → ℕ → ℕ
rotate_left k a = (a * 2 ^ k) % 2 ^ 32 + a / 2 ^ (32 - k)

-- Zeros until the length is 56 modulo 64; no more than 63 are ever needed.
unfoldable pub push_zeros : ℕ → Bytes → Bytes
push_zeros zero padded = padded
push_zeros (suc fuel) padded =
    let more = push_zeros fuel (padded ++ 0 ∷ []) in
    if length padded % 64 == 56 then padded else more

-- A 64-bit number, big-endian.
abbrev pub to_be_bytes : ℕ → Bytes
to_be_bytes n =
    n / 2 ^ 56 % 256
    ∷ n / 2 ^ 48 % 256
    ∷ n / 2 ^ 40 % 256
    ∷ n / 2 ^ 32 % 256
    ∷ n / 2 ^ 24 % 256
    ∷ n / 2 ^ 16 % 256
    ∷ n / 2 ^ 8 % 256
    ∷ n % 256
    ∷ []

unfoldable pub padded_of : Bytes → Bytes
unfolding push_zeros
padded_of data' = push_zeros 64 (data' ++ 0x80 ∷ []) ++ to_be_bytes (length data' * 8 % 2 ^ 64)

-- A 32-bit number, little-endian.
abbrev pub to_le_bytes : ℕ → Bytes
to_le_bytes n = n % 256 ∷ n / 2 ^ 8 % 256 ∷ n / 2 ^ 16 % 256 ∷ n / 2 ^ 24 % 256 ∷ []

-- The words of a chunk.
words_of : Bytes → List ℕ
words_of (a ∷ b ∷ c ∷ d ∷ rest) = (a + b * 2 ^ 8 + c * 2 ^ 16 + d * 2 ^ 24) ∷ words_of rest
words_of other = []

-- An index within the sixteen words.
at : List ℕ → ℕ → ℕ
at w i = elim (get_elem? w (i % 16)) [ none ↦ 0 | some x ↦ x ]

pub record Sha1 : Type 0 where
  pub h0 : ℕ
  pub h1 : ℕ
  pub h2 : ℕ
  pub h3 : ℕ
  pub h4 : ℕ

abbrev pub initial : Sha1
initial = record {
  h0 = 0x67452301;
  h1 = 0xefcdab89;
  h2 = 0x98badcfe;
  h3 = 0x10325476;
  h4 = 0xc3d2e1f0;
}

-- The function and the constant of a round.
round_f : ℕ → ℕ → ℕ → ℕ → ℕ × ℕ
round_f i b c d =
    if ltb i 20
    then (d ⊕ bit_and b (c ⊕ d), 0x5a827999)
    else if ltb i 40
    then (b ⊕ c ⊕ d, 0x6ed9eba1)
    else if ltb i 60
    then (bit_or (bit_and b c) (bit_and d (bit_or b c)), 0x8f1bbcdc)
    else (b ⊕ c ⊕ d, 0xca62c1d6)

-- The word of a round, and the words after it.
schedule : ℕ → List ℕ → ℕ × List ℕ
unfolding at
schedule i w =
    if ltb i 16
    then (at w i, w)
    else (let m = rotate_left 1 (at w i ⊕ at w (i - 14) ⊕ at w (i - 8) ⊕ at w (i - 3)) in
        (m, set w (i % 16) m))

unfoldable pub rounds : ℕ → ℕ → List ℕ → Sha1 → Sha1
unfolding round_f schedule
rounds zero i w s = s
rounds (suc n) i w s =
    let (f, k) = round_f i s.h1 s.h2 s.h3 in
    let (m, w₁) = schedule i w in
    let temp =
      wrapping_add (wrapping_add (wrapping_add (wrapping_add (rotate_left 5 s.h0) f) s.h4) k) m in
    rounds n (suc i) w₁
      (record { h0 = temp; h1 = s.h0; h2 = rotate_left 30 s.h1; h3 = s.h2; h4 = s.h3 })

unfoldable pub compress : Bytes → Sha1 → Sha1
unfolding words_of rounds
compress chunk s =
    let r = rounds 80 0 (words_of chunk) s in
    record {
      h0 = wrapping_add s.h0 r.h0;
      h1 = wrapping_add s.h1 r.h1;
      h2 = wrapping_add s.h2 r.h2;
      h3 = wrapping_add s.h3 r.h3;
      h4 = wrapping_add s.h4 r.h4;
    }

-- The chunks of 64 bytes, the last one whole; there are fewer chunks than bytes.
unfoldable pub each_chunk : ℕ → Bytes → Sha1 → Sha1
unfolding compress
each_chunk zero padded s = s
each_chunk (suc fuel) padded s =
    let after = each_chunk fuel (drop 64 padded) (compress (take 64 padded) s) in
    if leb 64 (length padded) then after else s

unfoldable pub kwallet_sha1 : Bytes → Bytes
unfolding each_chunk padded_of
kwallet_sha1 data' =
    let padded = padded_of data' in
    let s = each_chunk (length padded) padded initial in
    to_le_bytes s.h0
    ++ (to_le_bytes s.h1 ++ (to_le_bytes s.h2 ++ (to_le_bytes s.h3 ++ to_le_bytes s.h4)))
