-- ===== src/Kwallet/Padding.antt =====
-- kwallet/parser/src/crypto.rs, `kwallet_sha1_le`: the padding of a message.
use oo.Prelude.{
  ℕ, zero, suc, ◌+◌, ◌-◌, ◌%◌, ◌≤◌, true, false, Bool-cases, inl, inr, [], ◌∷◌, ◌++◌, ◌≡◌, refl,
  arith, length, length-append, Bytes, ◌==◌,
}
use oo.Kwallet.Sha1.{push_zeros, padded_of}

-- The zeros that are missing.
abbrev missing : ℕ → ℕ
missing n = (56 + 64 - n % 64) % 64

missing_step : (n : ℕ) → (n % 64 == 56) ≡ false → missing (n + 1) + 1 ≡ missing n
missing_step n h = ground arith

missing_none : (n : ℕ) → (n % 64 == 56) ≡ true → missing n ≡ 0
missing_none n h = ground arith

-- As many zeros as are missing, if there are rounds for them.
length-push_zeros :
    (fuel : ℕ) (padded : Bytes)
    → missing (length padded) ≤ fuel
    → length (push_zeros fuel padded) ≡ length padded + missing (length padded)
unfolding push_zeros
length-push_zeros zero padded h = omega arith
length-push_zeros (suc fuel) padded h = elim (Bool-cases (length padded % 64 == 56)) [
  | inl e ↦ rw (push_zeros, e, missing_none (length padded) e) (omega arith)
  | inr e ↦
      let grown : length (padded ++ 0 ∷ []) ≡ length padded + 1 = length-append padded (0 ∷ []) in
      let step = missing_step (length padded) e in
      let room : missing (length (padded ++ 0 ∷ [])) ≤ fuel = rw grown (omega (arith, step, h)) in
      rw (push_zeros, e, length-push_zeros fuel (padded ++ 0 ∷ []) room, grown)
        (omega (arith, step))
]

total : (n m : ℕ) → m ≡ n + 1 + missing (n + 1) + 8 → (m % 64 ≡ 0) × ((n + 9 ≤ m) × (m ≤ n + 72))
total n m e = (omega arith, (omega arith, omega arith))

-- A padded message is whole chunks of 64 bytes, and at most 72 bytes longer than the message: the loop
-- that pushes zeros ends within the rounds that it is given.
pub length-padded_of :
    (data' : Bytes)
    → (length (padded_of data') % 64 ≡ 0)
      × ((length data' + 9 ≤ length (padded_of data'))
          × (length (padded_of data') ≤ length data' + 72))
unfolding padded_of
length-padded_of data' = total (length data') (length (padded_of data')) (
    rw
      (
        padded_of,
        length-append,
        length-push_zeros 64 (data' ++ 0x80 ∷ []) (omega arith),
        length-append data' (0x80 ∷ []),
      )
      refl)
