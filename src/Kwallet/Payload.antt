-- ===== src/Kwallet/Payload.antt =====
-- kwallet/parser/src/crypto.rs: the payload of a modern file and the byte order of a legacy one.
use oo.Prelude.{
  ℕ, zero, suc, ◌+◌, ◌-◌, ◌%◌, ◌≤◌, Bool, true, false, Bool-cases, inl, inr, [], ◌∷◌, ◌≡◌, ◌∙◌,
  refl, sym, ap, arith, length, take, drop, length-take, Bytes, bytes_eq, bytes_eq→eq,
  if◌then◌else◌, ◌==◌, ltb,
}
use oo.Kwallet.Termination.{err-ok}
use oo.Kwallet.Headers.{unit_eq}
use oo.Outcome.{>>=-ok, ok-injective, Result, ok, err, ◌>>=◌}
use oo.Kwallet.{KwalletError, hash_validation_failed, invalid_data_structure}
use oo.Kwallet.Data.{from_be_bytes}
use oo.Kwallet.Sha1.{kwallet_sha1}
use oo.Kwallet.Crypto.{switch_endianness, swap_words, validate_sha1, extract_wallet_data}

swap_words-swap_words : (s : Bytes) → length s % 4 ≡ 0 → swap_words (swap_words s) ≡ s
unfolding swap_words
swap_words-swap_words [] h = refl
swap_words-swap_words (a ∷ []) h = absurd (omega arith)
swap_words-swap_words (a ∷ b ∷ []) h = absurd (omega arith)
swap_words-swap_words (a ∷ b ∷ c ∷ []) h = absurd (omega arith)
swap_words-swap_words (a ∷ b ∷ c ∷ d ∷ s) h =
    ap (λ t. a ∷ b ∷ c ∷ d ∷ t) (swap_words-swap_words s (omega arith))

length-swap_words : (s : Bytes) → length s % 4 ≡ 0 → length (swap_words s) ≡ length s
unfolding swap_words
length-swap_words [] h = refl
length-swap_words (a ∷ []) h = absurd (omega arith)
length-swap_words (a ∷ b ∷ []) h = absurd (omega arith)
length-swap_words (a ∷ b ∷ c ∷ []) h = absurd (omega arith)
length-swap_words (a ∷ b ∷ c ∷ d ∷ s) h = omega (arith, length-swap_words s (omega arith))

-- Switching the byte order of whole words twice gives the bytes back, and once keeps their number.
pub switch_endianness-switch_endianness :
    (s : Bytes)
    → length s % 4 ≡ 0
    → ((switch_endianness s >>= switch_endianness) ≡ ok s)
      × ((t : Bytes) × (switch_endianness s ≡ ok t) × (length t ≡ length s))
unfolding switch_endianness
switch_endianness-switch_endianness s h =
    let whole : (length s % 4 == 0) ≡ true = ground arith in
    let same = length-swap_words s h in
    let once : switch_endianness s ≡ ok (swap_words s) = rw (switch_endianness, whole) in
    let twice : switch_endianness (swap_words s) ≡ ok s =
      rw (switch_endianness, same, whole, swap_words-swap_words s h) in
    (rw (once, twice), (swap_words s, once, same))

pub length-kwallet_sha1 : (s : Bytes) → length (kwallet_sha1 s) ≡ 20
unfolding kwallet_sha1
length-kwallet_sha1 s = refl

length-drop : (n : ℕ) (s : Bytes) → n ≤ length s → length (drop n s) + n ≡ length s
length-drop zero s h = omega arith
length-drop (suc n) [] h = absurd (omega arith)
length-drop (suc n) (b ∷ s) h = omega (arith, length-drop n s (omega arith))

-- A test that did not end in an error did not hold.
if_passed :
    {A : Type 0} (b : Bool) (e : KwalletError) (r : Result KwalletError A) (a : A)
    → (if b then err e else r) ≡ ok a
    → (b ≡ false) × (r ≡ ok a)
if_passed true e r a h = absurd cc
if_passed false e r a h = (refl, h)

validate_sha1-only : (s hash : Bytes) → validate_sha1 s hash ≡ ok tt → kwallet_sha1 s ≡ hash
unfolding validate_sha1
validate_sha1-only s hash h = elim (Bool-cases (bytes_eq (kwallet_sha1 s) hash)) [
  | inl e ↦ bytes_eq→eq _ hash e
  | inr e ↦ absurd (err-ok (sym (rejected e) ∙ h))
]
  where
    rejected :
        bytes_eq (kwallet_sha1 s) hash ≡ false → validate_sha1 s hash ≡ err hash_validation_failed
    rejected e = rw (validate_sha1, e)

-- A payload that is accepted ends in the hash of its contents, and the contents are the bytes behind
-- the first block and the length, as many as that length says; the hash and these parts do not overlap.
pub extract_wallet_data-only :
    (decrypted contents : Bytes)
    → extract_wallet_data decrypted ≡ ok contents
    → (kwallet_sha1 contents ≡ drop (length decrypted - 20) decrypted)
      × ((length contents ≡ from_be_bytes (take 4 (drop 8 decrypted)))
          × ((contents ≡ take (length contents) (drop 12 decrypted))
              × (12 + length contents + 20 ≤ length decrypted)))
unfolding extract_wallet_data
extract_wallet_data-only decrypted contents h =
    let n = from_be_bytes (take 4 (drop 8 decrypted)) in
    let checked =
      validate_sha1 (take n (drop 12 decrypted)) (drop (length decrypted - 20) decrypted) >>= λ _.
      ok (take n (drop 12 decrypted)) in
    let too_long = ltb (length decrypted - 12 - 20) n in
    let too_short = ltb (length decrypted) 32 in
    let (e₁, h₁) =
      if_passed too_short invalid_data_structure
        (if too_long then err invalid_data_structure else checked) contents h in
    let (e₂, h₂) = if_passed too_long invalid_data_structure checked contents h₁ in
    let (u, e₃, h₃) =
      >>=-ok (validate_sha1 (take n (drop 12 decrypted)) (drop (length decrypted - 20) decrypted))
        (λ _. ok (take n (drop 12 decrypted))) h₂ in
    let same : take n (drop 12 decrypted) ≡ contents = ok-injective h₃ in
    let long : 32 ≤ length decrypted = ground arith in
    let fits : n + 32 ≤ length decrypted = ground arith in
    let size : length contents ≡ n = rw (← same) (
      length-take n (drop 12 decrypted)
        (omega (arith, length-drop 12 decrypted (omega (arith, long))))) in
    (
      rw (← same) (validate_sha1-only _ _ (e₃ ∙ ap ok (unit_eq u))),
      (size, (rw size (sym same), omega (arith, size, fits))),
    )
