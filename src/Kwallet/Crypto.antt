-- ===== src/Kwallet/Crypto.antt =====
-- kwallet/parser/src/crypto.rs: the keys, the ciphers and the payload behind them.
use oo.Prelude.{
  ℕ, zero, suc, ◌+◌, ◌-◌, ◌%◌, Option, none, some, List, [], ◌∷◌, ◌++◌, map, length, take, drop,
  leb, ltb, ◌==◌, if◌then◌else◌, Bytes, bytes_eq, get_elem?,
}
use oo.Outcome.{Result, ok, err, ◌>>◌, or_err}
use oo.Kwallet.{KwalletError, hash_validation_failed, invalid_data_structure, decryption_failed}
use oo.Kwallet.Data.{from_be_bytes}
use oo.Kwallet.Sha1.{kwallet_sha1}

-- What the crates `sha1`, `md5`, `pbkdf2`, `blowfish`, `cbc` and `ecb` give. A cipher gives nothing
-- where it refuses its key, its IV, or a length that is not whole blocks.
pub record KwalletPrimitives : Type 0 where
  pub sha1_digest : Bytes → Bytes
  pub md5_digest : Bytes → Bytes
  pub pbkdf2_sha512 : Bytes → Bytes → ℕ → ℕ → Bytes
  pub blowfish_cbc_decrypt : Bytes → Bytes → Bytes → Option Bytes
  pub blowfish_ecb_decrypt : Bytes → Bytes → Option Bytes

abbrev pub blowfish_block_size : ℕ
blowfish_block_size = 8

abbrev pub pbkdf2_sha512_keysize : ℕ
pbkdf2_sha512_keysize = 56

abbrev pub pbkdf2_sha512_iterations : ℕ
pbkdf2_sha512_iterations = 50000

-- `chunks`: as many pieces of `n` bytes as there are, the last one may be shorter.
unfoldable pub chunks : ℕ → ℕ → Bytes → List Bytes
chunks fuel n [] = []
chunks zero n (b ∷ bs) = []
chunks (suc fuel) n (b ∷ bs) = take n (b ∷ bs) ∷ chunks fuel n (drop n (b ∷ bs))

-- Every four bytes the other way round; the length is a multiple of four.
unfoldable pub swap_words : Bytes → Bytes
swap_words (a ∷ b ∷ c ∷ d ∷ rest) = d ∷ c ∷ b ∷ a ∷ swap_words rest
swap_words other = []

unfoldable pub switch_endianness : Bytes → Result KwalletError Bytes
unfolding swap_words
switch_endianness data' =
    if length data' % 4 == 0 then ok (swap_words data') else err invalid_data_structure

module _ ⦃p : KwalletPrimitives⦄ where
  rehash : ℕ → Bytes → Bytes
  rehash zero hash = hash
  rehash (suc n) hash = rehash n (p.sha1_digest hash)

  unfoldable pub hash_block_2000 : Bytes → Bytes
  unfolding rehash
  hash_block_2000 block = rehash 1999 (p.sha1_digest block)

  -- The part of a hashed block that goes into a key; `&hashed_blocks[i]` is in bounds where it is used.
  block_at : List Bytes → ℕ → Bytes
  block_at blocks i = elim (get_elem? blocks i) [ none ↦ [] | some b ↦ b ]

  unfoldable pub derive_key_legacy : Bytes → Bytes
  unfolding block_at chunks
  derive_key_legacy [] = hash_block_2000 []
  derive_key_legacy (b ∷ bs) =
      let password = b ∷ bs in
      let blocks = map hash_block_2000 (chunks (length password) 16 password) in
      if leb (length password) 16
      then block_at blocks 0
      else if leb (length password) 32
      then block_at blocks 0 ++ block_at blocks 1
      else if leb (length password) 48
      then block_at blocks 0 ++ (block_at blocks 1 ++ take 16 (block_at blocks 2))
      else take 14 (block_at blocks 0)
        ++ (take 14 (block_at blocks 1)
            ++ (take 14 (block_at blocks 2) ++ take 14 (block_at blocks 3)))

  unfoldable pub derive_key_pbkdf2_sha512 : Bytes → Bytes → Bytes
  derive_key_pbkdf2_sha512 password salt =
      p.pbkdf2_sha512 password salt pbkdf2_sha512_iterations pbkdf2_sha512_keysize

  -- With a zero IV.
  unfoldable pub decrypt_blowfish_cbc : Bytes → Bytes → Result KwalletError Bytes
  decrypt_blowfish_cbc key encrypted =
      or_err decryption_failed
        (p.blowfish_cbc_decrypt key (0 ∷ 0 ∷ 0 ∷ 0 ∷ 0 ∷ 0 ∷ 0 ∷ 0 ∷ []) encrypted)

  unfoldable pub decrypt_blowfish_ecb : Bytes → Bytes → Result KwalletError Bytes
  decrypt_blowfish_ecb key encrypted =
      or_err decryption_failed (p.blowfish_ecb_decrypt key encrypted)

  unfoldable pub compute_md5 : Bytes → Bytes
  compute_md5 data' = p.md5_digest data'

unfoldable pub validate_sha1 : Bytes → Bytes → Result KwalletError (Unit {0})
validate_sha1 data' expected_hash =
    if bytes_eq (kwallet_sha1 data') expected_hash then ok tt else err hash_validation_failed

unfoldable pub extract_wallet_data : Bytes → Result KwalletError Bytes
extract_wallet_data decrypted =
    let data_size = from_be_bytes (take 4 (drop blowfish_block_size decrypted)) in
    let offset = blowfish_block_size + 4 in
    let wallet_data = take data_size (drop offset decrypted) in
    let hash_offset = length decrypted - 20 in
    if ltb (length decrypted) (blowfish_block_size + 4 + 20)
    then err invalid_data_structure
    else if ltb (length decrypted - offset - 20) data_size
    then err invalid_data_structure
    else (do validate_sha1 wallet_data (drop hash_offset decrypted); ok wallet_data)
