-- ===== src/Crypto.antt =====
-- client/src/crypto/native.rs over the primitives of the cipher crates, and the keys and MACs of
-- client/src/key.rs and client/src/mac.rs.

pub mod Laws
pub mod KeyExchange
use oo.Prelude.{
  ℕ, zero, suc, ◌+◌, ◌-◌, ◌++◌, take, drop, leb, Bool, true, false, ◌&&◌, Option, none, some, List,
  [], ◌∷◌, ◌≡◌, length, ◌==◌, if◌then◌else◌, Bytes, bytes_eq,
}
use oo.Outcome.{
  Outcome, ok, err, panic, or_err, ◌>>=◌, ◌>>◌, WeakKeyError, strength_unknown, crypto, weak_key,
  pad_error,
}

-- What the crates `aes`, `cbc`, `hmac`, `sha2`, `pbkdf2` and `md5` give: AES-128 in CBC mode,
-- HMAC-SHA256 and PBKDF2 over it, and the hashes MD5 and SHA-256. A padded encryption writes into a buffer of the given size and
-- fails if this is too small. `none` is a padding error.
pub record Primitives : Type 0 where
  pub key_size : ℕ
  pub iv_size : ℕ
  pub block_size : ℕ
  pub mac_size : ℕ
  pub encrypt_padded : Bytes → Bytes → Bytes → ℕ → Option Bytes
  pub decrypt_padded : Bytes → Bytes → Bytes → Option Bytes
  pub decrypt_unpadded : Bytes → Bytes → Bytes → Option Bytes
  pub hmac : Bytes → Bytes → Bytes
  pub verify_slice : Bytes → Bytes → Bytes → Bool
  pub pbkdf2 : Bytes → Bytes → ℕ → ℕ → Bytes
  pub md5 : Bytes → Bytes
  pub sha256 : Bytes → Bytes

-- Their documented behaviour, as far as the theorems use it: what is encrypted is decrypted again
-- under the same key and initialisation vector, a buffer with a block to spare is large enough, a
-- tag is accepted if and only if it is the computed one, and the outputs have their sizes.
pub record IsLawful (p : Primitives) : Type 0 where
  pub block_is_key : p.block_size ≡ p.key_size
  pub room :
      (k v d : Bytes)
      → length k ≡ p.key_size
      → length v ≡ p.iv_size
      → (b : Bytes) × (p.encrypt_padded k v d (length d + p.block_size) ≡ some b)
  pub inverse :
      (k v d b : Bytes) (room : ℕ)
      → p.encrypt_padded k v d room ≡ some b
      → p.decrypt_padded k v b ≡ some d
  pub length-hmac : (k d : Bytes) → length (p.hmac k d) ≡ p.mac_size
  pub accepts : (k d : Bytes) → p.verify_slice k d (p.hmac k d) ≡ true
  pub accepts_only : (k d t : Bytes) → p.verify_slice k d t ≡ true → t ≡ p.hmac k d
  pub length-pbkdf2 : (s t : Bytes) (n size : ℕ) → length (p.pbkdf2 s t n size) ≡ size

-- `Key`; the strength is `Ok(())` at `none`.
pub record Key : Type 0 where
  pub key : Bytes
  pub strength : Option WeakKeyError

pub record Mac : Type 0 where
  pub inner : Bytes

-- `Mac::eq`, the constant-time comparison.
unfoldable pub mac_eq : Mac → Mac → Bool
unfolding bytes_eq
mac_eq a b = bytes_eq a.inner b.inner

pub new_key : Bytes → Key
new_key k = record { key = k; strength = some strength_unknown }

unfoldable pub check_strength : Key → Outcome (Unit {0})
check_strength k = elim k.strength [ none ↦ ok tt | some e ↦ err (weak_key e) ]

module _ ⦃p : Primitives⦄ where
  -- `new_from_slices(key, iv).expect(…)`
  unfoldable pub new_from_slices : Key → Bytes → Outcome (Unit {0})
  new_from_slices k iv =
      if (length k.key == p.key_size) && (length iv == p.iv_size) then ok tt else panic

  unfoldable pub encrypt : Bytes → Key → Bytes → Outcome Bytes
  unfolding new_from_slices
  encrypt data_in k iv = do
    new_from_slices k iv
    or_err (crypto pad_error) (p.encrypt_padded k.key iv data_in (length data_in + p.block_size))

  unfoldable pub decrypt : Bytes → Key → Bytes → Outcome Bytes
  unfolding new_from_slices
  decrypt blob k iv = do
    new_from_slices k iv
    or_err (crypto pad_error) (p.decrypt_padded k.key iv blob)

  unfoldable pub decrypt_no_padding : Bytes → Key → Bytes → Outcome Bytes
  unfolding new_from_slices
  decrypt_no_padding blob k iv = do
    new_from_slices k iv
    or_err (crypto pad_error) (p.decrypt_unpadded k.key iv blob)

  abbrev pub iv_len : ℕ
  iv_len = p.iv_size

  abbrev pub mac_len : ℕ
  mac_len = p.mac_size

  unfoldable pub compute_mac : Bytes → Key → Outcome Mac
  compute_mac data_in k = ok (record { inner = p.hmac k.key data_in })

  unfoldable pub verify_mac : Bytes → Key → Bytes → Outcome Bool
  verify_mac data_in k expected_mac = ok (p.verify_slice k.key data_in expected_mac)

  unfoldable pub verify_checksum_md5 : Bytes → Bytes → Bool
  unfolding bytes_eq
  verify_checksum_md5 digest content = bytes_eq (p.md5 content) digest

  unfoldable pub derive_key : Bytes → Option WeakKeyError → Bytes → ℕ → Outcome Key
  derive_key secret key_strength salt iteration_count =
      ok (record {
        key = p.pbkdf2 secret salt iteration_count p.block_size;
        strength = key_strength;
      })

  -- `for _ in 1..iteration_count`
  unfoldable pub hash_again : ℕ → Bytes → Bytes
  hash_again zero digest = digest
  hash_again (suc n) digest = hash_again n (p.sha256 digest)

  -- The loop of the source ends in its first round, if one hash fills the buffer; else
  -- `copy_from_slice` panics, since the lengths differ.
  unfoldable pub legacy_derive_key_and_iv :
      Bytes → Option WeakKeyError → Bytes → ℕ → Outcome (Key × Bytes)
  unfolding hash_again
  legacy_derive_key_and_iv secret key_strength salt iteration_count =
      let size = p.key_size + p.iv_size in
      let digest = hash_again (iteration_count - 1) (p.sha256 (secret ++ salt)) in
      if leb size (length digest)
      then ok (
        record { key = take p.key_size digest; strength = key_strength },
        take p.iv_size (drop p.key_size digest),
      )
      else panic
