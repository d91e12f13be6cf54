-- ===== src/Crypto/Laws.antt =====
-- The round trips and the authenticity of the wrappers of client/src/crypto/native.rs.
use oo.Prelude.{◌+◌, ◌≡◌, length, Bytes, arith}
use oo.Outcome.{ok}
use oo.Crypto.{Primitives, IsLawful, Key, encrypt, decrypt}

-- The key and the initialisation vector have the sizes that the cipher takes.
abbrev pub Fits : (p : Primitives) → Key → Bytes → Type 0
Fits p k iv = (length k.key ≡ p.key_size) × (length iv ≡ p.iv_size)

module _ ⦃p : Primitives⦄ (lawful : IsLawful p) where
  pub decrypt-encrypt :
      (data_in : Bytes) (k : Key) (iv : Bytes)
      → Fits p k iv
      → (b : Bytes) × (encrypt data_in k iv ≡ ok b) × (decrypt b k iv ≡ ok data_in)
  unfolding encrypt decrypt
  decrypt-encrypt data_in k iv fits =
      let r = lawful.room k.key iv data_in fits.0 fits.1 in
      let back = lawful.inverse k.key iv data_in r.0 (length data_in + p.block_size) r.1 in
      (r.0, ground arith, ground arith)
