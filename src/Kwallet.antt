-- ===== src/Kwallet.antt =====
-- kwallet/parser/src: the reader of KWallet files. A reader is what it has not yet given: `?` ends a
-- step on the first error.
pub mod Format
pub mod Data
pub mod Wallet
pub mod Print
pub mod Headers
pub mod Payload
pub mod Padding
pub mod Termination
pub mod Hashes
pub mod Convert
pub mod File
pub mod Crypto
pub mod Sha1
use oo.Prelude.{ℕ, Bool, true, false, Bytes, if◌then◌else◌, ◌==◌, leb, length, take, drop, []}
use oo.Outcome.{Result, ok, err, panic, IoErrorKind, unexpected_eof}
use oo.Exec.{Step}

-- kwallet/parser/src/format.rs, `CipherType` and `HashType`.
pub data CipherType : Type 0 where
  blowfish_ecb triple_des_cbc gpg blowfish_cbc : CipherType

pub data HashType : Type 0 where
  sha1 md5 pbkdf2_sha512 : HashType

-- kwallet/parser/src/error.rs, `Error`.
pub data KwalletError : Type 0 where
  invalid_magic : KwalletError
  unsupported_version : ℕ → ℕ → KwalletError
  unsupported_cipher : CipherType → KwalletError
  unsupported_hash : HashType → KwalletError
  unknown_cipher : ℕ → KwalletError
  unknown_hash : ℕ → KwalletError
  file_too_small : ℕ → KwalletError
  invalid_salt : KwalletError
  decryption_failed : KwalletError
  hash_validation_failed : KwalletError
  invalid_data_structure : KwalletError
  io : IoErrorKind → KwalletError

-- `Read::read_exact` into a buffer of `n` bytes.
unfoldable pub read_exact : ℕ → Step KwalletError Bytes Bytes
read_exact n s =
    if leb n (length s) then (ok (take n s), drop n s) else (err (io unexpected_eof), [])
