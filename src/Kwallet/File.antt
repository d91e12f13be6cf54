-- ===== src/Kwallet/File.antt =====
-- kwallet/parser/src/lib.rs: a KWallet file opened with a password.
use oo.Prelude.{◌+◌, length, take, drop, ltb, ◌==◌, if◌then◌else◌, Bytes, Text, codes}
use oo.Os.{FilePath}
use oo.Outcome.{Result, ok, err, panic, IoErrorKind, ◌>>=◌, ◌>>◌}
use oo.Kwallet.{
  CipherType, blowfish_ecb, triple_des_cbc, gpg, blowfish_cbc, HashType, sha1, md5, pbkdf2_sha512,
  KwalletError, file_too_small, invalid_salt, unsupported_hash, unsupported_cipher,
  invalid_data_structure, io,
}
use oo.Kwallet.Format.{WalletHeader, read}
use oo.Kwallet.Data.{from_be_bytes}
use oo.Kwallet.Hashes.{read_hashes, validate_hashes}
use oo.Kwallet.Wallet.{Wallet, parse}
use oo.Kwallet.Crypto.{
  KwalletPrimitives, derive_key_pbkdf2_sha512, derive_key_legacy, decrypt_blowfish_cbc,
  decrypt_blowfish_ecb, switch_endianness, extract_wallet_data,
}

pub record KwalletFile : Type 0 where
  pub header : WalletHeader
  pub wallet : Wallet

-- The files as they are while a wallet is opened: `fs::read` and `Path::with_extension`.
pub record Files : Type 0 where
  pub read : FilePath → Result IoErrorKind Bytes
  pub with_extension : FilePath → Text → FilePath

-- The hash of a password that goes with a file: its salt is in a file beside it.
module _ ⦃files : Files⦄ ⦃p : KwalletPrimitives⦄ where
  unfoldable pub key_of : FilePath → Bytes → HashType → Result KwalletError Bytes
  key_of path password pbkdf2_sha512 = do
    salt ← (elim (files.read (files.with_extension path (codes "salt"))) [
      | ok s ↦ ok s
      | err e ↦ err invalid_salt
      | panic ↦ panic
    ])
    if length salt == 56 then ok tt else err invalid_salt
    ok (derive_key_pbkdf2_sha512 password salt)
  key_of path password sha1 = ok (derive_key_legacy password)
  key_of path password md5 = err (unsupported_hash md5)

  -- The part of a legacy payload that its length names, which stands behind a block.
  unfoldable pub legacy_data : Bytes → Result KwalletError Bytes
  legacy_data restored =
      let size = from_be_bytes (take 4 (drop 8 restored)) in
      if ltb (length restored) 12
      then err invalid_data_structure
      else if ltb (length restored) (12 + size)
      then err invalid_data_structure
      else ok (take size (drop 12 restored))

  unfoldable pub payload : CipherType → Bytes → Bytes → Result KwalletError Bytes
  payload blowfish_cbc key encrypted_data = do
    decrypted ← decrypt_blowfish_cbc key encrypted_data
    extract_wallet_data decrypted
  payload blowfish_ecb key encrypted_data = do
    switched ← switch_endianness encrypted_data
    decrypted ← decrypt_blowfish_ecb key switched
    restored ← switch_endianness decrypted
    legacy_data restored
  payload triple_des_cbc key encrypted_data = err (unsupported_cipher triple_des_cbc)
  payload gpg key encrypted_data = err (unsupported_cipher gpg)

  unfoldable pub open_wallet : FilePath → Bytes → Result KwalletError KwalletFile
  open_wallet path password = do
    wallet_data ← (elim (files.read path) [ ok s ↦ ok s | err e ↦ err (io e) | panic ↦ panic ])
    if ltb (length wallet_data) 60 then err (file_too_small (length wallet_data)) else ok tt
    header ← (read wallet_data).0
    key ← key_of path password header.hash_type
    folder_hashes ← (read_hashes (drop 16 wallet_data)).0
    let encrypted_data = (read_hashes (drop 16 wallet_data)).1
    contents ← payload header.cipher_type key encrypted_data
    wallet ← parse contents
    validate_hashes wallet folder_hashes
    ok (record { header = header; wallet = wallet })
