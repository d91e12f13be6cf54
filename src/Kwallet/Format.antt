-- ===== src/Kwallet/Format.antt =====
-- kwallet/parser/src/format.rs: the header of a KWallet file.
use oo.Prelude.{ℕ, Bool, true, false, not, ◌&&◌, [], ◌∷◌, Bytes, bytes_eq, if◌then◌else◌, ◌==◌}
use oo.Outcome.{Result, ok, err, panic}
use oo.Exec.{Step, pure, lift, raise, ◌>>=◌, ◌>>◌}
use oo.Kwallet.{
  CipherType, blowfish_ecb, triple_des_cbc, gpg, blowfish_cbc, HashType, sha1, md5, pbkdf2_sha512,
  KwalletError, invalid_magic, unsupported_version, unsupported_cipher, unsupported_hash,
  unknown_cipher, unknown_hash, read_exact,
}

-- `KWMAGIC`
abbrev pub kwmagic : Bytes
kwmagic = b'K' ∷ b'W' ∷ b'A' ∷ b'L' ∷ b'L' ∷ b'E' ∷ b'T' ∷ 10 ∷ 13 ∷ 0 ∷ 13 ∷ 10 ∷ []

unfoldable pub cipher_type_of : ℕ → Result KwalletError CipherType
cipher_type_of value =
    if value == 0
    then ok blowfish_ecb
    else if value == 1
    then ok triple_des_cbc
    else if value == 2
    then ok gpg
    else if value == 3
    then ok blowfish_cbc
    else err (unknown_cipher value)

unfoldable pub hash_type_of : ℕ → Result KwalletError HashType
hash_type_of value =
    if value == 0
    then ok sha1
    else if value == 1
    then ok md5
    else if value == 2
    then ok pbkdf2_sha512
    else err (unknown_hash value)

pub record WalletHeader : Type 0 where
  pub version_major : ℕ
  pub version_minor : ℕ
  pub cipher_type : CipherType
  pub hash_type : HashType

-- Not one of the two that the code knows, `BlowfishECB` and `BlowfishCBC`.
unfoldable pub is_unsupported : CipherType → Bool
is_unsupported blowfish_ecb = false
is_unsupported blowfish_cbc = false
is_unsupported triple_des_cbc = true
is_unsupported gpg = true

-- The last arm of `validate`.
unfoldable pub refuse : WalletHeader → Result KwalletError (Unit {0})
unfolding is_unsupported
refuse h =
    if not (h.version_minor == 0) && not (h.version_minor == 1)
    then err (unsupported_version h.version_major h.version_minor)
    else if is_unsupported h.cipher_type
    then err (unsupported_cipher h.cipher_type)
    else err (unsupported_hash h.hash_type)

-- The match on the minor version, the cipher and the hash, the last two first.
unfoldable pub matched : WalletHeader → CipherType → HashType → Result KwalletError (Unit {0})
unfolding refuse
matched h blowfish_ecb sha1 = if h.version_minor == 0 then ok tt else refuse h
matched h blowfish_cbc pbkdf2_sha512 = if h.version_minor == 1 then ok tt else refuse h
matched h cipher hash = refuse h

unfoldable pub validate : WalletHeader → Result KwalletError (Unit {0})
unfolding matched
validate h =
    if h.version_major == 0
    then matched h h.cipher_type h.hash_type
    else err (unsupported_version h.version_major h.version_minor)

-- `WalletHeader::read`, from the four bytes behind the magic ones.
unfoldable pub from_version : Bytes → Step KwalletError Bytes WalletHeader
unfolding cipher_type_of hash_type_of validate
from_version (major ∷ minor ∷ cipher ∷ hash ∷ []) = do
  cipher_type ← lift (cipher_type_of cipher)
  hash_type ← lift (hash_type_of hash)
  let header : WalletHeader = record {
    version_major = major;
    version_minor = minor;
    cipher_type = cipher_type;
    hash_type = hash_type;
  }
  lift (validate header)
  pure header
from_version other = lift panic

unfoldable pub read : Step KwalletError Bytes WalletHeader
unfolding from_version bytes_eq read_exact
read = do
  magic ← read_exact 12
  if bytes_eq magic kwmagic then pure tt else raise invalid_magic
  version ← read_exact 4
  from_version version
