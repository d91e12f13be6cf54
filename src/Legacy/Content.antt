-- ===== src/Legacy/Content.antt =====
-- client/src/file/api/legacy_keyring.rs: the encrypted content and its checksum.
use mathlib.Core.Path.{ap₂}
use oo.Prelude.{
  sym, ap, ◌∙◌, take-append-drop, bytes_eq_iff, none, ◌++◌, ◌≡◌, arith, take, drop, Bytes,
}
use oo.Outcome.{Outcome, ok, guard, checksum_mismatch, ◌>>=◌, ◌>>◌, >>=-ok}
use oo.Secret.{Secret, as_bytes}
use oo.Crypto.{Primitives, Key, legacy_derive_key_and_iv, decrypt_no_padding, verify_checksum_md5}
use oo.Item.{split_at}
use oo.Legacy.{LegacyKeyring}

module _ ⦃p : Primitives⦄ where
  -- The checksum stands before the content.
  unfoldable pub checked_content : Bytes → Outcome Bytes
  checked_content decrypted = do
    (digest, content) ← split_at decrypted 16
    guard (verify_checksum_md5 digest content) checksum_mismatch
    ok content

  unfoldable pub decrypted_content : LegacyKeyring → Secret → Outcome Bytes
  decrypted_content k secret = do
    (key, iv) ← legacy_derive_key_and_iv (as_bytes secret) none k.salt k.iteration_count
    decrypted ← decrypt_no_padding k.encrypted_content key iv
    checked_content decrypted

  checked_content-ok :
      (decrypted content : Bytes)
      → checked_content decrypted ≡ ok content
      → decrypted ≡ p.md5 content ++ content
  unfolding checked_content split_at verify_checksum_md5
  checked_content-ok decrypted content h =
      let same : p.md5 content ≡ take 16 decrypted =
        ground (arith, bytes_eq_iff (p.md5 (drop 16 decrypted)) (take 16 decrypted)) in
      let behind : drop 16 decrypted ≡ content = ground arith in
      sym (take-append-drop 16 decrypted) ∙ ap₂ ◌++◌ (sym same) behind

  -- The content that is taken stands behind its own MD5 sum in what the derived key decrypts.
  pub decrypted_content-ok :
      (k : LegacyKeyring) (secret : Secret) (content : Bytes)
      → decrypted_content k secret ≡ ok content
      → (key : Key) × (iv : Bytes) × (legacy_derive_key_and_iv
            (as_bytes secret)
            none
            k.salt
            k.iteration_count
          ≡ ok (key, iv))
        × (decrypt_no_padding k.encrypted_content key iv ≡ ok (p.md5 content ++ content))
  unfolding decrypted_content
  decrypted_content-ok k secret content h =
      let derived =
        >>=-ok (legacy_derive_key_and_iv (as_bytes secret) none k.salt k.iteration_count) _ h in
      let read =
        >>=-ok (decrypt_no_padding k.encrypted_content derived.0.0 derived.0.1) _ derived.2 in
      (
        derived.0.0,
        derived.0.1,
        derived.1,
        read.1 ∙ ap ok (checked_content-ok read.0 content read.2),
      )
