-- ===== src/Unlocked/Migrate.antt =====
-- client/src/file/unlocked_keyring.rs: opening a keyring by name, with the move of a legacy file to
-- the current format.
pub mod Items
use oo.Prelude.{
  ℕ, Bool, true, false, Option, none, some, List, [], ◌∷◌, ◌++◌, get_elem?, ◌==◌, if◌then◌else◌,
  Bytes, Text,
}
use oo.Outcome.{Outcome, ok, err, panic, version_mismatch}
use oo.Exec.{Exec, pure, lift, gets, raise, ◌>>=◌, ◌>>◌}
use oo.Os.{Os, FilePath, Handle}
use oo.Secret.{Secret, blob}
use oo.Crypto.{Primitives, Key}
use oo.Item.{UnlockedItem, EncryptedItem, Codec, encrypt_item}
use oo.Keyring.{Keyring, derive_key_unchecked}
use oo.Keyring
use oo.Keyring.Disk.{path_at}
use oo.Keyring.Disk
use oo.Legacy.{ReadBytes}
use oo.Legacy
use oo.Legacy.Items.{decrypt_items}
use oo.Unlocked.{UnlockedKeyring}
use oo.Locked.Open.{load_inner}

unfoldable pub opened : Keyring → FilePath → Option Secret → UnlockedKeyring
opened keyring path secret = record {
  keyring = keyring;
  path = some path;
  mtime = none;
  key = none;
  secret = secret;
}

-- `version[0] == LEGACY_MAJOR_VERSION`; the versions that are reported have two bytes.
unfoldable pub is_legacy : Bytes → Outcome Bool
is_legacy [] = panic
is_legacy (major ∷ rest) = ok (major == 0)

module _ ⦃p : Primitives⦄ where
  -- `secret.as_ref().map(…).transpose()`
  unfoldable pub migration_key : Keyring → Option Secret → Outcome (Option Key)
  migration_key keyring none = ok none
  migration_key keyring (some secret) = elim (derive_key_unchecked keyring secret) [
    | ok key ↦ ok (some key)
    | err e ↦ err e
    | panic ↦ panic
  ]

abbrev pub secret_or_empty : Option Secret → Secret
secret_or_empty none = blob []
secret_or_empty (some secret) = secret

module _ {W : Type 0} ⦃os : Os W⦄ ⦃p : Primitives⦄ ⦃codec : Codec UnlockedItem⦄ where
  -- Each item encrypted and pushed to the new keyring.
  unfoldable pub encrypt_all : Option Key → List UnlockedItem → Keyring → Exec W Keyring
  encrypt_all key [] keyring = pure keyring
  encrypt_all key (item ∷ items) keyring = do
    encrypted_item ← encrypt_item item key
    encrypt_all key items (record keyring { items = keyring.items ++ encrypted_item ∷ [] })

module _ {W : Type 0} ⦃os : Os W⦄ ⦃p : Primitives⦄ ⦃codec : Codec UnlockedItem⦄
    ⦃r : ReadBytes⦄ where
  -- A legacy file's content as a keyring of the current format.
  unfoldable pub from_legacy : Bytes → Option Secret → Exec W Keyring
  from_legacy content secret = do
    legacy_keyring ← lift (Legacy.try_from content)
    keyring ← Disk.new
    key ← lift (migration_key keyring secret)
    decrypted_items ← decrypt_items legacy_keyring (secret_or_empty secret)
    encrypt_all key decrypted_items keyring

module _ {W : Type 0} ⦃os : Os W⦄ ⦃p : Primitives⦄ ⦃codec : Codec UnlockedItem⦄ ⦃kc : Codec Keyring⦄
    ⦃r : ReadBytes⦄ where
  -- The match on what the current format makes of the content.
  unfoldable pub migrate_content : Bytes → FilePath → Option Secret → Exec W UnlockedKeyring
  unfolding opened is_legacy
  migrate_content content path secret = elim (Keyring.try_from content) [
    | ok keyring ↦ pure (opened keyring path secret)
    | err (version_mismatch (some version)) ↦ do
      legacy ← lift (is_legacy version)
      if legacy
          then (do keyring ← from_legacy content secret; pure (opened keyring path secret))
          else raise (version_mismatch (some version))
    | err e ↦ raise e
    | panic ↦ lift panic
  ]

  -- The metadata of the file only tells how much to read.
  unfoldable pub migrate : Handle → FilePath → Option Secret → Exec W UnlockedKeyring
  migrate file path secret = do
    metadata ← os.modified file
    content ← os.read_to_end file
    migrate_content content path secret

  unfoldable pub load_from_v0 : FilePath → FilePath → Option Secret → Exec W UnlockedKeyring
  load_from_v0 source target_path secret = do
    file ← os.open_file source
    migrate file target_path secret

  unfoldable pub open_with_paths : FilePath → FilePath → Option Secret → Exec W UnlockedKeyring
  unfolding opened
  open_with_paths v1_path v0_path secret = do
    v1 ← gets (os.exists v1_path)
    if v1 then load_inner v1_path secret true else (do
      v0 ← gets (os.exists v0_path)
      if v0
          then load_from_v0 v0_path v1_path secret
          else (do keyring ← Disk.new; pure (opened keyring v1_path secret)))

  unfoldable pub open_at : FilePath → Text → Option Secret → Exec W UnlockedKeyring
  open_at data_dir name secret =
      open_with_paths (path_at os data_dir name 1) (path_at os data_dir name 0) secret
