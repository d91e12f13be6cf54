-- ===== src/File.antt =====
-- client/src/file/mod.rs: items and keyrings that are locked or not.
use oo.Prelude.{ℕ, Bool, true, false, Option, List, map}
use oo.Outcome.{Outcome, ok, err, panic}
use oo.Exec.{Exec}
use oo.Os.{FilePath}
use oo.Secret.{Secret}
use oo.Crypto.{Primitives, Key}
use oo.Item.{Map, UnlockedItem, EncryptedItem, Codec, matches, matches_attributes}
use oo.Keyring
use oo.Unlocked.{UnlockedKeyring}
use oo.Unlocked.Bulk
use oo.Locked.{LockedKeyring}

-- `Item`; a locked item is an encrypted one.
pub data FileItem : Type 0 where
  locked_item : EncryptedItem → FileItem
  unlocked_item : UnlockedItem → FileItem

-- `Keyring`
pub data FileKeyring : Type 0 where
  locked_keyring : LockedKeyring → FileKeyring
  unlocked_keyring : UnlockedKeyring → FileKeyring

abbrev pub is_locked_item : FileItem → Bool
is_locked_item (locked_item e) = true
is_locked_item (unlocked_item i) = false

abbrev pub is_locked_keyring : FileKeyring → Bool
is_locked_keyring (locked_keyring l) = true
is_locked_keyring (unlocked_keyring u) = false

abbrev pub as_unlocked : FileItem → Outcome UnlockedItem
as_unlocked (locked_item e) = panic
as_unlocked (unlocked_item i) = ok i

unfoldable pub file_path : FileKeyring → Option FilePath
file_path (locked_keyring l) = l.path
file_path (unlocked_keyring u) = u.path

unfoldable pub modified_time : FileKeyring → ℕ
modified_time (locked_keyring l) = l.keyring.modified_time
modified_time (unlocked_keyring u) = u.keyring.modified_time

-- `Item::matches_attributes`
unfoldable pub file_matches : ⦃p : Primitives⦄ → FileItem → Map → Option Key → Bool
file_matches (unlocked_item i) attributes key = matches_attributes i attributes
file_matches (locked_item e) attributes key = matches e attributes key

module _ ⦃p : Primitives⦄ ⦃codec : Codec UnlockedItem⦄ where
  unfoldable pub validate_secret : FileKeyring → Secret → Outcome Bool
  validate_secret (locked_keyring l) secret = Keyring.validate_secret l.keyring secret
  validate_secret (unlocked_keyring u) secret = Keyring.validate_secret u.keyring secret

  unfoldable pub validate_unencrypted : FileKeyring → Outcome Bool
  validate_unencrypted (locked_keyring l) = Keyring.validate_unencrypted l.keyring
  validate_unencrypted (unlocked_keyring u) = Keyring.validate_unencrypted u.keyring

abbrev map_ok : {A B : Type 0} → (A → B) → Outcome A → Outcome B
map_ok f (ok a) = ok (f a)
map_ok f (err e) = err e
map_ok f panic = panic

module _ {W : Type 0} ⦃p : Primitives⦄ ⦃codec : Codec UnlockedItem⦄ where
  -- The items of a keyring; those of an open one that cannot be read are left out. An open keyring
  -- may derive its key.
  unfoldable pub file_items : Exec (FileKeyring × W) (List FileItem)
  file_items (locked_keyring l, w) = (ok (map locked_item l.keyring.items), (locked_keyring l, w))
  file_items (unlocked_keyring u, w) =
      let r = Bulk.items (u, w) in (map_ok (map unlocked_item) r.0, (unlocked_keyring r.1.0, r.1.1))
