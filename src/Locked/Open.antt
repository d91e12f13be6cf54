-- ===== src/Locked/Open.antt =====
-- client/src/file/locked_keyring.rs and client/src/file/unlocked_keyring.rs: how a keyring is loaded
-- from its file.
use oo.Prelude.{ℕ, Bool, Option, none, some}
use oo.Outcome.{ok, err, panic, io, not_found}
use oo.Exec.{Exec, pure, lift, ◌>>=◌}
use oo.Os.{Os, FilePath, Handle}
use oo.Secret.{Secret}
use oo.Crypto.{Primitives}
use oo.Item.{UnlockedItem, Codec}
use oo.Keyring.{Keyring, try_from}
use oo.Keyring.Disk
use oo.Unlocked.{UnlockedKeyring}
use oo.Locked.{LockedKeyring, open_with}

module _ {W : Type 0} ⦃os : Os W⦄ ⦃kc : Codec Keyring⦄ where
  read_keyring : Handle → Exec W (Keyring × Option ℕ)
  read_keyring file = do
    mtime ← os.modified file
    content ← os.read_to_end file
    keyring ← lift (try_from content)
    pure (keyring, mtime)

  -- A file that is not there stands for a new keyring.
  unfoldable pub load : FilePath → Exec W LockedKeyring
  unfolding read_keyring
  load path = do
    (keyring, mtime) ← λ w. elim (os.open_file path w).0 [
      | ok file ↦ read_keyring file (os.open_file path w).1
      | err (io not_found) ↦ (do k ← Disk.new; pure (k, none)) (os.open_file path w).1
      | err e ↦ (err e, (os.open_file path w).1)
      | panic ↦ (panic, (os.open_file path w).1)
    ]
    pure (record { keyring = keyring; path = some path; mtime = mtime })

  -- `UnlockedKeyring::temporary` and `temporary_unencrypted`
  unfoldable pub temporary : Option Secret → Exec W UnlockedKeyring
  temporary secret = do
    keyring ← Disk.new
    pure (record { keyring = keyring; path = none; mtime = none; key = none; secret = secret })

module _ {W : Type 0} ⦃os : Os W⦄ ⦃p : Primitives⦄ ⦃codec : Codec UnlockedItem⦄
    ⦃kc : Codec Keyring⦄ where
  -- `UnlockedKeyring::load_inner`
  unfoldable pub load_inner : FilePath → Option Secret → Bool → Exec W UnlockedKeyring
  unfolding load
  load_inner path secret validate_items = do
    locked ← load path
    lift (open_with locked secret validate_items)
