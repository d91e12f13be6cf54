-- ===== src/Server/Migration.antt =====
-- server/src/migration.rs: a keyring of an older format that waits for its password.
use oo.Prelude.{true, Option, some, List, [], ◌∷◌, ◌++◌, Text, codes}
use oo.Outcome.{Result, Outcome, ok, err, panic, Error, or_err}
use oo.Exec.{Step, Exec, pure, lift, ◌>>=◌, ◌>>◌}
use oo.Os.{Os, FilePath, WholeFiles}
use oo.Secret.{Secret, blob, as_bytes}
use oo.Crypto.{Primitives}
use oo.Item.{UnlockedItem, Codec}
use oo.Keyring.{Keyring}
use oo.Legacy.{ReadBytes}
use oo.Unlocked.{UnlockedKeyring, write}
use oo.Unlocked.Bulk.{ItemDefinition, create_items}
use oo.Unlocked.Migrate.{open_at}
use oo.Kwallet.{KwalletError}
use oo.Kwallet.Wallet.{Entry, Folder}
use oo.Kwallet.Crypto.{KwalletPrimitives}
use oo.Kwallet.File.{Files, open_wallet}
use oo.Kwallet.Convert.{Encoders, convert_entry}

-- server/src/error.rs, `Error`, as far as the migration makes it.
pub data ServerError : Type 0 where
  file : Error → ServerError
  io : ServerError
  kwallet : KwalletError → ServerError

-- `PendingMigration`: what the two variants hold is the same.
pub data Format : Type 0 where
  v0 kwallet_file : Format

pub record PendingMigration : Type 0 where
  pub format : Format
  pub name : Text
  pub path : FilePath
  pub label : Text
  pub alias : Text

unfoldable pub stamp_path : FilePath → FilePath
stamp_path path = path ++ codes ".migrated"

-- Errors of the file back end and of the wallet parser as errors of the server.
unfoldable pub on_file : {W A : Type 0} → Exec W A → Step ServerError W A
on_file m w = (elim (m w).0 [ ok a ↦ ok a | err e ↦ err (file e) | panic ↦ panic ], (m w).1)

unfoldable pub parsed_wallet : {A : Type 0} → Result KwalletError A → Result ServerError A
parsed_wallet (ok a) = ok a
parsed_wallet (err e) = err (kwallet e)
parsed_wallet panic = panic

module _ ⦃encoders : Encoders⦄ where
  -- The entries of a folder as items that replace; those that cannot be converted are left out.
  unfoldable pub folder_items : Text → List (Text × Entry) → Outcome (List ItemDefinition)
  folder_items folder_name [] = ok []
  folder_items folder_name ((key, entry) ∷ entries) =
      let rest = folder_items folder_name entries in
      elim (convert_entry folder_name key entry) [
        | ok e ↦ elim rest [
          | ok items ↦ ok (
              record {
                label = e.label;
                attributes = e.attributes;
                secret = blob e.secret;
                replace = true;
              }
              ∷ items)
          | err x ↦ err x
          | panic ↦ panic
        ]
        | err x ↦ rest
        | panic ↦ panic
      ]

  unfoldable pub wallet_items : List (Text × Folder) → Outcome (List ItemDefinition)
  wallet_items [] = ok []
  wallet_items ((name, folder) ∷ folders) =
      let rest = wallet_items folders in
      elim (folder_items name folder.entries) [
        | ok items ↦ elim rest [ ok others ↦ ok (items ++ others) | err x ↦ err x | panic ↦ panic ]
        | err x ↦ err x
        | panic ↦ panic
      ]

module _ {W : Type 0} ⦃os : Os W⦄ ⦃whole : WholeFiles W⦄ ⦃p : Primitives⦄
    ⦃codec : Codec UnlockedItem⦄ ⦃kc : Codec Keyring⦄ ⦃r : ReadBytes⦄ ⦃files : Files⦄
    ⦃kp : KwalletPrimitives⦄ ⦃encoders : Encoders⦄ where
  -- A method of a keyring of its own, which comes back with what it holds then.
  unfoldable pub then_on :
      Exec (UnlockedKeyring × W) (Unit {0}) → UnlockedKeyring → Exec W UnlockedKeyring
  then_on m u w = (
    elim (m (u, w)).0 [ ok _ ↦ ok (m (u, w)).1.0 | err e ↦ err e | panic ↦ panic ],
    (m (u, w)).1.1,
  )

  -- A stamp that cannot be written is only reported.
  unfoldable pub write_stamp : FilePath → Step ServerError W (Unit {0})
  unfolding stamp_path
  write_stamp path w = (
    elim (whole.write_file (stamp_path path) [] w).0 [
      | ok _ ↦ ok tt
      | err e ↦ ok tt
      | panic ↦ panic
    ],
    (whole.write_file (stamp_path path) [] w).1,
  )

  unfoldable pub migrate_v0 :
      FilePath → PendingMigration → Option Secret → Step ServerError W UnlockedKeyring
  unfolding on_file then_on write_stamp
  migrate_v0 data_dir m secret = do
    unlocked ← on_file (open_at data_dir m.name secret)
    written ← on_file (then_on write unlocked)
    write_stamp m.path
    pure written

  unfoldable pub migrate_kwallet :
      FilePath → PendingMigration → Option Secret → Step ServerError W UnlockedKeyring
  unfolding on_file then_on write_stamp parsed_wallet wallet_items
  migrate_kwallet data_dir m secret = do
    given ← lift (or_err io secret)
    opened ← lift (parsed_wallet (open_wallet m.path (as_bytes given)))
    unlocked ← on_file (open_at data_dir m.name (some given))
    items ← on_file (lift (wallet_items opened.wallet.folders))
    written ← on_file (then_on (create_items items) unlocked)
    write_stamp m.path
    pure written

  -- `PendingMigration::migrate`
  unfoldable pub migrate :
      FilePath → PendingMigration → Option Secret → Step ServerError W UnlockedKeyring
  migrate data_dir m secret = elim m.format [
    | v0 ↦ migrate_v0 data_dir m secret
    | kwallet_file ↦ migrate_kwallet data_dir m secret
  ]
