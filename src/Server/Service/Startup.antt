-- ===== src/Server/Service/Startup.antt =====
-- server/src/service/mod.rs: how a keyring that was found is loaded, and how the service starts with
-- those that were found. The scan of the directories, which finds them, is not modelled.
use oo.Prelude.{
  ◌==◌, Bool, true, false, not, ◌&&◌, ◌||◌, Option, none, some, List, [], ◌∷◌, ◌++◌, any,
  if◌then◌else◌, Text, Bytes, codes, bytes_eq,
}
use oo.HashMap.{insert}
use oo.Outcome.{ok, err, panic, or_err, version_mismatch, no_data_dir}
use oo.Exec.{Step, pure, lift, gets, modify, ◌>>=◌, ◌>>◌}
use oo.Os.{Os, FilePath, WholeFiles}
use oo.Secret.{Secret, blob, eq_ignore_ascii_case}
use oo.Crypto.{Primitives}
use oo.Item.{UnlockedItem, Codec}
use oo.Keyring.{Keyring}
use oo.Keyring.Disk.{path_at}
use oo.Legacy.{ReadBytes}
use oo.Unlocked.Migrate.{open_at}
use oo.Locked.{LockedKeyring, open_with}
use oo.Locked.Open.{load, temporary}
use oo.Kwallet.Crypto.{KwalletPrimitives}
use oo.Kwallet.File.{Files}
use oo.Kwallet.Convert.{Encoders}
use oo.File.{FileKeyring, locked_keyring, unlocked_keyring}
use oo.Server.{ObjectPath, ServiceError, Bus}
use oo.Server.Collection.{Collection}
use oo.Server.Collection.Methods.{dispatch_items}
use oo.Server.Migration.{ServerError, file, io, v0, PendingMigration, on_file, migrate}
use oo.Server.Service.{Service, in_world}
use oo.Server.Service.Naming.{Lowercase, is_continuation, make_unique_label_and_alias}
use oo.Server.Service.Creation.{new_collection}
use oo.Server.Service.Locks.{login_alias, default_collection}

-- `char::to_uppercase`, on the bytes of a character.
pub record Uppercase : Type 0 where
  pub to_uppercase : Text → Text

-- The bytes of the first character behind its first, and the other characters.
unfoldable pub split_char : Text → Text × Text
split_char [] = ([], [])
split_char (b ∷ bs) =
    let rest = split_char bs in if is_continuation b then (b ∷ rest.0, rest.1) else ([], b ∷ bs)

-- A name with its first character in upper case.
unfoldable pub capitalized : ⦃uppercase : Uppercase⦄ → Text → Text
unfolding split_char
capitalized [] = []
capitalized ⦃uppercase⦄ (b ∷ bs) =
    uppercase.to_uppercase (b ∷ (split_char bs).0) ++ (split_char bs).1

-- The alias of a keyring that was found.
unfoldable pub alias_of : ⦃lowercase : Lowercase⦄ → Text → Text
unfolding eq_ignore_ascii_case
alias_of ⦃lowercase⦄ name =
    if eq_ignore_ascii_case name login_alias
    then default_collection
    else lowercase.to_lowercase name

-- `(name, label, alias, keyring)`
pub record Discovered : Type 0 where
  pub name : Text
  pub label : Text
  pub alias : Text
  pub keyring : FileKeyring

abbrev pub is_v0 : Option Bytes → Bool
is_v0 none = false
is_v0 (some []) = false
is_v0 (some (b ∷ bs)) = b == 0

module _ {W : Type 0} ⦃os : Os W⦄ ⦃p : Primitives⦄ ⦃codec : Codec UnlockedItem⦄
    ⦃kc : Codec Keyring⦄ where
  -- A keyring of the current format, unlocked if the secret fits; else it is read again.
  unfoldable pub unlock_loaded :
      FilePath → Option Secret → LockedKeyring → Step ServerError W FileKeyring
  unlock_loaded path none l = pure (locked_keyring l)
  unlock_loaded path (some secret) l = elim (open_with l (some secret) true) [
    | ok u ↦ pure (unlocked_keyring u)
    | err e ↦ do reloaded ← on_file (load path); pure (locked_keyring reloaded)
    | panic ↦ lift panic
  ]

module _ {W : Type 0} ⦃os : Os W⦄ ⦃whole : WholeFiles W⦄ ⦃p : Primitives⦄
    ⦃codec : Codec UnlockedItem⦄ ⦃kc : Codec Keyring⦄ ⦃r : ReadBytes⦄ ⦃files : Files⦄
    ⦃kp : KwalletPrimitives⦄ ⦃encoders : Encoders⦄ where
  -- `LockedKeyring::open`, below the data directory of the environment, and the migration kept for
  -- later.
  unfoldable pub placeholder :
      Option FilePath → PendingMigration → Step ServerError (Service × W) FileKeyring
  placeholder default_dir migration = do
    dir ← lift (or_err (file no_data_dir) default_dir)
    locked ← in_world (on_file (load (path_at os dir migration.name 1)))
    modify (λ s. (
      record s.0 { pending_migrations = insert migration.name migration s.0.pending_migrations },
      s.1,
    ))
    pure (locked_keyring locked)

  unfoldable pub migrate_now :
      Option FilePath
      → PendingMigration
      → Option Secret
      → Step ServerError (Service × W) FileKeyring
  migrate_now default_dir migration secret s =
      let m = migrate s.0.data_dir migration secret s.1 in
      elim m.0 [
        | ok u ↦ (ok (unlocked_keyring u), (s.0, m.1))
        | err e ↦ placeholder default_dir migration (s.0, m.1)
        | panic ↦ (panic, (s.0, m.1))
      ]

  unfoldable pub load_keyring :
      ⦃lowercase : Lowercase⦄
      → ⦃uppercase : Uppercase⦄ → Option FilePath
      → FilePath
      → Text
      → Option Secret
      → Step ServerError (Service × W) Discovered
  load_keyring default_dir path name secret = do
    let migration : PendingMigration = record {
      format = v0;
      name = name;
      path = path;
      label = capitalized name;
      alias = alias_of name;
    }
    keyring ← λ s.
        let loaded = load path s.1 in
        elim loaded.0 [
          | ok l ↦ in_world (unlock_loaded path secret l) (s.0, loaded.1)
          | err (version_mismatch version) ↦
              if is_v0 version
              then migrate_now default_dir migration secret (s.0, loaded.1)
              else (err (file (version_mismatch version)), (s.0, loaded.1))
          | err e ↦ (err (file e), (s.0, loaded.1))
          | panic ↦ (panic, (s.0, loaded.1))
        ]
    pure
        (record { name = name; label = capitalized name; alias = alias_of name; keyring = keyring })

-- One of the keyrings is the default one.
unfoldable pub has_default : List Discovered → Bool
has_default discovered =
    any (λ d. bytes_eq d.alias default_collection || bytes_eq d.alias login_alias) discovered

-- Errors of the service as one of the server.
unfoldable pub on_server : {S A : Type 0} → Step ServiceError S A → Step ServerError S A
on_server m s = (elim (m s).0 [ ok a ↦ ok a | err e ↦ err io | panic ↦ panic ], (m s).1)

module _ {W : Type 0} ⦃os : Os W⦄ ⦃p : Primitives⦄ ⦃codec : Codec UnlockedItem⦄ ⦃kc : Codec Keyring⦄
    ⦃r : ReadBytes⦄ where
  -- The keyring `login` that is made where no default one was found.
  unfoldable pub default_keyring : FilePath → Option Secret → Step ServerError W FileKeyring
  default_keyring data_dir none = do
    l ← on_file (load (path_at os data_dir login_alias 1))
    pure (locked_keyring l)
  default_keyring data_dir (some secret) = do
    u ← on_file (open_at data_dir login_alias (some secret))
    pure (unlocked_keyring u)

  unfoldable pub with_default :
      List Discovered → Option Secret → Bool → Step ServerError (Service × W) (List Discovered)
  with_default discovered secret auto_create_default =
      if not (has_default discovered) && auto_create_default
      then (do
        data_dir ← gets (λ s. s.0.data_dir)
        keyring ← in_world (default_keyring data_dir secret)
        pure (
            discovered
            ++ record {
              name = login_alias;
              label = codes "Login";
              alias = default_collection;
              keyring = keyring;
            }
              ∷ []))
      else pure discovered

  -- `UnlockedKeyring::temporary` with a `Secret::random` of 64 bytes.
  unfoldable pub session_keyring : Step ServerError W FileKeyring
  session_keyring = do
    secret ← λ w. (elim (os.fill 64 w).0 [ none ↦ panic | some b ↦ ok (blob b) ], (os.fill 64 w).1)
    u ← on_file (temporary (some secret))
    pure (unlocked_keyring u)

module _ {W : Type 0} ⦃os : Os W⦄ ⦃whole : WholeFiles W⦄ ⦃p : Primitives⦄
    ⦃codec : Codec UnlockedItem⦄ ⦃kc : Codec Keyring⦄ ⦃r : ReadBytes⦄ ⦃lowercase : Lowercase⦄
    ⦃bus : Bus W⦄ where
  unfoldable pub add_built : Collection → Step ServerError (Service × W) (Unit {0})
  add_built c = modify (λ s. (record s.0 { collections = insert c.path c s.0.collections }, s.1))

  -- The collections that are built, with their aliases.
  unfoldable pub build : List Discovered → Step ServerError (Service × W) (List (Collection × Text))
  build [] = pure []
  build (d ∷ discovered) = do
    collections ← gets (λ s. s.0.collections)
    unique ← on_server (lift (make_unique_label_and_alias collections d.label d.alias))
    c ← in_world (on_server (new_collection d.name unique.0 unique.1 d.keyring))
    add_built c
    others ← build discovered
    pure ((c, unique.1) ∷ others)

  -- A collection is filled with its items; that of the same path in the table shares them, unless it
  -- is the session's, which took its place.
  unfoldable pub fill : ObjectPath → Collection → Step ServerError (Service × W) (Unit {0})
  fill session_path c s =
      let d = on_server dispatch_items (c, s.1) in
      (
        d.0,
        (
          (if bytes_eq c.path session_path
              then s.0
              else record s.0 { collections = insert c.path d.1.0 s.0.collections }),
          d.1.1,
        ),
      )

  unfoldable pub serve_built :
      ObjectPath → List (Collection × Text) → Step ServerError (Service × W) (Unit {0})
  serve_built session_path [] = pure tt
  serve_built session_path ((c, alias) ∷ built) = do
    fill session_path c
    in_world (on_server (bus.serve c.path))
    if bytes_eq alias default_collection
        then in_world (on_server (bus.serve (codes "/org/freedesktop/secrets/aliases/default")))
        else pure tt
    serve_built session_path built

  -- `initialize`; the tasks that it spawns are the steps of Sessions.
  unfoldable pub initialize :
      List Discovered → Option Secret → Bool → Step ServerError (Service × W) (Unit {0})
  initialize discovered_keyrings secret auto_create_default = do
    discovered ← with_default discovered_keyrings secret auto_create_default
    built ← build discovered
    keyring ← in_world session_keyring
    session_collection ←
        in_world
          (on_server (new_collection (codes "session") (codes "session") (codes "session") keyring))
    add_built session_collection
    serve_built session_collection.path built
    in_world (on_server (bus.serve session_collection.path))
