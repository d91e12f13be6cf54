-- ===== src/Server/Service/Prompts.antt =====
-- server/src/prompt/mod.rs and server/src/service/mod.rs: what a prompt does once it is answered. The
-- answer comes from a prompter, which calls one of the three methods at the end; the checks of the
-- role are for debug builds only.
pub mod Once
use oo.Prelude.{Bool, true, false, Option, none, some, List, [], ◌∷◌, if◌then◌else◌, Text}
use oo.HashMap.{get, insert, remove}
use oo.Outcome.{Result, Outcome, ok, err, panic, or_err}
use oo.Exec.{Step, pure, lift, gets, raise, modify, ◌>>=◌, ◌>>◌}
use oo.Os.{Os, WholeFiles}
use oo.Secret.{Secret}
use oo.Crypto.{Primitives}
use oo.Item.{UnlockedItem, Codec}
use oo.Keyring.{Keyring}
use oo.Legacy.{ReadBytes}
use oo.Kwallet.Crypto.{KwalletPrimitives}
use oo.Kwallet.File.{Files}
use oo.Kwallet.Convert.{Encoders}
use oo.File.{FileKeyring, unlocked_keyring, locked_keyring, validate_secret, validate_unencrypted}
use oo.Server.{ObjectPath, ServiceError, zbus, no_such_object, Bus, as_service, completed}
use oo.Server.Collection.{Collection, collection_is_locked, item_from_path}
use oo.Server.Collection.Methods.{dispatch_items}
use oo.Server.Migration.{PendingMigration, migrate}
use oo.Server.Service.{
  Service, Prompt, PromptAction, complete_creation, unlock_objects, delete_collection, making_item,
  dropping_item, in_world, at_collection, tried,
}
use oo.Server.Service.Naming.{Lowercase}
use oo.Server.Service.Creation.{complete_collection_creation, remove_prompt}
use oo.Server.Service.Locks.{turn_collection, turn_item, find_object}
use oo.Server.Service.Requests.{delete_collection_unlocked, create_item_at, delete_item_at}

module _ {W : Type 0} where
  unfoldable pub prompt_at : ObjectPath → Step ServiceError (Service × W) Prompt
  prompt_at path s = (or_err no_such_object (get path s.0.prompts), s)

  -- The action goes to who takes it; a prompt without one fails.
  unfoldable pub take_action : ObjectPath → Step ServiceError (Service × W) PromptAction
  take_action path = do
    prompt ← prompt_at path
    modify (λ s.
        (record s.0 { prompts = insert path (record prompt { action = none }) s.0.prompts }, s.1))
    lift (or_err zbus prompt.action)

-- `keyring.as_ref().unwrap()`, and the secret validated against it; without one, all items must be
-- in the clear.
unfoldable pub validate :
    ⦃p : Primitives⦄
    → ⦃codec : Codec UnlockedItem⦄ → Collection
    → Option Secret
    → Result ServiceError Bool
validate c secret = elim c.keyring [
  | none ↦ panic
  | some keyring ↦ elim secret [
    | none ↦ as_service (validate_unencrypted keyring)
    | some given ↦ as_service (validate_secret keyring given)
  ]
]

module _ {W : Type 0} ⦃os : Os W⦄ ⦃p : Primitives⦄ ⦃codec : Codec UnlockedItem⦄ ⦃bus : Bus W⦄
    ⦃kc : Codec Keyring⦄ where
  unfoldable pub try_unlock :
      ObjectPath → Option Secret → Step ServiceError (Service × W) (Unit {0})
  try_unlock path secret = tried (turn_collection false secret path)

  -- The migrated keyring in the place of the one that the collection had, with its items.
  unfoldable pub put_migrated :
      ObjectPath → Text → FileKeyring → Step ServiceError (Service × W) (Unit {0})
  put_migrated path name keyring = do
    tried (
        at_collection path
          (do modify (λ s. (record s.0 { keyring = some keyring }, s.1)); dispatch_items))
    modify (λ s. (record s.0 { pending_migrations = remove name s.0.pending_migrations }, s.1))

module _ {W : Type 0} ⦃os : Os W⦄ ⦃whole : WholeFiles W⦄ ⦃p : Primitives⦄
    ⦃codec : Codec UnlockedItem⦄ ⦃kc : Codec Keyring⦄ ⦃r : ReadBytes⦄ ⦃files : Files⦄
    ⦃kp : KwalletPrimitives⦄ ⦃encoders : Encoders⦄ ⦃bus : Bus W⦄ where
  -- A collection of an older format is migrated, or unlocked if that fails.
  unfoldable pub migrate_collection :
      ObjectPath → PendingMigration → Option Secret → Step ServiceError (Service × W) (Unit {0})
  migrate_collection path migration secret s =
      let r = migrate s.0.data_dir migration secret s.1 in
      elim r.0 [
        | ok u ↦ put_migrated path migration.name (unlocked_keyring u) (s.0, r.1)
        | err e ↦ try_unlock path secret (s.0, r.1)
        | panic ↦ (panic, (s.0, r.1))
      ]

  -- An item is unlocked with its collection, or alone if that is open.
  unfoldable pub unlock_found :
      ObjectPath → Option Secret → Step ServiceError (Service × W) (Unit {0})
  unlock_found object secret s = elim (find_object object s.0.collections) [
    | none ↦ (ok tt, s)
    | some (path, (c, none)) ↦ (ok tt, s)
    | some (path, (c, some i)) ↦
        if collection_is_locked c
        then try_unlock path secret s
        else tried (at_collection path (turn_item false i)) s
  ]

  unfoldable pub unlock_object :
      ObjectPath → Option Secret → Step ServiceError (Service × W) (Unit {0})
  unlock_object object secret s = elim (get object s.0.collections) [
    | none ↦ unlock_found object secret s
    | some c ↦ elim (get c.name s.0.pending_migrations) [
      | none ↦ try_unlock object secret s
      | some migration ↦ migrate_collection object migration secret s
    ]
  ]

  -- The loop of the action of an unlock: each object is tried.
  unfoldable pub unlock_all :
      List ObjectPath → Option Secret → Step ServiceError (Service × W) (Unit {0})
  unlock_all [] secret = pure tt
  unlock_all (object ∷ objects) secret = do unlock_object object secret; unlock_all objects secret

  module _ ⦃lowercase : Lowercase⦄ where
    -- `PromptAction::execute`; the result are paths.
    unfoldable pub execute :
        PromptAction → Option Secret → Step ServiceError (Service × W) (List ObjectPath)
    execute (complete_creation prompt_path) secret = do
      path ← complete_collection_creation prompt_path secret
      pure (path ∷ [])
    execute (unlock_objects objects) secret = do unlock_all objects secret; pure objects
    execute (delete_collection path) secret = do
      done ← turn_collection false secret path
      delete_collection_unlocked path
      pure []
    execute (making_item path label attributes item_secret replace) secret = do
      done ← turn_collection false secret path
      item_path ← create_item_at path label attributes item_secret replace
      pure (item_path ∷ [])
    execute (dropping_item path item_path) secret = do
      done ← turn_collection false secret path
      delete_item_at path item_path
      pure []

    -- The signal is sent by a task of its own.
    unfoldable pub complete :
        ObjectPath → List ObjectPath → Step ServiceError (Service × W) (Unit {0})
    complete path result = tried (in_world (bus.emit (completed path false result)))

    unfoldable pub on_unlock_collection :
        ObjectPath → Option Secret → Step ServiceError (Service × W) Bool
    on_unlock_collection path secret = do
      prompt ← prompt_at path
      collection ← lift (elim prompt.collection [ none ↦ panic | some c ↦ ok c ])
      c ← λ s. (or_err no_such_object (get collection s.0.collections), s)
      is_valid ← lift (validate c secret)
      if is_valid
          then (do
            action ← take_action path
            result ← execute action secret
            complete path result
            pure true)
          else pure false

    -- `on_create_collection` and `on_change_password`, which do the same.
    unfoldable pub on_create_collection :
        ObjectPath → Option Secret → Step ServiceError (Service × W) (Unit {0})
    on_create_collection path secret = do
      action ← take_action path
      result ← λ s. (
        elim (execute action secret s).0 [ ok a ↦ ok a | err e ↦ err zbus | panic ↦ panic ],
        (execute action secret s).1,
      )
      complete path result

module _ {W : Type 0} ⦃bus : Bus W⦄ where
  -- `Prompt::dismiss`, without the signal to the prompter of Plasma.
  unfoldable pub dismiss : ObjectPath → Step ServiceError (Service × W) (Unit {0})
  dismiss path = do in_world (bus.remove path); remove_prompt path
