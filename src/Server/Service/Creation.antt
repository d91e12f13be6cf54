-- ===== src/Server/Service/Creation.antt =====
-- server/src/service/mod.rs and server/src/prompt/mod.rs: how prompts are made, and how a collection
-- is created once its prompt is answered.
pub mod Keeps
use oo.Prelude.{ℕ, ◌+◌, ◌%◌, ◌^◌, Bool, Option, none, some, List, [], ◌∷◌, ◌++◌, Text, codes}
use oo.HashMap.{get, insert, remove}
use oo.Outcome.{Result, ok, err, panic, or_err}
use oo.Exec.{Step, pure, lift, gets, raise, modify, ◌>>=◌, ◌>>◌}
use oo.Os.{Os, FilePath, WholeFiles}
use oo.Secret.{Secret}
use oo.Crypto.{Primitives}
use oo.Item.{UnlockedItem, Codec}
use oo.Keyring.{Keyring}
use oo.Legacy.{ReadBytes}
use oo.Legacy.Items.{decimal}
use oo.Unlocked.{UnlockedKeyring, write}
use oo.Unlocked.Migrate.{open_at}
use oo.File.{FileKeyring, unlocked_keyring, file_path}
use oo.Server.{
  ObjectPath, ServiceError, zbus, no_such_object, Bus, service, collection_created,
  collections_changed,
}
use oo.Server.Collection.{Collection, new}
use oo.Server.Service.{
  Service, Prompt, PromptRole, for_creation, PromptAction, complete_creation, in_world,
}
use oo.Server.Service.Naming.{Lowercase, expected_path, make_unique_label_and_alias}

-- `OwnedObjectPath::default()`
abbrev pub no_path : ObjectPath
no_path = codes "/"

module _ {W : Type 0} where
  -- `prompt_index`, which counts up.
  unfoldable pub next_prompt_index : Step ServiceError (Service × W) ℕ
  next_prompt_index s = (
    ok ((s.0.prompt_index + 1) % 2 ^ 32),
    (record s.0 { prompt_index = (s.0.prompt_index + 1) % 2 ^ 32 }, s.1),
  )

  -- `Prompt::new` and `set_action`
  unfoldable pub new_prompt :
      PromptRole
      → Text
      → Option ObjectPath
      → (ObjectPath → PromptAction)
      → Step ServiceError (Service × W) Prompt
  unfolding decimal
  new_prompt role label collection action = do
    index ← next_prompt_index
    let path = codes "/org/freedesktop/secrets/prompt/p" ++ decimal index
    pure (record {
      role = role;
      path = path;
      label = label;
      collection = collection;
      action = some (action path);
    })

  unfoldable pub register_prompt : Prompt → Step ServiceError (Service × W) (Unit {0})
  register_prompt prompt =
      modify (λ s. (record s.0 { prompts = insert prompt.path prompt s.0.prompts }, s.1))

  -- What was to be created goes with the prompt.
  unfoldable pub remove_prompt : ObjectPath → Step ServiceError (Service × W) (Unit {0})
  remove_prompt path = modify (λ s. (
    record s.0 {
      prompts = remove path s.0.prompts;
      pending_collections = remove path s.0.pending_collections;
    },
    s.1,
  ))

  unfoldable pub pending_collection :
      ObjectPath → Step ServiceError (Service × W) (Option (Text × Text))
  pending_collection prompt_path = gets (λ s. get prompt_path s.0.pending_collections)

module _ {W : Type 0} ⦃bus : Bus W⦄ where
  -- A prompt put into the table and on the bus.
  unfoldable pub serve_prompt : Prompt → Step ServiceError (Service × W) ObjectPath
  serve_prompt prompt = do
    register_prompt prompt
    in_world (bus.serve prompt.path)
    pure prompt.path

  -- Of the properties only the label is used.
  unfoldable pub create_collection :
      Text → Text → Step ServiceError (Service × W) (ObjectPath × ObjectPath)
  create_collection label alias = do
    prompt ← new_prompt for_creation label none complete_creation
    modify (λ s. (
      record s.0 {
        pending_collections = insert prompt.path (label, alias) s.0.pending_collections;
      },
      s.1,
    ))
    prompt_path ← serve_prompt prompt
    pure (no_path, prompt_path)

module _ {W : Type 0} ⦃bus : Bus W⦄ where
  -- A collection put on the bus and into the table.
  unfoldable pub put_collection : Collection → Step ServiceError (Service × W) ObjectPath
  put_collection collection = do
    in_world (bus.serve collection.path)
    modify
        (λ s. (record s.0 { collections = insert collection.path collection s.0.collections }, s.1))
    in_world (bus.emit (collection_created collection.path))
    in_world (bus.emit collections_changed)
    pure collection.path

module _ {W : Type 0} ⦃whole : WholeFiles W⦄ ⦃lowercase : Lowercase⦄ where
  -- `Collection::new`
  unfoldable pub new_collection : Text → Text → Text → FileKeyring → Step ServiceError W Collection
  new_collection name label alias keyring = do
    path ← lift (expected_path label)
    created ← λ w. elim (file_path keyring) [
      | none ↦ (ok none, w)
      | some file ↦ (ok (whole.created file w).0, (whole.created file w).1)
    ]
    pure (new name label alias path created keyring)

module _ {W : Type 0} ⦃os : Os W⦄ ⦃whole : WholeFiles W⦄ ⦃p : Primitives⦄
    ⦃codec : Codec UnlockedItem⦄ ⦃kc : Codec Keyring⦄ ⦃r : ReadBytes⦄ ⦃lowercase : Lowercase⦄ where
  -- The keyring of a new collection, in its file.
  unfoldable pub new_keyring : FilePath → Text → Option Secret → Step ServiceError W UnlockedKeyring
  new_keyring data_dir name secret = do
    u ← service (open_at data_dir name secret)
    λ w. (
      elim (write (u, w)).0 [ ok _ ↦ ok (write (u, w)).1.0 | err e ↦ err zbus | panic ↦ panic ],
      (write (u, w)).1.1,
    )

module _ {W : Type 0} ⦃os : Os W⦄ ⦃whole : WholeFiles W⦄ ⦃p : Primitives⦄
    ⦃codec : Codec UnlockedItem⦄ ⦃kc : Codec Keyring⦄ ⦃r : ReadBytes⦄ ⦃lowercase : Lowercase⦄
    ⦃bus : Bus W⦄ where
  -- What follows once the file is written: the label and the alias are chosen, and the collection is
  -- put on the bus and into the table.
  unfoldable pub add_collection :
      Text → Text → Text → FileKeyring → Step ServiceError (Service × W) ObjectPath
  add_collection name label alias keyring = do
    collections ← gets (λ s. s.0.collections)
    unique ← lift (make_unique_label_and_alias collections label alias)
    collection ← in_world (new_collection name unique.0 unique.1 keyring)
    put_collection collection

  unfoldable pub create_collection_with_secret :
      Text → Text → Option Secret → Step ServiceError (Service × W) ObjectPath
  create_collection_with_secret label alias secret = do
    data_dir ← gets (λ s. s.0.data_dir)
    let name = lowercase.to_lowercase label
    keyring ← in_world (new_keyring data_dir name secret)
    add_collection name label alias (unlocked_keyring keyring)

  -- What was pending stays so if the creation fails.
  unfoldable pub complete_collection_creation :
      ObjectPath → Option Secret → Step ServiceError (Service × W) ObjectPath
  complete_collection_creation prompt_path secret = do
    pending ← pending_collection prompt_path
    wanted ← lift (or_err no_such_object pending)
    path ← create_collection_with_secret wanted.0 wanted.1 secret
    modify (λ s.
        (record s.0 { pending_collections = remove prompt_path s.0.pending_collections }, s.1))
    pure path
