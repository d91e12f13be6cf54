-- ===== src/Server/Service/Requests.antt =====
-- server/src/service/mod.rs, server/src/collection/mod.rs and server/src/item/mod.rs: what clients ask
-- of several collections, and the methods that open a prompt where a collection is locked.
use oo.Prelude.{
  ℕ, Bool, true, false, ◌||◌, Option, none, some, List, [], ◌∷◌, ◌++◌, map, length, ◌==◌,
  if◌then◌else◌, Text,
}
use oo.HashMap.{get, insert, remove}
use oo.Outcome.{Result, ok, err, panic, or_err}
use oo.Exec.{Step, pure, lift, gets, modify, ◌>>=◌, ◌>>◌}
use oo.Os.{Os, FilePath, WholeFiles}
use oo.Crypto.{Primitives}
use oo.Item.{Map, UnlockedItem, Codec}
use oo.Keyring.{Keyring}
use oo.File.{is_locked_item, unlocked_keyring, locked_keyring}
use oo.Server.{
  ObjectPath, ServiceError, is_locked, no_such_object, Bus, service, DbusSecret, collection_deleted,
  collections_changed,
}
use oo.Server.Item.{Item, unwrap}
use oo.Server.Item
use oo.Server.Collection.{Collection, collection_is_locked, item_from_path, search_inner_items}
use oo.Server.Collection.Methods.{create_item_unlocked, delete_unlocked}
use oo.Server.Service.{
  Service, Collections, for_unlock, PromptAction, delete_collection, making_item, dropping_item,
  in_world, at_collection, tried,
}
use oo.Server.Service.Creation.{no_path, new_prompt, serve_prompt}

-- The paths of items that were found, the unlocked and the locked ones.
unfoldable pub split_items : List Item → Result ServiceError (List ObjectPath × List ObjectPath)
split_items [] = ok ([], [])
split_items (i ∷ items) =
    let rest = split_items items in
    elim i.inner [
      | none ↦ panic
      | some item ↦ elim rest [
        | ok found ↦ ok (
            if is_locked_item item
            then (found.0, i.path ∷ found.1)
            else (i.path ∷ found.0, found.1))
        | err e ↦ err e
        | panic ↦ panic
      ]
    ]

module _ {W : Type 0} ⦃p : Primitives⦄ ⦃codec : Codec UnlockedItem⦄ where
  -- The collections in turn; each may derive its key.
  unfoldable pub search_collections :
      Map → List ObjectPath → Step ServiceError (Service × W) (List ObjectPath × List ObjectPath)
  search_collections attributes [] = pure ([], [])
  search_collections attributes (path ∷ paths) = do
    found ← at_collection path (search_inner_items attributes)
    split ← lift (split_items (elim found [ none ↦ [] | some items ↦ items ]))
    rest ← search_collections attributes paths
    pure (split.0 ++ rest.0, split.1 ++ rest.1)

  unfoldable pub search_items :
      Map → Step ServiceError (Service × W) (List ObjectPath × List ObjectPath)
  search_items attributes = do
    paths ← gets (λ s. map (λ c. c.0) s.0.collections)
    search_collections attributes paths

abbrev pub Secrets : Type 0
Secrets = List (ObjectPath × DbusSecret)

module _ {W : Type 0} ⦃os : Os W⦄ ⦃p : Primitives⦄ ⦃codec : Codec UnlockedItem⦄ where
  -- `Item::get_secret` of a clone of the item, beside the table of sessions.
  unfoldable pub item_secret : ObjectPath → Item → Step ServiceError (Service × W) DbusSecret
  item_secret session_path i s =
      let r = Item.get_secret session_path (s.0.sessions, (i, s.1)) in
      (r.0, (record s.0 { sessions = r.1.0 }, r.1.1.1))

  -- The items of one collection. The loop ends as soon as there are as many secrets as items were
  -- asked for, which is what the number is; a locked item is left out.
  unfoldable pub secrets_of :
      ℕ
      → ObjectPath
      → Collection
      → List ObjectPath
      → Secrets
      → Step ServiceError (Service × W) (Bool × Secrets)
  secrets_of wanted session_path c [] secrets = pure (false, secrets)
  secrets_of wanted session_path c (path ∷ paths) secrets = elim (item_from_path path c.items) [
    | none ↦ secrets_of wanted session_path c paths secrets
    | some i ↦ λ s.
        let r = item_secret session_path i s in
        elim r.0 [
          | ok secret ↦
              let more = insert i.path secret secrets in
              let rest = secrets_of wanted session_path c paths more r.1 in
              if length more == wanted then (ok (true, more), r.1) else rest
          | err is_locked ↦ secrets_of wanted session_path c paths secrets r.1
          | err e ↦ (err e, r.1)
          | panic ↦ (panic, r.1)
        ]
  ]

  unfoldable pub secrets_in :
      List ObjectPath → ObjectPath → Collections → Secrets → Step ServiceError (Service × W) Secrets
  secrets_in items session_path [] secrets = pure secrets
  secrets_in items session_path ((path, c) ∷ collections) secrets = do
    found ← secrets_of (length items) session_path c items secrets
    if found.0 then pure found.1 else secrets_in items session_path collections found.1

  unfoldable pub get_secrets :
      List ObjectPath → ObjectPath → Step ServiceError (Service × W) Secrets
  get_secrets items session_path = do
    collections ← gets (λ s. s.0.collections)
    secrets_in items session_path collections []

module _ {W : Type 0} ⦃bus : Bus W⦄ where
  -- The signal is tried.
  unfoldable pub remove_collection : ObjectPath → Step ServiceError (Service × W) (Unit {0})
  remove_collection path = do
    modify (λ s. (record s.0 { collections = remove path s.0.collections }, s.1))
    tried (in_world (bus.emit collections_changed))

  unfoldable pub remove_items : List Item → Step ServiceError W (Unit {0})
  remove_items [] = pure tt
  remove_items (i ∷ items) = do bus.remove i.path; remove_items items

  -- The prompt of a locked collection.
  unfoldable pub prompt_for :
      ObjectPath → Collection → PromptAction → Step ServiceError (Service × W) ObjectPath
  prompt_for path c action = do
    prompt ← new_prompt for_unlock c.label (some path) (λ _. action)
    serve_prompt prompt

  unfoldable pub collection_at : ObjectPath → Step ServiceError (Service × W) Collection
  collection_at path s = (or_err no_such_object (get path s.0.collections), s)

-- The file of an open keyring, if it has one.
unfoldable pub open_path : Collection → Result ServiceError (Option FilePath)
open_path c = elim c.keyring [
  | none ↦ err is_locked
  | some (locked_keyring l) ↦ err is_locked
  | some (unlocked_keyring u) ↦ ok u.path
]

module _ {W : Type 0} ⦃whole : WholeFiles W⦄ ⦃bus : Bus W⦄ where
  unfoldable pub remove_file : Option FilePath → Step ServiceError W (Unit {0})
  remove_file none = pure tt
  remove_file (some path) = service (whole.remove_file path)

  -- `Collection::delete_unlocked`
  unfoldable pub delete_collection_unlocked :
      ObjectPath → Step ServiceError (Service × W) (Unit {0})
  delete_collection_unlocked path = do
    c ← collection_at path
    keyring_path ← lift (open_path c)
    in_world (remove_items c.items)
    in_world (remove_file keyring_path)
    in_world (bus.emit (collection_deleted path))
    in_world (bus.remove path)
    remove_collection path

  -- `Collection::delete`; the path of a prompt, or of none.
  unfoldable pub collection_delete : ObjectPath → Step ServiceError (Service × W) ObjectPath
  collection_delete path = do
    c ← collection_at path
    if collection_is_locked c
        then prompt_for path c (delete_collection path)
        else (do delete_collection_unlocked path; pure no_path)

module _ {W : Type 0} ⦃os : Os W⦄ ⦃p : Primitives⦄ ⦃codec : Codec UnlockedItem⦄ ⦃bus : Bus W⦄
    ⦃kc : Codec Keyring⦄ where
  -- `Collection::create_item_unlocked`, beside the table of sessions.
  unfoldable pub create_item_at :
      ObjectPath → Text → Map → DbusSecret → Bool → Step ServiceError (Service × W) ObjectPath
  create_item_at path label attributes secret replace s = elim (get path s.0.collections) [
    | none ↦ (err no_such_object, s)
    | some c ↦
        let r = create_item_unlocked label attributes secret replace (s.0.sessions, (c, s.1)) in
        (
          r.0,
          (
            record s.0 { sessions = r.1.0; collections = insert path r.1.1.0 s.0.collections },
            r.1.1.1,
          ),
        )
  ]

  -- `Collection::create_item`
  unfoldable pub collection_create_item :
      ObjectPath
      → Text
      → Map
      → DbusSecret
      → Bool
      → Step ServiceError (Service × W) (ObjectPath × ObjectPath)
  collection_create_item path label attributes secret replace = do
    c ← collection_at path
    if collection_is_locked c
        then (do
          prompt ← prompt_for path c (making_item path label attributes secret replace)
          pure (no_path, prompt))
        else (do
          item_path ← create_item_at path label attributes secret replace
          pure (item_path, no_path))

  unfoldable pub delete_item_at :
      ObjectPath → ObjectPath → Step ServiceError (Service × W) (Unit {0})
  delete_item_at path item_path = do
    done ← at_collection path (delete_unlocked item_path)
    lift (or_err no_such_object done)

  -- `Item::delete`
  unfoldable pub item_delete : ObjectPath → ObjectPath → Step ServiceError (Service × W) ObjectPath
  item_delete path item_path = do
    c ← collection_at path
    i ← lift (or_err no_such_object (item_from_path item_path c.items))
    inner ← lift (unwrap i.inner)
    if is_locked_item inner || collection_is_locked c
        then prompt_for path c (dropping_item path item_path)
        else (do delete_item_at path item_path; pure no_path)
