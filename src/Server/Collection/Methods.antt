-- ===== src/Server/Collection/Methods.antt =====
-- server/src/collection/mod.rs: the items of a collection that come and go.
use oo.Prelude.{
  ℕ, ◌+◌, ◌%◌, ◌^◌, Bool, true, false, Option, none, some, List, [], ◌∷◌, ◌++◌, if◌then◌else◌, Text,
}
use oo.Outcome.{ok, err, panic}
use oo.Exec.{Step, pure, lift, gets, raise, modify, ◌>>=◌, ◌>>◌}
use oo.Os.{Os}
use oo.Secret.{blob, as_str}
use oo.Crypto.{Primitives, Key}
use oo.Item.{Map, UnlockedItem, Codec, with_default_type}
use oo.Keyring.{Keyring}
use oo.Unlocked
use oo.File.{FileItem, unlocked_item, is_locked_item, file_items}
use oo.Server.{
  ObjectPath, ServiceError, is_locked, no_such_object, item_created, item_deleted, items_changed,
  Bus, as_service, Session, Sessions, find_session, on_object, DbusSecret,
}
use oo.Server.Item.{Item, received, unwrap, property}
use oo.Server.Collection.{
  Collection, on_world, on_unlocked, collection_is_locked, item_path, item_from_path, without,
  search_items_with_key, update_modified,
}

module _ {W : Type 0} ⦃bus : Bus W⦄ where
  -- The items that a new one replaces leave the collection and the bus.
  unfoldable pub drop_items : List Item → Step ServiceError (Collection × W) (Unit {0})
  drop_items [] = pure tt
  drop_items (existing ∷ rest) = do
    modify (λ s. (record s.0 { items = without existing.path s.0.items }, s.1))
    on_world (bus.remove existing.path)
    path ← gets (λ s. s.0.path)
    on_world (bus.emit (item_deleted path existing.path))
    drop_items rest

  replace_items :
      ⦃p : Primitives⦄ → Bool → Map → Option Key → Step ServiceError (Collection × W) (Unit {0})
  replace_items false attributes key = pure tt
  replace_items true attributes key = do
    existing_items ← λ s. (search_items_with_key attributes key s.0.items, s)
    drop_items existing_items

  -- A new item at the next index.
  unfoldable pub next_item : FileItem → Step ServiceError (Collection × W) Item
  next_item item s = (
    ok (record {
      inner = some item;
      collection_path = s.0.path;
      path = item_path s.0.path s.0.item_index;
    }),
    (record s.0 { item_index = (s.0.item_index + 1) % 2 ^ 32 }, s.1),
  )

module _ {W : Type 0} ⦃os : Os W⦄ ⦃p : Primitives⦄ ⦃codec : Codec UnlockedItem⦄ ⦃bus : Bus W⦄
    ⦃kc : Codec Keyring⦄ where
  -- What follows once the session is found.
  unfoldable pub add_item :
      Session → Text → Map → DbusSecret → Bool → Step ServiceError (Collection × W) ObjectPath
  unfolding replace_items
  add_item session label attributes secret replace = do
    value ← lift (received session secret.value secret.iv)
    let attributes₁ = with_default_type attributes (as_str secret.content_type)
    item ← on_unlocked (Unlocked.create_item label attributes₁ (blob value) replace)
    key ← on_unlocked Unlocked.derive_key
    new_item ← next_item (unlocked_item item)
    replace_items replace attributes₁ key
    modify (λ s. (record s.0 { items = s.0.items ++ new_item ∷ [] }, s.1))
    on_world (bus.serve new_item.path)
    update_modified
    path ← gets (λ s. s.0.path)
    on_world (bus.emit (item_created path new_item.path))
    on_world (bus.emit (items_changed path))
    pure new_item.path

  -- A locked collection refuses at once; what follows goes on with the open keyring.
  unfoldable pub create_item_unlocked :
      Text → Map → DbusSecret → Bool → Step ServiceError (Sessions × (Collection × W)) ObjectPath
  create_item_unlocked label attributes secret replace = do
    locked ← gets (λ s. collection_is_locked s.1.0)
    if locked then raise is_locked else pure tt
    session ← find_session secret.session
    on_object (add_item session label attributes secret replace)

  unfoldable pub delete_item : ObjectPath → Step ServiceError (Collection × W) (Unit {0})
  delete_item path = do
    item ←
        λ s. (elim (item_from_path path s.0.items) [ none ↦ err no_such_object | some i ↦ ok i ], s)
    inner ← lift (unwrap item.inner)
    if is_locked_item inner then raise is_locked else pure tt
    contents ← lift (property inner)
    on_unlocked (Unlocked.delete contents.attributes)
    modify (λ s. (record s.0 { items = without path s.0.items }, s.1))
    update_modified
    collection ← gets (λ s. s.0.path)
    on_world (bus.emit (items_changed collection))

  -- `Item::delete_unlocked`
  unfoldable pub delete_unlocked : ObjectPath → Step ServiceError (Collection × W) (Unit {0})
  delete_unlocked path = do
    delete_item path
    on_world (bus.remove path)
    collection ← gets (λ s. s.0.path)
    on_world (bus.emit (item_deleted collection path))

  -- The items of the keyring put on the bus from index 1 on.
  unfoldable pub dispatch : List FileItem → ℕ → Step ServiceError (Collection × W) ℕ
  dispatch [] n_items = pure n_items
  dispatch (item ∷ items) n_items = do
    path ← gets (λ s. s.0.path)
    let new_item : Item = record {
      inner = some item;
      collection_path = path;
      path = item_path path n_items;
    }
    modify (λ s. (record s.0 { items = s.0.items ++ new_item ∷ [] }, s.1))
    on_world (bus.serve new_item.path)
    dispatch items ((n_items + 1) % 2 ^ 32)

  unfoldable pub dispatch_items : Step ServiceError (Collection × W) (Unit {0})
  dispatch_items = do
    items ← λ s. elim s.0.keyring [
      | none ↦ (panic, s)
      | some k ↦ (
        as_service (file_items (k, s.1)).0,
        (record s.0 { keyring = some (file_items (k, s.1)).1.0 }, (file_items (k, s.1)).1.1),
      )
    ]
    n_items ← dispatch items 1
    modify (λ s. (record s.0 { item_index = n_items }, s.1))
