-- ===== src/Unlocked/Bulk.antt =====
-- client/src/file/unlocked_keyring.rs: the methods that go through all items.
use oo.Prelude.{
  ℕ, suc, Bool, Option, none, some, List, [], ◌∷◌, length, erase_idx, foldl, reverse, if◌then◌else◌,
  Text,
}
use oo.HashMap.{keys}
use oo.Outcome.{Outcome, ok, err, panic, Error, collect}
use oo.Exec.{Exec, pure, modify, ◌>>=◌, ◌>>◌}
use oo.Os.{Os}
use oo.Secret.{Secret}
use oo.Crypto.{Primitives, Key}
use oo.Item.{Map, UnlockedItem, EncryptedItem, Codec, encrypt_item, decrypt_item, is_valid}
use oo.Keyring.{Keyring}
use oo.Keyring.Disk
use oo.Unlocked.{State, on_world, on_disk, on_keyring, push, derive_key, insert_item, write}

-- `ItemDefinition`
pub record ItemDefinition : Type 0 where
  pub label : Text
  pub attributes : Map
  pub secret : Secret
  pub replace : Bool

-- `InvalidItemError`: the error, and the names of the item's attributes.
pub record InvalidItemError : Type 0 where
  pub error : Error
  pub attribute_names : List Text

pub data AnyItem : Type 0 where
  good : UnlockedItem → AnyItem
  broken : InvalidItemError → AnyItem

module _ ⦃p : Primitives⦄ ⦃codec : Codec UnlockedItem⦄ where
  unfoldable pub open_all : List EncryptedItem → Option Key → Outcome (List AnyItem)
  open_all [] key = ok []
  open_all (e ∷ es) key =
      let rest = open_all es key in
      elim (decrypt_item e key) [
        | ok item ↦ elim rest [ ok xs ↦ ok (good item ∷ xs) | err x ↦ err x | panic ↦ panic ]
        | err x ↦ elim rest [
          | ok xs ↦
              ok (broken (record { error = x; attribute_names = keys e.hashed_attributes }) ∷ xs)
          | err y ↦ err y
          | panic ↦ panic
        ]
        | panic ↦ panic
      ]

  -- `into_iter().flatten()`
  unfoldable pub good_items : List AnyItem → List UnlockedItem
  good_items [] = []
  good_items (good item ∷ xs) = item ∷ good_items xs
  good_items (broken x ∷ xs) = good_items xs

  -- The indices of the items that are not valid, from the index of the first on.
  unfoldable pub broken_items : ℕ → List EncryptedItem → Option Key → Outcome (List ℕ)
  broken_items index [] key = ok []
  broken_items index (e ∷ es) key =
      let rest = broken_items (suc index) es key in
      elim (is_valid e key) [
        | ok valid ↦
            if valid
            then rest
            else elim rest [ ok is ↦ ok (index ∷ is) | err x ↦ err x | panic ↦ panic ]
        | err x ↦ err x
        | panic ↦ panic
      ]

-- `for index in broken_items.into_iter().rev() { items.remove(index) }`
unfoldable pub remove_all : List ℕ → List EncryptedItem → List EncryptedItem
remove_all is es = foldl erase_idx es (reverse is)

module _ {W : Type 0} ⦃p : Primitives⦄ ⦃codec : Codec UnlockedItem⦄ where
  unfoldable pub all_items : Exec (State W) (List AnyItem)
  all_items = do key ← derive_key; on_keyring (λ k. (open_all k.items key, k))

  unfoldable pub items : Exec (State W) (List UnlockedItem)
  unfolding all_items
  items = do xs ← all_items; pure (good_items xs)

module _ {W : Type 0} ⦃os : Os W⦄ ⦃p : Primitives⦄ ⦃codec : Codec UnlockedItem⦄ where
  unfoldable pub insert_items : Option Key → List ItemDefinition → Exec (State W) (Unit {0})
  insert_items key [] = pure tt
  insert_items key (d ∷ ds) = do
    item ← insert_item key d.label d.attributes d.secret d.replace
    insert_items key ds

  -- Each item encrypted and pushed, in order.
  unfoldable pub push_encrypted : Option Key → List UnlockedItem → Exec (State W) (Unit {0})
  push_encrypted key [] = pure tt
  push_encrypted key (item ∷ items) = do
    encrypted_item ← on_world (encrypt_item item key)
    push encrypted_item
    push_encrypted key items

module _ {W : Type 0} ⦃os : Os W⦄ ⦃p : Primitives⦄ ⦃codec : Codec UnlockedItem⦄
    ⦃kc : Codec Keyring⦄ where
  unfoldable pub create_items : List ItemDefinition → Exec (State W) (Unit {0})
  create_items ds = do key ← derive_key; insert_items key ds; write

  -- What of `change_secret` follows the decryption of all items.
  unfoldable pub reencrypt : Secret → List UnlockedItem → Exec (State W) (Unit {0})
  reencrypt secret items = do
    modify (λ s. (record s.0 { secret = some secret; key = none }, s.1))
    on_disk Disk.reset
    key ← derive_key
    push_encrypted key items
    write

  unfoldable pub change_secret : Secret → Exec (State W) (Unit {0})
  change_secret secret = do
    key ← derive_key
    items ← on_keyring (λ k. (collect (λ e. decrypt_item e key) k.items, k))
    reencrypt secret items

  unfoldable pub delete_broken_items : Exec (State W) ℕ
  delete_broken_items = do
    key ← derive_key
    broken_items ← on_keyring (λ k. (broken_items 0 k.items key, k))
    on_keyring (modify (λ k. record k { items = remove_all broken_items k.items }))
    write
    pure (length broken_items)
