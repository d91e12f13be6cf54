-- ===== src/Unlocked.antt =====
-- client/src/file/unlocked_keyring.rs: a keyring that is open, with its file and its key. Each method
-- is a step on the keyring and the world; the locks that the source takes are left out, so the steps
-- of two callers do not interleave here.
pub mod Bulk
pub mod Cache
pub mod Create
pub mod Writes
pub mod Repair
pub mod Rekey
pub mod Session
pub mod Migrate
use oo.Prelude.{
  ℕ, suc, ◌+◌, Bool, true, false, Option, none, some, List, [], ◌∷◌, ◌++◌, map, length, get_elem?,
  set, erase_idx, ltb, if◌then◌else◌, Bytes, Text, is_some,
}
use oo.HashMap.{keys}
use oo.Outcome.{Outcome, ok, err, panic, invalid_item_index, Error}
use oo.Exec.{Exec, pure, lift, gets, raise, modify, ◌>>=◌, ◌>>◌, zoom}
use oo.Os.{Os, FilePath}
use oo.Secret.{Secret}
use oo.Crypto.{Primitives, Key}
use oo.Item.{Map, UnlockedItem, EncryptedItem, Codec, encrypt_item, decrypt_item, is_valid}
use oo.Item
use oo.Keyring.{Keyring}
use oo.Keyring
use oo.Keyring.Disk.{Disk, clock, dump}
use oo.Keyring.Disk

pub record UnlockedKeyring : Type 0 where
  pub keyring : Keyring
  pub path : Option FilePath
  pub mtime : Option ℕ
  pub key : Option Key
  pub secret : Option Secret

abbrev pub State : Type 0 → Type 0
State W = UnlockedKeyring × W

module _ {W : Type 0} {A : Type 0} where
  abbrev pub on_world : Exec W A → Exec (State W) A
  on_world = zoom (λ s. s.1) (λ w s. (s.0, w))

  abbrev pub on_disk : Exec (Disk W) A → Exec (State W) A
  on_disk = zoom (λ s. (s.0.keyring, s.1)) (λ d s. (record s.0 { keyring = d.0 }, d.1))

  abbrev pub on_keyring : Exec Keyring A → Exec (State W) A
  on_keyring = zoom (λ s. s.0.keyring) (λ k s. (record s.0 { keyring = k }, s.1))

abbrev pub push : {W : Type 0} → EncryptedItem → Exec (State W) (Unit {0})
push e = on_keyring (modify (λ k. record k { items = k.items ++ e ∷ [] }))

module _ {W : Type 0} ⦃p : Primitives⦄ where
  -- The key is derived once and kept; without a secret there is none.
  unfoldable pub derive_key : Exec (State W) (Option Key)
  derive_key s = elim s.0.secret [
    | none ↦ (ok none, s)
    | some secret ↦ elim s.0.key [
      | some key ↦ (ok (some key), s)
      | none ↦ elim (Keyring.derive_key s.0.keyring secret) [
        | ok key ↦ (ok (some key), (record s.0 { key = some key }, s.1))
        | err e ↦ (err e, s)
        | panic ↦ (panic, s)
      ]
    ]
  ]

module _ {W : Type 0} ⦃os : Os W⦄ ⦃kc : Codec Keyring⦄ where
  -- The time of the file after a write, if the platform tells it.
  unfoldable pub refresh_mtime : FilePath → Exec (State W) (Unit {0})
  refresh_mtime path = do
    modified ← on_world (os.metadata_modified path)
    modify (λ s. elim modified [ none ↦ s | some t ↦ (record s.0 { mtime = some t }, s.1) ])

  unfoldable pub write_to : Option FilePath → Option ℕ → Exec (State W) (Unit {0})
  write_to none mtime = pure tt
  write_to (some path) mtime = do on_disk (dump path mtime); refresh_mtime path

  unfoldable pub write : Exec (State W) (Unit {0})
  write s = write_to s.0.path s.0.mtime s

module _ {W : Type 0} ⦃os : Os W⦄ ⦃p : Primitives⦄ ⦃codec : Codec UnlockedItem⦄ where
  -- The part of `create_item`, and of each round of `create_items`, that changes the keyring.
  unfoldable pub insert_item : Option Key → Text → Map → Secret → Bool → Exec (State W) UnlockedItem
  insert_item key label attributes secret replace = do
    if replace then on_keyring (Keyring.remove_items attributes key) else pure tt
    now ← on_world clock
    let item = Item.new label attributes secret now
    encrypted_item ← on_world (encrypt_item item key)
    push encrypted_item
    pure item

module _ {W : Type 0} ⦃os : Os W⦄ ⦃p : Primitives⦄ ⦃codec : Codec UnlockedItem⦄
    ⦃kc : Codec Keyring⦄ where
  unfoldable pub create_item : Text → Map → Secret → Bool → Exec (State W) UnlockedItem
  create_item label attributes secret replace = do
    key ← derive_key
    item ← insert_item key label attributes secret replace
    write
    pure item

  unfoldable pub delete : Map → Exec (State W) (Unit {0})
  delete attributes = do key ← derive_key; on_keyring (Keyring.remove_items attributes key); write

  unfoldable pub replace_item_index : ℕ → UnlockedItem → Exec (State W) (Unit {0})
  replace_item_index index item = do
    key ← derive_key
    n ← gets (λ s. length s.0.keyring.items)
    if ltb index n
        then (do
          encrypted_item ← on_world (encrypt_item item key)
          on_keyring (modify (λ k. record k { items = set k.items index encrypted_item })))
        else raise (invalid_item_index index)
    write

  unfoldable pub delete_item_index : ℕ → Exec (State W) (Unit {0})
  delete_item_index index = do
    n ← gets (λ s. length s.0.keyring.items)
    if ltb index n
        then on_keyring (modify (λ k. record k { items = erase_idx k.items index }))
        else raise (invalid_item_index index)
    write

module _ {W : Type 0} ⦃p : Primitives⦄ ⦃codec : Codec UnlockedItem⦄ where
  unfoldable pub search_items : Map → Exec (State W) (List UnlockedItem)
  search_items attributes = do
    key ← derive_key
    on_keyring (λ k. (Keyring.search_items k attributes key, k))

  unfoldable pub lookup_item : Map → Exec (State W) (Option UnlockedItem)
  lookup_item attributes = do
    key ← derive_key
    on_keyring (λ k. (Keyring.lookup_item k attributes key, k))

  unfoldable pub lookup_item_index : Map → Exec (State W) (Option ℕ)
  lookup_item_index attributes = do
    key ← derive_key
    on_keyring (gets (λ k. Keyring.lookup_item_index k attributes key))

  unfoldable pub validate_secret : Secret → Exec (State W) Bool
  validate_secret secret = on_keyring (λ k. (Keyring.validate_secret k secret, k))

module _ {W : Type 0} ⦃os : Os W⦄ ⦃p : Primitives⦄ ⦃codec : Codec UnlockedItem⦄ where
  unfoldable pub lock_item : UnlockedItem → Exec (State W) EncryptedItem
  lock_item item = do key ← derive_key; on_world (encrypt_item item key)

module _ {W : Type 0} ⦃p : Primitives⦄ ⦃codec : Codec UnlockedItem⦄ where
  unfoldable pub unlock_item : EncryptedItem → Exec (State W) UnlockedItem
  unlock_item item = do key ← derive_key; lift (decrypt_item item key)
