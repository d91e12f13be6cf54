-- ===== src/Server/Collection.antt =====
-- server/src/collection/mod.rs: a collection on the bus, with its keyring and its items.
pub mod Methods
pub mod Locking
pub mod Faults
pub mod Deletion
use oo.Prelude.{
  ℕ, suc, ◌+◌, ◌%◌, ◌^◌, Bool, true, false, not, Option, none, some, List, [], ◌∷◌, ◌++◌, map,
  filter, find, if◌then◌else◌, Bytes, Text, codes, bytes_eq,
}
use oo.Outcome.{Result, Outcome, ok, err, panic}
use oo.Exec.{Step, Exec, pure, lift, gets, raise, modify, zoom, ◌>>=◌, ◌>>◌}
use oo.Os.{Os, FilePath}
use oo.Secret.{Secret}
use oo.Crypto.{Primitives, Key}
use oo.Item.{Map, UnlockedItem, EncryptedItem, Codec}
use oo.Keyring.{Keyring}
use oo.Keyring.Disk.{clock}
use oo.Legacy.Items.{decimal}
use oo.Unlocked.{UnlockedKeyring, State}
use oo.Unlocked
use oo.Locked.{LockedKeyring, lock, open_with}
use oo.Locked.Open.{load}
use oo.File.{
  FileItem, FileKeyring, locked_keyring, unlocked_keyring, is_locked_keyring, file_matches,
  file_path, file_items, modified_time,
}
use oo.Server.{
  ObjectPath, ServiceError, zbus, is_locked, no_such_object, Signal, locked_changed,
  modified_changed, label_changed, items_changed, collection_changed, Bus, as_service, service,
}
use oo.Server.Item.{Item}
use oo.Server.Item

pub record Collection : Type 0 where
  pub items : List Item
  pub label : Text
  pub created : ℕ
  pub modified : ℕ
  pub name : Text
  pub alias : Text
  pub keyring : Option FileKeyring
  pub item_index : ℕ
  pub path : ObjectPath

-- `Collection::new` at a path that is made of the label; `created_time` is the time of the file, if
-- there is one.
unfoldable pub new : Text → Text → Text → ObjectPath → Option ℕ → FileKeyring → Collection
unfolding modified_time
new name label alias path created_time keyring = record {
  items = [];
  label = label;
  created = elim created_time [ none ↦ modified_time keyring | some t ↦ t ];
  modified = modified_time keyring;
  name = name;
  alias = alias;
  keyring = some keyring;
  item_index = 0;
  path = path;
}

-- A collection without a keyring counts as locked.
unfoldable pub collection_is_locked : Collection → Bool
collection_is_locked c = elim c.keyring [ none ↦ true | some k ↦ is_locked_keyring k ]

unfoldable pub set_alias : Text → Collection → Collection
set_alias alias c = record c { alias = alias }

-- `format!("{}/{n_items}", self.path)`
unfoldable pub item_path : ObjectPath → ℕ → ObjectPath
unfolding decimal
item_path path n = path ++ b'/' ∷ decimal n

unfoldable pub item_from_path : ObjectPath → List Item → Option Item
unfolding find bytes_eq
item_from_path path items = find (λ i. bytes_eq i.path path) items

unfoldable pub without : ObjectPath → List Item → List Item
without path items = filter (λ i. not (bytes_eq i.path path)) items

module _ {W A : Type 0} where
  abbrev pub on_world : Step ServiceError W A → Step ServiceError (Collection × W) A
  on_world = zoom (λ s. s.1) (λ w s. (s.0, w))

  -- A method of the open keyring; if there is none, the collection is locked.
  unfoldable pub on_unlocked : Exec (State W) A → Step ServiceError (Collection × W) A
  on_unlocked m s = elim s.0.keyring [
    | none ↦ (err is_locked, s)
    | some (locked_keyring l) ↦ (err is_locked, s)
    | some (unlocked_keyring u) ↦ (
      as_service (m (u, s.1)).0,
      (record s.0 { keyring = some (unlocked_keyring (m (u, s.1)).1.0) }, (m (u, s.1)).1.1),
    )
  ]

module _ ⦃p : Primitives⦄ where
  -- `search_items_with_key`; an item without contents makes it panic.
  unfoldable pub search_items_with_key :
      Map → Option Key → List Item → Result ServiceError (List Item)
  search_items_with_key attributes key [] = ok []
  search_items_with_key attributes key (i ∷ is) =
      let rest = search_items_with_key attributes key is in
      elim i.inner [
        | none ↦ panic
        | some item ↦ elim rest [
          | ok found ↦ ok (if file_matches item attributes key then i ∷ found else found)
          | err e ↦ err e
          | panic ↦ panic
        ]
      ]

  unfoldable pub search_inner_items :
      ⦃codec : Codec UnlockedItem⦄
      → {W : Type 0} → Map
      → Step ServiceError (Collection × W) (List Item)
  search_inner_items attributes s =
      if collection_is_locked s.0
      then (ok [], s)
      else (do
        key ← on_unlocked Unlocked.derive_key
        λ t. (search_items_with_key attributes key t.0.items, t))
          s

module _ {W : Type 0} ⦃os : Os W⦄ ⦃bus : Bus W⦄ where
  unfoldable pub update_modified : Step ServiceError (Collection × W) (Unit {0})
  update_modified = do
    now ← on_world (service clock)
    modify (λ s. (record s.0 { modified = now }, s.1))
    path ← gets (λ s. s.0.path)
    on_world (bus.emit (modified_changed path))

  unfoldable pub set_label : Text → Step ServiceError (Collection × W) (Unit {0})
  set_label label = do
    locked ← gets (λ s. collection_is_locked s.0)
    if locked then raise zbus else pure tt
    modify (λ s. (record s.0 { label = label }, s.1))
    update_modified
    path ← gets (λ s. s.0.path)
    on_world (bus.emit (collection_changed path))
    on_world (bus.emit (label_changed path))

module _ {W : Type 0} ⦃os : Os W⦄ ⦃p : Primitives⦄ ⦃codec : Codec UnlockedItem⦄ ⦃bus : Bus W⦄ where
  -- Each item locked or unlocked in turn, until one fails.
  unfoldable pub turn_items :
      Bool → List Item → State W → Result ServiceError (Unit {0}) × (List Item × State W)
  turn_items locked [] s = (ok tt, ([], s))
  turn_items locked (i ∷ is) s =
      let r = Item.set_locked locked (i, s) in
      let rest = turn_items locked is r.1.1 in
      elim r.0 [
        | ok _ ↦ (rest.0, (r.1.0 ∷ rest.1.0, rest.1.1))
        | err e ↦ (err e, (r.1.0 ∷ is, r.1.1))
        | panic ↦ (panic, (r.1.0 ∷ is, r.1.1))
      ]

  -- The items are turned under the keyring, which was taken out; it is put back if all goes well.
  unfoldable pub turn_all :
      Bool
      → (UnlockedKeyring → FileKeyring)
      → UnlockedKeyring
      → Step ServiceError (Collection × W) (Unit {0})
  turn_all locked put u s =
      let r = turn_items locked s.0.items (u, s.1) in
      elim r.0 [
        | ok _ ↦ (ok tt, (record s.0 { items = r.1.0; keyring = some (put r.1.1.0) }, r.1.1.1))
        | err e ↦ (err e, (record s.0 { items = r.1.0; keyring = none }, r.1.1.1))
        | panic ↦ (panic, (record s.0 { items = r.1.0; keyring = none }, r.1.1.1))
      ]

  -- After an unlock that failed: the keyring as its file has it, if it has one that can be read.
  unfoldable pub reload :
      ⦃kc : Codec Keyring⦄ → Option FilePath → Step ServiceError (Collection × W) (Unit {0})
  reload none s = (err zbus, (record s.0 { keyring = none }, s.1))
  reload (some path) s = elim (load path s.1).0 [
    | ok reloaded ↦
        (err zbus, (record s.0 { keyring = some (locked_keyring reloaded) }, (load path s.1).1))
    | err e ↦ (err zbus, (record s.0 { keyring = none }, (load path s.1).1))
    | panic ↦ (panic, (record s.0 { keyring = none }, (load path s.1).1))
  ]

  unfoldable pub unlock_with :
      ⦃kc : Codec Keyring⦄
      → Option Secret
      → LockedKeyring
      → Step ServiceError (Collection × W) (Unit {0})
  unlock_with secret l s = elim (open_with l secret true) [
    | ok u ↦ turn_all false unlocked_keyring u s
    | err e ↦ reload l.path s
    | panic ↦ (panic, (record s.0 { keyring = none }, s.1))
  ]

  unfoldable pub turn_keyring :
      ⦃kc : Codec Keyring⦄
      → Bool
      → Option Secret
      → Option FileKeyring
      → Step ServiceError (Collection × W) (Unit {0})
  turn_keyring locked secret none = pure tt
  turn_keyring true secret (some (unlocked_keyring u)) =
      turn_all true (λ v. locked_keyring (lock v)) u
  turn_keyring true secret (some (locked_keyring l)) = pure tt
  turn_keyring false secret (some (locked_keyring l)) = unlock_with secret l
  turn_keyring false secret (some (unlocked_keyring u)) = pure tt

  unfoldable pub set_locked :
      ⦃kc : Codec Keyring⦄ → Bool → Option Secret → Step ServiceError (Collection × W) (Unit {0})
  set_locked locked secret = do
    keyring ← gets (λ s. s.0.keyring)
    turn_keyring locked secret keyring
    path ← gets (λ s. s.0.path)
    on_world (bus.emit (locked_changed path))
    on_world (bus.emit (collection_changed path))
