-- ===== src/Server/Item.antt =====
-- server/src/item/mod.rs: an item of a collection on the bus.
pub mod Transport
use oo.Prelude.{ℕ, Bool, true, false, Option, none, some, List, [], ◌∷◌, if◌then◌else◌, Bytes, Text}
use oo.HashMap.{contains_key, insert}
use oo.Outcome.{Result, Outcome, ok, err, panic}
use oo.Exec.{Step, Exec, pure, lift, gets, raise, modify, zoom, ◌>>=◌, ◌>>◌}
use oo.Os.{Os}
use oo.Secret.{Secret, blob, content_type, as_bytes, as_str}
use oo.Crypto.{Primitives, Key, encrypt, decrypt}
use oo.Item.{
  Map, UnlockedItem, EncryptedItem, Codec, content_type_attribute, secret_of, generate_iv,
}
use oo.Item as Clear
use oo.Keyring.Disk.{clock}
use oo.Unlocked.{UnlockedKeyring, State, lock_item, unlock_item}
use oo.File.{FileItem, locked_item, unlocked_item, is_locked_item}
use oo.Server.{
  ObjectPath, ServiceError, zbus, is_locked, Signal, item_changed, locked_changed, modified_changed,
  label_changed, attributes_changed, Bus, as_service, service, Session, Sessions, find_session,
  on_object, DbusSecret,
}

pub record Item : Type 0 where
  pub inner : Option FileItem
  pub collection_path : ObjectPath
  pub path : ObjectPath

module _ {W A : Type 0} where
  abbrev pub on_world : Step ServiceError W A → Step ServiceError (Item × W) A
  on_world = zoom (λ s. s.1) (λ w s. (s.0, w))

-- `inner.as_ref().unwrap()`
abbrev pub unwrap : Option FileItem → Result ServiceError FileItem
unwrap none = panic
unwrap (some i) = ok i

-- The item in the clear, an error if it is locked.
abbrev pub unlocked : FileItem → Result ServiceError UnlockedItem
unlocked (locked_item e) = err is_locked
unlocked (unlocked_item i) = ok i

-- The same for properties, which fail with an error of the bus.
abbrev pub property : FileItem → Result ServiceError UnlockedItem
property (locked_item e) = err zbus
property (unlocked_item i) = ok i

-- A secret from the bus, decrypted with the session's key if it has one.
unfoldable pub received : ⦃p : Primitives⦄ → Session → Bytes → Bytes → Result ServiceError Bytes
received session value iv = elim session.aes_key [
  | none ↦ ok value
  | some key ↦ as_service (decrypt value key iv)
]

-- The attributes with the given content type.
unfoldable pub with_content_type : Map → Text → Map
unfolding insert
with_content_type m type = insert content_type_attribute type m

module _ {W : Type 0} ⦃os : Os W⦄ ⦃p : Primitives⦄ ⦃codec : Codec UnlockedItem⦄ where
  -- A secret for the bus.
  unfoldable pub sent : Session → Secret → Step ServiceError W DbusSecret
  sent session secret = elim session.aes_key [
    | none ↦ pure (record {
      session = session.path;
      iv = [];
      value = as_bytes secret;
      content_type = content_type secret;
    })
    | some key ↦ do
      iv ← service generate_iv
      encrypted ← lift (as_service (encrypt (as_bytes secret) key iv))
      pure (record {
        session = session.path;
        iv = iv;
        value = encrypted;
        content_type = content_type secret;
      })
  ]

  unfoldable pub get_secret : ObjectPath → Step ServiceError (Sessions × (Item × W)) DbusSecret
  get_secret path = do
    session ← find_session path
    inner ← on_object (λ s. (unwrap s.0.inner, s))
    item ← lift (unlocked inner)
    on_object (on_world (sent session (secret_of item)))

module _ {W : Type 0} where
  -- `inner` is written to where it is in the clear.
  abbrev pub update : UnlockedItem → Step ServiceError (Item × W) (Unit {0})
  update item = modify (λ s. (record s.0 { inner = some (unlocked_item item) }, s.1))

  unfoldable pub is_locked_now : Step ServiceError (Item × W) Bool
  is_locked_now s = (elim s.0.inner [ none ↦ panic | some i ↦ ok (is_locked_item i) ], s)

module _ {W : Type 0} ⦃os : Os W⦄ ⦃bus : Bus W⦄ where
  -- The signal to the collection is sent, the one to the item is tried.
  announce_secret : Step ServiceError (Item × W) (Unit {0})
  announce_secret = do
    i ← gets (λ s. s.0)
    on_world (bus.emit (item_changed i.collection_path i.path))
    λ s. (ok tt, (s.0, (bus.emit (modified_changed i.path) s.1).1))

  -- What follows once the session is found.
  unfoldable pub store_secret :
      ⦃p : Primitives⦄ → Session → DbusSecret → Step ServiceError (Item × W) (Unit {0})
  unfolding announce_secret clock
  store_secret session secret = do
    inner ← λ s. (unwrap s.0.inner, s)
    item ← lift (unlocked inner)
    value ← lift (received session secret.value secret.iv)
    now ← on_world (service clock)
    let item₁ = Clear.set_secret item (blob value) now
    update item₁
    now₁ ← on_world (service clock)
    update (
        Clear.set_attributes item₁ (with_content_type item₁.attributes (as_str secret.content_type))
          now₁)
    announce_secret

  unfoldable pub set_secret :
      ⦃p : Primitives⦄ → DbusSecret → Step ServiceError (Sessions × (Item × W)) (Unit {0})
  set_secret secret = do
    session ← find_session secret.session
    on_object (store_secret session secret)

  unfoldable pub set_attributes : Map → Step ServiceError (Item × W) (Unit {0})
  set_attributes attributes = do
    inner ← λ s. (unwrap s.0.inner, s)
    item ← lift (property inner)
    now ← on_world (service clock)
    update (Clear.set_attributes item attributes now)
    i ← gets (λ s. s.0)
    on_world (bus.emit (item_changed i.collection_path i.path))
    on_world (bus.emit (attributes_changed i.path))
    on_world (bus.emit (modified_changed i.path))

  unfoldable pub set_label : Text → Step ServiceError (Item × W) (Unit {0})
  set_label label = do
    inner ← λ s. (unwrap s.0.inner, s)
    item ← lift (property inner)
    now ← on_world (service clock)
    update (Clear.set_label item label now)
    i ← gets (λ s. s.0)
    on_world (bus.emit (item_changed i.collection_path i.path))
    on_world (bus.emit (label_changed i.path))
    on_world (bus.emit (modified_changed i.path))

module _ {W : Type 0} ⦃os : Os W⦄ ⦃p : Primitives⦄ ⦃codec : Codec UnlockedItem⦄ where
  -- The item behind a lock or an unlock under the key of the keyring.
  unfoldable pub turn : Bool → FileItem → Exec (State W) FileItem
  turn true (unlocked_item item) = do e ← lock_item item; pure (locked_item e)
  turn true (locked_item e) = pure (locked_item e)
  turn false (locked_item e) = do item ← unlock_item e; pure (unlocked_item item)
  turn false (unlocked_item item) = pure (unlocked_item item)

module _ {W : Type 0} ⦃os : Os W⦄ ⦃p : Primitives⦄ ⦃codec : Codec UnlockedItem⦄ ⦃bus : Bus W⦄ where
  unfoldable pub on_keyring :
      {A : Type 0} → Step ServiceError (State W) A → Step ServiceError (Item × State W) A
  on_keyring = zoom (λ s. s.1) (λ k s. (s.0, k))

  -- The item is taken out while it is turned: an error leaves nothing behind.
  unfoldable pub turn_inner : Bool → Option FileItem → Step ServiceError (Item × State W) (Unit {0})
  unfolding on_keyring
  turn_inner locked none = pure tt
  turn_inner locked (some old_item) = do
    modify (λ s. (record s.0 { inner = none }, s.1))
    new_item ← on_keyring (service (turn locked old_item))
    modify (λ s. (record s.0 { inner = some new_item }, s.1))

  unfoldable pub send : Signal → Step ServiceError (Item × State W) (Unit {0})
  send = λ x. zoom (λ s. s.1.1) (λ w s. (s.0, (s.1.0, w))) (bus.emit x)

  unfoldable pub set_locked : Bool → Step ServiceError (Item × State W) (Unit {0})
  unfolding turn_inner send
  set_locked locked = do
    i ← gets (λ s. s.0)
    turn_inner locked i.inner
    send (locked_changed i.path)
    send (item_changed i.collection_path i.path)
