-- ===== src/Server/Collection/Faults.antt =====
-- server/src/collection/mod.rs: what fails, and what a collection that is locked refuses.
use oo.Prelude.{Bool, true, false, Option, none, some, List, [], ◌∷◌, ◌≡◌, Text}
use oo.Outcome.{ok, err, Error}
use oo.Os.{Os}
use oo.Secret.{Secret}
use oo.Crypto.{Primitives}
use oo.Item.{Map, UnlockedItem, EncryptedItem, Codec}
use oo.Keyring.{Keyring}
use oo.Unlocked.{UnlockedKeyring, State, unlock_item}
use oo.Locked.{LockedKeyring, open_with}
use oo.File.{locked_item, locked_keyring}
use oo.Server.{Bus, Sessions, DbusSecret, zbus, is_locked}
use oo.Server.Item.{Item, turn}
use oo.Server.Item
use oo.Server.Collection.{
  Collection, collection_is_locked, turn_items, turn_all, turn_keyring, unlock_with, set_locked,
  set_label, search_inner_items,
}
use oo.Server.Collection.Methods.{create_item_unlocked}

module _ {W : Type 0} ⦃os : Os W⦄ ⦃p : Primitives⦄ ⦃codec : Codec UnlockedItem⦄ ⦃bus : Bus W⦄
    ⦃kc : Codec Keyring⦄ where
  -- A locked collection refuses a new item and a new label, and a search in it finds nothing; none of
  -- these changes anything.
  pub collection_is_locked-refuses :
      (c : Collection) (w : W) (sessions : Sessions) (label : Text) (attributes : Map)
      (secret : DbusSecret) (replace : Bool)
      → collection_is_locked c ≡ true
      → (create_item_unlocked label attributes secret replace (sessions, (c, w))
          ≡ (err is_locked, (sessions, (c, w))))
        × (set_label label (c, w) ≡ (err zbus, (c, w)))
        × (search_inner_items attributes (c, w) ≡ (ok [], (c, w)))
  unfolding create_item_unlocked set_label search_inner_items
  collection_is_locked-refuses c w sessions label attributes secret replace h = (rw h, rw h, rw h)

  turn_items_here :
      (ys : List Item) (i i' : Item) (s s₂ : State W)
      → Item.set_locked false (i, s) ≡ (err zbus, (i', s₂))
      → turn_items false (i ∷ ys) s ≡ (err zbus, (i' ∷ ys, s₂))
  unfolding turn_items
  turn_items_here ys i i' s s₂ fails = rw (turn_items, fails, fails)

  -- An item that does not decrypt is taken out of its place and not put back.
  set_locked_undone :
      (i : Item) (e : EncryptedItem) (er : Error) (s : State W)
      → i.inner ≡ some (locked_item e)
      → (unlock_item e s).0 ≡ err er
      → Item.set_locked false (i, s) ≡ (err zbus, (record i { inner = none }, (unlock_item e s).1))
  unfolding Item.set_locked Item.turn_inner Item.on_keyring turn
  set_locked_undone i e er s inner fails = rw (inner, fails)

  -- When the keyring of a locked collection opens with a secret, but the first item does not decrypt,
  -- then unlocking fails, and the collection has lost its keyring and that item.
  pub set_locked_broken :
      (c : Collection) (l : LockedKeyring) (u : UnlockedKeyring) (secret : Option Secret) (i : Item)
      (is : List Item) (e : EncryptedItem) (er : Error) (w : W)
      → c.keyring ≡ some (locked_keyring l)
      → open_with l secret true ≡ ok u
      → c.items ≡ i ∷ is
      → i.inner ≡ some (locked_item e)
      → (unlock_item e (u, w)).0 ≡ err er
      → set_locked false secret (c, w) ≡ (
        err zbus,
        (
          record c { items = record i { inner = none } ∷ is; keyring = none },
          (unlock_item e (u, w)).1.1,
        ),
      )
  unfolding set_locked turn_keyring unlock_with turn_all
  set_locked_broken c l u secret i is e er w with_keyring opens items inner fails =
      let broken =
        turn_items_here is i (record i { inner = none }) (u, w) _
          (set_locked_undone i e er (u, w) inner fails) in
      rw (turn_keyring, with_keyring, unlock_with, opens, turn_all, items, broken, items, broken)
