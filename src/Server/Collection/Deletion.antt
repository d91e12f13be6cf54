-- ===== src/Server/Collection/Deletion.antt =====
-- server/src/collection/mod.rs, `delete_item`: what leaves the collection and what leaves its keyring.
use oo.Prelude.{Option, some, ◌≡◌, refl}
use oo.Outcome.{ok}
use oo.Os.{Os}
use oo.Crypto.{Primitives, Key}
use oo.Item.{UnlockedItem, Codec}
use oo.Keyring.{Keyring, remaining}
use oo.Keyring.Disk.{clock}
use oo.Keyring.Remove.{Removable, remove_items-Removable}
use oo.Unlocked.{UnlockedKeyring, State, derive_key, write}
use oo.Unlocked
use oo.Unlocked.Writes.{write-SameKeyring}
use oo.File.{unlocked_item, unlocked_keyring}
use oo.Server.{ObjectPath, Bus, AlwaysSends, modified_changed, items_changed}
use oo.Server.Item.{Item}
use oo.Server.Collection.{Collection, item_from_path, without, on_unlocked, update_modified}
use oo.Server.Collection.Methods.{delete_item}

module _ {W : Type 0} ⦃os : Os W⦄ ⦃p : Primitives⦄ ⦃codec : Codec UnlockedItem⦄ ⦃bus : Bus W⦄
    ⦃kc : Codec Keyring⦄ where
  -- What `delete` leaves: the items without those that match, and a keyring that was written.
  delete-remaining :
      (x : UnlockedItem) (u u₁ : UnlockedKeyring) (key : Option Key) (w w₁ : W)
      → derive_key (u, w) ≡ (ok key, (u₁, w₁))
      → Removable u₁.keyring.items x.attributes key
      → let k : Keyring = record u₁.keyring {
        items = remaining u₁.keyring.items x.attributes key;
      } in
        Unlocked.delete x.attributes (u, w) ≡ write (record u₁ { keyring = k }, w₁)
  unfolding Unlocked.delete
  delete-remaining x u u₁ key w w₁ derives removable =
      let (removes, none_found, none_there, no_index) =
        remove_items-Removable u₁.keyring x.attributes key removable in
      rw (derives, removes)

  -- An item in the clear of an open collection is deleted: it leaves the list of the collection by its
  -- path, and alone if no other has that path; from the keyring go all items that match its
  -- attributes, those that have more attributes included. The items that match must be readable, and
  -- the keyring must be written and the signals sent without an error.
  pub delete_item-remaining :
      (c : Collection) (u u₁ : UnlockedKeyring) (i : Item) (x : UnlockedItem) (path : ObjectPath)
      (key : Option Key) (w w₁ : W)
      → AlwaysSends bus
      → c.keyring ≡ some (unlocked_keyring u)
      → item_from_path path c.items ≡ some i
      → i.inner ≡ some (unlocked_item x)
      → derive_key (u, w) ≡ (ok key, (u₁, w₁))
      → Removable u₁.keyring.items x.attributes key
      → (write (
        record u₁ {
          keyring = record u₁.keyring { items = remaining u₁.keyring.items x.attributes key };
        },
        w₁,
      )).0
        ≡ ok tt
      → (c' : Collection) × (u' : UnlockedKeyring) × (w' : W) × (delete_item path (c, w)
          ≡ (ok tt, (c', w')))
        × (c'.items ≡ without path c.items)
        × (c'.keyring ≡ some (unlocked_keyring u'))
        × (u'.keyring.items ≡ remaining u₁.keyring.items x.attributes key)
  unfolding delete_item on_unlocked update_modified clock
  delete_item-remaining c u u₁ i x path key w w₁ sends keyring found inner derives removable
        writes =
      let s : State W = (
        record u₁ {
          keyring = record u₁.keyring { items = remaining u₁.keyring.items x.attributes key };
        },
        w₁,
      ) in
      let deleted = delete-remaining x u u₁ key w w₁ derives removable in
      let w₂ = (write s).1.1 in
      let (w₃, first) = sends.0 (modified_changed c.path) (os.now w₂).1 in
      let (w₄, second) = sends.0 (items_changed c.path) w₃ in
      (
        record c {
          items = without path c.items;
          keyring = some (unlocked_keyring (write s).1.0);
          modified = (os.now w₂).0;
        },
        (write s).1.0,
        w₄,
        rw (found, inner, keyring, deleted, writes, first, second),
        refl,
        refl,
        (write-SameKeyring s).contents.items,
      )
