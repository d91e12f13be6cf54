-- ===== src/Unlocked/Create.antt =====
-- A new item (client/src/file/unlocked_keyring.rs, `create_item`): what it replaces, and that it is
-- found.
use oo.Prelude.{
  Bool, true, not, Option, some, List, [], ◌∷◌, ◌++◌, ◌≡◌, ◌∙◌, refl, ap, filter, filter-append,
  filter-not-filter, Bytes, Text,
}
use oo.HashMap.{IsMap}
use oo.Outcome.{Outcome, ok, collect}
use oo.Exec.{continue, pure, continue-pure_state}
use oo.Os.{Os, IsLawfulOs}
use oo.Secret.{Secret}
use oo.Crypto.{Primitives, IsLawful, Key}
use oo.Item.{
  Map, UnlockedItem, EncryptedItem, Codec, RoundTrips, matches, encrypt_item, decrypt_item,
}
use oo.Item
use oo.Item.RoundTrip.{CanWrite, decrypt_item-encrypt_item}
use oo.Item.Attributes.{new-IsItem, new-Finds}
use oo.Item.Matching.{matches-Finds, encrypt_item-stored_attributes}
use oo.Keyring.{Keyring, remaining}
use oo.Keyring
use oo.Keyring.Remove.{Removable, remove_items-Removable}
use oo.Keyring.Disk.{clock}
use oo.Unlocked.{UnlockedKeyring, State, derive_key, insert_item, create_item, write}
use oo.Unlocked.Rekey.{AlwaysRandom}
use oo.Unlocked.Writes.{write-SameKeyring}

abbrev with_items : UnlockedKeyring → List EncryptedItem → UnlockedKeyring
with_items u es = record u { keyring = record u.keyring { items = es } }

module _ {W : Type 0} ⦃os : Os W⦄ ⦃p : Primitives⦄ ⦃codec : Codec UnlockedItem⦄ where
  -- The item that a call makes at the time that the clock shows.
  abbrev pub made : Text → Map → Secret → W → UnlockedItem
  made label attributes secret w = Item.new label attributes secret (os.now w).0

  module _ (lawful_os : IsLawfulOs os) (lawful : IsLawful p) (trips : RoundTrips codec)
      (random : AlwaysRandom os) where
    insert_item-replace :
        (key : Option Key) (label : Text) (attributes : Map) (secret : Secret) (u : UnlockedKeyring)
        (w : W) (b : Bytes)
        → Removable u.keyring.items attributes key
        → CanWrite p key
        → IsMap attributes
        → codec.to_bytes (made label attributes secret w) ≡ some b
        → (e : EncryptedItem) × (w' : W) × (insert_item key label attributes secret true (u, w) ≡ (
          ok (made label attributes secret w),
          (with_items u (remaining u.keyring.items attributes key ++ e ∷ []), w'),
        ))
          × (decrypt_item e key ≡ ok (made label attributes secret w))
          × (matches e attributes key ≡ true)
    unfolding insert_item clock
    insert_item-replace key label attributes secret u w b removable can is_map taken =
        let item : UnlockedItem = made label attributes secret w in
        let w₁ : W = (os.now w).1 in
        let (iv, filled) = random p.iv_size w₁ in
        let (e, written, read) =
          decrypt_item-encrypt_item lawful_os lawful trips item key w₁ iv b
            (new-IsItem label attributes secret (os.now w).0 item is_map).0 can filled taken in
        let removed = (remove_items-Removable u.keyring attributes key removable).0 in
        (
          e,
          (encrypt_item item key w₁).1,
          rw (removed, written),
          read,
          matches-Finds item e key attributes (encrypt_item-stored_attributes item key w₁ e written)
              (new-Finds label attributes secret (os.now w).0 is_map),
        )

module _ ⦃p : Primitives⦄ ⦃codec : Codec UnlockedItem⦄ where
  -- The one item that matches is the one that was added.
  search-added :
      (k : Keyring) (es : List EncryptedItem) (e : EncryptedItem) (attributes : Map)
      (key : Option Key) (item : UnlockedItem)
      → k.items ≡ remaining es attributes key ++ e ∷ []
      → matches e attributes key ≡ true
      → decrypt_item e key ≡ ok item
      → Keyring.search_items k attributes key ≡ ok (item ∷ [])
  unfolding Keyring.search_items remaining filter collect
  search-added k es e attributes key item items found read =
      let p₁ : EncryptedItem → Bool = λ x. matches x attributes key in
      let only : filter p₁ k.items ≡ e ∷ [] =
        rw
          (
            items,
            filter-append p₁ (filter (λ x. not (p₁ x)) es) (e ∷ []),
            filter-not-filter p₁ es,
            found,
          )
          refl in
      rw (only, read)

module _ {W : Type 0} ⦃os : Os W⦄ ⦃p : Primitives⦄ ⦃codec : Codec UnlockedItem⦄
    ⦃kc : Codec Keyring⦄ where
  create_item-write :
      (label : Text) (attributes : Map) (secret : Secret) (replace : Bool) (s s₁ s₂ : State W)
      (key : Option Key) (item : UnlockedItem)
      → derive_key s ≡ (ok key, s₁)
      → insert_item key label attributes secret replace s₁ ≡ (ok item, s₂)
      → create_item label attributes secret replace s
        ≡ continue (write s₂).0 (λ _. pure item) (write s₂).1
  unfolding create_item
  create_item-write label attributes secret replace s s₁ s₂ key item derived inserted =
      rw (derived, create_item, inserted)

  -- A new item that replaces others, where those others can be decrypted: afterwards, whether the
  -- write to the file succeeds or fails, the keyring holds the items that do not match, in their
  -- order, and behind them the new one, which is decrypted to the item made of the arguments at the
  -- time of the call; and a search by the attributes gives exactly that item. The random numbers and
  -- the serialiser must not fail, and the key must be strong.
  pub create_item-search_items :
      (label : Text) (attributes : Map) (secret : Secret) (s s₁ : State W) (key : Option Key)
      (b : Bytes)
      → IsLawfulOs os
      → IsLawful p
      → RoundTrips codec
      → AlwaysRandom os
      → derive_key s ≡ (ok key, s₁)
      → Removable s₁.0.keyring.items attributes key
      → CanWrite p key
      → IsMap attributes
      → codec.to_bytes (made label attributes secret s₁.1) ≡ some b
      → (e : EncryptedItem) × ((create_item label attributes secret true s).1.0.keyring.items
          ≡ remaining s₁.0.keyring.items attributes key ++ e ∷ [])
        × (decrypt_item e key ≡ ok (made label attributes secret s₁.1))
        × (Keyring.search_items
              (create_item label attributes secret true s).1.0.keyring
              attributes
              key
            ≡ ok (made label attributes secret s₁.1 ∷ []))
  create_item-search_items label attributes secret s s₁ key b lawful_os lawful trips random derived
        removable can is_map taken =
      let item = made label attributes secret s₁.1 in
      let (e, w', inserted, read, found) =
        insert_item-replace lawful_os lawful trips random key label attributes secret s₁.0 s₁.1 b
          removable can is_map taken in
      let s₂ : State W =
        (with_items s₁.0 (remaining s₁.0.keyring.items attributes key ++ e ∷ []), w') in
      let state : (create_item label attributes secret true s).1 ≡ (write s₂).1 =
        ap (λ (t : Outcome UnlockedItem × State W). t.1)
          (create_item-write label attributes secret true s s₁ s₂ key item derived inserted)
        ∙ continue-pure_state (write s₂).0 item (write s₂).1 in
      let items : (create_item label attributes secret true s).1.0.keyring.items
          ≡ remaining s₁.0.keyring.items attributes key ++ e ∷ [] =
        ap (λ (t : State W). t.0.keyring.items) state ∙ (write-SameKeyring s₂).contents.items in
      (e, items, read, search-added _ s₁.0.keyring.items e attributes key item items found read)
