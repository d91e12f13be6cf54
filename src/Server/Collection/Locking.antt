-- ===== src/Server/Collection/Locking.antt =====
-- server/src/collection/mod.rs, `set_locked`: a collection that is locked and unlocked again.
use oo.Prelude.{Bool, true, false, Option, none, some, List, [], ◌∷◌, ◌≡◌, refl, sym, ap, Bytes}
use oo.Outcome.{ok}
use oo.Os.{Os, IsLawfulOs}
use oo.Secret.{Secret}
use oo.Crypto.{Primitives, IsLawful, Key}
use oo.Item.{UnlockedItem, EncryptedItem, Codec, RoundTrips, encrypt_item, decrypt_item}
use oo.Item.RoundTrip.{IsItem, CanWrite, decrypt_item-encrypt_item}
use oo.Keyring.{Keyring}
use oo.Unlocked.{UnlockedKeyring, State, derive_key, lock_item, unlock_item}
use oo.Unlocked.Rekey.{AlwaysRandom}
use oo.Locked.{lock, unlock_inner, open_with}
use oo.File.{FileItem, FileKeyring, locked_item, unlocked_item, locked_keyring, unlocked_keyring}
use oo.Server.{Bus, AlwaysSends, locked_changed, item_changed, collection_changed}
use oo.Server.Item.{Item, turn}
use oo.Server.Item
use oo.Server.Collection.{Collection, turn_items, turn_all, turn_keyring, unlock_with, set_locked}

-- An item in the clear that can be written.
abbrev pub IsOpen : ⦃codec : Codec UnlockedItem⦄ → Item → Type 0
IsOpen ⦃codec⦄ i =
    (x : UnlockedItem) × (i.inner ≡ some (unlocked_item x))
    × IsItem x
    × ((b : Bytes) × (codec.to_bytes x ≡ some b))

abbrev pub AreOpen : ⦃codec : Codec UnlockedItem⦄ → List Item → Type 0
AreOpen [] = Unit
AreOpen (i ∷ is) = IsOpen i × AreOpen is

-- An open keyring with a secret and its key at hand.
abbrev pub keyed : UnlockedKeyring → Key → Secret → UnlockedKeyring
keyed u key secret = record u { key = some key; secret = some secret }

module _ {W : Type 0} ⦃os : Os W⦄ ⦃p : Primitives⦄ ⦃codec : Codec UnlockedItem⦄ ⦃bus : Bus W⦄ where
  -- The item with a new content, after the two signals.
  set_locked-turn :
      (locked : Bool) (i : Item) (old new : FileItem) (u : UnlockedKeyring) (w w₁ : W)
      → AlwaysSends bus
      → i.inner ≡ some old
      → turn locked old (u, w) ≡ (ok new, (u, w₁))
      → (w' : W) × (Item.set_locked locked (i, (u, w))
          ≡ (ok tt, (record i { inner = some new }, (u, w'))))
  unfolding Item.set_locked Item.turn_inner Item.on_keyring Item.send
  set_locked-turn locked i old new u w w₁ sends inner turned =
      let (w₂, first) = sends.0 (locked_changed i.path) w₁ in
      let (w₃, second) = sends.0 (item_changed i.collection_path i.path) w₂ in
      (w₃, rw (inner, turned, first, second))

  turn-encrypt_item :
      (u : UnlockedKeyring) (key : Key) (secret : Secret) (x : UnlockedItem) (e : EncryptedItem)
      (w : W)
      → (encrypt_item x (some key) w).0 ≡ ok e
      → turn true (unlocked_item x) (keyed u key secret, w)
        ≡ (ok (locked_item e), (keyed u key secret, (encrypt_item x (some key) w).1))
  unfolding turn lock_item derive_key
  turn-encrypt_item u key secret x e w written = rw written

  turn-decrypt_item :
      (u : UnlockedKeyring) (key : Key) (secret : Secret) (x : UnlockedItem) (e : EncryptedItem)
      (w : W)
      → decrypt_item e (some key) ≡ ok x
      → turn false (locked_item e) (keyed u key secret, w)
        ≡ (ok (unlocked_item x), (keyed u key secret, w))
  unfolding turn unlock_item derive_key
  turn-decrypt_item u key secret x e w read = rw read

  -- Items that, whatever the world is by then, become the given ones when they are unlocked.
  UnlockTo : State W → List Item → List Item → Type 0
  UnlockTo s items old =
      (w : W) → (w' : W) × (turn_items false items (s.0, w) ≡ (ok tt, (old, (s.0, w'))))

  module _ (sends : AlwaysSends bus) (lawful_os : IsLawfulOs os) (lawful : IsLawful p)
      (trips : RoundTrips codec) (random : AlwaysRandom os) where
    turn_items_back :
        (u : UnlockedKeyring) (key : Key) (secret : Secret) (items : List Item) (w : W)
        → CanWrite p (some key)
        → AreOpen items
        → (items' : List Item) × (w' : W) × (turn_items true items (keyed u key secret, w)
            ≡ (ok tt, (items', (keyed u key secret, w'))))
          × UnlockTo (keyed u key secret, w) items' items
    unfolding turn_items UnlockTo
    turn_items_back u key secret [] w can h = ([], w, refl, λ w₁. (w₁, refl))
    turn_items_back u key secret (i ∷ is) w can ((x, clear, good, (b, taken)), hs) =
        let (iv, filled) = random p.iv_size w in
        let (e, written, read) =
          decrypt_item-encrypt_item lawful_os lawful trips x (some key) w iv b good can filled
            taken in
        let (w₁, locked) =
          set_locked-turn true i (unlocked_item x) (locked_item e) (keyed u key secret) w _ sends
            clear (turn-encrypt_item u key secret x e w written) in
        let (items', w₂, rest, back) = turn_items_back u key secret is w₁ can hs in
        (
          record i { inner = some (locked_item e) } ∷ items',
          w₂,
          rw (turn_items, locked, locked, rest),
          λ w₃.
              let (w₄, unlocked) =
                set_locked-turn false (record i { inner = some (locked_item e) }) (locked_item e)
                  (unlocked_item x) (keyed u key secret) w₃ w₃ sends refl
                  (turn-decrypt_item u key secret x e w₃ read) in
              let (w₅, rest₁) = back w₄ in
              (
                w₅,
                rw (turn_items, unlocked, unlocked, rest₁)
                    (ap
                      (λ (o : Option FileItem).
                        (ok tt, (record i { inner = o } ∷ is, (keyed u key secret, w₅))))
                      (sym clear)),
              ),
        )

    -- A collection whose items are in the clear and well formed, with an open keyring, a strong key at
    -- hand and the secret that gives it, is the same after it was locked and unlocked with that
    -- secret, if the keyring can be opened with it: both succeed, and the items, the keyring with its
    -- key, and all else are as before. The serialiser, the random numbers and the bus must not fail.
    pub set_locked-set_locked :
        ⦃kc : Codec Keyring⦄ (c : Collection) (u : UnlockedKeyring) (key : Key) (secret : Secret)
        (w : W)
        → c.keyring ≡ some (unlocked_keyring (keyed u key secret))
        → unlock_inner (lock u) secret true ≡ ok (keyed u key secret)
        → CanWrite p (some key)
        → AreOpen c.items
        → (c' : Collection) × (w' : W) × (set_locked true none (c, w) ≡ (ok tt, (c', w')))
          × (c'.keyring ≡ some (locked_keyring (lock u)))
          × ((w₁ : W) → (w₂ : W) × (set_locked false (some secret) (c', w₁) ≡ (ok tt, (c, w₂))))
    unfolding set_locked turn_keyring turn_all unlock_with open_with UnlockTo lock
    set_locked-set_locked c u key secret w with_keyring opens can clear =
        let (items', w₁, locked, back) = turn_items_back u key secret c.items w can clear in
        let (w₂, first) = sends.0 (locked_changed c.path) w₁ in
        let (w₃, second) = sends.0 (collection_changed c.path) w₂ in
        (
          record c { items = items'; keyring = some (locked_keyring (lock u)) },
          w₃,
          rw (turn_keyring, with_keyring, turn_all, locked, locked, first, second),
          refl,
          λ w₄.
              let (w₅, unlocked) = back w₄ in
              let (w₆, third) = sends.0 (locked_changed c.path) w₅ in
              let (w₇, fourth) = sends.0 (collection_changed c.path) w₆ in
              (
                w₇,
                rw (turn_keyring, unlock_with, opens, turn_all, unlocked, unlocked, third, fourth)
                    (ap (λ (o : Option FileKeyring). (ok tt, (record c { keyring = o }, w₇)))
                      (sym with_keyring)),
              ),
        )
