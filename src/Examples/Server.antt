-- ===== src/Examples/Server.antt =====
-- The theorems about the collections and items of the service at concrete inputs.
use oo.Keyring.{remaining}
use oo.Unlocked.{write, write_to}
use oo.Prelude.{find, ℕ, true, false, none, some, List, [], ◌∷◌, ◌≡◌, refl, codes, bytes_eq}
use oo.HashMap.{get, insert}
use oo.Outcome.{ok, err, collect, incorrect_secret, mac_error}
use oo.Crypto.{Primitives, Key}
use oo.Crypto
use oo.Secret.{as_bytes, content_type}
use oo.Item.{UnlockedItem, EncryptedItem, decrypt_item, is_valid, secret_of}
use oo.Item
use oo.Unlocked.{UnlockedKeyring, unlock_item, derive_key}
use oo.Locked.{lock, unlock_inner, open_with, count_items}
use oo.Locked.Unlock.{unlock_inner-checks}
use oo.File.{FileItem, FileKeyring, locked_item, unlocked_item, locked_keyring, unlocked_keyring}
use oo.Server.{ObjectPath, Session, unmark_stale, DbusSecret, zbus}
use oo.Server.Item.{Item, received, get_secret}
use oo.Server.Item.Transport.{CanSend, get_secret-received}
use oo.Server.Collection.{Collection, set_locked, item_from_path, without}
use oo.Server.Collection.Methods.{delete_item}
use oo.Server.Collection.Deletion.{delete_item-remaining}
use oo.Server.Collection.Locking.{keyed, set_locked-set_locked}
use oo.Server.Collection.Faults.{set_locked_broken}
use oo.Examples.Toy.{
  toy_primitives, toy_primitives-IsLawful, toy_items, toy_items-RoundTrips, toy_keyrings, toy_os,
  toy_os-IsLawfulOs, toy_os-AlwaysRandom, toy_bus, toy_bus-AlwaysSends, put_item,
}
use oo.Examples.Items.{item, item-IsItem, sealed}
use oo.Examples.Keyrings.{
  plain, plain-is_valid, torn, secret, derived, locked, sealed-is_valid, torn-is_valid,
  secret-derive_key,
}
use oo.Examples.Sessions.{open_keyring, clear-derive_key}

abbrev path : ObjectPath
path = codes "/c"

abbrev server_item : FileItem → Item
server_item i = record { inner = some i; collection_path = path; path = codes "/c/1" }

abbrev collection : List Item → FileKeyring → Collection
collection items keyring = record {
  items = items;
  label = codes "login";
  created = 1;
  modified = 2;
  name = codes "login";
  alias = [];
  keyring = some keyring;
  item_index = 2;
  path = path;
}

abbrev clear_collection : Collection
clear_collection =
    collection (server_item (unlocked_item item) ∷ [])
      (unlocked_keyring (keyed (open_keyring [] none none) derived secret))

empty_opens :
    unlock_inner (locked []) secret true ≡ ok (keyed (open_keyring [] none none) derived secret)
unfolding unlock_inner count_items
empty_opens = rw (secret-derive_key [])

set_locked-set_locked_example :
    (c' : Collection) × (w' : ℕ) × (set_locked true none (clear_collection, 7) ≡ (ok tt, (c', w')))
    × (c'.keyring ≡ some (locked_keyring (lock (open_keyring [] none none))))
    × ((w₁ : ℕ)
        → (w₂ : ℕ) × (set_locked false (some secret) (c', w₁) ≡ (ok tt, (clear_collection, w₂))))
unfolding lock
set_locked-set_locked_example =
    set_locked-set_locked toy_bus-AlwaysSends toy_os-IsLawfulOs toy_primitives-IsLawful
      toy_items-RoundTrips toy_os-AlwaysRandom clear_collection (open_keyring [] none none) derived
      secret 7 refl empty_opens (refl, refl) ((item, refl, item-IsItem, (put_item item, refl)), tt)

abbrev pub locked_collection : List EncryptedItem → Collection
locked_collection es = collection (server_item (locked_item torn) ∷ []) (locked_keyring (locked es))

wrong_secret : open_with (locked (torn ∷ [])) (some secret) true ≡ err incorrect_secret
unfolding open_with collect
wrong_secret =
    unlock_inner-checks (locked (torn ∷ [])) secret derived (false ∷ [])
      (secret-derive_key (torn ∷ [])) (rw (torn-is_valid (some derived) refl))

abbrev half : UnlockedKeyring
half = open_keyring (torn ∷ sealed derived ∷ []) (some derived) (some secret)

half_opens : open_with (locked (torn ∷ sealed derived ∷ [])) (some secret) true ≡ ok half
unfolding open_with collect
half_opens =
    unlock_inner-checks (locked (torn ∷ sealed derived ∷ [])) secret derived (false ∷ true ∷ [])
      (secret-derive_key (torn ∷ sealed derived ∷ []))
      (rw (torn-is_valid (some derived) refl, sealed-is_valid))

torn-unlock_item : (unlock_item {W = ℕ} torn (half, 7)).0 ≡ err mac_error
unfolding unlock_item derive_key decrypt_item Item.try_decrypt_encrypted Item.checked_sub
    Item.split_at Crypto.verify_mac bytes_eq
torn-unlock_item = refl

-- Of two items one is torn: the keyring opens, and the collection loses it.
set_locked_broken_example :
    set_locked {W = ℕ} false (some secret) (locked_collection (torn ∷ sealed derived ∷ []), 7) ≡ (
      err zbus,
      (
        record (locked_collection (torn ∷ sealed derived ∷ [])) {
          items = record (server_item (locked_item torn)) { inner = none } ∷ [];
          keyring = none;
        },
        (unlock_item {W = ℕ} torn (half, 7)).1.1,
      ),
    )
set_locked_broken_example =
    set_locked_broken (locked_collection (torn ∷ sealed derived ∷ []))
      (locked (torn ∷ sealed derived ∷ [])) half (some secret) (server_item (locked_item torn)) []
      torn mac_error 7 refl half_opens refl refl torn-unlock_item

abbrev pub open_collection : Collection
open_collection =
    collection (server_item (unlocked_item item) ∷ [])
      (unlocked_keyring (open_keyring (plain ∷ []) none none))

delete_item-remaining_example :
    (c' : Collection) × (u' : UnlockedKeyring) × (w' : ℕ) × (delete_item
        (codes "/c/1")
        (open_collection, 9)
      ≡ (ok tt, (c', w')))
    × (c'.items ≡ without (codes "/c/1") (server_item (unlocked_item item) ∷ []))
    × (c'.keyring ≡ some (unlocked_keyring u'))
    × (u'.keyring.items ≡ remaining (plain ∷ []) item.attributes none)
unfolding item_from_path find bytes_eq write write_to
delete_item-remaining_example =
    delete_item-remaining open_collection (open_keyring (plain ∷ []) none none)
      (open_keyring (plain ∷ []) none none) (server_item (unlocked_item item)) item (codes "/c/1")
      none 9 9 toy_bus-AlwaysSends refl refl refl (clear-derive_key (plain ∷ []))
      ((λ m. plain-is_valid), tt) refl

abbrev session : Session
session = record {
  path = codes "/s";
  aes_key = some derived;
  sender = codes ":1.7";
  peer_name = none;
  disconnected_at = none;
}

known : get (codes "/s") ((codes "/s", session) ∷ []) ≡ some session
unfolding get bytes_eq
known = refl

get_secret-received_example :
    (d : DbusSecret) × (w' : ℕ) × (get_secret
        (codes "/s")
        ((codes "/s", session) ∷ [], (server_item (unlocked_item item), 7))
      ≡ (
        ok d,
        (
          insert (codes "/s") (unmark_stale session) ((codes "/s", session) ∷ []),
          (server_item (unlocked_item item), w'),
        ),
      ))
    × ((received session d.value d.iv ≡ ok (as_bytes (secret_of item)))
        × ((d.session ≡ codes "/s") × (d.content_type ≡ content_type (secret_of item))))
unfolding CanSend
get_secret-received_example =
    get_secret-received toy_os-IsLawfulOs toy_primitives-IsLawful toy_os-AlwaysRandom
      ((codes "/s", session) ∷ []) (codes "/s") session (server_item (unlocked_item item)) item 7
      known refl refl
