-- ===== src/Examples/Keyrings.antt =====
-- The theorems about the contents of keyrings, and about opening them, at concrete inputs.
use oo.Prelude.{
  ◌++◌, true, false, Option, none, some, List, [], ◌∷◌, ◌≡◌, ◌⊎◌, refl, arith, Bytes, codes, length,
  bytes_eq,
}
use oo.HashMap.{get, contains_key, insert}
use oo.Outcome.{ok, err, panic, collect, partially_corrupted_keyring}
use oo.Crypto.{Primitives, Key}
use oo.Crypto
use oo.Secret.{Secret, text, as_str, as_bytes}
use oo.Item.{Map, UnlockedItem, EncryptedItem, decrypt_item, is_valid, plain_attributes}
use oo.Item
use oo.Keyring.{
  Keyring, file_header, major_version, minor_version, as_bytes_of, try_from, lookup_item_index,
  lookup_item, search_items, remove_items, remaining, derive_key, key_strength, get_range,
}
use oo.Keyring.Format.{try_from-as_bytes_of, try_from-ok}
use oo.Keyring.Remove.{Removable, remove_items-Removable, remove_items_atomic}
use oo.Locked.{LockedKeyring, unlock_inner, unlock_unencrypted}
use oo.Locked.Unlock.{checks, unlock_inner-checks, unlock_inner_short, unlock_unencrypted-checks}
use oo.Examples.Toy
use oo.Examples.Toy.{
  toy_primitives, toy_items, toy_keyrings, toy_keyrings-RoundTrips, put_item, replicate,
  put_keyring, get_keyring,
}
use oo.Examples.Items.{mail, item, sealed}

abbrev pub keyring_of : List EncryptedItem → Keyring
keyring_of es = record {
  salt_size = 32;
  salt = replicate 32 1;
  iteration_count = 100000;
  modified_time = 6;
  usage_count = 2;
  items = es;
}

abbrev written : Bytes
unfolding put_keyring
written = file_header ++ 1 ∷ 0 ∷ 32 ∷ (replicate 32 1 ++ 32 ∷ 100000 ∷ 6 ∷ 2 ∷ [])

written-as_bytes_of : as_bytes_of (keyring_of []) ≡ ok written
unfolding as_bytes_of put_keyring Toy.put_if_empty Toy.put_numbers
written-as_bytes_of = refl

try_from-as_bytes_of_example : try_from written ≡ ok (keyring_of [])
try_from-as_bytes_of_example =
    try_from-as_bytes_of toy_keyrings-RoundTrips (keyring_of []) written refl written-as_bytes_of

written-try_from : try_from written ≡ ok (keyring_of [])
unfolding try_from get_keyring Toy.get_numbers get_range bytes_eq written
written-try_from = refl

try_from-ok_example :
    (rest : Bytes) × (written ≡ file_header ++ major_version ∷ minor_version ∷ rest)
    × (get_keyring rest ≡ some (keyring_of []))
    × (length (replicate 32 1) ≡ 32)
try_from-ok_example = try_from-ok written (keyring_of []) written-try_from

-- An item in the clear, and one that cannot be read.
abbrev pub plain : EncryptedItem
unfolding put_item
plain = record { hashed_attributes = plain_attributes mail; blob = put_item item }

abbrev pub torn : EncryptedItem
torn = record { hashed_attributes = plain_attributes mail; blob = 1 ∷ 2 ∷ [] }

abbrev pub ann : Map
ann = (codes "user", codes "ann") ∷ []

abbrev pub bob : Map
bob = (codes "user", codes "bob") ∷ []

abbrev pub two_items : Keyring
two_items = keyring_of (torn ∷ plain ∷ [])

pub plain-decrypt_item : decrypt_item plain none ≡ ok item
unfolding decrypt_item Item.try_from Item.with_default_type contains_key get bytes_eq insert as_str
    plain_attributes Toy.put_item Toy.put_entries Toy.put_bytes Toy.get_item Toy.get_times
    Toy.get_entries Toy.get_bytes
plain-decrypt_item = refl

pub plain-is_valid : is_valid plain none ≡ ok true
unfolding is_valid
plain-is_valid = rw (plain-decrypt_item, is_valid)

abbrev pub locked : List EncryptedItem → LockedKeyring
locked es = record { keyring = keyring_of es; path = none; mtime = none }

both_checked : checks (plain ∷ plain ∷ []) none ≡ ok (true ∷ true ∷ [])
unfolding collect
both_checked = rw plain-is_valid refl

unlock_unencrypted-checks_example :
    unlock_unencrypted (locked (plain ∷ plain ∷ []))
    ≡ ok (record {
      keyring = keyring_of (plain ∷ plain ∷ []);
      path = none;
      mtime = none;
      key = none;
      secret = none;
    })
unlock_unencrypted-checks_example =
    unlock_unencrypted-checks (locked (plain ∷ plain ∷ [])) (true ∷ true ∷ []) both_checked

remove_items-Removable_example :
    (remove_items ann none (keyring_of (plain ∷ []))
      ≡ (ok tt, keyring_of (remaining (plain ∷ []) ann none)))
    × (search_items (keyring_of (remaining (plain ∷ []) ann none)) ann none ≡ ok [])
    × (lookup_item (keyring_of (remaining (plain ∷ []) ann none)) ann none ≡ ok none)
    × (lookup_item_index (keyring_of (remaining (plain ∷ []) ann none)) ann none ≡ none)
remove_items-Removable_example =
    remove_items-Removable (keyring_of (plain ∷ [])) ann none ((λ m. plain-is_valid), tt)

-- `torn` matches and cannot be read.
remove_items_atomic_example :
    (Removable (torn ∷ plain ∷ []) ann none × ((remove_items ann none two_items).0 ≡ ok tt))
    ⊎ (((remove_items ann none two_items).1 ≡ two_items)
        × (¬ ((remove_items ann none two_items).0 ≡ ok tt))
        × (¬ Removable (torn ∷ plain ∷ []) ann none))
remove_items_atomic_example = remove_items_atomic two_items ann none

abbrev pub secret : Secret
secret = text (codes "pass")

-- The key that the secret gives.
abbrev pub derived : Key
derived = record { key = 36 ∷ 36 ∷ []; strength = none }

pub secret-derive_key : (es : List EncryptedItem) → derive_key (keyring_of es) secret ≡ ok derived
unfolding derive_key key_strength Crypto.derive_key as_bytes
secret-derive_key es = refl

sealed-decrypt_item : decrypt_item (sealed derived) (some derived) ≡ ok item
unfolding decrypt_item Item.try_decrypt_encrypted Item.checked_sub Item.split_at Crypto.verify_mac
    Crypto.decrypt Crypto.new_from_slices Item.try_from Item.with_default_type contains_key get
    bytes_eq Item.validate Item.hash_attributes Crypto.compute_mac insert as_str Toy.put_item
    Toy.put_entries Toy.put_bytes Toy.get_item Toy.get_times Toy.get_entries Toy.get_bytes
sealed-decrypt_item = refl

pub sealed-is_valid : is_valid (sealed derived) (some derived) ≡ ok true
unfolding is_valid
sealed-is_valid = rw (sealed-decrypt_item, is_valid)

pub torn-is_valid : (key : Option Key) → key ≡ some derived → is_valid torn key ≡ ok false
unfolding is_valid decrypt_item Item.try_decrypt_encrypted Item.checked_sub Item.split_at
    Crypto.verify_mac bytes_eq
torn-is_valid key h = rw h

checked : checks (sealed derived ∷ torn ∷ torn ∷ []) (some derived) ≡ ok (true ∷ false ∷ false ∷ [])
unfolding collect
checked = rw (sealed-is_valid, torn-is_valid (some derived) refl)

-- One item is valid and two are not.
unlock_inner-checks_example :
    unlock_inner (locked (sealed derived ∷ torn ∷ torn ∷ [])) secret true
    ≡ err (partially_corrupted_keyring 1 2)
unlock_inner-checks_example =
    unlock_inner-checks (locked (sealed derived ∷ torn ∷ torn ∷ [])) secret derived
      (true ∷ false ∷ false ∷ []) (secret-derive_key (sealed derived ∷ torn ∷ torn ∷ [])) checked

unlock_inner_short_example :
    unlock_inner
      (locked (sealed derived ∷ record { hashed_attributes = []; blob = [] } ∷ []))
      secret
      true
    ≡ panic
unlock_inner_short_example =
    unlock_inner_short (locked (sealed derived ∷ record { hashed_attributes = []; blob = [] } ∷ []))
      secret (sealed derived ∷ []) [] (record { hashed_attributes = []; blob = [] }) refl
      (omega arith)

plain-checks : checks (plain ∷ []) none ≡ ok (true ∷ [])
unfolding collect
plain-checks = rw plain-is_valid
