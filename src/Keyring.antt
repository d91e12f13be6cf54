-- ===== src/Keyring.antt =====
-- client/src/file/api/mod.rs: the contents of a keyring file.
pub mod Search
pub mod Remove
pub mod Format
pub mod Disk
use oo.Prelude.{
  ℕ, zero, suc, ◌+◌, ◌-◌, ◌/◌, ◌%◌, ◌^◌, Bool, true, false, not, ◌&&◌, Option, none, some, List, [],
  ◌∷◌, ◌++◌, ◌≡◌, length, take, drop, filter, find, leb, ltb, ◌==◌, if◌then◌else◌, Bytes, Text,
  codes, bytes_eq,
}
use oo.Outcome.{
  Outcome, ok, err, panic, or_err, guard, collect, WeakKeyError, iteration_count_too_low,
  salt_too_short, password_too_short, mac_error, file_header_mismatch, version_mismatch, no_data,
  salt_size_mismatch, gvariant_deserialization, no_parent_dir, target_file_changed, io, not_found,
  crypto, getrandom,
}
use oo.Exec.{Exec}
use oo.Os.{Os, FilePath}
use oo.Secret.{Secret, as_bytes}
use oo.Crypto.{Primitives, Key}
use oo.Crypto
use oo.Item.{Map, UnlockedItem, EncryptedItem, Codec, matches, decrypt_item, is_valid}

abbrev pub default_iteration_count : ℕ
default_iteration_count = 100000

abbrev pub default_salt_size : ℕ
default_salt_size = 32

abbrev pub min_iteration_count : ℕ
min_iteration_count = 100000

abbrev pub min_salt_size : ℕ
min_salt_size = 32

abbrev pub min_password_length : ℕ
min_password_length = 4

abbrev pub file_header : Bytes
file_header =
    b'G' ∷ b'n' ∷ b'o' ∷ b'm' ∷ b'e' ∷ b'K' ∷ b'e' ∷ b'y' ∷ b'r' ∷ b'i' ∷ b'n' ∷ b'g' ∷ 10 ∷ 13 ∷ 0
    ∷ 10 ∷ []

abbrev pub file_header_len : ℕ
file_header_len = 16

abbrev pub major_version : ℕ
major_version = 1

abbrev pub minor_version : ℕ
minor_version = 0

pub record Keyring : Type 0 where
  pub salt_size : ℕ
  pub salt : Bytes
  pub iteration_count : ℕ
  pub modified_time : ℕ
  pub usage_count : ℕ
  pub items : List EncryptedItem

-- `none` is `Ok(())`.
unfoldable pub key_strength : Keyring → Bytes → Option WeakKeyError
key_strength k secret =
    if ltb k.iteration_count min_iteration_count
    then some (iteration_count_too_low k.iteration_count)
    else if ltb (length k.salt) min_salt_size
    then some (salt_too_short (length k.salt))
    else if ltb (length secret) min_password_length
    then some (password_too_short (length secret))
    else none

-- `value.get(a..b)`
unfoldable pub get_range : Bytes → ℕ → ℕ → Option Bytes
get_range s a b = if leb b (length s) then some (take (b - a) (drop a s)) else none

abbrev pub same_bytes : Option Bytes → Bytes → Bool
same_bytes none t = false
same_bytes (some s) t = bytes_eq s t

module _ ⦃p : Primitives⦄ where
  unfoldable pub derive_key : Keyring → Secret → Outcome Key
  unfolding as_bytes
  derive_key k s =
      Crypto.derive_key (as_bytes s) (key_strength k (as_bytes s)) k.salt k.iteration_count

  -- The key counts as strong, whatever the secret.
  unfoldable pub derive_key_unchecked : Keyring → Secret → Outcome Key
  unfolding as_bytes
  derive_key_unchecked k s = Crypto.derive_key (as_bytes s) none k.salt k.iteration_count

  unfoldable pub position : List EncryptedItem → Map → Option Key → Option ℕ
  position [] attributes key = none
  position (e ∷ es) attributes key =
      let rest = position es attributes key in
      if matches e attributes key then some 0 else elim rest [ none ↦ none | some i ↦ some (suc i) ]

  unfoldable pub lookup_item_index : Keyring → Map → Option Key → Option ℕ
  lookup_item_index k attributes key = position k.items attributes key

  unfoldable pub remaining : List EncryptedItem → Map → Option Key → List EncryptedItem
  remaining es attributes key = filter (λ e. not (matches e attributes key)) es

module _ ⦃p : Primitives⦄ ⦃codec : Codec UnlockedItem⦄ where
  unfoldable pub search_items : Keyring → Map → Option Key → Outcome (List UnlockedItem)
  search_items k attributes key =
      collect (λ e. decrypt_item e key) (filter (λ e. matches e attributes key) k.items)

  unfoldable pub lookup_item : Keyring → Map → Option Key → Outcome (Option UnlockedItem)
  lookup_item k attributes key = elim (find (λ e. matches e attributes key) k.items) [
    | none ↦ ok none
    | some e ↦ elim (decrypt_item e key) [
      | ok item ↦ ok (some item)
      | err x ↦ err x
      | panic ↦ panic
    ]
  ]

  -- The loop of `remove_items` that looks for an item that matches and is not valid.
  unfoldable pub check_removable : List EncryptedItem → Map → Option Key → Outcome (Unit {0})
  check_removable [] attributes key = ok tt
  check_removable (e ∷ es) attributes key =
      let rest = check_removable es attributes key in
      if matches e attributes key
      then elim (is_valid e key) [
        | ok valid ↦ if valid then rest else err mac_error
        | err x ↦ err x
        | panic ↦ panic
      ]
      else rest

  unfoldable pub remove_items : Map → Option Key → Exec Keyring (Unit {0})
  remove_items attributes key k = elim (check_removable k.items attributes key) [
    | ok _ ↦ (ok tt, record k { items = remaining k.items attributes key })
    | err x ↦ (err x, k)
    | panic ↦ (panic, k)
  ]

  -- `items.iter().any(|item| item.is_valid(key))`
  unfoldable pub any_valid : List EncryptedItem → Option Key → Outcome Bool
  any_valid [] key = ok false
  any_valid (e ∷ es) key =
      let rest = any_valid es key in
      elim (is_valid e key) [
        | ok valid ↦ if valid then ok true else rest
        | err x ↦ err x
        | panic ↦ panic
      ]

  unfoldable pub all_valid : List EncryptedItem → Option Key → Outcome Bool
  all_valid [] key = ok true
  all_valid (e ∷ es) key =
      let rest = all_valid es key in
      elim (is_valid e key) [
        | ok valid ↦ if valid then rest else ok false
        | err x ↦ err x
        | panic ↦ panic
      ]

  unfoldable pub validate_secret : Keyring → Secret → Outcome Bool
  validate_secret k s = elim (derive_key k s) [
    | ok key ↦ elim k.items [ [] ↦ ok true | e ∷ es ↦ any_valid (e ∷ es) (some key) ]
    | err x ↦ err x
    | panic ↦ panic
  ]

  unfoldable pub validate_unencrypted : Keyring → Outcome Bool
  validate_unencrypted k = all_valid k.items none

module _ ⦃codec : Codec Keyring⦄ where
  unfoldable pub as_bytes_of : Keyring → Outcome Bytes
  as_bytes_of k = elim (codec.to_bytes k) [
    | none ↦ err gvariant_deserialization
    | some b ↦ ok (file_header ++ major_version ∷ minor_version ∷ b)
  ]

  -- `Keyring::try_from(&[u8])`
  unfoldable pub try_from : Bytes → Outcome Keyring
  unfolding get_range bytes_eq
  try_from value =
      let header = get_range value 0 file_header_len in
      let version = get_range value file_header_len (file_header_len + 2) in
      if not (same_bytes header file_header)
      then err (file_header_mismatch header)
      else if not (same_bytes version (major_version ∷ minor_version ∷ []))
      then err (version_mismatch version)
      else if ltb (length value) (file_header_len + 2)
      then err no_data
      else elim (codec.from_bytes (drop (file_header_len + 2) value)) [
        | none ↦ err gvariant_deserialization
        | some k ↦
            if not (length k.salt == k.salt_size)
            then err (salt_size_mismatch (length k.salt) k.salt_size)
            else ok k
      ]
