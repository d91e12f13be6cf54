-- ===== src/Examples/Legacy.antt =====
-- The theorems about legacy files at concrete inputs.
use oo.Prelude.{ℕ, ◌++◌, Option, some, [], ◌∷◌, ◌≡◌, refl, Bytes, codes, bytes_eq}
use oo.HashMap.{get, contains_key, insert}
use oo.Outcome.{ok, collect}
use oo.Crypto.{Primitives, Key, legacy_derive_key_and_iv, decrypt_no_padding}
use oo.Crypto
use oo.Secret.{Secret, text, as_bytes, as_str}
use oo.Secret
use oo.Secret.Utf8
use oo.Item.{Map, UnlockedItem, decrypt_item}
use oo.Item
use oo.Item.RoundTrip
use oo.Keyring.{file_header, get_range}
use oo.Keyring.Disk
use oo.Legacy.{LegacyKeyring, Cursor, ReadBytes, array_of}
use oo.Legacy
use oo.Legacy.Content.{decrypted_content, decrypted_content-ok}
use oo.Legacy.Content
use oo.Legacy.Items.{decrypt_items}
use oo.Legacy.Items
use oo.Unlocked.{UnlockedKeyring}
use oo.Unlocked
use oo.Unlocked.Migrate.{migrate_content}
use oo.Unlocked.Migrate.Items.{migrate_content-decrypt_items}
use oo.Examples.Toy.{
  toy_primitives, toy_primitives-IsLawful, toy_items, toy_items-RoundTrips, toy_keyrings, toy_os,
  toy_os-IsLawfulOs, toy_os-AlwaysRandom, put_item, replicate, toy_reads,
}
use oo.Examples.Keyrings.{secret}

-- One item, `foo`, with the secret 8, 9, the attribute `n` = 42 and no access rights, padded to whole
-- blocks.
abbrev content : Bytes
content =
    0 ∷ 0 ∷ 0 ∷ 3 ∷ codes "foo"
    ++ 0 ∷ 0 ∷ 0 ∷ 2 ∷ 8 ∷ 9 ∷ replicate 16 0
    ++ 255 ∷ 255 ∷ 255 ∷ 255 ∷ replicate 16 0
    ++ 0
      ∷ 0
      ∷ 0
      ∷ 1
      ∷ 0
      ∷ 0
      ∷ 0
      ∷ 1
      ∷ b'n'
      ∷ 0
      ∷ 0
      ∷ 0
      ∷ 1
      ∷ 0
      ∷ 0
      ∷ 0
      ∷ 42
      ∷ 0
      ∷ 0
      ∷ 0
      ∷ 0
      ∷ replicate 10 0

abbrev legacy : LegacyKeyring
legacy = record {
  salt = replicate 8 4;
  iteration_count = 2;
  encrypted_content = toy_primitives.md5 content ++ content;
  item_count = 1;
}

legacy-decrypted_content : decrypted_content legacy secret ≡ ok content
unfolding decrypted_content Content.checked_content legacy_derive_key_and_iv decrypt_no_padding
    Crypto.hash_again Crypto.new_from_slices Item.split_at Crypto.verify_checksum_md5 bytes_eq
    as_bytes
legacy-decrypted_content = refl

abbrev legacy_file : Bytes
legacy_file =
    file_header
    ++ 0 ∷ 0 ∷ 0 ∷ 0 ∷ 255 ∷ 255 ∷ 255 ∷ 255 ∷ replicate 24 0
    ++ 0 ∷ 0 ∷ 0 ∷ 2 ∷ replicate 8 4
    ++ replicate 16 0
    ++ 0 ∷ 0 ∷ 0 ∷ 1 ∷ replicate 12 0
    ++ 0 ∷ 0 ∷ 0 ∷ 96 ∷ toy_primitives.md5 content
    ++ content

legacy_file-try_from : Legacy.try_from legacy_file ≡ ok legacy
unfolding Legacy.try_from get_range bytes_eq Legacy.parse Legacy.parse_at Legacy.check_algorithm
    Legacy.read_string Legacy.read_byte_array array_of Legacy.as_text Legacy.read_time
    Legacy.read_exact Legacy.skip_numbers Legacy.skip_hashed_items Legacy.skip_hashed_attributes
    Legacy.blocks
legacy_file-try_from = refl

-- The item as it is read at the time 10.
abbrev foo : UnlockedItem
foo = record {
  attributes =
      (codes "n", codes "42") ∷ (codes "xdg:content-type", codes "application/octet-stream") ∷ [];
  label = codes "foo";
  created = 10;
  modified = 10;
  secret = 8 ∷ 9 ∷ [];
}

legacy-decrypt_items : decrypt_items {W = ℕ} legacy secret 10 ≡ (ok (foo ∷ []), 11)
unfolding decrypt_items Items.items_in Items.read_items Items.read_item Items.read_attributes
    Items.insert_attributes Items.required Items.read_value Items.decimal Items.digits_from
    Items.unwrap_or Disk.clock Legacy.read_string Legacy.read_byte_array array_of Legacy.slice
    Legacy.as_text Legacy.read_time Legacy.skip_numbers Legacy.skip_acls insert Item.new
    Item.with_default_type contains_key get bytes_eq as_str Utf8.valid_utf8 Secret.content_type
    as_bytes
legacy-decrypt_items = rw legacy-decrypted_content

foo-IsItem : Item.RoundTrip.IsItem foo
unfolding get contains_key bytes_eq
foo-IsItem = record { is_map = (refl, (refl, tt)); has_type = refl }

new-decrypt_items : decrypt_items {W = ℕ} legacy secret (Disk.new 8).1 ≡ (ok (foo ∷ []), 11)
unfolding Disk.new Disk.fill Disk.clock
new-decrypt_items = legacy-decrypt_items

migrate_content-decrypt_items_example :
    (u : UnlockedKeyring) × (w' : ℕ) × (key : Option Key) × (migrate_content legacy_file
        (codes "a")
        (some secret)
        8
      ≡ (ok u, w'))
    × ((Unlocked.derive_key (u, w')).0 ≡ ok key)
    × (collect (λ e. decrypt_item e key) u.keyring.items ≡ ok (foo ∷ []))
    × (u.path ≡ some (codes "a"))
    × (u.secret ≡ some secret)
migrate_content-decrypt_items_example =
    migrate_content-decrypt_items legacy_file (codes "a") (some secret) legacy (foo ∷ []) 8 11
      toy_os-IsLawfulOs toy_primitives-IsLawful toy_items-RoundTrips toy_os-AlwaysRandom
      legacy_file-try_from new-decrypt_items ((foo-IsItem, (put_item foo, refl)), tt)
