-- ===== src/Item.antt =====
-- client/src/file/unlocked_item.rs, client/src/file/locked_item.rs and
-- client/src/file/api/encrypted_item.rs: items in the clear, and items as the file holds them.
pub mod RoundTrip
pub mod Authentic
pub mod Matching
pub mod Attributes
use oo.Prelude.{
  ℕ, ◌+◌, ◌-◌, Bool, true, false, ◌&&◌, Option, none, some, List, [], ◌∷◌, ◌++◌, ◌≡◌, map, length,
  take, drop, leb, all, if◌then◌else◌, Bytes, Text, codes, bytes_eq,
}
use oo.HashMap.{get, contains_key, insert}
use oo.Outcome.{
  Outcome, ok, err, panic, is_ok, or_err, guard, ◌>>=◌, ◌>>◌, gvariant_deserialization, mac_error,
  hashed_attribute_mac, crypto, getrandom,
}
use oo.Exec.{Exec}
use oo.Os.{Os}
use oo.Secret.{
  ContentType, default_content_type, as_str, from_str, Secret, content_type, as_bytes,
  with_content_type,
}
use oo.Crypto.{
  Primitives, Key, Mac, mac_eq, check_strength, encrypt, decrypt, iv_len, mac_len, compute_mac,
  verify_mac,
}

abbrev pub Map : Type 0
Map = List (Text × Text)

abbrev pub content_type_attribute : Text
content_type_attribute = codes "xdg:content-type"

pub record UnlockedItem : Type 0 where
  pub attributes : Map
  pub label : Text
  pub created : ℕ
  pub modified : ℕ
  pub secret : Bytes

pub record EncryptedItem : Type 0 where
  pub hashed_attributes : List (Text × Mac)
  pub blob : Bytes

-- `zvariant::to_bytes` and `Data::deserialize` at a type; `none` is an error.
pub record Codec (A : Type 0) : Type 0 where
  pub to_bytes : A → Option Bytes
  pub from_bytes : Bytes → Option A

-- What is written is read back.
pub record RoundTrips {A : Type 0} (c : Codec A) : Type 0 where
  pub back : (a : A) (b : Bytes) → c.to_bytes a ≡ some b → c.from_bytes b ≡ some a

-- `if !attributes.contains_key(CONTENT_TYPE_ATTRIBUTE) { attributes.insert(…) }`
unfoldable pub with_default_type : Map → Text → Map
unfolding contains_key insert
with_default_type m type =
    if contains_key content_type_attribute m then m else insert content_type_attribute type m

-- `UnlockedItem::new` at the time `now`.
unfoldable pub new : Text → Map → Secret → ℕ → UnlockedItem
new label attributes secret now = record {
  attributes = with_default_type attributes (as_str (content_type secret));
  label = label;
  created = now;
  modified = now;
  secret = as_bytes secret;
}

unfoldable pub set_attributes : UnlockedItem → Map → ℕ → UnlockedItem
set_attributes item attributes now = record item {
  attributes = with_default_type attributes (elim (get content_type_attribute item.attributes) [
    | some existing ↦ existing
    | none ↦ as_str default_content_type
  ]);
  modified = now;
}

unfoldable pub set_label : UnlockedItem → Text → ℕ → UnlockedItem
set_label item label now = record item { label = label; modified = now }

unfoldable pub set_secret : UnlockedItem → Secret → ℕ → UnlockedItem
unfolding as_bytes
set_secret item secret now = record item { secret = as_bytes secret; modified = now }

-- The content type that the attributes name, the default if they name none that is known.
unfoldable pub declared_type : Map → ContentType
declared_type m = elim (get content_type_attribute m) [
  | none ↦ default_content_type
  | some c ↦ elim (from_str c) [ none ↦ default_content_type | some t ↦ t ]
]

unfoldable pub secret_of : UnlockedItem → Secret
secret_of item = with_content_type (declared_type item.attributes) item.secret

unfoldable pub has_attribute : EncryptedItem → Text → Mac → Bool
unfolding get mac_eq
has_attribute e key value_mac = elim (get key e.hashed_attributes) [
  | none ↦ false
  | some m ↦ mac_eq m value_mac
]

unfoldable pub has_plaintext_attribute : EncryptedItem → Text → Text → Bool
unfolding get bytes_eq
has_plaintext_attribute e key value = elim (get key e.hashed_attributes) [
  | none ↦ false
  | some m ↦ bytes_eq m.inner value
]

-- `usize` subtraction and `split_at`: below 0, and beyond the end, the program panics.
unfoldable pub checked_sub : ℕ → ℕ → Outcome ℕ
checked_sub a b = if leb b a then ok (a - b) else panic

unfoldable pub split_at : Bytes → ℕ → Outcome (Bytes × Bytes)
split_at s n = if leb n (length s) then ok (take n s, drop n s) else panic

-- `Item::matches_attributes` of client/src/file/mod.rs on an unlocked item.
unfoldable pub matches_attributes : UnlockedItem → Map → Bool
unfolding get all bytes_eq
matches_attributes item attributes =
    all (λ kv. elim (get kv.0 item.attributes) [ none ↦ false | some v ↦ bytes_eq v kv.1 ])
      attributes

module _ ⦃p : Primitives⦄ where
  -- `AsAttributes::hash`
  unfoldable pub hash : Map → Key → List (Text × Outcome Mac)
  unfolding compute_mac
  hash [] key = []
  hash ((k, v) ∷ m) key = (k, compute_mac v key) ∷ hash m key

  unfoldable pub matches : EncryptedItem → Map → Option Key → Bool
  unfolding hash all has_attribute has_plaintext_attribute
  matches e attributes (some key) =
      all (λ kv. elim kv.1 [ ok v ↦ has_attribute e kv.0 v | _ ↦ false ]) (hash attributes key)
  matches e attributes none = all (λ kv. has_plaintext_attribute e kv.0 kv.1) attributes

  -- The hashed attributes of an item that is encrypted: `filter_map` drops what cannot be hashed.
  unfoldable pub hash_attributes : Map → Key → List (Text × Mac)
  unfolding compute_mac
  hash_attributes [] key = []
  hash_attributes ((k, v) ∷ m) key =
      let rest = hash_attributes m key in
      elim (compute_mac v key) [ ok h ↦ (k, h) ∷ rest | _ ↦ rest ]

  -- `EncryptedItem::validate`
  unfoldable pub validate : List (Text × Mac) → UnlockedItem → Key → Outcome (Unit {0})
  unfolding get verify_mac
  validate [] item key = ok tt
  validate ((k, h) ∷ m) item key = elim (get k item.attributes) [
    | none ↦ err (hashed_attribute_mac k)
    | some v ↦ do
      valid ← verify_mac v key h.inner
      guard valid (hashed_attribute_mac k)
      validate m item key
  ]

-- The attributes in the clear, each value in the place of its MAC.
unfoldable pub plain_attributes : Map → List (Text × Mac)
plain_attributes [] = []
plain_attributes ((k, v) ∷ m) = (k, record { inner = v }) ∷ plain_attributes m

module _ ⦃codec : Codec UnlockedItem⦄ where
  -- `UnlockedItem::try_from(&[u8])`
  unfoldable pub try_from : Bytes → Outcome UnlockedItem
  unfolding with_default_type as_str
  try_from value = do
    item ← or_err gvariant_deserialization (codec.from_bytes value)
    ok (record item {
      attributes = with_default_type item.attributes (as_str default_content_type);
    })

  unfoldable pub encrypt_plaintext : UnlockedItem → Outcome EncryptedItem
  unfolding plain_attributes
  encrypt_plaintext item = do
    blob ← or_err gvariant_deserialization (codec.to_bytes item)
    ok (record { hashed_attributes = plain_attributes item.attributes; blob = blob })

module _ ⦃p : Primitives⦄ ⦃codec : Codec UnlockedItem⦄ where
  unfoldable pub encrypt_encrypted : UnlockedItem → Key → Bytes → Outcome EncryptedItem
  encrypt_encrypted item key iv = do
    decrypted ← or_err gvariant_deserialization (codec.to_bytes item)
    encrypted ← encrypt decrypted key iv
    let blob = encrypted ++ iv
    mac ← compute_mac blob key
    ok (record {
      hashed_attributes = hash_attributes item.attributes key;
      blob = blob ++ mac.inner;
    })

  -- The encrypted data, the initialisation vector and the MAC stand one behind the other in the blob.
  unfoldable pub try_decrypt_encrypted : EncryptedItem → Key → Outcome UnlockedItem
  try_decrypt_encrypted e key = do
    let n = length e.blob
    data_end ← checked_sub n mac_len
    (encrypted_data_with_iv, mac_tag) ← split_at e.blob data_end
    verified ← verify_mac encrypted_data_with_iv key mac_tag
    guard verified mac_error
    iv_start ← checked_sub data_end iv_len
    (encrypted_data, iv) ← split_at encrypted_data_with_iv iv_start
    decrypted ← decrypt encrypted_data key iv
    item ← try_from decrypted
    validate e.hashed_attributes item key
    ok item

  -- `try_decrypt_inner`, which `decrypt` and `LockedItem::unlock` call.
  unfoldable pub decrypt_item : EncryptedItem → Option Key → Outcome UnlockedItem
  decrypt_item e (some key) = try_decrypt_encrypted e key
  decrypt_item e none = try_from e.blob

  -- `EncryptedItem::is_valid`
  unfoldable pub is_valid : EncryptedItem → Option Key → Outcome Bool
  is_valid e key = elim (decrypt_item e key) [ ok _ ↦ ok true | err _ ↦ ok false | panic ↦ panic ]

module _ {W : Type 0} ⦃os : Os W⦄ ⦃p : Primitives⦄ ⦃codec : Codec UnlockedItem⦄ where
  -- `crypto::generate_iv`
  unfoldable pub generate_iv : Exec W Bytes
  generate_iv w = (or_err (crypto getrandom) (os.fill p.iv_size w).0, (os.fill p.iv_size w).1)

  -- `UnlockedItem::encrypt`, which `UnlockedItem::lock` wraps.
  unfoldable pub encrypt_item : UnlockedItem → Option Key → Exec W EncryptedItem
  unfolding check_strength generate_iv encrypt_encrypted encrypt_plaintext
  encrypt_item item none w = (encrypt_plaintext item, w)
  encrypt_item item (some key) w = elim (check_strength key) [
    | ok _ ↦ ((generate_iv w).0 >>= encrypt_encrypted item key, (generate_iv w).1)
    | err e ↦ (err e, w)
    | panic ↦ (panic, w)
  ]
