-- ===== src/Item/RoundTrip.antt =====
-- An item that is encrypted is decrypted again (client/src/file/unlocked_item.rs and
-- client/src/file/api/encrypted_item.rs).
use oo.Prelude.{
  ℕ, ◌+◌, ◌≤◌, true, Option, none, some, [], ◌∷◌, ◌++◌, ◌≡◌, refl, arith, length, Bytes,
  length-append, take-append, drop-append,
}
use oo.HashMap.{contains_key, IsMap, Finds, IsMap-Finds}
use oo.Outcome.{ok}
use oo.Crypto.{decrypt, Primitives, IsLawful, Key, compute_mac, verify_mac}
use oo.Crypto.Laws.{Fits, decrypt-encrypt}
use oo.Crypto.{check_strength}
use oo.Os.{Os, IsLawfulOs}
use oo.Item.{
  generate_iv, encrypt_item, plain_attributes, Map, content_type_attribute, UnlockedItem,
  EncryptedItem, Codec, RoundTrips, checked_sub, split_at, hash_attributes, validate, try_from,
  encrypt_plaintext, encrypt_encrypted, try_decrypt_encrypted, decrypt_item,
}

-- What every item that the code makes has: one value for each attribute, and a content type.
pub record IsItem (item : UnlockedItem) : Type 0 where
  pub is_map : IsMap item.attributes
  pub has_type : contains_key content_type_attribute item.attributes ≡ true

pub checked_sub-add : (a b : ℕ) → checked_sub (a + b) b ≡ ok a
unfolding checked_sub
checked_sub-add a b = let h : b ≤ a + b = omega arith in ground arith

pub split_at-append : (s t : Bytes) (n : ℕ) → n ≡ length s → split_at (s ++ t) n ≡ ok (s, t)
unfolding split_at
split_at-append s t n h = rw h (ground (arith, length-append s t, take-append s t, drop-append s t))

module _ ⦃codec : Codec UnlockedItem⦄ (trips : RoundTrips codec) where
  try_from-to_bytes :
      (item : UnlockedItem) (b : Bytes)
      → IsItem item
      → codec.to_bytes item ≡ some b
      → try_from b ≡ ok item
  unfolding try_from
  try_from-to_bytes item b h e = ground (arith, trips.back item b e, h.has_type)

module _ ⦃p : Primitives⦄ (lawful : IsLawful p) where
  validate-hash_attributes :
      (m : Map) (item : UnlockedItem) (key : Key)
      → Finds item.attributes m
      → validate (hash_attributes m key) item key ≡ ok tt
  unfolding validate hash_attributes
  validate-hash_attributes [] item key h = refl
  validate-hash_attributes ((k, v) ∷ m) item key h =
      ground (arith, h.0, lawful.accepts key.key v, validate-hash_attributes m item key h.1)

  encrypt_encrypted-blob :
      ⦃codec : Codec UnlockedItem⦄ (item : UnlockedItem) (key : Key) (iv plain : Bytes)
      → Fits p key iv
      → codec.to_bytes item ≡ some plain
      → (c : Bytes) × (encrypt_encrypted item key iv
          ≡ ok (record {
            hashed_attributes = hash_attributes item.attributes key;
            blob = (c ++ iv) ++ p.hmac key.key (c ++ iv);
          }))
        × (decrypt c key iv ≡ ok plain)
  unfolding encrypt_encrypted compute_mac
  encrypt_encrypted-blob item key iv plain fits e =
      let r = decrypt-encrypt lawful plain key iv fits in (r.0, ground arith, r.2)

  verify_mac-hmac : (d : Bytes) (key : Key) → verify_mac d key (p.hmac key.key d) ≡ ok true
  unfolding verify_mac
  verify_mac-hmac d key = rw (lawful.accepts key.key d)

  -- What is authentic is taken apart in the way in which it was put together.
  try_decrypt-parts :
      ⦃codec : Codec UnlockedItem⦄ (e : EncryptedItem) (c iv plain : Bytes) (key : Key)
      (item : UnlockedItem)
      → length iv ≡ p.iv_size
      → e.blob ≡ (c ++ iv) ++ p.hmac key.key (c ++ iv)
      → decrypt c key iv ≡ ok plain
      → try_from plain ≡ ok item
      → validate e.hashed_attributes item key ≡ ok tt
      → try_decrypt_encrypted e key ≡ ok item
  unfolding try_decrypt_encrypted
  try_decrypt-parts e c iv plain key item sized whole d t v =
      let tag : Bytes = p.hmac key.key (c ++ iv) in
      let n : length e.blob ≡ length (c ++ iv) + p.mac_size =
        rw (whole, length-append (c ++ iv) tag, lawful.length-hmac key.key (c ++ iv)) refl in
      let cut : checked_sub (length e.blob) p.mac_size ≡ ok (length (c ++ iv)) =
        rw n (checked_sub-add (length (c ++ iv)) p.mac_size) in
      let split : split_at e.blob (length (c ++ iv)) ≡ ok (c ++ iv, tag) =
        rw whole (split_at-append (c ++ iv) tag (length (c ++ iv)) refl) in
      let cut_iv : checked_sub (length (c ++ iv)) p.iv_size ≡ ok (length c) =
        rw (length-append c iv, sized) (checked_sub-add (length c) p.iv_size) in
      let split_iv : split_at (c ++ iv) (length c) ≡ ok (c, iv) =
        split_at-append c iv (length c) refl in
      let verified : verify_mac (c ++ iv) key tag ≡ ok true = verify_mac-hmac (c ++ iv) key in
      rw (cut, split, verified, cut_iv, split_iv, d, t, v)

-- No key, or one of the cipher's size that is strong enough to write with.
abbrev pub CanWrite : (p : Primitives) → Option Key → Type 0
CanWrite p none = Unit
CanWrite p (some key) = (key.strength ≡ none) × (length key.key ≡ p.key_size)

module _ {W : Type 0} ⦃os : Os W⦄ ⦃p : Primitives⦄ ⦃codec : Codec UnlockedItem⦄ where
  module _ (lawful_os : IsLawfulOs os) (lawful : IsLawful p) (trips : RoundTrips codec) where
    encrypt_item-blob :
        (item : UnlockedItem) (key : Key) (w : W) (iv plain : Bytes)
        → CanWrite p (some key)
        → (os.fill p.iv_size w).0 ≡ some iv
        → codec.to_bytes item ≡ some plain
        → (c : Bytes) × ((encrypt_item item (some key) w).0
            ≡ ok (record {
              hashed_attributes = hash_attributes item.attributes key;
              blob = (c ++ iv) ++ p.hmac key.key (c ++ iv);
            }))
          × (decrypt c key iv ≡ ok plain)
    unfolding encrypt_item check_strength generate_iv
    encrypt_item-blob item key w iv plain can random written =
        let r =
          encrypt_encrypted-blob lawful item key iv plain
            (can.1, lawful_os.filled p.iv_size w iv random) written in
        (r.0, ground (arith, r.1), r.2)

    -- An item that can be written is encrypted, and what comes out is decrypted to that item under
    -- the same key, and so it is without a key: for an item with one value for each attribute and a
    -- content type, no key or a strong key of the right size, and random bytes at hand.
    pub decrypt_item-encrypt_item :
        (item : UnlockedItem) (key : Option Key) (w : W) (iv plain : Bytes)
        → IsItem item
        → CanWrite p key
        → (os.fill p.iv_size w).0 ≡ some iv
        → codec.to_bytes item ≡ some plain
        → (e : EncryptedItem) × ((encrypt_item item key w).0 ≡ ok e)
          × (decrypt_item e key ≡ ok item)
    unfolding encrypt_item encrypt_plaintext decrypt_item
    decrypt_item-encrypt_item item none w iv plain good can random written = (
      record { hashed_attributes = plain_attributes item.attributes; blob = plain },
      ground arith,
      try_from-to_bytes trips item plain good written,
    )
    decrypt_item-encrypt_item item (some key) w iv plain good can random written =
        let r = encrypt_item-blob item key w iv plain can random written in
        (
          _,
          r.1,
          try_decrypt-parts lawful _ r.0 iv plain key item (lawful_os.filled p.iv_size w iv random)
              refl r.2 (try_from-to_bytes trips item plain good written)
              (validate-hash_attributes lawful item.attributes item key
                (IsMap-Finds _ good.is_map)),
        )
