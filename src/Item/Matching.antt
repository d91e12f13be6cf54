-- ===== src/Item/Matching.antt =====
-- The search by attributes: an encrypted item is found by its hashed attributes where the item in the
-- clear would be found by its attributes.
use oo.Prelude.{
  true, Option, none, some, List, [], ◌∷◌, ◌≡◌, refl, arith, Bytes, Text, bytes_eq_iff,
  Option-cases, inl, inr, sym, ap, ◌∙◌, bytes_eq_refl, ◌++◌,
}
use oo.HashMap.{get, Finds}
use oo.Os.{Os}
use oo.Outcome.{ok, or_err, ◌>>=◌, >>=-ok, ok-injective, gvariant_deserialization, Outcome-cases}
use oo.Crypto.{Primitives, Key, Mac, compute_mac, check_strength, encrypt}
use oo.Item.{
  Map, UnlockedItem, EncryptedItem, matches, hash_attributes, plain_attributes, matches_attributes,
  Codec, encrypt_item, encrypt_plaintext, encrypt_encrypted, generate_iv,
}

-- The attributes that an item is stored with, by whether it is stored under a key.
abbrev pub stored_attributes : ⦃p : Primitives⦄ → Map → Option Key → List (Text × Mac)
stored_attributes m none = plain_attributes m
stored_attributes m (some key) = hash_attributes m key

-- No value that is asked for collides under the key with another that the item has there.
abbrev pub Apart : ⦃p : Primitives⦄ → Map → Map → Option Key → Type 0
Apart m query none = Unit
Apart m [] (some key) = Unit
Apart ⦃p⦄ m ((k, v) ∷ query) (some key) =
    ((w : Bytes) → get k m ≡ some w → p.hmac key.key w ≡ p.hmac key.key v → w ≡ v)
    × Apart m query (some key)

get-plain_attributes :
    (k : Text) (m : Map)
    → get k (plain_attributes m)
      ≡ elim (get k m) [ none ↦ none | some v ↦ some (record { inner = v }) ]
unfolding get plain_attributes
get-plain_attributes k [] = refl
get-plain_attributes k ((j, w) ∷ m) = ground (arith, get-plain_attributes k m)

module _ ⦃p : Primitives⦄ where
  get-hash_attributes :
      (k : Text) (m : Map) (key : Key)
      → get k (hash_attributes m key)
        ≡ elim (get k m) [ none ↦ none | some v ↦ some (record { inner = p.hmac key.key v }) ]
  unfolding get hash_attributes
  get-hash_attributes k [] key = refl
  get-hash_attributes k ((j, w) ∷ m) key = ground (arith, get-hash_attributes k m key)

  matches-plain :
      (item : UnlockedItem) (blob : Bytes) (query : Map)
      → matches
          (record { hashed_attributes = plain_attributes item.attributes; blob = blob })
          query
          none
        ≡ matches_attributes item query
  unfolding matches matches_attributes
  matches-plain item blob [] = refl
  matches-plain item blob ((k, v) ∷ query) =
      ground (arith, get-plain_attributes k item.attributes, matches-plain item blob query)

  matches-hashed :
      (item : UnlockedItem) (blob : Bytes) (key : Key) (query : Map)
      → Apart item.attributes query (some key)
      → matches
          (record { hashed_attributes = hash_attributes item.attributes key; blob = blob })
          query
          (some key)
        ≡ matches_attributes item query
  unfolding matches matches_attributes
  matches-hashed item blob key [] h = refl
  matches-hashed item blob key ((k, v) ∷ query) h = elim (Option-cases (get k item.attributes)) [
    | inl absent ↦
        ground
          (arith, get-hash_attributes k item.attributes key, matches-hashed item blob key query h.1)
    | inr (w, found) ↦ ground (
      arith,
      get-hash_attributes k item.attributes key,
      matches-hashed item blob key query h.1,
      bytes_eq_iff w v,
      bytes_eq_iff (p.hmac key.key w) (p.hmac key.key v),
      h.0 w found,
    )
  ]

  -- The stored item is found by the attributes by which the item in the clear is found, and by no
  -- others, with a key and without; under a key provided that no value that is asked for has the
  -- same MAC as another value that the item has for that attribute.
  pub matches-matches_attributes :
      (item : UnlockedItem) (blob : Bytes) (key : Option Key) (query : Map)
      → Apart item.attributes query key
      → matches
          (record { hashed_attributes = stored_attributes item.attributes key; blob = blob })
          query
          key
        ≡ matches_attributes item query
  matches-matches_attributes item blob none query h = matches-plain item blob query
  matches-matches_attributes item blob (some key) query h = matches-hashed item blob key query h

found_once : {v w : Bytes} → some w ≡ some v → w ≡ v
found_once h = cc

-- An item is found by its own attributes.
module _ ⦃p : Primitives⦄ where
  Finds-Apart : (m query : Map) (key : Option Key) → Finds m query → Apart m query key
  Finds-Apart m query none h = tt
  Finds-Apart m [] (some key) h = tt
  Finds-Apart m ((k, v) ∷ query) (some key) h =
      (λ w found same. found_once (sym found ∙ h.0), Finds-Apart m query (some key) h.1)

  matches_attributes-Finds :
      (item : UnlockedItem) (query : Map)
      → Finds item.attributes query
      → matches_attributes item query ≡ true
  unfolding matches_attributes
  matches_attributes-Finds item [] h = refl
  matches_attributes-Finds item ((k, v) ∷ query) h =
      rw h.0 (ground (arith, bytes_eq_refl v, matches_attributes-Finds item query h.1))

  pub matches-Finds :
      (item : UnlockedItem) (e : EncryptedItem) (key : Option Key) (query : Map)
      → e.hashed_attributes ≡ stored_attributes item.attributes key
      → Finds item.attributes query
      → matches e query key ≡ true
  matches-Finds item e key query stored h =
      ap (λ a. matches (record { hashed_attributes = a; blob = e.blob }) query key) stored
      ∙ matches-matches_attributes item e.blob key query (Finds-Apart item.attributes query key h)
      ∙ matches_attributes-Finds item query h

module _ ⦃p : Primitives⦄ ⦃codec : Codec UnlockedItem⦄ where
  encrypt_encrypted-hash_attributes :
      (item : UnlockedItem) (key : Key) (iv : Bytes) (e : EncryptedItem)
      → encrypt_encrypted item key iv ≡ ok e
      → e.hashed_attributes ≡ hash_attributes item.attributes key
  unfolding encrypt_encrypted
  encrypt_encrypted-hash_attributes item key iv e h =
      let s1 = >>=-ok (or_err gvariant_deserialization (codec.to_bytes item)) _ h in
      let s2 = >>=-ok (encrypt s1.0 key iv) _ s1.2 in
      let s3 = >>=-ok (compute_mac (s2.0 ++ iv) key) _ s2.2 in
      ap (λ (x : EncryptedItem). x.hashed_attributes) (sym (ok-injective s3.2))

module _ {W : Type 0} ⦃os : Os W⦄ ⦃p : Primitives⦄ ⦃codec : Codec UnlockedItem⦄ where
  pub encrypt_item-stored_attributes :
      (item : UnlockedItem) (key : Option Key) (w : W) (e : EncryptedItem)
      → (encrypt_item item key w).0 ≡ ok e
      → e.hashed_attributes ≡ stored_attributes item.attributes key
  unfolding encrypt_item encrypt_plaintext
  encrypt_item-stored_attributes item none w e h =
      let written = >>=-ok (or_err gvariant_deserialization (codec.to_bytes item)) _ h in
      ap (λ (x : EncryptedItem). x.hashed_attributes) (sym (ok-injective written.2))
  encrypt_item-stored_attributes item (some key) w e h = elim (Outcome-cases (check_strength key)) [
    | inl (u, c) ↦
        let sealed : ((generate_iv w).0 >>= encrypt_encrypted item key) ≡ ok e =
          rw (c, encrypt_item) at h in
        let made = >>=-ok (generate_iv w).0 (encrypt_encrypted item key) sealed in
        encrypt_encrypted-hash_attributes item key made.0 e made.2
    | inr (inl (x, c)) ↦ absurd (ground arith)
    | inr (inr c) ↦ absurd (ground arith)
  ]
