-- ===== src/Item/Authentic.antt =====
-- What a key lets through (client/src/file/api/encrypted_item.rs): an item that is decrypted was
-- written by a holder of the key.
use oo.Prelude.{
  ℕ, Bool, some, List, [], ◌∷◌, ◌++◌, ◌≡◌, ◌∙◌, subst, ap, arith, length, Bytes, Text,
  take-append-drop, length-take, length-append, Option-cases, inl, inr,
}
use oo.HashMap.{get}
use oo.Outcome.{ok, guard, mac_error, >>=-ok, ok-injective}
use oo.Crypto.{Primitives, IsLawful, Key, Mac, verify_mac, decrypt}
use oo.Item.{
  UnlockedItem, EncryptedItem, Codec, checked_sub, split_at, validate, try_from,
  try_decrypt_encrypted, decrypt_item,
}

-- Each attribute that the item is found by has the MAC of the attribute's value in the item.
abbrev pub Vouched : ⦃p : Primitives⦄ → Key → UnlockedItem → List (Text × Mac) → Type 0
Vouched key item [] = Unit
Vouched ⦃p⦄ key item ((k, h) ∷ m) =
    ((v : Text) × (get k item.attributes ≡ some v) × (h.inner ≡ p.hmac key.key v))
    × Vouched key item m

-- The blob is sealed: its last bytes are the MAC of the others, which end in the vector.
abbrev pub Sealed : ⦃p : Primitives⦄ → Key → Bytes → Type 0
Sealed ⦃p⦄ key blob =
    (c : Bytes) × (iv : Bytes) × (length iv ≡ p.iv_size)
    × (blob ≡ (c ++ iv) ++ p.hmac key.key (c ++ iv))

split_at-parts : (s a b : Bytes) (n : ℕ) → split_at s n ≡ ok (a, b) → (s ≡ a ++ b) × (length a ≡ n)
unfolding split_at
split_at-parts s a b n h = ground (arith, take-append-drop n s, length-take n s)

module _ ⦃p : Primitives⦄ (lawful : IsLawful p) where
  validate-Vouched :
      (m : List (Text × Mac)) (item : UnlockedItem) (key : Key)
      → validate m item key ≡ ok tt
      → Vouched key item m
  unfolding validate verify_mac
  validate-Vouched [] item key h = tt
  validate-Vouched ((k, h) ∷ m) item key e = elim (Option-cases (get k item.attributes)) [
    | inl absent ↦ absurd (ground arith)
    | inr (v, found) ↦ (
      (v, found, lawful.accepts_only key.key v h.inner (ground arith)),
      validate-Vouched m item key (ground arith),
    )
  ]

  Sealed-parts :
      (key : Key) (blob x tag c iv : Bytes) (n₁ n₂ : ℕ) (v : Bool) (u : Unit {0})
      → checked_sub (length blob) p.mac_size ≡ ok n₁
      → split_at blob n₁ ≡ ok (x, tag)
      → verify_mac x key tag ≡ ok v
      → guard v mac_error ≡ ok u
      → checked_sub n₁ p.iv_size ≡ ok n₂
      → split_at x n₂ ≡ ok (c, iv)
      → Sealed key blob
  unfolding verify_mac checked_sub
  Sealed-parts key blob x tag c iv n₁ n₂ v u e₁ e₂ e₃ e₄ e₅ e₆ =
      let (whole, len) = split_at-parts blob x tag n₁ e₂ in
      let (inner, len') = split_at-parts x c iv n₂ e₆ in
      let t : tag ≡ p.hmac key.key x = lawful.accepts_only key.key x tag (ground arith) in
      let sized : length iv ≡ p.iv_size = ground (arith, length-append c iv, ap length inner) in
      (c, iv, sized, whole ∙ ap (◌++◌ x) t ∙ ap (λ z. z ++ p.hmac key.key z) inner)

  -- A bind that succeeds, taken apart in the order of the statements.
  try_decrypt-inverse :
      ⦃codec : Codec UnlockedItem⦄ (e : EncryptedItem) (key : Key) (item : UnlockedItem)
      → try_decrypt_encrypted e key ≡ ok item
      → Sealed key e.blob × (validate e.hashed_attributes item key ≡ ok tt)
  unfolding try_decrypt_encrypted
  try_decrypt-inverse e key item h =
      let s1 = >>=-ok (checked_sub (length e.blob) p.mac_size) _ h in
      let s2 = >>=-ok (split_at e.blob s1.0) _ s1.2 in
      let s3 = >>=-ok (verify_mac s2.0.0 key s2.0.1) _ s2.2 in
      let s4 = >>=-ok (guard s3.0 mac_error) _ s3.2 in
      let s5 = >>=-ok (checked_sub s1.0 p.iv_size) _ s4.2 in
      let s6 = >>=-ok (split_at s2.0.0 s5.0) _ s5.2 in
      let s7 = >>=-ok (decrypt s6.0.0 key s6.0.1) _ s6.2 in
      let s8 = >>=-ok (try_from s7.0) _ s7.2 in
      let s9 = >>=-ok (validate e.hashed_attributes s8.0 key) _ s8.2 in
      (
        Sealed-parts key e.blob s2.0.0 s2.0.1 s6.0.0 s6.0.1 s1.0 s5.0 s3.0 s4.0 s1.1 s2.1 s3.1 s4.1
            s5.1 s6.1,
        subst (λ i. validate e.hashed_attributes i key ≡ ok tt) (ok-injective s9.2) s9.1,
      )

  -- An item that decrypts under a key was sealed with it: the blob ends in the MAC of what stands
  -- before, and each hashed attribute of the item is the MAC of the value of that attribute in the
  -- decrypted item.
  pub decrypt_item-Sealed :
      ⦃codec : Codec UnlockedItem⦄ (e : EncryptedItem) (key : Key) (item : UnlockedItem)
      → decrypt_item e (some key) ≡ ok item
      → Sealed key e.blob × Vouched key item e.hashed_attributes
  unfolding decrypt_item
  decrypt_item-Sealed e key item h =
      let (sealed, valid) = try_decrypt-inverse e key item h in
      (sealed, validate-Vouched e.hashed_attributes item key valid)
