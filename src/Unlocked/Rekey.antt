-- ===== src/Unlocked/Rekey.antt =====
-- The change of the secret (client/src/file/unlocked_keyring.rs, `change_secret`).
use oo.Prelude.{
  ℕ, ◌≤◌, Option, none, some, List, [], ◌∷◌, ◌++◌, ◌≡◌, ◌∙◌, refl, arith, length, append_assoc,
  append-nil, Bytes, ltb, if◌then◌else◌,
}
use oo.Outcome.{ok, collect, password_too_short}
use oo.Exec.{◌>>◌}
use oo.Os.{Os, IsLawfulOs}
use oo.Secret.{Secret, as_bytes}
use oo.Crypto.{Primitives, IsLawful, Key}
use oo.Crypto
use oo.Item.{UnlockedItem, EncryptedItem, Codec, RoundTrips, encrypt_item, decrypt_item}
use oo.Item.RoundTrip.{IsItem, CanWrite, decrypt_item-encrypt_item}
use oo.Keyring.{Keyring, key_strength, default_salt_size, default_iteration_count}
use oo.Keyring
use oo.Keyring.Disk
use oo.Unlocked.{UnlockedKeyring, State, derive_key, write}
use oo.Unlocked.Bulk.{push_encrypted, reencrypt, change_secret}
use oo.Unlocked.Writes.{write-SameKeyring}

-- `getrandom` does not fail.
abbrev pub AlwaysRandom : {W : Type 0} → Os W → Type 0
AlwaysRandom {W} os = (n : ℕ) (w : W) → (b : Bytes) × ((os.fill n w).0 ≡ some b)

-- Each item is well formed, and the serialiser takes it.
abbrev pub Writable : ⦃codec : Codec UnlockedItem⦄ → List UnlockedItem → Type 0
Writable [] = Unit
Writable ⦃codec⦄ (item ∷ items) =
    (IsItem item × ((b : Bytes) × (codec.to_bytes item ≡ some b))) × Writable items

abbrev with_items : UnlockedKeyring → List EncryptedItem → UnlockedKeyring
with_items u es = record u { keyring = record u.keyring { items = es } }

module _ {W : Type 0} ⦃os : Os W⦄ ⦃p : Primitives⦄ ⦃codec : Codec UnlockedItem⦄ where
  module _ (lawful_os : IsLawfulOs os) (lawful : IsLawful p) (trips : RoundTrips codec)
      (random : AlwaysRandom os) where
    -- All items are pushed, and each is readable under the key.
    pub push_encrypted-decrypt_item :
        (key : Option Key) (items : List UnlockedItem) (u : UnlockedKeyring) (w : W)
        → CanWrite p key
        → Writable items
        → (es : List EncryptedItem) × (w' : W) × (push_encrypted key items (u, w)
            ≡ (ok tt, (with_items u (u.keyring.items ++ es), w')))
          × (collect (λ e. decrypt_item e key) es ≡ ok items)
    unfolding push_encrypted collect
    push_encrypted-decrypt_item key [] u w can h = ([], w, rw append-nil, refl)
    push_encrypted-decrypt_item key (item ∷ items) u w can h =
        let (iv, filled) = random p.iv_size w in
        let (e, written, read) =
          decrypt_item-encrypt_item lawful_os lawful trips item key w iv h.0.1.0 h.0.0 can filled
            h.0.1.1 in
        let w₁ : W = (encrypt_item item key w).1 in
        let (es, w', pushed, reads) =
          push_encrypted-decrypt_item key items (with_items u (u.keyring.items ++ e ∷ [])) w₁ can
            h.1 in
        (e ∷ es, w', rw (written, pushed, append_assoc) refl, rw (read, reads))

-- The keyring behind a reset with the given salt.
reset_keyring : Keyring → Bytes → Keyring
reset_keyring k salt = record k {
  salt_size = length salt;
  salt = salt;
  iteration_count = default_iteration_count;
  usage_count = 0;
  items = [];
}

module _ ⦃p : Primitives⦄ where
  -- The key that a secret gives then.
  reset_key : Bytes → Secret → Key
  reset_key salt secret = record {
    key = p.pbkdf2 (as_bytes secret) salt default_iteration_count p.block_size;
    strength =
        if ltb (length (as_bytes secret)) 4
        then some (password_too_short (length (as_bytes secret)))
        else none;
  }

  reset_key-CanWrite :
      (salt : Bytes) (secret : Secret)
      → IsLawful p
      → 4 ≤ length (as_bytes secret)
      → CanWrite p (some (reset_key salt secret))
  unfolding reset_key
  reset_key-CanWrite salt secret lawful h =
      (ground arith, lawful.length-pbkdf2 _ _ _ _ ∙ lawful.block_is_key)

  -- A derivation reads the salt and the iteration count.
  derive_key-eq :
      (k k' : Keyring) (secret : Secret)
      → k'.salt ≡ k.salt
      → k'.iteration_count ≡ k.iteration_count
      → Keyring.derive_key k' secret ≡ Keyring.derive_key k secret
  unfolding Keyring.derive_key key_strength
  derive_key-eq k k' secret e f = rw (e, f)

  derive_key-reset :
      (k : Keyring) (salt : Bytes) (secret : Secret)
      → length salt ≡ default_salt_size
      → Keyring.derive_key (reset_keyring k salt) secret ≡ ok (reset_key salt secret)
  unfolding Keyring.derive_key key_strength Crypto.derive_key reset_keyring reset_key
  derive_key-reset k salt secret h = ground arith

  -- The keyring with the new secret, its key and no items yet.
  rekeyed : UnlockedKeyring → Secret → Bytes → UnlockedKeyring
  rekeyed u secret salt = record u {
    keyring = reset_keyring u.keyring salt;
    key = some (reset_key salt secret);
    secret = some secret;
  }

  derive_key-rekeyed :
      {W : Type 0} (u : UnlockedKeyring) (secret : Secret) (salt : Bytes) (w : W)
      → length salt ≡ default_salt_size
      → derive_key (record (rekeyed u secret salt) { key = none }, w)
        ≡ (ok (some (reset_key salt secret)), (rekeyed u secret salt, w))
  unfolding derive_key rekeyed
  derive_key-rekeyed u secret salt w sized =
      rw (derive_key-reset u.keyring salt secret sized, derive_key)

module _ {W : Type 0} ⦃os : Os W⦄ ⦃p : Primitives⦄ ⦃codec : Codec UnlockedItem⦄
    ⦃kc : Codec Keyring⦄ where
  reencrypt-push_encrypted :
      (secret : Secret) (items : List UnlockedItem) (u : UnlockedKeyring) (w : W) (salt : Bytes)
      → (os.fill default_salt_size w).0 ≡ some salt
      → length salt ≡ default_salt_size
      → reencrypt secret items (u, w)
        ≡ (push_encrypted (some (reset_key salt secret)) items >> write)
            (rekeyed u secret salt, (os.fill default_salt_size w).1)
  unfolding reencrypt rekeyed Disk.reset reset_keyring
  reencrypt-push_encrypted secret items u w salt filled sized =
      rw (filled, derive_key-rekeyed u secret salt (os.fill default_salt_size w).1 sized)

  change_secret-reencrypt :
      (s s₁ : State W) (secret : Secret) (key : Option Key) (items : List UnlockedItem)
      → derive_key s ≡ (ok key, s₁)
      → collect (λ e. decrypt_item e key) s₁.0.keyring.items ≡ ok items
      → change_secret secret s ≡ reencrypt secret items s₁
  unfolding change_secret
  change_secret-reencrypt s s₁ secret key items derived read = rw (derived, change_secret, read)

  push_encrypted-write :
      (key : Option Key) (items : List UnlockedItem) (s s' : State W)
      → push_encrypted key items s ≡ (ok tt, s')
      → (push_encrypted key items >> write) s ≡ write s'
  push_encrypted-write key items s s' h = rw h

  -- A change to a secret of at least four bytes keeps the items, where random bytes never fail, the
  -- cipher is lawful, and each item has each attribute once, a content type among them, and is taken
  -- by the serialiser and read back: if all items are readable under the old key, then afterwards, whether the write to the file succeeds or fails, all are readable under
  -- the key that the new secret gives, with the same contents and in the same order, and that key
  -- and that secret are the ones in use.
  pub change_secret-decrypt_item :
      (s s₁ : State W) (secret : Secret) (key : Option Key) (items : List UnlockedItem)
      → IsLawfulOs os
      → IsLawful p
      → RoundTrips codec
      → AlwaysRandom os
      → derive_key s ≡ (ok key, s₁)
      → collect (λ e. decrypt_item e key) s₁.0.keyring.items ≡ ok items
      → Writable items
      → 4 ≤ length (as_bytes secret)
      → (new : Key) × (Keyring.derive_key (change_secret secret s).1.0.keyring secret ≡ ok new)
        × ((change_secret secret s).1.0.key ≡ some new)
        × ((change_secret secret s).1.0.secret ≡ some secret)
        × (collect (λ e. decrypt_item e (some new)) (change_secret secret s).1.0.keyring.items
            ≡ ok items)
  unfolding rekeyed reset_keyring
  change_secret-decrypt_item s s₁ secret key items lawful_os lawful trips random derived read
        writable h =
      let (salt, filled) = random default_salt_size s₁.1 in
      let sized = lawful_os.filled default_salt_size s₁.1 salt filled in
      let w₁ = (os.fill default_salt_size s₁.1).1 in
      let e =
        change_secret-reencrypt s s₁ secret key items derived read
        ∙ reencrypt-push_encrypted secret items s₁.0 s₁.1 salt filled sized in
      let (es, w', pushed, reads) =
        push_encrypted-decrypt_item lawful_os lawful trips random (some (reset_key salt secret))
          items (rekeyed s₁.0 secret salt) w₁ (reset_key-CanWrite salt secret lawful h) writable in
      let u = with_items (rekeyed s₁.0 secret salt) es in
      let all : change_secret secret s ≡ write (u, w') = e ∙ push_encrypted-write _ _ _ _ pushed in
      let same = write-SameKeyring (u, w') in
      (
        reset_key salt secret,
        rw all (
            derive_key-eq _ _ secret same.contents.salt same.contents.iteration_count
            ∙ derive_key-reset s₁.0.keyring salt secret sized),
        rw all same.key,
        rw all same.secret,
        rw (all, same.contents.items) reads,
      )
