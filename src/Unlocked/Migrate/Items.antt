-- ===== src/Unlocked/Migrate/Items.antt =====
-- The items of a legacy file in the keyring that client/src/file/unlocked_keyring.rs, `migrate`, makes
-- of it.
use oo.Prelude.{
  ℕ, Option, none, some, List, [], ◌∷◌, ◌++◌, ◌≡◌, ◌∙◌, sym, refl, ap, arith, length, append_assoc,
  append-nil, Bytes, Text, fun_ext, bytes_eq, bytes_eq_iff, take, drop, Option-cases, inl, inr,
}
use oo.HashMap.{get}
use oo.Outcome.{
  Outcome, ok, err, collect, guard, mac_error, hashed_attribute_mac, WeakKeyError, >>=-eq, ◌>>=◌,
}
use oo.Os.{Os, IsLawfulOs, FilePath}
use oo.Secret.{Secret, as_bytes}
use oo.Crypto.{Primitives, IsLawful, Key, Mac, verify_mac, decrypt, new_from_slices}
use oo.Crypto
use oo.Item.{
  UnlockedItem, EncryptedItem, Codec, RoundTrips, encrypt_item, decrypt_item, try_decrypt_encrypted,
  validate, checked_sub, split_at, try_from,
}
use oo.Item.RoundTrip.{CanWrite, decrypt_item-encrypt_item}
use oo.Keyring.{
  Keyring, default_salt_size, default_iteration_count, derive_key, derive_key_unchecked,
  key_strength,
}
use oo.Keyring.Disk
use oo.Legacy.{ReadBytes, LegacyKeyring}
use oo.Legacy
use oo.Legacy.Items.{decrypt_items}
use oo.Keyring
use oo.Keyring.{file_header_len, get_range, same_bytes, file_header}
use oo.Outcome.{version_mismatch}
use oo.Unlocked.{UnlockedKeyring, State}
use oo.Unlocked
use oo.Unlocked.Migrate.{
  migration_key, secret_or_empty, encrypt_all, from_legacy, migrate_content, opened, is_legacy,
}
use oo.Unlocked.Rekey.{AlwaysRandom, Writable}

module _ ⦃p : Primitives⦄ where
  validate_strength :
      (m : List (Text × Mac)) (item : UnlockedItem) (k : Bytes) (s t : Option WeakKeyError)
      → validate m item (record { key = k; strength = s })
        ≡ validate m item (record { key = k; strength = t })
  unfolding validate verify_mac
  validate_strength [] item k s t = refl
  validate_strength ((a, h) ∷ m) item k s t = elim (Option-cases (get a item.attributes)) [
    | inl e ↦ rw (e, validate)
    | inr (v, e) ↦
        rw (e, validate)
          (>>=-eq (guard (p.verify_slice k v h.inner) (hashed_attribute_mac a)) _ _
            (λ u. validate_strength m item k s t))
  ]

module _ ⦃p : Primitives⦄ ⦃codec : Codec UnlockedItem⦄ where
  -- Whether a key counts as strong does not matter for reading.
  decrypt_item_strength :
      (e : EncryptedItem) (k : Bytes) (s t : Option WeakKeyError)
      → decrypt_item e (some (record { key = k; strength = s }))
        ≡ decrypt_item e (some (record { key = k; strength = t }))
  unfolding decrypt_item try_decrypt_encrypted verify_mac decrypt new_from_slices
  decrypt_item_strength e k s t = >>=-eq (checked_sub (length e.blob) p.mac_size) _ _ (λ data_end.
      >>=-eq (split_at e.blob data_end) _ _ (λ parts.
        >>=-eq (guard (p.verify_slice k parts.0 parts.1) mac_error) _ _ (λ u.
          >>=-eq (checked_sub data_end p.iv_size) _ _ (λ iv_start.
            >>=-eq (split_at parts.0 iv_start) _ _ (λ sealed.
              >>=-eq (decrypt sealed.0 (record { key = k; strength = s }) sealed.1) _ _
                (λ decrypted. >>=-eq (try_from decrypted) _ _ (λ item.
                  ap (λ (o : Outcome (Unit {0})). o >>= (λ u. ok item))
                    (validate_strength e.hashed_attributes item k s t))))))))

module _ {W : Type 0} ⦃os : Os W⦄ ⦃p : Primitives⦄ ⦃codec : Codec UnlockedItem⦄ where
  module _ (lawful_os : IsLawfulOs os) (lawful : IsLawful p) (trips : RoundTrips codec)
      (random : AlwaysRandom os) where
    encrypt_all-decrypt_item :
        (key : Option Key) (items : List UnlockedItem) (k : Keyring) (w : W)
        → CanWrite p key
        → Writable items
        → (es : List EncryptedItem) × (w' : W) × (encrypt_all key items k w
            ≡ (ok (record k { items = k.items ++ es }), w'))
          × (collect (λ e. decrypt_item e key) es ≡ ok items)
    unfolding encrypt_all collect
    encrypt_all-decrypt_item key [] k w can h = ([], w, rw append-nil, refl)
    encrypt_all-decrypt_item key (item ∷ items) k w can h =
        let (iv, filled) = random p.iv_size w in
        let (e, written, read) =
          decrypt_item-encrypt_item lawful_os lawful trips item key w iv h.0.1.0 h.0.0 can filled
            h.0.1.1 in
        let (es, w', pushed, reads) =
          encrypt_all-decrypt_item key items (record k { items = k.items ++ e ∷ [] })
            (encrypt_item item key w).1 can h.1 in
        (e ∷ es, w', rw (written, pushed, append_assoc) refl, rw (read, reads))

module _ ⦃kc : Codec Keyring⦄ ⦃r : ReadBytes⦄ where
  -- The current format refuses a legacy file for its version.
  legacy_version :
      (content : Bytes) (l : LegacyKeyring)
      → Legacy.try_from content ≡ ok l
      → Keyring.try_from content ≡ err (version_mismatch (some (0 ∷ 0 ∷ [])))
  unfolding Legacy.try_from Keyring.try_from get_range bytes_eq
  legacy_version content l h = ground (arith, bytes_eq_iff (take 2 (drop 16 content)) (0 ∷ 0 ∷ []))

-- What `Keyring::new` makes of a salt.
fresh : Bytes → ℕ → Keyring
fresh salt now = record {
  salt_size = length salt;
  salt = salt;
  iteration_count = default_iteration_count;
  modified_time = now;
  usage_count = 0;
  items = [];
}

module _ ⦃p : Primitives⦄ where
  -- The key without its strength.
  raw_key : Bytes → Secret → Option WeakKeyError → Key
  raw_key salt secret s = record {
    key = p.pbkdf2 (as_bytes secret) salt default_iteration_count p.block_size;
    strength = s;
  }

module _ {W : Type 0} ⦃os : Os W⦄ ⦃p : Primitives⦄ ⦃codec : Codec UnlockedItem⦄
    ⦃r : ReadBytes⦄ where
  new-fresh :
      (w : W) (salt : Bytes)
      → (os.fill default_salt_size w).0 ≡ some salt
      → Disk.new w ≡ (
        ok (fresh salt (os.now (os.fill default_salt_size w).1).0),
        (os.now (os.fill default_salt_size w).1).1,
      )
  unfolding Disk.new fresh
  new-fresh w salt filled = rw filled

  from_legacy-encrypt_all :
      (content : Bytes) (secret : Option Secret) (l : LegacyKeyring) (k : Keyring)
      (items : List UnlockedItem) (w w₁ w₂ : W) (key : Option Key)
      → Legacy.try_from content ≡ ok l
      → Disk.new w ≡ (ok k, w₁)
      → migration_key k secret ≡ ok key
      → decrypt_items l (secret_or_empty secret) w₁ ≡ (ok items, w₂)
      → from_legacy content secret w ≡ encrypt_all key items k w₂
  unfolding from_legacy
  from_legacy-encrypt_all content secret l k items w w₁ w₂ key legacy new derived read =
      rw (legacy, new, derived, read)

  migrate_content-from_legacy :
      ⦃kc : Codec Keyring⦄ (content : Bytes) (path : FilePath) (secret : Option Secret)
      (l : LegacyKeyring) (k : Keyring) (w w' : W)
      → Legacy.try_from content ≡ ok l
      → from_legacy content secret w ≡ (ok k, w')
      → migrate_content content path secret w ≡ (ok (opened k path secret), w')
  unfolding migrate_content opened is_legacy
  migrate_content-from_legacy content path secret l k w w' legacy made =
      rw (legacy_version content l legacy, migrate_content, made)

module _ ⦃p : Primitives⦄ ⦃codec : Codec UnlockedItem⦄ where
  -- The key of the migration, and the key that the keyring then derives.
  migration_key_of : Bytes → Option Secret → Option Key
  migration_key_of salt none = none
  migration_key_of salt (some secret) = some (raw_key salt secret none)

  migration_key-fresh :
      (salt : Bytes) (now : ℕ) (secret : Option Secret)
      → migration_key (fresh salt now) secret ≡ ok (migration_key_of salt secret)
  unfolding migration_key migration_key_of fresh raw_key derive_key_unchecked Crypto.derive_key
  migration_key-fresh salt now none = refl
  migration_key-fresh salt now (some secret) = refl

  migration_key-CanWrite :
      (salt : Bytes) (secret : Option Secret)
      → IsLawful p
      → CanWrite p (migration_key_of salt secret)
  unfolding migration_key_of raw_key
  migration_key-CanWrite salt none lawful = tt
  migration_key-CanWrite salt (some secret) lawful =
      (refl, lawful.length-pbkdf2 _ _ _ _ ∙ lawful.block_is_key)

  collect_strength :
      (es : List EncryptedItem) (k : Bytes) (s t : Option WeakKeyError)
      → collect (λ e. decrypt_item e (some (record { key = k; strength = s }))) es
        ≡ collect (λ e. decrypt_item e (some (record { key = k; strength = t }))) es
  collect_strength es k s t =
      ap (λ (f : EncryptedItem → Outcome UnlockedItem). collect f es)
        (fun_ext (λ e. decrypt_item_strength e k s t))

  derive_key-opened :
      {W : Type 0} (salt : Bytes) (now : ℕ) (es : List EncryptedItem) (items : List UnlockedItem)
      (path : FilePath) (secret : Option Secret) (w : W)
      → collect (λ e. decrypt_item e (migration_key_of salt secret)) es ≡ ok items
      → (key : Option Key) × ((Unlocked.derive_key
            (opened (record (fresh salt now) { items = es }) path secret, w)).0
          ≡ ok key)
        × (collect (λ e. decrypt_item e key) es ≡ ok items)
  unfolding Unlocked.derive_key opened migration_key_of fresh raw_key derive_key Crypto.derive_key
  derive_key-opened salt now es items path none w h = (none, refl, h)
  derive_key-opened salt now es items path (some secret) w h =
      (some _, refl, collect_strength es _ _ _ ∙ h)

module _ {W : Type 0} ⦃os : Os W⦄ ⦃p : Primitives⦄ ⦃codec : Codec UnlockedItem⦄ ⦃kc : Codec Keyring⦄
    ⦃r : ReadBytes⦄ where
  -- A legacy file whose items can be decrypted with the secret is moved to the current format: this
  -- succeeds, and gives an open keyring whose items are readable under the key that this keyring
  -- derives, and are the items of the legacy file, in their order. The items must be well formed and
  -- the serialiser and the random numbers must not fail.
  pub migrate_content-decrypt_items :
      (content : Bytes) (path : FilePath) (secret : Option Secret) (l : LegacyKeyring)
      (items : List UnlockedItem) (w w₂ : W)
      → IsLawfulOs os
      → IsLawful p
      → RoundTrips codec
      → AlwaysRandom os
      → Legacy.try_from content ≡ ok l
      → decrypt_items l (secret_or_empty secret) (Disk.new w).1 ≡ (ok items, w₂)
      → Writable items
      → (u : UnlockedKeyring) × (w' : W) × (key : Option Key) × (migrate_content content path secret
            w
          ≡ (ok u, w'))
        × ((Unlocked.derive_key (u, w')).0 ≡ ok key)
        × (collect (λ e. decrypt_item e key) u.keyring.items ≡ ok items)
        × (u.path ≡ some path)
        × (u.secret ≡ secret)
  unfolding opened fresh
  migrate_content-decrypt_items content path secret l items w w₂ lawful_os lawful trips random
        legacy read writable =
      let (salt, filled) = random default_salt_size w in
      let new = new-fresh w salt filled in
      let now = (os.now (os.fill default_salt_size w).1).0 in
      let k = fresh salt now in
      let read₁ =
        ap (λ (o : Outcome Keyring × W). decrypt_items l (secret_or_empty secret) o.1) (sym new)
        ∙ read in
      let (es, w', made, reads) =
        encrypt_all-decrypt_item lawful_os lawful trips random (migration_key_of salt secret) items
          k w₂ (migration_key-CanWrite salt secret lawful) writable in
      let (key, derived, opens) = derive_key-opened salt now es items path secret w' reads in
      (
        opened (record k { items = es }) path secret,
        w',
        key,
        migrate_content-from_legacy content path secret l (record k { items = es }) w w' legacy
            (from_legacy-encrypt_all content secret l k items w _ w₂ _ legacy new
                (migration_key-fresh salt now secret) read₁
              ∙ made),
        derived,
        opens,
        refl,
        refl,
      )
