-- ===== src/Locked/Unlock.antt =====
-- When a keyring opens (client/src/file/locked_keyring.rs, `unlock_inner` and `unlock_unencrypted`).
use oo.Prelude.{
  ℕ, suc, ◌+◌, ◌<◌, Bool, true, false, Option, none, some, List, [], ◌∷◌, ◌++◌, ◌≡◌, ◌⊎◌, inl, inr,
  arith, length, leb, ◌==◌, if◌then◌else◌,
}
use oo.Outcome.{
  Outcome, ok, err, panic, collect, >>=-ok, ok-injective, Outcome-cases, incorrect_secret,
  partially_corrupted_keyring,
}
use oo.Secret.{Secret}
use oo.Crypto.{Primitives, Key}
use oo.Crypto
use oo.Item.{
  UnlockedItem, EncryptedItem, Codec, is_valid, decrypt_item, try_decrypt_encrypted, checked_sub,
}
use oo.Keyring.{derive_key}
use oo.Locked.{LockedKeyring, count_items, unlock_inner, check_unencrypted, unlock_unencrypted}

abbrev pub n_true : List Bool → ℕ
n_true [] = 0
n_true (true ∷ bs) = suc (n_true bs)
n_true (false ∷ bs) = n_true bs

abbrev pub n_false : List Bool → ℕ
n_false [] = 0
n_false (true ∷ bs) = n_false bs
n_false (false ∷ bs) = suc (n_false bs)

module _ ⦃p : Primitives⦄ ⦃codec : Codec UnlockedItem⦄ where
  -- What the check of each item says.
  abbrev pub checks : List EncryptedItem → Option Key → Outcome (List Bool)
  checks es key = collect (λ e. is_valid e key) es

  count_items-checks :
      (es : List EncryptedItem) (key : Option Key) (bs : List Bool) (v b : ℕ)
      → checks es key ≡ ok bs
      → count_items es key v b ≡ ok (v + n_true bs, b + n_false bs)
  unfolding count_items collect
  count_items-checks [] key bs v b h = ground arith
  count_items-checks (e ∷ es) key bs v b h =
      let first = >>=-ok (is_valid e key) _ h in
      let rest = >>=-ok (checks es key) _ first.2 in
      counted first.0 rest.0 first.1 (ok-injective rest.2) (
        count_items-checks es key rest.0 (if first.0 then suc v else v)
          (if first.0 then b else suc b) rest.1)
    where
      counted :
          (x : Bool) (xs : List Bool)
          → is_valid e key ≡ ok x
          → x ∷ xs ≡ bs
          → count_items es key (if x then suc v else v) (if x then b else suc b)
            ≡ ok ((if x then suc v else v) + n_true xs, (if x then b else suc b) + n_false xs)
          → count_items (e ∷ es) key v b ≡ ok (v + n_true bs, b + n_false bs)
      counted true xs i c rec = rw (i, rec, ← c) (ground arith)
      counted false xs i c rec = rw (i, rec, ← c) (ground arith)

  -- An item whose blob is shorter than a MAC.
  decrypt_item_short :
      (e : EncryptedItem) (key : Key)
      → length e.blob < p.mac_size
      → decrypt_item e (some key) ≡ panic
  unfolding decrypt_item try_decrypt_encrypted checked_sub
  decrypt_item_short e key h = ground arith

  is_valid_cases :
      (e : EncryptedItem) (key : Option Key)
      → ((b : Bool) × (is_valid e key ≡ ok b)) ⊎ (is_valid e key ≡ panic)
  unfolding is_valid
  is_valid_cases e key = elim (Outcome-cases (decrypt_item e key)) [
    | inl (i, h) ↦ inl (true, rw (h, is_valid))
    | inr (inl (x, h)) ↦ inl (false, rw (h, is_valid))
    | inr (inr h) ↦ inr (rw (h, is_valid))
  ]

  is_valid_short :
      (e : EncryptedItem) (key : Key) → length e.blob < p.mac_size → is_valid e (some key) ≡ panic
  unfolding is_valid
  is_valid_short e key h = rw (decrypt_item_short e key h, is_valid)

  count_items_short :
      (xs ys : List EncryptedItem) (e : EncryptedItem) (key : Key) (v b : ℕ)
      → length e.blob < p.mac_size
      → count_items (xs ++ e ∷ ys) (some key) v b ≡ panic
  unfolding count_items
  count_items_short [] ys e key v b h = rw (is_valid_short e key h)
  count_items_short (x ∷ xs) ys e key v b h = elim (is_valid_cases x (some key)) [
    | inl (c, i) ↦
        rw (i, count_items)
          (count_items_short xs ys e key (if c then suc v else v) (if c then b else suc b) h)
    | inr i ↦ rw (i, count_items)
  ]

  -- A keyring with an item whose blob is shorter than a MAC cannot be opened with a secret: the
  -- program panics, whatever the secret and wherever the item stands, although the loop is there to
  -- count such an item as broken.
  pub unlock_inner_short :
      (l : LockedKeyring) (secret : Secret) (xs ys : List EncryptedItem) (e : EncryptedItem)
      → l.keyring.items ≡ xs ++ e ∷ ys
      → length e.blob < p.mac_size
      → unlock_inner l secret true ≡ panic
  unfolding unlock_inner derive_key Crypto.derive_key
  unlock_inner_short l secret xs ys e items h = rw (items, count_items_short xs ys e _ 0 0 h)

  -- Where the key can be derived and the check of no item panics, a keyring opens with a secret if and
  -- only if at least as many of its items are valid under the derived key as are not. Otherwise the error is that the secret is wrong, if no item is valid, and
  -- else that the keyring is corrupted, with the numbers of valid and of broken items. An opened
  -- keyring has the key, the secret, and all else unchanged.
  pub unlock_inner-checks :
      (l : LockedKeyring) (secret : Secret) (key : Key) (bs : List Bool)
      → derive_key l.keyring secret ≡ ok key
      → checks l.keyring.items (some key) ≡ ok bs
      → unlock_inner l secret true ≡ (
          if leb (n_false bs) (n_true bs)
          then ok (record {
            keyring = l.keyring;
            path = l.path;
            mtime = l.mtime;
            key = some key;
            secret = some secret;
          })
          else if n_true bs == 0
          then err incorrect_secret
          else err (partially_corrupted_keyring (n_true bs) (n_false bs)))
  unfolding unlock_inner
  unlock_inner-checks l secret key bs derived checked =
      rw (derived, count_items-checks l.keyring.items (some key) bs 0 0 checked) (ground arith)

  check_unencrypted-checks :
      (es : List EncryptedItem) (bs : List Bool)
      → checks es none ≡ ok bs
      → check_unencrypted es ≡ (if n_false bs == 0 then ok tt else err incorrect_secret)
  unfolding check_unencrypted collect
  check_unencrypted-checks [] bs h = ground arith
  check_unencrypted-checks (e ∷ es) bs h =
      let first = >>=-ok (is_valid e none) _ h in
      let rest = >>=-ok (checks es none) _ first.2 in
      let ih = check_unencrypted-checks es rest.0 rest.1 in
      rw (first.1, ih, ← ok-injective rest.2) (ground arith)

  -- Where the check of no item panics, a keyring opens without a secret if and only if all its items
  -- can be read without a key, and then has no key and all else unchanged; otherwise the error is that
  -- the secret is wrong.
  pub unlock_unencrypted-checks :
      (l : LockedKeyring) (bs : List Bool)
      → checks l.keyring.items none ≡ ok bs
      → unlock_unencrypted l ≡ (
          if n_false bs == 0
          then ok (record {
            keyring = l.keyring;
            path = l.path;
            mtime = l.mtime;
            key = none;
            secret = none;
          })
          else err incorrect_secret)
  unfolding unlock_unencrypted
  unlock_unencrypted-checks l bs h =
      rw (check_unencrypted-checks l.keyring.items bs h) (ground arith)
