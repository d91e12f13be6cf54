-- ===== src/Unlocked/Cache.antt =====
-- The cached key of client/src/file/unlocked_keyring.rs: it is always the one that the secret gives
-- with the salt and the iteration count of the keyring.
pub mod Rules
use oo.Prelude.{
  ℕ, Bool, true, false, Option, none, some, List, [], ◌∷◌, ◌++◌, ◌≡◌, refl, arith, Text,
  if◌then◌else◌, Bytes, Option-cases, inl, inr,
}
use oo.Outcome.{Error, Outcome, ok, err, panic, Outcome-cases}
use oo.Exec.{Exec, pure, modify, zoom, ◌>>=◌, ◌>>◌}
use oo.Exec.Hoare.{Leaves, Leaves-pure, Leaves-bind, Keeps-bind, leaves}
use oo.Os.{Os, FilePath}
use oo.Secret.{Secret}
use oo.Crypto.{Primitives, Key}
use oo.Item.{Map, UnlockedItem, EncryptedItem, Codec}
use oo.Keyring.{Keyring}
use oo.Keyring
use oo.Keyring.Disk.{Disk}
use oo.Keyring.Disk
use oo.Unlocked.{
  UnlockedKeyring, State, on_world, on_disk, on_keyring, push, derive_key, refresh_mtime, write,
  write_to, insert_item, create_item, delete, replace_item_index, delete_item_index, search_items,
  lookup_item, lookup_item_index,
}
use oo.Unlocked.Bulk.{
  ItemDefinition, all_items, insert_items, push_encrypted, create_items, reencrypt, change_secret,
  delete_broken_items,
}
use Rules.{
  IsFresh, Fresh, fresh_rules, Leaves-derive_key, Leaves-write, Leaves-on_world, Leaves-set_items,
}

module _ {W : Type 0} ⦃p : Primitives⦄ ⦃codec : Codec UnlockedItem⦄ ⦃os : Os W⦄ where
  Leaves-insert_item :
      (key : Option Key) (label : Text) (attributes : Map) (secret : Secret) (replace : Bool)
      → Leaves {S = State W} Fresh (insert_item key label attributes secret replace) Fresh
  unfolding insert_item
  Leaves-insert_item key label attributes secret replace = search fresh_rules depth 12

  Leaves-insert_items :
      (key : Option Key) (ds : List ItemDefinition)
      → Leaves {S = State W} Fresh (insert_items key ds) Fresh
  unfolding insert_items
  Leaves-insert_items key [] = Leaves-pure tt
  Leaves-insert_items key (d ∷ ds) =
      Keeps-bind _ _ (Leaves-insert_item key d.label d.attributes d.secret d.replace)
        (λ item. Leaves-insert_items key ds)

  Leaves-push_encrypted :
      (key : Option Key) (items : List UnlockedItem)
      → Leaves {S = State W} Fresh (push_encrypted key items) Fresh
  unfolding push_encrypted
  Leaves-push_encrypted key [] = Leaves-pure tt
  Leaves-push_encrypted key (item ∷ items) = Keeps-bind _ _ (Leaves-on_world _) (λ e.
      Keeps-bind _ _ (Leaves-set_items (λ k. k.items ++ e ∷ []))
        (λ u. Leaves-push_encrypted key items))

module _ {W : Type 0} ⦃p : Primitives⦄ ⦃codec : Codec UnlockedItem⦄ ⦃os : Os W⦄
    ⦃kc : Codec Keyring⦄ where
  ruleset store_rules =
      (fresh_rules, Leaves-write, Leaves-insert_item, Leaves-insert_items, Leaves-push_encrypted)

  pub Leaves-create_item :
      (label : Text) (attributes : Map) (secret : Secret) (replace : Bool)
      → Leaves {S = State W} Fresh (create_item label attributes secret replace) Fresh
  unfolding create_item
  Leaves-create_item label attributes secret replace = search store_rules depth 12

  pub Leaves-delete : (attributes : Map) → Leaves {S = State W} Fresh (delete attributes) Fresh
  unfolding delete
  Leaves-delete attributes = search store_rules depth 12

  pub Leaves-replace_item_index :
      (index : ℕ) (item : UnlockedItem)
      → Leaves {S = State W} Fresh (replace_item_index index item) Fresh
  unfolding replace_item_index
  Leaves-replace_item_index index item = search store_rules depth 12

  pub Leaves-delete_item_index :
      (index : ℕ) → Leaves {S = State W} Fresh (delete_item_index index) Fresh
  unfolding delete_item_index
  Leaves-delete_item_index index = search store_rules depth 12

  pub Leaves-create_items :
      (ds : List ItemDefinition) → Leaves {S = State W} Fresh (create_items ds) Fresh
  unfolding create_items
  Leaves-create_items ds = search store_rules depth 12

  pub Leaves-delete_broken_items : Leaves {S = State W} Fresh delete_broken_items Fresh
  unfolding delete_broken_items
  Leaves-delete_broken_items = search store_rules depth 12

  NoKey : State W → Type 0
  NoKey s = s.0.key ≡ none

  NoKey-Fresh : (s : State W) → NoKey s → Fresh s
  unfolding NoKey
  NoKey-Fresh s h = rw h tt

  Leaves-forget :
      (secret : Secret)
      → Leaves {E = Error} {S = State W} Fresh
          (modify (λ s. (record s.0 { secret = some secret; key = none }, s.1)))
          NoKey
  unfolding NoKey
  Leaves-forget secret = record { at = λ s h. refl }

  Leaves-reset : Leaves {S = State W} NoKey (on_disk Disk.reset) NoKey
  unfolding NoKey
  Leaves-reset = record { at = λ s h. h }

  Leaves-rekey : Leaves {S = State W} NoKey derive_key Fresh
  Leaves-rekey = record { at = λ s h. Leaves-derive_key.at s (NoKey-Fresh s h) }

  -- The old key is gone before the salt changes, and the new one comes after.
  Leaves-reencrypt :
      (secret : Secret) (items : List UnlockedItem)
      → Leaves {S = State W} Fresh (reencrypt secret items) Fresh
  unfolding reencrypt
  Leaves-reencrypt secret items =
      Leaves-bind _ _ (Leaves-forget secret)
        (λ _.
          Leaves-bind _ _ Leaves-reset
            (λ _.
              Leaves-bind _ _ Leaves-rekey
                (λ key. Keeps-bind _ _ (Leaves-push_encrypted key items) (λ u. Leaves-write))
                (λ s h. h))
            NoKey-Fresh)
        NoKey-Fresh

  pub Leaves-change_secret :
      (secret : Secret) → Leaves {S = State W} Fresh (change_secret secret) Fresh
  unfolding change_secret
  Leaves-change_secret secret = search (store_rules, Leaves-reencrypt) depth 12
