-- ===== src/Unlocked/Session.antt =====
-- A session with an open keyring: any sequence of calls of client/src/file/unlocked_keyring.rs after
-- it was opened by client/src/file/locked_keyring.rs, whatever each call gives back.
use oo.Prelude.{
  ℕ, Bool, true, false, Option, none, some, List, [], ◌∷◌, ◌≡◌, sym, subst, arith, Text,
}
use oo.Outcome.{ok, >>=-ok, ok-injective}
use oo.Os.{Os}
use oo.Secret.{Secret}
use oo.Crypto.{Primitives, Key}
use oo.Item.{Map, UnlockedItem, Codec}
use oo.Keyring.{Keyring}
use oo.Keyring
use oo.Unlocked.{
  UnlockedKeyring, State, write, derive_key, create_item, delete, replace_item_index,
  delete_item_index,
}
use oo.Unlocked.Bulk.{ItemDefinition, create_items, change_secret, delete_broken_items}
use oo.Unlocked.Cache.Rules.{KeyFits, IsFresh, Leaves-write, Leaves-derive_key}
use oo.Unlocked.Cache.{
  Leaves-create_item, Leaves-delete, Leaves-replace_item_index, Leaves-delete_item_index,
  Leaves-create_items, Leaves-change_secret, Leaves-delete_broken_items,
}
use oo.Locked.{
  LockedKeyring, count_items, unlock_inner, unlock_unencrypted, check_unencrypted, open_with,
}

pub data Call : Type 0 where
  derives writes deletes_broken : Call
  creates : Text → Map → Secret → Bool → Call
  creates_many : List ItemDefinition → Call
  deletes : Map → Call
  replaces_at : ℕ → UnlockedItem → Call
  deletes_at : ℕ → Call
  changes_secret : Secret → Call

module _ {W : Type 0} ⦃p : Primitives⦄ ⦃codec : Codec UnlockedItem⦄ ⦃os : Os W⦄
    ⦃kc : Codec Keyring⦄ where
  unfoldable pub call : Call → State W → State W
  call derives s = (derive_key s).1
  call writes s = (write s).1
  call deletes_broken s = (delete_broken_items s).1
  call (creates label attributes secret replace) s =
      (create_item label attributes secret replace s).1
  call (creates_many ds) s = (create_items ds s).1
  call (deletes attributes) s = (delete attributes s).1
  call (replaces_at index item) s = (replace_item_index index item s).1
  call (deletes_at index) s = (delete_item_index index s).1
  call (changes_secret secret) s = (change_secret secret s).1

  unfoldable pub calls : List Call → State W → State W
  calls [] s = s
  calls (c ∷ cs) s = calls cs (call c s)

  call-IsFresh : (c : Call) (s : State W) → IsFresh s → IsFresh (call c s)
  unfolding call
  call-IsFresh derives s h = Leaves-derive_key.at s h
  call-IsFresh writes s h = Leaves-write.at s h
  call-IsFresh deletes_broken s h = Leaves-delete_broken_items.at s h
  call-IsFresh (creates label attributes secret replace) s h =
      (Leaves-create_item label attributes secret replace).at s h
  call-IsFresh (creates_many ds) s h = (Leaves-create_items ds).at s h
  call-IsFresh (deletes attributes) s h = (Leaves-delete attributes).at s h
  call-IsFresh (replaces_at index item) s h = (Leaves-replace_item_index index item).at s h
  call-IsFresh (deletes_at index) s h = (Leaves-delete_item_index index).at s h
  call-IsFresh (changes_secret secret) s h = (Leaves-change_secret secret).at s h

  calls-IsFresh : (cs : List Call) (s : State W) → IsFresh s → IsFresh (calls cs s)
  unfolding calls
  calls-IsFresh [] s h = h
  calls-IsFresh (c ∷ cs) s h = calls-IsFresh cs (call c s) (call-IsFresh c s h)

module _ ⦃p : Primitives⦄ ⦃codec : Codec UnlockedItem⦄ where
  pub unlock_inner-parts :
      (l : LockedKeyring) (secret : Secret) (u : UnlockedKeyring)
      → unlock_inner l secret true ≡ ok u
      → (key : Key) × (Keyring.derive_key l.keyring secret ≡ ok key)
        × (u ≡ record {
          keyring = l.keyring;
          path = l.path;
          mtime = l.mtime;
          key = some key;
          secret = some secret;
        })
  unfolding unlock_inner
  unlock_inner-parts l secret u h =
      let derived = >>=-ok (Keyring.derive_key l.keyring secret) _ h in
      let counted = >>=-ok (count_items l.keyring.items (some derived.0) 0 0) _ derived.2 in
      (derived.0, derived.1, ground arith)

  KeyFits-unlock_inner :
      (l : LockedKeyring) (secret : Secret) (validate_items : Bool) (u : UnlockedKeyring)
      → unlock_inner l secret validate_items ≡ ok u
      → KeyFits u.key u.secret u.keyring
  unfolding unlock_inner
  KeyFits-unlock_inner l secret false u h =
      subst (λ v. KeyFits v.key v.secret v.keyring) (ok-injective h) tt
  KeyFits-unlock_inner l secret true u h =
      let (key, derived, e) = unlock_inner-parts l secret u h in
      subst (λ v. KeyFits v.key v.secret v.keyring) (sym e) derived

  KeyFits-open_with :
      (l : LockedKeyring) (secret : Option Secret) (validate_items : Bool) (u : UnlockedKeyring)
      → open_with l secret validate_items ≡ ok u
      → KeyFits u.key u.secret u.keyring
  unfolding open_with unlock_unencrypted
  KeyFits-open_with l none validate_items u h =
      let checked = >>=-ok (check_unencrypted l.keyring.items) _ h in
      subst (λ v. KeyFits v.key v.secret v.keyring) (ok-injective checked.2) tt
  KeyFits-open_with l (some secret) validate_items u h =
      KeyFits-unlock_inner l secret validate_items u h

module _ {W : Type 0} ⦃p : Primitives⦄ ⦃codec : Codec UnlockedItem⦄ ⦃os : Os W⦄
    ⦃kc : Codec Keyring⦄ where
  -- After a keyring is opened, with a secret or without and validated or not, and after any sequence
  -- of calls, whether these succeed or fail, a cached key is the key that the current secret gives
  -- with the current salt and iteration count of the keyring, and without a secret no key is cached.
  pub calls-open_with-IsFresh :
      (l : LockedKeyring) (secret : Option Secret) (validate_items : Bool) (u : UnlockedKeyring)
      (w : W) (cs : List Call)
      → open_with l secret validate_items ≡ ok u
      → IsFresh (calls cs (u, w))
  calls-open_with-IsFresh l secret validate_items u w cs h =
      calls-IsFresh cs (u, w) (KeyFits-open_with l secret validate_items u h)
