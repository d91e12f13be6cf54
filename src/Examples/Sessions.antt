-- ===== src/Examples/Sessions.antt =====
-- The theorems about open keyrings at concrete inputs.
use oo.Prelude.{
  ℕ, ◌+◌, ◌++◌, true, false, Option, none, some, List, [], ◌∷◌, ◌≡◌, refl, arith, codes, length,
}
use oo.HashMap.{get}
use oo.Outcome.{ok, collect}
use oo.Crypto.{Key}
use oo.Secret.{Secret, text, as_bytes}
use oo.Item.{UnlockedItem, EncryptedItem, decrypt_item}
use oo.Keyring.{Keyring, remaining}
use oo.Keyring
use oo.Unlocked.{UnlockedKeyring, State, derive_key, create_item}
use oo.Unlocked.Bulk.{change_secret, delete_broken_items, broken_items}
use oo.Unlocked.Create.{made, create_item-search_items}
use oo.Unlocked.Rekey.{change_secret-decrypt_item}
use oo.Unlocked.Repair.{valid_items, delete_broken_items-valid_items}
use oo.Unlocked.Cache.Rules.{IsFresh}
use oo.Unlocked.Session.{calls, calls-open_with-IsFresh, derives, writes, creates, changes_secret}
use oo.Locked.{LockedKeyring, open_with, unlock_inner}
use oo.Examples.Toy.{
  toy_primitives, toy_primitives-IsLawful, toy_items, toy_items-RoundTrips, toy_keyrings, toy_os,
  toy_os-IsLawfulOs, toy_os-AlwaysRandom, put_item,
}
use oo.Examples.Items.{item, item-IsItem}
use oo.Examples.Keyrings.{
  keyring_of, plain, torn, ann, secret, derived, plain-decrypt_item, plain-is_valid, torn-is_valid,
}

abbrev pub open_keyring : List EncryptedItem → Option Key → Option Secret → UnlockedKeyring
open_keyring es k s = record {
  keyring = keyring_of es;
  path = none;
  mtime = none;
  key = k;
  secret = s;
}

-- An open keyring without a secret.
abbrev pub clear : List EncryptedItem → State ℕ
clear es = (open_keyring es none none, 9)

pub clear-derive_key : (es : List EncryptedItem) → derive_key (clear es) ≡ (ok none, clear es)
unfolding derive_key
clear-derive_key es = refl

abbrev new_item : UnlockedItem
new_item = made {W = ℕ} (codes "new") ann secret 9

create_item-search_items_example :
    (e : EncryptedItem) × ((create_item
        (codes "new")
        ann
        secret
        true
        (clear (plain ∷ []))).1.0.keyring.items
      ≡ remaining (plain ∷ []) ann none ++ e ∷ [])
    × (decrypt_item e none ≡ ok (new_item))
    × (Keyring.search_items
          (create_item (codes "new") ann secret true (clear (plain ∷ []))).1.0.keyring
          ann
          none
        ≡ ok (new_item ∷ []))
unfolding get
create_item-search_items_example =
    create_item-search_items (codes "new") ann secret (clear (plain ∷ [])) (clear (plain ∷ [])) none
      (put_item (new_item)) toy_os-IsLawfulOs toy_primitives-IsLawful toy_items-RoundTrips
      toy_os-AlwaysRandom (clear-derive_key (plain ∷ [])) ((λ m. plain-is_valid), tt) tt (refl, tt)
      refl

clear-collect : collect (λ (e : EncryptedItem). decrypt_item e none) (plain ∷ []) ≡ ok (item ∷ [])
unfolding collect
clear-collect = rw plain-decrypt_item

change_secret-decrypt_item_example :
    (new : Key) × (Keyring.derive_key (change_secret secret (clear (plain ∷ []))).1.0.keyring secret
      ≡ ok new)
    × ((change_secret secret (clear (plain ∷ []))).1.0.key ≡ some new)
    × ((change_secret secret (clear (plain ∷ []))).1.0.secret ≡ some secret)
    × (collect
          (λ (e : EncryptedItem). decrypt_item e (some new))
          (change_secret secret (clear (plain ∷ []))).1.0.keyring.items
        ≡ ok (item ∷ []))
unfolding as_bytes
change_secret-decrypt_item_example =
    change_secret-decrypt_item (clear (plain ∷ [])) (clear (plain ∷ [])) secret none (item ∷ [])
      toy_os-IsLawfulOs toy_primitives-IsLawful toy_items-RoundTrips toy_os-AlwaysRandom
      (clear-derive_key (plain ∷ [])) clear-collect ((item-IsItem, (put_item item, refl)), tt)
      (omega arith)

-- A keyring with a secret, and items that cannot be read.
abbrev broken : State ℕ
broken = (open_keyring (torn ∷ torn ∷ []) (some derived) (some secret), 9)

broken-derive_key : derive_key broken ≡ (ok (some derived), broken)
unfolding derive_key
broken-derive_key = refl

broken-broken_items : broken_items 0 (torn ∷ torn ∷ []) (some derived) ≡ ok (0 ∷ 1 ∷ [])
unfolding broken_items
broken-broken_items = let unread = torn-is_valid (some derived) refl in ground (arith, unread)

delete_broken_items-valid_items_example :
    ((delete_broken_items broken).1.0.keyring.items ≡ valid_items (torn ∷ torn ∷ []) (some derived))
    × ((n : ℕ)
        → (delete_broken_items broken).0 ≡ ok n
        → n + length (valid_items (torn ∷ torn ∷ []) (some derived)) ≡ 2)
delete_broken_items-valid_items_example =
    delete_broken_items-valid_items broken broken (some derived) (0 ∷ 1 ∷ []) broken-derive_key
      broken-broken_items

abbrev locked : LockedKeyring
locked = record { keyring = keyring_of (torn ∷ []); path = none; mtime = none }

locked-open_with :
    open_with locked (some secret) false ≡ ok (open_keyring (torn ∷ []) none (some secret))
unfolding open_with unlock_inner
locked-open_with = refl

calls-open_with-IsFresh_example : IsFresh (
    calls {W = ℕ}
      (derives
        ∷ changes_secret (text (codes "other"))
        ∷ creates (codes "new") ann secret true
        ∷ writes
        ∷ [])
      (open_keyring (torn ∷ []) none (some secret), 9))
calls-open_with-IsFresh_example =
    calls-open_with-IsFresh locked (some secret) false (open_keyring (torn ∷ []) none (some secret))
      9
      (derives
        ∷ changes_secret (text (codes "other"))
        ∷ creates (codes "new") ann secret true
        ∷ writes
        ∷ [])
      locked-open_with
