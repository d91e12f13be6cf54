-- ===== src/Locked.antt =====
-- client/src/file/locked_keyring.rs: a keyring that is closed, and how it is opened.
pub mod Open
pub mod Unlock
use oo.Prelude.{
  ℕ, zero, suc, ◌+◌, ◌&&◌, not, Bool, true, false, Option, none, some, List, [], ◌∷◌, ltb, ◌==◌,
  if◌then◌else◌, Bytes, Text,
}
use oo.Outcome.{Outcome, ok, err, panic, incorrect_secret, partially_corrupted_keyring, ◌>>=◌, ◌>>◌}
use oo.Exec.{Exec}
use oo.Os.{Os, FilePath}
use oo.Secret.{Secret}
use oo.Crypto.{Primitives, Key}
use oo.Item.{UnlockedItem, EncryptedItem, Codec, is_valid}
use oo.Keyring.{Keyring, derive_key}
use oo.Keyring
use oo.Unlocked.{UnlockedKeyring}

pub record LockedKeyring : Type 0 where
  pub keyring : Keyring
  pub path : Option FilePath
  pub mtime : Option ℕ

-- `UnlockedKeyring::lock` forgets the key and the secret.
unfoldable pub lock : UnlockedKeyring → LockedKeyring
lock u = record { keyring = u.keyring; path = u.path; mtime = u.mtime }

module _ ⦃p : Primitives⦄ ⦃codec : Codec UnlockedItem⦄ where
  -- The loop of `unlock_inner`: the numbers of valid and of broken items.
  unfoldable pub count_items : List EncryptedItem → Option Key → ℕ → ℕ → Outcome (ℕ × ℕ)
  count_items [] key n_valid n_broken = ok (n_valid, n_broken)
  count_items (e ∷ es) key n_valid n_broken = do
    valid ← is_valid e key
    count_items es key (if valid then suc n_valid else n_valid)
        (if valid then n_broken else suc n_broken)

  -- `unlock_inner`; `unlock` validates, and `unlock_unchecked` does not.
  unfoldable pub unlock_inner : LockedKeyring → Secret → Bool → Outcome UnlockedKeyring
  unlock_inner l secret false = ok (record {
    keyring = l.keyring;
    path = l.path;
    mtime = l.mtime;
    key = none;
    secret = some secret;
  })
  unlock_inner l secret true = do
    key ← derive_key l.keyring secret
    (n_valid, n_broken) ← count_items l.keyring.items (some key) 0 0
    if (n_valid == 0) && not (n_broken == 0)
        then err incorrect_secret
        else if ltb n_valid n_broken
        then err (partially_corrupted_keyring n_valid n_broken)
        else ok (record {
          keyring = l.keyring;
          path = l.path;
          mtime = l.mtime;
          key = some key;
          secret = some secret;
        })

  -- The loop of `unlock_unencrypted`.
  unfoldable pub check_unencrypted : List EncryptedItem → Outcome (Unit {0})
  check_unencrypted [] = ok tt
  check_unencrypted (e ∷ es) = do
    valid ← is_valid e none
    if valid then check_unencrypted es else err incorrect_secret

  unfoldable pub unlock_unencrypted : LockedKeyring → Outcome UnlockedKeyring
  unlock_unencrypted l = do
    check_unencrypted l.keyring.items
    ok (record { keyring = l.keyring; path = l.path; mtime = l.mtime; key = none; secret = none })

  -- The match of `UnlockedKeyring::load_inner` on the secret.
  unfoldable pub open_with : LockedKeyring → Option Secret → Bool → Outcome UnlockedKeyring
  open_with l none validate_items = unlock_unencrypted l
  open_with l (some secret) validate_items = unlock_inner l secret validate_items
