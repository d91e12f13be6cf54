-- ===== src/Unlocked/Writes.antt =====
-- A write to the file (client/src/file/unlocked_keyring.rs, `write`) changes of the keyring in memory
-- only its modification time and its usage count, whether it succeeds or fails.
use oo.Prelude.{ℕ, Option, none, some, ◌≡◌, refl, ◌∙◌}
use oo.Outcome.{Error}
use oo.Exec.{Exec, modify}
use oo.Exec.Hoare.{Leaves, Leaves-pure, leaves}
use oo.Os.{Os, FilePath}
use oo.Item.{Codec}
use oo.Keyring.{Keyring}
use oo.Keyring
use oo.Keyring.Disk.{Disk}
use oo.Keyring.Disk
use oo.Unlocked.{UnlockedKeyring, State, on_world, on_disk, refresh_mtime, write, write_to}

-- All of the keyring but the time and the count.
pub record SameContents (k k' : Keyring) : Type 0 where
  pub salt_size : k'.salt_size ≡ k.salt_size
  pub salt : k'.salt ≡ k.salt
  pub iteration_count : k'.iteration_count ≡ k.iteration_count
  pub items : k'.items ≡ k.items

pub record SameKeyring (u u' : UnlockedKeyring) : Type 0 where
  pub contents : SameContents u.keyring u'.keyring
  pub path : u'.path ≡ u.path
  pub key : u'.key ≡ u.key
  pub secret : u'.secret ≡ u.secret

abbrev SameContents-refl : (k : Keyring) → SameContents k k
SameContents-refl k = record { salt_size = refl; salt = refl; iteration_count = refl; items = refl }

module _ {W : Type 0} (k₀ : Keyring) where
  abbrev Same₀ : Disk W → Type 0
  Same₀ d = SameContents k₀ d.0

  Leaves-disk_world : {A : Type 0} (m : Exec W A) → Leaves Same₀ (Disk.on_world m) Same₀
  Leaves-disk_world m = record { at = λ s h. h }

  Leaves-touch : (now : ℕ) → Leaves Same₀ (Disk.on_keyring (modify (Disk.touch now))) Same₀
  unfolding Disk.touch
  Leaves-touch now = record {
    at = λ s h. record {
      salt_size = h.salt_size;
      salt = h.salt;
      iteration_count = h.iteration_count;
      items = h.items;
    };
  }

  Leaves-as_bytes_of :
      ⦃kc : Codec Keyring⦄ → Leaves Same₀ (Disk.on_keyring (λ k. (Keyring.as_bytes_of k, k))) Same₀
  Leaves-as_bytes_of = record { at = λ s h. h }

  ruleset disk_rules = (leaves, Leaves-disk_world, Leaves-touch, Leaves-as_bytes_of)

  Leaves-dump :
      ⦃os : Os W⦄ ⦃kc : Codec Keyring⦄ (path : FilePath) (mtime : Option ℕ)
      → Leaves Same₀ (Disk.dump path mtime) Same₀
  unfolding Disk.dump
  Leaves-dump path mtime = search disk_rules depth 20

trans : {k k' k'' : Keyring} → SameContents k k' → SameContents k' k'' → SameContents k k''
trans a b = record {
  salt_size = b.salt_size ∙ a.salt_size;
  salt = b.salt ∙ a.salt;
  iteration_count = b.iteration_count ∙ a.iteration_count;
  items = b.items ∙ a.items;
}

module _ {W : Type 0} (u₀ : UnlockedKeyring) where
  abbrev Same : State W → Type 0
  Same s = SameKeyring u₀ s.0

  Leaves-on_world : {A : Type 0} (m : Exec W A) → Leaves Same (on_world m) Same
  Leaves-on_world m = record { at = λ s h. h }

  Leaves-dumped :
      ⦃os : Os W⦄ ⦃kc : Codec Keyring⦄ (path : FilePath) (mtime : Option ℕ)
      → Leaves Same (on_disk (Disk.dump path mtime)) Same
  Leaves-dumped path mtime = record {
    at = λ s h. record {
      contents = trans h.contents (
          (Leaves-dump s.0.keyring path mtime).at (s.0.keyring, s.1)
            (SameContents-refl s.0.keyring));
      path = h.path;
      key = h.key;
      secret = h.secret;
    };
  }

  set_mtime-Same :
      (m : Option ℕ) (s : State W)
      → Same s
      → Same (elim m [ none ↦ s | some t ↦ (record s.0 { mtime = some t }, s.1) ])
  set_mtime-Same none s h = h
  set_mtime-Same (some t) s h = record {
    contents = h.contents;
    path = h.path;
    key = h.key;
    secret = h.secret;
  }

  Leaves-set_mtime :
      (m : Option ℕ)
      → Leaves {E = Error} Same
          (modify (λ s. elim m [ none ↦ s | some t ↦ (record s.0 { mtime = some t }, s.1) ]))
          Same
  Leaves-set_mtime m = record { at = set_mtime-Same m }

  ruleset write_rules = (leaves, Leaves-on_world, Leaves-dumped, Leaves-set_mtime)

  Leaves-refresh :
      ⦃os : Os W⦄ ⦃kc : Codec Keyring⦄ (path : FilePath) → Leaves Same (refresh_mtime path) Same
  unfolding refresh_mtime
  Leaves-refresh path = search write_rules depth 10

  Leaves-write_to :
      ⦃os : Os W⦄ ⦃kc : Codec Keyring⦄ (path : Option FilePath) (mtime : Option ℕ)
      → Leaves Same (write_to path mtime) Same
  unfolding write_to
  Leaves-write_to none mtime = Leaves-pure tt
  Leaves-write_to (some path) mtime = search (write_rules, Leaves-refresh) depth 10

-- Whether a write succeeds, fails or panics, the items, the salt, the iteration count, the path, the
-- key and the secret in memory are as before.
pub write-SameKeyring :
    {W : Type 0} ⦃os : Os W⦄ ⦃kc : Codec Keyring⦄ (s : State W) → SameKeyring s.0 (write s).1.0
unfolding write
write-SameKeyring s =
    (Leaves-write_to s.0 s.0.path s.0.mtime).at s
      (record { contents = SameContents-refl s.0.keyring; path = refl; key = refl; secret = refl })
