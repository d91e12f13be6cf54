-- ===== src/Unlocked/Cache/Rules.antt =====
-- The cached key of client/src/file/unlocked_keyring.rs: the parts of the methods keep it in step with
-- the secret, the salt and the iteration count.
use oo.Prelude.{ℕ, Option, none, some, List, ◌≡◌, refl, arith, inl, inr}
use oo.Outcome.{Error, Outcome, ok, Outcome-cases}
use oo.Exec.{Exec, modify}
use oo.Exec.Hoare.{Leaves, Leaves-pure, Leaves-bind, Keeps-bind, leaves}
use oo.Os.{Os, FilePath}
use oo.Secret.{Secret}
use oo.Crypto.{Primitives, Key}
use oo.Item.{Map, UnlockedItem, EncryptedItem, Codec}
use oo.Keyring.{Keyring}
use oo.Keyring
use oo.Keyring.Disk.{Disk}
use oo.Keyring.Disk
use oo.Unlocked.{State, on_world, on_disk, on_keyring, derive_key, refresh_mtime, write, write_to}

-- The key, if there is one, belongs to the secret, the salt and the iteration count.
abbrev pub KeyFits : ⦃p : Primitives⦄ → Option Key → Option Secret → Keyring → Type 0
KeyFits none secret k = Unit
KeyFits (some key) none k = ⊥
KeyFits (some key) (some secret) k = Keyring.derive_key k secret ≡ ok key

abbrev pub IsFresh : ⦃p : Primitives⦄ → {W : Type 0} → State W → Type 0
IsFresh s = KeyFits s.0.key s.0.secret s.0.keyring

-- What a derivation reads of the keyring is the same.
abbrev pub SameParameters : Keyring → Keyring → Type 0
SameParameters k k' = (k.salt ≡ k'.salt) × (k.iteration_count ≡ k'.iteration_count)

KeyFits-same :
    ⦃p : Primitives⦄ (key : Option Key) (secret : Option Secret) (k k' : Keyring)
    → SameParameters k k'
    → KeyFits key secret k
    → KeyFits key secret k'
unfolding Keyring.derive_key Keyring.key_strength
KeyFits-same none secret k k' same h = tt
KeyFits-same (some key) none k k' same h = h
KeyFits-same (some key) (some secret) k k' same h = rw (same.0, same.1) at h

-- Methods of the keyring alone that keep the parameters.
pub record KeepsParameters {A : Type 0} (m : Exec Keyring A) : Type 0 where
  pub at : (k : Keyring) → SameParameters k (m k).1

module _ {W : Type 0} (k₀ : Keyring) where
  abbrev pub Same₀ : Disk W → Type 0
  Same₀ d = SameParameters k₀ d.0

  Leaves-disk_world : {A : Type 0} (m : Exec W A) → Leaves Same₀ (Disk.on_world m) Same₀
  Leaves-disk_world m = record { at = λ s h. h }

  Leaves-touch : (now : ℕ) → Leaves Same₀ (Disk.on_keyring (modify (Disk.touch now))) Same₀
  unfolding Disk.touch
  Leaves-touch now = record { at = λ s h. h }

  Leaves-as_bytes_of :
      ⦃kc : Codec Keyring⦄ → Leaves Same₀ (Disk.on_keyring (λ k. (Keyring.as_bytes_of k, k))) Same₀
  Leaves-as_bytes_of = record { at = λ s h. h }

  ruleset disk_rules = (leaves, Leaves-disk_world, Leaves-touch, Leaves-as_bytes_of)

  Leaves-dump :
      ⦃os : Os W⦄ ⦃kc : Codec Keyring⦄ (path : FilePath) (mtime : Option ℕ)
      → Leaves Same₀ (Disk.dump path mtime) Same₀
  unfolding Disk.dump
  Leaves-dump path mtime = search disk_rules depth 20

module _ {W : Type 0} ⦃p : Primitives⦄ where
  abbrev pub Fresh : State W → Type 0
  Fresh = IsFresh

  pub Leaves-on_world : {A : Type 0} (m : Exec W A) → Leaves Fresh (on_world m) Fresh
  Leaves-on_world m = record { at = λ s h. h }

  pub Leaves-on_keyring :
      {A : Type 0} (m : Exec Keyring A) → KeepsParameters m → Leaves Fresh (on_keyring m) Fresh
  Leaves-on_keyring m keeps = record {
    at = λ s h.
        KeyFits-same s.0.key s.0.secret s.0.keyring (m s.0.keyring).1 (keeps.at s.0.keyring) h;
  }

  -- A new list of items does not concern the key.
  pub Leaves-set_items :
      (f : Keyring → List EncryptedItem)
      → Leaves Fresh (on_keyring (modify (λ k. record k { items = f k }))) Fresh
  Leaves-set_items f = Leaves-on_keyring _ (record { at = λ k. (refl, refl) })

  pub Leaves-read_keyring :
      {A : Type 0} (f : Keyring → Outcome A) → Leaves Fresh (on_keyring (λ k. (f k, k))) Fresh
  Leaves-read_keyring f = Leaves-on_keyring _ (record { at = λ k. (refl, refl) })

  derive_key-Fresh :
      (k : Keyring) (path : Option FilePath) (mtime : Option ℕ) (key : Option Key)
      (secret : Option Secret) (w : W)
      → KeyFits key secret k
      → Fresh
          (derive_key
            (record { keyring = k; path = path; mtime = mtime; key = key; secret = secret }, w)).1
  unfolding derive_key
  derive_key-Fresh k path mtime key none w h = h
  derive_key-Fresh k path mtime (some key) (some secret) w h = h
  derive_key-Fresh k path mtime none (some secret) w h =
      elim (Outcome-cases (Keyring.derive_key k secret)) [
        | inl (key, e) ↦ rw (e, derive_key) e
        | inr (inl (x, e)) ↦ rw (e, derive_key) tt
        | inr (inr e) ↦ rw (e, derive_key) tt
      ]

  pub Leaves-derive_key : Leaves Fresh derive_key Fresh
  Leaves-derive_key = record {
    at = λ s h. derive_key-Fresh s.0.keyring s.0.path s.0.mtime s.0.key s.0.secret s.1 h;
  }

  pub Leaves-remove_items :
      ⦃codec : Codec UnlockedItem⦄ (attributes : Map) (key : Option Key)
      → Leaves Fresh (on_keyring (Keyring.remove_items attributes key)) Fresh
  unfolding Keyring.remove_items
  Leaves-remove_items attributes key =
      Leaves-on_keyring _ (record { at = λ k. (ground arith, ground arith) })

  pub Leaves-dumped :
      ⦃os : Os W⦄ ⦃kc : Codec Keyring⦄ (path : FilePath) (mtime : Option ℕ)
      → Leaves Fresh (on_disk (Disk.dump path mtime)) Fresh
  Leaves-dumped path mtime = record {
    at = λ s h.
        KeyFits-same s.0.key s.0.secret s.0.keyring _
          ((Leaves-dump s.0.keyring path mtime).at (s.0.keyring, s.1) (refl, refl)) h;
  }

  set_mtime-Fresh :
      (m : Option ℕ) (s : State W)
      → Fresh s
      → Fresh (elim m [ none ↦ s | some t ↦ (record s.0 { mtime = some t }, s.1) ])
  set_mtime-Fresh none s h = h
  set_mtime-Fresh (some t) s h = h

  pub Leaves-set_mtime :
      (m : Option ℕ)
      → Leaves {E = Error} Fresh
          (modify (λ s. elim m [ none ↦ s | some t ↦ (record s.0 { mtime = some t }, s.1) ]))
          Fresh
  Leaves-set_mtime m = record { at = set_mtime-Fresh m }

  pub ruleset fresh_rules = (
    leaves, Leaves-on_world, Leaves-set_items, Leaves-read_keyring, Leaves-derive_key,
    Leaves-remove_items, Leaves-dumped, Leaves-set_mtime,
  )

  Leaves-refresh :
      ⦃os : Os W⦄ ⦃kc : Codec Keyring⦄ (path : FilePath) → Leaves Fresh (refresh_mtime path) Fresh
  unfolding refresh_mtime
  Leaves-refresh path = search fresh_rules depth 10

  Leaves-write_to :
      ⦃os : Os W⦄ ⦃kc : Codec Keyring⦄ (path : Option FilePath) (mtime : Option ℕ)
      → Leaves Fresh (write_to path mtime) Fresh
  unfolding write_to
  Leaves-write_to none mtime = Leaves-pure tt
  Leaves-write_to (some path) mtime = search (fresh_rules, Leaves-refresh) depth 10

  pub Leaves-write : ⦃os : Os W⦄ ⦃kc : Codec Keyring⦄ → Leaves Fresh write Fresh
  unfolding write
  Leaves-write = record { at = λ s h. (Leaves-write_to s.0.path s.0.mtime).at s h }
