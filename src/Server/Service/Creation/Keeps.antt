-- ===== src/Server/Service/Creation/Keeps.antt =====
-- server/src/service/mod.rs: what the creation of a collection leaves alone.
use oo.Prelude.{
  ℕ, zero, suc, false, Option, none, ◌++◌, length, Text, ◌≡◌, refl, sym, ap, ◌⊎◌, inl, inr, subst,
  Bool-cases, Option-cases, if◌then◌else◌,
}
use oo.HashMap.{insert, contains_key}
use oo.Outcome.{ok, Outcome-cases, ok-injective, >>=-ok}
use oo.Exec.{continue-pure_state}
use oo.Os.{Os, WholeFiles}
use oo.Secret.{Secret}
use oo.Crypto.{Primitives}
use oo.Item.{UnlockedItem, Codec}
use oo.Keyring.{Keyring}
use oo.Legacy.{ReadBytes}
use oo.File.{FileKeyring, unlocked_keyring, file_path}
use oo.Server.{ObjectPath, Bus, collection_created, collections_changed}
use oo.Server.Collection.{Collection, new}
use oo.Server.Service.{Service, Collections}
use oo.Server.Service.Naming.{
  Lowercase, expected_path, counter_text, next_counter, unique_from, make_unique_label_and_alias,
}
use oo.Server.Service.Creation.{
  new_collection, new_keyring, put_collection, add_collection, create_collection_with_secret,
}

module _ ⦃lowercase : Lowercase⦄ where
  -- The label's path is free.
  IsFresh : Collections → Text → Type 0
  IsFresh collections l =
      (path : ObjectPath) × (expected_path l ≡ ok path) × (contains_key path collections ≡ false)

  unique_from-IsFresh :
      (fuel counter : ℕ) (collections : Collections) (label alias l a : Text)
      → unique_from fuel collections label alias counter ≡ ok (l, a)
      → IsFresh collections l
  unfolding unique_from IsFresh
  unique_from-IsFresh zero counter collections label alias l a h = absurd (cc)
  unique_from-IsFresh (suc fuel) counter collections label alias l a h =
      let rest = unique_from fuel collections label alias (next_counter counter) in
      let chosen : Text × Text = (label ++ counter_text counter, alias ++ counter_text counter) in
      let (path, named, done) =
        >>=-ok (expected_path (label ++ counter_text counter))
          (λ (path : ObjectPath). if contains_key path collections then rest else ok chosen) h in
      elim (Bool-cases (contains_key path collections)) [
        | inl taken ↦
            unique_from-IsFresh fuel (next_counter counter) collections label alias l a
              (rw taken at done)
        | inr free ↦
            let same : chosen ≡ (l, a) = ok-injective (rw free at done) in
            (path, subst (λ (c : Text × Text). expected_path c.0 ≡ ok path) same named, free)
      ]

  make_unique-IsFresh :
      (collections : Collections) (label alias l a : Text)
      → make_unique_label_and_alias collections label alias ≡ ok (l, a)
      → IsFresh collections l
  unfolding make_unique_label_and_alias IsFresh
  make_unique-IsFresh collections label alias l a h =
      let own : Text × Text = (label, alias) in
      let (path, named, done) =
        >>=-ok (expected_path label)
          (λ (path : ObjectPath).
            if contains_key path collections
            then unique_from (suc (length collections)) collections label alias 2
            else ok own)
          h in
      elim (Bool-cases (contains_key path collections)) [
        | inl taken ↦
            unique_from-IsFresh (suc (length collections)) 2 collections label alias l a
              (rw taken at done)
        | inr free ↦
            let same : own ≡ (l, a) = ok-injective (rw free at done) in
            (path, subst (λ (c : Text × Text). expected_path c.0 ≡ ok path) same named, free)
      ]

-- The table is as it was, or has one more collection, at its own path, which was free.
abbrev pub Grows : Collections → Collections → Type 0
Grows before after =
    (after ≡ before)
    ⊎ ((c : Collection) × (contains_key c.path before ≡ false) × (after ≡ insert c.path c before))

module _ {W : Type 0} ⦃bus : Bus W⦄ where
  put_collection-Grows :
      (c : Collection) (x : Service) (w : W)
      → contains_key c.path x.collections ≡ false
      → Grows x.collections (put_collection c (x, w)).1.0.collections
  unfolding put_collection
  put_collection-Grows c x w free =
      let served = bus.serve c.path w in
      let created = bus.emit (collection_created c.path) served.1 in
      let signalled = bus.emit collections_changed created.1 in
      let after = record x { collections = insert c.path c x.collections } in
      elim (Outcome-cases served.0) [
        | inr (inl (e, failed)) ↦ inl (rw failed refl)
        | inr (inr failed) ↦ inl (rw failed refl)
        | inl (t, done) ↦ inr (
          c,
          free,
          elim (Outcome-cases created.0) [
            | inr (inl (e, failed)) ↦ rw (done, failed) refl
            | inr (inr failed) ↦ rw (done, failed) refl
            | inl (u, sent) ↦
                rw (done, sent)
                  (ap (λ (s : Service × W). s.0.collections)
                    (continue-pure_state signalled.0 c.path (after, signalled.1)))
          ],
        )
      ]

module _ {W : Type 0} ⦃whole : WholeFiles W⦄ ⦃lowercase : Lowercase⦄ where
  new_collection_path :
      (name label alias : Text) (keyring : FileKeyring) (path : ObjectPath) (w : W)
      → expected_path label ≡ ok path
      → (c : Collection) × (v : W) × (new_collection name label alias keyring w ≡ (ok c, v))
        × (c.path ≡ path)
  unfolding new_collection new
  new_collection_path name label alias keyring path w h = elim (Option-cases (file_path keyring)) [
    | inl e ↦ (new name label alias path none keyring, w, rw (h, e) refl, refl)
    | inr (file, e) ↦ (
      new name label alias path (whole.created file w).0 keyring,
      (whole.created file w).1,
      rw (h, e) refl,
      refl,
    )
  ]

module _ {W : Type 0} ⦃os : Os W⦄ ⦃whole : WholeFiles W⦄ ⦃p : Primitives⦄
    ⦃codec : Codec UnlockedItem⦄ ⦃kc : Codec Keyring⦄ ⦃r : ReadBytes⦄ ⦃lowercase : Lowercase⦄
    ⦃bus : Bus W⦄ where
  added :
      (name label alias l a : Text) (keyring : FileKeyring) (x : Service) (w : W) (c : Collection)
      (v : W)
      → make_unique_label_and_alias x.collections label alias ≡ ok (l, a)
      → new_collection name l a keyring w ≡ (ok c, v)
      → (add_collection name label alias keyring (x, w)).1 ≡ (put_collection c (x, v)).1
  unfolding add_collection
  added name label alias l a keyring x w c v chosen made = rw (chosen, made) refl

  add_collection-Grows :
      (name label alias : Text) (keyring : FileKeyring) (x : Service) (w : W)
      → Grows x.collections (add_collection name label alias keyring (x, w)).1.0.collections
  unfolding add_collection IsFresh
  add_collection-Grows name label alias keyring x w =
      elim (Outcome-cases (make_unique_label_and_alias x.collections label alias)) [
        | inr (inl (e, failed)) ↦ inl (rw failed refl)
        | inr (inr failed) ↦ inl (rw failed refl)
        | inl ((l, a), chosen) ↦
            let (path, named, free) = make_unique-IsFresh x.collections label alias l a chosen in
            let (c, v, made, own) = new_collection_path name l a keyring path w named in
            subst (λ (s : Service × W). Grows x.collections s.0.collections)
              (sym (added name label alias l a keyring x w c v chosen made))
              (put_collection-Grows c x v (rw own free))
      ]

  -- Whatever the creation of a collection comes to, with whatever label, alias and secret: no
  -- collection of the service is replaced or lost. The table is as it was, or has one more, at a path
  -- that was free.
  pub create_collection_with_secret-Grows :
      (label alias : Text) (secret : Option Secret) (x : Service) (w : W)
      → Grows x.collections
          (create_collection_with_secret label alias secret (x, w)).1.0.collections
  unfolding create_collection_with_secret
  create_collection_with_secret-Grows label alias secret x w =
      let name = lowercase.to_lowercase label in
      let made = new_keyring x.data_dir name secret w in
      elim (Outcome-cases made.0) [
        | inl (u, e) ↦ rw e (add_collection-Grows name label alias (unlocked_keyring u) x made.1)
        | inr (inl (x, e)) ↦ inl (rw e refl)
        | inr (inr e) ↦ inl (rw e refl)
      ]
