-- ===== src/Keyring/Remove.antt =====
-- Removal by attributes (client/src/file/api/mod.rs, `remove_items`).
use oo.Prelude.{
  true, Option, none, List, [], ◌∷◌, ◌≡◌, ◌⊎◌, inl, inr, refl, arith, filter, Bool-cases,
  filter-not-filter, find-filter,
}
use oo.Outcome.{ok, collect, Outcome-cases}
use oo.Crypto.{Primitives, Key}
use oo.Item.{Map, UnlockedItem, EncryptedItem, Codec, matches, is_valid}
use oo.Keyring.{
  Keyring, check_removable, remaining, remove_items, search_items, lookup_item, lookup_item_index,
  position,
}

module _ ⦃p : Primitives⦄ ⦃codec : Codec UnlockedItem⦄ where
  -- All items that match can be decrypted.
  abbrev pub Removable : List EncryptedItem → Map → Option Key → Type 0
  Removable [] attributes key = Unit
  Removable (e ∷ es) attributes key =
      (matches e attributes key ≡ true → is_valid e key ≡ ok true) × Removable es attributes key

  check_removable-Removable :
      (es : List EncryptedItem) (attributes : Map) (key : Option Key)
      → check_removable es attributes key ≡ ok tt
      → Removable es attributes key
  unfolding check_removable
  check_removable-Removable [] attributes key h = tt
  check_removable-Removable (e ∷ es) attributes key h =
      (λ m. ground arith, check_removable-Removable es attributes key (ground arith))

  check_removable_of_Removable :
      (es : List EncryptedItem) (attributes : Map) (key : Option Key)
      → Removable es attributes key
      → check_removable es attributes key ≡ ok tt
  unfolding check_removable
  check_removable_of_Removable [] attributes key h = refl
  check_removable_of_Removable (e ∷ es) attributes key h =
      elim (Bool-cases (matches e attributes key)) [
        | inl m ↦ ground (arith, h.0 m, check_removable_of_Removable es attributes key h.1)
        | inr m ↦ ground (arith, check_removable_of_Removable es attributes key h.1)
      ]

  position-none :
      (es : List EncryptedItem) (attributes : Map) (key : Option Key)
      → filter (λ e. matches e attributes key) es ≡ []
      → position es attributes key ≡ none
  unfolding position filter
  position-none [] attributes key h = refl
  position-none (e ∷ es) attributes key h = ground (arith, position-none es attributes key)

  -- Where every item that matches can be decrypted, the items that match are removed, the others
  -- stay in their order, and no search by these attributes finds anything afterwards.
  pub remove_items-Removable :
      (k : Keyring) (attributes : Map) (key : Option Key)
      → Removable k.items attributes key
      → let k' : Keyring = record k { items = remaining k.items attributes key } in
        (remove_items attributes key k ≡ (ok tt, k'))
        × (search_items k' attributes key ≡ ok [])
        × (lookup_item k' attributes key ≡ ok none)
        × (lookup_item_index k' attributes key ≡ none)
  unfolding remove_items search_items lookup_item lookup_item_index remaining collect
  remove_items-Removable k attributes key h =
      let gone = filter-not-filter (λ (e : EncryptedItem). matches e attributes key) k.items in
      (
        ground (arith, check_removable_of_Removable k.items attributes key h),
        rw gone,
        rw (find-filter (λ (e : EncryptedItem). matches e attributes key) _ gone, lookup_item),
        position-none (remaining k.items attributes key) attributes key gone,
      )

  -- A removal that does not succeed changes nothing, and it succeeds only if every item that matches
  -- can be decrypted.
  pub remove_items_atomic :
      (k : Keyring) (attributes : Map) (key : Option Key)
      → (Removable k.items attributes key × ((remove_items attributes key k).0 ≡ ok tt))
        ⊎ (((remove_items attributes key k).1 ≡ k)
            × (¬ ((remove_items attributes key k).0 ≡ ok tt))
            × (¬ Removable k.items attributes key))
  unfolding remove_items
  remove_items_atomic k attributes key =
      elim (Outcome-cases (check_removable k.items attributes key)) [
        | inl (u, e) ↦ inl (check_removable-Removable k.items attributes key e, ground arith)
        | inr (inl (x, e)) ↦ inr (
          ground arith,
          λ h. ground arith,
          λ r. ground (arith, check_removable_of_Removable k.items attributes key r),
        )
        | inr (inr e) ↦ inr (
          ground arith,
          λ h. ground arith,
          λ r. ground (arith, check_removable_of_Removable k.items attributes key r),
        )
      ]
