-- ===== src/Unlocked/Repair.antt =====
-- The repair of client/src/file/unlocked_keyring.rs, `delete_broken_items`: it removes the items that
-- are not valid, one index after the other from the back.
use oo.Prelude.{
  ℕ, suc, ◌+◌, Bool, true, false, Option, List, [], ◌∷◌, ◌++◌, ◌≡◌, ◌∙◌, sym, subst, refl, ap,
  arith, map, length, erase_idx, filter, foldl, reverse, inl, inr,
}
use mathlib.Core.List.{reverse-cons}
use oo.Outcome.{Outcome, ok, err, panic, Outcome-cases}
use oo.Crypto.{Primitives, Key}
use oo.Item.{UnlockedItem, EncryptedItem, Codec, is_valid}
use oo.Os.{Os}
use oo.Exec.{pure, continue, continue-pure_state, continue-pure_outcome}
use oo.Keyring.{Keyring}
use oo.Unlocked.{State, derive_key, write}
use oo.Unlocked.Writes.{write-SameKeyring}
use oo.Unlocked.Bulk.{broken_items, remove_all, delete_broken_items}

-- Removal from the back, as a recursion on the indices.
erase_back : List ℕ → List EncryptedItem → List EncryptedItem
erase_back [] es = es
erase_back (i ∷ is) es = erase_idx (erase_back is es) i

foldl-snoc :
    (es : List EncryptedItem) (is : List ℕ) (i : ℕ)
    → foldl erase_idx es (is ++ i ∷ []) ≡ erase_idx (foldl erase_idx es is) i
foldl-snoc es [] i = refl
foldl-snoc es (j ∷ is) i = foldl-snoc (erase_idx es j) is i

remove_all-erase_back :
    (is : List ℕ) (es : List EncryptedItem) → remove_all is es ≡ erase_back is es
unfolding remove_all erase_back
remove_all-erase_back [] es = refl
remove_all-erase_back (i ∷ is) es =
    ap (foldl erase_idx es) (reverse-cons i is)
    ∙ foldl-snoc es (reverse is) i
    ∙ ap (λ xs. erase_idx xs i) (remove_all-erase_back is es)

erase_back-shift :
    (e : EncryptedItem) (es : List EncryptedItem) (is : List ℕ)
    → erase_back (map suc is) (e ∷ es) ≡ e ∷ erase_back is es
unfolding erase_back
erase_back-shift e es [] = refl
erase_back-shift e es (i ∷ is) = ap (λ xs. erase_idx xs (suc i)) (erase_back-shift e es is)

abbrev map_ok : (List ℕ → List ℕ) → Outcome (List ℕ) → Outcome (List ℕ)
map_ok f (ok is) = ok (f is)
map_ok f (err x) = err x
map_ok f panic = panic

abbrev is_true : Outcome Bool → Bool
is_true (ok b) = b
is_true (err x) = false
is_true panic = false

length-map : (is : List ℕ) → length (map suc is) ≡ length is
length-map [] = refl
length-map (i ∷ is) = ap suc (length-map is)

module _ ⦃p : Primitives⦄ ⦃codec : Codec UnlockedItem⦄ where
  broken_items-suc :
      (n : ℕ) (es : List EncryptedItem) (key : Option Key)
      → broken_items (suc n) es key ≡ map_ok (map suc) (broken_items n es key)
  unfolding broken_items
  broken_items-suc n [] key = refl
  broken_items-suc n (e ∷ es) key = ground (arith, broken_items-suc (suc n) es key)

  -- The items that are valid, in their order.
  abbrev pub valid_items : List EncryptedItem → Option Key → List EncryptedItem
  valid_items es key = filter (λ e. is_true (is_valid e key)) es

  -- What the indices that were found are good for.
  abbrev Repairs : List EncryptedItem → Option Key → Outcome (List ℕ) → Type 0
  Repairs es key (ok is) =
      (erase_back is es ≡ valid_items es key)
      × (length is + length (valid_items es key) ≡ length es)
  Repairs es key (err x) = Unit
  Repairs es key panic = Unit

  Repairs-valid :
      (e : EncryptedItem) (es : List EncryptedItem) (key : Option Key) (found : Outcome (List ℕ))
      → is_valid e key ≡ ok true
      → Repairs es key found
      → Repairs (e ∷ es) key (map_ok (map suc) found)
  unfolding filter
  Repairs-valid e es key (ok is) v (kept, counted) = (
    rw v (erase_back-shift e es is ∙ ap (◌∷◌ e) kept),
    rw v (omega (arith, counted, length-map is)),
  )
  Repairs-valid e es key (err x) v h = tt
  Repairs-valid e es key panic v h = tt

  Repairs-broken :
      (e : EncryptedItem) (es : List EncryptedItem) (key : Option Key) (found : Outcome (List ℕ))
      → is_valid e key ≡ ok false
      → Repairs es key found
      → Repairs (e ∷ es) key (map_ok (◌∷◌ 0) (map_ok (map suc) found))
  unfolding filter erase_back
  Repairs-broken e es key (ok is) v (kept, counted) =
      (rw (v, erase_back-shift e es is) kept, rw v (omega (arith, counted, length-map is)))
  Repairs-broken e es key (err x) v h = tt
  Repairs-broken e es key panic v h = tt

  broken_items-Repairs :
      (es : List EncryptedItem) (key : Option Key) → Repairs es key (broken_items 0 es key)
  unfolding broken_items filter erase_back
  broken_items-Repairs [] key = (refl, omega arith)
  broken_items-Repairs (e ∷ es) key = elim (Outcome-cases (is_valid e key)) [
    | inl (true, v) ↦
        subst (Repairs (e ∷ es) key) (sym (ground (arith, broken_items-suc 0 es key)))
          (Repairs-valid e es key (broken_items 0 es key) v (broken_items-Repairs es key))
    | inl (false, v) ↦
        subst (Repairs (e ∷ es) key) (sym (ground (arith, broken_items-suc 0 es key)))
          (Repairs-broken e es key (broken_items 0 es key) v (broken_items-Repairs es key))
    | inr (inl (x, v)) ↦ rw (v, broken_items) tt
    | inr (inr v) ↦ rw (v, broken_items) tt
  ]

  found-Repairs :
      (es : List EncryptedItem) (key : Option Key) (is : List ℕ)
      → broken_items 0 es key ≡ ok is
      → Repairs es key (ok is)
  found-Repairs es key is h = subst (Repairs es key) h (broken_items-Repairs es key)

module _ {W : Type 0} ⦃os : Os W⦄ ⦃p : Primitives⦄ ⦃codec : Codec UnlockedItem⦄
    ⦃kc : Codec Keyring⦄ where
  -- The state that is written, and the call as a write with the count behind it.
  repaired : State W → List ℕ → State W
  repaired s is =
      (record s.0 { keyring = record s.0.keyring { items = remove_all is s.0.keyring.items } }, s.1)

  delete_broken_items-write :
      (s s' : State W) (key : Option Key) (is : List ℕ)
      → derive_key s ≡ (ok key, s')
      → broken_items 0 s'.0.keyring.items key ≡ ok is
      → delete_broken_items s
        ≡ continue (write (repaired s' is)).0 (λ _. pure (length is)) (write (repaired s' is)).1
  unfolding delete_broken_items repaired
  delete_broken_items-write s s' key is derived found = rw (derived, delete_broken_items, found)

  -- Once the key is at hand, and unless the check of an item panics, the repair leaves the items that
  -- are valid, in their order, whether the write then succeeds or fails; and if it succeeds, it
  -- gives the number of the items that are gone.
  pub delete_broken_items-valid_items :
      (s s' : State W) (key : Option Key) (is : List ℕ)
      → derive_key s ≡ (ok key, s')
      → broken_items 0 s'.0.keyring.items key ≡ ok is
      → ((delete_broken_items s).1.0.keyring.items ≡ valid_items s'.0.keyring.items key)
        × ((n : ℕ)
            → (delete_broken_items s).0 ≡ ok n
            → n + length (valid_items s'.0.keyring.items key) ≡ length s'.0.keyring.items)
  unfolding repaired
  delete_broken_items-valid_items s s' key is derived found =
      let w = write (repaired s' is) in
      let (kept, counted) = found-Repairs s'.0.keyring.items key is found in
      let state : (delete_broken_items s).1.0.keyring.items ≡ w.1.0.keyring.items =
        ap (λ (t : Outcome ℕ × State W). t.1.0.keyring.items)
          (delete_broken_items-write s s' key is derived found)
        ∙ ap (λ (t : State W). t.0.keyring.items) (continue-pure_state w.0 (length is) w.1) in
      (
        state
            ∙ (write-SameKeyring (repaired s' is)).contents.items
            ∙ remove_all-erase_back is s'.0.keyring.items
            ∙ kept,
        λ n h.
            rw
              (continue-pure_outcome w.0 (length is) n w.1
                (rw (delete_broken_items-write s s' key is derived found) at h))
              counted,
      )
