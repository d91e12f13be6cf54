-- ===== src/HashMap.antt =====
-- `std::collections::HashMap<String, V>` as the client uses it: an association list with one entry
-- for each key. The order of the list stands for the iteration order, which the source leaves open.
use oo.Prelude.{
  Bool, true, false, Option, none, some, List, [], ◌∷◌, ◌≡◌, refl, arith, Text, Bool-cases, inl,
  inr, bytes_eq, bytes_eq_iff, bytes_eq_refl, bytes_eq→eq, sym, ◌∙◌, ◌⊎◌, if◌then◌else◌, is_some,
  length, ◌≤◌, ◌<◌,
}

pub some_injective {ℓ} : {V : Type ℓ} {v w : V} → some v ≡ some w → v ≡ w
some_injective h = cc

module _ {ℓ} {V : Type ℓ} where
  unfoldable pub get : Text → List (Text × V) → Option V
  get k [] = none
  get k ((j, v) ∷ m) = if bytes_eq j k then some v else get k m

  unfoldable pub contains_key : Text → List (Text × V) → Bool
  contains_key k m = is_some (get k m)

  unfoldable pub insert : Text → V → List (Text × V) → List (Text × V)
  insert k v [] = (k, v) ∷ []
  insert k v ((j, w) ∷ m) = if bytes_eq j k then (k, v) ∷ m else (j, w) ∷ insert k v m

  unfoldable pub remove : Text → List (Text × V) → List (Text × V)
  remove k [] = []
  remove k ((j, v) ∷ m) = let rest = remove k m in if bytes_eq j k then rest else (j, v) ∷ rest

  unfoldable pub keys : List (Text × V) → List Text
  keys [] = []
  keys ((k, v) ∷ m) = k ∷ keys m

  pub get-insert :
      (k j : Text) (v : V) (m : List (Text × V))
      → get j (insert k v m) ≡ (if bytes_eq k j then some v else get j m)
  unfolding get insert
  get-insert k j v [] = refl
  get-insert k j v ((i, w) ∷ m) =
      ground (arith, bytes_eq_iff k j, bytes_eq_iff i k, bytes_eq_iff i j, get-insert k j v m)

  pub contains_key-insert :
      (k : Text) (v : V) (m : List (Text × V)) → contains_key k (insert k v m) ≡ true
  unfolding contains_key
  contains_key-insert k v m = ground (arith, get-insert k k v m, bytes_eq_refl k)

  -- What is found after an insertion is what was put there, or was there before.
  pub get-insert-some :
      (k j : Text) (v w : V) (m : List (Text × V))
      → get j (insert k v m) ≡ some w
      → ((k ≡ j) × (v ≡ w)) ⊎ (get j m ≡ some w)
  get-insert-some k j v w m h = elim (Bool-cases (bytes_eq k j)) [
    | inl e ↦ inl (bytes_eq→eq k j e, some_injective ((rw e at (sym (get-insert k j v m))) ∙ h))
    | inr e ↦ inr ((rw e at (sym (get-insert k j v m))) ∙ h)
  ]

  -- Another key is neither added nor lost.
  pub get-insert_ne :
      (k j : Text) (v : V) (m : List (Text × V))
      → bytes_eq k j ≡ false
      → get j (insert k v m) ≡ get j m
  get-insert_ne k j v m h = ground (arith, get-insert k j v m)

  pub get-remove :
      (k j : Text) (m : List (Text × V))
      → get j (remove k m) ≡ (if bytes_eq k j then none else get j m)
  unfolding get remove
  get-remove k j [] = ground arith
  get-remove k j ((i, w) ∷ m) =
      ground (arith, bytes_eq_iff k j, bytes_eq_iff i k, bytes_eq_iff i j, get-remove k j m)

  -- What is removed makes the table shorter.
  pub length-remove_le : (k : Text) (m : List (Text × V)) → length (remove k m) ≤ length m
  unfolding remove
  length-remove_le k [] = omega arith
  length-remove_le k ((j, v) ∷ m) = ground (arith, length-remove_le k m)

  pub length-remove_lt :
      (k : Text) (m : List (Text × V)) → contains_key k m ≡ true → length (remove k m) < length m
  unfolding remove contains_key get
  length-remove_lt k [] h = absurd (ground arith)
  length-remove_lt k ((j, v) ∷ m) h = elim (Bool-cases (bytes_eq j k)) [
    | inl e ↦ rw e (omega (arith, length-remove_le k m))
    | inr e ↦ rw e (omega (arith, length-remove_lt k m (rw e at h)))
  ]

  -- Each key has one entry.
  abbrev pub IsMap : List (Text × V) → Type ℓ
  IsMap [] = Unit
  IsMap ((k, v) ∷ m) = (get k m ≡ none) × IsMap m

  -- Every entry of the second list is found in the first.
  abbrev pub Finds : List (Text × V) → List (Text × V) → Type ℓ
  Finds m [] = Unit
  Finds m ((k, v) ∷ es) = (get k m ≡ some v) × Finds m es

  Finds-cons :
      (k : Text) (v : V) (m es : List (Text × V))
      → get k m ≡ none
      → Finds m es
      → Finds ((k, v) ∷ m) es
  unfolding get
  Finds-cons k v m [] absent h = tt
  Finds-cons k v m ((j, w) ∷ es) absent h =
      (ground (arith, bytes_eq_iff k j), Finds-cons k v m es absent h.1)

  pub IsMap-Finds : (m : List (Text × V)) → IsMap m → Finds m m
  unfolding get
  IsMap-Finds [] h = tt
  IsMap-Finds ((k, v) ∷ m) h =
      (ground (arith, bytes_eq_refl k), Finds-cons k v m m h.0 (IsMap-Finds m h.1))

  pub insert-IsMap : (k : Text) (v : V) (m : List (Text × V)) → IsMap m → IsMap (insert k v m)
  unfolding get insert
  insert-IsMap k v [] h = (refl, tt)
  insert-IsMap k v ((j, w) ∷ m) h = elim (Bool-cases (bytes_eq j k)) [
    | inl e ↦ ground (arith, bytes_eq_iff j k)
    | inr e ↦ rw e (
      ground (arith, bytes_eq_iff j k, bytes_eq_iff k j, get-insert k j v m, h.0),
      insert-IsMap k v m h.1,
    )
  ]

  pub remove-IsMap : (k : Text) (m : List (Text × V)) → IsMap m → IsMap (remove k m)
  unfolding remove
  remove-IsMap k [] h = tt
  remove-IsMap k ((j, w) ∷ m) h = elim (Bool-cases (bytes_eq j k)) [
    | inl e ↦ rw e (remove-IsMap k m h.1)
    | inr e ↦ rw e (ground (arith, get-remove k j m, h.0), remove-IsMap k m h.1)
  ]
