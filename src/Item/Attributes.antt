-- ===== src/Item/Attributes.antt =====
-- The content type among the attributes (client/src/file/unlocked_item.rs).
use oo.Prelude.{
  ℕ, true, false, none, some, [], ◌∷◌, ◌≡◌, ◌∙◌, arith, Text, bytes_eq, bytes_eq_iff, if◌then◌else◌,
  Bool-cases, inl, inr,
}
use oo.HashMap.{
  get, contains_key, IsMap, insert-IsMap, get-insert, contains_key-insert, Finds, IsMap-Finds,
}
use oo.Secret.{default_content_type, as_str, Secret, IsSecret, content_type}
use oo.Secret.Laws.{from_str-as_str, with_content_type-as_bytes}
use oo.Item.{
  Map, content_type_attribute, UnlockedItem, with_default_type, new, set_attributes, declared_type,
  secret_of,
}
use oo.Item.RoundTrip.{IsItem}

with_default_type-IsMap : (m : Map) (type : Text) → IsMap m → IsMap (with_default_type m type)
unfolding with_default_type
with_default_type-IsMap m type h = elim (Bool-cases (contains_key content_type_attribute m)) [
  | inl present ↦ rw present h
  | inr absent ↦ rw absent (insert-IsMap content_type_attribute type m h)
]

contains_key-with_default_type :
    (m : Map) (type : Text) → contains_key content_type_attribute (with_default_type m type) ≡ true
unfolding with_default_type
contains_key-with_default_type m type = elim (Bool-cases (contains_key content_type_attribute m)) [
  | inl present ↦ rw present present
  | inr absent ↦ rw absent (contains_key-insert content_type_attribute type m)
]

-- A new item, and an item whose attributes are replaced, has a content type and one value for each
-- attribute, if the given attributes have one value for each.
pub new-IsItem :
    (label : Text) (m : Map) (s : Secret) (now : ℕ) (item : UnlockedItem)
    → IsMap m
    → IsItem (new label m s now) × IsItem (set_attributes item m now)
unfolding new set_attributes
new-IsItem label m s now item h = (
  record { is_map = with_default_type-IsMap m _ h; has_type = contains_key-with_default_type m _ },
  record { is_map = with_default_type-IsMap m _ h; has_type = contains_key-with_default_type m _ },
)

get-with_default_type :
    (m : Map) (type key : Text)
    → get key (with_default_type m type) ≡ (
        if contains_key content_type_attribute m
        then get key m
        else (if bytes_eq content_type_attribute key then some type else get key m))
unfolding with_default_type
get-with_default_type m type key = elim (Bool-cases (contains_key content_type_attribute m)) [
  | inl present ↦ rw present
  | inr absent ↦ rw absent (get-insert content_type_attribute key type m)
]

-- `set_attributes` gives each attribute its new value and drops the others, but for the content
-- type: where the new attributes name none, the one that the item has is kept, and where it has none
-- it is the default.
pub get-set_attributes :
    (item : UnlockedItem) (m : Map) (now : ℕ) (key : Text)
    → get key (set_attributes item m now).attributes ≡ elim (get key m) [
      | some v ↦ some v
      | none ↦
          if bytes_eq content_type_attribute key
          then (elim (get content_type_attribute item.attributes) [
            | some type ↦ some type
            | none ↦ some (as_str default_content_type)
          ])
          else none
    ]
unfolding set_attributes contains_key
get-set_attributes item m now key = ground (
  arith,
  get-with_default_type m
      (elim (get content_type_attribute item.attributes) [
        | some existing ↦ existing
        | none ↦ as_str default_content_type
      ])
      key,
  bytes_eq_iff content_type_attribute key,
)

-- The secret of a new item is read back with its content type, if the given attributes name none.
pub secret_of-new :
    (label : Text) (m : Map) (s : Secret) (now : ℕ)
    → contains_key content_type_attribute m ≡ false
    → IsSecret s
    → secret_of (new label m s now) ≡ s
unfolding secret_of declared_type new bytes_eq as_str
secret_of-new label m s now absent h =
    let type = as_str (content_type s) in
    let named : get content_type_attribute (with_default_type m type) ≡ some type =
      get-with_default_type m type content_type_attribute ∙ rw absent in
    rw (named, declared_type, (from_str-as_str (content_type s) []).0)
      (with_content_type-as_bytes s h)

get-with_default_type-given :
    (m : Map) (type key v : Text) → get key m ≡ some v → get key (with_default_type m type) ≡ some v
unfolding contains_key
get-with_default_type-given m type key v h =
    ground (arith, get-with_default_type m type key, bytes_eq_iff content_type_attribute key)

-- The attributes that were given stay, whatever type is added.
with_default_type-Finds :
    (m : Map) (type : Text) (query : Map) → Finds m query → Finds (with_default_type m type) query
with_default_type-Finds m type [] h = tt
with_default_type-Finds m type ((k, v) ∷ query) h =
    (get-with_default_type-given m type k v h.0, with_default_type-Finds m type query h.1)

pub new-Finds :
    (label : Text) (m : Map) (s : Secret) (now : ℕ)
    → IsMap m
    → Finds (new label m s now).attributes m
unfolding new
new-Finds label m s now h = with_default_type-Finds m _ m (IsMap-Finds m h)
