-- ===== src/Examples/Items.antt =====
-- The theorems about secrets and items at concrete inputs.
use oo.Prelude.{ℕ, none, some, [], ◌∷◌, ◌++◌, ◌≡◌, refl, sym, subst, arith, Bytes, codes, bytes_eq}
use oo.HashMap.{get, contains_key, insert}
use oo.Outcome.{ok}
use oo.Crypto.{Primitives, Key}
use oo.Secret.{as_str}
use oo.Item.{
  Map, UnlockedItem, EncryptedItem, new, set_attributes, secret_of, encrypt_item, decrypt_item,
  matches, matches_attributes, content_type_attribute,
}
use oo.Item
use oo.Item.RoundTrip.{IsItem, decrypt_item-encrypt_item}
use oo.Item.Authentic.{Sealed, Vouched, decrypt_item-Sealed}
use oo.Item.Matching.{stored_attributes, matches-matches_attributes}
use oo.Crypto
use oo.Examples.Toy
use oo.Examples.Toy.{
  toy_primitives, toy_primitives-IsLawful, toy_items, toy_items-RoundTrips, toy_os,
  toy_os-IsLawfulOs, put_item, some_eq,
}

-- One attribute beside the content type.
abbrev pub mail : Map
mail = (codes "user", codes "ann") ∷ (content_type_attribute, codes "text/plain") ∷ []

abbrev pub item : UnlockedItem
item = record {
  attributes = mail;
  label = codes "mail";
  created = 5;
  modified = 6;
  secret = 1 ∷ 2 ∷ [];
}

abbrev pub key : Key
key = record { key = 3 ∷ 4 ∷ []; strength = none }

pub item-IsItem : IsItem item
unfolding get contains_key bytes_eq
item-IsItem = record { is_map = (refl, (refl, tt)); has_type = refl }

decrypt_item-encrypt_item_example :
    (e : EncryptedItem) × ((encrypt_item {W = ℕ} item (some key) 9).0 ≡ ok e)
    × (decrypt_item e (some key) ≡ ok item)
decrypt_item-encrypt_item_example =
    decrypt_item-encrypt_item toy_os-IsLawfulOs toy_primitives-IsLawful toy_items-RoundTrips item
      (some key) 9 (9 ∷ []) (put_item item) item-IsItem (refl, refl) refl refl

-- The item as the file holds it.
abbrev pub sealed : Key → EncryptedItem
unfolding put_item
sealed k = record {
  hashed_attributes = stored_attributes mail (some k);
  blob = (7 ∷ put_item item ++ 9 ∷ []) ++ toy_primitives.hmac k.key (7 ∷ put_item item ++ 9 ∷ []);
}

abbrev stored : EncryptedItem
stored = sealed key

stored-decrypt_item : decrypt_item stored (some key) ≡ ok item
unfolding decrypt_item Item.try_decrypt_encrypted Item.checked_sub Item.split_at Crypto.verify_mac
    Crypto.decrypt Crypto.new_from_slices Item.try_from Item.with_default_type contains_key get
    bytes_eq Item.validate Item.hash_attributes Crypto.compute_mac insert as_str Toy.put_item
    Toy.put_entries Toy.put_bytes Toy.get_item Toy.get_times Toy.get_entries Toy.get_bytes
stored-decrypt_item = refl

decrypt_item-Sealed_example : Sealed key stored.blob × Vouched key item stored.hashed_attributes
decrypt_item-Sealed_example =
    decrypt_item-Sealed toy_primitives-IsLawful stored key item stored-decrypt_item

tags_differ :
    (w : Bytes)
    → some (codes "ann") ≡ some w
    → toy_primitives.hmac (3 ∷ 4 ∷ []) w ≡ toy_primitives.hmac (3 ∷ 4 ∷ []) (codes "bob")
    → w ≡ codes "bob"
tags_differ w found same =
    let h : toy_primitives.hmac (3 ∷ 4 ∷ []) (codes "ann")
        ≡ toy_primitives.hmac (3 ∷ 4 ∷ []) (codes "bob") =
      subst
        (λ (v : Bytes).
          toy_primitives.hmac (3 ∷ 4 ∷ []) v ≡ toy_primitives.hmac (3 ∷ 4 ∷ []) (codes "bob"))
        (sym (some_eq found)) same in
    absurd (ground arith)

matches-matches_attributes_example :
    matches
      (record { hashed_attributes = stored_attributes mail (some key); blob = 1 ∷ [] })
      ((codes "user", codes "bob") ∷ [])
      (some key)
    ≡ matches_attributes item ((codes "user", codes "bob") ∷ [])
unfolding get bytes_eq
matches-matches_attributes_example =
    matches-matches_attributes item (1 ∷ []) (some key) ((codes "user", codes "bob") ∷ [])
      (tags_differ, tt)
