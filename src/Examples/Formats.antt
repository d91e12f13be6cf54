-- ===== src/Examples/Formats.antt =====
-- The theorems about the layout of legacy files at concrete inputs.
use oo.Prelude.{ℕ, ◌++◌, none, some, List, [], ◌∷◌, ◌≡◌, refl, arith, codes, Text}
use oo.Outcome.{ok}
use oo.Secret.Utf8
use oo.Legacy.Items.{items_in}
use oo.Legacy.RoundTrip.{LegacyValue, text_value, number_value, AreAttributes}
use oo.Legacy.RoundTrip.Items.{
  LegacyItem, IsLegacyItem, put_items, unlocked_items, items_in-put_items,
}
use oo.Examples.Toy.{toy_os, toy_reads, toy_reads-IsBigEndian}

abbrev attributes : List (Text × LegacyValue)
attributes = (codes "user", text_value (codes "ann")) ∷ (codes "port", number_value 22) ∷ []

attributes-AreAttributes : AreAttributes attributes
unfolding Utf8.valid_utf8
attributes-AreAttributes =
    (((omega arith, refl), (omega arith, refl)), (((omega arith, refl), omega arith), tt))

abbrev item : LegacyItem
item = record {
  label = some (codes "mail");
  secret = none;
  created = (0, 5);
  modified = (0, 6);
  reserved = none;
  numbers = 0 ∷ 0 ∷ 0 ∷ 0 ∷ [];
  attributes = attributes;
  acls =
      record {
        flags = 7;
        display_name = none;
        path = some (codes "/bin/sh");
        reserved0 = none;
        reserved1 = 0;
      }
      ∷ [];
}

item-IsLegacyItem : IsLegacyItem item
unfolding Utf8.valid_utf8
item-IsLegacyItem = record {
  label = (omega arith, refl);
  secret = tt;
  created = (omega arith, omega arith);
  modified = (omega arith, omega arith);
  reserved = tt;
  four = refl;
  numbers = (omega arith, (omega arith, (omega arith, (omega arith, tt))));
  few_attributes = omega arith;
  attributes = attributes-AreAttributes;
  few_acls = omega arith;
  acls = (
    record {
      flags = omega arith;
      display_name = tt;
      path = (omega arith, refl);
      reserved0 = tt;
      reserved1 = omega arith;
    },
    tt,
  );
}

items_in-put_items_example :
    items_in {W = ℕ} 1 (put_items (item ∷ []) ++ 0 ∷ 0 ∷ []) 4
    ≡ (ok (unlocked_items {W = ℕ} (item ∷ []) 4), 5)
items_in-put_items_example =
    items_in-put_items toy_reads-IsBigEndian (item ∷ []) (0 ∷ 0 ∷ []) 4 (item-IsLegacyItem, tt)
