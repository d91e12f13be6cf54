-- ===== src/Legacy/RoundTrip/Items.antt =====
-- client/src/file/api/legacy_keyring.rs, `read_items`, against a description of its format.
use oo.Prelude.{
  ℕ, ◌^◌, ◌<◌, Option, List, [], ◌∷◌, ◌++◌, ◌≡◌, ◌∙◌, refl, sym, ap, subst, length, append_assoc,
  append-nil, Bytes, Text,
}
use oo.Outcome.{ok}
use oo.Exec.{Exec, pure, ◌>>=◌}
use oo.Os.{Os}
use oo.Secret.{blob}
use oo.Item.{UnlockedItem}
use oo.Item
use oo.Keyring.Disk.{clock}
use oo.Legacy.{Cursor, ReadBytes, skip_numbers}
use oo.Legacy.Items.{
  read_attributes, read_item, read_items, items_in, unwrap_or, on_cursor, on_world,
}
use oo.Legacy.RoundTrip.{
  cursor, Reads, IsBigEndian, big_endian, LegacyValue, put_attributes, AreAttributes, attributes_of,
  Reads-insert_attributes,
}
use oo.Legacy.RoundTrip.Parts.{
  put_optional, IsOptional, IsArray, put_numbers, AreNumbers, Acl, put_acls, AreAcls, Reads-array,
  Reads-string, Reads-time, Reads-skip_numbers, Reads-skip_acls,
}

-- The same with the world beside the cursor.
record ReadsIn {W A : Type 0} (m : Exec (Cursor × W) A) (bytes : Bytes) (w : W) (a : A) (w' : W)
    : Type 0 where
  at :
      (before rest content : Bytes)
      → content ≡ before ++ (bytes ++ rest)
      → m (cursor content (length before), w)
        ≡ (ok a, (cursor content (length (before ++ bytes)), w'))

module _ {W : Type 0} where
  ReadsIn-pure : {A : Type 0} (a : A) (w : W) → ReadsIn (pure a) [] w a w
  ReadsIn-pure a w = record { at = λ before rest content e. rw append-nil }

  ReadsIn-bind :
      {A B : Type 0} (m : Exec (Cursor × W) A) (f : A → Exec (Cursor × W) B) (b c : Bytes)
      (w w' w'' : W) (a : A) (a' : B)
      → ReadsIn m b w a w'
      → ReadsIn (f a) c w' a' w''
      → ReadsIn (m >>= f) (b ++ c) w a' w''
  ReadsIn-bind m f b c w w' w'' a a' first second = record {
    at = λ before rest content e.
        let e₁ : content ≡ before ++ (b ++ (c ++ rest)) =
          e ∙ ap (λ x. before ++ x) (append_assoc b c rest) in
        let e₂ : content ≡ (before ++ b) ++ (c ++ rest) =
          e₁ ∙ sym (append_assoc before b (c ++ rest)) in
        rw (
          first.at before (c ++ rest) content e₁,
          second.at (before ++ b) rest content e₂,
          append_assoc,
        );
  }

  -- A step that reads, with the rest of the method.
  ReadsIn-step :
      {A B : Type 0} (m : Exec Cursor A) (f : A → Exec (Cursor × W) B) (b c : Bytes) (w w'' : W)
      (a : A) (a' : B)
      → Reads m b a
      → ReadsIn (f a) c w a' w''
      → ReadsIn (on_cursor m >>= f) (b ++ c) w a' w''
  ReadsIn-step m f b c w w'' a a' first second =
      ReadsIn-bind (on_cursor m) f b c w w w'' a a'
        (record { at = λ before rest content e. rw (first.at before rest content e) }) second

  ReadsIn-nil :
      {A : Type 0} (m : Exec (Cursor × W) A) (b : Bytes) (w w' : W) (a : A)
      → ReadsIn m (b ++ []) w a w'
      → ReadsIn m b w a w'
  ReadsIn-nil m b w w' a h = subst (λ (x : Bytes). ReadsIn m x w a w') (append-nil b) h

-- An item as the format describes it: the times are pairs of numbers, and the four numbers, like the
-- times, are not used.
pub record LegacyItem : Type 0 where
  pub label : Option Text
  pub secret : Option Bytes
  pub created : ℕ × ℕ
  pub modified : ℕ × ℕ
  pub reserved : Option Text
  pub numbers : List ℕ
  pub attributes : List (Text × LegacyValue)
  pub acls : List Acl

abbrev put_time : ℕ × ℕ → Bytes
put_time (hi, lo) = put_numbers (hi ∷ lo ∷ [])

abbrev IsTime : ℕ × ℕ → Type 0
IsTime (hi, lo) = (hi < 2 ^ 32) × (lo < 2 ^ 32)

unfoldable pub put_legacy : LegacyItem → Bytes
put_legacy i =
    put_optional i.label
    ++ (put_optional i.secret
        ++ (put_time i.created
            ++ (put_time i.modified
                ++ (put_optional i.reserved
                    ++ (put_numbers i.numbers
                        ++ (big_endian (length i.attributes)
                            ++ (put_attributes i.attributes
                                ++ (big_endian (length i.acls) ++ put_acls i.acls))))))))

pub record IsLegacyItem (i : LegacyItem) : Type 0 where
  pub label : IsOptional i.label
  pub secret : IsArray i.secret
  pub created : IsTime i.created
  pub modified : IsTime i.modified
  pub reserved : IsOptional i.reserved
  pub four : length i.numbers ≡ 4
  pub numbers : AreNumbers i.numbers
  pub few_attributes : length i.attributes < 2 ^ 32
  pub attributes : AreAttributes i.attributes
  pub few_acls : length i.acls < 2 ^ 32
  pub acls : AreAcls i.acls

-- The item that is made of it at a time.
unfoldable pub unlocked_of : LegacyItem → ℕ → UnlockedItem
unfolding unwrap_or
unlocked_of i now =
    Item.new (unwrap_or [] i.label) (attributes_of i.attributes []) (blob (unwrap_or [] i.secret))
      now

module _ {W : Type 0} ⦃os : Os W⦄ ⦃r : ReadBytes⦄ (lawful : IsBigEndian r) where
  ReadsIn-clock : (w : W) → ReadsIn (on_world clock) [] w (os.now w).0 (os.now w).1
  unfolding clock
  ReadsIn-clock w = record { at = λ before rest content e. rw append-nil }

  ReadsIn-read_item :
      (i : LegacyItem) (w : W)
      → IsLegacyItem i
      → ReadsIn read_item (put_legacy i) w (unlocked_of i (os.now w).0) (os.now w).1
  unfolding read_item put_legacy unlocked_of read_attributes
  ReadsIn-read_item i w h =
      ReadsIn-step _ _ (put_optional i.label) _ w _ i.label _ (Reads-string lawful i.label h.label)
        (ReadsIn-step _ _ (put_optional i.secret) _ w _ i.secret _
          (Reads-array lawful i.secret h.secret)
          (ReadsIn-step _ _ (put_time i.created) _ w _ _ _
            (Reads-time lawful i.created.0 i.created.1 h.created.0 h.created.1)
            (ReadsIn-step _ _ (put_time i.modified) _ w _ _ _
              (Reads-time lawful i.modified.0 i.modified.1 h.modified.0 h.modified.1)
              (ReadsIn-step _ _ (put_optional i.reserved) _ w _ i.reserved _
                (Reads-string lawful i.reserved h.reserved)
                (ReadsIn-step _ _ (put_numbers i.numbers) _ w _ tt _
                  (subst (λ (n : ℕ). Reads (skip_numbers n) (put_numbers i.numbers) tt) h.four
                    (Reads-skip_numbers lawful i.numbers h.numbers))
                  (ReadsIn-step _ _ (big_endian (length i.attributes)) _ w _ (length i.attributes) _
                    (lawful.number (length i.attributes) h.few_attributes)
                    (ReadsIn-step _ _ (put_attributes i.attributes) _ w _ _ _
                      (Reads-insert_attributes lawful i.attributes [] h.attributes)
                      (ReadsIn-bind (on_world clock) _ [] _ w (os.now w).1 _ (os.now w).0 _
                        (ReadsIn-clock w)
                        (ReadsIn-step _ _ (big_endian (length i.acls)) (put_acls i.acls) _ _
                          (length i.acls) _ (lawful.number (length i.acls) h.few_acls)
                          (ReadsIn-nil _ (put_acls i.acls) _ _ _ (
                            ReadsIn-step _ _ (put_acls i.acls) [] _ _ tt _
                              (Reads-skip_acls lawful i.acls h.acls)
                              (ReadsIn-pure _ (os.now w).1))))))))))))

abbrev pub put_items : List LegacyItem → Bytes
put_items [] = []
put_items (i ∷ is) = put_legacy i ++ put_items is

abbrev pub AreItems : List LegacyItem → Type 0
AreItems [] = Unit
AreItems (i ∷ is) = IsLegacyItem i × AreItems is

module _ {W : Type 0} ⦃os : Os W⦄ where
  -- Each item gets the time that the clock shows when it is read.
  abbrev pub unlocked_items : List LegacyItem → W → List UnlockedItem
  unlocked_items [] w = []
  unlocked_items (i ∷ is) w = unlocked_of i (os.now w).0 ∷ unlocked_items is (os.now w).1

  abbrev pub after : List LegacyItem → W → W
  after [] w = w
  after (i ∷ is) w = after is (os.now w).1

module _ {W : Type 0} ⦃os : Os W⦄ ⦃r : ReadBytes⦄ (lawful : IsBigEndian r) where
  ReadsIn-read_items :
      (is : List LegacyItem) (w : W)
      → AreItems is
      → ReadsIn (read_items (length is)) (put_items is) w (unlocked_items is w) (after is w)
  unfolding read_items
  ReadsIn-read_items [] w h = ReadsIn-pure [] w
  ReadsIn-read_items (i ∷ is) w h =
      ReadsIn-bind _ _ (put_legacy i) (put_items is) w (os.now w).1 _ _ _
        (ReadsIn-read_item lawful i w h.0)
        (ReadsIn-nil _ (put_items is) _ _ _ (
          ReadsIn-bind _ _ (put_items is) [] _ (after is (os.now w).1) _ _ _
            (ReadsIn-read_items is (os.now w).1 h.1) (ReadsIn-pure _ (after is (os.now w).1))))

  -- Items that are laid out as the format says, with any padding behind them, are read back: each
  -- becomes an item with its label and its secret, which are empty where they are missing, with its
  -- attributes, and with the time of the reading.
  pub items_in-put_items :
      (is : List LegacyItem) (padding : Bytes) (w : W)
      → AreItems is
      → items_in (length is) (put_items is ++ padding) w ≡ (ok (unlocked_items is w), after is w)
  unfolding items_in
  items_in-put_items is padding w h =
      rw ((ReadsIn-read_items is w h).at [] padding (put_items is ++ padding) refl)
