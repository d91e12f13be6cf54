-- ===== src/Legacy/Items.antt =====
-- client/src/file/api/legacy_keyring.rs: the items of a legacy keyring, decrypted.
use oo.Prelude.{
  ℕ, zero, suc, ◌+◌, ◌/◌, ◌%◌, ◌^◌, Option, none, some, List, [], ◌∷◌, ltb, ◌==◌, if◌then◌else◌,
  Bytes, Text,
}
use oo.HashMap.{insert}
use oo.Outcome.{io, invalid_input, or_err}
use oo.Exec.{Exec, pure, lift, raise, zoom, ◌>>=◌, ◌>>◌}
use oo.Os.{Os}
use oo.Secret.{Secret, blob}
use oo.Crypto.{Primitives}
use oo.Item.{Map, UnlockedItem}
use oo.Item
use oo.Keyring.Disk.{clock}
use oo.Legacy.Content.{decrypted_content}
use oo.Legacy.{
  Cursor, ReadBytes, LegacyKeyring, read_byte_array, read_string, read_time, skip_numbers,
  skip_acls,
}

-- The decimal digits of a number below 10 ^ 10, as `u32::to_string` gives them.
unfoldable pub digits_from : ℕ → ℕ → Text
digits_from zero n = (b'0' + n % 10) ∷ []
digits_from (suc k) n =
    let rest = digits_from k n in
    if ltb n (10 ^ suc k) then rest else (b'0' + n / 10 ^ suc k % 10) ∷ rest

unfoldable pub decimal : ℕ → Text
unfolding digits_from
decimal n = digits_from 9 n

unfoldable pub unwrap_or {ℓ} : {A : Type ℓ} → A → Option A → A
unwrap_or default none = default
unwrap_or default (some a) = a

module _ ⦃r : ReadBytes⦄ where
  -- `ok_or_else` with an `InvalidInput` error
  unfoldable pub required : Exec Cursor (Option Text) → Exec Cursor Text
  required m = do found ← m; lift (or_err (io invalid_input) found)

  unfoldable pub read_value : ℕ → Exec Cursor Text
  unfolding required decimal
  read_value kind =
      if kind == 0
      then required read_string
      else if kind == 1
      then (do n ← r.read_u32; pure (decimal n))
      else raise (io invalid_input)

  unfoldable pub insert_attributes : ℕ → Map → Exec Cursor Map
  unfolding required read_value
  insert_attributes zero result = pure result
  insert_attributes (suc count) result = do
    name ← required read_string
    kind ← r.read_u32
    value ← read_value kind
    insert_attributes count (insert name value result)

  unfoldable pub read_attributes : ℕ → Exec Cursor Map
  unfolding insert_attributes
  read_attributes count = insert_attributes count []

module _ {W : Type 0} {A : Type 0} where
  abbrev pub on_cursor : Exec Cursor A → Exec (Cursor × W) A
  on_cursor = zoom (λ s. s.0) (λ c s. (c, s.1))

  abbrev pub on_world : Exec W A → Exec (Cursor × W) A
  on_world = zoom (λ s. s.1) (λ w s. (s.0, w))

module _ {W : Type 0} ⦃os : Os W⦄ ⦃r : ReadBytes⦄ where
  unfoldable pub read_item : Exec (Cursor × W) UnlockedItem
  unfolding unwrap_or read_attributes
  read_item = do
    display_name ← on_cursor read_string
    secret ← on_cursor read_byte_array
    created_time ← on_cursor read_time
    modified_time ← on_cursor read_time
    reserved ← on_cursor read_string
    on_cursor (skip_numbers 4)
    attribute_count ← on_cursor r.read_u32
    attributes ← on_cursor (read_attributes attribute_count)
    now ← on_world clock
    acl_count ← on_cursor r.read_u32
    on_cursor (skip_acls acl_count)
    pure (Item.new (unwrap_or [] display_name) attributes (blob (unwrap_or [] secret)) now)

  unfoldable pub read_items : ℕ → Exec (Cursor × W) (List UnlockedItem)
  read_items zero = pure []
  read_items (suc n) = do item ← read_item; items ← read_items n; pure (item ∷ items)

  -- The items in a content that was decrypted.
  unfoldable pub items_in : ℕ → Bytes → Exec W (List UnlockedItem)
  items_in n b w =
      let start : Cursor × W = (record { content = b; position = 0 }, w) in
      ((read_items n start).0, (read_items n start).1.1)

module _ {W : Type 0} ⦃os : Os W⦄ ⦃p : Primitives⦄ ⦃r : ReadBytes⦄ where
  unfoldable pub decrypt_items : LegacyKeyring → Secret → Exec W (List UnlockedItem)
  decrypt_items k secret = do
    content ← lift (decrypted_content k secret)
    items_in k.item_count content
