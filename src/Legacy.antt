-- ===== src/Legacy.antt =====
-- client/src/file/api/legacy_keyring.rs: keyring files of version 0, as steps on a cursor.
pub mod Content
pub mod Items
pub mod Decimal
pub mod RoundTrip
use oo.Prelude.{
  ℕ, zero, suc, ◌+◌, ◌*◌, ◌/◌, ◌%◌, ◌^◌, Bool, true, false, not, Option, none, some, List, [], ◌∷◌,
  length, take, drop, leb, ltb, ◌==◌, if◌then◌else◌, Bytes, Text, bytes_eq,
}
use oo.Outcome.{
  Outcome, ok, err, panic, io, invalid_input, out_of_memory, unexpected_eof, no_data, utf8,
  algorithm_mismatch, file_header_mismatch, version_mismatch,
}
use oo.Exec.{Exec, pure, lift, gets, raise, ◌>>=◌, ◌>>◌}
use oo.Secret.Utf8.{valid_utf8}
use oo.Keyring.{file_header, file_header_len, get_range, same_bytes}

-- `std::io::Cursor<&[u8]>`
pub record Cursor : Type 0 where
  pub content : Bytes
  pub position : ℕ

-- The crate `endi`: big-endian numbers read from a cursor.
pub record ReadBytes : Type 0 where
  pub read_u8 : Exec Cursor ℕ
  pub read_u32 : Exec Cursor ℕ

-- `Keyring` of the legacy format.
pub record LegacyKeyring : Type 0 where
  pub salt : Bytes
  pub iteration_count : ℕ
  pub encrypted_content : Bytes
  pub item_count : ℕ

-- `let _ = …`: an error is dropped.
unfoldable pub ignore : {A : Type 0} → Exec Cursor A → Exec Cursor (Unit {0})
ignore m c = elim (m c).0 [
  | ok _ ↦ (ok tt, (m c).1)
  | err _ ↦ (ok tt, (m c).1)
  | panic ↦ (panic, (m c).1)
]

-- `Read::read_exact` into a buffer of `n` bytes.
unfoldable pub read_exact : ℕ → Exec Cursor Bytes
read_exact n c =
    if leb (c.position + n) (length c.content)
    then (ok (take n (drop c.position c.content)), record c { position = c.position + n })
    else (err (io unexpected_eof), record c { position = length c.content })

-- `&cursor.get_ref()[pos..pos + len]`, and the cursor behind it.
unfoldable pub slice : ℕ → Exec Cursor Bytes
slice len c =
    if leb (c.position + len) (length c.content)
    then (ok (take len (drop c.position c.content)), record c { position = c.position + len })
    else (panic, c)

-- A byte array behind its length, which was read.
unfoldable pub array_of : ℕ → Exec Cursor (Option Bytes)
unfolding slice
array_of len = do
  total ← gets (λ c. length c.content)
  if len == 4294967295
      then pure none
      else if leb 2147483647 len
      then raise (io out_of_memory)
      else if ltb total len
      then raise no_data
      else (do bytes ← slice len; pure (some bytes))

module _ ⦃r : ReadBytes⦄ where
  unfoldable pub read_byte_array : Exec Cursor (Option Bytes)
  read_byte_array = do len ← r.read_u32; array_of len

  unfoldable pub as_text : Option Bytes → Outcome (Option Text)
  unfolding valid_utf8
  as_text none = ok none
  as_text (some bytes) = if valid_utf8 bytes then ok (some bytes) else err utf8

  unfoldable pub read_string : Exec Cursor (Option Text)
  read_string = do bytes ← read_byte_array; lift (as_text bytes)

  unfoldable pub read_time : Exec Cursor ℕ
  read_time = do hi ← r.read_u32; lo ← r.read_u32; pure (hi * 2 ^ 32 + lo)

  -- `for _ in 0..n { let _ = cursor.read_u32(Endian::Big)?; }`
  unfoldable pub skip_numbers : ℕ → Exec Cursor (Unit {0})
  skip_numbers zero = pure tt
  skip_numbers (suc n) = do number ← r.read_u32; skip_numbers n

  unfoldable pub skip_value : ℕ → Exec Cursor (Unit {0})
  skip_value kind =
      if kind == 0
      then ignore read_string
      else if kind == 1
      then ignore r.read_u32
      else raise (io invalid_input)

  unfoldable pub skip_hashed_attributes : ℕ → Exec Cursor (Unit {0})
  skip_hashed_attributes zero = pure tt
  skip_hashed_attributes (suc n) = do
    name ← read_string
    kind ← r.read_u32
    skip_value kind
    skip_hashed_attributes n

  unfoldable pub skip_hashed_items : ℕ → Exec Cursor (Unit {0})
  unfolding skip_hashed_attributes skip_value
  skip_hashed_items zero = pure tt
  skip_hashed_items (suc n) = do
    id ← r.read_u32
    type ← r.read_u32
    num_attributes ← r.read_u32
    skip_hashed_attributes num_attributes
    skip_hashed_items n

  unfoldable pub skip_acls : ℕ → Exec Cursor (Unit {0})
  skip_acls zero = pure tt
  skip_acls (suc n) = do
    flags ← r.read_u32
    display_name ← read_string
    path ← read_string
    reserved0 ← read_string
    reserved1 ← r.read_u32
    skip_acls n

  unfoldable pub check_algorithm : ℕ → Exec Cursor (Unit {0})
  check_algorithm n = if n == 0 then pure tt else raise (algorithm_mismatch n)

  -- What follows the size of the encrypted content: whole blocks of it.
  unfoldable pub blocks : ℕ → Exec Cursor Bytes
  blocks size c =
      if not (leb c.position (length c.content))
      then (panic, c)
      else if ltb (length (drop c.position c.content)) size
      then (err no_data, c)
      else (ok (take (size / 16 * 16) (drop c.position c.content)), c)

  unfoldable pub parse_at : Exec Cursor LegacyKeyring
  unfolding check_algorithm
  parse_at = do
    algorithm ← r.read_u8
    check_algorithm algorithm
    hash_algorithm ← r.read_u8
    check_algorithm hash_algorithm
    display_name ← read_string
    created_time ← read_time
    modified_time ← read_time
    flags ← r.read_u32
    lock_timeout ← r.read_u32
    iteration_count ← r.read_u32
    salt ← read_exact 8
    skip_numbers 4
    item_count ← r.read_u32
    skip_hashed_items item_count
    size ← r.read_u32
    encrypted_content ← blocks size
    pure (record {
      salt = salt;
      iteration_count = iteration_count;
      encrypted_content = encrypted_content;
      item_count = item_count;
    })

  unfoldable pub parse : Bytes → Outcome LegacyKeyring
  unfolding parse_at
  parse b = (parse_at (record { content = b; position = 0 })).0

  unfoldable pub try_from : Bytes → Outcome LegacyKeyring
  unfolding get_range
  try_from value =
      let header = get_range value 0 file_header_len in
      let version = get_range value file_header_len (file_header_len + 2) in
      if not (same_bytes header file_header)
      then err (file_header_mismatch header)
      else if not (same_bytes version (0 ∷ 0 ∷ []))
      then err (version_mismatch version)
      else parse (drop (file_header_len + 2) value)
