-- ===== src/Kwallet/Data.antt =====
-- kwallet/parser/src/qdata.rs: numbers, strings and byte arrays of Qt's data stream, and what
-- `String::from_utf16` does. A string is its UTF-8 bytes.
use oo.Prelude.{
  ℕ, zero, suc, ◌+◌, ◌-◌, ◌*◌, ◌/◌, ◌%◌, Bool, ◌&&◌, Option, none, some, List, [], ◌∷◌, ◌++◌, leb,
  ltb, ◌==◌, if◌then◌else◌, Bytes, Text,
}
use oo.Outcome.{Result, ok, err}
use oo.Exec.{Step, pure, lift, raise, ◌>>=◌}
use oo.Kwallet.{KwalletError, invalid_data_structure, read_exact}

-- `from_be_bytes`
unfoldable pub from_be_bytes : Bytes → ℕ
from_be_bytes bytes = go 0 bytes
  where
    go : ℕ → Bytes → ℕ
    go acc [] = acc
    go acc (b ∷ bs) = go (acc * 256 + b) bs

unfoldable pub read_u16 : Step KwalletError Bytes ℕ
read_u16 = do buf ← read_exact 2; pure (from_be_bytes buf)

unfoldable pub read_u32 : Step KwalletError Bytes ℕ
read_u32 = do buf ← read_exact 4; pure (from_be_bytes buf)

-- An `i32` as its bits: the code only tells the small ones apart.
unfoldable pub read_i32 : Step KwalletError Bytes ℕ
read_i32 = do buf ← read_exact 4; pure (from_be_bytes buf)

unfoldable pub is_high : ℕ → Bool
is_high u = leb 0xd800 u && ltb u 0xdc00

unfoldable pub is_low : ℕ → Bool
is_low u = leb 0xdc00 u && ltb u 0xe000

-- The characters of a sequence of code units, none if a surrogate has no partner; the first argument
-- is the high surrogate before them, if there is one.
unfoldable pub decode_utf16 : Option ℕ → List ℕ → Option (List ℕ)
decode_utf16 none [] = some []
decode_utf16 (some h) [] = none
decode_utf16 none (u ∷ us) =
    let rest = decode_utf16 (if is_high u then some u else none) us in
    if is_high u
    then rest
    else if is_low u
    then none
    else elim rest [ none ↦ none | some cs ↦ some (u ∷ cs) ]
decode_utf16 (some h) (u ∷ us) =
    let rest = decode_utf16 none us in
    if is_low u
    then elim rest [
      | none ↦ none
      | some cs ↦ some ((0x10000 + (h - 0xd800) * 0x400 + (u - 0xdc00)) ∷ cs)
    ]
    else none

-- A character in UTF-8.
unfoldable pub encode_char : ℕ → Text
encode_char c =
    if ltb c 0x80
    then c ∷ []
    else if ltb c 0x800
    then (0xc0 + c / 0x40) ∷ (0x80 + c % 0x40) ∷ []
    else if ltb c 0x10000
    then (0xe0 + c / 0x1000) ∷ (0x80 + c / 0x40 % 0x40) ∷ (0x80 + c % 0x40) ∷ []
    else (0xf0 + c / 0x40000)
      ∷ (0x80 + c / 0x1000 % 0x40)
      ∷ (0x80 + c / 0x40 % 0x40)
      ∷ (0x80 + c % 0x40)
      ∷ []

unfoldable pub encode_utf8 : List ℕ → Text
encode_utf8 [] = []
encode_utf8 (c ∷ cs) = encode_char c ++ encode_utf8 cs

unfoldable pub from_utf16 : List ℕ → Result KwalletError Text
from_utf16 units = elim (decode_utf16 none units) [
  | none ↦ err invalid_data_structure
  | some cs ↦ ok (encode_utf8 cs)
]

unfoldable pub read_units : ℕ → Step KwalletError Bytes (List ℕ)
read_units zero = pure []
read_units (suc n) = do unit ← read_u16; units ← read_units n; pure (unit ∷ units)

unfoldable pub string_of : ℕ → Step KwalletError Bytes Text
string_of byte_length =
    if byte_length == 0xffffffff
    then pure []
    else if byte_length % 2 == 0
    then (do units ← read_units (byte_length / 2); lift (from_utf16 units))
    else raise invalid_data_structure

unfoldable pub read_string : Step KwalletError Bytes Text
read_string = do byte_length ← read_u32; string_of byte_length

unfoldable pub array_of : ℕ → Step KwalletError Bytes Bytes
array_of byte_length = if byte_length == 0xffffffff then pure [] else read_exact byte_length

unfoldable pub read_byte_array : Step KwalletError Bytes Bytes
read_byte_array = do byte_length ← read_u32; array_of byte_length
