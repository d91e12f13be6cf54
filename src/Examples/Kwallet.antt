-- ===== src/Examples/Kwallet.antt =====
-- The theorems about KWallet files at concrete inputs, and tests of the reader.
use oo.Prelude.{
  ◌%◌, ◌≢◌, ◌+◌, ◌-◌, ◌≤◌, [], ◌∷◌, ◌≡◌, inl, inr, refl, arith, codes, length, take, drop, Bytes,
  bytes_eq_refl,
}
use oo.Outcome.{ok, panic}
use oo.Kwallet.{read_exact}
use oo.Kwallet.Data.{
  read_string, read_u32, string_of, from_be_bytes, read_units, read_u16, from_utf16, decode_utf16,
  is_high, is_low, encode_utf8, encode_char,
}
use oo.Kwallet.Crypto.{extract_wallet_data, validate_sha1}
use oo.Kwallet.Sha1.{kwallet_sha1, padded_of}
use oo.Kwallet.Padding.{length-padded_of}
use oo.Kwallet.Termination.{parse_ends}
use oo.Kwallet.Payload.{length-kwallet_sha1, extract_wallet_data-only}
use oo.Kwallet.Wallet.{password, unknown, parse}
use oo.Kwallet.Print.Strings.{IsString, encode_utf16, units_of}
use oo.Kwallet.Print.Wallets.{
  PlainFolder, put_folders, folders_of, IsFolder, IsEntry, parse-put_folders,
}

-- A payload of two bytes.
abbrev two_bytes : Bytes
two_bytes = 0 ∷ 0 ∷ 0 ∷ 0 ∷ 0 ∷ 0 ∷ 0 ∷ 0 ∷ 0 ∷ 0 ∷ 0 ∷ 2 ∷ 1 ∷ 2 ∷ kwallet_sha1 (1 ∷ 2 ∷ [])

two_bytes-extract_wallet_data : extract_wallet_data two_bytes ≡ ok (1 ∷ 2 ∷ [])
unfolding extract_wallet_data validate_sha1 from_be_bytes
two_bytes-extract_wallet_data =
    rw (length-kwallet_sha1 (1 ∷ 2 ∷ []), bytes_eq_refl (kwallet_sha1 (1 ∷ 2 ∷ [])))

extract_wallet_data-only_example :
    (kwallet_sha1 (1 ∷ 2 ∷ []) ≡ drop (length two_bytes - 20) two_bytes)
    × ((2 ≡ from_be_bytes (take 4 (drop 8 two_bytes)))
        × ((1 ∷ 2 ∷ [] ≡ take 2 (drop 12 two_bytes)) × (12 + 2 + 20 ≤ length two_bytes)))
extract_wallet_data-only_example =
    extract_wallet_data-only two_bytes (1 ∷ 2 ∷ []) two_bytes-extract_wallet_data

-- A folder with a character that takes two code units in the key of its first entry.
abbrev folder : PlainFolder
folder = record {
  first = b'F';
  others = [];
  entries =
      record { key = 0x1f600 ∷ []; entry_type = password; value = 0 ∷ 0 ∷ 0 ∷ 0 ∷ [] }
      ∷ record { key = b'k' ∷ []; entry_type = unknown; value = [] }
      ∷ [];
}

folder-IsString : IsString (b'F' ∷ []) × (IsString (0x1f600 ∷ []) × IsString (b'k' ∷ []))
unfolding IsString encode_utf16 units_of
folder-IsString = (
  ((inl (omega arith), tt), omega arith),
  (((inr (omega arith, omega arith), tt), omega arith), ((inl (omega arith), tt), omega arith)),
)

parse-put_folders_example :
    parse (put_folders (folder ∷ [])) ≡ ok (record { folders = folders_of (folder ∷ []) [] })
unfolding IsFolder IsEntry
parse-put_folders_example =
    let (name, (key, other)) = folder-IsString in
    parse-put_folders (folder ∷ [])
      ((name, (omega arith, ((key, omega arith), ((other, omega arith), tt)))), tt)

-- A folder that promises an entry and ends.
parse_ends_example : parse (0 ∷ 0 ∷ 0 ∷ 2 ∷ 0 ∷ 70 ∷ 0 ∷ 0 ∷ 0 ∷ 1 ∷ []) ≢ panic
parse_ends_example = parse_ends (0 ∷ 0 ∷ 0 ∷ 2 ∷ 0 ∷ 70 ∷ 0 ∷ 0 ∷ 0 ∷ 1 ∷ [])

length-padded_of_example :
    (length (padded_of (1 ∷ 2 ∷ 3 ∷ [])) % 64 ≡ 0)
    × ((3 + 9 ≤ length (padded_of (1 ∷ 2 ∷ 3 ∷ [])))
        × (length (padded_of (1 ∷ 2 ∷ 3 ∷ [])) ≤ 3 + 72))
length-padded_of_example = length-padded_of (1 ∷ 2 ∷ 3 ∷ [])

-- The test of the repository.
test_read_string :
    read_string (0 ∷ 0 ∷ 0 ∷ 10 ∷ 0 ∷ 0x68 ∷ 0 ∷ 0x65 ∷ 0 ∷ 0x6c ∷ 0 ∷ 0x6c ∷ 0 ∷ 0x6f ∷ [])
    ≡ (ok (codes "hello"), [])
unfolding read_string read_u32 read_exact string_of from_be_bytes read_units read_u16 from_utf16
    decode_utf16 is_high is_low encode_utf8 encode_char
test_read_string = refl
