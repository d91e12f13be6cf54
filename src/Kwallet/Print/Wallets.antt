-- ===== src/Kwallet/Print/Wallets.antt =====
-- kwallet/parser/src/wallet.rs, `Wallet::parse`: the folders of a wallet are read back.
use oo.Prelude.{
  append_assoc, ℕ, zero, suc, ◌^◌, ◌≤◌, ◌<◌, List, [], ◌∷◌, ◌++◌, ◌≡◌, ◌∙◌, refl, arith, length,
  length-append, Each, Bytes, Text, none, some, Bool, true, false, ltb, if◌then◌else◌,
}
use oo.HashMap.{insert}
use oo.Outcome.{ok}
use oo.Exec.{pure, lift, ◌>>=◌}
use oo.Kwallet.{read_exact}
use oo.Kwallet.Termination.{parse_ok, read_folders_end, read_folders_ok}
use oo.Kwallet.Print.{
  Reads, Reads-bind, Reads-map, Reads-pure, put_array, Reads-read_byte_array, Reads-read_u32,
  Reads-read_i32,
}
use oo.Kwallet.Print.Strings.{IsString, put_string, Reads-read_string}
use oo.Kwallet.Data.{read_u32, read_i32, encode_char, encode_utf8, read_string, read_byte_array}
use oo.Kwallet.Wallet.{
  EntryType, unknown, password, stream, map, entry_type_of, Entry, Entries, Folder, insert_entry,
  read_entry, read_entries, read_folder, named, next_name, read_folders, parse,
}
use oo.Legacy.RoundTrip.{big_endian}

-- What is written: names and keys as characters.
pub record PlainEntry : Type 0 where
  pub key : List ℕ
  pub entry_type : EntryType
  pub value : Bytes

pub record PlainFolder : Type 0 where
  pub first : ℕ
  pub others : List ℕ
  pub entries : List PlainEntry

-- The name of a folder is not empty.
abbrev pub name_of : PlainFolder → List ℕ
name_of f = f.first ∷ f.others

unfoldable pub code_of : EntryType → ℕ
code_of unknown = 0
code_of password = 1
code_of stream = 2
code_of map = 3

unfoldable pub put_entry : PlainEntry → Bytes
unfolding code_of put_string
put_entry e = put_string e.key ++ (big_endian (code_of e.entry_type) ++ put_array e.value)

unfoldable pub put_entries : List PlainEntry → Bytes
put_entries [] = []
put_entries (e ∷ es) = put_entry e ++ put_entries es

unfoldable pub put_folder : PlainFolder → Bytes
unfolding put_entries put_string
put_folder f = put_string (name_of f) ++ (big_endian (length f.entries) ++ put_entries f.entries)

unfoldable pub put_folders : List PlainFolder → Bytes
unfolding put_folder
put_folders [] = []
put_folders (f ∷ fs) = put_folder f ++ put_folders fs

-- What is read: strings as UTF-8, entries of unknown type left out, the last of a name kept.
unfoldable pub entry_of : PlainEntry → Entry
unfolding encode_utf8
entry_of e = record { key = encode_utf8 e.key; entry_type = e.entry_type; value = e.value }

unfoldable pub entries_of : List PlainEntry → Entries → Entries
unfolding entry_of insert_entry
entries_of [] acc = acc
entries_of (e ∷ es) acc = entries_of es (insert_entry (entry_of e) acc)

unfoldable pub folder_of : PlainFolder → Folder
unfolding entries_of encode_utf8
folder_of f = record { name = encode_utf8 (name_of f); entries = entries_of f.entries [] }

unfoldable pub folders_of : List PlainFolder → List (Text × Folder) → List (Text × Folder)
unfolding folder_of encode_utf8 insert
folders_of [] acc = acc
folders_of (f ∷ fs) acc = folders_of fs (insert (encode_utf8 (name_of f)) (folder_of f) acc)

unfoldable pub IsEntry : PlainEntry → Type 0
IsEntry e = IsString e.key × (length e.value < 4294967295)

unfoldable pub IsFolder : PlainFolder → Type 0
unfolding IsEntry
IsFolder f = IsString (name_of f) × ((length f.entries < 2 ^ 32) × Each IsEntry f.entries)

code_of_lt : (t : EntryType) → code_of t < 2 ^ 32
unfolding code_of
code_of_lt unknown = omega arith
code_of_lt password = omega arith
code_of_lt stream = omega arith
code_of_lt map = omega arith

entry_type_of-code_of : (t : EntryType) → entry_type_of (code_of t) ≡ ok t
unfolding code_of entry_type_of
entry_type_of-code_of unknown = refl
entry_type_of-code_of password = refl
entry_type_of-code_of stream = refl
entry_type_of-code_of map = refl

Reads-read_entry : (e : PlainEntry) → IsEntry e → Reads read_entry (put_entry e) (entry_of e)
unfolding read_entry put_entry entry_of IsEntry
Reads-read_entry e (good, small) =
    Reads-bind read_string
      (λ key. read_i32 >>= λ raw. lift (entry_type_of raw) >>= λ type.
        read_byte_array >>= λ value. pure (record { key = key; entry_type = type; value = value }))
      (put_string e.key) (big_endian (code_of e.entry_type) ++ put_array e.value)
      (encode_utf8 e.key) (entry_of e) (Reads-read_string e.key good)
      (Reads-bind read_i32
        (λ raw. lift (entry_type_of raw) >>= λ type. read_byte_array >>= λ value.
          pure (record { key = encode_utf8 e.key; entry_type = type; value = value }))
        (big_endian (code_of e.entry_type)) (put_array e.value) (code_of e.entry_type) (entry_of e)
        (Reads-read_i32 (code_of e.entry_type) (code_of_lt e.entry_type))
        (λ rest. rw (entry_type_of-code_of e.entry_type, Reads-read_byte_array e.value small rest)))

Reads-read_entries :
    (es : List PlainEntry) (acc : Entries)
    → Each IsEntry es
    → Reads (read_entries (length es) acc) (put_entries es) (entries_of es acc)
unfolding read_entries put_entries entries_of
Reads-read_entries [] acc h = Reads-pure acc
Reads-read_entries (e ∷ es) acc (h, hs) =
    Reads-bind read_entry (λ entry. read_entries (length es) (insert_entry entry acc)) (put_entry e)
      (put_entries es) (entry_of e) (entries_of (e ∷ es) acc) (Reads-read_entry e h)
      (Reads-read_entries es (insert_entry (entry_of e) acc) hs)

Reads-read_folder :
    (f : PlainFolder)
    → (length f.entries < 2 ^ 32)
    → Each IsEntry f.entries
    → Reads
        (read_folder (encode_utf8 (name_of f)))
        (big_endian (length f.entries) ++ put_entries f.entries)
        (folder_of f)
unfolding read_folder folder_of
Reads-read_folder f small hs =
    Reads-bind read_u32
      (λ n. read_entries n [] >>= λ entries.
        pure (record { name = encode_utf8 (name_of f); entries = entries }))
      (big_endian (length f.entries)) (put_entries f.entries) (length f.entries) (folder_of f)
      (Reads-read_u32 (length f.entries) small)
      (Reads-map (read_entries (length f.entries) [])
        (λ entries. pure (record { name = encode_utf8 (name_of f); entries = entries }))
        (put_entries f.entries) (entries_of f.entries []) (folder_of f)
        (Reads-read_entries f.entries [] hs) (Reads-pure (folder_of f)))

abbrev IsCons : Text → Type 0
IsCons t = (b : ℕ) × (bs : Text) × (t ≡ b ∷ bs)

if-IsCons : (b : Bool) (x y : Text) → IsCons x → IsCons y → IsCons (if b then x else y)
if-IsCons true x y first second = first
if-IsCons false x y first second = second

encode_char-IsCons : (c : ℕ) → IsCons (encode_char c)
unfolding encode_char
encode_char-IsCons c =
    if-IsCons (ltb c 0x80) _ _ (_, _, refl)
      (if-IsCons (ltb c 0x800) _ _ (_, _, refl)
        (if-IsCons (ltb c 0x10000) _ _ (_, _, refl) (_, _, refl)))

-- The part of a folder behind its name.
abbrev put_rest : PlainFolder → Bytes
unfolding put_entries
put_rest f = big_endian (length f.entries) ++ put_entries f.entries

next_name-put_folder :
    (f : PlainFolder) (rest : Bytes)
    → IsString (name_of f)
    → next_name (put_folder f ++ rest) ≡ some (encode_utf8 (name_of f), put_rest f ++ rest)
unfolding next_name named put_folder encode_utf8 put_rest
next_name-put_folder f rest good =
    let (b, bs, e) = encode_char-IsCons f.first in
    rw (
      append_assoc (put_string (name_of f)) (put_rest f) rest,
      Reads-read_string (name_of f) good (put_rest f ++ rest),
      e,
    )

next_name_nil : next_name [] ≡ none
unfolding next_name named read_string read_u32 read_exact
next_name_nil = refl

read_folders-put_folders :
    (fs : List PlainFolder) (fuel : ℕ) (acc : List (Text × Folder))
    → length fs < fuel
    → Each IsFolder fs
    → read_folders fuel acc (put_folders fs) ≡ ok (folders_of fs acc)
unfolding put_folders folders_of IsFolder IsEntry put_rest
read_folders-put_folders fs zero acc h each = absurd (omega arith)
read_folders-put_folders [] (suc fuel) acc h each = read_folders_end fuel acc [] next_name_nil
read_folders-put_folders (f ∷ fs) (suc fuel) acc h ((good, (small, entries)), each) =
    read_folders_ok fuel acc _ _ _ _ _ (next_name-put_folder f (put_folders fs) good)
      (Reads-read_folder f small entries (put_folders fs))
    ∙ read_folders-put_folders fs fuel (insert (encode_utf8 (name_of f)) (folder_of f) acc)
        (omega arith) each

length-put_folder : (f : PlainFolder) → 1 ≤ length (put_folder f)
unfolding put_folder put_string
length-put_folder f = omega arith

length-put_folders : (fs : List PlainFolder) → length fs ≤ length (put_folders fs)
unfolding put_folders
length-put_folders [] = omega arith
length-put_folders (f ∷ fs) =
    rw (length-append (put_folder f) (put_folders fs))
      (omega (arith, length-put_folder f, length-put_folders fs))

-- A wallet that is laid out as the format says, folder by folder and entry by entry, is parsed into its
-- folders: each with its last entry of each key, without the entries of unknown type, and the last of
-- the folders of one name. Names are not empty, keys and names are text, and lengths fit 32 bits.
pub parse-put_folders :
    (fs : List PlainFolder)
    → Each IsFolder fs
    → parse (put_folders fs) ≡ ok (record { folders = folders_of fs [] })
parse-put_folders fs each = parse_ok (put_folders fs) (folders_of fs []) (
    read_folders-put_folders fs (suc (length (put_folders fs))) []
      (omega (arith, length-put_folders fs)) each)
