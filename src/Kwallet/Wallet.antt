-- ===== src/Kwallet/Wallet.antt =====
-- kwallet/parser/src/wallet.rs: the folders and entries of a wallet.
use oo.Prelude.{
  ℕ, zero, suc, Option, none, some, List, [], ◌∷◌, length, Bytes, Text, if◌then◌else◌, ◌==◌,
}
use oo.HashMap.{get, insert, keys}
use oo.Outcome.{Result, ok, err, panic}
use oo.Exec.{Step, pure, lift, ◌>>=◌}
use oo.Kwallet.{KwalletError, invalid_data_structure}
use oo.Kwallet.Data.{read_u32, read_i32, read_string, read_byte_array}

pub data EntryType : Type 0 where
  unknown password stream map : EntryType

unfoldable pub entry_type_of : ℕ → Result KwalletError EntryType
entry_type_of value =
    if value == 0
    then ok unknown
    else if value == 1
    then ok password
    else if value == 2
    then ok stream
    else if value == 3
    then ok map
    else err invalid_data_structure

pub record Entry : Type 0 where
  pub key : Text
  pub entry_type : EntryType
  pub value : Bytes

unfoldable pub as_password : Entry → Result KwalletError Text
as_password e = elim e.entry_type [
  | password ↦ (read_string e.value).0
  | _ ↦ err invalid_data_structure
]

unfoldable pub read_pairs : ℕ → List (Text × Text) → Step KwalletError Bytes (List (Text × Text))
read_pairs zero m = pure m
read_pairs (suc count) m = do
  key ← read_string
  value ← read_string
  read_pairs count (insert key value m)

unfoldable pub read_map : Step KwalletError Bytes (List (Text × Text))
read_map = do count ← read_u32; read_pairs count []

unfoldable pub as_map : Entry → Result KwalletError (List (Text × Text))
as_map e = elim e.entry_type [ map ↦ (read_map e.value).0 | _ ↦ err invalid_data_structure ]

unfoldable pub as_stream : Entry → Bytes
as_stream e = e.value

abbrev pub Entries : Type 0
Entries = List (Text × Entry)

pub record Folder : Type 0 where
  pub name : Text
  pub entries : Entries

pub record Wallet : Type 0 where
  pub folders : List (Text × Folder)

-- An entry of unknown type is read and left out.
unfoldable pub insert_entry : Entry → Entries → Entries
insert_entry e entries = elim e.entry_type [ unknown ↦ entries | _ ↦ insert e.key e entries ]

unfoldable pub read_entry : Step KwalletError Bytes Entry
read_entry = do
  key ← read_string
  raw ← read_i32
  entry_type ← lift (entry_type_of raw)
  value ← read_byte_array
  pure (record { key = key; entry_type = entry_type; value = value })

unfoldable pub read_entries : ℕ → Entries → Step KwalletError Bytes Entries
read_entries zero entries = pure entries
read_entries (suc count) entries = do
  entry ← read_entry
  read_entries count (insert_entry entry entries)

unfoldable pub read_folder : Text → Step KwalletError Bytes Folder
read_folder name = do
  entry_count ← read_u32
  entries ← read_entries entry_count []
  pure (record { name = name; entries = entries })

-- The name of the next folder; none at the end, which is any name that is empty or does not read.
unfoldable pub named : Result KwalletError Text → Bytes → Option (Text × Bytes)
named (ok []) after = none
named (ok (c ∷ cs)) after = some (c ∷ cs, after)
named (err e) after = none
named panic after = none

unfoldable pub next_name : Bytes → Option (Text × Bytes)
next_name s = named (read_string s).0 (read_string s).1

-- The loop of `Wallet::parse`; it panics where the fuel runs out.
unfoldable pub read_folders :
    ℕ → List (Text × Folder) → Bytes → Result KwalletError (List (Text × Folder))
read_folders zero folders s = panic
read_folders (suc fuel) folders s = elim (next_name s) [
  | none ↦ ok folders
  | some (name, s₁) ↦ elim (read_folder name s₁).0 [
    | ok folder ↦ read_folders fuel (insert name folder folders) (read_folder name s₁).1
    | err e ↦ err e
    | panic ↦ panic
  ]
]

-- `Wallet::parse`; each folder takes a byte at least.
unfoldable pub parse : Bytes → Result KwalletError Wallet
parse data' = elim (read_folders (suc (length data')) [] data') [
  | ok folders ↦ ok (record { folders = folders })
  | err e ↦ err e
  | panic ↦ panic
]

unfoldable pub get_folder : Wallet → Text → Option Folder
get_folder w name = get name w.folders

unfoldable pub get_entry : Wallet → Text → Text → Option Entry
get_entry w folder key = elim (get folder w.folders) [ none ↦ none | some f ↦ get key f.entries ]

unfoldable pub folder_names : Wallet → List Text
folder_names w = keys w.folders
