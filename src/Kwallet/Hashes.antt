-- ===== src/Kwallet/Hashes.antt =====
-- kwallet/parser/src/lib.rs: the hashes of the names of folders and entries, which stand before the
-- encrypted part of a file.
use oo.Prelude.{
  ℕ, zero, suc, Bool, false, none, some, List, [], ◌∷◌, length, all, any, ◌==◌, if◌then◌else◌,
  Bytes, Text, bytes_eq,
}
use oo.HashMap.{get, insert}
use oo.Outcome.{Result, ok, err}
use oo.Exec.{Step, pure, ◌>>=◌}
use oo.Kwallet.{KwalletError, hash_validation_failed, read_exact}
use oo.Kwallet.Data.{read_u32}
use oo.Kwallet.Wallet.{Wallet, Folder, Entries}
use oo.Kwallet.Crypto.{KwalletPrimitives, compute_md5}

abbrev pub FolderHash : Type 0
FolderHash = Bytes × List Bytes

unfoldable pub read_entry_hashes : ℕ → Step KwalletError Bytes (List Bytes)
read_entry_hashes zero = pure []
read_entry_hashes (suc count) = do
  entry_hash ← read_exact 16
  entry_hashes ← read_entry_hashes count
  pure (entry_hash ∷ entry_hashes)

unfoldable pub read_folder_hashes : ℕ → Step KwalletError Bytes (List FolderHash)
read_folder_hashes zero = pure []
read_folder_hashes (suc count) = do
  folder_hash ← read_exact 16
  entry_count ← read_u32
  entry_hashes ← read_entry_hashes entry_count
  folder_hashes ← read_folder_hashes count
  pure ((folder_hash, entry_hashes) ∷ folder_hashes)

unfoldable pub read_hashes : Step KwalletError Bytes (List FolderHash)
read_hashes = do folder_count ← read_u32; read_folder_hashes folder_count

module _ ⦃p : KwalletPrimitives⦄ where
  unfoldable pub entry_hashes_of : Entries → List Bytes
  entry_hashes_of [] = []
  entry_hashes_of ((key, e) ∷ entries) = compute_md5 key ∷ entry_hashes_of entries

  -- The hashes of the folders of a wallet, each with those of its entries.
  unfoldable pub hash_map :
      List (Text × Folder) → List (Bytes × List Bytes) → List (Bytes × List Bytes)
  unfolding insert
  hash_map [] m = m
  hash_map ((name, folder) ∷ folders) m =
      hash_map folders (insert (compute_md5 name) (entry_hashes_of folder.entries) m)

  -- A folder is there, with as many entries as expected, and each that is expected is among them.
  unfoldable pub matches : List (Bytes × List Bytes) → FolderHash → Bool
  unfolding get all any bytes_eq
  matches m (expected_folder, expected_entries) = elim (get expected_folder m) [
    | none ↦ false
    | some computed ↦
        if length computed == length expected_entries
        then all (λ e. any (λ c. bytes_eq c e) computed) expected_entries
        else false
  ]

  unfoldable pub check_folders :
      List (Bytes × List Bytes) → List FolderHash → Result KwalletError (Unit {0})
  unfolding matches
  check_folders m [] = ok tt
  check_folders m (f ∷ fs) =
      let rest = check_folders m fs in if matches m f then rest else err hash_validation_failed

  unfoldable pub validate_hashes : Wallet → List FolderHash → Result KwalletError (Unit {0})
  unfolding check_folders hash_map
  validate_hashes wallet folder_hashes = check_folders (hash_map wallet.folders []) folder_hashes
