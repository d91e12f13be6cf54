-- ===== src/Kwallet/Termination.antt =====
-- kwallet/parser/src: no reader panics or gives back bytes, and the loop of `Wallet::parse` ends.
use oo.Prelude.{
  Option-cases, ap, ◌∙◌, ℕ, zero, suc, ◌≤◌, ◌<◌, ◌%◌, Bool, true, false, Bool-cases, inl, inr, none,
  some, List, [], ◌∷◌, ◌≡◌, ◌≢◌, refl, sym, subst, arith, length, take, drop, leb, ◌==◌, Bytes,
  Text, if◌then◌else◌,
}
use oo.HashMap.{insert}
use oo.Outcome.{Outcome-cases, unexpected_eof, Result, ok, err, panic}
use oo.Exec.{Step, pure, lift, continue, ◌>>=◌}
use oo.Kwallet.{io, KwalletError, invalid_data_structure, read_exact}
use oo.Kwallet.Data.{
  read_u16, read_u32, read_i32, read_units, string_of, read_string, array_of, read_byte_array,
  from_utf16, decode_utf16, from_be_bytes, encode_utf8,
}
use oo.Kwallet.Wallet.{
  Folder, Entries, parse, read_folders, read_folder, read_entries, read_entry, next_name, named,
  entry_type_of, insert_entry,
}

-- It ends in a value or an error, and what is left is no longer than before.
abbrev pub IsReader : {A : Type 0} → Step KwalletError Bytes A → Type 0
IsReader m = (s : Bytes) → ((m s).0 ≢ panic) × (length (m s).1 ≤ length s)

IsReader-pure : {A : Type 0} (a : A) → IsReader (pure a)
IsReader-pure a s = (λ h. cc, omega arith)

IsReader-lift : {A : Type 0} (r : Result KwalletError A) → r ≢ panic → IsReader (lift r)
IsReader-lift r h s = (h, omega arith)

continue-IsReader :
    {A B : Type 0} (r : Result KwalletError A) (f : A → Step KwalletError Bytes B) (s : Bytes)
    → r ≢ panic
    → ((a : A) → IsReader (f a))
    → ((continue r f s).0 ≢ panic) × (length (continue r f s).1 ≤ length s)
continue-IsReader (ok a) f s h each = each a s
continue-IsReader (err e) f s h each = (λ x. cc, omega arith)
continue-IsReader panic f s h each = absurd (h refl)

IsReader-bind :
    {A B : Type 0} (m : Step KwalletError Bytes A) (f : A → Step KwalletError Bytes B)
    → IsReader m
    → ((a : A) → IsReader (f a))
    → IsReader (m >>= f)
IsReader-bind m f first each s =
    let (safe, shrinks) = first s in
    let (safe₁, shrinks₁) = continue-IsReader (m s).0 f (m s).1 safe each in
    (safe₁, omega (arith, shrinks, shrinks₁))

length-drop_le : {A : Type 0} (n : ℕ) (xs : List A) → length (drop n xs) ≤ length xs
length-drop_le zero xs = omega arith
length-drop_le (suc n) [] = omega arith
length-drop_le (suc n) (x ∷ xs) = omega (arith, length-drop_le n xs)

if-IsReader :
    {A : Type 0} (b : Bool) (m k : Step KwalletError Bytes A)
    → IsReader m
    → IsReader k
    → IsReader (if b then m else k)
if-IsReader true m k first second = first
if-IsReader false m k first second = second

read_exact-IsReader : (n : ℕ) → IsReader (read_exact n)
unfolding read_exact
read_exact-IsReader n s = elim (Bool-cases (leb n (length s))) [
  | inl e ↦ rw (e) (λ h. cc, length-drop_le n s)
  | inr e ↦ rw (e) (λ h. cc, omega arith)
]

pub read_exact_enough :
    (n : ℕ) (s : Bytes) → n ≤ length s → read_exact n s ≡ (ok (take n s), drop n s)
unfolding read_exact
read_exact_enough n s h = ground arith

read_exact_short :
    (n : ℕ) (s : Bytes) → length s < n → read_exact n s ≡ (err (io unexpected_eof), [])
unfolding read_exact
read_exact_short n s h = ground arith

read_u32-IsReader : IsReader read_u32
unfolding read_u32
read_u32-IsReader =
    IsReader-bind (read_exact 4) _ (read_exact-IsReader 4)
      (λ buf. IsReader-pure (from_be_bytes buf))

read_units-IsReader : (n : ℕ) → IsReader (read_units n)
unfolding read_units read_u16
read_units-IsReader zero = IsReader-pure []
read_units-IsReader (suc n) =
    IsReader-bind _ _
      (IsReader-bind (read_exact 2) _ (read_exact-IsReader 2)
        (λ buf. IsReader-pure (from_be_bytes buf)))
      (λ unit. IsReader-bind _ _ (read_units-IsReader n) (λ units. IsReader-pure (unit ∷ units)))

ok-panic : {A : Type 0} {a : A} → ◌≢◌ {A = Result KwalletError A} (ok a) panic
ok-panic h = cc

err-panic : {A : Type 0} {e : KwalletError} → ◌≢◌ {A = Result KwalletError A} (err e) panic
err-panic h = cc

pub err-ok :
    {A : Type 0} {e : KwalletError} {a : A} → ◌≢◌ {A = Result KwalletError A} (err e) (ok a)
err-ok h = cc

from_utf16-none :
    (units : List ℕ)
    → decode_utf16 none units ≡ none
    → from_utf16 units ≡ err invalid_data_structure
unfolding from_utf16
from_utf16-none units e = rw (from_utf16, e)

pub from_utf16-some :
    (units cs : List ℕ) → decode_utf16 none units ≡ some cs → from_utf16 units ≡ ok (encode_utf8 cs)
unfolding from_utf16
from_utf16-some units cs e = rw (from_utf16, e)

from_utf16-safe : (units : List ℕ) → from_utf16 units ≢ panic
unfolding from_utf16
from_utf16-safe units h = elim (Option-cases (decode_utf16 none units)) [
  | inl e ↦ err-panic (sym (from_utf16-none units e) ∙ h)
  | inr (cs, e) ↦ ok-panic (sym (from_utf16-some units cs e) ∙ h)
]

string_of-IsReader : (n : ℕ) → IsReader (string_of n)
unfolding string_of
string_of-IsReader n = if-IsReader (n == 0xffffffff) _ _ (IsReader-pure []) (
    if-IsReader (n % 2 == 0) _ _
      (IsReader-bind _ _ (read_units-IsReader _)
        (λ units. IsReader-lift (from_utf16 units) (from_utf16-safe units)))
      (IsReader-lift (err _) (λ h. cc)))

read_string-IsReader : IsReader read_string
unfolding read_string
read_string-IsReader = IsReader-bind _ _ read_u32-IsReader string_of-IsReader

read_byte_array-IsReader : IsReader read_byte_array
unfolding read_byte_array array_of
read_byte_array-IsReader =
    IsReader-bind _ _ read_u32-IsReader
      (λ n. if-IsReader (n == 0xffffffff) _ _ (IsReader-pure []) (read_exact-IsReader n))

entry_type_of-safe : (n : ℕ) → entry_type_of n ≢ panic
unfolding entry_type_of
entry_type_of-safe n h = ground arith

read_entry-IsReader : IsReader read_entry
unfolding read_entry read_i32
read_entry-IsReader = IsReader-bind _ _ read_string-IsReader λ key.
    IsReader-bind _ _
      (IsReader-bind (read_exact 4) _ (read_exact-IsReader 4)
        (λ buf. IsReader-pure (from_be_bytes buf)))
      λ raw.
        IsReader-bind _ _ (IsReader-lift (entry_type_of raw) (entry_type_of-safe raw))
          λ type. IsReader-bind _ _ read_byte_array-IsReader λ value. IsReader-pure _

read_entries-IsReader : (n : ℕ) (entries : Entries) → IsReader (read_entries n entries)
unfolding read_entries
read_entries-IsReader zero entries = IsReader-pure entries
read_entries-IsReader (suc n) entries =
    IsReader-bind _ _ read_entry-IsReader
      (λ entry. read_entries-IsReader n (insert_entry entry entries))

read_folder-IsReader : (name : Text) → IsReader (read_folder name)
unfolding read_folder
read_folder-IsReader name =
    IsReader-bind _ _ read_u32-IsReader
      λ n. IsReader-bind _ _ (read_entries-IsReader n []) λ entries. IsReader-pure _

length-drop_lt : (n : ℕ) (s : Bytes) → suc n ≤ length s → length (drop (suc n) s) < length s
length-drop_lt n [] h = absurd (omega arith)
length-drop_lt n (b ∷ s) h = omega (arith, length-drop_le n s)

-- A string that is read takes the four bytes of its length at least.
read_string_shrinks :
    (s : Bytes) (t : Text) → (read_string s).0 ≡ ok t → length (read_string s).1 < length s
unfolding read_string read_u32
read_string_shrinks s t h = elim (Bool-cases (leb 4 (length s))) [
  | inl e ↦
      let enough : read_string s ≡ string_of (from_be_bytes (take 4 s)) (drop 4 s) =
        rw (read_exact_enough 4 s (ground arith)) in
      subst (λ (r : Result KwalletError Text × Bytes). length r.1 < length s) (sym enough)
        (omega (
          arith,
          (string_of-IsReader (from_be_bytes (take 4 s)) (drop 4 s)).1,
          length-drop_lt 3 s (ground arith),
        ))
  | inr e ↦
      let short : read_string s ≡ (err (io unexpected_eof), []) =
        rw (read_exact_short 4 s (ground arith)) in
      absurd (err-ok (sym (ap (λ (r : Result KwalletError Text × Bytes). r.0) short) ∙ h))
]

next_name_shrinks :
    (s : Bytes) (name : Text) (s₁ : Bytes) → next_name s ≡ some (name, s₁) → length s₁ < length s
unfolding next_name named
next_name_shrinks s name s₁ h =
    go (read_string s).0 (read_string s).1 (λ t e. read_string_shrinks s t e) h
  where
    go :
        (r : Result KwalletError Text) (after : Bytes)
        → ((t : Text) → r ≡ ok t → length after < length s)
        → named r after ≡ some (name, s₁)
        → length s₁ < length s
    go (ok []) after shrinks h = absurd cc
    go (ok (c ∷ cs)) after shrinks h =
        let same : after ≡ s₁ = cc in
        subst (λ (x : Bytes). length x < length s) same (shrinks (c ∷ cs) refl)
    go (err e) after shrinks h = absurd cc
    go panic after shrinks h = absurd cc

-- What the loop does behind a folder that was read, an error or none.
then_folders :
    ℕ
    → Text
    → List (Text × Folder)
    → Result KwalletError Folder
    → Bytes
    → Result KwalletError (List (Text × Folder))
then_folders fuel name folders r s₂ = elim r [
  | ok folder ↦ read_folders fuel (insert name folder folders) s₂
  | err e ↦ err e
  | panic ↦ panic
]

then_folders-safe :
    (fuel : ℕ) (name : Text) (folders : List (Text × Folder)) (r : Result KwalletError Folder)
    (s₂ : Bytes)
    → r ≢ panic
    → ((fs : List (Text × Folder)) → read_folders fuel fs s₂ ≢ panic)
    → then_folders fuel name folders r s₂ ≢ panic
unfolding then_folders
then_folders-safe fuel name folders (ok folder) s₂ h each = each (insert name folder folders)
then_folders-safe fuel name folders (err e) s₂ h each = err-panic
then_folders-safe fuel name folders panic s₂ h each = absurd (h refl)

read_folders_next :
    (fuel : ℕ) (folders : List (Text × Folder)) (s : Bytes) (name : Text) (s₁ : Bytes)
    → next_name s ≡ some (name, s₁)
    → read_folders (suc fuel) folders s
      ≡ then_folders fuel name folders (read_folder name s₁).0 (read_folder name s₁).1
unfolding read_folders then_folders
read_folders_next fuel folders s name s₁ e = rw (read_folders, e)

pub read_folders_end :
    (fuel : ℕ) (folders : List (Text × Folder)) (s : Bytes)
    → next_name s ≡ none
    → read_folders (suc fuel) folders s ≡ ok folders
unfolding read_folders
read_folders_end fuel folders s e = rw (read_folders, e)

pub read_folders_ok :
    (fuel : ℕ) (folders : List (Text × Folder)) (s : Bytes) (name : Text) (s₁ s₂ : Bytes)
    (folder : Folder)
    → next_name s ≡ some (name, s₁)
    → read_folder name s₁ ≡ (ok folder, s₂)
    → read_folders (suc fuel) folders s ≡ read_folders fuel (insert name folder folders) s₂
unfolding read_folders
read_folders_ok fuel folders s name s₁ s₂ folder e e₁ = rw (read_folders, e, e₁, e₁)

read_folders-safe :
    (fuel : ℕ) (folders : List (Text × Folder)) (s : Bytes)
    → length s < fuel
    → read_folders fuel folders s ≢ panic
read_folders-safe zero folders s h = absurd (omega arith)
read_folders-safe (suc fuel) folders s h = elim (Option-cases (next_name s)) [
  | inl e ↦ λ x. ok-panic (sym (read_folders_end fuel folders s e) ∙ x)
  | inr ((name, s₁), e) ↦
      let less = next_name_shrinks s name s₁ e in
      let (safe, shrinks) = read_folder-IsReader name s₁ in
      let rest =
        then_folders-safe fuel name folders (read_folder name s₁).0 (read_folder name s₁).1 safe
          (λ fs.
            read_folders-safe fuel fs (read_folder name s₁).1 (omega (arith, less, shrinks, h))) in
      λ x. rest (sym (read_folders_next fuel folders s name s₁ e) ∙ x)
]

pub parse_ok :
    (data' : Bytes) (fs : List (Text × Folder))
    → read_folders (suc (length data')) [] data' ≡ ok fs
    → parse data' ≡ ok (record { folders = fs })
unfolding parse
parse_ok data' fs e = rw (parse, e)

parse_err :
    (data' : Bytes) (x : KwalletError)
    → read_folders (suc (length data')) [] data' ≡ err x
    → parse data' ≡ err x
unfolding parse
parse_err data' x e = rw (parse, e)

-- Parsing always ends, in a wallet or in an error, whatever the bytes: it never panics, and the rounds
-- that the loop is given, one more than there are bytes, never run out.
pub parse_ends : (data' : Bytes) → parse data' ≢ panic
parse_ends data' = elim (Outcome-cases (read_folders (suc (length data')) [] data')) [
  | inl (fs, e) ↦ λ h. ok-panic (sym (parse_ok data' fs e) ∙ h)
  | inr (inl (x, e)) ↦ λ h. err-panic (sym (parse_err data' x e) ∙ h)
  | inr (inr e) ↦ absurd (read_folders-safe (suc (length data')) [] data' (omega arith) e)
]
