-- ===== src/Legacy/RoundTrip.antt =====
-- client/src/file/api/legacy_keyring.rs against a description of its format: what is laid out behind
-- the cursor is read back, and the cursor stands behind it.
pub mod Parts
pub mod Items
use oo.Prelude.{
  ℕ, zero, suc, ◌+◌, ◌*◌, ◌/◌, ◌%◌, ◌^◌, ◌<◌, ◌≤◌, Bool, true, false, Option, none, some, List, [],
  ◌∷◌, ◌++◌, ◌≡◌, ◌∙◌, refl, sym, ap, arith, length, take, drop, subst, append_assoc, append-nil,
  take-append, drop-append, length-append, Bytes, Text,
}
use oo.HashMap.{insert}
use oo.Outcome.{Outcome, ok, err, panic}
use oo.Exec.{Exec, pure, lift, ◌>>=◌, ◌>>◌}
use oo.Secret.Utf8.{valid_utf8}
use oo.Item.{Map}
use oo.Legacy.{Cursor, ReadBytes, read_byte_array, read_string, array_of, slice, as_text}
use oo.Legacy.Items.{read_attributes, insert_attributes, required, read_value, decimal}

abbrev pub cursor : Bytes → ℕ → Cursor
cursor content position = record { content = content; position = position }

-- Wherever these bytes stand, the method reads them and gives this value.
pub record Reads {A : Type 0} (m : Exec Cursor A) (bytes : Bytes) (a : A) : Type 0 where
  pub at :
      (before rest content : Bytes)
      → content ≡ before ++ (bytes ++ rest)
      → m (cursor content (length before)) ≡ (ok a, cursor content (length (before ++ bytes)))

-- A number below 2 ^ 32, big-endian.
abbrev pub big_endian : ℕ → Bytes
big_endian n = n / 2 ^ 24 % 256 ∷ n / 2 ^ 16 % 256 ∷ n / 2 ^ 8 % 256 ∷ n % 256 ∷ []

-- The documented behaviour of `read_u32(Endian::Big)`.
pub record IsBigEndian (r : ReadBytes) : Type 0 where
  pub number : (n : ℕ) → n < 2 ^ 32 → Reads r.read_u32 (big_endian n) n

pub Reads-pure : {A : Type 0} (a : A) → Reads (pure a) [] a
Reads-pure a = record { at = λ before rest content e. rw append-nil }

pub Reads-bind :
    {A B : Type 0} (m : Exec Cursor A) (f : A → Exec Cursor B) (b c : Bytes) (a : A) (a' : B)
    → Reads m b a
    → Reads (f a) c a'
    → Reads (m >>= f) (b ++ c) a'
Reads-bind m f b c a a' first second = record {
  at = λ before rest content e.
      let e₁ : content ≡ before ++ (b ++ (c ++ rest)) =
        e ∙ ap (λ x. before ++ x) (append_assoc b c rest) in
      let e₂ : content ≡ (before ++ b) ++ (c ++ rest) =
        e₁ ∙ sym (append_assoc before b (c ++ rest)) in
      rw (
        first.at before (c ++ rest) content e₁,
        second.at (before ++ b) rest content e₂,
        append_assoc,
      );
}

-- The last step takes no more bytes.
pub Reads-last :
    {A B : Type 0} (m : Exec Cursor A) (f : A → Exec Cursor B) (b : Bytes) (a : A) (a' : B)
    → Reads m b a
    → Reads (f a) [] a'
    → Reads (m >>= f) b a'
Reads-last m f b a a' first last =
    subst (λ (x : Bytes). Reads (m >>= f) x a') (append-nil b) (Reads-bind m f b [] a a' first last)

pub Reads-none : Reads (array_of 4294967295) [] none
unfolding array_of
Reads-none = record { at = λ before rest content e. rw append-nil }

-- A byte array, and a text, behind its length.
abbrev pub put_array : Bytes → Bytes
put_array s = big_endian (length s) ++ s

room :
    (before s rest content : Bytes)
    → content ≡ before ++ (s ++ rest)
    → length before + length s ≤ length content
room before s rest content e =
    rw (e, length-append before (s ++ rest), length-append s rest) (omega arith)

Reads-slice : (s : Bytes) → Reads (slice (length s)) s s
unfolding slice
Reads-slice s = record {
  at = λ before rest content e.
      let piece : take (length s) (drop (length before) content) ≡ s =
        rw (e, drop-append before (s ++ rest), take-append s rest) refl in
      ground (arith, room before s rest content e, piece, length-append before s);
}

Reads-array_of : (s : Bytes) → length s < 2147483647 → Reads (array_of (length s)) s (some s)
unfolding array_of
Reads-array_of s small = record {
  at = λ before rest content e.
      let fits = room before s rest content e in
      let read = (Reads-slice s).at before rest content e in ground (arith, fits, read);
}

module _ ⦃r : ReadBytes⦄ (lawful : IsBigEndian r) where
  pub Reads-read_byte_array :
      (s : Bytes) → length s < 2147483647 → Reads read_byte_array (put_array s) (some s)
  unfolding read_byte_array
  Reads-read_byte_array s small =
      Reads-bind _ array_of (big_endian (length s)) s (length s) (some s)
        (lawful.number (length s) (omega (arith, small))) (Reads-array_of s small)

  pub Reads-read_string :
      (s : Text)
      → length s < 2147483647
      → valid_utf8 s ≡ true
      → Reads read_string (put_array s) (some s)
  unfolding read_string as_text
  Reads-read_string s small valid = record {
    at = λ before rest content e.
        rw ((Reads-read_byte_array s small).at before rest content e, valid);
  }

-- The value of an attribute.
pub data LegacyValue : Type 0 where
  text_value : Text → LegacyValue
  number_value : ℕ → LegacyValue

-- A text that the format can hold.
abbrev pub IsText : Text → Type 0
IsText s = (length s < 2147483647) × (valid_utf8 s ≡ true)

abbrev pub IsValue : LegacyValue → Type 0
IsValue (text_value t) = IsText t
IsValue (number_value n) = n < 2 ^ 32

abbrev pub put_value : LegacyValue → Bytes
put_value (text_value t) = big_endian 0 ++ put_array t
put_value (number_value n) = big_endian 1 ++ big_endian n

-- A number is kept as its decimal digits.
abbrev pub text_of : LegacyValue → Text
text_of (text_value t) = t
text_of (number_value n) = decimal n

abbrev pub put_attributes : List (Text × LegacyValue) → Bytes
put_attributes [] = []
put_attributes ((k, v) ∷ m) = put_array k ++ (put_value v ++ put_attributes m)

abbrev pub AreAttributes : List (Text × LegacyValue) → Type 0
AreAttributes [] = Unit
AreAttributes ((k, v) ∷ m) = (IsText k × IsValue v) × AreAttributes m

-- A later attribute of the same name takes the place of an earlier one.
abbrev pub attributes_of : List (Text × LegacyValue) → Map → Map
attributes_of [] result = result
attributes_of ((k, v) ∷ m) result = attributes_of m (insert k (text_of v) result)

module _ ⦃r : ReadBytes⦄ (lawful : IsBigEndian r) where
  Reads-required : (s : Text) → IsText s → Reads (required read_string) (put_array s) s
  unfolding required
  Reads-required s h =
      Reads-last read_string _ (put_array s) (some s) s (Reads-read_string lawful s h.0 h.1)
        (Reads-pure s)

  Reads-value :
      {A : Type 0} (v : LegacyValue) (next : Text → Exec Cursor A) (rest : Bytes) (a : A)
      → IsValue v
      → Reads (next (text_of v)) rest a
      → Reads (r.read_u32 >>= (λ kind. read_value kind >>= next)) (put_value v ++ rest) a
  unfolding read_value
  Reads-value (text_value t) next rest a h after =
      Reads-bind _ _ (big_endian 0) (put_array t ++ rest) 0 a (lawful.number 0 (omega arith))
        (Reads-bind _ next (put_array t) rest t a (Reads-required t h) after)
  Reads-value (number_value n) next rest a h after =
      Reads-bind _ _ (big_endian 1) (big_endian n ++ rest) 1 a (lawful.number 1 (omega arith)) (
        Reads-bind _ next (big_endian n) rest (decimal n) a
          (Reads-last r.read_u32 _ (big_endian n) n (decimal n) (lawful.number n h)
            (Reads-pure (decimal n)))
          after)

  pub Reads-insert_attributes :
      (m : List (Text × LegacyValue)) (result : Map)
      → AreAttributes m
      → Reads (insert_attributes (length m) result) (put_attributes m) (attributes_of m result)
  unfolding insert_attributes
  Reads-insert_attributes [] result h = Reads-pure result
  Reads-insert_attributes ((k, v) ∷ m) result h =
      Reads-bind _ _ (put_array k) (put_value v ++ put_attributes m) k _ (Reads-required k h.0.0) (
        Reads-value v (λ value. insert_attributes (length m) (insert k value result))
          (put_attributes m) _ h.0.1 (Reads-insert_attributes m (insert k (text_of v) result) h.1))

  -- Attributes that are laid out one behind the other, each a name, the kind of the value and the
  -- value, are read back wherever they stand; a later attribute replaces an earlier one of the same
  -- name, and a number gives its decimal digits.
  pub read_attributes-put_attributes :
      (m : List (Text × LegacyValue)) (before rest : Bytes)
      → AreAttributes m
      → read_attributes (length m) (cursor (before ++ (put_attributes m ++ rest)) (length before))
        ≡ (
          ok (attributes_of m []),
          cursor (before ++ (put_attributes m ++ rest)) (length (before ++ put_attributes m)),
        )
  unfolding read_attributes
  read_attributes-put_attributes m before rest h =
      (Reads-insert_attributes m [] h).at before rest _ refl
