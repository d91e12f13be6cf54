-- ===== src/Legacy/RoundTrip/Parts.antt =====
-- client/src/file/api/legacy_keyring.rs: the parts of an item against a description of their format.
use oo.Prelude.{
  ℕ, ◌+◌, ◌*◌, ◌^◌, ◌<◌, Option, none, some, List, [], ◌∷◌, ◌++◌, arith, length, Bytes, Text,
}
use oo.Legacy.{
  ReadBytes, read_byte_array, read_string, read_time, skip_numbers, skip_acls, array_of, as_text,
}
use oo.Legacy.RoundTrip.{
  Reads, Reads-pure, Reads-bind, Reads-last, Reads-none, IsBigEndian, big_endian, put_array,
  Reads-read_byte_array, Reads-read_string, IsText,
}

-- A text or an array that may be missing.
abbrev pub put_optional : Option Bytes → Bytes
put_optional none = big_endian 4294967295
put_optional (some s) = put_array s

abbrev pub IsOptional : Option Text → Type 0
IsOptional none = Unit
IsOptional (some s) = IsText s

abbrev pub IsArray : Option Bytes → Type 0
IsArray none = Unit
IsArray (some s) = length s < 2147483647

abbrev pub put_numbers : List ℕ → Bytes
put_numbers [] = []
put_numbers (n ∷ ns) = big_endian n ++ put_numbers ns

abbrev pub AreNumbers : List ℕ → Type 0
AreNumbers [] = Unit
AreNumbers (n ∷ ns) = (n < 2 ^ 32) × AreNumbers ns

-- An entry of the list of access rights.
pub record Acl : Type 0 where
  pub flags : ℕ
  pub display_name : Option Text
  pub path : Option Text
  pub reserved0 : Option Text
  pub reserved1 : ℕ

abbrev pub put_acls : List Acl → Bytes
put_acls [] = []
put_acls (a ∷ acls) =
    big_endian a.flags
    ++ (put_optional a.display_name
        ++ (put_optional a.path
            ++ (put_optional a.reserved0 ++ (big_endian a.reserved1 ++ put_acls acls))))

pub record IsAcl (a : Acl) : Type 0 where
  pub flags : a.flags < 2 ^ 32
  pub display_name : IsOptional a.display_name
  pub path : IsOptional a.path
  pub reserved0 : IsOptional a.reserved0
  pub reserved1 : a.reserved1 < 2 ^ 32

abbrev pub AreAcls : List Acl → Type 0
AreAcls [] = Unit
AreAcls (a ∷ acls) = IsAcl a × AreAcls acls

module _ ⦃r : ReadBytes⦄ (lawful : IsBigEndian r) where
  pub Reads-array : (o : Option Bytes) → IsArray o → Reads read_byte_array (put_optional o) o
  unfolding read_byte_array
  Reads-array none h =
      Reads-last _ array_of (big_endian 4294967295) 4294967295 none
        (lawful.number 4294967295 (omega arith)) Reads-none
  Reads-array (some s) h = Reads-read_byte_array lawful s h

  pub Reads-string : (o : Option Text) → IsOptional o → Reads read_string (put_optional o) o
  unfolding read_string as_text
  Reads-string none h =
      Reads-last _ _ (put_optional none) none none (Reads-array none tt) (Reads-pure none)
  Reads-string (some s) h = Reads-read_string lawful s h.0 h.1

  pub Reads-time :
      (hi lo : ℕ)
      → hi < 2 ^ 32
      → lo < 2 ^ 32
      → Reads read_time (put_numbers (hi ∷ lo ∷ [])) (hi * 2 ^ 32 + lo)
  unfolding read_time
  Reads-time hi lo h l =
      Reads-bind _ _ (big_endian hi) (big_endian lo) hi _ (lawful.number hi h)
        (Reads-last _ _ (big_endian lo) lo _ (lawful.number lo l) (Reads-pure (hi * 2 ^ 32 + lo)))

  pub Reads-skip_numbers :
      (ns : List ℕ) → AreNumbers ns → Reads (skip_numbers (length ns)) (put_numbers ns) tt
  unfolding skip_numbers
  Reads-skip_numbers [] h = Reads-pure tt
  Reads-skip_numbers (n ∷ ns) h =
      Reads-bind _ _ (big_endian n) (put_numbers ns) n tt (lawful.number n h.0)
        (Reads-skip_numbers ns h.1)

  pub Reads-skip_acls :
      (acls : List Acl) → AreAcls acls → Reads (skip_acls (length acls)) (put_acls acls) tt
  unfolding skip_acls
  Reads-skip_acls [] h = Reads-pure tt
  Reads-skip_acls (a ∷ acls) h =
      Reads-bind _ _ (big_endian a.flags) _ a.flags tt (lawful.number a.flags h.0.flags) (
        Reads-bind _ _ (put_optional a.display_name) _ a.display_name tt
          (Reads-string a.display_name h.0.display_name)
          (Reads-bind _ _ (put_optional a.path) _ a.path tt (Reads-string a.path h.0.path) (
            Reads-bind _ _ (put_optional a.reserved0) _ a.reserved0 tt
              (Reads-string a.reserved0 h.0.reserved0)
              (Reads-bind _ _ (big_endian a.reserved1) (put_acls acls) a.reserved1 tt
                (lawful.number a.reserved1 h.0.reserved1) (Reads-skip_acls acls h.1)))))
