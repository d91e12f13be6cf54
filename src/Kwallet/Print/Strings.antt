-- ===== src/Kwallet/Print/Strings.antt =====
-- kwallet/parser/src/qdata.rs, `read_string`: a string in UTF-16 is read back as its UTF-8 bytes.
use oo.Prelude.{
  ℕ, ◌+◌, ◌-◌, ◌*◌, ◌/◌, ◌%◌, ◌^◌, ◌≤◌, ◌<◌, ◌⊎◌, inl, inr, true, false, Bool-cases, List, [], ◌∷◌,
  ◌++◌, ◌≡◌, ◌∙◌, refl, ap, arith, length, Each, Bytes, none, some, ltb, if◌then◌else◌, ◌==◌,
}
use oo.Exec.{pure, ◌>>=◌}
use oo.Kwallet.Termination.{from_utf16-some}
use oo.Kwallet.Print.{
  Reads, Reads-bind, Reads-map, Reads-pure, put_u16, Reads-read_u16, Reads-read_u32,
}
use oo.Kwallet.Data.{
  read_u32, is_high, is_low, decode_utf16, encode_utf8, read_u16, read_units, string_of,
  read_string,
}
use oo.Legacy.RoundTrip.{big_endian}

-- A character is not a surrogate.
abbrev pub IsScalar : ℕ → Type 0
IsScalar c = (c < 0xd800) ⊎ ((0xe000 ≤ c) × (c < 0x110000))

-- The characters beyond the first 2 ^ 16 take two units.
unfoldable pub units_of : ℕ → List ℕ
units_of c =
    if ltb c 0x10000
    then c ∷ []
    else (0xd800 + (c - 0x10000) / 0x400) ∷ (0xdc00 + (c - 0x10000) % 0x400) ∷ []

unfoldable pub encode_utf16 : List ℕ → List ℕ
encode_utf16 [] = []
encode_utf16 (c ∷ cs) = units_of c ++ encode_utf16 cs

decode_utf16_one :
    (u : ℕ) (us cs : List ℕ)
    → is_high u ≡ false
    → is_low u ≡ false
    → decode_utf16 none us ≡ some cs
    → decode_utf16 none (u ∷ us) ≡ some (u ∷ cs)
unfolding decode_utf16
decode_utf16_one u us cs high low e = rw (decode_utf16, high, low, e)

decode_utf16_two :
    (h l : ℕ) (us cs : List ℕ)
    → is_high h ≡ true
    → is_low l ≡ true
    → decode_utf16 none us ≡ some cs
    → decode_utf16 none (h ∷ l ∷ us) ≡ some ((0x10000 + (h - 0xd800) * 0x400 + (l - 0xdc00)) ∷ cs)
unfolding decode_utf16
decode_utf16_two h l us cs high low e = rw (decode_utf16, high, low, e)

rejoin :
    (c : ℕ)
    → 0x10000 ≤ c
    → 65536 + (55296 + (c - 65536) / 1024 - 55296) * 1024 + (56320 + (c - 65536) % 1024 - 56320) ≡ c
rejoin c h = omega arith

decode_utf16-units_of :
    (c : ℕ) (us cs : List ℕ)
    → IsScalar c
    → decode_utf16 none us ≡ some cs
    → decode_utf16 none (units_of c ++ us) ≡ some (c ∷ cs)
unfolding units_of is_high is_low
decode_utf16-units_of c us cs h e = elim (Bool-cases (ltb c 0x10000)) [
  | inl small ↦ rw small (decode_utf16_one c us cs (ground arith) (ground arith) e)
  | inr big ↦ rw big (
      decode_utf16_two (0xd800 + (c - 0x10000) / 0x400) (0xdc00 + (c - 0x10000) % 0x400) us cs
        (ground arith) (ground arith) e
      ∙ ap (λ x. some (x ∷ cs)) (rejoin c (ground arith)))
]

decode_utf16-encode_utf16 :
    (cs : List ℕ) → Each IsScalar cs → decode_utf16 none (encode_utf16 cs) ≡ some cs
unfolding encode_utf16 decode_utf16
decode_utf16-encode_utf16 [] h = refl
decode_utf16-encode_utf16 (c ∷ cs) (h, hs) =
    decode_utf16-units_of c (encode_utf16 cs) cs h (decode_utf16-encode_utf16 cs hs)

-- A code unit.
abbrev pub IsUnit : ℕ → Type 0
IsUnit u = u < 2 ^ 16

Each-append : (us vs : List ℕ) → Each IsUnit us → Each IsUnit vs → Each IsUnit (us ++ vs)
Each-append [] vs h k = k
Each-append (u ∷ us) vs (h, hs) k = (h, Each-append us vs hs k)

units_of-IsUnit : (c : ℕ) → IsScalar c → Each IsUnit (units_of c)
unfolding units_of
units_of-IsUnit c h = elim (Bool-cases (ltb c 0x10000)) [
  | inl small ↦ rw (small) (ground arith, tt)
  | inr big ↦ rw (big) (ground arith, (ground arith, tt))
]

encode_utf16-IsUnit : (cs : List ℕ) → Each IsScalar cs → Each IsUnit (encode_utf16 cs)
unfolding encode_utf16
encode_utf16-IsUnit [] h = tt
encode_utf16-IsUnit (c ∷ cs) (h, hs) =
    Each-append (units_of c) (encode_utf16 cs) (units_of-IsUnit c h) (encode_utf16-IsUnit cs hs)

abbrev pub put_units : List ℕ → Bytes
put_units [] = []
put_units (u ∷ us) = put_u16 u ++ put_units us

Reads-read_units : (us : List ℕ) → Each IsUnit us → Reads (read_units (length us)) (put_units us) us
unfolding read_units
Reads-read_units [] h = Reads-pure []
Reads-read_units (u ∷ us) (h, hs) =
    Reads-bind read_u16 (λ unit. read_units (length us) >>= λ units. pure (unit ∷ units))
      (put_u16 u) (put_units us) u (u ∷ us) (Reads-read_u16 u h)
      (Reads-map (read_units (length us)) (λ units. pure (u ∷ units)) (put_units us) us (u ∷ us)
        (Reads-read_units us hs) (Reads-pure (u ∷ us)))

-- The length in bytes and the units.
unfoldable pub put_string : List ℕ → Bytes
unfolding encode_utf16
put_string cs = big_endian (2 * length (encode_utf16 cs)) ++ put_units (encode_utf16 cs)

-- A string that can be written.
unfoldable pub IsString : List ℕ → Type 0
unfolding encode_utf16
IsString cs = Each IsScalar cs × (2 * length (encode_utf16 cs) < 0xffffffff)

Reads-string_of :
    (cs : List ℕ)
    → IsString cs
    → Reads
        (string_of (2 * length (encode_utf16 cs)))
        (put_units (encode_utf16 cs))
        (encode_utf8 cs)
unfolding string_of IsString
Reads-string_of cs (h, small) rest =
    let n = length (encode_utf16 cs) in
    let other : (2 * n == 0xffffffff) ≡ false = ground arith in
    let even : (2 * n % 2 == 0) ≡ true = ground arith in
    let half : 2 * n / 2 ≡ n = omega arith in
    rw (
      string_of,
      other,
      even,
      half,
      Reads-read_units (encode_utf16 cs) (encode_utf16-IsUnit cs h) rest,
      from_utf16-some (encode_utf16 cs) cs (decode_utf16-encode_utf16 cs h),
    )

pub Reads-read_string :
    (cs : List ℕ) → IsString cs → Reads read_string (put_string cs) (encode_utf8 cs)
unfolding read_string put_string IsString
Reads-read_string cs (h, small) =
    Reads-bind read_u32 string_of (big_endian (2 * length (encode_utf16 cs)))
      (put_units (encode_utf16 cs)) (2 * length (encode_utf16 cs)) (encode_utf8 cs)
      (Reads-read_u32 (2 * length (encode_utf16 cs)) (omega arith)) (Reads-string_of cs (h, small))
