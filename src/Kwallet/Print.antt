-- ===== src/Kwallet/Print.antt =====
-- kwallet/parser/src/qdata.rs and wallet.rs against a description of the format: a wallet that is laid
-- out in bytes is read back.
pub mod Strings
pub mod Wallets
use oo.Prelude.{
  ℕ, zero, suc, ◌+◌, ◌*◌, ◌/◌, ◌%◌, ◌^◌, ◌≤◌, ◌<◌, List, [], ◌∷◌, ◌++◌, ◌≡◌, ◌∙◌, refl, sym, ap,
  subst, arith, append_assoc, length, take, drop, take-append, drop-append, length-append, Bytes,
  Option, none, some, Bool, false, ◌==◌,
}
use oo.Outcome.{Result, ok, err, panic}
use oo.Exec.{Step, pure, lift, continue, ◌>>=◌}
use oo.Kwallet.{KwalletError, read_exact}
use oo.Kwallet.Termination.{read_exact_enough}
use oo.Kwallet.Data.{read_u16, read_u32, read_i32, read_byte_array, array_of, from_be_bytes}
use oo.Legacy.RoundTrip.{big_endian}

-- In front of any others, these bytes are read as this value.
abbrev pub Reads : {A : Type 0} → Step KwalletError Bytes A → Bytes → A → Type 0
Reads m bytes a = (rest : Bytes) → m (bytes ++ rest) ≡ (ok a, rest)

pub Reads-pure : {A : Type 0} (a : A) → Reads (pure a) [] a
Reads-pure a rest = refl

pub Reads-bind :
    {A B : Type 0} (m : Step KwalletError Bytes A) (f : A → Step KwalletError Bytes B) (b c : Bytes)
    (a : A) (a' : B)
    → Reads m b a
    → Reads (f a) c a'
    → Reads (m >>= f) (b ++ c) a'
Reads-bind m f b c a a' first second rest =
    rw (append_assoc b c rest, first (c ++ rest), second rest)

-- The same where what follows takes no bytes.
pub Reads-map :
    {A B : Type 0} (m : Step KwalletError Bytes A) (f : A → Step KwalletError Bytes B) (b : Bytes)
    (a : A) (a' : B)
    → Reads m b a
    → Reads (f a) [] a'
    → Reads (m >>= f) b a'
Reads-map m f b a a' first second rest = rw (first rest, second rest)

pub Reads-read_exact : (s : Bytes) → Reads (read_exact (length s)) s s
Reads-read_exact s rest = rw (
  read_exact_enough (length s) (s ++ rest) (rw (length-append s rest) (omega arith)),
  take-append s rest,
  drop-append s rest,
)

pub from_be_bytes-big_endian : (n : ℕ) → n < 2 ^ 32 → from_be_bytes (big_endian n) ≡ n
unfolding from_be_bytes
from_be_bytes-big_endian n h = omega arith

pub Reads-read_u32 : (n : ℕ) → n < 2 ^ 32 → Reads read_u32 (big_endian n) n
unfolding read_u32
Reads-read_u32 n h rest = rw (Reads-read_exact (big_endian n) rest, from_be_bytes-big_endian n h)

pub Reads-read_i32 : (n : ℕ) → n < 2 ^ 32 → Reads read_i32 (big_endian n) n
unfolding read_i32
Reads-read_i32 n h rest = rw (Reads-read_exact (big_endian n) rest, from_be_bytes-big_endian n h)

abbrev pub put_u16 : ℕ → Bytes
put_u16 u = u / 256 % 256 ∷ u % 256 ∷ []

from_be_bytes-put_u16 : (u : ℕ) → u < 2 ^ 16 → from_be_bytes (put_u16 u) ≡ u
unfolding from_be_bytes
from_be_bytes-put_u16 u h = omega arith

pub Reads-read_u16 : (u : ℕ) → u < 2 ^ 16 → Reads read_u16 (put_u16 u) u
unfolding read_u16
Reads-read_u16 u h rest = rw (Reads-read_exact (put_u16 u) rest, from_be_bytes-put_u16 u h)

abbrev pub put_array : Bytes → Bytes
put_array s = big_endian (length s) ++ s

Reads-array_of : (s : Bytes) → length s < 4294967295 → Reads (array_of (length s)) s s
unfolding array_of
Reads-array_of s h rest =
    let other : (length s == 4294967295) ≡ false = ground arith in
    rw (array_of, other, Reads-read_exact s rest)

pub Reads-read_byte_array :
    (s : Bytes) → length s < 4294967295 → Reads read_byte_array (put_array s) s
unfolding read_byte_array
Reads-read_byte_array s h =
    Reads-bind read_u32 array_of (big_endian (length s)) s (length s) s
      (Reads-read_u32 (length s) (omega arith)) (Reads-array_of s h)
