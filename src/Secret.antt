-- ===== src/Secret.antt =====
-- client/src/secret.rs: the content types of secrets, and secrets.
pub mod Utf8
pub mod Laws
use oo.Prelude.{
  ℕ, ◌+◌, Bool, true, false, ◌&&◌, Option, none, some, [], ◌∷◌, map, leb, ◌==◌, if◌then◌else◌,
  Bytes, Text, codes, bytes_eq, ◌≡◌,
}
use Utf8.{valid_utf8, trim}

pub data ContentType : Type 0 where
  text_plain : ContentType
  octet_stream : ContentType

-- `#[default] Blob`
abbrev pub default_content_type : ContentType
default_content_type = octet_stream

unfoldable pub as_str : ContentType → Text
as_str text_plain = codes "text/plain"
as_str octet_stream = codes "application/octet-stream"

-- `s.split_once(';').map_or(s, |(media_type, _)| media_type)`
before_semicolon : Text → Text
before_semicolon [] = []
before_semicolon (c ∷ s) = let rest = before_semicolon s in if c == b';' then [] else c ∷ rest

unfoldable pub to_ascii_lowercase : ℕ → ℕ
to_ascii_lowercase c = if leb b'A' c && leb c b'Z' then c + 32 else c

unfoldable pub eq_ignore_ascii_case : Text → Text → Bool
unfolding to_ascii_lowercase bytes_eq
eq_ignore_ascii_case a b = bytes_eq (map to_ascii_lowercase a) (map to_ascii_lowercase b)

-- `none` stands for the error.
unfoldable pub from_str : Text → Option ContentType
unfolding before_semicolon eq_ignore_ascii_case trim
from_str s =
    let media_type = trim (before_semicolon s) in
    if eq_ignore_ascii_case media_type (codes "text/plain")
    then some text_plain
    else if eq_ignore_ascii_case media_type (codes "application/octet-stream")
    then some octet_stream
    else none

pub data Secret : Type 0 where
  text : Text → Secret
  blob : Bytes → Secret

unfoldable pub content_type : Secret → ContentType
content_type (text s) = text_plain
content_type (blob b) = octet_stream

unfoldable pub as_bytes : Secret → Bytes
as_bytes (text s) = s
as_bytes (blob b) = b

unfoldable pub with_content_type : ContentType → Bytes → Secret
unfolding valid_utf8
with_content_type text_plain b = if valid_utf8 b then text b else blob b
with_content_type octet_stream b = blob b

-- A `String` holds UTF-8.
unfoldable pub IsSecret : Secret → Type 0
unfolding valid_utf8
IsSecret (text s) = valid_utf8 s ≡ true
IsSecret (blob b) = Unit
