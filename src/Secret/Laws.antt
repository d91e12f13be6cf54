-- ===== src/Secret/Laws.antt =====
-- The round trips of content types and secrets (client/src/secret.rs).
use oo.Prelude.{◌≡◌, refl, some, ◌++◌, ◌∷◌, Text, arith}
use oo.Secret.{
  ContentType, text_plain, octet_stream, as_str, from_str, Secret, text, blob, content_type,
  as_bytes, with_content_type, IsSecret,
}

-- The name of a content type is read back, also behind parameters (`text/plain; charset=utf8`),
-- whatever these are.
pub from_str-as_str :
    (c : ContentType) (parameters : Text)
    → (from_str (as_str c) ≡ some c) × (from_str (as_str c ++ b';' ∷ parameters) ≡ some c)
unfolding from_str as_str
from_str-as_str text_plain parameters = (refl, refl)
from_str-as_str octet_stream parameters = (refl, refl)

-- A secret is told by its bytes and its content type.
pub with_content_type-as_bytes :
    (s : Secret) → IsSecret s → with_content_type (content_type s) (as_bytes s) ≡ s
unfolding with_content_type content_type as_bytes IsSecret
with_content_type-as_bytes (text s) h = ground arith
with_content_type-as_bytes (blob b) h = refl

pub as_bytes-with_content_type : (c : ContentType) (b : _) → as_bytes (with_content_type c b) ≡ b
unfolding with_content_type as_bytes
as_bytes-with_content_type text_plain b = ground arith
as_bytes-with_content_type octet_stream b = refl
