-- ===== src/Kwallet/Convert.antt =====
-- kwallet/parser/src/secret_service.rs: an entry as an item of the secret service.
use oo.Prelude.{Option, List, [], ◌∷◌, ◌++◌, Bytes, Text, codes}
use oo.HashMap.{insert}
use oo.Outcome.{Result, ok, err, panic, or_err, ◌>>=◌}
use oo.Item.{Map}
use oo.Kwallet.{KwalletError}
use oo.Kwallet.Wallet.{Entry, unknown, password, stream, map, as_password, as_map, as_stream}

-- What the crates `serde_json` and `base64` give.
pub record Encoders : Type 0 where
  pub json_to_vec : List (Text × Text) → Option Bytes
  pub base64_encode : Bytes → Bytes

-- The boxed errors: one of the parser, one of `serde_json`, or a type that is not known.
pub data ConvertError : Type 0 where
  parser : KwalletError → ConvertError
  json unknown_type : ConvertError

pub record SecretServiceEntry : Type 0 where
  pub label : Text
  pub attributes : Map
  pub secret : Bytes

unfoldable pub parsed : {A : Type 0} → Result KwalletError A → Result ConvertError A
parsed (ok a) = ok a
parsed (err e) = err (parser e)
parsed panic = panic

-- The name of the type and the secret.
unfoldable pub secret_part : ⦃encoders : Encoders⦄ → Entry → Result ConvertError (Text × Bytes)
unfolding parsed as_password as_map as_stream
secret_part ⦃encoders⦄ entry = elim entry.entry_type [
  | password ↦ (do text ← parsed (as_password entry); ok (codes "password", text))
  | map ↦ (do
    pairs ← parsed (as_map entry)
    bytes ← or_err json (encoders.json_to_vec pairs)
    ok (codes "map", bytes))
  | stream ↦ ok (codes "base64", encoders.base64_encode (as_stream entry))
  | unknown ↦ err unknown_type
]

unfoldable pub convert_entry :
    ⦃encoders : Encoders⦄ → Text → Text → Entry → Result ConvertError SecretServiceEntry
unfolding secret_part insert
convert_entry folder key entry = do
  (type_str, secret) ← secret_part entry
  let attributes : Map = insert (codes "server") folder (insert (codes "user") key [])
  ok (record {
    label = folder ++ b'/' ∷ key;
    attributes = insert (codes "type") type_str attributes;
    secret = secret;
  })
