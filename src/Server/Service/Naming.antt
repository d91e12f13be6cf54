-- ===== src/Server/Service/Naming.antt =====
-- server/src/service/mod.rs and server/src/collection/mod.rs: the paths of collections, and the label
-- and the alias of a new one.
pub mod Fresh
use oo.Prelude.{
  ℕ, zero, suc, ◌+◌, ◌-◌, ◌%◌, ◌^◌, Bool, Option, none, some, List, [], ◌∷◌, ◌++◌, length, leb, ltb,
  ◌==◌, ◌&&◌, ◌||◌, not, if◌then◌else◌, Bytes, Text, codes,
}
use oo.HashMap.{contains_key}
use oo.Outcome.{Result, ok, panic, ◌>>=◌}
use oo.Legacy.Items.{decimal}
use oo.Server.{ObjectPath, ServiceError}
use oo.Server.Service.{Collections}

-- `str::to_lowercase`, which goes by the tables of Unicode.
pub record Lowercase : Type 0 where
  pub to_lowercase : Text → Text

-- `char::is_ascii_alphanumeric`, or an underscore.
unfoldable pub is_word : ℕ → Bool
is_word c =
    (leb b'0' c && leb c b'9')
    || (leb b'A' c && leb c b'Z')
    || (leb b'a' c && leb c b'z')
    || (c == b'_')

-- A byte of UTF-8 that is not the first of its character.
unfoldable pub is_continuation : ℕ → Bool
is_continuation b = leb 128 b && ltb b 192

-- Each character that is no letter, digit or underscore of ASCII becomes an underscore.
unfoldable pub replaced : Text → Text
unfolding is_word is_continuation
replaced [] = []
replaced (b ∷ bs) =
    let rest = replaced bs in
    if is_continuation b then rest else if is_word b then b ∷ rest else b'_' ∷ rest

abbrev pub collection_prefix : ObjectPath
collection_prefix = codes "/org/freedesktop/secrets/collection/"

-- A path with an empty last part is not an object path.
unfoldable pub path_of_name : Text → Option ObjectPath
path_of_name [] = none
path_of_name (b ∷ bs) = some (collection_prefix ++ b ∷ bs)

-- The counter is an `i32`, which wraps around; it stands here as its bits, a number below 2 ^ 32.
unfoldable pub counter_text : ℕ → Text
unfolding decimal
counter_text counter =
    if ltb counter (2 ^ 31) then decimal counter else b'-' ∷ decimal (2 ^ 32 - counter)

unfoldable pub next_counter : ℕ → ℕ
next_counter counter = (counter + 1) % 2 ^ 32

module _ ⦃lowercase : Lowercase⦄ where
  unfoldable pub collection_path : Text → Option ObjectPath
  unfolding replaced
  collection_path label = path_of_name (replaced (lowercase.to_lowercase label))

  -- `collection_path(…).expect(…)`
  unfoldable pub expected_path : Text → Result ServiceError ObjectPath
  expected_path label = elim (collection_path label) [ none ↦ panic | some path ↦ ok path ]

  -- The loop over the counters, on fuel; without fuel it gives up, which `panic` stands for.
  unfoldable pub unique_from : ℕ → Collections → Text → Text → ℕ → Result ServiceError (Text × Text)
  unique_from zero collections label alias counter = panic
  unique_from (suc fuel) collections label alias counter =
      let rest = unique_from fuel collections label alias (next_counter counter) in
      do
        path ← expected_path (label ++ counter_text counter)
        if contains_key path collections
            then rest
            else ok (label ++ counter_text counter, alias ++ counter_text counter)

  -- One round more than there are collections is enough.
  unfoldable pub make_unique_label_and_alias :
      Collections → Text → Text → Result ServiceError (Text × Text)
  make_unique_label_and_alias collections label alias = do
    base_path ← expected_path label
    if contains_key base_path collections
        then unique_from (suc (length collections)) collections label alias 2
        else ok (label, alias)
