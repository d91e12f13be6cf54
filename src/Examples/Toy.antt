-- ===== src/Examples/Toy.antt =====
-- Stand-ins for what is not in the repository, which meet the assumptions made of it: a cipher, a
-- serialiser and a world.
use oo.Prelude.{
  ℕ, zero, suc, ◌+◌, ◌*◌, true, Option, none, some, List, [], ◌∷◌, ◌++◌, ◌≡◌, refl, sym, ap, arith,
  length, take, drop, take-append, drop-append, Bytes, bytes_eq, bytes_eq→eq, bytes_eq_refl,
}
use oo.Outcome.{Outcome, ok, err, io, not_found, unexpected_eof}
use oo.Os.{Os, IsLawfulOs}
use oo.Crypto.{Primitives, IsLawful}
use oo.Item.{Map, UnlockedItem, EncryptedItem, Codec, RoundTrips}
use oo.Keyring.{Keyring}
use oo.Prelude.{◌<◌, ◌/◌, ◌%◌, ◌^◌, length-append}
use oo.Legacy.RoundTrip.{IsBigEndian, big_endian}
use oo.Legacy.{ReadBytes}
use oo.Unlocked.Rekey.{AlwaysRandom}
use oo.Server.{Bus, AlwaysSends}

abbrev sum : Bytes → ℕ
sum [] = 0
sum (x ∷ xs) = x + sum xs

abbrev pub replicate : ℕ → ℕ → Bytes
replicate zero x = []
replicate (suc n) x = x ∷ replicate n x

length-replicate : (n x : ℕ) → length (replicate n x) ≡ n
length-replicate zero x = refl
length-replicate (suc n) x = ap suc (length-replicate n x)

abbrev open_box : Bytes → Option Bytes
open_box [] = none
open_box (x ∷ d) = some d

abbrev tag : Bytes → Bytes → Bytes
tag k d = (sum k + 3 * sum d + 1) ∷ []

instance abbrev pub toy_primitives : Primitives
toy_primitives = record {
  key_size = 2;
  iv_size = 1;
  block_size = 2;
  mac_size = 1;
  encrypt_padded = λ k v d room. some (7 ∷ d);
  decrypt_padded = λ k v b. open_box b;
  decrypt_unpadded = λ k v b. some b;
  hmac = tag;
  verify_slice = λ k d t. bytes_eq t (tag k d);
  pbkdf2 = λ s t n size. replicate size (length s + sum t);
  md5 = λ d. replicate 16 (sum d);
  sha256 = λ d. replicate 3 (sum d);
}

open_box-inverse : (d b : Bytes) → some (7 ∷ d) ≡ some b → open_box b ≡ some d
open_box-inverse d b h = ground arith

pub toy_primitives-IsLawful : IsLawful toy_primitives
toy_primitives-IsLawful = record {
  block_is_key = refl;
  room = λ k v d x y. (7 ∷ d, refl);
  inverse = λ k v d b room h. open_box-inverse d b h;
  length-hmac = λ k d. refl;
  accepts = λ k d. bytes_eq_refl (tag k d);
  accepts_only = λ k d t h. bytes_eq→eq t (tag k d) h;
  length-pbkdf2 = λ s t n size. length-replicate size (length s + sum t);
}

pub some_eq : {a b : Bytes} → some a ≡ some b → a ≡ b
some_eq h = cc

unfoldable pub put_bytes : Bytes → Bytes → Bytes
put_bytes xs rest = length xs ∷ (xs ++ rest)

unfoldable pub get_bytes : Bytes → Bytes × Bytes
get_bytes [] = ([], [])
get_bytes (n ∷ s) = (take n s, drop n s)

get_bytes-put_bytes : (xs rest : Bytes) → get_bytes (put_bytes xs rest) ≡ (xs, rest)
unfolding get_bytes put_bytes
get_bytes-put_bytes xs rest = rw (take-append xs rest, drop-append xs rest)

unfoldable pub put_entries : Map → Bytes → Bytes
put_entries [] rest = rest
put_entries ((k, v) ∷ m) rest = put_bytes k (put_bytes v (put_entries m rest))

unfoldable pub get_entries : ℕ → Bytes → Map × Bytes
get_entries zero s = ([], s)
get_entries (suc n) s =
    let (k, s₁) = get_bytes s in
    let (v, s₂) = get_bytes s₁ in let (m, s₃) = get_entries n s₂ in ((k, v) ∷ m, s₃)

get_entries-put_entries :
    (m : Map) (rest : Bytes) → get_entries (length m) (put_entries m rest) ≡ (m, rest)
unfolding get_entries put_entries
get_entries-put_entries [] rest = refl
get_entries-put_entries ((k, v) ∷ m) rest = rw (
  get_bytes-put_bytes k (put_bytes v (put_entries m rest)),
  get_bytes-put_bytes v (put_entries m rest),
  get_entries-put_entries m rest,
)

unfoldable pub put_item : UnlockedItem → Bytes
put_item i =
    length i.attributes
    ∷ put_entries i.attributes
        (put_bytes i.label (put_bytes i.secret (i.created ∷ i.modified ∷ [])))

unfoldable pub get_times : Map → Bytes → Bytes → Bytes → Option UnlockedItem
get_times m l s (c ∷ t ∷ []) =
    some (record { attributes = m; label = l; created = c; modified = t; secret = s })
get_times m l s other = none

unfoldable pub get_item : Bytes → Option UnlockedItem
get_item [] = none
get_item (n ∷ b) =
    let (m, b₁) = get_entries n b in
    let (l, b₂) = get_bytes b₁ in let (s, b₃) = get_bytes b₂ in get_times m l s b₃

get_item-put_item : (i : UnlockedItem) → get_item (put_item i) ≡ some i
unfolding get_item put_item get_times
get_item-put_item i =
    let times = i.created ∷ i.modified ∷ [] in
    rw (
      get_entries-put_entries i.attributes (put_bytes i.label (put_bytes i.secret times)),
      get_bytes-put_bytes i.label (put_bytes i.secret times),
      get_bytes-put_bytes i.secret times,
    )

instance abbrev pub toy_items : Codec UnlockedItem
toy_items = record { to_bytes = λ i. some (put_item i); from_bytes = get_item }

toy_back : (i : UnlockedItem) (b : Bytes) → some (put_item i) ≡ some b → get_item b ≡ some i
toy_back i b h = rw (← some_eq h) (get_item-put_item i)

pub toy_items-RoundTrips : RoundTrips toy_items
toy_items-RoundTrips = record { back = toy_back }

unfoldable pub get_numbers : Bytes → Bytes → Option Keyring
get_numbers salt (a ∷ b ∷ c ∷ d ∷ []) = some (record {
  salt_size = a;
  salt = salt;
  iteration_count = b;
  modified_time = c;
  usage_count = d;
  items = [];
})
get_numbers salt other = none

unfoldable pub get_keyring : Bytes → Option Keyring
unfolding get_numbers
get_keyring [] = none
get_keyring (n ∷ s) = get_numbers (take n s) (drop n s)

unfoldable pub put_numbers : Keyring → Bytes
put_numbers k =
    length k.salt
    ∷ (k.salt ++ k.salt_size ∷ k.iteration_count ∷ k.modified_time ∷ k.usage_count ∷ [])

unfoldable pub put_if_empty : List EncryptedItem → Keyring → Option Bytes
put_if_empty [] k = some (put_numbers k)
put_if_empty (e ∷ es) k = none

unfoldable pub put_keyring : Keyring → Option Bytes
unfolding put_if_empty put_numbers
put_keyring k = put_if_empty k.items k

put_if_empty-items :
    (es : List EncryptedItem) (k : Keyring) (b : Bytes)
    → put_if_empty es k ≡ some b
    → (es ≡ []) × (put_numbers k ≡ b)
unfolding put_if_empty
put_if_empty-items [] k b h = (refl, some_eq h)
put_if_empty-items (e ∷ es) k b h = absurd (ground arith)

-- Keyrings without items.
instance abbrev pub toy_keyrings : Codec Keyring
toy_keyrings = record { to_bytes = put_keyring; from_bytes = get_keyring }

get_keyring-put_numbers : (k : Keyring) → k.items ≡ [] → get_keyring (put_numbers k) ≡ some k
unfolding get_keyring put_numbers
get_keyring-put_numbers k h =
    rw
      (
        take-append k.salt (k.salt_size ∷ k.iteration_count ∷ k.modified_time ∷ k.usage_count ∷ []),
        drop-append k.salt (k.salt_size ∷ k.iteration_count ∷ k.modified_time ∷ k.usage_count ∷ []),
      )
      (ap (λ (es : List EncryptedItem). some (record k { items = es })) (sym h))

pub toy_keyrings-RoundTrips : RoundTrips toy_keyrings
unfolding put_keyring
toy_keyrings-RoundTrips = record {
  back = λ k b h.
      let (none_left, written) = put_if_empty-items k.items k b h in
      rw (← written) (get_keyring-put_numbers k none_left);
}

-- A clock that ticks at each call, and numbers that are not random; no file is there, and each write
-- succeeds.
instance abbrev pub toy_os : Os ℕ
toy_os = record {
  now = λ w. (w, suc w);
  fill = λ n w. (some (replicate n w), suc w);
  parent = λ path. some path;
  join = λ dir name. dir ++ name;
  exists = λ path w. true;
  create_dir = λ path w. (ok tt, w);
  create_new = λ path w. (ok 0, w);
  write_all = λ file b w. (ok tt, w);
  sync_all = λ file w. (ok tt, w);
  open_file = λ path w. (err (io not_found), w);
  modified = λ file w. (ok (some w), w);
  read_to_end = λ file w. (ok [], w);
  metadata_modified = λ path w. (ok (some w), w);
  rename = λ old path w. (ok tt, w);
}

filled_length : (n w : ℕ) (b : Bytes) → some (replicate n w) ≡ some b → length b ≡ n
filled_length n w b h = rw (← some_eq h) (length-replicate n w)

pub toy_os-IsLawfulOs : IsLawfulOs toy_os
toy_os-IsLawfulOs = record { filled = filled_length }

pub toy_os-AlwaysRandom : AlwaysRandom toy_os
toy_os-AlwaysRandom n w = (replicate n w, refl)

abbrev number : Bytes → Outcome ℕ
number (a ∷ b ∷ c ∷ d ∷ rest) = ok (((a * 256 + b) * 256 + c) * 256 + d)
number other = err (io unexpected_eof)

abbrev byte : Bytes → Outcome ℕ
byte (a ∷ rest) = ok a
byte [] = err (io unexpected_eof)

-- Big-endian numbers.
instance abbrev pub toy_reads : ReadBytes
toy_reads = record {
  read_u8 = λ c. (byte (drop c.position c.content), record c { position = c.position + 1 });
  read_u32 = λ c. (number (drop c.position c.content), record c { position = c.position + 4 });
}

digits-number :
    (n : ℕ)
    → n < 2 ^ 32
    → ((n / 2 ^ 24 % 256 * 256 + n / 2 ^ 16 % 256) * 256 + n / 2 ^ 8 % 256) * 256 + n % 256 ≡ n
digits-number n h = omega (arith, h)

pub toy_reads-IsBigEndian : IsBigEndian toy_reads
toy_reads-IsBigEndian = record {
  number = λ n h. record {
    at = λ before rest content e.
        let behind : drop (length before) content ≡ big_endian n ++ rest =
          rw (e, drop-append before (big_endian n ++ rest)) refl in
        rw (behind, digits-number n h, length-append before (big_endian n)) refl;
  };
}

-- A bus that counts what it is sent.
instance abbrev pub toy_bus : Bus ℕ
toy_bus = record {
  emit = λ x w. (ok tt, suc w);
  serve = λ path w. (ok tt, suc w);
  remove = λ path w. (ok tt, suc w);
}

pub toy_bus-AlwaysSends : AlwaysSends toy_bus
toy_bus-AlwaysSends = (λ x w. (suc w, refl), (λ path w. (suc w, refl), λ path w. (suc w, refl)))
