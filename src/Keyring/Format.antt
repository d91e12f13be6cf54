-- ===== src/Keyring/Format.antt =====
-- The file format of client/src/file/api/mod.rs: header, version, contents.
use mathlib.Core.Path.{ap₂}
use oo.Prelude.{
  Option-cases, inl, inr, ◌∙◌, sym, take-append-drop, drop-drop, some, [], ◌∷◌, ◌++◌, ◌≡◌, arith,
  length, take, drop, Bytes, bytes_eq_iff,
}
use oo.Outcome.{ok}
use oo.Item.{Codec, RoundTrips}
use oo.Keyring.{
  Keyring, file_header, major_version, minor_version, get_range, as_bytes_of, try_from,
}

module _ ⦃codec : Codec Keyring⦄ where
  -- A keyring that is written is read back, if it states the size of its salt.
  pub try_from-as_bytes_of :
      RoundTrips codec
      → (k : Keyring) (b : Bytes) → length k.salt ≡ k.salt_size
      → as_bytes_of k ≡ ok b
      → try_from b ≡ ok k
  unfolding as_bytes_of try_from
  try_from-as_bytes_of trips k b sized h = elim (Option-cases (codec.to_bytes k)) [
    | inl e ↦ absurd (ground arith)
    | inr (c, e) ↦ ground (arith, trips.back k c e)
  ]

  -- What is read has the header, the version and contents of the format, and states the size of its
  -- salt.
  pub try_from-ok :
      (b : Bytes) (k : Keyring)
      → try_from b ≡ ok k
      → (rest : Bytes) × (b ≡ file_header ++ major_version ∷ minor_version ∷ rest)
        × (codec.from_bytes rest ≡ some k)
        × (length k.salt ≡ k.salt_size)
  unfolding try_from get_range
  try_from-ok b k h =
      let head : take 16 b ≡ file_header = ground (arith, bytes_eq_iff (take 16 b) file_header) in
      let version : take 2 (drop 16 b) ≡ major_version ∷ minor_version ∷ [] =
        ground (arith, bytes_eq_iff (take 2 (drop 16 b)) (major_version ∷ minor_version ∷ [])) in
      (
        drop 18 b,
        (sym (take-append-drop 16 b)
            ∙ ap₂ ◌++◌ head
                (sym (take-append-drop 2 (drop 16 b)) ∙ ap₂ ◌++◌ version (drop-drop 16 2 b))),
        ground arith,
        ground arith,
      )
