-- ===== src/Server/Service/Pam/Access.antt =====
-- server/src/pam_listener/mod.rs: who is heard, and what is answered.
use oo.Prelude.{
  ℕ, ◌+◌, ◌%◌, ◌^◌, ◌<◌, false, some, [], ◌∷◌, ◌++◌, length, ltb, Bytes, ◌≡◌, refl, sym, ap, ◌∙◌,
  arith, inl, inr, Option-cases, take-append, length-append,
}
use native.Mathlib.Nat.{mod-eq_of_lt}
use oo.HashMap.{some_injective}
use oo.Item.{Codec}
use oo.Server.Service.Pam.{
  PamMessage, to_le_bytes, from_le_bytes, prefixed, message_frame, read_frame,
}

from_le_bytes-to_le_bytes : (n : ℕ) → n < 2 ^ 32 → from_le_bytes (to_le_bytes n) ≡ n
unfolding from_le_bytes to_le_bytes
from_le_bytes-to_le_bytes n h = omega (arith, h)

framed :
    (head b rest : Bytes)
    → length head ≡ 4
    → from_le_bytes head ≡ length b
    → read_frame ((head ++ b) ++ rest) ≡ some b
unfolding read_frame
framed (i ∷ j ∷ k ∷ l ∷ []) b rest four size =
    let long : ltb (length (i ∷ j ∷ k ∷ l ∷ (b ++ rest))) 4 ≡ false = ground arith in
    let enough : ltb (length (b ++ rest)) (length b) ≡ false =
      ground (arith, length-append b rest) in
    rw (long, size, enough) (ap some (take-append b rest))
framed (i ∷ j ∷ k ∷ l ∷ m ∷ head) b rest four size = absurd (omega (arith, four))
framed (i ∷ j ∷ k ∷ []) b rest four size = absurd (omega (arith, four))
framed (i ∷ j ∷ []) b rest four size = absurd (omega (arith, four))
framed (i ∷ []) b rest four size = absurd (omega (arith, four))
framed [] b rest four size = absurd (omega (arith, four))

-- A frame of fewer than 2 ^ 32 bytes is read back, whatever follows it.
pub read_frame-prefixed :
    (b rest : Bytes) → length b < 2 ^ 32 → read_frame (prefixed b ++ rest) ≡ some b
unfolding read_frame prefixed
read_frame-prefixed b rest h =
    let wrapped : length b % 2 ^ 32 ≡ length b = mod-eq_of_lt h in
    let size : from_le_bytes (to_le_bytes (length b % 2 ^ 32)) ≡ length b =
      ap (λ n. from_le_bytes (to_le_bytes n)) wrapped ∙ from_le_bytes-to_le_bytes (length b) h in
    framed (to_le_bytes (length b % 2 ^ 32)) b rest (unfold to_le_bytes in refl) size

-- A frame that is written is that of the message's bytes.
pub message_frame-prefixed :
    ⦃codec : Codec PamMessage⦄ (message : PamMessage) (frame : Bytes)
    → message_frame message ≡ some frame
    → (b : Bytes) × (codec.to_bytes message ≡ some b) × (frame ≡ prefixed b)
unfolding message_frame prefixed
message_frame-prefixed ⦃codec⦄ message frame h = elim (Option-cases (codec.to_bytes message)) [
  | inl e ↦ absurd (ground (arith, e, h))
  | inr (b, e) ↦ (b, e, sym (some_injective (rw (message_frame, e) at h)))
]

pub prefixed_short :
    (b frame : Bytes) → frame ≡ prefixed b → length frame < 2 ^ 32 + 4 → length b < 2 ^ 32
unfolding prefixed to_le_bytes
prefixed_short b frame e h = omega (arith, ap length e, h)
