-- ===== src/Kwallet/Headers.antt =====
-- kwallet/parser/src/format.rs: which headers are read.
use oo.Prelude.{
  false, Bool-cases, ◌⊎◌, inl, inr, [], ◌∷◌, ◌++◌, ◌≡◌, ◌∙◌, refl, sym, ap, subst, arith, Bytes,
  bytes_eq, if◌then◌else◌, ◌==◌,
}
use oo.Kwallet.Termination.{err-ok}
use oo.Kwallet.Print.{Reads-read_exact}
use oo.Outcome.{Result, ok-injective, ok, err, panic}
use oo.Exec.{Step, pure, raise, continue, ◌>>=◌}
use oo.Kwallet.{
  CipherType, blowfish_ecb, triple_des_cbc, gpg, blowfish_cbc, HashType, sha1, md5, pbkdf2_sha512,
  KwalletError, read_exact, invalid_magic, unsupported_version,
}
use oo.Kwallet.Format.{
  WalletHeader, kwmagic, cipher_type_of, hash_type_of, validate, read, from_version, matched,
  refuse, is_unsupported,
}

-- The two kinds of file that are supported.
abbrev pub legacy_header : WalletHeader
legacy_header = record {
  version_major = 0;
  version_minor = 0;
  cipher_type = blowfish_ecb;
  hash_type = sha1;
}

abbrev pub modern_header : WalletHeader
modern_header = record {
  version_major = 0;
  version_minor = 1;
  cipher_type = blowfish_cbc;
  hash_type = pbkdf2_sha512;
}

abbrev IsPair : WalletHeader → CipherType → HashType → Type 0
IsPair h c t =
    ((h.version_minor ≡ 0) × ((c ≡ blowfish_ecb) × (t ≡ sha1)))
    ⊎ ((h.version_minor ≡ 1) × ((c ≡ blowfish_cbc) × (t ≡ pbkdf2_sha512)))

unfoldable pub IsSupported : WalletHeader → Type 0
IsSupported h = (h.version_major ≡ 0) × IsPair h h.cipher_type h.hash_type

refuse_not_ok : (h : WalletHeader) → refuse h ≡ ok tt → ⊥
unfolding refuse is_unsupported
refuse_not_ok h e = ground arith

matched-IsPair :
    (h : WalletHeader) (c : CipherType) (t : HashType) → matched h c t ≡ ok tt → IsPair h c t
unfolding matched
matched-IsPair h blowfish_ecb sha1 e = elim (Bool-cases (h.version_minor == 0)) [
  | inl x ↦ inl (ground arith, (refl, refl))
  | inr x ↦ absurd (refuse_not_ok h (sym (rw (matched, x)) ∙ e))
]
matched-IsPair h blowfish_cbc pbkdf2_sha512 e = elim (Bool-cases (h.version_minor == 1)) [
  | inl x ↦ inr (ground arith, (refl, refl))
  | inr x ↦ absurd (refuse_not_ok h (sym (rw (matched, x)) ∙ e))
]
matched-IsPair h blowfish_ecb md5 e = absurd (refuse_not_ok h e)
matched-IsPair h blowfish_ecb pbkdf2_sha512 e = absurd (refuse_not_ok h e)
matched-IsPair h blowfish_cbc sha1 e = absurd (refuse_not_ok h e)
matched-IsPair h blowfish_cbc md5 e = absurd (refuse_not_ok h e)
matched-IsPair h triple_des_cbc t e = absurd (refuse_not_ok h e)
matched-IsPair h gpg t e = absurd (refuse_not_ok h e)

validate_other :
    (h : WalletHeader)
    → (h.version_major == 0) ≡ false
    → validate h ≡ err (unsupported_version h.version_major h.version_minor)
unfolding validate
validate_other h x = rw (validate, x)

validate-IsSupported : (h : WalletHeader) → validate h ≡ ok tt → IsSupported h
unfolding validate IsSupported
validate-IsSupported h e = elim (Bool-cases (h.version_major == 0)) [
  | inl x ↦ (ground arith, matched-IsPair h h.cipher_type h.hash_type (sym (rw (validate, x)) ∙ e))
  | inr x ↦ absurd (err-ok (sym (validate_other h x) ∙ e))
]

continue_ok :
    {A B : Type 0} (r : Result KwalletError A) (f : A → Step KwalletError Bytes B) (s : Bytes)
    (b : B)
    → (continue r f s).0 ≡ ok b
    → (a : A) × (r ≡ ok a) × ((f a s).0 ≡ ok b)
continue_ok (ok a) f s b h = (a, refl, h)
continue_ok (err e) f s b h = absurd cc
continue_ok panic f s b h = absurd cc

bind_ok :
    {A B : Type 0} (m : Step KwalletError Bytes A) (f : A → Step KwalletError Bytes B) (s : Bytes)
    (b : B)
    → ((m >>= f) s).0 ≡ ok b
    → (a : A) × (s₁ : Bytes) × ((f a s₁).0 ≡ ok b)
bind_ok m f s b h = let (a, e, e₁) = continue_ok (m s).0 f (m s).1 b h in (a, (m s).1, e₁)

-- What is read behind the magic bytes.
rest_of : Step KwalletError Bytes WalletHeader
rest_of = read_exact 4 >>= λ version. from_version version

check_magic : Bytes → Step KwalletError Bytes (Unit {0})
check_magic magic = if bytes_eq magic kwmagic then pure tt else raise invalid_magic

pub unit_eq : (x : Unit {0}) → x ≡ tt
unit_eq tt = refl

from_version-IsSupported :
    (v s : Bytes) (h : WalletHeader) → (from_version v s).0 ≡ ok h → IsSupported h
unfolding from_version
from_version-IsSupported [] s h e = absurd cc
from_version-IsSupported (major ∷ []) s h e = absurd cc
from_version-IsSupported (major ∷ minor ∷ []) s h e = absurd cc
from_version-IsSupported (major ∷ minor ∷ c ∷ []) s h e = absurd cc
from_version-IsSupported (major ∷ minor ∷ c ∷ t ∷ []) s h e =
    let (cipher, e₁, e₂) = continue_ok (cipher_type_of c) _ s h e in
    let (hash, e₃, e₄) = continue_ok (hash_type_of t) _ s h e₂ in
    let (u, e₅, e₆) =
      continue_ok
        (validate (record {
          version_major = major;
          version_minor = minor;
          cipher_type = cipher;
          hash_type = hash;
        }))
        _ s h e₄ in
    subst IsSupported (ok-injective e₆) (validate-IsSupported _ (e₅ ∙ ap ok (unit_eq u)))
from_version-IsSupported (major ∷ minor ∷ c ∷ t ∷ x ∷ v) s h e = absurd cc

-- Only two kinds of header are ever read, whatever the bytes: version 0.0 with Blowfish-ECB and SHA-1,
-- and version 0.1 with Blowfish-CBC and PBKDF2-SHA512; both are, behind the magic bytes.
pub read-IsSupported :
    ((s : Bytes) (h : WalletHeader) → (read s).0 ≡ ok h → IsSupported h)
    × (((rest : Bytes) → read (kwmagic ++ (0 ∷ 0 ∷ 0 ∷ 0 ∷ rest)) ≡ (ok legacy_header, rest))
        × ((rest : Bytes) → read (kwmagic ++ (0 ∷ 1 ∷ 3 ∷ 2 ∷ rest)) ≡ (ok modern_header, rest)))
unfolding read check_magic rest_of bytes_eq from_version cipher_type_of hash_type_of validate
    matched
read-IsSupported = (
  λ s h e.
      let (magic, s₁, e₁) =
        bind_ok (read_exact 12) (λ magic. check_magic magic >>= λ _. rest_of) s h e in
      let (u, s₂, e₂) = bind_ok (check_magic magic) (λ _. rest_of) s₁ h e₁ in
      let (version, s₃, e₃) = bind_ok (read_exact 4) (λ version. from_version version) s₂ h e₂ in
      from_version-IsSupported version s₃ h e₃,
  (
    λ rest. rw (
      Reads-read_exact kwmagic (0 ∷ 0 ∷ 0 ∷ 0 ∷ rest),
      Reads-read_exact (0 ∷ 0 ∷ 0 ∷ 0 ∷ []) rest,
    ),
    λ rest. rw (
      Reads-read_exact kwmagic (0 ∷ 1 ∷ 3 ∷ 2 ∷ rest),
      Reads-read_exact (0 ∷ 1 ∷ 3 ∷ 2 ∷ []) rest,
    ),
  ),
)
