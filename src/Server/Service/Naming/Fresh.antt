-- ===== src/Server/Service/Naming/Fresh.antt =====
-- server/src/service/mod.rs, `make_unique_label_and_alias`: the loop ends, with a path that is free.
use oo.Prelude.{
  ℕ, zero, suc, ◌+◌, ◌/◌, ◌%◌, ◌^◌, ◌≤◌, ◌<◌, true, false, some, List, [], ◌∷◌, ◌++◌, length, ltb,
  all, Text, ◌≡◌, ◌≢◌, refl, ap, ◌∙◌, ◌⊎◌, inl, inr, arith, bytes_eq, bytes_eq→eq, Bool-cases,
}
use oo.HashMap.{contains_key, remove, get-remove, length-remove_lt}
use oo.Outcome.{ok}
use oo.Legacy.Items.{digits_from, decimal}
use oo.Legacy.Decimal.{decimal_injective, decimal_digits, is_digit}
use oo.Server.{ObjectPath}
use oo.Server.Service.{Collections}
use oo.Server.Service.Naming.{
  Lowercase, is_word, is_continuation, replaced, collection_prefix, path_of_name, collection_path,
  expected_path, counter_text, next_counter, unique_from, make_unique_label_and_alias,
}
use oo.Server.Service.Sessions.Numbers.{append_injective}

-- The documented behaviour of `str::to_lowercase`: digits stay, and do not change what is before them.
pub record IsLawfulLowercase (lowercase : Lowercase) : Type 0 where
  pub before_digits :
      (s t : Text)
      → all is_digit t ≡ true
      → lowercase.to_lowercase (s ++ t) ≡ lowercase.to_lowercase s ++ t

replaced-append : (s t : Text) → replaced (s ++ t) ≡ replaced s ++ replaced t
unfolding replaced
replaced-append [] t = refl
replaced-append (b ∷ s) t = ground (arith, replaced-append s t)

digit_word : (c : ℕ) → is_digit c ≡ true → (is_word c ≡ true) × (is_continuation c ≡ false)
unfolding is_word is_continuation
digit_word c h = (ground arith, ground arith)

replaced_digits : (t : Text) → all is_digit t ≡ true → replaced t ≡ t
unfolding replaced all
replaced_digits [] h = refl
replaced_digits (c ∷ t) h = ground (arith, digit_word c, replaced_digits t)

digits_from-cons : (k n : ℕ) → (c : ℕ) × (cs : Text) × (digits_from k n ≡ c ∷ cs)
unfolding digits_from
digits_from-cons zero n = (b'0' + n % 10, [], refl)
digits_from-cons (suc k) n = elim (Bool-cases (ltb n (10 ^ suc k))) [
  | inl e ↦ let (c, cs, is) = digits_from-cons k n in (c, cs, rw (digits_from, e) is)
  | inr e ↦ (b'0' + n / 10 ^ suc k % 10, digits_from k n, rw (digits_from, e) refl)
]

path_of_name-some :
    (s t : Text) (c : ℕ) (cs : Text)
    → t ≡ c ∷ cs
    → path_of_name (s ++ t) ≡ some (collection_prefix ++ (s ++ t))
unfolding path_of_name
path_of_name-some [] t c cs e = rw e refl
path_of_name-some (b ∷ s) t c cs e = refl

-- Of more keys than a table has entries, one is not in it.
module _ {ℓ} {V : Type ℓ} (f : ℕ → Text) where
  pub free_key :
      (k c : ℕ) (m : List (Text × V))
      → length m < k
      → ((i j : ℕ) → i < c + k → j < c + k → f i ≡ f j → i ≡ j)
      → (i : ℕ) × (c ≤ i) × (i < c + k) × (contains_key (f i) m ≡ false)
  unfolding contains_key
  free_key zero c m h inj = absurd (omega (arith, h))
  free_key (suc k) c m h inj = elim (Bool-cases (contains_key (f c) m)) [
    | inr e ↦ (c, omega arith, omega arith, e)
    | inl e ↦
        let shorter = length-remove_lt (f c) m e in
        let (i, from, below, absent) =
          free_key k (suc c) (remove (f c) m) (omega (arith, shorter, h))
            (λ i j hi hj. inj i j (omega (arith, hi)) (omega (arith, hj))) in
        (
          i,
          omega (arith, from),
          omega (arith, below),
          elim (Bool-cases (bytes_eq (f c) (f i))) [
            | inl same ↦
                let equal =
                  inj c i (omega arith) (omega (arith, below)) (bytes_eq→eq (f c) (f i) same) in
                absurd (omega (arith, equal, from))
            | inr other ↦ ground (arith, get-remove (f c) (f i) m, other, absent)
          ],
        )
  ]

module _ ⦃lowercase : Lowercase⦄ (lawful : IsLawfulLowercase lowercase) (label : Text) where
  -- The path for a counter.
  candidate : ℕ → ObjectPath
  candidate n = collection_prefix ++ (replaced (lowercase.to_lowercase label) ++ decimal n)

  expected_path-candidate : (n : ℕ) → expected_path (label ++ decimal n) ≡ ok (candidate n)
  unfolding expected_path collection_path candidate
  expected_path-candidate n =
      let digits = decimal_digits n in
      let (c, cs, some_digit) = digits_from-cons 9 n in
      let name : replaced (lowercase.to_lowercase (label ++ decimal n))
          ≡ replaced (lowercase.to_lowercase label) ++ decimal n =
        ap replaced (lawful.before_digits label (decimal n) digits)
        ∙ (replaced-append (lowercase.to_lowercase label) (decimal n)
            ∙ ap (λ t. replaced (lowercase.to_lowercase label) ++ t)
                (replaced_digits (decimal n) digits)) in
      rw
        (
          expected_path,
          name,
          path_of_name-some (replaced (lowercase.to_lowercase label)) (decimal n) c cs
              (unfold decimal in some_digit),
        )
        refl

  candidate_injective : (i j : ℕ) → i < 10 ^ 10 → j < 10 ^ 10 → candidate i ≡ candidate j → i ≡ j
  unfolding candidate
  candidate_injective i j hi hj e =
      let s = replaced (lowercase.to_lowercase label) in
      decimal_injective i j hi hj (
        append_injective s (decimal i) (decimal j)
          (append_injective collection_prefix (s ++ decimal i) (s ++ decimal j) e))

  counter_text_small : (n : ℕ) → n < 2 ^ 31 → counter_text n ≡ decimal n
  unfolding counter_text
  counter_text_small n h = ground (arith, h)

  next_counter_small : (n : ℕ) → n < 2 ^ 31 → next_counter n ≡ n + 1
  unfolding next_counter
  next_counter_small n h = omega (arith, h)

  -- The loop gives a label for a counter whose path is free, if there is one that it reaches.
  unique_from-free :
      (collections : Collections) (alias : Text) (fuel c i : ℕ)
      → c ≤ i
      → i < c + fuel
      → i < 2 ^ 31
      → contains_key (candidate i) collections ≡ false
      → (n : ℕ) × (c ≤ n)
        × (unique_from fuel collections label alias c ≡ ok (label ++ decimal n, alias ++ decimal n))
        × (contains_key (candidate n) collections ≡ false)
  unfolding unique_from
  unique_from-free collections alias zero c i from below small absent =
      absurd (omega (arith, from, below))
  unique_from-free collections alias (suc fuel) c i from below small absent =
      let shown : counter_text c ≡ decimal c = counter_text_small c (omega (arith, from, small)) in
      let counted : next_counter c ≡ c + 1 = next_counter_small c (omega (arith, from, small)) in
      elim (Bool-cases (contains_key (candidate c) collections)) [
        | inr free ↦ (c, omega arith, rw (shown, expected_path-candidate c, free) refl, free)
        | inl taken ↦
            let not_here : c ≢ i = λ e. cc in
            let (n, at, found, free) =
              unique_from-free collections alias fuel (c + 1) i (omega (arith, from, not_here))
                (omega (arith, below)) small absent in
            (
              n,
              omega (arith, at),
              rw (shown, expected_path-candidate c, taken)
                  (ap (λ k. unique_from fuel collections label alias k) counted ∙ found),
              free,
            )
      ]

  -- For a new collection with a label of which a path can be made, with fewer than 2 ^ 31 - 4
  -- collections there, the loop ends, before the counter overflows: the new label's path is one that
  -- no collection has. The label and the alias are the ones that were asked for, where the path of
  -- that label was free, and else these with the same counter after each. Digits must stay the same
  -- in lower case.
  pub make_unique_label_and_alias-free :
      (collections : Collections) (alias : Text) (base : ObjectPath)
      → length collections + 4 < 2 ^ 31
      → expected_path label ≡ ok base
      → (l : Text) × (a : Text) × (path : ObjectPath) × (make_unique_label_and_alias collections
            label alias
          ≡ ok (l, a))
        × (expected_path l ≡ ok path)
        × (contains_key path collections ≡ false)
        × (((l ≡ label) × (a ≡ alias))
            ⊎ ((n : ℕ) × (2 ≤ n)
                × (l ≡ label ++ decimal n)
                × (a ≡ alias ++ decimal n)
                × (contains_key base collections ≡ true)))
  unfolding make_unique_label_and_alias
  make_unique_label_and_alias-free collections alias base few named =
      elim (Bool-cases (contains_key base collections)) [
        | inr free ↦ (label, alias, base, rw (named, free) refl, named, free, inl (refl, refl))
        | inl taken ↦
            let (i, from, below, absent) =
              free_key candidate (suc (length collections)) 2 collections (omega arith)
                (λ i j hi hj.
                  candidate_injective i j (omega (arith, hi, few)) (omega (arith, hj, few))) in
            let (n, at, found, free) =
              unique_from-free collections alias (suc (length collections)) 2 i from below
                (omega (arith, below, few)) absent in
            (
              label ++ decimal n,
              alias ++ decimal n,
              candidate n,
              rw (named, taken) found,
              expected_path-candidate n,
              free,
              inr (n, at, refl, refl, taken),
            )
      ]
