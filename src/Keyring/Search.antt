-- ===== src/Keyring/Search.antt =====
-- The searches of client/src/file/api/mod.rs agree: the first match, and all matches.
use oo.Prelude.{Option, none, some, List, [], ◌∷◌}
use oo.Keyring.{Keyring}

abbrev pub head? {ℓ} : {A : Type ℓ} → List A → Option A
head? [] = none
head? (x ∷ xs) = some x
