-- ===== src/Server/Service/Locks/NoPrompt.antt =====
-- server/src/service/mod.rs: which objects need a prompt.
use oo.Prelude.{Bool, true, false, Option, none, some, List, [], ◌∷◌, if◌then◌else◌, ◌≡◌, refl}
use oo.Outcome.{ok}
use oo.Exec.{pure, lift, raise, ◌>>=◌}
use oo.Exec.Gives.{Gives, Gives-pure, Gives-raise, Gives-if, Gives-bind, Gives-bind_with}
use oo.Os.{Os}
use oo.Crypto.{Primitives}
use oo.Item.{UnlockedItem, Codec}
use oo.Keyring.{Keyring}
use oo.File.{is_locked_item}
use oo.Server.{ObjectPath, ServiceError, is_locked, Bus}
use oo.Server.Item.{Item, unwrap}
use oo.Server.Collection.{Collection, collection_is_locked}
use oo.Server.Service.{Service, at_collection}
use oo.Server.Service.Locks.{
  same, turn_collection, turn_found, turn_item, turn_object, after_turn, turn_if_found, add_turned,
  set_locked, resolve_alias, find_object,
}

-- No object needs a prompt.
abbrev pub IsFree : Option (ObjectPath × Bool) → Type 0
IsFree none = Unit
IsFree (some (path, free)) = free ≡ true

abbrev pub AreFree : List ObjectPath × List ObjectPath → Type 0
AreFree r = r.1 ≡ []

add_turned_free :
    (turned : Option (ObjectPath × Bool)) (rest : List ObjectPath × List ObjectPath)
    → IsFree turned
    → AreFree rest
    → AreFree (add_turned turned rest)
unfolding add_turned
add_turned_free none rest h k = k
add_turned_free (some (path, true)) rest h k = k
add_turned_free (some (path, false)) rest h k = absurd (cc)

module _ {W : Type 0} ⦃os : Os W⦄ ⦃p : Primitives⦄ ⦃codec : Codec UnlockedItem⦄ ⦃bus : Bus W⦄
    ⦃kc : Codec Keyring⦄ where
  after_turn_free :
      (turned : Option Bool) → Gives {S = Service × W} (λ b. b ≡ true) (after_turn true turned)
  unfolding after_turn
  after_turn_free none = Gives-raise (λ b. b ≡ true) is_locked
  after_turn_free (some true) = Gives-pure (λ b. b ≡ true) true refl
  after_turn_free (some false) = Gives-raise (λ b. b ≡ true) is_locked

  turn_found_free :
      (path : ObjectPath) (c : Collection) (i : Option Item)
      → Gives {S = Service × W} (λ b. b ≡ true) (turn_found true path c i)
  unfolding turn_found
  turn_found_free path c none =
      let done = Gives-pure {E = ServiceError} {S = Service × W} (λ b. b ≡ true) true refl in
      Gives-if (λ b. b ≡ true) (same (collection_is_locked c) true) (pure true)
        (do turned ← turn_collection true none path; pure true) (λ e. done)
        (λ e.
          Gives-bind (λ b. b ≡ true) (turn_collection true none path) (λ turned. pure true)
            (λ turned. done))
  turn_found_free path c (some i) =
      Gives-if (λ b. b ≡ true) (collection_is_locked c) (raise is_locked)
        (do
          inner ← lift (unwrap i.inner)
          if same true (is_locked_item inner)
              then pure true
              else (do turned ← at_collection path (turn_item true i); after_turn true turned))
        (λ e. Gives-raise (λ b. b ≡ true) is_locked)
        (λ e.
          Gives-bind (λ b. b ≡ true) (lift (unwrap i.inner))
            (λ inner.
              if same true (is_locked_item inner)
              then pure true
              else (do turned ← at_collection path (turn_item true i); after_turn true turned))
            (λ inner.
              Gives-if (λ b. b ≡ true) (same true (is_locked_item inner)) (pure true)
                (do turned ← at_collection path (turn_item true i); after_turn true turned)
                (λ f. Gives-pure (λ b. b ≡ true) true refl)
                (λ f.
                  Gives-bind (λ b. b ≡ true) (at_collection path (turn_item true i))
                    (after_turn true) after_turn_free)))

  turn_if_found-IsFree :
      (resolved : ObjectPath) (found : Option (ObjectPath × (Collection × Option Item)))
      → Gives {S = Service × W} IsFree (turn_if_found true resolved found)
  unfolding turn_if_found
  turn_if_found-IsFree resolved none = Gives-pure IsFree none tt
  turn_if_found-IsFree resolved (some (path, (c, i))) =
      Gives-bind_with (λ b. b ≡ true) IsFree (turn_found true path c i)
        (λ free. pure (some (resolved, free))) (turn_found_free path c i)
        (λ free h. Gives-pure IsFree (some (resolved, free)) h)

  turn_object-IsFree :
      (object : ObjectPath) → Gives {S = Service × W} IsFree (turn_object true object)
  unfolding turn_object
  turn_object-IsFree object s =
      let resolved : ObjectPath = elim (resolve_alias s.0.collections object) [
        | none ↦ object
        | some path ↦ path
      ] in
      turn_if_found-IsFree resolved (find_object resolved s.0.collections) s

  set_locked_free :
      (objects : List ObjectPath) → Gives {S = Service × W} AreFree (set_locked true objects)
  unfolding set_locked
  set_locked_free [] = Gives-pure AreFree ([], []) refl
  set_locked_free (object ∷ objects) =
      Gives-bind_with IsFree AreFree (turn_object true object)
        (λ turned. do rest ← set_locked true objects; pure (add_turned turned rest))
        (turn_object-IsFree object)
        (λ turned h.
          Gives-bind_with AreFree AreFree (set_locked true objects)
            (λ rest. pure (add_turned turned rest)) (set_locked_free objects)
            (λ rest k.
              Gives-pure AreFree (add_turned turned rest) (add_turned_free turned rest h k)))

  -- Locking never needs a prompt: where it succeeds, no object is left over that needs one, whatever
  -- the objects are and whatever state they are in. So the assertion in `lock` of debug builds holds.
  pub set_locked_no_prompt :
      (objects without_prompt with_prompt : List ObjectPath) (s : Service × W)
      → (set_locked true objects s).0 ≡ ok (without_prompt, with_prompt)
      → with_prompt ≡ []
  set_locked_no_prompt objects without_prompt with_prompt s =
      set_locked_free objects s (without_prompt, with_prompt)
