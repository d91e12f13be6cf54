-- ===== src/Server/Service/Prompts/Once.antt =====
-- server/src/prompt/mod.rs, `take_action`: a prompt acts once.
use oo.Prelude.{
  Option, none, some, [], ◌∷◌, Text, ◌≡◌, refl, ap, ◌∙◌, inl, inr, arith, bytes_eq_refl,
}
use oo.HashMap.{remove, get, insert, get-insert}
use oo.Outcome.{Result, ok, err, panic, or_err, Outcome-cases}
use oo.Exec.{Step, pure, lift, modify, continue, ◌>>=◌, ◌>>◌}
use oo.Os.{Os, WholeFiles}
use oo.Secret.{Secret}
use oo.Crypto.{Primitives}
use oo.Item.{UnlockedItem, Codec}
use oo.Keyring.{Keyring}
use oo.Legacy.{ReadBytes}
use oo.Kwallet.Crypto.{KwalletPrimitives}
use oo.Kwallet.File.{Files}
use oo.Kwallet.Convert.{Encoders}
use oo.File.{FileKeyring, unlocked_keyring}
use oo.Server.{
  ObjectPath, ServiceError, zbus, no_such_object, Bus, collection_created, collections_changed,
}
use oo.Server.Collection.{Collection}
use oo.Server.Service.{tried, Service, Prompt, complete_creation, in_world}
use oo.Server.Service.Naming.{Lowercase, make_unique_label_and_alias}
use oo.Server.Service.Creation.{
  new_keyring, new_collection, put_collection, add_collection, create_collection_with_secret,
  pending_collection, complete_collection_creation,
}
use oo.Server.Service.Prompts.{prompt_at, take_action, execute, complete, on_create_collection}

-- A method that leaves the prompts alone.
abbrev KeepsPrompts : {W A : Type 0} → Step ServiceError (Service × W) A → Type 0
KeepsPrompts {W} m = (s : Service × W) → (m s).1.0.prompts ≡ s.0.prompts

module _ {W A B : Type 0} where
  continue-KeepsPrompts :
      (r : Result ServiceError A) (f : A → Step ServiceError (Service × W) B) (s : Service × W)
      → ((a : A) → KeepsPrompts (f a))
      → (continue r f s).1.0.prompts ≡ s.0.prompts
  continue-KeepsPrompts (ok a) f s h = h a s
  continue-KeepsPrompts (err e) f s h = refl
  continue-KeepsPrompts panic f s h = refl

  KeepsPrompts-bind :
      (m : Step ServiceError (Service × W) A) (f : A → Step ServiceError (Service × W) B)
      → KeepsPrompts m
      → ((a : A) → KeepsPrompts (f a))
      → KeepsPrompts (m >>= f)
  KeepsPrompts-bind m f h k s = continue-KeepsPrompts (m s).0 f (m s).1 k ∙ h s

-- A prompt whose action was taken.
abbrev acted : ObjectPath → Prompt → Service → Service
acted path prompt x = record x { prompts = insert path (record prompt { action = none }) x.prompts }

module _ {W : Type 0} ⦃bus : Bus W⦄ where
  put_collection-KeepsPrompts : (c : Collection) → KeepsPrompts {W = W} (put_collection c)
  unfolding put_collection
  put_collection-KeepsPrompts c =
      let last : KeepsPrompts {W = W} (do in_world (bus.emit collections_changed); pure c.path) =
        KeepsPrompts-bind (in_world (bus.emit collections_changed)) (λ t. pure c.path) (λ s. refl)
          (λ t s. refl) in
      let signalled : KeepsPrompts {W = W} (do
        in_world (bus.emit (collection_created c.path))
        in_world (bus.emit collections_changed)
        pure c.path) =
        KeepsPrompts-bind (in_world (bus.emit (collection_created c.path)))
          (λ t. do in_world (bus.emit collections_changed); pure c.path) (λ s. refl) (λ t. last) in
      KeepsPrompts-bind (in_world (bus.serve c.path))
        (λ t. do
          modify (λ s. (record s.0 { collections = insert c.path c s.0.collections }, s.1))
          in_world (bus.emit (collection_created c.path))
          in_world (bus.emit collections_changed)
          pure c.path)
        (λ s. refl)
        (λ t s. signalled (record s.0 { collections = insert c.path c s.0.collections }, s.1))

module _ {W : Type 0} ⦃os : Os W⦄ ⦃whole : WholeFiles W⦄ ⦃p : Primitives⦄
    ⦃codec : Codec UnlockedItem⦄ ⦃kc : Codec Keyring⦄ ⦃r : ReadBytes⦄ ⦃lowercase : Lowercase⦄
    ⦃bus : Bus W⦄ where
  add_collection-KeepsPrompts :
      (name label alias : Text) (keyring : FileKeyring)
      → KeepsPrompts {W = W} (add_collection name label alias keyring)
  unfolding add_collection
  add_collection-KeepsPrompts name label alias keyring s =
      KeepsPrompts-bind (lift (make_unique_label_and_alias s.0.collections label alias))
        (λ unique. do
          collection ← in_world (new_collection name unique.0 unique.1 keyring)
          put_collection collection)
        (λ t. refl)
        (λ unique.
          KeepsPrompts-bind (in_world (new_collection name unique.0 unique.1 keyring))
            put_collection (λ t. refl) put_collection-KeepsPrompts)
        s

  create_collection-KeepsPrompts :
      (label alias : Text) (secret : Option Secret)
      → KeepsPrompts {W = W} (create_collection_with_secret label alias secret)
  unfolding create_collection_with_secret
  create_collection-KeepsPrompts label alias secret s =
      let name = lowercase.to_lowercase label in
      KeepsPrompts-bind (in_world (new_keyring s.0.data_dir name secret))
        (λ u. add_collection name label alias (unlocked_keyring u)) (λ t. refl)
        (λ u. add_collection-KeepsPrompts name label alias (unlocked_keyring u)) s

  complete_creation-KeepsPrompts :
      (path : ObjectPath) (secret : Option Secret)
      → KeepsPrompts {W = W} (complete_collection_creation path secret)
  unfolding complete_collection_creation pending_collection
  complete_creation-KeepsPrompts path secret s =
      KeepsPrompts-bind (lift (or_err no_such_object (get path s.0.pending_collections)))
        (λ wanted. do
          created ← create_collection_with_secret wanted.0 wanted.1 secret
          modify
              (λ t. (record t.0 { pending_collections = remove path t.0.pending_collections }, t.1))
          pure created)
        (λ t. refl)
        (λ wanted.
          KeepsPrompts-bind (create_collection_with_secret wanted.0 wanted.1 secret)
            (λ created. do
              modify (λ t.
                  (record t.0 { pending_collections = remove path t.0.pending_collections }, t.1))
              pure created)
            (create_collection-KeepsPrompts wanted.0 wanted.1 secret) (λ created t. refl))
        s

module _ {W : Type 0} ⦃os : Os W⦄ ⦃whole : WholeFiles W⦄ ⦃p : Primitives⦄
    ⦃codec : Codec UnlockedItem⦄ ⦃kc : Codec Keyring⦄ ⦃r : ReadBytes⦄ ⦃files : Files⦄
    ⦃kp : KwalletPrimitives⦄ ⦃encoders : Encoders⦄ ⦃bus : Bus W⦄ ⦃lowercase : Lowercase⦄ where
  execute-KeepsPrompts :
      (q : ObjectPath) (secret : Option Secret)
      → KeepsPrompts {W = W} (execute (complete_creation q) secret)
  unfolding execute
  execute-KeepsPrompts q secret =
      KeepsPrompts-bind (complete_collection_creation q secret) (λ path. pure (path ∷ []))
        (complete_creation-KeepsPrompts q secret) (λ path s. refl)

  answered :
      (path q : ObjectPath) (prompt : Prompt) (secret : Option Secret) (x : Service) (w : W)
      → get path x.prompts ≡ some prompt
      → prompt.action ≡ some (complete_creation q)
      → (on_create_collection path secret (x, w)).1.0.prompts ≡ (acted path prompt x).prompts
  unfolding on_create_collection take_action prompt_at complete tried
  answered path q prompt secret x w found wants =
      let s : Service × W = (acted path prompt x, w) in
      elim (Outcome-cases (execute (complete_creation q) secret s).0) [
        | inl (paths, e) ↦ rw (found, wants, e) (execute-KeepsPrompts q secret s)
        | inr (inl (x, e)) ↦ rw (found, wants, e) (execute-KeepsPrompts q secret s)
        | inr (inr e) ↦ rw (found, wants, e) (execute-KeepsPrompts q secret s)
      ]

  -- A prompt whose action was taken fails, and does nothing.
  spent :
      (path : ObjectPath) (prompt : Prompt) (secret : Option Secret) (x : Service) (w : W)
      → get path x.prompts ≡ some prompt
      → prompt.action ≡ none
      → on_create_collection path secret (x, w) ≡ (err zbus, (acted path prompt x, w))
  unfolding on_create_collection take_action prompt_at
  spent path prompt secret x w found taken = rw (found, taken) refl

  -- A prompt for a new collection acts once. Answered again, with whatever secret, after whatever the
  -- first answer came to, it fails: no collection is made, what is pending stays, and nothing is sent
  -- or written.
  pub on_create_collection_once :
      (path q : ObjectPath) (prompt : Prompt) (secret again : Option Secret) (x : Service) (w : W)
      → get path x.prompts ≡ some prompt
      → prompt.action ≡ some (complete_creation q)
      → (y : Service) × (v : W) × ((on_create_collection path secret (x, w)).1 ≡ (y, v))
        × ((z : Service) × (on_create_collection path again (y, v) ≡ (err zbus, (z, v)))
            × (z.collections ≡ y.collections)
            × (z.pending_collections ≡ y.pending_collections)
            × (z.sessions ≡ y.sessions))
  on_create_collection_once path q prompt secret again x w found wants =
      let s = (on_create_collection path secret (x, w)).1 in
      let spent_prompt : Prompt = record prompt { action = none } in
      let found_again : get path s.0.prompts ≡ some spent_prompt =
        ap (get path) (answered path q prompt secret x w found wants)
        ∙ ground (arith, get-insert path path spent_prompt x.prompts, bytes_eq_refl path) in
      (
        s.0,
        s.1,
        refl,
        (
          acted path spent_prompt s.0,
          spent path spent_prompt again s.0 s.1 found_again refl,
          refl,
          refl,
          refl,
        ),
      )
