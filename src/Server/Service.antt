-- ===== src/Server/Service.antt =====
-- server/src/service/mod.rs: the state of the service. The methods are steps on the service and the
-- world; the locks are left out, so two calls do not interleave. A clone of a collection, which
-- shares its contents, is its path in the table. The children are about its parts.
pub mod Sessions
pub mod Naming
pub mod Creation
pub mod Locks
pub mod Requests
pub mod Prompts
pub mod Pam
pub mod Startup
use oo.Prelude.{◌≡◌, ℕ, Bool, Option, none, some, List, [], Bytes, Text, codes}
use oo.HashMap.{get, insert}
use oo.Outcome.{Result, ok, err, panic}
use oo.Exec.{Step, zoom}
use oo.Os.{FilePath}
use oo.Item.{Map}
use oo.Server.{DbusSecret, ObjectPath, ServiceError, Sessions as SessionTable}
use oo.Server.Collection.{Collection}
use oo.Server.Migration.{PendingMigration}

-- server/src/prompt/mod.rs, `PromptRole`.
pub data PromptRole : Type 0 where
  for_unlock for_creation for_password : PromptRole

-- The closures that the service and its collections hand to `PromptAction::new`, with what they
-- capture: that of a collection's creation has the path of its prompt, that of an unlock the objects,
-- those of collections their path, and what the call was given.
pub data PromptAction : Type 0 where
  complete_creation : ObjectPath → PromptAction
  unlock_objects : List ObjectPath → PromptAction
  delete_collection : ObjectPath → PromptAction
  making_item : ObjectPath → Text → Map → DbusSecret → Bool → PromptAction
  dropping_item : ObjectPath → ObjectPath → PromptAction

-- `Prompt`, without the callbacks of the prompters. The collection is the path of one.
pub record Prompt : Type 0 where
  pub role : PromptRole
  pub path : ObjectPath
  pub label : Text
  pub collection : Option ObjectPath
  pub action : Option PromptAction

abbrev pub Collections : Type 0
Collections = List (ObjectPath × Collection)

pub record Service : Type 0 where
  pub collections : Collections
  pub sessions : SessionTable
  pub session_index : ℕ
  pub prompts : List (ObjectPath × Prompt)
  pub prompt_index : ℕ
  pub pending_collections : List (ObjectPath × (Text × Text))
  pub pending_migrations : List (Text × PendingMigration)
  pub data_dir : FilePath

-- `Service::new`
unfoldable pub new_service : FilePath → Service
new_service data_dir = record {
  collections = [];
  sessions = [];
  session_index = 0;
  prompts = [];
  prompt_index = 0;
  pending_collections = [];
  pending_migrations = [];
  data_dir = data_dir;
}

module _ {W : Type 0} where
  -- A call that only reads or changes the world.
  abbrev pub in_world {ℓ} : {E S : Type 0} {A : Type ℓ} → Step E W A → Step E (S × W) A
  in_world = zoom (λ s. s.1) (λ w s. (s.0, w))

  -- A method of the collection at a path, which stays in its place; the path must be in the table.
  unfoldable pub at_collection :
      {E A : Type 0} → ObjectPath → Step E (Collection × W) A → Step E (Service × W) (Option A)
  at_collection path m s = elim (get path s.0.collections) [
    | none ↦ (ok none, s)
    | some c ↦ (
      elim (m (c, s.1)).0 [ ok a ↦ ok (some a) | err e ↦ err e | panic ↦ panic ],
      (record s.0 { collections = insert path (m (c, s.1)).1.0 s.0.collections }, (m (c, s.1)).1.1),
    )
  ]

-- A call whose error is only reported.
unfoldable pub tried : {E S A : Type 0} → Step E S A → Step E S (Unit {0})
tried m s = (elim (m s).0 [ ok a ↦ ok tt | err e ↦ ok tt | panic ↦ panic ], (m s).1)
