-- ===== src/Server/Service/Pam/Connection.antt =====
-- server/src/pam_listener/mod.rs and server/src/service/mod.rs: a connection of the PAM module, and the
-- keyrings that wait for its password.
use oo.Prelude.{
  ℕ, Bool, true, false, not, ◌&&◌, Option, some, List, [], ◌∷◌, ◌==◌, if◌then◌else◌, Bytes, Text,
  codes, bytes_eq,
}
use oo.HashMap.{insert, remove}
use oo.Outcome.{ok, err, panic, or_err}
use oo.Exec.{Step, pure, lift, gets, raise, modify, ◌>>=◌, ◌>>◌}
use oo.Os.{Os, WholeFiles}
use oo.Secret.{Secret, blob}
use oo.Crypto.{Primitives}
use oo.Item.{UnlockedItem, Codec}
use oo.Keyring.{Keyring}
use oo.Legacy.{ReadBytes}
use oo.Unlocked.{UnlockedKeyring}
use oo.Kwallet.Crypto.{KwalletPrimitives}
use oo.Kwallet.File.{Files}
use oo.Kwallet.Convert.{Encoders}
use oo.File.{unlocked_keyring}
use oo.Server.{ServiceError, zbus, Bus, collection_created, collections_changed}
use oo.Server.Collection.{Collection}
use oo.Server.Collection.Methods.{dispatch_items}
use oo.Server.Migration.{PendingMigration, migrate}
use oo.Server.Service.{Service, in_world, tried}
use oo.Server.Service.Naming.{Lowercase, make_unique_label_and_alias}
use oo.Server.Service.Creation.{new_collection}
use oo.Server.Service.Locks.{default_collection}
use oo.Server.Service.Pam.{
  unlock, change_password, PamMessage, PamResponse, success_response, error_response,
  response_bytes, read_frame, Listener, on_service, keep_secret, unlock_each, over_collections,
  change_collection_passwords,
}

module _ {W : Type 0} ⦃bus : Bus W⦄ where
  -- A migrated collection comes into the table if the bus takes it. It is the default one too, if its
  -- alias is.
  unfoldable pub serve_migrated :
      PendingMigration → Collection → Step ServiceError (Service × W) Bool
  serve_migrated m c s = elim (bus.serve c.path s.1).0 [
    | ok _ ↦
        (do
          modify (λ t. (record t.0 { collections = insert c.path c t.0.collections }, t.1))
          if bytes_eq m.alias default_collection
              then tried (in_world (bus.serve (codes "/org/freedesktop/secrets/aliases/default")))
              else pure tt
          tried (in_world (bus.emit (collection_created c.path)))
          tried (in_world (bus.emit collections_changed))
          pure true)
          (s.0, (bus.serve c.path s.1).1)
    | err e ↦ (ok false, (s.0, (bus.serve c.path s.1).1))
    | panic ↦ (panic, (s.0, (bus.serve c.path s.1).1))
  ]

module _ {W : Type 0} ⦃os : Os W⦄ ⦃whole : WholeFiles W⦄ ⦃p : Primitives⦄
    ⦃codec : Codec UnlockedItem⦄ ⦃kc : Codec Keyring⦄ ⦃bus : Bus W⦄ ⦃lowercase : Lowercase⦄ where
  unfoldable pub place_migrated :
      Text → PendingMigration → UnlockedKeyring → Step ServiceError (Service × W) Bool
  place_migrated name m u = do
    collections ← gets (λ s. s.0.collections)
    unique ← lift (make_unique_label_and_alias collections m.label m.alias)
    collection ← in_world (new_collection name unique.0 unique.1 (unlocked_keyring u))
    λ s.
        let d = dispatch_items (collection, s.1) in
        elim d.0 [
          | ok _ ↦ serve_migrated m d.1.0 (s.0, d.1.1)
          | err e ↦ (ok false, (s.0, d.1.1))
          | panic ↦ (panic, (s.0, d.1.1))
        ]

module _ {W : Type 0} ⦃os : Os W⦄ ⦃whole : WholeFiles W⦄ ⦃p : Primitives⦄
    ⦃codec : Codec UnlockedItem⦄ ⦃kc : Codec Keyring⦄ ⦃r : ReadBytes⦄ ⦃files : Files⦄
    ⦃kp : KwalletPrimitives⦄ ⦃encoders : Encoders⦄ ⦃bus : Bus W⦄ ⦃lowercase : Lowercase⦄ where
  -- Whether the keyring was migrated.
  unfoldable pub migrate_pending :
      Text → PendingMigration → Secret → Step ServiceError (Service × W) Bool
  migrate_pending name m secret s =
      let r = migrate s.0.data_dir m (some secret) s.1 in
      elim r.0 [
        | ok u ↦ place_migrated name m u (s.0, r.1)
        | err e ↦ (ok false, (s.0, r.1))
        | panic ↦ (panic, (s.0, r.1))
      ]

  unfoldable pub migrate_each :
      List (Text × PendingMigration) → Secret → Step ServiceError (Service × W) (List Text)
  migrate_each [] secret = pure []
  migrate_each ((name, m) ∷ pending) secret = do
    migrated ← migrate_pending name m secret
    others ← migrate_each pending secret
    pure (if migrated then name ∷ others else others)

  unfoldable pub drop_migrations : List Text → Step ServiceError (Service × W) (Unit {0})
  drop_migrations [] = pure tt
  drop_migrations (name ∷ names) = do
    modify (λ s. (record s.0 { pending_migrations = remove name s.0.pending_migrations }, s.1))
    drop_migrations names

  unfoldable pub migrate_pending_keyrings : Secret → Step ServiceError (Service × W) (List Text)
  migrate_pending_keyrings secret = do
    pending ← gets (λ s. s.0.pending_migrations)
    migrated ← migrate_each pending secret
    drop_migrations migrated
    pure migrated

  unfoldable pub try_unlock_collections : Secret → Step ServiceError (Service × W) (Unit {0})
  try_unlock_collections secret = do
    migrated ← migrate_pending_keyrings secret
    over_collections (unlock_each secret)

  -- The text of an error is left out.
  unfoldable pub answer :
      {A : Type 0}
      → Step ServiceError (Listener × W) A
      → Step ServiceError (Listener × W) PamResponse
  answer m s = (
    elim (m s).0 [ ok _ ↦ ok success_response | err e ↦ ok (error_response []) | panic ↦ panic ],
    (m s).1,
  )

  -- The match on the operation. The secret of an unlock is kept first, that of a change once it is
  -- made.
  unfoldable pub respond : PamMessage → Step ServiceError (Listener × W) PamResponse
  respond message = elim message.operation [
    | unlock ↦ do
      keep_secret message.username (blob message.new_secret)
      answer (on_service (try_unlock_collections (blob message.new_secret)))
    | change_password ↦ answer (do
      changed_count ←
          on_service
            (change_collection_passwords (blob message.old_secret) (blob message.new_secret))
      keep_secret message.username (blob message.new_secret))
  ]

  -- Root, who runs the PAM module, and the user are heard.
  unfoldable pub handle_connection :
      ⦃mc : Codec PamMessage⦄
      → ⦃rc : Codec PamResponse⦄ → ℕ
      → ℕ
      → Bytes
      → Step ServiceError (Listener × W) (Option Bytes)
  handle_connection ⦃mc⦄ our_uid peer_uid sent = do
    if not (peer_uid == 0) && not (peer_uid == our_uid) then raise zbus else pure tt
    message_bytes ← lift (or_err zbus (read_frame sent))
    message ← lift (or_err zbus (mc.from_bytes message_bytes))
    response ← respond message
    pure (response_bytes response)

  -- The loop of `replay_buffered_secrets`.
  unfoldable pub replay_each : List (Text × Secret) → Step ServiceError (Listener × W) (Unit {0})
  replay_each [] = pure tt
  replay_each ((username, secret) ∷ secrets) = do
    tried (on_service (try_unlock_collections secret))
    replay_each secrets

  unfoldable pub replay_buffered_secrets : Step ServiceError (Listener × W) (Unit {0})
  replay_buffered_secrets = do secrets ← gets (λ s. s.0.user_secrets); replay_each secrets
