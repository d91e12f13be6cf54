-- ===== src/Server/Service/Pam.antt =====
-- server/src/pam_listener/mod.rs, pam/src/protocol.rs and server/src/service/mod.rs: what the service
-- does with the passwords that the PAM module sends. One connection is handled after the other.
pub mod Connection
pub mod Access
pub mod Answers
use oo.Prelude.{
  ℕ, ◌+◌, ◌*◌, ◌/◌, ◌%◌, ◌^◌, Bool, true, false, not, ◌&&◌, Option, none, some, List, [], ◌∷◌, ◌++◌,
  map, length, take, drop, ltb, ◌==◌, if◌then◌else◌, Bytes, Text, codes, bytes_eq,
}
use oo.HashMap.{get, insert, remove}
use oo.Outcome.{Result, Outcome, ok, err, panic, or_err}
use oo.Exec.{Step, pure, lift, gets, raise, modify, ◌>>=◌, ◌>>◌}
use oo.Os.{Os, WholeFiles}
use oo.Secret.{Secret, blob}
use oo.Crypto.{Primitives}
use oo.Item.{UnlockedItem, Codec}
use oo.Keyring.{Keyring}
use oo.Legacy.{ReadBytes}
use oo.Unlocked.{UnlockedKeyring, State}
use oo.Unlocked
use oo.Unlocked.Bulk.{change_secret}
use oo.Kwallet.Crypto.{KwalletPrimitives}
use oo.Kwallet.File.{Files}
use oo.Kwallet.Convert.{Encoders}
use oo.File.{FileKeyring, unlocked_keyring, locked_keyring, is_locked_keyring}
use oo.Server.{ObjectPath, ServiceError, zbus, Bus, Signal, collection_created, collections_changed}
use oo.Server.Collection.{Collection, collection_is_locked, on_unlocked}
use oo.Server.Collection
use oo.Server.Collection.Methods.{dispatch_items}
use oo.Server.Migration.{PendingMigration, migrate}
use oo.Server.Service.{Service, Collections, in_world, tried}
use oo.Server.Service.Naming.{Lowercase, make_unique_label_and_alias}
use oo.Server.Service.Creation.{new_collection}
use oo.Server.Service.Locks.{default_collection}

-- `PamOperation`
pub data PamOperation : Type 0 where
  unlock change_password : PamOperation

-- `PamMessage`, in the module and in the service.
pub record PamMessage : Type 0 where
  pub operation : PamOperation
  pub username : Text
  pub old_secret : Bytes
  pub new_secret : Bytes

unfoldable pub unlock_message : Text → Bytes → PamMessage
unlock_message username secret = record {
  operation = unlock;
  username = username;
  old_secret = [];
  new_secret = secret;
}

unfoldable pub change_password_message : Text → Bytes → Bytes → PamMessage
change_password_message username old_secret new_secret = record {
  operation = change_password;
  username = username;
  old_secret = old_secret;
  new_secret = new_secret;
}

-- `PamResponse`; the messages of errors are one.
pub record PamResponse : Type 0 where
  pub success : Bool
  pub error_message : Text

unfoldable pub success_response : PamResponse
success_response = record { success = true; error_message = [] }

unfoldable pub error_response : Text → PamResponse
error_response message = record { success = false; error_message = message }

-- `u32::to_le_bytes` and `u32::from_le_bytes`.
unfoldable pub to_le_bytes : ℕ → Bytes
to_le_bytes n = n % 256 ∷ n / 2 ^ 8 % 256 ∷ n / 2 ^ 16 % 256 ∷ n / 2 ^ 24 % 256 ∷ []

unfoldable pub from_le_bytes : Bytes → ℕ
from_le_bytes [] = 0
from_le_bytes (b ∷ bs) = b + 256 * from_le_bytes bs

-- Bytes behind their number, which is taken modulo 2 ^ 32.
unfoldable pub prefixed : Bytes → Bytes
prefixed message_bytes = to_le_bytes (length message_bytes % 2 ^ 32) ++ message_bytes

-- `PamResponse::to_bytes`; `none` is an error of `zvariant`.
unfoldable pub response_bytes : ⦃codec : Codec PamResponse⦄ → PamResponse → Option Bytes
unfolding prefixed
response_bytes ⦃codec⦄ response = elim (codec.to_bytes response) [
  | none ↦ none
  | some encoded ↦ some (prefixed encoded)
]

-- pam/src/socket.rs, `send_secret_to_daemon_async`: what the PAM module writes to a connection that
-- takes it all, the number of bytes first; `none` is an error of `zvariant`.
unfoldable pub message_frame : ⦃codec : Codec PamMessage⦄ → PamMessage → Option Bytes
unfolding to_le_bytes
message_frame ⦃codec⦄ message = elim (codec.to_bytes message) [
  | none ↦ none
  | some message_bytes ↦ some (to_le_bytes (length message_bytes % 2 ^ 32) ++ message_bytes)
]

-- The frame that is read from a connection: `read_exact` fails where the client sends less.
unfoldable pub read_frame : Bytes → Option Bytes
read_frame sent =
    let message_length = from_le_bytes (take 4 sent) in
    if ltb (length sent) 4
    then none
    else if ltb (length (drop 4 sent)) message_length
    then none
    else some (take message_length (drop 4 sent))

-- The service with the secrets by user that the listener keeps.
pub record Listener : Type 0 where
  pub service : Service
  pub user_secrets : List (Text × Secret)

module _ {W : Type 0} where
  abbrev pub on_service {ℓ} :
      {A : Type ℓ} → Step ServiceError (Service × W) A → Step ServiceError (Listener × W) A
  on_service m s = let r = m (s.0.service, s.1) in (r.0, (record s.0 { service = r.1.0 }, r.1.1))

  -- `user_secrets.insert`
  unfoldable pub keep_secret : Text → Secret → Step ServiceError (Listener × W) (Unit {0})
  keep_secret username secret =
      modify (λ s. (record s.0 { user_secrets = insert username secret s.0.user_secrets }, s.1))

-- One more, if the password was changed.
unfoldable pub count_changed : Result ServiceError Bool → ℕ → ℕ
count_changed (ok true) n = n + 1
count_changed other n = n

module _ {W : Type 0} ⦃os : Os W⦄ ⦃p : Primitives⦄ ⦃codec : Codec UnlockedItem⦄ ⦃bus : Bus W⦄
    ⦃kc : Codec Keyring⦄ where
  -- A collection that is locked is unlocked if the secret fits; failures are only reported.
  unfoldable pub try_unlock_collection : Secret → Step ServiceError (Collection × W) (Unit {0})
  try_unlock_collection secret s =
      if collection_is_locked s.0
      then tried (Collection.set_locked false (some secret)) s
      else (ok tt, s)

  -- The password of one collection, and whether it was changed. The keyring is opened with the old
  -- secret if it is locked, and locked again once the secret is changed.
  unfoldable pub rekey_open : Bool → Secret → Secret → Step ServiceError (Collection × W) Bool
  rekey_open was_locked old_secret new_secret s =
      let valid = on_unlocked (Unlocked.validate_secret old_secret) s in
      elim valid.0 [
        | ok true ↦
            let changed = on_unlocked (change_secret new_secret) valid.1 in
            elim changed.0 [
              | ok _ ↦
                  if was_locked
                  then (do tried (Collection.set_locked true none); pure true) changed.1
                  else (ok true, changed.1)
              | err e ↦ (ok false, changed.1)
              | panic ↦ (panic, changed.1)
            ]
        | ok false ↦ (ok false, valid.1)
        | err e ↦ (ok false, valid.1)
        | panic ↦ (panic, valid.1)
      ]

  unfoldable pub change_collection_password :
      Secret → Secret → Step ServiceError (Collection × W) Bool
  change_collection_password old_secret new_secret s =
      if bytes_eq s.0.alias (codes "session") then (ok false, s) else (elim s.0.keyring [
        | none ↦ (ok false, s)
        | some (unlocked_keyring u) ↦ rekey_open false old_secret new_secret s
        | some (locked_keyring l) ↦
            let opened = Collection.set_locked false (some old_secret) s in
            elim opened.0 [
              | ok _ ↦ rekey_open true old_secret new_secret opened.1
              | err e ↦ (ok false, opened.1)
              | panic ↦ (panic, opened.1)
            ]
      ])

  -- The collections in turn; only a panic ends the loop.
  unfoldable pub unlock_each :
      Secret → Collections → W → Result ServiceError (Unit {0}) × (Collections × W)
  unlock_each secret [] w = (ok tt, ([], w))
  unlock_each secret ((path, c) ∷ collections) w =
      let r = try_unlock_collection secret (c, w) in
      let rest = unlock_each secret collections r.1.1 in
      elim r.0 [
        | ok _ ↦ (rest.0, ((path, r.1.0) ∷ rest.1.0, rest.1.1))
        | err e ↦ (err e, ((path, r.1.0) ∷ collections, r.1.1))
        | panic ↦ (panic, ((path, r.1.0) ∷ collections, r.1.1))
      ]

  unfoldable pub change_each :
      Secret → Secret → ℕ → Collections → W → Result ServiceError ℕ × (Collections × W)
  change_each old_secret new_secret n [] w = (ok n, ([], w))
  change_each old_secret new_secret n ((path, c) ∷ collections) w =
      let r = change_collection_password old_secret new_secret (c, w) in
      let rest = change_each old_secret new_secret (count_changed r.0 n) collections r.1.1 in
      elim r.0 [
        | ok _ ↦ (rest.0, ((path, r.1.0) ∷ rest.1.0, rest.1.1))
        | err e ↦ (err e, ((path, r.1.0) ∷ collections, r.1.1))
        | panic ↦ (panic, ((path, r.1.0) ∷ collections, r.1.1))
      ]

  -- A loop over the table.
  unfoldable pub over_collections :
      {A : Type 0}
      → (Collections → W → Result ServiceError A × (Collections × W))
      → Step ServiceError (Service × W) A
  over_collections loop s =
      let r = loop s.0.collections s.1 in (r.0, (record s.0 { collections = r.1.0 }, r.1.1))

  -- The number of collections whose password was changed.
  unfoldable pub change_collection_passwords : Secret → Secret → Step ServiceError (Service × W) ℕ
  change_collection_passwords old_secret new_secret =
      over_collections (change_each old_secret new_secret 0)
