-- ===== src/Server.antt =====
-- server/src: what the service's objects share. The methods of the interfaces are steps on an object
-- and the world; the texts of error messages are left out.
pub mod Item
pub mod Collection
pub mod Migration
pub mod Service
use oo.Prelude.{◌≡◌, ℕ, Bool, Option, none, some, List, Bytes, Text}
use oo.HashMap.{get, insert}
use oo.Outcome.{Result, Outcome, ok, err, panic}
use oo.Exec.{Step, Exec, zoom}
use oo.Secret.{ContentType}
use oo.Crypto.{Key}

abbrev pub ObjectPath : Type 0
ObjectPath = Text

-- client/src/dbus/error.rs, `ServiceError`. Errors of zbus, which are also what
-- server/src/error.rs, `custom_service_error`, makes, are one.
pub data ServiceError : Type 0 where
  zbus is_locked no_session no_such_object : ServiceError

-- What the service tells its clients: the signal's name, and the paths that it is about.
pub data Signal : Type 0 where
  item_created item_deleted item_changed : ObjectPath → ObjectPath → Signal
  collection_created collection_deleted collection_changed : ObjectPath → Signal
  locked_changed modified_changed label_changed attributes_changed items_changed :
      ObjectPath → Signal
  collections_changed : Signal
  completed : ObjectPath → Bool → List ObjectPath → Signal

-- What the crate `zbus` gives: a signal is sent, an object is put under a path, and taken away.
pub record Bus (W : Type 0) : Type 0 where
  pub emit : Signal → Step ServiceError W (Unit {0})
  pub serve : ObjectPath → Step ServiceError W (Unit {0})
  pub remove : ObjectPath → Step ServiceError W (Unit {0})

-- A bus that takes all that is sent to it.
abbrev pub AlwaysSends : {W : Type 0} → Bus W → Type 0
AlwaysSends {W} bus =
    ((x : Signal) (w : W) → (w' : W) × (bus.emit x w ≡ (ok tt, w')))
    × (((path : ObjectPath) (w : W) → (w' : W) × (bus.serve path w ≡ (ok tt, w')))
        × ((path : ObjectPath) (w : W) → (w' : W) × (bus.remove path w ≡ (ok tt, w'))))

-- Errors of the file back end as errors of the service.
abbrev pub as_service : {A : Type 0} → Outcome A → Result ServiceError A
as_service (ok a) = ok a
as_service (err e) = err zbus
as_service panic = panic

abbrev pub service : {S A : Type 0} → Exec S A → Step ServiceError S A
service m s = (as_service (m s).0, (m s).1)

-- server/src/session.rs; a session that is not encrypted has no key. `disconnected_at` is an instant
-- in nanoseconds.
pub record Session : Type 0 where
  pub path : ObjectPath
  pub aes_key : Option Key
  pub sender : Text
  pub peer_name : Option Text
  pub disconnected_at : Option ℕ

abbrev pub Sessions : Type 0
Sessions = List (ObjectPath × Session)

unfoldable pub unmark_stale : Session → Session
unmark_stale session = record session { disconnected_at = none }

-- `Service::session` where the caller has the table beside its own state and needs the session: a
-- session that is asked for is not stale any more.
unfoldable pub find_session : {S : Type 0} → ObjectPath → Step ServiceError (Sessions × S) Session
unfolding get insert unmark_stale
find_session path s = elim (get path s.0) [
  | none ↦ (err no_session, s)
  | some found ↦ (ok (unmark_stale found), (insert path (unmark_stale found) s.0, s.1))
]

-- A method of the object that the table is beside.
abbrev pub on_object : {S A : Type 0} → Step ServiceError S A → Step ServiceError (Sessions × S) A
on_object = zoom (λ s. s.1) (λ x s. (s.0, x))

-- client/src/dbus/api/secret.rs, `DBusSecretInner`.
pub record DbusSecret : Type 0 where
  pub session : ObjectPath
  pub iv : Bytes
  pub value : Bytes
  pub content_type : ContentType
