-- ===== src/Server/Service/Sessions.antt =====
-- server/src/service/mod.rs and server/src/session.rs: how sessions are opened, found, closed and
-- swept.
pub mod Effects
pub mod Numbers
pub mod Refinement
pub mod Sweep
use oo.Prelude.{
  ℕ, ◌+◌, ◌-◌, ◌*◌, ◌%◌, ◌^◌, Bool, true, false, Option, none, some, List, [], ◌∷◌, ◌++◌, ltb, ◌==◌,
  if◌then◌else◌, Bytes, Text, codes, bytes_eq,
}
use oo.HashMap.{get, insert, remove}
use oo.Outcome.{Result, ok, err, panic, or_err}
use oo.Exec.{Step, pure, lift, gets, raise, modify, ◌>>=◌, ◌>>◌}
use oo.Os.{Os}
use oo.Secret.Utf8.{valid_utf8}
use oo.Crypto.{Primitives, Key, new_key}
use oo.Crypto.KeyExchange.{Hkdf, generate_private_key, generate_public_key, generate_aes_key}
use oo.Legacy.Items.{decimal}
use oo.Server.{
  ObjectPath, ServiceError, zbus, Bus, as_service, service, Session, Sessions, unmark_stale,
}
use oo.Server.Service.{Service, in_world}

-- client/src/dbus/algorithm.rs, `Algorithm`.
pub data Algorithm : Type 0 where
  plain encrypted : Algorithm

-- `std::time::Instant::now`, in nanoseconds.
pub record Instants (W : Type 0) : Type 0 where
  pub instant : W → ℕ × W

-- What the bus and `/proc` tell of a client: its process, the command line of a process, and
-- `Path::file_name`.
pub record Peers (W : Type 0) : Type 0 where
  pub process_id : Text → W → Option ℕ × W
  pub command_line : ℕ → W → Option Bytes × W
  pub file_name : Text → Option Text

-- The part of a command line before its first zero byte.
unfoldable pub program : Bytes → Bytes
program [] = []
program (b ∷ bs) = let rest = program bs in if b == 0 then [] else b ∷ rest

-- `format!("{name}[{pid}]")`
unfoldable pub display_name : {W : Type 0} → Peers W → ℕ → Bytes → Option Text
unfolding program valid_utf8 decimal
display_name peers pid command =
    if valid_utf8 (program command)
    then (elim (peers.file_name (program command)) [
      | none ↦ none
      | some name ↦ some (name ++ b'[' ∷ (decimal pid ++ b']' ∷ []))
    ])
    else none

module _ {W : Type 0} ⦃peers : Peers W⦄ where
  -- The name of the client, if all that it takes can be found out.
  unfoldable pub peer_name_of : Text → W → Option Text × W
  unfolding display_name
  peer_name_of sender w = elim (peers.process_id sender w).0 [
    | none ↦ (none, (peers.process_id sender w).1)
    | some pid ↦
        let r = peers.command_line pid (peers.process_id sender w).1 in
        (elim r.0 [ none ↦ none | some command ↦ display_name peers pid command ], r.1)
  ]

-- `format!("/org/freedesktop/secrets/session/s{index}")`
unfoldable pub session_path : ℕ → ObjectPath
unfolding decimal
session_path index = codes "/org/freedesktop/secrets/session/s" ++ decimal index

module _ {W : Type 0} where
  -- `session_index`, which counts up.
  unfoldable pub next_session_index : Step ServiceError (Service × W) ℕ
  next_session_index s = (
    ok ((s.0.session_index + 1) % 2 ^ 32),
    (record s.0 { session_index = (s.0.session_index + 1) % 2 ^ 32 }, s.1),
  )

  -- `Session::new`
  unfoldable pub new_session :
      Option Key → Text → Option Text → Step ServiceError (Service × W) Session
  new_session aes_key sender peer_name = do
    index ← next_session_index
    pure (record {
      path = session_path index;
      aes_key = aes_key;
      sender = sender;
      peer_name = peer_name;
      disconnected_at = none;
    })

  unfoldable pub put_session : Session → Step ServiceError (Service × W) (Unit {0})
  put_session session =
      modify (λ s. (record s.0 { sessions = insert session.path session s.0.sessions }, s.1))

  unfoldable pub remove_session : ObjectPath → Step ServiceError (Service × W) (Unit {0})
  remove_session path = modify (λ s. (record s.0 { sessions = remove path s.0.sessions }, s.1))

-- The secret service's end of the key exchange: the public key that it answers, and the key that it
-- keeps. The input is `none` where it is not a key.
unfoldable pub session_keys :
    {W : Type 0}
    → ⦃os : Os W⦄ → ⦃p : Primitives⦄ → ⦃hkdf : Hkdf⦄ → Algorithm
    → Option Bytes
    → Step ServiceError W (Option Bytes × Option Key)
session_keys plain input = pure (none, none)
session_keys encrypted input = do
  client_public_key ← lift (or_err zbus input)
  private_key ← service generate_private_key
  let public_key = generate_public_key private_key
  aes_key ← lift (as_service (generate_aes_key private_key client_public_key))
  pure (some public_key, some (new_key aes_key))

unfoldable pub bytes_or_empty : Option Bytes → Bytes
bytes_or_empty none = []
bytes_or_empty (some b) = b

module _ {W : Type 0} ⦃os : Os W⦄ ⦃p : Primitives⦄ ⦃hkdf : Hkdf⦄ ⦃peers : Peers W⦄
    ⦃bus : Bus W⦄ where
  -- Of the header of the call only the sender is used.
  unfoldable pub open_session :
      Algorithm → Option Bytes → Option Text → Step ServiceError (Service × W) (Bytes × ObjectPath)
  open_session algorithm input header_sender = do
    keys ← in_world (session_keys algorithm input)
    sender ← lift (or_err zbus header_sender)
    peer_name ← in_world (λ w. (ok (peer_name_of sender w).0, (peer_name_of sender w).1))
    session ← new_session keys.1 sender peer_name
    put_session session
    in_world (bus.serve session.path)
    pure (bytes_or_empty keys.0, session.path)

module _ {W : Type 0} ⦃bus : Bus W⦄ where
  -- `Session::close`
  unfoldable pub close : ObjectPath → Step ServiceError (Service × W) (Unit {0})
  close path = do remove_session path; in_world (bus.remove path)

unfoldable pub mark_stale : ℕ → Session → Session
mark_stale now session = record session { disconnected_at = some now }

unfoldable pub find_sender : Text → Sessions → Option Session
find_sender sender [] = none
find_sender sender ((path, session) ∷ sessions) =
    if bytes_eq session.sender sender then some session else find_sender sender sessions

module _ {W : Type 0} where
  -- `Service::session`: a session that is asked for is not stale any more.
  unfoldable pub session : ObjectPath → Step ServiceError (Service × W) (Option Session)
  session path s = elim (get path s.0.sessions) [
    | none ↦ (ok none, s)
    | some found ↦ (
      ok (some (unmark_stale found)),
      (record s.0 { sessions = insert path (unmark_stale found) s.0.sessions }, s.1),
    )
  ]

  unfoldable pub session_from_sender : Text → Step ServiceError (Service × W) (Option Session)
  session_from_sender sender = gets (λ s. find_sender sender s.0.sessions)

  unfoldable pub peer_display_name : Text → Step ServiceError (Service × W) Text
  peer_display_name sender = do
    found ← session_from_sender sender
    elim found [
      | none ↦ pure sender
      | some session ↦ elim session.peer_name [
        | none ↦ pure sender
        | some name ↦ pure (sender ++ b' ' ∷ b'(' ∷ (name ++ b')' ∷ []))
      ]
    ]

module _ {W : Type 0} ⦃instants : Instants W⦄ where
  -- A round of `on_client_disconnect`: the client with the old name is gone.
  unfoldable pub client_disconnected : Text → Step ServiceError (Service × W) (Unit {0})
  client_disconnected old_owner = do
    found ← session_from_sender old_owner
    elim found [
      | none ↦ pure tt
      | some session ↦ do
        now ← in_world (λ w. (ok (instants.instant w).0, (instants.instant w).1))
        put_session (mark_stale now session)
    ]

  -- `is_stale`: `SESSION_STALE_TIMEOUT` is a minute.
  unfoldable pub is_stale : Session → W → Bool × W
  is_stale session w = elim session.disconnected_at [
    | none ↦ (false, w)
    | some t ↦ (ltb (60 * 10 ^ 9) ((instants.instant w).0 - t), (instants.instant w).1)
  ]

  -- The first half of a round of `cleanup_stale_sessions`.
  unfoldable pub stale_paths : Sessions → W → List ObjectPath × W
  stale_paths [] w = ([], w)
  stale_paths ((path, session) ∷ sessions) w =
      let r = is_stale session w in
      let rest = stale_paths sessions r.1 in (if r.0 then path ∷ rest.0 else rest.0, rest.1)

module _ {W : Type 0} ⦃bus : Bus W⦄ where
  -- A session that cannot be taken from the bus is only reported.
  unfoldable pub close_stale : List ObjectPath → Step ServiceError (Service × W) (Unit {0})
  close_stale [] = pure tt
  close_stale (path ∷ paths) = do
    found ← session path
    elim found [ none ↦ pure tt | some x ↦ λ s. (ok tt, (close x.path s).1) ]
    close_stale paths

module _ {W : Type 0} ⦃bus : Bus W⦄ ⦃instants : Instants W⦄ where
  -- A round of `cleanup_stale_sessions`.
  unfoldable pub cleanup_stale_sessions : Step ServiceError (Service × W) (Unit {0})
  cleanup_stale_sessions = do
    paths ← λ s. (ok (stale_paths s.0.sessions s.1).0, (s.0, (stale_paths s.0.sessions s.1).1))
    close_stale paths
