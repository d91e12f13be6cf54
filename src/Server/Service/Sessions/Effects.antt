-- ===== src/Server/Service/Sessions/Effects.antt =====
-- server/src/service/mod.rs and server/src/session.rs: what each method does to the table of sessions.
use oo.Prelude.{
  ℕ, ◌+◌, ◌%◌, ◌^◌, Option, none, some, Bytes, Text, ◌≡◌, refl, ◌⊎◌, inl, inr, Option-cases,
}
use oo.HashMap.{get, insert, remove}
use oo.Outcome.{Result, ok, err, panic, Outcome-cases}
use oo.Os.{Os}
use oo.Crypto.{Primitives}
use oo.Crypto.KeyExchange.{Hkdf}
use oo.Server.{unmark_stale, ServiceError, ObjectPath, Bus, Session, Sessions}
use oo.Server.Service.{Service}
use oo.Server.Service.Sessions.{
  Algorithm, Instants, Peers, peer_name_of, session_path, next_session_index, new_session,
  put_session, remove_session, session_keys, open_session, close, mark_stale, find_sender, session,
  session_from_sender, client_disconnected,
}

-- The index of the next session, which counts modulo 2 ^ 32.
abbrev pub next_index : Service → ℕ
next_index x = (x.session_index + 1) % 2 ^ 32

abbrev pub with_sessions : Service → Sessions → Service
with_sessions x sessions = record x { sessions = sessions }

-- What a call answers, as far as the path of a session goes.
abbrev pub path_given {ℓ} :
    {A : Type ℓ}
    → (A → Option ObjectPath)
    → Result ServiceError A
    → Result ServiceError (Option ObjectPath)
path_given f (ok a) = ok (f a)
path_given f (err e) = err e
path_given f panic = panic

abbrev pub Fails : Result ServiceError (Option ObjectPath) → Type 0
Fails (ok a) = ⊥
Fails (err e) = Unit
Fails panic = Unit

-- Where the call succeeds, it answers the path.
abbrev pub Answers : ObjectPath → Result ServiceError (Option ObjectPath) → Type 0
Answers q (ok a) = a ≡ some q
Answers q (err e) = Unit
Answers q panic = Unit

module _ {W : Type 0} ⦃os : Os W⦄ ⦃p : Primitives⦄ ⦃hkdf : Hkdf⦄ ⦃peers : Peers W⦄
    ⦃bus : Bus W⦄ where
  -- A session is opened at the next index, or the call fails and nothing changes. The call may fail
  -- in the first case too, if the bus does not take the session.
  pub open_session_effect :
      (algorithm : Algorithm) (input : Option Bytes) (sender : Option Text) (x : Service) (w : W)
      → (((open_session algorithm input sender (x, w)).1.0 ≡ x)
          × Fails (path_given (λ r. some r.1) (open_session algorithm input sender (x, w)).0))
        ⊎ ((new : Session) × (new.path ≡ session_path (next_index x))
            × (sender ≡ some new.sender)
            × (new.disconnected_at ≡ none)
            × (((open_session algorithm input sender (x, w)).1.0 ≡ record x {
              session_index = next_index x;
              sessions = insert new.path new x.sessions;
            })
                × Answers new.path
                    (path_given (λ r. some r.1) (open_session algorithm input sender (x, w)).0)))
  unfolding open_session new_session next_session_index put_session
  open_session_effect algorithm input sender x w =
      elim (Outcome-cases (session_keys algorithm input w).0) [
        | inl (keys, e) ↦ elim (Option-cases sender) [
          | inl none_given ↦ inl (rw (e, none_given) (refl, tt))
          | inr (name, given) ↦
              let named = peer_name_of name (session_keys algorithm input w).1 in
              let new : Session = record {
                path = session_path (next_index x);
                aes_key = keys.1;
                sender = name;
                peer_name = named.0;
                disconnected_at = none;
              } in
              inr (
                new,
                refl,
                given,
                refl,
                rw (e, given)
                    (elim (Outcome-cases (bus.serve new.path named.1).0) [
                      | inl (t, served) ↦ rw served (refl, refl)
                      | inr (inl (x, served)) ↦ rw served (refl, tt)
                      | inr (inr served) ↦ rw served (refl, tt)
                    ]),
              )
        ]
        | inr (inl (x, e)) ↦ inl (rw e (refl, tt))
        | inr (inr e) ↦ inl (rw e (refl, tt))
      ]

module _ {W : Type 0} where
  pub close_effect :
      ⦃bus : Bus W⦄ (path : ObjectPath) (x : Service) (w : W)
      → (close path (x, w)).1.0 ≡ with_sessions x (remove path x.sessions)
  unfolding close remove_session
  close_effect path x w = refl

  -- A session that is asked for is there still, and not stale; the others are as they were.
  pub session_effect :
      (path : ObjectPath) (x : Service) (w : W)
      → (((session path (x, w)).1.0 ≡ x)
          × (get path x.sessions ≡ none)
          × ((session path (x, w)).0 ≡ ok none))
        ⊎ ((old : Session) × (get path x.sessions ≡ some old)
            × (((session path (x, w)).0 ≡ ok (some (unmark_stale old)))
                × ((session path (x, w)).1.0
                    ≡ with_sessions x (insert path (unmark_stale old) x.sessions))))
  unfolding session
  session_effect path x w = elim (Option-cases (get path x.sessions)) [
    | inl e ↦ inl (rw (session, e) (refl, refl, refl))
    | inr (old, e) ↦ inr (old, e, rw (session, e) (refl, refl))
  ]

  pub client_disconnected_effect :
      ⦃instants : Instants W⦄ (name : Text) (x : Service) (w : W)
      → (((client_disconnected name (x, w)).1.0 ≡ x) × (find_sender name x.sessions ≡ none))
        ⊎ ((old : Session) × (now : ℕ) × (find_sender name x.sessions ≡ some old)
            × ((client_disconnected name (x, w)).1.0
                ≡ with_sessions x (insert old.path (mark_stale now old) x.sessions)))
  unfolding client_disconnected session_from_sender put_session mark_stale
  client_disconnected_effect ⦃instants⦄ name x w =
      elim (Option-cases (find_sender name x.sessions)) [
        | inl e ↦ inl (rw e refl, e)
        | inr (old, e) ↦ inr (old, (instants.instant w).0, e, rw e refl)
      ]
