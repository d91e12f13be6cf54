-- ===== src/Server/Service/Sessions/Refinement.antt =====
-- server/src/service/mod.rs and server/src/session.rs: the calls that are about sessions, against
-- sessions as a function of their paths.
use oo.Prelude.{
  ℕ, ◌+◌, ◌^◌, ◌≤◌, ◌<◌, true, false, Option, none, some, List, [], ◌∷◌, length, Bytes, Text, ◌≡◌,
  refl, sym, ap, ◌∙◌, fun_ext, ◌⊎◌, inl, inr, arith, subst, bytes_eq,
}
use native.Mathlib.Nat.{mod-eq_of_lt}
use oo.HashMap.{IsMap-Finds, get, get-insert, get-remove}
use oo.Outcome.{Result, ok}
use oo.Exec.{Step}
use oo.Os.{Os, FilePath}
use oo.Crypto.{Primitives}
use oo.Crypto.KeyExchange.{Hkdf}
use oo.Server.{ServiceError, ObjectPath, Bus, Session, unmark_stale}
use oo.Server.Service.{Service, new_service}
use oo.Server.Service.Sessions.{
  Algorithm, Instants, Peers, open_session, close, mark_stale, session, client_disconnected,
}
use oo.Server.Service.Sessions.Effects.{
  path_given, Fails, Answers, next_index, open_session_effect, close_effect, session_effect,
  client_disconnected_effect,
}
use oo.Server.Service.Sessions.Numbers.{
  View, view, update, IsNumbered, sent_by, find_sender-Finds, find_sender-none, next_free,
  opened-IsNumbered, closed-IsNumbered, marked-IsNumbered,
}

-- What a client may call, where it may name any path, and that a client is gone.
pub data Request : Type 0 where
  opening : Algorithm → Option Bytes → Option Text → Request
  closing : ObjectPath → Request
  asking : ObjectPath → Request
  leaving : Text → Request

module _ {W : Type 0} ⦃os : Os W⦄ ⦃p : Primitives⦄ ⦃hkdf : Hkdf⦄ ⦃peers : Peers W⦄ ⦃bus : Bus W⦄
    ⦃instants : Instants W⦄ where
  -- The method behind a request. Of the answer the path of the session is kept.
  unfoldable pub call : Request → Step ServiceError (Service × W) (Option ObjectPath)
  call (opening algorithm input sender) s =
      let r = open_session algorithm input sender s in (path_given (λ a. some a.1) r.0, r.1)
  call (closing path) s = let r = close path s in (path_given (λ _. none) r.0, r.1)
  call (asking path) s =
      let r = session path s in
      (path_given (λ a. elim a [ none ↦ none | some x ↦ some x.path ]) r.0, r.1)
  call (leaving name) s = let r = client_disconnected name s in (path_given (λ _. none) r.0, r.1)

  -- Requests in turn, each in the world that it meets.
  unfoldable pub run : List (Request × W) → Service → Service
  run [] x = x
  run ((request, w) ∷ rest) x = run rest (call request (x, w)).1.0

-- What a request that is answered so makes of the sessions. An open fails and changes nothing, or
-- puts a session of the caller, not stale, at a free path, and answers that path if it succeeds; it
-- need not succeed then. A close takes the session at its path away. A session that is asked for is
-- not stale any more, and all else about it kept. A client that is gone leaves one of its sessions
-- marked, or has none.
abbrev pub Changes : Request → Result ServiceError (Option ObjectPath) → View → View → Type 0
Changes (opening algorithm input sender) r f g =
    ((g ≡ f) × Fails r)
    ⊎ ((new : Session) × (f new.path ≡ none)
        × (sender ≡ some new.sender)
        × (new.disconnected_at ≡ none)
        × (g ≡ update f new.path (some new))
        × Answers new.path r)
Changes (closing q) r f g = g ≡ update f q none
Changes (asking q) r f g =
    ((g ≡ f) × (f q ≡ none) × (r ≡ ok none))
    ⊎ ((old : Session) × (f q ≡ some old)
        × (g ≡ update f q (some (unmark_stale old)))
        × (r ≡ ok (some old.path)))
Changes (leaving name) r f g =
    ((g ≡ f) × ((q : ObjectPath) → sent_by name (f q) ≡ false))
    ⊎ ((q : ObjectPath) × (old : Session) × (now : ℕ) × (f q ≡ some old)
        × (bytes_eq old.sender name ≡ true)
        × (g ≡ update f q (some (mark_stale now old))))

-- The sessions stay numbered, with at most one number more.
abbrev pub Follows : Service → Service → Type 0
Follows x y = IsNumbered y × (y.session_index ≤ x.session_index + 1)

module _ (x : Service) (h : IsNumbered x) where
  staying : {y : Service} → y ≡ x → Follows x y
  staying e = subst (Follows x) (sym e) (h, omega arith)

  same_view : {y : Service} → y ≡ x → view y ≡ view x
  same_view e = ap view e

module _ {W : Type 0} ⦃os : Os W⦄ ⦃p : Primitives⦄ ⦃hkdf : Hkdf⦄ ⦃peers : Peers W⦄ ⦃bus : Bus W⦄
    ⦃instants : Instants W⦄ where
  -- A request of one kind follows, and changes what it may.
  abbrev Refines : Request → Service → W → Type 0
  Refines request x w =
      Follows x (call request (x, w)).1.0
      × Changes request (call request (x, w)).0 (view x) (view (call request (x, w)).1.0)

  opening-Refines :
      (algorithm : Algorithm) (input : Option Bytes) (sender : Option Text) (x : Service) (w : W)
      → x.session_index + 1 < 2 ^ 32
      → IsNumbered x
      → Refines (opening algorithm input sender) x w
  unfolding view call
  opening-Refines algorithm input sender x w room h =
      elim (open_session_effect algorithm input sender x w) [
        | inl (e, fails) ↦ (staying x h e, inl (ap view e, fails))
        | inr (new, own, of, fresh, (e, answers)) ↦
            let counted : next_index x ≡ x.session_index + 1 = mod-eq_of_lt room in
            (
              subst (Follows x) (sym e)
                  (opened-IsNumbered x h new room own, omega (arith, counted)),
              inr (
                new,
                rw own (next_free x h room),
                of,
                fresh,
                ap view e ∙ (fun_ext λ q. get-insert new.path q new x.sessions),
                answers,
              ),
            )
      ]

  closing-Refines :
      (path : ObjectPath) (x : Service) (w : W) → IsNumbered x → Refines (closing path) x w
  unfolding view call
  closing-Refines path x w h = (
    subst (Follows x) (sym (close_effect path x w)) (closed-IsNumbered x h path, omega arith),
    ap view (close_effect path x w) ∙ (fun_ext λ q. get-remove path q x.sessions),
  )

  asking-Refines :
      (path : ObjectPath) (x : Service) (w : W) → IsNumbered x → Refines (asking path) x w
  unfolding view call unmark_stale
  asking-Refines path x w h = elim (session_effect path x w) [
    | inl (e, absent, answer) ↦ (staying x h e, inl (ap view e, absent, rw answer refl))
    | inr (old, found, (answer, e)) ↦ (
      subst (Follows x) (sym e) (marked-IsNumbered x h path old none found, omega arith),
      inr (
        old,
        found,
        ap view e ∙ (fun_ext λ q. get-insert path q (unmark_stale old) x.sessions),
        rw answer refl,
      ),
    )
  ]

  leaving-Refines : (name : Text) (x : Service) (w : W) → IsNumbered x → Refines (leaving name) x w
  unfolding view call mark_stale
  leaving-Refines name x w h = elim (client_disconnected_effect name x w) [
    | inl (e, nobody) ↦
        (staying x h e, inl (ap view e, λ q. find_sender-none name x.sessions q nobody))
    | inr (old, now, sent, e) ↦
        let (q, found, by) =
          find_sender-Finds name old x.sessions x.sessions (IsMap-Finds x.sessions h.1) sent in
        let (k, below, number, own) = h.2 q old found in
        let there = subst (λ j. get j x.sessions ≡ some old) (sym own) found in
        (
          subst (Follows x) (sym e)
              (marked-IsNumbered x h old.path old (some now) there, omega arith),
          inr (
            old.path,
            old,
            now,
            there,
            by,
            ap view e ∙ (fun_ext λ j. get-insert old.path j (mark_stale now old) x.sessions),
          ),
        )
  ]

  -- An open, a close, a look at a session or the end of a client, in a service whose sessions are
  -- numbered, with fewer than 2 ^ 32 - 1 numbers given out: they stay numbered, with at most one
  -- number more, and the abstract view changes as that request with that answer may change it. An
  -- open fails and changes nothing, or puts one session of the caller, not stale, at a path that was
  -- free, and answers that path if it succeeds. A close takes away the session at its path and no
  -- other. A look at a session makes it not stale, and answers whether it was there. The end of a
  -- client marks one of its sessions, if it has any.
  pub call-Changes :
      (request : Request) (x : Service) (w : W)
      → IsNumbered x
      → x.session_index + 1 < 2 ^ 32
      → IsNumbered (call request (x, w)).1.0
        × ((call request (x, w)).1.0.session_index ≤ x.session_index + 1)
        × Changes request (call request (x, w)).0 (view x) (view (call request (x, w)).1.0)
  call-Changes (opening algorithm input sender) x w h room =
      let r = opening-Refines algorithm input sender x w room h in (r.0.0, r.0.1, r.1)
  call-Changes (closing path) x w h room = let r = closing-Refines path x w h in (r.0.0, r.0.1, r.1)
  call-Changes (asking path) x w h room = let r = asking-Refines path x w h in (r.0.0, r.0.1, r.1)
  call-Changes (leaving name) x w h room = let r = leaving-Refines name x w h in (r.0.0, r.0.1, r.1)

  run-Numbered :
      (requests : List (Request × W)) (x : Service)
      → IsNumbered x
      → x.session_index + length requests < 2 ^ 32
      → IsNumbered (run requests x)
  unfolding run
  run-Numbered [] x h room = h
  run-Numbered ((request, w) ∷ rest) x h room =
      let r = call-Changes request x w h (omega (arith, room)) in
      run-Numbered rest (call request (x, w)).1.0 r.0 (omega (arith, room, r.1))

  -- From the start on, after fewer than 2 ^ 32 opens, closes, looks at a session and ends of clients,
  -- in any order and in any worlds: each session is found at its own path, the paths have the numbers
  -- that were given out, and no path is there twice.
  pub run-IsNumbered :
      (data_dir : FilePath) (requests : List (Request × W))
      → length requests < 2 ^ 32
      → IsNumbered (run requests (new_service data_dir))
  unfolding new_service get
  run-IsNumbered data_dir requests room =
      run-Numbered requests (new_service data_dir) (omega arith, tt, λ q s e. absurd (cc))
        (omega (arith, room))
