-- ===== src/Server/Service/Sessions/Sweep.antt =====
-- server/src/service/mod.rs, `cleanup_stale_sessions`: which sessions a sweep takes away.
use oo.Prelude.{
  ℕ, ◌+◌, ◌*◌, ◌^◌, ◌≤◌, ◌<◌, ◌&&◌, Bool, true, false, ◌||◌, none, some, List, [], ◌∷◌, any, ◌≡◌,
  refl, sym, ap, ◌∙◌, inl, inr, arith, subst, bytes_eq, bytes_eq_iff, bytes_eq→eq, if◌then◌else◌,
  Bool-cases, Option-cases,
}
use oo.HashMap.{some_injective, get, insert, remove, Finds, IsMap-Finds, get-insert, get-remove}
use oo.Outcome.{Result}
use oo.Server.{unmark_stale, ServiceError, ObjectPath, Bus, Session, Sessions}
use oo.Server.Service.{Service}
use oo.Server.Service.Sessions.{
  Instants, close, remove_session, session, is_stale, stale_paths, close_stale,
  cleanup_stale_sessions,
}
use oo.Server.Service.Sessions.Effects.{with_sessions}
use oo.Server.Service.Sessions.Numbers.{IsNumbered, closed-IsNumbered, marked-IsNumbered}

-- The path is in the list.
abbrev listed : ObjectPath → List ObjectPath → Bool
listed q paths = any (λ p. bytes_eq p q) paths

-- The session that was asked for, and then closed.
abbrev swept : Service → ObjectPath → Session → Service
swept x path old =
    with_sessions x (remove path (insert path (record old { disconnected_at = none }) x.sessions))

swept-IsNumbered :
    (x : Service) (path : ObjectPath) (old : Session)
    → get path x.sessions ≡ some old
    → IsNumbered x
    → IsNumbered (swept x path old)
swept-IsNumbered x path old found h =
    closed-IsNumbered
      (with_sessions x (insert path (record old { disconnected_at = none }) x.sessions))
      (marked-IsNumbered x h path old none found) path

swept-get :
    (x : Service) (path q : ObjectPath) (old : Session)
    → get q (swept x path old).sessions ≡ (if bytes_eq path q then none else get q x.sessions)
swept-get x path q old = ground (
  arith,
  get-remove path q (insert path (record old { disconnected_at = none }) x.sessions),
  get-insert path q (record old { disconnected_at = none }) x.sessions,
)

module _ {W : Type 0} ⦃bus : Bus W⦄ where
  close_stale-cons :
      (path : ObjectPath) (paths : List ObjectPath) (x : Service) (w : W)
      → IsNumbered x
      → (y : Service) × (v : W) × (close_stale (path ∷ paths) (x, w) ≡ close_stale paths (y, v))
        × IsNumbered y
        × ((q : ObjectPath)
            → get q y.sessions ≡ (if bytes_eq path q then none else get q x.sessions))
  unfolding close_stale session close unmark_stale remove_session
  close_stale-cons path paths x w h = elim (Option-cases (get path x.sessions)) [
    | inl e ↦ (x, w, rw (session, e) refl, h, λ q. ground (arith, bytes_eq_iff path q, e))
    | inr (old, e) ↦
        let (k, below, number, own) = h.2 path old e in
        (
          swept x path old,
          (bus.remove path w).1,
          rw (session, e)
              (ap
                (λ p. close_stale paths (
                  with_sessions x
                      (remove p (insert path (record old { disconnected_at = none }) x.sessions)),
                  (bus.remove p w).1,
                ))
                own),
          swept-IsNumbered x path old e h,
          λ q. swept-get x path q old,
        )
  ]

  -- The listed sessions are taken away, the others are as they were.
  close_stale-get :
      (paths : List ObjectPath) (x : Service) (w : W) (q : ObjectPath)
      → IsNumbered x
      → get q (close_stale paths (x, w)).1.0.sessions
        ≡ (if listed q paths then none else get q x.sessions)
  unfolding any close_stale
  close_stale-get [] x w q h = refl
  close_stale-get (path ∷ paths) x w q h =
      let (y, v, step, numbered, there) = close_stale-cons path paths x w h in
      ap (λ (r : Result ServiceError (Unit {0}) × (Service × W)). get q r.1.0.sessions) step
      ∙ ground (arith, close_stale-get paths y v q numbered, there q)

listed-if :
    (q j : ObjectPath) (b : Bool) (paths : List ObjectPath)
    → listed q (if b then j ∷ paths else paths) ≡ ((b && bytes_eq j q) || listed q paths)
unfolding any
listed-if q j true paths = refl
listed-if q j false paths = refl

-- A session that the same client uses still, and one that was left more than a minute before what the
-- clock shows at a point of time.
abbrev pub IsConnected : Session → Type 0
IsConnected s = s.disconnected_at ≡ none

abbrev pub IsGone : {W : Type 0} → Instants W → W → Session → Type 0
IsGone instants w s =
    (t : ℕ) × (s.disconnected_at ≡ some t) × (t + 60 * 10 ^ 9 < (instants.instant w).0)

-- The documented behaviour of `Instant::now`: a later reading is never the smaller.
abbrev pub IsMonotonic : {W : Type 0} → Instants W → Type 0
IsMonotonic {W} instants =
    (w : W) → (instants.instant w).0 ≤ (instants.instant (instants.instant w).1).0

module _ {W : Type 0} ⦃instants : Instants W⦄ where
  is_stale_connected : (s : Session) (w : W) → IsConnected s → (is_stale s w).0 ≡ false
  unfolding is_stale
  is_stale_connected s w h = rw h refl

  is_stale_gone : (s : Session) (w : W) → IsGone instants w s → (is_stale s w).0 ≡ true
  unfolding is_stale
  is_stale_gone s w (t, h, late) = rw h (ground (arith, late))

  -- Who is gone is so after the look at another session.
  is_stale-IsGone :
      IsMonotonic instants
      → (u s : Session) (w : W) → IsGone instants w s
      → IsGone instants (is_stale u w).1 s
  unfolding is_stale
  is_stale-IsGone monotonic u s w (t, h, late) = elim (Option-cases u.disconnected_at) [
    | inl e ↦ rw e (t, h, late)
    | inr (at, e) ↦ rw e (t, h, omega (arith, late, monotonic w))
  ]

  connected-listed :
      (m es : Sessions) (w : W) (q : ObjectPath) (s : Session)
      → Finds m es
      → get q m ≡ some s
      → IsConnected s
      → listed q (stale_paths es w).0 ≡ false
  unfolding stale_paths any
  connected-listed m [] w q s found e c = refl
  connected-listed m ((j, t) ∷ es) w q s found e c =
      let rest = connected-listed m es (is_stale t w).1 q s found.1 e c in
      listed-if q j (is_stale t w).0 (stale_paths es (is_stale t w).1).0
      ∙ elim (Bool-cases (bytes_eq j q)) [
        | inl same ↦
            let equal : s ≡ t =
              some_injective (sym e ∙ (ap (λ k. get k m) (sym (bytes_eq→eq j q same)) ∙ found.0)) in
            rw (is_stale_connected t w (ap (λ (r : Session). r.disconnected_at) (sym equal) ∙ c))
              rest
        | inr other ↦ ground (arith, other, rest)
      ]

  gone-listed :
      (monotonic : IsMonotonic instants) (es : Sessions) (w : W) (q : ObjectPath) (s : Session)
      → get q es ≡ some s
      → IsGone instants w s
      → listed q (stale_paths es w).0 ≡ true
  unfolding stale_paths any get
  gone-listed monotonic [] w q s e c = absurd (cc)
  gone-listed monotonic ((j, u) ∷ es) w q s e c =
      listed-if q j (is_stale u w).0 (stale_paths es (is_stale u w).1).0
      ∙ elim (Bool-cases (bytes_eq j q)) [
        | inl same ↦
            let here : u ≡ s = some_injective (rw same at e) in
            let stale : (is_stale u w).0 ≡ true =
              subst (λ (r : Session). (is_stale r w).0 ≡ true) (sym here) (is_stale_gone s w c) in
            rw (stale, same) refl
        | inr other ↦ ground (
          arith,
          other,
          gone-listed monotonic es (is_stale u w).1 q s ((rw other at e))
              (is_stale-IsGone monotonic u s w c),
        )
      ]

module _ {W : Type 0} ⦃bus : Bus W⦄ ⦃instants : Instants W⦄ where
  -- A round of the sweep, in a service whose sessions are numbered, keeps a session whose client is
  -- connected just as it was.
  pub cleanup_stale_sessions_connected :
      (x : Service) (w : W) (q : ObjectPath) (s : Session)
      → IsNumbered x
      → get q x.sessions ≡ some s
      → IsConnected s
      → get q (cleanup_stale_sessions (x, w)).1.0.sessions ≡ some s
  unfolding cleanup_stale_sessions
  cleanup_stale_sessions_connected x w q s h e c =
      let paths = stale_paths x.sessions w in
      close_stale-get paths.0 x paths.1 q h
      ∙ rw (connected-listed x.sessions x.sessions w q s (IsMap-Finds x.sessions h.1) e c) e

  -- A round of the sweep, in a service whose sessions are numbered, takes away a session whose client
  -- left more than a minute before what the clock shows when the round begins. The clock must not go
  -- back.
  pub cleanup_stale_sessions_gone :
      IsMonotonic instants
      → (x : Service) (w : W) (q : ObjectPath) (s : Session) → IsNumbered x
      → get q x.sessions ≡ some s
      → IsGone instants w s
      → get q (cleanup_stale_sessions (x, w)).1.0.sessions ≡ none
  unfolding cleanup_stale_sessions
  cleanup_stale_sessions_gone monotonic x w q s h e c =
      let paths = stale_paths x.sessions w in
      close_stale-get paths.0 x paths.1 q h ∙ rw (gone-listed monotonic x.sessions w q s e c) refl
