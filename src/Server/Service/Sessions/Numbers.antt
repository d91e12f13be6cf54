-- ===== src/Server/Service/Sessions/Numbers.antt =====
-- server/src/service/mod.rs: sessions as a function of their paths, and the invariant of the table.
use oo.Prelude.{
  ℕ, Bool, true, false, ◌+◌, ◌%◌, ◌^◌, ◌≤◌, ◌<◌, Option, none, some, [], ◌∷◌, ◌++◌, Text, ◌≡◌, refl,
  sym, ap, ◌∙◌, inl, inr, arith, bytes_eq, if◌then◌else◌, Option-cases, Bool-cases, codes,
}
use native.Mathlib.Nat.{mod-eq_of_lt}
use oo.HashMap.{
  some_injective, IsMap, Finds, insert-IsMap, remove-IsMap, get, insert, remove, get-insert-some,
  get-remove,
}
use oo.Legacy.Items.{decimal}
use oo.Legacy.Decimal.{decimal_injective}
use oo.Server.{ObjectPath, Session, Sessions}
use oo.Server.Service.{Service}
use oo.Server.Service.Sessions.{session_path, find_sender}
use oo.Server.Service.Sessions.Effects.{next_index, with_sessions}

-- The abstract view: which session a path stands for.
abbrev pub View : Type 0
View = ObjectPath → Option Session

unfoldable pub view : Service → View
view x = λ q. get q x.sessions

abbrev pub update : View → ObjectPath → Option Session → View
update f q v = λ p. if bytes_eq q p then v else f p

-- Each session is in the table at its own path, which has one of the numbers that were given out.
abbrev pub IsNumbered : Service → Type 0
IsNumbered x =
    (x.session_index < 2 ^ 32)
    × IsMap x.sessions
    × ((q : ObjectPath) (s : Session)
        → get q x.sessions ≡ some s
        → (k : ℕ) × (k ≤ x.session_index) × (q ≡ session_path k) × (s.path ≡ q))

-- Whether the client of that name has the session.
abbrev pub sent_by : Text → Option Session → Bool
sent_by name none = false
sent_by name (some s) = bytes_eq s.sender name

-- A session that is found by its sender is in the table and is of that sender.
pub find_sender-Finds :
    (name : Text) (s : Session) (m es : Sessions)
    → Finds m es
    → find_sender name es ≡ some s
    → (q : ObjectPath) × (get q m ≡ some s) × (bytes_eq s.sender name ≡ true)
unfolding find_sender
find_sender-Finds name s m [] h e = absurd (cc)
find_sender-Finds name s m ((q, t) ∷ es) h e = elim (Bool-cases (bytes_eq t.sender name)) [
  | inl same ↦
      let here : t ≡ s = some_injective (rw same at e) in
      (q, h.0 ∙ ap some here, ap (λ (r : Session). bytes_eq r.sender name) (sym here) ∙ same)
  | inr other ↦ find_sender-Finds name s m es h.1 (rw other at e)
]

-- Where none is found by its sender, none is of that sender.
pub find_sender-none :
    (name : Text) (es : Sessions) (q : ObjectPath)
    → find_sender name es ≡ none
    → sent_by name (get q es) ≡ false
unfolding find_sender get
find_sender-none name [] q e = refl
find_sender-none name ((j, t) ∷ es) q e = elim (Bool-cases (bytes_eq t.sender name)) [
  | inl same ↦ absurd (ground (arith, same, e))
  | inr other ↦ elim (Bool-cases (bytes_eq j q)) [
    | inl here ↦ rw here other
    | inr there ↦ rw there (find_sender-none name es q (rw other at e))
  ]
]

pub append_injective : (p a b : Text) → p ++ a ≡ p ++ b → a ≡ b
append_injective [] a b e = e
append_injective (c ∷ p) a b e = append_injective p a b (cc)

session_path_injective :
    (m n : ℕ) → m < 2 ^ 32 → n < 2 ^ 32 → session_path m ≡ session_path n → m ≡ n
unfolding session_path
session_path_injective m n hm hn e =
    decimal_injective m n (omega (arith, hm)) (omega (arith, hn))
      (append_injective (codes "/org/freedesktop/secrets/session/s") (decimal m) (decimal n) e)

module _ (x : Service) (h : IsNumbered x) where
  -- The path of the next session is free.
  pub next_free : x.session_index + 1 < 2 ^ 32 → get (session_path (next_index x)) x.sessions ≡ none
  next_free room = elim (Option-cases (get (session_path (next_index x)) x.sessions)) [
    | inl e ↦ e
    | inr (s, e) ↦
        let counted : (x.session_index + 1) % 2 ^ 32 ≡ x.session_index + 1 = mod-eq_of_lt room in
        let (k, below, same, own) = h.2 (session_path (next_index x)) s e in
        let equal : x.session_index + 1 ≡ k =
          session_path_injective (x.session_index + 1) k room (omega (arith, below, h.0))
            (ap session_path (sym counted) ∙ same) in
        absurd (omega (arith, equal, below))
  ]

  pub opened-IsNumbered :
      (new : Session)
      → x.session_index + 1 < 2 ^ 32
      → new.path ≡ session_path (next_index x)
      → IsNumbered
          (record x { session_index = next_index x; sessions = insert new.path new x.sessions })
  opened-IsNumbered new room own =
      let counted : (x.session_index + 1) % 2 ^ 32 ≡ x.session_index + 1 = mod-eq_of_lt room in
      (
        omega (arith, counted, room),
        insert-IsMap new.path new x.sessions h.1,
        λ q s e. elim (get-insert-some new.path q new s x.sessions e) [
          | inl (here, same) ↦ (
            next_index x,
            omega arith,
            sym here ∙ own,
            sym (ap (λ (t : Session). t.path) same) ∙ here,
          )
          | inr there ↦
              let (k, below, at, path) = h.2 q s there in
              (k, omega (arith, counted, below), at, path)
        ],
      )

  -- The table changed at the path of a session that was there, or less.
  pub closed-IsNumbered : (q : ObjectPath) → IsNumbered (with_sessions x (remove q x.sessions))
  closed-IsNumbered q = (
    h.0,
    remove-IsMap q x.sessions h.1,
    λ p s e. h.2 p s (ground (arith, get-remove q p x.sessions, e)),
  )

  pub marked-IsNumbered :
      (q : ObjectPath) (old : Session) (at : Option ℕ)
      → get q x.sessions ≡ some old
      → IsNumbered (with_sessions x (insert q (record old { disconnected_at = at }) x.sessions))
  marked-IsNumbered q old at found = (
    h.0,
    insert-IsMap q (record old { disconnected_at = at }) x.sessions h.1,
    λ p s e. elim (get-insert-some q p (record old { disconnected_at = at }) s x.sessions e) [
      | inl (here, same) ↦
          let (k, below, number, path) = h.2 q old found in
          (k, below, sym here ∙ number, sym (ap (λ (t : Session). t.path) same) ∙ (path ∙ here))
      | inr there ↦ h.2 p s there
    ],
  )
