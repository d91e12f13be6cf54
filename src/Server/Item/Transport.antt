-- ===== src/Server/Item/Transport.antt =====
-- server/src/item/mod.rs and client/src/dbus/api/secret.rs: a secret that is sent over a session.
use oo.Prelude.{Option-cases, inl, inr, [], Option, none, some, ◌≡◌, refl, subst, length}
use oo.HashMap.{get, insert}
use oo.Outcome.{ok}
use oo.Os.{Os, IsLawfulOs}
use oo.Secret.{Secret, as_bytes, content_type}
use oo.Crypto.{Primitives, IsLawful, Key}
use oo.Crypto.Laws.{decrypt-encrypt}
use oo.Item.{UnlockedItem, Codec, secret_of, generate_iv}
use oo.Unlocked.Rekey.{AlwaysRandom}
use oo.File.{unlocked_item}
use oo.Server.{ObjectPath, Session, Sessions, unmark_stale, find_session, DbusSecret}
use oo.Server.Item.{Item, received, sent, get_secret}

-- A session without a key, or with one of the size that the cipher takes.
abbrev HasFit : Primitives → Option Key → Type 0
HasFit p none = Unit
HasFit p (some key) = length key.key ≡ p.key_size

unfoldable pub CanSend : ⦃p : Primitives⦄ → Session → Type 0
CanSend ⦃p⦄ session = HasFit p session.aes_key

module _ {W : Type 0} ⦃os : Os W⦄ ⦃p : Primitives⦄ ⦃codec : Codec UnlockedItem⦄
    (lawful_os : IsLawfulOs os) (lawful : IsLawful p) (random : AlwaysRandom os) where
  received-sent :
      (session : Session) (secret : Secret) (w : W)
      → CanSend session
      → (d : DbusSecret) × (w' : W) × (sent session secret w ≡ (ok d, w'))
        × ((received session d.value d.iv ≡ ok (as_bytes secret))
            × ((d.session ≡ session.path) × (d.content_type ≡ content_type secret)))
  unfolding sent received generate_iv CanSend
  received-sent session secret w fits = elim (Option-cases session.aes_key) [
    | inl e ↦ (
      record {
        session = session.path;
        iv = [];
        value = as_bytes secret;
        content_type = content_type secret;
      },
      w,
      rw (sent, e),
      (rw (received, e), (refl, refl)),
    )
    | inr (key, e) ↦
        let (iv, filled) = random p.iv_size w in
        let size : length key.key ≡ p.key_size = subst (HasFit p) e fits in
        let (b, there, back) =
          decrypt-encrypt lawful (as_bytes secret) key iv
            (size, lawful_os.filled p.iv_size w iv filled) in
        (
          record { session = session.path; iv = iv; value = b; content_type = content_type secret },
          (os.fill p.iv_size w).1,
          rw (sent, e, filled, there),
          (rw (received, e, back), (refl, refl)),
        )
  ]

  -- The secret of an item in the clear is sent over any session in the table, and whoever has the
  -- session's key reads from it the bytes of the secret; the item stays as it is, and of the table
  -- only that session changes, which is not stale any more. The session has no key or one of the cipher's size, the cipher is lawful, and random bytes do not fail.
  pub get_secret-received :
      (sessions : Sessions) (path : ObjectPath) (session : Session) (i : Item) (x : UnlockedItem)
      (w : W)
      → get path sessions ≡ some session
      → CanSend session
      → i.inner ≡ some (unlocked_item x)
      → (d : DbusSecret) × (w' : W) × (get_secret path (sessions, (i, w))
          ≡ (ok d, (insert path (unmark_stale session) sessions, (i, w'))))
        × ((received session d.value d.iv ≡ ok (as_bytes (secret_of x)))
            × ((d.session ≡ session.path) × (d.content_type ≡ content_type (secret_of x))))
  unfolding get_secret find_session
  get_secret-received sessions path session i x w found fits clear =
      let (d, w', there, facts) =
        received-sent (unmark_stale session) (secret_of x) w
          (unfold CanSend unmark_stale in fits) in
      (d, w', rw (find_session, found, clear, there) refl, unfold received unmark_stale in facts)
