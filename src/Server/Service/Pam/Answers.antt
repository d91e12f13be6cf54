-- ===== src/Server/Service/Pam/Answers.antt =====
-- server/src/pam_listener/mod.rs: the answers to the PAM module.
use oo.Prelude.{
  ◌+◌, ℕ, Bool, true, false, not, ◌&&◌, none, some, [], ◌∷◌, ◌++◌, length, ◌<◌, ◌^◌, ◌==◌,
  if◌then◌else◌, Bytes, ◌≡◌, refl, ◌⊎◌, inl, inr, arith, Bool-cases, Option-cases, bytes_eq,
  bytes_eq_refl, codes,
}
use oo.HashMap.{get, get-insert}
use oo.Outcome.{ok, panic, Outcome-cases}
use oo.Exec.{Step, pure, ◌>>=◌, ◌>>◌, continue-map_state}
use oo.Exec.NoErrors.{is_err, not_err, NeverErrs, NeverErrs-bind}
use oo.Os.{Os, WholeFiles}
use oo.Secret.{Secret, blob}
use oo.Crypto.{Primitives}
use oo.Item.{UnlockedItem, Codec, RoundTrips}
use oo.Keyring.{Keyring}
use oo.Legacy.{ReadBytes}
use oo.Unlocked.{UnlockedKeyring}
use oo.Kwallet.Crypto.{KwalletPrimitives}
use oo.Kwallet.File.{Files}
use oo.Kwallet.Convert.{Encoders}
use oo.File.{locked_keyring, unlocked_keyring}
use oo.Server.{Bus}
use oo.Server.Collection.{Collection, on_unlocked}
use oo.Server.Collection
use oo.Unlocked.Bulk.{change_secret}
use oo.Unlocked
use oo.Server.Service.{Collections, tried}
use oo.Server.Service.Naming.{Lowercase}
use oo.Server.Service.Pam.{
  change_password, PamMessage, PamResponse, success_response, response_bytes, message_frame,
  read_frame, Listener, count_changed, rekey_open, change_collection_password, change_each,
  over_collections, change_collection_passwords, keep_secret,
}
use oo.Server.Service.Pam.Access.{read_frame-prefixed, message_frame-prefixed, prefixed_short}
use oo.Server.Service.Pam.Connection.{respond, answer, handle_connection}

-- Root, and the user that the service runs for.
abbrev pub IsTrusted : ℕ → ℕ → Type 0
IsTrusted our_uid peer_uid = (peer_uid ≡ 0) ⊎ (peer_uid ≡ our_uid)

trusted :
    (our_uid peer_uid : ℕ)
    → (not (peer_uid == 0) && not (peer_uid == our_uid)) ≡ false
    → IsTrusted our_uid peer_uid
trusted our_uid peer_uid h = elim (Bool-cases (peer_uid == 0)) [
  | inl e ↦ inl (ground (arith, e))
  | inr e ↦ inr (ground (arith, h, e))
]

not_refused :
    (our_uid peer_uid : ℕ)
    → IsTrusted our_uid peer_uid
    → (not (peer_uid == 0) && not (peer_uid == our_uid)) ≡ false
not_refused our_uid peer_uid (inl e) = ground (arith, e)
not_refused our_uid peer_uid (inr e) = ground (arith, e)

module _ {W : Type 0} ⦃os : Os W⦄ ⦃whole : WholeFiles W⦄ ⦃p : Primitives⦄
    ⦃codec : Codec UnlockedItem⦄ ⦃kc : Codec Keyring⦄ ⦃r : ReadBytes⦄ ⦃files : Files⦄
    ⦃kp : KwalletPrimitives⦄ ⦃encoders : Encoders⦄ ⦃bus : Bus W⦄ ⦃lowercase : Lowercase⦄
    ⦃mc : Codec PamMessage⦄ ⦃rc : Codec PamResponse⦄ where
  -- A connection that changes anything of the service, of the kept secrets or of the world is one of
  -- root or of the service's own user, who sent a whole frame with a message in it.
  pub handle_connection-IsTrusted :
      (our_uid peer_uid : ℕ) (sent : Bytes) (s : Listener × W)
      → ((handle_connection our_uid peer_uid sent s).1 ≡ s)
        ⊎ (IsTrusted our_uid peer_uid
            × ((b : Bytes) × (message : PamMessage) × (read_frame sent ≡ some b)
                × (mc.from_bytes b ≡ some message)
                × ((handle_connection our_uid peer_uid sent s).1 ≡ (respond message s).1)))
  unfolding handle_connection
  handle_connection-IsTrusted our_uid peer_uid sent s =
      elim (Bool-cases (not (peer_uid == 0) && not (peer_uid == our_uid))) [
        | inl refused ↦ inl (rw refused refl)
        | inr heard ↦ elim (Option-cases (read_frame sent)) [
          | inl short ↦ inl (rw (heard, short) refl)
          | inr (b, framed) ↦ elim (Option-cases (mc.from_bytes b)) [
            | inl broken ↦ inl (rw (heard, framed, broken) refl)
            | inr (message, decoded) ↦ inr (
              trusted our_uid peer_uid heard,
              (
                b,
                message,
                framed,
                decoded,
                rw (heard, framed, decoded)
                    (continue-map_state (respond message s).0 response_bytes (respond message s).1),
              ),
            )
          ]
        ]
      ]

  -- What the PAM module writes for a message of fewer than 2 ^ 32 bytes, as root or as the user of the
  -- service, arrives as it is, whatever follows it on the connection: the service does what the
  -- message says, and nothing else. The serialiser must give back what it wrote.
  pub handle_connection-message_frame :
      RoundTrips mc
      → (our_uid peer_uid : ℕ) (message : PamMessage) (frame rest : Bytes) (s : Listener × W)
      → IsTrusted our_uid peer_uid
      → message_frame message ≡ some frame
      → length frame < 2 ^ 32 + 4
      → handle_connection our_uid peer_uid (frame ++ rest) s
        ≡ (respond message >>= λ response. pure (response_bytes response)) s
  unfolding handle_connection
  handle_connection-message_frame trips our_uid peer_uid message frame rest s from written short =
      let (b, encoded, framed) = message_frame-prefixed message frame written in
      let heard : (not (peer_uid == 0) && not (peer_uid == our_uid)) ≡ false =
        not_refused our_uid peer_uid from in
      rw
        (
          framed,
          heard,
          read_frame-prefixed b rest (prefixed_short b frame framed short),
          trips.back message b encoded,
        )
        refl

tried_lem : {E S A : Type 0} (m : Step E S A) → NeverErrs (tried m)
unfolding tried
tried_lem m s = elim (Outcome-cases (m s).0) [
  | inl (a, e) ↦ rw e refl
  | inr (inl (x, e)) ↦ rw e refl
  | inr (inr e) ↦ rw e refl
]

-- A call whose outcome is only told apart from a panic.
module _ {W : Type 0} ⦃os : Os W⦄ ⦃p : Primitives⦄ ⦃codec : Codec UnlockedItem⦄ ⦃kc : Codec Keyring⦄
    ⦃bus : Bus W⦄ where
  relocked_lem :
      (was_locked : Bool) (s : Collection × W)
      → is_err
          (if was_locked
            then (do tried (Collection.set_locked true none); pure true) s
            else (ok true, s)).0
        ≡ false
  relocked_lem true s =
      NeverErrs-bind (tried (Collection.set_locked true none)) (λ done. pure true)
        (tried_lem (Collection.set_locked true none)) (λ done t. refl) s
  relocked_lem false s = refl

  rekey_open_lem :
      (was_locked : Bool) (old_secret new_secret : Secret)
      → NeverErrs {S = Collection × W} (rekey_open was_locked old_secret new_secret)
  unfolding rekey_open
  rekey_open_lem was_locked old_secret new_secret s =
      let valid = on_unlocked (Unlocked.validate_secret old_secret) s in
      let changed = on_unlocked (change_secret new_secret) valid.1 in
      elim (Outcome-cases valid.0) [
        | inl (false, e) ↦ rw (is_err, e) refl
        | inl (true, e) ↦ elim (Outcome-cases changed.0) [
          | inl (done, f) ↦ rw (is_err, e, f) (relocked_lem was_locked changed.1)
          | inr (inl (x, f)) ↦ rw (is_err, e, f) refl
          | inr (inr f) ↦ rw (is_err, e, f) refl
        ]
        | inr (inl (x, e)) ↦ rw (is_err, e) refl
        | inr (inr e) ↦ rw (is_err, e) refl
      ]

  change_collection_password_lem :
      (old_secret new_secret : Secret)
      → NeverErrs {S = Collection × W} (change_collection_password old_secret new_secret)
  unfolding change_collection_password
  change_collection_password_lem old_secret new_secret s =
      let opened = Collection.set_locked false (some old_secret) s in
      elim (Bool-cases (bytes_eq s.0.alias (codes "session"))) [
        | inl session ↦ rw (is_err, session) refl
        | inr other ↦ elim (Option-cases s.0.keyring) [
          | inl e ↦ rw (is_err, other, e) refl
          | inr (unlocked_keyring u, e) ↦
              rw (is_err, other, e) (rekey_open_lem false old_secret new_secret s)
          | inr (locked_keyring l, e) ↦ elim (Outcome-cases opened.0) [
            | inl (done, f) ↦
                rw (is_err, other, e, f) (rekey_open_lem true old_secret new_secret opened.1)
            | inr (inl (x, f)) ↦ rw (is_err, other, e, f) refl
            | inr (inr f) ↦ rw (is_err, other, e, f) refl
          ]
        ]
      ]

  change_each_lem :
      (old_secret new_secret : Secret) (n : ℕ) (collections : Collections) (w : W)
      → is_err (change_each old_secret new_secret n collections w).0 ≡ false
  unfolding change_each
  change_each_lem old_secret new_secret n [] w = refl
  change_each_lem old_secret new_secret n ((path, c) ∷ collections) w =
      let r = change_collection_password old_secret new_secret (c, w) in
      elim (Outcome-cases r.0) [
        | inl (changed, e) ↦
            rw (is_err, e)
              (change_each_lem old_secret new_secret (count_changed r.0 n) collections r.1.1)
        | inr (inl (x, e)) ↦
            let never : is_err r.0 ≡ false =
              change_collection_password_lem old_secret new_secret (c, w) in
            absurd (not_err r.0 x never e)
        | inr (inr e) ↦ rw (is_err, e) refl
      ]

module _ {W : Type 0} ⦃os : Os W⦄ ⦃whole : WholeFiles W⦄ ⦃p : Primitives⦄
    ⦃codec : Codec UnlockedItem⦄ ⦃kc : Codec Keyring⦄ ⦃r : ReadBytes⦄ ⦃files : Files⦄
    ⦃kp : KwalletPrimitives⦄ ⦃encoders : Encoders⦄ ⦃bus : Bus W⦄ ⦃lowercase : Lowercase⦄ where
  -- A change of the password, unless it panics, is answered with success, and the new secret is kept
  -- as the user's, however many of the collections took it: also if the old secret fits none of them.
  pub respond_success :
      (message : PamMessage) (s : Listener × W)
      → message.operation ≡ change_password
      → ((respond message s).0 ≡ panic)
        ⊎ (((respond message s).0 ≡ ok success_response)
            × (get message.username (respond message s).1.0.user_secrets
                ≡ some (blob message.new_secret)))
  unfolding respond answer change_collection_passwords over_collections keep_secret
  respond_success message s h =
      let old_secret = blob message.old_secret in
      let new_secret = blob message.new_secret in
      let r = change_each old_secret new_secret 0 s.0.service.collections s.1 in
      elim (Outcome-cases r.0) [
        | inl (n, e) ↦ inr (
          rw (respond, h, answer, e) refl,
          rw (respond, h, answer, e)
              (ground (
                arith,
                get-insert message.username message.username new_secret s.0.user_secrets,
                bytes_eq_refl message.username,
              )),
        )
        | inr (inl (x, e)) ↦
            let never : is_err r.0 ≡ false =
              change_each_lem old_secret new_secret 0 s.0.service.collections s.1 in
            absurd (not_err r.0 x never e)
        | inr (inr e) ↦ inl (rw (respond, h, answer, e) refl)
      ]
