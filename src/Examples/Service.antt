-- ===== src/Examples/Service.antt =====
-- The theorems about the service at concrete inputs, with stand-ins for what else it calls.
use oo.Prelude.{
  ℕ, ◌+◌, ◌*◌, ◌^◌, ◌≤◌, true, false, Option, none, some, List, [], ◌∷◌, ◌++◌, ◌≡◌, ◌⊎◌, refl, inl,
  arith, Text, Bytes, codes, bytes_eq, bytes_eq_refl, if◌then◌else◌,
}
use oo.HashMap.{get, insert, contains_key}
use oo.Outcome.{ok, err, panic}
use oo.Exec.{◌>>=◌, pure}
use oo.Os.{WholeFiles}
use oo.Secret.{blob}
use oo.Item.{Codec, RoundTrips}
use oo.Kwallet.Crypto.{KwalletPrimitives}
use oo.Kwallet.File.{Files}
use oo.Kwallet.Convert.{Encoders}
use oo.Legacy.Items.{decimal}
use oo.Server.{ObjectPath, Session, zbus}
use oo.Server.Collection.{collection_is_locked}
use oo.Server.Service.{Service, Collections, new_service, Prompt, for_creation, complete_creation}
use oo.Server.Service.Sessions.{Instants, Peers, plain, session_path, cleanup_stale_sessions}
use oo.Server.Service.Sessions.Numbers.{IsNumbered, view, opened-IsNumbered}
use oo.Server.Service.Sessions.Refinement.{
  Request, opening, leaving, call, run, Changes, call-Changes, run-IsNumbered,
}
use oo.Server.Service.Sessions.Sweep.{
  IsGone, IsMonotonic, cleanup_stale_sessions_connected, cleanup_stale_sessions_gone,
}
use oo.Server.Service.Naming.{
  Lowercase, collection_path, path_of_name, expected_path, make_unique_label_and_alias,
}
use oo.Server.Service.Naming.Fresh.{IsLawfulLowercase, make_unique_label_and_alias-free}
use oo.Server.Service.Creation.{create_collection_with_secret}
use oo.Server.Service.Creation.Keeps.{Grows, create_collection_with_secret-Grows}
use oo.Server.Service.Locks.{
  set_locked, turn_object, turn_if_found, find_object, resolve_alias, strip_prefix, turn_found,
  same, add_turned,
}
use oo.Server.Service.Locks.NoPrompt.{set_locked_no_prompt}
use oo.Server.Service.Prompts.{on_create_collection}
use oo.Server.Service.Prompts.Once.{on_create_collection_once}
use oo.Server.Service.Pam.{
  PamOperation, unlock, change_password, PamMessage, PamResponse, change_password_message,
  success_response, response_bytes, to_le_bytes, message_frame, read_frame, Listener,
}
use oo.Server.Service.Pam.Connection.{respond, handle_connection}
use oo.Server.Service.Pam.Answers.{
  IsTrusted, handle_connection-IsTrusted, handle_connection-message_frame, respond_success,
}
use oo.Examples.Toy.{toy_primitives, toy_items, toy_keyrings, toy_os, toy_reads, toy_bus, some_eq}
use oo.Examples.Exchange.{toy_hkdf}
use oo.Examples.Server.{locked_collection}

-- A clock that moves on with each reading.
instance abbrev toy_instants : Instants ℕ
toy_instants = record { instant = λ w. (w, w + 1) }

instance abbrev toy_peers : Peers ℕ
toy_peers = record {
  process_id = λ sender w. (some 7, w);
  command_line = λ pid w. (some (codes "/bin/app"), w);
  file_name = λ path. some (codes "app");
}

instance abbrev toy_lowercase : Lowercase
toy_lowercase = record { to_lowercase = λ s. s }

toy_lowercase-IsLawful : IsLawfulLowercase toy_lowercase
toy_lowercase-IsLawful = record { before_digits = λ s t h. refl }

instance abbrev toy_whole : WholeFiles ℕ
toy_whole = record {
  write_file = λ path b w. (ok tt, w);
  remove_file = λ path w. (ok tt, w);
  created = λ path w. (none, w);
}

instance abbrev toy_wallets : KwalletPrimitives
toy_wallets = record {
  sha1_digest = λ b. b;
  md5_digest = λ b. b;
  pbkdf2_sha512 = λ password salt n size. password;
  blowfish_cbc_decrypt = λ key iv b. some b;
  blowfish_ecb_decrypt = λ key b. some b;
}

instance abbrev toy_files : Files
toy_files = record { read = λ path. ok []; with_extension = λ path e. path ++ e }

instance abbrev toy_encoders : Encoders
toy_encoders = record { json_to_vec = λ m. some []; base64_encode = λ b. b }

-- Messages of one kind only: unlocks for a user without a name.
abbrev message_bytes : PamOperation → Text → Bytes → Bytes → Option Bytes
message_bytes unlock [] [] new_secret = some new_secret
message_bytes unlock [] (b ∷ bs) new_secret = none
message_bytes unlock (c ∷ cs) old_secret new_secret = none
message_bytes change_password username old_secret new_secret = none

instance abbrev toy_messages : Codec PamMessage
toy_messages = record {
  to_bytes = λ m. message_bytes m.operation m.username m.old_secret m.new_secret;
  from_bytes =
      λ b. some (record { operation = unlock; username = []; old_secret = []; new_secret = b });
}

toy_messages_back :
    (operation : PamOperation) (username old_secret new_secret b : Bytes)
    → message_bytes operation username old_secret new_secret ≡ some b
    → toy_messages.from_bytes b
      ≡ some (record {
        operation = operation;
        username = username;
        old_secret = old_secret;
        new_secret = new_secret;
      })
toy_messages_back unlock [] [] new_secret b h = rw (some_eq h) refl
toy_messages_back unlock [] (c ∷ cs) new_secret b h = absurd (cc)
toy_messages_back unlock (c ∷ cs) old_secret new_secret b h = absurd (cc)
toy_messages_back change_password username old_secret new_secret b h = absurd (cc)

toy_messages-RoundTrips : RoundTrips toy_messages
toy_messages-RoundTrips = record {
  back = λ m b h. toy_messages_back m.operation m.username m.old_secret m.new_secret b h;
}

instance abbrev toy_responses : Codec PamResponse
toy_responses = record {
  to_bytes = λ r. some (if r.success then 1 ∷ [] else 0 ∷ []);
  from_bytes = λ b. none;
}

abbrev start : Service
start = new_service (codes "/data")

start-IsNumbered : IsNumbered start
unfolding run
start-IsNumbered = run-IsNumbered {W = ℕ} (codes "/data") [] (omega arith)

abbrev first : Request
first = opening plain none (some (codes ":1.7"))

call-Changes_example :
    IsNumbered (call {W = ℕ} first (start, 3)).1.0
    × ((call {W = ℕ} first (start, 3)).1.0.session_index ≤ start.session_index + 1)
    × Changes first
        (call {W = ℕ} first (start, 3)).0
        (view start)
        (view (call {W = ℕ} first (start, 3)).1.0)
unfolding new_service
call-Changes_example = call-Changes {W = ℕ} first start 3 start-IsNumbered (omega arith)

abbrev requests : List (Request × ℕ)
requests = (first, 3) ∷ (leaving (codes ":1.7"), 5) ∷ []

run-IsNumbered_example : IsNumbered (run {W = ℕ} requests start)
run-IsNumbered_example = run-IsNumbered {W = ℕ} (codes "/data") requests (omega arith)

abbrev left : Session
left = record {
  path = session_path 1;
  aes_key = none;
  sender = codes ":1.7";
  peer_name = none;
  disconnected_at = some 5;
}

abbrev with_left : Service
with_left = record start { session_index = 1; sessions = insert (session_path 1) left [] }

with_left-IsNumbered : IsNumbered with_left
unfolding new_service
with_left-IsNumbered = opened-IsNumbered start start-IsNumbered left (omega arith) refl

with_left-get : get (session_path 1) with_left.sessions ≡ some left
unfolding get insert
with_left-get = ground (arith, bytes_eq_refl (session_path 1))

-- Two minutes after the start.
abbrev later : ℕ
later = 120 * 10 ^ 9

left-IsGone : IsGone toy_instants later left
left-IsGone = (5, refl, omega arith)

toy_instants-IsMonotonic : IsMonotonic toy_instants
toy_instants-IsMonotonic w = omega arith

cleanup_stale_sessions_gone_example :
    get (session_path 1) (cleanup_stale_sessions {W = ℕ} (with_left, later)).1.0.sessions ≡ none
cleanup_stale_sessions_gone_example =
    cleanup_stale_sessions_gone {W = ℕ} toy_instants-IsMonotonic with_left later (session_path 1)
      left with_left-IsNumbered with_left-get left-IsGone

abbrev stays : Session
stays = record left { disconnected_at = none }

abbrev with_stays : Service
with_stays = record with_left { sessions = insert (session_path 1) stays [] }

with_stays-IsNumbered : IsNumbered with_stays
unfolding new_service
with_stays-IsNumbered = opened-IsNumbered start start-IsNumbered stays (omega arith) refl

with_stays-get : get (session_path 1) with_stays.sessions ≡ some stays
unfolding get insert
with_stays-get = ground (arith, bytes_eq_refl (session_path 1))

cleanup_stale_sessions_connected_example :
    get (session_path 1) (cleanup_stale_sessions {W = ℕ} (with_stays, 3)).1.0.sessions ≡ some stays
cleanup_stale_sessions_connected_example =
    cleanup_stale_sessions_connected {W = ℕ} with_stays 3 (session_path 1) stays
      with_stays-IsNumbered with_stays-get refl

abbrev login_path : ObjectPath
login_path = codes "/org/freedesktop/secrets/collection/login"

abbrev one_collection : Collections
one_collection = (login_path, locked_collection []) ∷ []

login_path_lem : expected_path (codes "login") ≡ ok login_path
unfolding expected_path collection_path path_of_name
login_path_lem = refl

make_unique_label_and_alias-free_example :
    (l : Text) × (a : Text) × (path : ObjectPath) × (make_unique_label_and_alias one_collection
        (codes "login")
        (codes "x")
      ≡ ok (l, a))
    × (expected_path l ≡ ok path)
    × (contains_key path one_collection ≡ false)
    × (((l ≡ codes "login") × (a ≡ codes "x"))
        ⊎ ((n : ℕ) × (2 ≤ n)
            × (l ≡ codes "login" ++ decimal n)
            × (a ≡ codes "x" ++ decimal n)
            × (contains_key login_path one_collection ≡ true)))
make_unique_label_and_alias-free_example =
    make_unique_label_and_alias-free toy_lowercase-IsLawful (codes "login") one_collection
      (codes "x") login_path (omega arith) login_path_lem

abbrev with_login : Service
with_login = record start { collections = one_collection }

create_collection_with_secret-Grows_example :
    Grows one_collection
      (create_collection_with_secret {W = ℕ}
        (codes "login")
        (codes "x")
        none
        (with_login, 3)).1.0.collections
create_collection_with_secret-Grows_example =
    create_collection_with_secret-Grows {W = ℕ} (codes "login") (codes "x") none with_login 3

locked_login :
    (set_locked {W = ℕ} true (login_path ∷ []) (with_login, 3)).0 ≡ ok (login_path ∷ [], [])
unfolding set_locked turn_object turn_if_found find_object bytes_eq resolve_alias strip_prefix
    turn_found same collection_is_locked add_turned
locked_login = refl

set_locked_no_prompt_example : ◌≡◌ {A = List ObjectPath} [] []
set_locked_no_prompt_example =
    set_locked_no_prompt {W = ℕ} (login_path ∷ []) (login_path ∷ []) [] (with_login, 3) locked_login

abbrev creation : Prompt
creation = record {
  role = for_creation;
  path = codes "/p1";
  label = codes "new";
  collection = none;
  action = some (complete_creation (codes "/p1"));
}

abbrev with_prompt : Service
with_prompt = record start {
  prompts = (codes "/p1", creation) ∷ [];
  pending_collections = (codes "/p1", (codes "new", codes "x")) ∷ [];
}

with_prompt-get : get (codes "/p1") with_prompt.prompts ≡ some creation
unfolding get bytes_eq
with_prompt-get = refl

on_create_collection_once_example :
    (y : Service) × (v : ℕ) × ((on_create_collection {W = ℕ} (codes "/p1") none (with_prompt, 3)).1
      ≡ (y, v))
    × ((z : Service) × (on_create_collection {W = ℕ} (codes "/p1") (some (blob (codes "pw"))) (y, v)
          ≡ (err zbus, (z, v)))
        × (z.collections ≡ y.collections)
        × (z.pending_collections ≡ y.pending_collections)
        × (z.sessions ≡ y.sessions))
on_create_collection_once_example =
    on_create_collection_once {W = ℕ} (codes "/p1") (codes "/p1") creation none
      (some (blob (codes "pw"))) with_prompt 3 with_prompt-get refl

abbrev listener : Listener
listener = record { service = with_login; user_secrets = [] }

handle_connection-IsTrusted_example :
    ((handle_connection {W = ℕ} 1000 0 (1 ∷ 0 ∷ 0 ∷ 0 ∷ 9 ∷ []) (listener, 3)).1 ≡ (listener, 3))
    ⊎ (IsTrusted 1000 0
        × ((b : Bytes) × (message : PamMessage) × (read_frame (1 ∷ 0 ∷ 0 ∷ 0 ∷ 9 ∷ []) ≡ some b)
            × (toy_messages.from_bytes b ≡ some message)
            × ((handle_connection {W = ℕ} 1000 0 (1 ∷ 0 ∷ 0 ∷ 0 ∷ 9 ∷ []) (listener, 3)).1
                ≡ (respond message (listener, 3)).1)))
handle_connection-IsTrusted_example =
    handle_connection-IsTrusted {W = ℕ} 1000 0 (1 ∷ 0 ∷ 0 ∷ 0 ∷ 9 ∷ []) (listener, 3)

abbrev message : PamMessage
message = record { operation = unlock; username = []; old_secret = []; new_secret = codes "pw" }

framed : message_frame message ≡ some (2 ∷ 0 ∷ 0 ∷ 0 ∷ codes "pw")
unfolding message_frame to_le_bytes
framed = refl

handle_connection-message_frame_example :
    handle_connection {W = ℕ} 1000 0 ((2 ∷ 0 ∷ 0 ∷ 0 ∷ codes "pw") ++ []) (listener, 3)
    ≡ (respond message >>= λ response. pure (response_bytes response)) (listener, 3)
handle_connection-message_frame_example =
    handle_connection-message_frame {W = ℕ} toy_messages-RoundTrips 1000 0 message
      (2 ∷ 0 ∷ 0 ∷ 0 ∷ codes "pw") [] (listener, 3) (inl refl) framed (omega arith)

abbrev change : PamMessage
change = change_password_message (codes "me") (codes "wrong") (codes "new")

respond_success_example :
    ((respond {W = ℕ} change (listener, 3)).0 ≡ panic)
    ⊎ (((respond {W = ℕ} change (listener, 3)).0 ≡ ok success_response)
        × (get (codes "me") (respond {W = ℕ} change (listener, 3)).1.0.user_secrets
            ≡ some (blob (codes "new"))))
unfolding change_password_message
respond_success_example = respond_success {W = ℕ} change (listener, 3) refl
