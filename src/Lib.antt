-- ===== src/Lib.antt =====
-- oo7: the file back end of the secret service client (client/src/file), which keeps secrets in an
-- encrypted keyring file, with the secrets, keys and cryptography that it uses; the collections and
-- items that the service (server/src) offers over it; and the reader of KWallet files
-- (kwallet/parser/src).
--
-- A keyring file is a header and a serialised list of items. Each item is stored as a blob, the
-- encrypted item with its initialisation vector and a MAC behind it, next to its attributes, of which
-- only the MACs of the values are stored; with no secret, both are in the clear. A `LockedKeyring` is
-- read from a file and opens with a secret, or without, as an `UnlockedKeyring`. That caches the key
-- that the secret gives, answers searches, and writes itself back after each change.
--
-- The parts, with the code that each models:
-- - Outcome, Exec, Os: what a call gives back (a value, an error of client/src/file/error.rs, or a
--   panic); methods that change a state and may stop early; the clock, random numbers and files.
-- - Secret: client/src/secret.rs. Secrets, their content types, and the types' names.
-- - Crypto: client/src/crypto/native.rs, client/src/key.rs, client/src/mac.rs; Crypto.KeyExchange: the
--   Diffie-Hellman functions of the first.
-- - Item: client/src/file/unlocked_item.rs, client/src/file/locked_item.rs,
--   client/src/file/api/encrypted_item.rs, `AsAttributes` of client/src/lib.rs.
-- - Keyring, Keyring.Disk: client/src/file/api/mod.rs. The contents of a file, and how they are
--   written.
-- - Unlocked, Unlocked.Bulk: client/src/file/unlocked_keyring.rs, one step for each method.
-- - Locked, Locked.Open: client/src/file/locked_keyring.rs, and how a keyring is loaded.
-- - Legacy, Legacy.Content, Legacy.Items: client/src/file/api/legacy_keyring.rs, the older format,
--   read by steps on a cursor (Legacy.RoundTrip describes its layout); Unlocked.Migrate: how such a
--   file is moved to the current format.
-- - File: client/src/file/mod.rs, an item or a keyring that is locked or not.
-- - Server, Server.Item, Server.Collection, Server.Collection.Methods: server/src/item/mod.rs and
--   server/src/collection/mod.rs. A collection holds a keyring and its items, each locked or not, and
--   answers calls on the bus by steps on itself and the world; `set_locked` takes the keyring out,
--   turns the items one by one under it, and puts it back.
-- - Server.Service: server/src/service/mod.rs, the state that the calls on the bus share: tables of
--   collections, sessions and prompts, and what waits for a prompt or a password. Its modules are about
--   parts of it: Sessions (server/src/session.rs too; Sessions.Numbers has the abstract view, where a
--   session is what a path stands for, and Sessions.Refinement the requests with what each may make of
--   it), Naming (the
--   label, alias and path of a new collection), Creation, Locks (aliases, locking and unlocking),
--   Requests (what is asked of several collections, and deletion), Prompts (server/src/prompt/mod.rs),
--   Pam (server/src/pam_listener/mod.rs, pam/src/protocol.rs, and the frame that pam/src/socket.rs
--   writes) and Startup. A method of a collection runs on the entry of the table (`at_collection`),
--   and one that asks for a session has the table of sessions beside it (`find_session`); a closure
--   that a prompt runs is a constructor of `PromptAction` with what it captures. Server.Migration:
--   server/src/migration.rs.
-- - Kwallet and its modules: Format (kwallet/parser/src/format.rs), Data (qdata.rs), Wallet
--   (wallet.rs), Sha1 and Crypto (crypto.rs), Hashes and File (lib.rs), Convert
--   (secret_service.rs). A reader is what it has not yet given, so a step takes bytes from the front.
--   Print describes the format of a wallet.
-- The functions keep the names of the source. Where a name is taken, that of the model says more:
-- `as_bytes_of` is `Keyring::as_bytes`, `secret_of` is `UnlockedItem::secret`, `encrypt_item` is
-- `UnlockedItem::encrypt`, `decrypt_item` is `EncryptedItem::try_decrypt_inner`. A method with a loop
-- or several phases is split into functions named for what they do, and composed as in the source.
--
-- Parameters, with what is assumed of them only where a theorem says so: the primitives AES-CBC,
-- HMAC, PBKDF2, MD5 and SHA-256 (`Primitives`, `IsLawful`: what is encrypted is decrypted, the MAC
-- of the data is accepted and nothing else is, sizes); zvariant's serialisation (`Codec`,
-- `RoundTrips`); endi's reading of numbers (`ReadBytes`, `IsBigEndian`); the operating system
-- (`Os`, `IsLawfulOs`: a buffer that is filled keeps its size; `AlwaysRandom`: random numbers are
-- there); zbus (`Bus`, `AlwaysSends`: signals are sent, and objects come and go, without an error);
-- HKDF (`Hkdf`); the clock of instants (`Instants`,
-- `IsMonotonic`: it does not go back), what the bus and /proc tell of a client
-- (`Peers`), lower and upper case by the tables of Unicode (`Lowercase`,
-- `IsLawfulLowercase`: digits stay; `Uppercase`), calls on whole files (`WholeFiles`); the ciphers
-- and hashes that the reader of KWallet files calls (`KwalletPrimitives`), the files it reads
-- (`Files`), and JSON and base64 (`Encoders`). Each
-- assumption is met by the stand-ins in Examples.
--
-- Bytes and texts are lists of numbers, hash maps are association lists (HashMap), in the order of
-- iteration. Times are seconds. The usage count wraps as a 32-bit number. A `usize` subtraction
-- below 0 and a slice out of range are panics. Loops run over lists, or down from a count that was
-- read, but for the loop of `powm` and the digits of a number (as many rounds as the exponent or
-- number says, as each round halves it at least) and four in Kwallet, which run on fuel: the
-- folders of a wallet (one round more than there are bytes, as each takes a byte at least), the
-- zeros of the padding (64 rounds, as fewer than 64 are missing), and the chunks of a message and
-- of a password (as many rounds as there are bytes). The index of the items of a collection wraps
-- as a 32-bit number, and so do those of sessions and prompts and the words of the hash. The loop that
-- looks for a free label runs on fuel, one round more than there are collections; its counter is a
-- 32-bit number with a sign, kept as its bits.
--
-- Not modelled: locks, tasks and awaits (calls on one object do not interleave), logging, the erasure
-- of secrets in memory, the permissions of files, the payloads of other crates' errors and the texts of
-- the service's errors, the OpenSSL back end; attributes given by a schema type (search attributes are
-- all attributes here). Of the server, the scan of the directories for keyrings, the dialogues with the
-- desktop shell, the accept loop of the PAM socket and the login are not modelled, and a prompt that
-- outlives its collection finds none. The D-Bus client, the command line tools and the bindings are
-- outside this development.
pub mod Prelude
pub mod HashMap
pub mod Outcome
pub mod Exec
pub mod Secret
pub mod Crypto
pub mod Os
pub mod Item
pub mod Keyring
pub mod Unlocked
pub mod Locked
pub mod Legacy
pub mod File
pub mod Server
pub mod Kwallet
pub mod Examples
