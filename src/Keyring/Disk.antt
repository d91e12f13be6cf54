-- ===== src/Keyring/Disk.antt =====
-- client/src/file/api/mod.rs: how a keyring is made, emptied and written to its file, and where its
-- file stands.
use oo.Prelude.{
  ℕ, ◌+◌, ◌-◌, ◌/◌, ◌%◌, ◌^◌, Bool, true, false, Option, none, some, [], ◌∷◌, ◌++◌, length, ltb,
  ◌==◌, if◌then◌else◌, Bytes, Text, codes,
}
use oo.Outcome.{
  Outcome, ok, err, panic, or_err, no_parent_dir, target_file_changed, io, not_found, crypto,
  getrandom,
}
use oo.Exec.{Exec, pure, lift, gets, raise, modify, ◌>>=◌, ◌>>◌, zoom}
use oo.Os.{Os, FilePath}
use oo.Item.{Codec}
use oo.Keyring.{Keyring, default_salt_size, default_iteration_count, as_bytes_of}

-- The keyring that a method changes, and the world.
abbrev pub Disk : Type 0 → Type 0
Disk W = Keyring × W

module _ {W : Type 0} {A : Type 0} where
  abbrev pub on_world : Exec W A → Exec (Disk W) A
  on_world = zoom (λ s. s.1) (λ w s. (s.0, w))

  abbrev pub on_keyring : Exec Keyring A → Exec (Disk W) A
  on_keyring = zoom (λ s. s.0) (λ k s. (k, s.1))

hex_digit : ℕ → ℕ
hex_digit n = if ltb n 10 then b'0' + n else b'a' + (n - 10)

-- `format!("{:02x}", b)` for each byte.
unfoldable pub hex : Bytes → Text
unfolding hex_digit
hex [] = []
hex (b ∷ s) = hex_digit (b / 16 % 16) ∷ hex_digit (b % 16) ∷ hex s

abbrev pub same_time : Option ℕ → Option ℕ → Bool
same_time none none = true
same_time none (some b) = false
same_time (some a) none = false
same_time (some a) (some b) = a == b

-- The test of `dump`, with what `fs::File::open` and `metadata().await?.modified().ok()` give.
abbrev unless_changed : FilePath → Option ℕ → Option ℕ → Outcome (Unit {0})
unless_changed path mtime target =
    if same_time mtime target then ok tt else err (target_file_changed path)

-- `self.usage_count += 1` on a `u32`, as a release build computes it.
unfoldable pub touch : ℕ → Keyring → Keyring
touch now k = record k { modified_time = now; usage_count = (k.usage_count + 1) % 2 ^ 32 }

module _ {W : Type 0} ⦃os : Os W⦄ where
  unfoldable pub fill : ℕ → Exec W Bytes
  fill n w = (or_err (crypto getrandom) (os.fill n w).0, (os.fill n w).1)

  unfoldable pub clock : Exec W ℕ
  clock w = (ok (os.now w).0, (os.now w).1)

  -- `Keyring::new`
  unfoldable pub new : Exec W Keyring
  unfolding fill clock
  new = do
    salt ← fill default_salt_size
    now ← clock
    pure (record {
      salt_size = length salt;
      salt = salt;
      iteration_count = default_iteration_count;
      modified_time = now;
      usage_count = 0;
      items = [];
    })

  unfoldable pub reset : Exec (Disk W) (Unit {0})
  unfolding fill
  reset = do
    salt ← on_world (fill default_salt_size)
    on_keyring (
        modify (λ k. record k {
          salt_size = length salt;
          salt = salt;
          iteration_count = default_iteration_count;
          usage_count = 0;
          items = [];
        }))

  -- The temporary file, in a directory that is made if it is not there.
  unfoldable pub make_tmp_path : FilePath → Exec W FilePath
  unfolding fill hex
  make_tmp_path path = elim (os.parent path) [
    | none ↦ raise (no_parent_dir path)
    | some dir ↦ do
      rnd ← fill 8
      let tmp_path = os.join dir (codes ".tmpkeyring" ++ hex rnd)
      there ← gets (os.exists dir)
      if there then pure tt else os.create_dir dir
      pure tmp_path
  ]

  -- The modification time of the target; a target that is not there has none.
  unfoldable pub target_time : FilePath → Exec W (Option ℕ)
  target_time path w = elim (os.open_file path w).0 [
    | ok file ↦ os.modified file (os.open_file path w).1
    | err (io not_found) ↦ (ok none, (os.open_file path w).1)
    | err e ↦ (err e, (os.open_file path w).1)
    | panic ↦ (panic, (os.open_file path w).1)
  ]

  unfoldable pub dump : ⦃codec : Codec Keyring⦄ → FilePath → Option ℕ → Exec (Disk W) (Unit {0})
  unfolding make_tmp_path clock touch as_bytes_of target_time
  dump path mtime = do
    tmp_path ← on_world (make_tmp_path path)
    tmpfile ← on_world (os.create_new tmp_path)
    now ← on_world clock
    on_keyring (modify (touch now))
    blob ← on_keyring (λ k. (as_bytes_of k, k))
    on_world (os.write_all tmpfile blob)
    on_world (os.sync_all tmpfile)
    target_mtime ← on_world (target_time path)
    lift (unless_changed path mtime target_mtime)
    on_world (os.rename tmp_path path)

-- `format!("{name}.keyring")` below `keyrings`, and below a directory for the version after the
-- first (the versions are 0 and 1, so one digit is enough).
unfoldable pub path_at : {W : Type 0} → Os W → FilePath → Text → ℕ → FilePath
path_at os data_dir name version =
    let keyrings = os.join data_dir (codes "keyrings") in
    let dir =
      if ltb 0 version then os.join keyrings (codes "v" ++ (b'0' + version) ∷ []) else keyrings in
    os.join dir (name ++ codes ".keyring")
