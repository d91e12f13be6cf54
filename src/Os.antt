-- ===== src/Os.antt =====
-- The operating system as the client sees it: the clock, `getrandom` and the file system.
use oo.Prelude.{ℕ, Bool, Option, some, Bytes, Text, length, ◌≡◌}
use oo.Exec.{Exec}

abbrev pub FilePath : Type 0
FilePath = Text

-- Where an open file stands.
abbrev pub Handle : Type 0
Handle = ℕ

-- The calls that the source makes, over the states `W` of the world. `now` is the time in seconds
-- since the epoch. `fill` fills a buffer of the given size, `none` is its error. A modification time
-- is a number, `none` where the platform has none. Errors are those of `std::io`.
pub record Os (W : Type 0) : Type 0 where
  pub now : W → ℕ × W
  pub fill : ℕ → W → Option Bytes × W
  pub parent : FilePath → Option FilePath
  pub join : FilePath → Text → FilePath
  pub exists : FilePath → W → Bool
  pub create_dir : FilePath → Exec W (Unit {0})
  pub create_new : FilePath → Exec W Handle
  pub write_all : Handle → Bytes → Exec W (Unit {0})
  pub sync_all : Handle → Exec W (Unit {0})
  pub open_file : FilePath → Exec W Handle
  pub modified : Handle → Exec W (Option ℕ)
  pub read_to_end : Handle → Exec W Bytes
  pub metadata_modified : FilePath → Exec W (Option ℕ)
  pub rename : FilePath → FilePath → Exec W (Unit {0})

-- The documented behaviour of `getrandom`: a buffer that is filled keeps its size.
pub record IsLawfulOs {W : Type 0} (os : Os W) : Type 0 where
  pub filled : (n : ℕ) (w : W) (b : Bytes) → (os.fill n w).0 ≡ some b → length b ≡ n

-- Calls on a whole file: `tokio::fs::write`, `tokio::fs::remove_file`, and the time of its creation, in
-- seconds since the epoch, if the platform knows it.
pub record WholeFiles (W : Type 0) : Type 0 where
  pub write_file : FilePath → Bytes → Exec W (Unit {0})
  pub remove_file : FilePath → Exec W (Unit {0})
  pub created : FilePath → W → Option ℕ × W
