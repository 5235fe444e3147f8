-- ===== src/Fs/Disk.antt =====
-- The calls of `tokio::fs`, `tokio::io` and `std::path` on files that the file-system store makes.
use xtax.Base.{ℕ, Str, Bool, true, false, Option}
use xtax.Error.{IoError, BlobStorageError}
use xtax.Exec.{Outcome, returns, fails, Exec}
use xtax.Types.{Stream, Timestamp}

pub data Answer (S A : Type 0) : Type 0 where
  done : A → S → Answer S A
  failed : IoError → S → Answer S A

-- The time is that of `modified().ok()`, as a UTC time.
pub record Metadata : Type 0 where
  pub is_dir : Bool
  pub is_file : Bool
  pub len : ℕ
  pub modified : Option Timestamp

-- A file that was created is written through a `BufWriter`: `copy` copies a stream into it, and
-- `flush` writes what the buffer holds. A directory that was read gives its entries one by one.
pub record Disk : Type 1 where
  pub State : Type 0
  pub File : Type 0
  pub Dir : Type 0
  pub metadata : Str → State → Answer State Metadata
  pub create_dir_all : Str → State → Answer State (Unit {0})
  pub create : Str → State → Answer State File
  pub copy : Stream → File → State → Answer State (Unit {0})
  pub flush : File → State → Answer State (Unit {0})
  pub open_file : Str → State → Answer State Stream
  pub remove_file : Str → State → Answer State (Unit {0})
  pub read_dir : Str → State → Answer State Dir
  pub next_entry : Dir → State → Answer State (Option (Str × Dir))

-- `map_err(f)?`.
abbrev pub try_io : {S A : Type 0} → (IoError → BlobStorageError) → Answer S A → Outcome S A
try_io f (done a s) = returns a s
try_io f (failed e s) = fails (f e) s

abbrev pub test : {S : Type 0} → (Metadata → Bool) → Answer S Metadata → Outcome S Bool
test p (done m s) = returns (p m) s
test p (failed e s) = returns false s

-- `Path::exists`, `Path::is_file` and `Path::is_dir`: false where the metadata cannot be read.
module _ (disk : Disk) where
  unfoldable pub path_exists : Str → Exec disk.State Bool
  path_exists path s = test (λ _. true) (disk.metadata path s)

  unfoldable pub path_is_file : Str → Exec disk.State Bool
  path_is_file path s = test (λ m. m.is_file) (disk.metadata path s)

  unfoldable pub path_is_dir : Str → Exec disk.State Bool
  path_is_dir path s = test (λ m. m.is_dir) (disk.metadata path s)
