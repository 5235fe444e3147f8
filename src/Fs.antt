-- ===== src/Fs.antt =====
-- crates/xtax-blob-storage/src/fs.rs: the root of the file-system store and the path of a key. A
-- path is its text, and `Path::join` and `PathBuf::push` are those of Unix.
pub mod Paths
pub mod Disk
pub mod Hint
pub mod Files
pub mod Walk
pub mod Contents
pub mod Deletes
pub mod Root
pub mod Puts
pub mod Tree
pub mod Looking
pub mod Entering
pub mod Walking
pub mod Wanted
pub mod Lists
pub mod Pieces
pub mod Hints
pub mod Subdirs
pub mod Covering
pub mod Finds
pub mod Reads
pub mod RoundTrip
use xtax.Base.{
  Str, Bool, true, false, ◌||◌, List, [], ◌∷◌, ◌++◌, starts_with, ends_with, is_empty, split,
  if◌then◌else◌,
}
use xtax.Exec.{Result, ok, and_then}
use xtax.Types.{key_separator}
use xtax.Validate.{validate_blob_key}

-- A path that takes another one without a separator between them.
abbrev pub is_closed : Str → Bool
is_closed path = is_empty path || ends_with (key_separator ∷ []) path

-- `path.join(other)`.
unfoldable pub join_path : Str → Str → Str
join_path path other =
    if starts_with (key_separator ∷ []) other
    then other
    else if is_closed path
    then path ++ other
    else path ++ key_separator ∷ other

-- The root as `FsBlobStore::new` keeps it.
unfoldable pub normalise_root : Str → Str
unfolding join_path
normalise_root root = if ends_with (key_separator ∷ []) root then root else join_path root []

-- The loop of `key_to_path` over the components.
unfoldable pub join_components : Str → List Str → Str
join_components path [] = path
join_components path (component ∷ rest) = join_components (join_path path component) rest

unfoldable pub key_to_path : Str → Str → Result Str
unfolding join_components
key_to_path root key =
    and_then (validate_blob_key key) λ _. ok (join_components root (split key_separator key))
