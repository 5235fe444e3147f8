-- ===== src/Fs/Tree.antt =====
-- A tree of files that nobody changes, and what the documentation of the file system says of the
-- calls that look at it.
use xtax.Base.{
  ℕ, suc, ◌+◌, Str, Bool, true, false, Option, none, some, List, [], ◌∷◌, ◌≡◌, ◌⊎◌, str_eq,
  if◌then◌else◌,
}
use xtax.Error.{IoError, IoErrorKind}
use xtax.Filter.{ListFilter}
use xtax.Fs.{join_path}
use xtax.Fs.Disk.{Disk, done, failed, Metadata}
use xtax.Fs.Contents.{after}
use xtax.Fs.Hint.{strip_base}

mutual
  pub data Node : Type 0 where
    regular : Node
    directory : Entries → Node
    special : Node  -- neither, like a socket

  pub data Entries : Type 0 where
    no_entries : Entries
    entry : Str → Node → Entries → Entries

-- What stands at each path.
abbrev pub World : Type 0
World = Str → Option Node

abbrev pub is_regular : Option Node → Bool
is_regular (some regular) = true
is_regular _ = false

abbrev pub is_directory : Option Node → Bool
is_directory (some (directory _)) = true
is_directory _ = false

-- The entries of a directory stand below its path.
abbrev pub Leads : World → Str → Entries → Type 0
Leads world path no_entries = Unit
Leads world path (entry name node rest) =
    (world (join_path path name) ≡ some node) × Leads world path rest

-- The key of a file, if the listing wants it.
abbrev pub if_wanted : ListFilter → Option Str → Option Str
if_wanted filter none = none
if_wanted filter (some key) = if filter.matches key none then some key else none

abbrev pub key_at : Str → ListFilter → Str → Option Str
key_at root filter path = if_wanted filter (strip_base root path)

abbrev pub one_if : Option Str → Str → ℕ
one_if none k = 0
one_if (some j) k = if str_eq j k then 1 else 0

-- How many files below a directory have the key.
module _ (root : Str) (filter : ListFilter) (k : Str) where
  abbrev mutual
    pub tally_node : Str → Node → ℕ
    tally_node path regular = one_if (key_at root filter path) k
    tally_node path (directory entries) = tally path entries
    tally_node path special = 0

    pub tally : Str → Entries → ℕ
    tally path no_entries = 0
    tally path (entry name node rest) = tally_node (join_path path name) node + tally path rest

  abbrev pub tally_at : Str → Option Node → ℕ
  tally_at path (some (directory entries)) = tally path entries
  tally_at path _ = 0

  abbrev pub tally_all : World → List Str → ℕ
  tally_all world [] = 0
  tally_all world (path ∷ paths) = tally_at path (world path) + tally_all world paths

-- The rounds that a walk needs: for each directory its start and its end, and for each entry.
abbrev mutual
  pub rounds_node : Node → ℕ
  rounds_node regular = 0
  rounds_node (directory entries) = 2 + rounds entries
  rounds_node special = 0

  pub rounds : Entries → ℕ
  rounds no_entries = 0
  rounds (entry name node rest) = suc (rounds_node node + rounds rest)

abbrev pub rounds_at : Option Node → ℕ
rounds_at (some (directory entries)) = 2 + rounds entries
rounds_at _ = 1

abbrev pub rounds_all : World → List Str → ℕ
rounds_all world [] = 0
rounds_all world (path ∷ paths) = rounds_at (world path) + rounds_all world paths

-- The calls that look at the tree change nothing, and tell what is there; an open directory gives
-- its entries one by one. A path whose metadata is not found has nothing.
pub record Looks (disk : Disk) (world : disk.State → World) (place : disk.Dir → Str)
    (left : disk.State → disk.Dir → Entries) : Type 0 where
  pub leads :
      (s : disk.State) (path : Str) (entries : Entries)
      → world s path ≡ some (directory entries)
      → Leads (world s) path entries
  pub metadata_world :
      (path : Str) (s : disk.State) → world (after (disk.metadata path s)) ≡ world s
  pub metadata_left : (path : Str) (s : disk.State) → left (after (disk.metadata path s)) ≡ left s
  pub metadata_done :
      (path : Str) (s t : disk.State) (m : Metadata)
      → disk.metadata path s ≡ done m t
      → (m.is_dir ≡ is_directory (world s path)) × (m.is_file ≡ is_regular (world s path))
  pub metadata_failed :
      (path : Str) (s t : disk.State) (e : IoError)
      → disk.metadata path s ≡ failed e t
      → e.kind ≡ IoErrorKind.not_found
      → world s path ≡ none
  pub read_world : (path : Str) (s : disk.State) → world (after (disk.read_dir path s)) ≡ world s
  pub read_done :
      (path : Str) (s t : disk.State) (dir : disk.Dir) (entries : Entries)
      → disk.read_dir path s ≡ done dir t
      → world s path ≡ some (directory entries)
      → (place dir ≡ path) × (left t dir ≡ entries)
  pub next_world :
      (dir : disk.Dir) (s : disk.State) → world (after (disk.next_entry dir s)) ≡ world s
  pub next_none :
      (dir : disk.Dir) (s t : disk.State)
      → disk.next_entry dir s ≡ done none t
      → left s dir ≡ no_entries
  pub next_some :
      (dir rest : disk.Dir) (s t : disk.State) (path : Str)
      → disk.next_entry dir s ≡ done (some (path, rest)) t
      → (name : Str) × (node : Node) × (left s dir ≡ entry name node (left t rest))
        × (path ≡ join_path (place dir) name)
        × (place rest ≡ place dir)

-- The entries of a directory are reached.
abbrev pub Within : (Str → Type 0) → Str → Entries → Type 0
Within reach path no_entries = Unit
Within reach path (entry name node rest) = reach (join_path path name) × Within reach path rest

-- The part of the tree that can be read, with a directory all that is below it: every call on it is
-- answered, and what is missing there is reported as not found. Nothing is asked of other paths.
pub record Answers (disk : Disk) (world : disk.State → World) (place : disk.Dir → Str)
    (reach : Str → Type 0) : Type 0 where
  pub within :
      (path : Str) (s : disk.State) (entries : Entries)
      → reach path
      → world s path ≡ some (directory entries)
      → Within reach path entries
  pub metadata :
      (path : Str) (s : disk.State)
      → reach path
      → ((m : Metadata) × (t : disk.State) × (disk.metadata path s ≡ done m t))
        ⊎ ((e : IoError) × (t : disk.State) × (disk.metadata path s ≡ failed e t)
            × (e.kind ≡ IoErrorKind.not_found))
  pub read_dir :
      (path : Str) (s : disk.State) (entries : Entries)
      → reach path
      → world s path ≡ some (directory entries)
      → (dir : disk.Dir) × (t : disk.State) × (disk.read_dir path s ≡ done dir t)
  pub next_entry :
      (dir : disk.Dir) (s : disk.State)
      → reach (place dir)
      → (o : Option (Str × disk.Dir)) × (t : disk.State) × (disk.next_entry dir s ≡ done o t)
