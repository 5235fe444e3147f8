-- ===== src/Fs/Walk.antt =====
-- crates/xtax-blob-storage/src/fs/store.rs: the breadth-first walk that the three listings share,
-- and the file-system store. The walk keeps a value beside the disk.
use xtax.Base.{
  ℕ, zero, suc, Str, Bool, true, false, Option, none, some, List, [], ◌∷◌, ◌++◌, text,
  if◌then◌else◌,
}
use xtax.Base.Sort.{sort_keys}
use xtax.Error.{BlobStorageError, IoErrorKind, from_io}
use xtax.Exec.{Outcome, returns, fails, Exec, pure, lift, continue, ◌>>=◌, beside}
use xtax.Types.{BlobMeta}
use xtax.Filter.{ListFilter}
use xtax.Store.{BlobVisitor, BlobStore}
use xtax.Encrypt.Layer.{sort_metas}
use xtax.S3.Multipart.{stuck}
use xtax.Fs.Disk.{Disk, Answer, done, failed, Metadata, try_io, path_is_file, path_is_dir}
use xtax.Fs.Hint.{prefix_subdir, strip_base}
use xtax.Fs.Files.{
  ensure_root, put, get, delete, exists, get_with_metadata, meta_of_file, stat_failed,
}

-- What a walk does after an entry: it stops, or goes on with the directories to walk.
pub data Next : Type 0 where
  stop : Next
  next : List Str → Next

abbrev pub next_if : List Str → Bool → Next
next_if dirs true = next dirs
next_if dirs false = stop

-- `dir_exists`: a missing path is no error.
abbrev pub is_dir_answer : {S : Type 0} → Answer S Metadata → Outcome S Bool
is_dir_answer (done m s) = returns m.is_dir s
is_dir_answer (failed e s) = elim e.kind [
  | IoErrorKind.not_found ↦ returns false s
  | _ ↦ fails (from_io e) s
]

module _ (debug : Str → Str) (is_utf8 : Str → Bool) (root : Str) (disk : Disk) where
  abbrev pub dir_exists : Str → Exec disk.State Bool
  dir_exists path s = is_dir_answer (disk.metadata path s)

  module _ {V : Type 0} (filter : ListFilter)
      (on_file : Str → Str → Exec (V × disk.State) Bool) where
    -- The key of a file below the root, for the filter.
    abbrev pub visit_file : Str → List Str → Option Str → Exec (V × disk.State) Next
    visit_file path dirs none x = returns (next dirs) x
    visit_file path dirs (some relative) x = elim (is_utf8 relative) [
      | false ↦ fails (BlobStorageError.invalid_input (text "non-UTF-8 path: " ++ debug relative)) x
      | true ↦ elim (filter.matches relative none) [
        | false ↦ returns (next dirs) x
        | true ↦ continue (on_file path relative x) λ more. pure (next_if dirs more)
      ]
    ]

    abbrev pub visit_entry : Str → List Str → Exec (V × disk.State) Next
    visit_entry path dirs (v, s) = continue (beside v (path_is_file disk path s)) λ is_file.
        if is_file then visit_file path dirs (strip_base root path) else λ x.
        continue (beside x.0 (path_is_dir disk path x.1))
          λ is_dir. pure (next (if is_dir then dirs ++ (path ∷ []) else dirs))

    -- A directory that is open, and those that wait. The fuel is one for each directory, each
    -- entry and each end.
    unfoldable pub walk : ℕ → Option disk.Dir → List Str → Exec (V × disk.State) (Unit {0})
    walk zero dir dirs x = fails stuck x
    walk (suc fuel) none [] x = returns tt x
    walk (suc fuel) none (path ∷ dirs) (v, s) = continue (beside v (dir_exists path s)) λ there x.
        elim there [
          | false ↦ walk fuel none dirs x
          | true ↦
              continue (beside x.0 (try_io from_io (disk.read_dir path x.1)))
                λ dir. walk fuel (some dir) dirs
        ]
    walk (suc fuel) (some dir) dirs (v, s) =
        continue (beside v (try_io from_io (disk.next_entry dir s))) λ entry x. elim entry [
          | none ↦ walk fuel none dirs x
          | some (path, rest) ↦
              continue (visit_entry path dirs x)
                λ n y. elim n [ stop ↦ returns tt y | next more ↦ walk fuel (some rest) more y ]
        ]

    unfoldable pub walk_from_hint : ℕ → Exec (V × disk.State) (Unit {0})
    unfolding prefix_subdir walk
    walk_from_hint fuel (v, s) =
        continue (beside v (ensure_root debug root disk s))
          λ _. lift (prefix_subdir root filter) >>= λ start. walk fuel none (start ∷ [])

  abbrev pub file_metadata : {V : Type 0} → Str → Str → Exec (V × disk.State) BlobMeta
  file_metadata path key (v, s) =
      continue (beside v (try_io (stat_failed key) (disk.metadata path s)))
        λ m. pure (meta_of_file key m)

  abbrev pub push_key : Str → Str → Exec (List Str × disk.State) Bool
  push_key path key (keys, s) = returns true (keys ++ (key ∷ []), s)

  abbrev pub push_meta : Str → Str → Exec (List BlobMeta × disk.State) Bool
  push_meta path key x =
      continue (file_metadata path key x) λ meta y. returns true (y.0 ++ (meta ∷ []), y.1)

  abbrev pub visit_key :
      (V : Type 0) → BlobVisitor disk.State V → Str → Str → Exec (V × disk.State) Bool
  visit_key V visitor path key x =
      continue (file_metadata path key x) λ meta. visitor key (some meta)

  -- What a listing returns after its walk.
  abbrev pub collected :
      {A : Type 0} → (A → A) → Outcome (A × disk.State) (Unit {0}) → Outcome disk.State A
  collected sort (returns _ x) = returns (sort x.0) x.1
  collected sort (fails e x) = fails e x.1

  module _ (fuel : ℕ) where
    unfoldable pub list : ListFilter → Exec disk.State (List Str)
    unfolding walk_from_hint
    list filter s = collected sort_keys (walk_from_hint filter push_key fuel ([], s))

    unfoldable pub list_with_metadata : ListFilter → Exec disk.State (List BlobMeta)
    unfolding walk_from_hint
    list_with_metadata filter s =
        collected sort_metas (walk_from_hint filter push_meta fuel ([], s))

    unfoldable pub visit :
        (V : Type 0) → ListFilter → BlobVisitor disk.State V → Exec (V × disk.State) (Unit {0})
    unfolding walk_from_hint
    visit V filter visitor = walk_from_hint filter (visit_key V visitor) fuel

    -- `FsBlobStore`, as a store.
    abbrev pub fs_store : BlobStore
    fs_store = record {
      State = disk.State;
      put = put debug root disk;
      get = get debug root disk;
      delete = delete debug root disk;
      list = list;
      exists = exists debug root disk;
      get_with_metadata = get_with_metadata debug root disk;
      visit = visit;
      list_with_metadata = list_with_metadata;
    }
