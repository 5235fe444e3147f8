-- ===== src/Fs/Files.antt =====
-- crates/xtax-blob-storage/src/fs.rs and fs/store.rs: the methods of the file-system store on
-- single files and on batches. `debug` shows a path as `{:?}` does.
use xtax.Base.{Str, Bool, Option, none, some, List, [], ◌∷◌, ◌++◌, text, is_empty, if◌then◌else◌}
use xtax.Error.{BlobStorageError, IoError, IoErrorKind, PerKeyError, BatchError, Cause, from_io}
use xtax.Exec.{Outcome, returns, Exec, pure, raise, lift, ◌>>=◌, ◌>>◌, try_map}
use xtax.Types.{Stream, Timestamp, BlobInput, BlobMeta, PutResult, multiple}
use xtax.Validate.{validate_blob_key}
use xtax.Encrypt.{about_key}
use xtax.Fs.{normalise_root, key_to_path}
use xtax.Fs.Disk.{Disk, Answer, done, failed, Metadata, try_io, path_exists, path_is_file}
use xtax.Fs.Hint.{parent}

abbrev pub map_io_error_to_per_key : IoError → PerKeyError
map_io_error_to_per_key e = elim e.kind [
  | IoErrorKind.permission_denied ↦ PerKeyError.permission_denied e.description
  | _ ↦ PerKeyError.unknown e.description
]

-- `unwrap_or_default` of a time gives the epoch.
abbrev pub time_of : Option Timestamp → Timestamp
time_of none = 0
time_of (some t) = t

abbrev pub meta_of_file : Str → Metadata → BlobMeta
meta_of_file key m = record {
  key = key;
  stored_size = m.len;
  modified_at = time_of m.modified;
  etag = none;
}

abbrev pub stat_failed : Str → IoError → BlobStorageError
stat_failed key e =
    BlobStorageError.storage (about_key (text "stat failed for ") key) (some (Cause.io e))

abbrev pub stat_error : Str → IoError → BlobStorageError
stat_error key e = elim e.kind [
  | IoErrorKind.not_found ↦ BlobStorageError.not_found key
  | _ ↦ stat_failed key e
]

-- `new`: the root of the store, whose directory is made where there is none.
unfoldable pub new_root : (Str → Str) → (disk : Disk) → Str → Exec disk.State Str
new_root debug disk given = do
  λ s.
      try_io
        (λ e.
          BlobStorageError.storage
            (text "cannot create root '" ++ (debug (normalise_root given) ++ text "'"))
            (some (Cause.io e)))
        (disk.create_dir_all (normalise_root given) s)
  pure (normalise_root given)

module _ (debug : Str → Str) (root : Str) where
  abbrev pub misconfigured_root : Str → Str → BlobStorageError
  misconfigured_root before after =
      BlobStorageError.backend_misconfigured (before ++ (debug root ++ after))

  abbrev pub root_error : IoError → BlobStorageError
  root_error e = elim e.kind [
    | IoErrorKind.not_found ↦
        misconfigured_root (text "FS root directory '") (text "' does not exist")
    | _ ↦
        BlobStorageError.storage (text "cannot stat FS root '" ++ (debug root ++ text "'"))
          (some (Cause.io e))
  ]

  module _ (disk : Disk) where
    unfoldable pub ensure_root : Exec disk.State (Unit {0})
    ensure_root = do
      m ← λ s. try_io root_error (disk.metadata root s)
      if m.is_dir
          then pure tt
          else raise (misconfigured_root (text "FS root '") (text "' is not a directory"))

    unfoldable pub file_meta : Str → Exec disk.State BlobMeta
    file_meta key = do
      path ← lift (key_to_path root key)
      m ← λ s. try_io (stat_error key) (disk.metadata path s)
      pure (meta_of_file key m)

    abbrev pub create_parent : Option Str → Exec disk.State (Unit {0})
    create_parent none = pure tt
    create_parent (some dir) = λ s. try_io from_io (disk.create_dir_all dir s)

    unfoldable pub put_blob : BlobInput → Exec disk.State BlobMeta
    put_blob blob = do
      path ← lift (key_to_path root blob.key)
      create_parent (parent path)
      file ← λ s. try_io from_io (disk.create path s)
      λ s. try_io from_io (disk.copy blob.content file s)
      λ s. try_io from_io (disk.flush file s)
      m ← λ s. try_io from_io (disk.metadata path s)
      pure (meta_of_file blob.key m)

    unfoldable pub put_blobs : List BlobInput → Exec disk.State (List BlobMeta)
    put_blobs [] = pure []
    put_blobs (blob ∷ blobs) = do meta ← put_blob blob; rest ← put_blobs blobs; pure (meta ∷ rest)

    unfoldable pub put : List BlobInput → Exec disk.State PutResult
    put blobs = do
      lift (try_map (λ b. validate_blob_key b.key) blobs)
      ensure_root
      metas ← put_blobs blobs
      pure (multiple metas)

    unfoldable pub get : Str → Exec disk.State Stream
    get key = do
      ensure_root
      path ← lift (key_to_path root key)
      there ← path_exists disk path
      if there
          then (λ s. try_io from_io (disk.open_file path s))
          else raise (BlobStorageError.not_found key)

    abbrev pub add_success : Str → BatchError → BatchError
    add_success key b = record { succeeded = b.succeeded ++ (key ∷ []); errors = b.errors }

    abbrev pub add_failure : Str → IoError → BatchError → BatchError
    add_failure key e b = record {
      succeeded = b.succeeded;
      errors = b.errors ++ (record { key = key; error = map_io_error_to_per_key e } ∷ []);
    }

    -- A missing file counts as deleted.
    abbrev pub removed :
        {S : Type 0} → Str → BatchError → Answer S (Unit {0}) → Outcome S BatchError
    removed key b (done _ s) = returns (add_success key b) s
    removed key b (failed e s) = elim e.kind [
      | IoErrorKind.not_found ↦ returns (add_success key b) s
      | _ ↦ returns (add_failure key e b) s
    ]

    -- The loop of `delete`, with what it has collected.
    unfoldable pub remove_files : List Str → BatchError → Exec disk.State BatchError
    remove_files [] b = pure b
    remove_files (key ∷ keys) b = do
      path ← lift (key_to_path root key)
      next ← λ s. removed key b (disk.remove_file path s)
      remove_files keys next

    abbrev pub finish_delete : BatchError → Exec disk.State (Unit {0})
    finish_delete b = if is_empty b.errors then pure tt else raise (BlobStorageError.batch b)

    unfoldable pub delete : List Str → Exec disk.State (Unit {0})
    delete keys = do
      lift (try_map validate_blob_key keys)
      ensure_root
      b ← remove_files keys (record { succeeded = []; errors = [] })
      finish_delete b

    unfoldable pub exists : Str → Exec disk.State Bool
    exists key = do ensure_root; path ← lift (key_to_path root key); path_is_file disk path

    unfoldable pub get_with_metadata : Str → Exec disk.State (BlobMeta × Stream)
    get_with_metadata key = do
      ensure_root
      meta ← file_meta key
      reader ← get key
      pure (meta, reader)
