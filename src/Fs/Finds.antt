-- ===== src/Fs/Finds.antt =====
-- Files that are looked for: what is documented of the calls, and what a read does first.
use xtax.Base.{
  Str, Bool, false, ◌⊎◌, Bool-cases, Option, none, some, is_some, ◌++◌, ◌≡◌, refl, inl, inr,
}
use xtax.Error.{BlobStorageError, IoError, IoErrorKind}
use xtax.Exec.{ok, Result-cases, Outcome, returns, fails, final, lift, Exec, continue}
use xtax.Types.{Bytes, Stream}
use xtax.Store.Contract.{View}
use xtax.Validate.{validate_blob_key}
use xtax.Validate.Nested.{validate_blob_key-err}
use xtax.Fs.{normalise_root, key_to_path}
use xtax.Fs.Paths.{key_to_path-normalise_root}
use xtax.Fs.Disk.{Disk, Answer, done, failed, Metadata}
use xtax.Fs.Files.{ensure_root, root_error}
use xtax.Fs.Contents.{after, Answer-cases, disk_view, Keeps, Keeps-view}
use xtax.Fs.Root.{path_of, kept_after, root_error-not_missing}

-- Calls that read: they change nothing, and tell whether there is a file, and what it holds. Where
-- the metadata of a path is not found there is no file; any other error tells nothing.
pub record Finds (disk : Disk) (root : Str) (files : disk.State → Str → Option Bytes) : Type 0 where
  pub metadata_kept :
      (path : Str) (s : disk.State) → Keeps disk root files s (after (disk.metadata path s))
  pub open_kept :
      (path : Str) (s : disk.State) → Keeps disk root files s (after (disk.open_file path s))
  pub told :
      (k : Str) (s t : disk.State) (m : Metadata)
      → validate_blob_key k ≡ ok tt
      → disk.metadata (root ++ k) s ≡ done m t
      → m.is_file ≡ is_some (files s k)
  pub absent :
      (k : Str) (s t : disk.State) (e : IoError)
      → validate_blob_key k ≡ ok tt
      → disk.metadata (root ++ k) s ≡ failed e t
      → e.kind ≡ IoErrorKind.not_found
      → files s k ≡ none
  pub opened :
      (k : Str) (s t : disk.State) (st : Stream) (bytes : Bytes)
      → validate_blob_key k ≡ ok tt
      → disk.open_file (root ++ k) s ≡ done st t
      → files s k ≡ some bytes
      → st.fault ≡ none
      → st.bytes ≡ bytes

-- The metadata of a path cannot be read, for another reason than that there is nothing: now, or
-- after other metadata was read.
pub data Refused (disk : Disk) (path : Str) : disk.State → Type 0 where
  refused :
      {s t : disk.State} {e : IoError}
      → disk.metadata path s ≡ failed e t
      → ¬ (e.kind ≡ IoErrorKind.not_found)
      → Refused disk path s
  looked :
      {s t : disk.State} {m : Metadata} (other : Str)
      → disk.metadata other s ≡ done m t
      → Refused disk path t
      → Refused disk path s

-- A read of blobs, where keys may also name what is no blob, and a blob may be denied.
pub record FindsBlob {S A : Type 0} (view : S → View) (denied : Str → S → Type 0)
    (stream_of : A → Stream) (read : Str → Exec S A) : Type 0 where
  pub keeps : (k : Str) (s : S) (j : Str) → view (final (read k s)) j ≡ view s j
  pub found :
      (k : Str) (s : S) (a : A) (t : S)
      → read k s ≡ returns a t
      → (validate_blob_key k ≡ ok tt)
        × ((st : Stream) → view s k ≡ some st → (stream_of a).fault ≡ none → stream_of a ≡ st)
  pub missing :
      (k : Str) (s : S) (j : Str) (t : S)
      → read k s ≡ fails (BlobStorageError.not_found j) t
      → (j ≡ k) × ((view s k ≡ none) ⊎ denied k s)

-- A test for blobs, which takes one that is denied for absent.
pub record TellsBlob {S : Type 0} (view : S → View) (denied : Str → S → Type 0)
    (test : Str → Exec S Bool) : Type 0 where
  pub keeps : (k : Str) (s : S) (j : Str) → view (final (test k s)) j ≡ view s j
  pub tells :
      (k : Str) (s : S) (b : Bool) (t : S)
      → test k s ≡ returns b t
      → (b ≡ is_some (view s k)) ⊎ ((b ≡ false) × denied k s)

module _ (debug : Str → Str) (given : Str) (disk : Disk) (files : disk.State → Str → Option Bytes)
    (law : Finds disk (normalise_root given) files) where
  abbrev root : Str
  root = normalise_root given

  abbrev view : disk.State → View
  view = disk_view disk root files

  abbrev Kept : disk.State → disk.State → Type 0
  Kept s t = (j : Str) → view t j ≡ view s j

  pub metadata-Kept :
      (path : Str) (s : disk.State) (r : Answer disk.State Metadata)
      → disk.metadata path s ≡ r
      → Kept s (after r)
  metadata-Kept path s r e =
      Keeps-view disk root files s (after r)
        (kept_after root disk files law.metadata_kept path s r e)

  -- What a read does first: the check of the root, and the path of the key. Its errors are not about
  -- missing keys.
  module _ {A : Type 0} (P : disk.State → Outcome disk.State A → Type 0)
      (later : (path : Str) (s t : disk.State) (m : Metadata) (o : Outcome disk.State A)
        → disk.metadata path s ≡ done m t
        → P t o
        → P s o)
      (failing : (e : BlobStorageError) (s t : disk.State)
        → Kept s t
        → ((j : Str) → ¬ (e ≡ BlobStorageError.not_found j))
        → P s (fails e t)) where
    pub rooted :
        (s : disk.State) (f : Unit {0} → Exec disk.State A)
        → ((t : disk.State) → P t (f tt t))
        → P s (continue (ensure_root debug root disk s) f)
    unfolding ensure_root
    rooted s f h = elim (Answer-cases (disk.metadata root s)) [
      | inr (e, t, q) ↦
          rw (q, ensure_root)
            (failing (root_error debug root e) s t (metadata-Kept root s _ q)
              (root_error-not_missing debug root e))
      | inl (m, t, q) ↦ elim (Bool-cases m.is_dir) [
        | inl d ↦ rw (q, d, ensure_root) (later root s t m (f tt t) q (h t))
        | inr d ↦ rw (q, d, ensure_root) (failing _ s t (metadata-Kept root s _ q) (λ j e. cc))
      ]
    ]

    pub keyed :
        (k : Str) (s : disk.State) (f : Str → Exec disk.State A)
        → (validate_blob_key k ≡ ok tt → P s (f (root ++ k) s))
        → P s (continue (lift (key_to_path root k) s) f)
    keyed k s f h = elim (Result-cases (validate_blob_key k)) [
      | inl (_, v) ↦ rw (path_of given k v) (h v)
      | inr (x, v) ↦
          let (m, q) = validate_blob_key-err k x v in
          rw (key_to_path-normalise_root given k, v) (failing x s s (λ j. refl) (λ j e. cc))
    ]
