-- ===== src/Fs/Root.antt =====
-- The root of the file-system store: the paths below it, and what the check of the root does.
use xtax.Base.{Str, Option, ◌++◌, ◌≡◌, refl, sym, ap, ◌∙◌, ◌⊎◌, inl, inr, Bool-cases}
use xtax.Error.{BlobStorageError, BatchError, IoError, IoErrorKind}
use xtax.Exec.{ok, and_then, Outcome, returns, fails}
use xtax.Types.{Bytes}
use xtax.Validate.{validate_blob_key}
use xtax.Fs.{normalise_root, key_to_path}
use xtax.Fs.Paths.{key_to_path-normalise_root}
use xtax.Fs.Disk.{Disk, Answer, Metadata}
use xtax.Fs.Files.{ensure_root, root_error}
use xtax.Fs.Contents.{after, Answer-cases, Keeps}

pub kind-cases :
    (k : IoErrorKind)
    → (k ≡ IoErrorKind.not_found) ⊎ (k ≡ IoErrorKind.permission_denied) ⊎ (k ≡ IoErrorKind.other)
kind-cases IoErrorKind.not_found = inl refl
kind-cases IoErrorKind.permission_denied = inr (inl refl)
kind-cases IoErrorKind.other = inr (inr refl)

root_error-not_batch :
    (debug : Str → Str) (root : Str) (e : IoError) (b : BatchError)
    → ¬ (root_error debug root e ≡ BlobStorageError.batch b)
root_error-not_batch debug root e b h = elim (kind-cases e.kind) [
  | inl q ↦ cc (rw q at h)
  | inr (inl q) ↦ cc (rw q at h)
  | inr (inr q) ↦ cc (rw q at h)
]

pub root_error-not_missing :
    (debug : Str → Str) (root : Str) (e : IoError) (k : Str)
    → ¬ (root_error debug root e ≡ BlobStorageError.not_found k)
root_error-not_missing debug root e k h = elim (kind-cases e.kind) [
  | inl q ↦ cc (rw q at h)
  | inr (inl q) ↦ cc (rw q at h)
  | inr (inr q) ↦ cc (rw q at h)
]

pub path_of :
    (given k : Str)
    → validate_blob_key k ≡ ok tt
    → key_to_path (normalise_root given) k ≡ ok (normalise_root given ++ k)
path_of given k h =
    key_to_path-normalise_root given k
    ∙ ap (λ r. and_then r (λ _. ok (normalise_root given ++ k))) h

module _ (disk : Disk) (root : Str) (files : disk.State → Str → Option Bytes) where
  -- The check of the root changes nothing, and its errors are about no key.
  abbrev pub Checked : disk.State → Outcome disk.State (Unit {0}) → Type 0
  Checked s (returns _ t) = Keeps disk root files s t
  Checked s (fails e t) =
      ((b : BatchError) → ¬ (e ≡ BlobStorageError.batch b))
      × ((k : Str) → ¬ (e ≡ BlobStorageError.not_found k))
      × Keeps disk root files s t

module _ (root : Str) (disk : Disk) (files : disk.State → Str → Option Bytes)
    (metadata_kept : (path : Str) (s : disk.State)
      → Keeps disk root files s (after (disk.metadata path s))) where
  pub kept_after :
      (path : Str) (s : disk.State) (r : Answer disk.State Metadata)
      → disk.metadata path s ≡ r
      → Keeps disk root files s (after r)
  kept_after path s r e j h =
      ap (λ (x : Answer disk.State Metadata). files (after x) j) (sym e) ∙ metadata_kept path s j h

module _ (debug : Str → Str) (root : Str) (disk : Disk) (files : disk.State → Str → Option Bytes)
    (metadata_kept : (path : Str) (s : disk.State)
      → Keeps disk root files s (after (disk.metadata path s))) where
  pub ensure_root-Checked :
      (s : disk.State) → Checked disk root files s (ensure_root debug root disk s)
  unfolding ensure_root
  ensure_root-Checked s = elim (Answer-cases (disk.metadata root s)) [
    | inr (e, t, q) ↦
        rw (q, ensure_root)
          (
            root_error-not_batch debug root e,
            root_error-not_missing debug root e,
            kept_after root disk files metadata_kept root s _ q,
          )
    | inl (m, t, q) ↦ elim (Bool-cases m.is_dir) [
      | inl d ↦ rw (q, d, ensure_root) (kept_after root disk files metadata_kept root s _ q)
      | inr d ↦
          rw (q, d, ensure_root)
            (λ b h. cc, λ k h. cc, kept_after root disk files metadata_kept root s _ q)
    ]
  ]
