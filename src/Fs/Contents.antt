-- ===== src/Fs/Contents.antt =====
-- What the documentation of the file system says of the calls, against the contents of the files
-- below a root: the bytes of the file at the root followed by a key, for the keys that are valid.
use xtax.Base.{
  Str, false, Option, none, some, [], ◌++◌, ◌≡◌, refl, sym, ap, ◌∙◌, ◌⊎◌, inl, inr, str_eq,
  str_eq_sound, Bool-cases, if◌then◌else◌,
}
use xtax.Error.{IoError, IoErrorKind}
use xtax.Exec.{ok, err, Result, Result-cases}
use xtax.Types.{Bytes, Stream, cursor}
use xtax.Store.Contract.{View}
use xtax.Validate.{validate_blob_key}
use xtax.Fs.Disk.{Disk, Answer, done, failed}

abbrev pub after : {S A : Type 0} → Answer S A → S
after (done a s) = s
after (failed e s) = s

pub Answer-cases :
    {S A : Type 0} (x : Answer S A)
    → ((a : A) × (s : S) × (x ≡ done a s)) ⊎ ((e : IoError) × (s : S) × (x ≡ failed e s))
Answer-cases (done a s) = inl (a, s, refl)
Answer-cases (failed e s) = inr (e, s, refl)

abbrev pub as_blob : Option Bytes → Option Stream
as_blob none = none
as_blob (some bytes) = some (cursor bytes)

module _ (disk : Disk) (root : Str) (files : disk.State → Str → Option Bytes) where
  abbrev pub if_valid : Result (Unit {0}) → Option Stream → Option Stream
  if_valid (ok _) blob = blob
  if_valid (err _) blob = none

  -- The blobs of the store: the files with valid keys.
  abbrev pub disk_view : disk.State → View
  disk_view s k = if_valid (validate_blob_key k) (as_blob (files s k))

  abbrev pub Keeps : disk.State → disk.State → Type 0
  Keeps s t = (j : Str) → validate_blob_key j ≡ ok tt → files t j ≡ files s j

  -- The file of one key was set, or may have changed.
  abbrev pub Sets : Str → Option Bytes → disk.State → disk.State → Type 0
  Sets k content s t =
      (j : Str)
      → validate_blob_key j ≡ ok tt
      → files t j ≡ (if str_eq k j then content else files s j)

  abbrev pub Spares : Str → disk.State → disk.State → Type 0
  Spares k s t =
      (j : Str) → validate_blob_key j ≡ ok tt → str_eq k j ≡ false → files t j ≡ files s j

  pub Keeps-view : (s t : disk.State) → Keeps s t → (j : Str) → disk_view t j ≡ disk_view s j
  Keeps-view s t h j = elim (Result-cases (validate_blob_key j)) [
    | inr (e, q) ↦ rw q refl
    | inl (_, q) ↦ rw q (ap as_blob (h j q))
  ]

  pub Spares-view :
      (k : Str) (s t : disk.State)
      → Spares k s t
      → (j : Str) → str_eq k j ≡ false
      → disk_view t j ≡ disk_view s j
  Spares-view k s t h j d = elim (Result-cases (validate_blob_key j)) [
    | inr (e, q) ↦ rw q refl
    | inl (_, q) ↦ rw q (ap as_blob (h j q d))
  ]

  pub Sets-view :
      (k : Str) (content : Option Bytes) (s t : disk.State)
      → validate_blob_key k ≡ ok tt
      → Sets k content s t
      → (j : Str) → disk_view t j ≡ (if str_eq k j then as_blob content else disk_view s j)
  Sets-view k content s t v h j = elim (Bool-cases (str_eq k j)) [
    | inl r ↦
        let e = str_eq_sound k j r in
        let w : validate_blob_key j ≡ ok tt = ap validate_blob_key (sym e) ∙ v in
        let c = h j w in rw (w, r) (ap as_blob (rw r at c))
    | inr r ↦ elim (Result-cases (validate_blob_key j)) [
      | inr (x, q) ↦ rw (q, r) refl
      | inl (_, q) ↦ let c = h j q in rw (q, r) (ap as_blob (rw r at c))
    ]
  ]

  -- Removals: of the file that is named, and of no other.
  pub record Removes : Type 0 where
    pub metadata_kept : (path : Str) (s : disk.State) → Keeps s (after (disk.metadata path s))
    pub removed :
        (k : Str) (s t : disk.State) (u : Unit {0})
        → validate_blob_key k ≡ ok tt
        → disk.remove_file (root ++ k) s ≡ done u t
        → Sets k none s t
    pub remove_failed :
        (k : Str) (s t : disk.State) (e : IoError)
        → disk.remove_file (root ++ k) s ≡ failed e t
        → Keeps s t
    pub remove_missing :
        (k : Str) (s t : disk.State) (e : IoError)
        → validate_blob_key k ≡ ok tt
        → disk.remove_file (root ++ k) s ≡ failed e t
        → e.kind ≡ IoErrorKind.not_found
        → files s k ≡ none

  -- Writes: a file that is created is empty, and holds what was written to it once that is flushed.
  -- The file of a failed write may hold anything. `key_of` and `pending` tell of an open file which
  -- key it was created for and what was written to it.
  pub record Writes (key_of : disk.File → Str) (pending : disk.State → disk.File → Bytes)
      : Type 0 where
    pub metadata_kept : (path : Str) (s : disk.State) → Keeps s (after (disk.metadata path s))
    pub dirs_kept : (path : Str) (s : disk.State) → Keeps s (after (disk.create_dir_all path s))
    pub created :
        (k : Str) (s t : disk.State) (file : disk.File)
        → validate_blob_key k ≡ ok tt
        → disk.create (root ++ k) s ≡ done file t
        → (key_of file ≡ k) × (pending t file ≡ []) × Sets k (some []) s t
    pub create_failed :
        (k : Str) (s t : disk.State) (e : IoError)
        → disk.create (root ++ k) s ≡ failed e t
        → Keeps s t
    pub copied :
        (content : Stream) (file : disk.File) (s t : disk.State) (u : Unit {0})
        → disk.copy content file s ≡ done u t
        → (content.fault ≡ none) × (pending t file ≡ pending s file ++ content.bytes)
    pub copy_others :
        (content : Stream) (file : disk.File) (s : disk.State)
        → Spares (key_of file) s (after (disk.copy content file s))
    pub flushed :
        (file : disk.File) (s t : disk.State) (u : Unit {0})
        → validate_blob_key (key_of file) ≡ ok tt
        → disk.flush file s ≡ done u t
        → files t (key_of file) ≡ some (pending s file)
    pub flush_others :
        (file : disk.File) (s : disk.State) → Spares (key_of file) s (after (disk.flush file s))
