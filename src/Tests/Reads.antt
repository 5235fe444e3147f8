-- ===== src/Tests/Reads.antt =====
-- The reads of the file-system store on a file system in memory.
use mathlib.Core.List.{append-nil}
use xtax.Base.{
  ◌⊎◌, text, starts_with, ends_with, has_char, split, strip_prefix, Str, Bool, true, false, Option,
  none, some, is_some, [], ◌∷◌, ◌++◌, ◌≡◌, refl, sym, ap, ◌∙◌, str_eq, str_eq-append,
}
use xtax.Error.{IoError}
use xtax.Exec.{ok, returns, try_map}
use xtax.Types.{Bytes, Stream, BlobInput, PutResult, cursor, multiple}
use xtax.Validate.{validate_blob_key, check_components}
use xtax.Validate.Components.{join}
use xtax.Fs.Hint.{parent, trim_path, trim_end, drop_last}
use xtax.Fs.RoundTrip.{get_after_put}
use xtax.Fs.{normalise_root, key_to_path, join_components, join_path}
use xtax.Fs.Disk.{path_is_file, path_exists, done, failed, Metadata}
use xtax.Fs.Files.{put, put_blobs, put_blob, ensure_root, get, exists, get_with_metadata}
use xtax.Fs.Contents.{after, disk_view}
use xtax.Fs.Finds.{Finds, FindsBlob, TellsBlob, Refused}
use xtax.Fs.Reads.{reader_of, get-FindsBlob, exists-TellsBlob}
use xtax.Tests.Files.{
  given, root, Contents, memory_disk, files, stat_of, stat_kept, open_of, held, memory_disk-Writes,
}

-- The path of a valid key is not the root.
not_root : (k : Str) → validate_blob_key k ≡ ok tt → str_eq (root ++ k) root ≡ false
unfolding validate_blob_key str_eq
not_root [] v = cc v
not_root (b ∷ k) v =
    ap (str_eq (root ++ b ∷ k)) (sym (append-nil root)) ∙ str_eq-append root (b ∷ k) []

stat_told :
    (d : Bool) (o : Option Bytes) (s t : Contents) (m : Metadata)
    → d ≡ false
    → stat_of d o s ≡ done m t
    → m.is_file ≡ is_some o
stat_told true o s t m d e = cc d
stat_told false none s t m d e = cc
stat_told false (some bytes) s t m d e = cc

stat_absent :
    (d : Bool) (o : Option Bytes) (s t : Contents) (x : IoError)
    → stat_of d o s ≡ failed x t
    → o ≡ none
stat_absent true o s t x e = cc
stat_absent false none s t x e = refl
stat_absent false (some bytes) s t x e = cc

open_after : (o : Option Bytes) (s : Contents) → after (open_of o s) ≡ s
open_after none s = refl
open_after (some bytes) s = refl

open_bytes :
    (o : Option Bytes) (s t : Contents) (st : Stream) (bytes : Bytes)
    → open_of o s ≡ done st t
    → o ≡ some bytes
    → st.bytes ≡ bytes
open_bytes none s t st bytes e q = cc
open_bytes (some c) s t st bytes e q =
    let same : c ≡ bytes = cc in let read : st.bytes ≡ c = cc in read ∙ same

memory_disk-Finds : Finds memory_disk (normalise_root given) files
memory_disk-Finds = record {
  metadata_kept =
      λ path s j v. ap (λ (t : Contents). t (root ++ j)) (stat_kept (str_eq path root) (s path) s);
  open_kept = λ path s j v. ap (λ (t : Contents). t (root ++ j)) (open_after (s path) s);
  told = λ k s t m v e. stat_told (str_eq (root ++ k) root) (s (root ++ k)) s t m (not_root k v) e;
  absent = λ k s t x v e q. stat_absent (str_eq (root ++ k) root) (s (root ++ k)) s t x e;
  opened = λ k s t st bytes v e q h. open_bytes (s (root ++ k)) s t st bytes e q;
}

get-FindsBlob_example :
    FindsBlob
      (disk_view memory_disk root files)
      (λ k s. Refused memory_disk (root ++ k) s)
      (λ st. st)
      (get (λ p. p) root memory_disk)
    × FindsBlob
        (disk_view memory_disk root files)
        (λ k s. Refused memory_disk (root ++ k) s)
        reader_of
        (get_with_metadata (λ p. p) root memory_disk)
get-FindsBlob_example = get-FindsBlob (λ p. p) given memory_disk files memory_disk-Finds

exists-TellsBlob_example :
    TellsBlob
      (disk_view memory_disk root files)
      (λ k s. Refused memory_disk (root ++ k) s)
      (exists (λ p. p) root memory_disk)
exists-TellsBlob_example = exists-TellsBlob (λ p. p) given memory_disk files memory_disk-Finds

abbrev note : BlobInput
note = record { key = text "a"; content = cursor (1 ∷ 2 ∷ []); size_hint = none }

abbrev no_files : Contents
no_files path = none

put_note :
    (r : PutResult) × (t : Contents) × (put
        (λ p. p)
        (normalise_root given)
        memory_disk
        (note ∷ [])
        no_files
      ≡ returns r t)
unfolding put put_blobs put_blob ensure_root parent trim_path trim_end drop_last join key_to_path
    join_components join_path normalise_root validate_blob_key check_components try_map text
    starts_with ends_with has_char split str_eq strip_prefix multiple
put_note = (_, _, refl)

note_exists :
    (b : Bool) × (t : Contents) × (exists
        (λ p. p)
        (normalise_root given)
        memory_disk
        (text "a")
        put_note.1
      ≡ returns b t)
unfolding put_note exists ensure_root path_is_file key_to_path join_components join_path
    normalise_root validate_blob_key check_components text starts_with ends_with has_char split
    str_eq
note_exists = (_, _, refl)

get_note :
    (st : Stream) × (t : Contents) × (get
        (λ p. p)
        (normalise_root given)
        memory_disk
        (text "a")
        put_note.1
      ≡ returns st t)
unfolding put_note get ensure_root path_exists key_to_path join_components join_path normalise_root
    validate_blob_key check_components text starts_with ends_with has_char split str_eq
get_note = (_, _, refl)

get_after_put_example :
    ((note_exists.0 ≡ true) ⊎ Refused memory_disk (normalise_root given ++ text "a") put_note.1)
    × (get_note.0 ≡ cursor (1 ∷ 2 ∷ []))
unfolding get_note
get_after_put_example =
    get_after_put (λ p. p) given memory_disk files (λ k. k) held memory_disk-Writes
      memory_disk-Finds note no_files put_note.1 get_note.1 note_exists.1 put_note.0 note_exists.0
      get_note.0 put_note.2 note_exists.2 get_note.2 refl
