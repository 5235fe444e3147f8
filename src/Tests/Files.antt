-- ===== src/Tests/Files.antt =====
-- A file system in memory, and the file-system store on it.
use xtax.Base.{
  Str, Bool, true, false, text, Option, none, some, length, [], ◌++◌, ◌≡◌, refl, sym, ap, ◌∙◌,
  str_eq, str_eq_refl, str_eq-append, strip_prefix, strip_prefix-append, if◌then◌else◌,
}
use xtax.Error.{IoError, IoErrorKind}
use xtax.Types.{Bytes, Stream, cursor}
use xtax.Store.Contract.{PutsView, DeletesView}
use xtax.Fs.{normalise_root}
use xtax.Fs.Disk.{Disk, Answer, done, failed, Metadata}
use xtax.Fs.Contents.{after, disk_view, Removes, Writes}
use xtax.Fs.Puts.{put-PutsView}
use xtax.Fs.Deletes.{delete-DeletesView}
use xtax.Fs.Walk.{fs_store}

abbrev pub given : Str
given = text "/tmp/data"

abbrev pub root : Str
root = normalise_root given

-- The contents of the files, by path.
abbrev pub Contents : Type 0
Contents = Str → Option Bytes

abbrev set : Str → Option Bytes → Contents → Contents
set path content s j = if str_eq path j then content else s j

abbrev missing : IoError
missing = record { kind = IoErrorKind.not_found; description = [] }

abbrev pub stat_of : Bool → Option Bytes → Contents → Answer Contents Metadata
stat_of true content s =
    done (record { is_dir = true; is_file = false; len = 0; modified = none }) s
stat_of false none s = failed missing s
stat_of false (some bytes) s =
    done (record { is_dir = false; is_file = true; len = length bytes; modified = none }) s

abbrev remove_of : Str → Option Bytes → Contents → Answer Contents (Unit {0})
remove_of path none s = failed missing s
remove_of path (some bytes) s = done tt (set path none s)

abbrev or_empty : Option Bytes → Bytes
or_empty none = []
or_empty (some bytes) = bytes

-- What the file of a key holds.
abbrev pub held : Contents → Str → Bytes
held s k = or_empty (s (root ++ k))

abbrev copy_of : Bytes → Option IoError → Str → Contents → Answer Contents (Unit {0})
copy_of bytes none k s = done tt (set (root ++ k) (some (held s k ++ bytes)) s)
copy_of bytes (some e) k s = failed e s

abbrev create_of : Option Str → Contents → Answer Contents Str
create_of none s = failed missing s
create_of (some k) s = done k (set (root ++ k) (some []) s)

abbrev flush_of : Str → Contents → Answer Contents (Unit {0})
flush_of k s = done tt (set (root ++ k) (some (held s k)) s)

abbrev pub open_of : Option Bytes → Contents → Answer Contents Stream
open_of none s = failed missing s
open_of (some bytes) s = done (cursor bytes) s

-- Files are written at once, and those below the root only; a directory that is read has no
-- entries.
abbrev pub memory_disk : Disk
memory_disk = record {
  State = Contents;
  File = Str;
  Dir = Unit {0};
  metadata = λ path s. stat_of (str_eq path root) (s path) s;
  create_dir_all = λ path s. done tt s;
  create = λ path s. create_of (strip_prefix root path) s;
  copy = λ content k s. copy_of content.bytes content.fault k s;
  flush = flush_of;
  open_file = λ path s. open_of (s path) s;
  remove_file = λ path s. remove_of path (s path) s;
  read_dir = λ path s. done tt s;
  next_entry = λ dir s. done none s;
}

abbrev pub files : Contents → Str → Option Bytes
files s k = s (root ++ k)

pub stat_kept : (d : Bool) (content : Option Bytes) (s : Contents) → after (stat_of d content s) ≡ s
stat_kept true content s = refl
stat_kept false none s = refl
stat_kept false (some bytes) s = refl

removal :
    (path : Str) (content : Option Bytes) (s t : Contents) (u : Unit {0})
    → remove_of path content s ≡ done u t
    → set path none s ≡ t
removal path none s t u e = cc
removal path (some bytes) s t u e = cc

no_removal :
    (path : Str) (content : Option Bytes) (s t : Contents) (x : IoError)
    → remove_of path content s ≡ failed x t
    → (s ≡ t) × (content ≡ none)
no_removal path none s t x e = (cc, refl)
no_removal path (some bytes) s t x e = cc

memory_disk-Removes : Removes memory_disk root files
memory_disk-Removes = record {
  metadata_kept =
      λ path s j v. ap (λ (t : Contents). t (root ++ j)) (stat_kept (str_eq path root) (s path) s);
  removed = λ k s t u v e j w.
      ap (λ (x : Contents). x (root ++ j)) (sym (removal (root ++ k) (s (root ++ k)) s t u e))
      ∙ ap (λ b. if b then none else s (root ++ j)) (str_eq-append root k j);
  remove_failed = λ k s t x e j w.
      ap (λ (y : Contents). y (root ++ j)) (sym (no_removal (root ++ k) (s (root ++ k)) s t x e).0);
  remove_missing = λ k s t x v e q. (no_removal (root ++ k) (s (root ++ k)) s t x e).1;
}

set_other :
    (k j : Str) (content : Option Bytes) (s : Contents)
    → str_eq k j ≡ false
    → set (root ++ k) content s (root ++ j) ≡ s (root ++ j)
set_other k j content s d = rw (str_eq-append root k j, d) refl

set_same :
    (k : Str) (content : Option Bytes) (s : Contents)
    → set (root ++ k) content s (root ++ k) ≡ content
set_same k content s = rw (str_eq_refl (root ++ k)) refl

created_file :
    (k : Str) (s t : Contents) (file : Str) (o : Option Str)
    → o ≡ some k
    → create_of o s ≡ done file t
    → (file ≡ k) × (set (root ++ k) (some []) s ≡ t)
created_file k s t file none q e = cc
created_file k s t file (some i) q e = (cc, cc)

not_created : (s t : Contents) (x : IoError) (o : Option Str) → create_of o s ≡ failed x t → s ≡ t
not_created s t x none e = cc
not_created s t x (some i) e = cc

copied_file :
    (bytes : Bytes) (fault : Option IoError) (k : Str) (s t : Contents) (u : Unit {0})
    → copy_of bytes fault k s ≡ done u t
    → (fault ≡ none) × (set (root ++ k) (some (held s k ++ bytes)) s ≡ t)
copied_file bytes none k s t u e = (refl, cc)
copied_file bytes (some x) k s t u e = cc

copy_spares :
    (bytes : Bytes) (fault : Option IoError) (k : Str) (s : Contents) (j : Str)
    → str_eq k j ≡ false
    → after (copy_of bytes fault k s) (root ++ j) ≡ s (root ++ j)
copy_spares bytes none k s j d = set_other k j _ s d
copy_spares bytes (some x) k s j d = refl

held_of : (s : Contents) (k : Str) (bytes : Bytes) → s (root ++ k) ≡ some bytes → held s k ≡ bytes
held_of s k bytes e = ap or_empty e

flushed_file :
    (k : Str) (s t : Contents) (u : Unit {0})
    → flush_of k s ≡ done u t
    → set (root ++ k) (some (held s k)) s ≡ t
flushed_file k s t u e = cc

pub memory_disk-Writes : Writes memory_disk root files (λ k. k) held
memory_disk-Writes = record {
  metadata_kept =
      λ path s j v. ap (λ (t : Contents). t (root ++ j)) (stat_kept (str_eq path root) (s path) s);
  dirs_kept = λ path s j v. refl;
  created = λ k s t file v e.
      let c = created_file k s t file _ (strip_prefix-append root k) e in
      (
        c.0,
        held_of t file [] (
            ap (λ i. t (root ++ i)) c.0
            ∙ ap (λ (x : Contents). x (root ++ k)) (sym c.1)
            ∙ set_same k _ s),
        λ j w.
            ap (λ (x : Contents). x (root ++ j)) (sym c.1)
            ∙ ap (λ b. if b then some [] else s (root ++ j)) (str_eq-append root k j),
      );
  create_failed =
      λ k s t x e j w. ap (λ (y : Contents). y (root ++ j)) (sym (not_created s t x _ e));
  copied = λ content k s t u e.
      let c = copied_file content.bytes content.fault k s t u e in
      (c.0, held_of t k _ (ap (λ (x : Contents). x (root ++ k)) (sym c.1) ∙ set_same k _ s));
  copy_others = λ content k s j v d. copy_spares content.bytes content.fault k s j d;
  flushed = λ k s t u v e.
      ap (λ (x : Contents). x (root ++ k)) (sym (flushed_file k s t u e)) ∙ set_same k _ s;
  flush_others = λ k s j v d. set_other k j _ s d;
}

put-PutsView_example :
    PutsView (fs_store (λ p. p) (λ p. true) root memory_disk 100) (disk_view memory_disk root files)
put-PutsView_example =
    put-PutsView (λ p. p) (λ p. true) given memory_disk 100 files (λ k. k) held memory_disk-Writes

delete-DeletesView_example :
    DeletesView
      (fs_store (λ p. p) (λ p. true) root memory_disk 100)
      (disk_view memory_disk root files)
delete-DeletesView_example =
    delete-DeletesView (λ p. p) (λ p. true) given memory_disk 100 files memory_disk-Removes
