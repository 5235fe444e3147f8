-- ===== src/Fs/Reads.antt =====
-- The reads of the file-system store against the contents of the files.
use xtax.Base.{
  Str, Bool, Option, none, some, is_some, ◌++◌, ◌≡◌, refl, sym, ap, ◌∙◌, arith, if◌then◌else◌, ◌⊎◌,
  inl, inr, false,
}
use xtax.Error.{BlobStorageError, IoError, from_io}
use xtax.Exec.{ok, Result-cases, Outcome, returns, fails, final, Exec, continue}
use xtax.Types.{Bytes, Stream, BlobMeta, cursor}
use xtax.Store.Contract.{View}
use xtax.Validate.{validate_blob_key}
use xtax.Validate.Nested.{validate_blob_key-err}
use xtax.Fs.{normalise_root}
use xtax.Fs.Paths.{key_to_path-normalise_root}
use xtax.Fs.Disk.{failed, Disk, Answer, done, Metadata, path_exists, path_is_file, try_io}
use xtax.Fs.Files.{file_meta, get, exists, get_with_metadata, stat_error, meta_of_file}
use xtax.Fs.Contents.{after, Answer-cases, as_blob, disk_view, Keeps-view}
use xtax.Fs.Root.{path_of, kind-cases}
use xtax.Fs.Finds.{Finds, Refused, FindsBlob, TellsBlob, metadata-Kept, rooted, keyed}

abbrev pub reader_of : BlobMeta × Stream → Stream
reader_of a = a.1

module _ (debug : Str → Str) (given : Str) (disk : Disk) (files : disk.State → Str → Option Bytes)
    (law : Finds disk (normalise_root given) files) where
  abbrev root : Str
  root = normalise_root given

  abbrev view : disk.State → View
  view = disk_view disk root files

  abbrev Kept : disk.State → disk.State → Type 0
  Kept s t = (j : Str) → view t j ≡ view s j

  abbrev pub Denied : Str → disk.State → Type 0
  Denied k s = Refused disk (root ++ k) s

  -- A read that ends well has a valid key and gives the blob where there is one, unless its stream
  -- fails; one that finds nothing names its key, and there is nothing, or it is denied. No read
  -- changes anything.
  abbrev Read : {A : Type 0} → (A → Stream) → Str → disk.State → Outcome disk.State A → Type 0
  Read stream_of k s (returns a t) =
      Kept s t
      × (validate_blob_key k ≡ ok tt)
      × ((st : Stream) → view s k ≡ some st → (stream_of a).fault ≡ none → stream_of a ≡ st)
  Read stream_of k s (fails e t) =
      Kept s t
      × ((j : Str) → e ≡ BlobStorageError.not_found j → (j ≡ k) × ((view s k ≡ none) ⊎ Denied k s))

  done-Kept :
      (path : Str) (s t : disk.State) (m : Metadata) → disk.metadata path s ≡ done m t → Kept s t
  done-Kept path s t m e = metadata-Kept debug given disk files law path s (done m t) e

  -- A file that is absent or denied after other metadata was read.
  missing_before :
      (path k : Str) (s t : disk.State) (m : Metadata)
      → disk.metadata path s ≡ done m t
      → (view t k ≡ none) ⊎ Denied k t
      → (view s k ≡ none) ⊎ Denied k s
  missing_before path k s t m e (inl gone) = inl (sym (done-Kept path s t m e k) ∙ gone)
  missing_before path k s t m e (inr out) = inr (Refused.looked path e out)

  Read-after :
      {A : Type 0} (stream_of : A → Stream) (k path : Str) (s t : disk.State) (m : Metadata)
      (o : Outcome disk.State A)
      → disk.metadata path s ≡ done m t
      → Read stream_of k t o
      → Read stream_of k s o
  Read-after stream_of k path s t m (returns a u) h (g, v, c) =
      let same = done-Kept path s t m h in (λ j. g j ∙ same j, v, λ st e. c st (same k ∙ e))
  Read-after stream_of k path s t m (fails e u) h (g, c) = (
    λ j. g j ∙ done-Kept path s t m h j,
    λ j e. ((c j e).0, missing_before path k s t m h (c j e).1),
  )

  Read-failing :
      {A : Type 0} (stream_of : A → Stream) (k : Str) (e : BlobStorageError) (s t : disk.State)
      → Kept s t
      → ((j : Str) → ¬ (e ≡ BlobStorageError.not_found j))
      → Read stream_of k s (fails e t)
  Read-failing stream_of k e s t h n = (h, λ j q. absurd (n j q))

  valid_view :
      (k : Str) (s : disk.State) → validate_blob_key k ≡ ok tt → view s k ≡ as_blob (files s k)
  valid_view k s v = rw v refl

  -- The metadata of a key could not be read.
  unread :
      (k : Str) (s t : disk.State) (x : IoError)
      → validate_blob_key k ≡ ok tt
      → disk.metadata (root ++ k) s ≡ failed x t
      → (view s k ≡ none) ⊎ Denied k s
  unread k s t x v e = elim (kind-cases x.kind) [
    | inl q ↦ inl (valid_view k s v ∙ ap as_blob (law.absent k s t x v e q))
    | inr (inl q) ↦ inr (Refused.refused e (λ h. cc))
    | inr (inr q) ↦ inr (Refused.refused e (λ h. cc))
  ]

  open-Kept :
      (path : Str) (s : disk.State) (r : Answer disk.State Stream)
      → disk.open_file path s ≡ r
      → Kept s (after r)
  open-Kept path s r e j =
      ap (λ (x : Answer disk.State Stream). view (after x) j) (sym e)
      ∙ Keeps-view disk root files s (after (disk.open_file path s)) (law.open_kept path s) j

  same_stream :
      (k : Str) (s t : disk.State) (st found : Stream) (o : Option Bytes)
      → validate_blob_key k ≡ ok tt
      → disk.open_file (root ++ k) s ≡ done st t
      → files s k ≡ o
      → as_blob o ≡ some found
      → st.fault ≡ none
      → st ≡ found
  same_stream k s t st found none v e q g h = cc
  same_stream k s t st found (some bytes) v e q g h =
      let b = law.opened k s t st bytes v e q h in
      let whole : st ≡ cursor bytes = ground (arith, b) in
      let same : cursor bytes ≡ found = cc in whole ∙ same

  opened-Read :
      (k : Str) (s : disk.State)
      → validate_blob_key k ≡ ok tt
      → Read (λ st. st) k s (try_io from_io (disk.open_file (root ++ k) s))
  unfolding from_io
  opened-Read k s v = elim (Answer-cases (disk.open_file (root ++ k) s)) [
    | inr (x, t, e) ↦ rw e (open-Kept (root ++ k) s _ e, λ j h. cc)
    | inl (st, t, e) ↦ rw e (
      open-Kept (root ++ k) s _ e,
      v,
      λ st' g h. same_stream k s t st st' (files s k) v e refl (sym (valid_view k s v) ∙ g) h,
    )
  ]

  located :
      (k : Str) (s : disk.State)
      → validate_blob_key k ≡ ok tt
      → Read
          (λ st. st)
          k
          s
          (continue (path_exists disk (root ++ k) s) (λ there.
            if there then (λ t. try_io from_io (disk.open_file (root ++ k) t)) else λ t.
            fails (BlobStorageError.not_found k) t))
  unfolding path_exists
  located k s v = elim (Answer-cases (disk.metadata (root ++ k) s)) [
    | inl (m, t, e) ↦ rw e (Read-after (λ st. st) k (root ++ k) s t m _ e (opened-Read k t v))
    | inr (x, t, e) ↦ rw e (
      metadata-Kept debug given disk files law (root ++ k) s _ e,
      λ j q. (cc, unread k s t x v e),
    )
  ]

  get-Read : (k : Str) (s : disk.State) → Read (λ st. st) k s (get debug root disk k s)
  unfolding get
  get-Read k s =
      rooted debug given disk files law (Read (λ st. st) k) (Read-after (λ st. st) k)
        (Read-failing (λ st. st) k) s _
        λ t.
          keyed debug given disk files law (Read (λ st. st) k) (Read-after (λ st. st) k)
            (Read-failing (λ st. st) k) k t _ (located k t)

  stated_missing : (k j : Str) (x : IoError) → stat_error k x ≡ BlobStorageError.not_found j → j ≡ k
  stated_missing k j x q = elim (kind-cases x.kind) [
    | inl e ↦ cc (rw e at q)
    | inr (inl e) ↦ cc (rw e at q)
    | inr (inr e) ↦ cc (rw e at q)
  ]

  -- The metadata of a file, and what follows it.
  stated-Read :
      (k : Str) (s : disk.State) (f : BlobMeta → Exec disk.State (BlobMeta × Stream))
      → ((m : BlobMeta) (t : disk.State) → Read reader_of k t (f m t))
      → Read reader_of k s (continue (file_meta debug root disk k s) f)
  unfolding file_meta
  stated-Read k s f h = elim (Result-cases (validate_blob_key k)) [
    | inr (x, v) ↦
        let (m, q) = validate_blob_key-err k x v in
        rw (key_to_path-normalise_root given k, v) (λ j. refl, λ j e. cc)
    | inl (_, v) ↦ elim (Answer-cases (disk.metadata (root ++ k) s)) [
      | inl (m, t, e) ↦
          rw (path_of given k v, e)
            (Read-after reader_of k (root ++ k) s t m _ e (h (meta_of_file k m) t))
      | inr (x, t, e) ↦
          rw (path_of given k v, e)
            (
              metadata-Kept debug given disk files law (root ++ k) s _ e,
              λ j q. (stated_missing k j x q, unread k s t x v e),
            )
    ]
  ]

  with_meta-Read :
      (m : BlobMeta) (k : Str) (s : disk.State) (o : Outcome disk.State Stream)
      → Read (λ st. st) k s o
      → Read reader_of k s (continue o (λ reader t. returns (m, reader) t))
  with_meta-Read m k s (returns st t) h = h
  with_meta-Read m k s (fails e t) h = h

  get_with_metadata-Read :
      (k : Str) (s : disk.State) → Read reader_of k s (get_with_metadata debug root disk k s)
  unfolding get_with_metadata
  get_with_metadata-Read k s =
      rooted debug given disk files law (Read reader_of k) (Read-after reader_of k)
        (Read-failing reader_of k) s _
        λ t. stated-Read k t _ λ m u. with_meta-Read m k u _ (get-Read k u)

  FindsBlob-of :
      {A : Type 0} (stream_of : A → Stream) (read : Str → Exec disk.State A)
      → ((k : Str) (s : disk.State) → Read stream_of k s (read k s))
      → FindsBlob view Denied stream_of read
  FindsBlob-of {A = A} stream_of read h = record {
    keeps = λ k s. kept k s (read k s) (h k s);
    found = λ k s a t e. let r = rw e at (h k s) in (r.1, r.2);
    missing = λ k s j t e. (rw e at (h k s)).1 j refl;
  }
    where
      kept :
          (k : Str) (s : disk.State) (o : Outcome disk.State A)
          → Read stream_of k s o
          → Kept s (final o)
      kept k s (returns a t) h = h.0
      kept k s (fails e t) h = h.0

  -- Over a file system whose calls that read keep their documentation, `get` and
  -- `get_with_metadata` change no blob; where they succeed and there is a blob, they give it, unless
  -- the stream fails; and where they report a key as missing it is the one asked for, and there is
  -- no blob, or the metadata of its path was refused for another reason than that there is nothing.
  pub get-FindsBlob :
      FindsBlob view Denied (λ st. st) (get debug root disk)
      × FindsBlob view Denied reader_of (get_with_metadata debug root disk)
  get-FindsBlob = (
    FindsBlob-of (λ st. st) (get debug root disk) get-Read,
    FindsBlob-of reader_of (get_with_metadata debug root disk) get_with_metadata-Read,
  )

  -- The answer of `exists`.
  abbrev Told : Str → disk.State → Outcome disk.State Bool → Type 0
  Told k s (returns b t) = Kept s t × ((b ≡ is_some (view s k)) ⊎ ((b ≡ false) × Denied k s))
  Told k s (fails e t) = Kept s t

  told_before :
      (path k : Str) (s t : disk.State) (m : Metadata) (b : Bool)
      → disk.metadata path s ≡ done m t
      → (b ≡ is_some (view t k)) ⊎ ((b ≡ false) × Denied k t)
      → (b ≡ is_some (view s k)) ⊎ ((b ≡ false) × Denied k s)
  told_before path k s t m b e (inl h) = inl (h ∙ ap is_some (done-Kept path s t m e k))
  told_before path k s t m b e (inr h) = inr (h.0, Refused.looked path e h.1)

  Told-after :
      (k path : Str) (s t : disk.State) (m : Metadata) (o : Outcome disk.State Bool)
      → disk.metadata path s ≡ done m t
      → Told k t o
      → Told k s o
  Told-after k path s t m (returns b u) h g =
      (λ j. g.0 j ∙ done-Kept path s t m h j, told_before path k s t m b h g.1)
  Told-after k path s t m (fails e u) h g = λ j. g j ∙ done-Kept path s t m h j

  is_some-as_blob : (o : Option Bytes) → is_some (as_blob o) ≡ is_some o
  is_some-as_blob none = refl
  is_some-as_blob (some bytes) = refl

  not_told :
      (k : Str) (s : disk.State)
      → (view s k ≡ none) ⊎ Denied k s
      → (false ≡ is_some (view s k)) ⊎ ((false ≡ false) × Denied k s)
  not_told k s (inl h) = inl (sym (ap is_some h))
  not_told k s (inr h) = inr (refl, h)

  looked_at :
      (k : Str) (s : disk.State)
      → validate_blob_key k ≡ ok tt
      → Told k s (path_is_file disk (root ++ k) s)
  unfolding path_is_file
  looked_at k s v = elim (Answer-cases (disk.metadata (root ++ k) s)) [
    | inl (m, t, e) ↦ rw e (
      metadata-Kept debug given disk files law (root ++ k) s _ e,
      inl (
          law.told k s t m v e ∙ sym (ap is_some (valid_view k s v) ∙ is_some-as_blob (files s k))),
    )
    | inr (x, t, e) ↦ rw e (
      metadata-Kept debug given disk files law (root ++ k) s _ e,
      not_told k s (unread k s t x v e),
    )
  ]

  exists-Told : (k : Str) (s : disk.State) → Told k s (exists debug root disk k s)
  unfolding exists
  exists-Told k s =
      rooted debug given disk files law (Told k) (Told-after k) (λ e s t h n. h) s _
        λ t.
          keyed debug given disk files law (Told k) (Told-after k) (λ e s t h n. h) k t _
            (looked_at k t)

  Told-Kept :
      (k : Str) (s : disk.State) (o : Outcome disk.State Bool) → Told k s o → Kept s (final o)
  Told-Kept k s (returns b t) h = h.0
  Told-Kept k s (fails e t) h = h

  -- Over a file system whose calls that read keep their documentation, `exists` of the file-system
  -- store changes nothing, and an answer says whether there is a blob; only `false` may also mean
  -- that the metadata of its path was refused for another reason than that there is nothing.
  pub exists-TellsBlob : TellsBlob view Denied (exists debug root disk)
  exists-TellsBlob = record {
    keeps = λ k s. Told-Kept k s (exists debug root disk k s) (exists-Told k s);
    tells = λ k s b t e. (rw e at (exists-Told k s)).1;
  }
