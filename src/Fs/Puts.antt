-- ===== src/Fs/Puts.antt =====
-- `put` of the file-system store against the contract of `BlobStore`.
use xtax.Base.{
  ℕ, Str, Bool, Option, none, some, List, [], ◌∷◌, ◌++◌, ◌≡◌, refl, sym, ap, ◌∙◌, ◌⊎◌, inl, inr,
  str_eq, str_eq_sound, if◌then◌else◌, All, Bool-cases,
}
use xtax.Error.{BlobStorageError, from_io}
use xtax.Exec.{ok, err, Outcome, returns, fails, Exec, continue, ◌>>=◌, ◌>>◌, pure, try_map}
use xtax.Types.{Bytes, BlobInput, BlobMeta, PutResult, multiple}
use xtax.Store.Batches.{validate_all-cases, try_map-map}
use xtax.Store.Deleted.{validate_all-All}
use xtax.Store.Written.{Written, Batch, first-Batch, Put, finish-Put, Put-PutsView}
use xtax.Store.Contract.{View, write_all_same, keys_of, validate_all, PutsView}
use xtax.Validate.{validate_blob_key}
use xtax.Fs.{normalise_root}
use xtax.Fs.Disk.{Disk, Answer, Metadata, try_io}
use xtax.Fs.Hint.{parent}
use xtax.Fs.Files.{create_parent, put_blob, put_blobs, put, meta_of_file}
use xtax.Fs.Contents.{
  after, Answer-cases, disk_view, Keeps, Sets, Spares, Keeps-view, Sets-view, Spares-view, Writes,
}
use xtax.Fs.Root.{path_of, kept_after, Checked, ensure_root-Checked}
use xtax.Fs.Walk.{fs_store}

module _ (debug : Str → Str) (is_utf8 : Str → Bool) (given : Str) (disk : Disk) (fuel : ℕ)
    (files : disk.State → Str → Option Bytes) (key_of : disk.File → Str)
    (pending : disk.State → disk.File → Bytes)
    (law : Writes disk (normalise_root given) files key_of pending) where
  abbrev root : Str
  root = normalise_root given

  abbrev view : disk.State → View
  view = disk_view disk root files

  abbrev Kept : disk.State → disk.State → Type 0
  Kept = Keeps disk root files

  abbrev Spared : Str → disk.State → disk.State → Type 0
  Spared = Spares disk root files

  Kept-Spared : (k : Str) (s t u : disk.State) → Kept s t → Spared k t u → Spared k s u
  Kept-Spared k s t u h g j v d = g j v d ∙ h j v

  after_same :
      {A : Type 0} (P : disk.State → Type 0) (x r : Answer disk.State A)
      → x ≡ r
      → P (after x)
      → P (after r)
  after_same P x r e h = rw (sym e) h

  parent-cases :
      (o : Option Str) (s : disk.State)
      → (t : disk.State) × Kept s t
        × ((create_parent debug root disk o s ≡ returns tt t)
            ⊎ ((e : BlobStorageError) × (create_parent debug root disk o s ≡ fails e t)))
  parent-cases none s = (s, λ j v. refl, inl refl)
  parent-cases (some dir) s = elim (Answer-cases (disk.create_dir_all dir s)) [
    | inl (u, t, e) ↦ (t, after_same (λ x. Kept s x) _ _ e (law.dirs_kept dir s), inl (rw e refl))
    | inr (x, t, e) ↦
        (t, after_same (λ x. Kept s x) _ _ e (law.dirs_kept dir s), inr (from_io x, rw e refl))
  ]

  -- A file that was created, from the write of its contents on.
  module _ (blob : BlobInput) (valid : validate_blob_key blob.key ≡ ok tt) (s0 : disk.State)
      (file : disk.File) (named : key_of file ≡ blob.key) where
    named_spares : (s t : disk.State) → Spared (key_of file) s t → Spared blob.key s t
    named_spares s t h = rw named at h

    spares_trans :
        (s t u : disk.State) → Spared blob.key s t → Spared blob.key t u → Spared blob.key s u
    spares_trans s t u h g j v d = g j v d ∙ h j v d

    -- The file was set to the bytes of the blob.
    flushed-Sets :
        (t u : disk.State)
        → Spared blob.key s0 u
        → files u (key_of file) ≡ some (pending t file)
        → pending t file ≡ blob.content.bytes
        → Sets disk root files blob.key (some blob.content.bytes) s0 u
    flushed-Sets t u spared full bytes j v = elim (Bool-cases (str_eq blob.key j)) [
      | inr d ↦ rw d (spared j v d)
      | inl r ↦ rw r (ap (files u) (sym (named ∙ str_eq_sound blob.key j r)) ∙ full ∙ ap some bytes)
    ]

    abbrev measured : Metadata → BlobMeta
    measured m = meta_of_file blob.key m

    -- The steps after the creation of the file.
    abbrev filling : Exec disk.State BlobMeta
    filling = do
      λ s. try_io from_io (disk.copy blob.content file s)
      λ s. try_io from_io (disk.flush file s)
      m ← λ s. try_io from_io (disk.metadata (root ++ blob.key) s)
      pure (measured m)

    stored-Written :
        (u : disk.State)
        → blob.content.fault ≡ none
        → Sets disk root files blob.key (some blob.content.bytes) s0 u
        → Written view blob.key blob.content s0 (
            continue (try_io from_io (disk.metadata (root ++ blob.key) u)) (λ m. pure (measured m)))
    stored-Written u whole sets = elim (Answer-cases (disk.metadata (root ++ blob.key) u)) [
      | inr (x, v, e) ↦ rw e λ j d.
          Keeps-view disk root files u v
            (kept_after root disk files law.metadata_kept (root ++ blob.key) u _ e) j
          ∙ Sets-view disk root files blob.key _ s0 u valid sets j
          ∙ rw d refl
      | inl (m, v, e) ↦ rw e (
        refl,
        λ j.
            Keeps-view disk root files u v
              (kept_after root disk files law.metadata_kept (root ++ blob.key) u _ e) j
            ∙ Sets-view disk root files blob.key _ s0 u valid sets j
            ∙ ap
                (λ f.
                  if str_eq blob.key j
                  then some (record { bytes = blob.content.bytes; fault = f })
                  else view s0 j)
                (sym whole),
      )
    ]

    filling-Written :
        (s : disk.State)
        → Spared blob.key s0 s
        → pending s file ≡ []
        → Written view blob.key blob.content s0 (filling s)
    filling-Written s spared empty = elim (Answer-cases (disk.copy blob.content file s)) [
      | inr (x, t, e) ↦
          let g = spares_trans s0 s t spared (
            named_spares s t
              (after_same (Spared (key_of file) s) _ _ e (law.copy_others blob.content file s))) in
          rw e (Spares-view disk root files blob.key s0 t g)
      | inl (w, t, e) ↦
          let g = spares_trans s0 s t spared (
            named_spares s t
              (after_same (Spared (key_of file) s) _ _ e (law.copy_others blob.content file s))) in
          let c = law.copied blob.content file s t w e in
          elim (Answer-cases (disk.flush file t)) [
            | inr (x, u, f) ↦
                let k = spares_trans s0 t u g (
                  named_spares t u
                    (after_same (Spared (key_of file) t) _ _ f (law.flush_others file t))) in
                rw (e, f) (Spares-view disk root files blob.key s0 u k)
            | inl (z, u, f) ↦
                let k = spares_trans s0 t u g (
                  named_spares t u
                    (after_same (Spared (key_of file) t) _ _ f (law.flush_others file t))) in
                let full = law.flushed file t u z (ap validate_blob_key named ∙ valid) f in
                rw (e, f)
                  (stored-Written u c.0
                    (flushed-Sets t u k full (c.1 ∙ ap (λ b. b ++ blob.content.bytes) empty)))
          ]
    ]

  -- One blob with a valid key.
  put_blob-Written :
      (blob : BlobInput) (s : disk.State)
      → validate_blob_key blob.key ≡ ok tt
      → Written view blob.key blob.content s (put_blob debug root disk blob s)
  unfolding put_blob
  put_blob-Written blob s valid =
      let p = path_of given blob.key valid in
      let (t, kept, made) = parent-cases (parent (root ++ blob.key)) s in
      elim made [
        | inr (x, e) ↦ rw (p, e, put_blob) λ j d. Keeps-view disk root files s t kept j
        | inl e ↦ elim (Answer-cases (disk.create (root ++ blob.key) t)) [
          | inr (x, u, f) ↦
              rw (p, e, f, put_blob)
                λ j d.
                  Keeps-view disk root files t u (law.create_failed blob.key t u x f) j
                  ∙ Keeps-view disk root files s t kept j
          | inl (file, u, f) ↦
              let c = law.created blob.key t u file valid f in
              rw (p, e, f, put_blob)
                (filling-Written blob valid s file c.0 u (λ j v d. (rw d at (c.2 j v)) ∙ kept j v)
                  c.1)
        ]
      ]

  put_blobs-Batch :
      (bs : List BlobInput) (s : disk.State)
      → All (λ k. validate_blob_key k ≡ ok tt) (keys_of bs)
      → Batch view bs s (put_blobs debug root disk bs s)
  unfolding put_blobs
  put_blobs-Batch [] s valid = (refl, λ j. refl)
  put_blobs-Batch (b ∷ bs) s valid =
      first-Batch view b bs s (put_blob debug root disk b s) _ (put_blob-Written b s valid.0)
        (λ t. put_blobs-Batch bs t valid.1)

  Batch_after :
      (bs : List BlobInput) (s t : disk.State) (o : Outcome disk.State PutResult)
      → Kept s t
      → Put view bs t o
      → Put view bs s o
  Batch_after bs s t (returns r u) h p =
      (p.0, λ j. p.1 j ∙ write_all_same bs _ _ j (Keeps-view disk root files s t h))
  Batch_after bs s t (fails e u) h p = λ j q. p j q ∙ Keeps-view disk root files s t h j

  rooted-Put :
      (bs : List BlobInput) (s : disk.State) (o : Outcome disk.State (Unit {0}))
      → All (λ k. validate_blob_key k ≡ ok tt) (keys_of bs)
      → Checked disk root files s o
      → Put view bs s (
          continue o
            (λ _ t. continue (put_blobs debug root disk bs t) (λ metas. pure (multiple metas))))
  rooted-Put bs s (fails e t) valid h = λ j q. Keeps-view disk root files s t h.2 j
  rooted-Put bs s (returns u t) valid h =
      Batch_after bs s t _ h (finish-Put view bs t _ (put_blobs-Batch bs t valid))

  same_validation :
      (bs : List BlobInput)
      → try_map (λ (b : BlobInput). validate_blob_key b.key) bs ≡ validate_all (keys_of bs)
  unfolding validate_all
  same_validation bs = try_map-map validate_blob_key (λ (b : BlobInput). b.key) bs

  put-split :
      (bs : List BlobInput) (s : disk.State)
      → ((us : List (Unit {0})) × (validate_all (keys_of bs) ≡ ok us)
          × Put view bs s (put debug root disk bs s))
        ⊎ ((m : Str) × (validate_all (keys_of bs) ≡ err (BlobStorageError.invalid_input m))
            × (put debug root disk bs s ≡ fails (BlobStorageError.invalid_input m) s))
  unfolding put
  put-split bs s = elim (validate_all-cases (keys_of bs)) [
    | inr (m, e) ↦ inr (m, e, rw (same_validation bs ∙ e, put) refl)
    | inl (us, e) ↦ inl (
      us,
      e,
      rw (same_validation bs ∙ e, put)
          (rooted-Put bs s _ (validate_all-All (keys_of bs) us e)
            (ensure_root-Checked debug root disk files law.metadata_kept s)),
    )
  ]

  -- Over a file system that keeps its documentation, `put` of the file-system store keeps the
  -- contract: a batch that succeeds is written in order and reported key by key, one with an
  -- invalid key changes nothing, and no other key is touched, whichever call fails on the way.
  pub put-PutsView : PutsView (fs_store debug is_utf8 root disk fuel) view
  put-PutsView = Put-PutsView (fs_store debug is_utf8 root disk fuel) view put-split
