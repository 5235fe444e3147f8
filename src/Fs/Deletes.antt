-- ===== src/Fs/Deletes.antt =====
-- `delete` of the file-system store against the contract of `BlobStore`.
use xtax.Base.{
  ℕ, Str, Bool, Option, none, List, [], ◌∷◌, ◌++◌, ◌≡◌, refl, sym, ap, ◌∙◌, ◌⊎◌, inl, inr, str_eq,
  str_eq_sound, if◌then◌else◌, All, Bool-cases,
}
use mathlib.Core.List.{append_assoc, append-nil}
use xtax.Error.{BlobStorageError, BatchError, IoError, IoErrorKind}
use xtax.Exec.{ok, Outcome, returns, fails, continue}
use xtax.Types.{Bytes}
use xtax.Store.Contract.{View, validate_all, DeletesView}
use xtax.Store.Batches.{validate_all-cases}
use xtax.Store.Deleted.{
  validate_all-All, Progress, nothing-Progress, add_key-Progress, add_failed-Progress, Deleted,
  report-Deleted, Deleted-DeletesView,
}
use xtax.Validate.{validate_blob_key}
use xtax.Fs.{normalise_root}
use xtax.Fs.Disk.{Disk, done, failed}
use xtax.Fs.Files.{removed, remove_files, finish_delete, delete, add_success, add_failure}
use xtax.Fs.Contents.{Keeps-view, Sets-view, Answer-cases, as_blob, disk_view, Keeps, Removes}
use xtax.Fs.Root.{path_of, Checked, ensure_root-Checked}
use xtax.Fs.Walk.{fs_store}

module _ (debug : Str → Str) (is_utf8 : Str → Bool) (given : Str) (disk : Disk) (fuel : ℕ)
    (files : disk.State → Str → Option Bytes)
    (law : Removes disk (normalise_root given) files) where
  abbrev root : Str
  root = normalise_root given

  abbrev view : disk.State → View
  view = disk_view disk root files

  same_view : (s t : disk.State) → Keeps disk root files s t → (j : Str) → view t j ≡ view s j
  same_view = Keeps-view disk root files

  removed_view :
      (k : Str) (s t : disk.State) (u : Unit {0})
      → validate_blob_key k ≡ ok tt
      → disk.remove_file (root ++ k) s ≡ done u t
      → (j : Str) → view t j ≡ (if str_eq k j then none else view s j)
  removed_view k s t u v e = Sets-view disk root files k none s t v (law.removed k s t u v e)

  missing_view :
      (k : Str) (s t : disk.State) (e : IoError)
      → validate_blob_key k ≡ ok tt
      → disk.remove_file (root ++ k) s ≡ failed e t
      → e.kind ≡ IoErrorKind.not_found
      → (j : Str) → view t j ≡ (if str_eq k j then none else view s j)
  missing_view k s t e v f n j =
      let same = same_view s t (law.remove_failed k s t e f) j in
      elim (Bool-cases (str_eq k j)) [
        | inr r ↦ rw r same
        | inl r ↦ rw r (
            same
            ∙ ap (view s) (sym (str_eq_sound k j r))
            ∙ rw v (ap as_blob (law.remove_missing k s t e v f n)))
      ]

  failed-cases :
      (k : Str) (b : BatchError) (t : disk.State) (kind : IoErrorKind) (d : Str)
      → ((kind ≡ IoErrorKind.not_found)
          × (removed debug root disk k b (failed (record { kind = kind; description = d }) t)
              ≡ returns (add_success debug root disk k b) t))
        ⊎ (removed debug root disk k b (failed (record { kind = kind; description = d }) t)
            ≡ returns (add_failure debug root disk k (record { kind = kind; description = d }) b) t)
  failed-cases k b t IoErrorKind.not_found d = inl (refl, refl)
  failed-cases k b t IoErrorKind.permission_denied d = inr refl
  failed-cases k b t IoErrorKind.other d = inr refl

  -- One more file, removed or not.
  remove_one :
      (k : Str) (s0 : disk.State) (seen : List Str) (b : BatchError) (s : disk.State)
      → validate_blob_key k ≡ ok tt
      → Progress view s0 seen b s
      → (c : BatchError) × (t : disk.State) × (removed debug root disk k b
            (disk.remove_file (root ++ k) s)
          ≡ returns c t)
        × Progress view s0 (seen ++ (k ∷ [])) c t
  remove_one k s0 seen b s v p = elim (Answer-cases (disk.remove_file (root ++ k) s)) [
    | inl (u, t, e) ↦ (
      add_success debug root disk k b,
      t,
      rw e refl,
      add_key-Progress view s0 seen b s t k (removed_view k s t u v e) p,
    )
    | inr (x, t, e) ↦
        let failure =
          add_failed-Progress view s0 seen b s t _ (same_view s t (law.remove_failed k s t x e))
            p in
        elim (failed-cases k b t x.kind x.description) [
          | inl (q, f) ↦ (
            add_success debug root disk k b,
            t,
            rw e f,
            add_key-Progress view s0 seen b s t k (missing_view k s t x v e q) p,
          )
          | inr f ↦ (add_failure debug root disk k x b, t, rw e f, failure)
        ]
  ]

  remove_files-returns :
      (ks : List Str) (s0 : disk.State) (seen : List Str) (b : BatchError) (s : disk.State)
      → All (λ k. validate_blob_key k ≡ ok tt) ks
      → Progress view s0 seen b s
      → (c : BatchError) × (t : disk.State) × (remove_files debug root disk ks b s ≡ returns c t)
        × Progress view s0 (seen ++ ks) c t
  unfolding remove_files
  remove_files-returns [] s0 seen b s v p = (b, s, refl, rw (append-nil seen) p)
  remove_files-returns (k ∷ ks) s0 seen b s v p =
      let (c, t, e, q) = remove_one k s0 seen b s v.0 p in
      let (d, u, f, r) = remove_files-returns ks s0 (seen ++ (k ∷ [])) c t v.1 q in
      (d, u, rw (path_of given k v.0, e, remove_files) f, rw (append_assoc seen (k ∷ []) ks) at r)

  rest-Deleted :
      (ks : List Str) (s : disk.State) (o : Outcome disk.State (Unit {0}))
      → All (λ k. validate_blob_key k ≡ ok tt) ks
      → Checked disk root files s o
      → Deleted view s ks (
          continue o (λ _ t.
            continue
              (remove_files debug root disk ks (record { succeeded = []; errors = [] }) t)
              (finish_delete debug root disk)))
  rest-Deleted ks s (fails e t) v h = (λ b q. absurd (h.0 b q), λ j q. same_view s t h.2 j)
  rest-Deleted ks s (returns u t) v h =
      let (b, x, e, p) =
        remove_files-returns ks s [] _ t v (nothing-Progress view s t (same_view s t h)) in
      rw e (report-Deleted view s ks b x p)

  invalid-Deleted :
      (s : disk.State) (ks : List Str) (m : Str)
      → Deleted view s ks (fails (BlobStorageError.invalid_input m) s)
  invalid-Deleted s ks m = (λ b q. cc, λ j q. refl)

  delete-Deleted :
      (ks : List Str) (s : disk.State) → Deleted view s ks (delete debug root disk ks s)
  unfolding delete validate_all
  delete-Deleted ks s = elim (validate_all-cases ks) [
    | inr (m, e) ↦ rw (e, delete) (invalid-Deleted s ks m)
    | inl (us, e) ↦
        rw (e, delete)
          (rest-Deleted ks s _ (validate_all-All ks us e)
            (ensure_root-Checked debug root disk files law.metadata_kept s))
  ]

  -- Over a file system that keeps its documentation, `delete` of the file-system store keeps the
  -- contract: a deletion that succeeds leaves none of its keys, a batch error says of every key
  -- whether it is gone or failed, and no other key is touched; also where the root is missing or
  -- files cannot be removed.
  pub delete-DeletesView : DeletesView (fs_store debug is_utf8 root disk fuel) view
  delete-DeletesView =
      Deleted-DeletesView (fs_store debug is_utf8 root disk fuel) view delete-Deleted
