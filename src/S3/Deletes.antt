-- ===== src/S3/Deletes.antt =====
-- `delete` of the S3 backend against the contract of `BlobStore`.
use mathlib.Core.List.{append-nil, append_assoc}
use xtax.Base.{
  text, ℕ, Str, true, false, Option, none, List, [], ◌∷◌, ◌++◌, concat, chunks, concat-chunks,
  length, ◌≡◌, refl, sym, ap, ◌∙◌, arith, ◌⊎◌, inl, inr, contains, contains-append, is_empty,
  Bool-cases,
}
use xtax.Error.{BlobStorageError, KeyError, BatchError}
use xtax.Exec.{Outcome, returns, fails, final, Exec, continue}
use xtax.Types.{Bytes, Timestamp}
use xtax.Store.Batches.{validate_all-cases}
use xtax.Store.Contract.{View, failed_keys, validate_all, DeletesView}
use xtax.S3.{
  Client, Reply, answered, reply_state, request_error, is_misconfigured, DeleteObjectsOutput,
}
use xtax.S3.Deletion.{
  add_response, nothing_yet, delete_chunks, finish_delete, delete, delete_batch_size,
}
use xtax.S3.Service.{Part, Deletes, bucket_view, as_stream}
use xtax.S3.Upload.{Reply-cases}
use xtax.S3.Tally.{IsKnown, add_response-IsKnown, add_response-succeeded}
use xtax.S3.Store.{s3_store}

batch_inj : (b c : BatchError) → BlobStorageError.batch b ≡ BlobStorageError.batch c → b ≡ c
batch_inj b c h = ground arith

module _ (bucket : Str) (part_size fuel : ℕ) (client : Client) (now : client.State → Timestamp)
    (objects : client.State → Str → Option Bytes) (parts : client.State → Str → List Part)
    (law : Deletes client objects parts) where
  -- After the batches `seen`: what is known of their keys is true, and no other key is touched.
  record Progress (s0 : client.State) (seen : List Str) (b : BatchError) (s : client.State)
      : Type 0 where
    known : (j : Str) → contains seen j ≡ true → IsKnown b j
    gone :
        (j : Str) → contains b.succeeded j ≡ true → (contains seen j ≡ true) × (objects s j ≡ none)
    others : (j : Str) → contains seen j ≡ false → objects s j ≡ objects s0 j

  kept_others :
      (ks : List Str) (s : client.State) (r : Reply client.State DeleteObjectsOutput)
      → client.delete_objects ks s ≡ r
      → (j : Str) → contains ks j ≡ false
      → objects (reply_state r) j ≡ objects s j
  kept_others ks s r e j h =
      ap (λ (x : Reply client.State DeleteObjectsOutput). objects (reply_state x) j) (sym e)
      ∙ law.delete_others ks s j h

  still_none :
      (ks : List Str) (s : client.State) (r : Reply client.State DeleteObjectsOutput)
      → client.delete_objects ks s ≡ r
      → (j : Str) → objects s j ≡ none
      → objects (reply_state r) j ≡ none
  still_none ks s r e j h =
      ap (λ (x : Reply client.State DeleteObjectsOutput). objects (reply_state x) j) (sym e)
      ∙ law.delete_none ks s j h

  response-Progress :
      (s0 : client.State) (seen : List Str) (b : BatchError) (s t : client.State) (chunk : List Str)
      (r : DeleteObjectsOutput)
      → client.delete_objects chunk s ≡ answered r t
      → Progress s0 seen b s
      → Progress s0 (seen ++ chunk) (add_response r b) t
  response-Progress s0 seen b s t chunk r e p = record {
    known = λ j h. add_response-IsKnown r b j (elim (Bool-cases (contains seen j)) [
      | inl q ↦ inl (p.known j q)
      | inr q ↦ inr (law.reported chunk s t r e j (ground (arith, contains-append seen chunk j)))
    ]);
    gone = λ j h. elim (add_response-succeeded r b j h) [
      | inl q ↦
          let g = p.gone j q in
          (ground (arith, contains-append seen chunk j, g.0), still_none chunk s _ e j g.1)
      | inr (inl q) ↦
          let g = law.deleted_gone chunk s t r e j q in
          (ground (arith, contains-append seen chunk j, g.0), g.1)
      | inr (inr q) ↦
          let g = law.missing_gone chunk s t r e j q in
          (ground (arith, contains-append seen chunk j, g.0), g.1)
    ];
    others = λ j h.
        kept_others chunk s _ e j (ground (arith, contains-append seen chunk j))
        ∙ p.others j (ground (arith, contains-append seen chunk j));
  }

  -- However the loop ends, only keys of its batches are touched.
  abbrev Ends : client.State → List Str → Outcome client.State BatchError → Type 0
  Ends s0 ks (returns b t) = Progress s0 ks b t
  Ends s0 ks (fails e t) =
      ((b : BatchError) → ¬ (e ≡ BlobStorageError.batch b))
      × ((j : Str) → contains ks j ≡ false → objects t j ≡ objects s0 j)

  not_batch :
      (m : Str) (c : Option Str) (b : BatchError)
      → ¬ (request_error bucket m c ≡ BlobStorageError.batch b)
  unfolding request_error
  not_batch m c b h = elim (Bool-cases (is_misconfigured c)) [
    | inl q ↦ cc (rw q at h)
    | inr q ↦ cc (rw q at h)
  ]

  delete_chunks-Ends :
      (cs : List (List Str)) (s0 : client.State) (seen : List Str) (b : BatchError)
      (s : client.State)
      → Progress s0 seen b s
      → Ends s0 (seen ++ concat cs) (delete_chunks bucket client cs b s)
  unfolding delete_chunks
  delete_chunks-Ends [] s0 seen b s p = rw (append-nil seen) p
  delete_chunks-Ends (chunk ∷ cs) s0 seen b s p =
      elim (Reply-cases (client.delete_objects chunk s)) [
        | inl (r, t, e) ↦
            rw (e, delete_chunks, sym (append_assoc seen chunk (concat cs)))
              (delete_chunks-Ends cs s0 (seen ++ chunk) (add_response r b) t
                (response-Progress s0 seen b s t chunk r e p))
        | inr (c, t, e) ↦
            rw (e, delete_chunks)
              (
                not_batch (text "S3 batch delete failed") c,
                λ j h.
                    let in_seen = contains-append seen (chunk ++ concat cs) j in
                    let in_chunk = contains-append chunk (concat cs) j in
                    kept_others chunk s _ e j (ground (arith, in_seen, in_chunk))
                    ∙ p.others j (ground (arith, in_seen)),
              )
      ]

  -- What is true of the keys when the deletion ends.
  abbrev Deleted : client.State → List Str → Outcome client.State (Unit {0}) → Type 0
  Deleted s0 ks (returns _ t) =
      ((j : Str) → contains ks j ≡ true → objects t j ≡ none)
      × ((j : Str) → contains ks j ≡ false → objects t j ≡ objects s0 j)
  Deleted s0 ks (fails e t) =
      ((b : BatchError) → e ≡ BlobStorageError.batch b → Progress s0 ks b t)
      × ((j : Str) → contains ks j ≡ false → objects t j ≡ objects s0 j)

  no_failures :
      (es : List KeyError) (j : Str) → is_empty es ≡ true → contains (failed_keys es) j ≡ false
  unfolding contains
  no_failures [] j h = refl
  no_failures (e ∷ es) j h = cc

  all_gone :
      (s0 : client.State) (ks : List Str) (b : BatchError) (t : client.State)
      → is_empty b.errors ≡ true
      → Progress s0 ks b t
      → (j : Str) → contains ks j ≡ true
      → objects t j ≡ none
  all_gone s0 ks b t q p j h = elim (p.known j h) [
    | inl g ↦ (p.gone j g).1
    | inr f ↦ cc (f, no_failures b.errors j q)
  ]

  finish-Deleted :
      (s0 : client.State) (ks : List Str) (o : Outcome client.State BatchError)
      → Ends s0 ks o
      → Deleted s0 ks (continue o (finish_delete bucket client))
  finish-Deleted s0 ks (fails e t) h = (λ b q. absurd (h.0 b q), h.1)
  finish-Deleted s0 ks (returns b t) h = elim (Bool-cases (is_empty b.errors)) [
    | inl q ↦ rw q (all_gone s0 ks b t q h, h.others)
    | inr q ↦ rw q (λ b' e. rw (batch_inj b b' e) at h, h.others)
  ]

  nothing-Progress : (s : client.State) → Progress s [] nothing_yet s
  unfolding contains
  nothing-Progress s = record { known = λ j h. cc; gone = λ j h. cc; others = λ j h. refl }

  abbrev s3_delete : List Str → Exec client.State (Unit {0})
  s3_delete = delete bucket client

  -- The keys are refused before anything is sent, or sent batch by batch.
  delete-cases :
      (ks : List Str) (s : client.State)
      → Deleted s ks (s3_delete ks s)
        ⊎ ((m : Str) × (s3_delete ks s ≡ fails (BlobStorageError.invalid_input m) s))
  unfolding delete validate_all
  delete-cases ks s = elim (validate_all-cases ks) [
    | inr (m, e) ↦ inr (m, rw (e, delete) refl)
    | inl (us, e) ↦ inl (
        rw (e, delete)
          (finish-Deleted s ks _ (
            rw (concat-chunks delete_batch_size (length ks) ks (omega arith) (omega arith)) at (
              delete_chunks-Ends (chunks delete_batch_size (length ks) ks) s [] nothing_yet s
                (nothing-Progress s)))))
  ]

  abbrev view : client.State → View
  view = bucket_view client objects parts

  Deleted-others :
      (s : client.State) (ks : List Str) (o : Outcome client.State (Unit {0}))
      → Deleted s ks o
      → (j : Str) → contains ks j ≡ false
      → view (final o) j ≡ view s j
  Deleted-others s ks (returns _ t) h j q = ap as_stream (h.1 j q)
  Deleted-others s ks (fails e t) h j q = ap as_stream (h.1 j q)

  batch-Progress :
      (ks : List Str) (s t : client.State) (b : BatchError)
      → s3_delete ks s ≡ fails (BlobStorageError.batch b) t
      → Progress s ks b t
  batch-Progress ks s t b q = elim (delete-cases ks s) [
    | inl h ↦ (rw q at h).0 b refl
    | inr (m, e) ↦ cc (e, q)
  ]

  -- `delete` of the S3 backend keeps the contract, over any number of batches: what it reports of
  -- each key is true, and no other key is touched.
  pub delete-DeletesView : DeletesView (s3_store bucket part_size fuel client now) view
  delete-DeletesView = record {
    gone = λ ks s t q j h. elim (delete-cases ks s) [
      | inl d ↦ ap as_stream ((rw q at d).0 j h)
      | inr (m, e) ↦ cc (e, q)
    ];
    succeeded_gone =
        λ ks s t b q j h. let g = (batch-Progress ks s t b q).gone j h in (g.0, ap as_stream g.1);
    accounted = λ ks s t b q j h. (batch-Progress ks s t b q).known j h;
    others = λ ks s j h. elim (delete-cases ks s) [
      | inl d ↦ Deleted-others s ks _ d j h
      | inr (m, e) ↦ ap (λ o. view (final o) j) e
    ];
  }
