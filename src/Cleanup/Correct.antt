-- ===== src/Cleanup/Correct.antt =====
-- What `BlobCleanup::cleanup` does to the store, over a backend whose visit goes through blobs with
-- their metadata that were listed before, as S3 does with a listing of one page.
use mathlib.Core.List.{append-nil, append_assoc}
use xtax.Base.{
  ℕ, ◌%◌, ◌^◌, Str, Bool, true, false, none, List, [], ◌∷◌, ◌++◌, length, contains, contains-append,
  ◌≡◌, refl, sym, ap, ◌∙◌, arith, if◌then◌else◌, Bool-cases, inl, inr,
}
use xtax.Exec.{Outcome, returns, fails, final, Exec, continue}
use xtax.Types.{Timestamp, BlobMeta, CleanupResult}
use xtax.Filter.{prefix_filter}
use xtax.Store.{BlobStore, BlobVisitor, go_on}
use xtax.Store.Contract.{visit_entries, View, DeletesView}
use xtax.Cleanup.{CleanupVisitor, CleanupPredicate, flush, cleanup_visitor, cleanup, cleaned, fresh}
use xtax.Cleanup.Progress.{
  picked, Progress, Spared, Flushed, Held, flush-Flushed, cleanup_visitor-Held,
}

picked-append :
    (predicate : CleanupPredicate) (k : Str) (m : BlobMeta) (es : List (Str × BlobMeta))
    → picked predicate ((k, m) ∷ []) ++ picked predicate es ≡ picked predicate ((k, m) ∷ es)
picked-append predicate k m es = elim (Bool-cases (predicate k m)) [
  | inl q ↦ rw q refl
  | inr q ↦ rw q refl
]

module _ (inner : BlobStore) (view : inner.State → View) (law : DeletesView inner view)
    (s0 : inner.State) (now : inner.State → Timestamp) (predicate : CleanupPredicate)
    (batch_size : ℕ) where
  abbrev Run : List Str → Outcome (CleanupVisitor × inner.State) (Unit {0}) → Type 0
  Run seen (returns _ (w, t)) = Progress inner view s0 seen w t
  Run seen (fails _ (w, t)) = Spared inner view s0 seen t

  Spared-append :
      (seen more : List Str) (t : inner.State)
      → Spared inner view s0 seen t
      → Spared inner view s0 (seen ++ more) t
  Spared-append seen more t h j q = h j (ground (arith, contains-append seen more j))

  go_on-Run :
      (seen more : List Str) (o : Outcome (CleanupVisitor × inner.State) Bool)
      (rest : Exec (CleanupVisitor × inner.State) (Unit {0}))
      → Held inner view s0 seen o
      → ((w : CleanupVisitor) (t : inner.State)
          → Progress inner view s0 seen w t
          → Run (seen ++ more) (rest (w, t)))
      → Run (seen ++ more) (go_on o rest)
  go_on-Run seen more (returns true (w, t)) rest h g = g w t h.1
  go_on-Run seen more (returns false (w, t)) rest h g = cc h.0
  go_on-Run seen more (fails e (w, t)) rest h g = Spared-append seen more t h

  visit_entries-Run :
      (es : List (Str × BlobMeta)) (seen : List Str) (v : CleanupVisitor) (s : inner.State)
      → Progress inner view s0 seen v s
      → Run
          (seen ++ picked predicate es)
          (visit_entries (cleanup_visitor inner now predicate batch_size) es (v, s))
  visit_entries-Run [] seen v s p = rw (append-nil seen) p
  visit_entries-Run ((k, m) ∷ es) seen v s p =
      let one = picked predicate ((k, m) ∷ []) in
      rw
        (
          sym (picked-append predicate k m es),
          sym (append_assoc seen (picked predicate ((k, m) ∷ [])) (picked predicate es)),
        )
        (go_on-Run (seen ++ picked predicate ((k, m) ∷ [])) (picked predicate es) _ _
          (cleanup_visitor-Held inner view s0 law now predicate batch_size seen k m v s p)
          (λ w t. visit_entries-Run es (seen ++ picked predicate ((k, m) ∷ [])) w t))

  then_flush :
      (seen : List Str) (o : Outcome (CleanupVisitor × inner.State) (Unit {0}))
      → Run seen o
      → Flushed inner view s0 seen (continue o (λ _. flush inner))
  then_flush seen (returns _ (w, t)) h = flush-Flushed inner view s0 law seen w t h
  then_flush seen (fails e (w, t)) h = h

  -- Before the first key.
  started : Progress inner view s0 [] fresh s0
  unfolding contains
  started = record {
    done = [];
    size = refl;
    members = λ j. refl;
    counts = refl;
    gone = λ j h. cc;
    kept = λ j h. refl;
  }

  -- At the end: the picked keys are gone and counted, and nothing else is touched.
  abbrev Cleaned : List Str → Outcome inner.State CleanupResult → Type 0
  Cleaned ks (returns r t) =
      (r.deleted_count ≡ length ks % 2 ^ 64)
      × ((j : Str) → view t j ≡ (if contains ks j then none else view s0 j))
  Cleaned ks (fails _ t) = Spared inner view s0 ks t

  Progress-view :
      (ks : List Str) (w : CleanupVisitor) (t : inner.State)
      → Progress inner view s0 ks w t
      → w.batch ≡ []
      → (j : Str) → view t j ≡ (if contains ks j then none else view s0 j)
  unfolding contains
  Progress-view ks w t p e j = elim (Bool-cases (contains ks j)) [
    | inl q ↦ rw q (p.gone j (ground (arith, p.members j, ap (λ b. contains b j) e)))
    | inr q ↦ rw q (p.kept j (ground (arith, p.members j)))
  ]

  cleaned-Cleaned :
      (ks : List Str) (o : Outcome (CleanupVisitor × inner.State) (Unit {0}))
      → Flushed inner view s0 ks o
      → Cleaned ks (cleaned o)
  cleaned-Cleaned ks (returns _ (w, u)) h =
      (ground (arith, h.0.counts, h.0.size, ap length h.1), Progress-view ks w u h.0 h.1)
  cleaned-Cleaned ks (fails b (w, u)) h = h

  module _ (es : List (Str × BlobMeta))
      (visits : (w : BlobVisitor inner.State CleanupVisitor) (v : CleanupVisitor)
        → inner.visit CleanupVisitor (prefix_filter []) w (v, s0)
          ≡ visit_entries w es (v, s0)) where
    cleanup-Cleaned : Cleaned (picked predicate es) (cleanup inner now predicate batch_size s0)
    unfolding cleanup
    cleanup-Cleaned = rw (visits (cleanup_visitor inner now predicate batch_size) fresh) (
        cleaned-Cleaned (picked predicate es) _
          (then_flush (picked predicate es) _ (visit_entries-Run es [] fresh s0 started)))

    -- Over a store that keeps the contract of `delete` and whose `visit` goes through the blobs
    -- `es` with their metadata, a cleanup that succeeds has deleted exactly the keys of `es` that
    -- the predicate picks, whatever the batch size: afterwards those keys hold nothing, and every
    -- other key holds what it held.
    pub cleanup-view :
        (r : CleanupResult) (t : inner.State)
        → cleanup inner now predicate batch_size s0 ≡ returns r t
        → (j : Str) → view t j ≡ (if contains (picked predicate es) j then none else view s0 j)
    cleanup-view r t e =
        let h : Cleaned (picked predicate es) (cleanup inner now predicate batch_size s0) =
          cleanup-Cleaned in
        (rw e at h).1

    -- Over a store that keeps the contract of `delete` and whose `visit` goes through the blobs
    -- `es` with their metadata, a cleanup that succeeds reports the number of blobs that the predicate
    -- picks, as a 64-bit number.
    pub cleanup-count :
        (r : CleanupResult) (t : inner.State)
        → cleanup inner now predicate batch_size s0 ≡ returns r t
        → r.deleted_count ≡ length (picked predicate es) % 2 ^ 64
    cleanup-count r t e =
        let h : Cleaned (picked predicate es) (cleanup inner now predicate batch_size s0) =
          cleanup-Cleaned in
        (rw e at h).0

    Cleaned-Spared :
        (ks : List Str) (o : Outcome inner.State CleanupResult)
        → Cleaned ks o
        → Spared inner view s0 ks (final o)
    Cleaned-Spared ks (returns r t) h = λ j q. h.1 j ∙ rw q refl
    Cleaned-Spared ks (fails e t) h = h

    -- Over a store that keeps the contract of `delete` and whose `visit` goes through the blobs
    -- `es` with their metadata, a cleanup never touches a key that the predicate does not pick, also when
    -- a deletion fails on the way.
    pub cleanup-spares :
        (j : Str)
        → contains (picked predicate es) j ≡ false
        → view (final (cleanup inner now predicate batch_size s0)) j ≡ view s0 j
    cleanup-spares = Cleaned-Spared (picked predicate es) _ cleanup-Cleaned
