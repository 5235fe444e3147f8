-- ===== src/Cleanup/Batches.antt =====
-- How much a cleanup deletes at a time.
use xtax.Base.{
  ℕ, ◌<◌, ◌≤◌, max, leb, Str, Bool, true, false, some, List, [], ◌∷◌, ◌++◌, length, length-append,
  is_empty, ◌≡◌, refl, ap, ◌∙◌, arith, Bool-cases, inl, inr,
}
use xtax.Exec.{Outcome, returns, fails, Exec, continue, beside, match_outcome}
use xtax.Types.{Timestamp, BlobMeta}
use xtax.Filter.{prefix_filter}
use xtax.Store.{BlobStore, BlobVisitor, go_on}
use xtax.Store.Contract.{visit_entries}
use xtax.Cleanup.{
  CleanupVisitor, CleanupPredicate, counted, flush, cleanup_visitor, cleanup, cleaned, fresh,
  push_key,
}

module _ (inner : BlobStore) (now : inner.State → Timestamp) (predicate : CleanupPredicate)
    (batch_size : ℕ) (delete : List Str → Exec inner.State (Unit {0}))
    (same : (ks : List Str) (s : inner.State)
      → 0 < length ks
      → length ks ≤ max 1 batch_size
      → delete ks s ≡ inner.delete ks s) where
  -- The same store but for other deletions.
  abbrev other : BlobStore
  other = record inner { delete = λ ks s. delete ks s }

  abbrev IsSmall : CleanupVisitor → Type 0
  IsSmall v = length v.batch < max 1 batch_size

  abbrev LeavesSmall : {A : Type 0} → Outcome (CleanupVisitor × inner.State) A → Type 0
  LeavesSmall (returns a x) = IsSmall x.0
  LeavesSmall (fails e x) = Unit

  empty_or : (ks : List Str) → is_empty ks ≡ false → 0 < length ks
  empty_or [] h = cc
  empty_or (k ∷ ks) h = omega arith

  flush_same :
      (v : CleanupVisitor) (s : inner.State)
      → length v.batch ≤ max 1 batch_size
      → flush other (v, s) ≡ flush inner (v, s)
  unfolding flush
  flush_same v s h = elim (Bool-cases (is_empty v.batch)) [
    | inl e ↦ rw e refl
    | inr e ↦ rw (e, same v.batch s (empty_or v.batch e) h) refl
  ]

  no_keys-IsSmall : (v : CleanupVisitor) → is_empty v.batch ≡ true → IsSmall v
  no_keys-IsSmall v e = nothing v.batch e
    where
      nothing : (ks : List Str) → is_empty ks ≡ true → length ks < max 1 batch_size
      nothing [] h = omega arith
      nothing (k ∷ ks) h = cc

  deleted-LeavesSmall :
      (v : CleanupVisitor) (o : Outcome inner.State (Unit {0}))
      → LeavesSmall (
          match_outcome {B = Unit {0}}
            (beside v o)
            (λ _ x. returns tt (counted v, x.1))
            (λ e x. fails e x))
  deleted-LeavesSmall v (returns _ t) = omega arith
  deleted-LeavesSmall v (fails e t) = tt

  flush-LeavesSmall : (v : CleanupVisitor) (s : inner.State) → LeavesSmall (flush inner (v, s))
  unfolding flush
  flush-LeavesSmall v s = elim (Bool-cases (is_empty v.batch)) [
    | inl e ↦ rw e (no_keys-IsSmall v e)
    | inr e ↦ rw e (deleted-LeavesSmall v (inner.delete v.batch s))
  ]

  answered-LeavesSmall :
      (o : Outcome (CleanupVisitor × inner.State) (Unit {0}))
      → LeavesSmall o
      → LeavesSmall (match_outcome o (λ _ x. returns true x) (λ e x. fails e x))
  answered-LeavesSmall (returns _ x) h = h
  answered-LeavesSmall (fails e x) h = tt

  visitor_same :
      (v : CleanupVisitor) (s : inner.State) (k : Str) (m : BlobMeta)
      → IsSmall v
      → cleanup_visitor other now predicate batch_size k (some m) (v, s)
        ≡ cleanup_visitor inner now predicate batch_size k (some m) (v, s)
  unfolding cleanup_visitor
  visitor_same v s k m h =
      rw
        (flush_same (push_key inner now predicate batch_size k v) s
          (omega (arith, length-append v.batch (k ∷ []), h)))
        refl

  visitor-LeavesSmall :
      (v : CleanupVisitor) (s : inner.State) (k : Str) (m : BlobMeta)
      → IsSmall v
      → LeavesSmall (cleanup_visitor inner now predicate batch_size k (some m) (v, s))
  unfolding cleanup_visitor
  visitor-LeavesSmall v s k m h = elim (Bool-cases (predicate k m)) [
    | inr q ↦ rw q h
    | inl q ↦ elim (Bool-cases (leb batch_size (length (v.batch ++ (k ∷ []))))) [
      | inl full ↦
          rw (q, full)
            (answered-LeavesSmall (flush inner (push_key inner now predicate batch_size k v, s))
              (flush-LeavesSmall (push_key inner now predicate batch_size k v) s))
      | inr room ↦ rw (q, room) (ground arith)
    ]
  ]

  -- The keys of a visit, one after the other.
  go_on_same :
      (o : Outcome (CleanupVisitor × inner.State) Bool)
      (f g : Exec (CleanupVisitor × inner.State) (Unit {0}))
      → LeavesSmall o
      → ((v : CleanupVisitor) (s : inner.State) → IsSmall v → f (v, s) ≡ g (v, s))
      → go_on o f ≡ go_on o g
  go_on_same (returns true x) f g h q = q x.0 x.1 h
  go_on_same (returns false x) f g h q = refl
  go_on_same (fails e x) f g h q = refl

  go_on-LeavesSmall :
      (o : Outcome (CleanupVisitor × inner.State) Bool)
      (f : Exec (CleanupVisitor × inner.State) (Unit {0}))
      → LeavesSmall o
      → ((v : CleanupVisitor) (s : inner.State) → IsSmall v → LeavesSmall (f (v, s)))
      → LeavesSmall (go_on o f)
  go_on-LeavesSmall (returns true x) f h q = q x.0 x.1 h
  go_on-LeavesSmall (returns false x) f h q = h
  go_on-LeavesSmall (fails e x) f h q = tt

  abbrev visitor : BlobVisitor inner.State CleanupVisitor
  visitor = cleanup_visitor inner now predicate batch_size

  visits_same :
      (es : List (Str × BlobMeta)) (v : CleanupVisitor) (s : inner.State)
      → IsSmall v
      → visit_entries (cleanup_visitor other now predicate batch_size) es (v, s)
        ≡ visit_entries visitor es (v, s)
  visits_same [] v s h = refl
  visits_same ((k, m) ∷ es) v s h =
      ap (λ o. go_on o (visit_entries (cleanup_visitor other now predicate batch_size) es))
        (visitor_same v s k m h)
      ∙ go_on_same (visitor k (some m) (v, s)) _ _ (visitor-LeavesSmall v s k m h)
          (λ w t. visits_same es w t)

  visits-LeavesSmall :
      (es : List (Str × BlobMeta)) (v : CleanupVisitor) (s : inner.State)
      → IsSmall v
      → LeavesSmall (visit_entries visitor es (v, s))
  visits-LeavesSmall [] v s h = h
  visits-LeavesSmall ((k, m) ∷ es) v s h =
      go_on-LeavesSmall (visitor k (some m) (v, s)) _ (visitor-LeavesSmall v s k m h)
        (λ w t. visits-LeavesSmall es w t)

  then_flush_same :
      (o : Outcome (CleanupVisitor × inner.State) (Unit {0}))
      → LeavesSmall o
      → continue o (λ _. flush other) ≡ continue o (λ _. flush inner)
  then_flush_same (returns _ x) h = flush_same x.0 x.1 (omega (arith, h))
  then_flush_same (fails e x) h = refl

  -- Over a store whose `visit` goes through the blobs `es` with their metadata, a cleanup asks only
  -- for deletions of at least one key and at most `batch_size` keys (one, where that is zero): it
  -- does the same over a store that differs in the other deletions.
  pub cleanup_same :
      (es : List (Str × BlobMeta)) (s : inner.State)
      → ((w : BlobVisitor inner.State CleanupVisitor) (v : CleanupVisitor)
          → inner.visit CleanupVisitor (prefix_filter []) w (v, s) ≡ visit_entries w es (v, s))
      → cleanup other now predicate batch_size s ≡ cleanup inner now predicate batch_size s
  unfolding cleanup
  cleanup_same es s visits =
      rw
        (
          visits visitor fresh,
          visits (cleanup_visitor other now predicate batch_size) fresh,
          visits_same es fresh s (omega arith),
        )
        (ap cleaned (
          then_flush_same (visit_entries visitor es (fresh, s))
            (visits-LeavesSmall es fresh s (omega arith))))
