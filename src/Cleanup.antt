-- ===== src/Cleanup.antt =====
-- crates/xtax-blob-storage/src/cleanup.rs and cleanup/visitor.rs: deletion in batches of the blobs
-- that a predicate picks, and the layer that has it.
pub mod Progress
pub mod Correct
pub mod Batches
use xtax.Base.{
  ℕ, ◌+◌, ◌%◌, ◌^◌, leb, Str, Bool, true, Option, none, some, List, [], ◌∷◌, ◌++◌, length, is_empty,
  if◌then◌else◌,
}
use xtax.Exec.{Outcome, returns, fails, Exec, match_outcome, beside, continue, ◌>>=◌}
use xtax.Types.{Timestamp, BlobMeta, CleanupResult, for_key}
use xtax.Filter.{prefix_filter}
use xtax.Store.{BlobStore, BlobVisitor}

abbrev pub default_batch_size : ℕ
default_batch_size = 1000

abbrev pub CleanupPredicate : Type 0
CleanupPredicate = Str → BlobMeta → Bool

-- What `CleanupVisitor` keeps between the keys; its other fields are parameters here.
pub record CleanupVisitor : Type 0 where
  pub batch : List Str
  pub deleted_count : ℕ

-- The batch is deleted and counted. The count is a `u64`, which wraps in a release build.
abbrev pub counted : CleanupVisitor → CleanupVisitor
counted v = record { batch = []; deleted_count = (v.deleted_count + length v.batch) % 2 ^ 64 }

abbrev pub fresh : CleanupVisitor
fresh = record { batch = []; deleted_count = 0 }

-- The answer of `cleanup`, from the visitor as it is at the end.
abbrev pub cleaned :
    {S : Type 0} → Outcome (CleanupVisitor × S) (Unit {0}) → Outcome S CleanupResult
cleaned (returns _ (v, t)) = returns (record { deleted_count = v.deleted_count }) t
cleaned (fails e (v, t)) = fails e t

module _ (inner : BlobStore) where
  unfoldable pub flush : Exec (CleanupVisitor × inner.State) (Unit {0})
  flush (v, s) =
      if is_empty v.batch
      then returns tt (v, s)
      else match_outcome (beside v (inner.delete v.batch s)) (λ _ x. returns tt (counted v, x.1))
          (λ e x. fails e x)

  module _ (now : inner.State → Timestamp) (predicate : CleanupPredicate) (batch_size : ℕ) where
    -- The metadata that the predicate is asked about: a placeholder where the backend gives none.
    abbrev pub meta_or_fallback : Str → Option BlobMeta → inner.State → BlobMeta
    meta_or_fallback key none s = for_key (now s) key
    meta_or_fallback key (some meta) s = meta

    abbrev pub push_key : Str → CleanupVisitor → CleanupVisitor
    push_key key v = record v { batch = v.batch ++ (key ∷ []) }

    -- `CleanupVisitor::visit`.
    unfoldable pub cleanup_visitor : BlobVisitor inner.State CleanupVisitor
    unfolding flush
    cleanup_visitor key meta (v, s) =
        if predicate key (meta_or_fallback key meta s)
        then (if leb batch_size (length (push_key key v).batch)
            then match_outcome (flush (push_key key v, s)) (λ _ x. returns true x)
                (λ e x. fails e x)
            else returns true (push_key key v, s))
        else returns true (v, s)

    unfoldable pub cleanup : Exec inner.State CleanupResult
    unfolding cleanup_visitor flush
    cleanup s = cleaned (
        continue (inner.visit CleanupVisitor (prefix_filter []) cleanup_visitor (fresh, s))
          (λ _. flush))

-- `BlobCleanup`, as a store: every method is the inner one.
abbrev pub cleanup_store : BlobStore → BlobStore
cleanup_store inner = record {
  State = inner.State;
  put = λ blobs s. inner.put blobs s;
  get = λ key s. inner.get key s;
  delete = λ keys s. inner.delete keys s;
  list = λ filter s. inner.list filter s;
  exists = λ key s. inner.exists key s;
  get_with_metadata = λ key s. inner.get_with_metadata key s;
  visit = λ V filter visitor x. inner.visit V filter visitor x;
  list_with_metadata = λ filter s. inner.list_with_metadata filter s;
}
