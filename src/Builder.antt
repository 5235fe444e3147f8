-- ===== src/Builder.antt =====
-- crates/xtax-blob-storage/src/builder.rs and builder/: layers over a backend, in the order in
-- which they are given, and the maintenance tasks that they bring.
pub mod Layers
pub mod Strategies
pub mod Backend
pub mod RoundTrip
use xtax.Base.{
  ℕ, ◌+◌, ◌%◌, ◌^◌, ◌==◌, Str, text, Option, none, some, List, [], ◌∷◌, ◌++◌, if◌then◌else◌,
}
use xtax.Error.{BlobStorageError}
use xtax.Exec.{Result, ok, err, Outcome, returns, fails, final, Exec, and_then}
use xtax.Types.{Timestamp}
use xtax.Store.{BlobStore}
use xtax.Prefix.{prefix_store}
use xtax.Encrypt.{default_header_suffix}
use xtax.Encrypt.Provider.{EncryptionProvider}
use xtax.Encrypt.Layer.{encrypted_store}
use xtax.Encrypt.Rekey.{rekey}
use xtax.Cleanup
use xtax.Cleanup.{CleanupPredicate, cleanup_store, default_batch_size}

-- What `build` sees of a strategy: its two methods. `schedule` only spawns.
pub record BackgroundStrategy : Type 0 where
  pub schedule : Result (Unit {0})
  pub validate : Result (Unit {0})

abbrev pub on_start : BackgroundStrategy
on_start = record { schedule = ok tt; validate = ok tt }

-- The duration in nanoseconds.
unfoldable pub periodic : ℕ → BackgroundStrategy
periodic duration = record {
  schedule = ok tt;
  validate =
      if duration == 0
      then err (BlobStorageError.invalid_input (text "Periodic duration must be non-zero"))
      else ok tt;
}

abbrev pub manual : BackgroundStrategy
manual = record { schedule = ok tt; validate = ok tt }

-- A provider serves a store with any state.
pub data LayerKind : Type 1 where
  prefix : Str → LayerKind
  encryption : ((S : Type 0) → EncryptionProvider S) → Option BackgroundStrategy → LayerKind
  cleanup : CleanupPredicate → ℕ → Option BackgroundStrategy → LayerKind
  custom : (BlobStore → BlobStore) → LayerKind

-- A task runs on the state of the store that its layer wraps; its result is only logged.
pub record MaintenanceTask : Type 1 where
  pub store : BlobStore
  pub run : store.State → store.State
  pub strategy : BackgroundStrategy

pub record BlobStoreBuilder : Type 1 where
  pub layers : List LayerKind

abbrev pub new : BlobStoreBuilder
new = record { layers = [] }

abbrev pub push_layer : LayerKind → BlobStoreBuilder → BlobStoreBuilder
push_layer layer b = record { layers = b.layers ++ (layer ∷ []) }

-- `layers.last_mut()`: a change of the last layer.
unfoldable pub change_last : (LayerKind → LayerKind) → List LayerKind → List LayerKind
change_last f [] = []
change_last f (layer ∷ []) = f layer ∷ []
change_last f (layer ∷ next ∷ layers) = layer ∷ change_last f (next ∷ layers)

abbrev pub set_rekey : BackgroundStrategy → LayerKind → LayerKind
set_rekey strategy (LayerKind.encryption provider _) = LayerKind.encryption provider (some strategy)
set_rekey strategy other = other

abbrev pub set_batch_size : ℕ → LayerKind → LayerKind
set_batch_size size (LayerKind.cleanup predicate _ strategy) =
    LayerKind.cleanup predicate size strategy
set_batch_size size other = other

unfoldable pub with_prefix : Str → BlobStoreBuilder → BlobStoreBuilder
with_prefix p = push_layer (LayerKind.prefix p)

unfoldable pub with_encryption :
    ((S : Type 0) → EncryptionProvider S) → BlobStoreBuilder → BlobStoreBuilder
with_encryption provider = push_layer (LayerKind.encryption provider none)

unfoldable pub with_rekey : BackgroundStrategy → BlobStoreBuilder → BlobStoreBuilder
with_rekey strategy b = record { layers = change_last (set_rekey strategy) b.layers }

unfoldable pub with_clean :
    CleanupPredicate → BackgroundStrategy → BlobStoreBuilder → BlobStoreBuilder
with_clean predicate strategy =
    push_layer (LayerKind.cleanup predicate default_batch_size (some strategy))

unfoldable pub with_clean_batch_size : ℕ → BlobStoreBuilder → BlobStoreBuilder
with_clean_batch_size size b = record { layers = change_last (set_batch_size size) b.layers }

unfoldable pub with_layer : (BlobStore → BlobStore) → BlobStoreBuilder → BlobStoreBuilder
with_layer f = push_layer (LayerKind.custom f)

unfoldable pub validate_strategies : List LayerKind → Result (Unit {0})
validate_strategies [] = ok tt
validate_strategies (LayerKind.encryption _ (some strategy) ∷ layers) =
    and_then strategy.validate λ _. validate_strategies layers
validate_strategies (LayerKind.cleanup _ _ (some strategy) ∷ layers) =
    and_then strategy.validate λ _. validate_strategies layers
validate_strategies (_ ∷ layers) = validate_strategies layers

-- The store that `build` returns: every method is the inner one.
abbrev pub shutdown_guard : BlobStore → BlobStore
shutdown_guard inner = record {
  State = inner.State;
  put = λ blobs s. inner.put blobs s;
  get = λ key s. inner.get key s;
  delete = λ keys s. inner.delete keys s;
  list = λ filter s. inner.list filter s;
  exists = λ key s. inner.exists key s;
  get_with_metadata = λ key s. inner.get_with_metadata key s;
  visit = λ V filter visitor x. inner.visit V filter visitor x;
  list_with_metadata = λ filter s. inner.list_with_metadata filter s;
}

-- `spawn_tasks`: the strategies are scheduled in order, until one refuses.
unfoldable pub spawn_tasks : List MaintenanceTask → Result (Unit {0})
spawn_tasks [] = ok tt
spawn_tasks (task ∷ tasks) = and_then task.strategy.schedule λ _. spawn_tasks tasks

module _ (now : (inner : BlobStore) → inner.State → Timestamp) where
  abbrev pub wrap : LayerKind → BlobStore → BlobStore × List MaintenanceTask
  wrap (LayerKind.prefix p) inner = (prefix_store inner p, [])
  wrap (LayerKind.encryption provider none) inner =
      (encrypted_store inner (provider inner.State) default_header_suffix, [])
  wrap (LayerKind.encryption provider (some strategy)) inner = (
    encrypted_store inner (provider inner.State) default_header_suffix,
    record {
      store = inner;
      run = λ s. final (rekey inner (provider inner.State) default_header_suffix s);
      strategy = strategy;
    }
        ∷ [],
  )
  wrap (LayerKind.cleanup predicate size none) inner = (cleanup_store inner, [])
  wrap (LayerKind.cleanup predicate size (some strategy)) inner = (
    cleanup_store inner,
    record {
      store = inner;
      run = λ s. final (Cleanup.cleanup inner (now inner) predicate size s);
      strategy = strategy;
    }
        ∷ [],
  )
  wrap (LayerKind.custom f) inner = (f inner, [])

  -- The loop of `do_build`, with the tasks so far.
  abbrev pub wrap_all :
      List LayerKind → BlobStore → List MaintenanceTask → BlobStore × List MaintenanceTask
  wrap_all [] store tasks = (store, tasks)
  wrap_all (layer ∷ layers) store tasks =
      wrap_all layers (wrap layer store).0 (tasks ++ (wrap layer store).1)

  -- `do_build`, with what `build_raw_arc` returns for the backend.
  unfoldable pub do_build : Result BlobStore → BlobStoreBuilder → Result BlobStore
  do_build raw b = and_then (validate_strategies b.layers) λ _. and_then raw λ backend.
      and_then (spawn_tasks (wrap_all b.layers backend []).1)
        λ _. ok (shutdown_guard (wrap_all b.layers backend []).0)
