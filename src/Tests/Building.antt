-- ===== src/Tests/Building.antt =====
-- A builder with three layers over the store in memory.
use xtax.Base.{text, starts_with, some, [], ◌∷◌, ◌≡◌, ◌↔◌, refl, All}
use xtax.Exec.{ok}
use xtax.Types.{Timestamp}
use xtax.Store.{BlobStore}
use xtax.Store.Contract.{IsLawful}
use xtax.Cleanup.{CleanupPredicate}
use xtax.Builder.{
  BlobStoreBuilder, BackgroundStrategy, LayerKind, new, manual, on_start, periodic, with_prefix,
  with_rekey, with_layer, with_clean_batch_size, push_layer, do_build, shutdown_guard, wrap_all,
  validate_strategies, spawn_tasks,
}
use xtax.Builder.Layers.{layered_view, do_build-IsLawful}
use xtax.Builder.Strategies.{strategies, validate_strategies-iff-All, with_rekey-last}
use xtax.Tests.Memory.{find, memory, memory-IsLawful}
use xtax.Tests.Layers.{mirror, mirror-IsSound, app}

abbrev pub midnight : (inner : BlobStore) → inner.State → Timestamp
midnight inner s = 0

abbrev temporary : CleanupPredicate
temporary key meta = starts_with (text "tmp-") key

abbrev plan : BlobStoreBuilder
plan = record {
  layers =
      LayerKind.encryption mirror (some manual)
      ∷ LayerKind.cleanup temporary 10 (some on_start)
      ∷ LayerKind.prefix app
      ∷ [];
}

plan_valid : validate_strategies plan.layers ≡ ok tt
unfolding validate_strategies
plan_valid = refl

plan_spawned : spawn_tasks (wrap_all midnight plan.layers memory []).1 ≡ ok tt
unfolding spawn_tasks
plan_spawned = refl

do_build-IsLawful_example :
    (do_build midnight (ok memory) plan
      ≡ ok (shutdown_guard (wrap_all midnight plan.layers memory []).0))
    × IsLawful
        (shutdown_guard (wrap_all midnight plan.layers memory []).0)
        (layered_view midnight plan.layers memory [] find)
do_build-IsLawful_example =
    do_build-IsLawful midnight plan memory find memory-IsLawful (mirror-IsSound, (tt, (tt, tt)))
      plan_valid plan_spawned

validate_strategies-iff-All_example :
    (validate_strategies (LayerKind.cleanup temporary 10 (some (periodic 0)) ∷ []) ≡ ok tt)
    ↔ All
        (λ (s : BackgroundStrategy). s.validate ≡ ok tt)
        (strategies (LayerKind.cleanup temporary 10 (some (periodic 0)) ∷ []))
validate_strategies-iff-All_example =
    validate_strategies-iff-All (LayerKind.cleanup temporary 10 (some (periodic 0)) ∷ [])

abbrev same_store : BlobStore → BlobStore
same_store inner = inner

with_rekey-last_example :
    (with_rekey manual (push_layer (LayerKind.encryption mirror (some on_start)) plan)
      ≡ push_layer (LayerKind.encryption mirror (some manual)) plan)
    × (with_rekey manual (push_layer (LayerKind.cleanup temporary 7 (some on_start)) plan)
        ≡ push_layer (LayerKind.cleanup temporary 7 (some on_start)) plan)
    × (with_rekey manual (with_prefix app plan) ≡ with_prefix app plan)
    × (with_rekey manual (with_layer same_store plan) ≡ with_layer same_store plan)
    × (with_rekey manual new ≡ new)
    × (with_clean_batch_size 5 (push_layer (LayerKind.cleanup temporary 7 (some on_start)) plan)
        ≡ push_layer (LayerKind.cleanup temporary 5 (some on_start)) plan)
    × (with_clean_batch_size 5 (push_layer (LayerKind.encryption mirror (some on_start)) plan)
        ≡ push_layer (LayerKind.encryption mirror (some on_start)) plan)
    × (with_clean_batch_size 5 (with_prefix app plan) ≡ with_prefix app plan)
    × (with_clean_batch_size 5 (with_layer same_store plan) ≡ with_layer same_store plan)
    × (with_clean_batch_size 5 new ≡ new)
with_rekey-last_example =
    with_rekey-last plan mirror (some on_start) manual app temporary 7 5 same_store
