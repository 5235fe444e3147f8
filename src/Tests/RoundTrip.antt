-- ===== src/Tests/RoundTrip.antt =====
-- One blob through a build with a prefix over the store in memory.
use xtax.Base.{text, starts_with, ends_with, has_char, split, str_eq, none, [], ◌∷◌, ◌≡◌, refl}
use xtax.Exec.{ok, returns, try_map}
use xtax.Validate.{validate_blob_key, check_components}
use xtax.Store.Contract.{validate_all}
use xtax.Prefix
use xtax.Types.{Stream, BlobInput, PutResult, cursor, multiple, for_key}
use xtax.Builder.{
  BlobStoreBuilder, LayerKind, wrap_all, shutdown_guard, validate_strategies, spawn_tasks,
}
use xtax.Builder.RoundTrip.{get-put}
use xtax.Tests.Memory.{Entries, find, push_all, looked_up, store_all, read, memory, memory-IsLawful}
use xtax.Tests.Layers.{app}
use xtax.Tests.Building.{midnight}

abbrev plan : BlobStoreBuilder
plan = record { layers = LayerKind.prefix app ∷ [] }

abbrev blob : BlobInput
blob = record { key = text "a"; content = cursor (1 ∷ 2 ∷ []); size_hint = none }

valid : validate_strategies plan.layers ≡ ok tt
unfolding validate_strategies
valid = refl

spawned : spawn_tasks (wrap_all midnight plan.layers memory []).1 ≡ ok tt
unfolding spawn_tasks
spawned = refl

put_run :
    (r : PutResult) × (t : Entries) × ((shutdown_guard
          (wrap_all midnight plan.layers memory []).0).put
        (blob ∷ [])
        []
      ≡ returns r t)
unfolding Prefix.put try_map Prefix.prefixed_input Prefix.prefixed validate_blob_key
    check_components text starts_with ends_with has_char split str_eq store_all push_all
    validate_all multiple for_key Prefix.strip_meta
put_run = (_, _, refl)

get_run :
    (st : Stream) × (u : Entries) × ((shutdown_guard
          (wrap_all midnight plan.layers memory []).0).get
        (text "a")
        put_run.1
      ≡ returns st u)
unfolding put_run Prefix.get Prefix.prefixed validate_blob_key check_components text starts_with
    ends_with has_char split str_eq read looked_up find
get_run = (_, _, refl)

get-put_example : get_run.0 ≡ cursor (1 ∷ 2 ∷ [])
unfolding get_run
get-put_example =
    get-put midnight plan memory find memory-IsLawful (tt, tt) valid spawned blob [] put_run.1
      get_run.1 put_run.0 get_run.0 put_run.2 get_run.2 refl
