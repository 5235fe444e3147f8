-- ===== src/Builder/Layers.antt =====
-- What a built store promises: the contract of `BlobStore` through all its layers.
use xtax.Base.{Option, none, some, List, [], ◌∷◌, ◌≡◌, refl}
use xtax.Exec.{ok}
use xtax.Types.{Timestamp}
use xtax.Store.{BlobStore}
use xtax.Store.Contract.{View, IsLawful}
use xtax.Prefix.Reads.{logical}
use xtax.Prefix.Lawful.{prefix_store-IsLawful}
use xtax.Encrypt.{default_header_suffix}
use xtax.Encrypt.Provider.{IsSound}
use xtax.Encrypt.View.{decrypted}
use xtax.Encrypt.Lawful.{encrypted_store-IsLawful}
use xtax.Builder.{
  LayerKind, MaintenanceTask, BlobStoreBuilder, wrap, wrap_all, shutdown_guard, do_build,
  validate_strategies, spawn_tasks,
}

module _ (now : (inner : BlobStore) → inner.State → Timestamp) where
  -- A layer of the crate; its provider, where it has one, keeps its documentation.
  abbrev pub IsBuiltIn : LayerKind → Type 1
  IsBuiltIn (LayerKind.prefix p) = Unit
  IsBuiltIn (LayerKind.encryption provider strategy) = (S : Type 0) → IsSound (provider S)
  IsBuiltIn (LayerKind.cleanup predicate size strategy) = Unit
  IsBuiltIn (LayerKind.custom f) = Path (Option (Unit {1})) none (some tt)

  abbrev pub AllBuiltIn : List LayerKind → Type 1
  AllBuiltIn [] = Unit
  AllBuiltIn (layer ∷ layers) = IsBuiltIn layer × AllBuiltIn layers

  -- The view of the wrapped store: logical keys, decrypted blobs, or the same. Of a custom layer
  -- nothing is said.
  abbrev pub layer_view :
      (layer : LayerKind) (inner : BlobStore)
      → (inner.State → View)
      → (wrap now layer inner).0.State
      → View
  layer_view (LayerKind.prefix p) inner view = logical p view
  layer_view (LayerKind.encryption provider none) inner view =
      decrypted (provider inner.State) default_header_suffix view
  layer_view (LayerKind.encryption provider (some strategy)) inner view =
      decrypted (provider inner.State) default_header_suffix view
  layer_view (LayerKind.cleanup predicate size none) inner view = view
  layer_view (LayerKind.cleanup predicate size (some strategy)) inner view = view
  layer_view (LayerKind.custom f) inner view = λ s k. none

  abbrev pub layered_view :
      (layers : List LayerKind) (inner : BlobStore) (tasks : List MaintenanceTask)
      → (inner.State → View)
      → (wrap_all now layers inner tasks).0.State
      → View
  layered_view [] inner tasks view = view
  layered_view (layer ∷ layers) inner tasks view =
      layered_view layers (wrap now layer inner).0 _ (layer_view layer inner view)

  wrap-IsLawful :
      (layer : LayerKind) (inner : BlobStore) (view : inner.State → View)
      → IsBuiltIn layer
      → IsLawful inner view
      → IsLawful (wrap now layer inner).0 (layer_view layer inner view)
  wrap-IsLawful (LayerKind.prefix p) inner view h law = prefix_store-IsLawful inner p view law
  wrap-IsLawful (LayerKind.encryption provider none) inner view h law =
      encrypted_store-IsLawful inner (provider inner.State) default_header_suffix view
        (h inner.State) law
  wrap-IsLawful (LayerKind.encryption provider (some strategy)) inner view h law =
      encrypted_store-IsLawful inner (provider inner.State) default_header_suffix view
        (h inner.State) law
  wrap-IsLawful (LayerKind.cleanup predicate size none) inner view h law = law
  wrap-IsLawful (LayerKind.cleanup predicate size (some strategy)) inner view h law = law
  wrap-IsLawful (LayerKind.custom f) inner view h law = cc h

  wrap_all-IsLawful :
      (layers : List LayerKind) (inner : BlobStore) (tasks : List MaintenanceTask)
      (view : inner.State → View)
      → AllBuiltIn layers
      → IsLawful inner view
      → IsLawful (wrap_all now layers inner tasks).0 (layered_view layers inner tasks view)
  wrap_all-IsLawful [] inner tasks view h law = law
  wrap_all-IsLawful (layer ∷ layers) inner tasks view h law =
      wrap_all-IsLawful layers (wrap now layer inner).0 _ (layer_view layer inner view) h.1
        (wrap-IsLawful layer inner view h.0 law)

  -- For a backend that keeps the contract of `BlobStore`, layers of the crate with sound
  -- providers, in any number and order, and strategies that are valid and can be scheduled: the
  -- build succeeds, and the store that it returns keeps the contract, for the view of the backend
  -- seen through the layers.
  pub do_build-IsLawful :
      (b : BlobStoreBuilder) (backend : BlobStore) (view : backend.State → View)
      → IsLawful backend view
      → AllBuiltIn b.layers
      → validate_strategies b.layers ≡ ok tt
      → spawn_tasks (wrap_all now b.layers backend []).1 ≡ ok tt
      → (do_build now (ok backend) b ≡ ok (shutdown_guard (wrap_all now b.layers backend []).0))
        × IsLawful
            (shutdown_guard (wrap_all now b.layers backend []).0)
            (layered_view b.layers backend [] view)
  unfolding do_build
  do_build-IsLawful b backend view law h valid spawned =
      (rw (valid, spawned) refl, wrap_all-IsLawful b.layers backend [] view h law)
