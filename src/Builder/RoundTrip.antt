-- ===== src/Builder/RoundTrip.antt =====
-- What a built store gives back.
use xtax.Base.{none, some, [], ◌∷◌, ◌≡◌, refl, sym, ◌∙◌, str_eq_refl, arith}
use xtax.Exec.{returns}
use xtax.Types.{Stream, Timestamp, BlobInput, PutResult}
use xtax.Store.{BlobStore}
use xtax.Store.Contract.{View, IsLawful}
use xtax.Builder.{BlobStoreBuilder, wrap_all, shutdown_guard, validate_strategies, spawn_tasks}
use xtax.Builder.Layers.{AllBuiltIn, layered_view, do_build-IsLawful}
use xtax.Exec.{ok}

some_inj : (a b : Stream) → some a ≡ some b → a ≡ b
some_inj a b e = ground arith

written :
    (S : BlobStore) (view : S.State → View) (blob : BlobInput) (s t : S.State) (r : PutResult)
    → IsLawful S view
    → S.put (blob ∷ []) s ≡ returns r t
    → view t blob.key ≡ some blob.content
written S view blob s t r law p =
    law.put.stores (blob ∷ []) s r t p blob.key ∙ rw (str_eq_refl blob.key) refl

-- A store that was built from a backend that keeps the contract and from layers of the crate, in
-- any number and order, with sound providers and valid strategies, gives back what was put: a
-- `get` that succeeds right after a `put` of one blob, and whose stream does not break, returns
-- the stream of the blob.
pub get-put :
    (now : (inner : BlobStore) → inner.State → Timestamp) (b : BlobStoreBuilder)
    (backend : BlobStore) (view : backend.State → View)
    → IsLawful backend view
    → AllBuiltIn now b.layers
    → validate_strategies b.layers ≡ ok tt
    → spawn_tasks (wrap_all now b.layers backend []).1 ≡ ok tt
    → (blob : BlobInput) (s t u : (wrap_all now b.layers backend []).0.State) (r : PutResult)
      (st : Stream)
    → (shutdown_guard (wrap_all now b.layers backend []).0).put (blob ∷ []) s ≡ returns r t
    → (shutdown_guard (wrap_all now b.layers backend []).0).get blob.key t ≡ returns st u
    → st.fault ≡ none
    → st ≡ blob.content
get-put now b backend view law h valid spawned blob s t u r st p g whole =
    let built = (do_build-IsLawful now b backend view law h valid spawned).1 in
    some_inj st blob.content (
      sym ((built.get.found blob.key t st u g).2 whole)
      ∙ written (shutdown_guard (wrap_all now b.layers backend []).0)
          (layered_view now b.layers backend [] view) blob s t r built p)
