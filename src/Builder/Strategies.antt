-- ===== src/Builder/Strategies.antt =====
-- What the builder does with the strategies of its layers.
use xtax.Store.{BlobStore}
use xtax.Base.{ℕ, Str, Option, none, some, List, [], ◌∷◌, ◌++◌, All, ◌≡◌, ◌↔◌, refl, ap}
use xtax.Exec.{Result, ok, err, and_then}
use xtax.Encrypt.Provider.{EncryptionProvider}
use xtax.Cleanup.{CleanupPredicate}
use xtax.Builder.{
  LayerKind, BackgroundStrategy, BlobStoreBuilder, push_layer, change_last, set_rekey,
  set_batch_size, with_prefix, with_rekey, with_layer, new, with_clean_batch_size,
  validate_strategies,
}

-- The strategies that the layers hold, in order.
abbrev pub strategies : List LayerKind → List BackgroundStrategy
strategies [] = []
strategies (LayerKind.encryption _ (some strategy) ∷ layers) = strategy ∷ strategies layers
strategies (LayerKind.cleanup _ _ (some strategy) ∷ layers) = strategy ∷ strategies layers
strategies (_ ∷ layers) = strategies layers

validated : (r s : Result (Unit {0})) → and_then r (λ _. s) ≡ ok tt → (r ≡ ok tt) × (s ≡ ok tt)
validated (ok _) s h = (refl, h)
validated (err e) s h = cc

All-valid :
    (layers : List LayerKind)
    → validate_strategies layers ≡ ok tt
    → All (λ (s : BackgroundStrategy). s.validate ≡ ok tt) (strategies layers)
unfolding validate_strategies
All-valid [] h = tt
All-valid (LayerKind.encryption p (some strategy) ∷ layers) h =
    let v = validated strategy.validate (validate_strategies layers) h in
    (v.0, All-valid layers v.1)
All-valid (LayerKind.cleanup p n (some strategy) ∷ layers) h =
    let v = validated strategy.validate (validate_strategies layers) h in
    (v.0, All-valid layers v.1)
All-valid (LayerKind.encryption p none ∷ layers) h = All-valid layers h
All-valid (LayerKind.cleanup p n none ∷ layers) h = All-valid layers h
All-valid (LayerKind.prefix p ∷ layers) h = All-valid layers h
All-valid (LayerKind.custom f ∷ layers) h = All-valid layers h

valid-All :
    (layers : List LayerKind)
    → All (λ (s : BackgroundStrategy). s.validate ≡ ok tt) (strategies layers)
    → validate_strategies layers ≡ ok tt
unfolding validate_strategies
valid-All [] h = refl
valid-All (LayerKind.encryption p (some strategy) ∷ layers) h = rw h.0 (valid-All layers h.1)
valid-All (LayerKind.cleanup p n (some strategy) ∷ layers) h = rw h.0 (valid-All layers h.1)
valid-All (LayerKind.encryption p none ∷ layers) h = valid-All layers h
valid-All (LayerKind.cleanup p n none ∷ layers) h = valid-All layers h
valid-All (LayerKind.prefix p ∷ layers) h = valid-All layers h
valid-All (LayerKind.custom f ∷ layers) h = valid-All layers h

-- The validation of a builder accepts exactly the layers of which every strategy, of rekeying or
-- of cleanup, accepts its own configuration.
pub validate_strategies-iff-All :
    (layers : List LayerKind)
    → (validate_strategies layers ≡ ok tt)
      ↔ All (λ (s : BackgroundStrategy). s.validate ≡ ok tt) (strategies layers)
validate_strategies-iff-All layers = (All-valid layers, valid-All layers)

abbrev layered : List LayerKind → BlobStoreBuilder
layered ls = record { layers = ls }

change_last-append :
    (f : LayerKind → LayerKind) (ls : List LayerKind) (l : LayerKind)
    → change_last f (ls ++ (l ∷ [])) ≡ ls ++ (f l ∷ [])
unfolding change_last
change_last-append f [] l = refl
change_last-append f (k ∷ []) l = refl
change_last-append f (k ∷ j ∷ ls) l = ap (λ r. k ∷ r) (change_last-append f (j ∷ ls) l)

-- `with_rekey` gives its strategy to the layer just added where that is an encryption layer,
-- whatever strategy it had, and changes nothing where it is a cleanup, a prefix or a custom layer,
-- or where there is none; `with_clean_batch_size` gives its size to the layer just added where that
-- is a cleanup layer, and changes nothing where it is an encryption, a prefix or a custom layer, or
-- where there is none. The layers before it are never touched.
pub with_rekey-last :
    (b : BlobStoreBuilder) (provider : (S : Type 0) → EncryptionProvider S)
    (old : Option BackgroundStrategy) (strategy : BackgroundStrategy) (p : Str)
    (predicate : CleanupPredicate) (n size : ℕ) (f : BlobStore → BlobStore)
    → (with_rekey strategy (push_layer (LayerKind.encryption provider old) b)
        ≡ push_layer (LayerKind.encryption provider (some strategy)) b)
      × (with_rekey strategy (push_layer (LayerKind.cleanup predicate n old) b)
          ≡ push_layer (LayerKind.cleanup predicate n old) b)
      × (with_rekey strategy (with_prefix p b) ≡ with_prefix p b)
      × (with_rekey strategy (with_layer f b) ≡ with_layer f b)
      × (with_rekey strategy new ≡ new)
      × (with_clean_batch_size size (push_layer (LayerKind.cleanup predicate n old) b)
          ≡ push_layer (LayerKind.cleanup predicate size old) b)
      × (with_clean_batch_size size (push_layer (LayerKind.encryption provider old) b)
          ≡ push_layer (LayerKind.encryption provider old) b)
      × (with_clean_batch_size size (with_prefix p b) ≡ with_prefix p b)
      × (with_clean_batch_size size (with_layer f b) ≡ with_layer f b)
      × (with_clean_batch_size size new ≡ new)
unfolding with_rekey with_prefix with_clean_batch_size with_layer change_last
with_rekey-last b provider old strategy p predicate n size f =
    let rekeyed =
      λ (l : LayerKind). ap layered (change_last-append (set_rekey strategy) b.layers l) in
    let sized =
      λ (l : LayerKind). ap layered (change_last-append (set_batch_size size) b.layers l) in
    (
      rekeyed (LayerKind.encryption provider old),
      rekeyed (LayerKind.cleanup predicate n old),
      rekeyed (LayerKind.prefix p),
      rekeyed (LayerKind.custom f),
      refl,
      sized (LayerKind.cleanup predicate n old),
      sized (LayerKind.encryption provider old),
      sized (LayerKind.prefix p),
      sized (LayerKind.custom f),
      refl,
    )
