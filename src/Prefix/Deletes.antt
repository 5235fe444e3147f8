-- ===== src/Prefix/Deletes.antt =====
-- `delete` of the prefix layer, against the view of the store behind it.
use xtax.Base.{
  Str, true, false, none, List, [], ◌∷◌, ◌++◌, map, ◌≡◌, refl, sym, ap, ◌∙◌, arith, str_eq,
  str_eq_iff, str_eq-append, contains, strip_prefix, strip_prefix-append, strip_prefix_sound,
  filter_map_by, Option-cases, Bool-cases, inl, inr, ◌⊎◌,
}
use xtax.Error.{BlobStorageError, BatchError, KeyError}
use xtax.Exec.{ok, err, Outcome, returns, fails, final, lift, map_err, try_map}
use xtax.Store.{BlobStore}
use xtax.Store.Contract.{View, DeletesView, failed_keys}
use xtax.Prefix.{prefixed, stripped_or, strip_key_error, map_batch_error, prefix_store, delete}
use xtax.Prefix.Reads.{logical, prefixed-cases, map_err-eq-returns, final-map_err}
use xtax.Prefix.Writes.{behind, contains-behind, stripped_or-append}

module _ (p : Str) where
  strip_none-ne : (k j : Str) → strip_prefix p k ≡ none → str_eq k (p ++ j) ≡ false
  strip_none-ne k j h = elim (Bool-cases (str_eq k (p ++ j))) [
    | inr e ↦ e
    | inl e ↦ cc (h, ap (strip_prefix p) ((str_eq_iff k (p ++ j)).0 e), strip_prefix-append p j)
  ]

  -- A logical key is among the stripped ones exactly when it was there behind the prefix.
  pub contains-strip :
      (ks : List Str) (j : Str)
      → contains (filter_map_by (strip_prefix p) ks) j ≡ contains ks (p ++ j)
  unfolding contains
  contains-strip [] j = refl
  contains-strip (k ∷ ks) j = elim (Option-cases (strip_prefix p k)) [
    | inl e ↦ rw (e, strip_none-ne k j e) (contains-strip ks j)
    | inr (r, e) ↦ rw (e, contains-strip ks j, strip_prefix_sound p k r e, str_eq-append)
  ]

  -- A failed key is still reported under its logical name.
  failed_keys-strip :
      (es : List KeyError) (j : Str)
      → contains (failed_keys es) (p ++ j) ≡ true
      → contains (failed_keys (map (strip_key_error p) es)) j ≡ true
  unfolding contains strip_key_error
  failed_keys-strip [] j h = h
  failed_keys-strip (e ∷ es) j h = elim (Bool-cases (str_eq e.key (p ++ j))) [
    | inl q ↦
        let w : stripped_or p e.key ≡ j =
          ap (stripped_or p) ((str_eq_iff e.key (p ++ j)).0 q) ∙ stripped_or-append p j in
        ground (arith, (str_eq_iff (stripped_or p e.key) j).1 w)
    | inr q ↦ ground (arith, failed_keys-strip es j)
  ]

  delete-cases :
      (ks : List Str)
      → (try_map (prefixed p) ks ≡ ok (behind p ks))
        ⊎ ((m : Str) × (try_map (prefixed p) ks ≡ err (BlobStorageError.invalid_input m)))
  unfolding try_map
  delete-cases [] = inl refl
  delete-cases (k ∷ ks) = elim (prefixed-cases p k) [
    | inr (m, e) ↦ inr (m, rw e)
    | inl (e, _, _) ↦ elim (delete-cases ks) [
      | inr (m, e') ↦ inr (m, rw (e, e'))
      | inl e' ↦ inl (rw (e, e'))
    ]
  ]

  strip_batch : BatchError → BatchError
  strip_batch b = record {
    succeeded = filter_map_by (strip_prefix p) b.succeeded;
    errors = map (strip_key_error p) b.errors;
  }

  map_err-batch :
      {S A : Type 0} (o : Outcome S A) {b' : BatchError} {t : S}
      → map_err (map_batch_error p) o ≡ fails (BlobStorageError.batch b') t
      → (b : BatchError) × (o ≡ fails (BlobStorageError.batch b) t) × (b' ≡ strip_batch b)
  unfolding map_batch_error strip_batch
  map_err-batch (returns a s) h = cc
  map_err-batch (fails (BlobStorageError.batch b) s) h = (b, cc, ground arith)
  map_err-batch (fails _ s) h = cc

module _ (inner : BlobStore) (p : Str) (view : inner.State → View)
    (law : DeletesView inner view) where
  delete-gone :
      (ks : List Str) (s t : inner.State)
      → delete inner p ks s ≡ returns tt t
      → (j : Str) → contains ks j ≡ true
      → logical p view t j ≡ none
  unfolding delete
  delete-gone ks s t h j listed = elim (delete-cases p ks) [
    | inr (m, e) ↦ cc (rw (e, lift) at h)
    | inl e ↦
        law.gone (behind p ks) s t (map_err-eq-returns (map_batch_error p) _ (rw (e, lift) at h))
          (p ++ j) (rw contains-behind listed)
  ]

  delete-behind :
      (ks : List Str) (s t : inner.State) (b' : BatchError)
      → delete inner p ks s ≡ fails (BlobStorageError.batch b') t
      → (b : BatchError) × (inner.delete (behind p ks) s ≡ fails (BlobStorageError.batch b) t)
        × (b' ≡ strip_batch p b)
  unfolding delete
  delete-behind ks s t b' h = elim (delete-cases p ks) [
    | inr (m, e) ↦ cc (rw (e, lift) at h)
    | inl e ↦ map_err-batch p _ (rw (e, lift) at h)
  ]

  delete-succeeded :
      (ks : List Str) (s t : inner.State) (b' : BatchError)
      → delete inner p ks s ≡ fails (BlobStorageError.batch b') t
      → (j : Str) → contains b'.succeeded j ≡ true
      → (contains ks j ≡ true) × (logical p view t j ≡ none)
  unfolding strip_batch
  delete-succeeded ks s t b' h j listed =
      let (b, q, w) = delete-behind ks s t b' h in
      let inside : contains b.succeeded (p ++ j) ≡ true =
        sym (contains-strip p b.succeeded j)
        ∙ sym (ap (λ (x : BatchError). contains x.succeeded j) w)
        ∙ listed in
      let (present, gone) = law.succeeded_gone (behind p ks) s t b q (p ++ j) inside in
      (sym (contains-behind p ks j) ∙ present, gone)

  delete-accounted :
      (ks : List Str) (s t : inner.State) (b' : BatchError)
      → delete inner p ks s ≡ fails (BlobStorageError.batch b') t
      → (j : Str) → contains ks j ≡ true
      → (contains b'.succeeded j ≡ true) ⊎ (contains (failed_keys b'.errors) j ≡ true)
  unfolding strip_batch
  delete-accounted ks s t b' h j listed =
      let (b, q, w) = delete-behind ks s t b' h in
      elim (law.accounted (behind p ks) s t b q (p ++ j) (rw contains-behind listed)) [
        | inl e ↦
            inl (
              ap (λ (x : BatchError). contains x.succeeded j) w
              ∙ contains-strip p b.succeeded j
              ∙ e)
        | inr e ↦ inr (
            ap (λ (x : BatchError). contains (failed_keys x.errors) j) w
            ∙ failed_keys-strip p b.errors j e)
      ]

  delete-others :
      (ks : List Str) (s : inner.State) (j : Str)
      → contains ks j ≡ false
      → logical p view (final (delete inner p ks s)) j ≡ logical p view s j
  unfolding delete
  delete-others ks s j h = elim (delete-cases p ks) [
    | inr (m, e) ↦ rw (e, lift)
    | inl e ↦
        rw (e, lift, final-map_err) (law.others (behind p ks) s (p ++ j) (rw contains-behind h))
  ]

  pub delete-DeletesView : DeletesView (prefix_store inner p) (logical p view)
  delete-DeletesView = record {
    gone = delete-gone;
    succeeded_gone = delete-succeeded;
    accounted = delete-accounted;
    others = delete-others;
  }
