-- ===== src/Prefix/Listing.antt =====
-- `list` of the prefix layer, against the view of the store behind it.
use xtax.Base.{
  Str, true, Option, none, some, is_some, List, [], ◌∷◌, ◌++◌, ◌≡◌, refl, ap, ◌∙◌, arith,
  starts_with, starts_with-append, starts_with-append_both, strip_prefix, strip_prefix_sound,
  filter_by, filter_map_by, all_by, contains, contains-filter_by, str_le, str_le-append, IsSorted,
  filter_by-IsSorted, Option-cases, inl, inr, ◌&&◌,
}
use xtax.Exec.{Outcome, returns, fails, final, continue, continue-eq-returns}
use xtax.Filter.{ListFilter, IsHinted, HintHolds}
use xtax.Store.{BlobStore}
use xtax.Store.Contract.{View, ListsView}
use xtax.Prefix.{full_hint, combined_prefix_filter, prefix_store, list}
use xtax.Prefix.Reads.{logical}
use xtax.Prefix.Deletes.{contains-strip}

-- The filter that is handed down hints at exactly what it matches.
combined_prefix_filter-IsHinted : (p : Str) (f : ListFilter) → IsHinted (combined_prefix_filter p f)
unfolding combined_prefix_filter
combined_prefix_filter-IsHinted p f = λ key meta h. h

combined-hint :
    (p : Str) (hint : Option Str) (f : ListFilter) (k : Str)
    → HintHolds f hint
    → f.matches k none ≡ true
    → starts_with (full_hint p (record f { prefix_hint = hint })) (p ++ k) ≡ true
unfolding full_hint
combined-hint p none f k h m = starts_with-append p k
combined-hint p (some []) f k h m = starts_with-append p k
combined-hint p (some (c ∷ hint)) f k h m = starts_with-append_both p (c ∷ hint) k ∙ h k none m

-- It lets through every key that the caller's filter matches.
combined-matches :
    (p : Str) (f : ListFilter) (k : Str)
    → IsHinted f
    → f.matches k none ≡ true
    → (combined_prefix_filter p f).matches (p ++ k) none ≡ true
unfolding combined_prefix_filter
combined-matches p f k h m = combined-hint p f.prefix_hint f k h m

module _ (p : Str) where
  all_by-strip :
      (k : Str) (ks : List Str)
      → all_by (str_le (p ++ k)) ks ≡ true
      → all_by (str_le k) (filter_map_by (strip_prefix p) ks) ≡ true
  all_by-strip k [] h = refl
  all_by-strip k (j ∷ ks) h = elim (Option-cases (strip_prefix p j)) [
    | inl e ↦ rw e (all_by-strip k ks (ground arith))
    | inr (r, e) ↦
        let w : str_le (p ++ k) j ≡ str_le k r =
          ap (str_le (p ++ k)) (strip_prefix_sound p j r e) ∙ str_le-append p k r in
        rw e (ground (arith, all_by-strip k ks))
  ]

  -- Stripping a common prefix keeps the order.
  strip-IsSorted : (ks : List Str) → IsSorted ks → IsSorted (filter_map_by (strip_prefix p) ks)
  strip-IsSorted [] h = tt
  strip-IsSorted (k ∷ ks) h = elim (Option-cases (strip_prefix p k)) [
    | inl e ↦ rw e (strip-IsSorted ks h.1)
    | inr (r, e) ↦
        rw e (all_by-strip r ks (rw (← strip_prefix_sound p k r e) h.0), strip-IsSorted ks h.1)
  ]

module _ (inner : BlobStore) (p : Str) (view : inner.State → View)
    (law : ListsView inner view) where
  abbrev kept : ListFilter → List Str → List Str
  kept f ks = filter_by (λ k. f.matches k none) (filter_map_by (strip_prefix p) ks)

  list-inner :
      (f : ListFilter) (s : inner.State) (ks : List Str) (t : inner.State)
      → list inner p f s ≡ returns ks t
      → (js : List Str) × (inner.list (combined_prefix_filter p f) s ≡ returns js t)
        × (ks ≡ kept f js)
  unfolding list
  list-inner f s ks t h =
      let (js, u, q, w) =
        continue-eq-returns (inner.list (combined_prefix_filter p f) s)
          (λ ks t. returns (kept f ks) t) h in
      (js, ground arith, ground arith)

  list-exact :
      (f : ListFilter) (s : inner.State) (ks : List Str) (t : inner.State)
      → IsHinted f
      → list inner p f s ≡ returns ks t
      → (k : Str) → contains ks k ≡ (is_some (logical p view s k) && f.matches k none)
  list-exact f s ks t hinted h k =
      let (js, q, w) = list-inner f s ks t h in
      let inside =
        law.exact (combined_prefix_filter p f) s js t (combined_prefix_filter-IsHinted p f) q
          (p ++ k) in
      ap (λ xs. contains xs k) w
      ∙ contains-filter_by (λ j. f.matches j none) (filter_map_by (strip_prefix p) js) k
      ∙ ground (arith, contains-strip p js k, inside, combined-matches p f k hinted)

  list-IsSorted :
      (f : ListFilter) (s : inner.State) (ks : List Str) (t : inner.State)
      → list inner p f s ≡ returns ks t
      → IsSorted ks
  list-IsSorted f s ks t h =
      let (js, q, w) = list-inner f s ks t h in
      rw w (
        filter_by-IsSorted (λ k. f.matches k none) (filter_map_by (strip_prefix p) js)
          (strip-IsSorted p js (law.sorted (combined_prefix_filter p f) s js t q)))

  final-kept :
      (f : ListFilter) (o : Outcome inner.State (List Str))
      → final (continue o λ ks t. returns (kept f ks) t) ≡ final o
  final-kept f (returns ks t) = refl
  final-kept f (fails e t) = refl

  list-keeps :
      (f : ListFilter) (s : inner.State) (j : Str)
      → logical p view (final (list inner p f s)) j ≡ logical p view s j
  unfolding list
  list-keeps f s j = rw (final-kept f) (law.keeps (combined_prefix_filter p f) s (p ++ j))

  pub list-ListsView : ListsView (prefix_store inner p) (logical p view)
  list-ListsView = record { keeps = list-keeps; exact = list-exact; sorted = list-IsSorted }
