-- ===== src/Prefix/Visiting.antt =====
-- `visit` of the prefix layer against its `list`.
use xtax.Base.{
  Str, Bool, true, false, none, some, List, [], ◌∷◌, ◌≡◌, refl, ◌∙◌, arith, strip_prefix, filter_by,
  filter_map_by, Option-cases, Bool-cases, inl, inr, if◌then◌else◌,
}
use xtax.Exec.{Exec, Outcome, returns, fails, continue, beside}
use xtax.Filter.{ListFilter}
use xtax.Store.{BlobStore, BlobVisitor, go_on, for_each, default_visit}
use xtax.Prefix.{combined_prefix_filter, prefix_visitor, list, visit}

module _ {S V : Type 0} (p : Str) (f : ListFilter) (visitor : BlobVisitor S V) where
  passes_over :
      (k : Str) (x : V × S)
      → strip_prefix p k ≡ none
      → prefix_visitor p f visitor k none x ≡ returns true x
  unfolding prefix_visitor
  passes_over k x e = ground arith

  passes_on :
      (k r : Str) (x : V × S)
      → strip_prefix p k ≡ some r
      → prefix_visitor p f visitor k none x
        ≡ (if f.matches r none then visitor r none x else returns true x)
  unfolding prefix_visitor
  passes_on k r x e = ground arith

  go_on_cong :
      (o : Outcome (V × S) Bool) (g h : Exec (V × S) (Unit {0}))
      → ((y : V × S) → g y ≡ h y)
      → go_on o g ≡ go_on o h
  go_on_cong (returns true y) g h e = e y
  go_on_cong (returns false y) g h e = refl
  go_on_cong (fails x y) g h e = refl

  -- The wrapped visitor passes over what the listing leaves out.
  for_each-prefix_visitor :
      (keys : List Str) (x : V × S)
      → for_each (λ key. prefix_visitor p f visitor key none) keys x
        ≡ for_each
            (λ key. visitor key none)
            (filter_by (λ k. f.matches k none) (filter_map_by (strip_prefix p) keys))
            x
  unfolding for_each
  for_each-prefix_visitor [] x = refl
  for_each-prefix_visitor (k ∷ keys) x = elim (Option-cases (strip_prefix p k)) [
    | inl e ↦ rw (e, passes_over k x e) (for_each-prefix_visitor keys x)
    | inr (r, e) ↦ elim (Bool-cases (f.matches r none)) [
      | inr q ↦ rw (e, passes_on k r x e, q) (for_each-prefix_visitor keys x)
      | inl q ↦
          rw (e, passes_on k r x e, q)
            (go_on_cong (visitor r none x) _ _ (for_each-prefix_visitor keys))
    ]
  ]

module _ (inner : BlobStore) (p : Str) where
  visit_listing :
      (V : Type 0) (f : ListFilter) (visitor : BlobVisitor inner.State V) (v : V)
      (o : Outcome inner.State (List Str))
      → continue (beside v o) (for_each (λ key. prefix_visitor p f visitor key none))
        ≡ continue
            (beside v (
              continue o λ keys t.
                returns
                  (filter_by (λ k. f.matches k none) (filter_map_by (strip_prefix p) keys))
                  t))
            (for_each (λ key. visitor key none))
  visit_listing V f visitor v (returns keys t) = for_each-prefix_visitor p f visitor keys (v, t)
  visit_listing V f visitor v (fails e t) = refl

  -- Over a store with the default `visit`, the layer visits exactly what it lists: the caller's
  -- visitor gets the keys of the layer's own `list`, in that order, with the same outcome.
  pub visit-eq-default_visit :
      (V : Type 0) (f : ListFilter) (visitor : BlobVisitor inner.State V) (x : V × inner.State)
      → ((g : ListFilter) (w : BlobVisitor inner.State V) (y : V × inner.State)
          → inner.visit V g w y ≡ default_visit inner.list V g w y)
      → visit inner p V f visitor x ≡ default_visit (list inner p) V f visitor x
  unfolding visit list default_visit
  visit-eq-default_visit V f visitor (v, s) is_default =
      is_default (combined_prefix_filter p f) (prefix_visitor p f visitor) (v, s)
      ∙ visit_listing V f visitor v (inner.list (combined_prefix_filter p f) s)
