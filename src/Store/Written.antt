-- ===== src/Store/Written.antt =====
-- Batch writes that go blob by blob: what one write, a batch and the whole `put` do to the view.
use xtax.Base.{
  Str, false, some, List, ◌∷◌, map, ◌≡◌, refl, ap, ◌∙◌, arith, ◌⊎◌, inl, inr, contains, str_eq,
  if◌then◌else◌,
}
use xtax.Error.{BlobStorageError}
use xtax.Exec.{ok, err, Outcome, returns, fails, final, Exec, continue, ◌>>=◌, pure}
use xtax.Types.{Stream, BlobInput, BlobMeta, PutResult, multiple}
use xtax.Store.{BlobStore}
use xtax.Store.Batches.{write_all_other}
use xtax.Store.Contract.{View, write_all, write_all_same, keys_of, validate_all, PutsView}

not_first : (k : Str) (ks : List Str) (j : Str) → contains (k ∷ ks) j ≡ false → str_eq k j ≡ false
unfolding contains
not_first k ks j h = ground arith

module _ {S : Type 0} (view : S → View) where
  -- One blob: stored and reported, or no other key touched.
  abbrev pub Written : Str → Stream → S → Outcome S BlobMeta → Type 0
  Written k content s (returns m t) =
      (m.key ≡ k) × ((j : Str) → view t j ≡ (if str_eq k j then some content else view s j))
  Written k content s (fails e t) = (j : Str) → str_eq k j ≡ false → view t j ≡ view s j

  -- A batch: all written and reported, or nothing outside of it touched.
  abbrev pub Batch : List BlobInput → S → Outcome S (List BlobMeta) → Type 0
  Batch bs s (returns ms t) =
      (map (λ m. m.key) ms ≡ keys_of bs) × ((j : Str) → view t j ≡ write_all bs (view s) j)
  Batch bs s (fails e t) = (j : Str) → contains (keys_of bs) j ≡ false → view t j ≡ view s j

  rest-Batch :
      (b : BlobInput) (bs : List BlobInput) (s t : S) (m : BlobMeta)
      → Written b.key b.content s (returns m t)
      → (o : Outcome S (List BlobMeta)) → Batch bs t o
      → Batch (b ∷ bs) s (continue o (λ rest. pure (m ∷ rest)))
  unfolding contains
  rest-Batch b bs s t m h (returns ms u) g =
      (rw (h.0, g.0) refl, λ j. g.1 j ∙ write_all_same bs _ _ j h.1)
  rest-Batch b bs s t m h (fails e u) g =
      λ j q. g j (ground arith) ∙ h.1 j ∙ rw (not_first b.key _ j q) refl

  -- The step of a loop that writes blob by blob.
  pub first-Batch :
      (b : BlobInput) (bs : List BlobInput) (s : S) (o : Outcome S BlobMeta)
      (rest : Exec S (List BlobMeta))
      → Written b.key b.content s o
      → ((t : S) → Batch bs t (rest t))
      → Batch (b ∷ bs) s (continue o (λ m. rest >>= λ ms. pure (m ∷ ms)))
  first-Batch b bs s (returns m t) rest h g = rest-Batch b bs s t m h (rest t) (g t)
  first-Batch b bs s (fails e t) rest h g = λ j q. h j (not_first b.key _ j q)

  -- The whole `put`.
  abbrev pub Put : List BlobInput → S → Outcome S PutResult → Type 0
  Put bs s (returns r t) =
      (map (λ m. m.key) r.blobs ≡ keys_of bs) × ((j : Str) → view t j ≡ write_all bs (view s) j)
  Put bs s (fails e t) = (j : Str) → contains (keys_of bs) j ≡ false → view t j ≡ view s j

  pub finish-Put :
      (bs : List BlobInput) (s : S) (o : Outcome S (List BlobMeta))
      → Batch bs s o
      → Put bs s (continue o (λ metas. pure (multiple metas)))
  unfolding multiple
  finish-Put bs s (returns ms t) h = h
  finish-Put bs s (fails e t) h = h

  pub Put-others :
      (bs : List BlobInput) (s : S) (o : Outcome S PutResult)
      → Put bs s o
      → (j : Str) → contains (keys_of bs) j ≡ false
      → view (final o) j ≡ view s j
  Put-others bs s (returns r t) h = λ j q. h.1 j ∙ write_all_other bs (view s) j q
  Put-others bs s (fails e t) h = h

-- A `put` that refuses an invalid batch before it writes, and writes a valid one, keeps the
-- contract.
pub Put-PutsView :
    (S : BlobStore) (view : S.State → View)
    → ((bs : List BlobInput) (s : S.State)
        → ((us : List (Unit {0})) × (validate_all (keys_of bs) ≡ ok us)
            × Put view bs s (S.put bs s))
          ⊎ ((m : Str) × (validate_all (keys_of bs) ≡ err (BlobStorageError.invalid_input m))
              × (S.put bs s ≡ fails (BlobStorageError.invalid_input m) s)))
    → PutsView S view
Put-PutsView S view split = record {
  stores = λ bs s r t q j. elim (split bs s) [
    | inr (m, e, f) ↦ cc (f, q)
    | inl (us, e, h) ↦ (rw q at h).1 j
  ];
  reports = λ bs s r t q. elim (split bs s) [
    | inr (m, e, f) ↦ cc (f, q)
    | inl (us, e, h) ↦ (rw q at h).0
  ];
  rejects = λ bs s b q. elim (split bs s) [ inr (m, e, f) ↦ (m, f) | inl (us, e, h) ↦ cc (e, q) ];
  others = λ bs s j q. elim (split bs s) [
    | inr (m, e, f) ↦ ap (λ o. view (final o) j) f
    | inl (us, e, h) ↦ Put-others view bs s _ h j q
  ];
}
