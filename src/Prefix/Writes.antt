-- ===== src/Prefix/Writes.antt =====
-- `put` of the prefix layer, against the view of the store behind it.
use mathlib.Core.Path.{fun_ext}
use xtax.Base.{
  Str, false, some, List, [], ◌∷◌, ◌++◌, map, ◌≡◌, refl, ap, ◌∙◌, arith, str_eq, str_eq-append,
  contains, strip_prefix-append, inl, inr, ◌⊎◌, if◌then◌else◌,
}
use xtax.Error.{BlobStorageError}
use xtax.Exec.{
  ok, err, Outcome, returns, fails, final, lift, continue, try_map, continue-eq-returns,
}
use xtax.Types.{BlobInput, BlobMeta, PutResult}
use xtax.Store.{BlobStore}
use xtax.Store.Contract.{View, PutsView, write_all, keys_of, validate_all}
use xtax.Validate.{validate_blob_key}
use xtax.Prefix.{prefixed_input, stripped_or, strip_meta, strip_result, prefix_store, put}
use xtax.Prefix.Reads.{logical, prefixed-cases}

module _ (p : Str) where
  abbrev pub behind : List Str → List Str
  behind = map (λ k. p ++ k)

  abbrev rename_input : BlobInput → BlobInput
  rename_input b = record b { key = p ++ b.key }

  abbrev rename_all : List BlobInput → List BlobInput
  rename_all = map rename_input

  pub contains-behind : (ks : List Str) (j : Str) → contains (behind ks) (p ++ j) ≡ contains ks j
  unfolding contains
  contains-behind [] j = refl
  contains-behind (k ∷ ks) j = rw (str_eq-append, contains-behind ks j)

  keys_of-rename_all : (bs : List BlobInput) → keys_of (rename_all bs) ≡ behind (keys_of bs)
  keys_of-rename_all [] = refl
  keys_of-rename_all (b ∷ bs) = ap (λ ks. (p ++ b.key) ∷ ks) (keys_of-rename_all bs)

  write_all-rename_all :
      (bs : List BlobInput) (v : View) (j : Str)
      → write_all (rename_all bs) v (p ++ j) ≡ write_all bs (λ i. v (p ++ i)) j
  write_all-rename_all [] v j = refl
  write_all-rename_all (b ∷ bs) v j =
      write_all-rename_all bs (λ i. if str_eq (p ++ b.key) i then some b.content else v i) j
      ∙ ap (λ w. write_all bs w j) (fun_ext λ i. rw str_eq-append)

  pub stripped_or-append : (k : Str) → stripped_or p (p ++ k) ≡ k
  stripped_or-append k = ground (arith, strip_prefix-append p k)

  strip_behind :
      (ms : List BlobMeta) (ks : List Str)
      → map (λ m. m.key) ms ≡ behind ks
      → map (λ m. m.key) (map (strip_meta p) ms) ≡ ks
  unfolding strip_meta
  strip_behind [] [] h = refl
  strip_behind [] (k ∷ ks) h = cc
  strip_behind (m ∷ ms) [] h = cc
  strip_behind (m ∷ ms) (k ∷ ks) h =
      let ih = strip_behind ms ks (ground arith) in
      let e : m.key ≡ p ++ k = ground arith in rw (e, stripped_or-append, ih)

  prefixed_input-cases :
      (b : BlobInput)
      → ((prefixed_input p b ≡ ok (rename_input b)) × (validate_blob_key b.key ≡ ok tt))
        ⊎ ((m : Str) × (prefixed_input p b ≡ err (BlobStorageError.invalid_input m)))
  unfolding prefixed_input
  prefixed_input-cases b = elim (prefixed-cases p b.key) [
    | inl (e, v, _) ↦ inl (rw e, v)
    | inr (m, e) ↦ inr (m, rw e)
  ]

  -- A batch goes on with every key behind the prefix, or is rejected; it is rejected if a
  -- logical key is invalid.
  rename-cases :
      (bs : List BlobInput)
      → ((try_map (prefixed_input p) bs ≡ ok (rename_all bs))
          × ((us : List (Unit {0})) × (validate_all (keys_of bs) ≡ ok us)))
        ⊎ ((m : Str) × (try_map (prefixed_input p) bs ≡ err (BlobStorageError.invalid_input m)))
  unfolding try_map validate_all
  rename-cases [] = inl (refl, ([], refl))
  rename-cases (b ∷ bs) = elim (prefixed_input-cases b) [
    | inr (m, e) ↦ inr (m, rw e)
    | inl (e, v) ↦ elim (rename-cases bs) [
      | inr (m, e') ↦ inr (m, rw (e, e'))
      | inl (e', us) ↦ inl (rw (e, e'), (tt ∷ us.0, rw (v, us.1)))
    ]
  ]

module _ (inner : BlobStore) (p : Str) (view : inner.State → View) (law : PutsView inner view) where
  put-rename_all :
      (bs : List BlobInput) (s : inner.State) (r : PutResult) (t : inner.State)
      → put inner p bs s ≡ returns r t
      → (r' : PutResult) × (inner.put (rename_all p bs) s ≡ returns r' t) × (r ≡ strip_result p r')
  unfolding put
  put-rename_all bs s r t h = elim (rename-cases p bs) [
    | inr (m, e) ↦ cc (rw (e, lift) at h)
    | inl (e, _) ↦
        let (r', t', q, w) =
          continue-eq-returns (inner.put (rename_all p bs) s) _ (rw (e, lift) at h) in
        (r', cc, ground (arith, w))
  ]

  -- Everything that the batch writes is found under the logical keys.
  put-stores :
      (bs : List BlobInput) (s : inner.State) (r : PutResult) (t : inner.State)
      → put inner p bs s ≡ returns r t
      → (j : Str) → logical p view t j ≡ write_all bs (logical p view s) j
  put-stores bs s r t h j =
      let (r', q, _) = put-rename_all bs s r t h in
      law.stores (rename_all p bs) s r' t q (p ++ j) ∙ write_all-rename_all p bs (view s) j

  put-reports :
      (bs : List BlobInput) (s : inner.State) (r : PutResult) (t : inner.State)
      → put inner p bs s ≡ returns r t
      → map (λ m. m.key) r.blobs ≡ keys_of bs
  put-reports bs s r t h =
      let (r', q, w) = put-rename_all bs s r t h in
      ap (λ (x : PutResult). map (λ m. m.key) x.blobs) w
      ∙ strip_behind p r'.blobs (keys_of bs)
          (law.reports (rename_all p bs) s r' t q ∙ keys_of-rename_all p bs)

  put-rejects :
      (bs : List BlobInput) (s : inner.State) (e : BlobStorageError)
      → validate_all (keys_of bs) ≡ err e
      → (m : Str) × (put inner p bs s ≡ fails (BlobStorageError.invalid_input m) s)
  unfolding put
  put-rejects bs s e h = elim (rename-cases p bs) [
    | inr (m, q) ↦ (m, rw (q, lift))
    | inl (_, us) ↦ cc (h, us.1)
  ]

  final-pure :
      (o : Outcome inner.State PutResult)
      → final (continue o λ r t. returns (strip_result p r) t) ≡ final o
  final-pure (returns r t) = refl
  final-pure (fails e t) = refl

  put-others :
      (bs : List BlobInput) (s : inner.State) (j : Str)
      → contains (keys_of bs) j ≡ false
      → logical p view (final (put inner p bs s)) j ≡ logical p view s j
  unfolding put
  put-others bs s j h = elim (rename-cases p bs) [
    | inr (m, q) ↦ rw (q, lift)
    | inl (q, _) ↦
        rw (q, lift, final-pure)
          (law.others (rename_all p bs) s (p ++ j) (rw (keys_of-rename_all, contains-behind) h))
  ]

  pub put-PutsView : PutsView (prefix_store inner p) (logical p view)
  put-PutsView = record {
    stores = put-stores;
    reports = put-reports;
    rejects = put-rejects;
    others = put-others;
  }
