-- ===== src/Prefix/Reads.antt =====
-- The reading methods of the prefix layer, against the view of the store behind it.
use xtax.Base.{Str, ◌++◌, ◌≡◌, refl, arith, inl, inr, ◌⊎◌, ap, sym, ◌∙◌}
use xtax.Error.{BlobStorageError}
use xtax.Exec.{
  ok, err, Outcome, returns, fails, Exec, final, lift, map_err, continue, ◌>>=◌, Result-cases,
  continue-eq-returns,
}
use xtax.Types.{Stream}
use xtax.Store.{BlobStore}
use xtax.Store.Contract.{View, ReadsView, ExistsView}
use xtax.Validate.{validate_blob_key}
use xtax.Validate.Nested.{validate_blob_key-err}
use xtax.Prefix.{prefixed, map_error, strip_meta, prefix_store, get, exists, get_with_metadata}

-- The view through the layer: a logical key stands for the key behind the prefix.
abbrev pub logical {ℓ} : {A : Type ℓ} → Str → (A → View) → A → View
logical prefix view s key = view s (prefix ++ key)

-- A logical key is sent on behind the prefix, or rejected.
pub prefixed-cases :
    (p k : Str)
    → ((prefixed p k ≡ ok (p ++ k))
        × (validate_blob_key k ≡ ok tt)
        × (validate_blob_key (p ++ k) ≡ ok tt))
      ⊎ ((m : Str) × (prefixed p k ≡ err (BlobStorageError.invalid_input m)))
unfolding prefixed
prefixed-cases p k = elim (Result-cases (validate_blob_key k)) [
  | inr (x, e) ↦ let (m, q) = validate_blob_key-err k x e in inr (m, rw (e, q))
  | inl (u, e) ↦ elim (Result-cases (validate_blob_key (p ++ k))) [
    | inr (x, e') ↦ let (m, q) = validate_blob_key-err (p ++ k) x e' in inr (m, rw (e, e', q))
    | inl (u', e') ↦ inl (rw (e, e'), e, e')
  ]
]

pub map_err-eq-returns :
    {S A : Type 0} (f : BlobStorageError → BlobStorageError) (o : Outcome S A) {a : A} {t : S}
    → map_err f o ≡ returns a t
    → o ≡ returns a t
map_err-eq-returns f (returns a s) h = h
map_err-eq-returns f (fails e s) h = cc

-- Only `NotFound` becomes `NotFound`, and it is named by the logical key.
map_error-not_found :
    (p k j : Str) (e : BlobStorageError)
    → map_error p k e ≡ BlobStorageError.not_found j
    → (j ≡ k) × ((i : Str) × (e ≡ BlobStorageError.not_found i))
unfolding map_error
map_error-not_found p k j (BlobStorageError.not_found i) h = (cc, (i, refl))
map_error-not_found p k j _ h = cc

map_err-not_found :
    {S A : Type 0} (p k j : Str) (o : Outcome S A) {t : S}
    → map_err (map_error p k) o ≡ fails (BlobStorageError.not_found j) t
    → (j ≡ k) × ((i : Str) × (o ≡ fails (BlobStorageError.not_found i) t))
map_err-not_found p k j (returns a s) h = cc
map_err-not_found p k j (fails e s) h =
    let (q, r) = map_error-not_found p k j e (ground arith) in (q, (r.0, ground arith))

pub final-map_err :
    {S A : Type 0} (f : BlobStorageError → BlobStorageError) (o : Outcome S A)
    → final (map_err f o) ≡ final o
final-map_err f (returns a s) = refl
final-map_err f (fails e s) = refl

-- The shape that `get`, `exists` and `get_with_metadata` share.
module _ {S A : Type 0} (p : Str) (read : Str → Exec S A) where
  abbrev read_through : Str → Exec S A
  read_through key = do full ← lift (prefixed p key); λ s. map_err (map_error p key) (read full s)

  read_through-returns :
      (k : Str) (s : S) (a : A) (t : S)
      → read_through k s ≡ returns a t
      → (validate_blob_key k ≡ ok tt) × (read (p ++ k) s ≡ returns a t)
  read_through-returns k s a t h = elim (prefixed-cases p k) [
    | inl (e, v, _) ↦ (v, map_err-eq-returns (map_error p k) _ (rw (e, lift) at h))
    | inr (m, e) ↦ cc (rw (e, lift) at h)
  ]

  read_through-missing :
      (k : Str) (s : S) (j : Str) (t : S)
      → read_through k s ≡ fails (BlobStorageError.not_found j) t
      → (j ≡ k) × ((i : Str) × (read (p ++ k) s ≡ fails (BlobStorageError.not_found i) t))
  read_through-missing k s j t h = elim (prefixed-cases p k) [
    | inl (e, v, _) ↦ map_err-not_found p k j _ (rw (e, lift) at h)
    | inr (m, e) ↦ cc (rw (e, lift) at h)
  ]

  read_through-final :
      (P : S → Type 0) (k : Str) (s : S)
      → P s
      → P (final (read (p ++ k) s))
      → P (final (read_through k s))
  read_through-final P k s h g = elim (prefixed-cases p k) [
    | inl (e, v, _) ↦ rw (e, lift, final-map_err) g
    | inr (m, e) ↦ rw (e, lift) h
  ]

-- Changing what is returned beside the stream changes nothing in the view.
module _ (S : BlobStore) (view : S.State → View) {A B : Type 0} (f : A → B) (stream_of : A → Stream)
    (stream_of' : B → Stream) (same : (a : A) → stream_of' (f a) ≡ stream_of a)
    (read : Str → Exec S.State A) where
  map_read-final : (o : Outcome S.State A) → final (continue o λ a t. returns (f a) t) ≡ final o
  map_read-final (returns a t) = refl
  map_read-final (fails e t) = refl

  map_read-fails :
      (o : Outcome S.State A) {e : BlobStorageError} {t : S.State}
      → continue o (λ a u. returns (f a) u) ≡ fails e t
      → o ≡ fails e t
  map_read-fails (returns a u) h = cc
  map_read-fails (fails e u) h = cc

  map_read-ReadsView :
      ReadsView S view stream_of read
      → ReadsView S view stream_of' (λ k s. continue (read k s) λ a t. returns (f a) t)
  map_read-ReadsView law = record {
    keeps = λ k s j. rw map_read-final (law.keeps k s j);
    found = λ k s b t h.
        let (a, u, r, q) = continue-eq-returns (read k s) (λ a t. returns (f a) t) h in
        let e : f a ≡ b = ground arith in
        let facts = law.found k s a u r in
        let w : stream_of' b ≡ stream_of a = ap stream_of' (sym e) ∙ same a in
        (facts.0, facts.1, rw w facts.2);
    missing = λ k s j t h. law.missing k s j t (map_read-fails (read k s) h);
  }

module _ (inner : BlobStore) (p : Str) (view : inner.State → View) where
  -- Any reading method behind the prefix reads the logical view.
  read_through-ReadsView :
      {A : Type 0} (stream_of : A → Stream) (read : Str → Exec inner.State A)
      → ReadsView inner view stream_of read
      → ReadsView (prefix_store inner p) (logical p view) stream_of (read_through p read)
  read_through-ReadsView stream_of read law = record {
    keeps = λ k s j.
        read_through-final p read (λ t. view t (p ++ j) ≡ view s (p ++ j)) k s refl
          (law.keeps (p ++ k) s (p ++ j));
    found = λ k s a t h.
        let (valid, r) = read_through-returns p read k s a t h in
        let facts = law.found (p ++ k) s a t r in (valid, facts.1, facts.2);
    missing = λ k s j t h.
        let (named, r) = read_through-missing p read k s j t h in
        (named, (law.missing (p ++ k) s r.0 t r.1).1);
  }

  -- `get` returns what the store behind holds under the prefixed key; a missing key is reported by
  -- its logical name.
  pub get-ReadsView :
      ReadsView inner view (λ st. st) inner.get
      → ReadsView (prefix_store inner p) (logical p view) (λ st. st) (get inner p)
  unfolding get
  get-ReadsView law = read_through-ReadsView (λ st. st) inner.get law

  pub exists-ExistsView : ExistsView inner view → ExistsView (prefix_store inner p) (logical p view)
  unfolding exists
  exists-ExistsView law = record {
    keeps = λ k s j.
        read_through-final p inner.exists (λ t. view t (p ++ j) ≡ view s (p ++ j)) k s refl
          (law.keeps (p ++ k) s (p ++ j));
    tells = λ k s b t h.
        let (_, r) = read_through-returns p inner.exists k s b t h in law.tells (p ++ k) s b t r;
  }

  pub get_with_metadata-ReadsView :
      ReadsView inner view (λ a. a.1) inner.get_with_metadata
      → ReadsView (prefix_store inner p) (logical p view) (λ a. a.1) (get_with_metadata inner p)
  unfolding get_with_metadata
  get_with_metadata-ReadsView law =
      map_read-ReadsView (prefix_store inner p) (logical p view) (λ a. (strip_meta p a.0, a.1))
        (λ a. a.1) (λ a. a.1) (λ a. refl) (read_through p inner.get_with_metadata)
        (read_through-ReadsView (λ a. a.1) inner.get_with_metadata law)
