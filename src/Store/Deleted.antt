-- ===== src/Store/Deleted.antt =====
-- Batch deletions that go key by key: what is known on the way, and at the end.
use xtax.Base.{
  Str, true, false, none, List, [], ◌∷◌, ◌++◌, ◌≡◌, refl, ap, ◌∙◌, arith, ◌⊎◌, inl, inr, contains,
  contains-append, is_empty, Bool-cases, if◌then◌else◌, str_eq, All,
}
use xtax.Error.{BlobStorageError, KeyError, BatchError}
use xtax.Exec.{ok, Outcome, returns, fails, final, Exec, Result-cases, try_map, pure, raise}
use xtax.Store.{BlobStore}
use xtax.Store.Contract.{View, failed_keys, validate_all, DeletesView}
use xtax.Validate.{validate_blob_key}

pub validate_all-All :
    (ks : List Str) (us : List (Unit {0}))
    → validate_all ks ≡ ok us
    → All (λ k. validate_blob_key k ≡ ok tt) ks
unfolding validate_all try_map
validate_all-All [] us h = tt
validate_all-All (k ∷ ks) us h = elim (Result-cases (validate_blob_key k)) [
  | inr (e, q) ↦ cc (rw q at h)
  | inl (_, q) ↦ elim (Result-cases (try_map validate_blob_key ks)) [
    | inr (e, r) ↦ cc (rw (q, r) at h)
    | inl (vs, r) ↦ (q, validate_all-All ks vs r)
  ]
]

abbrev pub add_key : Str → BatchError → BatchError
add_key key b = record { succeeded = b.succeeded ++ (key ∷ []); errors = b.errors }

abbrev pub add_failed : KeyError → BatchError → BatchError
add_failed e b = record { succeeded = b.succeeded; errors = b.errors ++ (e ∷ []) }

failed_keys-append :
    (es : List KeyError) (e : KeyError)
    → failed_keys (es ++ (e ∷ [])) ≡ failed_keys es ++ (e.key ∷ [])
failed_keys-append [] e = refl
failed_keys-append (d ∷ es) e = ap (λ r. d.key ∷ r) (failed_keys-append es e)

one_key : (k j : Str) → contains (k ∷ []) j ≡ str_eq k j
unfolding contains
one_key k j = ground arith

module _ {S : Type 0} (view : S → View) where
  -- After the keys `seen`: what is known of them is true, and no other key is touched.
  pub record Progress (s0 : S) (seen : List Str) (b : BatchError) (s : S) : Type 0 where
    pub known :
        (j : Str)
        → contains seen j ≡ true
        → (contains b.succeeded j ≡ true) ⊎ (contains (failed_keys b.errors) j ≡ true)
    pub gone :
        (j : Str) → contains b.succeeded j ≡ true → (contains seen j ≡ true) × (view s j ≡ none)
    pub others : (j : Str) → contains seen j ≡ false → view s j ≡ view s0 j

  pub nothing-Progress :
      (s0 s : S)
      → ((j : Str) → view s j ≡ view s0 j)
      → Progress s0 [] (record { succeeded = []; errors = [] }) s
  unfolding contains
  nothing-Progress s0 s h = record { known = λ j q. cc; gone = λ j q. cc; others = λ j q. h j }

  -- One more key is gone.
  pub add_key-Progress :
      (s0 : S) (seen : List Str) (b : BatchError) (s t : S) (k : Str)
      → ((j : Str) → view t j ≡ (if str_eq k j then none else view s j))
      → Progress s0 seen b s
      → Progress s0 (seen ++ (k ∷ [])) (add_key k b) t
  add_key-Progress s0 seen b s t k h p = record {
    known = λ j q. elim (Bool-cases (contains seen j)) [
      | inl r ↦ elim (p.known j r) [
        | inl g ↦ inl (ground (arith, contains-append b.succeeded (k ∷ []) j))
        | inr f ↦ inr f
      ]
      | inr r ↦
          inl (
            ground (arith, contains-append seen (k ∷ []) j, contains-append b.succeeded (k ∷ []) j))
    ];
    gone = λ j q. elim (Bool-cases (str_eq k j)) [
      | inl r ↦ (ground (arith, contains-append seen (k ∷ []) j, one_key k j), h j ∙ (rw r refl))
      | inr r ↦
          let g = p.gone j (ground (arith, contains-append b.succeeded (k ∷ []) j, one_key k j)) in
          (ground (arith, contains-append seen (k ∷ []) j, g.0), h j ∙ (rw r g.1))
    ];
    others = λ j q.
        let r : str_eq k j ≡ false = ground (arith, contains-append seen (k ∷ []) j, one_key k j) in
        h j ∙ (rw r (p.others j (ground (arith, contains-append seen (k ∷ []) j))));
  }

  -- One more key has failed.
  pub add_failed-Progress :
      (s0 : S) (seen : List Str) (b : BatchError) (s t : S) (e : KeyError)
      → ((j : Str) → view t j ≡ view s j)
      → Progress s0 seen b s
      → Progress s0 (seen ++ (e.key ∷ [])) (add_failed e b) t
  add_failed-Progress s0 seen b s t e h p = record {
    known = λ j q.
        let x = failed_keys-append b.errors e in
        let y = contains-append (failed_keys b.errors) (e.key ∷ []) j in
        elim (Bool-cases (contains seen j)) [
          | inl r ↦ elim (p.known j r) [ inl g ↦ inl g | inr f ↦ inr (rw x (ground (arith, y))) ]
          | inr r ↦ inr (rw x (ground (arith, y, contains-append seen (e.key ∷ []) j)))
        ];
    gone = λ j q.
        let g = p.gone j q in (ground (arith, contains-append seen (e.key ∷ []) j, g.0), h j ∙ g.1);
    others = λ j q. h j ∙ p.others j (ground (arith, contains-append seen (e.key ∷ []) j));
  }

  -- What is true of the keys when the deletion ends.
  abbrev pub Deleted : S → List Str → Outcome S (Unit {0}) → Type 0
  Deleted s0 ks (returns _ t) =
      ((j : Str) → contains ks j ≡ true → view t j ≡ none)
      × ((j : Str) → contains ks j ≡ false → view t j ≡ view s0 j)
  Deleted s0 ks (fails e t) =
      ((b : BatchError) → e ≡ BlobStorageError.batch b → Progress s0 ks b t)
      × ((j : Str) → contains ks j ≡ false → view t j ≡ view s0 j)

  -- The end of the code: success, or the report.
  abbrev pub report : BatchError → Exec S (Unit {0})
  report b = if is_empty b.errors then pure tt else raise (BlobStorageError.batch b)

  no_failures :
      (es : List KeyError) (j : Str) → is_empty es ≡ true → contains (failed_keys es) j ≡ false
  unfolding contains
  no_failures [] j h = refl
  no_failures (e ∷ es) j h = cc

  batch_inj : (b c : BatchError) → BlobStorageError.batch b ≡ BlobStorageError.batch c → b ≡ c
  batch_inj b c h = ground arith

  pub report-Deleted :
      (s0 : S) (ks : List Str) (b : BatchError) (t : S)
      → Progress s0 ks b t
      → Deleted s0 ks (report b t)
  report-Deleted s0 ks b t p = elim (Bool-cases (is_empty b.errors)) [
    | inl q ↦ rw q (
      λ j h. elim (p.known j h) [
        | inl g ↦ (p.gone j g).1
        | inr f ↦ cc (f, no_failures b.errors j q)
      ],
      p.others,
    )
    | inr q ↦ rw q (λ c e. rw (batch_inj b c e) at p, p.others)
  ]

  pub Deleted-others :
      (s : S) (ks : List Str) (o : Outcome S (Unit {0}))
      → Deleted s ks o
      → (j : Str) → contains ks j ≡ false
      → view (final o) j ≡ view s j
  Deleted-others s ks (returns _ t) h = h.1
  Deleted-others s ks (fails e t) h = h.1

-- A `delete` whose every end is known keeps the contract.
pub Deleted-DeletesView :
    (S : BlobStore) (view : S.State → View)
    → ((ks : List Str) (s : S.State) → Deleted view s ks (S.delete ks s))
    → DeletesView S view
Deleted-DeletesView S view d = record {
  gone = λ ks s t q j h. let x = d ks s in (rw q at x).0 j h;
  succeeded_gone = λ ks s t b q j h. let x = d ks s in ((rw q at x).0 b refl).gone j h;
  accounted = λ ks s t b q j h. let x = d ks s in ((rw q at x).0 b refl).known j h;
  others = λ ks s j h. Deleted-others view s ks _ (d ks s) j h;
}
