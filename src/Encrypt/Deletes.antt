-- ===== src/Encrypt/Deletes.antt =====
-- `delete` of the encryption layer keeps the contract.
use xtax.Base.{
  Str, true, false, none, List, [], ◌∷◌, ◌++◌, ◌≡◌, refl, sym, ap, ◌∙◌, arith, str_eq, str_eq_iff,
  contains, contains-filter_by, ends_with, filter_by, is_empty, Bool-cases, inl, inr, ◌⊎◌, ◌&&◌,
}
use xtax.Error.{BlobStorageError, KeyError, BatchError}
use xtax.Exec.{ok, err, Outcome, returns, fails, final, lift, try_map}
use xtax.Store.{BlobStore}
use xtax.Store.Contract.{View, DeletesView, failed_keys}
use xtax.Encrypt.{
  validate_key_no_header_collision, visible_batch, with_headers, finish_delete, delete,
}
use xtax.Encrypt.Provider.{EncryptionProvider}
use xtax.Encrypt.Layer.{encrypted_store}
use xtax.Encrypt.View.{
  NoCollision, with_headers-key, with_headers-header, decrypted, decrypted-same,
}
use xtax.Encrypt.Reads.{collision-cases}

-- A key that no error of the caller's names has not failed.
none_failed :
    (ks : List Str) (es : List KeyError) (j : Str)
    → is_empty (filter_by (λ e. contains ks e.key) es) ≡ true
    → contains ks j ≡ true
    → contains (failed_keys es) j ≡ true
    → ⊥
unfolding contains
none_failed ks [] j h listed failed = cc
none_failed ks (e ∷ es) j h listed failed = elim (Bool-cases (str_eq e.key j)) [
  | inl q ↦
      let w : contains ks e.key ≡ true = ap (contains ks) ((str_eq_iff e.key j).0 q) ∙ listed in
      ground (arith, w)
  | inr q ↦ none_failed ks es j (ground arith) listed (ground arith)
]

failed_visible :
    (ks : List Str) (es : List KeyError) (j : Str)
    → contains ks j ≡ true
    → contains (failed_keys es) j ≡ true
    → contains (failed_keys (filter_by (λ e. contains ks e.key) es)) j ≡ true
unfolding contains
failed_visible ks [] j listed failed = failed
failed_visible ks (e ∷ es) j listed failed = elim (Bool-cases (str_eq e.key j)) [
  | inl q ↦
      let w : contains ks e.key ≡ true = ap (contains ks) ((str_eq_iff e.key j).0 q) ∙ listed in
      ground (arith, w)
  | inr q ↦ let ih = failed_visible ks es j listed (ground arith) in ground (arith, ih)
]

module _ (inner : BlobStore) (enc : EncryptionProvider inner.State) (suffix : Str) where
  -- The three ways in which `finish_delete` ends.
  finish-returns :
      (ks : List Str) (o : Outcome inner.State (Unit {0})) (t : inner.State)
      → finish_delete inner enc suffix ks o ≡ returns tt t
      → (o ≡ returns tt t)
        ⊎ ((b : BatchError) × (o ≡ fails (BlobStorageError.batch b) t)
            × (is_empty (visible_batch ks b).errors ≡ true))
  unfolding finish_delete
  finish-returns ks (returns u s) t q = inl q
  finish-returns ks (fails (BlobStorageError.batch b) s) t q = inr (b, ground arith, ground arith)
  finish-returns ks (fails _ s) t q = cc

  finish-batch :
      (ks : List Str) (o : Outcome inner.State (Unit {0})) (b' : BatchError) (t : inner.State)
      → finish_delete inner enc suffix ks o ≡ fails (BlobStorageError.batch b') t
      → (b : BatchError) × (o ≡ fails (BlobStorageError.batch b) t) × (b' ≡ visible_batch ks b)
  unfolding finish_delete
  finish-batch ks (returns u s) b' t q = cc
  finish-batch ks (fails (BlobStorageError.batch b) s) b' t q = (b, ground arith, ground arith)
  finish-batch ks (fails _ s) b' t q = cc

  finish-final :
      (ks : List Str) (o : Outcome inner.State (Unit {0}))
      → final (finish_delete inner enc suffix ks o) ≡ final o
  unfolding finish_delete
  finish-final ks (returns u s) = refl
  finish-final ks (fails (BlobStorageError.batch b) s) = ground arith
  finish-final ks (fails _ s) = refl

  free-cases :
      (ks : List Str)
      → ((us : List (Unit {0})) × (try_map (validate_key_no_header_collision suffix) ks ≡ ok us)
          × NoCollision suffix ks)
        ⊎ ((m : Str) × (try_map (validate_key_no_header_collision suffix) ks
              ≡ err (BlobStorageError.invalid_input m)))
  unfolding try_map
  free-cases [] = inl ([], refl, tt)
  free-cases (k ∷ ks) = elim (collision-cases suffix k) [
    | inr (m, e) ↦ inr (m, rw e)
    | inl (free, e) ↦ elim (free-cases ks) [
      | inr (m, e') ↦ inr (m, rw (e, e'))
      | inl (us, e', h) ↦ inl (tt ∷ us, rw (e, e'), (free, h))
    ]
  ]

  member-free :
      (ks : List Str) (j : Str)
      → NoCollision suffix ks
      → contains ks j ≡ true
      → ends_with suffix j ≡ false
  unfolding contains
  member-free [] j h listed = cc
  member-free (k ∷ ks) j h listed = elim (Bool-cases (str_eq k j)) [
    | inl q ↦ ap (ends_with suffix) (sym ((str_eq_iff k j).0 q)) ∙ h.0
    | inr q ↦ member-free ks j h.1 (ground arith)
  ]

  module _ (view : inner.State → View) (law : DeletesView inner view) where
    -- A key whose ciphertext is gone shows nothing.
    gone_shows_none :
        (t : inner.State) (j : Str) → view t j ≡ none → decrypted enc suffix view t j ≡ none
    gone_shows_none t j h = rw h (ground arith)

    delete-gone :
        (ks : List Str) (s t : inner.State)
        → delete inner enc suffix ks s ≡ returns tt t
        → (j : Str) → contains ks j ≡ true
        → decrypted enc suffix view t j ≡ none
    unfolding delete visible_batch
    delete-gone ks s t q j listed = elim (free-cases ks) [
      | inr (m, e) ↦ cc (rw (e, lift) at q)
      | inl (us, e, h) ↦
          let all = with_headers suffix ks in
          let inside : contains all j ≡ true =
            with_headers-key suffix ks j (member-free ks j h listed) ∙ listed in
          gone_shows_none t j (elim (finish-returns ks (inner.delete all s) t (rw (e, lift) at q)) [
            | inl x ↦ law.gone all s t x j inside
            | inr (b, x, none_left) ↦ elim (law.accounted all s t b x j inside) [
              | inl done ↦ (law.succeeded_gone all s t b x j done).1
              | inr failed ↦ absurd (none_failed ks b.errors j none_left listed failed)
            ]
          ])
    ]

    delete-inner :
        (ks : List Str) (s t : inner.State) (b' : BatchError)
        → delete inner enc suffix ks s ≡ fails (BlobStorageError.batch b') t
        → NoCollision suffix ks
          × ((b : BatchError) × (inner.delete (with_headers suffix ks) s
                ≡ fails (BlobStorageError.batch b) t)
              × (b' ≡ visible_batch ks b))
    unfolding delete
    delete-inner ks s t b' q = elim (free-cases ks) [
      | inr (m, e) ↦ cc (rw (e, lift) at q)
      | inl (us, e, h) ↦
          (h, finish-batch ks (inner.delete (with_headers suffix ks) s) b' t (rw (e, lift) at q))
    ]

    delete-succeeded :
        (ks : List Str) (s t : inner.State) (b' : BatchError)
        → delete inner enc suffix ks s ≡ fails (BlobStorageError.batch b') t
        → (j : Str) → contains b'.succeeded j ≡ true
        → (contains ks j ≡ true) × (decrypted enc suffix view t j ≡ none)
    unfolding visible_batch
    delete-succeeded ks s t b' q j listed =
        let (h, x) = delete-inner ks s t b' q in
        let (b, y, e) = x in
        let both : (contains b.succeeded j && contains ks j) ≡ true =
          sym (contains-filter_by (λ k. contains ks k) b.succeeded j)
          ∙ sym (ap (λ (z : BatchError). contains z.succeeded j) e)
          ∙ listed in
        (
          ground (arith, both),
          gone_shows_none t j
              (law.succeeded_gone (with_headers suffix ks) s t b y j (ground (arith, both))).1,
        )

    delete-accounted :
        (ks : List Str) (s t : inner.State) (b' : BatchError)
        → delete inner enc suffix ks s ≡ fails (BlobStorageError.batch b') t
        → (j : Str) → contains ks j ≡ true
        → (contains b'.succeeded j ≡ true) ⊎ (contains (failed_keys b'.errors) j ≡ true)
    unfolding visible_batch
    delete-accounted ks s t b' q j listed =
        let (h, x) = delete-inner ks s t b' q in
        let (b, y, e) = x in
        let inside = with_headers-key suffix ks j (member-free ks j h listed) ∙ listed in
        elim (law.accounted (with_headers suffix ks) s t b y j inside) [
          | inl done ↦ inl (
              ap (λ (z : BatchError). contains z.succeeded j) e
              ∙ contains-filter_by (λ k. contains ks k) b.succeeded j
              ∙ rw (done, listed))
          | inr failed ↦ inr (
              ap (λ (z : BatchError). contains (failed_keys z.errors) j) e
              ∙ failed_visible ks b.errors j listed failed)
        ]

    delete-others :
        (ks : List Str) (s : inner.State) (j : Str)
        → contains ks j ≡ false
        → decrypted enc suffix view (final (delete inner enc suffix ks s)) j
          ≡ decrypted enc suffix view s j
    unfolding delete
    delete-others ks s j ne = elim (free-cases ks) [
      | inr (m, e) ↦ rw (e, lift)
      | inl (us, e, h) ↦
          rw (e, lift, finish-final)
            (decrypted-same enc suffix view s _ j
              (λ w. law.others _ s j (with_headers-key suffix ks j w ∙ ne))
              (λ w. law.others _ s (j ++ suffix) (with_headers-header suffix ks j h ∙ ne)))
    ]

    pub delete-DeletesView :
        DeletesView (encrypted_store inner enc suffix) (decrypted enc suffix view)
    delete-DeletesView = record {
      gone = delete-gone;
      succeeded_gone = delete-succeeded;
      accounted = delete-accounted;
      others = delete-others;
    }
