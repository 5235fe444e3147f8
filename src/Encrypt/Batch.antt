-- ===== src/Encrypt/Batch.antt =====
-- `put` of the encryption layer as a whole: the validation, the loop and what is left alone.
use xtax.Base.{
  Str, false, Option, List, [], ◌∷◌, ◌++◌, ◌≡◌, refl, ◌∙◌, arith, str_eq, contains, ends_with, inl,
  inr,
}
use xtax.Error.{BlobStorageError}
use xtax.Exec.{err, returns, fails, final, lift, pure, continue-eq-returns, continue-final}
use xtax.Types.{Stream, BlobInput, PutResult, with_size, multiple}
use xtax.Store.{BlobStore}
use xtax.Store.Contract.{View, PutsView, DeletesView, keys_of, validate_all}
use xtax.Encrypt.{put_blob, put_blobs, put}
use xtax.Encrypt.Provider.{EncryptionProvider, IsSound}
use xtax.Encrypt.Layer.{encrypted_store}
use xtax.Encrypt.View.{header-ne-key, key-ne-header, header-eq-header, decrypted, decrypted-same}
use xtax.Encrypt.Writes.{header_input, put_blob-final}
use xtax.Encrypt.Stores.{Accepted, accept-cases, put_blobs-stores, put_blobs-reports}

module _ (inner : BlobStore) (enc : EncryptionProvider inner.State) (sound : IsSound enc)
    (suffix : Str) (view : inner.State → View) (puts : PutsView inner view)
    (deletes : DeletesView inner view) where
  put-Accepted :
      (bs : List BlobInput) (s t : inner.State) (r : PutResult)
      → put inner enc suffix bs s ≡ returns r t
      → (Accepted inner enc sound suffix view puts deletes bs)
        × (put_blobs inner enc suffix bs s ≡ returns r.blobs t)
  unfolding put multiple
  put-Accepted bs s t r q = elim (accept-cases inner enc sound suffix view puts deletes bs) [
    | inr (m, e) ↦ cc (rw (e, lift) at q)
    | inl (us, vs, e, v, h) ↦
        let (ms, u, x, y) =
          continue-eq-returns (put_blobs inner enc suffix bs s) (λ metas. pure (multiple metas))
            (rw (e, lift) at q) in
        (h, ground arith)
  ]

  put-rejects :
      (bs : List BlobInput) (s : inner.State) (e : BlobStorageError)
      → validate_all (keys_of bs) ≡ err e
      → (m : Str) × (put inner enc suffix bs s ≡ fails (BlobStorageError.invalid_input m) s)
  unfolding put
  put-rejects bs s e h = elim (accept-cases inner enc sound suffix view puts deletes bs) [
    | inr (m, q) ↦ (m, rw (q, lift))
    | inl (us, vs, q, v, _) ↦ cc (h, v)
  ]

  -- The state before the batch is compared at one key `j` that is not in it.
  module _ (j : Str) (before : Option Stream) where
    abbrev Kept : inner.State → Type 0
    Kept t = decrypted enc suffix view t j ≡ before

    Kept-write :
        (c : BlobInput) (t : inner.State)
        → (ends_with suffix j ≡ false → str_eq c.key j ≡ false)
        → (ends_with suffix j ≡ false → str_eq c.key (j ++ suffix) ≡ false)
        → Kept t
        → Kept (final (inner.put (c ∷ []) t))
    unfolding contains
    Kept-write c t h g p =
        decrypted-same enc suffix view t _ j (λ e. puts.others (c ∷ []) t j (rw (h e)))
          (λ e. puts.others (c ∷ []) t (j ++ suffix) (rw (g e)))
        ∙ p

    Kept-delete :
        (k : Str) (t : inner.State)
        → (ends_with suffix j ≡ false → str_eq k j ≡ false)
        → (ends_with suffix j ≡ false → str_eq k (j ++ suffix) ≡ false)
        → Kept t
        → Kept (final (inner.delete (k ∷ []) t))
    unfolding contains
    Kept-delete k t h g p =
        decrypted-same enc suffix view t _ j (λ e. deletes.others (k ∷ []) t j (rw (h e)))
          (λ e. deletes.others (k ∷ []) t (j ++ suffix) (rw (g e)))
        ∙ p

    Kept-blob :
        (b : BlobInput) (t : inner.State)
        → ends_with suffix b.key ≡ false
        → str_eq b.key j ≡ false
        → Kept t
        → Kept (final (put_blob inner enc suffix b t))
    unfolding with_size
    Kept-blob b t free ne p =
        put_blob-final inner enc suffix Kept b
          (λ c n u.
            Kept-write (with_size b.key c n) u (λ _. ne) (λ _. key-ne-header suffix b.key j free))
          (λ h u.
            Kept-write (header_input inner enc suffix b h) u (λ e. header-ne-key suffix b.key j e)
              (λ _. header-eq-header suffix b.key j ∙ ne))
          (λ u. Kept-delete b.key u (λ _. ne) (λ _. key-ne-header suffix b.key j free)) t p

    Kept-blobs :
        (bs : List BlobInput) (t : inner.State)
        → Accepted inner enc sound suffix view puts deletes bs
        → contains (keys_of bs) j ≡ false
        → Kept t
        → Kept (final (put_blobs inner enc suffix bs t))
    unfolding put_blobs contains
    Kept-blobs [] t h ne p = p
    Kept-blobs (b ∷ bs) t h ne p =
        continue-final Kept (put_blob inner enc suffix b t) _ (Kept-blob b t h.0 (ground arith) p)
          λ metas u p'.
            continue-final Kept (put_blobs inner enc suffix bs u) _
              (Kept-blobs bs u h.1 (ground arith) p') (λ _ _ p''. p'')

  put-others :
      (bs : List BlobInput) (s : inner.State) (j : Str)
      → contains (keys_of bs) j ≡ false
      → decrypted enc suffix view (final (put inner enc suffix bs s)) j
        ≡ decrypted enc suffix view s j
  unfolding put
  put-others bs s j ne = elim (accept-cases inner enc sound suffix view puts deletes bs) [
    | inr (m, e) ↦ rw (e, lift)
    | inl (us, vs, e, v, h) ↦
        rw (e, lift)
          (continue-final (Kept j (decrypted enc suffix view s j)) (put_blobs inner enc suffix bs s)
            _ (Kept-blobs j (decrypted enc suffix view s j) bs s h ne refl) (λ _ _ p. p))
  ]

  pub put-PutsView : PutsView (encrypted_store inner enc suffix) (decrypted enc suffix view)
  put-PutsView = record {
    stores = λ bs s r t q j.
        let (h, x) = put-Accepted bs s t r q in
        put_blobs-stores inner enc sound suffix view puts deletes bs s t r.blobs h x j;
    reports = λ bs s r t q.
        let (h, x) = put-Accepted bs s t r q in
        put_blobs-reports inner enc sound suffix view puts deletes bs s t r.blobs h x;
    rejects = put-rejects;
    others = put-others;
  }
