-- ===== src/Encrypt/Stores.antt =====
-- `put` of the encryption layer keeps the contract.
use xtax.Base.{
  Str, false, not, none, some, List, [], ◌∷◌, ◌++◌, map, ◌≡◌, refl, ap, ◌∙◌, arith, str_eq,
  ends_with, All, filter_by, Bool-cases, inl, inr, ◌⊎◌, if◌then◌else◌,
}
use xtax.Error.{BlobStorageError}
use xtax.Exec.{ok, err, returns, ◌>>=◌, pure, try_map, continue-eq-returns}
use xtax.Types.{Stream, BlobInput, BlobMeta, with_size, cursor}
use xtax.Store.{BlobStore}
use xtax.Store.Contract.{
  write_all_same, View, PutsView, DeletesView, write_all, keys_of, validate_all,
}
use xtax.Encrypt.{error_aware_reader, validate_put, put_blob, put_blobs}
use xtax.Encrypt.Provider.{EncryptionProvider, IsSound}
use xtax.Encrypt.View.{header-ne-key, key-ne-header, key-ne-ending, header-eq-header, decrypted}
use xtax.Encrypt.Writes.{validate_put-cases, cipher_input, header_input, Written, put_blob-returns}

-- A stream with no fault is the cursor over its bytes.
reader_of_input :
    (k : Str) (st : Stream)
    → st.fault ≡ none
    → error_aware_reader k (record { plaintext = st.bytes; failure = none }) ≡ st
unfolding error_aware_reader
reader_of_input k st h = ground arith

module _ (inner : BlobStore) (enc : EncryptionProvider inner.State) (sound : IsSound enc)
    (suffix : Str) (view : inner.State → View) (puts : PutsView inner view)
    (deletes : DeletesView inner view) where
  -- The two blobs of a round, at a key and at a header.
  Written-view :
      (b : BlobInput) (s t : inner.State) (ms : List BlobMeta)
      (w : Written inner enc suffix b s t ms) (i : Str)
      → view t i ≡ (
          if str_eq (b.key ++ suffix) i
          then some (cursor w.bytes)
          else if str_eq b.key i
          then some (cursor (enc.encrypt_stream b.content s).ciphertext)
          else view s i)
  unfolding with_size
  Written-view b s t ms w i =
      puts.stores (header_input inner enc suffix b w.bytes ∷ []) w.between w.result' t
        w.header_written i
      ∙ ap (λ v. if str_eq (b.key ++ suffix) i then some (cursor w.bytes) else v)
          (puts.stores (cipher_input inner enc suffix b s ∷ []) s w.result w.between w.data_written
            i)

  Written-decrypted :
      (b : BlobInput) (s t : inner.State) (ms : List BlobMeta)
      → ends_with suffix b.key ≡ false
      → Written inner enc suffix b s t ms
      → (j : Str)
      → decrypted enc suffix view t j
        ≡ (if str_eq b.key j then some b.content else decrypted enc suffix view s j)
  Written-decrypted b s t ms free w j = elim (Bool-cases (ends_with suffix j)) [
    | inl e ↦ rw (e, key-ne-ending suffix b.key j free e)
    | inr e ↦ elim (Bool-cases (str_eq b.key j)) [
      | inl q ↦
          rw
            (
              e,
              q,
              Written-view b s t ms w j,
              Written-view b s t ms w (j ++ suffix),
              header-ne-key suffix b.key j e,
              header-eq-header suffix b.key j,
              q,
            )
            (ap (λ d. some (error_aware_reader j d))
                (sound.round_trip b.content s w.bytes w.header_made)
              ∙ ap some
                  (reader_of_input j b.content (sound.complete b.content s w.bytes w.header_made)))
      | inr q ↦ rw (
        e,
        q,
        Written-view b s t ms w j,
        Written-view b s t ms w (j ++ suffix),
        header-ne-key suffix b.key j e,
        header-eq-header suffix b.key j,
        key-ne-header suffix b.key j free,
        q,
      )
    ]
  ]

  abbrev pub Accepted : List BlobInput → Type 0
  Accepted bs = All (λ b. ends_with suffix b.key ≡ false) bs

  put_blobs-cons :
      (b : BlobInput) (bs : List BlobInput) (s t : inner.State) (ms : List BlobMeta)
      → put_blobs inner enc suffix (b ∷ bs) s ≡ returns ms t
      → (ms' ms'' : List BlobMeta) × (u : inner.State) × (Written inner enc suffix b s u ms')
        × (put_blobs inner enc suffix bs u ≡ returns ms'' t)
        × (ms ≡ ms' ++ ms'')
  unfolding put_blobs
  put_blobs-cons b bs s t ms q =
      let (ms', u, x, y) =
        continue-eq-returns (put_blob inner enc suffix b s)
          (λ metas. put_blobs inner enc suffix bs >>= λ rest. pure (metas ++ rest)) q in
      let (ms'', v, z, z') =
        continue-eq-returns (put_blobs inner enc suffix bs u) (λ rest. pure (ms' ++ rest)) y in
      (ms', ms'', u, put_blob-returns inner enc suffix b s u ms' x, ground arith, ground arith)

  pub put_blobs-stores :
      (bs : List BlobInput) (s t : inner.State) (ms : List BlobMeta)
      → Accepted bs
      → put_blobs inner enc suffix bs s ≡ returns ms t
      → (j : Str) → decrypted enc suffix view t j ≡ write_all bs (decrypted enc suffix view s) j
  unfolding put_blobs
  put_blobs-stores [] s t ms h q j =
      let e : t ≡ s = ground arith in ap (λ u. decrypted enc suffix view u j) e
  put_blobs-stores (b ∷ bs) s t ms h q j =
      let (ms', ms'', u, w, z, _) = put_blobs-cons b bs s t ms q in
      put_blobs-stores bs u t ms'' h.1 z j
      ∙ write_all_same bs _ _ j (Written-decrypted b s u ms' h.0 w)

  abbrev keys_of_metas : List BlobMeta → List Str
  keys_of_metas = map (λ m. m.key)

  data_metas-single :
      (xs : List BlobMeta) (k : Str)
      → ends_with suffix k ≡ false
      → keys_of_metas xs ≡ k ∷ []
      → keys_of_metas (filter_by (λ m. not (ends_with suffix m.key)) xs) ≡ k ∷ []
  data_metas-single [] k free h = cc
  data_metas-single (x ∷ []) k free h = let e : x.key ≡ k = ground arith in rw (e, free)
  data_metas-single (x ∷ y ∷ xs) k free h = cc

  keys_of_metas-append :
      (xs ys : List BlobMeta) → keys_of_metas (xs ++ ys) ≡ keys_of_metas xs ++ keys_of_metas ys
  keys_of_metas-append [] ys = refl
  keys_of_metas-append (x ∷ xs) ys = ap (λ ks. x.key ∷ ks) (keys_of_metas-append xs ys)

  pub put_blobs-reports :
      (bs : List BlobInput) (s t : inner.State) (ms : List BlobMeta)
      → Accepted bs
      → put_blobs inner enc suffix bs s ≡ returns ms t
      → keys_of_metas ms ≡ keys_of bs
  unfolding put_blobs with_size
  put_blobs-reports [] s t ms h q = let e : ms ≡ [] = ground arith in ap keys_of_metas e
  put_blobs-reports (b ∷ bs) s t ms h q =
      let (ms', ms'', u, w, z, e) = put_blobs-cons b bs s t ms q in
      let first : keys_of_metas ms' ≡ b.key ∷ [] =
        ap keys_of_metas w.metas
        ∙ data_metas-single w.result.blobs b.key h.0 (
            puts.reports (cipher_input inner enc suffix b s ∷ []) s w.result w.between
              w.data_written) in
      ap keys_of_metas e
      ∙ keys_of_metas-append ms' ms''
      ∙ rw (first, put_blobs-reports bs u t ms'' h.1 z)

  -- The whole batch is validated before the loop starts.
  pub accept-cases :
      (bs : List BlobInput)
      → ((us : List (Unit {0})) × (vs : List (Unit {0})) × (try_map
              (λ b. validate_put suffix b.key)
              bs
            ≡ ok us)
          × (validate_all (keys_of bs) ≡ ok vs)
          × Accepted bs)
        ⊎ ((m : Str) × (try_map (λ b. validate_put suffix b.key) bs
              ≡ err (BlobStorageError.invalid_input m)))
  unfolding try_map validate_all
  accept-cases [] = inl ([], [], refl, refl, tt)
  accept-cases (b ∷ bs) = elim (validate_put-cases suffix b.key) [
    | inr (m, e) ↦ inr (m, rw e)
    | inl (e, free, v) ↦ elim (accept-cases bs) [
      | inr (m, e') ↦ inr (m, rw (e, e'))
      | inl (us, vs, e', v', h) ↦ inl (tt ∷ us, tt ∷ vs, rw (e, e'), rw (v, v'), (free, h))
    ]
  ]
