-- ===== src/Encrypt/Rollback.antt =====
-- What a `put` of the encryption layer that fails leaves of the blob on which it failed.
use xtax.Base.{
  Str, true, none, List, [], ◌∷◌, ◌++◌, ◌≡◌, refl, sym, ap, ◌∙◌, ◌⊎◌, inl, inr, contains,
  str_eq_refl,
}
use xtax.Error.{BlobStorageError}
use xtax.Exec.{
  Result, ok, err, Outcome, returns, fails, final, match_outcome, Outcome-cases, Result-cases,
  try_map,
}
use xtax.Types.{Bytes, BlobInput, BlobMeta, PutResult}
use xtax.Store.{BlobStore}
use xtax.Store.Contract.{View, DeletesView}
use xtax.Encrypt.{
  header_of, validate_put, roll_back, put_header, finish_blob, put_blob, put_blobs, put,
}
use xtax.Encrypt.Provider.{EncryptionProvider}
use xtax.Encrypt.Writes.{cipher_input, header_input}

-- A failure is the same at every type.
same_failure :
    {S A B : Type 0} (m : Outcome S A) (x e : BlobStorageError) (u t : S)
    → m ≡ fails x u
    → Path (Outcome S B) (fails x u) (fails e t)
    → m ≡ fails e t
same_failure m x e u t w q = cc

holds_first : (k : Str) → contains (k ∷ []) k ≡ true
unfolding contains
holds_first k = rw (str_eq_refl k) refl

module _ (inner : BlobStore) (enc : EncryptionProvider inner.State) (suffix : Str)
    (view : inner.State → View) where
  -- What `header_of` makes of the encryption of a blob.
  abbrev pub header_made : BlobInput → inner.State → Result Bytes
  header_made b u = header_of b.key (enc.encrypt_stream b.content u).ending

  -- The ciphertext is deleted, or its deletion failed too.
  abbrev pub RolledBack : Str → inner.State → inner.State → Type 0
  RolledBack k w t =
      ((inner.delete (k ∷ []) w ≡ returns tt t) × (view t k ≡ none))
      ⊎ ((x : BlobStorageError) × (inner.delete (k ∷ []) w ≡ fails x t))

  -- After the ciphertext was written: there is no header, or the write of the header failed. Either
  -- error is the one that is returned, and the ciphertext is rolled back.
  abbrev pub GivenUp :
      BlobInput → inner.State → inner.State → BlobStorageError → inner.State → Type 0
  GivenUp b u v e t =
      ((header_made b u ≡ err e) × RolledBack b.key v t)
      ⊎ ((h : Bytes) × (w : inner.State) × (header_made b u ≡ ok h)
          × (inner.put (header_input inner enc suffix b h ∷ []) v ≡ fails e w)
          × RolledBack b.key w t)

  -- How the round of one blob fails: the write of the ciphertext did, or it is given up after it.
  abbrev pub BlobFailed : BlobInput → inner.State → BlobStorageError → inner.State → Type 0
  BlobFailed b u e t =
      (inner.put (cipher_input inner enc suffix b u ∷ []) u ≡ fails e t)
      ⊎ ((r : PutResult) × (v : inner.State) × (inner.put (cipher_input inner enc suffix b u ∷ []) u
            ≡ returns r v)
          × GivenUp b u v e t)

  -- The blobs before the one on which the batch failed were put, and those after it were not tried.
  pub record FailedOn (bs : List BlobInput) (s : inner.State) (e : BlobStorageError)
      (t : inner.State) : Type 0 where
    pub before : List BlobInput
    pub blob : BlobInput
    pub after : List BlobInput
    pub metas : List BlobMeta
    pub start : inner.State
    pub parts : bs ≡ before ++ blob ∷ after
    pub earlier : put_blobs inner enc suffix before s ≡ returns metas start
    pub failed : BlobFailed blob start e t

  module _ (law : DeletesView inner view) where
    roll_back-RolledBack :
        (k : Str) (x e : BlobStorageError) (w t : inner.State)
        → roll_back inner enc suffix k x w ≡ fails e t
        → (x ≡ e) × RolledBack k w t
    unfolding roll_back
    roll_back-RolledBack k x e w t q =
        let same : final (inner.delete (k ∷ []) w) ≡ t = cc in
        let error : x ≡ e = cc in
        (
          error,
          elim (Outcome-cases (inner.delete (k ∷ []) w)) [
            | inl (_, u, d) ↦
                let d' : inner.delete (k ∷ []) w ≡ returns tt t =
                  d ∙ ap (returns tt) (sym (ap final d) ∙ same) in
                inl (d', law.gone (k ∷ []) w t d' k (holds_first k))
            | inr (y, u, d) ↦ inr (y, d ∙ ap (fails y) (sym (ap final d) ∙ same))
          ],
        )

    finish_blob-GivenUp :
        (b : BlobInput) (r : PutResult) (u v t : inner.State) (e : BlobStorageError)
        (o : Result Bytes)
        → header_made b u ≡ o
        → finish_blob inner enc suffix b.key r o v ≡ fails e t
        → GivenUp b u v e t
    unfolding finish_blob put_header
    finish_blob-GivenUp b r u v t e (err x) made q =
        let (same, back) = roll_back-RolledBack b.key x e v t q in inl (made ∙ ap err same, back)
    finish_blob-GivenUp b r u v t e (ok h) made q =
        elim (Outcome-cases (inner.put (header_input inner enc suffix b h ∷ []) v)) [
          | inl (r', w, p) ↦ cc (rw (p, match_outcome) at q)
          | inr (x, w, p) ↦
              let (same, back) = roll_back-RolledBack b.key x e w t (rw (p, match_outcome) at q) in
              inr (h, w, made, p ∙ ap (λ y. fails y w) same, back)
        ]

    put_blob-BlobFailed :
        (b : BlobInput) (e : BlobStorageError) (u t : inner.State)
        → put_blob inner enc suffix b u ≡ fails e t
        → BlobFailed b u e t
    unfolding put_blob
    put_blob-BlobFailed b e u t q =
        elim (Outcome-cases (inner.put (cipher_input inner enc suffix b u ∷ []) u)) [
          | inr (x, v, w) ↦ inl (
              same_failure (inner.put (cipher_input inner enc suffix b u ∷ []) u) x e v t w
                (rw (w, match_outcome) at q))
          | inl (r, v, w) ↦ inr (
            r,
            v,
            w,
            finish_blob-GivenUp b r u v t e (header_made b u) refl (rw (w, match_outcome) at q),
          )
        ]

    put_blobs-FailedOn :
        (bs : List BlobInput) (e : BlobStorageError) (s t : inner.State)
        → put_blobs inner enc suffix bs s ≡ fails e t
        → FailedOn bs s e t
    unfolding put_blobs
    put_blobs-FailedOn [] e s t q = cc q
    put_blobs-FailedOn (b ∷ bs) e s t q = elim (Outcome-cases (put_blob inner enc suffix b s)) [
      | inr (x, u, w) ↦ record {
        before = [];
        blob = b;
        after = bs;
        metas = [];
        start = s;
        parts = refl;
        earlier = refl;
        failed =
            put_blob-BlobFailed b e s t
              (same_failure (put_blob inner enc suffix b s) x e u t w (rw w at q));
      }
      | inl (ms, u, w) ↦ elim (Outcome-cases (put_blobs inner enc suffix bs u)) [
        | inr (x, z, y) ↦
            let later =
              put_blobs-FailedOn bs e u t
                (same_failure (put_blobs inner enc suffix bs u) x e z t y (rw (w, y) at q)) in
            record {
              before = b ∷ later.before;
              blob = later.blob;
              after = later.after;
              metas = ms ++ later.metas;
              start = later.start;
              parts = ap (λ r. b ∷ r) later.parts;
              earlier = rw (w, later.earlier) refl;
              failed = later.failed;
            }
        | inl (ns, z, y) ↦ cc (rw (w, y) at q)
      ]
    ]

    -- Over a store that keeps the contract of `delete`, a `put` that fails was refused before
    -- anything was written, or failed on one blob: all blobs before it were put, none after it was
    -- tried, and its own round failed with the error that is returned. Either the write of its
    -- ciphertext failed, or there was no header or no way to write it after the ciphertext was
    -- written; then the last call was the deletion of the ciphertext, and either it succeeded and the
    -- inner store has nothing at the key, or it failed, in which case the data may stay behind.
    pub put-FailedOn :
        (bs : List BlobInput) (e : BlobStorageError) (s t : inner.State)
        → put inner enc suffix bs s ≡ fails e t
        → ((try_map (λ (b : BlobInput). validate_put suffix b.key) bs ≡ err e) × (t ≡ s))
          ⊎ FailedOn bs s e t
    unfolding put
    put-FailedOn bs e s t q =
        elim (Result-cases (try_map (λ (b : BlobInput). validate_put suffix b.key) bs)) [
          | inr (x, w) ↦
              let q' = rw w at q in
              let same : x ≡ e = cc in let kept : t ≡ s = cc in inl (w ∙ ap err same, kept)
          | inl (us, w) ↦ elim (Outcome-cases (put_blobs inner enc suffix bs s)) [
            | inr (x, u, y) ↦ inr (
                put_blobs-FailedOn bs e s t
                  (same_failure (put_blobs inner enc suffix bs s) x e u t y (rw (w, y) at q)))
            | inl (ms, u, y) ↦ cc (rw (w, y) at q)
          ]
        ]
