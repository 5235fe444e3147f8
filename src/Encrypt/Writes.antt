-- ===== src/Encrypt/Writes.antt =====
-- One round of `put` of the encryption layer: what it writes, and what it may leave behind.
use xtax.Base.{
  ℕ, Str, false, none, some, List, [], ◌∷◌, ◌++◌, length, ◌≡◌, refl, arith, ends_with, inl, inr,
  ◌⊎◌,
}
use xtax.Error.{BlobStorageError}
use xtax.Exec.{Result, ok, err, returns, final, match_outcome, Outcome-cases, Result-cases}
use xtax.Types.{Bytes, Stream, BlobInput, BlobMeta, PutResult, with_size, cursor}
use xtax.Store.{BlobStore}
use xtax.Validate.{validate_blob_key}
use xtax.Validate.Nested.{validate_blob_key-err}
use xtax.Encrypt.{header_of, validate_put, data_metas, roll_back, put_header, finish_blob, put_blob}
use xtax.Encrypt.Provider.{TaskEnd, EncryptionProvider}
use xtax.Encrypt.Reads.{collision-cases}

-- Before anything is written a key is accepted, or the batch is rejected.
pub validate_put-cases :
    (suffix k : Str)
    → ((validate_put suffix k ≡ ok tt)
        × (ends_with suffix k ≡ false)
        × (validate_blob_key k ≡ ok tt))
      ⊎ ((m : Str) × (validate_put suffix k ≡ err (BlobStorageError.invalid_input m)))
unfolding validate_put
validate_put-cases suffix k = elim (Result-cases (validate_blob_key k)) [
  | inr (x, e) ↦ let (m, q) = validate_blob_key-err k x e in inr (m, ground (arith, q))
  | inl (u, e) ↦ elim (collision-cases suffix k) [
    | inr (m, e') ↦ inr (m, ground arith)
    | inl (free, e') ↦ elim (Result-cases (validate_blob_key (k ++ suffix))) [
      | inr (x, e'') ↦
          let (m, q) = validate_blob_key-err (k ++ suffix) x e'' in inr (m, ground (arith, q))
      | inl (u', e'') ↦ inl (ground arith, free, e)
    ]
  ]
]

module _ (inner : BlobStore) (enc : EncryptionProvider inner.State) (suffix : Str) where
  abbrev pub cipher_input : BlobInput → inner.State → BlobInput
  cipher_input b s =
      with_size b.key (cursor (enc.encrypt_stream b.content s).ciphertext)
        (elim b.size_hint [ none ↦ 0 | some n ↦ n ])

  abbrev pub header_input : BlobInput → Bytes → BlobInput
  header_input b h = with_size (b.key ++ suffix) (cursor h) (length h)

  -- The two writes of a round that succeeds.
  pub record Written (b : BlobInput) (s t : inner.State) (ms : List BlobMeta) : Type 0 where
    pub between : inner.State
    pub result : PutResult
    pub result' : PutResult
    pub bytes : Bytes
    pub data_written : inner.put (cipher_input b s ∷ []) s ≡ returns result between
    pub header_made : (enc.encrypt_stream b.content s).ending ≡ TaskEnd.header bytes
    pub header_written : inner.put (header_input b bytes ∷ []) between ≡ returns result' t
    pub metas : ms ≡ data_metas inner enc suffix result

  put_header-returns :
      (b : BlobInput) (r : PutResult) (h : Bytes) (u t : inner.State) (ms : List BlobMeta)
      → put_header inner enc suffix b.key r h u ≡ returns ms t
      → (r' : PutResult) × (inner.put (header_input b h ∷ []) u ≡ returns r' t)
        × (ms ≡ data_metas inner enc suffix r)
  unfolding put_header roll_back
  put_header-returns b r h u t ms q = elim (Outcome-cases (inner.put (header_input b h ∷ []) u)) [
    | inl (r', v, e) ↦ let w = rw (e, match_outcome) at q in (r', ground arith, ground arith)
    | inr (x, v, e) ↦ cc (rw (e, match_outcome) at q)
  ]

  finish_blob-returns :
      (b : BlobInput) (r : PutResult) (ending : TaskEnd) (u t : inner.State) (ms : List BlobMeta)
      → finish_blob inner enc suffix b.key r (header_of b.key ending) u ≡ returns ms t
      → (h : Bytes) × (ending ≡ TaskEnd.header h)
        × (put_header inner enc suffix b.key r h u ≡ returns ms t)
  unfolding finish_blob header_of roll_back
  finish_blob-returns b r (TaskEnd.header h) u t ms q = (h, refl, q)
  finish_blob-returns b r _ u t ms q = cc

  pub put_blob-returns :
      (b : BlobInput) (s t : inner.State) (ms : List BlobMeta)
      → put_blob inner enc suffix b s ≡ returns ms t
      → Written b s t ms
  unfolding put_blob
  put_blob-returns b s t ms q = elim (Outcome-cases (inner.put (cipher_input b s ∷ []) s)) [
    | inr (x, v, e) ↦ cc (rw (e, match_outcome) at q)
    | inl (r, u, e) ↦
        let (h, made, w) = finish_blob-returns b r _ u t ms (rw (e, match_outcome) at q) in
        let (r', x, y) = put_header-returns b r h u t ms w in
        record {
          between = u;
          result = r;
          result' = r';
          bytes = h;
          data_written = e;
          header_made = made;
          header_written = x;
          metas = y;
        }
  ]

  -- A round, however it ends, has made at most these calls: the write of the data, the write of a
  -- header, and the deletion of the data.
  module _ (P : inner.State → Type 0) (b : BlobInput)
      (keeps_data : (c : Stream) (n : ℕ) (s : inner.State)
        → P s
        → P (final (inner.put (with_size b.key c n ∷ []) s)))
      (keeps_header : (h : Bytes) (s : inner.State)
        → P s
        → P (final (inner.put (header_input b h ∷ []) s)))
      (keeps_delete : (s : inner.State) → P s → P (final (inner.delete (b.key ∷ []) s))) where
    put_header-final :
        (r : PutResult) (h : Bytes) (s : inner.State)
        → P s
        → P (final (put_header inner enc suffix b.key r h s))
    unfolding put_header roll_back
    put_header-final r h s p = elim (Outcome-cases (inner.put (header_input b h ∷ []) s)) [
      | inl (r', v, e) ↦ rw (e, match_outcome) (rw e at (keeps_header h s p))
      | inr (x, v, e) ↦ rw (e, match_outcome) (keeps_delete v (rw e at (keeps_header h s p)))
    ]

    finish_blob-final :
        (r : PutResult) (o : Result Bytes) (s : inner.State)
        → P s
        → P (final (finish_blob inner enc suffix b.key r o s))
    unfolding finish_blob roll_back
    finish_blob-final r (ok h) s p = put_header-final r h s p
    finish_blob-final r (err x) s p = keeps_delete s p

    pub put_blob-final : (s : inner.State) → P s → P (final (put_blob inner enc suffix b s))
    unfolding put_blob
    put_blob-final s p =
        let kept : P (final (inner.put (cipher_input b s ∷ []) s)) = keeps_data _ _ s p in
        elim (Outcome-cases (inner.put (cipher_input b s ∷ []) s)) [
          | inl (r, v, e) ↦ rw (e, match_outcome) (finish_blob-final r _ v (rw e at kept))
          | inr (x, v, e) ↦ rw (e, match_outcome) (rw e at kept)
        ]
