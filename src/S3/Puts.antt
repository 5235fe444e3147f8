-- ===== src/S3/Puts.antt =====
-- `put` of the S3 backend against the contract of `BlobStore`.
use xtax.Base.{
  ℕ, ◌^◌, ◌<◌, ltb, Str, true, false, Option, some, List, [], ◌∷◌, map, take, take-append-drop,
  length, take-full, ◌≡◌, refl, sym, ap, ◌∙◌, arith, ◌⊎◌, inl, inr, if◌then◌else◌, Bool-cases,
  Option-cases, str_eq,
}
use xtax.Error.{BlobStorageError}
use xtax.Exec.{ok, err, Outcome, returns, fails, Exec, try_map}
use xtax.Types.{Bytes, Stream, Timestamp, BlobInput, BlobMeta, PutResult}
use xtax.Store.Batches.{validate_all-cases, try_map-map}
use xtax.Store.Written.{Written, Batch, first-Batch, Put, finish-Put, Put-PutsView}
use xtax.Store.Contract.{View, keys_of, validate_all, PutsView}
use xtax.Validate.{validate_blob_key}
use xtax.S3.{Client, min_multipart_part_size}
use xtax.S3.Multipart.{after_part}
use xtax.S3.Service.{Part, Uploads, bucket_view, as_stream}
use xtax.S3.Writes.{Stored, Stores, put_object-Stores, upload_multipart-Stores}
use xtax.S3.Store.{chain, read_lookahead, put_blob, put_blobs, put, s3_store}

chain_rest : (n : ℕ) (reader : Stream) → chain (take n reader.bytes) (after_part n reader) ≡ reader
chain_rest n reader =
    ap (λ b. record { bytes = b; fault = reader.fault }) (take-append-drop n reader.bytes)

same_validation :
    (bs : List BlobInput)
    → try_map validate_blob_key (map (λ b. b.key) bs) ≡ validate_all (keys_of bs)
unfolding validate_all
same_validation bs = refl

module _ (bucket : Str) (part_size fuel : ℕ) (client : Client) (now : client.State → Timestamp)
    (objects : client.State → Str → Option Bytes) (parts : client.State → Str → List Part)
    (law : Uploads client objects parts) (pos : 0 < part_size) where
  small_size : (n : ℕ) → ltb n min_multipart_part_size ≡ true → n < 2 ^ 64
  unfolding min_multipart_part_size
  small_size n h = ground arith

  lookahead_full :
      (bytes : Bytes)
      → ltb (length bytes) min_multipart_part_size ≡ false
      → ltb (length (take min_multipart_part_size bytes)) min_multipart_part_size ≡ false
  lookahead_full bytes h = ground (arith, take-full min_multipart_part_size bytes)

  small-Stores :
      (blob : BlobInput) (s : client.State)
      → ltb (length blob.content.bytes) min_multipart_part_size ≡ true
      → Stores bucket client now objects parts law blob.key blob.content s
          (put_blob bucket part_size fuel client now blob s)
  unfolding put_blob read_lookahead
  small-Stores blob s h = elim (Option-cases blob.content.fault) [
    | inr (e, f) ↦ rw (h, f, put_blob, read_lookahead) (λ j. refl)
    | inl f ↦
        rw (h, f, put_blob, read_lookahead, h)
          (put_object-Stores bucket client now objects parts law blob.key blob.content.bytes s
            (small_size _ h))
  ]

  large-Stores :
      (blob : BlobInput) (s : client.State)
      → ltb (length blob.content.bytes) min_multipart_part_size ≡ false
      → Stores bucket client now objects parts law blob.key blob.content s
          (put_blob bucket part_size fuel client now blob s)
  unfolding put_blob read_lookahead
  large-Stores blob s h =
      rw
        (
          h,
          put_blob,
          read_lookahead,
          lookahead_full blob.content.bytes h,
          chain_rest min_multipart_part_size blob.content,
        )
        (upload_multipart-Stores bucket client now objects parts law part_size blob.key blob.content
          s pos)

  pub put_blob-Stores :
      (blob : BlobInput) (s : client.State)
      → Stores bucket client now objects parts law blob.key blob.content s
          (put_blob bucket part_size fuel client now blob s)
  put_blob-Stores blob s =
      elim (Bool-cases (ltb (length blob.content.bytes) min_multipart_part_size)) [
        | inl h ↦ small-Stores blob s h
        | inr h ↦ large-Stores blob s h
      ]

  abbrev view : client.State → View
  view = bucket_view client objects parts

  -- One blob, as the view of a store sees it.
  Stored-view :
      (k : Str) (content : Stream) (s t : client.State) (m : BlobMeta)
      → Stored bucket client now objects parts law k content s m t
      → (j : Str) → view t j ≡ (if str_eq k j then some content else view s j)
  Stored-view k content s t m h j = elim (Bool-cases (str_eq k j)) [
    | inr q ↦ rw (h.written j, q) refl
    | inl q ↦
        rw (h.written j, q)
          (ap (λ f. some (record { bytes = content.bytes; fault = f })) (sym h.whole))
  ]

  blob-Written :
      (blob : BlobInput) (s : client.State) (o : Outcome client.State BlobMeta)
      → Stores bucket client now objects parts law blob.key blob.content s o
      → Written view blob.key blob.content s o
  blob-Written blob s (returns m t) h = (h.key, Stored-view blob.key blob.content s t m h)
  blob-Written blob s (fails e t) h = λ j q. ap as_stream (h j)

  put_blobs-Batch :
      (bs : List BlobInput) (s : client.State)
      → Batch view bs s (put_blobs bucket part_size fuel client now bs s)
  unfolding put_blobs
  put_blobs-Batch [] s = (refl, λ j. refl)
  put_blobs-Batch (b ∷ bs) s =
      first-Batch view b bs s (put_blob bucket part_size fuel client now b s) _
        (blob-Written b s _ (put_blob-Stores b s)) (put_blobs-Batch bs)

  abbrev s3_put : List BlobInput → Exec client.State PutResult
  s3_put = put bucket part_size fuel client now

  -- The batch is refused before anything is sent, or sent blob by blob.
  one_or_other :
      (bs : List BlobInput) (s : client.State)
      → ((us : List (Unit {0})) × (validate_all (keys_of bs) ≡ ok us) × Put view bs s (s3_put bs s))
        ⊎ ((m : Str) × (validate_all (keys_of bs) ≡ err (BlobStorageError.invalid_input m))
            × (s3_put bs s ≡ fails (BlobStorageError.invalid_input m) s))
  unfolding put
  one_or_other bs s = elim (validate_all-cases (keys_of bs)) [
    | inr (m, e) ↦ inr (
      m,
      e,
      rw (try_map-map validate_blob_key (λ (b : BlobInput). b.key) bs ∙ same_validation bs ∙ e, put)
          refl,
    )
    | inl (us, e) ↦ inl (
      us,
      e,
      rw (try_map-map validate_blob_key (λ (b : BlobInput). b.key) bs ∙ same_validation bs ∙ e, put)
          (finish-Put view bs s _ (put_blobs-Batch bs s)),
    )
  ]

  -- `put` of the S3 backend keeps the contract, for blobs of any size, sent whole or in parts: a
  -- batch that succeeds is written in order and reported key by key, one with an invalid key sends
  -- nothing, and no other key is touched, also where a request is refused on the way.
  pub put-PutsView : PutsView (s3_store bucket part_size fuel client now) view
  put-PutsView = Put-PutsView (s3_store bucket part_size fuel client now) view one_or_other
