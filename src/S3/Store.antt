-- ===== src/S3/Store.antt =====
-- crates/xtax-blob-storage/src/s3/store.rs: the S3 backend as a store.
use xtax.Base.{
  ℕ, ltb, Str, Bool, true, false, text, none, some, List, [], ◌∷◌, ◌++◌, length, take,
  if◌then◌else◌,
}
use xtax.Error.{BlobStorageError, Cause}
use xtax.Exec.{Result, ok, err, returns, fails, Exec, pure, lift, ◌>>=◌, ◌>>◌, try_map}
use xtax.Types.{Bytes, Stream, Timestamp, BlobInput, BlobMeta, PutResult, multiple}
use xtax.Store.{BlobStore}
use xtax.Validate.{validate_blob_key}
use xtax.Encrypt.{about_key}
use xtax.S3.{
  Client, answered, refused, min_multipart_part_size, is_misconfigured, is_not_found, misconfigured,
  put_object, get_object_output,
}
use xtax.S3.Multipart.{upload_multipart, after_part}
use xtax.S3.Deletion.{delete}
use xtax.S3.Listing.{or_default, list, list_with_metadata, visit}

-- The bytes that `put` reads before it chooses how to upload: those of a whole small blob, or as
-- many as the buffer holds, which is made for the least size of a part.
unfoldable pub read_lookahead : Str → Stream → Result Bytes
read_lookahead key reader =
    if ltb (length reader.bytes) min_multipart_part_size
    then elim reader.fault [
      | none ↦ ok reader.bytes
      | some e ↦ err (
          BlobStorageError.storage (about_key (text "failed to read initial chunk for key ") key)
            (some (Cause.io e)))
    ]
    else ok (take min_multipart_part_size reader.bytes)

-- `lookahead.chain(reader)`, with what is left of the reader.
abbrev pub chain : Bytes → Stream → Stream
chain first reader = record { bytes = first ++ reader.bytes; fault = reader.fault }

module _ (bucket : Str) (part_size fuel : ℕ) (client : Client)
    (now : client.State → Timestamp) where
  unfoldable pub put_blob : BlobInput → Exec client.State BlobMeta
  unfolding read_lookahead
  put_blob blob = do
    lookahead ← lift (read_lookahead blob.key blob.content)
    if ltb (length lookahead) min_multipart_part_size
        then put_object bucket client now blob.key lookahead
        else upload_multipart bucket client now part_size blob.key
            (chain lookahead (after_part min_multipart_part_size blob.content))

  unfoldable pub put_blobs : List BlobInput → Exec client.State (List BlobMeta)
  put_blobs [] = pure []
  put_blobs (blob ∷ blobs) = do meta ← put_blob blob; rest ← put_blobs blobs; pure (meta ∷ rest)

  unfoldable pub put : List BlobInput → Exec client.State PutResult
  put blobs = do
    lift (try_map (λ b. validate_blob_key b.key) blobs)
    metas ← put_blobs blobs
    pure (multiple metas)

  unfoldable pub get : Str → Exec client.State Stream
  get key = do
    lift (validate_blob_key key)
    output ← get_object_output bucket client now key
    pure output.body

  unfoldable pub exists : Str → Exec client.State Bool
  exists key = do
    lift (validate_blob_key key)
    λ s. elim (client.head_object key s) [
      | answered _ t ↦ returns true t
      | refused code t ↦
          if is_misconfigured code
          then fails (misconfigured bucket) t
          else if is_not_found code
          then returns false t
          else fails
              (BlobStorageError.storage (about_key (text "S3 head failed for key ") key)
                (some (Cause.service code)))
              t
    ]

  unfoldable pub get_with_metadata : Str → Exec client.State (BlobMeta × Stream)
  get_with_metadata key = do
    lift (validate_blob_key key)
    output ← get_object_output bucket client now key
    pure (
      record {
        key = key;
        stored_size = or_default output.content_length 0;
        modified_at = or_default output.last_modified 0;
        etag = output.e_tag;
      },
      output.body,
    )

  -- `S3BlobStore`, as a store.
  abbrev pub s3_store : BlobStore
  s3_store = record {
    State = client.State;
    put = put;
    get = get;
    delete = delete bucket client;
    list = list bucket client fuel;
    exists = exists;
    get_with_metadata = get_with_metadata;
    visit = visit bucket client fuel;
    list_with_metadata = list_with_metadata bucket client fuel;
  }
