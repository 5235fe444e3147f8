-- ===== src/Encrypt.antt =====
-- crates/xtax-blob-storage/src/encrypt/store.rs: envelope encryption over a store. The ciphertext
-- of a key and its header are two blobs of the inner store.
pub mod Provider
pub mod Layer
pub mod Rekey
pub mod Rekeying
pub mod View
pub mod Reads
pub mod Opening
pub mod Writes
pub mod Stores
pub mod Batch
pub mod Deletes
pub mod Listing
pub mod Lawful
pub mod Rollback
use xtax.Base.{
  ℕ, Str, Bool, true, false, not, Option, none, some, List, [], ◌∷◌, ◌++◌, length, text, ends_with,
  contains, filter_by, is_empty, str_le, if◌then◌else◌,
}
use xtax.Error.{
  BlobStorageError, KeyError, BatchError, EncryptionError, IoError, IoErrorKind, Cause,
}
use xtax.Exec.{
  Result, ok, err, Outcome, returns, fails, final, Exec, pure, raise, lift, map_err, match_outcome,
  continue, ◌>>=◌, ◌>>◌, and_then, try_map,
}
use xtax.Types.{
  Bytes, Stream, BlobInput, BlobMeta, PutResult, with_size, multiple, read_all, cursor,
}
use xtax.Filter.{ListFilter, suffix_filter}
use xtax.Store.{BlobStore, BlobVisitor}
use xtax.Validate.{validate_blob_key}
use xtax.Encrypt.Provider.{TaskEnd, Encryption, Decryption, EncryptionProvider}

unfoldable pub default_header_suffix : Str
default_header_suffix = text ".enc-header"

-- A message that quotes the key.
pub about_key : Str → Str → Str
about_key message key = message ++ (text "'" ++ (key ++ text "'"))

-- `NotFound` of the inner store is named by the key that was asked for.
unfoldable pub name_missing : Str → BlobStorageError → BlobStorageError
name_missing key (BlobStorageError.not_found _) = BlobStorageError.not_found key
name_missing key other = other

-- `ErrorAwareReader` over the pipe of the decryption: its bytes, and at the end of them an I/O
-- error if the task recorded one.
unfoldable pub error_aware_reader : Str → Decryption → Stream
error_aware_reader key d = record {
  bytes = d.plaintext;
  fault = elim d.failure [
    | none ↦ none
    | some _ ↦ some (record {
      kind = IoErrorKind.other;
      description = text "encryption error: " ++ about_key (text "decryption failed for key ") key;
    })
  ];
}

-- What `put` makes of the way in which the encryption task ended.
unfoldable pub header_of : Str → TaskEnd → Result Bytes
header_of key (TaskEnd.header bytes) = ok bytes
header_of key (TaskEnd.refused e) = err (
    BlobStorageError.encryption (about_key (text "encryption failed for key ") key)
      (some (Cause.provider e)))
header_of key TaskEnd.panicked = err (
    BlobStorageError.encryption (about_key (text "encryption task failed for key ") key)
      (some Cause.join_error))
header_of key TaskEnd.pending = err (
    BlobStorageError.encryption
      (about_key (text "timed out waiting for encryption header for key ") key)
      (some Cause.elapsed))

-- The keys of a batch error that the caller may see.
unfoldable pub visible_batch : List Str → BatchError → BatchError
visible_batch keys b = record {
  succeeded = filter_by (λ s. contains keys s) b.succeeded;
  errors = filter_by (λ e. contains keys e.key) b.errors;
}

module _ (header_suffix : Str) where
  unfoldable pub header_key : Str → Str
  header_key key = key ++ header_suffix

  unfoldable pub validate_key_no_header_collision : Str → Result (Unit {0})
  validate_key_no_header_collision key =
      if ends_with header_suffix key
      then err (
          BlobStorageError.invalid_input (
            text "blob key must not end with reserved header suffix '"
            ++ (header_suffix ++ about_key (text "': ") key)))
      else ok tt

  -- What `put` asks of one key before anything is written.
  unfoldable pub validate_put : Str → Result (Unit {0})
  unfolding header_key validate_key_no_header_collision
  validate_put key =
      and_then (validate_blob_key key)
        λ _. and_then (validate_key_no_header_collision key) λ _. validate_blob_key (header_key key)

  -- `flat_map` over the keys: each with its header.
  unfoldable pub with_headers : List Str → List Str
  unfolding header_key
  with_headers [] = []
  with_headers (k ∷ ks) = k ∷ header_key k ∷ with_headers ks

module _ (inner : BlobStore) (enc : EncryptionProvider inner.State) (header_suffix : Str) where
  -- `let _ = self.inner.delete(&[&key]).await; return Err(error)`.
  unfoldable pub roll_back : Str → BlobStorageError → Exec inner.State (List BlobMeta)
  roll_back key error s = fails error (final (inner.delete (key ∷ []) s))

  abbrev data_metas : PutResult → List BlobMeta
  data_metas result = filter_by (λ m. not (ends_with header_suffix m.key)) result.blobs

  -- The second write of a blob.
  unfoldable pub put_header : Str → PutResult → Bytes → Exec inner.State (List BlobMeta)
  unfolding header_key with_size
  put_header key result header s =
      let input = with_size (header_key header_suffix key) (cursor header) (length header) in
      match_outcome (inner.put (input ∷ []) s) (λ _ t. returns (data_metas result) t)
        (λ e t. roll_back key e t)

  -- The `match` on the result of the encryption, after the data was written.
  unfoldable pub finish_blob : Str → PutResult → Result Bytes → Exec inner.State (List BlobMeta)
  finish_blob key result (ok header) s = put_header key result header s
  finish_blob key result (err e) s = roll_back key e s

  -- One round of the loop over the blobs: the task runs while the inner store reads its pipe.
  unfoldable pub put_blob : BlobInput → Exec inner.State (List BlobMeta)
  unfolding with_size
  put_blob blob s =
      let task : Encryption = enc.encrypt_stream blob.content s in
      let size : ℕ = elim blob.size_hint [ none ↦ 0 | some n ↦ n ] in
      let input = with_size blob.key (cursor task.ciphertext) size in
      match_outcome (inner.put (input ∷ []) s)
        (λ result t. finish_blob blob.key result (header_of blob.key task.ending) t)
        (λ e t. fails e t)

  unfoldable pub put_blobs : List BlobInput → Exec inner.State (List BlobMeta)
  put_blobs [] = pure []
  put_blobs (blob ∷ blobs) = do metas ← put_blob blob; rest ← put_blobs blobs; pure (metas ++ rest)

  unfoldable pub put : List BlobInput → Exec inner.State PutResult
  put blobs = do
    lift (try_map (λ b. validate_put header_suffix b.key) blobs)
    metas ← put_blobs blobs
    pure (multiple metas)

  unfoldable pub decrypt_stream : Str → Stream → Exec inner.State Stream
  unfolding header_key name_missing read_all error_aware_reader
  decrypt_stream key enc_data = do
    header_data ← λ s. map_err (name_missing key) (inner.get (header_key header_suffix key) s)
    header ← lift (read_all header_data)
    pure (error_aware_reader key (enc.decrypt_stream enc_data header))

  unfoldable pub get : Str → Exec inner.State Stream
  unfolding decrypt_stream validate_key_no_header_collision
  get key = do
    lift (validate_key_no_header_collision header_suffix key)
    enc_data ← λ s. map_err (name_missing key) (inner.get key s)
    decrypt_stream key enc_data

  -- The `match` on the inner `delete`: a batch error in which only headers failed is a success.
  unfoldable pub finish_delete :
      List Str → Outcome inner.State (Unit {0}) → Outcome inner.State (Unit {0})
  unfolding visible_batch
  finish_delete keys (returns u s) = returns tt s
  finish_delete keys (fails (BlobStorageError.batch b) s) =
      if is_empty (visible_batch keys b).errors
      then returns tt s
      else fails (BlobStorageError.batch (visible_batch keys b)) s
  finish_delete keys (fails other s) = fails other s

  unfoldable pub delete : List Str → Exec inner.State (Unit {0})
  delete keys = do
    lift (try_map (validate_key_no_header_collision header_suffix) keys)
    λ s. finish_delete keys (inner.delete (with_headers header_suffix keys) s)

  -- The loop that drops the data blobs without a header.
  unfoldable pub with_header_only : List Str → Exec inner.State (List Str)
  unfolding header_key
  with_header_only [] = pure []
  with_header_only (key ∷ keys) = do
    header_exists ← inner.exists (header_key header_suffix key)
    rest ← with_header_only keys
    pure (if header_exists then key ∷ rest else rest)

  unfoldable pub list : ListFilter → Exec inner.State (List Str)
  list filter = do
    all_keys ← inner.list (suffix_filter [])
    with_header_only (
        filter_by (λ k. filter.matches k none)
          (filter_by (λ k. not (ends_with header_suffix k)) all_keys))

  unfoldable pub exists : Str → Exec inner.State Bool
  unfolding header_key validate_key_no_header_collision
  exists key = do
    lift (validate_key_no_header_collision header_suffix key)
    data_exists ← inner.exists key
    if data_exists then inner.exists (header_key header_suffix key) else pure false

  unfoldable pub get_with_metadata : Str → Exec inner.State (BlobMeta × Stream)
  unfolding decrypt_stream validate_key_no_header_collision
  get_with_metadata key = do
    lift (validate_key_no_header_collision header_suffix key)
    found ← λ s. map_err (name_missing key) (inner.get_with_metadata key s)
    decrypted ← decrypt_stream key found.1
    pure (record found.0 { key = key }, decrypted)
