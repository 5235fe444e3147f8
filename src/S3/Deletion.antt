-- ===== src/S3/Deletion.antt =====
-- crates/xtax-blob-storage/src/s3/store.rs, `delete`: batches of a thousand keys.
use xtax.Base.{
  ℕ, Str, text, Option, none, some, List, [], ◌∷◌, ◌++◌, ◌||◌, str_eq, length, is_empty, chunks,
  if◌then◌else◌,
}
use xtax.Error.{BlobStorageError, PerKeyError, BatchError}
use xtax.Exec.{returns, fails, Exec, pure, lift, ◌>>=◌, ◌>>◌, try_map}
use xtax.Validate.{validate_blob_key}
use xtax.S3.{Client, ObjectError, DeleteObjectsOutput, map_refused, request_error}

abbrev pub get_or : Option Str → Str → Str
get_or none other = other
get_or (some s) other = s

abbrev pub delete_batch_size : ℕ
delete_batch_size = 1000

-- The code, with the message behind it where there is one.
abbrev pub describe : Str → Str → Str
describe code message = if is_empty message then code else code ++ (text ": " ++ message)

-- One error of a response: a missing key counts as deleted.
unfoldable pub add_error : ObjectError → BatchError → BatchError
add_error e b =
    let key = get_or e.key (text "unknown") in
    let code = get_or e.code (text "Unknown") in
    let message = get_or e.message (text "") in
    if str_eq code (text "AccessDenied")
    then record b {
      errors =
          b.errors
          ++ (record { key = key; error = PerKeyError.permission_denied (describe code message) }
              ∷ []);
    }
    else if str_eq code (text "NoSuchKey") || str_eq code (text "NotFound")
    then record b { succeeded = b.succeeded ++ (key ∷ []) }
    else record b {
      errors =
          b.errors
          ++ (record { key = key; error = PerKeyError.unknown (describe code message) } ∷ []);
    }

unfoldable pub add_errors : List ObjectError → BatchError → BatchError
unfolding add_error
add_errors [] b = b
add_errors (e ∷ es) b = add_errors es (add_error e b)

-- The keys that a response reports as deleted.
abbrev pub deleted_keys : List (Option Str) → List Str
deleted_keys [] = []
deleted_keys (none ∷ ks) = deleted_keys ks
deleted_keys (some k ∷ ks) = k ∷ deleted_keys ks

unfoldable pub add_response : DeleteObjectsOutput → BatchError → BatchError
unfolding add_errors
add_response r b =
    add_errors r.errors (record b { succeeded = b.succeeded ++ deleted_keys r.deleted })

abbrev pub nothing_yet : BatchError
nothing_yet = record { succeeded = []; errors = [] }

module _ (bucket : Str) (client : Client) where
  -- The loop over the batches.
  unfoldable pub delete_chunks : List (List Str) → BatchError → Exec client.State BatchError
  unfolding request_error add_response
  delete_chunks [] b = pure b
  delete_chunks (chunk ∷ rest) b = do
    response ← λ s.
        map_refused (request_error bucket (text "S3 batch delete failed"))
          (client.delete_objects chunk s)
    delete_chunks rest (add_response response b)

  -- The result of the whole deletion.
  abbrev pub finish_delete : BatchError → Exec client.State (Unit {0})
  finish_delete b s = if is_empty b.errors then returns tt s else fails (BlobStorageError.batch b) s

  unfoldable pub delete : List Str → Exec client.State (Unit {0})
  unfolding delete_chunks
  delete keys = do
    lift (try_map validate_blob_key keys)
    b ← delete_chunks (chunks delete_batch_size (length keys) keys) nothing_yet
    finish_delete b
