-- ===== src/S3.antt =====
-- crates/xtax-blob-storage/src/s3.rs and s3/single.rs: the client of the AWS SDK as a record of
-- the requests that the store sends, the errors that it makes of refusals, and `PutObject`.
pub mod Multipart
pub mod Deletion
pub mod Listing
pub mod Store
pub mod Service
pub mod Upload
pub mod Writes
pub mod Puts
pub mod Reads
pub mod Rekeying
pub mod Tally
pub mod Deletes
pub mod Lists
pub mod Lawful
pub mod Termination
use xtax.Base.{
  ℕ, ◌*◌, max, Str, Bool, false, text, Option, none, some, List, ◌++◌, ◌||◌, str_eq, length,
  if◌then◌else◌,
}
use xtax.Error.{BlobStorageError, Cause}
use xtax.Exec.{Outcome, returns, fails, Exec, ◌>>=◌}
use xtax.Types.{Bytes, Stream, Timestamp, BlobMeta}
use xtax.Encrypt.{about_key}

abbrev pub default_multipart_part_size : ℕ
default_multipart_part_size = 50 * 1024 * 1024

-- Kept shut, so that no proof counts to it.
unfoldable pub min_multipart_part_size : ℕ
min_multipart_part_size = 5 * 1024 * 1024

-- The answer to a request: a response, or an error with its service code, where it has one.
pub data Reply (S A : Type 0) : Type 0 where
  answered : A → S → Reply S A
  refused : Option Str → S → Reply S A

pub record CompletedPart : Type 0 where
  pub e_tag : Str
  pub part_number : ℕ

pub record GetObjectOutput : Type 0 where
  pub body : Stream
  pub content_length : Option ℕ
  pub e_tag : Option Str
  pub last_modified : Option Timestamp

pub record ObjectError : Type 0 where
  pub key : Option Str
  pub code : Option Str
  pub message : Option Str

pub record DeleteObjectsOutput : Type 0 where
  pub deleted : List (Option Str)
  pub errors : List ObjectError

pub record Object : Type 0 where
  pub key : Option Str
  pub size : Option ℕ
  pub e_tag : Option Str
  pub last_modified : Option Timestamp

pub record ListOutput : Type 0 where
  pub contents : List Object
  pub next_continuation_token : Option Str

-- The requests for one bucket. Times and sizes come as the store converts them.
pub record Client : Type 1 where
  pub State : Type 0
  pub put_object : Str → Bytes → State → Reply State (Option Str)
  pub create_multipart_upload : Str → State → Reply State (Option Str)
  pub upload_part : Str → Str → ℕ → Bytes → State → Reply State (Option Str)
  pub complete_multipart_upload : Str → Str → List CompletedPart → State → Reply State (Option Str)
  pub abort_multipart_upload : Str → Str → State → Reply State (Unit {0})
  pub get_object : Str → State → Reply State GetObjectOutput
  pub head_object : Str → State → Reply State (Unit {0})
  pub delete_objects : List Str → State → Reply State DeleteObjectsOutput
  pub list_objects_v2 : Option Str → Option Str → State → Reply State ListOutput

-- `with_multipart_part_size`.
unfoldable pub clamp_part_size : ℕ → ℕ
unfolding min_multipart_part_size
clamp_part_size size = max size min_multipart_part_size

-- The code of a service error, against one that the store knows.
abbrev pub has_code : Option Str → Str → Bool
has_code none known = false
has_code (some code) known = str_eq code known

unfoldable pub is_not_found : Option Str → Bool
is_not_found code = has_code code (text "NoSuchKey") || has_code code (text "NotFound")

unfoldable pub is_misconfigured : Option Str → Bool
is_misconfigured code = has_code code (text "NoSuchBucket")

abbrev pub reply_state : {S A : Type 0} → Reply S A → S
reply_state (answered a s) = s
reply_state (refused c s) = s

-- `send().await.map_err(f)`.
abbrev pub map_refused : {S A : Type 0} → (Option Str → BlobStorageError) → Reply S A → Outcome S A
map_refused f (answered a s) = returns a s
map_refused f (refused code s) = fails (f code) s

module _ (bucket : Str) where
  abbrev pub misconfigured : BlobStorageError
  misconfigured =
      BlobStorageError.backend_misconfigured
        (text "S3 bucket '" ++ (bucket ++ text "' does not exist or is not accessible"))

  -- The error of a refused request: the bucket is missing, or the request failed.
  unfoldable pub request_error : Str → Option Str → BlobStorageError
  unfolding is_misconfigured
  request_error message code =
      if is_misconfigured code
      then misconfigured
      else BlobStorageError.storage message (some (Cause.service code))

  -- The same for requests on one key, which may be absent.
  unfoldable pub get_error : Str → Option Str → BlobStorageError
  unfolding is_misconfigured is_not_found
  get_error key code =
      if is_misconfigured code
      then misconfigured
      else if is_not_found code
      then BlobStorageError.not_found key
      else BlobStorageError.storage (about_key (text "S3 get failed for key ") key)
          (some (Cause.service code))

  module _ (client : Client) (now : client.State → Timestamp) where
    unfoldable pub get_object_output : Str → Exec client.State GetObjectOutput
    unfolding get_error
    get_object_output key s = map_refused (get_error key) (client.get_object key s)

    -- The metadata of a blob that was just stored.
    abbrev pub stored_meta : Str → ℕ → Option Str → Exec client.State BlobMeta
    stored_meta key size etag s =
        returns (record { key = key; stored_size = size; modified_at = now s; etag = etag }) s

    unfoldable pub put_object : Str → Bytes → Exec client.State BlobMeta
    unfolding request_error
    put_object key content = do
      etag ← λ s.
          map_refused (request_error (about_key (text "S3 PutObject failed for key ") key))
            (client.put_object key content s)
      stored_meta key (length content) etag
