-- ===== src/Error.antt =====
-- crates/xtax-blob-storage/src/error.rs, with the I/O errors of the standard library and the
-- errors of crates/xtax-encryption/src/lib.rs that it wraps.
use xtax.Base.{ℕ, ◌+◌, Str, text, Option, none, some, List, ◌++◌, length}

-- The kinds of `std::io::ErrorKind` that the crate tells apart.
pub data IoErrorKind : Type 0 where
  not_found permission_denied other : IoErrorKind

pub record IoError : Type 0 where
  pub kind : IoErrorKind
  pub description : Str

-- A source error of an `Operation` is kept by its description.
pub data EncryptionError : Type 0 where
  operation : Str → Option Str → EncryptionError
  invalid_header : Str → EncryptionError
  io : IoError → EncryptionError

-- What stands behind `Box<dyn Error>`: an I/O error, a provider's error, the service code of an
-- S3 error, the timer of `tokio::time::timeout`, or a task that panicked or was aborted.
pub data Cause : Type 0 where
  io : IoError → Cause
  provider : EncryptionError → Cause
  service : Option Str → Cause
  elapsed : Cause
  join_error : Cause

pub data PerKeyError : Type 0 where
  not_found : PerKeyError
  permission_denied : Str → PerKeyError
  unknown : Str → PerKeyError

pub record KeyError : Type 0 where
  pub key : Str
  pub error : PerKeyError

pub record BatchError : Type 0 where
  pub succeeded : List Str
  pub errors : List KeyError

unfoldable pub total_count : BatchError → ℕ
total_count b = length b.succeeded + length b.errors

unfoldable pub failed_count : BatchError → ℕ
failed_count b = length b.errors

pub data BlobStorageError : Type 0 where
  not_found : Str → BlobStorageError
  already_exists : Str → BlobStorageError
  not_supported : Str → BlobStorageError
  backend_misconfigured : Str → BlobStorageError
  invalid_input : Str → BlobStorageError
  storage : Str → Option Cause → BlobStorageError
  encryption : Str → Option Cause → BlobStorageError
  permission_denied : Str → BlobStorageError
  batch : BatchError → BlobStorageError

-- `Display` of a per-key error.
unfoldable pub show_per_key : PerKeyError → Str
show_per_key PerKeyError.not_found = text "not found"
show_per_key (PerKeyError.permission_denied msg) = text "permission denied: " ++ msg
show_per_key (PerKeyError.unknown message) = text "unknown: " ++ message

-- `to_string` of a provider's error.
unfoldable pub show_encryption : EncryptionError → Str
show_encryption (EncryptionError.operation message source) =
    text "encryption operation failed: " ++ message
show_encryption (EncryptionError.invalid_header message) =
    text "invalid encryption header: " ++ message
show_encryption (EncryptionError.io e) = e.description

-- The `From` conversions that `?` applies.
unfoldable pub from_io : IoError → BlobStorageError
from_io e = BlobStorageError.storage (text "I/O error") (some (Cause.io e))

unfoldable pub from_text : Str → BlobStorageError
from_text msg = BlobStorageError.storage msg none

unfoldable pub from_encryption : EncryptionError → BlobStorageError
from_encryption e = BlobStorageError.encryption (show_encryption e) (some (Cause.provider e))
