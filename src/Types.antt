-- ===== src/Types.antt =====
-- crates/xtax-blob-storage/src/types.rs, and the byte streams behind `Box<dyn AsyncRead>`.
use xtax.Base.{ℕ, Str, Option, none, some, List, [], ◌∷◌}
use xtax.Error.{IoError, from_io}
use xtax.Exec.{Result, ok, err}

abbrev pub key_separator : ℕ
key_separator = b'/'

abbrev pub Bytes : Type 0
Bytes = List ℕ

-- What reading a stream to its end gives: its bytes, and the error that ended it, if any.
pub record Stream : Type 0 where
  pub bytes : Bytes
  pub fault : Option IoError

-- A point in time; the layers only copy it.
abbrev pub Timestamp : Type 0
Timestamp = ℕ

pub record BlobInput : Type 0 where
  pub key : Str
  pub content : Stream
  pub size_hint : Option ℕ

unfoldable pub blob_input : Str → Stream → BlobInput
blob_input key content = record { key = key; content = content; size_hint = none }

unfoldable pub with_size : Str → Stream → ℕ → BlobInput
with_size key content size = record { key = key; content = content; size_hint = some size }

pub record BlobMeta : Type 0 where
  pub key : Str
  pub stored_size : ℕ
  pub modified_at : Timestamp
  pub etag : Option Str

-- The placeholder for a key, at the time `now`.
unfoldable pub for_key : Timestamp → Str → BlobMeta
for_key now key = record { key = key; stored_size = 0; modified_at = now; etag = none }

pub record PutResult : Type 0 where
  pub blobs : List BlobMeta

unfoldable pub single : BlobMeta → PutResult
single meta = record { blobs = meta ∷ [] }

unfoldable pub multiple : List BlobMeta → PutResult
multiple blobs = record { blobs = blobs }

pub record CleanupResult : Type 0 where
  pub deleted_count : ℕ

pub record RekeyResult : Type 0 where
  pub rekeyed_count : ℕ

-- `tokio::io::copy` of a whole stream into memory, with `?`.
unfoldable pub read_all : Stream → Result Bytes
read_all st = elim st.fault [ none ↦ ok st.bytes | some e ↦ err (from_io e) ]

-- A stream over bytes in memory, `Cursor::new`.
abbrev pub cursor : Bytes → Stream
cursor bytes = record { bytes = bytes; fault = none }
