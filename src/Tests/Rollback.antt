-- ===== src/Tests/Rollback.antt =====
-- A `put` of the encryption layer whose input breaks off.
use xtax.Base.{
  text, none, some, [], ◌∷◌, ◌≡◌, ◌⊎◌, refl, str_eq, contains, starts_with, ends_with, split,
  has_char,
}
use xtax.Error.{BlobStorageError, EncryptionError, Cause, IoError, IoErrorKind}
use xtax.Exec.{err, fails, try_map}
use xtax.Types.{BlobInput, with_size}
use xtax.Store.Contract.{validate_all}
use xtax.Validate.{validate_blob_key, check_components}
use xtax.Encrypt.{
  default_header_suffix, about_key, header_of, header_key, validate_key_no_header_collision,
  validate_put, roll_back, finish_blob, put_blob, put_blobs, put,
}
use xtax.Encrypt.Rollback.{FailedOn, put-FailedOn}
use xtax.Tests.Memory.{
  Entries, find, memory, memory-IsLawful, store_all, push_all, remove_all, drop_all,
}
use xtax.Tests.Layers.{mirror}

abbrev broken_pipe : IoError
broken_pipe = record { kind = IoErrorKind.other; description = text "pipe" }

-- Two bytes, and then an error.
abbrev broken : BlobInput
broken = record {
  key = text "a";
  content = record { bytes = 1 ∷ 2 ∷ []; fault = some broken_pipe };
  size_hint = none;
}

abbrev refused : BlobStorageError
refused =
    BlobStorageError.encryption (about_key (text "encryption failed for key ") (text "a"))
      (some (Cause.provider (EncryptionError.io broken_pipe)))

abbrev nothing : Entries
nothing = []

put_fails :
    put memory (mirror Entries) default_header_suffix (broken ∷ []) nothing ≡ fails refused nothing
unfolding put put_blobs put_blob finish_blob roll_back header_of validate_put header_key
    validate_key_no_header_collision with_size store_all push_all remove_all drop_all validate_all
    try_map validate_blob_key check_components split starts_with ends_with has_char str_eq contains
    text default_header_suffix
put_fails = refl

put-FailedOn_example :
    ((try_map (λ (b : BlobInput). validate_put default_header_suffix b.key) (broken ∷ [])
        ≡ err refused)
      × (nothing ≡ nothing))
    ⊎ FailedOn memory
        (mirror Entries)
        default_header_suffix
        find
        (broken ∷ [])
        nothing
        refused
        nothing
put-FailedOn_example =
    put-FailedOn memory (mirror Entries) default_header_suffix find memory-IsLawful.delete
      (broken ∷ []) refused nothing nothing put_fails
