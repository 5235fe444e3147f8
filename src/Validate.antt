-- ===== src/Validate.antt =====
-- crates/xtax-blob-storage/src/validate.rs: which keys every backend accepts.
pub mod Components
pub mod Keys
pub mod Nested
use xtax.Base.{
  ℕ, Str, text, str_eq, starts_with, ends_with, has_char, split, is_empty, List, [], ◌∷◌, ◌++◌,
  ◌||◌, if◌then◌else◌,
}
use xtax.Error.{BlobStorageError}
use xtax.Exec.{Result, ok, err}
use xtax.Types.{key_separator}

abbrev pub backslash : ℕ
backslash = 0x5c

-- `InvalidInput` with a message that quotes the key.
pub invalid : Str → Str → BlobStorageError
invalid reason key = BlobStorageError.invalid_input (reason ++ (text "'" ++ (key ++ text "'")))

-- The loop over the components.
unfoldable pub check_components : Str → List Str → Result (Unit {0})
check_components key [] = ok tt
check_components key (component ∷ rest) =
    if is_empty component
    then err (invalid (text "blob key must not contain empty components: ") key)
    else if str_eq component (text "..") || str_eq component (text ".")
    then err (invalid (text "blob key must not contain '..' or '.' components: ") key)
    else check_components key rest

unfoldable pub validate_blob_key : Str → Result (Unit {0})
unfolding check_components
validate_blob_key key =
    if is_empty key
    then err (BlobStorageError.invalid_input (text "blob key must not be empty"))
    else if starts_with (key_separator ∷ []) key
    then err (invalid (text "blob key must not start with '/': ") key)
    else if ends_with (key_separator ∷ []) key
    then err (invalid (text "blob key must not end with '/': ") key)
    else if has_char backslash key
    then err (invalid (text "blob key must not contain backslash: ") key)
    else check_components key (split key_separator key)
