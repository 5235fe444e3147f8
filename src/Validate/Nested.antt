-- ===== src/Validate/Nested.antt =====
-- Keys below a directory, and the errors of the validation.
use xtax.Base.{Str, has_char, split, all_by-append, List, [], ◌∷◌, ◌++◌, ◌≡◌, ◌↔◌, refl, arith}
use xtax.Error.{BlobStorageError}
use xtax.Exec.{ok, err}
use xtax.Types.{key_separator}
use xtax.Validate.{check_components, validate_blob_key, invalid, backslash}
use xtax.Validate.Components.{is_plain, split-append, has_char-append, validate_blob_key-eq-ok}

separator_is_clean : (k : Str) → has_char backslash (key_separator ∷ k) ≡ has_char backslash k
unfolding has_char
separator_is_clean k = refl

-- A key below a directory is accepted exactly when both parts are.
pub validate_blob_key-append :
    (p k : Str)
    → (validate_blob_key (p ++ key_separator ∷ k) ≡ ok tt)
      ↔ ((validate_blob_key p ≡ ok tt) × (validate_blob_key k ≡ ok tt))
validate_blob_key-append p k = ground (
  arith,
  validate_blob_key-eq-ok (p ++ key_separator ∷ k),
  validate_blob_key-eq-ok p,
  validate_blob_key-eq-ok k,
  has_char-append backslash p (key_separator ∷ k),
  separator_is_clean k,
  split-append key_separator p k,
  all_by-append is_plain (split key_separator p) (split key_separator k),
)

check_components-err :
    (key : Str) (cs : List Str) (e : BlobStorageError)
    → check_components key cs ≡ err e
    → (m : Str) × (e ≡ BlobStorageError.invalid_input m)
unfolding check_components invalid
check_components-err key [] e h = cc
check_components-err key (c ∷ cs) e h = ground (arith, check_components-err key cs e)

-- A rejected key is reported as `InvalidInput`, by whatever test.
pub validate_blob_key-err :
    (k : Str) (e : BlobStorageError)
    → validate_blob_key k ≡ err e
    → (m : Str) × (e ≡ BlobStorageError.invalid_input m)
unfolding validate_blob_key invalid
validate_blob_key-err k e h = ground (arith, check_components-err k (split key_separator k) e)
