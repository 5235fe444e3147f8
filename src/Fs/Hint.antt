-- ===== src/Fs/Hint.antt =====
-- crates/xtax-blob-storage/src/fs/store.rs: prefix hints as directories, with the methods of
-- `std::path` that they need. The components of a path are its pieces between separators, less the
-- empty ones and the dots that are not at the start.
use xtax.Base.{
  Str, Bool, ◌&&◌, ◌||◌, Option, none, some, List, [], ◌∷◌, ◌++◌, text, is_empty, str_eq,
  starts_with, ends_with, has_char, split, if◌then◌else◌,
}
use xtax.Error.{BlobStorageError}
use xtax.Exec.{Result, ok, err, and_then}
use xtax.Types.{key_separator}
use xtax.Filter.{ListFilter}
use xtax.Validate.{backslash}
use xtax.Validate.Components.{join}
use xtax.Fs.{join_path}

abbrev pub separator : Str
separator = key_separator ∷ []

abbrev pub hint_error : Str → Str → BlobStorageError
hint_error message hint =
    BlobStorageError.invalid_input (message ++ (text ": '" ++ (hint ++ text "'")))

-- The loop over the components of a hint.
unfoldable pub check_hint : Str → List Str → Result (Unit {0})
check_hint hint [] = ok tt
check_hint hint (component ∷ rest) =
    if str_eq component (text "..") || str_eq component (text ".")
    then err (hint_error (text "prefix hint must not contain '..' or '.' components") hint)
    else check_hint hint rest

unfoldable pub validate_prefix_hint : Str → Result (Unit {0})
unfolding check_hint
validate_prefix_hint hint =
    if starts_with separator hint
    then err (hint_error (text "prefix hint must not be absolute") hint)
    else if has_char backslash hint
    then err (hint_error (text "prefix hint must not contain backslash") hint)
    else check_hint hint (split key_separator hint)

-- Pieces that are no component, where they do not stand first.
abbrev pub is_skipped : Str → Bool
is_skipped piece = is_empty piece || str_eq piece (text ".")

unfoldable pub trim_end : List Str → List Str
trim_end [] = []
trim_end (piece ∷ pieces) =
    let rest = trim_end pieces in if is_empty rest && is_skipped piece then [] else piece ∷ rest

-- The pieces up to the last component: a dot counts where it stands first.
unfoldable pub trim_path : List Str → List Str
unfolding trim_end
trim_path [] = []
trim_path (piece ∷ pieces) =
    if is_empty (trim_end pieces) && is_empty piece then [] else piece ∷ trim_end pieces

unfoldable pub drop_last : List Str → List Str
drop_last [] = []
drop_last (piece ∷ []) = []
drop_last (piece ∷ next ∷ pieces) = piece ∷ drop_last (next ∷ pieces)

-- `Path::parent`: without the last component; the root and the empty path have none.
unfoldable pub parent : Str → Option Str
unfolding trim_path drop_last
parent path =
    let up = trim_path (drop_last (trim_path (split key_separator path))) in
    if is_empty (trim_path (split key_separator path))
    then none
    else if is_empty up && starts_with separator path
    then some separator
    else some (join up)

abbrev pub or_parent : Str → Option Str → Str
or_parent full none = full
or_parent full (some up) = up

-- A directory, or the directory of a partial name.
unfoldable pub hinted_dir : Str → Str
unfolding parent
hinted_dir full = if ends_with separator full then full else or_parent full (parent full)

abbrev pub subdir_of : Str → Option Str → Result Str
subdir_of root none = ok root
subdir_of root (some hint) =
    and_then (validate_prefix_hint hint) λ _. ok (hinted_dir (join_path root hint))

unfoldable pub prefix_subdir : Str → ListFilter → Result Str
unfolding validate_prefix_hint hinted_dir
prefix_subdir root filter = subdir_of root filter.prefix_hint

unfoldable pub skip : List Str → List Str
skip [] = []
skip (piece ∷ pieces) = if is_skipped piece then skip pieces else piece ∷ pieces

-- The pieces behind the components of a base.
unfoldable pub strip_pieces : List Str → List Str → Option (List Str)
unfolding skip
strip_pieces [] pieces = some (skip pieces)
strip_pieces (b ∷ base) pieces =
    if is_skipped b then strip_pieces base pieces else elim (skip pieces) [
      | [] ↦ none
      | piece ∷ rest ↦ if str_eq b piece then strip_pieces base rest else none
    ]

abbrev pub join_some : Option (List Str) → Option Str
join_some none = none
join_some (some pieces) = some (join pieces)

-- `path.strip_prefix(base)` of `Path`: component by component.
unfoldable pub strip_base : Str → Str → Option Str
unfolding strip_pieces
strip_base base path =
    if starts_with separator base
    then if starts_with separator path
      then join_some (strip_pieces (split key_separator base) (split key_separator path))
      else none
    else if starts_with separator path
    then none
    else join_some (strip_pieces (split key_separator base) (split key_separator path))
