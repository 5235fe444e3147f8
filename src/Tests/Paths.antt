-- ===== src/Tests/Paths.antt =====
-- The path of a key, and the directory of a hint, under a root without a separator at its end.
use xtax.Base.{
  Str, List, text, starts_with, split, has_char, ends_with, str_eq, all_by, true, not, some, refl,
  ◌++◌, ◌≡◌,
}
use xtax.Exec.{ok, and_then}
use xtax.Validate.{validate_blob_key}
use xtax.Filter.{ListFilter, prefix_filter}
use xtax.Validate.{check_components}
use xtax.Fs.{normalise_root, key_to_path, join_path, join_components}
use xtax.Fs.Hint.{
  prefix_subdir, validate_prefix_hint, check_hint, hinted_dir, parent, trim_path, trim_end,
  drop_last,
}
use xtax.Fs.Subdirs.{Below, down_of, is_dots, prefix_subdir-Below}
use xtax.Fs.Covering.{prefix_subdir-covers}
use xtax.Validate.Components.{join}
use xtax.Fs.Paths.{key_to_path-normalise_root}

key_to_path-normalise_root_example :
    key_to_path (normalise_root (text "/tmp/data")) (text "a/b.txt")
    ≡ and_then
        (validate_blob_key (text "a/b.txt"))
        (λ _. ok (normalise_root (text "/tmp/data") ++ text "a/b.txt"))
key_to_path-normalise_root_example = key_to_path-normalise_root (text "/tmp/data") (text "a/b.txt")

-- A hint that ends in the middle of a name.
abbrev mid_name : ListFilter
mid_name = prefix_filter (text "a/b")

mid_name_dir : prefix_subdir (normalise_root (text "/d")) mid_name ≡ ok (text "/d/a")
unfolding prefix_subdir validate_prefix_hint check_hint hinted_dir parent trim_path trim_end
    drop_last normalise_root join_path join text str_eq ends_with starts_with split has_char
mid_name_dir = refl

mid_name_key : key_to_path (normalise_root (text "/d")) (text "a/bc/e") ≡ ok (text "/d/a/bc/e")
unfolding key_to_path validate_blob_key check_components join_components normalise_root join_path
    text str_eq ends_with starts_with split has_char
mid_name_key = refl

mid_name_starts : starts_with (text "a/b") (text "a/bc/e") ≡ true
unfolding starts_with text
mid_name_starts = refl

prefix_subdir-Below_example :
    Below (normalise_root (text "/d")) (down_of (some (text "a/b"))) (text "/d/a")
    × (all_by (λ c. not (is_dots c)) (down_of (some (text "a/b"))) ≡ true)
prefix_subdir-Below_example = prefix_subdir-Below (text "/d") mid_name (text "/d/a") mid_name_dir

prefix_subdir-covers_example : (rest : List Str) × Below (text "/d/a") rest (text "/d/a/bc/e")
prefix_subdir-covers_example =
    prefix_subdir-covers (text "/d") mid_name (text "a/b") (text "/d/a") (text "a/bc/e")
      (text "/d/a/bc/e") refl mid_name_dir mid_name_key mid_name_starts
