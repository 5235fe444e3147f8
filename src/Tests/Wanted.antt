-- ===== src/Tests/Wanted.antt =====
-- The keys that the listings of a small tree give.
use xtax.Base.{
  Bool-cases, ◌∷◌, Str, true, text, Option, [], ◌≡◌, ◌⊎◌, inl, inr, refl, sym, arith, contains,
  contains-append, IsSorted, starts_with, has_char, split, ends_with, map, none, List, str_eq,
  str_eq_sound,
}
use xtax.Exec.{returns, final}
use xtax.Types.{BlobMeta}
use xtax.Base.Sort.{sort_keys}
use xtax.Encrypt.Layer.{sort_metas}
use xtax.Validate.Components.{join}
use xtax.Fs.{join_path}
use xtax.Fs.Disk.{path_is_file}
use xtax.Fs.Files.{ensure_root}
use xtax.Fs.Hint.{strip_base}
use xtax.Fs.Walk.{list, list_with_metadata, visit}
use xtax.Fs.Wanted.{Wanted, AllWanted, list-Wanted, list_with_metadata-Wanted, visit-Wanted}
use xtax.Tests.Trees.{root, is_utf8, below_b, collector, tree_disk}

listed : list (λ p. p) is_utf8 root tree_disk 9 below_b tt ≡ returns (text "b/c" ∷ []) tt
unfolding list ensure_root str_eq text starts_with has_char split ends_with join_path path_is_file
    strip_base join sort_keys
listed = refl

list-Wanted_example :
    IsSorted (text "b/c" ∷ []) × AllWanted (λ p. p) is_utf8 root tree_disk below_b (text "b/c" ∷ [])
list-Wanted_example =
    list-Wanted (λ p. p) is_utf8 root tree_disk below_b 9 tt tt (text "b/c" ∷ []) listed

abbrev meta_of_c : BlobMeta
meta_of_c = record { key = text "b/c"; stored_size = 0; modified_at = 0; etag = none }

listed_with_metadata :
    list_with_metadata (λ p. p) is_utf8 root tree_disk 9 below_b tt ≡ returns (meta_of_c ∷ []) tt
unfolding list_with_metadata ensure_root str_eq text starts_with has_char split ends_with join_path
    path_is_file strip_base join sort_metas
listed_with_metadata = refl

list_with_metadata-Wanted_example :
    IsSorted (map (λ m. m.key) (meta_of_c ∷ []))
    × AllWanted (λ p. p) is_utf8 root tree_disk below_b (map (λ m. m.key) (meta_of_c ∷ []))
list_with_metadata-Wanted_example =
    list_with_metadata-Wanted (λ p. p) is_utf8 root tree_disk below_b 9 tt tt (meta_of_c ∷ [])
      listed_with_metadata

collector_notes :
    (k : Str) (m : Option BlobMeta) (x : List Str × Unit {0}) (j : Str)
    → contains (final (collector k m x)).0 j ≡ true
    → (contains x.0 j ≡ true) ⊎ (j ≡ k)
unfolding contains
collector_notes k m x j c = elim (Bool-cases (contains x.0 j)) [
  | inl e ↦ inl e
  | inr e ↦
      let same : str_eq k j ≡ true = ground (arith, contains-append x.0 (k ∷ []) j, c) in
      inr (sym (str_eq_sound k j same))
]

noted :
    contains
      (final (visit (λ p. p) is_utf8 root tree_disk 9 (List Str) below_b collector ([], tt))).0
      (text "b/c")
    ≡ true
unfolding visit contains ensure_root str_eq text starts_with has_char split ends_with join_path
    path_is_file strip_base join
noted = refl

visit-Wanted_example : Wanted (λ p. p) is_utf8 root tree_disk below_b (text "b/c")
visit-Wanted_example =
    visit-Wanted (λ p. p) is_utf8 root tree_disk below_b (List Str) (λ seen. seen) collector 9 [] tt
      collector_notes refl (text "b/c") noted
