-- ===== src/Fs/Covering.antt =====
-- What the directory of a prefix hint leaves out.
use mathlib.Core.Path.{subst}
use mathlib.Core.List.{append_assoc}
use xtax.Base.{
  Str, true, false, not, some, List, [], ◌∷◌, ◌++◌, ◌≡◌, refl, sym, ap, ◌∙◌, arith, starts_with,
  starts_with_sound, split, is_empty, all_by, filter_by-append, Bool-cases, inl, inr,
}
use xtax.Exec.{ok, Result-cases}
use xtax.Types.{key_separator}
use xtax.Validate.{validate_blob_key}
use xtax.Validate.Components.{
  not_absolute, validate_blob_key-eq-ok, join-cons, join, join-split, split-append,
}
use xtax.Filter.{ListFilter}
use xtax.Fs.{is_closed, normalise_root, key_to_path}
use xtax.Fs.Paths.{key_to_path-normalise_root, normalise_root-closed}
use xtax.Fs.Hint.{separator, is_skipped, validate_prefix_hint, subdir_of, prefix_subdir}
use xtax.Fs.Hints.{last_piece, names-closed, starts_with-closed}
use xtax.Fs.Pieces.{
  split_one, split-join_some, names_in, names, has_no_separator, split-has_no_separator,
  not_empty-last,
}
use xtax.Fs.Subdirs.{Below, hint_dirs, drop_last-names, subdir_of-Below}

-- What is before the last piece of a text stays where more is put behind it.
split-before :
    (h r : Str) (zs : List Str) (l : Str)
    → split key_separator h ≡ zs ++ l ∷ []
    → (more : List Str) × (split key_separator (h ++ r) ≡ zs ++ more)
split-before h r [] l s = (split key_separator (h ++ r), refl)
split-before h r (z ∷ zs) l s =
    let clean : all_by has_no_separator (z ∷ (zs ++ l ∷ [])) ≡ true =
      ap (all_by has_no_separator) (sym s) ∙ split-has_no_separator h in
    let parts : h ≡ z ++ key_separator ∷ join (zs ++ l ∷ []) =
      sym (join-split h)
      ∙ ap join s
      ∙ join-cons z (zs ++ l ∷ []) (λ e. cc (not_empty-last zs l, ap is_empty e)) in
    let (more, m) =
      split-before (join (zs ++ l ∷ [])) r zs l
        (split-join_some (zs ++ l ∷ []) (not_empty-last zs l) (ground arith)) in
    (
      more,
      ap (λ x. split key_separator (x ++ r)) parts
          ∙ ap (split key_separator) (append_assoc z (key_separator ∷ join (zs ++ l ∷ [])) r)
          ∙ split-append key_separator z (join (zs ++ l ∷ []) ++ r)
          ∙ rw (split_one z (ground arith), m) refl,
    )

hint_dirs-before :
    (hint r : Str)
    → validate_prefix_hint hint ≡ ok tt
    → (rest : List Str) × (names (hint ++ r) ≡ hint_dirs hint ++ rest)
hint_dirs-before hint r valid = elim (Bool-cases (is_closed hint)) [
  | inl c ↦ (names r, rw c (names-closed hint r c))
  | inr o ↦
      let (zs, l, s, n) = last_piece hint o in
      let (more, m) = split-before hint r zs l s in
      (
        names_in more,
        rw (o, drop_last-names hint valid zs l s n)
            (ap names_in m ∙ filter_by-append (λ p. not (is_skipped p)) zs more),
      )
]

-- A path that begins with what the hint asks for.
hinted-Below :
    (root hint dir r : Str)
    → is_closed root ≡ true
    → validate_prefix_hint hint ≡ ok tt
    → Below root (hint_dirs hint) dir
    → starts_with separator (hint ++ r) ≡ false
    → (rest : List Str) × Below dir rest (root ++ (hint ++ r))
hinted-Below root hint dir r closed valid b relative =
    let (rest, e) = hint_dirs-before hint r valid in
    (
      rest,
      record {
        absolute = starts_with-closed root (hint ++ r) closed relative ∙ sym b.absolute;
        named =
            names-closed root (hint ++ r) closed
            ∙ ap (λ ds. names root ++ ds) e
            ∙ sym (append_assoc (names root) (hint_dirs hint) rest)
            ∙ ap (λ ds. ds ++ rest) (sym b.named);
      },
    )

-- The key of a path.
has_path :
    (given key path : Str)
    → key_to_path (normalise_root given) key ≡ ok path
    → (validate_blob_key key ≡ ok tt) × (normalise_root given ++ key ≡ path)
has_path given key path k = elim (Result-cases (validate_blob_key key)) [
  | inr (x, v) ↦ cc (rw (key_to_path-normalise_root, v) at k)
  | inl (_, v) ↦ (v, cc (rw (key_to_path-normalise_root, v) at k))
]

key_relative : (key : Str) → validate_blob_key key ≡ ok tt → starts_with separator key ≡ false
key_relative key v = not_absolute key ((validate_blob_key-eq-ok key).0 v).1

hint_valid :
    (root hint dir : Str) → subdir_of root (some hint) ≡ ok dir → validate_prefix_hint hint ≡ ok tt
hint_valid root hint dir e = elim (Result-cases (validate_prefix_hint hint)) [
  | inr (x, v) ↦ cc (rw v at e)
  | inl (_, v) ↦ v
]

covers :
    (given hint dir key path : Str)
    → subdir_of (normalise_root given) (some hint) ≡ ok dir
    → key_to_path (normalise_root given) key ≡ ok path
    → starts_with hint key ≡ true
    → (rest : List Str) × Below dir rest path
covers given hint dir key path e k s =
    let (r, q) = starts_with_sound hint key s in
    let (v, p) = has_path given key path k in
    let (below, _) =
      subdir_of-Below (normalise_root given) (some hint) dir (normalise_root-closed given) e in
    let (rest, b) =
      hinted-Below (normalise_root given) hint dir r (normalise_root-closed given)
        (hint_valid (normalise_root given) hint dir e) below
        (ap (starts_with separator) (sym q) ∙ key_relative key v) in
    (rest, subst (Below dir rest) (ap (λ x. normalise_root given ++ x) (sym q) ∙ p) b)

-- The directory of a hint misses nothing: the path of every key that starts with the hint is below
-- it.
pub prefix_subdir-covers :
    (given : Str) (f : ListFilter) (hint dir key path : Str)
    → f.prefix_hint ≡ some hint
    → prefix_subdir (normalise_root given) f ≡ ok dir
    → key_to_path (normalise_root given) key ≡ ok path
    → starts_with hint key ≡ true
    → (rest : List Str) × Below dir rest path
unfolding prefix_subdir
prefix_subdir-covers given f hint dir key path h e k s =
    covers given hint dir key path (ap (subdir_of (normalise_root given)) (sym h) ∙ e) k s
