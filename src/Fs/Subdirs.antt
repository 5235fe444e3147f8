-- ===== src/Fs/Subdirs.antt =====
-- Where the directory of a prefix hint lies.
use mathlib.Core.Path.{subst}
use mathlib.Core.List.{append_assoc, append-nil}
use xtax.Base.{
  Str, Bool, true, false, not, ◌||◌, text, Option, none, some, List, [], ◌∷◌, ◌++◌, ◌≡◌, refl, sym,
  ap, ◌∙◌, arith, str_eq, starts_with, ends_with, ends_with_sound, ends_with-append, split,
  is_empty, all_by, all_by-append, filter_by-append, all_by-filter_by, if◌then◌else◌, Bool-cases,
  inl, inr,
}
use xtax.Exec.{ok, Result-cases}
use xtax.Types.{key_separator}
use xtax.Validate.Components.{join}
use xtax.Filter.{ListFilter}
use xtax.Fs.{is_closed, join_path, normalise_root}
use xtax.Fs.Paths.{normalise_root-closed}
use xtax.Fs.Hint.{
  separator, is_skipped, trim_end, trim_path, drop_last, parent, check_hint, validate_prefix_hint,
  hinted_dir, subdir_of, prefix_subdir,
}
use xtax.Fs.Hints.{
  last_piece, parent-last, closed-split, names-closed, ends_with-open, starts_with-closed,
}
use xtax.Fs.Pieces.{names_in, names, drop_last-last}

-- Paths and hints that end with a separator, or are empty.
hinted_dir-ended : (full : Str) → ends_with separator full ≡ true → hinted_dir full ≡ full
unfolding hinted_dir
hinted_dir-ended full e = rw e refl

hinted_dir-closed :
    (root hint : Str)
    → is_closed root ≡ true
    → is_closed hint ≡ true
    → hinted_dir (root ++ hint) ≡ root ++ hint
unfolding hinted_dir parent split trim_path trim_end drop_last join ends_with str_eq
hinted_dir-closed [] [] c d = refl
hinted_dir-closed (b ∷ r) [] c d =
    hinted_dir-ended ((b ∷ r) ++ []) (ap (ends_with separator) (append-nil (b ∷ r)) ∙ c)
hinted_dir-closed root (b ∷ h) c d =
    let (p, e) = ends_with_sound separator (b ∷ h) d in
    hinted_dir-ended (root ++ b ∷ h) (
      ap (λ x. ends_with separator (root ++ x)) e
      ∙ ap (ends_with separator) (sym (append_assoc root p separator))
      ∙ ends_with-append separator (root ++ p))

all_by-drop_last :
    (q : Str → Bool) (xs : List Str) → all_by q xs ≡ true → all_by q (drop_last xs) ≡ true
unfolding drop_last
all_by-drop_last q [] h = refl
all_by-drop_last q (x ∷ []) h = refl
all_by-drop_last q (x ∷ y ∷ xs) h = ground (arith, all_by-drop_last q (y ∷ xs))

-- The directories that a hint names: a hint with a separator at its end names all of its path,
-- another one leaves out the beginning of a name.
abbrev pub hint_dirs : Str → List Str
hint_dirs hint = if is_closed hint then names hint else drop_last (names hint)

-- A directory below a root, with the names that lead from one to the other.
pub record Below (root : Str) (down : List Str) (dir : Str) : Type 0 where
  pub absolute : starts_with separator dir ≡ starts_with separator root
  pub named : names dir ≡ names root ++ down

-- The tests of a hint, by its pieces.
abbrev pub is_dots : Str → Bool
is_dots piece = str_eq piece (text "..") || str_eq piece (text ".")

check_hint-all_by :
    (hint : Str) (cs : List Str)
    → check_hint hint cs ≡ ok tt
    → all_by (λ c. not (is_dots c)) cs ≡ true
unfolding check_hint
check_hint-all_by hint [] h = refl
check_hint-all_by hint (c ∷ cs) h = ground (arith, check_hint-all_by hint cs)

validated :
    (hint : Str)
    → validate_prefix_hint hint ≡ ok tt
    → (starts_with separator hint ≡ false)
      × (all_by (λ c. not (is_dots c)) (split key_separator hint) ≡ true)
unfolding validate_prefix_hint
validated hint h = ground (arith, check_hint-all_by hint (split key_separator hint))

module _ (hint : Str) (valid : validate_prefix_hint hint ≡ ok tt) where
  last_named :
      (zs : List Str) (l : Str)
      → split key_separator hint ≡ zs ++ l ∷ []
      → is_empty l ≡ false
      → is_skipped l ≡ false
  last_named zs l s n = ground (
    arith,
    (validated hint valid).1,
    ap (all_by (λ c. not (is_dots c))) s,
    all_by-append (λ c. not (is_dots c)) zs (l ∷ []),
  )

  pub drop_last-names :
      (zs : List Str) (l : Str)
      → split key_separator hint ≡ zs ++ l ∷ []
      → is_empty l ≡ false
      → drop_last (names hint) ≡ names_in zs
  drop_last-names zs l s n =
      ap (λ r. drop_last (names_in r)) s
      ∙ ap drop_last (filter_by-append (λ p. not (is_skipped p)) zs (l ∷ []))
      ∙ rw (last_named zs l s n) (drop_last-last (names_in zs) l)

module _ (root hint : Str) (closed : is_closed root ≡ true)
    (valid : validate_prefix_hint hint ≡ ok tt) where
  appended : join_path root hint ≡ root ++ hint
  unfolding join_path
  appended = rw ((validated hint valid).0, closed) refl

  whole-Below :
      hinted_dir (root ++ hint) ≡ root ++ hint → Below root (names hint) (hinted_dir (root ++ hint))
  whole-Below e = rw e (record {
    absolute = starts_with-closed root hint closed (validated hint valid).0;
    named = names-closed root hint closed;
  })

  parent-Below :
      is_closed hint ≡ false → Below root (drop_last (names hint)) (hinted_dir (root ++ hint))
  unfolding hinted_dir
  parent-Below o =
      let (zs, l, s, n) = last_piece hint o in
      let named = last_named hint valid zs l s n in
      let (xs, split_root, names_root) = closed-split root closed in
      let (up, e, d, a) =
        parent-last (root ++ hint) (xs ++ zs) l
          (split_root hint ∙ ap (λ r. xs ++ r) s ∙ sym (append_assoc xs zs (l ∷ []))) named in
      rw (ends_with-open root hint o, e)
        (record {
          absolute = a ∙ starts_with-closed root hint closed (validated hint valid).0;
          named =
              d
              ∙ filter_by-append (λ p. not (is_skipped p)) xs zs
              ∙ rw (names_root, drop_last-names hint valid zs l s n) refl;
        })

  hinted_dir-Below : Below root (hint_dirs hint) (hinted_dir (root ++ hint))
  hinted_dir-Below = elim (Bool-cases (is_closed hint)) [
    | inr o ↦ rw o (parent-Below o)
    | inl c ↦ rw c (whole-Below (hinted_dir-closed root hint closed c))
  ]

  -- No name of the hint leads upwards.
  hint_dirs-down : all_by (λ c. not (is_dots c)) (hint_dirs hint) ≡ true
  hint_dirs-down = elim (Bool-cases (is_closed hint)) [
    | inl c ↦ rw c (
        all_by-filter_by (λ c. not (is_dots c)) (λ p. not (is_skipped p)) (split key_separator hint)
          (validated hint valid).1)
    | inr o ↦ rw o (
        all_by-drop_last (λ c. not (is_dots c)) (names hint)
          (all_by-filter_by (λ c. not (is_dots c)) (λ p. not (is_skipped p))
            (split key_separator hint) (validated hint valid).1))
  ]

-- The same for a filter, which may have no hint.
abbrev pub down_of : Option Str → List Str
down_of none = []
down_of (some hint) = hint_dirs hint

-- A root, its directory for a hint, and what the hint asks for.
abbrev IsStart : Str → Option Str → Str → Type 0
IsStart root o dir = Below root (down_of o) dir × (all_by (λ c. not (is_dots c)) (down_of o) ≡ true)

ok_same : (P : Str → Type 0) (a b : Str) → ok a ≡ ok b → P a → P b
ok_same P a b e h = let same : a ≡ b = cc in subst P same h

pub subdir_of-Below :
    (root : Str) (o : Option Str) (dir : Str)
    → is_closed root ≡ true
    → subdir_of root o ≡ ok dir
    → IsStart root o dir
subdir_of-Below root none dir closed e =
    ok_same (IsStart root none) root dir e
      (record { absolute = refl; named = sym (append-nil (names root)) }, refl)
subdir_of-Below root (some hint) dir closed e = elim (Result-cases (validate_prefix_hint hint)) [
  | inr (x, v) ↦ cc (rw v at e)
  | inl (_, v) ↦
      ok_same (IsStart root (some hint)) (hinted_dir (root ++ hint)) dir
        (ap (λ p. ok (hinted_dir p)) (sym (appended root hint closed v)) ∙ (rw v at e))
        (hinted_dir-Below root hint closed v, hint_dirs-down root hint closed v)
]

-- The directory of a listing lies below the root, whatever the hint: it is reached by the
-- directories that the hint names, all of them for a hint with a separator at its end, less the
-- last name otherwise, and none of them leads upwards. A hint that would is refused.
pub prefix_subdir-Below :
    (given : Str) (f : ListFilter) (dir : Str)
    → prefix_subdir (normalise_root given) f ≡ ok dir
    → Below (normalise_root given) (down_of f.prefix_hint) dir
      × (all_by (λ c. not (is_dots c)) (down_of f.prefix_hint) ≡ true)
unfolding prefix_subdir
prefix_subdir-Below given f dir e =
    subdir_of-Below (normalise_root given) f.prefix_hint dir (normalise_root-closed given) e
