-- ===== src/Fs/Pieces.antt =====
-- The pieces of a path, and the methods of `std::path` on them.
use xtax.Base.{
  Str, Bool, true, false, not, ◌&&◌, List, [], ◌∷◌, ◌++◌, ◌≡◌, refl, sym, ap, ◌∙◌, arith, ◌==◌,
  has_char, split, is_empty, all_by, filter_by, filter_by-append, Bool-cases, inl, inr,
}
use xtax.Types.{key_separator}
use xtax.Validate.Components.{join, split-append, split-cons}
use xtax.Fs.Hint.{is_skipped, trim_end, trim_path, drop_last}

-- The names that lead to a path: its components, without a dot at its start.
abbrev pub names_in : List Str → List Str
names_in pieces = filter_by (λ piece. not (is_skipped piece)) pieces

abbrev pub names : Str → List Str
names path = names_in (split key_separator path)

abbrev pub has_no_separator : Str → Bool
has_no_separator piece = not (has_char key_separator piece)

pub split-has_no_separator : (k : Str) → all_by has_no_separator (split key_separator k) ≡ true
unfolding split has_char
split-has_no_separator [] = refl
split-has_no_separator (b ∷ k) =
    let (x, t, e) = split-cons key_separator k in
    let ih : all_by has_no_separator (x ∷ t) ≡ true =
      ap (all_by has_no_separator) (sym e) ∙ split-has_no_separator k in
    elim (Bool-cases (b == key_separator)) [
      | inl q ↦ rw (q, e) (ground (arith, ih))
      | inr q ↦ rw (q, e) (ground (arith, ih))
    ]

pub split_one : (c : Str) → has_no_separator c ≡ true → split key_separator c ≡ c ∷ []
unfolding split has_char
split_one [] h = refl
split_one (b ∷ c) h = ground (arith, split_one c)

-- Splitting undoes joining, unless nothing was joined.
pub split-join_pieces :
    (c : Str) (cs : List Str)
    → all_by has_no_separator (c ∷ cs) ≡ true
    → split key_separator (join (c ∷ cs)) ≡ c ∷ cs
unfolding join
split-join_pieces c [] h = split_one c (ground arith)
split-join_pieces c (d ∷ cs) h =
    rw (split-append, split_one c (ground arith), split-join_pieces d cs (ground arith))

pub split-join_some :
    (cs : List Str)
    → is_empty cs ≡ false
    → all_by has_no_separator cs ≡ true
    → split key_separator (join cs) ≡ cs
split-join_some [] e h = cc e
split-join_some (c ∷ cs) e h = split-join_pieces c cs h

pub names-join : (cs : List Str) → all_by has_no_separator cs ≡ true → names (join cs) ≡ names_in cs
unfolding join split
names-join [] h = refl
names-join (c ∷ cs) h = ap names_in (split-join_pieces c cs h)

pub names-append : (p k : Str) → names (p ++ key_separator ∷ k) ≡ names p ++ names k
names-append p k =
    ap names_in (split-append key_separator p k)
    ∙ filter_by-append (λ piece. not (is_skipped piece)) (split key_separator p)
        (split key_separator k)

nothing_left :
    (x : Str) (ts rest xs : List Str)
    → xs ≡ ts ++ rest
    → is_empty ts ≡ true
    → names_in rest ≡ []
    → is_skipped x ≡ true
    → names_in (x ∷ xs) ≡ []
nothing_left x [] rest xs e h n k = rw k (ap names_in e ∙ n)
nothing_left x (t ∷ ts) rest xs e h n k = cc h

pub not_empty-last : (xs : List Str) (l : Str) → is_empty (xs ++ l ∷ []) ≡ false
not_empty-last [] l = refl
not_empty-last (x ∷ xs) l = refl

-- What the methods leave out at the end is no component.
pub trim_end-parts :
    (xs : List Str) → (rest : List Str) × (xs ≡ trim_end xs ++ rest) × (names_in rest ≡ [])
unfolding trim_end
trim_end-parts [] = ([], refl, refl)
trim_end-parts (x ∷ xs) =
    let (rest, e, n) = trim_end-parts xs in
    elim (Bool-cases (is_empty (trim_end xs) && is_skipped x)) [
      | inl q ↦ (
        x ∷ xs,
        rw q refl,
        nothing_left x (trim_end xs) rest xs e (ground arith) n (ground arith),
      )
      | inr q ↦ (rest, rw q (ap (λ r. x ∷ r) e), n)
    ]

pub trim_path-parts :
    (xs : List Str) → (rest : List Str) × (xs ≡ trim_path xs ++ rest) × (names_in rest ≡ [])
unfolding trim_path
trim_path-parts [] = ([], refl, refl)
trim_path-parts (x ∷ xs) =
    let (rest, e, n) = trim_end-parts xs in
    elim (Bool-cases (is_empty (trim_end xs) && is_empty x)) [
      | inl q ↦ (
        x ∷ xs,
        rw q refl,
        nothing_left x (trim_end xs) rest xs e (ground arith) n (ground arith),
      )
      | inr q ↦ (rest, rw q (ap (λ r. x ∷ r) e), n)
    ]

pub trim_end-last :
    (xs : List Str) (l : Str) → is_skipped l ≡ false → trim_end (xs ++ l ∷ []) ≡ xs ++ l ∷ []
unfolding trim_end
trim_end-last [] l h = ground arith
trim_end-last (x ∷ xs) l h = rw (trim_end-last xs l h, not_empty-last xs l) refl

pub trim_path-last :
    (xs : List Str) (l : Str) → is_skipped l ≡ false → trim_path (xs ++ l ∷ []) ≡ xs ++ l ∷ []
unfolding trim_path trim_end
trim_path-last [] l h = ground arith
trim_path-last (x ∷ xs) l h = rw (trim_end-last xs l h, not_empty-last xs l) refl

pub drop_last-last : (xs : List Str) (l : Str) → drop_last (xs ++ l ∷ []) ≡ xs
unfolding drop_last
drop_last-last [] l = refl
drop_last-last (x ∷ []) l = refl
drop_last-last (x ∷ y ∷ xs) l = ap (λ r. x ∷ r) (drop_last-last (y ∷ xs) l)
