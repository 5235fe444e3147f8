-- ===== src/Fs/Hints.antt =====
-- The texts of paths by their pieces: the last piece, the parent, and paths below a root.
use mathlib.Core.List.{append_assoc, append-nil}
use xtax.Base.{
  ℕ, Str, Bool, true, false, not, ◌&&◌, some, List, [], ◌∷◌, ◌++◌, ◌≡◌, refl, sym, ap, ◌∙◌, arith,
  ◌==◌, str_eq, starts_with, ends_with, ends_with_sound, split, push_first, is_empty, all_by,
  all_by-append, filter_by-append, if◌then◌else◌, Bool-cases, inl, inr,
}
use xtax.Types.{key_separator}
use xtax.Validate.Components.{join, split-append, split-cons}
use xtax.Fs.{is_closed}
use xtax.Fs.Hint.{separator, is_skipped, trim_end, trim_path, parent}
use xtax.Fs.Pieces.{
  names_in, names, has_no_separator, split-has_no_separator, split-join_pieces, names-join,
  names-append, trim_path-parts, trim_path-last, drop_last-last, not_empty-last,
}

-- A text with a name at its end.
pub last_piece :
    (h : Str)
    → is_closed h ≡ false
    → (zs : List Str) × (l : Str) × (split key_separator h ≡ zs ++ l ∷ []) × (is_empty l ≡ false)
unfolding split ends_with str_eq
last_piece [] e = cc
last_piece (b ∷ []) e = elim (Bool-cases (b == key_separator)) [
  | inl q ↦ absurd (ground arith)
  | inr q ↦ ([], b ∷ [], rw q refl, refl)
]
last_piece (b ∷ d ∷ k) e =
    let (zs, l, s, n) = last_piece (d ∷ k) (ground arith) in
    elim (Bool-cases (b == key_separator)) [
      | inl q ↦ ([] ∷ zs, l, rw (q, s) refl, n)
      | inr q ↦ pushed b zs l (split key_separator (d ∷ k)) s n q
    ]
  where
    pushed :
        (b : ℕ) (zs : List Str) (l : Str) (rest : List Str)
        → rest ≡ zs ++ l ∷ []
        → is_empty l ≡ false
        → (b == key_separator) ≡ false
        → (zs : List Str) × (m : Str) × ((if b == key_separator
              then [] ∷ rest
              else push_first b rest)
            ≡ zs ++ m ∷ [])
          × (is_empty m ≡ false)
    pushed b [] l rest s n q = ([], b ∷ l, rw (q, s) refl, refl)
    pushed b (z ∷ zs) l rest s n q = ((b ∷ z) ∷ zs, l, rw (q, s) refl, n)

-- A text is absolute when its first piece is empty, and not the only one.
abbrev is_rooted : List Str → Bool
is_rooted (x ∷ y ∷ ys) = is_empty x
is_rooted _ = false

is_rooted-cons : (b : ℕ) (h : Str) (t : List Str) → is_rooted ((b ∷ h) ∷ t) ≡ false
is_rooted-cons b h [] = refl
is_rooted-cons b h (y ∷ ys) = refl

pub starts_with-split : (k : Str) → starts_with separator k ≡ is_rooted (split key_separator k)
unfolding starts_with split
starts_with-split [] = refl
starts_with-split (b ∷ k) =
    let (h, t, e) = split-cons key_separator k in
    elim (Bool-cases (b == key_separator)) [
      | inl q ↦ rw (q, e) (ground arith)
      | inr q ↦ rw (q, e, is_rooted-cons b h t) (ground arith)
    ]

trim_path-one : (xs : List Str) (u : Str) → trim_path xs ≡ u ∷ [] → is_empty u ≡ false
unfolding trim_path
trim_path-one [] u e = cc
trim_path-one (x ∷ xs) u e = elim (Bool-cases (is_empty (trim_end xs) && is_empty x)) [
  | inl q ↦ cc (rw q at e)
  | inr q ↦ alone x u (trim_end xs) q (rw q at e)
]
  where
    alone :
        (x u : Str) (ts : List Str)
        → (is_empty ts && is_empty x) ≡ false
        → x ∷ ts ≡ u ∷ []
        → is_empty u ≡ false
    alone x u ts q e = cc

is_rooted-append :
    (us rest : List Str) (l : Str)
    → ((u : Str) → us ≡ u ∷ [] → is_empty u ≡ false)
    → is_empty us ≡ false
    → is_rooted (us ++ (rest ++ l ∷ [])) ≡ is_rooted us
is_rooted-append [] rest l one ne = cc
is_rooted-append (u ∷ []) [] l one ne = one u refl
is_rooted-append (u ∷ []) (r ∷ rest) l one ne = one u refl
is_rooted-append (u ∷ v ∷ us) rest l one ne = refl

names-separator : names separator ≡ []
unfolding split
names-separator = refl

absolute_separator : starts_with separator separator ≡ true
unfolding starts_with
absolute_separator = refl

none_in : (us : List Str) → is_empty us ≡ true → names_in us ≡ []
none_in [] h = refl
none_in (u ∷ us) h = cc

absolute-join :
    (path l : Str) (us rest : List Str)
    → split key_separator path ≡ (us ++ rest) ++ l ∷ []
    → all_by has_no_separator us ≡ true
    → ((u : Str) → us ≡ u ∷ [] → is_empty u ≡ false)
    → (is_empty us && starts_with separator path) ≡ false
    → starts_with separator (join us) ≡ starts_with separator path
unfolding join starts_with
absolute-join path l [] rest s clean one q = sym q
absolute-join path l (u ∷ us) rest s clean one q =
    starts_with-split (join (u ∷ us))
    ∙ ap is_rooted (split-join_pieces u us clean)
    ∙ sym (is_rooted-append (u ∷ us) rest l one refl)
    ∙ ap is_rooted (sym (s ∙ append_assoc (u ∷ us) rest (l ∷ [])))
    ∙ sym (starts_with-split path)

-- The pieces before the last name, without what is no component at their end.
module _ (path l : Str) (us rest : List Str)
    (s : split key_separator path ≡ (us ++ rest) ++ l ∷ []) where
  joined-clean : all_by has_no_separator us ≡ true
  joined-clean = ground (
    arith,
    split-has_no_separator path,
    ap (all_by has_no_separator) s,
    all_by-append has_no_separator (us ++ rest) (l ∷ []),
    all_by-append has_no_separator us rest,
  )

  joined-names : names (join us) ≡ names_in us
  joined-names = names-join us joined-clean

  joined-absolute :
      ((u : Str) → us ≡ u ∷ [] → is_empty u ≡ false)
      → (is_empty us && starts_with separator path) ≡ false
      → starts_with separator (join us) ≡ starts_with separator path
  joined-absolute = absolute-join path l us rest s joined-clean

-- `parent` of a path that ends with a name, by its pieces.
pub parent-last :
    (path : Str) (ws : List Str) (l : Str)
    → split key_separator path ≡ ws ++ l ∷ []
    → is_skipped l ≡ false
    → (up : Str) × (parent path ≡ some up)
      × (names up ≡ names_in ws)
      × (starts_with separator up ≡ starts_with separator path)
unfolding parent
parent-last path ws l s n =
    let (rest, e, none_left) = trim_path-parts ws in
    let kept : names_in ws ≡ names_in (trim_path ws) =
      ap names_in e
      ∙ filter_by-append (λ p. not (is_skipped p)) (trim_path ws) rest
      ∙ ap (λ r. names_in (trim_path ws) ++ r) none_left
      ∙ append-nil (names_in (trim_path ws)) in
    rw (s, trim_path-last ws l n, drop_last-last ws l, not_empty-last ws l)
      (elim (Bool-cases (is_empty (trim_path ws) && starts_with separator path)) [
        | inl q ↦ (
          separator,
          rw q refl,
          names-separator ∙ sym (kept ∙ none_in (trim_path ws) (ground arith)),
          absolute_separator ∙ ground (arith, q),
        )
        | inr q ↦ (
          join (trim_path ws),
          rw q refl,
          joined-names path l (trim_path ws) rest (s ∙ ap (λ r. r ++ l ∷ []) e) ∙ sym kept,
          joined-absolute path l (trim_path ws) rest (s ∙ ap (λ r. r ++ l ∷ []) e)
              (trim_path-one ws) q,
        )
      ])

-- A closed path ends a piece.
pub closed-split :
    (root : Str)
    → is_closed root ≡ true
    → (xs : List Str) × ((h : Str) → split key_separator (root ++ h) ≡ xs ++ split key_separator h)
      × (names_in xs ≡ names root)
unfolding split
closed-split [] h = ([], λ k. refl, refl)
closed-split (b ∷ r) h =
    let (p, e) = ends_with_sound separator (b ∷ r) h in
    (
      split key_separator p,
      λ k.
          ap (λ x. split key_separator (x ++ k)) e
          ∙ ap (split key_separator) (append_assoc p separator k)
          ∙ split-append key_separator p k,
      sym (append-nil (names p)) ∙ sym (names-append p []) ∙ ap names (sym e),
    )

pub names-closed :
    (root h : Str) → is_closed root ≡ true → names (root ++ h) ≡ names root ++ names h
names-closed root h c =
    let (xs, s, n) = closed-split root c in
    ap names_in (s h)
    ∙ filter_by-append (λ p. not (is_skipped p)) xs (split key_separator h)
    ∙ ap (λ r. r ++ names h) n

pub ends_with-open : (p h : Str) → is_closed h ≡ false → ends_with separator (p ++ h) ≡ false
unfolding ends_with str_eq
ends_with-open [] h c = ground arith
ends_with-open (b ∷ []) [] c = cc c
ends_with-open (b ∷ []) (d ∷ h) c = ground arith
ends_with-open (b ∷ d ∷ p) h c = ground (arith, ends_with-open (d ∷ p) h c)

pub starts_with-closed :
    (root h : Str)
    → is_closed root ≡ true
    → starts_with separator h ≡ false
    → starts_with separator (root ++ h) ≡ starts_with separator root
unfolding starts_with
starts_with-closed [] h c n = n
starts_with-closed (b ∷ r) h c n = refl
