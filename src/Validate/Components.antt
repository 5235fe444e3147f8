-- ===== src/Validate/Components.antt =====
-- The validation of a key against its components, described without the code's tests.
use xtax.Base.{
  ℕ, Str, text, str_eq, str_eq_iff, starts_with, starts_with_sound, ends_with, ends_with_sound,
  has_char, split, push_first, is_empty, all_by, all_by-append, All, List, [], ◌∷◌, ◌++◌, ◌≡◌, ◌≢◌,
  ◌↔◌, refl, ap, ◌∙◌, sym, Bool, true, false, not, ◌&&◌, ◌||◌, Bool-cases, inl, inr, arith, ◌==◌,
  ==_iff,
}
use mathlib.Core.Path.{subst}
use xtax.Exec.{ok}
use xtax.Types.{key_separator}
use xtax.Validate.{check_components, validate_blob_key, backslash}

-- What the loop asks of one component.
abbrev pub is_plain : Str → Bool
is_plain c = not (is_empty c) && not (str_eq c (text "..") || str_eq c (text "."))

pub split-cons : (c : ℕ) (k : Str) → (h : Str) × (t : List Str) × (split c k ≡ h ∷ t)
unfolding split
split-cons c [] = ([], [], refl)
split-cons c (b ∷ k) =
    let (h, t, e) = split-cons c k in
    elim (Bool-cases (b == c)) [ inl q ↦ ([], split c k, rw q) | inr q ↦ (b ∷ h, t, rw (q, e)) ]

push_first-append :
    (b : ℕ) (h : Str) (xs ys : List Str)
    → push_first b ((h ∷ xs) ++ ys) ≡ push_first b (h ∷ xs) ++ ys
push_first-append b h xs ys = refl

-- Splitting goes piece by piece.
pub split-append : (c : ℕ) (p k : Str) → split c (p ++ c ∷ k) ≡ split c p ++ split c k
unfolding split
split-append c [] k = ground arith
split-append c (b ∷ p) k =
    let (h, t, e) = split-cons c p in
    elim (Bool-cases (b == c)) [
      | inl q ↦ rw (q, split-append c p k)
      | inr q ↦ rw (q, split-append c p k, e)
    ]

check_components-eq-ok :
    (key : Str) (cs : List Str) → (check_components key cs ≡ ok tt) ↔ (all_by is_plain cs ≡ true)
unfolding check_components
check_components-eq-ok key [] = (λ _. refl, λ _. refl)
check_components-eq-ok key (c ∷ cs) = ground (arith, check_components-eq-ok key cs)

pub has_char-append : (c : ℕ) (p k : Str) → has_char c (p ++ k) ≡ (has_char c p || has_char c k)
unfolding has_char
has_char-append c [] k = refl
has_char-append c (b ∷ p) k = ground (arith, has_char-append c p k)

no_component_empty : all_by is_plain (split key_separator []) ≡ false
unfolding split
no_component_empty = refl

no_component_absolute :
    (r : Str) → all_by is_plain (split key_separator (key_separator ∷ r)) ≡ false
unfolding split
no_component_absolute r = refl

no_component_directory :
    (p : Str) → all_by is_plain (split key_separator (p ++ key_separator ∷ [])) ≡ false
no_component_directory p =
    rw (split-append, all_by-append, no_component_empty)
      (ground (arith, Bool-cases (all_by is_plain (split key_separator p))))

-- A key with plain components passes the tests before the loop too.
not_empty : (k : Str) → all_by is_plain (split key_separator k) ≡ true → is_empty k ≡ false
not_empty [] plain = cc no_component_empty
not_empty (b ∷ k) plain = refl

module _ (k : Str) (plain : all_by is_plain (split key_separator k) ≡ true) where
  pub not_absolute : starts_with (key_separator ∷ []) k ≡ false
  not_absolute = elim (Bool-cases (starts_with (key_separator ∷ []) k)) [
    | inl e ↦
        let (r, q) = starts_with_sound (key_separator ∷ []) k e in
        cc (plain, q, no_component_absolute r)
    | inr e ↦ e
  ]

  not_directory : ends_with (key_separator ∷ []) k ≡ false
  not_directory = elim (Bool-cases (ends_with (key_separator ∷ []) k)) [
    | inl e ↦
        let (p, q) = ends_with_sound (key_separator ∷ []) k e in
        cc (plain, q, no_component_directory p)
    | inr e ↦ e
  ]

-- The whole validation, by its two tests that do not follow from others.
pub validate_blob_key-eq-ok :
    (k : Str)
    → (validate_blob_key k ≡ ok tt)
      ↔ ((has_char backslash k ≡ false) × (all_by is_plain (split key_separator k) ≡ true))
unfolding validate_blob_key
validate_blob_key-eq-ok k = (
  λ h. ground (arith, (check_components-eq-ok k (split key_separator k)).0),
  λ (clean, plain).
      rw (not_empty k plain, not_absolute k plain, not_directory k plain, clean)
        ((check_components-eq-ok k (split key_separator k)).1 plain),
)

-- An independent description: components joined by separators.
unfoldable pub join : List Str → Str
join [] = []
join (c ∷ []) = c
join (c ∷ d ∷ cs) = c ++ key_separator ∷ join (d ∷ cs)

pub record IsComponent (c : Str) : Type 0 where
  pub nonempty : c ≢ []
  pub not_parent : c ≢ text ".."
  pub not_current : c ≢ text "."
  pub no_separator : has_char key_separator c ≡ false
  pub no_backslash : has_char backslash c ≡ false

-- What a key is meant to be: components, at least one, with separators between them.
pub record IsKeyOf (cs : List Str) (k : Str) : Type 0 where
  pub some_component : cs ≢ []
  pub components : All IsComponent cs
  pub joined : join cs ≡ k

pub join-cons : (c : Str) (cs : List Str) → cs ≢ [] → join (c ∷ cs) ≡ c ++ key_separator ∷ join cs
unfolding join
join-cons c [] h = absurd (h refl)
join-cons c (d ∷ cs) h = refl

split_single : (c : Str) → has_char key_separator c ≡ false → split key_separator c ≡ c ∷ []
unfolding split has_char
split_single [] h = refl
split_single (b ∷ c) h = ground (arith, split_single c)

-- Splitting undoes joining, and joining undoes splitting.
pub split-join : (cs : List Str) → cs ≢ [] → All IsComponent cs → split key_separator (join cs) ≡ cs
unfolding join
split-join [] ne all = absurd (ne refl)
split-join (c ∷ []) ne all = split_single c all.0.no_separator
split-join (c ∷ d ∷ cs) ne all =
    rw (split-append, split_single c all.0.no_separator, split-join (d ∷ cs) (λ e. cc) all.1)

join-push_first : (b : ℕ) (h : Str) (t : List Str) → join (push_first b (h ∷ t)) ≡ b ∷ join (h ∷ t)
unfolding join
join-push_first b h [] = refl
join-push_first b h (d ∷ t) = refl

pub join-split : (k : Str) → join (split key_separator k) ≡ k
unfolding split join
join-split [] = refl
join-split (b ∷ k) =
    let (h, t, e) = split-cons key_separator k in
    let ih : join (h ∷ t) ≡ k = ap join (sym e) ∙ join-split k in
    elim (Bool-cases (b == key_separator)) [
      | inl q ↦ rw (q, e) (ground (arith, ==_iff b key_separator, ih))
      | inr q ↦ rw (q, e) (join-push_first b h t ∙ ap (λ r. b ∷ r) ih)
    ]

-- The pieces hold no separator, and only characters of the text.
abbrev is_clean : Str → Bool
is_clean c = not (has_char key_separator c) && not (has_char backslash c)

split-is_clean :
    (k : Str) → has_char backslash k ≡ false → all_by is_clean (split key_separator k) ≡ true
unfolding split has_char
split-is_clean [] h = refl
split-is_clean (b ∷ k) h =
    let (x, t, e) = split-cons key_separator k in
    let ih : all_by is_clean (x ∷ t) ≡ true =
      ap (all_by is_clean) (sym e) ∙ split-is_clean k (ground arith) in
    elim (Bool-cases (b == key_separator)) [
      | inl q ↦ rw (q, e) (ground (arith, ih))
      | inr q ↦ rw (q, e) (ground (arith, ih))
    ]

component : (c : Str) → is_plain c ≡ true → is_clean c ≡ true → IsComponent c
component c plain clean = record {
  nonempty = λ e. cc (plain, ap is_plain e);
  not_parent = λ e. ground (arith, str_eq_iff c (text ".."));
  not_current = λ e. ground (arith, str_eq_iff c (text "."));
  no_separator = ground arith;
  no_backslash = ground arith;
}

All-IsComponent :
    (cs : List Str) → all_by is_plain cs ≡ true → all_by is_clean cs ≡ true → All IsComponent cs
All-IsComponent [] p q = tt
All-IsComponent (c ∷ cs) p q =
    (component c (ground arith) (ground arith), All-IsComponent cs (ground arith) (ground arith))

component-is_plain : (c : Str) → IsComponent c → is_plain c ≡ true
component-is_plain [] h = absurd (h.nonempty refl)
component-is_plain (b ∷ c) h =
    ground (arith, str_eq_iff (b ∷ c) (text ".."), str_eq_iff (b ∷ c) (text "."))

all_by-is_plain : (cs : List Str) → All IsComponent cs → all_by is_plain cs ≡ true
all_by-is_plain [] h = refl
all_by-is_plain (c ∷ cs) h = rw (component-is_plain c h.0, all_by-is_plain cs h.1)

join-backslash : (cs : List Str) → All IsComponent cs → has_char backslash (join cs) ≡ false
unfolding join has_char
join-backslash [] h = refl
join-backslash (c ∷ []) h = h.0.no_backslash
join-backslash (c ∷ d ∷ cs) h =
    rw (has_char-append, h.0.no_backslash) (ground (arith, join-backslash (d ∷ cs) h.1))

pub split-IsKeyOf : (k : Str) → validate_blob_key k ≡ ok tt → IsKeyOf (split key_separator k) k
split-IsKeyOf k h =
    let (clean, plain) = (validate_blob_key-eq-ok k).0 h in
    record {
      some_component = λ e. let (x, t, q) = split-cons key_separator k in cc;
      components = All-IsComponent _ plain (split-is_clean k clean);
      joined = join-split k;
    }

-- A key is accepted exactly when it is one or more components joined by '/', where a component
-- is a nonempty text other than '.' and '..' without '/' and backslash.
pub validate_blob_key-iff-IsKeyOf :
    (k : Str) → (validate_blob_key k ≡ ok tt) ↔ ((cs : List Str) × IsKeyOf cs k)
validate_blob_key-iff-IsKeyOf k = (
  λ h. (split key_separator k, split-IsKeyOf k h),
  λ (cs, v). (validate_blob_key-eq-ok k).1 (
    subst (λ j. has_char backslash j ≡ false) v.joined (join-backslash cs v.components),
    subst (λ j. all_by is_plain (split key_separator j) ≡ true) v.joined
        (rw (split-join cs v.some_component v.components) (all_by-is_plain cs v.components)),
  ),
)
