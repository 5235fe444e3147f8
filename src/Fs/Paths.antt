-- ===== src/Fs/Paths.antt =====
-- Where the paths of the file-system store lie.
use mathlib.Core.List.{append_assoc, append-nil}
use xtax.Base.{
  Str, true, false, List, [], ◌∷◌, ◌++◌, ◌≡◌, ◌≢◌, refl, sym, ap, ◌∙◌, arith, All, starts_with,
  ends_with, ends_with-append, has_char, str_eq, is_empty, split, Bool-cases, inl, inr,
}
use xtax.Exec.{ok, and_then, Result-cases}
use xtax.Types.{key_separator}
use xtax.Validate.{validate_blob_key}
use xtax.Validate.Components.{join, IsComponent, IsKeyOf, split-join, validate_blob_key-iff-IsKeyOf}
use xtax.Fs.{is_closed, join_path, normalise_root, join_components, key_to_path}

open_component :
    (c : Str) → c ≢ [] → has_char key_separator c ≡ false → ends_with (key_separator ∷ []) c ≡ false
unfolding ends_with has_char str_eq
open_component [] ne h = refl
open_component (b ∷ []) ne h = ground arith
open_component (b ∷ d ∷ c) ne h = ground (arith, open_component (d ∷ c) (λ e. cc) (ground arith))

open-append : (p c : Str) → c ≢ [] → has_char key_separator c ≡ false → is_closed (p ++ c) ≡ false
unfolding ends_with str_eq
open-append [] [] ne h = absurd (ne refl)
open-append [] (b ∷ c) ne h = open_component (b ∷ c) ne h
open-append (b ∷ []) [] ne h = absurd (ne refl)
open-append (b ∷ []) (d ∷ c) ne h = ground (arith, open-append [] (d ∷ c) ne h)
open-append (b ∷ d ∷ p) c ne h = ground (arith, open-append (d ∷ p) c ne h)

relative : (c : Str) → has_char key_separator c ≡ false → starts_with (key_separator ∷ []) c ≡ false
unfolding starts_with has_char
relative [] h = refl
relative (b ∷ c) h = ground arith

join_path-open :
    (q d : Str)
    → is_closed q ≡ false
    → has_char key_separator d ≡ false
    → join_path q d ≡ q ++ key_separator ∷ d
unfolding join_path
join_path-open q d h g = rw (relative d g, h) refl

join_components-open :
    (q d : Str) (ds : List Str)
    → is_closed q ≡ false
    → All IsComponent (d ∷ ds)
    → join_components q (d ∷ ds) ≡ q ++ key_separator ∷ join (d ∷ ds)
unfolding join_components join
join_components-open q d [] h all = join_path-open q d h all.0.no_separator
join_components-open q d (e ∷ es) h all =
    let still_open : is_closed (q ++ key_separator ∷ d) ≡ false =
      ap is_closed (sym (append_assoc q (key_separator ∷ []) d))
      ∙ open-append (q ++ key_separator ∷ []) d all.0.nonempty all.0.no_separator in
    ap (λ p. join_components p (e ∷ es)) (join_path-open q d h all.0.no_separator)
    ∙ join_components-open (q ++ key_separator ∷ d) e es still_open all.1
    ∙ append_assoc q (key_separator ∷ d) (key_separator ∷ join (e ∷ es))

join_path-closed :
    (q d : Str) → is_closed q ≡ true → has_char key_separator d ≡ false → join_path q d ≡ q ++ d
unfolding join_path
join_path-closed q d h g = rw (relative d g, h) refl

join_components-closed :
    (q d : Str) (ds : List Str)
    → is_closed q ≡ true
    → All IsComponent (d ∷ ds)
    → join_components q (d ∷ ds) ≡ q ++ join (d ∷ ds)
unfolding join_components join
join_components-closed q d [] h all = join_path-closed q d h all.0.no_separator
join_components-closed q d (e ∷ es) h all =
    ap (λ p. join_components p (e ∷ es)) (join_path-closed q d h all.0.no_separator)
    ∙ join_components-open (q ++ d) e es (open-append q d all.0.nonempty all.0.no_separator) all.1
    ∙ append_assoc q d (key_separator ∷ join (e ∷ es))

ends_with-separator : (p : Str) → is_closed (p ++ key_separator ∷ []) ≡ true
unfolding ends_with str_eq
ends_with-separator [] = refl
ends_with-separator (b ∷ p) = ground (arith, ends_with-append (key_separator ∷ []) p)

pub normalise_root-closed : (root : Str) → is_closed (normalise_root root) ≡ true
unfolding normalise_root join_path starts_with
normalise_root-closed root = elim (Bool-cases (ends_with (key_separator ∷ []) root)) [
  | inl e ↦ rw e (ground arith)
  | inr e ↦ elim (Bool-cases (is_empty root)) [
    | inl f ↦ rw (e, f, append-nil root) (ground (arith, f))
    | inr f ↦ rw (e, f) (ends_with-separator root)
  ]
]

joined :
    (root : Str) (key : Str) (cs : List Str)
    → is_closed root ≡ true
    → IsKeyOf cs key
    → join_components root (split key_separator key) ≡ root ++ key
joined root key [] h k = absurd (k.some_component refl)
joined root key (c ∷ cs) h k =
    ap (λ x. join_components root (split key_separator x)) (sym k.joined)
    ∙ ap (join_components root) (split-join (c ∷ cs) k.some_component k.components)
    ∙ join_components-closed root c cs h k.components
    ∙ ap (λ x. root ++ x) k.joined

-- The path of a key is the root, as the store keeps it, followed by the key itself, whatever the
-- root; a key that `validate_blob_key` rejects has no path, and the error is that of the
-- validation.
pub key_to_path-normalise_root :
    (root key : Str)
    → key_to_path (normalise_root root) key
      ≡ and_then (validate_blob_key key) (λ _. ok (normalise_root root ++ key))
unfolding key_to_path
key_to_path-normalise_root root key = elim (Result-cases (validate_blob_key key)) [
  | inr (e, h) ↦ rw h refl
  | inl (_, h) ↦
      let (cs, k) = (validate_blob_key-iff-IsKeyOf key).0 h in
      rw h (ap ok (joined (normalise_root root) key cs (normalise_root-closed root) k))
]
