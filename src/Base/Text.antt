-- ===== src/Base/Text.antt =====
-- Rust's `str` as its bytes, and the methods of `str` that the crate calls.
use Prim.Native.Nat.{ℕ, suc, ◌+◌}
use Prim.Native.Char.{code}
use Prim.Native.String.{String}
use mathlib.Core.Path.{◌≡◌, refl, ap, sym}
use mathlib.Core.Logic.{◌↔◌, inl, inr}
use mathlib.Core.Bool.{Bool, true, false, ◌&&◌, ◌||◌}
use mathlib.Core.Option.{Option, none, some}
use mathlib.Core.List.{List, [], ◌∷◌, ◌++◌}
use native.Mathlib.Omega.{arith}
use xtax.Base.Lists.{all_by, filter_by}
use xtax.Base.Tests.{◌==◌, ltb, if◌then◌else◌, Bool-cases}

abbrev pub Str : Type 0
Str = List ℕ

-- A literal. It stays shut, so that no proof computes the bytes of a message.
unfoldable pub text : String → Str
text String.[] = []
text (String.◌∷◌ c s) = code c ∷ text s

unfoldable pub str_eq : Str → Str → Bool
str_eq [] [] = true
str_eq (a ∷ s) (b ∷ t) = (a == b) && str_eq s t
str_eq _ _ = false

-- `k.starts_with(p)`, with the pattern first.
unfoldable pub starts_with : Str → Str → Bool
starts_with [] k = true
starts_with (a ∷ p) [] = false
starts_with (a ∷ p) (b ∷ k) = (a == b) && starts_with p k

-- `k.ends_with(suffix)`.
unfoldable pub ends_with : Str → Str → Bool
unfolding str_eq
ends_with suffix [] = str_eq suffix []
ends_with suffix (c ∷ k) = str_eq suffix (c ∷ k) || ends_with suffix k

-- `k.contains(c)` for a character.
unfoldable pub has_char : ℕ → Str → Bool
has_char c [] = false
has_char c (b ∷ k) = (b == c) || has_char c k

-- `k.strip_prefix(p)`.
unfoldable pub strip_prefix : Str → Str → Option Str
strip_prefix [] k = some k
strip_prefix (a ∷ p) [] = none
strip_prefix (a ∷ p) (b ∷ k) = if a == b then strip_prefix p k else none

-- `k.split(c)`: a text with n separators has n + 1 pieces, empty ones included.
abbrev pub push_first : ℕ → List Str → List Str
push_first b [] = (b ∷ []) ∷ []
push_first b (piece ∷ pieces) = (b ∷ piece) ∷ pieces

unfoldable pub split : ℕ → Str → List Str
split c [] = [] ∷ []
split c (b ∷ k) = let rest = split c k in if b == c then [] ∷ rest else push_first b rest

-- `keys.contains(k)` for a collection of texts.
unfoldable pub contains : List Str → Str → Bool
contains [] k = false
contains (j ∷ ks) k = str_eq j k || contains ks k

-- The order of `str` is that of its bytes.
unfoldable pub str_le : Str → Str → Bool
str_le [] t = true
str_le (a ∷ s) [] = false
str_le (a ∷ s) (b ∷ t) = if a == b then str_le s t else ltb a b

-- Every text stands before those after it.
abbrev pub IsSorted : List Str → Type 0
IsSorted [] = Unit
IsSorted (k ∷ ks) = (all_by (str_le k) ks ≡ true) × IsSorted ks

pub str_eq_sound : (s t : Str) → str_eq s t ≡ true → s ≡ t
unfolding str_eq
str_eq_sound [] [] h = refl
str_eq_sound [] (b ∷ t) h = cc
str_eq_sound (a ∷ s) [] h = cc
str_eq_sound (a ∷ s) (b ∷ t) h = ground (arith, str_eq_sound s t)

pub str_eq_refl : (s : Str) → str_eq s s ≡ true
unfolding str_eq
str_eq_refl [] = refl
str_eq_refl (a ∷ s) = ground (arith, str_eq_refl s)

pub str_eq_iff : (s t : Str) → (str_eq s t ≡ true) ↔ (s ≡ t)
str_eq_iff s t = (str_eq_sound s t, λ e. cc (str_eq_refl s, ap (str_eq s) e))

-- The methods are decisions: each says exactly that the text has a decomposition.
pub starts_with_sound : (p k : Str) → starts_with p k ≡ true → (r : Str) × (k ≡ p ++ r)
unfolding starts_with
starts_with_sound [] k h = (k, refl)
starts_with_sound (a ∷ p) [] h = cc
starts_with_sound (a ∷ p) (b ∷ k) h =
    let (r, e) = starts_with_sound p k (ground arith) in (r, ground arith)

pub starts_with-append : (p r : Str) → starts_with p (p ++ r) ≡ true
unfolding starts_with
starts_with-append [] r = refl
starts_with-append (a ∷ p) r = ground (arith, starts_with-append p r)

pub ends_with-append : (s p : Str) → ends_with s (p ++ s) ≡ true
unfolding ends_with
ends_with-append [] [] = refl
ends_with-append (a ∷ s) [] = ground (arith, str_eq_refl (a ∷ s))
ends_with-append s (b ∷ p) = ground (arith, ends_with-append s p)

pub ends_with_sound : (s k : Str) → ends_with s k ≡ true → (p : Str) × (k ≡ p ++ s)
unfolding ends_with
ends_with_sound s [] h = ([], sym (str_eq_sound s [] h))
ends_with_sound s (c ∷ k) h = elim (Bool-cases (str_eq s (c ∷ k))) [
  | inl e ↦ ([], sym (str_eq_sound s (c ∷ k) e))
  | inr e ↦ let (p, q) = ends_with_sound s k (ground arith) in (c ∷ p, ap (λ r. c ∷ r) q)
]

pub strip_prefix-append : (p k : Str) → strip_prefix p (p ++ k) ≡ some k
unfolding strip_prefix
strip_prefix-append [] k = refl
strip_prefix-append (a ∷ p) k = ground (arith, strip_prefix-append p k)

pub strip_prefix_sound : (p k r : Str) → strip_prefix p k ≡ some r → k ≡ p ++ r
unfolding strip_prefix
strip_prefix_sound [] k r h = ground arith
strip_prefix_sound (a ∷ p) [] r h = cc
strip_prefix_sound (a ∷ p) (b ∷ k) r h = ground (arith, strip_prefix_sound p k r)

pub append_left_cancel : (p s t : Str) → p ++ s ≡ p ++ t → s ≡ t
append_left_cancel [] s t h = h
append_left_cancel (a ∷ p) s t h = append_left_cancel p s t (ground arith)

pub str_eq-append : (p s t : Str) → str_eq (p ++ s) (p ++ t) ≡ str_eq s t
unfolding str_eq
str_eq-append [] s t = refl
str_eq-append (a ∷ p) s t = ground (arith, str_eq-append p s t)

pub str_le-append : (p s t : Str) → str_le (p ++ s) (p ++ t) ≡ str_le s t
unfolding str_le
str_le-append [] s t = refl
str_le-append (a ∷ p) s t = ground (arith, str_le-append p s t)

pub starts_with-append_both : (p s k : Str) → starts_with (p ++ s) (p ++ k) ≡ starts_with s k
unfolding starts_with
starts_with-append_both [] s k = refl
starts_with-append_both (a ∷ p) s k = ground (arith, starts_with-append_both p s k)

pub contains-filter_by :
    (q : Str → Bool) (ks : List Str) (k : Str)
    → contains (filter_by q ks) k ≡ (contains ks k && q k)
unfolding contains
contains-filter_by q [] k = refl
contains-filter_by q (j ∷ ks) k = ground (arith, contains-filter_by q ks k, str_eq_iff j k)

pub all_by-filter_by :
    (q r : Str → Bool) (ks : List Str) → all_by q ks ≡ true → all_by q (filter_by r ks) ≡ true
all_by-filter_by q r [] h = refl
all_by-filter_by q r (k ∷ ks) h = ground (arith, all_by-filter_by q r ks)

pub filter_by-IsSorted : (r : Str → Bool) (ks : List Str) → IsSorted ks → IsSorted (filter_by r ks)
filter_by-IsSorted r [] h = tt
filter_by-IsSorted r (k ∷ ks) h = elim (Bool-cases (r k)) [
  | inl e ↦ rw e (all_by-filter_by (str_le k) r ks h.0, filter_by-IsSorted r ks h.1)
  | inr e ↦ rw e (filter_by-IsSorted r ks h.1)
]

pub contains-append :
    (ks js : List Str) (k : Str) → contains (ks ++ js) k ≡ (contains ks k || contains js k)
unfolding contains
contains-append [] js k = refl
contains-append (i ∷ ks) js k = ground (arith, contains-append ks js k)

-- How often a text stands in a collection.
abbrev pub occurrences : List Str → Str → ℕ
occurrences [] k = 0
occurrences (j ∷ ks) k = if str_eq j k then suc (occurrences ks k) else occurrences ks k

pub occurrences-append :
    (ks js : List Str) (k : Str) → occurrences (ks ++ js) k ≡ occurrences ks k + occurrences js k
occurrences-append [] js k = omega arith
occurrences-append (i ∷ ks) js k = ground (arith, occurrences-append ks js k)

pub contains-occurrences : (ks : List Str) (k : Str) → contains ks k ≡ ltb 0 (occurrences ks k)
unfolding contains
contains-occurrences [] k = refl
contains-occurrences (j ∷ ks) k = ground (arith, contains-occurrences ks k)
