-- ===== src/Base/Sort.antt =====
-- `sort` on texts: an insertion sort, which sorts and keeps the elements.
use mathlib.Core.Path.{◌≡◌, refl}
use mathlib.Core.Logic.{inl, inr}
use mathlib.Core.Bool.{Bool, true, false, ◌||◌}
use mathlib.Core.List.{List, [], ◌∷◌}
use native.Mathlib.Omega.{arith}
use xtax.Base.Tests.{if◌then◌else◌, Bool-cases}
use xtax.Base.Lists.{all_by}
use xtax.Base.Text.{Str, str_le, str_eq, contains, IsSorted, occurrences}

unfoldable pub insert_key : Str → List Str → List Str
insert_key k [] = k ∷ []
insert_key k (j ∷ ks) = if str_le k j then k ∷ j ∷ ks else j ∷ insert_key k ks

unfoldable pub sort_keys : List Str → List Str
unfolding insert_key
sort_keys [] = []
sort_keys (k ∷ ks) = insert_key k (sort_keys ks)

str_le_total : (s t : Str) → str_le s t ≡ false → str_le t s ≡ true
unfolding str_le
str_le_total [] t h = cc
str_le_total (a ∷ s) [] h = refl
str_le_total (a ∷ s) (b ∷ t) h = ground (arith, str_le_total s t)

str_le_trans : (s t u : Str) → str_le s t ≡ true → str_le t u ≡ true → str_le s u ≡ true
unfolding str_le
str_le_trans [] t u h g = refl
str_le_trans (a ∷ s) [] u h g = cc
str_le_trans (a ∷ s) (b ∷ t) [] h g = cc
str_le_trans (a ∷ s) (b ∷ t) (c ∷ u) h g = ground (arith, str_le_trans s t u)

all_by-str_le_trans :
    (k j : Str) (ks : List Str)
    → str_le k j ≡ true
    → all_by (str_le j) ks ≡ true
    → all_by (str_le k) ks ≡ true
all_by-str_le_trans k j [] h g = refl
all_by-str_le_trans k j (i ∷ ks) h g =
    ground (arith, str_le_trans k j i, all_by-str_le_trans k j ks)

all_by-insert_key :
    (q : Str → Bool) (k : Str) (ks : List Str)
    → q k ≡ true
    → all_by q ks ≡ true
    → all_by q (insert_key k ks) ≡ true
unfolding insert_key
all_by-insert_key q k [] h g = ground arith
all_by-insert_key q k (j ∷ ks) h g = ground (arith, all_by-insert_key q k ks)

insert_key-IsSorted : (k : Str) (ks : List Str) → IsSorted ks → IsSorted (insert_key k ks)
unfolding insert_key
insert_key-IsSorted k [] h = (refl, tt)
insert_key-IsSorted k (j ∷ ks) h = elim (Bool-cases (str_le k j)) [
  | inl e ↦ rw e (rw e (all_by-str_le_trans k j ks e h.0), h)
  | inr e ↦
      rw e
        (all_by-insert_key (str_le j) k ks (str_le_total k j e) h.0, insert_key-IsSorted k ks h.1)
]

pub sort_keys-IsSorted : (ks : List Str) → IsSorted (sort_keys ks)
unfolding sort_keys
sort_keys-IsSorted [] = tt
sort_keys-IsSorted (k ∷ ks) = insert_key-IsSorted k (sort_keys ks) (sort_keys-IsSorted ks)

contains-insert_key :
    (k : Str) (ks : List Str) (j : Str)
    → contains (insert_key k ks) j ≡ (str_eq k j || contains ks j)
unfolding insert_key contains
contains-insert_key k [] j = refl
contains-insert_key k (i ∷ ks) j = ground (arith, contains-insert_key k ks j)

pub contains-sort_keys : (ks : List Str) (j : Str) → contains (sort_keys ks) j ≡ contains ks j
unfolding sort_keys contains
contains-sort_keys [] j = refl
contains-sort_keys (k ∷ ks) j =
    ground (arith, contains-insert_key k (sort_keys ks) j, contains-sort_keys ks j)

occurrences-insert_key :
    (k : Str) (ks : List Str) (j : Str) → occurrences (insert_key k ks) j ≡ occurrences (k ∷ ks) j
unfolding insert_key
occurrences-insert_key k [] j = refl
occurrences-insert_key k (i ∷ ks) j = ground (arith, occurrences-insert_key k ks j)

-- Sorting drops and repeats nothing.
pub occurrences-sort_keys :
    (ks : List Str) (j : Str) → occurrences (sort_keys ks) j ≡ occurrences ks j
unfolding sort_keys
occurrences-sort_keys [] j = refl
occurrences-sort_keys (k ∷ ks) j =
    ground (arith, occurrences-insert_key k (sort_keys ks) j, occurrences-sort_keys ks j)
