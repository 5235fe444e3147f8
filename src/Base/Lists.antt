-- ===== src/Base/Lists.antt =====
-- Lists measured by native numbers, and lists filtered by Boolean tests.
use Prim.Native.Nat.{ℕ, zero, suc, ◌+◌, ◌-◌, ◌<◌, ◌≤◌}
use mathlib.Core.Path.{◌≡◌, refl, ap, ◌∙◌}
use mathlib.Core.Bool.{Bool, true, false, ◌&&◌}
use mathlib.Core.Option.{Option, none, some}
use mathlib.Core.List.{List, [], ◌∷◌, ◌++◌}
use native.Mathlib.Omega.{arith}
use xtax.Base.Tests.{if◌then◌else◌}

module _ {ℓ} {A : Type ℓ} where
  abbrev pub length : List A → ℕ
  length [] = 0
  length (x ∷ xs) = suc (length xs)

  abbrev pub take : ℕ → List A → List A
  take zero xs = []
  take (suc n) [] = []
  take (suc n) (x ∷ xs) = x ∷ take n xs

  abbrev pub drop : ℕ → List A → List A
  drop zero xs = xs
  drop (suc n) [] = []
  drop (suc n) (x ∷ xs) = drop n xs

  -- `iter().filter(p).collect()`.
  abbrev pub filter_by : (A → Bool) → List A → List A
  filter_by p [] = []
  filter_by p (x ∷ xs) = if p x then x ∷ filter_by p xs else filter_by p xs

  abbrev pub all_by : (A → Bool) → List A → Bool
  all_by p [] = true
  all_by p (x ∷ xs) = if p x then all_by p xs else false

  abbrev pub is_empty : List A → Bool
  is_empty [] = true
  is_empty (_ ∷ _) = false

  pub length-append : (xs ys : List A) → length (xs ++ ys) ≡ length xs + length ys
  length-append [] ys = omega arith
  length-append (x ∷ xs) ys = omega (arith, length-append xs ys)

  pub all_by-append :
      (p : A → Bool) (xs ys : List A) → all_by p (xs ++ ys) ≡ (all_by p xs && all_by p ys)
  all_by-append p [] ys = refl
  all_by-append p (x ∷ xs) ys = ground (arith, all_by-append p xs ys)

  pub filter_by-append :
      (p : A → Bool) (xs ys : List A) → filter_by p (xs ++ ys) ≡ filter_by p xs ++ filter_by p ys
  filter_by-append p [] ys = refl
  filter_by-append p (x ∷ xs) ys = ground (arith, filter_by-append p xs ys)

  pub take-append-drop : (n : ℕ) (xs : List A) → take n xs ++ drop n xs ≡ xs
  take-append-drop zero xs = refl
  take-append-drop (suc n) [] = refl
  take-append-drop (suc n) (x ∷ xs) = ap (λ r. x ∷ r) (take-append-drop n xs)

abbrev pub keep_some {ℓ} : {A : Type ℓ} → Option A → List A → List A
keep_some none ys = ys
keep_some (some y) ys = y ∷ ys

module _ {ℓ κ} {A : Type ℓ} {B : Type κ} where
  -- `iter().filter_map(f).collect()`.
  abbrev pub filter_map_by : (A → Option B) → List A → List B
  filter_map_by f [] = []
  filter_map_by f (x ∷ xs) = keep_some (f x) (filter_map_by f xs)

-- All elements satisfy the predicate.
abbrev pub All {ℓ κ} : {A : Type ℓ} → (A → Type κ) → List A → Type κ
All P [] = Unit
All P (x ∷ xs) = P x × All P xs

-- `chunks(n)`, on fuel: as many elements as the list has are enough.
module _ {ℓ} {A : Type ℓ} where
  unfoldable pub chunks : ℕ → ℕ → List A → List (List A)
  chunks n zero xs = []
  chunks n (suc fuel) [] = []
  chunks n (suc fuel) (x ∷ xs) = take n (x ∷ xs) ∷ chunks n fuel (drop n (x ∷ xs))

  pub take_all : (n : ℕ) (xs : List A) → length xs ≤ n → take n xs ≡ xs
  take_all zero [] h = refl
  take_all zero (x ∷ xs) h = absurd (omega arith)
  take_all (suc n) [] h = refl
  take_all (suc n) (x ∷ xs) h = ap (λ r. x ∷ r) (take_all n xs (omega arith))

  pub length-drop : (n : ℕ) (xs : List A) → length (drop n xs) ≡ length xs - n
  length-drop zero xs = omega arith
  length-drop (suc n) [] = omega arith
  length-drop (suc n) (x ∷ xs) = omega (arith, length-drop n xs)

  pub take-full : (n : ℕ) (xs : List A) → n ≤ length xs → length (take n xs) ≡ n
  take-full zero xs h = refl
  take-full (suc n) [] h = absurd (omega arith)
  take-full (suc n) (x ∷ xs) h = omega (arith, take-full n xs (omega arith))

  pub length-take-le : (n : ℕ) (xs : List A) → length (take n xs) ≤ n
  length-take-le zero xs = omega arith
  length-take-le (suc n) [] = omega arith
  length-take-le (suc n) (x ∷ xs) = omega (arith, length-take-le n xs)

  abbrev pub concat : List (List A) → List A
  concat [] = []
  concat (xs ∷ xss) = xs ++ concat xss

  -- Chunks lose nothing, and keep the order.
  pub concat-chunks :
      (n fuel : ℕ) (xs : List A) → 0 < n → length xs ≤ fuel → concat (chunks n fuel xs) ≡ xs
  unfolding chunks
  concat-chunks n zero [] h g = refl
  concat-chunks n zero (x ∷ xs) h g = absurd (omega arith)
  concat-chunks n (suc fuel) [] h g = refl
  concat-chunks n (suc fuel) (x ∷ xs) h g =
      ap (λ r. take n (x ∷ xs) ++ r)
        (concat-chunks n fuel (drop n (x ∷ xs)) h (omega (arith, length-drop n (x ∷ xs))))
      ∙ take-append-drop n (x ∷ xs)
