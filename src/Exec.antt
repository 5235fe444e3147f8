-- ===== src/Exec.antt =====
-- Fallible code: `Result` for pure functions, and `Exec` for methods that act on the state of a
-- store. What was written before an error stays written, so an outcome always has a state.
use xtax.Base.{◌≡◌, refl, ◌⊎◌, inl, inr, List, [], ◌∷◌}
use xtax.Error.{BlobStorageError}

pub data Result {ℓ} (A : Type ℓ) : Type ℓ where
  ok : A → Result A
  err : BlobStorageError → Result A

pub data Outcome {ℓ κ} (S : Type ℓ) (A : Type κ) : Type (ℓ ⊔ κ) where
  returns : A → S → Outcome S A
  fails : BlobStorageError → S → Outcome S A

abbrev pub Exec {ℓ κ} : Type ℓ → Type κ → Type (ℓ ⊔ κ)
Exec S A = S → Outcome S A

module _ {ℓ κ} {S : Type ℓ} {A : Type κ} where
  abbrev pub final : Outcome S A → S
  final (returns a s) = s
  final (fails e s) = s

  abbrev pub pure : A → Exec S A
  pure a s = returns a s

  abbrev pub raise : BlobStorageError → Exec S A
  raise e s = fails e s

  abbrev pub lift : Result A → Exec S A
  lift (ok a) s = returns a s
  lift (err e) s = fails e s

  -- `map_err`.
  abbrev pub map_err : (BlobStorageError → BlobStorageError) → Outcome S A → Outcome S A
  map_err f (returns a s) = returns a s
  map_err f (fails e s) = fails (f e) s

-- What a method does with the outcome of its last step.
module _ {ℓ κ μ} {S : Type ℓ} {A : Type κ} {B : Type μ} where
  abbrev pub continue : Outcome S A → (A → Exec S B) → Outcome S B
  continue (returns a s) f = f a s
  continue (fails e s) f = fails e s

  infixl 10 ◌>>=◌ ◌>>◌
  abbrev pub ◌>>=◌ : Exec S A → (A → Exec S B) → Exec S B
  ◌>>=◌ m f s = continue (m s) f

  abbrev pub ◌>>◌ : Exec S A → Exec S B → Exec S B
  ◌>>◌ m n s = continue (m s) (λ _. n)

  -- `match` on the result of an awaited call: both cases go on.
  abbrev pub match_outcome :
      Outcome S A → (A → Exec S B) → (BlobStorageError → Exec S B) → Outcome S B
  match_outcome (returns a s) f g = f a s
  match_outcome (fails e s) f g = g e s

  pub continue-eq-returns :
      (m : Outcome S A) (f : A → Exec S B) {b : B} {t : S}
      → continue m f ≡ returns b t
      → (a : A) × (s : S) × (m ≡ returns a s) × (f a s ≡ returns b t)
  continue-eq-returns (returns a s) f h = (a, s, refl, h)
  continue-eq-returns (fails e s) f h = cc

  -- What the first step leaves true and every second step keeps is true at the end.
  pub continue-final {ν} :
      (P : S → Type ν) (o : Outcome S A) (f : A → Exec S B)
      → P (final o)
      → ((a : A) (u : S) → P u → P (final (f a u)))
      → P (final (continue o f))
  continue-final P (returns a s) f h g = g a s h
  continue-final P (fails e s) f h g = h

-- `?` between fallible pure steps.
abbrev pub and_then {ℓ κ} : {A : Type ℓ} {B : Type κ} → Result A → (A → Result B) → Result B
and_then (ok a) f = f a
and_then (err e) f = err e

-- `iter().map(f).collect::<Result<Vec<_>>>()`: the first error ends the collection.
unfoldable pub try_map {ℓ κ} : {A : Type ℓ} {B : Type κ} → (A → Result B) → List A → Result (List B)
try_map f [] = ok []
try_map f (x ∷ xs) = and_then (f x) λ y. and_then (try_map f xs) λ ys. ok (y ∷ ys)

-- A method of a store, run by code that keeps a state of its own beside it.
abbrev pub beside {ℓ κ μ} :
    {V : Type ℓ} {S : Type κ} {A : Type μ} → V → Outcome S A → Outcome (V × S) A
beside v (returns a s) = returns a (v, s)
beside v (fails e s) = fails e (v, s)

pub Outcome-cases {ℓ κ} :
    {S : Type ℓ} {A : Type κ} (m : Outcome S A)
    → ((a : A) × (s : S) × (m ≡ returns a s)) ⊎ ((e : BlobStorageError) × (s : S) × (m ≡ fails e s))
Outcome-cases (returns a s) = inl (a, s, refl)
Outcome-cases (fails e s) = inr (e, s, refl)

pub Result-cases {ℓ} :
    {A : Type ℓ} (r : Result A) → ((a : A) × (r ≡ ok a)) ⊎ ((e : BlobStorageError) × (r ≡ err e))
Result-cases (ok a) = inl (a, refl)
Result-cases (err e) = inr (e, refl)
