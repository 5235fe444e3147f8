-- ===== src/Store/Batches.antt =====
-- Batches of keys: their validation, and the keys that a write leaves alone.
use xtax.Base.{Str, false, List, [], ◌∷◌, map, ◌≡◌, refl, ap, ◌∙◌, arith, ◌⊎◌, inl, inr, contains}
use xtax.Error.{BlobStorageError}
use xtax.Exec.{Result, ok, err, and_then, try_map, Result-cases}
use xtax.Types.{BlobInput}
use xtax.Store.Contract.{View, write_all, keys_of, validate_all}
use xtax.Validate.{validate_blob_key}
use xtax.Validate.Nested.{validate_blob_key-err}

pub validate_all-cases :
    (ks : List Str)
    → ((us : List (Unit {0})) × (validate_all ks ≡ ok us))
      ⊎ ((m : Str) × (validate_all ks ≡ err (BlobStorageError.invalid_input m)))
unfolding validate_all try_map
validate_all-cases [] = inl ([], refl)
validate_all-cases (k ∷ ks) = elim (Result-cases (validate_blob_key k)) [
  | inr (x, e) ↦ let (m, q) = validate_blob_key-err k x e in inr (m, ground (arith, q))
  | inl (u, e) ↦ elim (validate_all-cases ks) [
    | inr (m, e') ↦ inr (m, ground arith)
    | inl (us, e') ↦ inl (u ∷ us, ground arith)
  ]
]

pub write_all_other :
    (bs : List BlobInput) (v : View) (j : Str)
    → contains (keys_of bs) j ≡ false
    → write_all bs v j ≡ v j
unfolding contains
write_all_other [] v j h = refl
write_all_other (b ∷ bs) v j h = write_all_other bs _ j (ground arith) ∙ ground arith

pub try_map-map {ℓ κ μ} :
    {A : Type ℓ} {B : Type κ} {C : Type μ} (f : B → Result C) (g : A → B) (xs : List A)
    → try_map (λ x. f (g x)) xs ≡ try_map f (map g xs)
unfolding try_map
try_map-map f g [] = refl
try_map-map f g (x ∷ xs) =
    ap (λ r. and_then (f (g x)) λ y. and_then r λ ys. ok (y ∷ ys)) (try_map-map f g xs)
