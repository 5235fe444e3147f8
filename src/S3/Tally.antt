-- ===== src/S3/Tally.antt =====
-- How `delete` of the S3 backend adds a response to what it knows of the keys.
use mathlib.Core.List.{map-append}
use xtax.Base.{
  Str, Bool, true, false, List, [], ◌∷◌, ◌++◌, ◌≡◌, refl, ap, ◌∙◌, arith, ◌⊎◌, inl, inr, ◌||◌, text,
  contains, contains-append, str_eq, Bool-cases,
}
use xtax.Error.{PerKeyError, KeyError, BatchError}
use xtax.Store.Contract.{failed_keys}
use xtax.S3.{ObjectError, DeleteObjectsOutput}
use xtax.S3.Deletion.{get_or, describe, add_error, add_errors, add_response, deleted_keys}
use xtax.S3.Service.{error_keys, is_missing, missing_keys}

abbrev error_key : ObjectError → Str
error_key e = get_or e.key (text "unknown")

-- An error is recorded for its key, or the key counts as deleted.
add_error-cases :
    (e : ObjectError) (b : BatchError)
    → ((p : PerKeyError) × (add_error e b
          ≡ record b { errors = b.errors ++ (record { key = error_key e; error = p } ∷ []) }))
      ⊎ ((is_missing e ≡ true)
          × (add_error e b ≡ record b { succeeded = b.succeeded ++ (error_key e ∷ []) }))
unfolding add_error
add_error-cases e b =
    let code = get_or e.code (text "Unknown") in
    let message = get_or e.message (text "") in
    elim (Bool-cases (str_eq code (text "AccessDenied"))) [
      | inl q ↦ inl (PerKeyError.permission_denied (describe code message), rw (q, add_error) refl)
      | inr q ↦ elim (Bool-cases (is_missing e)) [
        | inl r ↦ inr (r, rw (q, r, add_error) refl)
        | inr r ↦ inl (PerKeyError.unknown (describe code message), rw (q, r, add_error) refl)
      ]
    ]

-- What is known of a key: it is among the deleted ones, or among the errors.
abbrev pub IsKnown : BatchError → Str → Type 0
IsKnown b j = (contains b.succeeded j ≡ true) ⊎ (contains (failed_keys b.errors) j ≡ true)

contains_more :
    (ks : List Str) (k j : Str) → contains (ks ++ (k ∷ [])) j ≡ (contains ks j || str_eq k j)
unfolding contains
contains_more ks k j = ground (arith, contains-append ks (k ∷ []) j)

failed_more :
    (es : List KeyError) (e : KeyError) (j : Str)
    → contains (failed_keys (es ++ (e ∷ []))) j ≡ (contains (failed_keys es) j || str_eq e.key j)
failed_more es e j =
    ap (λ ks. contains ks j) (map-append (λ (x : KeyError). x.key) es (e ∷ []))
    ∙ contains_more (failed_keys es) e.key j

add_error-IsKnown :
    (e : ObjectError) (b : BatchError) (j : Str)
    → IsKnown b j ⊎ (str_eq (error_key e) j ≡ true)
    → IsKnown (add_error e b) j
add_error-IsKnown e b j h = elim (add_error-cases e b) [
  | inl (p, q) ↦
      let f = failed_more b.errors (record { key = error_key e; error = p }) j in
      rw q (ground (arith, f))
  | inr (m, q) ↦ let f = contains_more b.succeeded (error_key e) j in rw q (ground (arith, f))
]

add_error-succeeded :
    (e : ObjectError) (b : BatchError) (j : Str)
    → contains (add_error e b).succeeded j ≡ true
    → (contains b.succeeded j ≡ true) ⊎ (contains (missing_keys (e ∷ [])) j ≡ true)
unfolding contains
add_error-succeeded e b j h = elim (add_error-cases e b) [
  | inl (p, q) ↦ inl (rw q at h)
  | inr (m, q) ↦
      let f = contains_more b.succeeded (error_key e) j in
      let g = rw q at h in rw m (ground (arith, f, g))
]

pub add_errors-IsKnown :
    (es : List ObjectError) (b : BatchError) (j : Str)
    → IsKnown b j ⊎ (contains (error_keys es) j ≡ true)
    → IsKnown (add_errors es b) j
unfolding add_errors contains
add_errors-IsKnown [] b j h = ground arith
add_errors-IsKnown (e ∷ es) b j h =
    add_errors-IsKnown es (add_error e b) j (elim (Bool-cases (str_eq (error_key e) j)) [
      | inl q ↦ inl (add_error-IsKnown e b j (inr q))
      | inr q ↦ elim h [
        | inl k ↦ inl (add_error-IsKnown e b j (inl k))
        | inr k ↦ inr (ground arith)
      ]
    ])

or_nested : (a c : Bool) → (a || c) ≡ ((a || false) || c)
or_nested true c = refl
or_nested false c = refl

missing_keys-cons :
    (e : ObjectError) (es : List ObjectError) (j : Str)
    → contains (missing_keys (e ∷ es)) j
      ≡ (contains (missing_keys (e ∷ [])) j || contains (missing_keys es) j)
unfolding contains
missing_keys-cons e es j = elim (Bool-cases (is_missing e)) [
  | inl q ↦ rw q (or_nested (str_eq (error_key e) j) (contains (missing_keys es) j))
  | inr q ↦ rw q refl
]

pub add_errors-succeeded :
    (es : List ObjectError) (b : BatchError) (j : Str)
    → contains (add_errors es b).succeeded j ≡ true
    → (contains b.succeeded j ≡ true) ⊎ (contains (missing_keys es) j ≡ true)
unfolding add_errors
add_errors-succeeded [] b j h = inl h
add_errors-succeeded (e ∷ es) b j h =
    let c = missing_keys-cons e es j in
    elim (add_errors-succeeded es (add_error e b) j h) [
      | inr m ↦ inr (c ∙ ground (arith, m))
      | inl k ↦ elim (add_error-succeeded e b j k) [
        | inl k' ↦ inl k'
        | inr m ↦ inr (c ∙ ground (arith, m))
      ]
    ]

-- Every key that was known, or that the response reports, is known afterwards.
pub add_response-IsKnown :
    (r : DeleteObjectsOutput) (b : BatchError) (j : Str)
    → IsKnown b j
      ⊎ (contains (deleted_keys r.deleted) j ≡ true)
      ⊎ (contains (error_keys r.errors) j ≡ true)
    → IsKnown (add_response r b) j
unfolding add_response
add_response-IsKnown r b j h =
    add_errors-IsKnown r.errors (record b { succeeded = b.succeeded ++ deleted_keys r.deleted }) j
      (ground (arith, contains-append b.succeeded (deleted_keys r.deleted) j))

-- A key counts as deleted only if it did before, or if the response says that it is gone.
pub add_response-succeeded :
    (r : DeleteObjectsOutput) (b : BatchError) (j : Str)
    → contains (add_response r b).succeeded j ≡ true
    → (contains b.succeeded j ≡ true)
      ⊎ (contains (deleted_keys r.deleted) j ≡ true)
      ⊎ (contains (missing_keys r.errors) j ≡ true)
unfolding add_response
add_response-succeeded r b j h = ground (
  arith,
  add_errors-succeeded r.errors (record b { succeeded = b.succeeded ++ deleted_keys r.deleted }) j
      h,
  contains-append b.succeeded (deleted_keys r.deleted) j,
)
