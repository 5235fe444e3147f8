-- ===== src/Validate/Keys.antt =====
-- Keys and their components as types: a key that is accepted is its list of components.
use mathlib.Core.Equiv.{IsEquiv, iso_to_equiv}
use mathlib.Core.HLevel.{Σ_prop_path, Unit-prop, ¬_prop, ×_prop}
use native.Mathlib.Nat.{ℕ_set}
use xtax.Base.{Str, List, [], ◌∷◌, ◌≡◌, ◌≢◌, refl, All, split}
use xtax.Exec.{Result, ok}
use xtax.Types.{key_separator}
use xtax.Validate.{validate_blob_key}
use xtax.Validate.Components.{
  join, IsComponent, split-join, validate_blob_key-iff-IsKeyOf, split-IsKeyOf,
}

-- The keys that the stores accept.
abbrev pub ValidKey : Type 0
ValidKey = (k : Str) × (validate_blob_key k ≡ ok tt)

-- One component or more.
abbrev pub AreComponents : List Str → Type 0
AreComponents cs = (cs ≢ []) × All IsComponent cs

abbrev pub ComponentPath : Type 0
ComponentPath = (cs : List Str) × AreComponents cs

Result_unit-set : IsSet (Result (Unit {0}))
Result_unit-set = hlevel (ℕ_set)

IsComponent-prop : (c : Str) → IsProp (IsComponent c)
IsComponent-prop c = hlevel (ℕ_set)

All-prop : (cs : List Str) → IsProp (All IsComponent cs)
All-prop [] = Unit-prop
All-prop (c ∷ cs) = ×_prop (IsComponent-prop c) (All-prop cs)

AreComponents-prop : (cs : List Str) → IsProp (AreComponents cs)
AreComponents-prop cs = ×_prop ¬_prop (All-prop cs)

-- A key taken apart, and components put together.
abbrev pub split_key : ValidKey → ComponentPath
split_key v =
    let k = split-IsKeyOf v.0 v.1 in (split key_separator v.0, (k.some_component, k.components))

abbrev join_key : ComponentPath → ValidKey
join_key p = (
  join p.0,
  (validate_blob_key-iff-IsKeyOf (join p.0)).1
      (p.0, record { some_component = p.1.0; components = p.1.1; joined = refl }),
)

join_key-split_key : (v : ValidKey) → join_key (split_key v) ≡ v
join_key-split_key v =
    Σ_prop_path (λ k. Result_unit-set (validate_blob_key k) (ok tt)) (split-IsKeyOf v.0 v.1).joined

split_key-join_key : (p : ComponentPath) → split_key (join_key p) ≡ p
split_key-join_key p =
    Σ_prop_path AreComponents-prop {u = split_key (join_key p)} {v = p} (split-join p.0 p.1.0 p.1.1)

-- A key that is accepted and a nonempty list of components are the same thing: splitting at the
-- separators is an equivalence, so that no key has two readings and every list of components has
-- its key.
pub split_key-IsEquiv : IsEquiv split_key
split_key-IsEquiv =
    (iso_to_equiv (record {
      fun = split_key;
      inv = join_key;
      rinv = split_key-join_key;
      linv = join_key-split_key;
    })).1
