-- ===== src/Filter.antt =====
-- crates/xtax-blob-storage/src/list_filter.rs: the trait as a record of its two methods, and the
-- filters that the crate has.
use xtax.Base.{Str, Bool, not, Option, none, some, starts_with, ends_with, ◌≡◌, true}
use xtax.Types.{BlobMeta}

pub record ListFilter : Type 0 where
  pub matches : Str → Option BlobMeta → Bool
  pub prefix_hint : Option Str

abbrev pub suffix_filter : Str → ListFilter
suffix_filter suffix = record { matches = λ key _. ends_with suffix key; prefix_hint = none }

abbrev pub prefix_filter : Str → ListFilter
prefix_filter prefix = record {
  matches = λ key _. starts_with prefix key;
  prefix_hint = some prefix;
}

abbrev pub not_filter : ListFilter → ListFilter
not_filter inner = record { matches = λ key meta. not (inner.matches key meta); prefix_hint = none }

abbrev pub exclude_suffix : Str → ListFilter
exclude_suffix suffix = not_filter (suffix_filter suffix)

-- A hint never leaves out a key that the filter matches.
abbrev pub HintHolds : ListFilter → Option Str → Type 0
HintHolds f none = Unit
HintHolds f (some hint) =
    (key : Str) (meta : Option BlobMeta) → f.matches key meta ≡ true → starts_with hint key ≡ true

abbrev pub IsHinted : ListFilter → Type 0
IsHinted f = HintHolds f f.prefix_hint
