-- ===== src/Prefix.antt =====
-- crates/xtax-blob-storage/src/prefix.rs: the layer that puts a prefix before every key.
pub mod Reads
pub mod Writes
pub mod Deletes
pub mod Listing
pub mod Visiting
pub mod Lawful
use mathlib.Core.Option
use xtax.Base.{
  Str, Bool, true, Option, none, some, List, [], ◌++◌, map, starts_with, strip_prefix, is_empty,
  filter_by, filter_map_by, if◌then◌else◌,
}
use xtax.Error.{BlobStorageError, KeyError}
use xtax.Exec.{Result, ok, returns, Exec, pure, lift, map_err, continue, ◌>>=◌, and_then, try_map}
use xtax.Types.{Stream, BlobInput, BlobMeta, PutResult}
use xtax.Filter.{ListFilter}
use xtax.Store.{BlobStore, BlobVisitor}
use xtax.Validate.{validate_blob_key}

-- The hint of the caller's filter, behind the prefix of the store.
pub full_hint : Str → ListFilter → Str
full_hint store_prefix filter = elim filter.prefix_hint [
  | none ↦ store_prefix
  | some hint ↦ if is_empty hint then store_prefix else store_prefix ++ hint
]

unfoldable pub combined_prefix_filter : Str → ListFilter → ListFilter
unfolding full_hint
combined_prefix_filter store_prefix filter = record {
  matches = λ key _. starts_with (full_hint store_prefix filter) key;
  prefix_hint = some (full_hint store_prefix filter);
}

module _ (prefix : Str) where
  unfoldable pub prefixed : Str → Result Str
  prefixed key =
      and_then (validate_blob_key key)
        λ _. and_then (validate_blob_key (prefix ++ key)) λ _. ok (prefix ++ key)

  -- `prefixed`, on the key of an input.
  unfoldable pub prefixed_input : BlobInput → Result BlobInput
  prefixed_input b = and_then (prefixed b.key) λ key. ok (record b { key = key })

  -- The key without the prefix, or the key as it is where it does not have it.
  abbrev pub stripped_or : Str → Str
  stripped_or key = elim (strip_prefix prefix key) [ none ↦ key | some stripped ↦ stripped ]

  unfoldable pub strip_meta : BlobMeta → BlobMeta
  strip_meta meta = record meta { key = stripped_or meta.key }

  -- The loop over the metadata that the inner `put` returns.
  abbrev pub strip_result : PutResult → PutResult
  strip_result result = record { blobs = map strip_meta result.blobs }

  unfoldable pub map_error : Str → BlobStorageError → BlobStorageError
  map_error logical_key (BlobStorageError.not_found _) = BlobStorageError.not_found logical_key
  map_error logical_key other = other

  unfoldable pub strip_key_error : KeyError → KeyError
  strip_key_error ke = record ke { key = stripped_or ke.key }

  unfoldable pub map_batch_error : BlobStorageError → BlobStorageError
  unfolding strip_key_error
  map_batch_error (BlobStorageError.batch b) = BlobStorageError.batch (record {
    succeeded = filter_map_by (strip_prefix prefix) b.succeeded;
    errors = map strip_key_error b.errors;
  })
  map_batch_error other = other

  -- The metadata that a visitor sees: a key without the prefix becomes the empty text.
  unfoldable pub visited_meta : BlobMeta → BlobMeta
  visited_meta m = record m {
    key = elim (strip_prefix prefix m.key) [ none ↦ [] | some stripped ↦ stripped ];
  }

  unfoldable pub prefix_visitor : {S V : Type 0} → ListFilter → BlobVisitor S V → BlobVisitor S V
  unfolding visited_meta
  prefix_visitor filter inner key meta x = elim (strip_prefix prefix key) [
    | none ↦ returns true x
    | some stripped ↦
        let stripped_meta = Option.map visited_meta meta in
        if filter.matches stripped stripped_meta
        then inner stripped stripped_meta x
        else returns true x
  ]

  -- One entry of `list_with_metadata`.
  unfoldable pub strip_entry : ListFilter → BlobMeta → Option BlobMeta
  strip_entry filter meta = elim (strip_prefix prefix meta.key) [
    | none ↦ none
    | some stripped ↦
        let renamed : BlobMeta = record meta { key = stripped } in
        if filter.matches stripped (some renamed) then some renamed else none
  ]

module _ (inner : BlobStore) (prefix : Str) where
  unfoldable pub put : List BlobInput → Exec inner.State PutResult
  put blobs = do
    renamed ← lift (try_map (prefixed_input prefix) blobs)
    result ← inner.put renamed
    pure (strip_result prefix result)

  unfoldable pub get : Str → Exec inner.State Stream
  unfolding prefixed map_error
  get key = do
    full ← lift (prefixed prefix key)
    λ s. map_err (map_error prefix key) (inner.get full s)

  unfoldable pub delete : List Str → Exec inner.State (Unit {0})
  delete keys = do
    full ← lift (try_map (prefixed prefix) keys)
    λ s. map_err (map_batch_error prefix) (inner.delete full s)

  unfoldable pub list : ListFilter → Exec inner.State (List Str)
  unfolding combined_prefix_filter
  list filter = do
    keys ← inner.list (combined_prefix_filter prefix filter)
    pure (filter_by (λ k. filter.matches k none) (filter_map_by (strip_prefix prefix) keys))

  unfoldable pub visit :
      (V : Type 0) → ListFilter → BlobVisitor inner.State V → Exec (V × inner.State) (Unit {0})
  unfolding combined_prefix_filter prefix_visitor
  visit V filter visitor =
      inner.visit V (combined_prefix_filter prefix filter) (prefix_visitor prefix filter visitor)

  unfoldable pub exists : Str → Exec inner.State Bool
  unfolding prefixed map_error
  exists key = do
    full ← lift (prefixed prefix key)
    λ s. map_err (map_error prefix key) (inner.exists full s)

  unfoldable pub get_with_metadata : Str → Exec inner.State (BlobMeta × Stream)
  unfolding prefixed map_error strip_meta
  get_with_metadata key = do
    a ← do
      full ← lift (prefixed prefix key)
      λ s. map_err (map_error prefix key) (inner.get_with_metadata full s)
    pure (strip_meta prefix a.0, a.1)

  unfoldable pub list_with_metadata : ListFilter → Exec inner.State (List BlobMeta)
  unfolding combined_prefix_filter strip_entry
  list_with_metadata filter = do
    metas ← inner.list_with_metadata (combined_prefix_filter prefix filter)
    pure (filter_map_by (strip_entry prefix filter) metas)

  abbrev pub prefix_store : BlobStore
  prefix_store = record {
    State = inner.State;
    put = put;
    get = get;
    delete = delete;
    list = list;
    exists = exists;
    get_with_metadata = get_with_metadata;
    visit = visit;
    list_with_metadata = list_with_metadata;
  }
