-- ===== src/Encrypt/Layer.antt =====
-- crates/xtax-blob-storage/src/encrypt/visitors.rs, and the methods of encrypt/store.rs that go
-- over whole listings; the layer as a `BlobStore`.
use xtax.Base.{Str, true, none, List, [], ◌∷◌, ◌++◌, ends_with, str_le, if◌then◌else◌}
use xtax.Error.{BlobStorageError}
use xtax.Exec.{returns, fails, Exec, pure, match_outcome, beside, ◌>>=◌}
use xtax.Types.{BlobMeta}
use xtax.Filter.{ListFilter, suffix_filter}
use xtax.Store.{BlobStore, BlobVisitor}
use xtax.Encrypt.{header_key, put, get, delete, list, exists, get_with_metadata}
use xtax.Encrypt.Provider.{EncryptionProvider}

-- `sort_by(|a, b| a.key.cmp(&b.key))`, which is stable.
unfoldable pub insert_meta : BlobMeta → List BlobMeta → List BlobMeta
insert_meta m [] = m ∷ []
insert_meta m (n ∷ ns) = if str_le m.key n.key then m ∷ n ∷ ns else n ∷ insert_meta m ns

unfoldable pub sort_metas : List BlobMeta → List BlobMeta
unfolding insert_meta
sort_metas [] = []
sort_metas (m ∷ ms) = insert_meta m (sort_metas ms)

module _ (inner : BlobStore) (header_suffix : Str) where
  -- The visitor that leaves out headers and data blobs without a header.
  unfoldable pub encrypt_visitor :
      {V : Type 0} → ListFilter → BlobVisitor inner.State V → BlobVisitor inner.State V
  encrypt_visitor filter visitor key meta (v, s) =
      if ends_with header_suffix key
      then returns true (v, s)
      else match_outcome (beside v (inner.exists (key ++ header_suffix) s))
          (λ header_exists x.
            if header_exists
            then (if filter.matches key meta then visitor key meta x else returns true x)
            else returns true x)
          (λ e x. fails e x)

  unfoldable pub visit :
      (V : Type 0) → ListFilter → BlobVisitor inner.State V → Exec (V × inner.State) (Unit {0})
  unfolding encrypt_visitor
  visit V filter visitor = inner.visit V (suffix_filter []) (encrypt_visitor filter visitor)

  -- The metadata of one key of the listing, or nothing where the loop goes on without it. An
  -- error of `exists` is passed over, and so is a blob that is gone by now.
  unfoldable pub meta_of_present : Str → Exec inner.State (List BlobMeta)
  meta_of_present key s =
      match_outcome (inner.get_with_metadata key s)
        (λ found t. returns (record found.0 { key = key } ∷ []) t)
        (λ e t. elim e [ BlobStorageError.not_found _ ↦ returns [] t | other ↦ fails other t ])

  unfoldable pub meta_of : ListFilter → Str → Exec inner.State (List BlobMeta)
  unfolding header_key meta_of_present
  meta_of filter key s =
      if ends_with header_suffix key
      then returns [] s
      else if filter.matches key none
      then match_outcome (inner.exists (header_key header_suffix key) s)
          (λ header_exists t. if header_exists then meta_of_present key t else returns [] t)
          (λ e t. returns [] t)
      else returns [] s

  unfoldable pub metas_of : ListFilter → List Str → Exec inner.State (List BlobMeta)
  metas_of filter [] = pure []
  metas_of filter (key ∷ keys) = do
    found ← meta_of filter key
    rest ← metas_of filter keys
    pure (found ++ rest)

  unfoldable pub list_with_metadata : ListFilter → Exec inner.State (List BlobMeta)
  unfolding sort_metas
  list_with_metadata filter = do
    all_keys ← inner.list (suffix_filter [])
    metas ← metas_of filter all_keys
    pure (sort_metas metas)

-- `EncryptedBlobStore`, as a store.
abbrev pub encrypted_store : (inner : BlobStore) → EncryptionProvider inner.State → Str → BlobStore
encrypted_store inner enc header_suffix = record {
  State = inner.State;
  put = put inner enc header_suffix;
  get = get inner enc header_suffix;
  delete = delete inner enc header_suffix;
  list = list inner enc header_suffix;
  exists = exists inner enc header_suffix;
  get_with_metadata = get_with_metadata inner enc header_suffix;
  visit = visit inner header_suffix;
  list_with_metadata = list_with_metadata inner header_suffix;
}
