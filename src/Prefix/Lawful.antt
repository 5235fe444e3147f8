-- ===== src/Prefix/Lawful.antt =====
-- The prefix layer as a whole.
use xtax.Base.{Str}
use xtax.Store.{BlobStore}
use xtax.Store.Contract.{View, IsLawful}
use xtax.Prefix.{prefix_store}
use xtax.Prefix.Reads.{logical, get-ReadsView, get_with_metadata-ReadsView, exists-ExistsView}
use xtax.Prefix.Writes.{put-PutsView}
use xtax.Prefix.Deletes.{delete-DeletesView}
use xtax.Prefix.Listing.{list-ListsView}

-- Over any store that keeps the contract of `BlobStore`, the prefix layer keeps it too, for the
-- view in which a logical key stands for the key behind the prefix.
pub prefix_store-IsLawful :
    (inner : BlobStore) (prefix : Str) (view : inner.State → View)
    → IsLawful inner view
    → IsLawful (prefix_store inner prefix) (logical prefix view)
prefix_store-IsLawful inner prefix view law = record {
  get = get-ReadsView inner prefix view law.get;
  get_with_metadata = get_with_metadata-ReadsView inner prefix view law.get_with_metadata;
  exists = exists-ExistsView inner prefix view law.exists;
  put = put-PutsView inner prefix view law.put;
  delete = delete-DeletesView inner prefix view law.delete;
  list = list-ListsView inner prefix view law.list;
}
