-- ===== src/Encrypt/Lawful.antt =====
-- The encryption layer as a whole.
use xtax.Base.{Str}
use xtax.Store.{BlobStore}
use xtax.Store.Contract.{View, IsLawful}
use xtax.Encrypt.Provider.{EncryptionProvider, IsSound}
use xtax.Encrypt.Layer.{encrypted_store}
use xtax.Encrypt.View.{decrypted}
use xtax.Encrypt.Opening.{get-ReadsView, get_with_metadata-ReadsView}
use xtax.Encrypt.Batch.{put-PutsView}
use xtax.Encrypt.Deletes.{delete-DeletesView}
use xtax.Encrypt.Listing.{exists-ExistsView, list-ListsView}

-- Over any store that keeps the contract of `BlobStore` and with any provider that is sound, the
-- encryption layer keeps the contract for the view that shows decrypted blobs: no headers, and no
-- ciphertext without its header.
pub encrypted_store-IsLawful :
    (inner : BlobStore) (enc : EncryptionProvider inner.State) (suffix : Str)
    (view : inner.State → View)
    → IsSound enc
    → IsLawful inner view
    → IsLawful (encrypted_store inner enc suffix) (decrypted enc suffix view)
encrypted_store-IsLawful inner enc suffix view sound law = record {
  get = get-ReadsView inner enc sound suffix view law.get;
  get_with_metadata =
      get_with_metadata-ReadsView inner enc sound suffix view law.get law.get_with_metadata;
  exists = exists-ExistsView inner enc suffix view law.exists;
  put = put-PutsView inner enc sound suffix view law.put law.delete;
  delete = delete-DeletesView inner enc suffix view law.delete;
  list = list-ListsView inner enc suffix view law.exists law.list;
}
