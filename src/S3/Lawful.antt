-- ===== src/S3/Lawful.antt =====
-- The S3 backend as a whole.
use xtax.Base.{ℕ, ◌<◌, Str, Option, List}
use xtax.Types.{Bytes, Timestamp}
use xtax.Store.Contract.{IsLawful}
use xtax.S3.{Client, Object}
use xtax.S3.Service.{Part, Uploads, Downloads, Deletes, Lists, bucket_view}
use xtax.S3.Store.{s3_store}
use xtax.S3.Puts.{put-PutsView}
use xtax.S3.Reads.{get-ReadsView, get_with_metadata-ReadsView, exists-ExistsView}
use xtax.S3.Deletes.{delete-DeletesView}
use xtax.S3.Lists.{list-ListsView}

-- Over a service that behaves as the documentation of S3 says, and for parts of one byte or more,
-- the S3 backend keeps the contract of `BlobStore`, for the view that shows the objects of the
-- bucket: blobs of any size, batches of any number of keys, listings of any number of pages, and
-- requests that are refused at any point.
pub s3_store-IsLawful :
    (bucket : Str) (part_size fuel : ℕ) (client : Client) (now : client.State → Timestamp)
    (objects : client.State → Str → Option Bytes) (parts : client.State → Str → List Part)
    (remaining : client.State → Option Str → Option Str → List Object)
    → Uploads client objects parts
    → Downloads client objects parts
    → Deletes client objects parts
    → Lists client objects parts remaining
    → 0 < part_size
    → IsLawful (s3_store bucket part_size fuel client now) (bucket_view client objects parts)
s3_store-IsLawful bucket part_size fuel client now objects parts remaining up down del ls pos =
    record {
      get = get-ReadsView bucket part_size fuel client now objects parts down;
      get_with_metadata =
          get_with_metadata-ReadsView bucket part_size fuel client now objects parts down;
      exists = exists-ExistsView bucket part_size fuel client now objects parts down;
      put = put-PutsView bucket part_size fuel client now objects parts up pos;
      delete = delete-DeletesView bucket part_size fuel client now objects parts del;
      list = list-ListsView bucket part_size fuel client now objects parts remaining ls;
    }
