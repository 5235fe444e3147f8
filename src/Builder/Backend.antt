-- ===== src/Builder/Backend.antt =====
-- crates/xtax-blob-storage/src/builder/backend.rs, and the methods of builder.rs that choose the
-- backend: the store that a build starts from. These methods keep the layers of the builder; here
-- is what they do to its field `backend`.
use xtax.Base.{ℕ, ◌<◌, max, Str, Bool, Option, List, ◌≡◌, refl, ap, arith}
use xtax.Exec.{returns, Exec, pure, ◌>>=◌}
use xtax.Types.{Bytes, Timestamp}
use xtax.Store.{BlobStore}
use xtax.Store.Contract.{IsLawful}
use xtax.S3.{Client, default_multipart_part_size, min_multipart_part_size, clamp_part_size}
use xtax.S3.Store.{s3_store}
use xtax.S3.Service.{Part, Uploads, Downloads, Deletes, Lists, bucket_view}
use xtax.S3.Lawful.{s3_store-IsLawful}
use xtax.S3.{Object}
use xtax.Fs.Disk.{Disk}
use xtax.Fs.Files.{new_root}
use xtax.Fs.Walk.{fs_store}

-- A client of S3 comes with its clock.
pub data BackendKind : Type 1 where
  fs : Str → BackendKind
  s3 : (client : Client) → (client.State → Timestamp) → Str → ℕ → BackendKind
  custom : BlobStore → BackendKind

unfoldable pub with_fs : Str → BackendKind
with_fs root = BackendKind.fs root

unfoldable pub with_s3 : (client : Client) → (client.State → Timestamp) → Str → BackendKind
with_s3 client now bucket = BackendKind.s3 client now bucket default_multipart_part_size

unfoldable pub with_backend : BlobStore → BackendKind
with_backend store = BackendKind.custom store

unfoldable pub with_multipart_part_size : ℕ → BackendKind → BackendKind
unfolding min_multipart_part_size
with_multipart_part_size size (BackendKind.s3 client now bucket _) =
    BackendKind.s3 client now bucket (max size min_multipart_part_size)
with_multipart_part_size size other = other

module _ (debug : Str → Str) (is_utf8 : Str → Bool) (disk : Disk) (fuel : ℕ) where
  unfoldable pub build_raw_arc : BackendKind → Exec disk.State BlobStore
  build_raw_arc (BackendKind.fs given) = do
    root ← new_root debug disk given
    pure (fs_store debug is_utf8 root disk fuel)
  build_raw_arc (BackendKind.s3 client now bucket part_size) =
      pure (s3_store bucket (clamp_part_size part_size) fuel client now)
  build_raw_arc (BackendKind.custom store) = pure store

  clamp-max :
      (size : ℕ)
      → clamp_part_size (max size min_multipart_part_size) ≡ max size min_multipart_part_size
  unfolding clamp_part_size
  clamp-max size = omega arith

  min_positive : 0 < min_multipart_part_size
  unfolding min_multipart_part_size
  min_positive = omega arith

  -- Whatever part size a build with S3 asks for, zero included, the store that it starts from sends
  -- parts of that size or of five mebibytes, whichever is more, and keeps the contract of
  -- `BlobStore`, over a service that behaves as the documentation of S3 says.
  pub with_s3-IsLawful :
      (size : ℕ) (client : Client) (now : client.State → Timestamp) (bucket : Str) (s : disk.State)
      (objects : client.State → Str → Option Bytes) (parts : client.State → Str → List Part)
      (remaining : client.State → Option Str → Option Str → List Object)
      → Uploads client objects parts
      → Downloads client objects parts
      → Deletes client objects parts
      → Lists client objects parts remaining
      → (part_size : ℕ) × (build_raw_arc
            (with_multipart_part_size size (with_s3 client now bucket))
            s
          ≡ returns (s3_store bucket part_size fuel client now) s)
        × (part_size ≡ max size min_multipart_part_size)
        × IsLawful (s3_store bucket part_size fuel client now) (bucket_view client objects parts)
  unfolding build_raw_arc with_multipart_part_size with_s3
  with_s3-IsLawful size client now bucket s objects parts remaining up down del ls = (
    max size min_multipart_part_size,
    ap (λ p. returns (s3_store bucket p fuel client now) s) (clamp-max size),
    refl,
    s3_store-IsLawful bucket (max size min_multipart_part_size) fuel client now objects parts
        remaining up down del ls (omega (arith, min_positive)),
  )
