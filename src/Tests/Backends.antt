-- ===== src/Tests/Backends.antt =====
-- A build with S3 that asks for parts of no bytes.
use xtax.Base.{ℕ, max, text, true, none, ◌≡◌}
use xtax.Exec.{returns}
use xtax.Store.Contract.{IsLawful}
use xtax.S3.{min_multipart_part_size}
use xtax.S3.Service.{bucket_view}
use xtax.S3.Store.{s3_store}
use xtax.Builder.Backend.{build_raw_arc, with_multipart_part_size, with_s3, with_s3-IsLawful}
use xtax.Tests.Bucket.{
  objects, parts, remaining, client, client-Uploads, client-Downloads, client-Deletes, client-Lists,
}
use xtax.Tests.Files.{memory_disk}

with_s3-IsLawful_example :
    (part_size : ℕ) × (build_raw_arc
        (λ p. p)
        (λ p. true)
        memory_disk
        9
        (with_multipart_part_size 0 (with_s3 client (λ _. 0) (text "bucket")))
        (λ _. none)
      ≡ returns (s3_store (text "bucket") part_size 9 client (λ _. 0)) (λ _. none))
    × (part_size ≡ max 0 min_multipart_part_size)
    × IsLawful
        (s3_store (text "bucket") part_size 9 client (λ _. 0))
        (bucket_view client objects parts)
with_s3-IsLawful_example =
    with_s3-IsLawful (λ p. p) (λ p. true) memory_disk 9 0 client (λ _. 0) (text "bucket")
      (λ _. none) objects parts remaining client-Uploads client-Downloads client-Deletes
      client-Lists
