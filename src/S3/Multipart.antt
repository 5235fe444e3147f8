-- ===== src/S3/Multipart.antt =====
-- crates/xtax-blob-storage/src/s3/multipart.rs: a blob in parts.
use xtax.Base.{
  ℕ, zero, suc, ◌+◌, ◌/◌, ◌%◌, ◌^◌, ltb, Str, text, Option, none, some, List, [], ◌∷◌, ◌++◌, length,
  take, drop, is_empty, true, false, if◌then◌else◌,
}
use xtax.Error.{BlobStorageError, Cause, from_text}
use xtax.Exec.{Result, ok, err, returns, fails, Exec, lift, ◌>>=◌}
use xtax.Types.{Bytes, Stream, Timestamp, BlobMeta}
use xtax.Encrypt.{about_key}
use xtax.S3.{
  Client, answered, refused, CompletedPart, map_refused, reply_state, request_error, stored_meta,
}

-- What the loop keeps between the parts. A part number is the bits of an `i32`.
pub record Parts : Type 0 where
  pub completed : List CompletedPart
  pub part_number : ℕ
  pub total_size : ℕ

abbrev pub no_parts : Parts
no_parts = record { completed = []; part_number = 1; total_size = 0 }

-- A part of `n` bytes was uploaded and answered with a tag.
abbrev pub add_part : Option Str → ℕ → Parts → Parts
add_part tag n p = record {
  completed =
      p.completed
      ++ (record { e_tag = elim tag [ none ↦ [] | some t ↦ t ]; part_number = p.part_number } ∷ []);
  part_number = (p.part_number + 1) % 2 ^ 32;
  total_size = (p.total_size + n) % 2 ^ 64;
}

-- `reader.take(part_size).read_to_end`: a read that fills the part does not see the error that
-- stands at the end of the stream.
unfoldable pub read_part : Str → ℕ → Stream → Result Bytes
read_part key part_size reader =
    if ltb (length reader.bytes) part_size
    then elim reader.fault [
      | none ↦ ok reader.bytes
      | some e ↦ err (
          BlobStorageError.storage (about_key (text "failed to read blob data for key ") key)
            (some (Cause.io e)))
    ]
    else ok (take part_size reader.bytes)

abbrev pub after_part : ℕ → Stream → Stream
after_part part_size reader = record { bytes = drop part_size reader.bytes; fault = reader.fault }

-- A number in decimal; an `i32` has at most ten digits.
unfoldable pub decimal : ℕ → ℕ → Str
decimal zero n = []
decimal (suc fuel) n =
    let rest = decimal fuel (n / 10) in
    if ltb n 10 then (b'0' + n) ∷ [] else rest ++ ((b'0' + n % 10) ∷ [])

-- The loop of the model ran out of fuel.
abbrev pub stuck : BlobStorageError
stuck = from_text (text "stuck")

module _ (bucket : Str) (client : Client) (now : client.State → Timestamp) where
  unfoldable pub start_multipart : Str → Exec client.State Str
  unfolding request_error
  start_multipart key = do
    upload_id ← λ s.
        map_refused
          (request_error bucket (about_key (text "S3 CreateMultipartUpload failed for key ") key))
          (client.create_multipart_upload key s)
    lift (elim upload_id [
      | none ↦ err (
          BlobStorageError.storage
            (about_key (text "Missing upload_id in CreateMultipartUpload response for key ") key)
            none)
      | some id ↦ ok id
    ])

  -- The answer is passed over.
  abbrev pub abort_upload : Str → Str → client.State → client.State
  abort_upload key upload_id s = reply_state (client.abort_multipart_upload key upload_id s)

  abbrev part_error : Str → Str → ℕ → Option Str → BlobStorageError
  part_error key upload_id number code =
      request_error bucket
        (about_key (text "S3 UploadPart failed for key ") key
          ++ (text " (part "
              ++ (decimal 11 number ++ (text ", upload_id " ++ (upload_id ++ text ")")))))
        code

  unfoldable pub upload_parts : ℕ → ℕ → Str → Str → Parts → Stream → Exec client.State Parts
  unfolding read_part request_error decimal
  upload_parts part_size zero key upload_id p reader s = fails stuck s
  upload_parts part_size (suc fuel) key upload_id p reader s =
      elim (read_part key part_size reader) [
        | err e ↦ fails e (abort_upload key upload_id s)
        | ok buffer ↦ elim (is_empty buffer) [
          | true ↦ returns p s
          | false ↦ elim (client.upload_part key upload_id p.part_number buffer s) [
            | answered tag t ↦
                upload_parts part_size fuel key upload_id (add_part tag (length buffer) p)
                  (after_part part_size reader) t
            | refused code t ↦
                fails (part_error key upload_id p.part_number code) (abort_upload key upload_id t)
          ]
        ]
      ]

  unfoldable pub complete_multipart : Str → Str → Parts → Exec client.State BlobMeta
  unfolding request_error
  complete_multipart key upload_id p = do
    etag ← λ s.
        map_refused
          (request_error bucket (about_key (text "S3 CompleteMultipartUpload failed for key ") key))
          (client.complete_multipart_upload key upload_id p.completed s)
    stored_meta bucket client now key p.total_size etag

  -- With parts of one byte or more, one round for each byte and one for the end are enough.
  unfoldable pub upload_multipart : ℕ → Str → Stream → Exec client.State BlobMeta
  unfolding start_multipart upload_parts complete_multipart
  upload_multipart part_size key reader = do
    upload_id ← start_multipart key
    parts ← upload_parts part_size (suc (length reader.bytes)) key upload_id no_parts reader
    complete_multipart key upload_id parts
