-- ===== src/Tests/Bucket.antt =====
-- A service in memory that keeps the documentation of S3, and the backend on it.
use mathlib.Core.List.{append-nil}
use xtax.Base.{
  ℕ, Str, Bool, text, Option, none, some, is_some, List, [], ◌∷◌, ◌++◌, map, filter_by, concat,
  contains, ◌≡◌, refl, sym, ap, ◌∙◌, arith, ◌⊎◌, inl, inr, ◌&&◌, starts_with, str_eq, str_eq_iff,
  if◌then◌else◌, Bool-cases,
}
use xtax.Types.{Bytes, Stream, cursor}
use xtax.Store.Contract.{IsLawful}
use xtax.S3.{
  Client, Reply, answered, refused, reply_state, GetObjectOutput, DeleteObjectsOutput, Object,
  ListOutput,
}
use xtax.S3.Deletion.{deleted_keys}
use xtax.S3.Listing.{or_default}
use xtax.S3.Service.{Part, named_part, Uploads, Downloads, Deletes, Lists, bucket_view, object_keys}
use xtax.S3.Store.{s3_store}
use xtax.Exec.{returns}
use xtax.S3.Multipart.{no_parts, upload_parts, read_part, upload_multipart}
use xtax.S3.Upload.{Sends, upload_parts-Sends}
use xtax.S3.Writes.{Stores, upload_multipart-Stores}
use xtax.S3.Termination.{Returns, upload_multipart-Returns}
use xtax.S3.Lawful.{s3_store-IsLawful}
use xtax.Tests.Memory.{Entries, find, drop_all, find-drop_all, keys_in, contains-keys_in}

-- The objects, and the parts of the upload that is open.
pub record Bucket : Type 0 where
  pub stored : Entries
  pub uploaded : List Part

abbrev bytes_of : Option Stream → Option Bytes
bytes_of none = none
bytes_of (some st) = some st.bytes

abbrev pub objects : Bucket → Str → Option Bytes
objects s k = bytes_of (find s.stored k)

abbrev pub parts : Bucket → Str → List Part
parts s id = s.uploaded

abbrev object : Str → Object
object k = record { key = some k; size = some 1; e_tag = none; last_modified = none }

abbrev keys_with : Option Str → Entries → List Object
keys_with p s = map object (filter_by (starts_with (or_default p [])) (keys_in s))

pub answer_get : Str → Option Stream → Bucket → Reply Bucket GetObjectOutput
answer_get k none s = refused (some (text "NoSuchKey")) s
answer_get k (some st) s =
    answered
      (record { body = cursor st.bytes; content_length = none; e_tag = none; last_modified = none })
      s

pub answer_head : Option Stream → Bucket → Reply Bucket (Unit {0})
answer_head none s = refused (some (text "NotFound")) s
answer_head (some st) s = answered tt s

abbrev pub client : Client
client = record {
  State = Bucket;
  put_object =
      λ k b s. answered (some (text "tag")) (record s { stored = (k, cursor b) ∷ s.stored });
  create_multipart_upload = λ k s. answered (some (text "id")) (record s { uploaded = [] });
  upload_part = λ k id n b s.
      answered none (record s { uploaded = s.uploaded ++ (named_part none n b ∷ []) });
  complete_multipart_upload = λ k id cs s.
      answered none
        (record s { stored = (k, cursor (concat (map (λ p. p.body) s.uploaded))) ∷ s.stored });
  abort_multipart_upload = λ k id s. answered tt (record s { uploaded = [] });
  get_object = λ k s. answer_get k (find s.stored k) s;
  head_object = λ k s. answer_head (find s.stored k) s;
  delete_objects = λ ks s.
      answered (record { deleted = map some ks; errors = [] })
        (record s { stored = drop_all ks s.stored });
  list_objects_v2 = λ p token s.
      answered (record { contents = keys_with p s.stored; next_continuation_token = none }) s;
}

-- A write in front.
objects-write :
    (k : Str) (b : Bytes) (s : Bucket) (j : Str)
    → objects (record s { stored = (k, cursor b) ∷ s.stored }) j
      ≡ (if str_eq k j then some b else objects s j)
unfolding find
objects-write k b s j = elim (Bool-cases (str_eq k j)) [ inl q ↦ rw q refl | inr q ↦ rw q refl ]

added_part :
    (n : ℕ) (b : Bytes) (s t : Bucket) (tag : Option Str)
    → answered none (record s { uploaded = s.uploaded ++ (named_part none n b ∷ []) })
      ≡ answered tag t
    → t.uploaded ≡ s.uploaded ++ (named_part tag n b ∷ [])
added_part n b s t tag e =
    let x : (none ≡ tag) × (record s { uploaded = s.uploaded ++ (named_part none n b ∷ []) } ≡ t) =
      ground arith in
    ap (λ (u : Bucket). u.uploaded) (sym x.1) ∙ ap (λ g. s.uploaded ++ (named_part g n b ∷ [])) x.0

pub client-Uploads : Uploads client objects parts
client-Uploads = record {
  put_stored =
      λ k b s t tag e j. ap (λ u. objects u j) (sym (ap reply_state e)) ∙ objects-write k b s j;
  put_refused = λ k b s t c e j. cc;
  started = λ k id s t e. ap (λ (u : Bucket). u.uploaded) (sym (ap reply_state e));
  create_kept = λ k s j. refl;
  added = λ k id n b s t tag e. added_part n b s t tag e;
  upload_kept = λ k id n b s j. refl;
  abort_kept = λ k id s j. refl;
  complete_stored = λ k id cs s t tag e same j.
      ap (λ u. objects u j) (sym (ap reply_state e))
      ∙ objects-write k (concat (map (λ p. p.body) s.uploaded)) s j;
  complete_refused = λ k id cs s t c e j. cc;
}

get-cases :
    (k : Str) (o : Option Stream) (s : Bucket)
    → ((o ≡ none) × (answer_get k o s ≡ refused (some (text "NoSuchKey")) s))
      ⊎ ((st : Stream) × (o ≡ some st)
          × (answer_get k o s
              ≡ answered
                  (record {
                    body = cursor st.bytes;
                    content_length = none;
                    e_tag = none;
                    last_modified = none;
                  })
                  s))
unfolding answer_get
get-cases k none s = inl (refl, refl)
get-cases k (some st) s = inr (st, refl, refl)

head-cases :
    (o : Option Stream) (s : Bucket)
    → ((o ≡ none) × (answer_head o s ≡ refused (some (text "NotFound")) s))
      ⊎ ((st : Stream) × (o ≡ some st) × (answer_head o s ≡ answered tt s))
unfolding answer_head
head-cases none s = inl (refl, refl)
head-cases (some st) s = inr (st, refl, refl)

answered_body :
    (o : GetObjectOutput) (st : Stream) (s t : Bucket) (x : GetObjectOutput)
    → answered x s ≡ answered o t
    → x ≡ o
answered_body o st s t x e = ground arith

pub client-Downloads : Downloads client objects parts
client-Downloads = record {
  get_found = λ k s t o e. elim (get-cases k (find s.stored k) s) [
    | inl (q, r) ↦ cc (r, e)
    | inr (st, q, r) ↦ rw q refl
  ];
  get_body = λ k s t o e f. elim (get-cases k (find s.stored k) s) [
    | inl (q, r) ↦ cc (r, e)
    | inr (st, q, r) ↦
        rw q
          (ap (λ (x : GetObjectOutput). some x.body.bytes) (answered_body o st s t _ (sym r ∙ e)))
  ];
  get_missing = λ k s t c e n. elim (get-cases k (find s.stored k) s) [
    | inl (q, r) ↦ rw q refl
    | inr (st, q, r) ↦ cc (r, e)
  ];
  get_kept = λ k s j. elim (get-cases k (find s.stored k) s) [
    | inl (q, r) ↦ rw r refl
    | inr (st, q, r) ↦ rw r refl
  ];
  head_found = λ k s t u e. elim (head-cases (find s.stored k) s) [
    | inl (q, r) ↦ cc (r, e)
    | inr (st, q, r) ↦ rw q refl
  ];
  head_missing = λ k s t c e n. elim (head-cases (find s.stored k) s) [
    | inl (q, r) ↦ rw q refl
    | inr (st, q, r) ↦ cc (r, e)
  ];
  head_kept = λ k s j. elim (head-cases (find s.stored k) s) [
    | inl (q, r) ↦ rw r refl
    | inr (st, q, r) ↦ rw r refl
  ];
}

objects-drop :
    (ks : List Str) (s : Bucket) (j : Str)
    → objects (record s { stored = drop_all ks s.stored }) j
      ≡ (if contains ks j then none else objects s j)
objects-drop ks s j = elim (Bool-cases (contains ks j)) [
  | inl q ↦ rw (find-drop_all ks s.stored j, q) refl
  | inr q ↦ rw (find-drop_all ks s.stored j, q) refl
]

deleted_keys-some : (ks : List Str) → deleted_keys (map some ks) ≡ ks
deleted_keys-some [] = refl
deleted_keys-some (k ∷ ks) = ap (λ r. k ∷ r) (deleted_keys-some ks)

response_same :
    (ks : List Str) (s u t : Bucket) (r : DeleteObjectsOutput)
    → answered (record { deleted = map some ks; errors = [] }) u ≡ answered r t
    → (r ≡ record { deleted = map some ks; errors = [] }) × (t ≡ u)
response_same ks s u t r e = ground arith

pub client-Deletes : Deletes client objects parts
unfolding contains
client-Deletes = record {
  reported = λ ks s t r e j h.
      let x = response_same ks s _ t r e in inl (rw (x.0, deleted_keys-some ks) h);
  deleted_gone = λ ks s t r e j h.
      let x = response_same ks s _ t r e in
      let listed = rw (x.0, deleted_keys-some ks) at h in
      (listed, ap (λ u. objects u j) x.1 ∙ objects-drop ks s j ∙ rw listed refl);
  missing_gone = λ ks s t r e j h. let x = response_same ks s _ t r e in cc (rw x.0 at h);
  delete_none = λ ks s j h. objects-drop ks s j ∙ rw h (ground (arith, Bool-cases (contains ks j)));
  delete_others = λ ks s j h. objects-drop ks s j ∙ rw h refl;
}

abbrev pub remaining : Bucket → Option Str → Option Str → List Object
remaining s p token = keys_with p s.stored

contains-keys_with :
    (q : Str → Bool) (ks : List Str) (k : Str)
    → contains (object_keys (map object (filter_by q ks))) k ≡ (contains ks k && q k)
unfolding contains
contains-keys_with q [] k = refl
contains-keys_with q (j ∷ ks) k = elim (Bool-cases (q j)) [
  | inl e ↦ rw e (ground (arith, contains-keys_with q ks k, str_eq_iff j k, λ (i : j ≡ k). ap q i))
  | inr e ↦ rw e (ground (arith, contains-keys_with q ks k, str_eq_iff j k, λ (i : j ≡ k). ap q i))
]

known : (o : Option Stream) → is_some o ≡ is_some (bytes_of o)
known none = refl
known (some st) = refl

page_same :
    (s u t : Bucket) (p : Option Str) (o : ListOutput)
    → answered (record { contents = keys_with p s.stored; next_continuation_token = none }) u
      ≡ answered o t
    → o ≡ record { contents = keys_with p s.stored; next_continuation_token = none }
page_same s u t p o e = ground arith

pub client-Lists : Lists client objects parts remaining
client-Lists = record {
  page = λ p token s t o e. rw (page_same s _ t p o e) (sym (append-nil (keys_with p s.stored)));
  enumerates = λ p s k.
      contains-keys_with (starts_with (or_default p [])) (keys_in s.stored) k
      ∙ ap (λ b. b && starts_with (or_default p []) k)
          (contains-keys_in s.stored k ∙ known (find s.stored k));
  list_kept = λ p token s j. refl;
}

s3_store-IsLawful_example :
    IsLawful (s3_store (text "bucket") 3 9 client (λ _. 0)) (bucket_view client objects parts)
s3_store-IsLawful_example =
    s3_store-IsLawful (text "bucket") 3 9 client (λ _. 0) objects parts remaining client-Uploads
      client-Downloads client-Deletes client-Lists (omega arith)

abbrev empty_bucket : Bucket
empty_bucket = record { stored = []; uploaded = [] }

abbrev seven : Stream
seven = cursor (1 ∷ 2 ∷ 3 ∷ 4 ∷ 5 ∷ 6 ∷ 7 ∷ [])

-- Seven bytes in parts of three.
opened :
    (u : Bucket)
    → client.create_multipart_upload (text "a") u
      ≡ answered (some (text "id")) (record u { uploaded = [] })
opened u = refl

upload_runs :
    upload_parts
      (text "bucket")
      client
      (λ _. 0)
      3
      8
      (text "a")
      (text "id")
      no_parts
      seven
      empty_bucket
    ≡ returns
        (record {
          completed =
              record { e_tag = []; part_number = 1 }
              ∷ record { e_tag = []; part_number = 2 }
              ∷ record { e_tag = []; part_number = 3 }
              ∷ [];
          part_number = 4;
          total_size = 7;
        })
        (record {
          stored = [];
          uploaded =
              named_part none 1 (1 ∷ 2 ∷ 3 ∷ [])
              ∷ named_part none 2 (4 ∷ 5 ∷ 6 ∷ [])
              ∷ named_part none 3 (7 ∷ [])
              ∷ [];
        })
unfolding upload_parts read_part
upload_runs = refl

upload_parts-Sends_example :
    Sends
      (text "bucket")
      client
      (λ _. 0)
      objects
      parts
      client-Uploads
      3
      (text "a")
      (text "id")
      8
      no_parts
      seven
      empty_bucket
      (upload_parts
        (text "bucket")
        client
        (λ _. 0)
        3
        8
        (text "a")
        (text "id")
        no_parts
        seven
        empty_bucket)
upload_parts-Sends_example =
    upload_parts-Sends (text "bucket") client (λ _. 0) objects parts client-Uploads 3 (text "a")
      (text "id") 8 no_parts seven empty_bucket (omega arith) (omega arith)

upload_multipart-Stores_example :
    Stores
      (text "bucket")
      client
      (λ _. 0)
      objects
      parts
      client-Uploads
      (text "a")
      seven
      empty_bucket
      (upload_multipart (text "bucket") client (λ _. 0) 3 (text "a") seven empty_bucket)
upload_multipart-Stores_example =
    upload_multipart-Stores (text "bucket") client (λ _. 0) objects parts client-Uploads 3
      (text "a") seven empty_bucket (omega arith)

upload_multipart-Returns_example :
    Returns (upload_multipart (text "bucket") client (λ _. 0) 3 (text "a") seven empty_bucket)
upload_multipart-Returns_example =
    upload_multipart-Returns (text "bucket") client (λ _. 0) (text "a") seven 3 empty_bucket
      (omega arith) refl (λ u. (text "id", record u { uploaded = [] }, opened u))
      (λ id n b s. (none, record s { uploaded = s.uploaded ++ (named_part none n b ∷ []) }, refl))
      (λ id cs s. (
        none,
        record s { stored = (text "a", cursor (concat (map (λ p. p.body) s.uploaded))) ∷ s.stored },
        refl,
      ))
