-- ===== src/Tests/Rekeying.antt =====
-- Rekeying over a store in memory that visits what the filter matches, and over a bucket.
use xtax.Base.{
  ℕ, Bool, Bool-cases, inl, inr, false, Option, Str, text, true, none, some, List, [], ◌∷◌, length,
  filter_by, ends_with, ◌≡◌, arith,
}
use xtax.Exec.{Outcome, returns, fails, Exec, final}
use xtax.Types.{BlobMeta, cursor}
use xtax.Store.{BlobStore, BlobVisitor, go_on}
use xtax.Store.Contract.{visit_entries, ReadsView, PutsView}
use xtax.Encrypt.{default_header_suffix}
use xtax.Encrypt.View.{decrypted}
use xtax.Encrypt.Rekey.{rekey}
use xtax.Encrypt.Rekeying.{rekey-SameBlobs}
use xtax.Tests.Memory.{Entries, find, memory, memory-IsLawful, memory_atomic}
use xtax.S3.Service.{bucket_view}
use xtax.S3.Store.{s3_store}
use xtax.S3.Rekeying.{rekey-s3_store}
use xtax.Tests.Bucket.{
  Bucket, client, objects, parts, remaining, client-Uploads, client-Downloads, client-Lists,
}
use xtax.Tests.Layers.{mirror, mirror-IsSound}

entries : Entries → List (Str × BlobMeta)
entries [] = []
entries ((k, st) ∷ s) =
    (k, record { key = k; stored_size = length st.bytes; modified_at = 5; etag = none }) ∷ entries s

abbrev shelf : BlobStore
shelf = record memory {
  visit = λ V f w x. visit_entries w (filter_by (λ e. f.matches e.0 (some e.1)) (entries x.1)) x;
}

shelf-ReadsView : ReadsView shelf find (λ st. st) shelf.get
shelf-ReadsView = record {
  keeps = λ k s j. memory-IsLawful.get.keeps k s j;
  found = λ k s a t e. memory-IsLawful.get.found k s a t e;
  missing = λ k s j t e. memory-IsLawful.get.missing k s j t e;
}

shelf-PutsView : PutsView shelf find
shelf-PutsView = record {
  stores = λ bs s r t e j. memory-IsLawful.put.stores bs s r t e j;
  reports = λ bs s r t e. memory-IsLawful.put.reports bs s r t e;
  rejects = λ bs s e h. memory-IsLawful.put.rejects bs s e h;
  others = λ bs s j h. memory-IsLawful.put.others bs s j h;
}

-- The visit goes through what it has read first, while the visitor writes.
entries-VisitsHeaders :
    (P : Entries → Type 0) (w : BlobVisitor Entries ℕ)
    → ((k : Str) (m : Option BlobMeta) (n : ℕ) (s : Entries)
        → ends_with default_header_suffix k ≡ true
        → P s
        → P (final (w k m (n, s))).1)
    → (es : List (Str × BlobMeta)) (n : ℕ) (s : Entries) → P s
    → P (final (visit_entries w (filter_by (λ e. ends_with default_header_suffix e.0) es) (n, s))).1
entries-VisitsHeaders P w keeps [] n s h = h
entries-VisitsHeaders P w keeps ((k, m) ∷ es) n s h =
    elim (Bool-cases (ends_with default_header_suffix k)) [
      | inr q ↦ rw q (entries-VisitsHeaders P w keeps es n s h)
      | inl q ↦ rw q (
          went_on P (w k (some m) (n, s)) _ (keeps k (some m) n s q h)
            (λ i t g. entries-VisitsHeaders P w keeps es i t g))
    ]
  where
    went_on :
        (P : Entries → Type 0) (o : Outcome (ℕ × Entries) Bool)
        (rest : Exec (ℕ × Entries) (Unit {0}))
        → P (final o).1
        → ((i : ℕ) (t : Entries) → P t → P (final (rest (i, t))).1)
        → P (final (go_on o rest)).1
    went_on P (returns true x) rest h g = g x.0 x.1 h
    went_on P (returns false x) rest h g = h
    went_on P (fails e x) rest h g = h

-- A blob with its header.
abbrev sealed : Entries
sealed = (text "a", cursor (3 ∷ 2 ∷ [])) ∷ (text "a.enc-header", cursor (7 ∷ [])) ∷ []

rekey-SameBlobs_example :
    decrypted
      (mirror Entries)
      default_header_suffix
      find
      (final (rekey shelf (mirror Entries) default_header_suffix sealed))
      (text "a")
    ≡ decrypted (mirror Entries) default_header_suffix find sealed (text "a")
rekey-SameBlobs_example =
    rekey-SameBlobs shelf (mirror Entries) default_header_suffix find (mirror-IsSound Entries)
      shelf-ReadsView shelf-PutsView (λ b s t e q. memory_atomic (b ∷ []) s t e q)
      (λ P w same keeps s h. entries-VisitsHeaders P w keeps (entries s) 0 s h) sealed (text "a")

abbrev sealed_bucket : Bucket
sealed_bucket = record { stored = sealed; uploaded = [] }

rekey-s3_store_example :
    decrypted
      (mirror Bucket)
      default_header_suffix
      (bucket_view client objects parts)
      (final (
        rekey
          (s3_store (text "bucket") 3 9 client (λ _. 0))
          (mirror Bucket)
          default_header_suffix
          sealed_bucket))
      (text "a")
    ≡ decrypted
        (mirror Bucket)
        default_header_suffix
        (bucket_view client objects parts)
        sealed_bucket
        (text "a")
rekey-s3_store_example =
    rekey-s3_store (text "bucket") 3 9 client (λ _. 0) objects parts remaining client-Uploads
      client-Downloads client-Lists (omega arith) (mirror Bucket) default_header_suffix
      (mirror-IsSound Bucket) sealed_bucket (text "a")
