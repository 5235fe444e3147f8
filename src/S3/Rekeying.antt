-- ===== src/S3/Rekeying.antt =====
-- `rekey` of the encryption layer over the S3 backend.
use mathlib.Core.Path.{subst}
use xtax.Base.{
  ℕ, zero, suc, Str, Bool, true, false, Option, none, some, List, [], ◌∷◌, ◌<◌, ◌≡◌, sym, ap, ◌∙◌,
  inl, inr, Bool-cases, Option-cases,
}
use xtax.Error.{BlobStorageError}
use xtax.Exec.{Outcome, fails, final, continue, Outcome-cases, Result-cases, try_map, beside}
use xtax.Types.{Bytes, Timestamp, BlobInput, BlobMeta}
use xtax.Filter.{ListFilter, suffix_filter}
use xtax.Validate.{validate_blob_key}
use xtax.Store.{BlobVisitor}
use xtax.Store.Contract.{View}
use xtax.Encrypt.Provider.{EncryptionProvider, IsSound}
use xtax.Encrypt.View.{decrypted}
use xtax.Encrypt.Rekey.{rekey}
use xtax.Encrypt.Rekeying.{IsAtomic, VisitsHeaders, rekey-SameBlobs}
use xtax.S3.{Client, reply_state, map_refused, Object}
use xtax.S3.Listing.{request_prefix, object_meta, visit_page, fetch_page, visit_pages}
use xtax.S3.Service.{Part, Keeps, Uploads, Downloads, Lists, bucket_view, as_stream}
use xtax.S3.Upload.{Reply-cases}
use xtax.S3.Puts.{put_blob-Stores, put-PutsView}
use xtax.S3.Reads.{get-ReadsView}
use xtax.S3.Store.{put_blob, put_blobs, put, s3_store}

-- The pages of a visit, for what the visitor keeps.
module _ (bucket : Str) (client : Client) (objects : client.State → Str → Option Bytes)
    (parts : client.State → Str → List Part)
    (remaining : client.State → Option Str → Option Str → List Object)
    (law : Lists client objects parts remaining) (filter : ListFilter) (P : client.State → Type 0)
    (visitor : BlobVisitor client.State ℕ)
    (same : (s t : client.State)
      → ((j : Str) → bucket_view client objects parts t j ≡ bucket_view client objects parts s j)
      → P s
      → P t)
    (calls : (k : Str) (m : Option BlobMeta) (n : ℕ) (s : client.State)
      → filter.matches k none ≡ true
      → P s
      → P (final (visitor k m (n, s))).1) where
  Page : Type 0
  Page = Outcome (ℕ × client.State) Bool

  visit_page-keeps :
      (os : List Object) (n : ℕ) (s : client.State)
      → P s
      → P (final (visit_page filter visitor os (n, s))).1
  unfolding visit_page
  visit_page-keeps [] n s h = h
  visit_page-keeps (o ∷ os) n s h = elim (Option-cases o.key) [
    | inl e ↦ rw (e, visit_page) (visit_page-keeps os n s h)
    | inr (k, e) ↦ elim (Bool-cases (filter.matches k none)) [
      | inr q ↦ rw (e, q, visit_page) (visit_page-keeps os n s h)
      | inl q ↦
          let called = calls k (some (object_meta k o)) n s q h in
          elim (Outcome-cases (visitor k (some (object_meta k o)) (n, s))) [
            | inr (x, y, v) ↦ rw (e, q, visit_page, v) (rw v at called)
            | inl (true, y, v) ↦
                rw (e, q, visit_page, v) (visit_page-keeps os y.0 y.1 (rw v at called))
            | inl (false, y, v) ↦ rw (e, q, visit_page, v) (rw v at called)
          ]
    ]
  ]

  visit_pages-keeps :
      (fuel : ℕ) (token : Option Str) (n : ℕ) (s : client.State)
      → P s
      → P (final (visit_pages bucket client ℕ filter visitor fuel token (n, s))).1
  unfolding visit_pages fetch_page
  visit_pages-keeps zero token n s h = h
  visit_pages-keeps (suc fuel) token n s h =
      let asked : P
          (reply_state (client.list_objects_v2 (request_prefix filter.prefix_hint) token s)) =
        same s _ (λ j. ap as_stream (law.list_kept (request_prefix filter.prefix_hint) token s j))
          h in
      elim (Reply-cases (client.list_objects_v2 (request_prefix filter.prefix_hint) token s)) [
        | inr (c, t, e) ↦ rw (e, visit_pages, fetch_page) (subst (λ r. P (reply_state r)) e asked)
        | inl (o, t, e) ↦
            let page = visit_page-keeps o.contents n t (subst (λ r. P (reply_state r)) e asked) in
            elim (Outcome-cases (visit_page filter visitor o.contents (n, t))) [
              | inr (x, y, v) ↦
                  rw (e, visit_pages, fetch_page, map_refused, beside, continue, v) (rw v at page)
              | inl (false, y, v) ↦
                  rw (e, visit_pages, fetch_page, map_refused, beside, continue, v) (rw v at page)
              | inl (true, y, v) ↦ elim (Option-cases o.next_continuation_token) [
                | inl q ↦
                    rw (e, visit_pages, fetch_page, map_refused, beside, continue, v, q)
                      (rw v at page)
                | inr (next, q) ↦
                    rw (e, visit_pages, fetch_page, map_refused, beside, continue, v, q)
                      (visit_pages-keeps fuel (some next) y.0 y.1 (rw v at page))
              ]
            ]
      ]

module _ (bucket : Str) (part_size fuel : ℕ) (client : Client) (now : client.State → Timestamp)
    (objects : client.State → Str → Option Bytes) (parts : client.State → Str → List Part)
    (remaining : client.State → Option Str → Option Str → List Object)
    (uploads : Uploads client objects parts) (downloads : Downloads client objects parts)
    (lists : Lists client objects parts remaining) (pos : 0 < part_size) where
  abbrev view : client.State → View
  view = bucket_view client objects parts

  -- A visit asks for every page, and calls the visitor with the keys that match.
  s3_store-VisitsHeaders :
      (enc : EncryptionProvider client.State) (suffix : Str)
      → VisitsHeaders (s3_store bucket part_size fuel client now) enc suffix view
  s3_store-VisitsHeaders enc suffix P w same calls s h =
      visit_pages-keeps bucket client objects parts remaining lists (suffix_filter suffix) P w same
        calls fuel none 0 s h

  blob_refused :
      (b : BlobInput) (s t : client.State) (e : BlobStorageError)
      → put_blobs bucket part_size fuel client now (b ∷ []) s ≡ fails e t
      → Keeps client objects parts s t
  unfolding put_blobs
  blob_refused b s t e q =
      let stores = put_blob-Stores bucket part_size fuel client now objects parts uploads pos b s in
      elim (Outcome-cases (put_blob bucket part_size fuel client now b s)) [
        | inl (m, u, w) ↦ cc (rw w at q)
        | inr (x, u, w) ↦
            let kept : Keeps client objects parts s u = rw w at stores in
            let ends : u ≡ t = cc (rw w at q) in λ j. ap (λ z. objects z j) (sym ends) ∙ kept j
      ]

  -- A blob that is not stored has changed nothing.
  s3_store-IsAtomic :
      (enc : EncryptionProvider client.State) (suffix : Str)
      → IsAtomic (s3_store bucket part_size fuel client now) enc suffix view
  unfolding put
  s3_store-IsAtomic enc suffix b s t e q j =
      elim (Result-cases (try_map (λ (b : BlobInput). validate_blob_key b.key) (b ∷ []))) [
        | inr (x, v) ↦ let same : s ≡ t = cc (rw v at q) in ap (λ z. view z j) (sym same)
        | inl (us, v) ↦
            elim (Outcome-cases (put_blobs bucket part_size fuel client now (b ∷ []) s)) [
              | inl (ms, u, w) ↦ cc (rw (v, w) at q)
              | inr (x, u, w) ↦
                  let ends : u ≡ t = cc (rw (v, w) at q) in
                  ap (λ z. view z j) (sym ends) ∙ ap as_stream (blob_refused b s u x w j)
            ]
      ]

  -- Over a bucket that answers as documented, whatever its pages, and with a sound provider,
  -- rekeying changes no blob: every key of the layer shows the same stream before and after it,
  -- also when a request is refused or the provider refuses a header on the way.
  pub rekey-s3_store :
      (enc : EncryptionProvider client.State) (suffix : Str)
      → IsSound enc
      → (s : client.State) (j : Str)
      → decrypted enc suffix view
          (final (rekey (s3_store bucket part_size fuel client now) enc suffix s))
          j
        ≡ decrypted enc suffix view s j
  rekey-s3_store enc suffix sound s j =
      rekey-SameBlobs (s3_store bucket part_size fuel client now) enc suffix view sound
        (get-ReadsView bucket part_size fuel client now objects parts downloads)
        (put-PutsView bucket part_size fuel client now objects parts uploads pos)
        (s3_store-IsAtomic enc suffix) (s3_store-VisitsHeaders enc suffix) s j
