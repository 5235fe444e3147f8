-- ===== src/S3/Reads.antt =====
-- `get`, `get_with_metadata` and `exists` of the S3 backend against the contract of `BlobStore`.
use xtax.Base.{
  ℕ, Str, Bool, true, Option, none, some, is_some, List, ◌≡◌, refl, sym, ap, ◌∙◌, arith, inl, inr,
  Bool-cases,
}
use xtax.Error.{BlobStorageError}
use xtax.Exec.{ok, Outcome, returns, fails, final, Exec, lift, continue, ◌>>=◌, pure, Result-cases}
use xtax.Types.{Bytes, Stream, Timestamp}
use xtax.Store.Contract.{View, ReadsView, ExistsView}
use xtax.Validate.{validate_blob_key}
use xtax.Validate.Nested.{validate_blob_key-err}
use xtax.S3.{
  Client, Reply, answered, reply_state, GetObjectOutput, get_error, get_object_output,
  is_misconfigured, is_not_found,
}
use xtax.S3.Service.{Part, Keeps, Downloads, bucket_view, as_stream}
use xtax.S3.Upload.{Reply-cases}
use xtax.S3.Store.{get, get_with_metadata, exists, s3_store}

get_error-not_found :
    (bucket k j : Str) (c : Option Str)
    → get_error bucket k c ≡ BlobStorageError.not_found j
    → (k ≡ j) × (is_not_found c ≡ true)
unfolding get_error
get_error-not_found bucket k j c h = elim (Bool-cases (is_misconfigured c)) [
  | inl q ↦ cc (rw q at h)
  | inr q ↦ elim (Bool-cases (is_not_found c)) [
    | inl r ↦ let w = rw (q, r) at h in (ground (arith, w), r)
    | inr r ↦ cc (rw (q, r) at h)
  ]
]

module _ (bucket : Str) (part_size fuel : ℕ) (client : Client) (now : client.State → Timestamp)
    (objects : client.State → Str → Option Bytes) (parts : client.State → Str → List Part)
    (law : Downloads client objects parts) where
  abbrev view : client.State → View
  view = bucket_view client objects parts

  module _ {A : Type 0} (stream_of : A → Stream) (k : Str) (s : client.State) where
    -- What a read tells of the key.
    abbrev Reads : Outcome client.State A → Type 0
    Reads (returns a t) =
        (validate_blob_key k ≡ ok tt)
        × (is_some (view s k) ≡ true)
        × ((stream_of a).fault ≡ none → view s k ≡ some (stream_of a))
        × Keeps client objects parts s t
    Reads (fails e t) =
        ((j : Str) → e ≡ BlobStorageError.not_found j → (j ≡ k) × (view s k ≡ none))
        × Keeps client objects parts s t

    -- Any method that validates the key, gets the object, and returns its body with more.
    abbrev read : (GetObjectOutput → A) → Outcome client.State A
    read f =
        continue (lift (validate_blob_key k) s)
          (λ _. get_object_output bucket client now k >>= λ o. pure (f o))

    got-view :
        (t : client.State) (o : GetObjectOutput)
        → client.get_object k s ≡ answered o t
        → o.body.fault ≡ none
        → view s k ≡ some o.body
    got-view t o e f =
        ap as_stream (law.get_body k s t o e f)
        ∙ ap (λ x. some (record { bytes = o.body.bytes; fault = x })) (sym f)

    kept_after :
        (r : Reply client.State GetObjectOutput)
        → client.get_object k s ≡ r
        → Keeps client objects parts s (reply_state r)
    kept_after r e j =
        ap (λ (x : Reply client.State GetObjectOutput). objects (reply_state x) j) (sym e)
        ∙ law.get_kept k s j

    known_some : (o : Option Bytes) → is_some o ≡ true → is_some (as_stream o) ≡ true
    known_some none h = cc
    known_some (some b) h = refl

    read-Reads :
        (f : GetObjectOutput → A)
        → ((o : GetObjectOutput) → stream_of (f o) ≡ o.body)
        → Reads (read f)
    unfolding get_object_output
    read-Reads f same = elim (Result-cases (validate_blob_key k)) [
      | inr (e, q) ↦ let (m, r) = validate_blob_key-err k e q in rw q (λ j h. cc (r, h), λ j. refl)
      | inl (_, q) ↦ elim (Reply-cases (client.get_object k s)) [
        | inl (o, t, e) ↦
            rw (q, e)
              (
                q,
                known_some _ (law.get_found k s t o e),
                λ h.
                    got-view t o e (ap (λ (x : Stream). x.fault) (sym (same o)) ∙ h)
                    ∙ ap some (sym (same o)),
                kept_after _ e,
              )
        | inr (c, t, e) ↦
            rw (q, e)
              (
                λ j h.
                    let n = get_error-not_found bucket k j c h in
                    (sym n.0, ap as_stream (law.get_missing k s t c e n.1)),
                kept_after _ e,
              )
      ]
    ]

  Reads-final :
      {A : Type 0} (stream_of : A → Stream) (k : Str) (s : client.State)
      (o : Outcome client.State A)
      → Reads stream_of k s o
      → (j : Str) → view (final o) j ≡ view s j
  Reads-final stream_of k s (returns a t) h j = ap as_stream (h.3 j)
  Reads-final stream_of k s (fails e t) h j = ap as_stream (h.1 j)

  Reads-ReadsView :
      {A : Type 0} (stream_of : A → Stream) (method : Str → Exec client.State A)
      → ((k : Str) (s : client.State) → Reads stream_of k s (method k s))
      → ReadsView (s3_store bucket part_size fuel client now) view stream_of method
  Reads-ReadsView stream_of method h = record {
    keeps = λ k s j. Reads-final stream_of k s _ (h k s) j;
    found = λ k s a t q. let r = h k s in let g = (rw q at r) in (g.0, g.1, g.2);
    missing = λ k s j t q. let r = h k s in (rw q at r).0 j refl;
  }

  -- `get` of the S3 backend keeps the contract.
  pub get-ReadsView :
      ReadsView
        (s3_store bucket part_size fuel client now)
        view
        (λ st. st)
        (get bucket part_size fuel client now)
  unfolding get
  get-ReadsView =
      Reads-ReadsView (λ st. st) _ (λ k s. read-Reads (λ st. st) k s (λ o. o.body) (λ o. refl))

  pub get_with_metadata-ReadsView :
      ReadsView
        (s3_store bucket part_size fuel client now)
        view
        (λ a. a.1)
        (get_with_metadata bucket part_size fuel client now)
  unfolding get_with_metadata
  get_with_metadata-ReadsView =
      Reads-ReadsView (λ a. a.1) _ (λ k s. read-Reads (λ a. a.1) k s _ (λ o. refl))

  -- What `exists` tells of the key.
  abbrev Tells : Str → client.State → Outcome client.State Bool → Type 0
  Tells k s (returns b t) = (b ≡ is_some (view s k)) × Keeps client objects parts s t
  Tells k s (fails e t) = Keeps client objects parts s t

  head_kept_after :
      (k : Str) (s : client.State) (r : Reply client.State (Unit {0}))
      → client.head_object k s ≡ r
      → Keeps client objects parts s (reply_state r)
  head_kept_after k s r e j =
      ap (λ (x : Reply client.State (Unit {0})). objects (reply_state x) j) (sym e)
      ∙ law.head_kept k s j

  exists-Tells :
      (k : Str) (s : client.State) → Tells k s (exists bucket part_size fuel client now k s)
  unfolding exists
  exists-Tells k s = elim (Result-cases (validate_blob_key k)) [
    | inr (e, q) ↦ rw (q, exists) (λ j. refl)
    | inl (_, q) ↦ elim (Reply-cases (client.head_object k s)) [
      | inl (u, t, e) ↦
          rw (q, e, exists)
            (
              sym (known_some (λ (x : Stream). x) k s _ (law.head_found k s t u e)),
              head_kept_after k s _ e,
            )
      | inr (c, t, e) ↦ elim (Bool-cases (is_misconfigured c)) [
        | inl m ↦ rw (q, e, m, exists) (head_kept_after k s _ e)
        | inr m ↦ elim (Bool-cases (is_not_found c)) [
          | inl n ↦
              rw (q, e, m, n, exists)
                (
                  ap (λ o. is_some (as_stream o)) (sym (law.head_missing k s t c e n)),
                  head_kept_after k s _ e,
                )
          | inr n ↦ rw (q, e, m, n, exists) (head_kept_after k s _ e)
        ]
      ]
    ]
  ]

  Tells-final :
      (k : Str) (s : client.State) (o : Outcome client.State Bool)
      → Tells k s o
      → (j : Str) → view (final o) j ≡ view s j
  Tells-final k s (returns b t) h j = ap as_stream (h.1 j)
  Tells-final k s (fails e t) h j = ap as_stream (h j)

  pub exists-ExistsView : ExistsView (s3_store bucket part_size fuel client now) view
  exists-ExistsView = record {
    keeps = λ k s j. Tells-final k s _ (exists-Tells k s) j;
    tells = λ k s b t q. let r = exists-Tells k s in (rw q at r).0;
  }
